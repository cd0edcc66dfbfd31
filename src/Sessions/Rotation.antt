-- ===== src/Sessions/Rotation.antt =====
-- When a refresh token is exchanged, and what follows.
use mathlib.Core.Path.{subst}
use simple_storage_service.Prelude.{
  ℕ, ◌+◌, ◌*◌, ◌≤◌, ◌≡◌, ◌↔◌, refl, ap, sym, ◌∙◌, true, false, not, Option, none, some, List, ◌∷◌,
  arith,
}
use simple_storage_service.Prelude.Tests.{◌==◌, ==_iff}
use simple_storage_service.Prelude.Lists.{find, find-holds}
use simple_storage_service.Prelude.Text.{Text, text_eq, text_eq_refl}
use simple_storage_service.Prelude.Result.{ok, guard, >>=-succeeds, >>-succeeds, ok-injective}
use simple_storage_service.Database.{UserRow, UserSessionRow}
use simple_storage_service.Users.{Accounts, is_live_guid, is_active}
use simple_storage_service.Sessions.{
  AuthError, AuthConfig, Jwt, SessionDraw, Tokens, is_usable, is_expired, or_refused, new_session,
  access_payload, issue_tokens, check_refresh, rotate, refresh,
}

-- The session and the account that a token is exchanged for.
pub record Exchanges (hash : Text → Text) (a : Accounts) (now : ℕ) (token : Text)
    (session : UserSessionRow) (user : UserRow) : Type 0 where
  pub held : find (is_usable (hash token)) a.session ≡ some session
  pub in_time : now ≤ session.expires_at
  pub owned : find (is_live_guid session.user_guid) a.user ≡ some user
  pub working : is_active user.status ≡ true

or_refused-ok :
    {A : Type 0} (e : AuthError) (o : Option A) {x : A} → or_refused e o ≡ ok x → o ≡ some x
unfolding or_refused
or_refused-ok e none h = cc
or_refused-ok e (some x) h = ap some (ok-injective h)

module _ (jwt : Jwt) (hash : Text → Text) (config : AuthConfig) where
  check_refresh-Exchanges :
      (a : Accounts) (now : ℕ) (token : Text) (session : UserSessionRow) (user : UserRow)
      → check_refresh jwt hash config a now token ≡ ok (session, user)
      → Exchanges hash a now token session user
  unfolding check_refresh
  check_refresh-Exchanges a now token session user h =
      let (s, found, h1) =
        >>=-succeeds (or_refused _ (find (is_usable (hash token)) a.session)) _ h in
      let (fresh, h2) = >>-succeeds (guard (not (is_expired now s)) _) _ h1 in
      let (u, owner, h3) =
        >>=-succeeds (or_refused _ (find (is_live_guid s.user_guid) a.user)) _ h2 in
      let (live, done) = >>-succeeds (guard (is_active u.status) _) _ h3 in
      let same_s : s ≡ session = cc (ok-injective done) in
      let same_u : u ≡ user = cc (ok-injective done) in
      record {
        held = or_refused-ok _ _ found ∙ ap some same_s;
        in_time = rw (← same_s) (ground arith);
        owned = rw (← same_s) (or_refused-ok _ _ owner ∙ ap some same_u);
        working = rw (← same_u) (ground arith);
      }

  pub Exchanges-check_refresh :
      (a : Accounts) (now : ℕ) (token : Text) (session : UserSessionRow) (user : UserRow)
      → Exchanges hash a now token session user
      → check_refresh jwt hash config a now token ≡ ok (session, user)
  unfolding check_refresh or_refused
  Exchanges-check_refresh a now token session user x =
      let in_time = x.in_time in
      let fresh : is_expired now session ≡ false = ground arith in
      rw x.held (rw fresh (rw x.owned (rw x.working refl)))

  -- A refresh gives a pair of tokens and a state exactly when the token is that of a session that
  -- is not revoked and not expired, of an account that is there and not disabled; the pair and the
  -- state are then those of the rotation.
  pub refresh_iff :
      (a : Accounts) (now : ℕ) (draw : SessionDraw) (token : Text) (tokens : Tokens) (a' : Accounts)
      → (refresh jwt hash config a now draw token ≡ ok (tokens, a')) ↔ (
          (session : UserSessionRow) × (user : UserRow) × Exchanges hash a now token session user
          × (rotate jwt hash config a now draw session user ≡ (tokens, a')))
  unfolding refresh
  refresh_iff a now draw token tokens a' = (
    λ h.
        let ((session, user), checked, done) =
          >>=-succeeds (check_refresh jwt hash config a now token) _ h in
        (
          session,
          user,
          check_refresh-Exchanges a now token session user checked,
          ok-injective done,
        ),
    λ (session, user, x, done).
        rw (Exchanges-check_refresh a now token session user x) (ap ok done),
  )

  -- The newest session is one of the account, that a refresh with the token finds.
  abbrev pub IsAdded : Accounts → UserRow → Text → Type 0
  IsAdded a user token =
      (session : UserSessionRow) × (rest : List UserSessionRow) × (a.session ≡ session ∷ rest)
      × (session.user_guid ≡ user.guid)
      × (is_usable (hash token) session ≡ true)

  IsAdded-rotate :
      (a : Accounts) (now : ℕ) (draw : SessionDraw) (session : UserSessionRow) (user : UserRow)
      → let (tokens, a') = rotate jwt hash config a now draw session user in
        IsAdded a' user tokens.refresh_token
  unfolding rotate issue_tokens
  IsAdded-rotate a now draw session user = (
    new_session jwt hash config now draw user session.user_agent,
    _,
    refl,
    refl,
    rw (text_eq_refl (hash draw.refresh_token)) refl,
  )

  -- The token that a refresh issues is exchanged in its turn at every time until its own lifetime
  -- is over: there is an account, the owner of the session of the first token, such that both
  -- access tokens are signed for it, and the session that each refresh adds is a usable one of it.
  pub refresh-continues :
      (a : Accounts) (now : ℕ) (draw : SessionDraw) (token : Text) (tokens : Tokens) (a' : Accounts)
      (later : ℕ) (next : SessionDraw)
      → refresh jwt hash config a now draw token ≡ ok (tokens, a')
      → later ≤ now + config.refresh_ttl * 1000
      → (session : UserSessionRow) × (user : UserRow) × (tokens' : Tokens) × (a'' : Accounts)
        × Exchanges hash a now token session user
        × (user.guid ≡ session.user_guid)
        × (refresh jwt hash config a' later next tokens.refresh_token ≡ ok (tokens', a''))
        × (tokens.access_token
            ≡ jwt.sign (access_payload jwt hash config user) now config.access_ttl)
        × (tokens'.access_token
            ≡ jwt.sign (access_payload jwt hash config user) later config.access_ttl)
        × IsAdded a' user tokens.refresh_token
        × IsAdded a'' user tokens'.refresh_token
  unfolding rotate issue_tokens
  refresh-continues a now draw token tokens a' later next h soon =
      let (session, user, x, done) = (refresh_iff a now draw token tokens a').0 h in
      let issued = new_session jwt hash config now draw user session.user_agent in
      let same : (user.guid == session.user_guid) ≡ true =
        (let found = find-holds (is_live_guid session.user_guid) a.user x.owned in ground arith) in
      let same_guid : user.guid ≡ session.user_guid = (==_iff user.guid session.user_guid).0 same in
      let next_one : Exchanges hash (rotate jwt hash config a now draw session user).1 later
          draw.refresh_token issued user =
        record {
          held = rw (text_eq_refl (hash draw.refresh_token)) refl;
          in_time = soon;
          owned = rw same_guid x.owned;
          working = x.working;
        } in
      let again : Exchanges hash a' later tokens.refresh_token issued user =
        subst (λ (r : Tokens × Accounts). Exchanges hash r.1 later r.0.refresh_token issued user)
          done next_one in
      let result = rotate jwt hash config a' later next issued user in
      (
        session,
        user,
        result.0,
        result.1,
        x,
        same_guid,
        (refresh_iff a' later next tokens.refresh_token result.0 result.1).1
            (issued, user, again, refl),
        sym (ap (λ (r : Tokens × Accounts). r.0.access_token) done),
        refl,
        subst (λ (r : Tokens × Accounts). IsAdded r.1 user r.0.refresh_token) done
            (IsAdded-rotate a now draw session user),
        IsAdded-rotate a' later next issued user,
      )

  -- Two requests with one token that are both checked before either writes are both answered, and
  -- the tokens of both are then good, although a token is to work once.
  pub rotate-twice :
      (a : Accounts) (now : ℕ) (first second : SessionDraw) (token : Text)
      (session : UserSessionRow) (user : UserRow)
      → check_refresh jwt hash config a now token ≡ ok (session, user)
      → (first.guid == session.guid) ≡ false
      → (text_eq (hash second.refresh_token) (hash first.refresh_token)) ≡ false
      → let (one, a1) = rotate jwt hash config a now first session user in
        let (two, a2) = rotate jwt hash config a1 now second session user in
        Exchanges hash a2 now one.refresh_token
          (new_session jwt hash config now first user session.user_agent)
          user
        × Exchanges hash a2 now two.refresh_token
            (new_session jwt hash config now second user session.user_agent)
            user
  unfolding rotate issue_tokens
  rotate-twice a now first second token session user h other_guid other_hash =
      let x = check_refresh-Exchanges a now token session user h in
      let same : (user.guid == session.user_guid) ≡ true =
        (let found = find-holds (is_live_guid session.user_guid) a.user x.owned in ground arith) in
      let same_guid : user.guid ≡ session.user_guid = (==_iff user.guid session.user_guid).0 same in
      let owner =
        subst (λ (g : ℕ). find (is_live_guid g) a.user ≡ some user) (sym same_guid) x.owned in
      (
        record {
          held = rw other_hash (rw other_guid (rw (text_eq_refl (hash first.refresh_token)) refl));
          in_time = omega arith;
          owned = owner;
          working = x.working;
        },
        record {
          held = rw (text_eq_refl (hash second.refresh_token)) refl;
          in_time = omega arith;
          owned = owner;
          working = x.working;
        },
      )
