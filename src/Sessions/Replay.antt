-- ===== src/Sessions/Replay.antt =====
-- What a revoked token is worth after any further requests.
use mathlib.Core.Path.{subst}
use simple_storage_service.Prelude.{
  ℕ, ◌≤◌, ◌≡◌, refl, true, false, none, some, List, [], ◌∷◌, arith, inl, inr,
}
use simple_storage_service.Prelude.Tests.{Bool-cases}
use simple_storage_service.Prelude.Lists.{All, find}
use simple_storage_service.Prelude.Query.{update_where, count}
use simple_storage_service.Prelude.Text.{Text, text_eq}
use simple_storage_service.Prelude.Result.{ok, err}
use simple_storage_service.Database.{UserSessionRow}
use simple_storage_service.Users.{Accounts}
use simple_storage_service.Sessions.{
  AuthConfig, Jwt, Scrypt, SessionDraw, Tokens, invalid_refresh_token, has_session_guid, is_usable,
  revoke, check_refresh, rotate, refresh, logout, or_refused,
}
use simple_storage_service.Sessions.Rotation.{refresh_iff}
use simple_storage_service.Sessions.Requests.{
  IsSpentRow, IsSpent, Event, run, Avoids, run-IsSpent, issue_tokens-IsSpent, revoking-IsSpent,
}

module _ (jwt : Jwt) (hash : Text → Text) (config : AuthConfig) (scrypt : Scrypt) where
  find-spent :
      (hashed : Text) (sessions : List UserSessionRow)
      → All (IsSpentRow hashed) sessions
      → find (is_usable hashed) sessions ≡ none
  find-spent hashed [] spent = refl
  find-spent hashed (s ∷ sessions) (spent, rest) =
      let later = find-spent hashed sessions rest in
      elim (Bool-cases (text_eq s.refresh_token_hash hashed)) [
        | inl same ↦ rw (same, spent same) later
        | inr differs ↦ rw differs later
      ]

  IsSpent-refresh :
      (a : Accounts) (now : ℕ) (draw : SessionDraw) (token : Text)
      → IsSpent (hash token) a
      → refresh jwt hash config a now draw token ≡ err invalid_refresh_token
  unfolding refresh check_refresh or_refused
  IsSpent-refresh a now draw token spent = rw (find-spent (hash token) a.session spent) refl

  none_usable :
      (hashed : Text) (sessions : List UserSessionRow)
      → count (is_usable hashed) sessions ≡ 0
      → All (IsSpentRow hashed) sessions
  none_usable hashed [] none_left = tt
  none_usable hashed (s ∷ sessions) none_left =
      (λ e. ground arith, none_usable hashed sessions (ground arith))

  All-spent :
      (hashed : Text) (now : ℕ) (sessions : List UserSessionRow)
      → All (IsSpentRow hashed) (
          update_where
            (λ (s : UserSessionRow). text_eq s.refresh_token_hash hashed)
            (revoke now)
            sessions)
  All-spent hashed now [] = tt
  All-spent hashed now (s ∷ sessions) = elim (Bool-cases (text_eq s.refresh_token_hash hashed)) [
    | inl hit ↦ rw hit (λ e. refl, All-spent hashed now sessions)
    | inr miss ↦ rw miss (λ e. cc, All-spent hashed now sessions)
  ]

  -- `refreshTokenHash` is unique in the table: one row with it, wherever it is found.
  spend_found :
      (hashed : Text) (now : ℕ) (sessions : List UserSessionRow) (session : UserSessionRow)
      → find (is_usable hashed) sessions ≡ some session
      → count (is_usable hashed) sessions ≤ 1
      → All (IsSpentRow hashed) (update_where (has_session_guid session.guid) (revoke now) sessions)
  spend_found hashed now [] session found once = tt
  spend_found hashed now (s ∷ sessions) session found once =
      elim (Bool-cases (is_usable hashed s)) [
        | inl here ↦
            let same : s ≡ session = ground arith in
            let none_left : count (is_usable hashed) sessions ≡ 0 = ground arith in
            let hit : has_session_guid session.guid s ≡ true = rw (← same) (ground arith) in
            rw hit (
              λ e. refl,
              revoking-IsSpent jwt hash config scrypt hashed _ now sessions
                  (none_usable hashed sessions none_left),
            )
        | inr later ↦
            let rest = spend_found hashed now sessions session (ground arith) (ground arith) in
            elim (Bool-cases (has_session_guid session.guid s)) [
              | inl hit ↦ rw hit (λ e. refl, rest)
              | inr miss ↦ rw miss (λ e. ground arith, rest)
            ]
      ]

  -- A token that was exchanged is refused for good: after any further sign-ins, refreshes,
  -- sign-outs and changes of accounts whose new tokens hash to something else, at any time. The
  -- hash of the token is unique among the sessions that are not revoked.
  pub replay-refused :
      (a : Accounts) (now : ℕ) (draw : SessionDraw) (token : Text) (tokens : Tokens) (a' : Accounts)
      (events : List Event) (later : ℕ) (next : SessionDraw)
      → count (is_usable (hash token)) a.session ≤ 1
      → refresh jwt hash config a now draw token ≡ ok (tokens, a')
      → text_eq (hash draw.refresh_token) (hash token) ≡ false
      → All (Avoids jwt hash config scrypt (hash token)) events
      → refresh jwt hash config (run jwt hash config scrypt a' events) later next token
        ≡ err invalid_refresh_token
  unfolding rotate
  replay-refused a now draw token tokens a' events later next once h other others =
      let (session, user, x, done) = (refresh_iff jwt hash config a now draw token tokens a').0 h in
      let spent = spend_found (hash token) now a.session session x.held once in
      let issued =
        issue_tokens-IsSpent jwt hash config scrypt (hash token) _ now draw user session.user_agent
          other spent in
      let spent' : IsSpent (hash token) a' =
        subst (λ (r : Tokens × Accounts). IsSpent (hash token) r.1) done issued in
      IsSpent-refresh (run jwt hash config scrypt a' events) later next token
        (run-IsSpent jwt hash config scrypt (hash token) a' events others spent')

  -- So is a token that was signed out with.
  pub logout-refused :
      (a : Accounts) (now : ℕ) (token : Text) (events : List Event) (later : ℕ) (next : SessionDraw)
      → All (Avoids jwt hash config scrypt (hash token)) events
      → refresh jwt hash config
          (run jwt hash config scrypt (logout jwt hash config a now token) events)
          later
          next
          token
        ≡ err invalid_refresh_token
  unfolding logout
  logout-refused a now token events later next others =
      IsSpent-refresh (run jwt hash config scrypt _ events) later next token (
        run-IsSpent jwt hash config scrypt (hash token) _ events others
          (All-spent (hash token) now a.session))
