-- ===== src/Sessions/Requests.antt =====
-- What requests do to accounts and sessions, and to a token that is spent.
use mathlib.Core.Path.{subst}
use simple_storage_service.Prelude.{
  ℕ, ◌≡◌, refl, Bool, true, false, not, ◌&&◌, Option, List, [], ◌∷◌, map,
}
use simple_storage_service.Prelude.Tests.{◌==◌, leb, is_some}
use simple_storage_service.Prelude.Lists.{All, find}
use simple_storage_service.Prelude.Query.{update_where}
use simple_storage_service.Prelude.Rows.{All-update_where}
use simple_storage_service.Prelude.Text.{Text, text_eq, lower_unit}
use simple_storage_service.Prelude.Result.{
  Result, ok, err, guard, >>=-succeeds, >>-succeeds, ok-injective,
}
use simple_storage_service.Database.{UserStatus, UserRow, UserSessionRow}
use simple_storage_service.Users
use simple_storage_service.Users.{Accounts}
use simple_storage_service.Sessions.{
  invalid_credentials, user_disabled, is_sign_in, AuthConfig, Jwt, Scrypt, SessionDraw, Tokens,
  has_session_guid, revoke, issue_tokens, login, rotate, refresh, logout, verify_password,
  or_refused,
}
use simple_storage_service.Sessions.Rotation.{refresh_iff}

-- No session can be refreshed with a token of this hash.
abbrev pub IsSpentRow : Text → UserSessionRow → Type 0
IsSpentRow hashed session =
    text_eq session.refresh_token_hash hashed ≡ true → is_some session.revoked_at ≡ true

abbrev pub IsSpent : Text → Accounts → Type 0
IsSpent hashed a = All (IsSpentRow hashed) a.session

-- What a request does to accounts and sessions.
pub data Event : Type 0 where
  log_in : ℕ → SessionDraw → Text → Text → Option Text → Event
  refreshes : ℕ → SessionDraw → Text → Event
  log_out : ℕ → Text → Event
  set_password : ℕ → ℕ → Text → Option Text → ℕ → Event
  set_status : ℕ → UserStatus → Event
  delete : ℕ → ℕ → Event

-- The state behind a step that may be refused.
unfoldable pub settle : {E R : Type 0} → Accounts → Result E (R × Accounts) → Accounts
settle a (ok (result, a')) = a'
settle a (err e) = a

unfoldable pub settle_plain : {E : Type 0} → Accounts → Result E Accounts → Accounts
settle_plain a (ok a') = a'
settle_plain a (err e) = a

module _ (P : Accounts → Type 0) (a : Accounts) (before : P a) where
  settle-keeps :
      {E R : Type 0} (r : Result E (R × Accounts))
      → ((result : R) (a' : Accounts) → r ≡ ok (result, a') → P a')
      → P (settle a r)
  unfolding settle
  settle-keeps (ok (result, a')) after = after result a' refl
  settle-keeps (err e) after = before

  settle_plain-keeps :
      {E : Type 0} (r : Result E Accounts)
      → ((a' : Accounts) → r ≡ ok a' → P a')
      → P (settle_plain a r)
  unfolding settle_plain
  settle_plain-keeps (ok a') after = after a' refl
  settle_plain-keeps (err e) after = before

module _ (jwt : Jwt) (hash : Text → Text) (config : AuthConfig) (scrypt : Scrypt) where
  unfoldable pub apply : Accounts → Event → Accounts
  apply a (log_in now draw email password agent) =
      settle a (login jwt hash config scrypt a now draw email password agent)
  apply a (refreshes now draw token) = settle a (refresh jwt hash config a now draw token)
  apply a (log_out now token) = logout jwt hash config a now token
  apply a (set_password now guid password_hash current actor) =
      settle_plain a
        (Users.set_password (verify_password scrypt) a now guid password_hash current actor)
  apply a (set_status guid status) = settle_plain a (Users.set_status a guid status)
  apply a (delete now guid) = settle_plain a (Users.delete a now guid)

  unfoldable pub run : Accounts → List Event → Accounts
  run a [] = a
  run a (event ∷ events) = run (apply a event) events

  -- The token that an event draws, if it draws one, does not hash to the given text.
  abbrev pub Avoids : Text → Event → Type 0
  Avoids hashed (log_in now draw email password agent) =
      text_eq (hash draw.refresh_token) hashed ≡ false
  Avoids hashed (refreshes now draw token) = text_eq (hash draw.refresh_token) hashed ≡ false
  Avoids hashed _ = Unit {0}

  pub issue_tokens-IsSpent :
      (hashed : Text) (a : Accounts) (now : ℕ) (draw : SessionDraw) (user : UserRow)
      (agent : Option Text)
      → text_eq (hash draw.refresh_token) hashed ≡ false
      → IsSpent hashed a
      → IsSpent hashed (issue_tokens jwt hash config a now draw user agent).1
  unfolding issue_tokens
  issue_tokens-IsSpent hashed a now draw user agent other spent = (λ e. cc, spent)

  pub revoking-IsSpent :
      (hashed : Text) (p : UserSessionRow → Bool) (now : ℕ) (sessions : List UserSessionRow)
      → All (IsSpentRow hashed) sessions
      → All (IsSpentRow hashed) (update_where p (revoke now) sessions)
  revoking-IsSpent hashed p now sessions spent =
      All-update_where p (revoke now) sessions (λ s before hit e. refl) (λ s before miss. before)
        spent

  login-IsSpent :
      (hashed : Text) (a : Accounts) (now : ℕ) (draw : SessionDraw) (email password : Text)
      (agent : Option Text) (tokens : Tokens) (a' : Accounts)
      → text_eq (hash draw.refresh_token) hashed ≡ false
      → IsSpent hashed a
      → login jwt hash config scrypt a now draw email password agent ≡ ok (tokens, a')
      → IsSpent hashed a'
  unfolding login
  login-IsSpent hashed a now draw email password agent tokens a' other spent h =
      let (found, _, h1) =
        >>=-succeeds
          (or_refused invalid_credentials (find (is_sign_in (map lower_unit email)) a.user)) _ h in
      let (_, h2) =
        >>-succeeds
          (guard (verify_password scrypt password found.password_hash) invalid_credentials) _ h1 in
      let (_, done) = >>-succeeds (guard (Users.is_active found.status) user_disabled) _ h2 in
      subst (λ (r : Tokens × Accounts). IsSpent hashed r.1) (ok-injective done)
        (issue_tokens-IsSpent hashed _ now draw found agent other spent)

  refresh-IsSpent :
      (hashed : Text) (a : Accounts) (now : ℕ) (draw : SessionDraw) (token : Text) (tokens : Tokens)
      (a' : Accounts)
      → text_eq (hash draw.refresh_token) hashed ≡ false
      → IsSpent hashed a
      → refresh jwt hash config a now draw token ≡ ok (tokens, a')
      → IsSpent hashed a'
  unfolding rotate
  refresh-IsSpent hashed a now draw token tokens a' other spent h =
      let (session, user, x, done) = (refresh_iff jwt hash config a now draw token tokens a').0 h in
      subst (λ (r : Tokens × Accounts). IsSpent hashed r.1) done
        (issue_tokens-IsSpent hashed _ now draw user session.user_agent other
          (revoking-IsSpent hashed (has_session_guid session.guid) now a.session spent))

  set_password-IsSpent :
      (hashed : Text) (a : Accounts) (now guid : ℕ) (password_hash : Text) (current : Option Text)
      (actor : ℕ) (a' : Accounts)
      → IsSpent hashed a
      → Users.set_password (verify_password scrypt) a now guid password_hash current actor ≡ ok a'
      → IsSpent hashed a'
  unfolding Users.set_password Users.revoke_sessions
  set_password-IsSpent hashed a now guid password_hash current actor a' spent h =
      let (found, _, h1) = >>=-succeeds (Users.get a guid) _ h in
      let (_, done) =
        >>-succeeds
          (guard
            (not (
              actor == guid
              && not (
                  verify_password scrypt (Users.or_empty (verify_password scrypt) current)
                    found.password_hash)))
            Users.invalid_current_password)
          _ h1 in
      subst (λ (r : Accounts). IsSpent hashed r) (ok-injective done)
        (revoking-IsSpent hashed _ now a.session spent)

  set_status-IsSpent :
      (hashed : Text) (a : Accounts) (guid : ℕ) (status : UserStatus) (a' : Accounts)
      → IsSpent hashed a
      → Users.set_status a guid status ≡ ok a'
      → IsSpent hashed a'
  unfolding Users.set_status
  set_status-IsSpent hashed a guid status a' spent h =
      let (user, _, h1) = >>=-succeeds (Users.get a guid) _ h in
      let (_, done) =
        >>-succeeds
          (guard
            (not (
              not (Users.is_active status)
              && Users.is_admin user.role
              && leb (Users.count_admins a) 1))
            Users.last_admin_demoted)
          _ h1 in
      subst (λ (r : Accounts). IsSpent hashed r) (ok-injective done) spent

  delete-IsSpent :
      (hashed : Text) (a : Accounts) (now guid : ℕ) (a' : Accounts)
      → IsSpent hashed a
      → Users.delete a now guid ≡ ok a'
      → IsSpent hashed a'
  unfolding Users.delete
  delete-IsSpent hashed a now guid a' spent h =
      let (user, _, h1) = >>=-succeeds (Users.get a guid) _ h in
      let (_, done) =
        >>-succeeds
          (guard (not (Users.is_admin user.role && leb (Users.count_admins a) 1)) Users.last_admin)
          _ h1 in
      subst (λ (r : Accounts). IsSpent hashed r) (ok-injective done) spent

  apply-IsSpent :
      (hashed : Text) (a : Accounts) (event : Event)
      → Avoids hashed event
      → IsSpent hashed a
      → IsSpent hashed (apply a event)
  unfolding apply logout
  apply-IsSpent hashed a (log_in now draw email password agent) other spent =
      settle-keeps (IsSpent hashed) a spent _
        λ tokens a' h. login-IsSpent hashed a now draw email password agent tokens a' other spent h
  apply-IsSpent hashed a (refreshes now draw token) other spent =
      settle-keeps (IsSpent hashed) a spent _
        λ tokens a' h. refresh-IsSpent hashed a now draw token tokens a' other spent h
  apply-IsSpent hashed a (log_out now token) other spent =
      revoking-IsSpent hashed _ now a.session spent
  apply-IsSpent hashed a (set_password now guid password_hash current actor) other spent =
      settle_plain-keeps (IsSpent hashed) a spent _
        λ a' h. set_password-IsSpent hashed a now guid password_hash current actor a' spent h
  apply-IsSpent hashed a (set_status guid status) other spent =
      settle_plain-keeps (IsSpent hashed) a spent _
        λ a' h. set_status-IsSpent hashed a guid status a' spent h
  apply-IsSpent hashed a (delete now guid) other spent =
      settle_plain-keeps (IsSpent hashed) a spent _
        λ a' h. delete-IsSpent hashed a now guid a' spent h

  pub run-IsSpent :
      (hashed : Text) (a : Accounts) (events : List Event)
      → All (Avoids hashed) events
      → IsSpent hashed a
      → IsSpent hashed (run a events)
  unfolding run
  run-IsSpent hashed a [] other spent = spent
  run-IsSpent hashed a (event ∷ events) (other, others) spent =
      run-IsSpent hashed (apply a event) events others (apply-IsSpent hashed a event other spent)
