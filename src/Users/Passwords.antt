-- ===== src/Users/Passwords.antt =====
-- Changing a password.
use simple_storage_service.Prelude.{
  ℕ, ◌≡◌, refl, Bool, true, not, ◌&&◌, Option, some, List, [], ◌∷◌, arith, inl, inr,
}
use simple_storage_service.Prelude.Tests.{◌==◌, is_some, Bool-cases}
use simple_storage_service.Prelude.Lists.{All}
use simple_storage_service.Prelude.Query.{update_where}
use simple_storage_service.Prelude.Text.{Text}
use simple_storage_service.Prelude.Result.{ok, ◌>>◌, guard, >>=-succeeds, >>-succeeds, ok-injective}
use simple_storage_service.Database.{UserRow, UserSessionRow}
use simple_storage_service.Users.{
  invalid_current_password, Accounts, has_guid, get, change, revoke_sessions, or_empty,
  set_password,
}

-- A session that can no longer be refreshed, if it is one of the account.
abbrev pub IsRevokedFor : ℕ → UserSessionRow → Type 0
IsRevokedFor guid session = (session.user_guid == guid) ≡ true → is_some session.revoked_at ≡ true

All-revoked :
    (now guid : ℕ) (sessions : List UserSessionRow)
    → All (IsRevokedFor guid) (
        update_where
          (λ (s : UserSessionRow). s.user_guid == guid && not (is_some s.revoked_at))
          (λ s. record s { revoked_at = some now })
          sessions)
All-revoked now guid [] = tt
All-revoked now guid (s ∷ sessions) =
    elim (Bool-cases (s.user_guid == guid && not (is_some s.revoked_at))) [
      | inl hit ↦ rw hit (λ mine. refl, All-revoked now guid sessions)
      | inr miss ↦ rw miss (λ mine. ground arith, All-revoked now guid sessions)
    ]

-- A password is changed only for an account that is there, and by its owner only with the current
-- one; and afterwards every session of the account is revoked.
pub set_password-revokes :
    (verify : Text → Text → Bool) (a a' : Accounts) (now guid : ℕ) (password_hash : Text)
    (current : Option Text) (actor : ℕ)
    → set_password verify a now guid password_hash current actor ≡ ok a'
    → All (IsRevokedFor guid) a'.session
      × ((found : UserRow) × (get a guid ≡ ok found)
          × ((actor == guid) ≡ true → verify (or_empty verify current) found.password_hash ≡ true))
unfolding set_password revoke_sessions
set_password-revokes verify a a' now guid password_hash current actor h =
    let test : UserRow → Bool = (λ found.
      not (actor == guid && not (verify (or_empty verify current) found.password_hash))) in
    let (found, got, later) =
      >>=-succeeds (get a guid)
        (λ found.
          guard (test found) invalid_current_password
          >> ok (
              revoke_sessions
                (change a (has_guid guid) (λ row. record row { password_hash = password_hash })) now
                guid))
        h in
    let (allowed, done) = >>-succeeds (guard (test found) invalid_current_password) _ later in
    (rw (← ok-injective done) (All-revoked now guid a.session), (found, got, λ own. ground arith))
