-- ===== src/Sessions.antt =====
-- libs/domains/src/auth/auth.service.ts: signing in, the rotation of refresh tokens, signing out
-- and the hashes of passwords. `revokeSessions` stands in Users.
pub mod Rotation
pub mod Requests
pub mod Replay
pub mod Hashes
use simple_storage_service.Prelude.{
  ℕ, ◌+◌, ◌*◌, ◌≡◌, Bool, true, false, not, ◌&&◌, Option, none, some, List, [], ◌∷◌, ◌++◌, map,
}
use simple_storage_service.Prelude.Tests.{ltb, ◌==◌, if◌then◌else◌, is_some}
use simple_storage_service.Prelude.Lists.{find, length}
use simple_storage_service.Prelude.Query.{update_where}
use simple_storage_service.Prelude.Text.{Text, text_eq, split, lower_unit}
use simple_storage_service.Prelude.Result.{Result, ok, err, ◌>>=◌, ◌>>◌, guard}
use simple_storage_service.Database.{UserRole, UserStatus, UserRow, UserSessionRow}
use simple_storage_service.Users.{Accounts, has_guid, is_live, is_live_guid, is_active}
use simple_storage_service.Storage.Cipher.{Bytes}

pub data AuthError : Type 0 where
  invalid_credentials invalid_refresh_token user_disabled : AuthError

pub record Identity : Type 0 where
  pub guid : ℕ
  pub email : Text
  pub role : UserRole

pub record AccessTokenPayload : Type 0 where
  pub sub : ℕ
  pub email : Text
  pub role : UserRole
  pub type : Text

pub record Tokens : Type 0 where
  pub access_token : Text
  pub refresh_token : Text
  pub expires_in : ℕ

-- The lifetimes are in seconds.
pub record AuthConfig : Type 0 where
  pub access_ttl : ℕ
  pub refresh_ttl : ℕ

-- `jwt.sign` and `jwt.verify` under the configured secret and issuer, at a time and for a lifetime.
-- A token that was signed is accepted until it expires.
pub record Jwt : Type 0 where
  pub sign : AccessTokenPayload → ℕ → ℕ → Text
  pub verify : Text → ℕ → Option AccessTokenPayload

-- `crypto.scryptSync` and base64.
pub record Scrypt : Type 0 where
  pub derive : Text → Bytes → ℕ → Bytes
  pub encode : Bytes → Text
  pub decode : Text → Bytes

-- What the database and `randomBytes` draw for a session.
pub record SessionDraw : Type 0 where
  pub guid : ℕ
  pub refresh_token : Text

abbrev pub scrypt_key_length : ℕ
scrypt_key_length = 64

-- A salt of 16 random bytes, and the derived key behind it.
unfoldable pub hash_password : Scrypt → Text → Bytes → Text
hash_password scrypt password salt =
    scrypt.encode salt ++ b'.' ∷ scrypt.encode (scrypt.derive password salt scrypt_key_length)

-- A missing part and an empty one are refused alike; further parts are ignored.
unfoldable pub verify_parts : Scrypt → Text → List Text → Bool
verify_parts scrypt password ((s ∷ ss) ∷ (h ∷ hs) ∷ rest) =
    let expected = scrypt.decode (h ∷ hs) in
    let derived = scrypt.derive password (scrypt.decode (s ∷ ss)) (length expected) in
    (length expected == length derived) && text_eq expected derived
verify_parts scrypt password _ = false

unfoldable pub verify_password : Scrypt → Text → Text → Bool
unfolding verify_parts
verify_password scrypt password stored_hash = verify_parts scrypt password (split b'.' stored_hash)

abbrev pub is_expired : ℕ → UserSessionRow → Bool
is_expired now session = ltb session.expires_at now

-- A session that a refresh with a token of this hash finds.
abbrev pub is_usable : Text → UserSessionRow → Bool
is_usable hash session = text_eq session.refresh_token_hash hash && not (is_some session.revoked_at)

abbrev pub has_session_guid : ℕ → UserSessionRow → Bool
has_session_guid guid session = session.guid == guid

abbrev pub revoke : ℕ → UserSessionRow → UserSessionRow
revoke now session = record session { revoked_at = some now }

abbrev pub is_sign_in : Text → UserRow → Bool
is_sign_in email row = text_eq row.email email && is_live row

unfoldable pub or_refused {ℓ} : {A : Type ℓ} → AuthError → Option A → Result AuthError A
or_refused e none = err e
or_refused e (some a) = ok a

-- `hash` is the SHA-256 of a token in hexadecimal.
module _ (jwt : Jwt) (hash : Text → Text) (config : AuthConfig) where
  abbrev pub access_payload : UserRow → AccessTokenPayload
  access_payload user = record {
    sub = user.guid;
    email = user.email;
    role = user.role;
    type = b'a' ∷ b'c' ∷ b'c' ∷ b'e' ∷ b's' ∷ b's' ∷ [];
  }

  abbrev pub new_session : ℕ → SessionDraw → UserRow → Option Text → UserSessionRow
  new_session now draw user user_agent = record {
    guid = draw.guid;
    user_guid = user.guid;
    refresh_token_hash = hash draw.refresh_token;
    user_agent = user_agent;
    expires_at = now + config.refresh_ttl * 1000;
    revoked_at = none;
  }

  unfoldable pub issue_tokens :
      Accounts → ℕ → SessionDraw → UserRow → Option Text → Tokens × Accounts
  issue_tokens a now draw user user_agent = (
    record {
      access_token = jwt.sign (access_payload user) now config.access_ttl;
      refresh_token = draw.refresh_token;
      expires_in = config.access_ttl;
    },
    record a { session = new_session now draw user user_agent ∷ a.session },
  )

  unfoldable pub login :
      Scrypt
      → Accounts
      → ℕ
      → SessionDraw
      → Text
      → Text
      → Option Text
      → Result AuthError (Tokens × Accounts)
  unfolding or_refused
  login scrypt a now draw email password user_agent = do
    found ← or_refused invalid_credentials (find (is_sign_in (map lower_unit email)) a.user)
    guard (verify_password scrypt password found.password_hash) invalid_credentials
    guard (is_active found.status) user_disabled
    ok (
        issue_tokens
          (record a {
            user =
                update_where (has_guid found.guid)
                  (λ (row : UserRow). record row { last_login_at = some now }) a.user;
          })
          now draw found user_agent)

  -- What `refresh` reads and checks.
  unfoldable pub check_refresh : Accounts → ℕ → Text → Result AuthError (UserSessionRow × UserRow)
  unfolding or_refused
  check_refresh a now token = do
    session ← or_refused invalid_refresh_token (find (is_usable (hash token)) a.session)
    guard (not (is_expired now session)) invalid_refresh_token
    user ← or_refused user_disabled (find (is_live_guid session.user_guid) a.user)
    guard (is_active user.status) user_disabled
    ok (session, user)

  -- What it writes: the presented token is revoked, and the next one issued.
  unfoldable pub rotate : Accounts → ℕ → SessionDraw → UserSessionRow → UserRow → Tokens × Accounts
  rotate a now draw session user =
      issue_tokens
        (record a { session = update_where (has_session_guid session.guid) (revoke now) a.session })
        now draw user session.user_agent

  unfoldable pub refresh : Accounts → ℕ → SessionDraw → Text → Result AuthError (Tokens × Accounts)
  refresh a now draw token =
      check_refresh a now token >>= λ ((session, user) : UserSessionRow × UserRow).
      ok (rotate a now draw session user)

  unfoldable pub logout : Accounts → ℕ → Text → Accounts
  logout a now token = record a {
    session =
        update_where (λ (s : UserSessionRow). text_eq s.refresh_token_hash (hash token))
          (revoke now) a.session;
  }

  unfoldable pub verify_access_token : Text → ℕ → Option Identity
  verify_access_token token now = elim (jwt.verify token now) [
    | none ↦ none
    | some payload ↦
        if text_eq payload.type (b'a' ∷ b'c' ∷ b'c' ∷ b'e' ∷ b's' ∷ b's' ∷ [])
        then some (record { guid = payload.sub; email = payload.email; role = payload.role })
        else none
  ]
