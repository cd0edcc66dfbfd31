-- ===== src/AccessKeys/Signing.antt =====
-- `resolveSigningCredentials` of libs/domains/src/access-keys/access-keys.service.ts against the
-- verifier of signatures.
use mathlib.Core.Path.{subst}
use simple_storage_service.Prelude.{
  ℕ, ◌≤◌, ◌≡◌, refl, sym, ap, ◌∙◌, Bool, true, false, Option, none, some, List, [], ◌∷◌, arith, inl,
  inr,
}
use simple_storage_service.Prelude.Tests.{leb, ◌==◌, ==_iff, Bool-cases}
use simple_storage_service.Prelude.Lists.{Exists, find, filter, find-holds}
use simple_storage_service.Prelude.Query.{count}
use simple_storage_service.Prelude.Rows.{Exists-of_filter, Exists-map}
use simple_storage_service.Prelude.Text.{Text, text_eq_refl}
use simple_storage_service.Prelude.Result.{ok, >>=-succeeds, ok-injective}
use simple_storage_service.Database.{AccessKeyRow}
use simple_storage_service.AccessKeys.{
  Gcm, ResolvedCredentials, is_live_id, is_active_key, decrypt, insert_by_age, oldest_first,
  credentials_of, or_no_key, has_expired, resolve_found, resolve_credentials, is_unexpired,
  is_signing_key, usable_key, resolve_signing_credentials,
}

abbrev IsAmong : AccessKeyRow → List AccessKeyRow → Type 0
IsAmong row rows = Exists (λ r. r ≡ row) rows

Exists-insert :
    (P : AccessKeyRow → Type 0) (row : AccessKeyRow) (rows : List AccessKeyRow)
    → Exists P (insert_by_age row rows)
    → Exists P (row ∷ rows)
unfolding insert_by_age
Exists-insert P row [] h = h
Exists-insert P row (other ∷ rows) h = elim (Bool-cases (leb row.created_at other.created_at)) [
  | inl older ↦ rw older at h
  | inr younger ↦ elim (rw younger at h) [
    | inl here ↦ inr (inl here)
    | inr later ↦ elim (Exists-insert P row rows later) [
      | inl mine ↦ inl mine
      | inr rest ↦ inr (inr rest)
    ]
  ]
]

Exists-oldest_first :
    (P : AccessKeyRow → Type 0) (rows : List AccessKeyRow)
    → Exists P (oldest_first rows)
    → Exists P rows
unfolding oldest_first
Exists-oldest_first P [] h = h
Exists-oldest_first P (row ∷ rows) h = elim (Exists-insert P row (oldest_first rows) h) [
  | inl here ↦ inl here
  | inr later ↦ inr (Exists-oldest_first P rows later)
]

found-IsAmong :
    (p : AccessKeyRow → Bool) (rows : List AccessKeyRow) (row : AccessKeyRow)
    → find p rows ≡ some row
    → IsAmong row rows
found-IsAmong p [] row h = cc
found-IsAmong p (other ∷ rows) row h = elim (Bool-cases (p other)) [
  | inl here ↦ inl (ground arith)
  | inr later ↦ inr (found-IsAmong p rows row (rw later at h))
]

counted :
    (p : AccessKeyRow → Bool) (rows : List AccessKeyRow) (row : AccessKeyRow)
    → IsAmong row rows
    → p row ≡ true
    → 1 ≤ count p rows
counted p [] row h holds = absurd h
counted p (other ∷ rows) row (inl same) holds =
    let held : p other ≡ true = rw same holds in ground arith
counted p (other ∷ rows) row (inr later) holds =
    let rest = counted p rows row later holds in ground arith

-- The one row that a test holds of is the row that a search finds.
find-only :
    (p : AccessKeyRow → Bool) (rows : List AccessKeyRow) (row : AccessKeyRow)
    → IsAmong row rows
    → p row ≡ true
    → count p rows ≤ 1
    → find p rows ≡ some row
find-only p [] row h holds once = absurd h
find-only p (other ∷ rows) row (inl same) holds once =
    let held : p other ≡ true = rw same holds in rw held (ap some same)
find-only p (other ∷ rows) row (inr later) holds once =
    let rest = counted p rows row later holds in
    let not_here : p other ≡ false = ground arith in
    rw not_here (find-only p rows row later holds (ground arith))

unexpired :
    (gcm : Gcm) (now : ℕ) (expires_at : Option ℕ)
    → is_unexpired gcm now expires_at ≡ true
    → has_expired gcm now expires_at ≡ false
unfolding is_unexpired has_expired
unexpired gcm now none h = refl
unexpired gcm now (some expires_at) h = ground arith

usable_key-IsAmong :
    (gcm : Gcm) (keys : List AccessKeyRow) (now user_guid : ℕ) (row : AccessKeyRow)
    → usable_key gcm keys now user_guid ≡ some row
    → IsAmong row keys
      × (is_signing_key gcm user_guid row ≡ true)
      × (is_unexpired gcm now row.expires_at ≡ true)
unfolding usable_key
usable_key-IsAmong gcm keys now user_guid row h =
    let among = found-IsAmong _ (oldest_first (filter (is_signing_key gcm user_guid) keys)) row h in
    let picked =
      Exists-of_filter (λ r. r ≡ row) (is_signing_key gcm user_guid) keys
        (Exists-oldest_first (λ r. r ≡ row) _ among) in
    (
      Exists-map keys (λ r both. both.0) picked,
      signing keys picked,
      find-holds _ (oldest_first (filter (is_signing_key gcm user_guid) keys)) h,
    )
  where
    signing :
        (rows : List AccessKeyRow)
        → Exists (λ r. (r ≡ row) × (is_signing_key gcm user_guid r ≡ true)) rows
        → is_signing_key gcm user_guid row ≡ true
    signing [] x = absurd x
    signing (r ∷ rows) (inl (same, holds)) = rw (← same) holds
    signing (r ∷ rows) (inr rest) = signing rows rest

module _ (gcm : Gcm) where
  credentials_of-fields :
      (row : AccessKeyRow) (credentials : ResolvedCredentials)
      → credentials_of gcm row ≡ ok credentials
      → (credentials.access_key_id ≡ row.access_key_id) × (credentials.user_guid ≡ row.user_guid)
  unfolding credentials_of
  credentials_of-fields row credentials h =
      let (secret, opened, done) = >>=-succeeds (decrypt gcm row.secret_key_encrypted) _ h in
      let same = ok-injective done in
      (
        ap (λ (c : ResolvedCredentials). c.access_key_id) (sym same),
        ap (λ (c : ResolvedCredentials). c.user_guid) (sym same),
      )

  resolve_found-usable :
      (now : ℕ) (row : AccessKeyRow)
      → is_active_key row.status ≡ true
      → is_unexpired gcm now row.expires_at ≡ true
      → resolve_found gcm now (some row) ≡ credentials_of gcm row
  unfolding resolve_found
  resolve_found-usable now row working in_time =
      rw (working, unexpired gcm now row.expires_at in_time) refl

  resolve_credentials-picked :
      (keys : List AccessKeyRow) (now user_guid : ℕ) (credentials : ResolvedCredentials)
      (picked : Option AccessKeyRow)
      → ((id : Text) → count (is_live_id id) keys ≤ 1)
      → usable_key gcm keys now user_guid ≡ picked
      → or_no_key gcm picked ≡ ok credentials
      → (resolve_credentials gcm keys now credentials.access_key_id ≡ ok credentials)
        × (credentials.user_guid ≡ user_guid)
  unfolding resolve_credentials or_no_key
  resolve_credentials-picked keys now user_guid credentials none once e h = cc
  resolve_credentials-picked keys now user_guid credentials (some row) once e h =
      let (among, signing, in_time) = usable_key-IsAmong gcm keys now user_guid row e in
      let (same_id, same_user) = credentials_of-fields row credentials h in
      let id_refl = text_eq_refl row.access_key_id in
      let live_id : is_live_id row.access_key_id row ≡ true = ground arith in
      let working : is_active_key row.status ≡ true = ground arith in
      let owner : (row.user_guid == user_guid) ≡ true = ground arith in
      let found =
        find-only (is_live_id row.access_key_id) keys row among live_id (once row.access_key_id) in
      (
        subst (λ (id : Text). resolve_credentials gcm keys now id ≡ ok credentials) (sym same_id)
            (ap (resolve_found gcm now) found ∙ resolve_found-usable now row working in_time ∙ h),
        same_user ∙ (==_iff row.user_guid user_guid).0 owner,
      )

  -- What a link is signed with is what the S3 endpoint verifies it with: the credentials that are
  -- picked for a user resolve at that time to themselves, and belong to the user, where an id
  -- stands once among the keys that are not deleted.
  pub resolve_credentials-signing :
      (keys : List AccessKeyRow) (now user_guid : ℕ) (credentials : ResolvedCredentials)
      → ((id : Text) → count (is_live_id id) keys ≤ 1)
      → resolve_signing_credentials gcm keys now user_guid ≡ ok credentials
      → (resolve_credentials gcm keys now credentials.access_key_id ≡ ok credentials)
        × (credentials.user_guid ≡ user_guid)
  unfolding resolve_signing_credentials
  resolve_credentials-signing keys now user_guid credentials once h =
      resolve_credentials-picked keys now user_guid credentials _ once refl h
