-- ===== src/AccessKeys/Lifecycle.antt =====
-- From the creation of an access key to its end.
use mathlib.Core.Path.{subst}
use simple_storage_service.Prelude.{
  ℕ, ◌<◌, ◌≤◌, ◌≡◌, refl, sym, ap, ◌∙◌, Bool, true, false, not, Option, none, some, List, [], ◌∷◌,
  arith, inl, inr,
}
use simple_storage_service.Prelude.Tests.{is_some, Bool-cases}
use simple_storage_service.Prelude.Lists.{All, find, any, length}
use simple_storage_service.Prelude.Query.{update_where}
use simple_storage_service.Prelude.Rows.{All-update_where}
use simple_storage_service.Prelude.Text.{Text, text_eq, text_eq_iff, text_eq_refl}
use simple_storage_service.Prelude.Result.{Result, ok, err, guard, >>-succeeds, ok-injective}
use simple_storage_service.Database.{AccessKeyStatus, AccessKeyRow}
use simple_storage_service.AccessKeys.{
  AccessKeyError, access_key_not_found, duplicate_access_key, Gcm, KeyDraw, CreatedAccessKey,
  has_id, is_live_id, is_active_key, encrypt, decrypt, to_item, secret_chars,
  generate_access_key_id, create, credentials_of, has_expired, resolve_found, resolve_credentials,
  change_key, set_status, delete, mark_used,
}
use simple_storage_service.AccessKeys.Secrets.{IsGcm, decrypt-encrypt}

-- A key that is not expired at a time.
abbrev pub IsInTime : ℕ → Option ℕ → Type 0
IsInTime now none = Unit {0}
IsInTime now (some expires_at) = now ≤ expires_at

module _ (gcm : Gcm) where
  IsInTime-has_expired :
      (now : ℕ) (expires_at : Option ℕ)
      → IsInTime now expires_at
      → has_expired gcm now expires_at ≡ false
  unfolding has_expired
  IsInTime-has_expired now none h = refl
  IsInTime-has_expired now (some expires_at) h = ground arith

  -- A key that can be used resolves to its own secret.
  resolve_found-ok :
      (now : ℕ) (row : AccessKeyRow) (secret : Text)
      → is_active_key row.status ≡ true
      → IsInTime now row.expires_at
      → decrypt gcm row.secret_key_encrypted ≡ ok secret
      → resolve_found gcm now (some row)
        ≡ ok (record {
          access_key_id = row.access_key_id;
          secret_access_key = secret;
          user_guid = row.user_guid;
        })
  unfolding resolve_found credentials_of
  resolve_found-ok now row secret working in_time opened =
      rw (working, IsInTime-has_expired now row.expires_at in_time, opened) refl

  abbrev created_row : KeyDraw → ℕ → ℕ → Option Text → Option ℕ → AccessKeyRow
  created_row draw now user_guid description expires_at = record {
    access_key_id = generate_access_key_id draw.id_bytes;
    user_guid = user_guid;
    secret_key_encrypted = encrypt gcm draw.iv (secret_chars draw.secret);
    description = description;
    status = AccessKeyStatus.active;
    expires_at = expires_at;
    last_used_at = none;
    created_at = now;
    deleted_at = none;
  }

  -- Creation hands out the secret that the verifier of signatures reads back, for the same user,
  -- until the key expires; with a nonce and a secret that are not empty.
  pub resolve_credentials-create :
      (keys keys' : List AccessKeyRow) (now : ℕ) (draw : KeyDraw) (user_guid : ℕ)
      (description : Option Text) (expires_at : Option ℕ) (created : CreatedAccessKey) (later : ℕ)
      → IsGcm gcm
      → 0 < length draw.iv
      → 0 < length (secret_chars draw.secret)
      → create gcm keys now draw user_guid description expires_at ≡ ok (created, keys')
      → IsInTime later expires_at
      → resolve_credentials gcm keys' later created.item.access_key_id
        ≡ ok (record {
          access_key_id = created.item.access_key_id;
          secret_access_key = created.secret_access_key;
          user_guid = user_guid;
        })
  unfolding create resolve_credentials to_item is_active_key
  resolve_credentials-create keys keys' now draw user_guid description expires_at created later laws
        some_iv some_secret h in_time =
      let row = created_row draw now user_guid description expires_at in
      let id = generate_access_key_id draw.id_bytes in
      let (_, done) = >>-succeeds (guard (not (any (has_id id) keys)) duplicate_access_key) _ h in
      let found : find (is_live_id id) (row ∷ keys) ≡ some row = rw (text_eq_refl id) refl in
      let resolved =
        ap (resolve_found gcm later) found
        ∙ resolve_found-ok later row (secret_chars draw.secret) refl in_time
            (decrypt-encrypt gcm draw.iv (secret_chars draw.secret) laws some_iv some_secret) in
      subst
        (λ (r : CreatedAccessKey × List AccessKeyRow).
          resolve_credentials gcm r.1 later r.0.item.access_key_id
          ≡ ok (record {
            access_key_id = r.0.item.access_key_id;
            secret_access_key = r.0.secret_access_key;
            user_guid = user_guid;
          }))
        (ok-injective done) resolved

-- What is done to access keys, each with what it draws.
pub data KeyEvent : Type 0 where
  creates : ℕ → KeyDraw → ℕ → Option Text → Option ℕ → KeyEvent
  sets_status : Text → AccessKeyStatus → KeyEvent
  deletes : ℕ → Text → KeyEvent
  marks_used : ℕ → Text → KeyEvent

unfoldable pub settle_created :
    List AccessKeyRow
    → Result AccessKeyError (CreatedAccessKey × List AccessKeyRow)
    → List AccessKeyRow
settle_created keys (ok (created, keys')) = keys'
settle_created keys (err e) = keys

unfoldable pub settle_changed :
    List AccessKeyRow → Result AccessKeyError (List AccessKeyRow) → List AccessKeyRow
settle_changed keys (ok keys') = keys'
settle_changed keys (err e) = keys

-- No row of the id can be used, and there is one, so that no new key gets the id.
abbrev IsGoneRow : Text → AccessKeyRow → Type 0
IsGoneRow id row = has_id id row ≡ true → is_some row.deleted_at ≡ true

abbrev IsGone : Text → List AccessKeyRow → Type 0
IsGone id keys = (any (has_id id) keys ≡ true) × All (IsGoneRow id) keys

any-update :
    (id : Text) (p : AccessKeyRow → Bool) (f : AccessKeyRow → AccessKeyRow)
    (keys : List AccessKeyRow)
    → ((row : AccessKeyRow) → has_id id (f row) ≡ has_id id row)
    → any (has_id id) (update_where p f keys) ≡ any (has_id id) keys
any-update id p f [] same = refl
any-update id p f (row ∷ keys) same =
    let rest = any-update id p f keys same in
    elim (Bool-cases (p row)) [
      | inl hit ↦ rw (hit, same row, rest) refl
      | inr miss ↦ rw (miss, rest) refl
    ]

find-gone :
    (id : Text) (keys : List AccessKeyRow)
    → All (IsGoneRow id) keys
    → find (is_live_id id) keys ≡ none
find-gone id [] gone = refl
find-gone id (row ∷ keys) (gone, rest) =
    let later = find-gone id keys rest in
    elim (Bool-cases (has_id id row)) [
      | inl same ↦ rw (same, gone same) later
      | inr differs ↦ rw differs later
    ]

update-IsGone :
    (id : Text) (p : AccessKeyRow → Bool) (f : AccessKeyRow → AccessKeyRow)
    (keys : List AccessKeyRow)
    → ((row : AccessKeyRow) → IsGoneRow id row → IsGoneRow id (f row))
    → ((row : AccessKeyRow) → has_id id (f row) ≡ has_id id row)
    → IsGone id keys
    → IsGone id (update_where p f keys)
update-IsGone id p f keys kept same (there, gone) = (
  any-update id p f keys same ∙ there,
  All-update_where p f keys (λ row before hit. kept row before) (λ row before miss. before) gone,
)

module _ (gcm : Gcm) where
  unfoldable pub apply_key : List AccessKeyRow → KeyEvent → List AccessKeyRow
  unfolding settle_created settle_changed
  apply_key keys (creates now draw user_guid description expires_at) =
      settle_created keys (create gcm keys now draw user_guid description expires_at)
  apply_key keys (sets_status id status) = settle_changed keys (set_status keys id status)
  apply_key keys (deletes now id) = settle_changed keys (delete keys now id)
  apply_key keys (marks_used now id) = mark_used keys now id

  unfoldable pub run_keys : List AccessKeyRow → List KeyEvent → List AccessKeyRow
  run_keys keys [] = keys
  run_keys keys (event ∷ events) = run_keys (apply_key keys event) events

  create-IsGone :
      (id : Text) (keys : List AccessKeyRow) (now : ℕ) (draw : KeyDraw) (user_guid : ℕ)
      (description : Option Text) (expires_at : Option ℕ)
      → IsGone id keys
      → IsGone id (apply_key keys (creates now draw user_guid description expires_at))
  unfolding apply_key create
  create-IsGone id keys now draw user_guid description expires_at (there, gone) =
      let made = generate_access_key_id draw.id_bytes in
      elim (Bool-cases (any (has_id made) keys)) [
        | inl taken ↦ rw taken (there, gone)
        | inr fresh ↦ elim (Bool-cases (text_eq made id)) [
          | inl same ↦
              let e : made ≡ id = (text_eq_iff made id).0 same in
              let clash : any (has_id id) keys ≡ false =
                subst (λ (t : Text). any (has_id t) keys ≡ false) e fresh in
              let no_way : ◌≡◌ {A = Bool} true false = sym there ∙ clash in cc no_way
          | inr other ↦ rw (fresh, other) (there, (λ e. cc, gone))
        ]
      ]

  change-IsGone :
      (id target : Text) (f : AccessKeyRow → AccessKeyRow) (keys : List AccessKeyRow)
      → ((row : AccessKeyRow) → IsGoneRow id row → IsGoneRow id (f row))
      → ((row : AccessKeyRow) → has_id id (f row) ≡ has_id id row)
      → IsGone id keys
      → IsGone id (settle_changed keys (change_key keys target f))
  unfolding change_key settle_changed
  change-IsGone id target f keys kept same gone = elim (Bool-cases (any (is_live_id target) keys)) [
    | inl found ↦ rw found (update-IsGone id _ f keys kept same gone)
    | inr missing ↦ rw missing gone
  ]

  apply-IsGone :
      (id : Text) (keys : List AccessKeyRow) (event : KeyEvent)
      → IsGone id keys
      → IsGone id (apply_key keys event)
  unfolding apply_key set_status delete mark_used
  apply-IsGone id keys (creates now draw user_guid description expires_at) gone =
      create-IsGone id keys now draw user_guid description expires_at gone
  apply-IsGone id keys (sets_status target status) gone =
      change-IsGone id target _ keys (λ row before. before) (λ row. refl) gone
  apply-IsGone id keys (deletes now target) gone =
      change-IsGone id target _ keys (λ row before e. refl) (λ row. refl) gone
  apply-IsGone id keys (marks_used now target) gone =
      update-IsGone id _ _ keys (λ row before. before) (λ row. refl) gone

  run-IsGone :
      (id : Text) (keys : List AccessKeyRow) (events : List KeyEvent)
      → IsGone id keys
      → IsGone id (run_keys keys events)
  unfolding run_keys
  run-IsGone id keys [] gone = gone
  run-IsGone id keys (event ∷ events) gone =
      run-IsGone id (apply_key keys event) events (apply-IsGone id keys event gone)

  delete-gone :
      (id : Text) (now : ℕ) (keys : List AccessKeyRow)
      → All (IsGoneRow id) (
          update_where
            (is_live_id id)
            (λ (row : AccessKeyRow). record row { deleted_at = some now })
            keys)
  delete-gone id now [] = tt
  delete-gone id now (row ∷ keys) = elim (Bool-cases (is_live_id id row)) [
    | inl hit ↦ rw hit (λ e. refl, delete-gone id now keys)
    | inr miss ↦ rw miss (λ e. ground arith, delete-gone id now keys)
  ]

  live-there :
      (id : Text) (keys : List AccessKeyRow)
      → any (is_live_id id) keys ≡ true
      → any (has_id id) keys ≡ true
  live-there id [] h = cc
  live-there id (row ∷ keys) h = elim (Bool-cases (has_id id row)) [
    | inl same ↦ rw same refl
    | inr differs ↦ rw differs (live-there id keys (rw differs at h))
  ]

  -- A key that was deleted is unknown to the verifier of signatures for good: after any creations,
  -- changes and deletions of keys, at any time, its id resolves to no credentials.
  pub resolve_credentials-deleted :
      (keys keys' : List AccessKeyRow) (now : ℕ) (id : Text) (events : List KeyEvent) (later : ℕ)
      → delete keys now id ≡ ok keys'
      → resolve_credentials gcm (run_keys keys' events) later id ≡ err access_key_not_found
  unfolding delete change_key resolve_credentials resolve_found
  resolve_credentials-deleted keys keys' now id events later h =
      let mark = λ (row : AccessKeyRow). record row { deleted_at = some now } in
      let (allowed, done) =
        >>-succeeds (guard (any (is_live_id id) keys) access_key_not_found) _ h in
      let was_live : any (is_live_id id) keys ≡ true = ground arith in
      let gone : IsGone id (update_where (is_live_id id) mark keys) = (
        any-update id (is_live_id id) mark keys (λ row. refl) ∙ live-there id keys was_live,
        delete-gone id now keys,
      ) in
      let gone' : IsGone id keys' = subst (IsGone id) (ok-injective done) gone in
      ap (resolve_found gcm later)
        (find-gone id (run_keys keys' events) (run-IsGone id keys' events gone').1)
