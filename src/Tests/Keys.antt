-- ===== src/Tests/Keys.antt =====
-- Access keys.
use simple_storage_service.Prelude.{
  ◌≤◌, ◌≡◌, refl, sym, ◌∙◌, false, none, some, List, [], ◌∷◌, arith, inl, inr,
}
use simple_storage_service.Prelude.Tests.{Bool-cases}
use simple_storage_service.Prelude.Query.{count}
use simple_storage_service.Prelude.Text.{Text, str, text_eq, text_eq_iff, split, split_from, join}
use simple_storage_service.Prelude.Result.{ok, err}
use simple_storage_service.Database.{AccessKeyStatus, AccessKeyRow}
use simple_storage_service.AccessKeys
use simple_storage_service.AccessKeys.{
  access_key_not_found, KeyDraw, CreatedAccessKey, ResolvedCredentials, generate_access_key_id,
  secret_chars, encrypt, decrypt, open_parts, or_malformed, or_no_key, usable_key, credentials_of,
  to_item, create, change_key, is_live_id, is_active_key, oldest_first, insert_by_age, is_unexpired,
  resolve_credentials, resolve_signing_credentials,
}
use simple_storage_service.AccessKeys.Lifecycle.{
  KeyEvent, creates, sets_status, run_keys, resolve_credentials-create, resolve_credentials-deleted,
}
use simple_storage_service.AccessKeys.Signing.{resolve_credentials-signing}
use simple_storage_service.Tests.Codec.{gcm, gcm-IsGcm}

abbrev key_draw : KeyDraw
key_draw = record { id_bytes = 0 ∷ 33 ∷ 200 ∷ []; secret = str "a+b/c="; iv = 7 ∷ [] }

abbrev key_row : AccessKeyRow
key_row = record {
  access_key_id = generate_access_key_id key_draw.id_bytes;
  user_guid = 2;
  secret_key_encrypted = encrypt gcm key_draw.iv (secret_chars key_draw.secret);
  description = none;
  status = AccessKeyStatus.active;
  expires_at = some 100;
  last_used_at = none;
  created_at = 5;
  deleted_at = none;
}

abbrev created : CreatedAccessKey
created = record { item = to_item key_row; secret_access_key = secret_chars key_draw.secret }

pub create-first : create gcm [] 5 key_draw 2 none (some 100) ≡ ok (created, key_row ∷ [])
unfolding create
create-first = refl

key_id : generate_access_key_id key_draw.id_bytes ≡ str "STABI"
unfolding generate_access_key_id str
key_id = refl

resolve_credentials-create_example :
    resolve_credentials gcm (key_row ∷ []) 100 created.item.access_key_id
    ≡ ok (record {
      access_key_id = created.item.access_key_id;
      secret_access_key = created.secret_access_key;
      user_guid = 2;
    })
unfolding str
resolve_credentials-create_example =
    resolve_credentials-create gcm [] (key_row ∷ []) 5 key_draw 2 none (some 100) created 100
      gcm-IsGcm (omega arith) (omega arith) create-first (omega arith)

abbrev deleted_row : AccessKeyRow
deleted_row = record key_row { deleted_at = some 9 }

pub delete-first :
    AccessKeys.delete (key_row ∷ []) 9 (generate_access_key_id key_draw.id_bytes)
    ≡ ok (deleted_row ∷ [])
unfolding AccessKeys.delete change_key generate_access_key_id str text_eq
delete-first = refl

abbrev key_events : List KeyEvent
key_events =
    creates 10 key_draw 2 none none
    ∷ sets_status (generate_access_key_id key_draw.id_bytes) AccessKeyStatus.active
    ∷ []

resolve_credentials-deleted_example :
    resolve_credentials gcm
      (run_keys gcm (deleted_row ∷ []) key_events)
      20
      (generate_access_key_id key_draw.id_bytes)
    ≡ err access_key_not_found
resolve_credentials-deleted_example =
    resolve_credentials-deleted gcm (key_row ∷ []) (deleted_row ∷ []) 9
      (generate_access_key_id key_draw.id_bytes) key_events 20 delete-first

abbrev plain_row : AccessKeyRow
plain_row = record key_row {
  access_key_id = str "ST1";
  secret_key_encrypted = encrypt gcm (7 ∷ []) (str "s");
}

abbrev old_row : AccessKeyRow
old_row = record plain_row { access_key_id = str "ST0"; created_at = 1; expires_at = some 10 }

abbrev credentials : ResolvedCredentials
credentials = record { access_key_id = str "ST1"; secret_access_key = str "s"; user_guid = 2 }

-- The oldest key that is not expired is picked.
pub signing_credentials :
    resolve_signing_credentials gcm (plain_row ∷ old_row ∷ []) 50 2 ≡ ok credentials
unfolding resolve_signing_credentials usable_key or_no_key credentials_of decrypt encrypt open_parts
    or_malformed oldest_first insert_by_age is_unexpired is_active_key join split split_from str
signing_credentials = refl

pub compared : text_eq (str "ST1") (str "ST0") ≡ false
unfolding str text_eq
compared = refl

pub ids_differ : (id : Text) → count (is_live_id id) (plain_row ∷ old_row ∷ []) ≤ 1
ids_differ id = elim (Bool-cases (text_eq (str "ST1") id)) [
  | inr other ↦ ground arith
  | inl first ↦ elim (Bool-cases (text_eq (str "ST0") id)) [
    | inr other ↦ ground arith
    | inl second ↦ absurd (
        let same =
          (text_eq_iff (str "ST1") id).0 first ∙ sym ((text_eq_iff (str "ST0") id).0 second) in
        let again = (text_eq_iff (str "ST1") (str "ST0")).1 same in let differs = compared in cc)
  ]
]

resolve_credentials-signing_example :
    (resolve_credentials gcm (plain_row ∷ old_row ∷ []) 50 credentials.access_key_id
      ≡ ok credentials)
    × (credentials.user_guid ≡ 2)
resolve_credentials-signing_example =
    resolve_credentials-signing gcm (plain_row ∷ old_row ∷ []) 50 2 credentials ids_differ
      signing_credentials
