-- ===== src/AccessKeys.antt =====
-- libs/domains/src/access-keys/access-keys.service.ts and
-- libs/domains/src/cryptographic/cryptographic.service.ts: the credentials of the S3 endpoint.
pub mod Secrets
pub mod Lifecycle
pub mod Signing
use simple_storage_service.Prelude.{
  ℕ, ◌+◌, ◌%◌, ◌≡◌, Bool, true, false, not, ◌&&◌, ◌||◌, Option, none, some, List, [], ◌∷◌, ◌++◌,
  map,
}
use simple_storage_service.Prelude.Tests.{ltb, leb, ◌==◌, if◌then◌else◌, is_some}
use simple_storage_service.Prelude.Lists.{any, find, filter, length, take, get_elem?}
use simple_storage_service.Prelude.Query.{update_where, count}
use simple_storage_service.Prelude.Text.{Text, str, text_eq, split, join}
use simple_storage_service.Prelude.Result.{Result, ok, err, ◌>>=◌, ◌>>◌, guard}
use simple_storage_service.Pagination.{Pagination, paginate, page_rows}
use simple_storage_service.Database.{UserRole, AccessKeyStatus, AccessKeyRow}
use simple_storage_service.Users.{is_admin}
use simple_storage_service.Storage.Cipher.{Bytes}

pub data AccessKeyError : Type 0 where
  access_key_not_found access_key_inactive no_usable_access_key : AccessKeyError
  malformed_secret duplicate_access_key : AccessKeyError

pub record AccessKeyItem : Type 0 where
  pub access_key_id : Text
  pub user_guid : ℕ
  pub description : Option Text
  pub status : AccessKeyStatus
  pub expires_at : Option ℕ
  pub last_used_at : Option ℕ
  pub created_at : ℕ

pub record CreatedAccessKey : Type 0 where
  pub item : AccessKeyItem
  pub secret_access_key : Text

pub record ResolvedCredentials : Type 0 where
  pub access_key_id : Text
  pub secret_access_key : Text
  pub user_guid : ℕ

-- AES-256-GCM under the key of the service, with UTF-8 and base64, of Node's `crypto` and `Buffer`:
-- `seal` gives the tag and the data, and `unseal` fails where the tag does not fit.
pub record Gcm : Type 0 where
  pub seal : Bytes → Text → Bytes × Bytes
  pub unseal : Bytes → Bytes → Bytes → Option Text
  pub encode : Bytes → Text
  pub decode : Text → Bytes

-- `iv` is the random nonce of 12 bytes.
unfoldable pub encrypt : Gcm → Bytes → Text → Text
encrypt gcm iv plain =
    let (tag, sealed) = gcm.seal iv plain in
    join (b'.' ∷ []) (gcm.encode iv ∷ gcm.encode tag ∷ gcm.encode sealed ∷ [])

unfoldable pub open_parts : Gcm → List Text → Option Text
open_parts gcm ((i ∷ is) ∷ (t ∷ ts) ∷ (d ∷ ds) ∷ rest) =
    gcm.unseal (gcm.decode (i ∷ is)) (gcm.decode (t ∷ ts)) (gcm.decode (d ∷ ds))
open_parts gcm _ = none

unfoldable pub or_malformed : Option Text → Result AccessKeyError Text
or_malformed none = err malformed_secret
or_malformed (some plain) = ok plain

unfoldable pub decrypt : Gcm → Text → Result AccessKeyError Text
unfolding open_parts or_malformed
decrypt gcm encrypted = or_malformed (open_parts gcm (split b'.' encrypted))

abbrev pub has_id : Text → AccessKeyRow → Bool
has_id access_key_id row = text_eq row.access_key_id access_key_id

abbrev pub is_live_key : AccessKeyRow → Bool
is_live_key row = not (is_some row.deleted_at)

abbrev pub is_live_id : Text → AccessKeyRow → Bool
is_live_id access_key_id row = has_id access_key_id row && is_live_key row

unfoldable pub is_active_key : AccessKeyStatus → Bool
is_active_key AccessKeyStatus.active = true
is_active_key AccessKeyStatus.inactive = false

unfoldable pub to_item : AccessKeyRow → AccessKeyItem
to_item row = record {
  access_key_id = row.access_key_id;
  user_guid = row.user_guid;
  description = row.description;
  status = row.status;
  expires_at = row.expires_at;
  last_used_at = row.last_used_at;
  created_at = row.created_at;
}

-- `order by createdAt asc`.
unfoldable pub insert_by_age : AccessKeyRow → List AccessKeyRow → List AccessKeyRow
insert_by_age row [] = row ∷ []
insert_by_age row (other ∷ rows) =
    if leb row.created_at other.created_at
    then row ∷ other ∷ rows
    else other ∷ insert_by_age row rows

unfoldable pub oldest_first : List AccessKeyRow → List AccessKeyRow
oldest_first [] = []
oldest_first (row ∷ rows) = insert_by_age row (oldest_first rows)

-- The rows that a listing selects: those of one user, or of all.
abbrev pub is_listed : Option ℕ → AccessKeyRow → Bool
is_listed none row = is_live_key row
is_listed (some user_guid) row = row.user_guid == user_guid && is_live_key row

unfoldable pub list_keys : List AccessKeyRow → Option ℕ → ℕ → ℕ → Pagination AccessKeyItem
list_keys keys user_guid limit page =
    paginate (map to_item (page_rows (oldest_first (filter (is_listed user_guid) keys)) limit page))
      (count (is_listed user_guid) keys) limit page

abbrev pub secret_chars : Text → Text
secret_chars text = take 40 (filter (λ c. not (c == b'+' || c == b'/' || c == b'=')) text)

abbrev pub id_alphabet : Text
id_alphabet = str "ABCDEFGHIJKLMNOPQRSTUVWXYZ234567"

letter_at : Text → ℕ → ℕ
letter_at [] i = 0
letter_at (c ∷ cs) i = elim (get_elem? (c ∷ cs) i) [ none ↦ c | some letter ↦ letter ]

-- `random` is 20 random bytes; the index lies in the alphabet.
unfoldable pub generate_access_key_id : Bytes → Text
unfolding letter_at
generate_access_key_id random =
    str "ST" ++ take 18 (map (λ byte. letter_at id_alphabet (byte % 32)) random)

-- What `randomBytes` draws for a new key; `secret` is its base64.
pub record KeyDraw : Type 0 where
  pub id_bytes : Bytes
  pub secret : Text
  pub iv : Bytes

module _ (gcm : Gcm) where
  -- The id is the primary key of the table, of deleted rows too.
  unfoldable pub create :
      List AccessKeyRow
      → ℕ
      → KeyDraw
      → ℕ
      → Option Text
      → Option ℕ
      → Result AccessKeyError (CreatedAccessKey × List AccessKeyRow)
  create keys now draw user_guid description expires_at = do
    let access_key_id : Text = generate_access_key_id draw.id_bytes
    let secret : Text = secret_chars draw.secret
    let created : AccessKeyRow = record {
      access_key_id = access_key_id;
      user_guid = user_guid;
      secret_key_encrypted = encrypt gcm draw.iv secret;
      description = description;
      status = AccessKeyStatus.active;
      expires_at = expires_at;
      last_used_at = none;
      created_at = now;
      deleted_at = none;
    }
    guard (not (any (has_id access_key_id) keys)) duplicate_access_key
    ok (record { item = to_item created; secret_access_key = secret }, created ∷ keys)

  unfoldable pub credentials_of : AccessKeyRow → Result AccessKeyError ResolvedCredentials
  credentials_of row = do
    secret ← decrypt gcm row.secret_key_encrypted
    ok (record {
      access_key_id = row.access_key_id;
      secret_access_key = secret;
      user_guid = row.user_guid;
    })

  -- `expiresAt && expiresAt < now`.
  unfoldable pub has_expired : ℕ → Option ℕ → Bool
  has_expired now none = false
  has_expired now (some expires_at) = ltb expires_at now

  unfoldable pub resolve_found : ℕ → Option AccessKeyRow → Result AccessKeyError ResolvedCredentials
  unfolding has_expired
  resolve_found now none = err access_key_not_found
  resolve_found now (some found) =
      guard (is_active_key found.status) access_key_inactive
      >> guard (not (has_expired now found.expires_at)) access_key_inactive
      >> credentials_of found

  unfoldable pub resolve_credentials :
      List AccessKeyRow → ℕ → Text → Result AccessKeyError ResolvedCredentials
  unfolding resolve_found
  resolve_credentials keys now access_key_id =
      resolve_found now (find (is_live_id access_key_id) keys)

  -- `!expiresAt || expiresAt > now`.
  unfoldable pub is_unexpired : ℕ → Option ℕ → Bool
  is_unexpired now none = true
  is_unexpired now (some expires_at) = ltb now expires_at

  abbrev pub is_signing_key : ℕ → AccessKeyRow → Bool
  is_signing_key user_guid row =
      row.user_guid == user_guid && is_active_key row.status && is_live_key row

  unfoldable pub or_no_key : Option AccessKeyRow → Result AccessKeyError ResolvedCredentials
  or_no_key none = err no_usable_access_key
  or_no_key (some usable) = credentials_of usable

  unfoldable pub usable_key : List AccessKeyRow → ℕ → ℕ → Option AccessKeyRow
  usable_key keys now user_guid =
      find (λ (row : AccessKeyRow). is_unexpired now row.expires_at)
        (oldest_first (filter (is_signing_key user_guid) keys))

  unfoldable pub resolve_signing_credentials :
      List AccessKeyRow → ℕ → ℕ → Result AccessKeyError ResolvedCredentials
  unfolding or_no_key usable_key
  resolve_signing_credentials keys now user_guid = or_no_key (usable_key keys now user_guid)

or_key_missing : Option AccessKeyRow → Result AccessKeyError AccessKeyRow
or_key_missing none = err access_key_not_found
or_key_missing (some row) = ok row

unfoldable pub assert_accessible :
    List AccessKeyRow → Text → ℕ → UserRole → Result AccessKeyError (Unit {0})
unfolding or_key_missing
assert_accessible keys access_key_id user_guid UserRole.admin = ok tt
assert_accessible keys access_key_id user_guid UserRole.user = do
  found ← or_key_missing (find (is_live_id access_key_id) keys)
  guard (found.user_guid == user_guid) access_key_not_found

-- An update that names a key; one that changes no row fails.
unfoldable pub change_key :
    List AccessKeyRow
    → Text
    → (AccessKeyRow → AccessKeyRow)
    → Result AccessKeyError (List AccessKeyRow)
change_key keys access_key_id f =
    guard (any (is_live_id access_key_id) keys) access_key_not_found
    >> ok (update_where (is_live_id access_key_id) f keys)

unfoldable pub set_status :
    List AccessKeyRow → Text → AccessKeyStatus → Result AccessKeyError (List AccessKeyRow)
unfolding change_key
set_status keys access_key_id status =
    change_key keys access_key_id (λ row. record row { status = status })

unfoldable pub delete : List AccessKeyRow → ℕ → Text → Result AccessKeyError (List AccessKeyRow)
unfolding change_key
delete keys now access_key_id =
    change_key keys access_key_id (λ row. record row { deleted_at = some now })

unfoldable pub mark_used : List AccessKeyRow → ℕ → Text → List AccessKeyRow
mark_used keys now access_key_id =
    update_where (has_id access_key_id)
      (λ (row : AccessKeyRow). record row { last_used_at = some now }) keys
