-- ===== src/Objects/Put.antt =====
-- `put`, `readPayload` and `deleteBlobs` in
-- libs/domains/src/objects/objects.service.ts, over the blob store and the quota check.
pub mod Atomicity
pub mod Roundtrip
use simple_storage_service.Prelude.{
  ℕ, ◌≡◌, Bool, true, false, not, Option, none, some, List, [], ◌∷◌, ◌++◌, map, ◌&&◌, ◌/◌, ◌%◌, ◌+◌,
  ◌-◌, ◌-◌,
}
use simple_storage_service.Prelude.Tests.{ltb, ◌==◌, if◌then◌else◌}
use simple_storage_service.Prelude.Lists.{length}
use simple_storage_service.Prelude.Text.{Text, text_eq}
use simple_storage_service.Prelude.Result.{Result, ok, err, ◌>>=◌, ◌>>◌, guard}
use simple_storage_service.Database.{ObjectHeaders, ObjectVersionRow}
use simple_storage_service.Storage.Cipher.{Bytes, Crypto, StorageError, payload_too_large}
use simple_storage_service.Storage.Blobs.{
  Files, Source, Draw, WriteResult, ReadRange, write, read, delete,
}
use simple_storage_service.Usage.{UsageError, Tables, assert_quota}
use simple_storage_service.Objects.{
  ObjectsError, bad_digest, invalid_key, object_not_found, BucketContext, Catalog, VersionValues,
  VersionDraw, next_version_id, to_encryption_columns, to_blob_encryption,
}
use simple_storage_service.Objects.Keys.{is_valid_key}
use simple_storage_service.Objects.Versions.{commit_version, get_version}

pub data PutError : Type 0 where
  from_objects : ObjectsError → PutError
  from_storage : StorageError → PutError
  from_usage : UsageError → PutError

pub record State : Type 0 where
  pub tables : Tables
  pub files : Files

pub record PutParams : Type 0 where
  pub bucket : BucketContext
  pub key : Text
  pub stream : Source
  pub content_md5 : Option Text
  pub declared_length : Option ℕ
  pub max_bytes : Option ℕ
  pub headers : ObjectHeaders

pub record PutObjectResult : Type 0 where
  pub version_id : Text
  pub etag : Text
  pub size : ℕ
  pub encryption : Option Text

unfoldable pub lift_error {ℓ} :
    {A : Type ℓ} {E : Type 0} → (E → PutError) → Result E A → Result PutError A
lift_error f (ok a) = ok a
lift_error f (err e) = err (f e)

unfoldable pub within_max : Option ℕ → Option ℕ → Bool
within_max (some declared) (some max) = not (ltb max declared)
within_max _ _ = true

-- `declaredLength ?? 0`.
abbrev or_zero : Option ℕ → ℕ
or_zero none = 0
or_zero (some n) = n

abbrev set_catalog : State → Catalog → State
set_catalog s c = record s { tables = record (s.tables) { catalog = c } }

-- `deleteBlobs`.
unfoldable pub delete_blobs : List ℕ → Files → Files
delete_blobs [] files = files
delete_blobs (path ∷ paths) files = delete_blobs paths (delete files path)

hex_digit : ℕ → ℕ
hex_digit n = if ltb n 10 then b'0' + n else b'a' + n - 10

-- `toString('hex')`.
unfoldable pub hex : Bytes → Text
unfolding hex_digit
hex [] = []
hex (b ∷ bs) = hex_digit (b / 16) ∷ hex_digit (b % 16) ∷ hex bs

-- `decode_base64` is `Buffer.from(text, 'base64')`; `md5` as for the blob store.
module _ (crypto : Crypto) (md5 : Bytes → Text) (enabled : Bool)
    (decode_base64 : Text → Bytes) where
  -- An empty header counts as none.
  unfoldable pub digest_matches : Option Text → Text → Bool
  digest_matches none etag = true
  digest_matches (some []) etag = true
  digest_matches (some (c ∷ cs)) etag =
      let expected = decode_base64 (c ∷ cs) in
      (length expected == 16) && text_eq (hex expected) etag

  -- The checks before a byte is read, and those on what has been written.
  unfoldable pub check_announced : Tables → PutParams → Result PutError (Unit {0})
  check_announced t params =
      guard (is_valid_key params.key) (from_objects invalid_key)
      >> guard (within_max params.declared_length params.max_bytes) (from_storage payload_too_large)
      >> lift_error from_usage (assert_quota t params.bucket (or_zero params.declared_length))

  unfoldable pub check_written : Tables → PutParams → WriteResult → Result PutError (Unit {0})
  check_written t params written =
      guard (digest_matches params.content_md5 written.etag) (from_objects bad_digest)
      >> lift_error from_usage (assert_quota t params.bucket written.size)

  abbrev pub values_of : PutParams → WriteResult → VersionValues
  values_of params written = record {
    is_delete_marker = false;
    size = written.size;
    etag = written.etag;
    headers = params.headers;
    storage_path = some written.storage_path;
    encryption = (to_encryption_columns written.encryption).0;
    encryption_key = (to_encryption_columns written.encryption).1;
  }

  -- The tables change, and only then are the replaced blobs deleted.
  unfoldable pub put_commit :
      State → Files → PutParams → VersionDraw → WriteResult → State × PutObjectResult
  put_commit s files params draw written =
      let version_id = next_version_id params.bucket.versioning draw.version_id in
      let (catalog, replaced) =
        commit_version s.tables.catalog params.bucket params.key draw version_id
          (values_of params written) in
      (
        record {
          tables = record (s.tables) { catalog = catalog };
          files = delete_blobs replaced files;
        },
        record {
          version_id = version_id;
          etag = written.etag;
          size = written.size;
          encryption = written.encryption;
        },
      )

  unfoldable pub put_written :
      State
      → Files
      → PutParams
      → VersionDraw
      → Result StorageError WriteResult
      → State × Result PutError PutObjectResult
  put_written s files params draw (err e) = (record s { files = files }, err (from_storage e))
  put_written s files params draw (ok written) = elim (check_written s.tables params written) [
    | err e ↦ (record s { files = delete files written.storage_path }, err e)
    | ok _ ↦ (let (s', result) = put_commit s files params draw written in (s', ok result))
  ]

  unfoldable pub put :
      State → PutParams → Draw → VersionDraw → State × Result PutError PutObjectResult
  put s params blob draw = elim (check_announced s.tables params) [
    | err e ↦ (s, err e)
    | ok _ ↦
        (let (files, written) =
            write crypto md5 enabled s.files blob params.stream params.max_bytes in
          put_written s files params draw written)
  ]

  -- `readPayload` of the version that `getVersion` gives, as a `GetObject` does.
  unfoldable pub read_version :
      State → ObjectVersionRow → Option ReadRange → Option (Result StorageError Bytes)
  read_version s version range = elim version.storage_path [
    | none ↦ none
    | some path ↦ some (
        read crypto md5 enabled s.files path range
          (to_blob_encryption version.encryption version.encryption_key))
  ]
