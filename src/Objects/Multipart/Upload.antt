-- ===== src/Objects/Multipart/Upload.antt =====
-- The life of a multipart upload in libs/domains/src/objects/objects.service.ts:
-- `createMultipartUpload`, `completeMultipartUpload` and `abortMultipartUpload`, over the tables and
-- the blob store; `uploadPart` is in Upload/Parts.
pub mod Parts
pub mod Assembly
pub mod Ending
pub mod Completion
use simple_storage_service.Prelude.{
  ℕ, ◌+◌, ◌-◌, ◌*◌, ◌≡◌, Bool, true, false, not, ◌&&◌, ◌||◌, Option, none, some, List, [], ◌∷◌,
  ◌++◌, map, min,
}
use simple_storage_service.Prelude.Tests.{ltb, leb, ◌==◌, if◌then◌else◌, is_some}
use simple_storage_service.Prelude.Lists.{any, find, filter, flatten, length, take}
use simple_storage_service.Prelude.Query.{update_where, delete_where}
use simple_storage_service.Prelude.Text.{Text, text_eq, is_digit, to_decimal}
use simple_storage_service.Prelude.Result.{Result, ok, err, ◌>>=◌, ◌>>◌, guard}
use simple_storage_service.Database.{
  MultipartUploadStatus, completed, aborted, ObjectHeaders, ObjectVersionRow, MultipartUploadRow,
  MultipartPartRow,
}
use simple_storage_service.Storage.Cipher.{Bytes, Crypto, StorageError, payload_too_large}
use simple_storage_service.Storage.Blobs.{Files, Source, Draw, WriteResult, write, delete, concat}
use simple_storage_service.Usage.{Tables, in_progress, assert_quota}
use simple_storage_service.Objects.{
  ObjectsError, upload_not_found, invalid_part, bad_digest, BucketContext, Catalog, VersionValues,
  VersionDraw, next_version_id, to_encryption_columns, to_blob_encryption,
}
use simple_storage_service.Objects.Versions.{commit_version}
use simple_storage_service.Objects.Put.{
  PutError, from_objects, from_storage, from_usage, State, PutObjectResult, lift_error, within_max,
  delete_blobs, digest_matches,
}
use simple_storage_service.Objects.Multipart.{CompletePart, match_requested_parts}

abbrev pub is_open : ℕ → Text → MultipartUploadRow → Bool
is_open bucket_guid upload_id row =
    text_eq row.upload_id upload_id && row.bucket_guid == bucket_guid && in_progress row.status

or_no_upload : Option MultipartUploadRow → Result ObjectsError MultipartUploadRow
or_no_upload none = err upload_not_found
or_no_upload (some row) = ok row

unfoldable pub require_upload : Tables → ℕ → Text → Result ObjectsError MultipartUploadRow
unfolding or_no_upload
require_upload t bucket_guid upload_id =
    or_no_upload (find (is_open bucket_guid upload_id) t.upload)

abbrev pub part_of_upload : ℕ → MultipartPartRow → Bool
part_of_upload upload_guid part = part.upload_guid == upload_guid

abbrev pub is_part : ℕ → ℕ → MultipartPartRow → Bool
is_part upload_guid part_number part =
    part.upload_guid == upload_guid && part.part_number == part_number

abbrev pub has_upload_guid : ℕ → MultipartUploadRow → Bool
has_upload_guid guid row = row.guid == guid

abbrev pub with_status : MultipartUploadStatus → MultipartUploadRow → MultipartUploadRow
with_status status row = record row { status = status }

abbrev pub part_path : MultipartPartRow → ℕ
part_path part = part.storage_path

-- `guid`, `upload_id` and `now` are drawn.
unfoldable pub create_multipart_upload :
    Tables → ℕ → Text → ℕ → BucketContext → Text → ObjectHeaders → Text × Tables
create_multipart_upload t guid upload_id now bucket key headers = (
  upload_id,
  record t {
    upload =
        record {
          guid = guid;
          upload_id = upload_id;
          bucket_guid = bucket.guid;
          key = key;
          status = MultipartUploadStatus.in_progress;
          headers = headers;
          created_at = now;
        }
        ∷ t.upload;
  },
)

-- `order by partNumber asc`.
unfoldable pub insert_by_number : MultipartPartRow → List MultipartPartRow → List MultipartPartRow
insert_by_number part [] = part ∷ []
insert_by_number part (other ∷ parts) =
    if leb part.part_number other.part_number
    then part ∷ other ∷ parts
    else other ∷ insert_by_number part parts

unfoldable pub by_number : List MultipartPartRow → List MultipartPartRow
by_number [] = []
by_number (part ∷ parts) = insert_by_number part (by_number parts)

unfoldable pub stored_parts : Tables → ℕ → List MultipartPartRow
unfolding by_number insert_by_number
stored_parts t upload_guid = by_number (filter (part_of_upload upload_guid) t.part)

unfoldable pub hex_value : ℕ → Option ℕ
hex_value c =
    if is_digit c
    then some (c - b'0')
    else if leb b'a' c && leb c b'f'
    then some (c - b'a' + 10)
    else if leb b'A' c && leb c b'F'
    then some (c - b'A' + 10)
    else none

-- `Buffer.from(text, 'hex')` stops at the first pair that is none.
unfoldable pub unhex : Text → Bytes
unhex [] = []
unhex (c ∷ []) = []
unhex (c ∷ d ∷ cs) =
    let rest = unhex cs in
    elim (hex_value c) [
      | none ↦ []
      | some high ↦ elim (hex_value d) [ none ↦ [] | some low ↦ (high * 16 + low) ∷ rest ]
    ]

abbrev pub part_etag : MultipartPartRow → Text
part_etag part = part.etag

-- The source of a part for `concat`.
abbrev pub part_source : MultipartPartRow → ℕ × Option Text
part_source part = (part.storage_path, to_blob_encryption part.encryption part.encryption_key)

abbrev pub is_nil : List CompletePart → Bool
is_nil [] = true
is_nil (part ∷ parts) = false

module _ (crypto : Crypto) (md5 : Bytes → Text) (enabled : Bool)
    (decode_base64 : Text → Bytes) where
  unfoldable pub multipart_etag : List Text → Text
  multipart_etag part_etags =
      md5 (flatten (map unhex part_etags)) ++ b'-' ∷ to_decimal (length part_etags)

  abbrev pub values_of_upload :
      MultipartUploadRow → List MultipartPartRow → WriteResult → VersionValues
  values_of_upload upload ordered whole = record {
    is_delete_marker = false;
    size = whole.size;
    etag = multipart_etag (map part_etag ordered);
    headers = upload.headers;
    storage_path = some whole.storage_path;
    encryption = (to_encryption_columns whole.encryption).0;
    encryption_key = (to_encryption_columns whole.encryption).1;
  }

  -- What `completeMultipartUpload` reads and checks before it concatenates.
  unfoldable pub check_complete :
      Tables
      → ℕ
      → Text
      → List CompletePart
      → Result PutError (MultipartUploadRow × List MultipartPartRow)
  check_complete t bucket_guid upload_id requested = do
    upload ← lift_error from_objects (require_upload t bucket_guid upload_id)
    guard (not (is_nil requested)) (from_objects invalid_part)
    ordered ← lift_error from_objects (match_requested_parts requested (stored_parts t upload.guid))
    ok (upload, ordered)

  -- The tables change first, and the blobs of the parts go last.
  unfoldable pub complete_commit :
      State
      → Files
      → BucketContext
      → MultipartUploadRow
      → List MultipartPartRow
      → VersionDraw
      → WriteResult
      → State × PutObjectResult
  complete_commit s files bucket upload ordered draw whole =
      let version_id = next_version_id bucket.versioning draw.version_id in
      let values = values_of_upload upload ordered whole in
      let (catalog, replaced) =
        commit_version s.tables.catalog bucket upload.key draw version_id values in
      (
        record {
          tables = record (s.tables) {
            catalog = catalog;
            upload =
                update_where (has_upload_guid upload.guid)
                  (with_status MultipartUploadStatus.completed) s.tables.upload;
            part = delete_where (part_of_upload upload.guid) s.tables.part;
          };
          files =
              delete_blobs (map part_path (stored_parts s.tables upload.guid) ++ replaced) files;
        },
        record {
          version_id = version_id;
          etag = values.etag;
          size = whole.size;
          encryption = whole.encryption;
        },
      )

  unfoldable pub complete_joined :
      State
      → Files
      → BucketContext
      → MultipartUploadRow
      → List MultipartPartRow
      → VersionDraw
      → Result StorageError WriteResult
      → State × Result PutError PutObjectResult
  complete_joined s files bucket upload ordered draw (err e) =
      (record s { files = files }, err (from_storage e))
  complete_joined s files bucket upload ordered draw (ok whole) =
      let (s', result) = complete_commit s files bucket upload ordered draw whole in (s', ok result)

  unfoldable pub complete_multipart_upload :
      State
      → BucketContext
      → Text
      → List CompletePart
      → Draw
      → VersionDraw
      → State × Result PutError PutObjectResult
  complete_multipart_upload s bucket upload_id requested blob draw =
      elim (check_complete s.tables bucket.guid upload_id requested) [
        | err e ↦ (s, err e)
        | ok (upload, ordered) ↦
            (let (files, whole) =
                concat crypto md5 enabled s.files blob (map part_source ordered) in
              complete_joined s files bucket upload ordered draw whole)
      ]

-- What an abort leaves of the tables.
unfoldable pub abort_tables : Tables → ℕ → Tables
abort_tables t upload_guid = record t {
  upload =
      update_where (has_upload_guid upload_guid) (with_status MultipartUploadStatus.aborted)
        t.upload;
  part = delete_where (part_of_upload upload_guid) t.part;
}

unfoldable pub abort_found :
    State → Result ObjectsError MultipartUploadRow → Result ObjectsError State
unfolding abort_tables
abort_found s (err e) = err e
abort_found s (ok upload) = ok (record {
  tables = abort_tables s.tables upload.guid;
  files = delete_blobs (map part_path (filter (part_of_upload upload.guid) s.tables.part)) s.files;
})

unfoldable pub abort_multipart_upload : State → ℕ → Text → Result ObjectsError State
unfolding abort_found
abort_multipart_upload s bucket_guid upload_id =
    abort_found s (require_upload s.tables bucket_guid upload_id)
