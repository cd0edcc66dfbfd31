-- ===== src/Objects/Multipart/Upload/Parts.antt =====
-- `uploadPart` of libs/domains/src/objects/objects.service.ts.
use simple_storage_service.Prelude.{ℕ, Bool, ◌&&◌, Option, none, some, List, [], ◌∷◌}
use simple_storage_service.Prelude.Tests.{leb}
use simple_storage_service.Prelude.Lists.{find}
use simple_storage_service.Prelude.Query.{update_where}
use simple_storage_service.Prelude.Text.{Text}
use simple_storage_service.Prelude.Result.{Result, ok, err, ◌>>=◌, ◌>>◌, guard}
use simple_storage_service.Database.{MultipartUploadRow, MultipartPartRow}
use simple_storage_service.Storage.Cipher.{Bytes, Crypto, StorageError, payload_too_large}
use simple_storage_service.Storage.Blobs.{Files, Source, Draw, WriteResult, write, delete}
use simple_storage_service.Usage.{Tables, assert_quota}
use simple_storage_service.Objects.{invalid_part, bad_digest, BucketContext, to_encryption_columns}
use simple_storage_service.Objects.Put.{
  PutError, from_objects, from_storage, from_usage, State, lift_error, within_max, delete_blobs,
  digest_matches,
}
use simple_storage_service.Objects.Multipart.Upload.{is_part, require_upload}

pub record PartParams : Type 0 where
  pub bucket : BucketContext
  pub upload_id : Text
  pub part_number : ℕ
  pub stream : Source
  pub content_md5 : Option Text
  pub declared_length : Option ℕ
  pub max_bytes : Option ℕ

pub record PartResult : Type 0 where
  pub etag : Text
  pub size : ℕ
  pub encryption : Option Text

or_zero : Option ℕ → ℕ
or_zero none = 0
or_zero (some n) = n

module _ (crypto : Crypto) (md5 : Bytes → Text) (enabled : Bool)
    (decode_base64 : Text → Bytes) where
  unfoldable pub check_part_announced : Tables → PartParams → Result PutError MultipartUploadRow
  unfolding or_zero
  check_part_announced t params = do
    upload ← lift_error from_objects (require_upload t params.bucket.guid params.upload_id)
    guard (leb 1 params.part_number && leb params.part_number 10000) (from_objects invalid_part)
    guard (within_max params.declared_length params.max_bytes) (from_storage payload_too_large)
    lift_error from_usage (assert_quota t params.bucket (or_zero params.declared_length))
    ok upload

  unfoldable pub check_part_written : Tables → PartParams → WriteResult → Result PutError (Unit {0})
  check_part_written t params written =
      guard (digest_matches crypto md5 enabled decode_base64 params.content_md5 written.etag)
        (from_objects bad_digest)
      >> lift_error from_usage (assert_quota t params.bucket written.size)

  -- The columns that an insertion sets, and an update of the row that is there already.
  abbrev pub set_part : WriteResult → MultipartPartRow → MultipartPartRow
  set_part written part = record part {
    size = written.size;
    etag = written.etag;
    storage_path = written.storage_path;
    encryption = (to_encryption_columns written.encryption).0;
    encryption_key = (to_encryption_columns written.encryption).1;
  }

  abbrev pub new_part : ℕ → ℕ → ℕ → WriteResult → MultipartPartRow
  new_part upload_guid part_number now written = record {
    upload_guid = upload_guid;
    part_number = part_number;
    size = written.size;
    etag = written.etag;
    storage_path = written.storage_path;
    encryption = (to_encryption_columns written.encryption).0;
    encryption_key = (to_encryption_columns written.encryption).1;
    created_at = now;
  }

  -- The part table behind the insertion, and the paths of the blob that it replaces.
  unfoldable pub upsert_part :
      List MultipartPartRow → ℕ → ℕ → ℕ → WriteResult → List MultipartPartRow × List ℕ
  upsert_part parts upload_guid part_number now written =
      elim (find (is_part upload_guid part_number) parts) [
        | none ↦ (new_part upload_guid part_number now written ∷ parts, [])
        | some previous ↦ (
          update_where (is_part upload_guid part_number) (set_part written) parts,
          previous.storage_path ∷ [],
        )
      ]

  unfoldable pub part_written :
      State
      → Files
      → MultipartUploadRow
      → PartParams
      → ℕ
      → Result StorageError WriteResult
      → State × Result PutError PartResult
  part_written s files upload params now (err e) =
      (record s { files = files }, err (from_storage e))
  part_written s files upload params now (ok written) =
      elim (check_part_written s.tables params written) [
        | err e ↦ (record s { files = delete files written.storage_path }, err e)
        | ok _ ↦
            (let (parts, previous) =
                upsert_part s.tables.part upload.guid params.part_number now written in
              (
                record {
                  tables = record (s.tables) { part = parts };
                  files = delete_blobs previous files;
                },
                ok (record {
                  etag = written.etag;
                  size = written.size;
                  encryption = written.encryption;
                }),
              ))
      ]

  unfoldable pub upload_part : State → PartParams → Draw → ℕ → State × Result PutError PartResult
  upload_part s params blob now = elim (check_part_announced s.tables params) [
    | err e ↦ (s, err e)
    | ok upload ↦
        (let (files, written) =
            write crypto md5 enabled s.files blob params.stream params.max_bytes in
          part_written s files upload params now written)
  ]
