-- ===== src/Objects.antt =====
-- libs/domains/src/objects/objects.service.ts: keys, their versions and multipart uploads. The
-- tables are lists of rows; an insertion is at the head.
pub mod Versions
pub mod Keys
pub mod Put
pub mod Multipart
use simple_storage_service.Prelude.{ℕ, Bool, true, false, Option, none, some, List, [], ◌∷◌}
use simple_storage_service.Prelude.Tests.{◌==◌, if◌then◌else◌}
use simple_storage_service.Prelude.Text.{Text, str}
use simple_storage_service.Database.{
  BucketVersioning, ServerSideEncryption, ObjectRow, ObjectHeaders, ObjectVersionRow,
}

pub data ObjectsError : Type 0 where
  object_not_found version_not_found upload_not_found invalid_part invalid_part_order : ObjectsError
  part_too_small bad_digest invalid_key object_already_exists : ObjectsError

pub record BucketContext : Type 0 where
  pub guid : ℕ
  pub versioning : BucketVersioning
  pub owner_user_guid : ℕ
  pub quota_bytes : Option ℕ

-- The tables `object` and `object_version`.
pub record Catalog : Type 0 where
  pub object : List ObjectRow
  pub version : List ObjectVersionRow

-- What a version row is given by the caller of `commitVersion`.
pub record VersionValues : Type 0 where
  pub is_delete_marker : Bool
  pub size : ℕ
  pub etag : Text
  pub headers : ObjectHeaders
  pub storage_path : Option ℕ
  pub encryption : ServerSideEncryption
  pub encryption_key : Option Text

-- What the database and `randomBytes` draw for a new version, and the clock.
pub record VersionDraw : Type 0 where
  pub object_guid : ℕ
  pub version_guid : ℕ
  pub version_id : Text
  pub now : ℕ

abbrev pub null_version_id : Text
null_version_id = str "null"

-- A random version id in a versioned bucket, `null` in one that is not, or is suspended.
unfoldable pub next_version_id : BucketVersioning → Text → Text
next_version_id BucketVersioning.enabled drawn = drawn
next_version_id BucketVersioning.suspended drawn = null_version_id
next_version_id BucketVersioning.disabled drawn = null_version_id

-- `toEncryptionColumns`, and back.
unfoldable pub to_encryption_columns : Option Text → ServerSideEncryption × Option Text
to_encryption_columns none = (ServerSideEncryption.none, none)
to_encryption_columns (some wrapped_key) = (ServerSideEncryption.aes256, some wrapped_key)

unfoldable pub to_blob_encryption : ServerSideEncryption → Option Text → Option Text
to_blob_encryption ServerSideEncryption.none key = none
to_blob_encryption ServerSideEncryption.aes256 none = none
to_blob_encryption ServerSideEncryption.aes256 (some []) = none
to_blob_encryption ServerSideEncryption.aes256 (some (c ∷ cs)) = some (c ∷ cs)
