-- ===== src/Database.antt =====
-- The tables: libs/database/src/core/schema.ts and libs/database/src/core/types.ts. A UUID and
-- the storage path made of one are numbers, and so is a timestamp, in milliseconds. Columns that
-- the operations write and nothing decides on (`updatedAt`, `createdByAccessKeyId` and
-- `storageClass`) are left out.
use simple_storage_service.Prelude.{ℕ, Bool, Option, List}
use simple_storage_service.Prelude.Text.{Text}

pub data UserRole : Type 0 where
  admin user : UserRole

pub data UserStatus : Type 0 where
  active disabled : UserStatus

pub data BucketPermission : Type 0 where
  read write delete manage : BucketPermission

pub data AccessKeyStatus : Type 0 where
  active inactive : AccessKeyStatus

pub data BucketAcl : Type 0 where
  private public_read public_read_write authenticated_read : BucketAcl

pub data BucketVersioning : Type 0 where
  disabled enabled suspended : BucketVersioning

pub data MultipartUploadStatus : Type 0 where
  in_progress completed aborted : MultipartUploadStatus

pub data ServerSideEncryption : Type 0 where
  none aes256 : ServerSideEncryption

pub record UserRow : Type 0 where
  pub guid : ℕ
  pub email : Text
  pub name : Option Text
  pub password_hash : Text
  pub role : UserRole
  pub status : UserStatus
  pub quota_bytes : Option ℕ
  pub last_login_at : Option ℕ
  pub created_at : ℕ
  pub deleted_at : Option ℕ

pub record UserSessionRow : Type 0 where
  pub guid : ℕ
  pub user_guid : ℕ
  pub refresh_token_hash : Text
  pub user_agent : Option Text
  pub expires_at : ℕ
  pub revoked_at : Option ℕ

pub record AccessKeyRow : Type 0 where
  pub access_key_id : Text
  pub user_guid : ℕ
  pub secret_key_encrypted : Text
  pub description : Option Text
  pub status : AccessKeyStatus
  pub expires_at : Option ℕ
  pub last_used_at : Option ℕ
  pub created_at : ℕ
  pub deleted_at : Option ℕ

-- `CorsRule` and `CorsConfiguration` of libs/domains/src/s3/s3.types.ts.
pub record CorsRule : Type 0 where
  pub allowed_origins : List Text
  pub allowed_methods : List Text
  pub allowed_headers : Option (List Text)
  pub expose_headers : Option (List Text)
  pub max_age_seconds : Option ℕ

pub record BucketRow : Type 0 where
  pub guid : ℕ
  pub name : Text
  pub owner_user_guid : ℕ
  pub region : Text
  pub acl : BucketAcl
  pub versioning : BucketVersioning
  pub quota_bytes : Option ℕ
  pub cors : Option (List CorsRule)
  pub created_at : ℕ
  pub deleted_at : Option ℕ

pub record BucketAccessRow : Type 0 where
  pub bucket_guid : ℕ
  pub user_guid : ℕ
  pub permissions : List BucketPermission

pub record ObjectRow : Type 0 where
  pub guid : ℕ
  pub bucket_guid : ℕ
  pub key : Text
  pub latest_version_guid : Option ℕ

-- The headers stored with a version, and its metadata as the entries of the record.
pub record ObjectHeaders : Type 0 where
  pub content_type : Option Text
  pub content_encoding : Option Text
  pub cache_control : Option Text
  pub content_disposition : Option Text
  pub metadata : Option (List (Text × Text))

pub record ObjectVersionRow : Type 0 where
  pub guid : ℕ
  pub object_guid : ℕ
  pub version_id : Text
  pub is_delete_marker : Bool
  pub size : ℕ
  pub etag : Text
  pub headers : ObjectHeaders
  pub storage_path : Option ℕ
  pub encryption : ServerSideEncryption
  pub encryption_key : Option Text
  pub created_at : ℕ

pub record MultipartUploadRow : Type 0 where
  pub guid : ℕ
  pub upload_id : Text
  pub bucket_guid : ℕ
  pub key : Text
  pub status : MultipartUploadStatus
  pub headers : ObjectHeaders
  pub created_at : ℕ

pub record MultipartPartRow : Type 0 where
  pub upload_guid : ℕ
  pub part_number : ℕ
  pub size : ℕ
  pub etag : Text
  pub storage_path : ℕ
  pub encryption : ServerSideEncryption
  pub encryption_key : Option Text
  pub created_at : ℕ
