-- ===== src/Usage.antt =====
-- libs/domains/src/usage/usage.service.ts: what a bucket and a user occupy, and the quota check.
pub mod Quota
use simple_storage_service.Prelude.{
  ℕ, ◌+◌, ◌<◌, Bool, true, false, not, ◌&&◌, Option, none, some, List, [], ◌∷◌,
}
use simple_storage_service.Prelude.Tests.{ltb, ◌==◌, if◌then◌else◌, is_some}
use simple_storage_service.Prelude.Lists.{any, filter, find, length}
use simple_storage_service.Prelude.Query.{count, sum_of}
use simple_storage_service.Prelude.Result.{Result, ok, err, ◌>>◌, guard}
use simple_storage_service.Database.{
  MultipartUploadStatus, UserRow, BucketRow, ObjectRow, ObjectVersionRow, MultipartUploadRow,
  MultipartPartRow,
}
use simple_storage_service.Objects.{BucketContext, Catalog}

pub data UsageError : Type 0 where
  bucket_quota_exceeded user_quota_exceeded : UsageError

-- The tables that are read.
pub record Tables : Type 0 where
  pub catalog : Catalog
  pub upload : List MultipartUploadRow
  pub part : List MultipartPartRow
  pub bucket : List BucketRow
  pub user : List UserRow

pub record Usage : Type 0 where
  pub object_count : ℕ
  pub version_count : ℕ
  pub version_bytes : ℕ
  pub multipart_bytes : ℕ
  pub total_bytes : ℕ

abbrev pub empty_usage : Usage
empty_usage = record {
  object_count = 0;
  version_count = 0;
  version_bytes = 0;
  multipart_bytes = 0;
  total_bytes = 0;
}

-- The joins: a guid is a primary key, so a row joins one row at most.
abbrev pub in_bucket : List ObjectRow → ℕ → ℕ → Bool
in_bucket objects bucket_guid object_guid =
    any (λ (o : ObjectRow). o.guid == object_guid && o.bucket_guid == bucket_guid) objects

-- A version of the bucket that has a blob.
abbrev pub occupies : List ObjectRow → ℕ → ObjectVersionRow → Bool
occupies objects bucket_guid v =
    in_bucket objects bucket_guid v.object_guid && is_some v.storage_path

unfoldable pub in_progress : MultipartUploadStatus → Bool
in_progress MultipartUploadStatus.in_progress = true
in_progress _ = false

abbrev pub part_of : List MultipartUploadRow → ℕ → MultipartPartRow → Bool
part_of uploads bucket_guid p =
    any
      (λ (u : MultipartUploadRow).
        u.guid == p.upload_guid && u.bucket_guid == bucket_guid && in_progress u.status)
      uploads

is_latest_visible : List ObjectVersionRow → ObjectRow → Bool
is_latest_visible versions o = elim o.latest_version_guid [
  | none ↦ false
  | some guid ↦ any (λ (v : ObjectVersionRow). v.guid == guid && not v.is_delete_marker) versions
]

unfoldable pub version_bytes_of : Catalog → ℕ → ℕ
version_bytes_of c bucket_guid =
    sum_of (λ (v : ObjectVersionRow). v.size) (filter (occupies c.object bucket_guid) c.version)

unfoldable pub multipart_bytes_of : Tables → ℕ → ℕ
unfolding in_progress
multipart_bytes_of t bucket_guid =
    sum_of (λ (p : MultipartPartRow). p.size) (filter (part_of t.upload bucket_guid) t.part)

unfoldable pub bucket_usage : Tables → ℕ → Usage
unfolding is_latest_visible
bucket_usage t bucket_guid = record {
  object_count =
      count
        (λ (o : ObjectRow). o.bucket_guid == bucket_guid && is_latest_visible t.catalog.version o)
        t.catalog.object;
  version_count = count (occupies t.catalog.object bucket_guid) t.catalog.version;
  version_bytes = version_bytes_of t.catalog bucket_guid;
  multipart_bytes = multipart_bytes_of t bucket_guid;
  total_bytes = version_bytes_of t.catalog bucket_guid + multipart_bytes_of t bucket_guid;
}

unfoldable pub add : Usage → Usage → Usage
add left right = record {
  object_count = left.object_count + right.object_count;
  version_count = left.version_count + right.version_count;
  version_bytes = left.version_bytes + right.version_bytes;
  multipart_bytes = left.multipart_bytes + right.multipart_bytes;
  total_bytes = left.total_bytes + right.total_bytes;
}

-- `reduce` from the left.
total_of : Tables → Usage → List BucketRow → Usage
total_of t total [] = total
total_of t total (b ∷ bs) = total_of t (add total (bucket_usage t b.guid)) bs

abbrev pub is_owned_live : ℕ → BucketRow → Bool
is_owned_live user_guid b = b.owner_user_guid == user_guid && not (is_some b.deleted_at)

unfoldable pub user_usage : Tables → ℕ → Usage
unfolding total_of
user_usage t user_guid = total_of t empty_usage (filter (is_owned_live user_guid) t.bucket)

unfoldable pub owner_quota : Option UserRow → Option ℕ
owner_quota none = none
owner_quota (some owner) = owner.quota_bytes

check_limit : Option ℕ → ℕ → UsageError → Result UsageError (Unit {0})
check_limit none wanted e = ok tt
check_limit (some limit) wanted e = guard (not (ltb limit wanted)) e

unfoldable pub quota_of : Tables → ℕ → Option ℕ
unfolding owner_quota
quota_of t user_guid = owner_quota (find (λ (u : UserRow). u.guid == user_guid) t.user)

unfoldable pub assert_quota : Tables → BucketContext → ℕ → Result UsageError (Unit {0})
unfolding check_limit
assert_quota t bucket bytes =
    check_limit bucket.quota_bytes ((bucket_usage t bucket.guid).total_bytes + bytes)
      bucket_quota_exceeded
    >> check_limit (quota_of t bucket.owner_user_guid)
        ((user_usage t bucket.owner_user_guid).total_bytes + bytes) user_quota_exceeded
