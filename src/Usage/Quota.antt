-- ===== src/Usage/Quota.antt =====
-- What the quota check lets through.
use simple_storage_service.Prelude.{
  Bool, true, false, ◌&&◌, ℕ, ◌+◌, ◌≤◌, ◌≡◌, refl, ◌↔◌, Option, none, some, List, [], ◌∷◌, arith,
}
use simple_storage_service.Prelude.Lists.{any, filter, find}
use simple_storage_service.Prelude.Tests.{◌==◌, if◌then◌else◌}
use simple_storage_service.Prelude.Query.{sum_of}
use simple_storage_service.Prelude.Result.{>>_iff, ok}
use simple_storage_service.Database.{
  MultipartUploadStatus, UserRow, BucketRow, ObjectRow, ObjectVersionRow, MultipartUploadRow,
  MultipartPartRow,
}
use simple_storage_service.Objects.{BucketContext}
use simple_storage_service.Usage.{
  UsageError, bucket_quota_exceeded, user_quota_exceeded, Tables, Usage, empty_usage, bucket_usage,
  add, occupies, part_of, in_progress, version_bytes_of, multipart_bytes_of, total_of,
  is_owned_live, user_usage, owner_quota, quota_of, check_limit, assert_quota,
}

-- No limit, or a limit that is kept.
abbrev pub Within : ℕ → Option ℕ → Type 0
Within wanted none = Unit
Within wanted (some limit) = wanted ≤ limit

check_limit_iff :
    (limit : Option ℕ) (wanted : ℕ) (e : UsageError)
    → (check_limit limit wanted e ≡ ok tt) ↔ Within wanted limit
unfolding check_limit
check_limit_iff none wanted e = (λ h. tt, λ h. refl)
check_limit_iff (some limit) wanted e = ground arith

total_of-sum :
    (t : Tables) (total : Usage) (buckets : List BucketRow)
    → (total_of t total buckets).total_bytes
      ≡ total.total_bytes + sum_of (λ (b : BucketRow). (bucket_usage t b.guid).total_bytes) buckets
unfolding total_of add
total_of-sum t total [] = omega arith
total_of-sum t total (b ∷ bs) = omega (arith, total_of-sum t (add total (bucket_usage t b.guid)) bs)

-- An upload that is neither completed nor aborted.
abbrev pub is_running : MultipartUploadStatus → Bool
is_running MultipartUploadStatus.in_progress = true
is_running MultipartUploadStatus.completed = false
is_running MultipartUploadStatus.aborted = false

-- The bytes of a version that a bucket holds: its size, if it has a blob and its object is of the
-- bucket.
abbrev pub held_version : List ObjectRow → ℕ → ObjectVersionRow → ℕ
held_version objects bucket_guid v = elim v.storage_path [
  | none ↦ 0
  | some path ↦
      if any (λ (o : ObjectRow). o.guid == v.object_guid && o.bucket_guid == bucket_guid) objects
      then v.size
      else 0
]

-- Those of a part: its size, if its upload is of the bucket and still running.
abbrev pub held_part : List MultipartUploadRow → ℕ → MultipartPartRow → ℕ
held_part uploads bucket_guid p =
    if any
      (λ (u : MultipartUploadRow).
        u.guid == p.upload_guid && u.bucket_guid == bucket_guid && is_running u.status)
      uploads
    then p.size
    else 0

-- What a bucket holds: the blobs of its versions and the parts of its running uploads.
abbrev pub held : Tables → ℕ → ℕ
held t bucket_guid =
    sum_of (held_version t.catalog.object bucket_guid) t.catalog.version
    + sum_of (held_part t.upload bucket_guid) t.part

-- What a bucket counts for a user: what it holds, if it is the user's and not deleted.
abbrev pub counted : Tables → ℕ → BucketRow → ℕ
counted t user_guid b = elim b.deleted_at [
  | none ↦ if b.owner_user_guid == user_guid then held t b.guid else 0
  | some time ↦ 0
]

-- The quota of the account with this guid.
abbrev pub limit_of : ℕ → List UserRow → Option ℕ
limit_of user_guid [] = none
limit_of user_guid (u ∷ us) =
    let rest = limit_of user_guid us in if u.guid == user_guid then u.quota_bytes else rest

sum_of-filter :
    {A : Type 0} (p : A → Bool) (size share : A → ℕ) (xs : List A)
    → ((x : A) → (if p x then size x else 0) ≡ share x)
    → sum_of size (filter p xs) ≡ sum_of share xs
sum_of-filter p size share [] same = refl
sum_of-filter p size share (x ∷ xs) same =
    ground (arith, same x, sum_of-filter p size share xs same)

sum_of-same :
    {A : Type 0} (f g : A → ℕ) (xs : List A) → ((x : A) → f x ≡ g x) → sum_of f xs ≡ sum_of g xs
sum_of-same f g [] same = refl
sum_of-same f g (x ∷ xs) same = rw (same x) (rw (sum_of-same f g xs same) refl)

held_version-occupies :
    (objects : List ObjectRow) (bucket_guid : ℕ) (v : ObjectVersionRow)
    → (if occupies objects bucket_guid v then v.size else 0) ≡ held_version objects bucket_guid v
held_version-occupies objects bucket_guid v = ground arith

any-same : {A : Type 0} (f g : A → Bool) (xs : List A) → ((x : A) → f x ≡ g x) → any f xs ≡ any g xs
any-same f g [] same = refl
any-same f g (x ∷ xs) same = rw (same x) (rw (any-same f g xs same) refl)

in_progress-is_running : (status : MultipartUploadStatus) → in_progress status ≡ is_running status
unfolding in_progress
in_progress-is_running MultipartUploadStatus.in_progress = refl
in_progress-is_running MultipartUploadStatus.completed = refl
in_progress-is_running MultipartUploadStatus.aborted = refl

held_part-part_of :
    (uploads : List MultipartUploadRow) (bucket_guid : ℕ) (p : MultipartPartRow)
    → (if part_of uploads bucket_guid p then p.size else 0) ≡ held_part uploads bucket_guid p
held_part-part_of uploads bucket_guid p =
    let same =
      any-same
        (λ (u : MultipartUploadRow).
          u.guid == p.upload_guid && u.bucket_guid == bucket_guid && in_progress u.status)
        (λ (u : MultipartUploadRow).
          u.guid == p.upload_guid && u.bucket_guid == bucket_guid && is_running u.status)
        uploads (λ u. rw (in_progress-is_running u.status) refl) in
    rw same refl

total_bytes-held :
    (t : Tables) (bucket_guid : ℕ) → (bucket_usage t bucket_guid).total_bytes ≡ held t bucket_guid
unfolding bucket_usage version_bytes_of multipart_bytes_of
total_bytes-held t bucket_guid =
    let versions =
      sum_of-filter (occupies t.catalog.object bucket_guid) (λ (v : ObjectVersionRow). v.size)
        (held_version t.catalog.object bucket_guid) t.catalog.version
        (held_version-occupies t.catalog.object bucket_guid) in
    let parts =
      sum_of-filter (part_of t.upload bucket_guid) (λ (p : MultipartPartRow). p.size)
        (held_part t.upload bucket_guid) t.part (held_part-part_of t.upload bucket_guid) in
    omega arith

user_total :
    (t : Tables) (user_guid : ℕ)
    → (user_usage t user_guid).total_bytes ≡ sum_of (counted t user_guid) t.bucket
unfolding user_usage
user_total t user_guid =
    let sum = total_of-sum t empty_usage (filter (is_owned_live user_guid) t.bucket) in
    let filtered =
      sum_of-filter (is_owned_live user_guid)
        (λ (b : BucketRow). (bucket_usage t b.guid).total_bytes) (counted t user_guid) t.bucket
        (λ b. let same = total_bytes-held t b.guid in ground arith) in
    omega arith

owner_quota-limit :
    (user_guid : ℕ) (users : List UserRow)
    → owner_quota (find (λ (u : UserRow). u.guid == user_guid) users) ≡ limit_of user_guid users
unfolding owner_quota
owner_quota-limit user_guid [] = refl
owner_quota-limit user_guid (u ∷ us) = ground (arith, owner_quota-limit user_guid us)

quota_of-limit : (t : Tables) (user_guid : ℕ) → quota_of t user_guid ≡ limit_of user_guid t.user
unfolding quota_of
quota_of-limit t user_guid = owner_quota-limit user_guid t.user

-- The quota check passes exactly when the bytes fit the quota of the bucket, on top of what the
-- bucket holds - the sizes of its versions that have a blob and of the parts of its running
-- uploads -, and that of its owner, on top of what all buckets of the owner that are not deleted
-- hold together; where there is no quota, anything fits.
pub assert_quota_iff :
    (t : Tables) (bucket : BucketContext) (bytes : ℕ)
    → (assert_quota t bucket bytes ≡ ok tt) ↔ (
        Within (held t bucket.guid + bytes) bucket.quota_bytes
        × Within
            (sum_of (counted t bucket.owner_user_guid) t.bucket + bytes)
            (limit_of bucket.owner_user_guid t.user))
unfolding assert_quota
assert_quota_iff t bucket bytes =
    let own =
      check_limit_iff bucket.quota_bytes ((bucket_usage t bucket.guid).total_bytes + bytes)
        bucket_quota_exceeded in
    let owner =
      check_limit_iff (quota_of t bucket.owner_user_guid)
        ((user_usage t bucket.owner_user_guid).total_bytes + bytes) user_quota_exceeded in
    let both =
      >>_iff
        (check_limit bucket.quota_bytes ((bucket_usage t bucket.guid).total_bytes + bytes)
          bucket_quota_exceeded)
        (check_limit (quota_of t bucket.owner_user_guid)
          ((user_usage t bucket.owner_user_guid).total_bytes + bytes) user_quota_exceeded) in
    rw
      (
        ← total_bytes-held t bucket.guid,
        ← user_total t bucket.owner_user_guid,
        ← quota_of-limit t bucket.owner_user_guid,
      )
      (
        λ h. (own.0 (both.0 h).0, owner.0 (both.0 h).1),
        λ (fits, owner_fits). both.1 (own.1 fits, owner.1 owner_fits),
      )
