-- ===== src/Buckets.antt =====
-- libs/domains/src/buckets/buckets.service.ts: buckets, their settings, grants and CORS rules.
pub mod Names
pub mod Cors
pub mod Grants
pub mod Lifecycle
use simple_storage_service.Prelude.{
  ℕ, ◌<◌, Bool, true, false, not, ◌&&◌, ◌||◌, Option, none, some, List, [], ◌∷◌, map,
}
use simple_storage_service.Prelude.Tests.{ltb, ◌==◌, if◌then◌else◌, is_some}
use simple_storage_service.Prelude.Lists.{any, all, filter, find, length}
use simple_storage_service.Prelude.Query.{update_where, delete_where, count}
use simple_storage_service.Prelude.Text.{Text, text_eq, includes}
use simple_storage_service.Prelude.Result.{Result, ok, err, ◌>>=◌, ◌>>◌, guard}
use simple_storage_service.Database.{
  UserRole, BucketPermission, BucketAcl, BucketVersioning, CorsRule, BucketRow, BucketAccessRow,
  ObjectRow,
}
use simple_storage_service.Buckets.Names.{is_valid_name}

pub data BucketError : Type 0 where
  bucket_not_found bucket_already_exists invalid_bucket_name bucket_not_empty : BucketError
  permission_denied invalid_cors_configuration : BucketError

-- The tables that this service reads and writes.
pub record Store : Type 0 where
  pub bucket : List BucketRow
  pub bucket_access : List BucketAccessRow
  pub object : List ObjectRow

abbrev pub is_live : BucketRow → Bool
is_live row = not (is_some row.deleted_at)

-- `eq(bucket.guid, guid)`, and with `isNull(bucket.deletedAt)`.
abbrev pub has_guid : ℕ → BucketRow → Bool
has_guid guid row = row.guid == guid

abbrev pub is_live_guid : ℕ → BucketRow → Bool
is_live_guid guid row = row.guid == guid && is_live row

abbrev pub is_live_name : Text → BucketRow → Bool
is_live_name name row = text_eq row.name name && is_live row

abbrev pub is_grant_of : ℕ → ℕ → BucketAccessRow → Bool
is_grant_of bucket_guid user_guid row = row.bucket_guid == bucket_guid && row.user_guid == user_guid

unfoldable pub permission_eq : BucketPermission → BucketPermission → Bool
permission_eq BucketPermission.read BucketPermission.read = true
permission_eq BucketPermission.write BucketPermission.write = true
permission_eq BucketPermission.delete BucketPermission.delete = true
permission_eq BucketPermission.manage BucketPermission.manage = true
permission_eq _ _ = false

-- A bucket with its grant to the user, as the left join pairs them.
visible_to : List BucketAccessRow → ℕ → BucketRow → Bool
visible_to access user_guid row =
    row.owner_user_guid == user_guid || (elim (find (is_grant_of row.guid user_guid) access) [
      | none ↦ false
      | some grant ↦ ltb 0 (length grant.permissions)
    ])

unfoldable pub list_for_user : Store → ℕ → UserRole → List BucketRow
unfolding visible_to
list_for_user s user_guid UserRole.admin = filter is_live s.bucket
list_for_user s user_guid UserRole.user =
    filter (visible_to s.bucket_access user_guid) (filter is_live s.bucket)

unfoldable pub find_by_name : Store → Text → Option BucketRow
find_by_name s name = find (is_live_name name) s.bucket

unfoldable pub get_by_name : Store → Text → Result BucketError BucketRow
get_by_name s name = elim (find (is_live_name name) s.bucket) [
  | none ↦ err bucket_not_found
  | some found ↦ ok found
]

granted : Option BucketAccessRow → BucketPermission → Bool
granted none permission = false
granted (some grant) permission = any (λ p. permission_eq p permission) grant.permissions

unfoldable pub has_permission :
    Store → ℕ → ℕ → UserRole → BucketPermission → Result BucketError Bool
unfolding granted
has_permission s bucket_guid user_guid UserRole.admin permission = ok true
has_permission s bucket_guid user_guid UserRole.user permission =
    elim (find (is_live_guid bucket_guid) s.bucket) [
      | none ↦ err bucket_not_found
      | some bucket ↦
          if bucket.owner_user_guid == user_guid
          then ok true
          else ok (granted (find (is_grant_of bucket_guid user_guid) s.bucket_access) permission)
    ]

-- A denied read is reported as a missing bucket.
abbrev denial : BucketPermission → BucketError
denial BucketPermission.read = bucket_not_found
denial _ = permission_denied

unfoldable pub get_for_user :
    Store → Text → ℕ → UserRole → BucketPermission → Result BucketError BucketRow
get_for_user s name user_guid role permission = do
  bucket ← get_by_name s name
  allowed ← has_permission s bucket.guid user_guid role permission
  guard allowed (denial permission)
  ok bucket

-- The row inserted by `create`: the database draws `guid`, reads the clock and fills the defaults.
abbrev pub new_bucket : ℕ → ℕ → Text → ℕ → Text → BucketRow
new_bucket guid now name owner_user_guid region = record {
  guid = guid;
  name = name;
  owner_user_guid = owner_user_guid;
  region = region;
  acl = BucketAcl.private;
  versioning = BucketVersioning.disabled;
  quota_bytes = none;
  cors = none;
  created_at = now;
  deleted_at = none;
}

-- The unique index on `name` covers deleted buckets too.
unfoldable pub is_name_taken : Store → Text → Bool
is_name_taken s name = any (λ (row : BucketRow). text_eq row.name name) s.bucket

unfoldable pub create : Store → ℕ → ℕ → Text → ℕ → Text → Result BucketError (BucketRow × Store)
create s guid now name owner_user_guid region = do
  guard (is_valid_name name) invalid_bucket_name
  guard (not (is_name_taken s name)) bucket_already_exists
  let created : BucketRow = new_bucket guid now name owner_user_guid region
  ok (created, record s { bucket = created ∷ s.bucket })

unfoldable pub delete : Store → ℕ → ℕ → Result BucketError Store
delete s now guid = do
  guard (not (ltb 0 (count (λ (row : ObjectRow). row.bucket_guid == guid) s.object)))
      bucket_not_empty
  ok (record s {
    bucket = update_where (has_guid guid) (λ row. record row { deleted_at = some now }) s.bucket;
  })

abbrev set_bucket : Store → ℕ → (BucketRow → BucketRow) → Store
set_bucket s guid f = record s { bucket = update_where (has_guid guid) f s.bucket }

unfoldable pub set_versioning : Store → ℕ → BucketVersioning → Store
set_versioning s guid versioning = set_bucket s guid (λ row. record row { versioning = versioning })

unfoldable pub set_acl : Store → ℕ → BucketAcl → Store
set_acl s guid acl = set_bucket s guid (λ row. record row { acl = acl })

unfoldable pub set_quota : Store → ℕ → Option ℕ → Store
set_quota s guid quota_bytes = set_bucket s guid (λ row. record row { quota_bytes = quota_bytes })

rule_is_valid : CorsRule → Bool
rule_is_valid rule = ltb 0 (length rule.allowed_origins) && ltb 0 (length rule.allowed_methods)

unfoldable pub set_cors : Store → ℕ → List CorsRule → Result BucketError Store
unfolding rule_is_valid
set_cors s guid rules = do
  guard (ltb 0 (length rules) && all rule_is_valid rules) invalid_cors_configuration
  ok (set_bucket s guid (λ row. record row { cors = some rules }))

unfoldable pub delete_cors : Store → ℕ → Store
delete_cors s guid = set_bucket s guid (λ row. record row { cors = none })

unfoldable pub list_grants : Store → ℕ → List BucketAccessRow
list_grants s bucket_guid = filter (λ row. row.bucket_guid == bucket_guid) s.bucket_access

-- `insert ... on conflict (bucketGuid, userGuid) do update`.
unfoldable pub upsert_grant : BucketAccessRow → List BucketAccessRow → List BucketAccessRow
upsert_grant grant [] = grant ∷ []
upsert_grant grant (row ∷ rows) =
    if is_grant_of grant.bucket_guid grant.user_guid row
    then record row { permissions = grant.permissions } ∷ rows
    else row ∷ upsert_grant grant rows

unfoldable pub set_grant : Store → BucketAccessRow → Store
set_grant s grant = record s { bucket_access = upsert_grant grant s.bucket_access }

unfoldable pub remove_grant : Store → ℕ → ℕ → Store
remove_grant s bucket_guid user_guid = record s {
  bucket_access = delete_where (is_grant_of bucket_guid user_guid) s.bucket_access;
}
