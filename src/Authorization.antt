-- ===== src/Authorization.antt =====
-- libs/domains/src/s3/s3.authorization.service.ts: whether an S3 request may proceed.
pub mod Laws
use simple_storage_service.Prelude.{
  ℕ, Bool, true, false, not, ◌&&◌, ◌||◌, Option, none, some, List, [], ◌∷◌, ◌++◌,
}
use simple_storage_service.Prelude.Tests.{◌==◌, if◌then◌else◌}
use simple_storage_service.Prelude.Text.{Text, str, text_eq}
use simple_storage_service.Prelude.Result.{Result, ok, err, ◌>>=◌, ◌>>◌}
use simple_storage_service.Database.{UserRole, BucketPermission, BucketAcl, BucketRow}
use simple_storage_service.Policy.{
  OneOrMany, one, PolicyContext, PolicyDocument, EvaluationRequest, Decision, Numbers,
}
use simple_storage_service.Policy.Evaluate.{evaluate}
use simple_storage_service.Buckets.{
  Store, BucketError, bucket_not_found, get_by_name, has_permission, permission_eq,
}

-- `S3Types.Action`, one per operation.
pub data Action : Type 0 where
  abort_multipart_upload create_bucket delete_bucket delete_bucket_policy delete_object : Action
  delete_object_version get_bucket_acl get_bucket_cors get_bucket_location get_bucket_policy :
      Action
  get_bucket_versioning get_object get_object_version list_bucket : Action
  list_bucket_multipart_uploads list_bucket_versions list_multipart_upload_parts : Action
  put_bucket_acl put_bucket_cors put_bucket_policy put_bucket_versioning put_object : Action

-- The text of each action in a policy.
unfoldable pub action_name : Action → Text
action_name abort_multipart_upload = str "s3:AbortMultipartUpload"
action_name create_bucket = str "s3:CreateBucket"
action_name delete_bucket = str "s3:DeleteBucket"
action_name delete_bucket_policy = str "s3:DeleteBucketPolicy"
action_name delete_object = str "s3:DeleteObject"
action_name delete_object_version = str "s3:DeleteObjectVersion"
action_name get_bucket_acl = str "s3:GetBucketAcl"
action_name get_bucket_cors = str "s3:GetBucketCORS"
action_name get_bucket_location = str "s3:GetBucketLocation"
action_name get_bucket_policy = str "s3:GetBucketPolicy"
action_name get_bucket_versioning = str "s3:GetBucketVersioning"
action_name get_object = str "s3:GetObject"
action_name get_object_version = str "s3:GetObjectVersion"
action_name list_bucket = str "s3:ListBucket"
action_name list_bucket_multipart_uploads = str "s3:ListBucketMultipartUploads"
action_name list_bucket_versions = str "s3:ListBucketVersions"
action_name list_multipart_upload_parts = str "s3:ListMultipartUploadParts"
action_name put_bucket_acl = str "s3:PutBucketAcl"
action_name put_bucket_cors = str "s3:PutBucketCORS"
action_name put_bucket_policy = str "s3:PutBucketPolicy"
action_name put_bucket_versioning = str "s3:PutBucketVersioning"
action_name put_object = str "s3:PutObject"

-- `ACTION_PERMISSIONS`.
unfoldable pub action_permission : Action → BucketPermission
action_permission abort_multipart_upload = BucketPermission.write
action_permission create_bucket = BucketPermission.manage
action_permission delete_bucket = BucketPermission.manage
action_permission delete_bucket_policy = BucketPermission.manage
action_permission delete_object = BucketPermission.delete
action_permission delete_object_version = BucketPermission.delete
action_permission get_bucket_acl = BucketPermission.manage
action_permission get_bucket_cors = BucketPermission.read
action_permission get_bucket_location = BucketPermission.read
action_permission get_bucket_policy = BucketPermission.manage
action_permission get_bucket_versioning = BucketPermission.read
action_permission get_object = BucketPermission.read
action_permission get_object_version = BucketPermission.read
action_permission list_bucket = BucketPermission.read
action_permission list_bucket_multipart_uploads = BucketPermission.read
action_permission list_bucket_versions = BucketPermission.read
action_permission list_multipart_upload_parts = BucketPermission.read
action_permission put_bucket_acl = BucketPermission.manage
action_permission put_bucket_cors = BucketPermission.manage
action_permission put_bucket_policy = BucketPermission.manage
action_permission put_bucket_versioning = BucketPermission.manage
action_permission put_object = BucketPermission.write

-- `S3Types.RequestIdentity`. The chunk signing material plays no part in authorisation.
pub record RequestIdentity : Type 0 where
  pub access_key_id : Text
  pub user_guid : ℕ
  pub anonymous : Bool

pub data AuthorizationError : Type 0 where
  access_denied : AuthorizationError
  from_buckets : BucketError → AuthorizationError

unfoldable pub lift_bucket {ℓ} : {A : Type ℓ} → Result BucketError A → Result AuthorizationError A
lift_bucket (ok a) = ok a
lift_bucket (err e) = err (from_buckets e)

-- An absent or empty key stands for the bucket itself.
unfoldable pub resource_arn : Text → Option Text → Text
resource_arn name none = str "arn:aws:s3:::" ++ name
resource_arn name (some []) = str "arn:aws:s3:::" ++ name
resource_arn name (some (c ∷ cs)) = str "arn:aws:s3:::" ++ name ++ b'/' ∷ c ∷ cs

-- Canned ACLs open up reads, or reads and writes, and never bucket management.
unfoldable pub allowed_by_acl : BucketAcl → BucketPermission → Bool → Bool
allowed_by_acl acl BucketPermission.manage anonymous = false
allowed_by_acl BucketAcl.public_read_write permission anonymous = true
allowed_by_acl BucketAcl.public_read permission anonymous =
    permission_eq permission BucketPermission.read
allowed_by_acl BucketAcl.authenticated_read permission anonymous =
    not anonymous && permission_eq permission BucketPermission.read
allowed_by_acl BucketAcl.private permission anonymous = false

unfoldable pub allowed_by_ownership_or_acl :
    Store → RequestIdentity → BucketRow → BucketPermission → Result BucketError Bool
allowed_by_ownership_or_acl s identity bucket permission =
    if identity.anonymous
    then ok (allowed_by_acl bucket.acl permission true)
    else if bucket.owner_user_guid == identity.user_guid
    then ok true
    else do
      granted ← has_permission s bucket.guid identity.user_guid UserRole.user permission
      ok (granted || allowed_by_acl bucket.acl permission false)

decide_fallback : Bool → Result AuthorizationError (Unit {0})
decide_fallback true = ok tt
decide_fallback false = err access_denied

-- What the service is given: the numbers of the policy engine, the text of a UUID, and the
-- policy that `PoliciesService.get` reads for a bucket.
module _ (numbers : Numbers) (guid_text : ℕ → Text) (policy_of : ℕ → Option PolicyDocument) where
  unless_anonymous {ℓ} : {A : Type ℓ} → RequestIdentity → A → Option A
  unless_anonymous identity a = if identity.anonymous then none else some a

  -- The keys of the request, with those of the identity over them; `none` is no request at all.
  unfoldable pub policy_context : Option PolicyContext → RequestIdentity → PolicyContext
  unfolding unless_anonymous
  policy_context request identity key =
      if text_eq key (str "aws:username")
      then unless_anonymous identity (one (guid_text identity.user_guid))
      else if text_eq key (str "aws:userid")
      then unless_anonymous identity (one identity.access_key_id)
      else (elim request [ none ↦ none | some context ↦ context key ])

  unfoldable pub evaluation_request :
      Option PolicyContext → RequestIdentity → BucketRow → Action → Option Text → EvaluationRequest
  unfolding unless_anonymous
  evaluation_request request identity bucket action key = record {
    action = action_name action;
    resource = resource_arn bucket.name key;
    principal_user_guid = unless_anonymous identity (guid_text identity.user_guid);
    access_key_id = unless_anonymous identity identity.access_key_id;
    context = policy_context request identity;
  }

  authorize_decision :
      Decision → Store → RequestIdentity → BucketRow → Action → Result AuthorizationError (Unit {0})
  authorize_decision Decision.deny s identity bucket action = err access_denied
  authorize_decision Decision.allow s identity bucket action = ok tt
  authorize_decision Decision.not_applicable s identity bucket action =
      lift_bucket (allowed_by_ownership_or_acl s identity bucket (action_permission action))
      >>= decide_fallback

  unfoldable pub authorize :
      Store
      → Option PolicyContext
      → RequestIdentity
      → BucketRow
      → Action
      → Option Text
      → Result AuthorizationError (Unit {0})
  unfolding authorize_decision decide_fallback
  authorize s request identity bucket action key =
      authorize_decision
        (evaluate numbers (policy_of bucket.guid)
          (evaluation_request request identity bucket action key))
        s identity bucket action

  unfoldable pub resolve_bucket :
      Store
      → Option PolicyContext
      → Text
      → RequestIdentity
      → Action
      → Option Text
      → Result AuthorizationError BucketRow
  resolve_bucket s request name identity action key = do
    bucket ← lift_bucket (get_by_name s name)
    authorize s request identity bucket action key
    ok bucket
