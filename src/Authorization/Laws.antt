-- ===== src/Authorization/Laws.antt =====
-- When an S3 request is let through.
use simple_storage_service.Prelude.{
  ℕ, ◌≡◌, ◌≢◌, refl, ◌↔◌, ◌⊎◌, inl, inr, Bool, true, false, Option, some, arith,
}
use simple_storage_service.Prelude.Lists.{find, Exists}
use simple_storage_service.Prelude.Text.{Text}
use simple_storage_service.Prelude.Result.{ok, err, ◌>>=◌}
use simple_storage_service.Database.{UserRole, BucketPermission, BucketAcl, BucketRow}
use simple_storage_service.Policy.{PolicyContext, PolicyDocument, Decision, Numbers}
use simple_storage_service.Policy.Evaluate.{evaluate}
use simple_storage_service.Policy.Evaluate.Precedence.{Denies, evaluate-deny_iff}
use simple_storage_service.Buckets.{Store, is_live_guid, has_permission, permission_eq}
use simple_storage_service.Buckets.Grants.{has_permission-live}
use simple_storage_service.Authorization.{
  Action, action_permission, RequestIdentity, access_denied, allowed_by_acl,
  allowed_by_ownership_or_acl, lift_bucket, decide_fallback, authorize_decision, authorize,
  evaluation_request,
}

-- What each canned ACL opens up, and to whom.
abbrev pub OpenTo : BucketAcl → BucketPermission → Bool → Type 0
OpenTo acl permission anonymous =
    ((acl ≡ BucketAcl.public_read_write) × (permission ≢ BucketPermission.manage))
    ⊎ ((acl ≡ BucketAcl.public_read) × (permission ≡ BucketPermission.read))
    ⊎ ((acl ≡ BucketAcl.authenticated_read)
        × (permission ≡ BucketPermission.read)
        × (anonymous ≡ false))

allowed_by_acl_iff :
    (acl : BucketAcl) (permission : BucketPermission) (anonymous : Bool)
    → (allowed_by_acl acl permission anonymous ≡ true) ↔ OpenTo acl permission anonymous
unfolding allowed_by_acl permission_eq
allowed_by_acl_iff acl permission anonymous = grind arith

-- The fallback when no policy statement decides: the canned ACL; for a signed request also
-- ownership of the bucket, or a grant.
abbrev pub Entitled : Store → RequestIdentity → BucketRow → BucketPermission → Type 0
Entitled s identity bucket permission =
    OpenTo bucket.acl permission identity.anonymous
    ⊎ ((identity.anonymous ≡ false) × (bucket.owner_user_guid ≡ identity.user_guid))
    ⊎ ((identity.anonymous ≡ false)
        × (has_permission s bucket.guid identity.user_guid UserRole.user permission ≡ ok true))

module _ (s : Store) (identity : RequestIdentity) (bucket : BucketRow)
    (permission : BucketPermission) where
  fallback_iff :
      (row : BucketRow)
      → find (is_live_guid bucket.guid) s.bucket ≡ some row
      → ((lift_bucket (allowed_by_ownership_or_acl s identity bucket permission)
            >>= decide_fallback)
          ≡ ok tt)
        ↔ Entitled s identity bucket permission
  unfolding allowed_by_ownership_or_acl lift_bucket decide_fallback
  fallback_iff row live =
      let (granted, answer) =
        has_permission-live s row bucket.guid identity.user_guid permission live in
      ground (
        arith,
        answer,
        allowed_by_acl_iff bucket.acl permission true,
        allowed_by_acl_iff bucket.acl permission false,
      )

  -- The fallback as a decision: it never fails in another way on a live bucket.
  fallback-cases :
      (row : BucketRow)
      → find (is_live_guid bucket.guid) s.bucket ≡ some row
      → ((lift_bucket (allowed_by_ownership_or_acl s identity bucket permission)
            >>= decide_fallback)
          ≡ ok tt)
        ⊎ ((lift_bucket (allowed_by_ownership_or_acl s identity bucket permission)
              >>= decide_fallback)
            ≡ err access_denied)
  unfolding allowed_by_ownership_or_acl lift_bucket decide_fallback
  fallback-cases row live =
      let (granted, answer) =
        has_permission-live s row bucket.guid identity.user_guid permission live in
      ground (arith, answer)

  anonymous_fallback :
      identity.anonymous ≡ true
      → permission ≡ BucketPermission.manage
      → (lift_bucket (allowed_by_ownership_or_acl s identity bucket permission) >>= decide_fallback)
        ≡ err access_denied
  unfolding allowed_by_ownership_or_acl lift_bucket decide_fallback allowed_by_acl
  anonymous_fallback anonymous manages = ground arith

module _ (numbers : Numbers) (guid_text : ℕ → Text) (policy_of : ℕ → Option PolicyDocument) where
  -- What the bucket's policy decides for a request.
  abbrev pub policy_decision :
      Option PolicyContext → RequestIdentity → BucketRow → Action → Option Text → Decision
  policy_decision request identity bucket action key =
      evaluate numbers (policy_of bucket.guid)
        (evaluation_request numbers guid_text policy_of request identity bucket action key)

  decision_iff :
      (d : Decision) (s : Store) (identity : RequestIdentity) (bucket : BucketRow) (action : Action)
      (row : BucketRow)
      → find (is_live_guid bucket.guid) s.bucket ≡ some row
      → ((authorize_decision numbers guid_text policy_of d s identity bucket action ≡ ok tt) ↔ (
          (d ≡ Decision.allow)
          ⊎ ((d ≡ Decision.not_applicable)
              × Entitled s identity bucket (action_permission action))))
        × ((authorize_decision numbers guid_text policy_of d s identity bucket action ≡ ok tt)
            ⊎ (authorize_decision numbers guid_text policy_of d s identity bucket action
                ≡ err access_denied))
  unfolding authorize_decision
  decision_iff Decision.deny s identity bucket action row live =
      ((λ h. cc, λ h. elim h [ inl e ↦ cc | inr (e, _) ↦ cc ]), inr refl)
  decision_iff Decision.allow s identity bucket action row live =
      ((λ h. inl refl, λ h. refl), inl refl)
  decision_iff Decision.not_applicable s identity bucket action row live =
      let iff : ((lift_bucket
                (allowed_by_ownership_or_acl s identity bucket (action_permission action))
              >>= decide_fallback)
            ≡ ok tt)
          ↔ Entitled s identity bucket (action_permission action) =
        fallback_iff s identity bucket (action_permission action) row live in
      (
        (λ h. inr (refl, iff.0 h), λ h. elim h [ inl e ↦ cc | inr (_, e) ↦ iff.1 e ]),
        fallback-cases s identity bucket (action_permission action) row live,
      )

  decision_anonymous :
      (d : Decision) (s : Store) (identity : RequestIdentity) (bucket : BucketRow) (action : Action)
      → identity.anonymous ≡ true
      → action_permission action ≡ BucketPermission.manage
      → d ≢ Decision.allow
      → authorize_decision numbers guid_text policy_of d s identity bucket action
        ≡ err access_denied
  unfolding authorize_decision
  decision_anonymous Decision.deny s identity bucket action anonymous manages ne = refl
  decision_anonymous Decision.allow s identity bucket action anonymous manages ne = absurd (ne refl)
  decision_anonymous Decision.not_applicable s identity bucket action anonymous manages ne =
      anonymous_fallback s identity bucket (action_permission action) anonymous manages

  module _ (s : Store) (request : Option PolicyContext) (identity : RequestIdentity)
      (bucket : BucketRow) (action : Action) (key : Option Text) where
    -- On a live bucket a request is let through exactly when the policy allows it, or the policy
    -- does not decide and the caller is entitled by ACL, ownership or grant; otherwise it fails
    -- with AccessDenied, and in no other way.
    pub authorize_iff :
        (row : BucketRow)
        → find (is_live_guid bucket.guid) s.bucket ≡ some row
        → ((authorize numbers guid_text policy_of s request identity bucket action key ≡ ok tt) ↔ (
            (policy_decision request identity bucket action key ≡ Decision.allow)
            ⊎ ((policy_decision request identity bucket action key ≡ Decision.not_applicable)
                × Entitled s identity bucket (action_permission action))))
          × ((authorize numbers guid_text policy_of s request identity bucket action key ≡ ok tt)
              ⊎ (authorize numbers guid_text policy_of s request identity bucket action key
                  ≡ err access_denied))
    unfolding authorize
    authorize_iff row live = decision_iff _ s identity bucket action row live

    -- A matching Deny statement ends the request, for the owner of the bucket as for anybody.
    pub authorize-denied :
        (document : PolicyDocument)
        → policy_of bucket.guid ≡ some document
        → Exists
            (Denies numbers
              (evaluation_request numbers guid_text policy_of request identity bucket action key))
            document.statement
        → authorize numbers guid_text policy_of s request identity bucket action key
          ≡ err access_denied
    unfolding authorize authorize_decision
    authorize-denied document stored denied =
        rw (stored, (evaluate-deny_iff numbers _ document).1 denied)

    -- An anonymous request never manages a bucket, unless the policy allows the action.
    pub authorize-anonymous :
        identity.anonymous ≡ true
        → action_permission action ≡ BucketPermission.manage
        → policy_decision request identity bucket action key ≢ Decision.allow
        → authorize numbers guid_text policy_of s request identity bucket action key
          ≡ err access_denied
    unfolding authorize
    authorize-anonymous anonymous manages ne =
        decision_anonymous _ s identity bucket action anonymous manages ne
