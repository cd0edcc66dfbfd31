-- ===== src/Tests/Access.antt =====
-- Buckets and the decision on a request.
use simple_storage_service.Prelude.{
  ℕ, ◌≡◌, ◌≢◌, refl, ◌↔◌, ◌⊎◌, inl, true, false, Option, none, some, [], ◌∷◌,
}
use simple_storage_service.Prelude.Lists.{Exists}
use simple_storage_service.Prelude.Text.{Text, str, text_eq, split, contains, starts_with}
use simple_storage_service.Prelude.Result.{ok, err}
use simple_storage_service.Database.{BucketPermission, BucketRow}
use simple_storage_service.Policy.{PolicyDocument, Decision, to_array}
use simple_storage_service.Policy.Evaluate.{
  applies, evaluate, matches_principal, matches_action, matches_resource,
}
use simple_storage_service.Policy.Conditions.{matches_conditions}
use simple_storage_service.Policy.Evaluate.Precedence.{Denies}
use simple_storage_service.Buckets.{Store, is_name_taken, create, delete, new_bucket}
use simple_storage_service.Buckets.Names.{
  is_valid_name, matches_name_pattern, ends_alphanumeric, matches_ip_pattern,
}
use simple_storage_service.Authorization.{
  get_object, put_bucket_policy, action_permission, action_name, RequestIdentity, access_denied,
  evaluation_request, resource_arn, authorize,
}
use simple_storage_service.Authorization.Laws.{
  Entitled, policy_decision, authorize_iff, authorize-denied,
}
use simple_storage_service.Tests.Policies.{naturals, everything_denied}
use simple_storage_service.Wildcard.{policy_wildcard_match, regex_test}

abbrev photos : BucketRow
photos = new_bucket 4 100 (str "photos") 1 (str "eu")

abbrev store : Store
store = record {
  bucket = photos ∷ [];
  bucket_access =
      record { bucket_guid = 4; user_guid = 3; permissions = BucketPermission.read ∷ [] } ∷ [];
  object = [];
}

abbrev alice : RequestIdentity
alice = record { access_key_id = str "AKIA1"; user_guid = 1; anonymous = false }

abbrev nobody : RequestIdentity
nobody = record { access_key_id = []; user_guid = 0; anonymous = true }

abbrev spell : ℕ → Text
spell guid = guid ∷ []

abbrev deny_policy : ℕ → Option PolicyDocument
deny_policy guid = some everything_denied

abbrev no_policy : ℕ → Option PolicyDocument
no_policy guid = none

abbrev logs : BucketRow
logs = new_bucket 5 200 (str "logs") 2 (str "eu")

pub create-logs :
    create store 5 200 (str "logs") 2 (str "eu")
    ≡ ok (logs, record store { bucket = logs ∷ photos ∷ [] })
unfolding create is_valid_name matches_name_pattern ends_alphanumeric matches_ip_pattern split
    contains starts_with str text_eq is_name_taken
create-logs = refl

abbrev emptied : Store
emptied = record store { bucket = record photos { deleted_at = some 300 } ∷ [] }

pub delete_photos : delete store 300 4 ≡ ok emptied
unfolding delete
delete_photos = refl

pub photos_taken : is_name_taken store (str "photos") ≡ true
unfolding is_name_taken text_eq str
photos_taken = refl

pub photos_valid : is_valid_name (str "photos") ≡ true
unfolding is_valid_name matches_name_pattern ends_alphanumeric matches_ip_pattern split contains
    starts_with str
photos_valid = refl

authorize_iff_example :
    ((authorize naturals spell no_policy store none alice photos put_bucket_policy none ≡ ok tt) ↔ (
      (policy_decision naturals spell no_policy none alice photos put_bucket_policy none
        ≡ Decision.allow)
      ⊎ ((policy_decision naturals spell no_policy none alice photos put_bucket_policy none
            ≡ Decision.not_applicable)
          × Entitled store alice photos (action_permission put_bucket_policy))))
    × ((authorize naturals spell no_policy store none alice photos put_bucket_policy none ≡ ok tt)
        ⊎ (authorize naturals spell no_policy store none alice photos put_bucket_policy none
            ≡ err access_denied))
authorize_iff_example =
    authorize_iff naturals spell no_policy store none alice photos put_bucket_policy none photos
      refl

pub Denies-alice :
    Exists
      (Denies naturals (
        evaluation_request naturals spell deny_policy none alice photos get_object
          (some (str "k"))))
      everything_denied.statement
unfolding applies matches_principal matches_action matches_resource to_array policy_wildcard_match
    regex_test str evaluation_request action_name resource_arn matches_conditions
Denies-alice = inl (refl, refl)

authorize-denied_example :
    authorize naturals spell deny_policy store none alice photos get_object (some (str "k"))
    ≡ err access_denied
authorize-denied_example =
    authorize-denied naturals spell deny_policy store none alice photos get_object (some (str "k"))
      everything_denied refl Denies-alice

pub manages_policy : action_permission put_bucket_policy ≡ BucketPermission.manage
unfolding action_permission
manages_policy = refl

pub nothing_allows :
    policy_decision naturals spell no_policy none nobody photos put_bucket_policy none
    ≢ Decision.allow
unfolding evaluate
nothing_allows h = cc
