-- ===== src/Buckets/Grants.antt =====
-- What a grant gives, and what the management check answers.
use native.Mathlib.Decide.{ℕ_discrete}
use simple_storage_service.Prelude.{
  ℕ, ◌≡◌, ◌≢◌, refl, sym, ◌∙◌, ◌⊎◌, inl, inr, Bool, true, false, ◌&&◌, Option, none, some, List, [],
  ◌∷◌, arith,
}
use simple_storage_service.Prelude.Tests.{◌==◌, if◌then◌else◌, Bool-cases, Option-cases}
use simple_storage_service.Prelude.Lists.{any, find}
use simple_storage_service.Prelude.Query.{delete_where}
use simple_storage_service.Prelude.Text.{Text}
use simple_storage_service.Prelude.Result.{ok, err, ◌>>=◌}
use simple_storage_service.Database.{UserRole, BucketPermission, BucketRow, BucketAccessRow}
use simple_storage_service.Buckets.{
  Store, bucket_not_found, is_live_guid, is_live_name, is_grant_of, permission_eq, get_by_name,
  granted, has_permission, get_for_user, upsert_grant, set_grant, remove_grant,
}

abbrev permissions_of : Option BucketAccessRow → List BucketPermission
permissions_of none = []
permissions_of (some grant) = grant.permissions

abbrev holds : List BucketPermission → BucketPermission → Bool
holds permissions permission = any (λ p. permission_eq p permission) permissions

granted-eq :
    (grant : Option BucketAccessRow) (p : BucketPermission)
    → granted grant p ≡ holds (permissions_of grant) p
unfolding granted
granted-eq none p = refl
granted-eq (some grant) p = refl

find-upsert_grant :
    (grant : BucketAccessRow) (rows : List BucketAccessRow) (b u : ℕ)
    → permissions_of (find (is_grant_of b u) (upsert_grant grant rows)) ≡ (
        if is_grant_of b u grant
        then grant.permissions
        else permissions_of (find (is_grant_of b u) rows))
unfolding upsert_grant
find-upsert_grant grant [] b u = ground arith
find-upsert_grant grant (row ∷ rows) b u = ground (arith, find-upsert_grant grant rows b u)

find-remove_grant :
    (rows : List BucketAccessRow) (b u c v : ℕ)
    → find (is_grant_of c v) (delete_where (is_grant_of b u) rows)
      ≡ (if (b == c) && (u == v) then none else find (is_grant_of c v) rows)
find-remove_grant [] b u c v = ground arith
find-remove_grant (row ∷ rows) b u c v = ground (arith, find-remove_grant rows b u c v)

has_permission_lem :
    (s : Store) (bucket : BucketRow) (guid user_guid : ℕ) (permission : BucketPermission)
    → find (is_live_guid guid) s.bucket ≡ some bucket
    → bucket.owner_user_guid ≢ user_guid
    → has_permission s guid user_guid UserRole.user permission
      ≡ ok (holds (permissions_of (find (is_grant_of guid user_guid) s.bucket_access)) permission)
unfolding has_permission
has_permission_lem s bucket guid user_guid permission live ne =
    let other : (bucket.owner_user_guid == user_guid) ≡ false = ground arith in
    rw (live, has_permission, other, granted-eq)

has_permission_owner :
    (s : Store) (bucket : BucketRow) (guid : ℕ) (permission : BucketPermission)
    → find (is_live_guid guid) s.bucket ≡ some bucket
    → has_permission s guid bucket.owner_user_guid UserRole.user permission ≡ ok true
unfolding has_permission
has_permission_owner s bucket guid permission live =
    let same : (bucket.owner_user_guid == bucket.owner_user_guid) ≡ true = ground arith in
    rw (live, has_permission, same)

module _ (s : Store) (bucket : BucketRow) (guid user_guid : ℕ) where
  -- In a live bucket that somebody else owns, a user has exactly the permissions of the grant
  -- set last, whatever was granted before; once that grant is removed there is none; and what
  -- other users may do stays as it is.
  pub has_permission-set_grant :
      (permissions : List BucketPermission) (permission : BucketPermission)
      → find (is_live_guid guid) s.bucket ≡ some bucket
      → bucket.owner_user_guid ≢ user_guid
      → let grant : BucketAccessRow = record {
        bucket_guid = guid;
        user_guid = user_guid;
        permissions = permissions;
      } in
        (has_permission (set_grant s grant) guid user_guid UserRole.user permission
          ≡ ok (holds permissions permission))
        × (has_permission
              (remove_grant (set_grant s grant) guid user_guid)
              guid
              user_guid
              UserRole.user
              permission
            ≡ ok false)
        × ((other : ℕ)
            → other ≢ user_guid
            → has_permission (set_grant s grant) guid other UserRole.user permission
              ≡ has_permission s guid other UserRole.user permission)
  unfolding set_grant remove_grant
  has_permission-set_grant permissions permission live ne =
      let grant : BucketAccessRow = record {
        bucket_guid = guid;
        user_guid = user_guid;
        permissions = permissions;
      } in
      let rows : List BucketAccessRow = upsert_grant grant s.bucket_access in
      (
        has_permission_lem (set_grant s grant) bucket guid user_guid permission live ne
            ∙ ground (arith, find-upsert_grant grant s.bucket_access guid user_guid),
        has_permission_lem (remove_grant (set_grant s grant) guid user_guid) bucket guid user_guid
              permission live ne
            ∙ ground (arith, find-remove_grant rows guid user_guid guid user_guid),
        λ other differs. elim (ℕ_discrete bucket.owner_user_guid other) [
          | yes owns ↦ rw (← owns) (
              has_permission_owner (set_grant s grant) bucket guid permission live
              ∙ sym (has_permission_owner s bucket guid permission live))
          | no stranger ↦
              has_permission_lem (set_grant s grant) bucket guid other permission live stranger
              ∙ ground (arith, find-upsert_grant grant s.bucket_access guid other)
              ∙ sym (has_permission_lem s bucket guid other permission live stranger)
        ],
      )

-- For a live bucket the check always has an answer.
pub has_permission-live :
    (s : Store) (bucket : BucketRow) (guid user_guid : ℕ) (permission : BucketPermission)
    → find (is_live_guid guid) s.bucket ≡ some bucket
    → (allowed : Bool) × (has_permission s guid user_guid UserRole.user permission ≡ ok allowed)
has_permission-live s bucket guid user_guid permission live =
    elim (ℕ_discrete bucket.owner_user_guid user_guid) [
      | yes owns ↦ (true, rw (← owns) (has_permission_owner s bucket guid permission live))
      | no other ↦ (_, has_permission_lem s bucket guid user_guid permission live other)
    ]

has_permission-cases :
    (s : Store) (guid user_guid : ℕ) (permission : BucketPermission)
    → ((allowed : Bool) × (has_permission s guid user_guid UserRole.user permission ≡ ok allowed))
      ⊎ (has_permission s guid user_guid UserRole.user permission ≡ err bucket_not_found)
unfolding has_permission
has_permission-cases s guid user_guid permission =
    elim (Option-cases (find (is_live_guid guid) s.bucket)) [
      | inl missing ↦ inr (rw (missing, has_permission))
      | inr (bucket, live) ↦ elim (Bool-cases (bucket.owner_user_guid == user_guid)) [
        | inl same ↦ inl (true, rw (live, has_permission, same))
        | inr other ↦ inl (
          granted (find (is_grant_of guid user_guid) s.bucket_access) permission,
          rw (live, has_permission, other),
        )
      ]
    ]

-- A user who may not read a bucket gets the answer that a missing bucket gives; with the right
-- to read, the bucket itself. No other answer is possible, so names cannot be probed.
pub get_for_user-read :
    (s : Store) (name : Text) (user_guid : ℕ)
    → (get_for_user s name user_guid UserRole.user BucketPermission.read ≡ err bucket_not_found)
      ⊎ ((bucket : BucketRow) × (find (is_live_name name) s.bucket ≡ some bucket)
          × (has_permission s bucket.guid user_guid UserRole.user BucketPermission.read ≡ ok true)
          × (get_for_user s name user_guid UserRole.user BucketPermission.read ≡ ok bucket))
unfolding get_for_user get_by_name
get_for_user-read s name user_guid = elim (Option-cases (find (is_live_name name) s.bucket)) [
  | inl missing ↦ inl (rw (missing, get_by_name, ◌>>=◌))
  | inr (bucket, live) ↦ elim (has_permission-cases s bucket.guid user_guid BucketPermission.read) [
    | inr gone ↦ inl (rw (live, get_by_name, gone))
    | inl (true, may) ↦ inr (bucket, live, may, rw (live, get_by_name, may))
    | inl (false, may_not) ↦ inl (rw (live, get_by_name, may_not))
  ]
]
