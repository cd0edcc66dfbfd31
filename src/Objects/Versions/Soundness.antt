-- ===== src/Objects/Versions/Soundness.antt =====
-- The invariant of the tables of objects and versions.
use simple_storage_service.Prelude.{
  ℕ, ◌≡◌, ap, sym, refl, Bool, true, not, Option, some, List, [], ◌∷◌, arith, ◌⊎◌, inl, inr,
}
use native.Mathlib.Decide.{ℕ_discrete}
use simple_storage_service.Prelude.Tests.{Bool-cases, Option-cases, ltb}
use simple_storage_service.Prelude.Lists.{filter, find, Exists, All, find-holds}
use simple_storage_service.Prelude.Query.{count, delete_where}
use simple_storage_service.Prelude.Rows.{
  All-map, All-filter, All-update_where, Exists-filter, Exists-of_filter, Exists-member, Exists-map,
  count-filter-le,
}
use simple_storage_service.Prelude.Text.{Text}
use simple_storage_service.Prelude.Result.{ok, ok-injective}
use simple_storage_service.Database.{BucketVersioning, ObjectRow, ObjectVersionRow}
use simple_storage_service.Objects.{BucketContext, Catalog, VersionValues, VersionDraw}
use simple_storage_service.Objects.Versions.{
  is_key, is_version, has_object_guid, has_version_guid, find_object, upsert_object, replaced_by,
  point_to, commit_at, commit_version, newest, repoint, DeleteResult, delete_version, purge_object,
  version_of, marker, delete_latest, asked_version, delete,
}
use simple_storage_service.Objects.Versions.References.{IsKeyed, filter_found, delete_version-parts}

-- The version that a key points to is there, and is one of its own.
abbrev pub PointsTo : ObjectRow → ObjectVersionRow → Type 0
PointsTo object version =
    (object.latest_version_guid ≡ some version.guid) × (version.object_guid ≡ object.guid)

abbrev pub HasLatest : List ObjectVersionRow → ObjectRow → Type 0
HasLatest versions object = Exists (PointsTo object) versions

pub record IsSound (c : Catalog) : Type 0 where
  pub keyed : IsKeyed c.version
  pub latest : All (HasLatest c.version) c.object

-- A version guid that no row has yet.
abbrev pub IsFresh : Catalog → ℕ → Type 0
IsFresh c guid = count (has_version_guid guid) c.version ≡ 0

same_guid : (guid : ℕ) (row : ObjectRow) → has_object_guid guid row ≡ true → row.guid ≡ guid
same_guid guid row h = ground arith

IsKeyed-commit :
    (objects : List ObjectRow) (versions : List ObjectVersionRow) (object_guid : ℕ)
    (draw : VersionDraw) (version_id : Text) (values : VersionValues)
    → IsKeyed versions
    → count (has_version_guid draw.version_guid) versions ≡ 0
    → IsKeyed (commit_at objects versions object_guid draw version_id values).0.version
unfolding commit_at
IsKeyed-commit objects versions object_guid draw version_id values keyed fresh guid =
    let kept =
      count-filter-le (has_version_guid guid) (λ r. not (replaced_by object_guid version_id r))
        versions in
    let before = keyed guid in
    elim (ℕ_discrete draw.version_guid guid) [
      | yes same ↦
          let unused : count (has_version_guid guid) versions ≡ 0 = rw (← same) fresh in
          ground arith
      | no other ↦ ground arith
    ]

latest-commit :
    (objects : List ObjectRow) (versions : List ObjectVersionRow) (object_guid : ℕ)
    (draw : VersionDraw) (version_id : Text) (values : VersionValues)
    → All (λ o. (has_object_guid object_guid o ≡ true) ⊎ HasLatest versions o) objects
    → let c' = (commit_at objects versions object_guid draw version_id values).0 in
      All (HasLatest c'.version) c'.object
unfolding commit_at
latest-commit objects versions object_guid draw version_id values h =
    All-update_where (has_object_guid object_guid) (point_to draw.version_guid) objects
      (λ o either mine. inl (refl, sym (same_guid object_guid o mine)))
      (λ o either other. elim either [
        | inl mine ↦ absurd (ground arith)
        | inr has ↦ inr (
            Exists-filter (λ r. not (replaced_by object_guid version_id r)) versions
              (λ v points. let owner = points.1 in ground arith) (λ v points. points) has)
      ])
      h

upsert_object-pending :
    (c : Catalog) (bucket_guid : ℕ) (key : Text) (drawn : ℕ)
    → All (HasLatest c.version) c.object
    → let (row, objects) = upsert_object c bucket_guid key drawn in
      All (λ o. (has_object_guid row.guid o ≡ true) ⊎ HasLatest c.version o) objects
unfolding upsert_object
upsert_object-pending c bucket_guid key drawn latest =
    elim (Option-cases (find (is_key bucket_guid key) c.object)) [
      | inr (row, there) ↦ rw (there, upsert_object) (All-map c.object (λ o has. inr has) latest)
      | inl missing ↦
          rw (missing, upsert_object)
            (inl (ground arith), All-map c.object (λ o has. inr has) latest)
    ]

-- A commit of a version with a fresh guid keeps the tables sound.
pub commit_version-IsSound :
    (c : Catalog) (bucket : BucketContext) (key : Text) (draw : VersionDraw) (version_id : Text)
    (values : VersionValues)
    → IsSound c
    → IsFresh c draw.version_guid
    → IsSound (commit_version c bucket key draw version_id values).0
unfolding commit_version
commit_version-IsSound c bucket key draw version_id values sound fresh =
    let row = (upsert_object c bucket.guid key draw.object_guid).0 in
    let objects = (upsert_object c bucket.guid key draw.object_guid).1 in
    record {
      keyed = IsKeyed-commit objects c.version row.guid draw version_id values sound.keyed fresh;
      latest =
          latest-commit objects c.version row.guid draw version_id values
            (upsert_object-pending c bucket.guid key draw.object_guid sound.latest);
    }

IsKeyed-delete :
    (p : ObjectVersionRow → Bool) (versions : List ObjectVersionRow)
    → IsKeyed versions
    → IsKeyed (delete_where p versions)
IsKeyed-delete p versions keyed guid =
    let kept = count-filter-le (has_version_guid guid) (λ r. not (p r)) versions in
    let before = keyed guid in omega arith

-- Purging a key takes all of its versions along and keeps the tables sound.
pub purge_object-IsSound :
    (c : Catalog) (object_guid : ℕ) → IsSound c → IsSound (purge_object c object_guid).0
unfolding purge_object
purge_object-IsSound c object_guid sound = record {
  keyed = IsKeyed-delete (version_of object_guid) c.version sound.keyed;
  latest =
      All-filter (λ o. not (has_object_guid object_guid o)) c.object
        (λ o has kept.
          Exists-filter (λ r. not (version_of object_guid r)) c.version
            (λ v points. let owner = points.1 in ground arith) (λ v points. points) has)
        sound.latest;
}

newest-Exists :
    (rows : List ObjectVersionRow) {row : ObjectVersionRow}
    → newest rows ≡ some row
    → Exists (λ v. v ≡ row) rows
unfolding newest
newest-Exists [] h = cc
newest-Exists (first ∷ rows) {row} h = elim (Option-cases (newest rows)) [
  | inl e ↦ inl (ground arith)
  | inr (other, e) ↦ elim (Bool-cases (ltb first.created_at other.created_at)) [
    | inl later ↦ let same : other ≡ row = ground arith in inr (newest-Exists rows (rw same at e))
    | inr older ↦ inl (ground arith)
  ]
]

-- Two rows with one guid are one row.
one_row :
    (versions : List ObjectVersionRow) (p : ObjectVersionRow → Bool) {row : ObjectVersionRow}
    → IsKeyed versions
    → find p versions ≡ some row
    → (v : ObjectVersionRow) → Exists (λ w. w ≡ v) versions
    → v.guid ≡ row.guid
    → v ≡ row
one_row versions p {row} keyed found v among same =
    let itself : has_version_guid row.guid row ≡ true = ground arith in
    let only = filter_found p (has_version_guid row.guid) versions found itself (keyed row.guid) in
    let kept =
      Exists-filter (has_version_guid row.guid) versions (λ w e. rw e (ground arith)) (λ w e. e)
        among in
    let one : (row ≡ v) ⊎ ⊥ = rw only at kept in
    elim one [ inl same_row ↦ sym same_row | inr never ↦ absurd never ]

repoint-latest :
    (objects : List ObjectRow) (versions : List ObjectVersionRow) (object_guid : ℕ)
    → All (λ o. (has_object_guid object_guid o ≡ true) ⊎ HasLatest versions o) objects
    → All (HasLatest versions) (repoint objects versions object_guid)
unfolding repoint
repoint-latest objects versions object_guid h =
    elim (Option-cases (newest (filter (version_of object_guid) versions))) [
      | inl no_more ↦
          rw (no_more, repoint)
            (All-filter (λ o. not (has_object_guid object_guid o)) objects
              (λ o either kept. elim either [ inl mine ↦ absurd (ground arith) | inr has ↦ has ]) h)
      | inr (row, top) ↦
          let among = newest-Exists (filter (version_of object_guid) versions) top in
          rw (top, repoint)
            (All-update_where (has_object_guid object_guid) (point_to row.guid) objects
              (λ o either mine.
                Exists-map versions
                  (λ v (same, owner).
                    (ap (λ (r : ObjectVersionRow). some r.guid) (sym same), ground arith))
                  (Exists-of_filter (λ v. v ≡ row) (version_of object_guid) versions among))
              (λ o either other. elim either [ inl mine ↦ absurd (ground arith) | inr has ↦ has ])
              h)
    ]

-- Removing one version keeps the tables sound.
delete_version-IsSound :
    (c : Catalog) (object_guid : ℕ) (version_id : Text) {result : DeleteResult} {c' : Catalog}
    {removed : List ℕ}
    → IsSound c
    → delete_version c object_guid version_id ≡ ok (result, c', removed)
    → IsSound c'
delete_version-IsSound c object_guid version_id sound h =
    let (row, found, after, paths) = delete_version-parts c object_guid version_id h in
    let owner : row.object_guid ≡ object_guid =
      (let holds = find-holds (is_version object_guid version_id) c.version found in
        ground arith) in
    rw after (record {
      keyed = IsKeyed-delete (has_version_guid row.guid) c.version sound.keyed;
      latest =
          repoint-latest c.object (delete_where (has_version_guid row.guid) c.version) object_guid (
            All-map c.object
              (λ o has. elim (Bool-cases (has_object_guid object_guid o)) [
                | inl mine ↦ inl mine
                | inr other ↦ inr (
                    Exists-filter (λ r. not (has_version_guid row.guid r)) c.version
                      (λ v (points, among). elim (Bool-cases (has_version_guid row.guid v)) [
                        | inl same ↦
                            let equal : v ≡ row =
                              one_row c.version (is_version object_guid version_id) sound.keyed
                                found v among (ground arith) in
                            let owned : v.object_guid ≡ object_guid = rw equal owner in
                            let its = points.1 in absurd (ground arith)
                        | inr differs ↦ rw differs
                      ])
                      (λ v (points, among). points) (Exists-member (PointsTo o) c.version has))
              ])
              sound.latest);
    })

delete_latest-IsSound :
    (versioning : BucketVersioning) (c : Catalog) (bucket : BucketContext) (found : ObjectRow)
    (draw : VersionDraw)
    → IsSound c
    → IsFresh c draw.version_guid
    → IsSound (delete_latest versioning c bucket found draw).1
unfolding delete_latest
delete_latest-IsSound BucketVersioning.disabled c bucket found draw sound fresh =
    purge_object-IsSound c found.guid sound
delete_latest-IsSound BucketVersioning.enabled c bucket found draw sound fresh =
    commit_version-IsSound c bucket found.key draw _ marker sound fresh
delete_latest-IsSound BucketVersioning.suspended c bucket found draw sound fresh =
    commit_version-IsSound c bucket found.key draw _ marker sound fresh

-- Every deletion keeps the tables sound: afterwards no two version rows share a guid, and each key
-- that is left points to a version that is there and is one of its own. The guid drawn for a
-- marker is fresh.
pub delete-IsSound :
    (c : Catalog) (bucket : BucketContext) (key : Text) (version_id : Option Text)
    (draw : VersionDraw) {result : DeleteResult} {c' : Catalog} {paths : List ℕ}
    → IsSound c
    → IsFresh c draw.version_guid
    → delete c bucket key version_id draw ≡ ok (result, c', paths)
    → IsSound c'
unfolding delete
delete-IsSound c bucket key version_id draw {result} {c'} {paths} sound fresh h =
    elim (Option-cases (find_object c bucket.guid key)) [
      | inl missing ↦
          let e = ok-injective (rw (missing, delete) at h) in
          rw (← ap (λ (t : DeleteResult × Catalog × List ℕ). t.1) e) sound
      | inr (found, there) ↦ elim (Option-cases (asked_version version_id)) [
        | inl unasked ↦
            let e = ok-injective (rw unasked at (rw (there, delete) at h)) in
            rw (← ap (λ (t : DeleteResult × Catalog × List ℕ). t.1) e)
              (delete_latest-IsSound bucket.versioning c bucket found draw sound fresh)
        | inr (asked, one) ↦
            delete_version-IsSound c found.guid asked {result = result} {c' = c'} {removed = paths}
              sound (rw one at (rw (there, delete) at h))
      ]
    ]
