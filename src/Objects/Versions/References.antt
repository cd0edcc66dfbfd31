-- ===== src/Objects/Versions/References.antt =====
-- Which blobs the version rows refer to, before and after an operation.
use simple_storage_service.Prelude.{
  ℕ, ◌+◌, ◌≡◌, ◌≤◌, ap, sym, refl, Bool, true, false, not, Option, none, some, List, [], ◌∷◌, arith,
  inl, inr,
}
use simple_storage_service.Prelude.Tests.{◌==◌, Bool-cases, Option-cases}
use simple_storage_service.Prelude.Lists.{filter, find}
use simple_storage_service.Prelude.Query.{count, delete_where}
use simple_storage_service.Prelude.Text.{Text}
use simple_storage_service.Prelude.Result.{Result, ok, ok-injective}
use simple_storage_service.Database.{BucketVersioning, ObjectRow, ObjectVersionRow}
use simple_storage_service.Objects.{
  ObjectsError, BucketContext, Catalog, VersionValues, VersionDraw,
}
use simple_storage_service.Objects.Versions.{
  is_version, has_version_guid, storage_paths, find_object, upsert_object, replaced_by, commit_at,
  commit_version, DeleteResult, repoint, delete_version, purge_object, version_of, marker,
  delete_latest, asked_version, delete,
}

-- How often a path stands in a list of paths.
abbrev pub occurrences : ℕ → List ℕ → ℕ
occurrences path paths = count (λ p. p == path) paths

abbrev paths_of : Option ℕ → List ℕ
paths_of none = []
paths_of (some path) = path ∷ []

-- Rows taken away and rows kept share out the paths.
pub occurrences-filter :
    (p : ObjectVersionRow → Bool) (path : ℕ) (rows : List ObjectVersionRow)
    → occurrences path (storage_paths rows)
      ≡ occurrences path (storage_paths (filter (λ r. not (p r)) rows))
        + occurrences path (storage_paths (filter p rows))
occurrences-filter p path [] = omega arith
occurrences-filter p path (row ∷ rows) = ground (arith, occurrences-filter p path rows)

-- A commit neither loses a blob nor hands out one that is still referred to: for every path, the
-- references before it and that of the new version are the references after it and the paths
-- returned for deletion.
pub commit_version-occurrences :
    (c : Catalog) (bucket : BucketContext) (key : Text) (draw : VersionDraw) (version_id : Text)
    (values : VersionValues) (path : ℕ)
    → let (c', orphaned) = commit_version c bucket key draw version_id values in
      occurrences path (storage_paths c.version) + occurrences path (paths_of values.storage_path)
      ≡ occurrences path (storage_paths c'.version) + occurrences path orphaned
unfolding commit_version commit_at
commit_version-occurrences c bucket key draw version_id values path =
    let shared =
      occurrences-filter
        (replaced_by (upsert_object c bucket.guid key draw.object_guid).0.guid version_id) path
        c.version in
    elim (Option-cases values.storage_path) [
      | inl no_path ↦ ground arith
      | inr (new_path, has_path) ↦ ground arith
    ]

pub purge_object-occurrences :
    (c : Catalog) (object_guid : ℕ) (path : ℕ)
    → let (c', removed) = purge_object c object_guid in
      occurrences path (storage_paths c.version)
      ≡ occurrences path (storage_paths c'.version) + occurrences path removed
unfolding purge_object
purge_object-occurrences c object_guid path =
    occurrences-filter (version_of object_guid) path c.version

-- The guid of a version row is its primary key.
abbrev pub IsKeyed : List ObjectVersionRow → Type 0
IsKeyed rows = (guid : ℕ) → count (has_version_guid guid) rows ≤ 1

filter_none :
    (p : ObjectVersionRow → Bool) (rows : List ObjectVersionRow)
    → count p rows ≡ 0
    → filter p rows ≡ []
filter_none p [] h = refl
filter_none p (row ∷ rows) h = elim (Bool-cases (p row)) [
  | inl yes_row ↦ absurd (ground arith)
  | inr no_row ↦ rw no_row (filter_none p rows (ground arith))
]

count_found :
    (p q : ObjectVersionRow → Bool) (rows : List ObjectVersionRow) {row : ObjectVersionRow}
    → find p rows ≡ some row
    → q row ≡ true
    → 1 ≤ count q rows
count_found p q [] found holds = cc
count_found p q (first ∷ rows) {row} found holds = elim (Bool-cases (p first)) [
  | inl here ↦
      let same : first ≡ row = ground arith in
      let held : q first ≡ true = rw same holds in ground arith
  | inr later ↦ let rest = count_found p q rows {row = row} (ground arith) holds in ground arith
]

pub filter_found :
    (p q : ObjectVersionRow → Bool) (rows : List ObjectVersionRow) {row : ObjectVersionRow}
    → find p rows ≡ some row
    → q row ≡ true
    → count q rows ≤ 1
    → filter q rows ≡ row ∷ []
filter_found p q [] found holds once = cc
filter_found p q (first ∷ rows) {row} found holds once = elim (Bool-cases (p first)) [
  | inl here ↦
      let same : first ≡ row = ground arith in
      let held : q first ≡ true = rw same holds in
      let none_left : count q rows ≡ 0 = ground arith in
      rw (held, same) (ap (λ (t : List ObjectVersionRow). row ∷ t) (filter_none q rows none_left))
  | inr later ↦
      let found_later : find p rows ≡ some row = ground arith in
      let one_left : 1 ≤ count q rows = count_found p q rows found_later holds in
      let not_first : q first ≡ false = ground arith in
      rw not_first (filter_found p q rows found_later holds (ground arith))
]

-- A deletion that succeeds, on the row it found.
pub delete_version-parts :
    (c : Catalog) (object_guid : ℕ) (version_id : Text) {result : DeleteResult} {c' : Catalog}
    {removed : List ℕ}
    → delete_version c object_guid version_id ≡ ok (result, c', removed)
    → (row : ObjectVersionRow) × (find (is_version object_guid version_id) c.version ≡ some row)
      × (c' ≡ (record {
        object = repoint c.object (delete_where (has_version_guid row.guid) c.version) object_guid;
        version = delete_where (has_version_guid row.guid) c.version;
      }))
      × (removed ≡ storage_paths (row ∷ []))
unfolding delete_version
delete_version-parts c object_guid version_id {result} {c'} {removed} h =
    elim (Option-cases (find (is_version object_guid version_id) c.version)) [
      | inl missing ↦ absurd (ground arith)
      | inr (row, found) ↦
          let done = rw (found, delete_version) at h in
          (
            row,
            found,
            sym (ap (λ (t : DeleteResult × Catalog × List ℕ). t.1) (ok-injective done)),
            sym (ap (λ (t : DeleteResult × Catalog × List ℕ). t.2) (ok-injective done)),
          )
    ]

pub delete_version-occurrences :
    (c : Catalog) (object_guid : ℕ) (version_id : Text) {result : DeleteResult} {c' : Catalog}
    {removed : List ℕ}
    → IsKeyed c.version
    → delete_version c object_guid version_id ≡ ok (result, c', removed)
    → (path : ℕ)
    → occurrences path (storage_paths c.version)
      ≡ occurrences path (storage_paths c'.version) + occurrences path removed
delete_version-occurrences c object_guid version_id keyed h path =
    let (row, found, after, paths) = delete_version-parts c object_guid version_id h in
    let itself : has_version_guid row.guid row ≡ true = ground arith in
    let only : filter (has_version_guid row.guid) c.version ≡ row ∷ [] =
      filter_found (is_version object_guid version_id) (has_version_guid row.guid) c.version found
        itself (keyed row.guid) in
    rw (after, paths, ← only) (occurrences-filter (has_version_guid row.guid) path c.version)

commit_marker-occurrences :
    (c : Catalog) (bucket : BucketContext) (key : Text) (draw : VersionDraw) (version_id : Text)
    (path : ℕ)
    → let (c', paths) = commit_version c bucket key draw version_id marker in
      occurrences path (storage_paths c.version)
      ≡ occurrences path (storage_paths c'.version) + occurrences path paths
commit_marker-occurrences c bucket key draw version_id path =
    omega (arith, commit_version-occurrences c bucket key draw version_id marker path)

delete_latest-occurrences :
    (versioning : BucketVersioning) (c : Catalog) (bucket : BucketContext) (found : ObjectRow)
    (draw : VersionDraw) (path : ℕ)
    → let (result, c', paths) = delete_latest versioning c bucket found draw in
      occurrences path (storage_paths c.version)
      ≡ occurrences path (storage_paths c'.version) + occurrences path paths
unfolding delete_latest
delete_latest-occurrences BucketVersioning.disabled c bucket found draw path =
    purge_object-occurrences c found.guid path
delete_latest-occurrences BucketVersioning.enabled c bucket found draw path =
    commit_marker-occurrences c bucket found.key draw _ path
delete_latest-occurrences BucketVersioning.suspended c bucket found draw path =
    commit_marker-occurrences c bucket found.key draw _ path

delete_latest-ok :
    (versioning : BucketVersioning) (c : Catalog) (bucket : BucketContext) (found : ObjectRow)
    (draw : VersionDraw) {result : DeleteResult} {c' : Catalog} {paths : List ℕ} (path : ℕ)
    → ◌≡◌ {A = Result ObjectsError (DeleteResult × Catalog × List ℕ)}
        (ok (delete_latest versioning c bucket found draw))
        (ok (result, c', paths))
    → occurrences path (storage_paths c.version)
      ≡ occurrences path (storage_paths c'.version) + occurrences path paths
delete_latest-ok versioning c bucket found draw path h =
    let e = sym (ok-injective h) in
    let after = ap (λ (t : DeleteResult × Catalog × List ℕ). t.1) e in
    let gone = ap (λ (t : DeleteResult × Catalog × List ℕ). t.2) e in
    rw (after, gone) (delete_latest-occurrences versioning c bucket found draw path)

-- Whatever a deletion does - purge the key, hide it behind a marker, remove one version - the paths
-- it returns for deletion are exactly those of the version rows it took away, each as often as it
-- was referred to; the guids of the version rows being their primary key.
pub delete-occurrences :
    (c : Catalog) (bucket : BucketContext) (key : Text) (version_id : Option Text)
    (draw : VersionDraw) {result : DeleteResult} {c' : Catalog} {paths : List ℕ}
    → IsKeyed c.version
    → delete c bucket key version_id draw ≡ ok (result, c', paths)
    → (path : ℕ)
    → occurrences path (storage_paths c.version)
      ≡ occurrences path (storage_paths c'.version) + occurrences path paths
unfolding delete
delete-occurrences c bucket key version_id draw {result} {c'} {paths} keyed h path =
    elim (Option-cases (find_object c bucket.guid key)) [
      | inl missing ↦
          let e = ok-injective (rw (missing, delete) at h) in
          let after = sym (ap (λ (t : DeleteResult × Catalog × List ℕ). t.1) e) in
          let gone = sym (ap (λ (t : DeleteResult × Catalog × List ℕ). t.2) e) in
          rw (after, gone) (omega arith)
      | inr (found, there) ↦ elim (Option-cases (asked_version version_id)) [
        | inl unasked ↦
            delete_latest-ok bucket.versioning c bucket found draw {result = result} {c' = c'}
              {paths = paths} path (rw unasked at (rw (there, delete) at h))
        | inr (asked, one) ↦
            delete_version-occurrences c found.guid asked {result = result} {c' = c'}
              {removed = paths} keyed (rw one at (rw (there, delete) at h)) path
      ]
    ]
