-- ===== src/Objects/Versions/Visibility.antt =====
-- What `getVersion` answers behind `commitVersion`.
use simple_storage_service.Prelude.{
  ℕ, ◌≡◌, ap, sym, ◌∙◌, refl, Bool, true, false, not, Option, none, some, List, arith, inl, inr,
}
use simple_storage_service.Prelude.Tests.{◌==◌, if◌then◌else◌, Bool-cases, Option-cases}
use simple_storage_service.Prelude.Lists.{find}
use simple_storage_service.Prelude.Rows.{find-filter, find-update_where}
use simple_storage_service.Prelude.Text.{Text, text_eq, text_eq_iff, text_eq_refl}
use simple_storage_service.Prelude.Result.{Result, ok}
use simple_storage_service.Database.{ObjectRow, ObjectVersionRow}
use simple_storage_service.Objects.{
  ObjectsError, version_not_found, BucketContext, Catalog, VersionValues, VersionDraw,
  null_version_id,
}
use simple_storage_service.Objects.Versions.{
  is_key, is_version, has_object_guid, find_object, upsert_object, replaced_by, new_version,
  point_to, commit_at, commit_version, asked_version, latest_version, get_version, or_fail,
}

find_object-commit :
    (c : Catalog) (bucket_guid : ℕ) (key : Text) (row : ObjectRow) (draw : VersionDraw)
    (version_id : Text) (values : VersionValues)
    → find_object c bucket_guid key ≡ some row
    → find_object (commit_at c.object c.version row.guid draw version_id values).0 bucket_guid key
      ≡ some (point_to draw.version_guid row)
unfolding find_object commit_at
find_object-commit c bucket_guid key row draw version_id values there =
    let itself : has_object_guid row.guid row ≡ true = ground arith in
    find-update_where (is_key bucket_guid key) (has_object_guid row.guid)
      (point_to draw.version_guid) c.object (λ x. refl)
    ∙ rw there (rw itself refl)

commit_version-there :
    (c : Catalog) (bucket : BucketContext) (key : Text) (draw : VersionDraw) (version_id : Text)
    (values : VersionValues) (row : ObjectRow)
    → find_object c bucket.guid key ≡ some row
    → commit_version c bucket key draw version_id values
      ≡ commit_at c.object c.version row.guid draw version_id values
unfolding commit_version upsert_object find_object
commit_version-there c bucket key draw version_id values row there = rw (there, upsert_object)

get_version-latest :
    (c : Catalog) (bucket_guid : ℕ) (key : Text) (row : ObjectRow) (version : ObjectVersionRow)
    → find_object c bucket_guid key ≡ some row
    → latest_version c row ≡ some version
    → get_version c bucket_guid key none ≡ ok version
unfolding get_version or_fail asked_version
get_version-latest c bucket_guid key row version there latest = rw there (rw latest refl)

get_version-asked :
    (c : Catalog) (bucket_guid : ℕ) (key asked : Text) (row : ObjectRow)
    → find_object c bucket_guid key ≡ some row
    → asked_version (some asked) ≡ some asked
    → get_version c bucket_guid key (some asked)
      ≡ or_fail version_not_found (find (is_version row.guid asked) c.version)
unfolding get_version
get_version-asked c bucket_guid key asked row there full = rw (there, or_fail) (rw full refl)

latest_version-commit :
    (objects : List ObjectRow) (versions : List ObjectVersionRow) (row : ObjectRow)
    (draw : VersionDraw) (version_id : Text) (values : VersionValues)
    → latest_version
        (commit_at objects versions row.guid draw version_id values).0
        (point_to draw.version_guid row)
      ≡ some (new_version row.guid draw version_id values)
unfolding latest_version commit_at
latest_version-commit objects versions row draw version_id values =
    let itself : (draw.version_guid == draw.version_guid) ≡ true = ground arith in rw itself refl

asked-kept :
    (guid : ℕ) (version_id asked : Text) (x : ObjectVersionRow)
    → is_version guid asked x ≡ true
    → text_eq version_id asked ≡ false
    → not (replaced_by guid version_id x) ≡ true
asked-kept guid version_id asked x hit other = ground (
  arith,
  text_eq_iff version_id asked,
  text_eq_iff version_id null_version_id,
  text_eq_iff x.version_id asked,
  text_eq_iff x.version_id null_version_id,
)

find-commit :
    (objects : List ObjectRow) (versions : List ObjectVersionRow) (guid : ℕ) (draw : VersionDraw)
    (version_id : Text) (values : VersionValues) (asked : Text)
    → find
        (is_version guid asked)
        (commit_at objects versions guid draw version_id values).0.version
      ≡ (if text_eq version_id asked
          then some (new_version guid draw version_id values)
          else find (is_version guid asked) versions)
unfolding commit_at
find-commit objects versions guid draw version_id values asked =
    let itself : (guid == guid) ≡ true = ground arith in
    elim (Bool-cases (text_eq version_id asked)) [
      | inl same ↦ rw itself (rw same refl)
      | inr other ↦ rw itself (
          rw other (
            find-filter (is_version guid asked) (λ r. not (replaced_by guid version_id r)) versions
              (λ x hit. asked-kept guid version_id asked x hit other)))
    ]

by_test :
    (test : Bool) (v : ObjectVersionRow) (o : Option ObjectVersionRow)
    → or_fail version_not_found (if test then some v else o)
      ≡ (if test then ok v else or_fail version_not_found o)
unfolding or_fail
by_test true v o = refl
by_test false v o = refl

-- Behind a commit, a read of the key without a version id finds the new version, and a read by its
-- id does too; a read by any other id finds what it found before the commit, for a key that was
-- there. So an older version stays readable, but for the `null` one that a new `null` one replaces.
pub get_version-commit :
    (c : Catalog) (bucket : BucketContext) (key : Text) (draw : VersionDraw) (version_id : Text)
    (values : VersionValues) (row : ObjectRow)
    → find_object c bucket.guid key ≡ some row
    → let c' = (commit_version c bucket key draw version_id values).0 in
      (get_version c' bucket.guid key none ≡ ok (new_version row.guid draw version_id values))
      × ((asked : Text)
          → asked_version (some asked) ≡ some asked
          → get_version c' bucket.guid key (some asked) ≡ (
              if text_eq version_id asked
              then ok (new_version row.guid draw version_id values)
              else get_version c bucket.guid key (some asked)))
unfolding or_fail
get_version-commit c bucket key draw version_id values row there =
    let after = (commit_at c.object c.version row.guid draw version_id values).0 in
    let moved = find_object-commit c bucket.guid key row draw version_id values there in
    rw (commit_version-there c bucket key draw version_id values row there) (
      get_version-latest after bucket.guid key (point_to draw.version_guid row) _ moved
          (latest_version-commit c.object c.version row draw version_id values),
      λ asked full.
          get_version-asked after bucket.guid key asked (point_to draw.version_guid row) moved full
          ∙ ap (or_fail version_not_found)
              (find-commit c.object c.version row.guid draw version_id values asked)
          ∙ by_test (text_eq version_id asked) (new_version row.guid draw version_id values) _
          ∙ ap
              (λ (r : Result ObjectsError ObjectVersionRow).
                if text_eq version_id asked
                then ok (new_version row.guid draw version_id values)
                else r)
              (sym (get_version-asked c bucket.guid key asked row there full)),
    )

find_object-upsert :
    (c : Catalog) (bucket_guid : ℕ) (key : Text) (drawn : ℕ)
    → find (is_key bucket_guid key) (upsert_object c bucket_guid key drawn).1
      ≡ some (upsert_object c bucket_guid key drawn).0
unfolding upsert_object
find_object-upsert c bucket_guid key drawn =
    elim (Option-cases (find (is_key bucket_guid key) c.object)) [
      | inr (row, there) ↦ rw (there, upsert_object) there
      | inl missing ↦ rw (missing, upsert_object) (let e = text_eq_refl key in ground arith)
    ]

-- Behind a commit, a read of the key without a version id finds the new version, whether the key
-- was there or not.
pub get_version-commit_new :
    (c : Catalog) (bucket : BucketContext) (key : Text) (draw : VersionDraw) (version_id : Text)
    (values : VersionValues)
    → get_version (commit_version c bucket key draw version_id values).0 bucket.guid key none
      ≡ ok (
          new_version
            (upsert_object c bucket.guid key draw.object_guid).0.guid
            draw
            version_id
            values)
unfolding commit_version
get_version-commit_new c bucket key draw version_id values =
    let row = (upsert_object c bucket.guid key draw.object_guid).0 in
    let objects = (upsert_object c bucket.guid key draw.object_guid).1 in
    let mid : Catalog = record { object = objects; version = c.version } in
    get_version-latest (commit_at objects c.version row.guid draw version_id values).0 bucket.guid
      key (point_to draw.version_guid row) _
      (find_object-commit mid bucket.guid key row draw version_id values
        (unfold find_object in find_object-upsert c bucket.guid key draw.object_guid))
      (latest_version-commit objects c.version row draw version_id values)
