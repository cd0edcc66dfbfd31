-- ===== src/Objects/Versions.antt =====
-- `commitVersion`, `getVersion`, `delete`, `deleteVersion` and `purgeObject` of
-- libs/domains/src/objects/objects.service.ts, on the tables. Each returns the storage paths that
-- the caller deletes behind it.
pub mod References
pub mod Soundness
pub mod Visibility
use simple_storage_service.Prelude.{
  ℕ, ◌≡◌, refl, Bool, true, false, not, ◌&&◌, Option, none, some, List, [], ◌∷◌, ◌++◌,
}
use simple_storage_service.Prelude.Tests.{ltb, ◌==◌, if◌then◌else◌, is_some}
use simple_storage_service.Prelude.Lists.{filter, find}
use simple_storage_service.Prelude.Query.{update_where, delete_where, filter_map}
use simple_storage_service.Prelude.Text.{Text, text_eq}
use simple_storage_service.Prelude.Result.{Result, ok, err, ◌>>=◌}
use simple_storage_service.Database.{
  BucketVersioning, ServerSideEncryption, ObjectRow, ObjectHeaders, ObjectVersionRow,
}
use simple_storage_service.Objects.{
  ObjectsError, object_not_found, version_not_found, BucketContext, Catalog, VersionValues,
  VersionDraw, null_version_id, next_version_id,
}

-- `eq(object.bucketGuid, bucket) and eq(object.key, key)`.
abbrev pub is_key : ℕ → Text → ObjectRow → Bool
is_key bucket_guid key row = row.bucket_guid == bucket_guid && text_eq row.key key

abbrev pub has_object_guid : ℕ → ObjectRow → Bool
has_object_guid guid row = row.guid == guid

abbrev pub version_of : ℕ → ObjectVersionRow → Bool
version_of object_guid row = row.object_guid == object_guid

abbrev pub is_version : ℕ → Text → ObjectVersionRow → Bool
is_version object_guid version_id row =
    row.object_guid == object_guid && text_eq row.version_id version_id

abbrev pub has_version_guid : ℕ → ObjectVersionRow → Bool
has_version_guid guid row = row.guid == guid

-- The paths of rows that have one; a delete marker has none.
abbrev pub storage_paths : List ObjectVersionRow → List ℕ
storage_paths rows = filter_map (λ (row : ObjectVersionRow). row.storage_path) rows

unfoldable pub find_object : Catalog → ℕ → Text → Option ObjectRow
find_object c bucket_guid key = find (is_key bucket_guid key) c.object

-- `insert ... on conflict do update`: the row of the key, which is there already or is new.
unfoldable pub upsert_object : Catalog → ℕ → Text → ℕ → ObjectRow × List ObjectRow
upsert_object c bucket_guid key drawn_guid = elim (find (is_key bucket_guid key) c.object) [
  | some row ↦ (row, c.object)
  | none ↦
      (let row : ObjectRow = record {
        guid = drawn_guid;
        bucket_guid = bucket_guid;
        key = key;
        latest_version_guid = none;
      } in
        (row, row ∷ c.object))
]

-- The rows that a commit under this version id replaces.
abbrev pub replaced_by : ℕ → Text → ObjectVersionRow → Bool
replaced_by object_guid version_id row =
    text_eq version_id null_version_id && is_version object_guid null_version_id row

abbrev pub new_version : ℕ → VersionDraw → Text → VersionValues → ObjectVersionRow
new_version object_guid draw version_id values = record {
  guid = draw.version_guid;
  object_guid = object_guid;
  version_id = version_id;
  is_delete_marker = values.is_delete_marker;
  size = values.size;
  etag = values.etag;
  headers = values.headers;
  storage_path = values.storage_path;
  encryption = values.encryption;
  encryption_key = values.encryption_key;
  created_at = draw.now;
}

abbrev pub point_to : ℕ → ObjectRow → ObjectRow
point_to version_guid row = record row { latest_version_guid = some version_guid }

-- The body of `commitVersion`, for the object row at hand.
unfoldable pub commit_at :
    List ObjectRow
    → List ObjectVersionRow
    → ℕ
    → VersionDraw
    → Text
    → VersionValues
    → Catalog × List ℕ
commit_at objects versions object_guid draw version_id values = (
  record {
    object = update_where (has_object_guid object_guid) (point_to draw.version_guid) objects;
    version =
        new_version object_guid draw version_id values
        ∷ delete_where (replaced_by object_guid version_id) versions;
  },
  storage_paths (filter (replaced_by object_guid version_id) versions),
)

unfoldable pub commit_version :
    Catalog → BucketContext → Text → VersionDraw → Text → VersionValues → Catalog × List ℕ
commit_version c bucket key draw version_id values =
    let (row, objects) = upsert_object c bucket.guid key draw.object_guid in
    commit_at objects c.version row.guid draw version_id values

-- `order by createdAt desc limit 1`.
unfoldable pub newest : List ObjectVersionRow → Option ObjectVersionRow
newest [] = none
newest (row ∷ rows) = elim (newest rows) [
  | none ↦ some row
  | some other ↦ if ltb row.created_at other.created_at then some other else some row
]

-- The second half of `deleteVersion`: the key points to its newest version, or goes with its last.
unfoldable pub repoint : List ObjectRow → List ObjectVersionRow → ℕ → List ObjectRow
repoint objects versions object_guid = elim (newest (filter (version_of object_guid) versions)) [
  | some row ↦ update_where (has_object_guid object_guid) (point_to row.guid) objects
  | none ↦ delete_where (has_object_guid object_guid) objects
]

pub record DeleteResult : Type 0 where
  pub version_id : Option Text
  pub is_delete_marker : Bool

unfoldable pub delete_version :
    Catalog → ℕ → Text → Result ObjectsError (DeleteResult × Catalog × List ℕ)
delete_version c object_guid version_id =
    elim (find (is_version object_guid version_id) c.version) [
      | none ↦ err version_not_found
      | some row ↦
          (let versions = delete_where (has_version_guid row.guid) c.version in
            ok (
              record { version_id = some version_id; is_delete_marker = row.is_delete_marker },
              record { object = repoint c.object versions object_guid; version = versions },
              storage_paths (row ∷ []),
            ))
    ]

unfoldable pub purge_object : Catalog → ℕ → Catalog × List ℕ
purge_object c object_guid = (
  record {
    object = delete_where (has_object_guid object_guid) c.object;
    version = delete_where (version_of object_guid) c.version;
  },
  storage_paths (filter (version_of object_guid) c.version),
)

-- The version row of a delete marker.
abbrev pub marker : VersionValues
marker = record {
  is_delete_marker = true;
  size = 0;
  etag = [];
  headers = record {
    content_type = none;
    content_encoding = none;
    cache_control = none;
    content_disposition = none;
    metadata = none;
  };
  storage_path = none;
  encryption = ServerSideEncryption.none;
  encryption_key = none;
}

-- `delete` of a key that is there, without a version id.
unfoldable pub delete_latest :
    BucketVersioning
    → Catalog
    → BucketContext
    → ObjectRow
    → VersionDraw
    → DeleteResult × Catalog × List ℕ
delete_latest BucketVersioning.disabled c bucket found draw =
    let (c', paths) = purge_object c found.guid in
    (record { version_id = none; is_delete_marker = false }, c', paths)
delete_latest versioning c bucket found draw =
    let version_id = next_version_id versioning draw.version_id in
    let (c', paths) = commit_version c bucket found.key draw version_id marker in
    (record { version_id = some version_id; is_delete_marker = true }, c', paths)

-- An empty version id is none.
unfoldable pub asked_version : Option Text → Option Text
asked_version none = none
asked_version (some []) = none
asked_version (some (c ∷ cs)) = some (c ∷ cs)

unfoldable pub delete :
    Catalog
    → BucketContext
    → Text
    → Option Text
    → VersionDraw
    → Result ObjectsError (DeleteResult × Catalog × List ℕ)
delete c bucket key version_id draw = elim (find_object c bucket.guid key) [
  | none ↦ ok (record { version_id = none; is_delete_marker = false }, c, [])
  | some found ↦ elim (asked_version version_id) [
    | none ↦ ok (delete_latest bucket.versioning c bucket found draw)
    | some asked ↦ delete_version c found.guid asked
  ]
]

or_fail {ℓ} : {A : Type ℓ} → ObjectsError → Option A → Result ObjectsError A
or_fail e none = err e
or_fail e (some a) = ok a

-- The row of the newest version; no UUID is the empty text that stands in for a missing one.
unfoldable pub latest_version : Catalog → ObjectRow → Option ObjectVersionRow
latest_version c row = elim row.latest_version_guid [
  | none ↦ none
  | some guid ↦ find (has_version_guid guid) c.version
]

unfoldable pub get_version : Catalog → ℕ → Text → Option Text → Result ObjectsError ObjectVersionRow
unfolding or_fail
get_version c bucket_guid key version_id = do
  found ← or_fail object_not_found (find_object c bucket_guid key)
  elim (asked_version version_id) [
    | none ↦ or_fail object_not_found (latest_version c found)
    | some asked ↦ or_fail version_not_found (find (is_version found.guid asked) c.version)
  ]
