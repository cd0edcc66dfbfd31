-- ===== src/Tests/Objects.antt =====
-- Keys, versions, puts and multipart uploads.
use simple_storage_service.Prelude.{
  ℕ, ◌+◌, ◌≡◌, refl, ◌↔◌, inl, false, Option, none, some, List, [], ◌∷◌, arith,
}
use simple_storage_service.Prelude.Tests.{if◌then◌else◌}
use simple_storage_service.Prelude.Lists.{length, flatten}
use simple_storage_service.Prelude.Query.{sum_of}
use simple_storage_service.Prelude.Text.{Text, str, text_eq}
use simple_storage_service.Prelude.Table.{lookup}
use simple_storage_service.Prelude.Result.{ok, err}
use simple_storage_service.Database.{
  UserRole, UserStatus, BucketVersioning, ServerSideEncryption, UserRow, ObjectHeaders,
  ObjectVersionRow, MultipartPartRow,
}
use simple_storage_service.Storage.Cipher.{Bytes}
use simple_storage_service.Storage.Blobs.{write, measure, stored, seal}
use simple_storage_service.Objects.{
  bad_digest, BucketContext, Catalog, VersionValues, VersionDraw, next_version_id,
}
use simple_storage_service.Objects.Versions
use simple_storage_service.Objects.Versions.{
  find_object, is_version, new_version, commit_version, commit_at, upsert_object, DeleteResult,
  delete_version, repoint, newest, storage_paths, asked_version, get_version, purge_object, marker,
  delete_latest, has_version_guid,
}
use simple_storage_service.Objects.Versions.References.{
  IsKeyed, occurrences, commit_version-occurrences, delete-occurrences,
}
use simple_storage_service.Objects.Versions.Soundness.{IsSound, delete-IsSound}
use simple_storage_service.Objects.Versions.Visibility.{get_version-commit}
use simple_storage_service.Objects.Keys.{is_valid_key, utf8_length, utf8_length_from}
use simple_storage_service.Objects.Put.{
  from_objects, State, PutParams, PutObjectResult, put, put_written, put_commit, check_announced,
  check_written, within_max, lift_error, digest_matches, read_version,
}
use simple_storage_service.Objects.Put.Atomicity.{put-failed}
use simple_storage_service.Objects.Put.Roundtrip.{read-put}
use simple_storage_service.Objects.Multipart.{match_requested_parts}
use simple_storage_service.Objects.Multipart.Matching.{
  Ascending, Matches, match_requested_parts_iff,
}
use simple_storage_service.Usage.{
  Tables, bucket_usage, quota_of, assert_quota, version_bytes_of, multipart_bytes_of, user_usage,
}
use simple_storage_service.Usage.Quota.{Within, held, counted, limit_of, assert_quota_iff}
use simple_storage_service.Tests.Blobs.{complement, draw, length_of, letters}

abbrev pub bucket : BucketContext
bucket = record {
  guid = 4;
  versioning = BucketVersioning.enabled;
  owner_user_guid = 1;
  quota_bytes = some 100;
}

abbrev pub no_headers : ObjectHeaders
no_headers = record {
  content_type = none;
  content_encoding = none;
  cache_control = none;
  content_disposition = none;
  metadata = none;
}

abbrev pub first_version : ObjectVersionRow
first_version = record {
  guid = 20;
  object_guid = 10;
  version_id = str "v1";
  is_delete_marker = false;
  size = 3;
  etag = str "e1";
  headers = no_headers;
  storage_path = some 70;
  encryption = ServerSideEncryption.none;
  encryption_key = none;
  created_at = 1;
}

abbrev pub catalog : Catalog
catalog = record {
  object = record { guid = 10; bucket_guid = 4; key = str "k"; latest_version_guid = some 20 } ∷ [];
  version = first_version ∷ [];
}

abbrev pub version_draw : VersionDraw
version_draw = record { object_guid = 11; version_guid = 21; version_id = str "v2"; now = 2 }

abbrev values : VersionValues
values = record {
  is_delete_marker = false;
  size = 5;
  etag = str "e2";
  headers = no_headers;
  storage_path = some 71;
  encryption = ServerSideEncryption.none;
  encryption_key = none;
}

pub catalog-IsKeyed : IsKeyed catalog.version
catalog-IsKeyed guid = ground arith

pub catalog-IsSound : IsSound catalog
catalog-IsSound = record { keyed = catalog-IsKeyed; latest = (inl (refl, refl), tt) }

commit_version-occurrences_example :
    occurrences 70 (storage_paths catalog.version) + occurrences 70 (71 ∷ [])
    ≡ occurrences 70 (
        storage_paths
          (commit_version catalog bucket (str "k") version_draw (str "v2") values).0.version)
      + occurrences 70 (commit_version catalog bucket (str "k") version_draw (str "v2") values).1
commit_version-occurrences_example =
    commit_version-occurrences catalog bucket (str "k") version_draw (str "v2") values 70

abbrev emptied : Catalog
emptied = record { object = []; version = [] }

pub delete_first :
    Versions.delete catalog bucket (str "k") (some (str "v1")) version_draw
    ≡ ok (record { version_id = some (str "v1"); is_delete_marker = false }, emptied, 70 ∷ [])
unfolding Versions.delete find_object asked_version delete_version repoint newest str text_eq
delete_first = refl

delete-occurrences_example :
    occurrences 70 (storage_paths catalog.version)
    ≡ occurrences 70 (storage_paths emptied.version) + occurrences 70 (70 ∷ [])
delete-occurrences_example =
    delete-occurrences catalog bucket (str "k") (some (str "v1")) version_draw catalog-IsKeyed
      delete_first 70

delete-IsSound_example : IsSound emptied
delete-IsSound_example =
    delete-IsSound catalog bucket (str "k") (some (str "v1")) version_draw catalog-IsSound refl
      delete_first

pub found_k :
    find_object catalog 4 (str "k")
    ≡ some (record { guid = 10; bucket_guid = 4; key = str "k"; latest_version_guid = some 20 })
unfolding find_object text_eq str
found_k = refl

get_version-commit_example :
    let c' = (commit_version catalog bucket (str "k") version_draw (str "v2") values).0 in
    (get_version c' 4 (str "k") none ≡ ok (new_version 10 version_draw (str "v2") values))
    × ((asked : Text)
        → asked_version (some asked) ≡ some asked
        → get_version c' 4 (str "k") (some asked) ≡ (
            if text_eq (str "v2") asked
            then ok (new_version 10 version_draw (str "v2") values)
            else get_version catalog 4 (str "k") (some asked)))
get_version-commit_example =
    get_version-commit catalog bucket (str "k") version_draw (str "v2") values
      (record { guid = 10; bucket_guid = 4; key = str "k"; latest_version_guid = some 20 }) found_k

abbrev owner : UserRow
owner = record {
  guid = 1;
  email = str "a@b";
  name = none;
  password_hash = [];
  role = UserRole.user;
  status = UserStatus.active;
  quota_bytes = none;
  last_login_at = none;
  created_at = 0;
  deleted_at = none;
}

abbrev tables : Tables
tables = record { catalog = catalog; upload = []; part = []; bucket = []; user = owner ∷ [] }

assert_quota_iff_example : (assert_quota tables bucket 97 ≡ ok tt) ↔ (
    Within (held tables 4 + 97) (some 100)
    × Within (sum_of (counted tables 1) tables.bucket + 97) (limit_of 1 tables.user))
assert_quota_iff_example = assert_quota_iff tables bucket 97

abbrev state : State
state = record { tables = tables; files = (70, 1 ∷ 2 ∷ 3 ∷ []) ∷ [] }

abbrev pub no_base64 : Text → Bytes
no_base64 text = []

abbrev letters_params : Option Text → PutParams
letters_params digest = record {
  bucket = bucket;
  key = str "k";
  stream = letters;
  content_md5 = digest;
  declared_length = some 19;
  max_bytes = none;
  headers = no_headers;
}

abbrev put_result : PutObjectResult
put_result = record { version_id = str "v2"; etag = 19 ∷ []; size = 19; encryption = none }

pub put_letters :
    (put complement length_of false no_base64 state (letters_params none) draw version_draw).1
    ≡ ok put_result
unfolding put check_announced is_valid_key utf8_length utf8_length_from within_max lift_error
    assert_quota bucket_usage version_bytes_of multipart_bytes_of quota_of user_usage write measure
    stored seal put_written check_written digest_matches put_commit next_version_id str
put_letters = refl

read-put_example :
    let s' =
      (put complement length_of false no_base64 state (letters_params none) draw version_draw).0 in
    (version : ObjectVersionRow) × (get_version s'.tables.catalog 4 (str "k") none ≡ ok version)
    × (version.version_id ≡ str "v2")
    × (version.size ≡ length (flatten letters.chunks))
    × (version.etag ≡ length_of (flatten letters.chunks))
    × (read_version complement length_of false no_base64 s' version none
        ≡ some (ok (flatten letters.chunks)))
read-put_example =
    read-put complement length_of false no_base64 state (letters_params none) draw version_draw
      put_result put_letters refl refl refl refl (λ e. cc)

pub put_bad_digest :
    (put complement length_of false no_base64 state
      (letters_params (some (str "x")))
      draw
      version_draw).1
    ≡ err (from_objects bad_digest)
unfolding put check_announced is_valid_key utf8_length utf8_length_from within_max lift_error
    assert_quota bucket_usage version_bytes_of multipart_bytes_of quota_of user_usage write measure
    stored seal put_written check_written digest_matches str
put_bad_digest = refl

put-failed_example :
    let s' =
      (put complement length_of false no_base64 state
        (letters_params (some (str "x")))
        draw
        version_draw).0 in
    (s'.tables ≡ tables) × ((path : ℕ) → lookup path s'.files ≡ lookup path state.files)
unfolding lookup
put-failed_example =
    put-failed complement length_of false no_base64 state (letters_params (some (str "x"))) draw
      version_draw (from_objects bad_digest) put_bad_digest refl

abbrev stored_parts : List MultipartPartRow
stored_parts =
    record {
      upload_guid = 1;
      part_number = 1;
      size = 5242880;
      etag = str "aa";
      storage_path = 80;
      encryption = ServerSideEncryption.none;
      encryption_key = none;
      created_at = 1;
    }
    ∷ []

match_requested_parts_iff_example :
    (match_requested_parts (record { part_number = 1; etag = str "\"aa\"" } ∷ []) stored_parts
      ≡ ok stored_parts)
    ↔ (Ascending (1 ∷ [])
        × Matches stored_parts (record { part_number = 1; etag = str "\"aa\"" } ∷ []) stored_parts)
match_requested_parts_iff_example =
    match_requested_parts_iff stored_parts (record { part_number = 1; etag = str "\"aa\"" } ∷ [])
      stored_parts
