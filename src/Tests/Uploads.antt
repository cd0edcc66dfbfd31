-- ===== src/Tests/Uploads.antt =====
-- A multipart upload from its parts to its end, and the collector.
use simple_storage_service.Prelude.{
  ℕ, Bool, ◌≡◌, ◌≢◌, refl, false, none, some, List, [], ◌∷◌, arith,
}
use simple_storage_service.Prelude.Tests.{◌==◌, if◌then◌else◌}
use simple_storage_service.Prelude.Lists.{filter}
use simple_storage_service.Prelude.Table.{lookup, remove}
use simple_storage_service.Prelude.Text.{str, text_eq}
use simple_storage_service.Prelude.Result.{ok, err}
use simple_storage_service.Database.{
  MultipartUploadStatus, ServerSideEncryption, ObjectVersionRow, MultipartUploadRow,
  MultipartPartRow,
}
use simple_storage_service.Storage.Blobs.{delete, read, read_blob}
use simple_storage_service.Usage.{Tables, in_progress}
use simple_storage_service.Objects.{to_blob_encryption, invalid_part, upload_not_found}
use simple_storage_service.Objects.Versions.{get_version}
use simple_storage_service.Objects.Versions.References.{occurrences}
use simple_storage_service.Objects.Put.{
  from_objects, State, PutObjectResult, lift_error, delete_blobs, read_version,
}
use simple_storage_service.Objects.Multipart.{
  CompletePart, match_requested_parts, match_from, stored_part, strip_quotes,
}
use simple_storage_service.Objects.Multipart.Upload.{
  part_of_upload, require_upload, by_number, insert_by_number, stored_parts, check_complete,
  complete_multipart_upload, multipart_etag, abort_tables, abort_found, abort_multipart_upload,
}
use simple_storage_service.Objects.Multipart.Upload.Assembly.{read-complete_multipart_upload}
use simple_storage_service.Objects.Multipart.Upload.Ending.{upload_paths, abort-ends}
use simple_storage_service.Objects.Multipart.Upload.Completion.{complete-failed}
use simple_storage_service.Objects.Multipart.Listing.Pages.{IsNumbered}
use simple_storage_service.Gc.{
  Config, abort_each, abort_abandoned_uploads, collect, referenced_storage_paths,
}
use simple_storage_service.Gc.Safety.{collect-keeps, collect-reclaims}
use simple_storage_service.Tests.Blobs.{complement, draw, length_of}
use simple_storage_service.Tests.Objects.{bucket, no_headers, catalog, version_draw, no_base64}

abbrev upload : MultipartUploadRow
upload = record {
  guid = 1;
  upload_id = str "up";
  bucket_guid = 4;
  key = str "big";
  status = MultipartUploadStatus.in_progress;
  headers = no_headers;
  created_at = 3;
}

abbrev part : MultipartPartRow
part = record {
  upload_guid = 1;
  part_number = 1;
  size = 2;
  etag = str "aa";
  storage_path = 80;
  encryption = ServerSideEncryption.none;
  encryption_key = none;
  created_at = 4;
}

abbrev tables : Tables
tables = record {
  catalog = catalog;
  upload = upload ∷ [];
  part = part ∷ [];
  bucket = [];
  user = [];
}

abbrev state : State
state = record {
  tables = tables;
  files = (80, 8 ∷ 9 ∷ []) ∷ (70, 1 ∷ 2 ∷ 3 ∷ []) ∷ (90, 5 ∷ []) ∷ [];
}

abbrev requested : List CompletePart
requested = record { part_number = 1; etag = str "\"aa\"" } ∷ []

pub checked :
    check_complete complement length_of false no_base64 tables 4 (str "up") requested
    ≡ ok (upload, part ∷ [])
unfolding check_complete lift_error require_upload in_progress stored_parts by_number
    insert_by_number match_requested_parts match_from stored_part strip_quotes text_eq str
checked = refl

pub part_reads : read complement length_of false state.files 80 none none ≡ ok (8 ∷ 9 ∷ [])
unfolding read read_blob lookup
part_reads = refl

abbrev answer : PutObjectResult
answer = record {
  version_id = str "v2";
  etag = multipart_etag complement length_of false no_base64 (str "aa" ∷ []);
  size = 2;
  encryption = none;
}

read-complete_multipart_upload_example :
    let (s', outcome) =
      complete_multipart_upload complement length_of false no_base64 state bucket
        (str "up")
        requested
        draw
        version_draw in
    (result : PutObjectResult) × (outcome ≡ ok result)
    × (result.size ≡ 2)
    × (result.encryption ≢ some []
        → (version : ObjectVersionRow) × (get_version s'.tables.catalog 4 (str "big") none
            ≡ ok version)
          × (version.version_id ≡ result.version_id)
          × (version.size ≡ 2)
          × (version.etag ≡ result.etag)
          × (read_version complement length_of false no_base64 s' version none
              ≡ some (ok (8 ∷ 9 ∷ []))))
unfolding to_blob_encryption
read-complete_multipart_upload_example =
    read-complete_multipart_upload complement length_of false no_base64 state bucket (str "up")
      requested draw version_draw upload (part ∷ []) ((8 ∷ 9 ∷ []) ∷ []) checked (part_reads, tt)
      refl refl refl refl (unfold stored_parts by_number insert_by_number in refl)

-- What the table holds once the upload is aborted.
abbrev aborted_state : State
aborted_state = record {
  tables = record tables {
    upload = record upload { status = MultipartUploadStatus.aborted } ∷ [];
    part = [];
  };
  files = (70, 1 ∷ 2 ∷ 3 ∷ []) ∷ (90, 5 ∷ []) ∷ [];
}

pub aborted : abort_multipart_upload state 4 (str "up") ≡ ok aborted_state
unfolding abort_multipart_upload abort_found abort_tables require_upload in_progress delete_blobs
    delete remove text_eq str
aborted = refl

abort-ends_example :
    (found : MultipartUploadRow) × (require_upload tables 4 (str "up") ≡ ok found)
    × (require_upload aborted_state.tables 4 (str "up") ≡ err upload_not_found)
    × (filter (part_of_upload found.guid) [] ≡ [])
    × ((path : ℕ)
        → lookup path aborted_state.files ≡ (
            if occurrences path (upload_paths tables found.guid) == 0
            then lookup path state.files
            else none))
    × (aborted_state.tables.catalog ≡ catalog)
unfolding str
abort-ends_example = abort-ends state aborted_state 4 (str "up") (ground arith) aborted

pub complete-nothing :
    (complete_multipart_upload complement length_of false no_base64 state bucket
      (str "up")
      []
      draw
      version_draw).1
    ≡ err (from_objects invalid_part)
unfolding complete_multipart_upload check_complete lift_error require_upload in_progress text_eq str
complete-nothing = refl

complete-failed_example :
    let s' =
      (complete_multipart_upload complement length_of false no_base64 state bucket
        (str "up")
        []
        draw
        version_draw).0 in
    (s'.tables ≡ tables) × ((path : ℕ) → lookup path s'.files ≡ lookup path state.files)
unfolding lookup
complete-failed_example =
    complete-failed complement length_of false no_base64 state bucket (str "up") [] draw
      version_draw (from_objects invalid_part) refl complete-nothing

abbrev gc_config : Config
gc_config = record { multipart_max_age_hours = 1; blob_min_age_hours = 1 }

abbrev old : ℕ → ℕ
old path = 0

abbrev never : ℕ → Bool
never path = false

collect-keeps_example :
    let s' = (collect gc_config old never false 36000000 state).0 in
    (lookup 70 s'.files ≡ some (1 ∷ 2 ∷ 3 ∷ [])) × (s'.tables.catalog ≡ catalog)
unfolding lookup
collect-keeps_example = collect-keeps gc_config old never false 36000000 state 70 refl refl

collect-reclaims_example :
    lookup 90 (collect gc_config old never false 36000000 state).0.files ≡ none
collect-reclaims_example =
    collect-reclaims gc_config old never 36000000 state 90
      (unfold collect abort_abandoned_uploads abort_each abort_multipart_upload abort_found
          abort_tables require_upload in_progress delete_blobs delete referenced_storage_paths
          text_eq str in
        refl)
      refl refl

pub upload_found : require_upload tables 4 (str "up") ≡ ok upload
unfolding require_upload in_progress text_eq str
upload_found = refl

pub stored_parts-IsNumbered : IsNumbered (stored_parts tables 1)
unfolding stored_parts by_number insert_by_number
stored_parts-IsNumbered = (omega arith, tt, tt)
