-- ===== src/Objects/Multipart/Upload/Ending.antt =====
-- How a multipart upload ends.

use simple_storage_service.Prelude.{
  ℕ, ◌≡◌, ◌≢◌, ◌≤◌, sym, ◌∙◌, refl, true, false, none, some, List, [], ◌∷◌, map, arith, inl, inr,
}
use native.Mathlib.Decide.{ℕ_discrete}
use simple_storage_service.Prelude.Tests.{◌==◌, ==_iff, if◌then◌else◌, Bool-cases}
use simple_storage_service.Prelude.Lists.{filter, find}
use simple_storage_service.Prelude.Query.{update_where, delete_where, count}
use simple_storage_service.Prelude.Text.{Text}
use simple_storage_service.Prelude.Result.{ok, err, Result-cases, ok-injective}
use simple_storage_service.Prelude.Table.{lookup, remove, lookup-remove}
use simple_storage_service.Database.{MultipartUploadStatus, MultipartUploadRow, MultipartPartRow}
use simple_storage_service.Storage.Blobs.{Files, delete}
use simple_storage_service.Usage.{Tables, in_progress}
use simple_storage_service.Objects.{upload_not_found}
use simple_storage_service.Objects.Versions.References.{occurrences}
use simple_storage_service.Objects.Put.{State, delete_blobs}
use simple_storage_service.Objects.Put.Roundtrip.{lookup-delete_blobs}
use simple_storage_service.Objects.Multipart.Upload.{
  is_open, or_no_upload, require_upload, part_of_upload, has_upload_guid, with_status, part_path,
  abort_tables, abort_found, abort_multipart_upload,
}

-- An upload that has ended is open no more, whichever end it came to.
pub closed :
    (bucket_guid : ℕ) (upload_id : Text) (uploads : List MultipartUploadRow)
    (found : MultipartUploadRow) (status : MultipartUploadStatus)
    → in_progress status ≡ false
    → find (is_open bucket_guid upload_id) uploads ≡ some found
    → count (is_open bucket_guid upload_id) uploads ≤ 1
    → find
        (is_open bucket_guid upload_id)
        (update_where (has_upload_guid found.guid) (with_status status) uploads)
      ≡ none
closed bucket_guid upload_id [] found status over h once = refl
closed bucket_guid upload_id (u ∷ uploads) found status over h once =
    elim (Bool-cases (is_open bucket_guid upload_id u)) [
      | inl here ↦
          let same : u ≡ found = ground arith in
          let hit : has_upload_guid found.guid u ≡ true = rw (← same) (ground arith) in
          let others : count (is_open bucket_guid upload_id) uploads ≡ 0 = ground arith in
          rw hit (
            rw over (
              ground
                (arith, none_open bucket_guid upload_id uploads found.guid status over others)))
      | inr later ↦
          let rest =
            closed bucket_guid upload_id uploads found status over (ground arith) (ground arith) in
          elim (Bool-cases (has_upload_guid found.guid u)) [
            | inl hit ↦ rw hit (rw over (ground arith))
            | inr miss ↦ rw miss (rw later rest)
          ]
    ]
  where
    none_open :
        (b : ℕ) (i : Text) (rows : List MultipartUploadRow) (guid : ℕ) (st : MultipartUploadStatus)
        → in_progress st ≡ false
        → count (is_open b i) rows ≡ 0
        → find (is_open b i) (update_where (has_upload_guid guid) (with_status st) rows) ≡ none
    none_open b i [] guid st o z = refl
    none_open b i (r ∷ rows) guid st o z =
        let rest = none_open b i rows guid st o (ground arith) in
        elim (Bool-cases (has_upload_guid guid r)) [
          | inl hit ↦ rw hit (rw o (ground arith))
          | inr miss ↦ rw miss (ground arith)
        ]

no_parts_left :
    (guid : ℕ) (parts : List MultipartPartRow)
    → filter (part_of_upload guid) (delete_where (part_of_upload guid) parts) ≡ []
no_parts_left guid [] = refl
no_parts_left guid (p ∷ parts) = ground (arith, no_parts_left guid parts)

lookup-delete_blobs_gone :
    (paths : List ℕ) (path : ℕ) (files : Files)
    → occurrences path paths ≢ 0
    → lookup path (delete_blobs paths files) ≡ none
unfolding delete_blobs delete
lookup-delete_blobs_gone [] path files h = absurd (h refl)
lookup-delete_blobs_gone (p ∷ ps) path files h = elim (ℕ_discrete (occurrences path ps) 0) [
  | yes last ↦
      let here : (p == path) ≡ true = ground arith in
      lookup-delete_blobs ps path (remove p files) last
      ∙ lookup-remove p path files
      ∙ (rw here refl)
  | no more ↦ lookup-delete_blobs_gone ps path (remove p files) more
]

pub require_upload-found :
    (t : Tables) (bucket_guid : ℕ) (upload_id : Text) (upload : MultipartUploadRow)
    → require_upload t bucket_guid upload_id ≡ ok upload
    → find (is_open bucket_guid upload_id) t.upload ≡ some upload
unfolding require_upload or_no_upload
require_upload-found t bucket_guid upload_id upload h = ground arith

lookup-delete_blobs_iff :
    (paths : List ℕ) (path : ℕ) (files : Files)
    → lookup path (delete_blobs paths files)
      ≡ (if occurrences path paths == 0 then lookup path files else none)
lookup-delete_blobs_iff paths path files = elim (Bool-cases (occurrences path paths == 0)) [
  | inl absent ↦
      rw absent
        (lookup-delete_blobs paths path files ((==_iff (occurrences path paths) 0).0 absent))
  | inr there ↦ rw there (lookup-delete_blobs_gone paths path files (λ e. ground arith))
]

abbrev pub upload_paths : Tables → ℕ → List ℕ
upload_paths t upload_guid = map part_path (filter (part_of_upload upload_guid) t.part)

pub abort-after :
    (s s' : State) (bucket_guid : ℕ) (upload_id : Text)
    → abort_multipart_upload s bucket_guid upload_id ≡ ok s'
    → (upload : MultipartUploadRow) × (require_upload s.tables bucket_guid upload_id ≡ ok upload)
      × (s' ≡ record {
        tables = abort_tables s.tables upload.guid;
        files = delete_blobs (upload_paths s.tables upload.guid) s.files;
      })
unfolding abort_multipart_upload abort_found
abort-after s s' bucket_guid upload_id h =
    elim (Result-cases (require_upload s.tables bucket_guid upload_id)) [
      | inr (e, missing) ↦ absurd (let h' = rw (missing, abort_multipart_upload) at h in cc)
      | inl (upload, found) ↦
          (upload, found, sym (ok-injective (rw (found, abort_multipart_upload) at h)))
    ]

aborted-over : in_progress MultipartUploadStatus.aborted ≡ false
unfolding in_progress
aborted-over = refl

pub completed-over : in_progress MultipartUploadStatus.completed ≡ false
unfolding in_progress
completed-over = refl

-- An abort ends the upload: it is found no more, no part row of it is left, exactly the blobs of
-- its parts are gone, and the keys and versions are as they were. The id of an upload is unique.
pub abort-ends :
    (s s' : State) (bucket_guid : ℕ) (upload_id : Text)
    → count (is_open bucket_guid upload_id) s.tables.upload ≤ 1
    → abort_multipart_upload s bucket_guid upload_id ≡ ok s'
    → (upload : MultipartUploadRow) × (require_upload s.tables bucket_guid upload_id ≡ ok upload)
      × (require_upload s'.tables bucket_guid upload_id ≡ err upload_not_found)
      × (filter (part_of_upload upload.guid) s'.tables.part ≡ [])
      × ((path : ℕ)
          → lookup path s'.files ≡ (
              if occurrences path (upload_paths s.tables upload.guid) == 0
              then lookup path s.files
              else none))
      × (s'.tables.catalog ≡ s.tables.catalog)
unfolding abort_tables require_upload or_no_upload
abort-ends s s' bucket_guid upload_id once h =
    let (upload, found, after) = abort-after s s' bucket_guid upload_id h in
    let was_open = require_upload-found s.tables bucket_guid upload_id upload found in
    rw after (
      upload,
      found,
      rw
          (closed bucket_guid upload_id s.tables.upload upload MultipartUploadStatus.aborted
            aborted-over was_open once)
          refl,
      no_parts_left upload.guid s.tables.part,
      λ path. lookup-delete_blobs_iff (upload_paths s.tables upload.guid) path s.files,
      refl,
    )
