-- ===== src/Objects/Multipart/Upload/Completion.antt =====
-- A completion that fails, and one that ends the upload.
use mathlib.Core.Path.{subst}
use simple_storage_service.Prelude.{
  ℕ, ◌≡◌, ◌≤◌, ap, ◌∙◌, refl, Bool, not, Option, none, List, map, arith, inl, inr,
}
use native.Mathlib.Decide.{ℕ_discrete}
use simple_storage_service.Prelude.Tests.{◌==◌, if◌then◌else◌}
use simple_storage_service.Prelude.Query.{count}
use simple_storage_service.Prelude.Text.{Text}
use simple_storage_service.Prelude.Result.{
  Result, ok, err, guard, >>=-succeeds, >>-succeeds, Result-cases, ok-injective,
}
use simple_storage_service.Prelude.Table.{lookup, remove, lookup-remove}
use simple_storage_service.Database.{MultipartUploadStatus, MultipartUploadRow, MultipartPartRow}
use simple_storage_service.Storage.Cipher.{Bytes, Crypto, StorageError}
use simple_storage_service.Storage.Blobs.{Files, Draw, read_all, concat}
use simple_storage_service.Usage.{Tables}
use simple_storage_service.Objects.{
  ObjectsError, upload_not_found, invalid_part, BucketContext, VersionDraw,
}
use simple_storage_service.Objects.Put.{PutError, from_objects, State, PutObjectResult, lift_error}
use simple_storage_service.Objects.Multipart.{CompletePart, match_requested_parts}
use simple_storage_service.Objects.Multipart.Upload.{
  is_open, or_no_upload, require_upload, part_source, check_complete, complete_commit, is_nil,
  stored_parts, complete_joined, complete_multipart_upload, abort_found, abort_multipart_upload,
}
use simple_storage_service.Objects.Multipart.Upload.Ending.{
  closed, completed-over, require_upload-found,
}

module _ (crypto : Crypto) (md5 : Bytes → Text) (enabled : Bool)
    (decode_base64 : Text → Bytes) where
  concat-failed :
      (files : Files) (draw : Draw) (sources : List (ℕ × Option Text)) (e : StorageError)
      → (concat crypto md5 enabled files draw sources).1 ≡ err e
      → (concat crypto md5 enabled files draw sources).0 ≡ remove draw.path files
  unfolding concat
  concat-failed files draw sources e h =
      elim (Result-cases (read_all crypto md5 enabled files sources)) [
        | inl (plain, read_it) ↦ absurd (let h' = rw (read_it, concat) at h in cc)
        | inr (error, failed) ↦ rw (failed, concat) refl
      ]

  -- A completion that fails, at its checks or at a part that cannot be read, changes nothing that
  -- can be seen: the tables are as they were, so the upload can still be completed or aborted, and
  -- so is every blob; for a new blob whose path is not in use.
  pub complete-failed :
      (s : State) (bucket : BucketContext) (upload_id : Text) (requested : List CompletePart)
      (blob : Draw) (draw : VersionDraw) (error : PutError)
      → lookup blob.path s.files ≡ none
      → (complete_multipart_upload crypto md5 enabled decode_base64 s bucket upload_id requested
          blob draw).1
        ≡ err error
      → let s' =
          (complete_multipart_upload crypto md5 enabled decode_base64 s bucket upload_id requested
            blob draw).0 in
        (s'.tables ≡ s.tables) × ((path : ℕ) → lookup path s'.files ≡ lookup path s.files)
  unfolding complete_multipart_upload complete_joined
  complete-failed s bucket upload_id requested blob draw error unused h =
      elim (Result-cases (
        check_complete crypto md5 enabled decode_base64 s.tables bucket.guid upload_id requested)) [
          | inr (e, refused) ↦ rw (refused, complete_multipart_upload) (refl, λ path. refl)
          | inl ((upload, ordered), checked) ↦
              let h1 = rw (checked, complete_multipart_upload) at h in
              let sources = map part_source ordered in
              elim (Result-cases (concat crypto md5 enabled s.files blob sources).1) [
                | inl (whole, joined) ↦ absurd (let h2 = rw (joined, complete_joined) at h1 in cc)
                | inr (e, failed) ↦
                    rw (checked, complete_multipart_upload)
                      (rw (failed, complete_joined)
                        (rw (concat-failed s.files blob sources e failed) (
                          refl,
                          λ path.
                              lookup-remove blob.path path s.files
                              ∙ kept s.files blob.path path unused,
                        )))
              ]
        ]
    where
      kept :
          (files : Files) (gone path : ℕ)
          → lookup gone files ≡ none
          → (if gone == path then none else lookup path files) ≡ lookup path files
      kept files gone path missing = elim (ℕ_discrete gone path) [
        | yes same ↦
            subst (λ (p : ℕ). (if gone == p then none else lookup p files) ≡ lookup p files) same
              (rw missing (ground arith))
        | no other ↦ ground arith
      ]

  lift_error-ok :
      {A : Type 0} (r : Result ObjectsError A) {a : A} → lift_error from_objects r ≡ ok a → r ≡ ok a
  unfolding lift_error
  lift_error-ok (ok x) h = ap ok (ok-injective h)
  lift_error-ok (err e) h = cc

  check_complete-upload :
      (t : Tables) (bucket_guid : ℕ) (upload_id : Text) (requested : List CompletePart)
      (upload : MultipartUploadRow) (ordered : List MultipartPartRow)
      → check_complete crypto md5 enabled decode_base64 t bucket_guid upload_id requested
        ≡ ok (upload, ordered)
      → require_upload t bucket_guid upload_id ≡ ok upload
  unfolding check_complete
  check_complete-upload t bucket_guid upload_id requested upload ordered h =
      let (found, open_one, h1) =
        >>=-succeeds (lift_error from_objects (require_upload t bucket_guid upload_id)) _ h in
      let (_, h2) = >>-succeeds (guard (not (is_nil requested)) (from_objects invalid_part)) _ h1 in
      let (rows, matched, done) =
        >>=-succeeds
          (lift_error from_objects (match_requested_parts requested (stored_parts t found.guid))) _
          h2 in
      let same : found ≡ upload =
        ap (λ (r : MultipartUploadRow × List MultipartPartRow). r.0) (ok-injective done) in
      lift_error-ok _ open_one ∙ ap ok same

  complete-closed :
      (s : State) (bucket : BucketContext) (upload_id : Text) (requested : List CompletePart)
      (blob : Draw) (draw : VersionDraw) (result : PutObjectResult)
      → count (is_open bucket.guid upload_id) s.tables.upload ≤ 1
      → (complete_multipart_upload crypto md5 enabled decode_base64 s bucket upload_id requested
          blob draw).1
        ≡ ok result
      → require_upload
          (complete_multipart_upload crypto md5 enabled decode_base64 s bucket upload_id requested
            blob draw).0.tables
          bucket.guid
          upload_id
        ≡ err upload_not_found
  unfolding complete_multipart_upload complete_joined complete_commit require_upload or_no_upload
  complete-closed s bucket upload_id requested blob draw result once h =
      elim (Result-cases (
        check_complete crypto md5 enabled decode_base64 s.tables bucket.guid upload_id requested)) [
          | inr (e, refused) ↦ absurd (let h1 = rw (refused, complete_multipart_upload) at h in cc)
          | inl ((upload, ordered), checked) ↦
              let h1 = rw (checked, complete_multipart_upload) at h in
              let found = require_upload-found s.tables bucket.guid upload_id upload (
                check_complete-upload s.tables bucket.guid upload_id requested upload ordered
                  checked) in
              elim (Result-cases
                (concat crypto md5 enabled s.files blob (map part_source ordered)).1) [
                  | inr (e, failed) ↦ absurd (let h2 = rw (failed, complete_joined) at h1 in cc)
                  | inl (whole, joined) ↦
                      rw (checked, complete_multipart_upload)
                        (rw (joined, complete_joined)
                          (rw
                            (closed bucket.guid upload_id s.tables.upload upload
                              MultipartUploadStatus.completed completed-over found once)
                            refl))
                ]
        ]

  refused_complete :
      (s : State) (bucket : BucketContext) (upload_id : Text) (requested : List CompletePart)
      (blob : Draw) (draw : VersionDraw) (e : PutError)
      → check_complete crypto md5 enabled decode_base64 s.tables bucket.guid upload_id requested
        ≡ err e
      → complete_multipart_upload crypto md5 enabled decode_base64 s bucket upload_id requested blob
          draw
        ≡ (s, err e)
  unfolding complete_multipart_upload
  refused_complete s bucket upload_id requested blob draw e refused =
      rw (refused, complete_multipart_upload) refl

  -- An upload is completed once: behind a completion that succeeds, a second one is refused,
  -- whatever parts it asks for, and so is an abort. The id of an upload is unique.
  pub complete-once :
      (s : State) (bucket : BucketContext) (upload_id : Text) (requested again : List CompletePart)
      (blob blob' : Draw) (draw draw' : VersionDraw) (result : PutObjectResult)
      → count (is_open bucket.guid upload_id) s.tables.upload ≤ 1
      → (complete_multipart_upload crypto md5 enabled decode_base64 s bucket upload_id requested
          blob draw).1
        ≡ ok result
      → let s' =
          (complete_multipart_upload crypto md5 enabled decode_base64 s bucket upload_id requested
            blob draw).0 in
        (complete_multipart_upload crypto md5 enabled decode_base64 s' bucket upload_id again blob'
            draw'
          ≡ (s', err (from_objects upload_not_found)))
        × (abort_multipart_upload s' bucket.guid upload_id ≡ err upload_not_found)
  unfolding check_complete lift_error abort_multipart_upload abort_found
  complete-once s bucket upload_id requested again blob blob' draw draw' result once h =
      let over = complete-closed s bucket upload_id requested blob draw result once h in
      let s' =
        (complete_multipart_upload crypto md5 enabled decode_base64 s bucket upload_id requested
          blob draw).0 in
      let refused : check_complete crypto md5 enabled decode_base64 s'.tables bucket.guid upload_id
            again
          ≡ err (from_objects upload_not_found) =
        rw over refl in
      (refused_complete s' bucket upload_id again blob' draw' _ refused, ap (abort_found s') over)
