-- ===== src/Objects/Multipart/Upload/Assembly.antt =====
-- What a completed upload reads back as.
use simple_storage_service.Prelude.{
  ℕ, ◌+◌, ◌≡◌, ◌≢◌, ap, ◌∙◌, refl, Bool, none, some, List, [], ◌∷◌, ◌++◌, map, arith,
}
use simple_storage_service.Prelude.Lists.{length, flatten}
use simple_storage_service.Prelude.Text.{Text}
use simple_storage_service.Prelude.Result.{ok}
use simple_storage_service.Database.{ObjectVersionRow, MultipartUploadRow, MultipartPartRow}
use simple_storage_service.Storage.Cipher.{Bytes, Crypto}
use simple_storage_service.Storage.Blobs.{Draw, WriteResult, concat}
use simple_storage_service.Storage.Blobs.Concat.{AllRead, read-concat}
use simple_storage_service.Objects.{BucketContext, VersionDraw, next_version_id}
use simple_storage_service.Objects.Versions.{
  storage_paths, new_version, upsert_object, commit_version, get_version,
}
use simple_storage_service.Objects.Versions.References.{occurrences}
use simple_storage_service.Objects.Versions.Visibility.{get_version-commit_new}
use simple_storage_service.Objects.Put.{State, PutObjectResult, delete_blobs, read_version}
use simple_storage_service.Objects.Put.Roundtrip.{
  to_blob_encryption-columns, lookup-delete_blobs, read-lookup, replaced-unused,
}
use simple_storage_service.Objects.Multipart.{CompletePart}
use simple_storage_service.Objects.Multipart.Upload.{
  stored_parts, part_path, part_source, values_of_upload, check_complete, complete_commit,
  complete_joined, complete_multipart_upload,
}

occurrences-append :
    (path : ℕ) (xs ys : List ℕ)
    → occurrences path (xs ++ ys) ≡ occurrences path xs + occurrences path ys
occurrences-append path [] ys = omega arith
occurrences-append path (x ∷ xs) ys = ground (arith, occurrences-append path xs ys)

module _ (crypto : Crypto) (md5 : Bytes → Text) (enabled : Bool)
    (decode_base64 : Text → Bytes) where
  -- Where the checks pass and the parts are joined, the completion commits.
  complete-joined :
      (s : State) (bucket : BucketContext) (upload_id : Text) (requested : List CompletePart)
      (blob : Draw) (draw : VersionDraw) (upload : MultipartUploadRow)
      (ordered : List MultipartPartRow) (whole : WriteResult)
      → check_complete crypto md5 enabled decode_base64 s.tables bucket.guid upload_id requested
        ≡ ok (upload, ordered)
      → (concat crypto md5 enabled s.files blob (map part_source ordered)).1 ≡ ok whole
      → complete_multipart_upload crypto md5 enabled decode_base64 s bucket upload_id requested blob
          draw
        ≡ (let (s', result) =
              complete_commit crypto md5 enabled decode_base64 s
                (concat crypto md5 enabled s.files blob (map part_source ordered)).0
                bucket
                upload
                ordered
                draw
                whole in
            (s', ok result))
  unfolding complete_multipart_upload complete_joined
  complete-joined s bucket upload_id requested blob draw upload ordered whole checked joined =
      rw (checked, complete_multipart_upload) (rw (joined, complete_joined) refl)

  -- A completion whose checks pass, of parts that can be read, succeeds; and then a read of the key
  -- finds a version with the id that was answered and the size of the parts together, and its
  -- payload is the parts joined in the order of the request - for a data key of 32 bytes, an IV of
  -- 16, a nonce of 12, a blob path that neither a version nor a part of the upload refers to, and a descriptor
  -- that is not the empty text.
  pub read-complete_multipart_upload :
      (s : State) (bucket : BucketContext) (upload_id : Text) (requested : List CompletePart)
      (blob : Draw) (draw : VersionDraw) (upload : MultipartUploadRow)
      (ordered : List MultipartPartRow) (plains : List Bytes)
      → check_complete crypto md5 enabled decode_base64 s.tables bucket.guid upload_id requested
        ≡ ok (upload, ordered)
      → AllRead crypto md5 enabled s.files (map part_source ordered) plains
      → length blob.key ≡ 32
      → length blob.iv ≡ 16
      → length blob.nonce ≡ 12
      → occurrences blob.path (storage_paths s.tables.catalog.version) ≡ 0
      → occurrences blob.path (map part_path (stored_parts s.tables upload.guid)) ≡ 0
      → let (s', outcome) =
          complete_multipart_upload crypto md5 enabled decode_base64 s bucket upload_id requested
            blob draw in
        (result : PutObjectResult) × (outcome ≡ ok result)
        × (result.size ≡ length (flatten plains))
        × (result.encryption ≢ some []
            → (version : ObjectVersionRow) × (get_version s'.tables.catalog bucket.guid upload.key
                  none
                ≡ ok version)
              × (version.version_id ≡ result.version_id)
              × (version.size ≡ length (flatten plains))
              × (version.etag ≡ result.etag)
              × (read_version crypto md5 enabled decode_base64 s' version none
                  ≡ some (ok (flatten plains))))
  unfolding complete_commit read_version
  read-complete_multipart_upload s bucket upload_id requested blob draw upload ordered plains
        checked all key_length iv_length nonce_length unused not_part =
      let sources = map part_source ordered in
      let files = (concat crypto md5 enabled s.files blob sources).0 in
      let (whole, joined, sized, at_path, readable, _) =
        read-concat crypto md5 enabled s.files blob sources plains all key_length iv_length
          nonce_length in
      let after =
        complete-joined s bucket upload_id requested blob draw upload ordered whole checked
          joined in
      let version_id = next_version_id bucket.versioning draw.version_id in
      let values = values_of_upload crypto md5 enabled decode_base64 upload ordered whole in
      let latest =
        get_version-commit_new s.tables.catalog bucket upload.key draw version_id values in
      let parts = map part_path (stored_parts s.tables upload.guid) in
      let replaced = (commit_version s.tables.catalog bucket upload.key draw version_id values).1 in
      let not_replaced : occurrences whole.storage_path replaced ≡ 0 =
        replaced-unused crypto md5 enabled decode_base64 s.tables.catalog bucket upload.key draw
          version_id values whole.storage_path (rw at_path unused) in
      let not_deleted : occurrences whole.storage_path parts ≡ 0 = rw at_path not_part in
      let kept : occurrences whole.storage_path (parts ++ replaced) ≡ 0 =
        occurrences-append whole.storage_path parts replaced ∙ (omega arith) in
      rw after (
        (complete_commit crypto md5 enabled decode_base64 s files bucket upload ordered draw
            whole).1,
        refl,
        sized,
        λ full. (
          new_version
              (upsert_object s.tables.catalog bucket.guid upload.key draw.object_guid).0.guid draw
              version_id values,
          latest,
          refl,
          sized,
          refl,
          rw (to_blob_encryption-columns whole.encryption full) (
              ap some (
                read-lookup crypto md5 enabled decode_base64
                  (delete_blobs (parts ++ replaced) files) files whole.storage_path none
                  whole.encryption
                  (lookup-delete_blobs (parts ++ replaced) whole.storage_path files kept)
                ∙ readable)),
        ),
      )
