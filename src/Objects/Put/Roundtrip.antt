-- ===== src/Objects/Put/Roundtrip.antt =====
-- What a read of the key gives behind a `put`.
use simple_storage_service.Prelude.{
  ℕ, ◌≡◌, ◌≢◌, ap, sym, ◌∙◌, refl, Bool, false, Option, none, some, List, [], ◌∷◌, arith, inl, inr,
}
use simple_storage_service.Prelude.Tests.{◌==◌}
use simple_storage_service.Prelude.Lists.{length, flatten}
use simple_storage_service.Prelude.Text.{Text}
use simple_storage_service.Prelude.Result.{ok, Result-cases, ok-injective}
use simple_storage_service.Prelude.Table.{lookup, remove, lookup-remove}
use simple_storage_service.Database.{ObjectVersionRow}
use simple_storage_service.Storage.Cipher.{Bytes, Crypto}
use simple_storage_service.Storage.Blobs.{Files, Draw, WriteResult, ReadRange, write, read, delete}
use simple_storage_service.Storage.Blobs.Roundtrip.{read-write}
use simple_storage_service.Objects.{
  BucketContext, Catalog, VersionValues, VersionDraw, next_version_id, to_encryption_columns,
  to_blob_encryption,
}
use simple_storage_service.Objects.Versions.{
  storage_paths, replaced_by, new_version, upsert_object, commit_version, commit_at, get_version,
}
use simple_storage_service.Objects.Versions.References.{occurrences, occurrences-filter}
use simple_storage_service.Objects.Versions.Visibility.{get_version-commit_new}
use simple_storage_service.Objects.Put.{
  State, PutParams, PutObjectResult, check_announced, check_written, values_of, put_commit,
  put_written, put, delete_blobs, read_version,
}
use simple_storage_service.Objects.Put.Atomicity.{storage_path-write}

-- A descriptor survives the columns it is stored in, unless its key is empty.
pub to_blob_encryption-columns :
    (encryption : Option Text)
    → encryption ≢ some []
    → to_blob_encryption (to_encryption_columns encryption).0 (to_encryption_columns encryption).1
      ≡ encryption
unfolding to_blob_encryption to_encryption_columns
to_blob_encryption-columns none full = refl
to_blob_encryption-columns (some []) full = absurd (full refl)
to_blob_encryption-columns (some (c ∷ cs)) full = refl

pub lookup-delete_blobs :
    (paths : List ℕ) (path : ℕ) (files : Files)
    → occurrences path paths ≡ 0
    → lookup path (delete_blobs paths files) ≡ lookup path files
unfolding delete_blobs delete
lookup-delete_blobs [] path files h = refl
lookup-delete_blobs (p ∷ ps) path files h =
    let rest : occurrences path ps ≡ 0 = ground arith in
    let differs : (p == path) ≡ false = ground arith in
    lookup-delete_blobs ps path (remove p files) rest ∙ lookup-remove p path files ∙ rw differs refl

module _ (crypto : Crypto) (md5 : Bytes → Text) (enabled : Bool)
    (decode_base64 : Text → Bytes) where
  put-ok :
      (s : State) (params : PutParams) (blob : Draw) (draw : VersionDraw) (result : PutObjectResult)
      → (put crypto md5 enabled decode_base64 s params blob draw).1 ≡ ok result
      → let done = write crypto md5 enabled s.files blob params.stream params.max_bytes in
        (written : WriteResult) × (done.1 ≡ ok written)
        × ((put crypto md5 enabled decode_base64 s params blob draw).0
            ≡ (put_commit crypto md5 enabled decode_base64 s done.0 params draw written).0)
        × (result ≡ (put_commit crypto md5 enabled decode_base64 s done.0 params draw written).1)
  unfolding put put_written
  put-ok s params blob draw result h =
      elim (Result-cases (check_announced crypto md5 enabled decode_base64 s.tables params)) [
        | inr (e, refused) ↦ absurd (let h' = rw (refused, put) at h in cc)
        | inl (_, announced) ↦
            let h1 = rw (announced, put) at h in
            elim (Result-cases
              (write crypto md5 enabled s.files blob params.stream params.max_bytes).1) [
                | inr (e, failed) ↦ absurd (let h2 = rw (failed, put_written) at h1 in cc)
                | inl (written, stored_it) ↦
                    let h2 = rw (stored_it, put_written) at h1 in
                    elim (Result-cases
                      (check_written crypto md5 enabled decode_base64 s.tables params written)) [
                        | inr (e, refused) ↦ absurd (let h3 = rw refused at h2 in cc)
                        | inl (_, passed) ↦
                            let h3 = rw passed at h2 in
                            (
                              written,
                              stored_it,
                              rw (announced, put) (rw (stored_it, put_written) (rw passed refl)),
                              sym (ok-injective h3),
                            )
                      ]
              ]
      ]

  pub read-lookup :
      (files files' : Files) (path : ℕ) (range : Option ReadRange) (encryption : Option Text)
      → lookup path files ≡ lookup path files'
      → read crypto md5 enabled files path range encryption
        ≡ read crypto md5 enabled files' path range encryption
  unfolding read
  read-lookup files files' path range encryption e = rw (e, read)

  -- The paths that a commit hands out are among those referred to before it.
  pub replaced-unused :
      (c : Catalog) (bucket : BucketContext) (key : Text) (draw : VersionDraw) (version_id : Text)
      (values : VersionValues) (path : ℕ)
      → occurrences path (storage_paths c.version) ≡ 0
      → occurrences path (commit_version c bucket key draw version_id values).1 ≡ 0
  unfolding commit_version commit_at
  replaced-unused c bucket key draw version_id values path h =
      let shared =
        occurrences-filter
          (replaced_by (upsert_object c bucket.guid key draw.object_guid).0.guid version_id) path
          c.version in
      omega arith

  -- After a put that succeeds, a read of the key finds a version with the id that was answered and
  -- the size and digest of the payload, and its payload reads back as the chunks that were sent,
  -- joined - for a data key of 32 bytes, an IV of 16, a nonce of 12, a blob path that no version refers to, and a
  -- descriptor that is not the empty text.
  pub read-put :
      (s : State) (params : PutParams) (blob : Draw) (draw : VersionDraw) (result : PutObjectResult)
      → (put crypto md5 enabled decode_base64 s params blob draw).1 ≡ ok result
      → length blob.key ≡ 32
      → length blob.iv ≡ 16
      → length blob.nonce ≡ 12
      → occurrences blob.path (storage_paths s.tables.catalog.version) ≡ 0
      → result.encryption ≢ some []
      → let s' = (put crypto md5 enabled decode_base64 s params blob draw).0 in
        (version : ObjectVersionRow) × (get_version s'.tables.catalog params.bucket.guid params.key
            none
          ≡ ok version)
        × (version.version_id ≡ result.version_id)
        × (version.size ≡ length (flatten params.stream.chunks))
        × (version.etag ≡ md5 (flatten params.stream.chunks))
        × (read_version crypto md5 enabled decode_base64 s' version none
            ≡ some (ok (flatten params.stream.chunks)))
  unfolding put_commit read_version
  read-put s params blob draw result h key32 iv16 nonce12 unused full =
      let (written, stored_it, after, answered) = put-ok s params blob draw result h in
      let (sized, digested, readable) =
        read-write crypto blob key32 iv16 nonce12 md5 enabled s.files params.stream params.max_bytes
          written stored_it in
      let version_id = next_version_id params.bucket.versioning draw.version_id in
      let values = values_of crypto md5 enabled decode_base64 params written in
      let latest =
        get_version-commit_new s.tables.catalog params.bucket params.key draw version_id values in
      let replaced =
        (commit_version s.tables.catalog params.bucket params.key draw version_id values).1 in
      let files = (write crypto md5 enabled s.files blob params.stream params.max_bytes).0 in
      let at_path =
        storage_path-write crypto md5 enabled decode_base64 s.files blob params.stream
          params.max_bytes stored_it in
      let kept : occurrences written.storage_path replaced ≡ 0 =
        replaced-unused s.tables.catalog params.bucket params.key draw version_id values
          written.storage_path (rw at_path unused) in
      let descriptor =
        to_blob_encryption-columns written.encryption
          (λ e. full (ap (λ (r : PutObjectResult). r.encryption) answered ∙ e)) in
      (
        new_version
            (upsert_object s.tables.catalog params.bucket.guid params.key draw.object_guid).0.guid
            draw version_id values,
        rw after latest,
        rw answered refl,
        sized,
        digested,
        rw after (
            rw descriptor (
              ap some (
                read-lookup (delete_blobs replaced files) files written.storage_path none
                  written.encryption (lookup-delete_blobs replaced written.storage_path files kept)
                ∙ readable))),
      )
