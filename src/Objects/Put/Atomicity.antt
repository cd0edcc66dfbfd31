-- ===== src/Objects/Put/Atomicity.antt =====
-- What a `put` that fails leaves behind.
use simple_storage_service.Prelude.{ℕ, ◌≡◌, ap, sym, ◌∙◌, refl, Bool, Option, none, arith, inl, inr}
use native.Mathlib.Decide.{ℕ_discrete}
use simple_storage_service.Prelude.Text.{Text}
use simple_storage_service.Prelude.Result.{ok, err, Result-cases}
use simple_storage_service.Prelude.Table.{lookup, lookup-remove}
use simple_storage_service.Storage.Cipher.{Bytes, Crypto, StorageError}
use simple_storage_service.Storage.Blobs.{Files, Source, Draw, WriteResult, write, delete, stored}
use simple_storage_service.Storage.Blobs.Roundtrip.{lookup-write, write-result}
use simple_storage_service.Objects.{VersionDraw}
use simple_storage_service.Objects.Put.{
  PutError, State, PutParams, check_announced, check_written, put_written, put,
}

module _ (crypto : Crypto) (md5 : Bytes → Text) (enabled : Bool)
    (decode_base64 : Text → Bytes) where
  pub storage_path-write :
      (files : Files) (draw : Draw) (source : Source) (max_bytes : Option ℕ) {written : WriteResult}
      → (write crypto md5 enabled files draw source max_bytes).1 ≡ ok written
      → written.storage_path ≡ draw.path
  unfolding stored
  storage_path-write files draw source max_bytes {written} h =
      ap (λ (w : WriteResult). w.storage_path)
        (write-result crypto draw md5 enabled files source max_bytes written h).1

  -- The blobs behind a write whose own blob is gone again.
  blobs_kept :
      (files : Files) (blob : Draw) (source : Source) (max_bytes : Option ℕ) (error : StorageError)
      → (write crypto md5 enabled files blob source max_bytes).1 ≡ err error
      → lookup blob.path files ≡ none
      → (path : ℕ)
      → lookup path (write crypto md5 enabled files blob source max_bytes).0 ≡ lookup path files
  blobs_kept files blob source max_bytes error failed unused path =
      let (others, own) = lookup-write crypto md5 enabled files blob source max_bytes in
      elim (ℕ_discrete path blob.path) [
        | yes same ↦ rw same (own error failed ∙ sym unused)
        | no other ↦ others path other
      ]

  blobs_deleted :
      (files : Files) (blob : Draw) (source : Source) (max_bytes : Option ℕ)
      → lookup blob.path files ≡ none
      → (path : ℕ)
      → lookup path (delete (write crypto md5 enabled files blob source max_bytes).0 blob.path)
        ≡ lookup path files
  unfolding delete
  blobs_deleted files blob source max_bytes unused path =
      let (others, own) = lookup-write crypto md5 enabled files blob source max_bytes in
      let gone =
        lookup-remove blob.path path (write crypto md5 enabled files blob source max_bytes).0 in
      elim (ℕ_discrete path blob.path) [
        | yes same ↦ rw same (
            lookup-remove blob.path blob.path
              (write crypto md5 enabled files blob source max_bytes).0
            ∙ (ground arith))
        | no other ↦ gone ∙ (let kept = others path other in ground arith)
      ]

  put_written-failed :
      (s : State) (params : PutParams) (blob : Draw) (draw : VersionDraw) (error : PutError)
      → let done = write crypto md5 enabled s.files blob params.stream params.max_bytes in
        let after = put_written crypto md5 enabled decode_base64 s done.0 params draw done.1 in
        after.1 ≡ err error
        → lookup blob.path s.files ≡ none
        → (after.0.tables ≡ s.tables)
          × ((path : ℕ) → lookup path after.0.files ≡ lookup path s.files)
  unfolding put_written
  put_written-failed s params blob draw error h unused =
      elim (Result-cases (write crypto md5 enabled s.files blob params.stream params.max_bytes).1) [
        | inr (e, unwritten) ↦
            rw (unwritten, put_written)
              (refl, blobs_kept s.files blob params.stream params.max_bytes e unwritten unused)
        | inl (written, stored_it) ↦
            elim (Result-cases
              (check_written crypto md5 enabled decode_base64 s.tables params written)) [
                | inr (e, refused) ↦
                    rw (stored_it, put_written)
                      (rw (refused) (
                        refl,
                        rw
                            (storage_path-write s.files blob params.stream params.max_bytes
                              stored_it)
                            (blobs_deleted s.files blob params.stream params.max_bytes unused),
                      ))
                | inl (_, passed) ↦
                    absurd
                      (let h' = rw (stored_it, put_written) at h in let h'' = rw passed at h' in cc)
              ]
      ]

  -- A put that fails leaves the tables as they were, and every blob too, where the path drawn for
  -- the new one is not in use.
  pub put-failed :
      (s : State) (params : PutParams) (blob : Draw) (draw : VersionDraw) (error : PutError)
      → (put crypto md5 enabled decode_base64 s params blob draw).1 ≡ err error
      → lookup blob.path s.files ≡ none
      → let s' = (put crypto md5 enabled decode_base64 s params blob draw).0 in
        (s'.tables ≡ s.tables) × ((path : ℕ) → lookup path s'.files ≡ lookup path s.files)
  unfolding put
  put-failed s params blob draw error h unused =
      elim (Result-cases (check_announced crypto md5 enabled decode_base64 s.tables params)) [
        | inr (early, refused) ↦ rw (refused, put) (refl, λ path. refl)
        | inl (_, announced) ↦
            rw (announced, put)
              (put_written-failed s params blob draw error (rw (announced, put) at h) unused)
      ]
