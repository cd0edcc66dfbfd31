-- ===== src/Storage/Blobs/Concat.antt =====
-- `concat` of libs/domains/src/storage/storage.service.ts: the parts of an upload as one blob.
use simple_storage_service.Prelude.{
  ℕ, ◌≡◌, ◌≢◌, refl, ◌∙◌, Bool, Option, none, List, [], ◌∷◌, arith,
}
use simple_storage_service.Prelude.Lists.{length, flatten}
use simple_storage_service.Prelude.Text.{Text}
use simple_storage_service.Prelude.Result.{ok}
use simple_storage_service.Prelude.Table.{lookup, lookup-upsert}
use simple_storage_service.Storage.Cipher.{Bytes, Crypto}
use simple_storage_service.Storage.Blobs.{
  Files, Draw, WriteResult, seal, stored, read, read_all, concat,
}
use simple_storage_service.Storage.Blobs.Roundtrip.{read_blob-seal, read-stored}

module _ (crypto : Crypto) (md5 : Bytes → Text) (enabled : Bool) where
  -- Every source reads as the plaintext beside it.
  abbrev pub AllRead : Files → List (ℕ × Option Text) → List Bytes → Type 0
  AllRead files [] [] = Unit {0}
  AllRead files ((path, encryption) ∷ sources) (plain ∷ plains) =
      (read crypto md5 enabled files path none encryption ≡ ok plain) × AllRead files sources plains
  AllRead files [] (plain ∷ plains) = ⊥
  AllRead files (source ∷ sources) [] = ⊥

  pub read_all-flatten :
      (files : Files) (sources : List (ℕ × Option Text)) (plains : List Bytes)
      → AllRead files sources plains
      → read_all crypto md5 enabled files sources ≡ ok (flatten plains)
  unfolding read_all
  read_all-flatten files [] [] all = refl
  read_all-flatten files [] (plain ∷ plains) all = absurd all
  read_all-flatten files (source ∷ sources) [] all = absurd all
  read_all-flatten files ((path, encryption) ∷ sources) (plain ∷ plains) (first, rest) =
      rw (first, read_all-flatten files sources plains rest) refl

  pub concat-ok :
      (files : Files) (draw : Draw) (sources : List (ℕ × Option Text)) (plain : Bytes)
      → read_all crypto md5 enabled files sources ≡ ok plain
      → concat crypto md5 enabled files draw sources ≡ (
        (stored crypto md5 enabled draw plain (length plain) files).0,
        ok (stored crypto md5 enabled draw plain (length plain) files).1,
      )
  unfolding concat
  concat-ok files draw sources plain h = rw (h, concat) refl

  pub lookup-stored_other :
      (files : Files) (draw : Draw) (plain : Bytes) (path : ℕ)
      → path ≢ draw.path
      → lookup path (stored crypto md5 enabled draw plain (length plain) files).0
        ≡ lookup path files
  unfolding stored
  lookup-stored_other files draw plain path other =
      ground (arith, lookup-upsert draw.path path (seal crypto md5 enabled draw plain).0 files)

  pub read-stored_plain :
      (files : Files) (draw : Draw) (plain : Bytes)
      → length draw.key ≡ 32
      → length draw.iv ≡ 16
      → length draw.nonce ≡ 12
      → let (files', result) = stored crypto md5 enabled draw plain (length plain) files in
        read crypto md5 enabled files' result.storage_path none result.encryption ≡ ok plain
  unfolding stored
  read-stored_plain files draw plain key_length iv_length nonce_length =
      read-stored crypto draw md5 enabled files plain none _
      ∙ read_blob-seal crypto draw key_length iv_length nonce_length md5 enabled plain

  -- A concatenation of blobs that can be read succeeds, reports the size of the whole and the drawn path, reads back
  -- as their plaintexts joined in the order asked, and leaves the other blobs as they were; for a
  -- data key of 32 bytes, an IV of 16 and a nonce of 12.
  pub read-concat :
      (files : Files) (draw : Draw) (sources : List (ℕ × Option Text)) (plains : List Bytes)
      → AllRead files sources plains
      → length draw.key ≡ 32
      → length draw.iv ≡ 16
      → length draw.nonce ≡ 12
      → let (files', outcome) = concat crypto md5 enabled files draw sources in
        (result : WriteResult) × (outcome ≡ ok result)
        × (result.size ≡ length (flatten plains))
        × (result.storage_path ≡ draw.path)
        × (read crypto md5 enabled files' result.storage_path none result.encryption
            ≡ ok (flatten plains))
        × ((path : ℕ) → path ≢ draw.path → lookup path files' ≡ lookup path files)
  unfolding stored
  read-concat files draw sources plains all key_length iv_length nonce_length =
      let joined =
        concat-ok files draw sources (flatten plains) (read_all-flatten files sources plains all) in
      rw joined (
        (stored crypto md5 enabled draw (flatten plains) (length (flatten plains)) files).1,
        refl,
        refl,
        refl,
        read-stored_plain files draw (flatten plains) key_length iv_length nonce_length,
        λ path other. lookup-stored_other files draw (flatten plains) path other,
      )
