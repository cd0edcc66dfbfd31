-- ===== src/Storage/Blobs/Roundtrip.antt =====
-- `write` followed by `read`.
use simple_storage_service.Prelude.{
  ℕ, ◌+◌, ◌-◌, ◌≤◌, ◌≡◌, ◌≢◌, refl, sym, ◌∙◌, ap, inl, inr, Bool, true, false, Option, none, some,
  List, [], ◌∷◌, ◌++◌, arith,
}
use simple_storage_service.Prelude.Tests.{ltb, Option-cases, Bool-cases}
use simple_storage_service.Prelude.Lists.{
  flatten, length, take, drop, length-append, take-append, drop-append,
}
use simple_storage_service.Prelude.Text.{Text}
use simple_storage_service.Prelude.Result.{ok, err, ok-injective}
use simple_storage_service.Prelude.Table.{lookup, lookup-upsert, lookup-remove}
use simple_storage_service.Storage.Cipher.{
  Bytes, AreBytes, Crypto, StorageError, wrap, create_key, open_key, split_material,
}
use simple_storage_service.Storage.Cipher.Seek.{decrypt_stages-range, decrypt_stages-start}
use simple_storage_service.Storage.Cipher.Wrapping.{unwrap-wrap}
use simple_storage_service.Storage.Blobs.{
  Files, Source, Draw, WriteResult, ReadRange, measure, seal, stored, write, slice, read_blob, read,
}

-- The size measured is the sum of the chunks.
measure-some :
    (max_bytes : Option ℕ) (size : ℕ) (chunks : List Bytes) (total : ℕ)
    → measure max_bytes size chunks ≡ some total
    → total ≡ size + length (flatten chunks)
unfolding measure
measure-some max_bytes size [] total h = ground arith
measure-some none size (chunk ∷ chunks) total h =
    let rest = measure-some none (size + length chunk) chunks total h in
    let sum = length-append chunk (flatten chunks) in ground (arith)
measure-some (some max) size (chunk ∷ chunks) total h =
    elim (Bool-cases (ltb max (size + length chunk))) [
      | inl over ↦ ground arith
      | inr fits ↦
          let rest = measure-some (some max) (size + length chunk) chunks total (ground arith) in
          let sum = length-append chunk (flatten chunks) in ground arith
    ]

module _ (crypto : Crypto) (draw : Draw) (md5 : Bytes → Text) where
  pub write_complete :
      (enabled : Bool) (files : Files) (source : Source) (max_bytes : Option ℕ) (total : ℕ)
      → measure max_bytes 0 source.chunks ≡ some total
      → source.ends ≡ true
      → write crypto md5 enabled files draw source max_bytes ≡ (
          let (files', result) =
            stored crypto md5 enabled draw
              (flatten source.chunks)
              (length (flatten source.chunks))
              files in
          (files', ok result))
  unfolding write
  write_complete enabled files source max_bytes total e y =
      let sum : total ≡ length (flatten source.chunks) =
        measure-some max_bytes 0 source.chunks total e ∙ (omega arith) in
      rw (e, write) (rw (y, sum))

  pub write-ok :
      (enabled : Bool) (files : Files) (source : Source) (max_bytes : Option ℕ)
      (result : WriteResult)
      → (write crypto md5 enabled files draw source max_bytes).1 ≡ ok result
      → (total : ℕ) × (measure max_bytes 0 source.chunks ≡ some total) × (source.ends ≡ true)
  unfolding write
  write-ok enabled files source max_bytes result h =
      elim (Option-cases (measure max_bytes 0 source.chunks)) [
        | inl e ↦ absurd (ground arith)
        | inr (total, e) ↦ elim (Bool-cases source.ends) [
          | inl y ↦ (total, e, y)
          | inr n ↦ absurd (ground arith)
        ]
      ]

  pub write-result :
      (enabled : Bool) (files : Files) (source : Source) (max_bytes : Option ℕ)
      (result : WriteResult)
      → (write crypto md5 enabled files draw source max_bytes).1 ≡ ok result
      → let kept =
          stored crypto md5 enabled draw
            (flatten source.chunks)
            (length (flatten source.chunks))
            files in
        ((write crypto md5 enabled files draw source max_bytes).0 ≡ kept.0) × (result ≡ kept.1)
  write-result enabled files source max_bytes result h =
      let (total, e, y) = write-ok enabled files source max_bytes result h in
      let whole = write_complete enabled files source max_bytes total e y in
      (ap (λ w. w.0) whole, ok-injective (sym h ∙ ap (λ w. w.1) whole))

  pub lookup-stored :
      (enabled : Bool) (files : Files) (plain : Bytes)
      → lookup draw.path (stored crypto md5 enabled draw plain (length plain) files).0
        ≡ some (seal crypto md5 enabled draw plain).0
  unfolding stored
  lookup-stored enabled files plain =
      ground (arith, lookup-upsert draw.path draw.path (seal crypto md5 enabled draw plain).0 files)

  pub read-stored :
      (enabled : Bool) (files : Files) (plain : Bytes) (range : Option ReadRange)
      (encryption : Option Text)
      → read crypto md5 enabled
          (stored crypto md5 enabled draw plain (length plain) files).0
          draw.path
          range
          encryption
        ≡ read_blob crypto md5 enabled (seal crypto md5 enabled draw plain).0 range encryption
  unfolding read
  read-stored enabled files plain range encryption =
      let found = lookup-stored enabled files plain in rw (found, read)

module _ (crypto : Crypto) (draw : Draw) (key32 : length draw.key ≡ 32) (iv16 : length draw.iv ≡ 16)
    (nonce12 : length draw.nonce ≡ 12) where
  abbrev material : Bytes
  material = draw.key ++ draw.iv

  split_material-append :
      split_material crypto (wrap crypto draw.nonce material) material
      ≡ ok (create_key crypto draw.key draw.iv draw.nonce)
  unfolding split_material create_key
  split_material-append =
      let sum : length material ≡ 48 = (let e = length-append draw.key draw.iv in omega arith) in
      let front : take 32 material ≡ draw.key =
        ap (λ (n : ℕ). take n material) (sym key32) ∙ take-append draw.key draw.iv in
      let back : drop 32 material ≡ draw.iv =
        ap (λ (n : ℕ). drop n material) (sym key32) ∙ drop-append draw.key draw.iv in
      rw (sum, front, back)

  -- The key that opens the descriptor is the one that was created.
  open_key-create_key :
      open_key crypto (create_key crypto draw.key draw.iv draw.nonce).wrapped_key
      ≡ ok (create_key crypto draw.key draw.iv draw.nonce)
  unfolding open_key create_key
  open_key-create_key =
      let sum = length-append draw.key draw.iv in
      let opened = unwrap-wrap crypto draw.nonce material (omega arith) (omega arith) in
      rw (opened, open_key) split_material-append

  module _ (md5 : Bytes → Text) where
    pub read_blob-seal :
        (enabled : Bool) (plain : Bytes)
        → read_blob crypto md5 enabled
            (seal crypto md5 enabled draw plain).0
            none
            (seal crypto md5 enabled draw plain).1
          ≡ ok plain
    unfolding seal read_blob
    read_blob-seal false plain = refl
    read_blob-seal true plain =
        rw open_key-create_key (
          ap ok (decrypt_stages-start crypto (create_key crypto draw.key draw.iv draw.nonce) plain))

    read_blob-seal_range :
        (enabled : Bool) (plain : Bytes) (range : ReadRange)
        → range.start ≤ range.end
        → AreBytes draw.iv
        → read_blob crypto md5 enabled
            (seal crypto md5 enabled draw plain).0
            (some range)
            (seal crypto md5 enabled draw plain).1
          ≡ ok (slice crypto md5 enabled range.start range.end plain)
    unfolding seal read_blob slice create_key
    read_blob-seal_range false plain range ordered iv_bytes = refl
    read_blob-seal_range true plain range ordered iv_bytes = rw open_key-create_key (
        ap ok (
          decrypt_stages-range crypto (create_key crypto draw.key draw.iv draw.nonce) range.start
            range.end plain ordered iv16 iv_bytes))

    -- A write that succeeds reports the size of the data and its digest, and a read of the whole blob under the descriptor
    -- it reports gives back the chunks joined, for keys of 32 bytes, IVs of 16 and
    -- nonces of 12.
    pub read-write :
        (enabled : Bool) (files : Files) (source : Source) (max_bytes : Option ℕ)
        (result : WriteResult)
        → (write crypto md5 enabled files draw source max_bytes).1 ≡ ok result
        → (result.size ≡ length (flatten source.chunks))
          × (result.etag ≡ md5 (flatten source.chunks))
          × (read crypto md5 enabled
                (write crypto md5 enabled files draw source max_bytes).0
                result.storage_path
                none
                result.encryption
              ≡ ok (flatten source.chunks))
    unfolding stored
    read-write enabled files source max_bytes result h =
        let (kept, reported) =
          write-result crypto draw md5 enabled files source max_bytes result h in
        rw (kept, reported)
          (
            refl,
            refl,
            read-stored crypto draw md5 enabled files (flatten source.chunks) none _
                ∙ (read_blob-seal enabled (flatten source.chunks)),
          )

    -- After a write that succeeds, a read of a range under the descriptor it reports gives exactly that range of the chunks joined, both ends included, for keys of 32 bytes, IVs of 16 that are bytes, nonces of 12, and a start that is not behind the end.
    pub read-write_range :
        (enabled : Bool) (files : Files) (source : Source) (max_bytes : Option ℕ)
        (result : WriteResult) (range : ReadRange)
        → (write crypto md5 enabled files draw source max_bytes).1 ≡ ok result
        → range.start ≤ range.end
        → AreBytes draw.iv
        → read crypto md5 enabled
            (write crypto md5 enabled files draw source max_bytes).0
            result.storage_path
            (some range)
            result.encryption
          ≡ ok (take (range.end + 1 - range.start) (drop range.start (flatten source.chunks)))
    unfolding stored slice
    read-write_range enabled files source max_bytes result range h ordered iv_bytes =
        let (kept, reported) =
          write-result crypto draw md5 enabled files source max_bytes result h in
        rw (kept, reported)
          (read-stored crypto draw md5 enabled files (flatten source.chunks) (some range) _
            ∙ (read_blob-seal_range enabled (flatten source.chunks) range ordered iv_bytes))

module _ (crypto : Crypto) (md5 : Bytes → Text) (enabled : Bool) where
  -- Every write leaves the other blobs as they were; one that fails leaves no blob at its own path.
  pub lookup-write :
      (files : Files) (draw : Draw) (source : Source) (max_bytes : Option ℕ)
      → ((path : ℕ)
          → path ≢ draw.path
          → lookup path (write crypto md5 enabled files draw source max_bytes).0
            ≡ lookup path files)
        × ((error : StorageError)
            → (write crypto md5 enabled files draw source max_bytes).1 ≡ err error
            → lookup draw.path (write crypto md5 enabled files draw source max_bytes).0 ≡ none)
  unfolding write stored
  lookup-write files draw source max_bytes = (
    λ path other.
        let drop_other = lookup-remove draw.path path files in
        let set_other =
          lookup-upsert draw.path path (seal crypto md5 enabled draw (flatten source.chunks)).0
            files in
        ground arith,
    λ error h. let gone = lookup-remove draw.path draw.path files in ground arith,
  )
