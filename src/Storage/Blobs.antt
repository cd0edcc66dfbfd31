-- ===== src/Storage/Blobs.antt =====
-- `write`, `read`, `delete` and `concat` of libs/domains/src/storage/storage.service.ts.
pub mod Roundtrip
pub mod Concat
use simple_storage_service.Prelude.{
  ℕ, ◌+◌, ◌-◌, Bool, true, false, Option, none, some, List, [], ◌∷◌, ◌++◌,
}
use simple_storage_service.Prelude.Tests.{ltb, if◌then◌else◌}
use simple_storage_service.Prelude.Lists.{flatten, length, take, drop}
use simple_storage_service.Prelude.Text.{Text}
use simple_storage_service.Prelude.Result.{Result, ok, err, ◌>>=◌}
use simple_storage_service.Prelude.Table.{Table, lookup, upsert, remove}
use simple_storage_service.Storage.Cipher.{
  Bytes, Crypto, StorageError, blob_not_found, payload_too_large, source_failed, BlobKey,
  create_key, open_key, aligned_offset, decrypt_stages,
}

abbrev pub Files : Type 0
Files = Table Bytes

-- A `Readable`: the chunks that arrive, and whether it ends rather than fails behind them.
pub record Source : Type 0 where
  pub chunks : List Bytes
  pub ends : Bool

-- What the service draws at random for one blob: its path, data key, IV and wrapping nonce.
pub record Draw : Type 0 where
  pub path : ℕ
  pub key : Bytes
  pub iv : Bytes
  pub nonce : Bytes

-- `encryption` is the wrapped key, for the one algorithm there is; `none` is in the clear.
pub record WriteResult : Type 0 where
  pub storage_path : ℕ
  pub size : ℕ
  pub etag : Text
  pub encryption : Option Text

pub record ReadRange : Type 0 where
  pub start : ℕ
  pub end : ℕ

-- The `data` listener: the size so far against the ceiling, chunk by chunk; `none` is a source
-- destroyed for its size.
unfoldable pub measure : Option ℕ → ℕ → List Bytes → Option ℕ
measure max_bytes size [] = some size
measure max_bytes size (chunk ∷ chunks) =
    let rest = measure max_bytes (size + length chunk) chunks in
    elim max_bytes [ none ↦ rest | some max ↦ if ltb max (size + length chunk) then none else rest ]

-- `rm` with `force`: a missing blob is no failure.
unfoldable pub delete : Files → ℕ → Files
delete files path = remove path files

-- `md5` is the digest of Node's `crypto`, in hexadecimal.
module _ (crypto : Crypto) (md5 : Bytes → Text) (enabled : Bool) where
  -- The bytes on the disk and the descriptor, for a plaintext.
  unfoldable pub seal : Draw → Bytes → Bytes × Option Text
  seal draw plain =
      let blob_key = create_key crypto draw.key draw.iv draw.nonce in
      if enabled
      then (crypto.ctr blob_key.key blob_key.iv plain, some blob_key.wrapped_key)
      else (plain, none)

  unfoldable pub stored : Draw → Bytes → ℕ → Files → Files × WriteResult
  stored draw plain size files =
      let (bytes, encryption) = seal draw plain in
      (
        upsert draw.path bytes files,
        record { storage_path = draw.path; size = size; etag = md5 plain; encryption = encryption },
      )

  -- The partial blob of a failed write is removed again.
  unfoldable pub write : Files → Draw → Source → Option ℕ → Files × Result StorageError WriteResult
  unfolding measure stored
  write files draw source max_bytes = elim (measure max_bytes 0 source.chunks) [
    | none ↦ (remove draw.path files, err payload_too_large)
    | some size ↦
        if source.ends
        then (let (files', result) = stored draw (flatten source.chunks) size files in
            (files', ok result))
        else (remove draw.path files, err source_failed)
  ]

  -- `createReadStream` with a range, both ends included.
  unfoldable pub slice : ℕ → ℕ → Bytes → Bytes
  slice start end bytes = take (end + 1 - start) (drop start bytes)

  unfoldable pub read_blob : Bytes → Option ReadRange → Option Text → Result StorageError Bytes
  read_blob bytes none none = ok bytes
  read_blob bytes (some range) none = ok (slice range.start range.end bytes)
  read_blob bytes none (some wrapped_key) = do
    blob_key ← open_key crypto wrapped_key
    ok (decrypt_stages crypto blob_key 0 bytes)
  read_blob bytes (some range) (some wrapped_key) = do
    blob_key ← open_key crypto wrapped_key
    ok (
        decrypt_stages crypto blob_key range.start
          (slice (aligned_offset range.start) range.end bytes))

  unfoldable pub read : Files → ℕ → Option ReadRange → Option Text → Result StorageError Bytes
  unfolding read_blob slice
  read files path range encryption = elim (lookup path files) [
    | none ↦ err blob_not_found
    | some bytes ↦ read_blob bytes range encryption
  ]

  -- The parts of `concat`, each decrypted with its own key, one behind the other.
  unfoldable pub read_all : Files → List (ℕ × Option Text) → Result StorageError Bytes
  read_all files [] = ok []
  read_all files ((path, encryption) ∷ sources) = do
    plain ← read files path none encryption
    rest ← read_all files sources
    ok (plain ++ rest)

  -- One cipher stage for the whole output; a failure removes the target.
  unfoldable pub concat :
      Files → Draw → List (ℕ × Option Text) → Files × Result StorageError WriteResult
  unfolding stored
  concat files draw sources = elim (read_all files sources) [
    | err e ↦ (remove draw.path files, err e)
    | ok plain ↦
        (let (files', result) = stored draw plain (length plain) files in (files', ok result))
  ]
