-- ===== src/Storage/Cipher.antt =====
-- libs/domains/src/storage/storage.cipher.ts: the data key of a blob, and the stages that decrypt
-- a read from the middle of it. Bytes are numbers below 256.
pub mod Counter
pub mod Seek
pub mod Wrapping
use simple_storage_service.Prelude.{
  ℕ, zero, suc, ◌+◌, ◌-◌, ◌*◌, ◌/◌, ◌%◌, ◌^◌, ◌<◌, ◌≡◌, Bool, Option, none, some, List, [], ◌∷◌,
  ◌++◌,
}
use mathlib.Core.List.{reverse}
use simple_storage_service.Prelude.Tests.{leb, ◌==◌, if◌then◌else◌}
use simple_storage_service.Prelude.Lists.{length, take, drop, All}
use simple_storage_service.Prelude.Text.{Text, split, join, Lacks}
use simple_storage_service.Prelude.Result.{Result, ok, err, ◌>>=◌}

abbrev pub Bytes : Type 0
Bytes = List ℕ

abbrev pub AreBytes : Bytes → Type 0
AreBytes bytes = All (λ b. b < 256) bytes

-- The number that bytes spell, lowest byte first.
unfoldable pub little_endian : Bytes → ℕ
little_endian [] = 0
little_endian (b ∷ bs) = b + 256 * little_endian bs

-- Highest byte first, as CTR reads its counter.
unfoldable pub big_endian : Bytes → ℕ
big_endian bytes = little_endian (reverse bytes)

-- The loop of `advanceIv`, from the last index down; it ends early when nothing is carried.
unfoldable pub add_carry : Bytes → ℕ → Bytes
add_carry [] carry = []
add_carry (b ∷ bs) carry =
    let sum = b + carry % 256 in
    let rest = add_carry bs (carry / 256 + sum / 256) in
    if carry == 0 then b ∷ bs else sum % 256 ∷ rest

unfoldable pub advance_iv : Bytes → ℕ → Bytes
unfolding add_carry
advance_iv iv blocks = reverse (add_carry (reverse iv) blocks)

-- One chunk through the stage of `skip`, with the count of bytes still to drop.
unfoldable pub skip_chunk : ℕ → Bytes → ℕ × Bytes
skip_chunk remaining chunk =
    if leb remaining 0
    then (remaining, chunk)
    else if leb (length chunk) remaining
    then (remaining - length chunk, [])
    else (0, drop remaining chunk)

-- A whole stream through the stage.
unfoldable pub skip : ℕ → List Bytes → Bytes
unfolding skip_chunk
skip remaining [] = []
skip remaining (chunk ∷ chunks) =
    let (left, out) = skip_chunk remaining chunk in out ++ skip left chunks

-- Node's `crypto`, which this development does not implement. `ctr key iv` is the cipher of
-- `aes-256-ctr` on a whole stream, its own inverse. `prefix`, `length` and `seek` are the mode's
-- documented behaviour: it is a stream cipher, and from whole block `blocks` on it works as it does
-- from the start under the counter advanced by `blocks`, modulo 2 ^ 128. `seal` and `unseal` are
-- `aes-256-gcm` under the master key: `seal` gives the authentication tag, of 16 bytes, and the
-- data, as long as the plaintext; `unseal` takes the IV, the tag and the data, and fails where the
-- tag does not fit. `encode` and `decode` are base64, whose alphabet has no dot.
pub record Crypto : Type 0 where
  pub ctr : Bytes → Bytes → Bytes → Bytes
  pub ctr_inverse : (key iv bytes : Bytes) → ctr key iv (ctr key iv bytes) ≡ bytes
  pub ctr_prefix :
      (key iv bytes : Bytes) (n : ℕ) → ctr key iv (take n bytes) ≡ take n (ctr key iv bytes)
  pub ctr_length : (key iv bytes : Bytes) → length (ctr key iv bytes) ≡ length bytes
  pub ctr_seek :
      (key iv counter bytes : Bytes) (blocks : ℕ)
      → length iv ≡ 16
      → AreBytes iv
      → big_endian counter ≡ (big_endian iv + blocks) % 2 ^ 128
      → AreBytes counter
      → length counter ≡ 16
      → ctr key counter (drop (16 * blocks) bytes) ≡ drop (16 * blocks) (ctr key iv bytes)
  pub seal : Bytes → Bytes → Bytes × Bytes
  pub unseal : Bytes → Bytes → Bytes → Option Bytes
  pub encode : Bytes → Text
  pub decode : Text → Bytes
  pub unseal-seal : (iv plain : Bytes) → unseal iv (seal iv plain).0 (seal iv plain).1 ≡ some plain
  pub tag_length : (iv plain : Bytes) → length (seal iv plain).0 ≡ 16
  pub sealed_length : (iv plain : Bytes) → length (seal iv plain).1 ≡ length plain
  pub decode-encode : (bytes : Bytes) → decode (encode bytes) ≡ bytes
  pub encode_pos : (bytes : Bytes) → 0 < length bytes → 0 < length (encode bytes)
  pub no_dot : (bytes : Bytes) → Lacks b'.' (encode bytes)

pub data StorageError : Type 0 where
  blob_not_found payload_too_large encryption_key_invalid source_failed : StorageError

-- `BlobKey`; its descriptor is the wrapped key, for the one algorithm there is.
pub record BlobKey : Type 0 where
  pub key : Bytes
  pub iv : Bytes
  pub wrapped_key : Text

-- Where a read of plaintext byte `offset` has to start in the file.
unfoldable pub aligned_offset : ℕ → ℕ
aligned_offset offset = offset - offset % 16

module _ (crypto : Crypto) where
  -- `nonce` is the random IV of 12 bytes.
  unfoldable pub wrap : Bytes → Bytes → Text
  wrap nonce material =
      let (tag, wrapped) = crypto.seal nonce material in
      join (b'.' ∷ []) (crypto.encode nonce ∷ crypto.encode tag ∷ crypto.encode wrapped ∷ [])

  unfoldable pub or_invalid : Option Bytes → Result StorageError Bytes
  or_invalid none = err encryption_key_invalid
  or_invalid (some material) = ok material

  -- An empty part is refused, like one that is missing; parts behind the third are not read.
  unfoldable pub unwrap_parts : List Text → Result StorageError Bytes
  unfolding or_invalid
  unwrap_parts ((i ∷ is) ∷ (t ∷ ts) ∷ (d ∷ ds) ∷ rest) =
      or_invalid
        (crypto.unseal (crypto.decode (i ∷ is)) (crypto.decode (t ∷ ts)) (crypto.decode (d ∷ ds)))
  unwrap_parts _ = err encryption_key_invalid

  unfoldable pub unwrap : Text → Result StorageError Bytes
  unfolding unwrap_parts
  unwrap wrapped_key = unwrap_parts (split b'.' wrapped_key)

  -- `key` and `iv` are the random bytes drawn for the blob, and `nonce` those drawn by `wrap`.
  unfoldable pub create_key : Bytes → Bytes → Bytes → BlobKey
  unfolding wrap
  create_key key iv nonce = record { key = key; iv = iv; wrapped_key = wrap nonce (key ++ iv) }

  unfoldable pub split_material : Text → Bytes → Result StorageError BlobKey
  split_material wrapped_key material =
      if length material == 48
      then ok (record { key = take 32 material; iv = drop 32 material; wrapped_key = wrapped_key })
      else err encryption_key_invalid

  unfoldable pub open_key : Text → Result StorageError BlobKey
  unfolding unwrap split_material
  open_key wrapped_key = unwrap wrapped_key >>= split_material wrapped_key

  -- The stages of `decryptStages`: the chunks that are read from `alignedOffset` on go through the
  -- decipher and, where the offset is inside a block, through `skip`.
  unfoldable pub decrypt_stages : BlobKey → ℕ → Bytes → Bytes
  unfolding aligned_offset
  decrypt_stages blob_key offset bytes =
      let aligned = aligned_offset offset in
      let plain = crypto.ctr blob_key.key (advance_iv blob_key.iv (aligned / 16)) bytes in
      if aligned == offset then plain else skip (offset - aligned) (plain ∷ [])
