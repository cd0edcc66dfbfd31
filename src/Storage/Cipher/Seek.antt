-- ===== src/Storage/Cipher/Seek.antt =====
-- A read from the middle of an encrypted blob against a read from its start.
use simple_storage_service.Prelude.{
  ℕ, zero, suc, ◌+◌, ◌-◌, ◌*◌, ◌/◌, ◌%◌, ◌^◌, ◌≤◌, ◌<◌, ◌≡◌, refl, sym, ◌∙◌, ap, List, [], ◌∷◌,
  ◌++◌, arith, inl, inr,
}
use mathlib.Core.List.{append-nil, reverse, reverse-reverse}
use simple_storage_service.Prelude.Tests.{leb, ◌==◌, Bool-cases, leb→le}
use simple_storage_service.Prelude.Lists.{
  flatten, length, take, drop, drop-drop, drop-append_le, drop-append_ge, drop-take,
}
use simple_storage_service.Storage.Cipher.{
  Bytes, AreBytes, Crypto, BlobKey, skip, add_carry, advance_iv, aligned_offset, decrypt_stages,
  big_endian,
}
use simple_storage_service.Storage.Cipher.Counter.{big_endian-advance_iv}

-- The stage drops the first `count` bytes of the stream, however it is cut into chunks.
pub skip_lem : (count : ℕ) (chunks : List Bytes) → skip count chunks ≡ drop count (flatten chunks)
unfolding skip
skip_lem zero [] = refl
skip_lem (suc count) [] = refl
skip_lem count (chunk ∷ chunks) = elim (Bool-cases (leb count 0)) [
  | inl nothing ↦
      let z : count ≡ 0 = ground arith in rw z (ap (λ (t : Bytes). chunk ++ t) (skip_lem 0 chunks))
  | inr some_left ↦ elim (Bool-cases (leb (length chunk) count)) [
    | inl whole ↦
        rw (some_left, whole)
          (skip_lem (count - length chunk) chunks
            ∙ sym (drop-append_ge count chunk (flatten chunks) (leb→le _ _ whole)))
    | inr part ↦
        rw (some_left, part)
          (ap (λ (t : Bytes). drop count chunk ++ t) (skip_lem 0 chunks)
            ∙ sym (drop-append_le count chunk (flatten chunks) (ground arith)))
  ]
]

-- The stored bytes that a range read takes from the file: from the aligned offset to the end.
abbrev pub file_slice : ℕ → ℕ → Bytes → Bytes
file_slice start end file = take (end + 1 - aligned_offset start) (drop (aligned_offset start) file)

whole_blocks : (start : ℕ) → 16 * (aligned_offset start / 16) ≡ aligned_offset start
unfolding aligned_offset
whole_blocks start = omega arith

aligned_bounds : (start : ℕ) → (aligned_offset start ≤ start) × (start < aligned_offset start + 16)
unfolding aligned_offset
aligned_bounds start = omega arith

surplus :
    (start end : ℕ) (plain : Bytes)
    → start ≤ end
    → drop (start - aligned_offset start) (file_slice start end plain)
      ≡ take (end + 1 - start) (drop start plain)
surplus start end plain ordered =
    let (below, _) = aligned_bounds start in
    let split : end + 1 - aligned_offset start
        ≡ (start - aligned_offset start) + (end + 1 - start) =
      omega arith in
    let joined : aligned_offset start + (start - aligned_offset start) ≡ start = omega arith in
    rw split (
      drop-take (start - aligned_offset start) (end + 1 - start) (drop (aligned_offset start) plain)
      ∙ ap (take (end + 1 - start)) (
          drop-drop (start - aligned_offset start) (aligned_offset start) plain
          ∙ ap (λ (n : ℕ). drop n plain) joined))

add_carry-zero : (bytes : Bytes) → add_carry bytes 0 ≡ bytes
unfolding add_carry
add_carry-zero [] = refl
add_carry-zero (b ∷ bs) = refl

advance_iv-zero : (iv : Bytes) → advance_iv iv 0 ≡ iv
unfolding advance_iv
advance_iv-zero iv = ap reverse (add_carry-zero (reverse iv)) ∙ reverse-reverse iv

module _ (crypto : Crypto) (blob_key : BlobKey) where
  open crypto use {ctr, ctr_inverse, ctr_prefix, ctr_seek}

  aligned_read :
      (start : ℕ) (plain : Bytes)
      → length blob_key.iv ≡ 16
      → AreBytes blob_key.iv
      → ctr blob_key.key
          (advance_iv blob_key.iv (aligned_offset start / 16))
          (drop (aligned_offset start) (ctr blob_key.key blob_key.iv plain))
        ≡ drop (aligned_offset start) plain
  aligned_read start plain size bytes =
      let blocks : ℕ = aligned_offset start / 16 in
      let (value, stays_bytes, stays_long) = big_endian-advance_iv blob_key.iv blocks bytes in
      let value16 : big_endian (advance_iv blob_key.iv blocks)
          ≡ (big_endian blob_key.iv + blocks) % 2 ^ 128 =
        value ∙ ap (λ (n : ℕ). (big_endian blob_key.iv + blocks) % 256 ^ n) size in
      let sought : ctr blob_key.key (advance_iv blob_key.iv blocks)
            (drop (16 * blocks) (ctr blob_key.key blob_key.iv plain))
          ≡ drop (16 * blocks) plain =
        ctr_seek blob_key.key blob_key.iv (advance_iv blob_key.iv blocks)
          (ctr blob_key.key blob_key.iv plain) blocks size bytes value16 stays_bytes
          (stays_long ∙ size)
        ∙ ap (drop (16 * blocks)) (ctr_inverse blob_key.key blob_key.iv plain) in
      rw (whole_blocks start) at sought

  -- For a range within the plaintext, deciphering the file slice from the aligned offset and
  -- dropping the surplus gives exactly the range of the plaintext, both ends included.
  pub decrypt_stages-range :
      (start end : ℕ) (plain : Bytes)
      → start ≤ end
      → length blob_key.iv ≡ 16
      → AreBytes blob_key.iv
      → decrypt_stages crypto blob_key start
          (file_slice start end (ctr blob_key.key blob_key.iv plain))
        ≡ take (end + 1 - start) (drop start plain)
  unfolding decrypt_stages skip
  decrypt_stages-range start end plain ordered size bytes =
      let deciphered : ctr blob_key.key (advance_iv blob_key.iv (aligned_offset start / 16))
            (file_slice start end (ctr blob_key.key blob_key.iv plain))
          ≡ file_slice start end plain =
        ctr_prefix blob_key.key _ (drop (aligned_offset start) (ctr blob_key.key blob_key.iv plain))
          _
        ∙ ap (take (end + 1 - aligned_offset start)) (aligned_read start plain size bytes) in
      elim (Bool-cases (aligned_offset start == start)) [
        | inl exact ↦
            rw (exact, deciphered)
              (let none_left : start - aligned_offset start ≡ 0 = ground arith in
                ap (λ (n : ℕ). drop n (file_slice start end plain)) (sym none_left)
                ∙ surplus start end plain ordered)
        | inr inside ↦
            rw (inside, deciphered)
              (skip_lem (start - aligned_offset start) (file_slice start end plain ∷ [])
                ∙ ap (drop (start - aligned_offset start)) (append-nil (file_slice start end plain))
                ∙ surplus start end plain ordered)
      ]

  -- A read from the start deciphers the whole file.
  pub decrypt_stages-start :
      (plain : Bytes)
      → decrypt_stages crypto blob_key 0 (ctr blob_key.key blob_key.iv plain) ≡ plain
  unfolding decrypt_stages
  decrypt_stages-start plain =
      rw (advance_iv-zero blob_key.iv) (ctr_inverse blob_key.key blob_key.iv plain)
