-- ===== src/Tests/Blobs.antt =====
-- The blob store over a toy cipher.
use simple_storage_service.Prelude.{
  ℕ, zero, suc, ◌+◌, ◌-◌, ◌*◌, ◌%◌, ◌^◌, ◌≡◌, refl, true, some, [], ◌∷◌, ap, ◌++◌, map, arith,
}
use simple_storage_service.Prelude.Tests.{ltb, if◌then◌else◌}
use simple_storage_service.Prelude.Lists.{length, take, drop}
use simple_storage_service.Prelude.Text.{Text}
use simple_storage_service.Prelude.Result.{ok, err}
use simple_storage_service.Tests.Codec.{
  shift, unshift, unshift-shift, shift-Lacks, shift_pos, pad, length-pad,
}
use simple_storage_service.Storage.Cipher.{
  Bytes, AreBytes, Crypto, payload_too_large, big_endian, wrap, create_key, advance_iv,
}
use simple_storage_service.Storage.Cipher.Counter.{big_endian-advance_iv}
use simple_storage_service.Storage.Blobs.{
  Source, Draw, WriteResult, measure, seal, stored, write, read,
}
use simple_storage_service.Storage.Blobs.Roundtrip.{read-write_range}

-- A cipher that complements every byte.
abbrev flip : ℕ → ℕ
flip b = if ltb b 256 then 255 - b else b

abbrev flip_all : Bytes → Bytes
flip_all bytes = map flip bytes

pub flip_inverse : (bytes : Bytes) → flip_all (flip_all bytes) ≡ bytes
flip_inverse [] = refl
flip_inverse (b ∷ bs) = ground (arith, flip_inverse bs)

pub flip_prefix : (bytes : Bytes) (n : ℕ) → flip_all (take n bytes) ≡ take n (flip_all bytes)
flip_prefix bytes zero = refl
flip_prefix [] (suc n) = refl
flip_prefix (b ∷ bs) (suc n) = rw (flip_prefix bs n)

pub flip_length : (bytes : Bytes) → length (flip_all bytes) ≡ length bytes
flip_length [] = refl
flip_length (b ∷ bs) = rw (flip_length bs)

pub flip_drop : (bytes : Bytes) (n : ℕ) → flip_all (drop n bytes) ≡ drop n (flip_all bytes)
flip_drop bytes zero = refl
flip_drop [] (suc n) = refl
flip_drop (b ∷ bs) (suc n) = flip_drop bs n

abbrev pub complement : Crypto
complement = record {
  ctr = λ key iv bytes. flip_all bytes;
  ctr_inverse = λ key iv bytes. flip_inverse bytes;
  ctr_prefix = λ key iv bytes n. flip_prefix bytes n;
  ctr_length = λ key iv bytes. flip_length bytes;
  ctr_seek =
      λ key iv counter bytes blocks long small value small' long'. flip_drop bytes (16 * blocks);
  seal = λ nonce plain. (pad 16 nonce, flip_all plain);
  unseal = λ nonce tag sealed. some (flip_all sealed);
  encode = shift 47;
  decode = unshift 47;
  unseal-seal = λ nonce plain. ap some (flip_inverse plain);
  tag_length = λ nonce plain. length-pad 16 nonce;
  sealed_length = λ nonce plain. flip_length plain;
  decode-encode = unshift-shift 47;
  encode_pos = shift_pos 47;
  no_dot = λ bytes. shift-Lacks b'.' 47 bytes (omega arith);
}

abbrev key32 : Bytes
key32 =
    1 ∷ 2 ∷ 3 ∷ 4 ∷ 5 ∷ 6 ∷ 7 ∷ 8 ∷ 9 ∷ 10 ∷ 11 ∷ 12 ∷ 13 ∷ 14 ∷ 15 ∷ 16 ∷ 1 ∷ 2 ∷ 3 ∷ 4 ∷ 5 ∷ 6 ∷ 7
    ∷ 8 ∷ 9 ∷ 10 ∷ 11 ∷ 12 ∷ 13 ∷ 14 ∷ 15 ∷ 16 ∷ []

abbrev iv16 : Bytes
iv16 = 0 ∷ 0 ∷ 0 ∷ 0 ∷ 0 ∷ 0 ∷ 0 ∷ 0 ∷ 0 ∷ 0 ∷ 0 ∷ 0 ∷ 0 ∷ 0 ∷ 1 ∷ 255 ∷ []

pub iv16-AreBytes : AreBytes iv16
iv16-AreBytes = omega arith

abbrev nonce12 : Bytes
nonce12 = 5 ∷ 4 ∷ 3 ∷ 2 ∷ 1 ∷ 0 ∷ 255 ∷ 254 ∷ 253 ∷ 252 ∷ 251 ∷ 250 ∷ []

abbrev pub draw : Draw
draw = record { path = 7; key = key32; iv = iv16; nonce = nonce12 }

abbrev pub length_of : Bytes → Text
length_of bytes = length bytes ∷ []

abbrev pub letters : Source
letters = record {
  chunks =
      (97 ∷ 98 ∷ 99 ∷ 100 ∷ 101 ∷ 102 ∷ 103 ∷ 104 ∷ 105 ∷ [])
      ∷ (106 ∷ 107 ∷ 108 ∷ 109 ∷ 110 ∷ 111 ∷ 112 ∷ 113 ∷ 114 ∷ 115 ∷ [])
      ∷ [];
  ends = true;
}

abbrev pub written : WriteResult
written = record {
  storage_path = 7;
  size = 19;
  etag = 19 ∷ [];
  encryption = some (wrap complement nonce12 (key32 ++ iv16));
}

pub write-letters : (write complement length_of true [] draw letters (some 19)).1 ≡ ok written
unfolding write measure stored seal create_key wrap
write-letters = refl

write_over_limit :
    (write complement length_of true [] draw letters (some 18)).1 ≡ err payload_too_large
unfolding write measure
write_over_limit = refl

read-write_range_example :
    read complement length_of true
      (write complement length_of true [] draw letters (some 19)).0
      7
      (some (record { start = 17; end = 18 }))
      written.encryption
    ≡ ok (114 ∷ 115 ∷ [])
read-write_range_example =
    read-write_range complement draw refl refl refl length_of true [] letters (some 19) written
      (record { start = 17; end = 18 }) write-letters (omega arith) iv16-AreBytes

big_endian-advance_iv_example :
    (big_endian (advance_iv iv16 3) ≡ (big_endian iv16 + 3) % 256 ^ 16)
    × AreBytes (advance_iv iv16 3)
    × (length (advance_iv iv16 3) ≡ 16)
big_endian-advance_iv_example = big_endian-advance_iv iv16 3 iv16-AreBytes
