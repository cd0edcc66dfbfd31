-- ===== src/Tests/Codec.antt =====
-- Toy encodings, a toy digest and a toy cipher for the parameters of the model.
use simple_storage_service.Prelude.{
  ℕ, zero, suc, ◌+◌, ◌-◌, ◌<◌, ◌≡◌, refl, ap, Option, some, [], ◌∷◌, ◌++◌, map, arith,
}
use simple_storage_service.Prelude.Lists.{length}
use simple_storage_service.Prelude.Text.{Text, Lacks}
use simple_storage_service.Storage.Cipher.{Bytes}
use simple_storage_service.Sessions.{Scrypt}
use simple_storage_service.Sessions.Hashes.{IsScrypt}
use simple_storage_service.AccessKeys.{Gcm}
use simple_storage_service.AccessKeys.Secrets.{IsGcm}
use simple_storage_service.Request.Target.Paths.{IsEncoding}

-- An encoding that moves every unit up.
abbrev pub shift : ℕ → Bytes → Text
shift by bytes = map (λ b. b + by) bytes

abbrev pub unshift : ℕ → Text → Bytes
unshift by text = map (λ c. c - by) text

pub unshift-shift : (by : ℕ) (bytes : Bytes) → unshift by (shift by bytes) ≡ bytes
unshift-shift by [] = refl
unshift-shift by (b ∷ bs) = ground (arith, unshift-shift by bs)

pub shift-Lacks : (sep by : ℕ) (bytes : Bytes) → sep < by → Lacks sep (shift by bytes)
shift-Lacks sep by [] small = tt
shift-Lacks sep by (b ∷ bs) small = (ground arith, shift-Lacks sep by bs small)

pub shift_pos : (by : ℕ) (bytes : Bytes) → 0 < length bytes → 0 < length (shift by bytes)
shift_pos by [] some_bytes = some_bytes
shift_pos by (b ∷ bs) some_bytes = omega arith

abbrev pub pad : ℕ → Bytes → Bytes
pad zero bytes = []
pad (suc n) [] = 0 ∷ pad n []
pad (suc n) (b ∷ bs) = b ∷ pad n bs

pub length-pad : (n : ℕ) (bytes : Bytes) → length (pad n bytes) ≡ n
length-pad zero bytes = refl
length-pad (suc n) [] = ground (arith, length-pad n [])
length-pad (suc n) (b ∷ bs) = ground (arith, length-pad n bs)

abbrev pub scrypt : Scrypt
scrypt = record {
  derive = λ password salt n. pad n (password ++ salt);
  encode = shift 47;
  decode = unshift 47;
}

pub scrypt-IsScrypt : IsScrypt scrypt
scrypt-IsScrypt = record {
  derived_length = λ password salt n. length-pad n (password ++ salt);
  decode-encode = unshift-shift 47;
  no_dot = λ bytes. shift-Lacks b'.' 47 bytes (omega arith);
}

abbrev pub gcm : Gcm
gcm = record {
  seal = λ iv plain. (pad 16 iv, plain);
  unseal = λ iv tag sealed. some sealed;
  encode = shift 47;
  decode = unshift 47;
}

pub gcm-IsGcm : IsGcm gcm
gcm-IsGcm = record {
  unseal-seal = λ iv plain. refl;
  tag_length = λ iv plain. length-pad 16 iv;
  seal_pos = λ iv plain some_plain. some_plain;
  decode-encode = unshift-shift 47;
  encode_pos = shift_pos 47;
  no_dot = λ bytes. shift-Lacks b'.' 47 bytes (omega arith);
}

abbrev pub unescape : Text → Option Text
unescape text = some (unshift 64 text)

pub escape-IsEncoding : IsEncoding unescape (shift 64)
escape-IsEncoding = record {
  decode-encode = λ text. ap some (unshift-shift 64 text);
  no_slash = λ text. shift-Lacks b'/' 64 text (omega arith);
  no_mark = λ text. shift-Lacks b'?' 64 text (omega arith);
}
