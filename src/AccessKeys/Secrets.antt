-- ===== src/AccessKeys/Secrets.antt =====
-- `encrypt` and `decrypt` of libs/domains/src/cryptographic/cryptographic.service.ts.
use simple_storage_service.Prelude.{◌<◌, ◌≡◌, refl, ap, ◌∙◌, some, List, [], ◌∷◌, ◌++◌, arith}
use simple_storage_service.Prelude.Lists.{length}
use simple_storage_service.Prelude.Text.{Text, join, Lacks, split-piece, split-last}
use simple_storage_service.Prelude.Result.{ok}
use simple_storage_service.Storage.Cipher.{Bytes}
use simple_storage_service.AccessKeys.{Gcm, encrypt, open_parts, or_malformed, decrypt}

-- What the documentation of Node's `crypto` and `Buffer` says of them.
pub record IsGcm (gcm : Gcm) : Type 0 where
  pub unseal-seal :
      (iv : Bytes) (plain : Text)
      → gcm.unseal iv (gcm.seal iv plain).0 (gcm.seal iv plain).1 ≡ some plain
  pub tag_length : (iv : Bytes) (plain : Text) → length (gcm.seal iv plain).0 ≡ 16
  pub seal_pos : (iv : Bytes) (plain : Text) → 0 < length plain → 0 < length (gcm.seal iv plain).1
  pub decode-encode : (bytes : Bytes) → gcm.decode (gcm.encode bytes) ≡ bytes
  pub encode_pos : (bytes : Bytes) → 0 < length bytes → 0 < length (gcm.encode bytes)
  pub no_dot : (bytes : Bytes) → Lacks b'.' (gcm.encode bytes)

open_three :
    (gcm : Gcm) (i t d : Text)
    → 0 < length i
    → 0 < length t
    → 0 < length d
    → open_parts gcm (i ∷ t ∷ d ∷ []) ≡ gcm.unseal (gcm.decode i) (gcm.decode t) (gcm.decode d)
unfolding open_parts
open_three gcm [] t d hi ht hd = absurd (omega arith)
open_three gcm (i ∷ is) [] d hi ht hd = absurd (omega arith)
open_three gcm (i ∷ is) (t ∷ ts) [] hi ht hd = absurd (omega arith)
open_three gcm (i ∷ is) (t ∷ ts) (d ∷ ds) hi ht hd = refl

-- What was encrypted is decrypted again, for a text and a nonce that are not empty.
pub decrypt-encrypt :
    (gcm : Gcm) (iv : Bytes) (plain : Text)
    → IsGcm gcm
    → 0 < length iv
    → 0 < length plain
    → decrypt gcm (encrypt gcm iv plain) ≡ ok plain
unfolding decrypt encrypt join or_malformed
decrypt-encrypt gcm iv plain laws some_iv some_plain =
    let i = gcm.encode iv in
    let t = gcm.encode (gcm.seal iv plain).0 in
    let d = gcm.encode (gcm.seal iv plain).1 in
    let parts =
      split-piece b'.' i (t ++ b'.' ∷ d) (laws.no_dot iv)
      ∙ ap (λ (p : List Text). i ∷ p)
          (split-piece b'.' t d (laws.no_dot (gcm.seal iv plain).0)
            ∙ ap (λ (p : List Text). t ∷ p)
                (split-last b'.' d (laws.no_dot (gcm.seal iv plain).1))) in
    let tagged = laws.tag_length iv plain in
    let opened =
      open_three gcm i t d (laws.encode_pos iv some_iv)
        (laws.encode_pos (gcm.seal iv plain).0 (omega arith))
        (laws.encode_pos (gcm.seal iv plain).1 (laws.seal_pos iv plain some_plain)) in
    let plain_again : open_parts gcm (i ∷ t ∷ d ∷ []) ≡ some plain =
      opened
      ∙ (rw
          (
            laws.decode-encode iv,
            laws.decode-encode (gcm.seal iv plain).0,
            laws.decode-encode (gcm.seal iv plain).1,
          )
          (laws.unseal-seal iv plain)) in
    ap or_malformed (ap (open_parts gcm) parts ∙ plain_again)
