-- ===== src/Storage/Cipher/Wrapping.antt =====
-- `wrap` and `unwrap` of libs/domains/src/storage/storage.cipher.ts.
use simple_storage_service.Prelude.{◌<◌, ◌≡◌, refl, ap, ◌∙◌, List, [], ◌∷◌, ◌++◌, arith}
use simple_storage_service.Prelude.Lists.{length}
use simple_storage_service.Prelude.Text.{Text, join, split-piece, split-last}
use simple_storage_service.Prelude.Result.{ok}
use simple_storage_service.Storage.Cipher.{Bytes, Crypto, wrap, or_invalid, unwrap_parts, unwrap}

module _ (crypto : Crypto) where
  unwrap_three :
      (i t d : Text)
      → 0 < length i
      → 0 < length t
      → 0 < length d
      → unwrap_parts crypto (i ∷ t ∷ d ∷ [])
        ≡ or_invalid crypto (crypto.unseal (crypto.decode i) (crypto.decode t) (crypto.decode d))
  unfolding unwrap_parts
  unwrap_three [] t d hi ht hd = absurd (omega arith)
  unwrap_three (i ∷ is) [] d hi ht hd = absurd (omega arith)
  unwrap_three (i ∷ is) (t ∷ ts) [] hi ht hd = absurd (omega arith)
  unwrap_three (i ∷ is) (t ∷ ts) (d ∷ ds) hi ht hd = refl

  -- What was wrapped is unwrapped again, for a material and a nonce that are not empty.
  pub unwrap-wrap :
      (nonce material : Bytes)
      → 0 < length nonce
      → 0 < length material
      → unwrap crypto (wrap crypto nonce material) ≡ ok material
  unfolding unwrap wrap join or_invalid
  unwrap-wrap nonce material some_nonce some_material =
      let tag = (crypto.seal nonce material).0 in
      let wrapped = (crypto.seal nonce material).1 in
      let i = crypto.encode nonce in
      let t = crypto.encode tag in
      let d = crypto.encode wrapped in
      let parts =
        split-piece b'.' i (t ++ b'.' ∷ d) (crypto.no_dot nonce)
        ∙ ap (λ (p : List Text). i ∷ p)
            (split-piece b'.' t d (crypto.no_dot tag)
              ∙ ap (λ (p : List Text). t ∷ p) (split-last b'.' d (crypto.no_dot wrapped))) in
      let tagged = crypto.tag_length nonce material in
      let sized = crypto.sealed_length nonce material in
      let opened =
        unwrap_three i t d (crypto.encode_pos nonce some_nonce)
          (crypto.encode_pos tag (omega arith)) (crypto.encode_pos wrapped (omega arith)) in
      ap (unwrap_parts crypto) parts
      ∙ opened
      ∙ (rw (crypto.decode-encode nonce, crypto.decode-encode tag, crypto.decode-encode wrapped)
          (ap (or_invalid crypto) (crypto.unseal-seal nonce material)))
