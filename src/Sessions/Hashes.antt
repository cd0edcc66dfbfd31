-- ===== src/Sessions/Hashes.antt =====
-- `hashPassword` and `verifyPassword` of libs/domains/src/auth/auth.service.ts.
use simple_storage_service.Prelude.{
  ℕ, ◌≡◌, ◌<◌, ◌↔◌, refl, ap, ◌∙◌, true, ◌&&◌, List, [], ◌∷◌, arith,
}
use simple_storage_service.Prelude.Tests.{◌==◌}
use simple_storage_service.Prelude.Lists.{length}
use simple_storage_service.Prelude.Text.{Text, text_eq, text_eq_iff, Lacks, split-piece, split-last}
use simple_storage_service.Storage.Cipher.{Bytes}
use simple_storage_service.Sessions.{
  Scrypt, scrypt_key_length, hash_password, verify_parts, verify_password,
}

-- What the documentation of Node's `crypto` and `Buffer` says of them.
pub record IsScrypt (scrypt : Scrypt) : Type 0 where
  pub derived_length :
      (password : Text) (salt : Bytes) (n : ℕ) → length (scrypt.derive password salt n) ≡ n
  pub decode-encode : (bytes : Bytes) → scrypt.decode (scrypt.encode bytes) ≡ bytes
  pub no_dot : (bytes : Bytes) → Lacks b'.' (scrypt.encode bytes)

verify_parts_iff :
    (scrypt : Scrypt) (password salt_part hash_part : Text)
    → 0 < length salt_part
    → 0 < length hash_part
    → verify_parts scrypt password (salt_part ∷ hash_part ∷ []) ≡ (
        (length (scrypt.decode hash_part)
          == length
              (scrypt.derive password (scrypt.decode salt_part) (length (scrypt.decode hash_part))))
        && text_eq
            (scrypt.decode hash_part)
            (scrypt.derive password (scrypt.decode salt_part) (length (scrypt.decode hash_part))))
unfolding verify_parts
verify_parts_iff scrypt password [] hash_part some_salt some_hash = absurd (omega arith)
verify_parts_iff scrypt password (s ∷ ss) [] some_salt some_hash = absurd (omega arith)
verify_parts_iff scrypt password (s ∷ ss) (h ∷ hs) some_salt some_hash = refl

-- A stored hash admits exactly the passwords that derive the same key from its salt, the password
-- that it was made of among them, where base64 of the salt and the key is not empty.
pub verify_password-hash_password :
    (scrypt : Scrypt)
    → IsScrypt scrypt
    → (password attempt : Text) (salt : Bytes) → 0 < length (scrypt.encode salt)
    → 0 < length (scrypt.encode (scrypt.derive password salt scrypt_key_length))
    → (verify_password scrypt attempt (hash_password scrypt password salt) ≡ true) ↔ (
        scrypt.derive password salt scrypt_key_length
        ≡ scrypt.derive attempt salt scrypt_key_length)
unfolding verify_password hash_password
verify_password-hash_password scrypt laws password attempt salt some_salt some_hash =
    let key = scrypt.derive password salt scrypt_key_length in
    let parts =
      split-piece b'.' (scrypt.encode salt) (scrypt.encode key) (laws.no_dot salt)
      ∙ ap (λ (t : List Text). scrypt.encode salt ∷ t)
          (split-last b'.' (scrypt.encode key) (laws.no_dot key)) in
    let len = laws.derived_length password salt scrypt_key_length in
    let len' = laws.derived_length attempt salt scrypt_key_length in
    let same : (64 == 64) ≡ true = refl in
    rw
      (
        parts,
        verify_parts_iff scrypt attempt _ _ some_salt some_hash,
        laws.decode-encode key,
        laws.decode-encode salt,
        len,
        len',
      )
      (text_eq_iff key (scrypt.derive attempt salt scrypt_key_length))
