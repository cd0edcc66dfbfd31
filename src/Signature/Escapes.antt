-- ===== src/Signature/Escapes.antt =====
-- The units that `uriEncode` of libs/domains/src/s3/s3.signature.service.ts escapes beyond
-- `encodeURIComponent`, and what reads them back.
use simple_storage_service.Prelude.{
  ℕ, ◌≡◌, refl, sym, ap, ◌∙◌, true, List, [], ◌∷◌, ◌++◌, arith, inl, inr,
}
use mathlib.Core.List.{append_assoc}
use simple_storage_service.Prelude.Tests.{◌==◌, Bool-cases}
use simple_storage_service.Prelude.Lists.{All}
use simple_storage_service.Prelude.Text.{Text}
use simple_storage_service.Signature.{is_mark, percent, escape_marks}

-- The five units with their percent escapes, as the character table has them: `%21`, `%27`, `%28`,
-- `%29` and `%2A`.
abbrev pub mark_escapes : List (ℕ × Text)
mark_escapes =
    (b'!', b'%' ∷ b'2' ∷ b'1' ∷ [])
    ∷ (b'\'', b'%' ∷ b'2' ∷ b'7' ∷ [])
    ∷ (b'(', b'%' ∷ b'2' ∷ b'8' ∷ [])
    ∷ (b')', b'%' ∷ b'2' ∷ b'9' ∷ [])
    ∷ (b'*', b'%' ∷ b'2' ∷ b'A' ∷ [])
    ∷ []

-- A decoder reads each of these escapes as the unit.
abbrev pub ReadsMarks : {A : Type 0} → (Text → A) → Type 0
ReadsMarks f =
    (left right : Text)
    → All (λ (pair : ℕ × Text). f (left ++ (pair.1 ++ right)) ≡ f (left ++ pair.0 ∷ right))
        mark_escapes

module _ {A : Type 0} (f : Text → A) (reads : ReadsMarks f) where
  reads-percent :
      (left right : Text) (c : ℕ)
      → is_mark c ≡ true
      → f (left ++ (percent c ++ right)) ≡ f (left ++ c ∷ right)
  unfolding percent
  reads-percent left right c mark =
      let (exclamation, (apostrophe, (opening, (closing, (star, _))))) = reads left right in
      elim (Bool-cases (c == b'!')) [
        | inl h ↦ let e : c ≡ b'!' = ground arith in rw e exclamation
        | inr not_exclamation ↦ elim (Bool-cases (c == b'\'')) [
          | inl h ↦ let e : c ≡ b'\'' = ground arith in rw e apostrophe
          | inr not_apostrophe ↦ elim (Bool-cases (c == b'(')) [
            | inl h ↦ let e : c ≡ b'(' = ground arith in rw e opening
            | inr not_opening ↦ elim (Bool-cases (c == b')')) [
              | inl h ↦ let e : c ≡ b')' = ground arith in rw e closing
              | inr not_closing ↦ let e : c ≡ b'*' = ground arith in rw e star
            ]
          ]
        ]
      ]

  -- Escaping further units does not change what is read.
  pub reads-escape_marks : (left text : Text) → f (left ++ escape_marks text) ≡ f (left ++ text)
  unfolding escape_marks
  reads-escape_marks left [] = refl
  reads-escape_marks left (c ∷ cs) =
      let behind : f (left ++ c ∷ escape_marks cs) ≡ f (left ++ c ∷ cs) =
        ap f (sym (append_assoc left (c ∷ []) (escape_marks cs)))
        ∙ reads-escape_marks (left ++ c ∷ []) cs
        ∙ ap f (append_assoc left (c ∷ []) cs) in
      elim (Bool-cases (is_mark c)) [
        | inl mark ↦ rw mark (reads-percent left (escape_marks cs) c mark ∙ behind)
        | inr plain ↦ rw plain behind
      ]
