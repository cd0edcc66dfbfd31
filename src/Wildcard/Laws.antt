-- ===== src/Wildcard/Laws.antt =====
-- What `wildcardMatch` decides.
use mathlib.Core.List.{map-append}
use mathlib.Core.Path.{subst}
use simple_storage_service.Prelude.{
  ℕ, ◌≡◌, refl, ◌∙◌, ◌↔◌, inl, inr, true, false, List, [], ◌∷◌, ◌++◌, map, arith,
}
use simple_storage_service.Prelude.Tests.{◌==◌, Bool-cases}
use simple_storage_service.Prelude.Lists.{Exists, All}
use simple_storage_service.Prelude.Text.{Text, str}
use simple_storage_service.Wildcard.{
  Atom, literal, dot, dots, is_line_terminator, regex_test, policy_atom, policy_wildcard_match,
}
use simple_storage_service.Wildcard.Regex.{
  Glob, done, same, one, stop, more, OnLine, Anything, regex_test_sound, regex_test_complete,
  Glob-Anything, Glob-OnLine, star_misses, star_covers,
}

-- What a pattern covers, read off its text: `*` any run and `?` any single one of the code units
-- that `P` admits, and every other unit itself.
pub data Covers (P : ℕ → Type 0) : Text → Text → Type 0 where
  end : Covers P [] []
  itself :
      {c : ℕ} {pattern_text value : Text}
      → (c == b'*') ≡ false
      → (c == b'?') ≡ false
      → Covers P pattern_text value
      → Covers P (c ∷ pattern_text) (c ∷ value)
  question :
      {c : ℕ} {pattern_text value : Text}
      → P c
      → Covers P pattern_text value
      → Covers P (b'?' ∷ pattern_text) (c ∷ value)
  star_nothing :
      {pattern_text value : Text}
      → Covers P pattern_text value
      → Covers P (b'*' ∷ pattern_text) value
  star_unit :
      {c : ℕ} {pattern_text value : Text}
      → P c
      → Covers P (b'*' ∷ pattern_text) value
      → Covers P (b'*' ∷ pattern_text) (c ∷ value)

policy_atom_itself : (c : ℕ) → (c == b'*') ≡ false → (c == b'?') ≡ false → policy_atom c ≡ literal c
unfolding policy_atom
policy_atom_itself c star mark = ground arith

Glob-Covers : {P : ℕ → Type 0} {p v : Text} → Covers P p v → Glob P (map policy_atom p) v
unfolding policy_atom
Glob-Covers end = done
Glob-Covers {P} (itself {c = c} star mark g) =
    rw (policy_atom_itself c star mark) (same (Glob-Covers g))
Glob-Covers (question h g) = one h (Glob-Covers g)
Glob-Covers (star_nothing g) = stop (Glob-Covers g)
Glob-Covers (star_unit h g) = more h (Glob-Covers g)

-- The three kinds of units, with what is covered behind them.
Covers-star :
    {P : ℕ → Type 0} {p v : Text} {atoms : List Atom}
    → ((w : Text) → Glob P (atoms) w → Covers P p w)
    → Glob P (dots ∷ atoms) v
    → Covers P (b'*' ∷ p) v
Covers-star behind (stop g) = star_nothing (behind _ g)
Covers-star behind (more h g) = star_unit h (Covers-star behind g)

Covers-question :
    {P : ℕ → Type 0} {p v : Text}
    → ((w : Text) → Glob P (map policy_atom p) w → Covers P p w)
    → Glob P (dot ∷ map policy_atom p) v
    → Covers P (b'?' ∷ p) v
Covers-question behind (one h g) = question h (behind _ g)

Covers-itself :
    {P : ℕ → Type 0} {c : ℕ} {p v : Text}
    → (c == b'*') ≡ false
    → (c == b'?') ≡ false
    → ((w : Text) → Glob P (map policy_atom p) w → Covers P p w)
    → Glob P (literal c ∷ map policy_atom p) v
    → Covers P (c ∷ p) v
Covers-itself star mark behind (same g) = itself star mark (behind _ g)

Covers-Glob : {P : ℕ → Type 0} (p : Text) {v : Text} → Glob P (map policy_atom p) v → Covers P p v
unfolding policy_atom
Covers-Glob [] done = end
Covers-Glob {P} (c ∷ p) {v} g = elim (Bool-cases (c == b'*')) [
  | inl star ↦
      let e : c ≡ b'*' = ground arith in
      rw e (
        Covers-star (λ w. Covers-Glob p)
          (subst (λ (n : ℕ). Glob P (policy_atom n ∷ map policy_atom p) v) e g))
  | inr other ↦ elim (Bool-cases (c == b'?')) [
    | inl mark ↦
        let e : c ≡ b'?' = ground arith in
        rw e (
          Covers-question (λ w. Covers-Glob p)
            (subst (λ (n : ℕ). Glob P (policy_atom n ∷ map policy_atom p) v) e g))
    | inr plain ↦
        Covers-itself other plain (λ w. Covers-Glob p)
          (subst (λ (a : Atom). Glob P (a ∷ map policy_atom p) v) (policy_atom_itself c other plain)
            g)
  ]
]

-- A policy pattern matches a value exactly when it covers it: `*` stands for any run and `?` for
-- any single one of the code units but the four line terminators, and every other unit of the
-- pattern for itself.
pub policy_wildcard_match_iff :
    (pattern_text value : Text)
    → (policy_wildcard_match pattern_text value ≡ true) ↔ Covers OnLine pattern_text value
unfolding policy_wildcard_match
policy_wildcard_match_iff p v = (
  λ e. Covers-Glob p (regex_test_sound (map policy_atom p) v e),
  λ g. regex_test_complete (Glob-Covers g),
)

-- On a value with no line terminator, a policy pattern matches exactly when the documented
-- relation holds: `*` any run of characters, `?` a single one.
pub policy_wildcard_match_single_line :
    (pattern_text value : Text)
    → All OnLine value
    → (policy_wildcard_match pattern_text value ≡ true) ↔ Covers Anything pattern_text value
policy_wildcard_match_single_line p v h = (
  λ e. Covers-Glob p (Glob-Anything (Glob-Covers ((policy_wildcard_match_iff p v).0 e))),
  λ g. (policy_wildcard_match_iff p v).1 (Covers-Glob p (Glob-OnLine h (Glob-Covers g))),
)

-- A code unit that stands for itself in a pattern.
abbrev pub IsPlain : ℕ → Type 0
IsPlain c = policy_atom c ≡ literal c

regex_test-prefix :
    (prefix : Text) (atoms : List Atom) (v : Text)
    → All IsPlain prefix
    → regex_test (map policy_atom prefix ++ atoms) (prefix ++ v) ≡ regex_test atoms v
unfolding regex_test
regex_test-prefix [] atoms v h = refl
regex_test-prefix (c ∷ cs) atoms v (plain, h) =
    rw plain (ground (arith, regex_test-prefix cs atoms v h))

Glob-prefix :
    (prefix : Text) {atoms : List Atom} {v : Text}
    → All IsPlain prefix
    → Glob Anything atoms v
    → Glob Anything (map policy_atom prefix ++ atoms) (prefix ++ v)
Glob-prefix [] h g = g
Glob-prefix (c ∷ cs) (plain, h) g = rw plain (same (Glob-prefix cs h g))

-- For a prefix without `*` and `?` and a rest that holds a line terminator, the pattern
-- `<prefix>*` does not match the value `<prefix><rest>`, although `*` is documented to match
-- any run of characters.
pub policy_wildcard_match_line_terminator :
    (prefix rest : Text)
    → All IsPlain prefix
    → Exists (λ c. is_line_terminator c ≡ true) rest
    → (policy_wildcard_match (prefix ++ str "*") (prefix ++ rest) ≡ false)
      × Covers Anything (prefix ++ str "*") (prefix ++ rest)
unfolding policy_wildcard_match str
policy_wildcard_match_line_terminator prefix rest h e = (
  rw map-append (regex_test-prefix prefix (dots ∷ []) rest h ∙ star_misses rest e),
  Covers-Glob (prefix ++ b'*' ∷ []) (rw map-append (Glob-prefix prefix h (star_covers rest))),
)
