-- ===== src/Wildcard/Regex.antt =====
-- What the regular expressions of the wildcards decide.
use simple_storage_service.Prelude.{ℕ, ◌≡◌, refl, inl, inr, true, false, not, List, [], ◌∷◌, arith}
use simple_storage_service.Prelude.Tests.{◌==◌, &&-parts, ||-parts}
use simple_storage_service.Prelude.Lists.{Exists, All}
use simple_storage_service.Prelude.Text.{Text}
use simple_storage_service.Wildcard.{Atom, literal, dot, dots, is_line_terminator, regex_test}

-- The texts of an expression: `dots` takes any run and `dot` any single one of the code units that
-- `P` admits.
pub data Glob (P : ℕ → Type 0) : List Atom → Text → Type 0 where
  done : Glob P [] []
  same :
      {c : ℕ} {atoms : List Atom} {cs : Text}
      → Glob P atoms cs
      → Glob P (literal c ∷ atoms) (c ∷ cs)
  one :
      {c : ℕ} {atoms : List Atom} {cs : Text}
      → P c
      → Glob P atoms cs
      → Glob P (dot ∷ atoms) (c ∷ cs)
  stop : {atoms : List Atom} {cs : Text} → Glob P atoms cs → Glob P (dots ∷ atoms) cs
  more :
      {c : ℕ} {atoms : List Atom} {cs : Text}
      → P c
      → Glob P (dots ∷ atoms) cs
      → Glob P (dots ∷ atoms) (c ∷ cs)

-- Not a line feed, a carriage return, a line separator or a paragraph separator.
abbrev pub OnLine : ℕ → Type 0
OnLine c =
    ((c == 10) ≡ false) × ((c == 13) ≡ false) × ((c == 0x2028) ≡ false) × ((c == 0x2029) ≡ false)

not-OnLine : (c : ℕ) → OnLine c → is_line_terminator c ≡ false
unfolding is_line_terminator
not-OnLine c h = ground arith

abbrev pub Anything : ℕ → Type 0
Anything c = Unit

OnLine-of_not : (c : ℕ) → not (is_line_terminator c) ≡ true → OnLine c
unfolding is_line_terminator
OnLine-of_not c h = ground arith

same_of_eq :
    {a c : ℕ} {atoms : List Atom} {cs : Text}
    → (a == c) ≡ true
    → Glob OnLine atoms cs
    → Glob OnLine (literal a ∷ atoms) (c ∷ cs)
same_of_eq {a} {c} {atoms} {cs} h g = let e : a ≡ c = ground arith in rw e (same g)

pub regex_test_sound :
    (atoms : List Atom) (cs : Text) → regex_test atoms cs ≡ true → Glob OnLine atoms cs
unfolding regex_test
regex_test_sound [] [] h = done
regex_test_sound [] (c ∷ cs) h = cc
regex_test_sound (literal a ∷ atoms) [] h = cc
regex_test_sound (literal a ∷ atoms) (c ∷ cs) h =
    let (e, r) = &&-parts (a == c) (regex_test atoms cs) h in
    same_of_eq e (regex_test_sound atoms cs r)
regex_test_sound (dot ∷ atoms) [] h = cc
regex_test_sound (dot ∷ atoms) (c ∷ cs) h =
    let (e, r) = &&-parts _ (regex_test atoms cs) h in
    one (OnLine-of_not c e) (regex_test_sound atoms cs r)
regex_test_sound (dots ∷ atoms) [] h = stop (regex_test_sound atoms [] h)
regex_test_sound (dots ∷ atoms) (c ∷ cs) h = elim (||-parts (regex_test atoms (c ∷ cs)) _ h) [
  | inl e ↦ stop (regex_test_sound atoms (c ∷ cs) e)
  | inr e ↦
      let (line, r) = &&-parts _ (regex_test (dots ∷ atoms) cs) e in
      more (OnLine-of_not c line) (regex_test_sound (dots ∷ atoms) cs r)
]

regex_test_stop :
    (atoms : List Atom) (cs : Text)
    → regex_test atoms cs ≡ true
    → regex_test (dots ∷ atoms) cs ≡ true
unfolding regex_test
regex_test_stop atoms [] h = h
regex_test_stop atoms (c ∷ cs) h = rw h

pub regex_test_complete :
    {atoms : List Atom} {cs : Text} → Glob OnLine atoms cs → regex_test atoms cs ≡ true
unfolding regex_test
regex_test_complete done = refl
regex_test_complete (same {c = c} g) = ground (arith, regex_test_complete g)
regex_test_complete (one {c = c} line g) = ground (arith, not-OnLine c line, regex_test_complete g)
regex_test_complete (stop {atoms = atoms} {cs = cs} g) =
    regex_test_stop atoms cs (regex_test_complete g)
regex_test_complete (more {c = c} line g) = ground (arith, not-OnLine c line, regex_test_complete g)

pub Glob-Anything : {atoms : List Atom} {cs : Text} → Glob OnLine atoms cs → Glob Anything atoms cs
Glob-Anything done = done
Glob-Anything (same g) = same (Glob-Anything g)
Glob-Anything (one line g) = one tt (Glob-Anything g)
Glob-Anything (stop g) = stop (Glob-Anything g)
Glob-Anything (more line g) = more tt (Glob-Anything g)

pub Glob-OnLine :
    {atoms : List Atom} {cs : Text} → All OnLine cs → Glob Anything atoms cs → Glob OnLine atoms cs
Glob-OnLine h done = done
Glob-OnLine h (same g) = same (Glob-OnLine h.1 g)
Glob-OnLine h (one line g) = one h.0 (Glob-OnLine h.1 g)
Glob-OnLine h (stop g) = stop (Glob-OnLine h g)
Glob-OnLine h (more line g) = more h.0 (Glob-OnLine h.1 g)

pub star_misses :
    (cs : Text) → Exists (λ c. is_line_terminator c ≡ true) cs → regex_test (dots ∷ []) cs ≡ false
unfolding regex_test
star_misses [] h = absurd h
star_misses (c ∷ cs) (inl h) = rw h
star_misses (c ∷ cs) (inr h) = rw (star_misses cs h) (ground arith)

pub star_covers : (cs : Text) → Glob Anything (dots ∷ []) cs
star_covers [] = stop done
star_covers (c ∷ cs) = more tt (star_covers cs)
