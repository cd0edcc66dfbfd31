-- ===== src/Prelude/Text.antt =====
-- Strings as lists of UTF-16 code units, which is what JavaScript's `length`, `slice` and regular
-- expressions without the `u` flag count.
use Prim.Native.Nat.{ℕ, zero, suc, ◌+◌, ◌-◌, ◌*◌, ◌/◌, ◌%◌}
use Prim.Native.Char.{code}
use Prim.Native.String.{String}
use mathlib.Core.Path.{◌≡◌, refl, sym, ap, ◌∙◌}
use mathlib.Core.Bool.{Bool, true, false, ◌&&◌, ◌||◌}
use mathlib.Core.Logic.{◌↔◌, inl, inr}
use mathlib.Core.List.{List, [], ◌∷◌, ◌++◌, append-nil, append_assoc}
use native.Mathlib.Omega.{arith}
use simple_storage_service.Prelude.Tests.{ltb, leb, ◌==◌, ==_iff, if◌then◌else◌, Bool-cases}
use simple_storage_service.Prelude.Lists.{length, drop, take, any, All}

abbrev pub Text : Type 0
Text = List ℕ

-- A literal of the source: its code units, for literals in the basic plane.
unfoldable pub str : String → Text
str String.[] = []
str (String.◌∷◌ c s) = code c ∷ str s

-- `===` on strings.
unfoldable pub text_eq : Text → Text → Bool
text_eq [] [] = true
text_eq [] (y ∷ ys) = false
text_eq (x ∷ xs) [] = false
text_eq (x ∷ xs) (y ∷ ys) = (x == y) && text_eq xs ys

pub text_eq_iff : (xs ys : Text) → (text_eq xs ys ≡ true) ↔ (xs ≡ ys)
unfolding text_eq
text_eq_iff [] [] = ground arith
text_eq_iff [] (y ∷ ys) = ground arith
text_eq_iff (x ∷ xs) [] = ground arith
text_eq_iff (x ∷ xs) (y ∷ ys) = ground (arith, text_eq_iff xs ys)

pub text_eq_refl : (xs : Text) → text_eq xs xs ≡ true
text_eq_refl xs = (text_eq_iff xs xs).1 refl

-- `list.includes(text)`.
unfoldable pub includes : List Text → Text → Bool
includes list text = any (λ item. text_eq item text) list

unfoldable pub starts_with : Text → Text → Bool
starts_with text [] = true
starts_with [] (p ∷ ps) = false
starts_with (c ∷ cs) (p ∷ ps) = (c == p) && starts_with cs ps

unfoldable pub ends_with : Text → Text → Bool
ends_with text suffix =
    leb (length suffix) (length text) && text_eq (drop (length text - length suffix) text) suffix

-- `text.slice(0, -count)`.
abbrev pub drop_last : ℕ → Text → Text
drop_last count text = take (length text - count) text

-- `text.includes(part)` for a part of any length.
unfoldable pub contains : Text → Text → Bool
contains [] part = starts_with [] part
contains (c ∷ cs) part = starts_with (c ∷ cs) part || contains cs part

-- `text.split(separator)` for a separator of one code unit; never the empty list.
unfoldable pub split_from : Text → ℕ → Text → List Text
split_from piece sep [] = piece ∷ []
split_from piece sep (c ∷ cs) =
    let closed = piece ∷ split_from [] sep cs in
    let longer = split_from (piece ++ c ∷ []) sep cs in if c == sep then closed else longer

unfoldable pub split : ℕ → Text → List Text
unfolding split_from
split sep text = split_from [] sep text

-- No unit of a text is the separator.
abbrev pub Lacks : ℕ → Text → Type 0
Lacks sep text = All (λ c. (c == sep) ≡ false) text

split_from-piece :
    (sep : ℕ) (piece text rest : Text)
    → Lacks sep text
    → split_from piece sep (text ++ rest) ≡ split_from (piece ++ text) sep rest
unfolding split_from
split_from-piece sep piece [] rest h = rw append-nil refl
split_from-piece sep piece (c ∷ cs) rest (other, others) = rw other (
    split_from-piece sep (piece ++ c ∷ []) cs rest others
    ∙ ap (λ (p : Text). split_from p sep rest) (append_assoc piece (c ∷ []) cs))

pub split-last : (sep : ℕ) (text : Text) → Lacks sep text → split sep text ≡ text ∷ []
unfolding split split_from
split-last sep text h =
    ap (split_from [] sep) (sym (append-nil text)) ∙ split_from-piece sep [] text [] h

pub split-piece :
    (sep : ℕ) (left right : Text)
    → Lacks sep left
    → split sep (left ++ sep ∷ right) ≡ left ∷ split sep right
unfolding split split_from
split-piece sep left right h =
    let here : (sep == sep) ≡ true = (==_iff sep sep).1 refl in
    split_from-piece sep [] left (sep ∷ right) h ∙ rw here refl

-- `pieces.join(separator)`.
unfoldable pub join : Text → List Text → Text
join sep [] = []
join sep (piece ∷ []) = piece
join sep (piece ∷ next ∷ rest) = piece ++ (sep ++ join sep (next ∷ rest))

pub split-join :
    (sep : ℕ) (piece : Text) (pieces : List Text)
    → All (Lacks sep) (piece ∷ pieces)
    → split sep (join (sep ∷ []) (piece ∷ pieces)) ≡ piece ∷ pieces
unfolding join
split-join sep piece [] (first, rest) = split-last sep piece first
split-join sep piece (next ∷ pieces) (first, rest) =
    split-piece sep piece (join (sep ∷ []) (next ∷ pieces)) first
    ∙ ap (λ (t : List Text). piece ∷ t) (split-join sep next pieces rest)

pub Lacks-append :
    (sep : ℕ) (left right : Text) → Lacks sep left → Lacks sep right → Lacks sep (left ++ right)
Lacks-append sep [] right h k = k
Lacks-append sep (c ∷ cs) right (other, others) k = (other, Lacks-append sep cs right others k)

pub join-Lacks :
    (sep glue : ℕ) (pieces : List Text)
    → (glue == sep) ≡ false
    → All (Lacks sep) pieces
    → Lacks sep (join (glue ∷ []) pieces)
unfolding join
join-Lacks sep glue [] other all = tt
join-Lacks sep glue (piece ∷ []) other (first, rest) = first
join-Lacks sep glue (piece ∷ next ∷ pieces) other (first, rest) =
    Lacks-append sep piece _ first (other, join-Lacks sep glue (next ∷ pieces) other rest)

pub split-cons :
    (sep : ℕ) (text : Text)
    → (piece : Text) × (pieces : List Text) × (split sep text ≡ piece ∷ pieces)
unfolding split split_from
split-cons sep text = first [] text
  where
    first :
        (piece text : Text) → (p : Text) × (ps : List Text) × (split_from piece sep text ≡ p ∷ ps)
    first piece [] = (piece, [], refl)
    first piece (c ∷ cs) = elim (Bool-cases (c == sep)) [
      | inl here ↦ rw here (piece, split_from [] sep cs, refl)
      | inr other ↦ rw other (first (piece ++ c ∷ []) cs)
    ]

-- `/\d/` and the digits of a number in base ten.
abbrev pub is_digit : ℕ → Bool
is_digit c = leb b'0' c && leb c b'9'

unfoldable pub decimal_from : ℕ → Text → ℕ
decimal_from n [] = n
decimal_from n (c ∷ cs) = decimal_from (n * 10 + (c - b'0')) cs

unfoldable pub decimal : Text → ℕ
unfolding decimal_from
decimal text = decimal_from 0 text

-- A number in base ten, as a template literal prints it: the digits in front of those at hand.
unfoldable pub digits_before : ℕ → ℕ → Text → Text
digits_before zero n text = text
digits_before (suc fuel) n text =
    let rest = digits_before fuel (n / 10) ((b'0' + n % 10) ∷ text) in
    if ltb n 10 then (b'0' + n) ∷ text else rest

-- A number has no more digits than itself and one.
unfoldable pub to_decimal : ℕ → Text
unfolding digits_before
to_decimal n = digits_before (suc n) n []

-- `toLowerCase` on the letters A to Z; see the header of Lib.antt.
unfoldable pub lower_unit : ℕ → ℕ
lower_unit c = if leb b'A' c && leb c b'Z' then c + 32 else c

-- `String.prototype.trim` on the white space that an HTTP header can hold.
abbrev pub is_space : ℕ → Bool
is_space c = (c == 32) || (leb 9 c && leb c 13)

unfoldable pub trim_start : Text → Text
trim_start [] = []
trim_start (c ∷ cs) = if is_space c then trim_start cs else c ∷ cs
