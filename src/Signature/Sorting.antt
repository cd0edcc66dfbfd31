-- ===== src/Signature/Sorting.antt =====
-- The order of encoded parameters, and sorting by it.
use simple_storage_service.Prelude.{◌≡◌, refl, ap, ◌∙◌, true, false, List, [], ◌∷◌, arith, inl, inr}
use simple_storage_service.Prelude.Tests.{Bool-cases}
use simple_storage_service.Prelude.Lists.{All, Exists}
use simple_storage_service.Prelude.Text.{Text, text_eq}
use simple_storage_service.Signature.{text_lt, compare_encoded, insert_pair, sort_pairs}

text_eq_sym : (xs ys : Text) → text_eq xs ys ≡ text_eq ys xs
unfolding text_eq
text_eq_sym [] [] = refl
text_eq_sym [] (y ∷ ys) = refl
text_eq_sym (x ∷ xs) [] = refl
text_eq_sym (x ∷ xs) (y ∷ ys) = ground (arith, text_eq_sym xs ys)

text_lt_total :
    (xs ys : Text) → text_eq xs ys ≡ false → text_lt xs ys ≡ false → text_lt ys xs ≡ true
unfolding text_eq text_lt
text_lt_total [] [] differs h = cc
text_lt_total [] (y ∷ ys) differs h = cc
text_lt_total (x ∷ xs) [] differs h = refl
text_lt_total (x ∷ xs) (y ∷ ys) differs h = ground (arith, text_lt_total xs ys)

compare_encoded_total :
    (p q : Text × Text) → compare_encoded p q ≡ false → compare_encoded q p ≡ true
unfolding compare_encoded
compare_encoded_total (name, value) (name', value') h =
    let names = text_eq_sym name name' in
    let values = text_eq_sym value value' in
    ground (arith, text_lt_total name name', text_lt_total value value')

-- Every pair stands in front of the next one, or is the same.
abbrev pub IsSorted : List (Text × Text) → Type 0
IsSorted [] = Unit {0}
IsSorted (p ∷ []) = Unit {0}
IsSorted (p ∷ q ∷ pairs) = (compare_encoded p q ≡ true) × IsSorted (q ∷ pairs)

insert-below :
    (low p : Text × Text) (pairs : List (Text × Text))
    → compare_encoded low p ≡ true
    → IsSorted (low ∷ pairs)
    → IsSorted (low ∷ insert_pair p pairs)
unfolding insert_pair
insert-below low p [] under sorted = (under, tt)
insert-below low p (q ∷ pairs) under (first, sorted) = elim (Bool-cases (compare_encoded p q)) [
  | inl here ↦ rw here (under, (here, sorted))
  | inr later ↦ rw later (first, insert-below q p pairs (compare_encoded_total p q later) sorted)
]

insert_pair-IsSorted :
    (p : Text × Text) (pairs : List (Text × Text)) → IsSorted pairs → IsSorted (insert_pair p pairs)
unfolding insert_pair
insert_pair-IsSorted p [] sorted = tt
insert_pair-IsSorted p (q ∷ pairs) sorted = elim (Bool-cases (compare_encoded p q)) [
  | inl here ↦ rw here (here, sorted)
  | inr later ↦ rw later (insert-below q p pairs (compare_encoded_total p q later) sorted)
]

pub sort_pairs-IsSorted : (pairs : List (Text × Text)) → IsSorted (sort_pairs pairs)
unfolding sort_pairs
sort_pairs-IsSorted [] = tt
sort_pairs-IsSorted (p ∷ pairs) =
    insert_pair-IsSorted p (sort_pairs pairs) (sort_pairs-IsSorted pairs)

pub sort_pairs-sorted : (pairs : List (Text × Text)) → IsSorted pairs → sort_pairs pairs ≡ pairs
unfolding sort_pairs insert_pair
sort_pairs-sorted [] sorted = refl
sort_pairs-sorted (p ∷ []) sorted = refl
sort_pairs-sorted (p ∷ q ∷ pairs) (first, sorted) =
    ap (insert_pair p) (sort_pairs-sorted (q ∷ pairs) sorted) ∙ rw first refl

module _ (P : Text × Text → Type 0) where
  insert_pair-All :
      (p : Text × Text) (pairs : List (Text × Text))
      → P p
      → All P pairs
      → All P (insert_pair p pairs)
  unfolding insert_pair
  insert_pair-All p [] here rest = (here, tt)
  insert_pair-All p (q ∷ pairs) here (first, rest) = elim (Bool-cases (compare_encoded p q)) [
    | inl before ↦ rw before (here, (first, rest))
    | inr later ↦ rw later (first, insert_pair-All p pairs here rest)
  ]

  pub sort_pairs-All : (pairs : List (Text × Text)) → All P pairs → All P (sort_pairs pairs)
  unfolding sort_pairs
  sort_pairs-All [] all = tt
  sort_pairs-All (p ∷ pairs) (first, rest) =
      insert_pair-All p (sort_pairs pairs) first (sort_pairs-All pairs rest)

  insert_pair-here :
      (p : Text × Text) (pairs : List (Text × Text)) → P p → Exists P (insert_pair p pairs)
  unfolding insert_pair
  insert_pair-here p [] here = inl here
  insert_pair-here p (q ∷ pairs) here = elim (Bool-cases (compare_encoded p q)) [
    | inl before ↦ rw before (inl here)
    | inr later ↦ rw later (inr (insert_pair-here p pairs here))
  ]

  insert_pair-Exists :
      (p : Text × Text) (pairs : List (Text × Text))
      → Exists P pairs
      → Exists P (insert_pair p pairs)
  unfolding insert_pair
  insert_pair-Exists p [] none_there = absurd none_there
  insert_pair-Exists p (q ∷ pairs) there = elim (Bool-cases (compare_encoded p q)) [
    | inl before ↦ rw before (inr there)
    | inr later ↦ rw later (elim there [
      | inl here ↦ inl here
      | inr further ↦ inr (insert_pair-Exists p pairs further)
    ])
  ]

  pub sort_pairs-Exists :
      (pairs : List (Text × Text)) → Exists P pairs → Exists P (sort_pairs pairs)
  unfolding sort_pairs
  sort_pairs-Exists [] none_there = absurd none_there
  sort_pairs-Exists (p ∷ pairs) (inl here) = insert_pair-here p (sort_pairs pairs) here
  sort_pairs-Exists (p ∷ pairs) (inr there) =
      insert_pair-Exists p (sort_pairs pairs) (sort_pairs-Exists pairs there)
