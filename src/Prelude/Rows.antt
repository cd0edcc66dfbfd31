-- ===== src/Prelude/Rows.antt =====
-- Facts about all rows, or some row, of a table after `update` and `delete`.
use mathlib.Core.Path.{◌≡◌, refl, ◌∙◌, ap}
use mathlib.Core.Bool.{Bool, true, false}
use mathlib.Core.List.{List, [], ◌∷◌}
use mathlib.Core.Logic.{inl, inr}
use mathlib.Core.Option
use mathlib.Core.Option.{some}
use native.Mathlib.Omega.{arith}
use Prim.Native.Nat.{◌+◌, ◌≤◌}
use simple_storage_service.Prelude.Tests.{if◌then◌else◌, Bool-cases}
use simple_storage_service.Prelude.Lists.{filter, find, All, Exists}
use simple_storage_service.Prelude.Query.{update_where, count}

module _ {ℓ} {A : Type ℓ} where
  pub All-map : {P Q : A → Type 0} (xs : List A) → ((x : A) → P x → Q x) → All P xs → All Q xs
  All-map [] f h = tt
  All-map (x ∷ xs) f (px, h) = (f x px, All-map xs f h)

  pub All-filter :
      {P Q : A → Type 0} (p : A → Bool) (xs : List A)
      → ((x : A) → P x → p x ≡ true → Q x)
      → All P xs
      → All Q (filter p xs)
  All-filter p [] f h = tt
  All-filter p (x ∷ xs) f (px, h) = elim (Bool-cases (p x)) [
    | inl kept ↦ rw kept (f x px kept, All-filter p xs f h)
    | inr dropped ↦ rw dropped (All-filter p xs f h)
  ]

  pub All-update_where :
      {P Q : A → Type 0} (p : A → Bool) (g : A → A) (xs : List A)
      → ((x : A) → P x → p x ≡ true → Q (g x))
      → ((x : A) → P x → p x ≡ false → Q x)
      → All P xs
      → All Q (update_where p g xs)
  All-update_where p g [] hit miss h = tt
  All-update_where p g (x ∷ xs) hit miss (px, h) = elim (Bool-cases (p x)) [
    | inl yes_row ↦ rw yes_row (hit x px yes_row, All-update_where p g xs hit miss h)
    | inr no_row ↦ rw no_row (miss x px no_row, All-update_where p g xs hit miss h)
  ]

  pub Exists-filter :
      {P Q : A → Type 0} (p : A → Bool) (xs : List A)
      → ((x : A) → P x → p x ≡ true)
      → ((x : A) → P x → Q x)
      → Exists P xs
      → Exists Q (filter p xs)
  Exists-filter p [] kept f h = absurd h
  Exists-filter p (x ∷ xs) kept f (inl px) = rw (kept x px) (inl (f x px))
  Exists-filter p (x ∷ xs) kept f (inr h) = elim (Bool-cases (p x)) [
    | inl yes_row ↦ rw yes_row (inr (Exists-filter p xs kept f h))
    | inr no_row ↦ rw no_row (Exists-filter p xs kept f h)
  ]

  pub Exists-map :
      {P Q : A → Type 0} (xs : List A) → ((x : A) → P x → Q x) → Exists P xs → Exists Q xs
  Exists-map [] f h = absurd h
  Exists-map (x ∷ xs) f (inl px) = inl (f x px)
  Exists-map (x ∷ xs) f (inr h) = inr (Exists-map xs f h)

  pub count-filter-le : (p q : A → Bool) (xs : List A) → count p (filter q xs) ≤ count p xs
  count-filter-le p q [] = omega arith
  count-filter-le p q (x ∷ xs) = ground (arith, count-filter-le p q xs)

  pub Exists-of_filter :
      (P : A → Type 0) (p : A → Bool) (xs : List A)
      → Exists P (filter p xs)
      → Exists (λ x. P x × (p x ≡ true)) xs
  Exists-of_filter P p [] h = absurd h
  Exists-of_filter P p (x ∷ xs) h = elim (Bool-cases (p x)) [
    | inl kept ↦ elim (rw kept at h) [
      | inl px ↦ inl (px, kept)
      | inr rest ↦ inr (Exists-of_filter P p xs rest)
    ]
    | inr dropped ↦ inr (Exists-of_filter P p xs (rw dropped at h))
  ]

module _ {A : Type 0} where
  -- The row that exists is one of the rows.
  pub Exists-member :
      (P : A → Type 0) (xs : List A) → Exists P xs → Exists (λ x. P x × Exists (λ y. y ≡ x) xs) xs
  Exists-member P [] h = absurd h
  Exists-member P (x ∷ xs) (inl px) = inl (px, inl refl)
  Exists-member P (x ∷ xs) (inr h) =
      inr (Exists-map xs (λ y (py, among). (py, inr among)) (Exists-member P xs h))

module _ {ℓ} {A : Type ℓ} where
  pub find-filter :
      (p q : A → Bool) (xs : List A)
      → ((x : A) → p x ≡ true → q x ≡ true)
      → find p (filter q xs) ≡ find p xs
  find-filter p q [] h = refl
  find-filter p q (x ∷ xs) h = elim (Bool-cases (p x)) [
    | inl hit ↦ rw (h x hit) (rw hit)
    | inr miss ↦ ground (arith, find-filter p q xs h)
  ]

  abbrev pub update_if : (A → Bool) → (A → A) → A → A
  update_if p f x = if p x then f x else x

  -- An update that does not touch what the search looks at.
  pub find-update_where :
      (p q : A → Bool) (f : A → A) (xs : List A)
      → ((x : A) → p (f x) ≡ p x)
      → find p (update_where q f xs) ≡ Option.map (update_if q f) (find p xs)
  find-update_where p q f [] h = refl
  find-update_where p q f (x ∷ xs) h = elim (Bool-cases (q x)) [
    | inl hit ↦ elim (Bool-cases (p x)) [
      | inl here ↦ let same = h x ∙ here in rw hit (rw (same, here) (rw hit refl))
      | inr later ↦
          let same = h x ∙ later in rw hit (rw (same, later) (find-update_where p q f xs h))
    ]
    | inr miss ↦ elim (Bool-cases (p x)) [
      | inl here ↦ rw miss (rw here (rw miss refl))
      | inr later ↦ rw miss (rw later (find-update_where p q f xs h))
    ]
  ]

module _ {ℓ} {A : Type ℓ} where
  pub count-find :
      (p q : A → Bool) (xs : List A) (x : A) → find p xs ≡ some x → q x ≡ true → 1 ≤ count q xs
  count-find p q [] x found holds = cc
  count-find p q (y ∷ ys) x found holds = elim (Bool-cases (p y)) [
    | inl here ↦
        let same : y ≡ x = ground arith in let held : q y ≡ true = rw same holds in ground arith
    | inr later ↦ let rest = count-find p q ys x (ground arith) holds in ground arith
  ]

  -- A search and a wider one find the same, where the wider test holds of one row at most.
  pub find-wider :
      (p q : A → Bool) (xs : List A) (x : A)
      → ((y : A) → p y ≡ true → q y ≡ true)
      → find p xs ≡ some x
      → q x ≡ true
      → count q xs ≤ 1
      → find q xs ≡ some x
  find-wider p q [] x wide found holds once = cc
  find-wider p q (y ∷ ys) x wide found holds once = elim (Bool-cases (p y)) [
    | inl here ↦ let held = wide y here in ground arith
    | inr later ↦
        let found' : find p ys ≡ some x = ground arith in
        let one = count-find p q ys x found' holds in
        let not_here : q y ≡ false = ground arith in
        rw not_here (find-wider p q ys x wide found' holds (ground arith))
  ]

  untouched : (p : A → Bool) (f : A → A) (xs : List A) → count p xs ≡ 0 → update_where p f xs ≡ xs
  untouched p f [] h = refl
  untouched p f (x ∷ xs) h =
      let not_here : p x ≡ false = ground arith in
      rw not_here (ap (λ (t : List A). x ∷ t) (untouched p f xs (ground arith)))

  -- An update of one row at most loses one row at most, and none if that row keeps what counts.
  pub count-update_one :
      (a p : A → Bool) (f : A → A) (xs : List A)
      → count p xs ≤ 1
      → count a xs ≤ 1 + count a (update_where p f xs)
  count-update_one a p f [] h = omega arith
  count-update_one a p f (x ∷ xs) h = elim (Bool-cases (p x)) [
    | inl here ↦
        let rest : count p xs ≡ 0 = ground arith in
        let same = untouched p f xs rest in rw here (rw same (ground arith))
    | inr later ↦ let rest = count-update_one a p f xs (ground arith) in rw later (ground arith)
  ]

  pub count-update_kept :
      (a p : A → Bool) (f : A → A) (xs : List A) (x : A)
      → find p xs ≡ some x
      → count p xs ≤ 1
      → (a x ≡ true → a (f x) ≡ true)
      → count a xs ≤ count a (update_where p f xs)
  count-update_kept a p f [] x found h keeps = cc
  count-update_kept a p f (y ∷ ys) x found h keeps = elim (Bool-cases (p y)) [
    | inl here ↦
        let same : y ≡ x = ground arith in
        let rest : count p ys ≡ 0 = ground arith in
        let still = untouched p f ys rest in
        let keeps' : a y ≡ true → a (f y) ≡ true = rw same keeps in
        rw here (rw still (ground arith))
    | inr later ↦
        let rest = count-update_kept a p f ys x (ground arith) (ground arith) keeps in
        rw later (ground arith)
  ]

  pub count-le :
      (p q : A → Bool) (xs : List A) → ((x : A) → p x ≡ true → q x ≡ true) → count p xs ≤ count q xs
  count-le p q [] h = omega arith
  count-le p q (x ∷ xs) h = elim (Bool-cases (p x)) [
    | inl yes_row ↦ let held = h x yes_row in let rest = count-le p q xs h in ground arith
    | inr no_row ↦ let rest = count-le p q xs h in ground arith
  ]
