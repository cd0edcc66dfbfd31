-- ===== src/Pagination/Cover.antt =====
-- The pages of a listing together.
use native.Mathlib.Nat.{div-add-mod', mod-lt, add-mul}
use simple_storage_service.Prelude.{
  ℕ, zero, suc, ◌+◌, ◌-◌, ◌*◌, ◌/◌, ◌%◌, ◌<◌, ◌≤◌, ◌≡◌, sym, ap, ◌∙◌, List, [], ◌∷◌, ◌++◌, arith,
  inl, inr,
}
use simple_storage_service.Prelude.Tests.{◌==◌, if◌then◌else◌, Bool-cases}
use simple_storage_service.Prelude.Lists.{take, drop, length, take-length-le, take-nil}
use simple_storage_service.Pagination.{total_pages_of, page_rows}

module _ {ℓ} {Item : Type ℓ} where
  -- The pages from 1 to a number, one behind the other.
  unfoldable pub pages_up_to : List Item → ℕ → ℕ → List Item
  pages_up_to rows limit zero = []
  pages_up_to rows limit (suc n) = pages_up_to rows limit n ++ page_rows rows limit (suc n)

  take-add : (n m : ℕ) (xs : List Item) → take n xs ++ take m (drop n xs) ≡ take (n + m) xs
  take-add zero m xs = let e : m ≡ zero + m = omega arith in ap (λ (k : ℕ). take k xs) e
  take-add (suc n) m [] = take-nil m ∙ sym (take-nil (suc n + m))
  take-add (suc n) m (x ∷ xs) =
      let e : suc (n + m) ≡ suc n + m = omega arith in
      ap (λ (t : List Item). x ∷ t) (take-add n m xs) ∙ ap (λ (k : ℕ). take k (x ∷ xs)) e

  pages-take : (rows : List Item) (limit n : ℕ) → pages_up_to rows limit n ≡ take (n * limit) rows
  unfolding pages_up_to page_rows
  pages-take rows limit zero =
      let e : 0 ≡ zero * limit = omega arith in ap (λ (k : ℕ). take k rows) e
  pages-take rows limit (suc n) =
      let before : suc n - 1 ≡ n = omega arith in
      let grown : n * limit + limit ≡ suc n * limit = omega arith in
      rw (before, pages-take rows limit n)
        (take-add (n * limit) limit rows ∙ ap (λ (k : ℕ). take k rows) grown)

  -- The pages that the answer counts, one behind the other, are all the rows: none is left out and
  -- none comes twice.
  pub pages-cover :
      (rows : List Item) (limit : ℕ)
      → 0 < limit
      → pages_up_to rows limit (total_pages_of (length rows) limit) ≡ rows
  unfolding total_pages_of
  pages-cover rows limit positive =
      let total = length rows in
      let parts = div-add-mod' total limit in
      let small = mod-lt total positive in
      let expand = add-mul (total / limit) 1 limit in
      let enough : total ≤ (total / limit + (if total % limit == 0 then 0 else 1)) * limit =
        elim (Bool-cases (total % limit == 0)) [
          | inl even ↦ rw even (ground arith)
          | inr uneven ↦ rw uneven (omega arith)
        ] in
      pages-take rows limit _ ∙ take-length-le _ rows enough
