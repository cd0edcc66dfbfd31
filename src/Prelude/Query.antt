-- ===== src/Prelude/Query.antt =====
-- Queries on a table as the list of its rows: `where` is a Boolean test on a row.

use mathlib.Core.Bool.{Bool, not}
use mathlib.Core.List.{List, [], ◌∷◌}
use mathlib.Core.Option.{Option, none, some}
use Prim.Native.Nat.{ℕ, ◌+◌}
use simple_storage_service.Prelude.Tests.{if◌then◌else◌}
use simple_storage_service.Prelude.Lists.{length, filter}

module _ {ℓ} {A : Type ℓ} where
  -- `update ... set ... where`.
  abbrev pub update_where : (A → Bool) → (A → A) → List A → List A
  update_where p f [] = []
  update_where p f (x ∷ xs) = (if p x then f x else x) ∷ update_where p f xs

  -- `delete ... where`.
  abbrev pub delete_where : (A → Bool) → List A → List A
  delete_where p xs = filter (λ x. not (p x)) xs

  -- `select count(*) ... where`.
  abbrev pub count : (A → Bool) → List A → ℕ
  count p xs = length (filter p xs)

  -- `array.reduce((total, x) => total + f(x), 0)`, and `sum`.
  abbrev pub sum_of : (A → ℕ) → List A → ℕ
  sum_of f [] = 0
  sum_of f (x ∷ xs) = f x + sum_of f xs

-- `array.map(f).filter(Boolean)`, for an `f` whose false values are the missing ones.
abbrev pub filter_map {ℓ κ} : {A : Type ℓ} {B : Type κ} → (A → Option B) → List A → List B
filter_map f [] = []
filter_map f (x ∷ xs) = elim (f x) [ none ↦ filter_map f xs | some y ↦ y ∷ filter_map f xs ]
