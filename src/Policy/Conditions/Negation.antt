-- ===== src/Policy/Conditions/Negation.antt =====
-- The operators that negate another one.
use simple_storage_service.Prelude.{
  ◌≡◌, refl, ◌⊎◌, inl, inr, Bool, false, not, Option, none, List, [], ◌∷◌, arith,
}
use simple_storage_service.Prelude.Lists.{any, all}
use simple_storage_service.Prelude.Text.{Text}
use simple_storage_service.Policy.{OneOrMany, Numbers, to_array}
use simple_storage_service.Policy.Conditions.{
  Operator, string_equals, arn_equals, string_not_equals, arn_not_equals, string_equals_ignore_case,
  string_not_equals_ignore_case, string_like, arn_like, string_not_like, arn_not_like, ip_address,
  not_ip_address, numeric, date, Comparison, is_negated, if_exists, base_of, present,
  compare_values, decide_values, decide, matches_condition,
}

-- The positive operator that each negated one is documented to complement.
pub data Complements : Operator → Operator → Type 0 where
  string_equality : Complements string_not_equals string_equals
  arn_equality : Complements arn_not_equals arn_equals
  case_equality : Complements string_not_equals_ignore_case string_equals_ignore_case
  string_pattern : Complements string_not_like string_like
  arn_pattern : Complements arn_not_like arn_like
  address : Complements not_ip_address ip_address

module _ {ℓ} {A : Type ℓ} where
  all-not : (p : A → Bool) (xs : List A) → all (λ x. not (p x)) xs ≡ not (any p xs)
  all-not p [] = refl
  all-not p (x ∷ xs) = ground (arith, all-not p xs)

module _ (numbers : Numbers) where
  compare_values-complement :
      {negative positive : Operator} (expected values : List Text)
      → Complements negative positive
      → compare_values numbers negative expected values
        ≡ not (compare_values numbers positive expected values)
  unfolding compare_values
  compare_values-complement expected values string_equality = all-not _ values
  compare_values-complement expected values arn_equality = all-not _ values
  compare_values-complement expected values case_equality = all-not _ values
  compare_values-complement expected values string_pattern = all-not _ values
  compare_values-complement expected values arn_pattern = all-not _ values
  compare_values-complement expected values address = all-not _ values

  decide_values-complement :
      {negative positive : Operator} (expected values : List Text)
      → Complements negative positive
      → decide_values numbers false negative expected values
        ≡ not (decide_values numbers false positive expected values)
  unfolding decide_values is_negated
  decide_values-complement expected [] string_equality = refl
  decide_values-complement expected [] arn_equality = refl
  decide_values-complement expected [] case_equality = refl
  decide_values-complement expected [] string_pattern = refl
  decide_values-complement expected [] arn_pattern = refl
  decide_values-complement expected [] address = refl
  decide_values-complement expected (v ∷ vs) c = compare_values-complement expected (v ∷ vs) c

  decide-complement :
      {negative positive : Operator} (expected : List Text) (value : Option OneOrMany)
      → Complements negative positive
      → decide numbers false negative expected value
        ≡ not (decide numbers false positive expected value)
  unfolding decide
  decide-complement expected value string_equality =
      decide_values-complement expected _ string_equality
  decide-complement expected value arn_equality = decide_values-complement expected _ arn_equality
  decide-complement expected value case_equality = decide_values-complement expected _ case_equality
  decide-complement expected value string_pattern =
      decide_values-complement expected _ string_pattern
  decide-complement expected value arn_pattern = decide_values-complement expected _ arn_pattern
  decide-complement expected value address = decide_values-complement expected _ address

  -- Without `IfExists`, each of the six negated operators holds exactly when its positive
  -- counterpart does not, for every value of the request: absent, empty, single or multiple.
  pub matches_condition-complement :
      (negative positive : Text) (expected : List Text) (value : Option OneOrMany)
      → Complements (base_of negative) (base_of positive)
      → if_exists negative ≡ false
      → if_exists positive ≡ false
      → matches_condition numbers negative expected value
        ≡ not (matches_condition numbers positive expected value)
  unfolding matches_condition
  matches_condition-complement negative positive expected value c hn hp =
      rw (hn, hp) (decide-complement expected value c)

  -- `NumericNotEquals` and `DateNotEquals` fail when the request does not carry the key, as
  -- every condition of the numeric and date operators does.
  pub matches_condition-missing_number :
      (operator : Text) (expected : List Text) (c : Comparison)
      → (base_of operator ≡ numeric c) ⊎ (base_of operator ≡ date c)
      → if_exists operator ≡ false
      → matches_condition numbers operator expected none ≡ false
  unfolding matches_condition is_negated present to_array
  matches_condition-missing_number operator expected c (inl e) h = rw (h, e)
  matches_condition-missing_number operator expected c (inr e) h = rw (h, e)
