-- ===== src/Policy/Conditions.antt =====
-- `matchesConditions`, `matchesCondition`, `numericMatches`, `dateMatches` and `toTimestamp` of
-- libs/domains/src/policies/policies.service.ts.
pub mod Negation
use simple_storage_service.Prelude.{
  ◌-◌, Bool, true, false, not, ◌&&◌, ◌||◌, Option, none, some, List, [], ◌∷◌, map,
}
use simple_storage_service.Prelude.Tests.{if◌then◌else◌}
use simple_storage_service.Prelude.Lists.{any, all, filter}
use simple_storage_service.Prelude.Text.{
  Text, str, text_eq, includes, ends_with, drop_last, is_digit, lower_unit,
}
use simple_storage_service.Wildcard.{policy_wildcard_match}
use simple_storage_service.Policy.{
  OneOrMany, one, many, ConditionBlock, PolicyContext, Numbers, to_array,
}
use simple_storage_service.Policy.Address.{ip_matches}

-- The cases of the `switch`, `Null`, and any other text.
pub data Comparison : Type 0 where
  equals not_equals less_than less_than_equals greater_than greater_than_equals : Comparison

pub data Operator : Type 0 where
  null string_equals arn_equals string_not_equals arn_not_equals : Operator
  string_equals_ignore_case string_not_equals_ignore_case : Operator
  string_like arn_like string_not_like arn_not_like : Operator
  bool ip_address not_ip_address : Operator
  numeric date : Comparison → Operator
  unknown : Operator

operator_names : List (Text × Operator)
operator_names =
    (str "Null", null)
    ∷ (str "StringEquals", string_equals)
    ∷ (str "ArnEquals", arn_equals)
    ∷ (str "StringNotEquals", string_not_equals)
    ∷ (str "ArnNotEquals", arn_not_equals)
    ∷ (str "StringEqualsIgnoreCase", string_equals_ignore_case)
    ∷ (str "StringNotEqualsIgnoreCase", string_not_equals_ignore_case)
    ∷ (str "StringLike", string_like)
    ∷ (str "ArnLike", arn_like)
    ∷ (str "StringNotLike", string_not_like)
    ∷ (str "ArnNotLike", arn_not_like)
    ∷ (str "Bool", bool)
    ∷ (str "IpAddress", ip_address)
    ∷ (str "NotIpAddress", not_ip_address)
    ∷ (str "NumericEquals", numeric equals)
    ∷ (str "NumericNotEquals", numeric not_equals)
    ∷ (str "NumericLessThan", numeric less_than)
    ∷ (str "NumericLessThanEquals", numeric less_than_equals)
    ∷ (str "NumericGreaterThan", numeric greater_than)
    ∷ (str "NumericGreaterThanEquals", numeric greater_than_equals)
    ∷ (str "DateEquals", date equals)
    ∷ (str "DateNotEquals", date not_equals)
    ∷ (str "DateLessThan", date less_than)
    ∷ (str "DateLessThanEquals", date less_than_equals)
    ∷ (str "DateGreaterThan", date greater_than)
    ∷ (str "DateGreaterThanEquals", date greater_than_equals)
    ∷ []

find_operator : Text → List (Text × Operator) → Operator
find_operator text [] = unknown
find_operator text ((name, operator) ∷ names) =
    if text_eq text name then operator else find_operator text names

unfoldable pub operator_of : Text → Operator
unfolding operator_names find_operator
operator_of text = find_operator text operator_names

-- `NEGATED_OPERATORS.includes(base)`.
unfoldable pub is_negated : Operator → Bool
is_negated string_not_equals = true
is_negated string_not_equals_ignore_case = true
is_negated string_not_like = true
is_negated not_ip_address = true
is_negated arn_not_like = true
is_negated arn_not_equals = true
is_negated _ = false

-- `IF_EXISTS_SUFFIX` and the operator text without it.
unfoldable pub if_exists : Text → Bool
if_exists operator = ends_with operator (str "IfExists")

unfoldable pub base_of : Text → Operator
unfolding if_exists
base_of operator = operator_of (if if_exists operator then drop_last 8 operator else operator)

-- `value === undefined || value === ''`.
is_missing : Option OneOrMany → Bool
is_missing none = true
is_missing (some (one text)) = text_eq text []
is_missing (some (many texts)) = false

-- `(flag === 'true') === isMissing`.
same_flag : Bool → Bool → Bool
same_flag true b = b
same_flag false b = not b

equals_ignoring_case : Text → Text → Bool
equals_ignoring_case left right = text_eq (map lower_unit left) (map lower_unit right)

unfoldable pub present : Option OneOrMany → List Text
present value = filter (λ candidate. not (text_eq candidate [])) (to_array value)

module _ (numbers : Numbers) where
  open numbers use {Num, to_number, is_finite, num_eq, num_lt, num_le, epoch_millis, date_parse}

  -- `NumericX` and `DateX` compare the actual value to each bound.
  compare_bounds : Comparison → Num → List Num → Bool
  compare_bounds equals actual bounds = any (λ bound. num_eq actual bound) bounds
  compare_bounds not_equals actual bounds = all (λ bound. not (num_eq actual bound)) bounds
  compare_bounds less_than actual bounds = any (λ bound. num_lt actual bound) bounds
  compare_bounds less_than_equals actual bounds = any (λ bound. num_le actual bound) bounds
  compare_bounds greater_than actual bounds = any (λ bound. num_lt bound actual) bounds
  compare_bounds greater_than_equals actual bounds = any (λ bound. num_le bound actual) bounds

  compare_some : Comparison → Num → List Num → Bool
  compare_some operator actual [] = false
  compare_some operator actual (bound ∷ bounds) = compare_bounds operator actual (bound ∷ bounds)

  numeric_matches : Comparison → List Text → Text → Bool
  numeric_matches operator expected value =
      if is_finite (to_number value)
      then compare_some operator (to_number value) (filter is_finite (map to_number expected))
      else false

  -- Epoch seconds or an ISO 8601 timestamp; `none` is `undefined`.
  to_timestamp : Text → Option Num
  to_timestamp [] = date_parse []
  to_timestamp (c ∷ cs) =
      if all is_digit (c ∷ cs) then some (epoch_millis (c ∷ cs)) else date_parse (c ∷ cs)

  timestamps : List Text → List Num
  timestamps [] = []
  timestamps (text ∷ texts) = elim (to_timestamp text) [
    | none ↦ timestamps texts
    | some at ↦ at ∷ timestamps texts
  ]

  date_matches : Comparison → List Text → Text → Bool
  date_matches operator expected value = elim (to_timestamp value) [
    | none ↦ false
    | some actual ↦ compare_some operator actual (timestamps expected)
  ]

  -- The `switch`, on the values that are present.
  unfoldable pub compare_values : Operator → List Text → List Text → Bool
  unfolding equals_ignoring_case compare_bounds compare_some numeric_matches to_timestamp timestamps
      date_matches
  compare_values string_equals expected values = any (λ v. includes expected v) values
  compare_values arn_equals expected values = any (λ v. includes expected v) values
  compare_values string_not_equals expected values = all (λ v. not (includes expected v)) values
  compare_values arn_not_equals expected values = all (λ v. not (includes expected v)) values
  compare_values string_equals_ignore_case expected values =
      any (λ v. any (λ p. equals_ignoring_case p v) expected) values
  compare_values string_not_equals_ignore_case expected values =
      all (λ v. not (any (λ p. equals_ignoring_case p v) expected)) values
  compare_values string_like expected values =
      any (λ v. any (λ p. policy_wildcard_match p v) expected) values
  compare_values arn_like expected values =
      any (λ v. any (λ p. policy_wildcard_match p v) expected) values
  compare_values string_not_like expected values =
      all (λ v. not (any (λ p. policy_wildcard_match p v) expected)) values
  compare_values arn_not_like expected values =
      all (λ v. not (any (λ p. policy_wildcard_match p v) expected)) values
  compare_values bool expected values = any (λ v. includes expected v) values
  compare_values ip_address expected values =
      any (λ v. any (λ cidr. ip_matches numbers cidr v) expected) values
  compare_values not_ip_address expected values =
      all (λ v. not (any (λ cidr. ip_matches numbers cidr v) expected)) values
  compare_values (numeric c) expected values = any (λ v. numeric_matches c expected v) values
  compare_values (date c) expected values = any (λ v. date_matches c expected v) values
  compare_values null expected values = false
  compare_values unknown expected values = false

  -- No value at all, or the `switch`.
  decide_values : Bool → Operator → List Text → List Text → Bool
  decide_values exists_only operator expected [] = exists_only || is_negated operator
  decide_values exists_only operator expected (v ∷ vs) = compare_values operator expected (v ∷ vs)

  decide : Bool → Operator → List Text → Option OneOrMany → Bool
  decide exists_only null expected value =
      any (λ flag. same_flag (text_eq flag (str "true")) (is_missing value)) expected
  decide exists_only operator expected value =
      decide_values exists_only operator expected (present value)

  unfoldable pub matches_condition : Text → List Text → Option OneOrMany → Bool
  unfolding is_missing same_flag decide_values decide
  matches_condition operator expected value =
      decide (if_exists operator) (base_of operator) expected value

  -- Every key of every operator has to hold.
  matches_entries : Text → PolicyContext → List (Text × OneOrMany) → Bool
  matches_entries operator context [] = true
  matches_entries operator context ((key, expected) ∷ entries) =
      matches_condition operator (to_array (some expected)) (context key)
      && matches_entries operator context entries

  unfoldable pub matches_block : PolicyContext → ConditionBlock → Bool
  unfolding matches_entries
  matches_block context [] = true
  matches_block context ((operator, entries) ∷ block) =
      matches_entries operator context entries && matches_block context block

  unfoldable pub matches_conditions : Option ConditionBlock → PolicyContext → Bool
  matches_conditions none context = true
  matches_conditions (some block) context = matches_block context block
