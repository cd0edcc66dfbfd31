-- ===== src/Tests/Policies.antt =====
-- The policy engine at concrete requests.
use simple_storage_service.Prelude.{
  ℕ, ◌≡◌, ◌↔◌, refl, Bool, true, false, Option, none, some, [], ◌∷◌,
}
use simple_storage_service.Prelude.Text.{
  Text, str, is_digit, decimal, text_eq, split, starts_with, lower_unit, includes, contains,
  ends_with,
}
use simple_storage_service.Policy.{
  Effect, one, everyone, PolicyStatement, PolicyDocument, EvaluationRequest, Decision, Numbers,
  to_array,
}
use simple_storage_service.Prelude.Lists.{all, Exists}
use simple_storage_service.Prelude.Tests.{ltb, leb, ◌==◌, if◌then◌else◌}
use simple_storage_service.Policy.Evaluate.{
  applies, evaluate, matches_principal, matches_action, matches_resource,
}
use simple_storage_service.Prelude.Result.{ok}
use simple_storage_service.Policy.Conditions.{
  matches_condition, matches_block, matches_conditions, compare_values, operator_of, base_of,
  if_exists, present, is_negated,
}
use simple_storage_service.Policy.Address.{
  ip_matches, same_network, and_bits, prefix_mask, push_octet, or_bits, to_ipv4_number,
}
use simple_storage_service.Wildcard.{policy_wildcard_match, regex_test}
use simple_storage_service.Wildcard.Regex.{OnLine}
use simple_storage_service.Wildcard.Laws.{Covers, policy_wildcard_match_iff}
use simple_storage_service.Policy.Evaluate.Precedence.{Denies, Allows, evaluate-allow_iff}
use simple_storage_service.Policy.Conditions.Negation.{Complements, string_pattern}
use simple_storage_service.Policy.Store.{
  Json, text, arr, obj, nil, cons, end, field, Items, validate, statements_of, PolicyTable, set,
  effect_is_valid, has_target, condition_is_valid, property, truthy, is_text, field_of,
  validate_statements, validate_statement,
}
use simple_storage_service.Policy.Store.Validity.{AllStatements, validate_iff}
use mathlib.Core.List.{Perm}
use mathlib.Core.List.Perm.{swap}
use simple_storage_service.Prelude.Table.{upsert}

-- Numbers that are decimal naturals, with everything else not a number.
abbrev parse_natural : Text → Option ℕ
parse_natural digits = if all is_digit digits then some (decimal digits) else none

abbrev both : (ℕ → ℕ → Bool) → Option ℕ → Option ℕ → Bool
both f (some a) (some b) = f a b
both f _ _ = false

abbrev is_natural : Option ℕ → Bool
is_natural none = false
is_natural (some n) = true

pub decimal-empty : parse_natural [] ≡ some 0
unfolding decimal
decimal-empty = refl

abbrev pub naturals : Numbers
naturals = record {
  Num = Option ℕ;
  to_number = parse_natural;
  is_finite = is_natural;
  num_eq = both (λ a b. a == b);
  num_lt = both ltb;
  num_le = both leb;
  natural = λ n. n;
  epoch_millis = parse_natural;
  date_parse = λ date_text. none;
  natural-empty = decimal-empty;
}

abbrev pub read_all : PolicyStatement
read_all = record {
  effect = Effect.allow;
  principal = some everyone;
  action = one (str "s3:Get*");
  not_action = none;
  resource = one (str "arn:aws:s3:::b/*");
  not_resource = none;
  condition = none;
}

abbrev pub deny_office : PolicyStatement
deny_office = record {
  effect = Effect.deny;
  principal = none;
  action = one (str "s3:*");
  not_action = none;
  resource = one (str "arn:aws:s3:::b/*");
  not_resource = none;
  condition = some ((str "IpAddress", (str "aws:SourceIp", one (str "10.0.0.0/8")) ∷ []) ∷ []);
}

abbrev pub from : Text → EvaluationRequest
from ip = record {
  action = str "s3:GetObject";
  resource = str "arn:aws:s3:::b/k";
  principal_user_guid = none;
  access_key_id = none;
  context = λ key. if text_eq key (str "aws:SourceIp") then some (one ip) else none;
}

abbrev pub document : PolicyDocument
document = record { version = str "2012-10-17"; statement = read_all ∷ deny_office ∷ [] }

office_is_denied : evaluate naturals (some document) (from (str "::ffff:10.1.2.3")) ≡ Decision.deny
unfolding evaluate applies matches_principal matches_action matches_resource matches_conditions
    matches_block matches_condition compare_values base_of if_exists operator_of present is_negated
    ip_matches same_network and_bits prefix_mask push_octet or_bits to_ipv4_number
    policy_wildcard_match regex_test str text_eq split starts_with lower_unit includes contains
    ends_with decimal to_array
office_is_denied = refl

other_is_allowed : evaluate naturals (some document) (from (str "11.1.2.3")) ≡ Decision.allow
unfolding evaluate applies matches_principal matches_action matches_resource matches_conditions
    matches_block matches_condition compare_values base_of if_exists operator_of present is_negated
    ip_matches same_network and_bits prefix_mask push_octet or_bits to_ipv4_number
    policy_wildcard_match regex_test str text_eq split starts_with lower_unit includes contains
    ends_with decimal to_array
other_is_allowed = refl

abbrev pub everything_denied : PolicyDocument
everything_denied = record {
  version = str "2012-10-17";
  statement =
      record {
        effect = Effect.deny;
        principal = some everyone;
        action = one (str "s3:*");
        not_action = none;
        resource = one (str "*");
        not_resource = none;
        condition = none;
      }
      ∷ [];
}

evaluate-allow_iff_example :
    (evaluate naturals (some document) (from (str "11.1.2.3")) ≡ Decision.allow) ↔ (
      Exists (Allows naturals (from (str "11.1.2.3"))) document.statement
      × ¬ Exists (Denies naturals (from (str "11.1.2.3"))) document.statement)
evaluate-allow_iff_example = evaluate-allow_iff naturals (from (str "11.1.2.3")) document

pub swapped : Perm (read_all ∷ deny_office ∷ []) (deny_office ∷ read_all ∷ [])
swapped = swap deny_office read_all []

policy_wildcard_match_iff_example :
    (policy_wildcard_match (str "b/*") (str "b/k") ≡ true) ↔ Covers OnLine (str "b/*") (str "b/k")
policy_wildcard_match_iff_example = policy_wildcard_match_iff (str "b/*") (str "b/k")

pub network_number : to_ipv4_number (str "10.0.0.0") ≡ some 167772160
unfolding to_ipv4_number str split starts_with decimal push_octet or_bits lower_unit
network_number = refl

pub outside_number : to_ipv4_number (str "8.8.8.8") ≡ some 134744072
unfolding to_ipv4_number str split starts_with decimal push_octet or_bits lower_unit
outside_number = refl

pub negates : Complements (base_of (str "StringNotLike")) (base_of (str "StringLike"))
unfolding base_of operator_of str ends_with text_eq
negates = string_pattern

abbrev json_document : Json
json_document = obj (
    field (str "Statement")
      (arr (
        cons
          (obj (
            field (str "Effect") (text (str "Allow")) (
              field (str "Action") (text (str "s3:*"))
                (field (str "Resource") (text (str "*")) end))))
          nil))
      end)

validate_iff_example : (validate json_document ≡ ok tt) ↔ (
    (items : Items) × (property (str "Statement") json_document ≡ some (arr items))
    × AllStatements items)
validate_iff_example = validate_iff json_document

abbrev policies : PolicyTable
policies = (4, record { document = json_document; updated_by_user_guid = none }) ∷ []

pub set_policy : set [] 4 json_document none ≡ ok policies
unfolding set validate statements_of validate_statements validate_statement effect_is_valid
    has_target condition_is_valid property truthy is_text field_of str text_eq upsert
set_policy = refl
