-- ===== src/Policy/Evaluate.antt =====
-- `evaluate` and the three matchers of libs/domains/src/policies/policies.service.ts.
pub mod Precedence
use simple_storage_service.Prelude.{
  Bool, true, false, not, ◌&&◌, ◌||◌, Option, none, some, List, [], ◌∷◌,
}
use simple_storage_service.Prelude.Tests.{if◌then◌else◌}
use simple_storage_service.Prelude.Lists.{any}
use simple_storage_service.Prelude.Text.{Text, str, includes, contains}
use simple_storage_service.Wildcard.{policy_wildcard_match}
use simple_storage_service.Policy.{
  Effect, OneOrMany, one, many, Principal, everyone, aws, PolicyStatement, PolicyDocument,
  EvaluationRequest, Decision, Numbers, to_array,
}
use simple_storage_service.Policy.Conditions.{matches_conditions}

-- `id && principal.includes(id)`: an absent or empty id is falsy.
names : Text → Option Text → Bool
names principal none = false
names principal (some []) = false
names principal (some (c ∷ cs)) = contains principal (c ∷ cs)

matches_aws : List Text → EvaluationRequest → Bool
matches_aws principals request =
    if includes principals (str "*")
    then true
    else any
        (λ principal.
          names principal request.principal_user_guid || names principal request.access_key_id)
        principals

matches_principal_of : Option Principal → EvaluationRequest → Bool
matches_principal_of none request = true
matches_principal_of (some everyone) request = true
matches_principal_of (some (aws principals)) request =
    matches_aws (to_array (some principals)) request

unfoldable pub matches_principal : PolicyStatement → EvaluationRequest → Bool
unfolding names matches_aws matches_principal_of
matches_principal statement request = matches_principal_of statement.principal request

any_pattern : List Text → Text → Bool
any_pattern patterns text = any (λ p. policy_wildcard_match p text) patterns

-- `statement.NotX && toArray(statement.NotX).some(...)`: the empty string is falsy.
excluded : Option OneOrMany → Text → Bool
excluded none text = false
excluded (some (one [])) text = false
excluded (some (one (c ∷ cs))) text = any_pattern ((c ∷ cs) ∷ []) text
excluded (some (many patterns)) text = any_pattern patterns text

unfoldable pub matches_action : PolicyStatement → Text → Bool
unfolding any_pattern excluded
matches_action statement action =
    if excluded statement.not_action action
    then false
    else any_pattern (to_array (some statement.action)) action

unfoldable pub matches_resource : PolicyStatement → Text → Bool
unfolding any_pattern excluded
matches_resource statement resource =
    if excluded statement.not_resource resource
    then false
    else any_pattern (to_array (some statement.resource)) resource

module _ (numbers : Numbers) where
  -- The four `continue` guards of the loop.
  unfoldable pub applies : PolicyStatement → EvaluationRequest → Bool
  applies statement request =
      matches_principal statement request
      && matches_action statement request.action
      && matches_resource statement request.resource
      && matches_conditions numbers statement.condition request.context

  -- The loop, from a value of `allowed`.
  unfoldable pub evaluate_from : Bool → List PolicyStatement → EvaluationRequest → Decision
  evaluate_from allowed [] request = if allowed then Decision.allow else Decision.not_applicable
  evaluate_from allowed (statement ∷ statements) request =
      let skipped = evaluate_from allowed statements request in
      let granted = evaluate_from true statements request in
      if applies statement request
      then (elim statement.effect [ Effect.deny ↦ Decision.deny | Effect.allow ↦ granted ])
      else skipped

  unfoldable pub evaluate : Option PolicyDocument → EvaluationRequest → Decision
  unfolding evaluate_from
  evaluate none request = Decision.not_applicable
  evaluate (some document) request = evaluate_from false document.statement request
