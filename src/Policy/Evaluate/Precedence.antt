-- ===== src/Policy/Evaluate/Precedence.antt =====
-- The precedence among the statements of `evaluate`.
use mathlib.Core.HLevel.{hedberg}
use mathlib.Core.Logic.{∥∥₁_elim}
use mathlib.Core.List.{Perm, Permᴰ}
use simple_storage_service.Prelude.{
  ◌≡◌, refl, ap, ◌∙◌, ◌↔◌, Bool, true, false, ◌&&◌, ◌||◌, some, List, [], ◌∷◌, arith,
}
use simple_storage_service.Prelude.Lists.{any, Exists}
use simple_storage_service.Policy.{
  Effect, PolicyStatement, PolicyDocument, EvaluationRequest, Decision, Numbers,
}
use simple_storage_service.Policy.Evaluate.{applies, evaluate_from, evaluate}

abbrev is_deny : Effect → Bool
is_deny Effect.deny = true
is_deny Effect.allow = false

abbrev is_allow : Effect → Bool
is_allow Effect.deny = false
is_allow Effect.allow = true

Decision-discrete : Discrete Decision
Decision-discrete = hlevel

module _ (numbers : Numbers) (request : EvaluationRequest) where
  -- A statement of the given effect whose principal, action, resource and conditions all match.
  abbrev pub Denies : PolicyStatement → Type 0
  Denies statement = (applies numbers statement request ≡ true) × (statement.effect ≡ Effect.deny)

  abbrev pub Allows : PolicyStatement → Type 0
  Allows statement = (applies numbers statement request ≡ true) × (statement.effect ≡ Effect.allow)

  abbrev denies : PolicyStatement → Bool
  denies statement = applies numbers statement request && is_deny statement.effect

  abbrev allows : PolicyStatement → Bool
  allows statement = applies numbers statement request && is_allow statement.effect

  denies_iff : (s : PolicyStatement) → (denies s ≡ true) ↔ Denies s
  denies_iff s = ground arith

  allows_iff : (s : PolicyStatement) → (allows s ≡ true) ↔ Allows s
  allows_iff s = ground arith

  decision_of : Bool → Bool → Decision
  decision_of true allowed = Decision.deny
  decision_of false true = Decision.allow
  decision_of false false = Decision.not_applicable

  evaluate_from-eq :
      (allowed : Bool) (statements : List PolicyStatement)
      → evaluate_from numbers allowed statements request
        ≡ decision_of (any denies statements) (allowed || any allows statements)
  unfolding evaluate_from decision_of
  evaluate_from-eq allowed [] = ground arith
  evaluate_from-eq allowed (s ∷ statements) =
      ground (arith, evaluate_from-eq allowed statements, evaluate_from-eq true statements)

  Exists-denies : (ss : List PolicyStatement) → (any denies ss ≡ true) ↔ Exists Denies ss
  Exists-denies [] = (λ h. cc, λ h. absurd h)
  Exists-denies (s ∷ ss) = ground (arith, Exists-denies ss, denies_iff s)

  Exists-allows : (ss : List PolicyStatement) → (any allows ss ≡ true) ↔ Exists Allows ss
  Exists-allows [] = (λ h. cc, λ h. absurd h)
  Exists-allows (s ∷ ss) = ground (arith, Exists-allows ss, allows_iff s)

  -- A document decides `deny` exactly when one of its Deny statements matches the request,
  -- wherever it stands among the others.
  pub evaluate-deny_iff :
      (document : PolicyDocument)
      → (evaluate numbers (some document) request ≡ Decision.deny)
        ↔ Exists Denies document.statement
  unfolding evaluate decision_of
  evaluate-deny_iff document =
      ground (arith, evaluate_from-eq false document.statement, Exists-denies document.statement)

  -- A document decides `allow` exactly when one of its Allow statements matches the request and
  -- none of its Deny statements does.
  pub evaluate-allow_iff :
      (document : PolicyDocument)
      → (evaluate numbers (some document) request ≡ Decision.allow)
        ↔ (Exists Allows document.statement × ¬ Exists Denies document.statement)
  unfolding evaluate decision_of
  evaluate-allow_iff document = ground (
    arith,
    evaluate_from-eq false document.statement,
    Exists-denies document.statement,
    Exists-allows document.statement,
  )

  any-permᴰ :
      (p : PolicyStatement → Bool) {xs ys : List PolicyStatement}
      → Permᴰ xs ys
      → any p xs ≡ any p ys
  any-permᴰ p Permᴰ.nil = refl
  any-permᴰ p (Permᴰ.cons e h) = cc (ap p e, any-permᴰ p h)
  any-permᴰ p (Permᴰ.swap {a = a} {b = b} {a' = c} {b' = d} {l = l} e f) =
      let e' : p a ≡ p d = ap p e in let f' : p b ≡ p c = ap p f in ground arith
  any-permᴰ p (Permᴰ.trans h k) = any-permᴰ p h ∙ any-permᴰ p k

  evaluate-permᴰ :
      {ss ts : List PolicyStatement}
      → Permᴰ ss ts
      → evaluate_from numbers false ss request ≡ evaluate_from numbers false ts request
  evaluate-permᴰ {ss} {ts} h =
      cc (
        evaluate_from-eq false ss,
        evaluate_from-eq false ts,
        any-permᴰ denies h,
        any-permᴰ allows h,
      )

  -- The decision does not depend on the order of the statements.
  pub evaluate-perm :
      (document : PolicyDocument) (statements : List PolicyStatement)
      → Perm document.statement statements
      → evaluate numbers (some document) request
        ≡ evaluate numbers (some (record document { statement = statements })) request
  unfolding evaluate
  evaluate-perm document statements h =
      ∥∥₁_elim h (hedberg Decision-discrete _ _) (λ d. evaluate-permᴰ d)
