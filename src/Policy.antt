-- ===== src/Policy.antt =====
-- Bucket policies: libs/domains/src/policies/policies.types.ts. The engine of
-- policies.service.ts is in the modules below.
pub mod Address
pub mod Conditions
pub mod Evaluate
pub mod Store
use simple_storage_service.Prelude.{ℕ, ◌≡◌, Bool, Option, none, some, List, [], ◌∷◌}
use simple_storage_service.Prelude.Text.{Text}

-- `'Allow' | 'Deny'`.
pub data Effect : Type 0 where
  allow deny : Effect

-- `string | string[]`.
pub data OneOrMany : Type 0 where
  one : Text → OneOrMany
  many : List Text → OneOrMany

-- `'*' | { AWS: string | string[] }`.
pub data Principal : Type 0 where
  everyone : Principal
  aws : OneOrMany → Principal

-- `Record<operator, Record<key, string | string[]>>`, as its entries.
abbrev pub ConditionBlock : Type 0
ConditionBlock = List (Text × List (Text × OneOrMany))

pub record PolicyStatement : Type 0 where
  pub effect : Effect
  pub principal : Option Principal
  pub action : OneOrMany
  pub not_action : Option OneOrMany
  pub resource : OneOrMany
  pub not_resource : Option OneOrMany
  pub condition : Option ConditionBlock

pub record PolicyDocument : Type 0 where
  pub version : Text
  pub statement : List PolicyStatement

-- Values a `Condition` block is evaluated against; `none` is `undefined`.
abbrev pub PolicyContext : Type 0
PolicyContext = Text → Option OneOrMany

pub record EvaluationRequest : Type 0 where
  pub action : Text
  pub resource : Text
  pub principal_user_guid : Option Text
  pub access_key_id : Option Text
  pub context : PolicyContext

pub data Decision : Type 0 where
  allow deny not_applicable : Decision

-- `toArray`.
unfoldable pub to_array : Option OneOrMany → List Text
to_array none = []
to_array (some (one text)) = text ∷ []
to_array (some (many texts)) = texts

-- JavaScript's numbers and dates, which this development does not implement: `Number`,
-- `Number.isFinite`, the comparisons, a value as a non-negative integer, `Number(value) * 1000`
-- and `Date.parse` (`none` is `NaN`). The law is that of the language: the empty string
-- converts to 0.
pub record Numbers : Type 1 where
  pub Num : Type 0
  pub to_number : Text → Num
  pub is_finite : Num → Bool
  pub num_eq : Num → Num → Bool
  pub num_lt : Num → Num → Bool
  pub num_le : Num → Num → Bool
  pub natural : Num → Option ℕ
  pub epoch_millis : Text → Num
  pub date_parse : Text → Option Num
  pub natural-empty : natural (to_number []) ≡ some 0
