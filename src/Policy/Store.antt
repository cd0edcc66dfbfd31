-- ===== src/Policy/Store.antt =====
-- `validate`, `set`, `get` and `delete` of libs/domains/src/policies/policies.service.ts. A
-- document arrives as parsed JSON; no key of an object stands twice in it.
pub mod Validity
use simple_storage_service.Prelude.{ℕ, Bool, true, false, not, ◌&&◌, ◌||◌, Option, none, some, []}
use simple_storage_service.Prelude.Tests.{◌==◌, if◌then◌else◌}
use simple_storage_service.Prelude.Text.{Text, str, text_eq}
use simple_storage_service.Prelude.Result.{Result, ok, err, ◌>>=◌, ◌>>◌, guard}
use simple_storage_service.Prelude.Table.{Table, lookup, upsert, remove}

mutual
  pub data Json : Type 0 where
    null : Json
    bool : Bool → Json
    num : ℕ → Json
    text : Text → Json
    arr : Items → Json
    obj : Fields → Json

  pub data Items : Type 0 where
    nil : Items
    cons : Json → Items → Items

  pub data Fields : Type 0 where
    end : Fields
    field : Text → Json → Fields → Fields

-- `InvalidPolicyDocumentError`, and the `TypeError` of reading a property of `null`.
pub data PolicyError : Type 0 where
  invalid_policy_document type_error : PolicyError

unfoldable pub field_of : Text → Fields → Option Json
field_of key end = none
field_of key (field name value rest) = if text_eq name key then some value else field_of key rest

-- `value[key]` on anything but `null`; what is no object has none of the keys asked for here.
unfoldable pub property : Text → Json → Option Json
unfolding field_of
property key (obj fields) = field_of key fields
property key _ = none

-- `!value` fails.
unfoldable pub truthy : Option Json → Bool
truthy none = false
truthy (some null) = false
truthy (some (bool b)) = b
truthy (some (num n)) = not (n == 0)
truthy (some (text t)) = not (text_eq t [])
truthy (some (arr items)) = true
truthy (some (obj fields)) = true

unfoldable pub is_text : Option Json → Text → Bool
is_text (some (text t)) expected = text_eq t expected
is_text _ expected = false

-- `typeof value === 'object' && value !== null && !Array.isArray(value)`.
unfoldable pub is_object : Json → Bool
is_object (obj fields) = true
is_object _ = false

unfoldable pub all_objects : Fields → Bool
unfolding is_object
all_objects end = true
all_objects (field name value rest) = is_object value && all_objects rest

unfoldable pub condition_is_valid : Option Json → Bool
unfolding all_objects
condition_is_valid none = true
condition_is_valid (some (obj fields)) = all_objects fields
condition_is_valid (some _) = false

validate_condition : Option Json → Result PolicyError (Unit {0})
validate_condition condition = guard (condition_is_valid condition) invalid_policy_document

-- The checks of one statement that is not `null`, in order.
unfoldable pub effect_is_valid : Json → Bool
unfolding is_text property
effect_is_valid statement =
    is_text (property (str "Effect") statement) (str "Allow")
    || is_text (property (str "Effect") statement) (str "Deny")

unfoldable pub has_target : Json → Bool
unfolding truthy property
has_target statement =
    truthy (property (str "Action") statement) && truthy (property (str "Resource") statement)

unfoldable pub validate_statement : Json → Result PolicyError (Unit {0})
unfolding validate_condition
validate_statement null = err type_error
validate_statement statement = do
  guard (effect_is_valid statement) invalid_policy_document
  guard (has_target statement) invalid_policy_document
  validate_condition (property (str "Condition") statement)

unfoldable pub validate_statements : Items → Result PolicyError (Unit {0})
validate_statements nil = ok tt
validate_statements (cons statement rest) = validate_statement statement >> validate_statements rest

-- The `Statement` array of a document, or the first check's failure.
unfoldable pub statements_of : Json → Result PolicyError Items
statements_of document = elim (property (str "Statement") document) [
  | none ↦ err invalid_policy_document
  | some value ↦ elim value [ arr items ↦ ok items | _ ↦ err invalid_policy_document ]
]

unfoldable pub validate : Json → Result PolicyError (Unit {0})
unfolding statements_of validate_statements
validate document = statements_of document >>= validate_statements

-- `bucket_policy`: one row per bucket.
pub record PolicyRow : Type 0 where
  pub document : Json
  pub updated_by_user_guid : Option ℕ

abbrev pub PolicyTable : Type 0
PolicyTable = Table PolicyRow

unfoldable pub get : PolicyTable → ℕ → Option Json
get table bucket_guid = elim (lookup bucket_guid table) [
  | none ↦ none
  | some row ↦ some row.document
]

unfoldable pub set : PolicyTable → ℕ → Json → Option ℕ → Result PolicyError PolicyTable
set table bucket_guid document updated_by = do
  validate document
  ok (upsert bucket_guid (record { document = document; updated_by_user_guid = updated_by }) table)

unfoldable pub delete : PolicyTable → ℕ → PolicyTable
delete table bucket_guid = remove bucket_guid table
