-- ===== src/Policy/Store/Validity.antt =====
-- Which documents are stored, and what a stored policy reads back as.
use mathlib.Core.Path.{subst}
use simple_storage_service.Prelude.{
  ℕ, ◌≤◌, ◌≡◌, refl, ap, sym, ◌↔◌, ◌⊎◌, inl, inr, Bool, true, false, ◌||◌, Option, none, some, [],
  ◌∷◌, arith,
}
use simple_storage_service.Prelude.Tests.{&&-parts, ||-parts, ◌==◌, if◌then◌else◌}
use simple_storage_service.Prelude.Text.{Text, str, text_eq, text_eq_iff, text_eq_refl}
use simple_storage_service.Prelude.Result.{some-injective, ok, >>=-succeeds, >>-succeeds}
use simple_storage_service.Prelude.Lists.{length}
use simple_storage_service.Prelude.Table.{upsert, lookup-upsert, lookup-remove}
use simple_storage_service.Policy.Store.{
  Json, null, bool, num, text, arr, obj, Items, nil, cons, Fields, end, field, truthy, is_text,
  is_object, all_objects, property, condition_is_valid, effect_is_valid, has_target,
  validate_statement, validate_statements, statements_of, validate, PolicyRow, PolicyTable, get,
  set, delete,
}

-- A property that is there, and neither `null`, `false`, zero nor the empty text.
abbrev pub IsGiven : Option Json → Type 0
IsGiven none = ⊥
IsGiven (some null) = ⊥
IsGiven (some (bool b)) = b ≡ true
IsGiven (some (num n)) = 1 ≤ n
IsGiven (some (text t)) = 1 ≤ length t
IsGiven (some (arr items)) = Unit {0}
IsGiven (some (obj fields)) = Unit {0}

-- Every value of an object is an object.
abbrev pub AllBlocks : Fields → Type 0
AllBlocks end = Unit {0}
AllBlocks (field name value rest) = ((block : Fields) × (value ≡ obj block)) × AllBlocks rest

-- No condition, or an object of objects.
abbrev pub IsCondition : Option Json → Type 0
IsCondition none = Unit {0}
IsCondition (some condition) = (blocks : Fields) × (condition ≡ obj blocks) × AllBlocks blocks

-- A statement with an effect, an action, a resource and no condition or one of blocks.
pub record IsStatement (statement : Json) : Type 0 where
  pub effect :
      (property (str "Effect") statement ≡ some (text (str "Allow")))
      ⊎ (property (str "Effect") statement ≡ some (text (str "Deny")))
  pub action : IsGiven (property (str "Action") statement)
  pub resource : IsGiven (property (str "Resource") statement)
  pub condition : IsCondition (property (str "Condition") statement)

abbrev pub AllStatements : Items → Type 0
AllStatements nil = Unit
AllStatements (cons statement rest) = IsStatement statement × AllStatements rest

text_injective : {t u : Text} → text t ≡ text u → t ≡ u
text_injective e = cc

obj_injective : {a b : Fields} → obj a ≡ obj b → a ≡ b
obj_injective e = cc

||-left : (a b : Bool) → a ≡ true → (a || b) ≡ true
||-left a b h = ground arith

||-right : (a b : Bool) → b ≡ true → (a || b) ≡ true
||-right a b h = ground arith

is_text_iff : (o : Option Json) (t : Text) → (is_text o t ≡ true) ↔ (o ≡ some (text t))
unfolding is_text
is_text_iff none t = (λ h. cc, λ e. cc)
is_text_iff (some (text u)) t = (
  λ h. ap (λ (x : Text). some (text x)) ((text_eq_iff u t).0 h),
  λ e. rw (text_injective (some-injective e)) (text_eq_refl t),
)
is_text_iff (some _) t = (λ h. cc, λ e. cc)

truthy_iff : (o : Option Json) → (truthy o ≡ true) ↔ IsGiven o
unfolding truthy text_eq
truthy_iff none = (λ h. cc, λ g. absurd g)
truthy_iff (some null) = (λ h. cc, λ g. absurd g)
truthy_iff (some (bool b)) = (λ h. h, λ g. g)
truthy_iff (some (num n)) = ground arith
truthy_iff (some (text [])) =
    (λ h. absurd (let no = text_eq_refl [] in ground arith), λ g. absurd (omega arith))
truthy_iff (some (text (c ∷ cs))) = (λ h. omega arith, λ g. refl)
truthy_iff (some (arr items)) = (λ h. tt, λ g. refl)
truthy_iff (some (obj fields)) = (λ h. tt, λ g. refl)

is_object_iff : (value : Json) → (is_object value ≡ true) ↔ ((block : Fields) × (value ≡ obj block))
unfolding is_object
is_object_iff (obj fields) = (λ h. (fields, refl), λ g. refl)
is_object_iff _ = (λ h. cc, λ (block, e). cc)

all_objects_iff : (fields : Fields) → (all_objects fields ≡ true) ↔ AllBlocks fields
unfolding all_objects
all_objects_iff end = (λ h. tt, λ g. refl)
all_objects_iff (field name value rest) =
    let first = is_object_iff value in
    let more = all_objects_iff rest in
    (
      λ h.
          let (here, behind) = &&-parts (is_object value) (all_objects rest) h in
          (first.0 here, more.0 behind),
      λ (here, behind). rw (first.1 here) (more.1 behind),
    )

condition_is_valid_iff : (o : Option Json) → (condition_is_valid o ≡ true) ↔ IsCondition o
unfolding condition_is_valid
condition_is_valid_iff none = (λ h. tt, λ g. refl)
condition_is_valid_iff (some (obj fields)) = (
  λ h. (fields, refl, (all_objects_iff fields).0 h),
  λ (blocks, e, all). (all_objects_iff fields).1 (subst AllBlocks (sym (obj_injective e)) all),
)
condition_is_valid_iff (some _) = (λ h. cc, λ (blocks, e, all). cc)

-- The Boolean checks of a statement.
abbrev Passes : Json → Type 0
Passes s =
    (effect_is_valid s ≡ true)
    × (has_target s ≡ true)
    × (condition_is_valid (property (str "Condition") s) ≡ true)

null_has_no_effect : effect_is_valid null ≡ false
unfolding effect_is_valid
null_has_no_effect = refl

validate_statement-Passes : (s : Json) → (validate_statement s ≡ ok tt) ↔ Passes s
unfolding validate_statement
validate_statement-Passes null = (λ h. cc, λ v. cc (v.0, null_has_no_effect))
validate_statement-Passes _ = ground arith

Passes-IsStatement : (s : Json) → Passes s ↔ IsStatement s
unfolding effect_is_valid has_target
Passes-IsStatement s =
    let effect = property (str "Effect") s in
    let allows = is_text_iff effect (str "Allow") in
    let denies = is_text_iff effect (str "Deny") in
    let action = truthy_iff (property (str "Action") s) in
    let resource = truthy_iff (property (str "Resource") s) in
    let condition = condition_is_valid_iff (property (str "Condition") s) in
    (
      λ (effect_valid, targeted, conditioned).
          let (acts, on) = &&-parts _ _ targeted in
          record {
            effect = elim (||-parts _ _ effect_valid) [
              | inl h ↦ inl (allows.0 h)
              | inr h ↦ inr (denies.0 h)
            ];
            action = action.0 acts;
            resource = resource.0 on;
            condition = condition.0 conditioned;
          },
      λ v. (
        elim v.effect [ inl h ↦ ||-left _ _ (allows.1 h) | inr h ↦ ||-right _ _ (denies.1 h) ],
        rw (action.1 v.action) (resource.1 v.resource),
        condition.1 v.condition,
      ),
    )

validate_statement_iff : (s : Json) → (validate_statement s ≡ ok tt) ↔ IsStatement s
validate_statement_iff s =
    let checks = validate_statement-Passes s in
    let meaning = Passes-IsStatement s in (λ h. meaning.0 (checks.0 h), λ v. checks.1 (meaning.1 v))

validate_statements_iff :
    (items : Items) → (validate_statements items ≡ ok tt) ↔ AllStatements items
unfolding validate_statements
validate_statements_iff nil = (λ h. tt, λ v. refl)
validate_statements_iff (cons s rest) =
    ground (arith, validate_statement_iff s, validate_statements_iff rest)

statements_of-ok :
    (document : Json) (items : Items)
    → statements_of document ≡ ok items
    → property (str "Statement") document ≡ some (arr items)
unfolding statements_of
statements_of-ok document items h = ground arith

ok-statements_of :
    (document : Json) (items : Items)
    → property (str "Statement") document ≡ some (arr items)
    → statements_of document ≡ ok items
unfolding statements_of
ok-statements_of document items e = rw (e, statements_of) refl

-- A document passes `validate` exactly when its `Statement` is an array in which every entry has
-- the effect Allow or Deny, an action and a resource that are given - neither `null`, `false`,
-- zero nor empty texts -, and no condition or one that is an object whose values are all objects.
pub validate_iff :
    (document : Json)
    → (validate document ≡ ok tt) ↔ (
        (items : Items) × (property (str "Statement") document ≡ some (arr items))
        × AllStatements items)
unfolding validate
validate_iff document = (
  λ h.
      let (items, e, valid) = >>=-succeeds (statements_of document) validate_statements h in
      (items, statements_of-ok document items e, (validate_statements_iff items).0 valid),
  λ (items, e, valid).
      rw (ok-statements_of document items e) ((validate_statements_iff items).1 valid),
)

module _ (table : PolicyTable) (bucket_guid : ℕ) (document : Json) (updated_by : Option ℕ) where
  -- `set` succeeds only on a valid document, which `get` then returns for that bucket; the
  -- policies of the other buckets stay, and `delete` takes the policy away again.
  pub get-set :
      {table' : PolicyTable}
      → set table bucket_guid document updated_by ≡ ok table'
      → (validate document ≡ ok tt)
        × ((other : ℕ)
            → get table' other ≡ (if bucket_guid == other then some document else get table other))
        × ((other : ℕ)
            → get (delete table' bucket_guid) other
              ≡ (if bucket_guid == other then none else get table other))
  unfolding set get delete
  get-set {table'} h =
      let row : PolicyRow = record { document = document; updated_by_user_guid = updated_by } in
      let (valid, stored) = >>-succeeds (validate document) _ h in
      let same : upsert bucket_guid row table ≡ table' = ground arith in
      (
        valid,
        λ other. rw (← same) (ground (arith, lookup-upsert bucket_guid other row table)),
        λ other. rw (← same) (
            ground (
              arith,
              lookup-remove bucket_guid other (upsert bucket_guid row table),
              lookup-upsert bucket_guid other row table,
            )),
      )
