-- ===== src/Prelude/Result.antt =====
-- What a function that may throw returns, with the error type of its component.
use mathlib.Core.Path.{◌≡◌, refl}
use mathlib.Core.Logic.{◌↔◌, ◌⊎◌, inl, inr}
use mathlib.Core.Bool.{Bool}
use mathlib.Core.Option.{Option, some}
use simple_storage_service.Prelude.Tests.{if◌then◌else◌}

pub data Result {ℓ κ} (E : Type κ) (A : Type ℓ) : Type (ℓ ⊔ κ) where
  ok : A → Result E A
  err : E → Result E A

infixl 5 ◌>>=◌ ◌>>◌
-- The second step runs on what the first one gives.
abbrev pub ◌>>=◌ {ε α β} :
    {E : Type ε} {A : Type α} {B : Type β} → Result E A → (A → Result E B) → Result E B
err error >>= next = err error
ok value >>= next = next value

-- The second step runs behind a check.
abbrev pub ◌>>◌ {ε β} : {E : Type ε} {B : Type β} → Result E (Unit {0}) → Result E B → Result E B
err error >> next = err error
ok _ >> next = next

-- `if (!test) throw error`.
abbrev pub guard {ε} : {E : Type ε} → Bool → E → Result E (Unit {0})
guard test error = if test then ok tt else err error

-- Where two steps succeed, the first one did, and the second one on its value.
pub >>=-succeeds {ε α β} :
    {E : Type ε} {A : Type α} {B : Type β} (first : Result E A) (next : A → Result E B) {done : B}
    → (first >>= next) ≡ ok done
    → (value : A) × (first ≡ ok value) × (next value ≡ ok done)
>>=-succeeds (err error) next e = cc
>>=-succeeds (ok value) next e = (value, refl, e)

pub ok-injective {ℓ μ} :
    {E : Type μ} {A : Type ℓ} {a b : A} → ◌≡◌ {A = Result E A} (ok a) (ok b) → a ≡ b
ok-injective h = cc

pub >>-succeeds {ε β} :
    {E : Type ε} {B : Type β} (m : Result E (Unit {0})) (k : Result E B) {b : B}
    → (m >> k) ≡ ok b
    → (m ≡ ok tt) × (k ≡ ok b)
>>-succeeds (ok tt) k h = (refl, h)
>>-succeeds (err e) k h = cc

-- Two checks pass exactly when each does.
pub >>_iff {ε} :
    {E : Type ε} (m k : Result E (Unit {0})) → ((m >> k) ≡ ok tt) ↔ ((m ≡ ok tt) × (k ≡ ok tt))
>>_iff (ok tt) k = (λ h. (refl, h), λ h. h.1)
>>_iff (err e) k = (λ h. cc, λ h. cc)

pub Result-cases {ε α} :
    {E : Type ε} {A : Type α} (r : Result E A)
    → ((value : A) × (r ≡ ok value)) ⊎ ((error : E) × (r ≡ err error))
Result-cases (ok value) = inl (value, refl)
Result-cases (err error) = inr (error, refl)

pub some-injective {α} : {A : Type α} {a b : A} → ◌≡◌ {A = Option A} (some a) (some b) → a ≡ b
some-injective h = cc
