-- ===== src/Tests/Naturals.antt =====
-- A toy `Number`, which reads the digits of natural numbers.
use simple_storage_service.Prelude.{
  ℕ, zero, suc, ◌+◌, ◌-◌, ◌*◌, ◌/◌, ◌%◌, ◌<◌, ◌≡◌, refl, ap, ◌∙◌, true, Option, none, some, [], ◌∷◌,
  arith, inl, inr,
}
use simple_storage_service.Prelude.Tests.{ltb, if◌then◌else◌, Bool-cases}
use simple_storage_service.Prelude.Lists.{all}
use simple_storage_service.Prelude.Text.{
  Text, is_digit, decimal, decimal_from, to_decimal, digits_before,
}

-- `Number` on digits, and not a number on other texts.
unfoldable pub natural : Text → Option ℕ
natural text = if all is_digit text then some (decimal text) else none

digits_before-digits :
    (fuel n : ℕ) (text : Text)
    → n < fuel
    → all is_digit text ≡ true
    → all is_digit (digits_before fuel n text) ≡ true
unfolding digits_before
digits_before-digits zero n text enough digits = absurd (omega arith)
digits_before-digits (suc fuel) n text enough digits =
    ground (arith, digits_before-digits fuel (n / 10) ((b'0' + n % 10) ∷ text))

decimal-digits_before :
    (fuel n : ℕ) (text : Text)
    → n < fuel
    → decimal_from 0 (digits_before fuel n text) ≡ decimal_from n text
unfolding digits_before decimal_from
decimal-digits_before zero n text enough = absurd (omega arith)
decimal-digits_before (suc fuel) n text enough = elim (Bool-cases (ltb n 10)) [
  | inl small ↦
      let same : 0 * 10 + (b'0' + n - b'0') ≡ n = omega arith in
      rw small (ap (λ (m : ℕ). decimal_from m text) same)
  | inr large ↦
      let same : n / 10 * 10 + (b'0' + n % 10 - b'0') ≡ n = omega arith in
      rw large (
        decimal-digits_before fuel (n / 10) ((b'0' + n % 10) ∷ text) (ground arith)
        ∙ ap (λ (m : ℕ). decimal_from m text) same)
]

pub natural-to_decimal : (n : ℕ) → natural (to_decimal n) ≡ some n
unfolding natural decimal to_decimal decimal_from
natural-to_decimal n =
    let digits = digits_before-digits (suc n) n [] (omega arith) refl in
    rw digits (ap some (decimal-digits_before (suc n) n [] (omega arith)))
