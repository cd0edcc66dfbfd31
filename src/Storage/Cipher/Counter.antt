-- ===== src/Storage/Cipher/Counter.antt =====
-- `advanceIv` on the 16-byte counter.
use native.Mathlib.Nat.{pow-suc, add-mul-mod_self_left, mod-eq_of_lt}
use mathlib.Core.List.{reverse, reverse-reverse}
use simple_storage_service.Prelude.{
  ℕ, suc, ◌+◌, ◌*◌, ◌/◌, ◌%◌, ◌^◌, ◌<◌, ◌≡◌, refl, sym, ◌∙◌, ap, [], ◌∷◌, arith, inl, inr,
}
use simple_storage_service.Prelude.Tests.{◌==◌, Bool-cases}
use simple_storage_service.Prelude.Lists.{length, All-reverse, length-reverse}
use simple_storage_service.Storage.Cipher.{
  Bytes, AreBytes, little_endian, big_endian, add_carry, advance_iv,
}

abbrev pub capacity : Bytes → ℕ
capacity bytes = 256 ^ length bytes

little_endian-lt : (bs : Bytes) → AreBytes bs → little_endian bs < capacity bs
unfolding little_endian
little_endian-lt [] h = omega arith
little_endian-lt (b ∷ bs) (small, h) =
    let ih : little_endian bs < 256 ^ length bs = little_endian-lt bs h in rw pow-suc (omega arith)

-- The carry that leaves the top is the quotient by the capacity.
overflow : Bytes → ℕ → ℕ
overflow [] carry = carry
overflow (b ∷ bs) carry = overflow bs (carry / 256 + (b + carry % 256) / 256)

overflow-zero : (bs : Bytes) → AreBytes bs → overflow bs 0 ≡ 0
unfolding overflow
overflow-zero [] h = refl
overflow-zero (b ∷ bs) (small, h) =
    let e : 0 / 256 + (b + 0 % 256) / 256 ≡ 0 = omega arith in rw e (overflow-zero bs h)

add_carry-total :
    (bs : Bytes) (carry : ℕ)
    → AreBytes bs
    → little_endian (add_carry bs carry) + capacity bs * overflow bs carry
      ≡ little_endian bs + carry
unfolding little_endian add_carry overflow
add_carry-total [] carry h = omega arith
add_carry-total (b ∷ bs) carry (small, h) = elim (Bool-cases (carry == 0)) [
  | inl done ↦
      let z : carry ≡ 0 = ground arith in
      let e : 0 / 256 + (b + 0 % 256) / 256 ≡ 0 = omega arith in
      rw (z, e, overflow-zero bs h) (omega arith)
  | inr more ↦
      let ih = add_carry-total bs (carry / 256 + (b + carry % 256) / 256) h in
      rw (more, pow-suc) (omega (arith, ap (λ (t : ℕ). 256 * t) ih))
]

add_carry-AreBytes : (bs : Bytes) (carry : ℕ) → AreBytes bs → AreBytes (add_carry bs carry)
unfolding add_carry
add_carry-AreBytes [] carry h = h
add_carry-AreBytes (b ∷ bs) carry (small, h) = elim (Bool-cases (carry == 0)) [
  | inl done ↦ rw done (small, h)
  | inr more ↦ rw more (omega arith, add_carry-AreBytes bs _ h)
]

length-add_carry : (bs : Bytes) (carry : ℕ) → length (add_carry bs carry) ≡ length bs
unfolding add_carry
length-add_carry [] carry = refl
length-add_carry (b ∷ bs) carry = elim (Bool-cases (carry == 0)) [
  | inl done ↦ rw done
  | inr more ↦ rw more (ap suc (length-add_carry bs _))
]

mod_of_total : (x m o y : ℕ) → x < m → x + m * o ≡ y → x ≡ y % m
mod_of_total x m o y h e = rw (← e) (sym (add-mul-mod_self_left x m o ∙ mod-eq_of_lt h))

add_carry_lem :
    (bs : Bytes) (carry : ℕ)
    → AreBytes bs
    → little_endian (add_carry bs carry) ≡ (little_endian bs + carry) % capacity bs
add_carry_lem bs carry h =
    mod_of_total _ (capacity bs) (overflow bs carry) _
      (rw length-add_carry at
        (little_endian-lt (add_carry bs carry) (add_carry-AreBytes bs carry h)))
      (add_carry-total bs carry h)

-- Advancing a counter adds to the number that it spells, highest byte first, and wraps at the
-- capacity of its bytes; it stays as long, and its bytes stay bytes.
pub big_endian-advance_iv :
    (iv : Bytes) (blocks : ℕ)
    → AreBytes iv
    → (big_endian (advance_iv iv blocks) ≡ (big_endian iv + blocks) % 256 ^ length iv)
      × AreBytes (advance_iv iv blocks)
      × (length (advance_iv iv blocks) ≡ length iv)
unfolding big_endian advance_iv
big_endian-advance_iv iv blocks h =
    let reversed : AreBytes (reverse iv) = All-reverse _ iv h in
    (
      rw reverse-reverse (rw length-reverse at (add_carry_lem (reverse iv) blocks reversed)),
      All-reverse _ _ (add_carry-AreBytes (reverse iv) blocks reversed),
      length-reverse (add_carry (reverse iv) blocks)
          ∙ length-add_carry (reverse iv) blocks
          ∙ length-reverse iv,
    )
