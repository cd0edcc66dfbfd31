-- ===== src/Policy/Address/Laws.antt =====
-- What `ipMatches` decides.
use native.Mathlib.Nat.{
  div-div-eq-div-mul, pow-suc, one-le-pow, mod-eq_of_lt, div-lt_iff_lt-mul, mul-div_cancel,
  mul_comm,
}
use native.Mathlib.Decide.{ℕ_discrete}
use mathlib.Core.List.{append-nil, append_assoc}
use simple_storage_service.Prelude.{
  ℕ, zero, suc, ◌+◌, ◌-◌, ◌*◌, ◌/◌, ◌%◌, ◌^◌, ◌≤◌, ◌<◌, ◌≡◌, refl, ◌∙◌, ap, ◌↔◌, Bool, true, false,
  ◌&&◌, sym, some, List, [], ◌∷◌, ◌++◌, arith,
}
use simple_storage_service.Prelude.Tests.{ltb, ◌==◌, ==_iff}
use simple_storage_service.Prelude.Lists.{All}
use simple_storage_service.Prelude.Text.{Text, decimal, split_from, split}
use simple_storage_service.Policy.{Numbers}
use simple_storage_service.Policy.Address.{
  is_octet, strip_mapped, and_bits, or_bits, push_octet, octets_number, to_ipv4_number, prefix_mask,
  same_network, ip_matches,
}

-- Digit by digit: a mask of ones keeps the low digits, and shifted to the left it keeps those above.
and_bits-ones : (w a : ℕ) → and_bits w a (2 ^ w - 1) ≡ a % 2 ^ w
unfolding and_bits
and_bits-ones zero a = omega arith
and_bits-ones (suc w) a =
    let positive : 1 ≤ 2 ^ w = one-le-pow w 2 (omega arith) in
    let half : (2 ^ w * 2 - 1) / 2 ≡ 2 ^ w - 1 = omega arith in
    let ih : and_bits w (a / 2) (2 ^ w - 1) ≡ a / 2 % 2 ^ w = and_bits-ones w (a / 2) in
    rw (pow-suc, half, ih) (grind arith)

widen : ℕ → ℕ → ℕ
widen zero w = w
widen (suc k) w = suc (widen k w)

widen-add : (k w : ℕ) → widen k w ≡ k + w
unfolding widen
widen-add zero w = omega arith
widen-add (suc k) w = omega (arith, widen-add k w)

and_bits-shifted :
    (k w a m : ℕ) → and_bits (widen k w) a (m * 2 ^ k) ≡ and_bits w (a / 2 ^ k) m * 2 ^ k
unfolding and_bits widen
and_bits-shifted zero w a m =
    let e : m * 1 ≡ m = omega arith in let d : a / 1 ≡ a = omega arith in rw (e, d) (omega arith)
and_bits-shifted (suc k) w a m =
    let e : m * (2 ^ k * 2) / 2 ≡ m * 2 ^ k = omega arith in
    let ih : and_bits (widen k w) (a / 2) (m * 2 ^ k) ≡ and_bits w (a / 2 / 2 ^ k) m * 2 ^ k =
      and_bits-shifted k w (a / 2) m in
    let d : a / 2 / 2 ^ k ≡ a / (2 * 2 ^ k) = div-div-eq-div-mul a 2 (2 ^ k) in
    let c : 2 * 2 ^ k ≡ 2 ^ k * 2 = omega arith in rw (pow-suc, e, ih, d, c) (omega arith)

-- The mask of each of the 32 lengths, by evaluation.
each_below : (ℕ → Bool) → ℕ → Bool
each_below p zero = true
each_below p (suc n) = each_below p n && p n

each_below_lem : (p : ℕ → Bool) (n k : ℕ) → k < n → each_below p n ≡ true → p k ≡ true
unfolding each_below
each_below_lem p zero k low h = absurd (omega arith)
each_below_lem p (suc n) k low h =
    let (before, last) : (each_below p n ≡ true) × (p n ≡ true) = ground arith in
    elim (ℕ_discrete k n) [
      | yes same ↦ rw same last
      | no other ↦ each_below_lem p n k (omega arith) before
    ]

mask_table : each_below (λ b. prefix_mask (suc b) == (2 ^ suc b - 1) * 2 ^ (31 - b)) 32 ≡ true
unfolding each_below prefix_mask
mask_table = refl

prefix_mask_lem : (b : ℕ) → b < 32 → prefix_mask (suc b) ≡ (2 ^ suc b - 1) * 2 ^ (31 - b)
prefix_mask_lem b h = (==_iff _ _).0 (each_below_lem _ 32 b h mask_table)

power_table : each_below (λ b. 2 ^ 32 == 2 ^ (31 - b) * 2 ^ suc b) 32 ≡ true
unfolding each_below
power_table = refl

power_split : (b : ℕ) → b < 32 → 2 ^ 32 ≡ 2 ^ (31 - b) * 2 ^ suc b
power_split b h = (==_iff _ _).0 (each_below_lem _ 32 b h power_table)

masked :
    (b a : ℕ)
    → b < 32
    → a < 2 ^ 32
    → and_bits 32 a (prefix_mask (suc b)) ≡ a / 2 ^ (31 - b) * 2 ^ (31 - b)
masked b a hb ha =
    let width : widen (31 - b) (suc b) ≡ 32 = omega (arith, widen-add (31 - b) (suc b)) in
    let shifted : and_bits (widen (31 - b) (suc b)) a ((2 ^ suc b - 1) * 2 ^ (31 - b))
        ≡ and_bits (suc b) (a / 2 ^ (31 - b)) (2 ^ suc b - 1) * 2 ^ (31 - b) =
      and_bits-shifted (31 - b) (suc b) a (2 ^ suc b - 1) in
    let small : a / 2 ^ (31 - b) < 2 ^ suc b =
      (div-lt_iff_lt-mul (one-le-pow (31 - b) 2 (omega arith))).1
        (rw (← mul_comm (2 ^ (31 - b)) (2 ^ suc b), ← power_split b hb) ha) in
    rw (prefix_mask_lem b hb) (rw width at shifted)
    ∙ ap (λ (t : ℕ). t * 2 ^ (31 - b))
        (and_bits-ones (suc b) (a / 2 ^ (31 - b)) ∙ mod-eq_of_lt small)

times_cancel : (a b q : ℕ) → 0 < q → a * q ≡ b * q → a ≡ b
times_cancel a b q h e = sym (mul-div_cancel a h) ∙ ap (λ (t : ℕ). t / q) e ∙ mul-div_cancel b h

-- For a prefix length up to 32 and 32-bit addresses, `ipMatches` compares the leading bits:
-- those above the last `32 - bits`.
pub same_network_iff :
    (bits network value : ℕ)
    → bits ≤ 32
    → network < 2 ^ 32
    → value < 2 ^ 32
    → (same_network bits network value ≡ true)
      ↔ (network / 2 ^ (32 - bits) ≡ value / 2 ^ (32 - bits))
unfolding same_network
same_network_iff zero n v h hn hv =
    let low : n / 4294967296 ≡ 0 = omega arith in
    let low' : v / 4294967296 ≡ 0 = omega arith in (λ _. low ∙ sym low', λ _. refl)
same_network_iff (suc b) n v h hn hv =
    let e : 32 - suc b ≡ 31 - b = omega arith in
    let limit : ltb 32 (suc b) ≡ false = ground arith in
    let some_bits : (suc b == 0) ≡ false = ground arith in
    rw (e, limit, some_bits, masked b n (omega arith) hn, masked b v (omega arith) hv)
      (
        λ t.
            times_cancel _ _ (2 ^ (31 - b)) (one-le-pow (31 - b) 2 (omega arith))
              ((==_iff _ _).0 t),
        λ t. (==_iff _ _).1 (ap (λ (u : ℕ). u * 2 ^ (31 - b)) t),
      )

or_bits-lt : (w a b : ℕ) → or_bits w a b < 2 ^ w
unfolding or_bits
or_bits-lt zero a b = omega arith
or_bits-lt (suc w) a b =
    let ih : or_bits w (a / 2) (b / 2) < 2 ^ w = or_bits-lt w (a / 2) (b / 2) in
    rw pow-suc (omega arith)

or_bits-zero : (w a : ℕ) → or_bits w a 0 ≡ a % 2 ^ w
unfolding or_bits
or_bits-zero zero a = omega arith
or_bits-zero (suc w) a =
    let positive : 1 ≤ 2 ^ w = one-le-pow w 2 (omega arith) in
    rw (pow-suc, or_bits-zero w (a / 2)) (grind arith)

or_bits-fields :
    (k w q r : ℕ) → r < 2 ^ k → or_bits (widen k w) (q * 2 ^ k) r ≡ or_bits w q 0 * 2 ^ k + r
unfolding or_bits widen
or_bits-fields zero w q r h =
    let e : q * 1 ≡ q = omega arith in let z : r ≡ 0 = omega arith in rw (e, z) (omega arith)
or_bits-fields (suc k) w q r h =
    let e : q * (2 ^ k * 2) / 2 ≡ q * 2 ^ k = omega arith in
    let small : r / 2 < 2 ^ k = omega (arith, pow-suc 2 k) in
    let ih : or_bits (widen k w) (q * 2 ^ k) (r / 2) ≡ or_bits w q 0 * 2 ^ k + r / 2 =
      or_bits-fields k w q (r / 2) small in
    rw (pow-suc, e, ih) (omega arith)

push_octet_lem :
    (result part : ℕ) → result < 2 ^ 24 → part < 256 → push_octet result part ≡ result * 256 + part
unfolding push_octet
push_octet_lem result part hr hp =
    let wraps : result * 256 % 2 ^ 32 ≡ result * 2 ^ 8 = omega arith in
    let fields : or_bits 32 (result * 2 ^ 8) part ≡ or_bits 24 result 0 * 2 ^ 8 + part =
      (unfold widen in or_bits-fields 8 24 result part hp) in
    rw wraps (fields ∙ rw or_bits-zero (omega arith))

-- One to three digits of a number up to 255.
abbrev pub IsOctet : Text → Type 0
IsOctet octet = (is_octet octet ≡ true) × (decimal octet ≤ 255)

octets_number-cons :
    (result : ℕ) (octet : Text) (octets : List Text)
    → IsOctet octet
    → result < 2 ^ 24
    → octets_number result (octet ∷ octets) ≡ octets_number (result * 256 + decimal octet) octets
unfolding octets_number
octets_number-cons result octet octets (shape, small) h =
    let fits : ltb 255 (decimal octet) ≡ false = ground arith in
    rw (shape, fits, push_octet_lem result (decimal octet) h (omega arith))

-- An address of four octets, with or without the prefix `::ffff:`, is the number that has them
-- for its base-256 digits.
pub to_ipv4_number-dotted :
    (value a b c d : Text)
    → split b'.' (strip_mapped value) ≡ a ∷ b ∷ c ∷ d ∷ []
    → IsOctet a × IsOctet b × IsOctet c × IsOctet d
    → to_ipv4_number value
      ≡ some (((decimal a * 256 + decimal b) * 256 + decimal c) * 256 + decimal d)
unfolding to_ipv4_number
to_ipv4_number-dotted value a b c d e (ha, hb, hc, hd) = rw e (
    octets_number-cons 0 a (b ∷ c ∷ d ∷ []) ha (omega arith)
    ∙ octets_number-cons (0 * 256 + decimal a) b (c ∷ d ∷ []) hb (omega arith)
    ∙ octets_number-cons ((0 * 256 + decimal a) * 256 + decimal b) c (d ∷ []) hc (omega arith)
    ∙ octets_number-cons (((0 * 256 + decimal a) * 256 + decimal b) * 256 + decimal c) d [] hd
        (omega arith)
    ∙ unfold octets_number in ap some (omega arith))

abbrev pub Lacks : ℕ → Text → Type 0
Lacks sep text = All (λ c. (c == sep) ≡ false) text

split_from-separator :
    (piece : Text) (sep : ℕ) (text : Text)
    → Lacks sep text
    → split_from piece sep (text ++ sep ∷ []) ≡ (piece ++ text) ∷ [] ∷ []
unfolding split_from
split_from-separator piece sep [] h =
    let e : (sep == sep) ≡ true = ground arith in rw e (simp append-nil)
split_from-separator piece sep (c ∷ cs) (differs, h) =
    rw differs (split_from-separator (piece ++ c ∷ []) sep cs h ∙ simp append_assoc)

module _ (numbers : Numbers) where
  -- A CIDR text that ends in `/`, with nothing behind it, matches every IPv4 address: the empty
  -- prefix length converts to 0 bits.
  pub ip_matches-trailing_slash :
      (network value : Text) (n v : ℕ)
      → Lacks b'/' network
      → to_ipv4_number network ≡ some n
      → to_ipv4_number value ≡ some v
      → ip_matches numbers (network ++ b'/' ∷ []) value ≡ true
  unfolding ip_matches split same_network
  ip_matches-trailing_slash network value n v h hn hv =
      rw (split_from-separator [] b'/' network h, hn, hv, numbers.natural-empty)
