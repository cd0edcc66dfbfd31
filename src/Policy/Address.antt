-- ===== src/Policy/Address.antt =====
-- `ipMatches` and `toIpv4Number` of libs/domains/src/policies/policies.service.ts. The 32-bit
-- operators of JavaScript work on bit patterns, kept as numbers below 2 ^ 32.
pub mod Laws
use simple_storage_service.Prelude.{
  ℕ, zero, suc, ◌+◌, ◌-◌, ◌*◌, ◌/◌, ◌%◌, ◌^◌, min, max, Bool, true, false, not, ◌&&◌, Option, none,
  some, List, [], ◌∷◌, map,
}
use simple_storage_service.Prelude.Tests.{ltb, leb, ◌==◌, if◌then◌else◌}
use simple_storage_service.Prelude.Lists.{length, all, drop}
use simple_storage_service.Prelude.Text.{
  Text, str, starts_with, split, is_digit, decimal, lower_unit,
}
use simple_storage_service.Policy.{Numbers}

-- `&` and `|` on the lowest bits.
unfoldable pub and_bits : ℕ → ℕ → ℕ → ℕ
and_bits zero a b = 0
and_bits (suc w) a b = and_bits w (a / 2) (b / 2) * 2 + min (a % 2) (b % 2)

unfoldable pub or_bits : ℕ → ℕ → ℕ → ℕ
or_bits zero a b = 0
or_bits (suc w) a b = or_bits w (a / 2) (b / 2) * 2 + max (a % 2) (b % 2)

-- `/^\d{1,3}$/`.
unfoldable pub is_octet : Text → Bool
is_octet octet = leb 1 (length octet) && leb (length octet) 3 && all is_digit octet

-- One round of the loop, and the loop. `(result << 8) | part`, read as an unsigned pattern.
unfoldable pub push_octet : ℕ → ℕ → ℕ
push_octet result part = or_bits 32 (result * 256 % 2 ^ 32) part

octets_number : ℕ → List Text → Option ℕ
octets_number result [] = some result
octets_number result (octet ∷ octets) =
    let rest = octets_number (push_octet result (decimal octet)) octets in
    if not (is_octet octet) then none else if ltb 255 (decimal octet) then none else rest

-- `value.replace(/^::ffff:/i, '')`.
unfoldable pub strip_mapped : Text → Text
strip_mapped value =
    if starts_with (map lower_unit value) (str "::ffff:") then drop 7 value else value

unfoldable pub to_ipv4_number : Text → Option ℕ
unfolding is_octet octets_number strip_mapped
to_ipv4_number value =
    let octets = split b'.' (strip_mapped value) in
    if length octets == 4 then octets_number 0 octets else none

-- `(0xFFFFFFFF << (32 - bits)) >>> 0`, for 1 to 32 bits.
unfoldable pub prefix_mask : ℕ → ℕ
prefix_mask bits = 0xFFFFFFFF * 2 ^ (32 - bits) % 2 ^ 32

-- The tail of `ipMatches`, with the number of bits at hand.
unfoldable pub same_network : ℕ → ℕ → ℕ → Bool
same_network bits network value =
    if ltb 32 bits
    then false
    else if bits == 0
    then true
    else and_bits 32 network (prefix_mask bits) == and_bits 32 value (prefix_mask bits)

module _ (numbers : Numbers) where
  -- `prefixLength === undefined ? 32 : Number(prefixLength)`; `none` is no integer or below 0.
  unfoldable pub prefix_bits : List Text → Option ℕ
  prefix_bits [] = some 32
  prefix_bits (prefix_length ∷ rest) = numbers.natural (numbers.to_number prefix_length)

  match_network : Option ℕ → Option ℕ → Option ℕ → Bool
  match_network (some network) (some value) (some bits) = same_network bits network value
  match_network _ _ _ = false

  match_parts : List Text → Text → Bool
  match_parts [] value = false
  match_parts (network ∷ rest) value =
      match_network (to_ipv4_number network) (to_ipv4_number value) (prefix_bits rest)

  unfoldable pub ip_matches : Text → Text → Bool
  unfolding prefix_bits match_network match_parts
  ip_matches cidr value = match_parts (split b'/' cidr) value
