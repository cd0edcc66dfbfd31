-- ===== src/Buckets/Names.antt =====
-- `assertValidName` of libs/domains/src/buckets/buckets.service.ts, with the two patterns of
-- libs/domains/src/buckets/buckets.types.ts.
use simple_storage_service.Prelude.{ℕ, Bool, false, not, ◌&&◌, ◌||◌, [], ◌∷◌}
use simple_storage_service.Prelude.Tests.{ltb, leb, ◌==◌}
use simple_storage_service.Prelude.Lists.{length, all}
use simple_storage_service.Prelude.Text.{Text, str, is_digit, split, contains}

abbrev pub is_alphanumeric : ℕ → Bool
is_alphanumeric c = (leb b'a' c && leb c b'z') || is_digit c

abbrev pub is_name_unit : ℕ → Bool
is_name_unit c = is_alphanumeric c || (c == b'.') || (c == b'-')

-- `[a-z0-9.-]*[a-z0-9]$`.
unfoldable pub ends_alphanumeric : Text → Bool
ends_alphanumeric [] = false
ends_alphanumeric (c ∷ []) = is_alphanumeric c
ends_alphanumeric (c ∷ d ∷ cs) = is_name_unit c && ends_alphanumeric (d ∷ cs)

-- `/^[a-z0-9][a-z0-9.-]{1,61}[a-z0-9]$/`.
unfoldable pub matches_name_pattern : Text → Bool
unfolding ends_alphanumeric
matches_name_pattern [] = false
matches_name_pattern (c ∷ cs) =
    is_alphanumeric c && ends_alphanumeric cs && leb 2 (length cs) && leb (length cs) 62

-- `/^\d+\.\d+\.\d+\.\d+$/`.
is_digits : Text → Bool
is_digits text = ltb 0 (length text) && all is_digit text

unfoldable pub matches_ip_pattern : Text → Bool
unfolding is_digits
matches_ip_pattern text =
    let pieces = split b'.' text in (length pieces == 4) && all is_digits pieces

unfoldable pub is_valid_name : Text → Bool
is_valid_name name =
    matches_name_pattern name && not (matches_ip_pattern name) && not (contains name (str ".."))
