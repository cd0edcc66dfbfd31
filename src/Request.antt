-- ===== src/Request.antt =====
-- `parseRange` of libs/domains/src/s3/s3.request.service.ts.
pub mod Ranges
pub mod Conditions
pub mod Target
pub mod Headers
use mathlib.Core.List.{reverse}
use simple_storage_service.Prelude.{
  ℕ, ◌+◌, ◌-◌, Bool, true, false, Option, none, some, List, [], ◌∷◌, ◌&&◌, ◌||◌, min,
}
use simple_storage_service.Prelude.Tests.{ltb, leb, ◌==◌, if◌then◌else◌}
use simple_storage_service.Prelude.Lists.{length, all, drop}
use simple_storage_service.Prelude.Text.{
  Text, str, is_digit, decimal, split, starts_with, trim_start,
}
use simple_storage_service.Prelude.Result.{Result, ok, err}

-- The `S3Exception` that is thrown.
pub data RangeError : Type 0 where
  invalid_range : RangeError

-- `stop` is `end + 1`, since `end` is -1 for a suffix of an empty object.
pub record ResolvedRange : Type 0 where
  pub start : ℕ
  pub stop : ℕ

-- The two digit groups of `/^bytes=(\d*)-(\d*)$/`.
two_groups : List Text → Option (Text × Text)
two_groups (first ∷ last ∷ []) =
    if all is_digit first && all is_digit last then some (first, last) else none
two_groups _ = none

unfoldable pub match_range : Text → Option (Text × Text)
unfolding two_groups
match_range text =
    if starts_with text (str "bytes=") then two_groups (split b'-' (drop 6 text)) else none

-- `bytes=-<suffix>`.
unfoldable pub resolve_suffix : ℕ → ℕ → Result RangeError (Option ResolvedRange)
resolve_suffix suffix size =
    if suffix == 0
    then err invalid_range
    else ok (some (record { start = size - suffix; stop = size }))

-- The `end` of a range, as a stop.
unfoldable pub span_stop : Option ℕ → ℕ → ℕ
span_stop none size = size
span_stop (some end) size = min (end + 1) size

-- `bytes=<start>-<end>` and `bytes=<start>-`; `start > end` is `stop <= start`.
unfoldable pub resolve_span : ℕ → Option ℕ → ℕ → Result RangeError (Option ResolvedRange)
resolve_span start last size =
    let stop = span_stop last size in
    if leb size start || leb stop start
    then err invalid_range
    else ok (some (record { start = start; stop = stop }))

unfoldable pub resolve : Text → Text → ℕ → Result RangeError (Option ResolvedRange)
unfolding resolve_suffix resolve_span
resolve [] [] size = ok none
resolve [] (d ∷ ds) size = resolve_suffix (decimal (d ∷ ds)) size
resolve (d ∷ ds) [] size = resolve_span (decimal (d ∷ ds)) none size
resolve (d ∷ ds) (e ∷ es) size = resolve_span (decimal (d ∷ ds)) (some (decimal (e ∷ es))) size

unfoldable pub trim : Text → Text
trim text = reverse (trim_start (reverse (trim_start text)))

unfoldable pub resolve_match : Option (Text × Text) → ℕ → Result RangeError (Option ResolvedRange)
unfolding resolve
resolve_match none size = ok none
resolve_match (some (first, last)) size = resolve first last size

-- `header` is the `Range` header; `ok none` is a request for the whole object.
unfoldable pub parse_range : Option Text → ℕ → Result RangeError (Option ResolvedRange)
unfolding match_range resolve_match trim
parse_range none size = ok none
parse_range (some header) size = resolve_match (match_range (trim header)) size
