-- ===== src/Buckets/Cors.antt =====
-- `matchCorsRule` of libs/domains/src/buckets/buckets.service.ts.
use simple_storage_service.Prelude.{ℕ, ◌-◌, Bool, ◌&&◌, Option, none, some, List, [], map}
use simple_storage_service.Prelude.Tests.{leb, if◌then◌else◌}
use simple_storage_service.Prelude.Lists.{any, all, find}
use simple_storage_service.Prelude.Text.{Text, includes, lower_unit}
use simple_storage_service.Wildcard.{cors_wildcard_match}
use simple_storage_service.Database.{CorsRule}

-- `toUpperCase` on the letters a to z.
unfoldable pub upper_unit : ℕ → ℕ
upper_unit c = if leb b'a' c && leb c b'z' then c - 32 else c

abbrev or_empty : Option (List Text) → List Text
or_empty none = []
or_empty (some texts) = texts

header_is_allowed : CorsRule → Text → Bool
header_is_allowed rule header =
    any (λ allowed. cors_wildcard_match (map lower_unit allowed) (map lower_unit header))
      (or_empty rule.allowed_headers)

unfoldable pub rule_matches : CorsRule → Text → Text → Option (List Text) → Bool
unfolding header_is_allowed
rule_matches rule origin method request_headers =
    any (λ allowed. cors_wildcard_match allowed origin) rule.allowed_origins
    && includes rule.allowed_methods (map upper_unit method)
    && all (header_is_allowed rule) (or_empty request_headers)

unfoldable pub match_cors_rule :
    Option (List CorsRule) → Text → Text → Option (List Text) → Option CorsRule
match_cors_rule none origin method request_headers = none
match_cors_rule (some rules) origin method request_headers =
    find (λ rule. rule_matches rule origin method request_headers) rules
