-- ===== src/Wildcard.antt =====
-- The wildcard patterns of bucket policies and CORS rules: `wildcardMatch` of
-- libs/domains/src/policies/policies.service.ts and libs/domains/src/buckets/buckets.service.ts.
-- Both build a regular expression `^...$` from the pattern. The expression is the list of its
-- atoms, and its test is JavaScript's, without the `s` and `u` flags.
pub mod Regex
pub mod Laws
use simple_storage_service.Prelude.{ℕ, Bool, true, false, not, ◌&&◌, ◌||◌, List, [], ◌∷◌, map}
use simple_storage_service.Prelude.Tests.{◌==◌, if◌then◌else◌}
use simple_storage_service.Prelude.Text.{Text}

-- An escaped or plain code unit, `.`, and `.*`.
pub data Atom : Type 0 where
  literal : ℕ → Atom
  dot dots : Atom

-- What `.` does not match: line feed, carriage return, and the two Unicode separators.
unfoldable pub is_line_terminator : ℕ → Bool
is_line_terminator c = (c == 10) || (c == 13) || (c == 0x2028) || (c == 0x2029)

unfoldable pub regex_test : List Atom → Text → Bool
unfolding is_line_terminator
regex_test [] [] = true
regex_test [] (c ∷ cs) = false
regex_test (literal a ∷ atoms) [] = false
regex_test (literal a ∷ atoms) (c ∷ cs) = (a == c) && regex_test atoms cs
regex_test (dot ∷ atoms) [] = false
regex_test (dot ∷ atoms) (c ∷ cs) = not (is_line_terminator c) && regex_test atoms cs
regex_test (dots ∷ atoms) [] = regex_test atoms []
regex_test (dots ∷ atoms) (c ∷ cs) =
    regex_test atoms (c ∷ cs) || (not (is_line_terminator c) && regex_test (dots ∷ atoms) cs)

-- In a policy `*` becomes `.*` and `?` becomes `.`; any other code unit stands for itself.
unfoldable pub policy_atom : ℕ → Atom
policy_atom c = if c == b'*' then dots else if c == b'?' then dot else literal c

-- In a CORS rule `?` is escaped too.
unfoldable pub cors_atom : ℕ → Atom
cors_atom c = if c == b'*' then dots else literal c

unfoldable pub policy_wildcard_match : Text → Text → Bool
unfolding policy_atom
policy_wildcard_match pattern_text value = regex_test (map policy_atom pattern_text) value

unfoldable pub cors_wildcard_match : Text → Text → Bool
unfolding cors_atom
cors_wildcard_match pattern_text value = regex_test (map cors_atom pattern_text) value
