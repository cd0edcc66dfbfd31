-- ===== src/Request/Conditions.antt =====
-- `conditionalHeaders` and `assertConditions` of libs/domains/src/s3/s3.request.service.ts.
pub mod Revalidation
use simple_storage_service.Prelude.{
  ℕ, ◌*◌, ◌/◌, Bool, true, false, not, ◌&&◌, ◌||◌, Option, none, some, List, [], ◌∷◌, ◌++◌, map,
}
use simple_storage_service.Prelude.Tests.{ltb, leb, ◌==◌, if◌then◌else◌}
use simple_storage_service.Prelude.Lists.{any, drop}
use simple_storage_service.Prelude.Text.{Text, str, text_eq, split, starts_with, trim_start}
use simple_storage_service.Prelude.Result.{Result, ok, err, ◌>>◌, guard}
use simple_storage_service.Request.{trim}
use simple_storage_service.Objects.Multipart.{strip_quotes}

pub data ConditionError : Type 0 where
  precondition_failed not_modified : ConditionError

-- The headers of a request, as they arrive.
pub record RequestConditions : Type 0 where
  pub if_match : Option Text
  pub if_none_match : Option Text
  pub if_modified_since : Option Text
  pub if_unmodified_since : Option Text

-- `"${etag}"`.
unfoldable pub format_etag : Text → Text
format_etag etag = b'"' ∷ (etag ++ b'"' ∷ [])

-- `replace(/^W\//, '')`.
unfoldable pub strip_weak : Text → Text
strip_weak text = if starts_with text (b'W' ∷ b'/' ∷ []) then drop 2 text else text

abbrev pub is_candidate : Text → Text → Bool
is_candidate etag candidate = text_eq candidate (b'*' ∷ []) || text_eq candidate etag

unfoldable pub clean_candidate : Text → Text
unfolding trim strip_weak strip_quotes
clean_candidate candidate = strip_quotes (strip_weak (trim candidate))

unfoldable pub etag_matches : Text → Text → Bool
etag_matches header etag = any (is_candidate etag) (map clean_candidate (split b',' header))

-- An empty header counts as none.
unfoldable pub given : Option Text → Option Text
given none = none
given (some []) = none
given (some (c ∷ cs)) = some (c ∷ cs)

-- `parse_date` is the reading of a date by JavaScript, in milliseconds; `none` is an invalid one.
module _ (parse_date : Text → Option ℕ) where
  unfoldable pub date_of : Option Text → Option ℕ
  date_of none = none
  date_of (some text) = parse_date text

  unfoldable pub matches_given : Option Text → Text → Bool
  matches_given none etag = true
  matches_given (some header) etag = etag_matches header etag

  -- `modifiedAt > date`, where there is a date.
  unfoldable pub unmodified : ℕ → Option ℕ → Bool
  unmodified modified_at none = true
  unmodified modified_at (some date) = leb modified_at date

  unfoldable pub modified : ℕ → Option ℕ → Bool
  modified modified_at none = true
  modified modified_at (some date) = ltb date modified_at

  -- The last two headers: `If-None-Match` alone decides where it is there.
  unfoldable pub is_fresh : Option Text → Option ℕ → Text → ℕ → Bool
  unfolding modified
  is_fresh (some header) date etag modified_at = not (etag_matches header etag)
  is_fresh none date etag modified_at = modified modified_at date

  -- HTTP dates have a resolution of one second.
  unfoldable pub assert_conditions : RequestConditions → Text → ℕ → Result ConditionError (Unit {0})
  unfolding given date_of matches_given unmodified is_fresh
  assert_conditions conditions etag last_modified =
      let modified_at = last_modified / 1000 * 1000 in
      guard (matches_given (given conditions.if_match) etag) precondition_failed
      >> guard (unmodified modified_at (date_of (given conditions.if_unmodified_since)))
          precondition_failed
      >> guard
          (is_fresh (given conditions.if_none_match) (date_of (given conditions.if_modified_since))
            etag modified_at)
          not_modified
