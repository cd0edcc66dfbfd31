-- ===== src/Tests/Requests.antt =====
-- Range headers, on the blob of Tests/Blobs; conditional requests and paths.
use simple_storage_service.Prelude.{
  ℕ, ◌≤◌, ◌≡◌, none, some, Option, [], ◌∷◌, ◌++◌, map, refl, arith, true,
}
use simple_storage_service.Prelude.Tests.{if◌then◌else◌}
use simple_storage_service.Prelude.Text.{
  Text, str, text_eq, join, decimal, split, split_from, starts_with, trim_start,
}
use simple_storage_service.Prelude.Result.{ok, err}
use simple_storage_service.Prelude.Lists.{length}
use simple_storage_service.Storage.Cipher.{Bytes}
use simple_storage_service.Storage.Blobs.{write, read}
use simple_storage_service.Request.{
  ResolvedRange, invalid_range, match_range, resolve, resolve_span, resolve_suffix, resolve_match,
  span_stop, trim, parse_range,
}
use simple_storage_service.Request.Ranges.{to_read_range, read-parse_range}
use simple_storage_service.Request.Conditions.{
  not_modified, precondition_failed, format_etag, assert_conditions,
}
use simple_storage_service.Request.Conditions.Revalidation.{IsBare, assert_conditions-format_etag}
use simple_storage_service.Request.Target.{bucket_and_key}
use simple_storage_service.Request.Target.Paths.{bucket_and_key-path}
use simple_storage_service.Tests.Codec.{shift, unescape, escape-IsEncoding}
use simple_storage_service.Tests.Blobs.{
  complement, draw, length_of, letters, written, write-letters, iv16-AreBytes,
}

abbrev tail_range : ResolvedRange
tail_range = record { start = 17; stop = 19 }

pub parse-span : parse_range (some (str " bytes=17-99 ")) 19 ≡ ok (some tail_range)
unfolding parse_range match_range resolve resolve_span resolve_match span_stop trim trim_start str
    split split_from starts_with decimal
parse-span = refl

parse-suffix : parse_range (some (str "bytes=-2")) 19 ≡ ok (some tail_range)
unfolding parse_range match_range resolve resolve_suffix resolve_match trim trim_start str split
    split_from starts_with decimal
parse-suffix = refl

parse-unsatisfiable : parse_range (some (str "bytes=19-")) 19 ≡ err invalid_range
unfolding parse_range match_range resolve resolve_span resolve_match span_stop trim trim_start str
    split split_from starts_with decimal
parse-unsatisfiable = refl

parse-other_unit : parse_range (some (str "items=0-4")) 19 ≡ ok none
unfolding parse_range match_range resolve_match trim trim_start str split split_from starts_with
parse-other_unit = refl

-- A suffix of an empty object is accepted.
parse-empty_object :
    parse_range (some (str "bytes=-5")) 0 ≡ ok (some (record { start = 0; stop = 0 }))
unfolding parse_range match_range resolve resolve_suffix resolve_match trim trim_start str split
    split_from starts_with decimal
parse-empty_object = refl

abbrev last_letters : Bytes
last_letters = 114 ∷ 115 ∷ []

read-parse_range_example :
    (read complement length_of true
        (write complement length_of true [] draw letters (some 19)).0
        7
        (some (to_read_range tail_range))
        written.encryption
      ≡ ok last_letters)
    × (length last_letters ≡ 2)
    × (19 ≤ 19)
read-parse_range_example =
    read-parse_range complement draw refl refl refl length_of true [] letters (some 19) written
      (some (str " bytes=17-99 ")) tail_range write-letters (omega arith) parse-span iv16-AreBytes

abbrev no_date : Text → Option ℕ
no_date text = none

pub sent-IsBare : IsBare (str "e1")
unfolding str text_eq
sent-IsBare = record {
  no_quote = (refl, (refl, tt));
  no_comma = (refl, (refl, tt));
  no_star = refl;
}

assert_conditions-format_etag_example :
    (assert_conditions no_date
        (record {
          if_match = none;
          if_none_match = some (format_etag (str "e1"));
          if_modified_since = none;
          if_unmodified_since = none;
        })
        (str "e2")
        1000
      ≡ (if text_eq (str "e1") (str "e2") then err not_modified else ok tt))
    × (assert_conditions no_date
          (record {
            if_match = some (format_etag (str "e1"));
            if_none_match = none;
            if_modified_since = none;
            if_unmodified_since = none;
          })
          (str "e2")
          1000
        ≡ (if text_eq (str "e1") (str "e2") then ok tt else err precondition_failed))
assert_conditions-format_etag_example =
    assert_conditions-format_etag no_date (str "e1") (str "e2") 1000 sent-IsBare

bucket_and_key-path_example :
    bucket_and_key unescape (
      (b'/' ∷ join (b'/' ∷ []) (map (shift 64) (str "b" ∷ str "a" ∷ str "c" ∷ [])))
      ++ b'?' ∷ str "x")
    ≡ record { bucket = str "b"; key = join (b'/' ∷ []) (str "a" ∷ str "c" ∷ []) }
bucket_and_key-path_example =
    bucket_and_key-path unescape (shift 64) escape-IsEncoding (str "b") (str "a" ∷ str "c" ∷ [])
      (str "x")
