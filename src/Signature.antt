-- ===== src/Signature.antt =====
-- libs/domains/src/s3/s3.signature.service.ts: the canonical request of Signature Version 4 and its
-- signature. The signature of a chunk is in ChunkedStream.
pub mod Sorting
pub mod Escapes
pub mod Encoding
pub mod Presign
pub mod Parse
pub mod Verify
pub mod Links
pub mod Lifetime
use simple_storage_service.Prelude.{
  ℕ, ◌+◌, ◌-◌, ◌*◌, ◌/◌, ◌%◌, Bool, true, false, not, ◌&&◌, ◌||◌, Option, none, some, List, [], ◌∷◌,
  ◌++◌, map,
}
use simple_storage_service.Prelude.Tests.{ltb, leb, ◌==◌, if◌then◌else◌}
use simple_storage_service.Prelude.Lists.{any, all, filter, flatten, length, take, drop}
use simple_storage_service.Prelude.Text.{
  Text, str, text_eq, includes, starts_with, is_digit, is_space, decimal, split, join, lower_unit,
}
use simple_storage_service.Prelude.Result.{Result, ok, err, ◌>>=◌, ◌>>◌, guard}
use simple_storage_service.Request.{trim}
use simple_storage_service.ChunkedStream.{ChunkSigningContext}

pub data SignatureError : Type 0 where
  malformed_authorization signature_mismatch expired_signature clock_skew malformed_escape :
      SignatureError

pub record SignatureV4Header : Type 0 where
  pub access_key_id : Text
  pub date : Text
  pub region : Text
  pub service : Text
  pub signed_headers : List Text
  pub signature : Text

-- `expires` is in seconds; `none` is `NaN`, and a negative number stands as 0, which is refused too.
pub record SignatureV4Query : Type 0 where
  pub signed : SignatureV4Header
  pub amz_date : Text
  pub expires : Option ℕ

-- `header` reads a header by its name, in letters of any case.
pub record HttpRequest : Type 0 where
  pub method : Text
  pub original_url : Text
  pub header : Text → Option Text

-- What the source uses of JavaScript and of Node's `crypto`: `encodeURIComponent`, on a text without
-- lone surrogates, and `decodeURIComponent`, where `none` is a malformed escape; `Date.UTC`, with the
-- month counted from 1, and `Date.parse`, in milliseconds; SHA-256 in hexadecimal and HMAC-SHA256;
-- the percent decoding of `URLSearchParams`, which reads `+` as a space and never fails; and
-- `Number` of a text, where `none` is `NaN` and a negative number stands as 0.
pub record Platform : Type 0 where
  pub encode_component : Text → Text
  pub decode_component : Text → Option Text
  pub utc : ℕ → ℕ → ℕ → ℕ → ℕ → ℕ → ℕ
  pub parse_date : Text → Option ℕ
  pub sha256 : Text → Text
  pub hmac : Text → Text → Text
  pub to_hex : Text → Text
  pub form_decode : Text → Text
  pub number : Text → Option ℕ

abbrev pub algorithm : Text
algorithm = str "AWS4-HMAC-SHA256"

abbrev pub unsigned_payload : Text
unsigned_payload = str "UNSIGNED-PAYLOAD"

abbrev pub signature_name : Text
signature_name = str "X-Amz-Signature"

abbrev pub request_end : Text
request_end = str "aws4_request"

-- The units that `encodeURIComponent` leaves and the source escapes: `!'()*`.
abbrev pub is_mark : ℕ → Bool
is_mark c = (c == b'!') || (c == b'\'') || (c == b'(') || (c == b')') || (c == b'*')

abbrev pub hex_digit : ℕ → ℕ
hex_digit n = if ltb n 10 then b'0' + n else b'A' + (n - 10)

-- `%` and the two digits of a unit below 256.
unfoldable pub percent : ℕ → Text
percent c = b'%' ∷ hex_digit (c / 16) ∷ hex_digit (c % 16) ∷ []

unfoldable pub escape_marks : Text → Text
escape_marks [] = []
escape_marks (c ∷ cs) = (if is_mark c then percent c else c ∷ []) ++ escape_marks cs

-- `<` on strings.
unfoldable pub text_lt : Text → Text → Bool
text_lt [] [] = false
text_lt [] (y ∷ ys) = true
text_lt (x ∷ xs) [] = false
text_lt (x ∷ xs) (y ∷ ys) = ltb x y || ((x == y) && text_lt xs ys)

-- `compareEncoded(left, right) <= 0`.
unfoldable pub compare_encoded : Text × Text → Text × Text → Bool
compare_encoded (name, value) (name', value') =
    if text_eq name name' then text_eq value value' || text_lt value value' else text_lt name name'

unfoldable pub insert_pair : Text × Text → List (Text × Text) → List (Text × Text)
insert_pair pair [] = pair ∷ []
insert_pair pair (other ∷ pairs) =
    if compare_encoded pair other then pair ∷ other ∷ pairs else other ∷ insert_pair pair pairs

-- `sort` under `compareEncoded`, which a stable sort of any kind computes.
unfoldable pub sort_pairs : List (Text × Text) → List (Text × Text)
sort_pairs [] = []
sort_pairs (pair ∷ pairs) = insert_pair pair (sort_pairs pairs)

abbrev pub show_pair : Text × Text → Text
show_pair (name, value) = name ++ b'=' ∷ value

abbrev pub is_blank : Text → Bool
is_blank [] = true
is_blank (c ∷ cs) = false

-- `replace(/\s+/g, ' ')`; the flag is whether the unit before was a space.
unfoldable pub collapse_spaces : Bool → Text → Text
collapse_spaces after [] = []
collapse_spaces true (c ∷ cs) =
    if is_space c then collapse_spaces true cs else c ∷ collapse_spaces false cs
collapse_spaces false (c ∷ cs) =
    if is_space c then 32 ∷ collapse_spaces true cs else c ∷ collapse_spaces false cs

abbrev pub or_blank : Option Text → Text
or_blank none = []
or_blank (some text) = text

unfoldable pub header_value : Option Text → Text
unfolding trim collapse_spaces
header_value value = collapse_spaces false (trim (or_blank value))

unfoldable pub canonical_headers : (Text → Option Text) → List Text → Text
unfolding header_value
canonical_headers header [] = []
canonical_headers header (name ∷ names) =
    name ++ b':' ∷ (header_value (header name) ++ 10 ∷ canonical_headers header names)

module _ (platform : Platform) where
  open platform use {encode_component, decode_component, sha256, hmac, to_hex}

  unfoldable pub uri_encode : Text → Text
  uri_encode value = escape_marks (encode_component value)

  -- `uriEncode(decodeURIComponent(text))`.
  unfoldable pub recode : Text → Result SignatureError Text
  recode text = elim (decode_component text) [
    | none ↦ err malformed_escape
    | some value ↦ ok (uri_encode value)
  ]

  unfoldable pub recode_all : List Text → Result SignatureError (List Text)
  recode_all [] = ok []
  recode_all (text ∷ texts) = do first ← recode text; rest ← recode_all texts; ok (first ∷ rest)

  unfoldable pub recode_pair : Text → Result SignatureError (Text × Text)
  recode_pair pair = elim (split b'=' pair) [
    | [] ↦ err malformed_escape
    | key ∷ rest ↦ do name ← recode key; value ← recode (join (b'=' ∷ []) rest); ok (name, value)
  ]

  unfoldable pub recode_pairs : List Text → Result SignatureError (List (Text × Text))
  recode_pairs [] = ok []
  recode_pairs (pair ∷ pairs) = do
    first ← recode_pair pair
    rest ← recode_pairs pairs
    ok (first ∷ rest)

  abbrev pub is_kept : List Text → Text × Text → Bool
  is_kept excluded (name, value) = not (includes excluded name)

  unfoldable pub canonical_query : List Text → Text → Result SignatureError Text
  canonical_query excluded query = do
    pairs ← recode_pairs (filter (λ pair. not (is_blank pair)) (split b'&' query))
    ok (join (b'&' ∷ []) (map show_pair (sort_pairs (filter (is_kept excluded) pairs))))

  unfoldable pub or_root : Text → Text
  or_root [] = b'/' ∷ []
  or_root (c ∷ cs) = c ∷ cs

  unfoldable pub canonical_uri : Text → Result SignatureError Text
  canonical_uri path = do
    segments ← recode_all (split b'/' path)
    ok (or_root (join (b'/' ∷ []) segments))

  -- What is in front of the first `?`, and between it and the second one.
  abbrev pub path_and_query : List Text → Text × Text
  path_and_query [] = ([], [])
  path_and_query (path ∷ []) = (path, [])
  path_and_query (path ∷ query ∷ rest) = (path, query)

  unfoldable pub canonical_lines : Text → Text → Text → Text → List Text → Text → Text
  canonical_lines method uri query headers signed_headers payload_hash =
      join (10 ∷ [])
        (method ∷ uri ∷ query ∷ headers ∷ join (b';' ∷ []) signed_headers ∷ payload_hash ∷ [])

  unfoldable pub build_canonical_request :
      HttpRequest → List Text → Text → List Text → Result SignatureError Text
  build_canonical_request req signed_headers payload_hash excluded = do
    let parts : Text × Text = path_and_query (split b'?' req.original_url)
    uri ← canonical_uri parts.0
    query ← canonical_query excluded parts.1
    ok (
        canonical_lines req.method uri query (canonical_headers req.header signed_headers)
          signed_headers payload_hash)

  unfoldable pub derive_signing_key : Text → Text → Text → Text → Text
  derive_signing_key secret date region service =
      hmac (hmac (hmac (hmac (str "AWS4" ++ secret) date) region) service) request_end

  abbrev pub scope_of : Text → Text → Text → Text
  scope_of date region service = join (b'/' ∷ []) (date ∷ region ∷ service ∷ request_end ∷ [])

  unfoldable pub build_string_to_sign : Text → Text → Text → Text
  build_string_to_sign amz_date scope canonical =
      join (10 ∷ []) (algorithm ∷ amz_date ∷ scope ∷ sha256 canonical ∷ [])

  -- The signature of a canonical request.
  unfoldable pub sign_request : Text → Text → Text → Text → Text → Text → Text
  sign_request secret date region service amz_date canonical = to_hex (
      hmac (derive_signing_key secret date region service)
        (build_string_to_sign amz_date (scope_of date region service) canonical))
