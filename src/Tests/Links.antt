-- ===== src/Tests/Links.antt =====
-- A presigned link over toy encodings and a toy digest.
use simple_storage_service.Prelude.{
  ℕ, ◌+◌, ◌*◌, ◌%◌, ◌≡◌, refl, ap, true, false, Option, none, some, [], ◌∷◌, ◌++◌, map, arith, inl,
  inr,
}
use simple_storage_service.Prelude.Lists.{All, length}
use simple_storage_service.Prelude.Text.{
  Text, str, text_eq, join, starts_with, decimal, decimal_from, trim_start,
}
use simple_storage_service.Prelude.Result.{ok}
use simple_storage_service.Request.{trim}
use simple_storage_service.Signature.{
  Platform, HttpRequest, SignatureV4Query, escape_marks, header_value, collapse_spaces, uri_encode,
  is_blank, sign_request, build_string_to_sign, scope_of,
}
use simple_storage_service.Signature.Parse.{search_get, query_params, parse_query_signature}
use simple_storage_service.Signature.Verify.{parse_amz_date, is_amz_date, verify_presigned}
use simple_storage_service.Signature.Encoding.{IsUnreserved, IsUri}
use simple_storage_service.Signature.Presign.{
  PresignParams, to_amz_date, strip_millis, set_entry, set_entries, parameters, link_signature,
  date_of, service_name, link_request, link_target, presign,
}
use simple_storage_service.Signature.Lifetime.{
  IsWithin, verify_presigned-IsWithin, verify_presigned-endless,
}
use simple_storage_service.Signature.Links.{IsOther, request_of, canonical_request-link}
use simple_storage_service.Signature.Links.Entries.{AllForeign}
use simple_storage_service.Signature.Links.Search.{is_amz_date-parts}
use simple_storage_service.Signature.Links.Reading.{get-parameter, get-signature}
use simple_storage_service.Signature.Links.Credentials.{IsPart, query_signature_of-read}
use simple_storage_service.Signature.Links.Acceptance.{query_of, verify_presigned-presign}
use simple_storage_service.Tests.Escapes.{
  up_unit, read_form, read_component, read_form-ReadsMarks, read_component-ReadsMarks, read_form-up,
  up-IsUnreserved, up-Lacks,
}
use simple_storage_service.Tests.Naturals.{natural, natural-to_decimal}

abbrev one_digit : Text → Text
one_digit bytes = (b'0' + length bytes % 10) ∷ []

abbrev platform : Platform
platform = record {
  encode_component = map up_unit;
  decode_component = read_component;
  utc = λ year month day hour minute second.
      ((day * 24 + hour) * 60 + minute) * 60000 + second * 1000;
  parse_date = λ text. none;
  sha256 = λ text. text;
  hmac = λ key text. text;
  to_hex = one_digit;
  form_decode = read_form;
  number = natural;
}

pub platform-IsUri : IsUri platform
platform-IsUri = record {
  decode-encode = λ text. ap some (read_form-up text);
  decode-ReadsMarks = read_component-ReadsMarks;
  form-encode = read_form-up;
  form-ReadsMarks = read_form-ReadsMarks;
  encode-unreserved = up-IsUnreserved;
  encode-separators = up-Lacks;
  number-to_decimal = natural-to_decimal;
}

abbrev params : PresignParams
params = record {
  method = str "get";
  origin = str "https://s";
  host = str "s";
  bucket = str "b";
  key = str "a/c?d";
  expires_in = 60;
  access_key_id = str "ST1";
  secret_access_key = str "q";
  region = str "r";
  query = (str "versionId", some (str "v 1")) ∷ (str "x", none) ∷ [];
  iso = str "2024-01-31T12:00:05.123Z";
}

abbrev host_header : Text → Option Text
host_header name = some (str "s")

pub clean_host : header_value (some (str "s")) ≡ str "s"
unfolding header_value collapse_spaces trim trim_start str
clean_host = refl

pub dated : parse_amz_date platform (to_amz_date params.iso) ≡ ok 2721605000
unfolding parse_amz_date is_amz_date to_amz_date strip_millis str text_eq decimal decimal_from
dated = refl

digit-plain : (bytes : Text) → IsUnreserved (one_digit bytes)
digit-plain bytes = (grind arith, tt)

pub signature_plain : IsUnreserved (link_signature platform params)
unfolding link_signature sign_request
signature_plain = digit-plain (
    build_string_to_sign platform (to_amz_date params.iso)
      (scope_of platform (date_of platform params) params.region service_name)
      (link_request platform params))

pub params-AllForeign : AllForeign params.query
unfolding str starts_with
params-AllForeign = (refl, (refl, tt))

pub iso-is_amz_date : is_amz_date (to_amz_date params.iso) ≡ true
unfolding is_amz_date to_amz_date strip_millis str text_eq
iso-is_amz_date = refl

pub access_key-IsPart : IsPart params.access_key_id
unfolding str
access_key-IsPart = ((refl, (refl, (refl, tt))), refl)

pub region-IsPart : IsPart params.region
unfolding str
region-IsPart = ((refl, tt), refl)

pub date-IsPart : IsPart (date_of platform params)
date-IsPart =
    let (lacks, given, _) = is_amz_date-parts (to_amz_date params.iso) iso-is_amz_date in
    (lacks, given)

pub iso_given : is_blank (to_amz_date params.iso) ≡ false
iso_given = let (_, _, given) = is_amz_date-parts (to_amz_date params.iso) iso-is_amz_date in given

pub signature_given : is_blank (link_signature platform params) ≡ false
unfolding link_signature sign_request
signature_given = refl

verify_presigned-presign_example :
    (presign platform params ≡ str "https://s" ++ link_target platform params)
    × (parse_query_signature platform (request_of platform platform-IsUri params host_header)
        ≡ ok (some (query_of platform platform-IsUri params)))
    × (verify_presigned platform 2721665000
          (request_of platform platform-IsUri params host_header)
          (query_of platform platform-IsUri params)
          (str "q")
        ≡ ok tt)
verify_presigned-presign_example =
    verify_presigned-presign platform platform-IsUri params host_header signature_plain
      params-AllForeign 2721665000 2721605000 signature_given iso-is_amz_date access_key-IsPart
      region-IsPart refl clean_host dated (omega arith) (omega arith) (omega arith)

pub accepted_link :
    verify_presigned platform 2721665000
      (request_of platform platform-IsUri params host_header)
      (query_of platform platform-IsUri params)
      (str "q")
    ≡ ok tt
accepted_link =
    let (_, _, accepted) =
      verify_presigned-presign platform platform-IsUri params host_header signature_plain
        params-AllForeign 2721665000 2721605000 signature_given iso-is_amz_date access_key-IsPart
        region-IsPart refl clean_host dated (omega arith) (omega arith) (omega arith) in
    accepted

verify_presigned-IsWithin_example :
    (issued : ℕ) × (parse_amz_date platform (to_amz_date params.iso) ≡ ok issued)
    × IsWithin platform 2721665000 issued (some 60)
verify_presigned-IsWithin_example =
    verify_presigned-IsWithin platform 2721665000
      (request_of platform platform-IsUri params host_header)
      (query_of platform platform-IsUri params) (str "q") accepted_link

-- A link whose lifetime the caller overrides with a text that is no number.
abbrev endless_params : PresignParams
endless_params = record params { query = (str "X-Amz-Expires", some (str "soon")) ∷ [] }

abbrev endless_request : HttpRequest
endless_request = request_of platform platform-IsUri endless_params host_header

abbrev endless_query : SignatureV4Query
endless_query = record (query_of platform platform-IsUri endless_params) { expires = none }

pub endless_signature_given : is_blank (link_signature platform endless_params) ≡ false
unfolding link_signature sign_request
endless_signature_given = refl

pub endless-IsOther :
    All (IsOther platform platform-IsUri endless_params) (parameters platform endless_params)
unfolding parameters set_entries set_entry uri_encode escape_marks str text_eq
endless-IsOther = (refl, (refl, (refl, (refl, (refl, tt)))))

pub endless_plain : IsUnreserved (link_signature platform endless_params)
unfolding link_signature sign_request
endless_plain = digit-plain (
    build_string_to_sign platform (to_amz_date endless_params.iso)
      (scope_of platform (date_of platform endless_params) endless_params.region service_name)
      (link_request platform endless_params))

pub soon_no_number : natural (str "soon") ≡ none
unfolding natural str
soon_no_number = refl

abbrev endless_get : Text → Option Text
endless_get name = search_get name (query_params platform endless_request)

pub endless_lifetime : endless_get (str "X-Amz-Expires") ≡ some (str "soon")
unfolding parameters set_entries set_entry text_eq str
endless_lifetime =
    get-parameter platform platform-IsUri endless_params host_header endless_plain
      (str "X-Amz-Expires") (str "soon") refl
      (λ h. cc, (λ h. cc, (λ h. cc, (λ h. refl, (λ h. cc, tt))))) (inr (inr (inr (inl refl))))

pub endless_parsed : parse_query_signature platform endless_request ≡ ok (some endless_query)
unfolding parse_query_signature parameters set_entries set_entry text_eq str join
endless_parsed =
    let read = get-parameter platform platform-IsUri endless_params host_header endless_plain in
    let p = endless_params in
    query_signature_of-read endless_get natural p.access_key_id (date_of platform p) p.region
      (link_signature platform p) (to_amz_date p.iso) (str "soon") none
      (read (str "X-Amz-Algorithm") _ refl
        (λ h. refl, (λ h. cc, (λ h. cc, (λ h. cc, (λ h. cc, tt))))) (inl refl))
      (read (str "X-Amz-Credential") _ refl
        (λ h. cc, (λ h. refl, (λ h. cc, (λ h. cc, (λ h. cc, tt))))) (inr (inl refl)))
      (read (str "X-Amz-Date") _ refl (λ h. cc, (λ h. cc, (λ h. refl, (λ h. cc, (λ h. cc, tt)))))
        (inr (inr (inl refl))))
      endless_lifetime
      (read (str "X-Amz-SignedHeaders") _ refl
        (λ h. cc, (λ h. cc, (λ h. cc, (λ h. cc, (λ h. refl, tt)))))
        (inr (inr (inr (inr (inl refl))))))
      (get-signature platform platform-IsUri endless_params host_header endless_plain
        (λ h. cc, (λ h. cc, (λ h. cc, (λ h. cc, (λ h. cc, tt))))))
      soon_no_number access_key-IsPart date-IsPart region-IsPart endless_signature_given iso_given

verify_presigned-endless_example :
    verify_presigned platform 9000000000 endless_request endless_query (str "q") ≡ ok tt
unfolding link_signature
verify_presigned-endless_example =
    verify_presigned-endless platform 9000000000 2721605000 endless_request endless_query (str "q")
      (str "soon") (link_request platform endless_params) endless_parsed endless_lifetime
      soon_no_number dated
      (canonical_request-link platform platform-IsUri endless_params host_header refl clean_host
        endless-IsOther endless_plain)
      refl
