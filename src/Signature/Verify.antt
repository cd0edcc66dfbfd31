-- ===== src/Signature/Verify.antt =====
-- `verify` and `verifyPresigned` of libs/domains/src/s3/s3.signature.service.ts.
use simple_storage_service.Prelude.{
  ℕ, ◌+◌, ◌-◌, ◌*◌, Bool, true, false, not, ◌&&◌, Option, none, some, [], ◌∷◌,
}
use simple_storage_service.Prelude.Tests.{ltb, leb, ◌==◌, if◌then◌else◌}
use simple_storage_service.Prelude.Lists.{all, length, take, drop}
use simple_storage_service.Prelude.Text.{Text, str, text_eq, is_digit, decimal}
use simple_storage_service.Prelude.Result.{Result, ok, err, ◌>>=◌, ◌>>◌, guard}
use simple_storage_service.ChunkedStream.{ChunkSigningContext}
use simple_storage_service.Signature.{
  SignatureError, malformed_authorization, signature_mismatch, expired_signature, clock_skew,
  SignatureV4Header, SignatureV4Query, HttpRequest, Platform, unsigned_payload, signature_name,
  is_blank, or_blank, scope_of, build_canonical_request, sign_request,
}

-- `/^(\d{4})(\d{2})(\d{2})T(\d{2})(\d{2})(\d{2})Z$/`.
unfoldable pub is_amz_date : Text → Bool
is_amz_date text =
    (length text == 16)
    && all is_digit (take 8 text)
    && text_eq (take 1 (drop 8 text)) (str "T")
    && all is_digit (take 6 (drop 9 text))
    && text_eq (drop 15 text) (str "Z")

abbrev pub number_at : ℕ → ℕ → Text → ℕ
number_at start count text = decimal (take count (drop start text))

module _ (platform : Platform) where
  open platform use {utc, parse_date}

  unfoldable pub assert_signature_equals : Text → Text → Result SignatureError (Unit {0})
  assert_signature_equals expected provided = guard (text_eq expected provided) signature_mismatch

  unfoldable pub or_malformed_date : Option ℕ → Result SignatureError ℕ
  or_malformed_date none = err malformed_authorization
  or_malformed_date (some time) = ok time

  unfoldable pub parse_amz_date : Text → Result SignatureError ℕ
  parse_amz_date text =
      if is_amz_date text
      then ok (
          utc (number_at 0 4 text) (number_at 4 2 text) (number_at 6 2 text) (number_at 9 2 text)
            (number_at 11 2 text) (number_at 13 2 text))
      else or_malformed_date (parse_date text)

  abbrev pub max_clock_skew : ℕ
  max_clock_skew = 900000

  unfoldable pub assert_fresh_timestamp : ℕ → Text → Result SignatureError (Unit {0})
  assert_fresh_timestamp now amz_date = do
    timestamp ← parse_amz_date amz_date
    guard (leb (now - timestamp) max_clock_skew && leb (timestamp - now) max_clock_skew) clock_skew

  -- `this.header(req, 'x-amz-date') ?? this.header(req, 'date')`; an empty one is refused.
  unfoldable pub date_header : HttpRequest → Text
  date_header req = elim (req.header (str "x-amz-date")) [
    | some date ↦ date
    | none ↦ or_blank (req.header (str "date"))
  ]

  unfoldable pub verify :
      ℕ → HttpRequest → SignatureV4Header → Text → Text → Result SignatureError ChunkSigningContext
  verify now req parsed secret payload_hash = do
    let amz_date : Text = date_header req
    guard (not (is_blank amz_date)) malformed_authorization
    assert_fresh_timestamp now amz_date
    canonical ← build_canonical_request platform req parsed.signed_headers payload_hash []
    assert_signature_equals
        (sign_request platform secret parsed.date parsed.region parsed.service amz_date canonical)
        parsed.signature
    ok (record {
      seed_signature = parsed.signature;
      amz_date = amz_date;
      credential_scope = scope_of platform parsed.date parsed.region parsed.service;
    })

  -- `NaN` is neither too small nor too large, and no time is behind it.
  unfoldable pub is_lifetime : Option ℕ → Bool
  is_lifetime none = true
  is_lifetime (some seconds) = leb 1 seconds && leb seconds 604800

  unfoldable pub is_past : ℕ → ℕ → Option ℕ → Bool
  is_past now issued none = false
  is_past now issued (some seconds) = ltb (issued + seconds * 1000) now

  unfoldable pub verify_presigned :
      ℕ → HttpRequest → SignatureV4Query → Text → Result SignatureError (Unit {0})
  verify_presigned now req parsed secret = do
    issued ← parse_amz_date parsed.amz_date
    guard (is_lifetime parsed.expires) malformed_authorization
    guard (not (is_past now issued parsed.expires)) expired_signature
    canonical ←
        build_canonical_request platform req parsed.signed.signed_headers unsigned_payload
          (signature_name ∷ [])
    assert_signature_equals
        (sign_request platform secret parsed.signed.date parsed.signed.region parsed.signed.service
          parsed.amz_date canonical)
        parsed.signed.signature
