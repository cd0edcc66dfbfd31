-- ===== src/Signature/Lifetime.antt =====
-- What bounds the time at which `verifyPresigned` accepts a link.
use simple_storage_service.Prelude.{
  ℕ, ◌+◌, ◌*◌, ◌≤◌, ◌≡◌, refl, sym, ap, ◌∙◌, true, false, not, Option, none, some, [], ◌∷◌, inl,
  inr, arith,
}
use simple_storage_service.Prelude.Tests.{Bool-cases}
use simple_storage_service.Prelude.Text.{Text, str, text_eq, text_eq_refl}
use simple_storage_service.Prelude.Result.{
  ok, guard, ok-injective, some-injective, >>=-succeeds, >>-succeeds,
}
use simple_storage_service.Signature.{
  Platform, HttpRequest, SignatureV4Query, algorithm, unsigned_payload, signature_name, is_blank,
  or_blank, build_canonical_request, sign_request,
}
use simple_storage_service.Signature.Parse.{
  credential_of, query_signature_of, search_get, query_params, parse_query_signature,
}
use simple_storage_service.Signature.Verify.{
  assert_signature_equals, parse_amz_date, is_lifetime, is_past, verify_presigned,
}

module _ (platform : Platform) where
  -- A link is within its lifetime.
  abbrev pub IsWithin : ℕ → ℕ → Option ℕ → Type 0
  IsWithin now issued none = Unit {0}
  IsWithin now issued (some seconds) =
      (1 ≤ seconds) × (seconds ≤ 604800) × (now ≤ issued + seconds * 1000)

  within :
      (now issued : ℕ) (expires : Option ℕ)
      → is_lifetime platform expires ≡ true
      → is_past platform now issued expires ≡ false
      → IsWithin now issued expires
  unfolding is_lifetime is_past
  within now issued none lives fresh = tt
  within now issued (some seconds) lives fresh = (ground arith, ground arith, ground arith)

  -- A link that is accepted is within a lifetime of seven days at most from the time that it names,
  -- where its lifetime is a number.
  pub verify_presigned-IsWithin :
      (now : ℕ) (req : HttpRequest) (parsed : SignatureV4Query) (secret : Text)
      → verify_presigned platform now req parsed secret ≡ ok tt
      → (issued : ℕ) × (parse_amz_date platform parsed.amz_date ≡ ok issued)
        × IsWithin now issued parsed.expires
  unfolding verify_presigned
  verify_presigned-IsWithin now req parsed secret accepted =
      let (issued, dated, rest) =
        >>=-succeeds (parse_amz_date platform parsed.amz_date) _ accepted in
      let (lives, rest') = >>-succeeds (guard (is_lifetime platform parsed.expires) _) _ rest in
      let (fresh, _) =
        >>-succeeds (guard (not (is_past platform now issued parsed.expires)) _) _ rest' in
      (issued, dated, within now issued parsed.expires (ground arith) (ground arith))

  expires-NaN :
      (get : Text → Option Text) (number : Text → Option ℕ) (parsed : SignatureV4Query)
      (lifetime : Text)
      → query_signature_of get number ≡ ok (some parsed)
      → get (str "X-Amz-Expires") ≡ some lifetime
      → number lifetime ≡ none
      → parsed.expires ≡ none
  unfolding query_signature_of
  expires-NaN get number parsed lifetime read found not_number =
      elim (Bool-cases (text_eq (or_blank (get (str "X-Amz-Algorithm"))) algorithm)) [
        | inr other ↦ absurd (let none_read = rw (other, query_signature_of) at read in cc)
        | inl same ↦
            let read' = rw (same, query_signature_of) at read in
            let (_, behind) =
              >>-succeeds (guard (not (is_blank (or_blank (get (str "X-Amz-Date"))))) _) _ read' in
            let (signed, _, done) = >>=-succeeds (credential_of _ _ _) _ behind in
            let whole = some-injective (ok-injective done) in
            sym (ap (λ (q : SignatureV4Query). q.expires) whole) ∙ rw found not_number
      ]

  -- A link whose lifetime is given but is not a number has no end: where the endpoint parses its
  -- query, the date that it names is one, the canonical request can be built and the signature is
  -- the one of that request, it is accepted at every time.
  pub verify_presigned-endless :
      (now issued : ℕ) (req : HttpRequest) (parsed : SignatureV4Query)
      (secret lifetime canonical : Text)
      → parse_query_signature platform req ≡ ok (some parsed)
      → search_get (str "X-Amz-Expires") (query_params platform req) ≡ some lifetime
      → platform.number lifetime ≡ none
      → parse_amz_date platform parsed.amz_date ≡ ok issued
      → build_canonical_request platform req parsed.signed.signed_headers unsigned_payload
          (signature_name ∷ [])
        ≡ ok canonical
      → parsed.signed.signature
        ≡ sign_request platform secret parsed.signed.date parsed.signed.region parsed.signed.service
            parsed.amz_date canonical
      → verify_presigned platform now req parsed secret ≡ ok tt
  unfolding verify_presigned is_lifetime is_past assert_signature_equals parse_query_signature
  verify_presigned-endless now issued req parsed secret lifetime canonical read found not_number
        dated built signed =
      let endless =
        expires-NaN (λ name. search_get name (query_params platform req)) platform.number parsed
          lifetime read found not_number in
      let same = text_eq_refl parsed.signed.signature in
      rw (dated, endless, built, ← signed, same) refl
