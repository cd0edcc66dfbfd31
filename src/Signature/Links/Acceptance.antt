-- ===== src/Signature/Links/Acceptance.antt =====
-- The endpoint accepts a link that `presign` makes.
use simple_storage_service.Prelude.{
  ℕ, ◌+◌, ◌*◌, ◌≤◌, ◌≡◌, refl, ap, sym, ◌∙◌, true, false, Option, some, [], ◌∷◌, ◌++◌, arith, inl,
  inr,
}
use simple_storage_service.Prelude.Tests.{Bool-cases}
use simple_storage_service.Prelude.Lists.{All}
use simple_storage_service.Prelude.Text.{
  Text, str, text_eq, text_eq_iff, text_eq_refl, starts_with, join, to_decimal,
}
use simple_storage_service.Prelude.Result.{ok}
use simple_storage_service.Signature.{
  Platform, SignatureV4Query, signature_name, is_blank, header_value, uri_encode,
}
use simple_storage_service.Signature.Encoding.{
  IsUnreserved, IsUri, uri_encode-IsUnreserved, form-uri_encode,
}
use simple_storage_service.Signature.Parse.{search_get, query_params, parse_query_signature}
use simple_storage_service.Signature.Verify.{
  is_amz_date, assert_signature_equals, parse_amz_date, is_lifetime, is_past, verify_presigned,
}
use simple_storage_service.Signature.Presign.{
  PresignParams, to_amz_date, service_name, date_of, parameters, link_signature, link_target,
  presign,
}
use simple_storage_service.Signature.Links.Entries.{
  IsForeign, AllForeign, foreign-differs, set_entries-All,
}
use simple_storage_service.Signature.Links.Credentials.{IsPart, query_signature_of-read}
use simple_storage_service.Signature.Links.Search.{is_amz_date-parts}
use simple_storage_service.Signature.Links.Reading.{
  own_parameters, parameters-Binds, get-own, get-signature,
}
use simple_storage_service.Signature.Links.{IsOther, request_of, canonical_request-link}

module _ (platform : Platform) (laws : IsUri platform) (p : PresignParams) where
  -- What the S3 endpoint reads in its query.
  abbrev pub query_of : SignatureV4Query
  query_of = record {
    signed = record {
      access_key_id = p.access_key_id;
      date = date_of platform p;
      region = p.region;
      service = service_name;
      signed_headers = str "host" ∷ [];
      signature = link_signature platform p;
    };
    amz_date = to_amz_date p.iso;
    expires = some p.expires_in;
  }

  -- A foreign name is not that of the signature when it is escaped.
  IsOther-foreign : (name value : Text) → IsForeign name → IsOther platform laws p (name, value)
  unfolding str starts_with
  IsOther-foreign name value foreign =
      elim (Bool-cases (text_eq signature_name (uri_encode platform name))) [
        | inr differs ↦ differs
        | inl same ↦
            let e : signature_name ≡ uri_encode platform name = (text_eq_iff _ _).0 same in
            let named : uri_encode platform signature_name ≡ signature_name =
              uri_encode-IsUnreserved platform laws signature_name (unfold str in grind arith) in
            let names : name ≡ signature_name =
              sym (form-uri_encode platform laws name)
              ∙ ap platform.form_decode (sym e ∙ sym named)
              ∙ form-uri_encode platform laws signature_name in
            absurd (
              let differs = foreign-differs name signature_name foreign refl in
              let equal = (text_eq_iff name signature_name).1 names in cc)
      ]

  IsOther-own :
      (name value : Text)
      → IsUnreserved name
      → text_eq signature_name name ≡ false
      → IsOther platform laws p (name, value)
  IsOther-own name value plain differs =
      rw (uri_encode-IsUnreserved platform laws name plain) differs

  pub parameters-IsOther :
      AllForeign p.query → All (IsOther platform laws p) (parameters platform p)
  unfolding parameters str text_eq
  parameters-IsOther foreign =
      set_entries-All (IsOther platform laws p) p.query (own_parameters platform laws p)
        IsOther-foreign foreign
        (
          IsOther-own (str "X-Amz-Algorithm") [] (grind arith) refl,
          (
            IsOther-own (str "X-Amz-Credential") [] (grind arith) refl,
            (
              IsOther-own (str "X-Amz-Date") [] (grind arith) refl,
              (
                IsOther-own (str "X-Amz-Expires") [] (grind arith) refl,
                (IsOther-own (str "X-Amz-SignedHeaders") [] (grind arith) refl, tt),
              ),
            ),
          ),
        )

  module _ (header : Text → Option Text) (plain : IsUnreserved (link_signature platform p))
      (foreign : AllForeign p.query) where
    -- The endpoint reads in the query of the link what it was made from.
    parse_query_signature-link :
        is_blank (link_signature platform p) ≡ false
        → is_amz_date (to_amz_date p.iso) ≡ true
        → IsPart p.access_key_id
        → IsPart p.region
        → parse_query_signature platform (request_of platform laws p header) ≡ ok (some query_of)
    unfolding parse_query_signature str text_eq starts_with join
    parse_query_signature-link signed dated access_key region =
        let read =
          λ (own kept : Text) (begins : starts_with own (str "X-Amz-") ≡ true)
              (differs : text_eq signature_name own ≡ false).
            get-own platform laws p header plain own kept begins differs foreign in
        let (date_lacks, some_date, some_amz_date) = is_amz_date-parts (to_amz_date p.iso) dated in
        query_signature_of-read
          (λ name. search_get name (query_params platform (request_of platform laws p header)))
          platform.number p.access_key_id (date_of platform p) p.region (link_signature platform p)
          (to_amz_date p.iso) (to_decimal p.expires_in) (some p.expires_in)
          (read (str "X-Amz-Algorithm") _ refl refl
            (λ h. refl, (λ h. cc, (λ h. cc, (λ h. cc, (λ h. cc, tt))))) (inl refl))
          (read (str "X-Amz-Credential") _ refl refl
            (λ h. cc, (λ h. refl, (λ h. cc, (λ h. cc, (λ h. cc, tt))))) (inr (inl refl)))
          (read (str "X-Amz-Date") _ refl refl
            (λ h. cc, (λ h. cc, (λ h. refl, (λ h. cc, (λ h. cc, tt))))) (inr (inr (inl refl))))
          (read (str "X-Amz-Expires") _ refl refl
            (λ h. cc, (λ h. cc, (λ h. cc, (λ h. refl, (λ h. cc, tt)))))
            (inr (inr (inr (inl refl)))))
          (read (str "X-Amz-SignedHeaders") _ refl refl
            (λ h. cc, (λ h. cc, (λ h. cc, (λ h. cc, (λ h. refl, tt)))))
            (inr (inr (inr (inr (inl refl))))))
          (get-signature platform laws p header plain (
            parameters-Binds platform laws p signature_name (link_signature platform p) refl foreign
              (λ h. cc, (λ h. cc, (λ h. cc, (λ h. cc, (λ h. cc, tt)))))))
          (laws.number-to_decimal p.expires_in) access_key (date_lacks, some_date) region signed
          some_amz_date

    -- A link that was presigned is accepted until it expires: what the endpoint parses in the
    -- query of the link is the key, the date, the region, the lifetime and the signature it was
    -- made with, and with these the method, the path and the query of the link give the canonical
    -- request that was signed, whatever the bucket, the key and the further parameters - where no
    -- name of a further parameter begins with `X-Amz-`, the access key and the region are not
    -- empty and hold no slash, the date is one of 16 characters as `toISOString` prints them, the
    -- signature is not empty and made of unreserved characters, the host is the one of the link
    -- and holds no spaces to strip, and the lifetime is between a second and seven days.
    pub verify_presigned-presign :
        (now issued : ℕ)
        → is_blank (link_signature platform p) ≡ false
        → is_amz_date (to_amz_date p.iso) ≡ true
        → IsPart p.access_key_id
        → IsPart p.region
        → header (str "host") ≡ some p.host
        → header_value (some p.host) ≡ p.host
        → parse_amz_date platform (to_amz_date p.iso) ≡ ok issued
        → 1 ≤ p.expires_in
        → p.expires_in ≤ 604800
        → now ≤ issued + p.expires_in * 1000
        → (presign platform p ≡ p.origin ++ link_target platform p)
          × (parse_query_signature platform (request_of platform laws p header)
              ≡ ok (some query_of))
          × (verify_presigned platform now
                (request_of platform laws p header)
                query_of
                p.secret_access_key
              ≡ ok tt)
    unfolding verify_presigned presign is_lifetime is_past assert_signature_equals link_signature
    verify_presigned-presign now issued signed amz_date access_key region sent clean dated some_time
          week in_time =
        let lives : is_lifetime platform (some p.expires_in) ≡ true = ground arith in
        let fresh : is_past platform now issued (some p.expires_in) ≡ false = ground arith in
        (
          refl,
          parse_query_signature-link signed amz_date access_key region,
          rw
              (
                dated,
                lives,
                fresh,
                canonical_request-link platform laws p header sent clean
                    (parameters-IsOther foreign) plain,
                text_eq_refl (link_signature platform p),
              )
              refl,
        )
