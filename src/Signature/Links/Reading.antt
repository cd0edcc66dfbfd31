-- ===== src/Signature/Links/Reading.antt =====
-- What the endpoint reads in the query of a link that `presign` makes.
use simple_storage_service.Prelude.{
  ◌≡◌, refl, ap, true, false, Option, some, List, [], ◌∷◌, ◌++◌, map, arith,
}
use simple_storage_service.Prelude.Lists.{All, Exists}
use simple_storage_service.Prelude.Text.{Text, str, text_eq, starts_with, to_decimal}
use simple_storage_service.Signature.{
  Platform, algorithm, signature_name, show_pair, uri_encode, scope_of,
}
use simple_storage_service.Signature.Sorting.{sort_pairs-All, sort_pairs-Exists}
use simple_storage_service.Signature.Encoding.{
  IsUnreserved, IsUri, uri_encode-IsUnreserved, show_pairs-Lacks,
}
use simple_storage_service.Signature.Parse.{search_get, search_pair, query_params}
use simple_storage_service.Signature.Presign.{
  PresignParams, to_amz_date, service_name, date_of, parameters, encode_pair, link_query,
  link_signature,
}
use simple_storage_service.Signature.Links.Entries.{
  IsForeign, AllForeign, foreign-differs, set_entries-All, set_entries-Exists,
}
use simple_storage_service.Signature.Links.Search.{
  Exists-map, Exists-front, Exists-behind, Agrees, encode-Agrees, search_get-Agrees,
}
use simple_storage_service.Signature.Links.{
  split-pairs, All-behind, pairs_of, signed_pair, signed_pair-IsEncoded, pairs_of-IsEncoded,
  target-parts, request_of,
}

module _ (platform : Platform) (laws : IsUri platform) (p : PresignParams) where
  -- The parameters that `presign` adds to those of the caller, but for the signature.
  abbrev pub own_parameters : List (Text × Text)
  own_parameters =
      (str "X-Amz-Algorithm", algorithm)
      ∷ (
        str "X-Amz-Credential",
        p.access_key_id ++ b'/' ∷ scope_of platform (date_of platform p) p.region service_name,
      )
      ∷ (str "X-Amz-Date", to_amz_date p.iso)
      ∷ (str "X-Amz-Expires", to_decimal p.expires_in)
      ∷ (str "X-Amz-SignedHeaders", str "host")
      ∷ []

  abbrev pub Binds : Text → Text → Text × Text → Type 0
  Binds own kept pair = text_eq pair.0 own ≡ true → pair.1 ≡ kept

  foreign-Binds :
      (own kept : Text)
      → starts_with own (str "X-Amz-") ≡ true
      → (name value : Text) → IsForeign name
      → Binds own kept (name, value)
  foreign-Binds own kept begins name value foreign same =
      absurd (let differs = foreign-differs name own foreign begins in cc)

  pub parameters-Binds :
      (own kept : Text)
      → starts_with own (str "X-Amz-") ≡ true
      → AllForeign p.query
      → All (Binds own kept) own_parameters
      → All (Binds own kept) (parameters platform p)
  unfolding parameters
  parameters-Binds own kept begins foreign all =
      set_entries-All (Binds own kept) p.query own_parameters (foreign-Binds own kept begins)
        foreign all

  query_params-link :
      (header : Text → Option Text)
      → IsUnreserved (link_signature platform p)
      → query_params platform (request_of platform laws p header)
        ≡ map
            (search_pair platform)
            (map show_pair (pairs_of platform laws p ++ signed_pair platform laws p ∷ []))
  unfolding query_params link_query
  query_params-link header plain =
      let (last_lacks, _) =
        show_pairs-Lacks platform laws b'&' (signed_pair platform laws p ∷ []) refl refl
          (signed_pair-IsEncoded platform laws p plain, tt) in
      let parts =
        split-pairs (pairs_of platform laws p) (signed_pair platform laws p)
          (show_pairs-Lacks platform laws b'&' (pairs_of platform laws p) refl refl
            (pairs_of-IsEncoded platform laws p))
          last_lacks in
      rw (target-parts platform laws p plain) (ap (map (search_pair platform)) parts)

  signed_pair-encoded :
      IsUnreserved (link_signature platform p)
      → signed_pair platform laws p
        ≡ encode_pair platform (signature_name, link_signature platform p)
  signed_pair-encoded plain =
      let named : uri_encode platform signature_name ≡ signature_name =
        uri_encode-IsUnreserved platform laws signature_name (unfold str in grind arith) in
      rw (named, uri_encode-IsUnreserved platform laws (link_signature platform p) plain) refl

  sorted-Agrees :
      (own kept : Text)
      → All (Binds own kept) (parameters platform p)
      → All (Agrees platform laws own kept) (pairs_of platform laws p)
  sorted-Agrees own kept all =
      sort_pairs-All (Agrees platform laws own kept)
        (map (encode_pair platform) (parameters platform p))
        (encode-Agrees platform laws own kept (parameters platform p) all)

  module _ (header : Text → Option Text) (plain : IsUnreserved (link_signature platform p)) where
    -- A parameter that is there once is read with its value.
    pub get-parameter :
        (own kept : Text)
        → text_eq signature_name own ≡ false
        → All (Binds own kept) (parameters platform p)
        → Exists (λ pair. pair ≡ (own, kept)) (parameters platform p)
        → search_get own (query_params platform (request_of platform laws p header)) ≡ some kept
    get-parameter own kept differs all there =
        let last : Agrees platform laws own kept (signed_pair platform laws p) = (
          signature_name,
          link_signature platform p,
          signed_pair-encoded plain,
          λ same. absurd (cc (same, differs)),
        ) in
        let kept_there =
          sort_pairs-Exists (λ pair. pair ≡ encode_pair platform (own, kept))
            (map (encode_pair platform) (parameters platform p))
            (Exists-map platform own kept (parameters platform p) there) in
        rw (query_params-link header plain) (
          search_get-Agrees platform laws own kept
            (pairs_of platform laws p ++ signed_pair platform laws p ∷ [])
            (All-behind (Agrees platform laws own kept) (pairs_of platform laws p)
              (signed_pair platform laws p) (sorted-Agrees own kept all) last)
            (Exists-front (λ pair. pair ≡ encode_pair platform (own, kept))
              (pairs_of platform laws p) _ kept_there))

    pub get-signature :
        All (Binds signature_name (link_signature platform p)) (parameters platform p)
        → search_get signature_name (query_params platform (request_of platform laws p header))
          ≡ some (link_signature platform p)
    get-signature all =
        let signature = link_signature platform p in
        let encoded = signed_pair-encoded plain in
        let last : Agrees platform laws signature_name signature (signed_pair platform laws p) =
          (signature_name, signature, encoded, λ same. refl) in
        rw (query_params-link header plain) (
          search_get-Agrees platform laws signature_name signature
            (pairs_of platform laws p ++ signed_pair platform laws p ∷ [])
            (All-behind (Agrees platform laws signature_name signature) (pairs_of platform laws p)
              (signed_pair platform laws p) (sorted-Agrees signature_name signature all) last)
            (Exists-behind (λ pair. pair ≡ encode_pair platform (signature_name, signature))
              (pairs_of platform laws p) (signed_pair platform laws p) encoded))

    pub get-own :
        (own kept : Text)
        → starts_with own (str "X-Amz-") ≡ true
        → text_eq signature_name own ≡ false
        → AllForeign p.query
        → All (Binds own kept) own_parameters
        → Exists (λ pair. pair ≡ (own, kept)) own_parameters
        → search_get own (query_params platform (request_of platform laws p header)) ≡ some kept
    unfolding parameters
    get-own own kept begins differs foreign all there =
        get-parameter own kept differs (parameters-Binds own kept begins foreign all)
          (set_entries-Exists own kept p.query own_parameters begins foreign there)
