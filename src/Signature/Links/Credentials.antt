-- ===== src/Signature/Links/Credentials.antt =====
-- What `parseQuerySignature` reads from the parameters of a link.
use simple_storage_service.Prelude.{ℕ, ◌≡◌, refl, false, Option, some, [], ◌∷◌}
use simple_storage_service.Prelude.Text.{
  Text, str, text_eq_refl, split, split_from, join, Lacks, split-join,
}
use simple_storage_service.Prelude.Result.{ok}
use simple_storage_service.Signature.{algorithm, signature_name, request_end, is_blank}
use simple_storage_service.Signature.Parse.{credential_of, names_of, query_signature_of}
use simple_storage_service.Signature.Presign.{service_name}

-- A part of a credential.
abbrev pub IsPart : Text → Type 0
IsPart text = Lacks b'/' text × (is_blank text ≡ false)

credential_of-parts :
    (access_key_id date region service signature : Text)
    → IsPart access_key_id
    → IsPart date
    → IsPart region
    → IsPart service
    → is_blank signature ≡ false
    → credential_of
        (join (b'/' ∷ []) (access_key_id ∷ date ∷ region ∷ service ∷ request_end ∷ []))
        (str "host" ∷ [])
        signature
      ≡ ok (record {
        access_key_id = access_key_id;
        date = date;
        region = region;
        service = service;
        signed_headers = str "host" ∷ [];
        signature = signature;
      })
unfolding credential_of str
credential_of-parts access_key_id date region service signature (a, some_a) (d, some_d) (r, some_r)
      (s, some_s) some_signature =
    let parts = split-join b'/' access_key_id (date ∷ region ∷ service ∷ request_end ∷ []) (
      a,
      (
        d,
        (
          r,
          (
            s,
            (
              (
                refl,
                (
                  refl,
                  (
                    refl,
                    (refl, (refl, (refl, (refl, (refl, (refl, (refl, (refl, (refl, tt))))))))),
                  ),
                ),
              ),
              tt,
            ),
          ),
        ),
      ),
    ) in
    rw (parts, credential_of) (rw (some_a, some_d) (rw (some_r, some_s) (rw some_signature refl)))

pub query_signature_of-read :
    (get : Text → Option Text) (number : Text → Option ℕ)
    (access_key_id date region signature amz_date expires : Text) (seconds : Option ℕ)
    → get (str "X-Amz-Algorithm") ≡ some algorithm
    → get (str "X-Amz-Credential")
      ≡ some (join (b'/' ∷ []) (access_key_id ∷ date ∷ region ∷ service_name ∷ request_end ∷ []))
    → get (str "X-Amz-Date") ≡ some amz_date
    → get (str "X-Amz-Expires") ≡ some expires
    → get (str "X-Amz-SignedHeaders") ≡ some (str "host")
    → get signature_name ≡ some signature
    → number expires ≡ seconds
    → IsPart access_key_id
    → IsPart date
    → IsPart region
    → is_blank signature ≡ false
    → is_blank amz_date ≡ false
    → query_signature_of get number
      ≡ ok (
          some (record {
            signed = record {
              access_key_id = access_key_id;
              date = date;
              region = region;
              service = service_name;
              signed_headers = str "host" ∷ [];
              signature = signature;
            };
            amz_date = amz_date;
            expires = seconds;
          }))
unfolding query_signature_of names_of split split_from str
query_signature_of-read get number access_key_id date region signature amz_date expires seconds
      got_algorithm got_credential got_date got_expires got_headers got_signature counted access_key
      day place signed dated =
    let names : names_of (str "host") ≡ str "host" ∷ [] = refl in
    let service : IsPart service_name = ((refl, (refl, tt)), refl) in
    let read =
      credential_of-parts access_key_id date region service_name signature access_key day place
        service signed in
    let same = text_eq_refl algorithm in
    rw (got_algorithm, query_signature_of)
      (rw (same, got_date)
        (rw (dated, got_credential)
          (rw (got_headers, got_signature) (rw names (rw read (rw (got_expires, counted) refl))))))
