-- ===== src/Signature/Links.antt =====
-- A link that `presign` makes against `verifyPresigned`.
pub mod Entries
pub mod Search
pub mod Reading
pub mod Credentials
pub mod Acceptance
use simple_storage_service.Prelude.{
  ℕ, ◌+◌, ◌*◌, ◌≤◌, ◌≡◌, refl, sym, ap, ◌∙◌, Bool, true, false, not, Option, some, List, [], ◌∷◌,
  ◌++◌, map, arith,
}
use mathlib.Core.List.{append_assoc}
use mathlib.Core.Path.{subst}
use simple_storage_service.Prelude.Lists.{All, filter}
use simple_storage_service.Prelude.Text.{
  Text, str, text_eq, text_eq_refl, includes, split, join, Lacks, Lacks-append, join-Lacks,
  split-join, split-piece, split-last, split-cons,
}
use simple_storage_service.Prelude.Result.{ok}
use simple_storage_service.Signature.{
  Platform, HttpRequest, SignatureV4Query, unsigned_payload, signature_name, is_blank, show_pair,
  sort_pairs, header_value, canonical_headers, uri_encode, is_kept, canonical_query, or_root,
  canonical_uri, build_canonical_request,
}
use simple_storage_service.Signature.Verify.{
  assert_signature_equals, parse_amz_date, is_lifetime, is_past, verify_presigned,
}
use simple_storage_service.Signature.Sorting.{
  sort_pairs-IsSorted, sort_pairs-sorted, sort_pairs-All,
}
use simple_storage_service.Signature.Encoding.{
  IsUnreserved, IsUri, is_blank-show_pair, uri_encode-IsUnreserved, recode_all-uri_encode,
  pairs_of-IsEncoded-Lacks, IsEncoded, show_pairs-Lacks, recode_pairs-show,
}
use simple_storage_service.Signature.Presign.{
  PresignParams, upper_unit, to_amz_date, service_name, date_of, parameters, encode_pair, link_uri,
  link_query, link_request, link_signature, link_target, presign,
}

abbrev pub no_blank : List Text → List Text
no_blank texts = filter (λ text. not (is_blank text)) texts

-- The pairs of a query with one more behind them.
pub split-pairs :
    (pairs : List (Text × Text)) (last : Text × Text)
    → All (Lacks b'&') (map show_pair pairs)
    → Lacks b'&' (show_pair last)
    → no_blank (split b'&' (join (b'&' ∷ []) (map show_pair pairs) ++ b'&' ∷ show_pair last))
      ≡ map show_pair (pairs ++ last ∷ [])
unfolding join
split-pairs [] last all h =
    let parts =
      split-piece b'&' [] (show_pair last) tt
      ∙ ap (λ (t : List Text). [] ∷ t) (split-last b'&' (show_pair last) h) in
    rw (parts, is_blank-show_pair last) refl
split-pairs (pair ∷ []) last (first, rest) h =
    let parts =
      split-piece b'&' (show_pair pair) (show_pair last) first
      ∙ ap (λ (t : List Text). show_pair pair ∷ t) (split-last b'&' (show_pair last) h) in
    rw (parts, is_blank-show_pair pair, is_blank-show_pair last) refl
split-pairs (pair ∷ next ∷ pairs) last (first, rest) h =
    let more = join (b'&' ∷ []) (map show_pair (next ∷ pairs)) in
    let regrouped = append_assoc (show_pair pair) (b'&' ∷ more) (b'&' ∷ show_pair last) in
    let parts = split-piece b'&' (show_pair pair) (more ++ b'&' ∷ show_pair last) first in
    rw (regrouped, parts, is_blank-show_pair pair)
      (ap (λ (t : List Text). show_pair pair ∷ t) (split-pairs (next ∷ pairs) last rest h))

filter-behind :
    (p : Text × Text → Bool) (pairs : List (Text × Text)) (last : Text × Text)
    → All (λ pair. p pair ≡ true) pairs
    → p last ≡ false
    → filter p (pairs ++ last ∷ []) ≡ pairs
filter-behind p [] last all h = rw h refl
filter-behind p (pair ∷ pairs) last (first, rest) h =
    rw first (ap (λ (t : List (Text × Text)). pair ∷ t) (filter-behind p pairs last rest h))

pub All-behind :
    (P : Text × Text → Type 0) (pairs : List (Text × Text)) (last : Text × Text)
    → All P pairs
    → P last
    → All P (pairs ++ last ∷ [])
All-behind P [] last all h = (h, tt)
All-behind P (pair ∷ pairs) last (first, rest) h = (first, All-behind P pairs last rest h)

module _ (platform : Platform) (laws : IsUri platform) (p : PresignParams) where
  -- A parameter that is not the signature.
  abbrev pub IsOther : Text × Text → Type 0
  IsOther pair = text_eq signature_name (uri_encode platform pair.0) ≡ false

  encoded :
      (pairs : List (Text × Text))
      → All (IsEncoded platform laws) (map (encode_pair platform) pairs)
  encoded [] = tt
  encoded ((name, value) ∷ pairs) = ((name, value, refl), encoded pairs)

  kept :
      (pairs : List (Text × Text))
      → All IsOther pairs
      → All
          (λ pair. is_kept platform (signature_name ∷ []) pair ≡ true)
          (map (encode_pair platform) pairs)
  unfolding includes
  kept [] all = tt
  kept ((name, value) ∷ pairs) (first, rest) = (rw first refl, kept pairs rest)

  abbrev pub pairs_of : List (Text × Text)
  pairs_of = sort_pairs (map (encode_pair platform) (parameters platform p))

  abbrev pub signed_pair : Text × Text
  signed_pair = (signature_name, link_signature platform p)

  pub pairs_of-IsEncoded : All (IsEncoded platform laws) pairs_of
  pairs_of-IsEncoded = sort_pairs-All (IsEncoded platform laws) _ (encoded (parameters platform p))

  pub signed_pair-IsEncoded :
      IsUnreserved (link_signature platform p) → IsEncoded platform laws signed_pair
  signed_pair-IsEncoded plain =
      let named : uri_encode platform signature_name ≡ signature_name =
        uri_encode-IsUnreserved platform laws signature_name (unfold str in grind arith) in
      (
        signature_name,
        link_signature platform p,
        rw (named, uri_encode-IsUnreserved platform laws (link_signature platform p) plain) refl,
      )

  canonical_query-link :
      All IsOther (parameters platform p)
      → IsUnreserved (link_signature platform p)
      → canonical_query platform
          (signature_name ∷ [])
          (link_query platform p ++ b'&' ∷ (signature_name ++ b'=' ∷ link_signature platform p))
        ≡ ok (link_query platform p)
  unfolding canonical_query link_query includes
  canonical_query-link others plain =
      let last = signed_pair in
      let sorted = pairs_of in
      let all = pairs_of-IsEncoded in
      let last_encoded = signed_pair-IsEncoded plain in
      let whole = All-behind (IsEncoded platform laws) sorted last all last_encoded in
      let (last_lacks, _) =
        show_pairs-Lacks platform laws b'&' (last ∷ []) refl refl (last_encoded, tt) in
      let parts =
        split-pairs sorted last (show_pairs-Lacks platform laws b'&' sorted refl refl all)
          last_lacks in
      let there = sort_pairs-All _ _ (kept (parameters platform p) others) in
      let here : is_kept platform (signature_name ∷ []) last ≡ false =
        rw (text_eq_refl signature_name) refl in
      let left = filter-behind (is_kept platform (signature_name ∷ [])) sorted last there here in
      let same =
        sort_pairs-sorted sorted
          (sort_pairs-IsSorted (map (encode_pair platform) (parameters platform p))) in
      rw (parts, recode_pairs-show platform laws (sorted ++ last ∷ []) whole, left, same) refl

  -- The path of a link is a slash and its escaped segments.
  link_uri-segments :
      (segments : List Text) × (link_uri platform p
        ≡ join (b'/' ∷ []) (map (uri_encode platform) segments))
      × (split b'/' (link_uri platform p) ≡ map (uri_encode platform) segments)
      × (or_root platform (link_uri platform p) ≡ link_uri platform p)
  unfolding link_uri
  link_uri-segments =
      let (first, rest, parts) = split-cons b'/' (p.bucket ++ b'/' ∷ p.key) in
      let whole : split b'/' (b'/' ∷ (p.bucket ++ b'/' ∷ p.key)) ≡ [] ∷ first ∷ rest =
        split-piece b'/' [] (p.bucket ++ b'/' ∷ p.key) tt ∙ ap (λ (t : List Text). [] ∷ t) parts in
      let blank : uri_encode platform [] ≡ [] = uri_encode-IsUnreserved platform laws [] tt in
      let segments = [] ∷ first ∷ rest in
      (
        segments,
        ap (λ (t : List Text). join (b'/' ∷ []) (map (uri_encode platform) t)) whole,
        rw whole (
            split-join b'/' (uri_encode platform []) (map (uri_encode platform) (first ∷ rest))
              (pairs_of-IsEncoded-Lacks platform laws b'/' segments refl)),
        rw (whole, blank) (unfold join or_root in refl),
      )

  canonical_uri-link : canonical_uri platform (link_uri platform p) ≡ ok (link_uri platform p)
  unfolding canonical_uri
  canonical_uri-link =
      let (segments, joined, parts, root) = link_uri-segments in
      rw (parts, recode_all-uri_encode platform laws segments)
        (ap ok (ap (or_root platform) (sym joined) ∙ root))

  pub target-parts :
      IsUnreserved (link_signature platform p)
      → split b'?' (link_target platform p)
        ≡ link_uri platform p
          ∷ (link_query platform p ++ b'&' ∷ (signature_name ++ b'=' ∷ link_signature platform p))
          ∷ []
  unfolding link_target link_query
  target-parts plain =
      let (segments, joined, _, _) = link_uri-segments in
      let uri_lacks : Lacks b'?' (link_uri platform p) = subst (Lacks b'?') (sym joined) (
        join-Lacks b'?' b'/' (map (uri_encode platform) segments) refl
          (pairs_of-IsEncoded-Lacks platform laws b'?' segments refl)) in
      let pairs_lack = show_pairs-Lacks platform laws b'?' pairs_of refl refl pairs_of-IsEncoded in
      let (last_lacks, _) =
        show_pairs-Lacks platform laws b'?' (signed_pair ∷ []) refl refl
          (signed_pair-IsEncoded plain, tt) in
      let query_lacks =
        Lacks-append b'?' (join (b'&' ∷ []) (map show_pair pairs_of)) (b'&' ∷ show_pair signed_pair)
          (join-Lacks b'?' b'&' (map show_pair pairs_of) refl pairs_lack) (refl, last_lacks) in
      split-piece b'?' (link_uri platform p) _ uri_lacks
      ∙ ap (λ (t : List Text). link_uri platform p ∷ t) (split-last b'?' _ query_lacks)

  -- The request that a client makes of the link.
  abbrev pub request_of : (Text → Option Text) → HttpRequest
  request_of header = record {
    method = map upper_unit p.method;
    original_url = link_target platform p;
    header = header;
  }

  pub canonical_request-link :
      (header : Text → Option Text)
      → header (str "host") ≡ some p.host
      → header_value (some p.host) ≡ p.host
      → All IsOther (parameters platform p)
      → IsUnreserved (link_signature platform p)
      → build_canonical_request platform
          (request_of header)
          (str "host" ∷ [])
          unsigned_payload
          (signature_name ∷ [])
        ≡ ok (link_request platform p)
  unfolding build_canonical_request canonical_headers link_request
  canonical_request-link header sent clean others plain =
      rw (target-parts plain, canonical_uri-link, canonical_query-link others plain, sent, clean)
        refl
