-- ===== src/Signature/Parse.antt =====
-- `parseAuthorizationHeader` and `parseQuerySignature` of
-- libs/domains/src/s3/s3.signature.service.ts.
use simple_storage_service.Prelude.{ℕ, not, ◌||◌, Option, none, some, List, [], ◌∷◌, map}
use simple_storage_service.Prelude.Tests.{◌==◌, if◌then◌else◌}
use simple_storage_service.Prelude.Lists.{filter, length, drop}
use simple_storage_service.Prelude.Text.{Text, str, text_eq, starts_with, split, join}
use simple_storage_service.Prelude.Result.{Result, ok, err, ◌>>=◌, ◌>>◌, guard}
use simple_storage_service.Request.{trim}
use simple_storage_service.Signature.{
  Platform, HttpRequest, path_and_query, SignatureError, malformed_authorization, SignatureV4Header,
  SignatureV4Query, algorithm, signature_name, is_blank, or_blank,
}

-- The first four parts of a credential, each of them there and not empty.
unfoldable pub credential_of : Text → List Text → Text → Result SignatureError SignatureV4Header
credential_of credential signed_headers signature = elim (split b'/' credential) [
  | access_key_id ∷ date ∷ region ∷ service ∷ rest ↦
      guard
        (not (
          is_blank access_key_id
          || is_blank date
          || is_blank region
          || is_blank service
          || is_blank signature
          || (length signed_headers == 0)))
        malformed_authorization
      >> ok (record {
        access_key_id = access_key_id;
        date = date;
        region = region;
        service = service;
        signed_headers = signed_headers;
        signature = signature;
      })
  | _ ↦ err malformed_authorization
]

unfoldable pub names_of : Text → List Text
names_of text = filter (λ name. not (is_blank name)) (split b';' text)

-- `Object.fromEntries`: the last entry of a name counts.
unfoldable pub entry_of : Text → List Text → Option Text
entry_of name [] = none
entry_of name (part ∷ parts) = elim (entry_of name parts) [
  | some value ↦ some value
  | none ↦ elim (split b'=' (trim part)) [
    | [] ↦ none
    | key ∷ rest ↦ if text_eq key name then some (join (b'=' ∷ []) rest) else none
  ]
]

unfoldable pub parse_authorization_header : Option Text → Result SignatureError SignatureV4Header
unfolding credential_of names_of entry_of
parse_authorization_header none = err malformed_authorization
parse_authorization_header (some header) =
    let parts = split b',' (drop (length algorithm) header) in
    guard (starts_with header algorithm) malformed_authorization
    >> credential_of (or_blank (entry_of (str "Credential") parts))
        (names_of (or_blank (entry_of (str "SignedHeaders") parts)))
        (or_blank (entry_of (str "Signature") parts))

-- `get` is that of the query's `URLSearchParams`, and `number` is `Number`.
unfoldable pub query_signature_of :
    (Text → Option Text) → (Text → Option ℕ) → Result SignatureError (Option SignatureV4Query)
unfolding credential_of names_of
query_signature_of get number =
    if text_eq (or_blank (get (str "X-Amz-Algorithm"))) algorithm
    then (do
      guard (not (is_blank (or_blank (get (str "X-Amz-Date"))))) malformed_authorization
      signed ←
          credential_of (or_blank (get (str "X-Amz-Credential")))
            (names_of (or_blank (get (str "X-Amz-SignedHeaders")))) (or_blank (get signature_name))
      ok (
          some (record {
            signed = signed;
            amz_date = or_blank (get (str "X-Amz-Date"));
            expires = elim (get (str "X-Amz-Expires")) [ none ↦ some 0 | some text ↦ number text ];
          })))
    else ok none

-- The `get` of `URLSearchParams`: the value of the first pair with the name.
unfoldable pub search_get : Text → List (Text × Text) → Option Text
search_get name [] = none
search_get name ((name', value) ∷ pairs) =
    let rest = search_get name pairs in if text_eq name' name then some value else rest

module _ (platform : Platform) where
  open platform use {form_decode, number}

  -- A pair ends its name at the first `=`.
  unfoldable pub search_pair : Text → Text × Text
  search_pair pair = elim (split b'=' pair) [
    | [] ↦ ([], [])
    | key ∷ rest ↦ (form_decode key, form_decode (join (b'=' ∷ []) rest))
  ]

  -- The pairs of `URLSearchParams`, on what stands behind the first `?` of the request.
  unfoldable pub query_params : HttpRequest → List (Text × Text)
  unfolding search_pair
  query_params req = map search_pair (
      filter (λ pair. not (is_blank pair))
        (split b'&' (path_and_query platform (split b'?' req.original_url)).1))

  unfoldable pub parse_query_signature :
      HttpRequest → Result SignatureError (Option SignatureV4Query)
  unfolding query_signature_of query_params search_get
  parse_query_signature req = query_signature_of (λ name. search_get name (query_params req)) number
