-- ===== src/Signature/Presign.antt =====
-- `presign` of libs/domains/src/s3/s3.signature.service.ts: the link that carries its signature.
use simple_storage_service.Prelude.{
  ℕ, ◌-◌, not, ◌&&◌, ◌||◌, Option, none, some, List, [], ◌∷◌, ◌++◌, map,
}
use simple_storage_service.Prelude.Tests.{leb, ◌==◌, if◌then◌else◌}
use simple_storage_service.Prelude.Lists.{all, filter, length, take, drop}
use simple_storage_service.Prelude.Text.{Text, str, text_eq, is_digit, split, join, to_decimal}
use simple_storage_service.Signature.{
  Platform, algorithm, unsigned_payload, signature_name, sort_pairs, show_pair, uri_encode,
  scope_of, canonical_lines, sign_request,
}

-- `iso` is the present time as `toISOString` prints it; `origin` and `host` are what `URL` reads in
-- the endpoint.
pub record PresignParams : Type 0 where
  pub method : Text
  pub origin : Text
  pub host : Text
  pub bucket : Text
  pub key : Text
  pub expires_in : ℕ
  pub access_key_id : Text
  pub secret_access_key : Text
  pub region : Text
  pub query : List (Text × Option Text)
  pub iso : Text

-- `toUpperCase` on the letters a to z.
unfoldable pub upper_unit : ℕ → ℕ
upper_unit c = if leb b'a' c && leb c b'z' then c - 32 else c

-- `replace(/\.\d{3}/, '')`: the first of them.
unfoldable pub strip_millis : Text → Text
strip_millis [] = []
strip_millis (c ∷ cs) =
    let rest = strip_millis cs in
    if (c == b'.') && all is_digit (take 3 cs) && (length (take 3 cs) == 3)
    then drop 3 cs
    else c ∷ rest

unfoldable pub to_amz_date : Text → Text
unfolding strip_millis
to_amz_date iso = strip_millis (filter (λ c. not ((c == b'-') || (c == b':'))) iso)

-- An assignment to an entry of an object.
unfoldable pub set_entry : Text → Text → List (Text × Text) → List (Text × Text)
set_entry name value [] = (name, value) ∷ []
set_entry name value ((name', value') ∷ entries) =
    if text_eq name name'
    then (name, value) ∷ entries
    else (name', value') ∷ set_entry name value entries

unfoldable pub set_entries : List (Text × Option Text) → List (Text × Text) → List (Text × Text)
unfolding set_entry
set_entries [] entries = entries
set_entries ((name, none) ∷ query) entries = set_entries query entries
set_entries ((name, some value) ∷ query) entries = set_entries query (set_entry name value entries)

abbrev pub service_name : Text
service_name = str "s3"

module _ (platform : Platform) where
  abbrev pub date_of : PresignParams → Text
  date_of p = take 8 (to_amz_date p.iso)

  unfoldable pub parameters : PresignParams → List (Text × Text)
  unfolding set_entries
  parameters p = set_entries p.query (
      (str "X-Amz-Algorithm", algorithm)
      ∷ (
        str "X-Amz-Credential",
        p.access_key_id ++ b'/' ∷ scope_of platform (date_of p) p.region service_name,
      )
      ∷ (str "X-Amz-Date", to_amz_date p.iso)
      ∷ (str "X-Amz-Expires", to_decimal p.expires_in)
      ∷ (str "X-Amz-SignedHeaders", str "host")
      ∷ [])

  abbrev pub encode_pair : Text × Text → Text × Text
  encode_pair (name, value) = (uri_encode platform name, uri_encode platform value)

  unfoldable pub link_uri : PresignParams → Text
  link_uri p =
      join (b'/' ∷ []) (map (uri_encode platform) (split b'/' (b'/' ∷ (p.bucket ++ b'/' ∷ p.key))))

  unfoldable pub link_query : PresignParams → Text
  link_query p = join (b'&' ∷ []) (map show_pair (sort_pairs (map encode_pair (parameters p))))

  unfoldable pub link_request : PresignParams → Text
  unfolding link_uri link_query
  link_request p =
      canonical_lines platform (map upper_unit p.method) (link_uri p) (link_query p)
        (str "host" ++ b':' ∷ (p.host ++ 10 ∷ [])) (str "host" ∷ []) unsigned_payload

  unfoldable pub link_signature : PresignParams → Text
  unfolding link_request
  link_signature p =
      sign_request platform p.secret_access_key (date_of p) p.region service_name
        (to_amz_date p.iso) (link_request p)

  -- The link behind its origin.
  unfoldable pub link_target : PresignParams → Text
  unfolding link_signature link_uri link_query
  link_target p =
      link_uri p ++ b'?' ∷ (link_query p ++ b'&' ∷ (signature_name ++ b'=' ∷ link_signature p))

  unfoldable pub presign : PresignParams → Text
  unfolding link_target
  presign p = p.origin ++ link_target p
