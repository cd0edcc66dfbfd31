-- ===== src/Request/Headers.antt =====
-- The other headers that libs/domains/src/s3/s3.request.service.ts reads: the origin of a request
-- as policies see it, the encodings that are stored, and the requests for encryption and an ACL.
use simple_storage_service.Prelude.{Bool, not, Option, none, some, List, [], ◌∷◌, map}
use simple_storage_service.Prelude.Tests.{if◌then◌else◌}
use simple_storage_service.Prelude.Lists.{filter, drop}
use simple_storage_service.Prelude.Text.{Text, str, text_eq, split, join, lower_unit, starts_with}
use simple_storage_service.Prelude.Result.{Result, ok, err}
use simple_storage_service.Database.{BucketAcl}
use simple_storage_service.Request.Conditions.{given}
use simple_storage_service.Request.{trim}

pub data HeaderError : Type 0 where
  unsupported_encryption invalid_acl : HeaderError

-- `split(',')[0].trim()`.
unfoldable pub first_hop : Text → Text
unfolding trim
first_hop text = elim (split b',' text) [ [] ↦ [] | hop ∷ hops ↦ trim hop ]

unfoldable pub source_ip : Option Text → Option Text → Option Text
unfolding given first_hop
source_ip forwarded peer = elim (given forwarded) [
  | none ↦ peer
  | some text ↦ some (first_hop text)
]

unfoldable pub is_secure : Option Text → Text → Bool
unfolding given first_hop
is_secure forwarded protocol = elim (given forwarded) [
  | none ↦ text_eq protocol (str "https")
  | some text ↦ text_eq (map lower_unit (first_hop text)) (str "https")
]

-- `encodings.length ? encodings.join(', ') : undefined`.
joined : List Text → Option Text
joined [] = none
joined (encoding ∷ encodings) = some (join (str ", ") (encoding ∷ encodings))

unfoldable pub content_encoding : Option Text → Option Text
unfolding given trim joined
content_encoding header = elim (given header) [
  | none ↦ none
  | some text ↦
      joined (
        filter (λ encoding. not (text_eq encoding (str "aws-chunked")))
          (map trim (split b',' text)))
]

unfoldable pub assert_supported_encryption : Option Text → Result HeaderError (Unit {0})
unfolding given
assert_supported_encryption header = elim (given header) [
  | none ↦ ok tt
  | some requested ↦ if text_eq requested (str "AES256") then ok tt else err unsupported_encryption
]

-- `Object.values(BucketAcl)`, with the value of each member.
unfoldable pub acl_named : Text → Option BucketAcl
acl_named text =
    if text_eq text (str "private")
    then some BucketAcl.private
    else if text_eq text (str "public-read")
    then some BucketAcl.public_read
    else if text_eq text (str "public-read-write")
    then some BucketAcl.public_read_write
    else if text_eq text (str "authenticated-read")
    then some BucketAcl.authenticated_read
    else none

unfoldable pub canned_acl : Option Text → Result HeaderError (Option BucketAcl)
unfolding given acl_named
canned_acl header = elim (given header) [
  | none ↦ ok none
  | some text ↦ elim (acl_named text) [ none ↦ err invalid_acl | some acl ↦ ok (some acl) ]
]

-- `x-amz-meta-*`: the entries of the headers with that prefix, less the prefix.
unfoldable pub user_metadata : List (Text × Text) → List (Text × Text)
user_metadata [] = []
user_metadata ((name, value) ∷ headers) =
    if starts_with name (str "x-amz-meta-")
    then (drop 11 name, value) ∷ user_metadata headers
    else user_metadata headers
