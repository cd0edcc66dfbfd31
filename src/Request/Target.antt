-- ===== src/Request/Target.antt =====
-- What a request is about: `subResource`, `bucketAndKey`, `copySource` and `copySourceRange` of
-- libs/domains/src/s3/s3.request.service.ts.
pub mod Paths
use mathlib.Core.List.{reverse}
use simple_storage_service.Prelude.{
  ℕ, ◌+◌, ◌-◌, Bool, true, false, not, ◌&&◌, ◌||◌, Option, none, some, List, [], ◌∷◌, ◌++◌, map,
  min,
}
use simple_storage_service.Prelude.Tests.{ltb, leb, ◌==◌, if◌then◌else◌}
use simple_storage_service.Prelude.Lists.{any, all, find, length, drop}
use simple_storage_service.Prelude.Text.{
  Text, str, text_eq, includes, is_digit, decimal, split, join, starts_with,
}
use simple_storage_service.Prelude.Result.{Result, ok, err, ◌>>=◌, ◌>>◌, guard}
use simple_storage_service.Request.{
  RangeError, ResolvedRange, match_range, trim, span_stop, resolve_span,
}

pub data TargetError : Type 0 where
  not_implemented invalid_argument invalid_range malformed_escape : TargetError

-- `S3Types.UNIMPLEMENTED_SUBRESOURCES` of libs/domains/src/s3/s3.types.ts.
abbrev unimplemented_subresources : List Text
unimplemented_subresources = map str (
    "accelerate" ∷ "analytics" ∷ "encryption" ∷ "inventory" ∷ "lifecycle" ∷ "legal-hold" ∷ "logging"
    ∷ "metrics" ∷ "notification" ∷ "object-lock" ∷ "ownershipControls" ∷ "publicAccessBlock"
    ∷ "replication" ∷ "requestPayment" ∷ "restore" ∷ "retention" ∷ "select" ∷ "tagging" ∷ "torrent"
    ∷ "website" ∷ [])

abbrev known_subresources : List Text
known_subresources = map str (
    "acl" ∷ "uploadId" ∷ "uploads" ∷ "versioning" ∷ "versions" ∷ "policy" ∷ "cors" ∷ "location"
    ∷ "delete" ∷ [])

-- For the names of the query; `none` is the plain operation.
unfoldable pub sub_resource : List Text → Result TargetError (Option Text)
sub_resource keys =
    guard (not (any (includes unimplemented_subresources) keys)) not_implemented
    >> ok (find (includes keys) known_subresources)

unfoldable pub object_sub_resource : List Text → Result TargetError (Option Text)
object_sub_resource keys = do
  selected ← sub_resource keys
  guard (elim selected [ none ↦ true | some name ↦ not (text_eq name (str "acl")) ]) not_implemented
  ok selected

-- `/^bytes=(\d+)-(\d+)$/` asks for both numbers.
unfoldable pub resolve_both : Option (Text × Text) → ℕ → Result TargetError (Option ResolvedRange)
resolve_both (some (d ∷ ds, e ∷ es)) size =
    elim (resolve_span (decimal (d ∷ ds)) (some (decimal (e ∷ es))) size) [
      | err e ↦ err invalid_range
      | ok range ↦ ok range
    ]
resolve_both _ size = err invalid_argument

-- An empty header is none.
unfoldable pub copy_source_range : Option Text → ℕ → Result TargetError (Option ResolvedRange)
unfolding resolve_both
copy_source_range none size = ok none
copy_source_range (some []) size = ok none
copy_source_range (some (c ∷ cs)) size = resolve_both (match_range (trim (c ∷ cs))) size

-- The path in front of the first `?`.
unfoldable pub path_of : Text → Text
path_of [] = []
path_of (c ∷ cs) = let rest = path_of cs in if c == b'?' then [] else c ∷ rest

-- `filter((segment, index) => index > 0 || segment !== '')`.
unfoldable pub drop_leading : List Text → List Text
drop_leading ([] ∷ segments) = segments
drop_leading segments = segments

pub record BucketAndKey : Type 0 where
  pub bucket : Text
  pub key : Text

pub record CopySource : Type 0 where
  pub bucket : Text
  pub key : Text
  pub version_id : Option Text

-- `decode` is `decodeURIComponent`; `none` is a malformed escape.
module _ (decode : Text → Option Text) where
  unfoldable pub decode_segment : Text → Text
  decode_segment segment = elim (decode segment) [ none ↦ segment | some text ↦ text ]

  unfoldable pub from_segments : List Text → BucketAndKey
  unfolding decode_segment
  from_segments [] = record { bucket = decode_segment []; key = [] }
  from_segments (bucket ∷ rest) = record {
    bucket = decode_segment bucket;
    key = join (b'/' ∷ []) (map decode_segment rest);
  }

  unfoldable pub bucket_and_key : Text → BucketAndKey
  unfolding path_of drop_leading from_segments
  bucket_and_key url = from_segments (drop_leading (split b'/' (path_of url)))

  -- `version_id` is the reading of the parameter by `URLSearchParams`.
  unfoldable pub copy_source_from : (Text → Option Text) → List Text → Result TargetError CopySource
  copy_source_from version_id [] = err invalid_argument
  copy_source_from version_id (path ∷ queries) = elim (split b'/' path) [
    | [] ↦ err invalid_argument
    | [] ∷ rest ↦ err invalid_argument
    | (c ∷ cs) ∷ [] ↦ err invalid_argument
    | (c ∷ cs) ∷ segment ∷ rest ↦ ok (record {
      bucket = c ∷ cs;
      key = join (b'/' ∷ []) (segment ∷ rest);
      version_id = version_id (elim queries [ [] ↦ [] | query ∷ more ↦ query ]);
    })
  ]

  unfoldable pub without_slash : Text → Text
  without_slash [] = []
  without_slash (c ∷ cs) = if c == b'/' then cs else c ∷ cs

  -- A missing or an empty header is no source, and a malformed escape fails.
  unfoldable pub copy_source :
      (Text → Option Text) → Option Text → Result TargetError (Option CopySource)
  unfolding copy_source_from without_slash
  copy_source version_id none = ok none
  copy_source version_id (some []) = ok none
  copy_source version_id (some (c ∷ cs)) = elim (decode (c ∷ cs)) [
    | none ↦ err malformed_escape
    | some text ↦
        copy_source_from version_id (split b'?' (without_slash text)) >>= λ source. ok (some source)
  ]
