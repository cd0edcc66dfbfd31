-- ===== src/Objects/Multipart/Listing.antt =====
-- `listParts` and `resolveLimit` of libs/domains/src/objects/objects.service.ts.
pub mod Pages
use simple_storage_service.Prelude.{
  ℕ, ◌+◌, Bool, true, false, Option, none, some, List, [], ◌∷◌, map, min,
}
use simple_storage_service.Prelude.Tests.{ltb, ◌==◌, if◌then◌else◌}
use simple_storage_service.Prelude.Lists.{filter, length, take}
use simple_storage_service.Prelude.Text.{Text}
use simple_storage_service.Prelude.Result.{Result, ok, err, ◌>>=◌}
use simple_storage_service.Database.{MultipartPartRow}
use simple_storage_service.Usage.{Tables}
use simple_storage_service.Objects.{ObjectsError}
use simple_storage_service.Objects.Multipart.Upload.{require_upload, stored_parts}

pub record PartItem : Type 0 where
  pub part_number : ℕ
  pub size : ℕ
  pub etag : Text
  pub last_modified : ℕ

pub record ListPartsResult : Type 0 where
  pub key : Text
  pub parts : List PartItem
  pub is_truncated : Bool
  pub next_part_number_marker : Option ℕ

abbrev pub max_keys_limit : ℕ
max_keys_limit = 1000

-- A missing limit and 0 are the default.
unfoldable pub resolve_limit : Option ℕ → ℕ
resolve_limit none = max_keys_limit
resolve_limit (some requested) =
    if requested == 0 then max_keys_limit else min requested max_keys_limit

-- `partNumberMarker ? gt(partNumber, partNumberMarker) : undefined`.
unfoldable pub is_behind : Option ℕ → MultipartPartRow → Bool
is_behind none part = true
is_behind (some marker) part = if marker == 0 then true else ltb marker part.part_number

abbrev pub to_part_item : MultipartPartRow → PartItem
to_part_item part = record {
  part_number = part.part_number;
  size = part.size;
  etag = part.etag;
  last_modified = part.created_at;
}

-- `page[page.length - 1]?.partNumber`.
unfoldable pub last_number : List MultipartPartRow → Option ℕ
last_number [] = none
last_number (part ∷ []) = some part.part_number
last_number (part ∷ next ∷ parts) = last_number (next ∷ parts)

-- The answer for the rows that the query selects.
unfoldable pub page_of : Text → ℕ → List MultipartPartRow → ListPartsResult
unfolding last_number
page_of key limit selected =
    let rows = take (limit + 1) selected in
    let page = take limit rows in
    record {
      key = key;
      parts = map to_part_item page;
      is_truncated = ltb limit (length rows);
      next_part_number_marker = if ltb limit (length rows) then last_number page else none;
    }

-- The rows behind the marker are picked among the rows in order; a number stands once in an upload.
unfoldable pub list_parts :
    Tables → ℕ → Text → Option ℕ → Option ℕ → Result ObjectsError ListPartsResult
unfolding resolve_limit is_behind page_of
list_parts t bucket_guid upload_id max_parts marker = do
  upload ← require_upload t bucket_guid upload_id
  ok (
      page_of upload.key (resolve_limit max_parts)
        (filter (is_behind marker) (stored_parts t upload.guid)))
