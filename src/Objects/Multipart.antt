-- ===== src/Objects/Multipart.antt =====
-- Multipart uploads of libs/domains/src/objects/objects.service.ts: `matchRequestedParts`.
pub mod Matching
pub mod Upload
pub mod Listing
use simple_storage_service.Prelude.{
  ℕ, ◌≡◌, Bool, true, false, not, Option, none, some, List, [], ◌∷◌,
}
use simple_storage_service.Prelude.Tests.{ltb, leb, ◌==◌, if◌then◌else◌}
use simple_storage_service.Prelude.Lists.{find, filter}
use simple_storage_service.Prelude.Text.{Text, text_eq}
use simple_storage_service.Prelude.Result.{Result, ok, err, ◌>>=◌, ◌>>◌, guard}
use simple_storage_service.Database.{MultipartPartRow}
use simple_storage_service.Objects.{ObjectsError, invalid_part, invalid_part_order, part_too_small}

pub record CompletePart : Type 0 where
  pub part_number : ℕ
  pub etag : Text

abbrev pub min_part_size : ℕ
min_part_size = 5242880

abbrev pub has_part_number : ℕ → MultipartPartRow → Bool
has_part_number n part = part.part_number == n

-- `new Map(stored.map(...))` and `get`: a number stands once in the table.
unfoldable pub stored_part : List MultipartPartRow → ℕ → Option MultipartPartRow
stored_part stored n = find (has_part_number n) stored

-- `etag.replace(/"/g, '')`.
unfoldable pub strip_quotes : Text → Text
strip_quotes etag = filter (λ c. not (c == b'"')) etag

check_part : Bool → CompletePart → Option MultipartPartRow → Result ObjectsError MultipartPartRow
check_part is_last part none = err invalid_part
check_part is_last part (some found) =
    guard (text_eq found.etag (strip_quotes part.etag)) invalid_part
    >> guard (if is_last then true else not (ltb found.size min_part_size)) part_too_small
    >> ok found

-- The number of the part before, if there is one.
in_order : Option ℕ → ℕ → Bool
in_order none n = true
in_order (some before) n = ltb before n

abbrev pub is_empty : List CompletePart → Bool
is_empty [] = true
is_empty (part ∷ parts) = false

unfoldable pub match_from :
    Option ℕ
    → List CompletePart
    → List MultipartPartRow
    → Result ObjectsError (List MultipartPartRow)
unfolding check_part in_order
match_from before [] stored = ok []
match_from before (part ∷ parts) stored =
    let rest = match_from (some part.part_number) parts stored in
    guard (in_order before part.part_number) invalid_part_order
    >> (check_part (is_empty parts) part (stored_part stored part.part_number) >>= λ found.
        rest >>= λ ordered. ok (found ∷ ordered))

unfoldable pub match_requested_parts :
    List CompletePart → List MultipartPartRow → Result ObjectsError (List MultipartPartRow)
match_requested_parts requested stored = match_from none requested stored
