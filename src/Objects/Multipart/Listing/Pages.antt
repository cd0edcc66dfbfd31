-- ===== src/Objects/Multipart/Listing/Pages.antt =====
-- A client that follows the markers of `listParts`.
use simple_storage_service.Prelude.{ℕ, zero, suc, ◌<◌, ◌≤◌, Option, none, some, List, [], ◌∷◌, ◌++◌}
use simple_storage_service.Prelude.Lists.{All}
use simple_storage_service.Prelude.Text.{Text}
use simple_storage_service.Prelude.Result.{Result, ok, ◌>>=◌}
use simple_storage_service.Database.{MultipartPartRow}
use simple_storage_service.Usage.{Tables}
use simple_storage_service.Objects.{ObjectsError}
use simple_storage_service.Objects.Multipart.Listing.{PartItem, list_parts}

-- The numbers go up, from 1 on.
abbrev pub IsNumbered : List MultipartPartRow → Type 0
IsNumbered [] = Unit {0}
IsNumbered (part ∷ parts) =
    (1 ≤ part.part_number)
    × All (λ other. part.part_number < other.part_number) parts
    × IsNumbered parts

-- A client that asks for the next page while there is a marker, at most so many times.
unfoldable pub follow :
    Tables → ℕ → Text → Option ℕ → ℕ → Option ℕ → Result ObjectsError (List PartItem)
follow t bucket_guid upload_id max_parts zero marker = ok []
follow t bucket_guid upload_id max_parts (suc n) marker =
    list_parts t bucket_guid upload_id max_parts marker >>= λ answer.
    elim answer.next_part_number_marker [
      | none ↦ ok answer.parts
      | some next ↦ follow t bucket_guid upload_id max_parts n (some next) >>= λ rest.
          ok (answer.parts ++ rest)
    ]
