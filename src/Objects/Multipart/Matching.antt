-- ===== src/Objects/Multipart/Matching.antt =====
-- When the parts that a client lists are accepted.
use simple_storage_service.Prelude.{
  ℕ, ◌<◌, ◌≤◌, ◌≡◌, refl, ap, sym, ◌↔◌, Bool, true, false, not, Option, none, some, List, [], ◌∷◌,
  arith, map,
}
use simple_storage_service.Prelude.Tests.{ltb, if◌then◌else◌}
use simple_storage_service.Prelude.Text.{text_eq, text_eq_iff}
use simple_storage_service.Prelude.Result.{
  ok, ◌>>◌, guard, >>-succeeds, >>_iff, >>=-succeeds, ok-injective,
}
use simple_storage_service.Database.{MultipartPartRow}
use simple_storage_service.Objects.{invalid_part, invalid_part_order, part_too_small}
use simple_storage_service.Objects.Multipart.{
  CompletePart, min_part_size, stored_part, strip_quotes, check_part, in_order, is_empty,
  match_from, match_requested_parts,
}

-- Part numbers that go up.
abbrev pub Ascending : List ℕ → Type 0
Ascending [] = Unit
Ascending (n ∷ []) = Unit
Ascending (n ∷ m ∷ ns) = (n < m) × Ascending (m ∷ ns)

module _ (stored : List MultipartPartRow) where
  -- A listed part and the stored one: same number, same ETag but for quotes.
  abbrev pub Pairs : CompletePart → MultipartPartRow → Type 0
  Pairs part row =
      (stored_part stored part.part_number ≡ some row) × (row.etag ≡ strip_quotes part.etag)

  -- One stored part for each listed one, in the same order; all but the last of five MiB or more.
  abbrev pub Matches : List CompletePart → List MultipartPartRow → Type 0
  Matches [] [] = Unit
  Matches [] (row ∷ rows) = ⊥
  Matches (part ∷ parts) [] = ⊥
  Matches (part ∷ []) (row ∷ rows) = Pairs part row × (rows ≡ [])
  Matches (part ∷ next ∷ parts) (row ∷ rows) =
      Pairs part row × (min_part_size ≤ row.size) × Matches (next ∷ parts) rows

  abbrev numbers : List CompletePart → List ℕ
  numbers parts = map (λ (p : CompletePart). p.part_number) parts

  abbrev Above : Option ℕ → List CompletePart → Type 0
  Above none parts = Ascending (numbers parts)
  Above (some n) parts = Ascending (n ∷ numbers parts)

  check_part_sound :
      (is_last : Bool) (part : CompletePart) (o : Option MultipartPartRow) (row : MultipartPartRow)
      → check_part is_last part o ≡ ok row
      → (o ≡ some row)
        × (row.etag ≡ strip_quotes part.etag)
        × ((is_last ≡ false) → min_part_size ≤ row.size)
  unfolding check_part
  check_part_sound is_last part none row h = cc
  check_part_sound is_last part (some found) row h =
      let tested = guard (text_eq found.etag (strip_quotes part.etag)) invalid_part in
      let measured =
        guard (if is_last then true else not (ltb found.size min_part_size)) part_too_small in
      let (checks, done) = >>-succeeds (tested >> measured) (ok found) h in
      let (same_tag, large) = (>>_iff tested measured).0 checks in
      let same : found ≡ row = ok-injective done in
      let tag : found.etag ≡ strip_quotes part.etag =
        (let e = text_eq_iff found.etag (strip_quotes part.etag) in ground arith) in
      let size : (is_last ≡ false) → min_part_size ≤ found.size = (λ e. ground arith) in
      (ap some same, rw (← same) tag, rw (← same) size)

  check_part_complete :
      (is_last : Bool) (part : CompletePart) (row : MultipartPartRow)
      → row.etag ≡ strip_quotes part.etag
      → ((is_last ≡ false) → min_part_size ≤ row.size)
      → check_part is_last part (some row) ≡ ok row
  unfolding check_part
  check_part_complete false part row tag large =
      let size : min_part_size ≤ row.size = large refl in
      let same = text_eq_iff row.etag (strip_quotes part.etag) in ground arith
  check_part_complete true part row tag large =
      let same = text_eq_iff row.etag (strip_quotes part.etag) in ground arith

  -- One round of the loop.
  match_from_step :
      (before : Option ℕ) (part : CompletePart) (parts : List CompletePart)
      (ordered : List MultipartPartRow)
      → match_from before (part ∷ parts) stored ≡ ok ordered
      → (row : MultipartPartRow) × (rows : List MultipartPartRow) × (ordered ≡ row ∷ rows)
        × (in_order before part.part_number ≡ true)
        × (check_part (is_empty parts) part (stored_part stored part.part_number) ≡ ok row)
        × (match_from (some part.part_number) parts stored ≡ ok rows)
  unfolding match_from
  match_from_step before part parts ordered h =
      let (placed, later) =
        >>-succeeds (guard (in_order before part.part_number) invalid_part_order) _ h in
      let (row, checked, joined) =
        >>=-succeeds (check_part (is_empty parts) part (stored_part stored part.part_number)) _
          later in
      let (rows, rest, done) =
        >>=-succeeds (match_from (some part.part_number) parts stored) _ joined in
      (row, rows, sym (ok-injective done), ground arith, checked, rest)

  match_from_join :
      (before : Option ℕ) (part : CompletePart) (parts : List CompletePart) (row : MultipartPartRow)
      (rows : List MultipartPartRow)
      → in_order before part.part_number ≡ true
      → check_part (is_empty parts) part (stored_part stored part.part_number) ≡ ok row
      → match_from (some part.part_number) parts stored ≡ ok rows
      → match_from before (part ∷ parts) stored ≡ ok (row ∷ rows)
  unfolding match_from
  match_from_join before part parts row rows placed checked rest = rw (placed, checked, rest) refl

  Above-split :
      (before : Option ℕ) (part : CompletePart) (parts : List CompletePart)
      → Above before (part ∷ parts)
        ↔ ((in_order before part.part_number ≡ true) × Above (some part.part_number) parts)
  unfolding in_order
  Above-split none part parts = (λ h. (refl, h), λ h. h.1)
  Above-split (some b) part parts =
      (λ h. (let low = h.0 in ground arith, h.1), λ h. (let low = h.0 in ground arith, h.1))

  Above-nothing : (before : Option ℕ) → Above before []
  Above-nothing none = tt
  Above-nothing (some n) = tt

  match_from-nothing :
      (before : Option ℕ) (rows : List MultipartPartRow)
      → match_from before [] stored ≡ ok rows
      → rows ≡ []
  unfolding match_from
  match_from-nothing before rows h = sym (ok-injective h)

  match_from_sound :
      (before : Option ℕ) (requested : List CompletePart) (ordered : List MultipartPartRow)
      → match_from before requested stored ≡ ok ordered
      → Above before requested × Matches requested ordered
  match_from_sound before [] ordered h =
      (Above-nothing before, rw (match_from-nothing before ordered h) tt)
  match_from_sound before (part ∷ []) ordered h =
      let (row, rows, e, placed, checked, rest) = match_from_step before part [] ordered h in
      let (there, tag, large) = check_part_sound true part _ row checked in
      (
        (Above-split before part []).1 (placed, Above-nothing (some part.part_number)),
        rw e ((there, tag), match_from-nothing _ rows rest),
      )
  match_from_sound before (part ∷ next ∷ parts) ordered h =
      let (row, rows, e, placed, checked, rest) =
        match_from_step before part (next ∷ parts) ordered h in
      let (there, tag, large) = check_part_sound false part _ row checked in
      let (higher, matched) = match_from_sound (some part.part_number) (next ∷ parts) rows rest in
      (
        (Above-split before part (next ∷ parts)).1 (placed, higher),
        rw e ((there, tag), large refl, matched),
      )

  match_from_complete :
      (before : Option ℕ) (requested : List CompletePart) (ordered : List MultipartPartRow)
      → Above before requested
      → Matches requested ordered
      → match_from before requested stored ≡ ok ordered
  match_from_complete before [] [] a m = unfold match_from in refl
  match_from_complete before [] (row ∷ rows) a m = absurd m
  match_from_complete before (part ∷ []) [] a m = absurd m
  match_from_complete before (part ∷ next ∷ parts) [] a m = absurd m
  match_from_complete before (part ∷ []) (row ∷ rows) a ((there, tag), none_left) =
      let (placed, higher) = (Above-split before part []).0 a in
      match_from_join before part [] row rows placed
        (rw there (check_part_complete true part row tag (λ e. cc)))
        (rw none_left (unfold match_from in refl))
  match_from_complete before (part ∷ next ∷ parts) (row ∷ rows) a ((there, tag), large, matched) =
      let (placed, higher) = (Above-split before part (next ∷ parts)).0 a in
      match_from_join before part (next ∷ parts) row rows placed
        (rw there (check_part_complete false part row tag (λ e. large)))
        (match_from_complete (some part.part_number) (next ∷ parts) rows higher matched)

  -- The parts that a client lists are accepted, and paired with the given stored parts, exactly
  -- when their numbers go up and each listed part has its stored part, with the same ETag but for
  -- quotes, and with 5 MiB or more unless it is the last.
  pub match_requested_parts_iff :
      (requested : List CompletePart) (ordered : List MultipartPartRow)
      → (match_requested_parts requested stored ≡ ok ordered)
        ↔ (Ascending (numbers requested) × Matches requested ordered)
  unfolding match_requested_parts
  match_requested_parts_iff requested ordered = (
    match_from_sound none requested ordered,
    λ (a, m). match_from_complete none requested ordered a m,
  )
