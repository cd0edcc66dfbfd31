-- ===== src/Signature/Links/Entries.antt =====
-- The entries that the parameters of a caller leave in a link of `presign`.
use simple_storage_service.Prelude.{
  ◌≡◌, ap, true, false, Option, none, some, List, [], ◌∷◌, inl, inr,
}
use simple_storage_service.Prelude.Tests.{Bool-cases}
use simple_storage_service.Prelude.Lists.{All, Exists}
use simple_storage_service.Prelude.Text.{Text, str, text_eq, text_eq_iff, starts_with}
use simple_storage_service.Signature.Presign.{set_entry, set_entries}

-- A name that is none of Signature Version 4.
abbrev pub IsForeign : Text → Type 0
IsForeign name = starts_with name (str "X-Amz-") ≡ false

abbrev pub AllForeign : List (Text × Option Text) → Type 0
AllForeign query = All (λ (entry : Text × Option Text). IsForeign entry.0) query

-- A foreign name is not one that begins like those.
pub foreign-differs :
    (name own : Text)
    → IsForeign name
    → starts_with own (str "X-Amz-") ≡ true
    → text_eq name own ≡ false
foreign-differs name own foreign begins = elim (Bool-cases (text_eq name own)) [
  | inl same ↦
      let e : name ≡ own = (text_eq_iff name own).0 same in
      absurd (let f : starts_with own (str "X-Amz-") ≡ false = rw (← e) foreign in cc)
  | inr differs ↦ differs
]

set_entry-All :
    (P : Text × Text → Type 0) (name value : Text) (entries : List (Text × Text))
    → P (name, value)
    → All P entries
    → All P (set_entry name value entries)
unfolding set_entry
set_entry-All P name value [] here rest = (here, tt)
set_entry-All P name value ((name', value') ∷ entries) here (first, rest) =
    elim (Bool-cases (text_eq name name')) [
      | inl same ↦ rw same (here, rest)
      | inr other ↦ rw other (first, set_entry-All P name value entries here rest)
    ]

pub set_entries-All :
    (P : Text × Text → Type 0) (query : List (Text × Option Text)) (entries : List (Text × Text))
    → ((name value : Text) → IsForeign name → P (name, value))
    → AllForeign query
    → All P entries
    → All P (set_entries query entries)
unfolding set_entries
set_entries-All P [] entries holds foreign all = all
set_entries-All P ((name, none) ∷ query) entries holds (first, rest) all =
    set_entries-All P query entries holds rest all
set_entries-All P ((name, some value) ∷ query) entries holds (first, rest) all =
    set_entries-All P query (set_entry name value entries) holds rest
      (set_entry-All P name value entries (holds name value first) all)

-- An entry of another name stays.
set_entry-Exists :
    (own kept name value : Text) (entries : List (Text × Text))
    → text_eq name own ≡ false
    → Exists (λ pair. pair ≡ (own, kept)) entries
    → Exists (λ pair. pair ≡ (own, kept)) (set_entry name value entries)
unfolding set_entry
set_entry-Exists own kept name value [] differs there = absurd there
set_entry-Exists own kept name value ((name', value') ∷ entries) differs (inl e) =
    let same : name' ≡ own = ap (λ (pair : Text × Text). pair.0) e in
    let other : text_eq name name' ≡ false = rw same differs in rw other (inl e)
set_entry-Exists own kept name value ((name', value') ∷ entries) differs (inr there) =
    elim (Bool-cases (text_eq name name')) [
      | inl same ↦ rw same (inr there)
      | inr other ↦ rw other (inr (set_entry-Exists own kept name value entries differs there))
    ]

pub set_entries-Exists :
    (own kept : Text) (query : List (Text × Option Text)) (entries : List (Text × Text))
    → starts_with own (str "X-Amz-") ≡ true
    → AllForeign query
    → Exists (λ pair. pair ≡ (own, kept)) entries
    → Exists (λ pair. pair ≡ (own, kept)) (set_entries query entries)
unfolding set_entries
set_entries-Exists own kept [] entries begins foreign there = there
set_entries-Exists own kept ((name, none) ∷ query) entries begins (first, rest) there =
    set_entries-Exists own kept query entries begins rest there
set_entries-Exists own kept ((name, some value) ∷ query) entries begins (first, rest) there =
    set_entries-Exists own kept query (set_entry name value entries) begins rest
      (set_entry-Exists own kept name value entries (foreign-differs name own first begins) there)
