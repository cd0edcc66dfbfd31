-- ===== src/Signature/Links/Search.antt =====
-- What `get` of the query's parameters gives on the escaped pairs of a link, and the parts of a date.
use simple_storage_service.Prelude.{
  ◌≡◌, refl, sym, ap, ◌∙◌, true, false, some, List, [], ◌∷◌, ◌++◌, map, arith, inl, inr,
}
use simple_storage_service.Prelude.Tests.{Bool-cases}
use simple_storage_service.Prelude.Lists.{All, Exists, all, take}
use simple_storage_service.Prelude.Text.{Text, text_eq, text_eq_iff, is_digit, Lacks}
use simple_storage_service.Signature.{Platform, is_blank, show_pair}
use simple_storage_service.Signature.Encoding.{IsUri, search_pair-show}
use simple_storage_service.Signature.Parse.{search_get, search_pair}
use simple_storage_service.Signature.Verify.{is_amz_date}
use simple_storage_service.Signature.Presign.{encode_pair}

all_digits-Lacks : (text : Text) → all is_digit text ≡ true → Lacks b'/' text
all_digits-Lacks [] h = tt
all_digits-Lacks (c ∷ cs) h = (ground arith, all_digits-Lacks cs (ground arith))

pub is_amz_date-parts :
    (text : Text)
    → is_amz_date text ≡ true
    → Lacks b'/' (take 8 text) × (is_blank (take 8 text) ≡ false) × (is_blank text ≡ false)
unfolding is_amz_date
is_amz_date-parts [] h = absurd (ground arith)
is_amz_date-parts (c ∷ cs) h = (all_digits-Lacks (take 8 (c ∷ cs)) (ground arith), refl, refl)

pub Exists-map :
    (platform : Platform) (own kept : Text) (pairs : List (Text × Text))
    → Exists (λ pair. pair ≡ (own, kept)) pairs
    → Exists (λ pair. pair ≡ encode_pair platform (own, kept)) (map (encode_pair platform) pairs)
Exists-map platform own kept [] there = absurd there
Exists-map platform own kept (pair ∷ pairs) (inl e) = inl (ap (encode_pair platform) e)
Exists-map platform own kept (pair ∷ pairs) (inr there) =
    inr (Exists-map platform own kept pairs there)

pub Exists-front :
    (P : Text × Text → Type 0) (pairs more : List (Text × Text))
    → Exists P pairs
    → Exists P (pairs ++ more)
Exists-front P [] more there = absurd there
Exists-front P (pair ∷ pairs) more (inl here) = inl here
Exists-front P (pair ∷ pairs) more (inr there) = inr (Exists-front P pairs more there)

pub Exists-behind :
    (P : Text × Text → Type 0) (pairs : List (Text × Text)) (last : Text × Text)
    → P last
    → Exists P (pairs ++ last ∷ [])
Exists-behind P [] last here = inl here
Exists-behind P (pair ∷ pairs) last here = inr (Exists-behind P pairs last here)

module _ (platform : Platform) (laws : IsUri platform) where
  -- An escaped pair that holds the value, if it has the name.
  abbrev pub Agrees : Text → Text → Text × Text → Type 0
  Agrees own kept pair =
      (name : Text) × (value : Text) × (pair ≡ encode_pair platform (name, value))
      × (text_eq name own ≡ true → value ≡ kept)

  pub encode-Agrees :
      (own kept : Text) (pairs : List (Text × Text))
      → All (λ pair. text_eq pair.0 own ≡ true → pair.1 ≡ kept) pairs
      → All (Agrees own kept) (map (encode_pair platform) pairs)
  encode-Agrees own kept [] all = tt
  encode-Agrees own kept ((name, value) ∷ pairs) (first, rest) =
      ((name, value, refl, first), encode-Agrees own kept pairs rest)

  -- Where every pair of the name has the value and one is there, that is what is read.
  pub search_get-Agrees :
      (own kept : Text) (pairs : List (Text × Text))
      → All (Agrees own kept) pairs
      → Exists (λ pair. pair ≡ encode_pair platform (own, kept)) pairs
      → search_get own (map (search_pair platform) (map show_pair pairs)) ≡ some kept
  unfolding search_get
  search_get-Agrees own kept [] all there = absurd there
  search_get-Agrees own kept (pair ∷ pairs) ((name, value, e, agrees), rest) there =
      let read : search_pair platform (show_pair pair) ≡ (name, value) =
        rw e (search_pair-show platform laws name value) in
      elim (Bool-cases (text_eq name own)) [
        | inl same ↦ rw read (rw same (ap some (agrees same)))
        | inr other ↦ elim there [
          | inl here ↦
              let read_own : search_pair platform (show_pair pair) ≡ (own, kept) =
                rw here (search_pair-show platform laws own kept) in
              let names : name ≡ own = ap (λ (q : Text × Text). q.0) (sym read ∙ read_own) in
              absurd (let same = (text_eq_iff name own).1 names in cc)
          | inr further ↦ rw read (rw other (search_get-Agrees own kept pairs rest further))
        ]
      ]
