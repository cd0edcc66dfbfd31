-- ===== src/Signature/Encoding.antt =====
-- Escaped texts, and escaping them again.
use simple_storage_service.Prelude.{
  ℕ, ◌≡◌, refl, ap, ◌∙◌, Bool, true, false, ◌&&◌, ◌||◌, some, List, [], ◌∷◌, map, arith, inl, inr,
}
use simple_storage_service.Prelude.Tests.{leb, ◌==◌, Bool-cases}
use simple_storage_service.Prelude.Lists.{All}
use simple_storage_service.Prelude.Text.{
  Text, is_digit, to_decimal, split, join, Lacks, Lacks-append, split-piece, split-last,
}
use simple_storage_service.Prelude.Result.{ok}
use simple_storage_service.Signature.{
  Platform, is_mark, percent, escape_marks, is_blank, show_pair, uri_encode, recode, recode_all,
  recode_pair, recode_pairs,
}
use simple_storage_service.Signature.Escapes.{ReadsMarks, reads-escape_marks}
use simple_storage_service.Signature.Parse.{search_pair}
use simple_storage_service.Signature.Presign.{encode_pair}

-- The units between the parts of a URL.
abbrev pub is_separator : ℕ → Bool
is_separator c = (c == b'/') || (c == b'?') || (c == b'&') || (c == b'=')

abbrev pub is_unreserved : ℕ → Bool
is_unreserved c =
    is_digit c
    || (leb b'A' c && leb c b'Z')
    || (leb b'a' c && leb c b'z')
    || (c == b'-')
    || (c == b'_')
    || (c == b'.')
    || (c == b'~')

abbrev pub IsUnreserved : Text → Type 0
IsUnreserved text = All (λ c. is_unreserved c ≡ true) text

-- What is documented of JavaScript: `encodeURIComponent` leaves letters, digits and `-_.~`, and
-- escapes the separators; `decodeURIComponent` and `URLSearchParams` give its text back and read the
-- escape of each mark as the mark; `Number` reads the digits of a number.
pub record IsUri (platform : Platform) : Type 0 where
  pub decode-encode :
      (text : Text) → platform.decode_component (platform.encode_component text) ≡ some text
  pub decode-ReadsMarks : ReadsMarks platform.decode_component
  pub form-encode : (text : Text) → platform.form_decode (platform.encode_component text) ≡ text
  pub form-ReadsMarks : ReadsMarks platform.form_decode
  pub encode-unreserved : (text : Text) → IsUnreserved text → platform.encode_component text ≡ text
  pub encode-separators :
      (sep : ℕ) (text : Text) → is_separator sep ≡ true → Lacks sep (platform.encode_component text)
  pub number-to_decimal : (n : ℕ) → platform.number (to_decimal n) ≡ some n

percent-Lacks : (sep c : ℕ) → is_separator sep ≡ true → is_mark c ≡ true → Lacks sep (percent c)
unfolding percent
percent-Lacks sep c separator mark = grind arith

escape_marks-Lacks :
    (sep : ℕ) (text : Text)
    → is_separator sep ≡ true
    → Lacks sep text
    → Lacks sep (escape_marks text)
unfolding escape_marks
escape_marks-Lacks sep [] separator h = tt
escape_marks-Lacks sep (c ∷ cs) separator (other, others) =
    let rest = escape_marks-Lacks sep cs separator others in
    elim (Bool-cases (is_mark c)) [
      | inl mark ↦
          rw mark (Lacks-append sep (percent c) _ (percent-Lacks sep c separator mark) rest)
      | inr plain ↦ rw plain (other, rest)
    ]

escape_marks-IsUnreserved : (text : Text) → IsUnreserved text → escape_marks text ≡ text
unfolding escape_marks
escape_marks-IsUnreserved [] h = refl
escape_marks-IsUnreserved (c ∷ cs) (here, rest) =
    let plain : is_mark c ≡ false = grind arith in
    rw plain (ap (λ (t : Text). c ∷ t) (escape_marks-IsUnreserved cs rest))

pub is_blank-show_pair : (pair : Text × Text) → is_blank (show_pair pair) ≡ false
is_blank-show_pair ([], value) = refl
is_blank-show_pair (c ∷ cs, value) = refl

module _ (platform : Platform) (laws : IsUri platform) where
  pub uri_encode-Lacks :
      (sep : ℕ) (text : Text) → is_separator sep ≡ true → Lacks sep (uri_encode platform text)
  unfolding uri_encode
  uri_encode-Lacks sep text separator =
      escape_marks-Lacks sep _ separator (laws.encode-separators sep text separator)

  pub uri_encode-IsUnreserved : (text : Text) → IsUnreserved text → uri_encode platform text ≡ text
  unfolding uri_encode
  uri_encode-IsUnreserved text h =
      ap escape_marks (laws.encode-unreserved text h) ∙ escape_marks-IsUnreserved text h

  pub decode-uri_encode :
      (text : Text) → platform.decode_component (uri_encode platform text) ≡ some text
  unfolding uri_encode
  decode-uri_encode text =
      reads-escape_marks platform.decode_component laws.decode-ReadsMarks []
        (platform.encode_component text)
      ∙ laws.decode-encode text

  pub form-uri_encode : (text : Text) → platform.form_decode (uri_encode platform text) ≡ text
  unfolding uri_encode
  form-uri_encode text =
      reads-escape_marks platform.form_decode laws.form-ReadsMarks []
        (platform.encode_component text)
      ∙ laws.form-encode text

  recode-uri_encode :
      (text : Text) → recode platform (uri_encode platform text) ≡ ok (uri_encode platform text)
  unfolding recode
  recode-uri_encode text = rw (decode-uri_encode text, recode) refl

  pub recode_all-uri_encode :
      (texts : List Text)
      → recode_all platform (map (uri_encode platform) texts) ≡ ok (map (uri_encode platform) texts)
  unfolding recode_all
  recode_all-uri_encode [] = refl
  recode_all-uri_encode (text ∷ texts) =
      rw (recode-uri_encode text, recode_all-uri_encode texts) refl

  pub pairs_of-IsEncoded-Lacks :
      (sep : ℕ) (texts : List Text)
      → is_separator sep ≡ true
      → All (Lacks sep) (map (uri_encode platform) texts)
  pairs_of-IsEncoded-Lacks sep [] separator = tt
  pairs_of-IsEncoded-Lacks sep (text ∷ texts) separator =
      (uri_encode-Lacks sep text separator, pairs_of-IsEncoded-Lacks sep texts separator)

  -- A pair whose name and value are escaped.
  abbrev pub IsEncoded : Text × Text → Type 0
  IsEncoded pair = (name : Text) × (value : Text) × (pair ≡ encode_pair platform (name, value))

  show_pair-Lacks :
      (sep : ℕ) (pair : Text × Text)
      → is_separator sep ≡ true
      → (b'=' == sep) ≡ false
      → IsEncoded pair
      → Lacks sep (show_pair pair)
  show_pair-Lacks sep pair separator other (name, value, e) = rw e (
      Lacks-append sep (uri_encode platform name) _ (uri_encode-Lacks sep name separator)
        (other, uri_encode-Lacks sep value separator))

  pub show_pairs-Lacks :
      (sep : ℕ) (pairs : List (Text × Text))
      → is_separator sep ≡ true
      → (b'=' == sep) ≡ false
      → All IsEncoded pairs
      → All (Lacks sep) (map show_pair pairs)
  show_pairs-Lacks sep [] separator other all = tt
  show_pairs-Lacks sep (pair ∷ pairs) separator other (first, rest) = (
    show_pair-Lacks sep pair separator other first,
    show_pairs-Lacks sep pairs separator other rest,
  )

  split-show_pair :
      (name value : Text)
      → split b'=' (show_pair (encode_pair platform (name, value)))
        ≡ uri_encode platform name ∷ uri_encode platform value ∷ []
  split-show_pair name value =
      split-piece b'=' (uri_encode platform name) (uri_encode platform value)
        (uri_encode-Lacks b'=' name refl)
      ∙ ap (λ (t : List Text). uri_encode platform name ∷ t)
          (split-last b'=' (uri_encode platform value) (uri_encode-Lacks b'=' value refl))

  recode_pair-show :
      (name value : Text)
      → recode_pair platform (show_pair (encode_pair platform (name, value)))
        ≡ ok (encode_pair platform (name, value))
  unfolding recode_pair join
  recode_pair-show name value =
      rw (split-show_pair name value, recode_pair)
        (rw (recode-uri_encode name, recode-uri_encode value) refl)

  -- `URLSearchParams` reads a pair as it was before it was escaped.
  pub search_pair-show :
      (name value : Text)
      → search_pair platform (show_pair (encode_pair platform (name, value))) ≡ (name, value)
  unfolding search_pair join
  search_pair-show name value =
      rw (split-show_pair name value, search_pair)
        (rw (form-uri_encode name, form-uri_encode value) refl)

  pub recode_pairs-show :
      (pairs : List (Text × Text))
      → All IsEncoded pairs
      → recode_pairs platform (map show_pair pairs) ≡ ok pairs
  unfolding recode_pairs
  recode_pairs-show [] all = refl
  recode_pairs-show (pair ∷ pairs) ((name, value, e), rest) =
      rw (e, recode_pair-show name value, recode_pairs-show pairs rest) refl
