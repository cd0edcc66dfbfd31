-- ===== src/Tests/Escapes.antt =====
-- Toy encodings of URL components, which read the escapes of the marks.
use simple_storage_service.Prelude.{
  ℕ, ◌+◌, ◌-◌, ◌≡◌, refl, ap, sym, ◌∙◌, Bool, true, false, ◌&&◌, Option, some, [], ◌∷◌, ◌++◌, map,
  arith, inl, inr,
}
use simple_storage_service.Prelude.Tests.{ltb, leb, ◌==◌, if◌then◌else◌, Bool-cases}
use simple_storage_service.Prelude.Text.{Text, Lacks}
use simple_storage_service.Signature.Encoding.{is_separator, is_unreserved, IsUnreserved}
use simple_storage_service.Signature.Escapes.{ReadsMarks}

abbrev pub up_unit : ℕ → ℕ
up_unit c = if is_unreserved c then c else c + 1000

abbrev down_unit : ℕ → ℕ
down_unit c = if leb 1000 c then c - 1000 else c

-- The mark that two digits behind a `%` stand for, and 0 for others.
unfoldable pub mark_of : ℕ → ℕ → ℕ
mark_of high low =
    if high == b'2'
    then if low == b'1'
      then b'!'
      else if low == b'7'
      then b'\''
      else if low == b'8'
      then b'('
      else if low == b'9'
      then b')'
      else if low == b'A'
      then b'*'
      else 0
    else 0

unfoldable pub is_escape : ℕ → ℕ → ℕ → Bool
unfolding mark_of
is_escape first high low = (first == b'%') && ltb 0 (mark_of high low)

-- The text with its escapes read.
unfoldable pub unmark : Text → Text
unfolding is_escape mark_of
unmark [] = []
unmark (a ∷ []) = a ∷ []
unmark (a ∷ b ∷ []) = a ∷ b ∷ []
unmark (a ∷ b ∷ c ∷ rest) =
    let behind_escape = unmark rest in
    let behind_unit = unmark (b ∷ c ∷ rest) in
    if is_escape a b c then mark_of b c ∷ behind_escape else a ∷ behind_unit

unmark-step :
    (a b c : ℕ) (cs : Text)
    → is_escape a b c ≡ false
    → unmark (a ∷ b ∷ c ∷ cs) ≡ a ∷ unmark (b ∷ c ∷ cs)
unfolding unmark
unmark-step a b c cs plain = rw plain refl

unmark-found :
    (a b c : ℕ) (cs : Text)
    → is_escape a b c ≡ true
    → unmark (a ∷ b ∷ c ∷ cs) ≡ mark_of b c ∷ unmark cs
unfolding unmark
unmark-found a b c cs found = rw found refl

no_percent-first : (a b c : ℕ) → (a == b'%') ≡ false → is_escape a b c ≡ false
unfolding is_escape
no_percent-first a b c other = rw other refl

no_two-second : (a b c : ℕ) → (b == b'2') ≡ false → is_escape a b c ≡ false
unfolding is_escape mark_of
no_two-second a b c other = grind arith

-- What is used of an escape and its mark.
record IsEscape (mark low : ℕ) : Type 0 where
  found : is_escape b'%' b'2' low ≡ true
  read : mark_of b'2' low ≡ mark
  no_percent : (mark == b'%') ≡ false
  no_two : (mark == b'2') ≡ false
  no_digit : (a b : ℕ) → is_escape a b mark ≡ false

percent-third : (a b : ℕ) → is_escape a b b'%' ≡ false
unfolding is_escape mark_of
percent-third a b = grind arith

unmark-unit : (c : ℕ) (cs : Text) → (c == b'%') ≡ false → unmark (c ∷ cs) ≡ c ∷ unmark cs
unfolding unmark
unmark-unit c [] plain = refl
unmark-unit c (a ∷ []) plain = refl
unmark-unit c (a ∷ b ∷ rest) plain = unmark-step c a b rest (no_percent-first c a b plain)

unmark-front :
    (a c : ℕ) (cs : Text) → (c == b'2') ≡ false → unmark (a ∷ c ∷ cs) ≡ a ∷ unmark (c ∷ cs)
unfolding unmark
unmark-front a c [] other = refl
unmark-front a c (d ∷ rest) other = unmark-step a c d rest (no_two-second a c d other)

unmark-escape :
    (mark low : ℕ) (left right : Text)
    → IsEscape mark low
    → unmark (left ++ b'%' ∷ b'2' ∷ low ∷ right) ≡ unmark (left ++ mark ∷ right)
unmark-escape mark low [] right laws =
    unmark-found b'%' b'2' low right laws.found
    ∙ ap (λ (c : ℕ). c ∷ unmark right) laws.read
    ∙ sym (unmark-unit mark right laws.no_percent)
unmark-escape mark low (a ∷ []) right laws =
    unmark-front a b'%' (b'2' ∷ low ∷ right) refl
    ∙ ap (λ (t : Text). a ∷ t) (unmark-escape mark low [] right laws)
    ∙ sym (unmark-front a mark right laws.no_two)
unmark-escape mark low (a ∷ b ∷ []) right laws =
    unmark-step a b b'%' (b'2' ∷ low ∷ right) (percent-third a b)
    ∙ ap (λ (t : Text). a ∷ t) (unmark-escape mark low (b ∷ []) right laws)
    ∙ sym (unmark-step a b mark right (laws.no_digit a b))
unmark-escape mark low (a ∷ b ∷ c ∷ left) right laws = elim (Bool-cases (is_escape a b c)) [
  | inl found ↦
      unmark-found a b c _ found
      ∙ ap (λ (t : Text). mark_of b c ∷ t) (unmark-escape mark low left right laws)
      ∙ sym (unmark-found a b c _ found)
  | inr plain ↦
      unmark-step a b c _ plain
      ∙ ap (λ (t : Text). a ∷ t) (unmark-escape mark low (b ∷ c ∷ left) right laws)
      ∙ sym (unmark-step a b c _ plain)
]

escape :
    (mark low : ℕ)
    → is_escape b'%' b'2' low ≡ true
    → mark_of b'2' low ≡ mark
    → (mark == b'%') ≡ false
    → (mark == b'2') ≡ false
    → ((a b : ℕ) → is_escape a b mark ≡ false)
    → IsEscape mark low
escape mark low found read no_percent no_two no_digit = record {
  found = found;
  read = read;
  no_percent = no_percent;
  no_two = no_two;
  no_digit = no_digit;
}

exclamation : IsEscape b'!' b'1'
unfolding is_escape mark_of
exclamation = escape b'!' b'1' refl refl refl refl (λ a b. grind arith)

apostrophe : IsEscape b'\'' b'7'
unfolding is_escape mark_of
apostrophe = escape b'\'' b'7' refl refl refl refl (λ a b. grind arith)

opening : IsEscape b'(' b'8'
unfolding is_escape mark_of
opening = escape b'(' b'8' refl refl refl refl (λ a b. grind arith)

closing : IsEscape b')' b'9'
unfolding is_escape mark_of
closing = escape b')' b'9' refl refl refl refl (λ a b. grind arith)

star : IsEscape b'*' b'A'
unfolding is_escape mark_of
star = escape b'*' b'A' refl refl refl refl (λ a b. grind arith)

abbrev pub read_form : Text → Text
read_form text = map down_unit (unmark text)

abbrev pub read_component : Text → Option Text
read_component text = some (read_form text)

pub read_form-ReadsMarks : ReadsMarks read_form
read_form-ReadsMarks left right = (
  ap (map down_unit) (unmark-escape b'!' b'1' left right exclamation),
  (
    ap (map down_unit) (unmark-escape b'\'' b'7' left right apostrophe),
    (
      ap (map down_unit) (unmark-escape b'(' b'8' left right opening),
      (
        ap (map down_unit) (unmark-escape b')' b'9' left right closing),
        (ap (map down_unit) (unmark-escape b'*' b'A' left right star), tt),
      ),
    ),
  ),
)

pub read_component-ReadsMarks : ReadsMarks read_component
read_component-ReadsMarks left right =
    let (exclaimed, (quoted, (opened, (closed, (starred, _))))) = read_form-ReadsMarks left right in
    (ap some exclaimed, (ap some quoted, (ap some opened, (ap some closed, (ap some starred, tt)))))

unmark-up : (text : Text) → unmark (map up_unit text) ≡ map up_unit text
unfolding unmark
unmark-up [] = refl
unmark-up (c ∷ cs) =
    let plain : (up_unit c == b'%') ≡ false = grind arith in
    unmark-unit (up_unit c) (map up_unit cs) plain ∙ ap (λ (t : Text). up_unit c ∷ t) (unmark-up cs)

down-up : (text : Text) → map down_unit (map up_unit text) ≡ text
down-up [] = refl
down-up (c ∷ cs) =
    let here : down_unit (up_unit c) ≡ c = grind arith in
    rw here (ap (λ (t : Text). c ∷ t) (down-up cs))

pub read_form-up : (text : Text) → read_form (map up_unit text) ≡ text
read_form-up text = ap (map down_unit) (unmark-up text) ∙ down-up text

pub up-IsUnreserved : (text : Text) → IsUnreserved text → map up_unit text ≡ text
up-IsUnreserved [] h = refl
up-IsUnreserved (c ∷ cs) (here, rest) = rw here (ap (λ (t : Text). c ∷ t) (up-IsUnreserved cs rest))

pub up-Lacks : (sep : ℕ) (text : Text) → is_separator sep ≡ true → Lacks sep (map up_unit text)
up-Lacks sep [] h = tt
up-Lacks sep (c ∷ cs) h = (grind arith, up-Lacks sep cs h)
