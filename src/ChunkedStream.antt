-- ===== src/ChunkedStream.antt =====
-- libs/domains/src/s3/s3.chunked.stream.ts: the decoder of an `aws-chunked` request body, with
-- `computeChunkSignature` of libs/domains/src/s3/s3.signature.service.ts.
pub mod Fuel
pub mod Frames
pub mod Extension
pub mod Splits
use simple_storage_service.Prelude.{
  ℕ, zero, suc, ◌+◌, ◌*◌, ◌-◌, min, Bool, true, false, not, ◌&&◌, ◌||◌, Option, none, some, List,
  [], ◌∷◌, ◌++◌,
}
use mathlib.Core.Option
use mathlib.Core.List.{reverse}
use simple_storage_service.Prelude.Tests.{ltb, leb, ◌==◌, if◌then◌else◌}
use simple_storage_service.Prelude.Lists.{length, take, drop, any}
use simple_storage_service.Prelude.Text.{
  Text, str, text_eq, starts_with, split, join, is_digit, trim_start,
}
use simple_storage_service.Prelude.Result.{Result, ok, err, ◌>>=◌, ◌>>◌, guard}
use simple_storage_service.Storage.Cipher.{Bytes}
use simple_storage_service.Wildcard.{is_line_terminator}

-- `State`.
pub data Phase : Type 0 where
  header data_phase terminator done : Phase

pub data StreamError : Type 0 where
  malformed_body signature_mismatch : StreamError

-- The fields of the stream. `hashed` is what `chunkHash` has been given since it was made, and
-- `out` what has been pushed.
pub record Stream : Type 0 where
  pub phase : Phase
  pub pending : Bytes
  pub remaining : ℕ
  pub is_final_chunk : Bool
  pub previous_signature : Text
  pub chunk_signature : Option Text
  pub hashed : Bytes
  pub out : Bytes

-- `ChunkSigningContext`; the signing key is in the parameter `hmac` below.
pub record ChunkSigningContext : Type 0 where
  pub amz_date : Text
  pub credential_scope : Text
  pub seed_signature : Text

-- `indexOf` of CRLF.
unfoldable pub index_of_crlf : Bytes → Option ℕ
index_of_crlf [] = none
index_of_crlf (b ∷ bs) =
    let later : Option ℕ = Option.map suc (index_of_crlf bs) in
    if starts_with (b ∷ bs) (13 ∷ 10 ∷ []) then some 0 else later

hex_value : ℕ → Option ℕ
hex_value c =
    if is_digit c
    then some (c - b'0')
    else if leb b'a' c && leb c b'f'
    then some (c - b'a' + 10)
    else if leb b'A' c && leb c b'F'
    then some (c - b'A' + 10)
    else none

-- The longest run of hexadecimal digits, if there is one.
hex_digits : Option ℕ → Text → Option ℕ
unfolding hex_value
hex_digits value [] = value
hex_digits value (c ∷ cs) = elim (hex_value c) [
  | none ↦ value
  | some d ↦ hex_digits (elim value [ none ↦ some d | some v ↦ some (v * 16 + d) ]) cs
]

-- After the sign: an optional `0x`, which must be followed by a digit.
hex_unsigned : Text → Option ℕ
unfolding hex_digits
hex_unsigned [] = none
hex_unsigned (c ∷ []) = hex_digits none (c ∷ [])
hex_unsigned (c ∷ d ∷ cs) =
    if (c == b'0') && ((d == b'x') || (d == b'X'))
    then hex_digits none cs
    else hex_digits none (c ∷ d ∷ cs)

not_negative : Option ℕ → Option ℕ
not_negative none = none
not_negative (some zero) = some 0
not_negative (some (suc n)) = none

signed_size : Text → Option ℕ
unfolding hex_unsigned not_negative
signed_size [] = none
signed_size (c ∷ cs) =
    if c == b'-'
    then not_negative (hex_unsigned cs)
    else if c == b'+'
    then hex_unsigned cs
    else hex_unsigned (c ∷ cs)

-- `Number.parseInt(text, 16)`, with `none` for NaN and for a number below 0, which the caller
-- refuses alike. Sizes are exact; the source's are below 2 ^ 53.
unfoldable pub parse_size : Text → Option ℕ
unfolding signed_size
parse_size text = signed_size (trim_start text)

trim : Text → Text
trim text = reverse (trim_start (reverse (trim_start text)))

-- The group of `/^chunk-signature=(.+)$/`, on the extension without the space around it.
signature_of : Text → Option Text
unfolding trim
signature_of extension =
    let text = trim extension in
    let value = drop (length (str "chunk-signature=")) text in
    if starts_with text (str "chunk-signature=")
      && ltb 0 (length value)
      && not (any is_line_terminator value)
    then some value
    else none

unfoldable pub find_signature : List Text → Option Text
unfolding signature_of
find_signature [] = none
find_signature (extension ∷ extensions) = elim (signature_of extension) [
  | none ↦ find_signature extensions
  | some value ↦ some value
]

-- The header as it is split at `;`.
unfoldable pub parse_header : Text → Option ℕ × Option Text
parse_header text = elim (split b';' text) [
  | [] ↦ (none, none)
  | size_part ∷ extensions ↦ (parse_size size_part, find_signature extensions)
]

-- `sha256` is the hexadecimal digest of Node's `crypto`, `hmac` that of `createHmac` under the
-- signing key, and `utf8` the text that `toString('utf8')` reads; `none` is a body whose chunks
-- carry no signature.
module _ (sha256 : Bytes → Text) (hmac : Text → Text) (utf8 : Bytes → Text)
    (context : Option ChunkSigningContext) where
  unfoldable pub compute_chunk_signature : ChunkSigningContext → Text → Text → Text
  compute_chunk_signature c previous_signature chunk_hash = hmac (
      join (10 ∷ []) (
        str "AWS4-HMAC-SHA256-PAYLOAD"
        ∷ c.amz_date
        ∷ c.credential_scope
        ∷ previous_signature
        ∷ sha256 []
        ∷ chunk_hash
        ∷ []))

  abbrev seed : Option ChunkSigningContext → Text
  seed none = []
  seed (some c) = c.seed_signature

  unfoldable pub new_stream : Stream
  new_stream = record {
    phase = header;
    pending = [];
    remaining = 0;
    is_final_chunk = false;
    previous_signature = seed context;
    chunk_signature = none;
    hashed = [];
    out = [];
  }

  unfoldable pub verify_with :
      Option ChunkSigningContext → Option Text → Stream → Result StreamError Stream
  verify_with none signature s = ok s
  verify_with (some c) none s = ok s
  verify_with (some c) (some signature) s =
      if text_eq (compute_chunk_signature c s.previous_signature (sha256 s.hashed)) signature
      then ok (record s { previous_signature = signature })
      else err signature_mismatch

  unfoldable pub verify_chunk : Stream → Result StreamError Stream
  verify_chunk s = verify_with context s.chunk_signature s

  unfoldable pub unsigned : Option ChunkSigningContext → Option Text → Bool
  unsigned (some c) none = true
  unsigned _ _ = false

  -- What the header says: the size, and the state behind it.
  unfoldable pub enter_chunk : Stream → Bytes → Option ℕ × Option Text → Result StreamError Stream
  enter_chunk s rest (none, signature) = err malformed_body
  enter_chunk s rest (some size, signature) =
      guard (not (unsigned context signature)) malformed_body
      >> ok (record s {
        phase = if size == 0 then terminator else data_phase;
        pending = rest;
        remaining = size;
        is_final_chunk = size == 0;
        chunk_signature = signature;
        hashed = [];
      })

  -- Each `consume...` says whether it advanced.
  unfoldable pub consume_header : Stream → Result StreamError (Bool × Stream)
  consume_header s = elim (index_of_crlf s.pending) [
    | none ↦ guard (not (ltb 1024 (length s.pending))) malformed_body >> ok (false, s)
    | some index ↦
        enter_chunk s (drop (index + 2) s.pending) (parse_header (utf8 (take index s.pending)))
        >>= λ s'. ok (true, s')
  ]

  -- The bytes taken, and the phase: over when nothing remains.
  unfoldable pub take_data : Stream → Bool × Stream
  take_data s =
      let taken = min s.remaining (length s.pending) in
      let bytes = take taken s.pending in
      let s' = record s {
        pending = drop taken s.pending;
        remaining = s.remaining - taken;
        hashed = s.hashed ++ bytes;
        out = s.out ++ bytes;
      } in
      if ltb 0 (s.remaining - taken) then (false, s') else (true, record s' { phase = terminator })

  unfoldable pub consume_data : Stream → Result StreamError (Bool × Stream)
  consume_data s = if length s.pending == 0 then ok (false, s) else ok (take_data s)

  unfoldable pub consume_terminator : Stream → Result StreamError (Bool × Stream)
  consume_terminator s =
      if ltb (length s.pending) 2
      then ok (false, s)
      else guard (text_eq (take 2 s.pending) (13 ∷ 10 ∷ [])) malformed_body
        >> (verify_chunk (record s { pending = drop 2 s.pending }) >>= λ s'.
            ok (true, record s' { phase = if s.is_final_chunk then done else header }))

  unfoldable pub step : Phase → Stream → Result StreamError (Bool × Stream)
  step header s = consume_header s
  step data_phase s = consume_data s
  step terminator s = consume_terminator s
  step done s = ok (false, record s { pending = [] })

  -- `consume` on fuel; `none` is out of fuel.
  unfoldable pub consume : ℕ → Stream → Option (Result StreamError Stream)
  consume zero s = none
  consume (suc fuel) s = elim (step s.phase s) [
    | err e ↦ some (err e)
    | ok moved ↦ elim (moved.0) [ false ↦ some (ok moved.1) | true ↦ consume fuel moved.1 ]
  ]

  -- `_transform`, with fuel for two rounds a byte and two more.
  abbrev pub fuel_of : Stream → ℕ
  fuel_of s = 2 * length s.pending + 2

  unfoldable pub transform : Stream → Bytes → Option (Result StreamError Stream)
  transform s chunk = let s' = record s { pending = s.pending ++ chunk } in consume (fuel_of s') s'

  -- `_flush`: the body must be complete, but for the CRLF behind the last chunk.
  finish : Phase → Stream → Result StreamError Stream
  finish done s = ok s
  finish terminator s =
      if s.is_final_chunk && (length s.pending == 0)
      then (verify_chunk s >>= λ s'. ok (record s' { phase = done }))
      else err malformed_body
  finish _ s = err malformed_body

  unfoldable pub flush : Stream → Result StreamError Stream
  unfolding finish
  flush s = finish s.phase s
