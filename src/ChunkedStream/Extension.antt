-- ===== src/ChunkedStream/Extension.antt =====
-- A step of the decoder with more bytes behind those at hand.
use simple_storage_service.Prelude.{
  ℕ, ◌+◌, ◌-◌, ◌≤◌, ◌≡◌, ap, sym, refl, min, Bool, true, false, ◌&&◌, Option, none, some, [], ◌∷◌,
  ◌++◌, arith, inl, inr,
}
use simple_storage_service.Prelude.Tests.{ltb, ◌==◌, if◌then◌else◌, Option-cases, Bool-cases}
use simple_storage_service.Prelude.Lists.{
  length, take, drop, length-append, drop-append_le, take-append_le,
}
use simple_storage_service.Prelude.Text.{Text, starts_with, text_eq}
use simple_storage_service.Prelude.Result.{ok, >>-succeeds, ok-injective}
use simple_storage_service.Storage.Cipher.{Bytes}
use simple_storage_service.ChunkedStream.{
  Phase, header, data_phase, terminator, done, Stream, ChunkSigningContext, index_of_crlf,
  parse_header, compute_chunk_signature, verify_with, verify_chunk, enter_chunk, consume_header,
  take_data, consume_data, consume_terminator, step,
}
use simple_storage_service.ChunkedStream.Fuel.{
  index_of_crlf-le, header-shape, data-shape, terminator-shape, data-advance,
}

abbrev pub extend : Stream → Bytes → Stream
extend s b = record s { pending = s.pending ++ b }

index_of_crlf-append :
    (bytes b : Bytes) {n : ℕ} → index_of_crlf bytes ≡ some n → index_of_crlf (bytes ++ b) ≡ some n
unfolding index_of_crlf starts_with
index_of_crlf-append [] b h = cc
index_of_crlf-append (c ∷ []) b h = elim (Bool-cases (c == 13)) [
  | inl e ↦ absurd (ground arith)
  | inr e ↦ absurd (ground arith)
]
index_of_crlf-append (c ∷ d ∷ bs) b {n} h = elim (Option-cases (index_of_crlf (d ∷ bs))) [
  | inl no_more ↦ elim (Bool-cases ((c == 13) && (d == 10))) [
    | inl e ↦ ground arith
    | inr e ↦ absurd (ground arith)
  ]
  | inr (m, found) ↦ let rest = index_of_crlf-append (d ∷ bs) b found in ground arith
]

module _ (sha256 : Bytes → Text) (hmac : Text → Text) (utf8 : Bytes → Text)
    (context : Option ChunkSigningContext) where
  enter_chunk-extend :
      (s : Stream) (rest b : Bytes) (parsed : Option ℕ × Option Text) {t : Stream}
      → enter_chunk sha256 hmac utf8 context s rest parsed ≡ ok t
      → enter_chunk sha256 hmac utf8 context (extend s b) (rest ++ b) parsed ≡ ok (extend t b)
  unfolding enter_chunk
  enter_chunk-extend s rest b (none, signature) h = cc
  enter_chunk-extend s rest b (some size, signature) h =
      let (allowed, entered) = >>-succeeds _ (ok _) h in
      let same = sym (ok-injective entered) in rw allowed (rw same refl)

  verify_with-extend :
      (c : Option ChunkSigningContext) (signature : Option Text) (s : Stream) (b : Bytes)
      {u : Stream}
      → verify_with sha256 hmac utf8 context c signature s ≡ ok u
      → verify_with sha256 hmac utf8 context c signature (extend s b) ≡ ok (extend u b)
  unfolding verify_with
  verify_with-extend none signature s b h = let same = sym (ok-injective h) in rw same refl
  verify_with-extend (some c) none s b h = let same = sym (ok-injective h) in rw same refl
  verify_with-extend (some c) (some signature) s b {u} h =
      elim (Bool-cases (
        text_eq
          (compute_chunk_signature sha256 hmac utf8 context c s.previous_signature
            (sha256 s.hashed))
          signature)) [
            | inl good ↦
                let same : u ≡ (record s { previous_signature = signature }) =
                  sym (ok-injective (rw good at h)) in
                rw good (rw same refl)
            | inr bad ↦ absurd (let h' = rw bad at h in cc)
          ]

  header-again :
      (s t : Stream) (b : Bytes) (index : ℕ)
      → index_of_crlf s.pending ≡ some index
      → enter_chunk sha256 hmac utf8 context
          (extend s b)
          (drop (index + 2) (s.pending ++ b))
          (parse_header (utf8 (take index (s.pending ++ b))))
        ≡ ok (extend t b)
      → consume_header sha256 hmac utf8 context (extend s b) ≡ ok (true, extend t b)
  unfolding consume_header
  header-again s t b index found made =
      rw (index_of_crlf-append s.pending b found, consume_header) (rw made refl)

  data-again :
      (s : Stream) (b : Bytes)
      → 1 ≤ length s.pending
      → s.remaining ≤ length s.pending
      → consume_data sha256 hmac utf8 context (extend s b)
        ≡ ok (
          true,
          record s {
            phase = terminator;
            pending = drop s.remaining s.pending ++ b;
            remaining = 0;
            hashed = s.hashed ++ take s.remaining s.pending;
            out = s.out ++ take s.remaining s.pending;
          },
        )
  unfolding consume_data take_data
  data-again s b some_bytes fits =
      let sum = length-append s.pending b in
      let full : (length (s.pending ++ b) == 0) ≡ false = ground arith in
      let all_of_it : min s.remaining (length (s.pending ++ b)) ≡ s.remaining = omega arith in
      let nothing : s.remaining - s.remaining ≡ 0 = omega arith in
      rw full (
        rw
          (
            all_of_it,
            nothing,
            drop-append_le s.remaining s.pending b fits,
            take-append_le s.remaining s.pending b fits,
          )
          refl)

  terminator-again :
      (s u : Stream) (b : Bytes)
      → 2 ≤ length s.pending
      → text_eq (take 2 s.pending) (13 ∷ 10 ∷ []) ≡ true
      → verify_chunk sha256 hmac utf8 context (record s { pending = drop 2 s.pending }) ≡ ok u
      → consume_terminator sha256 hmac utf8 context (extend s b)
        ≡ ok (true, extend (record u { phase = if s.is_final_chunk then done else header }) b)
  unfolding consume_terminator verify_chunk
  terminator-again s u b long crlf verified =
      let sum = length-append s.pending b in
      let full : ltb (length (s.pending ++ b)) 2 ≡ false = ground arith in
      rw full (
        rw (take-append_le 2 s.pending b long, drop-append_le 2 s.pending b long)
          (rw crlf (
            rw
              (verify_with-extend context s.chunk_signature
                (record s { pending = drop 2 s.pending }) b verified)
              refl)))

  pub step-extend :
      (phase : Phase) (s t : Stream) (b : Bytes)
      → step sha256 hmac utf8 context phase s ≡ ok (true, t)
      → step sha256 hmac utf8 context phase (extend s b) ≡ ok (true, extend t b)
  unfolding step
  step-extend header s t b h =
      let (index, found, made) = header-shape sha256 hmac utf8 context s t h in
      let bound = index_of_crlf-le s.pending found in
      header-again s t b index found (
        rw
          (
            drop-append_le (index + 2) s.pending b bound,
            take-append_le index s.pending b (omega arith),
          )
          (enter_chunk-extend s (drop (index + 2) s.pending) b _ made))
  step-extend data_phase s t b h =
      let (some_bytes, fits, taken) = data-shape sha256 hmac utf8 context s t h in
      rw (data-advance sha256 hmac utf8 context s t taken fits) (data-again s b some_bytes fits)
  step-extend terminator s t b h =
      let (long, crlf, u, verified, same) = terminator-shape sha256 hmac utf8 context s t h in
      rw same (terminator-again s u b long crlf verified)
  step-extend done s t b h = absurd (let e = ap (λ (r : Bool × Stream). r.0) (ok-injective h) in cc)
