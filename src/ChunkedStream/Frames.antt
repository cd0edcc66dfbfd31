-- ===== src/ChunkedStream/Frames.antt =====
-- What one frame of an `aws-chunked` body does.
use simple_storage_service.Prelude.{
  ℕ, suc, ◌+◌, ◌-◌, ◌≤◌, ◌≡◌, ap, ◌∙◌, refl, min, true, false, Option, none, some, [], ◌∷◌, ◌++◌,
  arith, inl, inr,
}
use simple_storage_service.Prelude.Tests.{ltb, ◌==◌, Bool-cases, if◌then◌else◌}
use simple_storage_service.Prelude.Lists.{
  length, take, drop, length-append, drop-append, take-append, drop-append_ge, All,
}
use simple_storage_service.Prelude.Text.{Text, str, join, starts_with, text_eq}
use simple_storage_service.Prelude.Result.{ok, err, ◌>>=◌, Result-cases}
use simple_storage_service.Storage.Cipher.{Bytes}
use simple_storage_service.ChunkedStream.{
  malformed_body, signature_mismatch, compute_chunk_signature, verify_with, Phase, header,
  data_phase, terminator, Stream, ChunkSigningContext, index_of_crlf, parse_header, unsigned,
  verify_chunk, enter_chunk, consume_header, take_data, consume_data, consume_terminator, step,
  consume,
}
use simple_storage_service.ChunkedStream.Fuel.{consume-go, consume-fail}

abbrev pub crlf : Bytes
crlf = 13 ∷ 10 ∷ []

-- Text without a carriage return.
abbrev pub IsLine : Bytes → Type 0
IsLine line = All (λ c. (c == 13) ≡ false) line

index_of_crlf-line :
    (line rest : Bytes) → IsLine line → index_of_crlf (line ++ 13 ∷ 10 ∷ rest) ≡ some (length line)
unfolding index_of_crlf starts_with
index_of_crlf-line [] rest h = refl
index_of_crlf-line (c ∷ cs) rest (differs, h) = rw (index_of_crlf-line cs rest h) (rw differs refl)

module _ (sha256 : Bytes → Text) (hmac : Text → Text) (utf8 : Bytes → Text)
    (context : Option ChunkSigningContext) where
  -- The stream behind the header, behind the data, and as it is verified.
  abbrev pub behind_header : Stream → Option Text → Bytes → ℕ → Stream
  behind_header s signature pending size = record s {
    phase = data_phase;
    pending = pending;
    remaining = size;
    is_final_chunk = false;
    chunk_signature = signature;
    hashed = [];
  }

  abbrev pub behind_data : Stream → Option Text → Bytes → Bytes → Stream
  behind_data s signature pending payload = record s {
    phase = terminator;
    pending = pending;
    remaining = 0;
    is_final_chunk = false;
    chunk_signature = signature;
    hashed = payload;
    out = s.out ++ payload;
  }

  header-frame :
      (s : Stream) (line rest : Bytes) (size : ℕ) (signature : Option Text)
      → IsLine line
      → parse_header (utf8 line) ≡ (some size, signature)
      → 1 ≤ size
      → unsigned sha256 hmac utf8 context context signature ≡ false
      → s.pending ≡ line ++ 13 ∷ 10 ∷ rest
      → consume_header sha256 hmac utf8 context s ≡ ok (true, behind_header s signature rest size)
  unfolding consume_header enter_chunk
  header-frame s line rest size signature plain parsed positive signed start =
      let found : index_of_crlf s.pending ≡ some (length line) =
        rw start (index_of_crlf-line line rest plain) in
      let text : take (length line) s.pending ≡ line =
        rw start (take-append line (13 ∷ 10 ∷ rest)) in
      let left : drop (length line + 2) s.pending ≡ rest = rw start (
        drop-append_ge (length line + 2) line (13 ∷ 10 ∷ rest) (omega arith)
        ∙ (let two : length line + 2 - length line ≡ 2 = omega arith in rw two refl)) in
      let filled : (size == 0) ≡ false = ground arith in
      rw (found, consume_header) (rw (text, left) (rw parsed (rw (signed, filled) refl)))

  data-frame :
      (s : Stream) (payload rest : Bytes)
      → 1 ≤ length payload
      → s.remaining ≡ length payload
      → s.pending ≡ payload ++ rest
      → consume_data sha256 hmac utf8 context s
        ≡ ok (
          true,
          record s {
            phase = terminator;
            pending = rest;
            remaining = 0;
            hashed = s.hashed ++ payload;
            out = s.out ++ payload;
          },
        )
  unfolding consume_data take_data
  data-frame s payload rest some_bytes size start =
      let sum = length-append payload rest in
      let full : (length (payload ++ rest) == 0) ≡ false = ground arith in
      let all_of_it : min (length payload) (length (payload ++ rest)) ≡ length payload =
        omega arith in
      let nothing : length payload - length payload ≡ 0 = omega arith in
      rw (start, size) (rw full (rw (all_of_it, nothing, take-append, drop-append) refl))

  terminator-frame :
      (s : Stream) (signature : Option Text) (payload rest : Bytes)
      → consume_terminator sha256 hmac utf8 context
          (behind_data s signature (13 ∷ 10 ∷ rest) payload)
        ≡ (verify_chunk sha256 hmac utf8 context (behind_data s signature rest payload) >>= λ v.
            ok (true, record v { phase = header }))
  unfolding consume_terminator text_eq
  terminator-frame s signature payload rest =
      let full : ltb (suc (suc (length rest))) 2 ≡ false = ground arith in rw full refl

  last-round :
      (fuel : ℕ) (s : Stream) (signature : Option Text) (payload rest : Bytes)
      → consume sha256 hmac utf8 context
          (suc fuel)
          (behind_data s signature (13 ∷ 10 ∷ rest) payload)
        ≡ (elim (verify_chunk sha256 hmac utf8 context (behind_data s signature rest payload)) [
          | err e ↦ some (err e)
          | ok v ↦ consume sha256 hmac utf8 context fuel (record v { phase = header })
        ])
  unfolding step
  last-round fuel s signature payload rest =
      let round = terminator-frame s signature payload rest in
      elim (Result-cases
        (verify_chunk sha256 hmac utf8 context (behind_data s signature rest payload))) [
          | inl (v, good) ↦ rw good (
              consume-go sha256 hmac utf8 context fuel _ (record v { phase = header })
                (rw good at round))
          | inr (e, bad) ↦ rw bad (consume-fail sha256 hmac utf8 context fuel _ e (rw bad at round))
        ]

  -- A frame up to the check of its signature.
  verified-frame :
      (fuel : ℕ) (s : Stream) (line payload rest : Bytes) (signature : Option Text)
      → IsLine line
      → parse_header (utf8 line) ≡ (some (length payload), signature)
      → 1 ≤ length payload
      → unsigned sha256 hmac utf8 context context signature ≡ false
      → s.phase ≡ header
      → s.pending ≡ line ++ 13 ∷ 10 ∷ (payload ++ 13 ∷ 10 ∷ rest)
      → consume sha256 hmac utf8 context (suc (suc (suc fuel))) s
        ≡ (elim (verify_chunk sha256 hmac utf8 context (behind_data s signature rest payload)) [
          | err e ↦ some (err e)
          | ok v ↦ consume sha256 hmac utf8 context fuel (record v { phase = header })
        ])
  unfolding step
  verified-frame fuel s line payload rest signature plain parsed positive signed at start =
      let body : Bytes = payload ++ 13 ∷ 10 ∷ rest in
      consume-go sha256 hmac utf8 context (suc (suc fuel)) s
        (behind_header s signature body (length payload))
        (ap (λ (p : Phase). step sha256 hmac utf8 context p s) at
          ∙ header-frame s line body (length payload) signature plain parsed positive signed start)
      ∙ consume-go sha256 hmac utf8 context (suc fuel)
          (behind_header s signature body (length payload))
          (behind_data s signature (13 ∷ 10 ∷ rest) payload)
          (data-frame (behind_header s signature body (length payload)) payload (13 ∷ 10 ∷ rest)
            positive refl refl)
      ∙ last-round fuel s signature payload rest

  unsigned-frame :
      (fuel : ℕ) (s : Stream) (line rest : Bytes) (size : ℕ) (signature : Option Text)
      → IsLine line
      → parse_header (utf8 line) ≡ (some size, signature)
      → unsigned sha256 hmac utf8 context context signature ≡ true
      → s.phase ≡ header
      → s.pending ≡ line ++ 13 ∷ 10 ∷ rest
      → consume sha256 hmac utf8 context (suc fuel) s ≡ some (err malformed_body)
  unfolding step consume_header enter_chunk
  unsigned-frame fuel s line rest size signature plain parsed refused at start =
      let found : index_of_crlf s.pending ≡ some (length line) =
        rw start (index_of_crlf-line line rest plain) in
      let text : take (length line) s.pending ≡ line =
        rw start (take-append line (13 ∷ 10 ∷ rest)) in
      let round : consume_header sha256 hmac utf8 context s ≡ err malformed_body =
        rw (found, consume_header) (rw text (rw parsed (rw refused refl))) in
      consume-fail sha256 hmac utf8 context fuel s malformed_body
        (ap (λ (p : Phase). step sha256 hmac utf8 context p s) at ∙ round)

module _ (sha256 : Bytes → Text) (hmac : Text → Text) (utf8 : Bytes → Text) where
  -- What a client signs for a chunk, behind the signature before it.
  abbrev pub chunk_signed : ChunkSigningContext → Text → Bytes → Text
  chunk_signed c previous payload = hmac (
      str "AWS4-HMAC-SHA256-PAYLOAD\n"
      ++ c.amz_date
      ++ 10 ∷ (c.credential_scope ++ 10 ∷ (previous ++ 10 ∷ (sha256 [] ++ 10 ∷ sha256 payload))))

  -- The stream behind a frame.
  abbrev pub behind_frame : Stream → Option Text → Bytes → Bytes → Text → Stream
  behind_frame s signature rest payload previous = record s {
    phase = header;
    pending = rest;
    remaining = 0;
    is_final_chunk = false;
    previous_signature = previous;
    chunk_signature = signature;
    hashed = payload;
    out = s.out ++ payload;
  }

  chunk_signature_signed :
      (c : ChunkSigningContext) (context : Option ChunkSigningContext) (previous : Text)
      (payload : Bytes)
      → compute_chunk_signature sha256 hmac utf8 context c previous (sha256 payload)
        ≡ chunk_signed c previous payload
  unfolding compute_chunk_signature join str
  chunk_signature_signed c context previous payload = refl

  -- A frame with a header line, a payload of at least one byte and as long as the line says, and
  -- the closing CRLF: without a signing context the payload is passed on and the run goes on
  -- behind the frame, whatever the line announces. With one, a line that announces no signature
  -- ends the run as malformed; a line that announces the keyed digest of the chunk, behind the
  -- signature before it, lets the payload and the run pass, with the announced signature as the
  -- one before the next chunk; any other ends the run with a mismatch.
  pub consume-frame :
      (context : Option ChunkSigningContext) (fuel : ℕ) (s : Stream) (line payload rest : Bytes)
      (signature : Option Text)
      → IsLine line
      → parse_header (utf8 line) ≡ (some (length payload), signature)
      → 1 ≤ length payload
      → s.phase ≡ header
      → s.pending ≡ line ++ 13 ∷ 10 ∷ (payload ++ 13 ∷ 10 ∷ rest)
      → consume sha256 hmac utf8 context (suc (suc (suc fuel))) s ≡ (elim context [
        | none ↦
            consume sha256 hmac utf8 none fuel
              (behind_frame s signature rest payload s.previous_signature)
        | some c ↦ elim signature [
          | none ↦ some (err malformed_body)
          | some value ↦
              if text_eq (chunk_signed c s.previous_signature payload) value
              then consume sha256 hmac utf8
                  (some c)
                  fuel
                  (behind_frame s (some value) rest payload value)
              else some (err signature_mismatch)
        ]
      ])
  unfolding verify_chunk verify_with unsigned
  consume-frame none fuel s line payload rest signature plain parsed positive at start =
      verified-frame sha256 hmac utf8 none fuel s line payload rest signature plain parsed positive
        refl at start
  consume-frame (some c) fuel s line payload rest none plain parsed positive at start =
      unsigned-frame sha256 hmac utf8 (some c) (suc (suc fuel)) s line (payload ++ 13 ∷ 10 ∷ rest)
        (length payload) none plain parsed refl at start
  consume-frame (some c) fuel s line payload rest (some value) plain parsed positive at start =
      let run =
        verified-frame sha256 hmac utf8 (some c) fuel s line payload rest (some value) plain parsed
          positive refl at start in
      let signed = chunk_signature_signed c (some c) s.previous_signature payload in
      elim (Bool-cases (text_eq (chunk_signed c s.previous_signature payload) value)) [
        | inl good ↦ rw good (run ∙ rw signed (rw good refl))
        | inr bad ↦ rw bad (run ∙ rw signed (rw bad refl))
      ]
