-- ===== src/ChunkedStream/Splits.antt =====
-- The decoder on a body that is cut in different places.
use simple_storage_service.Prelude.{
  ℕ, zero, suc, ◌+◌, ◌-◌, ◌<◌, ◌≤◌, ◌≡◌, ◌⊎◌, ap, sym, ◌∙◌, refl, min, Bool, true, false, not,
  Option, some, [], ◌∷◌, ◌++◌, arith, inl, inr,
}
use mathlib.Core.List.{append-nil, append_assoc}
use simple_storage_service.Prelude.Tests.{ltb, ◌==◌, if◌then◌else◌, Option-cases, Bool-cases}
use simple_storage_service.Prelude.Lists.{
  length, take, drop, length-append, drop-append_ge, take-append_ge, take-length-le, drop-length-le,
}
use simple_storage_service.Prelude.Text.{Text, text_eq}
use simple_storage_service.Prelude.Result.{
  Result, ok, ◌>>=◌, guard, >>-succeeds, >>=-succeeds, ok-injective, some-injective,
}
use simple_storage_service.Storage.Cipher.{Bytes}
use simple_storage_service.ChunkedStream.{
  Phase, header, data_phase, terminator, done, StreamError, malformed_body, Stream,
  ChunkSigningContext, index_of_crlf, parse_header, verify_chunk, enter_chunk, consume_header,
  take_data, consume_data, consume_terminator, step, consume, transform,
}
use simple_storage_service.ChunkedStream.Fuel.{
  step-cases, consume-stop, consume-fail, consume-go, consume-empty, consume-more,
  transform-answers,
}
use simple_storage_service.ChunkedStream.Extension.{extend, step-extend}

module _ (sha256 : Bytes → Text) (hmac : Text → Text) (utf8 : Bytes → Text)
    (context : Option ChunkSigningContext) where
  header-stop : (s t : Stream) → consume_header sha256 hmac utf8 context s ≡ ok (false, t) → t ≡ s
  unfolding consume_header
  header-stop s t h = elim (Option-cases (index_of_crlf s.pending)) [
    | inl missing ↦
        let (small, answer) =
          >>-succeeds (guard (not (ltb 1024 (length s.pending))) malformed_body) (ok (false, s))
            (rw (missing, consume_header) at h) in
        sym (ap (λ (r : Bool × Stream). r.1) (ok-injective answer))
    | inr (index, found) ↦ absurd (
        let (entered, made, answer) =
          >>=-succeeds
            (enter_chunk sha256 hmac utf8 context s (drop (index + 2) s.pending)
              (parse_header (utf8 (take index s.pending))))
            (λ s'. ok (true, s')) (rw (found, consume_header) at h) in
        let e = ap (λ (r : Bool × Stream). r.0) (ok-injective answer) in cc)
  ]

  terminator-stop :
      (s t : Stream) → consume_terminator sha256 hmac utf8 context s ≡ ok (false, t) → t ≡ s
  unfolding consume_terminator
  terminator-stop s t h = elim (Bool-cases (ltb (length s.pending) 2)) [
    | inl short ↦
        sym (ap (λ (r : Bool × Stream). r.1) (ok-injective (rw (short, consume_terminator) at h)))
    | inr long ↦ absurd (
        let (crlf, later) =
          >>-succeeds (guard (text_eq (take 2 s.pending) (13 ∷ 10 ∷ [])) malformed_body)
            (verify_chunk sha256 hmac utf8 context (record s { pending = drop 2 s.pending })
              >>= λ s'. ok (true, record s' { phase = if s.is_final_chunk then done else header }))
            (rw (long, consume_terminator) at h) in
        let (u, verified, answer) =
          >>=-succeeds
            (verify_chunk sha256 hmac utf8 context (record s { pending = drop 2 s.pending }))
            (λ s'. ok (true, record s' { phase = if s.is_final_chunk then done else header }))
            later in
        let e = ap (λ (r : Bool × Stream). r.0) (ok-injective answer) in cc)
  ]

  -- All that is pending has been taken, and more is to come.
  took_all : Stream → Stream
  took_all s = record s {
    pending = [];
    remaining = s.remaining - length s.pending;
    hashed = s.hashed ++ s.pending;
    out = s.out ++ s.pending;
  }

  data-stop :
      (s t : Stream)
      → consume_data sha256 hmac utf8 context s ≡ ok (false, t)
      → (t ≡ s) ⊎ ((1 ≤ length s.pending) × (length s.pending < s.remaining) × (t ≡ took_all s))
  unfolding consume_data take_data took_all
  data-stop s t h = elim (Bool-cases (length s.pending == 0)) [
    | inl empty ↦ inl (sym (ap (λ (r : Bool × Stream). r.1) (ok-injective (rw empty at h))))
    | inr some_bytes ↦
        let h1 = ok-injective (rw some_bytes at h) in
        elim (Bool-cases (ltb 0 (s.remaining - min s.remaining (length s.pending)))) [
          | inl more ↦
              let low : length s.pending < s.remaining = ground arith in
              let all_of_it : min s.remaining (length s.pending) ≡ length s.pending = omega arith in
              let h2 = ap (λ (r : Bool × Stream). r.1) (rw more at h1) in
              inr (
                ground arith,
                low,
                sym (
                    rw
                      (
                        all_of_it,
                        take-length-le (length s.pending) s.pending (omega arith),
                        drop-length-le (length s.pending) s.pending (omega arith),
                      )
                      at h2),
              )
          | inr over ↦ absurd (let e = ap (λ (r : Bool × Stream). r.0) (rw over at h1) in cc)
        ]
  ]

  take_data-resume :
      (s : Stream) (b : Bytes)
      → length s.pending < s.remaining
      → take_data sha256 hmac utf8 context (extend s b)
        ≡ take_data sha256 hmac utf8 context (extend (took_all s) b)
  unfolding take_data took_all
  take_data-resume s b low =
      let sum = length-append s.pending b in
      let rest : ℕ = s.remaining - length s.pending in
      let both : min s.remaining (length (s.pending ++ b))
          ≡ length s.pending + min rest (length b) =
        omega arith in
      let left : s.remaining - (length s.pending + min rest (length b))
          ≡ rest - min rest (length b) =
        omega arith in
      let beyond : length s.pending + min rest (length b) - length s.pending ≡ min rest (length b) =
        omega arith in
      rw
        (
          both,
          left,
          take-append_ge (length s.pending + min rest (length b)) s.pending b (omega arith),
          drop-append_ge (length s.pending + min rest (length b)) s.pending b (omega arith),
          beyond,
          append_assoc,
          append_assoc,
        )
        refl

  consume_data-bytes :
      (s : Stream)
      → 1 ≤ length s.pending
      → consume_data sha256 hmac utf8 context s ≡ ok (take_data sha256 hmac utf8 context s)
  unfolding consume_data
  consume_data-bytes s h =
      let full : (length s.pending == 0) ≡ false = ground arith in rw (full, consume_data) refl

  extend-nothing : (s : Stream) → extend s [] ≡ s
  extend-nothing s = rw (append-nil s.pending) refl

  data-resume :
      (s : Stream) (b : Bytes)
      → 1 ≤ length s.pending
      → length s.pending < s.remaining
      → consume_data sha256 hmac utf8 context s ≡ ok (false, took_all s)
      → consume_data sha256 hmac utf8 context (extend s b)
        ≡ consume_data sha256 hmac utf8 context (extend (took_all s) b)
  data-resume s [] some_bytes low h =
      rw (extend-nothing s) (h ∙ sym (unfold consume_data took_all in refl))
  data-resume s (c ∷ cs) some_bytes low h =
      let sum = length-append s.pending (c ∷ cs) in
      consume_data-bytes (extend s (c ∷ cs)) (omega arith)
      ∙ ap ok (take_data-resume s (c ∷ cs) low)
      ∙ sym (consume_data-bytes (extend (took_all s) (c ∷ cs)) (unfold took_all in omega arith))

  -- A state that waits for more goes on as if it had not stopped.
  step-resume :
      (phase : Phase) (s t : Stream) (b : Bytes)
      → s.phase ≡ phase
      → step sha256 hmac utf8 context phase s ≡ ok (false, t)
      → step sha256 hmac utf8 context phase (extend s b)
        ≡ step sha256 hmac utf8 context t.phase (extend t b)
  unfolding step took_all
  step-resume header s t b at h = rw (header-stop s t h, at) refl
  step-resume data_phase s t b at h = elim (data-stop s t h) [
    | inl same ↦ rw (same, at) refl
    | inr (some_bytes, low, same) ↦ rw same (
        data-resume s b some_bytes low (rw same at h)
        ∙ ap (λ (p : Phase). step sha256 hmac utf8 context p (extend (took_all s) b)) (sym at))
  ]
  step-resume terminator s t b at h = rw (terminator-stop s t h, at) refl
  step-resume done s t b at h =
      let same : t ≡ (record s { pending = [] }) =
        sym (ap (λ (r : Bool × Stream). r.1) (ok-injective h)) in
      rw (same, at) refl

  step-same :
      (fuel : ℕ) (s t : Stream)
      → step sha256 hmac utf8 context s.phase s ≡ step sha256 hmac utf8 context t.phase t
      → consume sha256 hmac utf8 context (suc fuel) s
        ≡ consume sha256 hmac utf8 context (suc fuel) t
  unfolding consume
  step-same fuel s t h = rw (h, consume) refl

  -- A run on the first part, and one from where it stopped, make a run on both.
  consume-extend :
      (fuel more : ℕ) (s t : Stream) (b : Bytes) {r : Result StreamError Stream}
      → consume sha256 hmac utf8 context fuel s ≡ some (ok t)
      → consume sha256 hmac utf8 context more (extend t b) ≡ some r
      → consume sha256 hmac utf8 context (more + fuel) (extend s b) ≡ some r
  consume-extend zero more s t b h k = absurd (consume-empty sha256 hmac utf8 context s h)
  consume-extend (suc fuel) zero s t b h k =
      absurd (consume-empty sha256 hmac utf8 context (extend t b) k)
  consume-extend (suc fuel) (suc more) s t b h k = elim (step-cases sha256 hmac utf8 context s) [
    | inl (e, failed) ↦
        absurd (let e' = sym (consume-fail sha256 hmac utf8 context fuel s e failed) ∙ h in cc)
    | inr (inl (u, stopped)) ↦
        let e' = sym (consume-stop sha256 hmac utf8 context fuel s u stopped) ∙ h in
        let same : u ≡ t = ok-injective (some-injective e') in
        let stopped' = rw same at stopped in
        let e'' =
          step-same more (extend s b) (extend t b) (step-resume s.phase s t b refl stopped') ∙ k in
        consume-more sha256 hmac utf8 context (suc more) (suc fuel) (extend s b) e''
    | inr (inr (u, went)) ↦
        let rest = sym (consume-go sha256 hmac utf8 context fuel s u went) ∙ h in
        let whole = consume-extend fuel (suc more) u t b rest k in
        let sum : suc more + suc fuel ≡ suc (suc more + fuel) = omega arith in
        rw sum (
          consume-go sha256 hmac utf8 context (suc more + fuel) (extend s b) (extend u b)
            (step-extend sha256 hmac utf8 context s.phase s u b went)
          ∙ whole)
  ]

  consume_unique :
      (f g : ℕ) (s : Stream) {q r : Result StreamError Stream}
      → consume sha256 hmac utf8 context f s ≡ some q
      → consume sha256 hmac utf8 context g s ≡ some r
      → q ≡ r
  consume_unique f g s h k =
      let sum : f + g ≡ g + f = omega arith in
      let h' = rw sum at (consume-more sha256 hmac utf8 context f g s h) in
      some-injective (sym h' ∙ consume-more sha256 hmac utf8 context g f s k)

  -- Where the decoder accepts a first piece of the body, feeding it the second piece has the same
  -- outcome as feeding it both pieces joined at once: the same error, or the same state with the
  -- same decoded bytes.
  pub transform-append :
      (s t : Stream) (a b : Bytes)
      → transform sha256 hmac utf8 context s a ≡ some (ok t)
      → transform sha256 hmac utf8 context s (a ++ b) ≡ transform sha256 hmac utf8 context t b
  unfolding transform
  transform-append s t a b h =
      let (r, second) = transform-answers sha256 hmac utf8 context t b in
      let (q, joined) = transform-answers sha256 hmac utf8 context s (a ++ b) in
      let whole = consume-extend _ _ (extend s a) t b h second in
      let whole' = rw append_assoc at whole in
      joined ∙ ap some (consume_unique _ _ (extend s (a ++ b)) joined whole') ∙ sym second
