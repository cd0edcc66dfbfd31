-- ===== src/ChunkedStream/Fuel.antt =====
-- The end of `consume`, and the fuel of `transform`.
use simple_storage_service.Prelude.{
  ℕ, zero, suc, ◌+◌, ◌*◌, ◌-◌, ◌<◌, ◌≤◌, ◌≡◌, ◌⊎◌, ap, sym, ◌∙◌, refl, min, Bool, true, false,
  Option, none, some, [], ◌∷◌, ◌++◌, arith, inl, inr,
}
use simple_storage_service.Prelude.Tests.{ltb, ◌==◌, if◌then◌else◌, Option-cases, Bool-cases}
use simple_storage_service.Prelude.Lists.{length, take, drop, length-drop}
use simple_storage_service.Prelude.Text.{Text, starts_with, text_eq}
use simple_storage_service.Prelude.Result.{
  Result, ok, err, ◌>>=◌, guard, >>=-succeeds, >>-succeeds, ok-injective, Result-cases,
}
use simple_storage_service.Storage.Cipher.{Bytes}
use simple_storage_service.ChunkedStream.{
  Phase, header, data_phase, terminator, done, StreamError, malformed_body, Stream,
  ChunkSigningContext, index_of_crlf, parse_header, verify_with, verify_chunk, enter_chunk,
  consume_header, take_data, consume_data, consume_terminator, step, consume, transform,
}

pub index_of_crlf-le : (bytes : Bytes) {n : ℕ} → index_of_crlf bytes ≡ some n → n + 2 ≤ length bytes
unfolding index_of_crlf starts_with
index_of_crlf-le [] h = cc
index_of_crlf-le (b ∷ []) h = elim (Bool-cases (b == 13)) [
  | inl e ↦ ground arith
  | inr e ↦ ground arith
]
index_of_crlf-le (b ∷ c ∷ bs) {n} h = elim (Option-cases (index_of_crlf (c ∷ bs))) [
  | inl no_more ↦ ground arith
  | inr (m, found) ↦ let rest = index_of_crlf-le (c ∷ bs) found in ground arith
]

-- The rounds that are left at most.
abbrev pub rounds : Phase → ℕ
rounds data_phase = 1
rounds _ = 0

abbrev pub measure : Stream → ℕ
measure s = 2 * length s.pending + rounds s.phase

module _ (sha256 : Bytes → Text) (hmac : Text → Text) (utf8 : Bytes → Text)
    (context : Option ChunkSigningContext) where
  enter_chunk-pending :
      (s : Stream) (rest : Bytes) (parsed : Option ℕ × Option Text) {t : Stream}
      → enter_chunk sha256 hmac utf8 context s rest parsed ≡ ok t
      → (t.pending ≡ rest) × (rounds t.phase ≤ 1)
  unfolding enter_chunk
  enter_chunk-pending s rest (none, signature) h = cc
  enter_chunk-pending s rest (some size, signature) h =
      let (allowed, entered) = >>-succeeds _ (ok _) h in
      let same = sym (ok-injective entered) in
      (ap (λ (t : Stream). t.pending) same, rw same (ground arith))

  verify_with-pending :
      (c : Option ChunkSigningContext) (signature : Option Text) (s : Stream) {t : Stream}
      → verify_with sha256 hmac utf8 context c signature s ≡ ok t
      → t.pending ≡ s.pending
  unfolding verify_with
  verify_with-pending none signature s h = ap (λ (t : Stream). t.pending) (sym (ok-injective h))
  verify_with-pending (some c) none s h = ap (λ (t : Stream). t.pending) (sym (ok-injective h))
  verify_with-pending (some c) (some signature) s h = ground arith

  -- What it takes to advance, in each phase.
  pub header-shape :
      (s t : Stream)
      → consume_header sha256 hmac utf8 context s ≡ ok (true, t)
      → (index : ℕ) × (index_of_crlf s.pending ≡ some index)
        × (enter_chunk sha256 hmac utf8 context s
              (drop (index + 2) s.pending)
              (parse_header (utf8 (take index s.pending)))
            ≡ ok t)
  unfolding consume_header
  header-shape s t h = elim (Option-cases (index_of_crlf s.pending)) [
    | inl missing ↦ absurd (let h' = rw (missing, consume_header) at h in ground arith)
    | inr (index, found) ↦
        let h' = rw (found, consume_header) at h in
        let (entered, made, answer) =
          >>=-succeeds
            (enter_chunk sha256 hmac utf8 context s (drop (index + 2) s.pending)
              (parse_header (utf8 (take index s.pending))))
            (λ s'. ok (true, s')) h' in
        let same : entered ≡ t = ap (λ (r : Bool × Stream). r.1) (ok-injective answer) in
        (index, found, made ∙ ap ok same)
  ]

  take_data-over :
      (s t : Stream)
      → take_data sha256 hmac utf8 context s ≡ (true, t)
      → s.remaining ≤ length s.pending
  unfolding take_data
  take_data-over s t h =
      elim (Bool-cases (ltb 0 (s.remaining - min s.remaining (length s.pending)))) [
        | inl more ↦ absurd (let first = ap (λ (r : Bool × Stream). r.0) (rw more at h) in cc)
        | inr over ↦ ground arith
      ]

  pub data-shape :
      (s t : Stream)
      → consume_data sha256 hmac utf8 context s ≡ ok (true, t)
      → (1 ≤ length s.pending)
        × (s.remaining ≤ length s.pending)
        × (take_data sha256 hmac utf8 context s ≡ (true, t))
  unfolding consume_data
  data-shape s t h = elim (Bool-cases (length s.pending == 0)) [
    | inl empty ↦ absurd (let h' = rw (empty, consume_data) at h in ground arith)
    | inr some_bytes ↦
        let taken : take_data sha256 hmac utf8 context s ≡ (true, t) =
          ok-injective (rw (some_bytes, consume_data) at h) in
        (ground arith, take_data-over s t taken, taken)
  ]

  pub terminator-shape :
      (s t : Stream)
      → consume_terminator sha256 hmac utf8 context s ≡ ok (true, t)
      → (2 ≤ length s.pending)
        × (text_eq (take 2 s.pending) (13 ∷ 10 ∷ []) ≡ true)
        × (u : Stream) × (verify_chunk sha256 hmac utf8 context
              (record s { pending = drop 2 s.pending })
            ≡ ok u)
        × (t ≡ (record u { phase = if s.is_final_chunk then done else header }))
  unfolding consume_terminator
  terminator-shape s t h = elim (Bool-cases (ltb (length s.pending) 2)) [
    | inl short ↦ absurd (let h' = rw (short, consume_terminator) at h in ground arith)
    | inr long ↦
        let h' = rw (long, consume_terminator) at h in
        let (crlf, later) =
          >>-succeeds (guard (text_eq (take 2 s.pending) (13 ∷ 10 ∷ [])) malformed_body)
            (verify_chunk sha256 hmac utf8 context (record s { pending = drop 2 s.pending })
              >>= λ s'. ok (true, record s' { phase = if s.is_final_chunk then done else header }))
            h' in
        let (u, verified, answer) =
          >>=-succeeds
            (verify_chunk sha256 hmac utf8 context (record s { pending = drop 2 s.pending }))
            (λ s'. ok (true, record s' { phase = if s.is_final_chunk then done else header }))
            later in
        (
          ground arith,
          ground arith,
          u,
          verified,
          sym (ap (λ (r : Bool × Stream). r.1) (ok-injective answer)),
        )
  ]

  pub data-advance :
      (s t : Stream)
      → take_data sha256 hmac utf8 context s ≡ (true, t)
      → s.remaining ≤ length s.pending
      → t ≡ (record s {
        phase = terminator;
        pending = drop s.remaining s.pending;
        remaining = 0;
        hashed = s.hashed ++ take s.remaining s.pending;
        out = s.out ++ take s.remaining s.pending;
      })
  unfolding take_data
  data-advance s t h fits =
      let all_of_it : min s.remaining (length s.pending) ≡ s.remaining = omega arith in
      let nothing : s.remaining - s.remaining ≡ 0 = omega arith in
      sym (ap (λ (r : Bool × Stream). r.1) (rw (all_of_it, nothing) at h))

  -- A round that advances leaves fewer rounds to go.
  step-advance :
      (phase : Phase) (s t : Stream)
      → s.phase ≡ phase
      → step sha256 hmac utf8 context phase s ≡ ok (true, t)
      → measure t < measure s
  unfolding step verify_chunk
  step-advance header s t at h =
      let (index, found, made) = header-shape s t h in
      let (kept, low) = enter_chunk-pending s (drop (index + 2) s.pending) _ made in
      let shorter = length-drop (index + 2) s.pending in
      let bound = index_of_crlf-le s.pending found in rw (kept, shorter, at) (omega arith)
  step-advance data_phase s t at h =
      let (some_bytes, fits, taken) = data-shape s t h in
      let shorter = length-drop s.remaining s.pending in
      rw (data-advance s t taken fits, shorter, at) (omega arith)
  step-advance terminator s t at h =
      let (long, crlf, u, verified, same) = terminator-shape s t h in
      let kept = verify_with-pending context _ (record s { pending = drop 2 s.pending }) verified in
      let shorter = length-drop 2 s.pending in
      elim (Bool-cases s.is_final_chunk) [
        | inl last ↦ rw (same, kept, shorter, at, last) (omega arith)
        | inr more ↦ rw (same, kept, shorter, at, more) (omega arith)
      ]
  step-advance done s t at h =
      absurd (let e = ap (λ (r : Bool × Stream). r.0) (ok-injective h) in cc)

  -- One round, as a run sees it.
  pub consume-stop :
      (fuel : ℕ) (s : Stream) (t : Stream)
      → step sha256 hmac utf8 context s.phase s ≡ ok (false, t)
      → consume sha256 hmac utf8 context (suc fuel) s ≡ some (ok t)
  unfolding consume
  consume-stop fuel s t h = rw (h, consume) refl

  pub consume-fail :
      (fuel : ℕ) (s : Stream) (e : StreamError)
      → step sha256 hmac utf8 context s.phase s ≡ err e
      → consume sha256 hmac utf8 context (suc fuel) s ≡ some (err e)
  unfolding consume
  consume-fail fuel s e h = rw (h, consume) refl

  pub consume-go :
      (fuel : ℕ) (s : Stream) (t : Stream)
      → step sha256 hmac utf8 context s.phase s ≡ ok (true, t)
      → consume sha256 hmac utf8 context (suc fuel) s ≡ consume sha256 hmac utf8 context fuel t
  unfolding consume
  consume-go fuel s t h = rw (h, consume) refl

  pub step-cases :
      (s : Stream)
      → ((e : StreamError) × (step sha256 hmac utf8 context s.phase s ≡ err e))
        ⊎ ((t : Stream) × (step sha256 hmac utf8 context s.phase s ≡ ok (false, t)))
        ⊎ ((t : Stream) × (step sha256 hmac utf8 context s.phase s ≡ ok (true, t)))
  step-cases s = elim (Result-cases (step sha256 hmac utf8 context s.phase s)) [
    | inr failed ↦ inl failed
    | inl ((false, t), h) ↦ inr (inl (t, h))
    | inl ((true, t), h) ↦ inr (inr (t, h))
  ]

  consume-answers :
      (fuel : ℕ) (s : Stream)
      → measure s < fuel
      → (r : Result StreamError Stream) × (consume sha256 hmac utf8 context fuel s ≡ some r)
  consume-answers zero s h = absurd (omega arith)
  consume-answers (suc fuel) s h = elim (step-cases s) [
    | inl (e, failed) ↦ (err e, consume-fail fuel s e failed)
    | inr (inl (t, stopped)) ↦ (ok t, consume-stop fuel s t stopped)
    | inr (inr (t, went)) ↦
        let fewer = step-advance s.phase s t refl went in
        let (r, rest) = consume-answers fuel t (omega arith) in (r, consume-go fuel s t went ∙ rest)
  ]

  -- The parser always comes to an end: for every state and chunk, `transform` has an answer within
  -- its fuel of two rounds for each pending byte and two more.
  pub transform-answers :
      (s : Stream) (chunk : Bytes)
      → (r : Result StreamError Stream) × (transform sha256 hmac utf8 context s chunk ≡ some r)
  unfolding transform
  transform-answers s chunk =
      consume-answers _ (record s { pending = s.pending ++ chunk }) (below s.phase)
    where
      below :
          (p : Phase)
          → 2 * length (s.pending ++ chunk) + rounds p < 2 * length (s.pending ++ chunk) + 2
      below header = omega arith
      below data_phase = omega arith
      below terminator = omega arith
      below done = omega arith

  pub consume-empty :
      (s : Stream) {r : Result StreamError Stream}
      → consume sha256 hmac utf8 context zero s ≡ some r
      → ⊥
  unfolding consume
  consume-empty s h = cc

  -- An answer does not change with more fuel.
  pub consume-more :
      (fuel more : ℕ) (s : Stream) {r : Result StreamError Stream}
      → consume sha256 hmac utf8 context fuel s ≡ some r
      → consume sha256 hmac utf8 context (fuel + more) s ≡ some r
  consume-more zero more s h = absurd (consume-empty s h)
  consume-more (suc fuel) more s h =
      let e : suc fuel + more ≡ suc (fuel + more) = omega arith in
      rw e (elim (step-cases s) [
        | inl (e, failed) ↦
            consume-fail (fuel + more) s e failed ∙ sym (consume-fail fuel s e failed) ∙ h
        | inr (inl (t, stopped)) ↦
            consume-stop (fuel + more) s t stopped ∙ sym (consume-stop fuel s t stopped) ∙ h
        | inr (inr (t, went)) ↦
            consume-go (fuel + more) s t went
            ∙ consume-more fuel more t (sym (consume-go fuel s t went) ∙ h)
      ])
