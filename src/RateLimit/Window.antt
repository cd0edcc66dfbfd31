-- ===== src/RateLimit/Window.antt =====
-- The counter in Valkey against a count of the requests themselves.
use mathlib.Core.Path.{subst}
use native.Mathlib.Nat.{div-mul-le_self, lt-div-mul-add, div-add-mod', mod-lt, add-mul}
use simple_storage_service.Prelude.{
  ℕ, zero, suc, ◌+◌, ◌-◌, ◌*◌, ◌/◌, ◌%◌, max, ◌<◌, ◌≤◌, ◌≡◌, ◌≢◌, ◌↔◌, refl, ap, ◌∙◌, Bool, true,
  false, ◌&&◌, Option, none, some, List, [], ◌∷◌, arith, inl, inr,
}
use simple_storage_service.Prelude.Tests.{ltb, leb, ◌==◌, if◌then◌else◌, Bool-cases}
use simple_storage_service.Prelude.Lists.{filter, length}
use simple_storage_service.Prelude.Text.{text_eq, text_eq_iff}
use simple_storage_service.RateLimit.{
  Config, Subject, Decision, Key, Entry, Valkey, answers, Service, is_over, live, incremented,
  window_index, retry_after_seconds, decide, key_of, count_request, consume,
}

unfoldable pub same_key : Key → Key → Bool
same_key k k' =
    text_eq k.subject.kind k'.subject.kind
    && text_eq k.subject.id k'.subject.id
    && (k.window == k'.window)

pub same_key_iff : (k k' : Key) → (same_key k k' ≡ true) ↔ (k ≡ k')
unfolding same_key
same_key_iff k k' =
    ground
      (arith, text_eq_iff k.subject.kind k'.subject.kind, text_eq_iff k.subject.id k'.subject.id)

pub same_key_refl : (k : Key) → same_key k k ≡ true
same_key_refl k = (same_key_iff k k).1 refl

different : (k k' : Key) → same_key k k' ≡ false → k ≢ k'
different k k' h e = cc ((same_key_iff k k').1 e)

abbrev up : Service
up = record { client = true; available = true; outage_logged = false }

-- A request: when it comes, and from whom.
abbrev pub Request : Type 0
Request = ℕ × Subject

module _ (config : Config) where
  -- The number of earlier requests that count against the window of a key.
  unfoldable pub hits : Key → List Request → ℕ
  hits k [] = 0
  hits k ((now, subject) ∷ earlier) =
      if same_key (key_of config now subject) k then suc (hits k earlier) else hits k earlier

  -- An earlier request of the caller in the window that the time lies in.
  abbrev pub is_counted : ℕ → Subject → Request → Bool
  is_counted now subject (before, other) =
      text_eq other.kind subject.kind
      && text_eq other.id subject.id
      && (before / 1000 / config.window_seconds == now / 1000 / config.window_seconds)

  -- What the service promises: one caller has `max` requests in a window, is told how many are
  -- left, and to wait until the next window begins.
  unfoldable pub promised : List Request → ℕ → Subject → Decision
  promised earlier now subject =
      let before = length (filter (is_counted now subject) earlier) in
      record {
        allowed = ltb before config.max;
        limit = config.max;
        remaining = config.max - (before + 1);
        retry_after_seconds =
            (now / 1000 / config.window_seconds + 1) * config.window_seconds - now / 1000;
      }

  hits-promised :
      (earlier : List Request) (now : ℕ) (subject : Subject)
      → hits (key_of config now subject) earlier ≡ length (filter (is_counted now subject) earlier)
  unfolding hits same_key key_of window_index
  hits-promised [] now subject = refl
  hits-promised ((before, other) ∷ earlier) now subject =
      ground (arith, hits-promised earlier now subject)

  decide-promised :
      (earlier : List Request) (now : ℕ) (subject : Subject)
      → 0 < config.window_seconds
      → decide config now (suc (hits (key_of config now subject) earlier))
        ≡ promised earlier now subject
  unfolding decide promised retry_after_seconds
  decide-promised earlier now subject positive =
      let w = config.window_seconds in
      let q = now / 1000 in
      let parts = div-add-mod' q w in
      let small = mod-lt q positive in
      let expand = add-mul (q / w) 1 w in
      let wait : max (w - q % w) 1 ≡ (q / w + 1) * w - q = omega arith in
      let before = length (filter (is_counted now subject) earlier) in
      let room : leb (suc before) config.max ≡ ltb before config.max = ground arith in
      let left : config.max - suc before ≡ config.max - (before + 1) = omega arith in
      rw (hits-promised earlier now subject, wait, room, left) refl

  window_end : Key → ℕ
  window_end k = k.window * config.window_seconds * 1000 + config.window_seconds * 1000

  window_bounds :
      (now : ℕ) (subject : Subject)
      → 0 < config.window_seconds
      → (now < window_end (key_of config now subject))
        × (window_end (key_of config now subject) ≤ now + config.window_seconds * 1000)
  unfolding window_end key_of window_index
  window_bounds now subject positive =
      let low = div-mul-le_self (now / 1000) config.window_seconds in
      let high = lt-div-mul-add {a = now / 1000} positive in (omega arith, omega arith)

  -- What the entry of a key is behind so many hits.
  abbrev IsCounted : Key → ℕ → Option Entry → Type 0
  IsCounted k zero e = e ≡ none
  IsCounted k (suc n) e =
      (deadline : ℕ) × (e ≡ some (record { value = suc n; deadline = some deadline }))
      × (window_end k ≤ deadline)

  module _ (valkey : Valkey) where
    open valkey use {
      Store, entry, incr, expire, incr-count, incr-entry, incr-other, expire-entry, expire-other,
    }

    -- The store behind requests that were all answered, the newest first.
    unfoldable pub run : Store → List Request → Store
    run s [] = s
    run s ((now, subject) ∷ earlier) =
        (consume config valkey answers up (run s earlier) now subject).2

    counted_value :
        (k : Key) (n now : ℕ) (e : Option Entry)
        → now < window_end k
        → IsCounted k n e
        → live now e ≡ e
    unfolding live is_over
    counted_value k zero now e soon h = rw h refl
    counted_value k (suc n) now e soon (deadline, h, late) = rw h (ground arith)

    count_request-IsCounted :
        (s : Store) (now : ℕ) (subject : Subject) (n : ℕ)
        → 0 < config.window_seconds
        → IsCounted (key_of config now subject) n (entry s (key_of config now subject))
        → ((count_request config valkey answers up s now (key_of config now subject)).0
            ≡ decide config now (suc n))
          × IsCounted (key_of config now subject) (suc n) (
              entry
                (count_request config valkey answers up s now (key_of config now subject)).2
                (key_of config now subject))
    unfolding count_request incremented
    count_request-IsCounted s now subject zero positive h =
        let k = key_of config now subject in
        let (soon, late) = window_bounds now subject positive in
        let fresh : live now (entry s k) ≡ none = counted_value k 0 now _ soon h ∙ h in
        let one : (incr s now k).0 ≡ 1 =
          incr-count s now k ∙ ap (λ (e : Option Entry). (incremented e).value) fresh in
        let put : entry (incr s now k).1 k ≡ some (record { value = 1; deadline = none }) =
          incr-entry s now k ∙ ap (λ (e : Option Entry). some (incremented e)) fresh in
        rw one (
          refl,
          (
            now + config.window_seconds * 1000,
            expire-entry _ now k config.window_seconds _ put,
            late,
          ),
        )
    count_request-IsCounted s now subject (suc n) positive (deadline, h, end) =
        let k = key_of config now subject in
        let (soon, late) = window_bounds now subject positive in
        let there : live now (entry s k)
            ≡ some (record { value = suc n; deadline = some deadline }) =
          counted_value k (suc n) now _ soon (deadline, h, end) ∙ h in
        let more : (incr s now k).0 ≡ suc (suc n) =
          incr-count s now k
          ∙ ap (λ (e : Option Entry). (incremented e).value) there
          ∙ (omega arith) in
        let put : entry (incr s now k).1 k
            ≡ some (record { value = suc (suc n); deadline = some deadline }) =
          incr-entry s now k
          ∙ ap (λ (e : Option Entry). some (incremented e)) there
          ∙ (ground arith) in
        let again : (suc (suc n) == 1) ≡ false = ground arith in
        rw (more, again) (refl, (deadline, put, end))

    count_request-other :
        (s : Store) (now : ℕ) (k k' : Key)
        → k ≢ k'
        → entry (count_request config valkey answers up s now k).2 k' ≡ entry s k'
    unfolding count_request
    count_request-other s now k k' other = elim (Bool-cases ((incr s now k).0 == 1)) [
      | inl first ↦
          rw first
            (expire-other _ now k k' config.window_seconds other ∙ incr-other s now k k' other)
      | inr again ↦ rw again (incr-other s now k k' other)
    ]

    consume-up :
        (s : Store) (now : ℕ) (subject : Subject)
        → config.enabled ≡ true
        → consume config valkey answers up s now subject
          ≡ count_request config valkey answers up s now (key_of config now subject)
    unfolding consume
    consume-up s now subject on = rw on refl

    run_cons :
        (s : Store) (now : ℕ) (subject : Subject) (earlier : List Request)
        → config.enabled ≡ true
        → run s ((now, subject) ∷ earlier)
          ≡ (count_request config valkey answers up
              (run s earlier)
              now
              (key_of config now subject)).2
    unfolding run
    run_cons s now subject earlier on =
        ap (λ (r : Decision × Service × Store). r.2) (consume-up (run s earlier) now subject on)

    run-IsCounted :
        (s : Store) (history : List Request) (k : Key)
        → config.enabled ≡ true
        → 0 < config.window_seconds
        → ((key : Key) → entry s key ≡ none)
        → IsCounted k (hits k history) (entry (run s history) k)
    unfolding hits
    run-IsCounted s [] k on positive empty = unfold run in empty k
    run-IsCounted s ((now, subject) ∷ earlier) k on positive empty =
        let before = run-IsCounted s earlier in
        elim (Bool-cases (same_key (key_of config now subject) k)) [
          | inl same ↦
              rw (same, run_cons s now subject earlier on)
                (subst
                  (λ (key : Key). IsCounted key (suc (hits key earlier)) (
                    entry
                      (count_request config valkey answers up (run s earlier) now
                        (key_of config now subject)).2
                      key))
                  ((same_key_iff (key_of config now subject) k).0 same)
                  (count_request-IsCounted (run s earlier) now subject _ positive
                    (before (key_of config now subject) on positive empty)).1)
          | inr other ↦
              rw
                (
                  other,
                  run_cons s now subject earlier on,
                  count_request-other (run s earlier) now _ k (different _ k other),
                )
                (before k on positive empty)
        ]

    -- While Valkey answers, every instance that shares it gives the decision that was promised:
    -- after any requests of any callers, in any order of their times, on a store that was empty,
    -- a request is decided by the number of earlier requests of its caller in its window, and the
    -- wait it is told ends with the window.
    pub consume-promised :
        (s : Store) (earlier : List Request) (now : ℕ) (subject : Subject)
        → config.enabled ≡ true
        → 0 < config.window_seconds
        → ((key : Key) → entry s key ≡ none)
        → (consume config valkey answers up (run s earlier) now subject).0
          ≡ promised earlier now subject
    consume-promised s earlier now subject on positive empty =
        rw (consume-up (run s earlier) now subject on) (
          (count_request-IsCounted (run s earlier) now subject _ positive
            (run-IsCounted s earlier (key_of config now subject) on positive empty)).0
          ∙ decide-promised earlier now subject positive)
