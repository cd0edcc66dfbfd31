-- ===== src/RateLimit/Outage.antt =====
-- An outage of Valkey, and what a caller that is refused is told to wait.
use native.Mathlib.Nat.{div-add-mod', mod-lt, add-mul, mul-div_cancel, mul_assoc, mul-mod_left}
use simple_storage_service.Prelude.{
  ℕ, ◌+◌, ◌-◌, ◌*◌, ◌/◌, ◌%◌, ◌<◌, ◌≤◌, ◌≡◌, refl, ap, ◌∙◌, max, true, false, ◌&&◌, inl, inr, arith,
}
use simple_storage_service.Prelude.Tests.{Bool-cases}
use simple_storage_service.RateLimit.{
  Config, Subject, Valkey, Reply, incr_fails, Service, mark_available, mark_unavailable, allow_all,
  retry_after_seconds, window_index, count_request, consume,
}

module _ (config : Config) (valkey : Valkey) where
  open valkey use {Store}

  consume_failing :
      (service : Service) (s : Store) (now : ℕ) (subject : Subject)
      → config.enabled ≡ true
      → service.client ≡ true
      → service.available ≡ true
      → consume config valkey incr_fails service s now subject
        ≡ (allow_all config, mark_unavailable service, s)
  unfolding consume count_request
  consume_failing service s now subject on there up = ground arith

  consume_unavailable :
      (service : Service) (s : Store) (now : ℕ) (subject : Subject) (reply : Reply)
      → service.available ≡ false
      → consume config valkey reply service s now subject ≡ (allow_all config, service, s)
  unfolding consume
  consume_unavailable service s now subject reply down =
      elim (Bool-cases (config.enabled && service.client)) [
        | inl ready ↦ ground arith
        | inr off ↦ ground arith
      ]

  -- A command that fails opens the gate: the request is let through and the service turns
  -- unavailable; while it is, every request is let through whatever Valkey would answer and the
  -- counters are left alone; and once the client is ready the service is available again.
  pub consume-outage :
      (service : Service) (s : Store) (now : ℕ) (subject : Subject)
      → config.enabled ≡ true
      → service.client ≡ true
      → service.available ≡ true
      → let (decision, service', s') = consume config valkey incr_fails service s now subject in
        (decision.allowed ≡ true)
        × ((later : ℕ) (next : Subject) (reply : Reply)
            → consume config valkey reply service' s' later next ≡ (allow_all config, service', s'))
        × ((mark_available service').available ≡ true)
  unfolding allow_all mark_unavailable mark_available
  consume-outage service s now subject on there up =
      rw (consume_failing service s now subject on there up)
        (refl, λ later next reply. consume_unavailable _ s later next reply refl, refl)

module _ (config : Config) where
  -- The wait that a refused caller is told, counted from the last full second, ends at the first
  -- moment of the next window, and is never longer than a window.
  pub retry-next_window :
      (now : ℕ)
      → 0 < config.window_seconds
      → let later = (now / 1000 + retry_after_seconds config now) * 1000 in
        (window_index config later ≡ window_index config now + 1)
        × (retry_after_seconds config now ≤ config.window_seconds)
        × (later % (config.window_seconds * 1000) ≡ 0)
  unfolding retry_after_seconds window_index
  retry-next_window now positive =
      let w = config.window_seconds in
      let q = now / 1000 in
      let parts = div-add-mod' q w in
      let small = mod-lt q positive in
      let expand = add-mul (q / w) 1 w in
      let start : q + max (w - q % w) 1 ≡ (q / w + 1) * w = omega arith in
      (
        rw start (
            ap (λ (t : ℕ). t / w) (mul-div_cancel ((q / w + 1) * w) {n = 1000} (omega arith))
            ∙ mul-div_cancel (q / w + 1) positive),
        omega arith,
        rw start (
            ap (λ (t : ℕ). t % (w * 1000)) (mul_assoc (q / w + 1) w 1000)
            ∙ mul-mod_left (q / w + 1) (w * 1000)),
      )
