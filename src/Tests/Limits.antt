-- ===== src/Tests/Limits.antt =====
-- The rate limit over a toy Valkey.
use simple_storage_service.Prelude.{
  ℕ, ◌+◌, ◌*◌, ◌%◌, ◌/◌, ◌≤◌, ◌≡◌, ◌≢◌, refl, ap, ◌∙◌, true, false, Option, none, some, List, [],
  ◌∷◌, arith, inl, inr,
}
use simple_storage_service.Prelude.Tests.{if◌then◌else◌, Bool-cases}
use simple_storage_service.Prelude.Text.{str}
use simple_storage_service.RateLimit.{
  Config, Subject, Key, Entry, Valkey, answers, Service, live, incremented, expiring, window_index,
  retry_after_seconds, consume,
}
use simple_storage_service.RateLimit.Window.{
  same_key, same_key_iff, same_key_refl, Request, promised, run, consume-promised,
}
use simple_storage_service.RateLimit.Outage.{retry-next_window}

abbrev Counters : Type 0
Counters = Key → Option Entry

abbrev put_entry : Counters → Key → Option Entry → Counters
put_entry s k e = λ k'. if same_key k k' then e else s k'

abbrev expired_at : ℕ → Option Entry → Option Entry
expired_at deadline none = none
expired_at deadline (some e) = some (expiring deadline e)

put_entry-same : (s : Counters) (k : Key) (e : Option Entry) → put_entry s k e k ≡ e
put_entry-same s k e = rw (same_key_refl k) refl

put_entry-other :
    (s : Counters) (k k' : Key) (e : Option Entry) → k ≢ k' → put_entry s k e k' ≡ s k'
put_entry-other s k k' e other = elim (Bool-cases (same_key k k')) [
  | inl same ↦ absurd (other ((same_key_iff k k').0 same))
  | inr differs ↦ rw differs refl
]

abbrev incr : Counters → ℕ → Key → ℕ × Counters
incr s now k = let e = incremented (live now (s k)) in (e.value, put_entry s k (some e))

abbrev expire : Counters → ℕ → Key → ℕ → Counters
expire s now k seconds = put_entry s k (expired_at (now + seconds * 1000) (s k))

abbrev valkey : Valkey
valkey = record {
  Store = Counters;
  entry = λ s k. s k;
  incr = incr;
  expire = expire;
  incr-count = λ s now k. refl;
  incr-entry = λ s now k. put_entry-same s k (some (incremented (live now (s k))));
  incr-other = λ s now k k'. put_entry-other s k k' (some (incremented (live now (s k))));
  expire-entry = λ s now k seconds e held.
      put_entry-same s k (expired_at (now + seconds * 1000) (s k))
      ∙ ap (expired_at (now + seconds * 1000)) held;
  expire-other =
      λ s now k k' seconds. put_entry-other s k k' (expired_at (now + seconds * 1000) (s k));
}

abbrev config : Config
config = record { enabled = true; window_seconds = 10; max = 2 }

abbrev alice : Subject
alice = record { kind = str "user"; id = 1 ∷ [] }

abbrev bob : Subject
bob = record { kind = str "user"; id = 2 ∷ [] }

abbrev earlier : List Request
earlier = (2500, alice) ∷ (1500, bob) ∷ (1000, alice) ∷ []

abbrev up : Service
up = record { client = true; available = true; outage_logged = false }

abbrev empty : Counters
empty k = none

consume-promised_example :
    (consume config valkey answers up (run config valkey empty earlier) 3000 alice).0
    ≡ promised config earlier 3000 alice
consume-promised_example =
    consume-promised config valkey empty earlier 3000 alice refl (omega arith) (λ k. refl)

retry-next_window_example :
    let later = (13456 / 1000 + retry_after_seconds config 13456) * 1000 in
    (window_index config later ≡ window_index config 13456 + 1)
    × (retry_after_seconds config 13456 ≤ 10)
    × (later % 10000 ≡ 0)
retry-next_window_example = retry-next_window config 13456 (omega arith)
