-- ===== src/RateLimit.antt =====
-- libs/domains/src/rate-limit/rate-limit.service.ts and rate-limit.types.ts: the fixed-window
-- counter in Valkey. Times are in milliseconds. The key of a counter is the text
-- `ratelimit:<kind>:<id>:<window>`, kept as its parts: neither a kind nor a window holds a colon,
-- so the text gives the parts back.
pub mod Window
pub mod Outage
use simple_storage_service.Prelude.{
  ℕ, ◌+◌, ◌-◌, ◌*◌, ◌/◌, ◌%◌, ◌≡◌, ◌≢◌, max, Bool, true, false, not, ◌&&◌, Option, none, some, List,
  [], ◌∷◌,
}
use simple_storage_service.Prelude.Tests.{ltb, leb, ◌==◌, if◌then◌else◌}
use simple_storage_service.Prelude.Text.{Text, text_eq}

pub record Config : Type 0 where
  pub enabled : Bool
  pub window_seconds : ℕ
  pub max : ℕ

pub record Subject : Type 0 where
  pub kind : Text
  pub id : Text

pub record Decision : Type 0 where
  pub allowed : Bool
  pub limit : ℕ
  pub remaining : ℕ
  pub retry_after_seconds : ℕ

pub record Key : Type 0 where
  pub subject : Subject
  pub window : ℕ

-- What a key holds: a number, and the time at which it disappears, if it does.
pub record Entry : Type 0 where
  pub value : ℕ
  pub deadline : Option ℕ

unfoldable pub is_over : ℕ → Option ℕ → Bool
is_over now none = false
is_over now (some deadline) = leb deadline now

-- The entry as a command at this time sees it.
unfoldable pub live : ℕ → Option Entry → Option Entry
live now none = none
live now (some entry) = if is_over now entry.deadline then none else some entry

-- `INCR` starts a missing counter at 0 and keeps the deadline of one that is there.
unfoldable pub incremented : Option Entry → Entry
incremented none = record { value = 1; deadline = none }
incremented (some entry) = record entry { value = entry.value + 1 }

abbrev pub expiring : ℕ → Entry → Entry
expiring deadline entry = record entry { deadline = some deadline }

-- Valkey, by the documentation of `INCR` and `EXPIRE` for a client that is answered.
pub record Valkey : Type 1 where
  pub Store : Type 0
  pub entry : Store → Key → Option Entry
  pub incr : Store → ℕ → Key → ℕ × Store
  pub expire : Store → ℕ → Key → ℕ → Store
  pub incr-count :
      (s : Store) (now : ℕ) (k : Key)
      → (incr s now k).0 ≡ (incremented (live now (entry s k))).value
  pub incr-entry :
      (s : Store) (now : ℕ) (k : Key)
      → entry (incr s now k).1 k ≡ some (incremented (live now (entry s k)))
  pub incr-other :
      (s : Store) (now : ℕ) (k k' : Key) → k ≢ k' → entry (incr s now k).1 k' ≡ entry s k'
  pub expire-entry :
      (s : Store) (now : ℕ) (k : Key) (seconds : ℕ) (e : Entry)
      → entry s k ≡ some e
      → entry (expire s now k seconds) k ≡ some (expiring (now + seconds * 1000) e)
  pub expire-other :
      (s : Store) (now : ℕ) (k k' : Key) (seconds : ℕ)
      → k ≢ k'
      → entry (expire s now k seconds) k' ≡ entry s k'

-- Whether the commands of a request are answered, or the first or the second one fails.
pub data Reply : Type 0 where
  answers incr_fails expire_fails : Reply

-- The state of the service: `client` is whether there is one.
pub record Service : Type 0 where
  pub client : Bool
  pub available : Bool
  pub outage_logged : Bool

unfoldable pub mark_available : Service → Service
mark_available s = if s.available then s else record s { available = true; outage_logged = false }

unfoldable pub mark_unavailable : Service → Service
mark_unavailable s = record s { available = false; outage_logged = true }

module _ (config : Config) where
  unfoldable pub window_index : ℕ → ℕ
  window_index now = now / 1000 / config.window_seconds

  unfoldable pub retry_after_seconds : ℕ → ℕ
  retry_after_seconds now = max (config.window_seconds - now / 1000 % config.window_seconds) 1

  unfoldable pub allow_all : Decision
  allow_all = record {
    allowed = true;
    limit = config.max;
    remaining = config.max;
    retry_after_seconds = 0;
  }

  unfoldable pub decide : ℕ → ℕ → Decision
  unfolding retry_after_seconds
  decide now count = record {
    allowed = leb count config.max;
    limit = config.max;
    remaining = config.max - count;
    retry_after_seconds = retry_after_seconds now;
  }

  unfoldable pub key_of : ℕ → Subject → Key
  unfolding window_index
  key_of now subject = record { subject = subject; window = window_index now }

  module _ (valkey : Valkey) where
    open valkey use {Store, incr, expire}

    -- The commands of one request, on a client that is there. A failure leaves what the commands
    -- before it have done, and opens the gate.
    unfoldable pub count_request : Reply → Service → Store → ℕ → Key → Decision × Service × Store
    count_request incr_fails s store now key = (allow_all, mark_unavailable s, store)
    count_request answers s store now key =
        let (count, store') = incr store now key in
        (
          decide now count,
          s,
          if count == 1 then expire store' now key config.window_seconds else store',
        )
    count_request expire_fails s store now key =
        let (count, store') = incr store now key in
        if count == 1
        then (allow_all, mark_unavailable s, store')
        else (decide now count, s, store')

    unfoldable pub consume : Reply → Service → Store → ℕ → Subject → Decision × Service × Store
    unfolding count_request
    consume reply s store now subject =
        if config.enabled && s.client && s.available
        then count_request reply s store now (key_of now subject)
        else (allow_all, s, store)
