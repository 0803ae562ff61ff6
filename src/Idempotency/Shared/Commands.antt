-- ===== src/Idempotency/Shared/Commands.antt =====
-- The Redis client of the shared store (`redis.asyncio`, not part of the repository): the commands
-- it sends, each at an instant of the server's clock in milliseconds, and their documented effect.
use message_broker_patterns.Base.{
  ℕ, ◌+◌, ◌<◌, String, ◌≡◌, Bool, true, false, ◌||◌, Option, none, some, str_eq, leb, if◌then◌else◌,
}
use message_broker_patterns.Base.Int.{ℤ, pos}
use message_broker_patterns.Base.Exec.{Exec, Returns}
use message_broker_patterns.Redis.View.{as_count}

-- A set that is there, and the instant from which it is not.
pub record Window : Type 0 where
  pub members : String → Bool
  pub deadline : Option ℕ

abbrev pub expired : ℕ → Option ℕ → Bool
expired now none = false
expired now (some d) = leb d now

-- What a command at `now` finds.
abbrev pub live : ℕ → Option Window → Option Window
live now none = none
live now (some w) = if expired now w.deadline then none else some w

abbrev pub has : String → Option Window → Bool
has m none = false
has m (some w) = w.members m

-- A set that is created by a write has no deadline.
abbrev pub added : String → Option Window → Window
added m none = record { members = λ x. str_eq m x; deadline = none }
added m (some w) = record w { members = λ x. str_eq m x || w.members x }

abbrev pub or_deadline : ℕ → Option ℕ → Option ℕ
or_deadline d none = some d
or_deadline d (some e) = some e

-- The flag NX: only a set without a deadline is given one.
abbrev pub with_deadline : ℕ → Option Window → Option Window
with_deadline d none = none
with_deadline d (some w) = some (record w { deadline = or_deadline d w.deadline })

pub record Client : Type 1 where
  pub State : Type 0
  pub view : State → String → Option Window
  -- The whole milliseconds that the client sends for a timedelta, which is given in microseconds.
  pub milliseconds : ℤ → ℕ
  -- SADD key member
  pub sadd : ℕ → String → String → Exec State ℕ
  -- SISMEMBER key member
  pub sismember : ℕ → String → String → Exec State ℕ
  -- PEXPIRE key ttl NX
  pub pexpire_nx : ℕ → String → ℤ → Exec State ℕ

pub record Laws (c : Client) : Type 0 where
  -- What is left of a millisecond is cut off.
  pub milliseconds_lem : (n : ℕ) → n < 1000 → c.milliseconds (pos n) ≡ 0
  pub sadd_lem :
      (now : ℕ) (key m : String) (s : c.State)
      → Returns (c.sadd now key m s) (λ n s'.
        (n ≡ as_count (if has m (live now (c.view s key)) then false else true))
        × (c.view s' key ≡ some (added m (live now (c.view s key)))))
  pub sismember_lem :
      (now : ℕ) (key m : String) (s : c.State)
      → Returns (c.sismember now key m s) (λ n s'.
        (n ≡ as_count (has m (live now (c.view s key))))
        × (c.view s' key ≡ live now (c.view s key)))
  pub pexpire_nx_lem :
      (now : ℕ) (key : String) (ttl : ℤ) (s : c.State)
      → Returns (c.pexpire_nx now key ttl s) (λ _ s'.
        c.view s' key ≡ with_deadline (now + c.milliseconds ttl) (live now (c.view s key)))
