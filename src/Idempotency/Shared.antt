-- ===== src/Idempotency/Shared.antt =====
-- entities/idempotency.py: the dedup store in a Redis set that processes share. What the other
-- processes do to the server between the two commands of a call is an argument of the call.
pub mod Commands
pub mod Calls
pub mod Refinement
pub mod History
pub mod Rivals
pub mod Truncation
mod Tests
use message_broker_patterns.Base.{ℕ, String, Bool, true, false, ltb}
use message_broker_patterns.Base.Int.{ℤ}
use message_broker_patterns.Base.Exec.{Exec, Result, ok, err, pure, modify, ◌>>=◌, ◌>>◌}
use message_broker_patterns.Idempotency.{validate_ttl}
use message_broker_patterns.Idempotency.Shared.Commands.{Client}

-- The store; its client is the state of the calls.
pub record RedisIdempotencyStore : Type 0 where
  pub key : String
  pub ttl : ℤ

created : String → Result ℤ → Result RedisIdempotencyStore
created key (ok ttl) = ok (record { key = key; ttl = ttl })
created key (err e) = err e

-- __init__
unfoldable pub new_store : String → ℤ → Result RedisIdempotencyStore
unfolding created
new_store key ttl = created key (validate_ttl ttl)

module _ (c : Client) (store : RedisIdempotencyStore) where
  unfoldable pub is_processed : String → ℕ → Exec c.State Bool
  is_processed key now = do member ← c.sismember now store.key key; pure (ltb 0 member)

  -- SADD at `now`, PEXPIRE at `later`.
  unfoldable pub mark_if_new : String → ℕ → (c.State → c.State) → ℕ → Exec c.State Bool
  mark_if_new key now others later = do
    added ← c.sadd now store.key key
    modify others
    c.pexpire_nx later store.key store.ttl
    pure (ltb 0 added)

  unfoldable pub mark_processed : String → ℕ → (c.State → c.State) → ℕ → Exec c.State Unit
  mark_processed key now others later = do mark_if_new key now others later; pure tt
