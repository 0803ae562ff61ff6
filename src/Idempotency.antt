-- ===== src/Idempotency.antt =====
-- entities/idempotency.py: the dedup store in memory. Instants and durations are integers (of
-- microseconds, say). A method holds the lock from its first read to its last write, so it is one
-- step on the store; the clock's reading is an argument.
pub mod Refinement
pub mod Claims
pub mod Shared
mod Tests
use message_broker_patterns.Base.{
  ℕ, suc, String, Bool, true, false, not, Option, none, some, List, [], ◌∷◌, if◌then◌else◌,
}
use message_broker_patterns.Base.Int.{ℤ, pos, ◌+ℤ◌, ltb_ℤ, leb_ℤ}
use message_broker_patterns.Base.Dict.{Dict, lookup, insert, erase}
use message_broker_patterns.Base.Exec.{Result, ok, err, value_error}

-- _validate_ttl
unfoldable pub validate_ttl : ℤ → Result ℤ
validate_ttl ttl = if leb_ℤ ttl (pos 0) then err value_error else ok ttl

pub record InMemoryIdempotencyStore : Type 0 where
  pub ttl : ℤ
  pub expiry : Dict ℤ

created : Result ℤ → Result InMemoryIdempotencyStore
created (ok ttl) = ok (record { ttl = ttl; expiry = [] })
created (err e) = err e

-- __init__
unfoldable pub new_store : ℤ → Result InMemoryIdempotencyStore
unfolding validate_ttl created
new_store ttl = created (validate_ttl ttl)

-- An entry read from the dict, judged at an instant.
abbrev pub live_at : Option ℤ → ℤ → Bool
live_at none now = false
live_at (some expires_at) now = ltb_ℤ now expires_at

drop_expired : Option ℤ → String → ℤ → InMemoryIdempotencyStore → InMemoryIdempotencyStore
drop_expired none key now s = s
drop_expired (some expires_at) key now s =
    if ltb_ℤ now expires_at then s else record s { expiry = erase key s.expiry }

-- _is_live: an expired entry is dropped on the way.
unfoldable pub is_live : String → ℤ → InMemoryIdempotencyStore → Bool × InMemoryIdempotencyStore
unfolding drop_expired
is_live key now s =
    (live_at (lookup key s.expiry) now, drop_expired (lookup key s.expiry) key now s)

-- _purge_expired
unfoldable pub purge_expired : ℤ → Dict ℤ → Dict ℤ
purge_expired now [] = []
purge_expired now ((key, expires_at) ∷ d) =
    let rest = purge_expired now d in
    if leb_ℤ expires_at now then rest else (key, expires_at) ∷ rest

-- _record
unfoldable pub store_key : String → ℤ → InMemoryIdempotencyStore → InMemoryIdempotencyStore
unfolding purge_expired
store_key key now s = record s { expiry = insert key (now +ℤ s.ttl) (purge_expired now s.expiry) }

unfoldable pub is_processed :
    String → ℤ → InMemoryIdempotencyStore → Bool × InMemoryIdempotencyStore
unfolding is_live
is_processed key now s = is_live key now s

unfoldable pub mark_processed : String → ℤ → InMemoryIdempotencyStore → InMemoryIdempotencyStore
unfolding store_key
mark_processed key now s = store_key key now s

unfoldable pub mark_if_new : String → ℤ → InMemoryIdempotencyStore → Bool × InMemoryIdempotencyStore
unfolding is_live store_key
mark_if_new key now s =
    let (live, s') = is_live key now s in if live then (false, s') else (true, store_key key now s')

-- size
unfoldable pub size : ℤ → Dict ℤ → ℕ
size now [] = 0
size now ((key, expires_at) ∷ d) =
    let rest = size now d in if ltb_ℤ now expires_at then suc rest else rest
