-- ===== src/Redis.antt =====
-- The Redis client that the brokers are given (`redis.asyncio`, not part of the repository), as a
-- parameter: the commands that the sources send, what can be seen of the server, and what the
-- sources rely on. Each command may raise, and then nothing is assumed of the server.
pub mod View
pub mod Memory
pub mod Instance
use message_broker_patterns.Base.{
  ℕ, String, ◌≡◌, ◌⊎◌, Bool, true, false, Option, none, some, List, ◌++◌, take, if◌then◌else◌,
}
use message_broker_patterns.Base.Exec.{Exec, Result, ok, err, response_error, Ends, Returns}
use message_broker_patterns.Redis.View.{
  Fields, Entry, Server, cursor, with_entry, with_group, with_delivery, backlog, with_ack,
  with_claim, with_member, fresh_entries, as_count,
}

pub record Redis : Type 1 where
  pub State : Type 0
  pub view : State → Server
  -- XADD stream * fields
  pub xadd : String → Fields → Exec State String
  -- XREAD COUNT n STREAMS stream last_id
  pub xread : String → String → ℕ → Exec State (List Entry)
  -- XLEN stream
  pub xlen : String → Exec State ℕ
  -- XGROUP CREATE stream group 0 MKSTREAM
  pub xgroup_create : String → String → Exec State Unit
  -- XREADGROUP GROUP group consumer COUNT n [BLOCK ms] STREAMS stream >
  pub xreadgroup_new : String → String → String → ℕ → Option ℕ → Exec State (List Entry)
  -- XREADGROUP GROUP group consumer COUNT n STREAMS stream 0
  pub xreadgroup_pending : String → String → String → ℕ → Exec State (List Entry)
  -- XACK stream group id
  pub xack : String → String → String → Exec State ℕ
  -- XAUTOCLAIM stream group consumer min-idle-time 0 COUNT n; the claimed entries
  pub xautoclaim : String → String → String → ℕ → ℕ → Exec State (List Entry)
  -- XPENDING stream group; the number of pending entries
  pub xpending : String → String → Exec State ℕ
  -- SADD key member, SISMEMBER key member
  pub sadd : String → String → Exec State ℕ
  pub sismember : String → String → Exec State ℕ

-- The documented effect of each command that returns.
pub record Laws (r : Redis) : Type 0 where
  pub xadd_lem :
      (stream : String) (f : Fields) (s : r.State)
      → Returns (r.xadd stream f s) (λ id s'. r.view s' ≡ with_entry stream (id, f) (r.view s))
  -- An append that raises has been applied, or has not.
  pub xadd_raised :
      (stream : String) (f : Fields) (s : r.State)
      → Ends
          (r.xadd stream f s)
          (λ _ _. Unit {0})
          (λ s'.
            (r.view s' ≡ r.view s)
            ⊎ ((id : String) × (r.view s' ≡ with_entry stream (id, f) (r.view s))))
  pub xread_lem :
      (stream last : String) (n : ℕ) (s : r.State)
      → Returns (r.xread stream last n s) (λ es s'.
        (r.view s' ≡ r.view s)
        × ((xs ys : List Entry)
            → (r.view s).entries stream ≡ xs ++ ys
            → last ≡ cursor xs
            → es ≡ take n ys))
  pub xgroup_create_lem :
      (stream group : String) (s : r.State)
      → Returns
          (r.xgroup_create stream group s)
          (λ _ s'. r.view s' ≡ with_group stream group (r.view s))
  -- An error reply changes nothing on the server.
  pub xgroup_create_refused :
      (stream group text : String) (s : r.State)
      → (r.xgroup_create stream group s).0 ≡ err (response_error text)
      → r.view (r.xgroup_create stream group s).1 ≡ r.view s
  pub xreadgroup_new_lem :
      (stream group consumer : String) (n : ℕ) (block : Option ℕ) (s : r.State)
      → Returns (r.xreadgroup_new stream group consumer n block s) (λ es s'.
        (es ≡ take n (fresh_entries stream group (r.view s)))
        × (r.view s' ≡ with_delivery stream group consumer es (r.view s)))
  pub xreadgroup_pending_lem :
      (stream group consumer : String) (n : ℕ) (s : r.State)
      → Returns (r.xreadgroup_pending stream group consumer n s) (λ es s'.
        (es ≡ take n (backlog stream group consumer (r.view s))) × (r.view s' ≡ r.view s))
  pub xack_lem :
      (stream group id : String) (s : r.State)
      → Returns (r.xack stream group id s) (λ _ s'. r.view s' ≡ with_ack stream group id (r.view s))
  pub sadd_lem :
      (key member : String) (s : r.State)
      → Returns (r.sadd key member s) (λ n s'.
        (n ≡ as_count (if (r.view s).members key member then false else true))
        × (r.view s' ≡ with_member key member (r.view s)))
  pub sismember_lem :
      (key member : String) (s : r.State)
      → Returns
          (r.sismember key member s)
          (λ n s'. (n ≡ as_count ((r.view s).members key member)) × (r.view s' ≡ r.view s))

-- A call that returns, and does not raise.
abbrev pub Succeeds : {S A : Type 0} → Result A × S → Type 0
Succeeds (ok a, s) = Unit
Succeeds (err e, s) = ⊥

-- A server that answers: the commands that the liveness theorems need do not raise.
pub record IsUp (r : Redis) : Type 0 where
  pub xadd_up : (stream : String) (f : Fields) (s : r.State) → Succeeds (r.xadd stream f s)
  pub xread_up : (stream last : String) (n : ℕ) (s : r.State) → Succeeds (r.xread stream last n s)
