-- ===== src/Idempotency/Shared/Truncation.antt =====
-- A ttl of less than a millisecond is accepted by the constructor and sent as none at all.
use message_broker_patterns.Base.{
  ℕ, ◌+◌, ◌≤◌, ◌<◌, String, ◌≡◌, ◌∙◌, ap, not, true, none, some, arith,
}
use message_broker_patterns.Base.Int.{pos}
use message_broker_patterns.Base.Exec.{ok, Returns, Returns-and_then, Returns-imp, and_then}
use message_broker_patterns.Idempotency.{validate_ttl}
use message_broker_patterns.Idempotency.Shared.{RedisIdempotencyStore, new_store, mark_if_new}
use message_broker_patterns.Idempotency.Shared.Commands.{
  Client, Laws, live, has, added, with_deadline,
}
use message_broker_patterns.Idempotency.Shared.Calls.{mark_if_new-Returns}

made :
    (key : String) (n : ℕ) (store : RedisIdempotencyStore)
    → new_store key (pos n) ≡ ok store
    → store ≡ record { key = key; ttl = pos n }
unfolding new_store validate_ttl
made key n store h = ground arith

module _ {c : Client} (laws : Laws c) (key k : String) (n : ℕ) (tiny : n < 1000) where
  abbrev store : RedisIdempotencyStore
  store = record { key = key; ttl = pos n }

  over :
      (later now' : ℕ)
      → later ≤ now'
      → live now' (with_deadline (later + c.milliseconds (pos n)) (some (added k none))) ≡ none
  over later now' le = rw (laws.milliseconds_lem n tiny) (ground arith)

  twice :
      (now later now' later' : ℕ) (s : c.State)
      → later ≤ now'
      → live now (c.view s key) ≡ none
      → Returns
          (and_then
            (λ _. mark_if_new c store k now' (λ t. t) later')
            (mark_if_new c store k now (λ t. t) later s))
          (λ won _. won ≡ true)
  twice now later now' later' s le empty =
      Returns-and_then
        (λ won t. (won ≡ not (has k (live now (c.view s key)))) × (live now' (c.view t key) ≡ none))
        (λ won _. won ≡ true) (λ _. mark_if_new c store k now' (λ t. t) later')
        (mark_if_new c store k now (λ t. t) later s)
        (mark_if_new-Returns laws store (λ w. w ≡ some (added k none))
          (λ w. w ≡ some (added k none)) (λ w. live now' w ≡ none) k now later (λ t. t) s
          (ap (λ v. some (added k v)) empty) (λ t e. e) (λ w e. rw e (over later now' le)))
        (λ _ t q.
          Returns-imp (λ won u. (won ≡ not (has k (live now' (c.view t key)))) × Unit {0})
            (λ won _. won ≡ true) (mark_if_new c store k now' (λ t. t) later' t)
            (mark_if_new-Returns laws store (λ _. Unit) (λ _. Unit) (λ _. Unit) k now' later'
              (λ t. t) t tt (λ _ _. tt) (λ _ _. tt))
            (λ won u p. p.0 ∙ ap (λ v. not (has k v)) q.1))

-- A store that is made with less than a millisecond (a thousand microseconds) does not dedup: two
-- claims of one key in a row, on a server that holds no such set, are both won if both return.
pub sub_millisecond_forgets :
    {c : Client} (laws : Laws c) (key k : String) (n : ℕ) (store : RedisIdempotencyStore)
    (now later now' later' : ℕ) (s : c.State)
    → n < 1000
    → new_store key (pos n) ≡ ok store
    → later ≤ now'
    → live now (c.view s key) ≡ none
    → Returns
        (and_then
          (λ _. mark_if_new c store k now' (λ t. t) later')
          (mark_if_new c store k now (λ t. t) later s))
        (λ won _. won ≡ true)
sub_millisecond_forgets laws key k n store now later now' later' s tiny h le empty =
    rw (made key n store h) (twice laws key k n tiny now later now' later' s le empty)
