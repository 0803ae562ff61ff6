-- ===== src/Idempotency/Shared/Calls.antt =====
-- What a call answers and leaves on the server, by what each of its commands does.
use message_broker_patterns.Base.{
  ℕ, ◌+◌, String, ◌≡◌, refl, Bool, true, false, not, Option, some, ◌∙◌, ap, subst, sym, ltb,
  if◌then◌else◌,
}
use message_broker_patterns.Base.Exec.{ok, Returns, Returns-and_then, and_then}
use message_broker_patterns.Redis.View.{as_count}
use message_broker_patterns.Idempotency.Shared.{RedisIdempotencyStore, mark_if_new, is_processed}
use message_broker_patterns.Idempotency.Shared.Commands.{
  Client, Laws, Window, live, has, added, with_deadline,
}

counted : (b : Bool) → ltb 0 (as_count (if b then false else true)) ≡ not b
counted true = refl
counted false = refl

counted_plain : (b : Bool) → ltb 0 (as_count b) ≡ b
counted_plain true = refl
counted_plain false = refl

module _ {c : Client} (laws : Laws c) (store : RedisIdempotencyStore) where
  -- From the set that SADD leaves, by what the others keep, to the set that PEXPIRE leaves.
  pub mark_if_new-Returns :
      (F G H : Option Window → Type 0) (k : String) (now later : ℕ) (others : c.State → c.State)
      (s : c.State)
      → F (some (added k (live now (c.view s store.key))))
      → ((t : c.State) → F (c.view t store.key) → G (c.view (others t) store.key))
      → ((w : Option Window)
          → G w
          → H (with_deadline (later + c.milliseconds store.ttl) (live later w)))
      → Returns
          (mark_if_new c store k now others later s)
          (λ won t. (won ≡ not (has k (live now (c.view s store.key)))) × H (c.view t store.key))
  unfolding mark_if_new
  mark_if_new-Returns F G H k now later others s f g h =
      Returns-and_then
        (λ n t.
          (n ≡ as_count (if there then false else true))
          × (c.view t store.key ≡ some (added k (live now (c.view s store.key)))))
        (λ won t. (won ≡ not there) × H (c.view t store.key))
        (λ n t.
          and_then (λ _ u. (ok (ltb 0 n), u)) (c.pexpire_nx later store.key store.ttl (others t)))
        (c.sadd now store.key k s) (laws.sadd_lem now store.key k s)
        (λ n t q. expire n t (ap (ltb 0) q.0 ∙ counted there) (g t (subst F (sym q.1) f)))
    where
      there : Bool
      there = has k (live now (c.view s store.key))

      expire :
          (n : ℕ) (t : c.State)
          → ltb 0 n ≡ not there
          → G (c.view (others t) store.key)
          → Returns
              (and_then
                (λ _ u. (ok (ltb 0 n), u))
                (c.pexpire_nx later store.key store.ttl (others t)))
              (λ won u. (won ≡ not there) × H (c.view u store.key))
      expire n t won kept =
          Returns-and_then
            (λ _ u.
              c.view u store.key
              ≡ with_deadline (later + c.milliseconds store.ttl)
                  (live later (c.view (others t) store.key)))
            (λ won u. (won ≡ not there) × H (c.view u store.key)) (λ _ u. (ok (ltb 0 n), u))
            (c.pexpire_nx later store.key store.ttl (others t))
            (laws.pexpire_nx_lem later store.key store.ttl (others t))
            (λ _ u q. (won, subst H (sym q) (h (c.view (others t) store.key) kept)))

  pub is_processed-Returns :
      (k : String) (now : ℕ) (s : c.State)
      → Returns (is_processed c store k now s) (λ seen t.
        (seen ≡ has k (live now (c.view s store.key)))
        × (c.view t store.key ≡ live now (c.view s store.key)))
  unfolding is_processed
  is_processed-Returns k now s =
      Returns-and_then
        (λ n t.
          (n ≡ as_count (has k (live now (c.view s store.key))))
          × (c.view t store.key ≡ live now (c.view s store.key)))
        (λ seen t.
          (seen ≡ has k (live now (c.view s store.key)))
          × (c.view t store.key ≡ live now (c.view s store.key)))
        (λ n t. (ok (ltb 0 n), t)) (c.sismember now store.key k s)
        (laws.sismember_lem now store.key k s)
        (λ n t q. (ap (ltb 0) q.0 ∙ counted_plain (has k (live now (c.view s store.key))), q.1))
