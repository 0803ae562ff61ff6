-- ===== src/Dlq/Naive/Stuck.antt =====
-- A poll of the baseline whose consumer has a payment at the head of its backlog that always fails.
use message_broker_patterns.Base.{
  ℕ, suc, ◌+◌, String, ◌≡◌, refl, ap, ◌∙◌, Bool, true, false, List, [], ◌∷◌, take, arith, eq_iff,
}
use message_broker_patterns.Base.Dict.{Dict, lookup, insert, lookup-insert}
use message_broker_patterns.Base.Exec.{
  Exec, Exn, cancelled, Result, ok, err, and_then, Returns, Returns-imp,
}
use message_broker_patterns.Redis.{Redis, Laws}
use message_broker_patterns.Redis.View.{Fields, Entry, backlog}
use message_broker_patterns.Process.{Process, see, on_client, on_client-Returns}
use message_broker_patterns.Dlq.Models.{Payment, from_fields}
use message_broker_patterns.Dlq.Broker.{main_stream, read_pending}
use message_broker_patterns.Dlq.Consumer.{Handler}
use message_broker_patterns.Dlq.Naive.{
  NaiveRun, or_zero, attempts_for, after_handler, run_handler, handle_batch, or_new, poll,
}

-- What `except Exception` catches.
abbrev pub is_exception : Exn → Bool
is_exception cancelled = false
is_exception _ = true

counted : (key : String) (k : ℕ) (d : Dict ℕ) → or_zero (lookup key (insert key k d)) ≡ k
counted key k d = ground (arith, lookup-insert key key k d, eq_iff key key)

-- The handler fails on the payment, whatever it has done before.
abbrev pub Poisonous : {H : Type 0} → Handler H → String → Payment → Type 0
Poisonous {H} handler consumer p =
    (h : H) → (e : Exn) × ((handler consumer p h).0 ≡ err e) × (is_exception e ≡ true)

module _ {r : Redis} {H : Type 0} (handler : Handler H) (consumer group : String) (n : ℕ) where
  after_failure : NaiveRun r H → Payment → NaiveRun r H
  after_failure s p = record s {
    failures = insert p.payment_id (attempts_for p.payment_id s + 1) s.failures;
  }

  caught :
      (msg_id : String) (p : Payment) (rest : Exec (NaiveRun r H) Unit) (e : Exn) (s : NaiveRun r H)
      → is_exception e ≡ true
      → after_handler handler consumer group n msg_id p rest (err e) s ≡ (ok tt, after_failure s p)
  unfolding after_handler after_failure
  caught msg_id p rest e s h = ground arith

  -- The failing message is at the head of the backlog, nothing has been processed, and every poll so
  -- far has been one attempt.
  pub record IsStuck (p : Payment) (backlog' : List Entry) (s : NaiveRun r H) : Type 0 where
    pub same_backlog : backlog main_stream group consumer (see s.process) ≡ backlog'
    pub nothing_processed : s.processed ≡ []
    pub each_poll : attempts_for p.payment_id s ≡ s.polls

  batch_stops :
      (p : Payment) (id : String) (fields : Fields) (es : List Entry) (s : NaiveRun r H)
      → from_fields fields ≡ ok p
      → Poisonous handler consumer p
      → handle_batch handler consumer group n ((id, fields) ∷ es) s ≡ (
        ok tt,
        after_failure (record s { handler_state = (handler consumer p s.handler_state).1 }) p,
      )
  unfolding handle_batch run_handler
  batch_stops p id fields es s reads fails =
      let (e, raises, k) = fails s.handler_state in
      rw (reads, raises)
        (caught id p (handle_batch handler consumer group n es) e
          (record s { handler_state = (handler consumer p s.handler_state).1 }) k)

module _ {r : Redis} {H : Type 0} (laws : Laws r) (handler : Handler H) (consumer group : String)
    (m : ℕ) (p : Payment) (id : String) (fields : Fields) (rest : List Entry) where
  abbrev pub Stuck : NaiveRun r H → Type 0
  Stuck s = IsStuck handler consumer group (suc m) p ((id, fields) ∷ rest) s

  pending_lem :
      (s : NaiveRun r H)
      → Stuck s
      → Returns
          (read_pending group consumer (suc m) s.process)
          (λ es q. (es ≡ (id, fields) ∷ take m rest) × (see q ≡ see s.process))
  unfolding read_pending
  pending_lem s h =
      Returns-imp
        (λ es q.
          (es ≡ take (suc m) (backlog main_stream group consumer (see s.process)))
          × (see q ≡ see s.process))
        (λ es q. (es ≡ (id, fields) ∷ take m rest) × (see q ≡ see s.process))
        (on_client (r.xreadgroup_pending main_stream group consumer (suc m)) s.process)
        (on_client-Returns
          (λ es v.
            (es ≡ take (suc m) (backlog main_stream group consumer (see s.process)))
            × (v ≡ see s.process))
          (r.xreadgroup_pending main_stream group consumer (suc m)) s.process
          (laws.xreadgroup_pending_lem main_stream group consumer (suc m) s.process.client))
        (λ es q k. (k.0 ∙ ap (take (suc m)) h.same_backlog, k.1))

  pub poll-Stuck :
      (s : NaiveRun r H)
      → from_fields fields ≡ ok p
      → Poisonous handler consumer p
      → Stuck s
      → Returns (poll handler consumer group (suc m) s) (λ _ t. Stuck t × (t.polls ≡ s.polls + 1))
  unfolding poll or_new after_failure attempts_for
  poll-Stuck s reads fails h = go (read_pending group consumer (suc m) s.process) (pending_lem s h)
    where
      go :
          (x : Result (List Entry) × Process r)
          → Returns x (λ es q. (es ≡ (id, fields) ∷ take m rest) × (see q ≡ see s.process))
          → Returns
              (and_then
                (λ pending t.
                  and_then
                    (handle_batch handler consumer group (suc m))
                    (or_new handler consumer group (suc m) pending t))
                (x.0, record s { polls = s.polls + 1; process = x.1 }))
              (λ _ t. Stuck t × (t.polls ≡ s.polls + 1))
      go (ok es, q) (e, same) =
          rw
            (
              e,
              batch_stops handler consumer group (suc m) p id fields (take m rest)
                  (record s { polls = s.polls + 1; process = q }) reads fails,
            )
            (
              record {
                same_backlog = ap (backlog main_stream group consumer) same ∙ h.same_backlog;
                nothing_processed = h.nothing_processed;
                each_poll =
                    counted p.payment_id (attempts_for p.payment_id s + 1) s.failures
                    ∙ ap (λ k. k + 1) h.each_poll;
              },
              refl,
            )
      go (err e, q) k = tt
