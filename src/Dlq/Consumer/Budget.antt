-- ===== src/Dlq/Consumer/Budget.antt =====
-- The in-memory attempt counters: between messages none has reached the budget.
use message_broker_patterns.Base.{
  ℕ, ◌+◌, ◌<◌, String, ◌≡◌, ◌≢◌, ◌⊎◌, refl, Bool, true, false, List, [], ◌∷◌, none, some, arith,
  eq_iff, Bool-cases, inl, inr, if◌then◌else◌, ltb, ltb→lt,
}
use message_broker_patterns.Base.Int.{ℤ}
use message_broker_patterns.Base.Dict.{Dict, lookup, insert, erase, lookup-insert, lookup-erase}
use message_broker_patterns.Base.Exec.{
  Exec, Exn, Result, ok, err, cancelled, type_name, Returns, Returns-and_then, and_then, modify,
  pure, ◌>>◌, ◌>>=◌,
}
use message_broker_patterns.Redis.{Redis}
use message_broker_patterns.Redis.View.{Entry}
use message_broker_patterns.Process.{Process}
use message_broker_patterns.Dlq.Models.{Payment, from_fields}
use message_broker_patterns.Dlq.Broker.{
  ack, move_to_dlq, is_processed, mark_processed, read_new, read_pending, ensure_all_groups,
}
use message_broker_patterns.Dlq.Consumer.{
  Handler, Run, count_or, on_process, on_failure, on_success, after_handler, run_handler,
  skip_duplicate, handle_message, handle_batch, or_pending, poll, loop, run_idempotent_consumer,
}

-- Erasing a key leaves the bounds of the others.
erase-below :
    (bound : ℕ) (id : String) (attempts : Dict ℕ)
    → ((j : String) (k : ℕ) → j ≢ id → lookup j attempts ≡ some k → k < bound)
    → (j : String) (k : ℕ) → lookup j (erase id attempts) ≡ some k
    → k < bound
erase-below bound id attempts h j k e =
    ground (arith, lookup-erase id j attempts, eq_iff id j, λ (ne : j ≢ id). h j k ne)

module _ {r : Redis} {H : Type 0} (max_attempts : ℕ) where
  -- Every counter is below the budget.
  abbrev pub IsBounded : Run r H → Type 0
  IsBounded s = (id : String) (k : ℕ) → lookup id s.attempts ≡ some k → k < max_attempts

  abbrev Bounds : {A : Type 0} → Result A × Run r H → Type 0
  Bounds x = Returns x (λ _ t. IsBounded t)

  -- A call of the broker touches no counter.
  on_process-IsBounded :
      {A B : Type 0} (m : Exec (Process r) A) (f : A → Exec (Run r H) B) (s : Run r H)
      → ((a : A) (q : Process r) → Bounds (f a (record s { process = q })))
      → Bounds (and_then f (on_process m s))
  on_process-IsBounded {A} m f s k = go (m s.process)
    where
      go : (x : Result A × Process r) → Bounds (and_then f (x.0, record s { process = x.1 }))
      go (ok a, q) = k a q
      go (err e, q) = tt

  insert-IsBounded :
      (id : String) (k : ℕ) (s : Run r H)
      → IsBounded s
      → k < max_attempts
      → IsBounded (record s { attempts = insert id k s.attempts })
  insert-IsBounded id k s h less j i e =
      ground (arith, lookup-insert id j k s.attempts, eq_iff id j, h j i)

  erased :
      (id : String) (s : Run r H)
      → IsBounded s
      → IsBounded (record s { attempts = erase id s.attempts })
  erased id s h = erase-below max_attempts id s.attempts (λ j k _. h j k)

  module _ (handler : Handler H) (consumer_id group : String) (n : ℕ) (block_ms : ℤ) where
    on_failure-IsBounded :
        (msg_id : String) (p : Payment) (exc : Exn) (s : Run r H)
        → IsBounded s
        → Bounds (on_failure handler consumer_id group max_attempts n block_ms msg_id p exc s)
    unfolding on_failure
    on_failure-IsBounded msg_id p exc s h = split (Bool-cases (ltb attempt max_attempts))
      where
        attempt : ℕ
        attempt = count_or (lookup msg_id s.attempts) + 1

        counted : Run r H
        counted = record s { attempts = insert msg_id attempt s.attempts }

        move : Exec (Process r) String
        move = move_to_dlq group msg_id p (type_name exc) attempt

        split :
            (ltb attempt max_attempts ≡ true) ⊎ (ltb attempt max_attempts ≡ false)
            → Bounds (
                (if ltb attempt max_attempts
                    then pure tt
                    else on_process move
                      >> modify (λ t. record t { attempts = erase msg_id t.attempts }))
                  counted)
        split (inl less) =
            rw less (insert-IsBounded msg_id attempt s h (ltb→lt attempt max_attempts less))
        split (inr spent) = rw spent (
            on_process-IsBounded move _ counted (λ _ q.
              erase-below max_attempts msg_id counted.attempts (λ j k ne e.
                ground (arith, lookup-insert msg_id j attempt s.attempts, eq_iff msg_id j, h j k))))

    on_success-IsBounded :
        (msg_id : String) (p : Payment) (s : Run r H)
        → IsBounded s
        → Bounds (on_success handler consumer_id group max_attempts n block_ms msg_id p s)
    unfolding on_success
    on_success-IsBounded msg_id p s h =
        on_process-IsBounded (mark_processed p.payment_id) _ s (λ _ q.
          on_process-IsBounded (ack group msg_id) _ (record s { process = q })
            (λ _ w. erased msg_id s h))

    after_handler-IsBounded :
        (msg_id : String) (p : Payment) (result : Result Unit) (s : Run r H)
        → IsBounded s
        → Bounds (after_handler handler consumer_id group max_attempts n block_ms msg_id p result s)
    unfolding after_handler
    after_handler-IsBounded msg_id p (ok u) s h = on_success-IsBounded msg_id p s h
    after_handler-IsBounded msg_id p (err cancelled) s h = tt
    after_handler-IsBounded msg_id p (err exc) s h = on_failure-IsBounded msg_id p exc s h

    handle_message-IsBounded :
        (e : Entry) (s : Run r H)
        → IsBounded s
        → Bounds (handle_message handler consumer_id group max_attempts n block_ms e s)
    unfolding handle_message run_handler skip_duplicate
    handle_message-IsBounded (msg_id, fields) s h = decoded (from_fields fields)
      where
        checked :
            (p : Payment) (b : Bool) (q : Process r)
            → Bounds (
                (if b
                    then skip_duplicate handler consumer_id group max_attempts n block_ms msg_id
                    else run_handler handler consumer_id group max_attempts n block_ms msg_id p)
                  (record s { process = q }))
        checked p true q =
            on_process-IsBounded (ack group msg_id) _ (record s { process = q }) (λ _ w. h)
        checked p false q =
            let (result, st) = handler consumer_id p s.handler_state in
            after_handler-IsBounded msg_id p result (record s { process = q; handler_state = st }) h

        decoded :
            (x : Result Payment)
            → Bounds (
                and_then
                  (λ p. on_process (is_processed p.payment_id) >>= λ seen.
                    if seen
                    then skip_duplicate handler consumer_id group max_attempts n block_ms msg_id
                    else run_handler handler consumer_id group max_attempts n block_ms msg_id p)
                  (x, s))
        decoded (err e) = tt
        decoded (ok p) = on_process-IsBounded (is_processed p.payment_id) _ s (checked p)

    handle_batch-IsBounded :
        (es : List Entry) (s : Run r H)
        → IsBounded s
        → Bounds (handle_batch handler consumer_id group max_attempts n block_ms es s)
    unfolding handle_batch
    handle_batch-IsBounded [] s h = h
    handle_batch-IsBounded (e ∷ es) s h =
        Returns-and_then (λ _ t. IsBounded t) (λ _ t. IsBounded t) _
          (handle_message handler consumer_id group max_attempts n block_ms e s)
          (handle_message-IsBounded e s h) (λ _ t k. handle_batch-IsBounded es t k)

    poll-IsBounded :
        (s : Run r H)
        → IsBounded s
        → Bounds (poll handler consumer_id group max_attempts n block_ms s)
    unfolding poll or_pending
    poll-IsBounded s h = on_process-IsBounded (read_new group consumer_id n block_ms) _ s pending
      where
        pending :
            (es : List Entry) (q : Process r)
            → Bounds (
                and_then (handle_batch handler consumer_id group max_attempts n block_ms) (
                  or_pending handler consumer_id group max_attempts n block_ms es
                    (record s { process = q })))
        pending [] q =
            on_process-IsBounded (read_pending group consumer_id n) _ (record s { process = q })
              (λ batch w. handle_batch-IsBounded batch (record s { process = w }) h)
        pending (e ∷ es) q = handle_batch-IsBounded (e ∷ es) (record s { process = q }) h

    loop-IsBounded :
        (schedule : List (r.State → r.State)) (s : Run r H)
        → IsBounded s
        → Bounds (loop handler consumer_id group max_attempts n block_ms schedule s)
    unfolding loop
    loop-IsBounded [] s h = h
    loop-IsBounded (others ∷ rest) s h =
        let before = record s { process = record s.process { client = others s.process.client } } in
        Returns-and_then (λ _ t. IsBounded t) (λ _ t. IsBounded t) _
          (poll handler consumer_id group max_attempts n block_ms before) (poll-IsBounded before h)
          (λ _ t k. loop-IsBounded rest t k)

    -- When a run of the consumer that starts with no counters returns, every counter is below the
    -- retry budget, whatever the server, the other clients and the handler do: a message that has
    -- failed as often as the budget allows has been moved to the dead letters, not kept.
    pub run-IsBounded :
        (schedule : List (r.State → r.State)) (s : Run r H)
        → s.attempts ≡ []
        → Returns
            (run_idempotent_consumer handler consumer_id group max_attempts n block_ms schedule s)
            (λ _ t. IsBounded t)
    unfolding run_idempotent_consumer
    run-IsBounded schedule s empty = on_process-IsBounded (ensure_all_groups group) _ s (λ _ q.
        Returns-and_then (λ _ t. IsBounded t) (λ _ t. IsBounded t) _
          (loop handler consumer_id group max_attempts n block_ms schedule
            (record s { process = q }))
          (loop-IsBounded schedule (record s { process = q })
            (λ id k e. cc (empty, e, none_empty id)))
          (λ _ t k. k))
      where
        none_empty : (id : String) → lookup {V = ℕ} id [] ≡ none
        none_empty id = refl
