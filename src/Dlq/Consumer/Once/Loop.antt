-- ===== src/Dlq/Consumer/Once/Loop.antt =====
-- The same invariant through the batch, the poll and the loop of the consumer.
use message_broker_patterns.Base.{
  ℕ, String, ◌≡◌, sym, Bool, true, false, List, [], ◌∷◌, All, All-imp, if◌then◌else◌,
}
use message_broker_patterns.Base.Int.{ℤ}
use message_broker_patterns.Base.Exec.{
  Result, ok, err, Ends, Returns, Ends-and_then, Returns-imp, Returns-and_then, zoom-Ends, and_then,
  ◌>>=◌,
}
use message_broker_patterns.Redis.{Redis, Laws}
use message_broker_patterns.Redis.View.{Entry, Server, with_group}
use message_broker_patterns.Process.{Process, see, ensure_group, ensure_group_lem}
use message_broker_patterns.Dlq.Models.{Payment, from_fields}
use message_broker_patterns.Dlq.Broker.{
  main_stream, dlq_stream, is_processed, read_new, read_pending, ensure_all_groups,
}
use message_broker_patterns.Dlq.Broker.Frames.{
  processed, Grows, is_processed_lem, read_new-Grows, read_pending-Grows,
}
use message_broker_patterns.Dlq.Consumer.{
  Handler, Run, on_process, run_handler, skip_duplicate, handle_message, handle_batch, or_pending,
  poll, loop, run_idempotent_consumer,
}
use message_broker_patterns.Dlq.Consumer.Once.{
  recording, Distinct, log_of, IsOnce, HasDistinct, on_process-IsOnce, Once, then_Once,
  skip_duplicate-Once, run_handler-Once,
}

-- What the other clients do between two polls loses no processed id.
abbrev pub IsFair : (r : Redis) → List (r.State → r.State) → Type 0
IsFair r schedule = All (λ others. (c : r.State) → Grows (r.view c) (r.view (others c))) schedule

module _ {r : Redis} (laws : Laws r) {H : Type 0} where
  module _ (handler : Handler H) (consumer_id group : String) (max_attempts n : ℕ)
      (block_ms : ℤ) where
    -- What the check for a duplicate tells about the server.
    is_processed-Ends :
        (id : String) (s : Run r (List String × H))
        → IsOnce s
        → Ends
            (on_process (is_processed id) s)
            (λ b t. IsOnce t × (b ≡ processed (see t.process) id))
            HasDistinct
    is_processed-Ends id s h =
        zoom-Ends (λ b q. (b ≡ processed (see s.process) id) × (see q ≡ see s.process))
          (λ b t. IsOnce t × (b ≡ processed (see t.process) id)) HasDistinct (λ t. t.process)
          (λ p t. record t { process = p }) s (is_processed id) (is_processed_lem laws id s.process)
          (λ b q e. ((h.0, rw e.1 h.1), rw e.1 e.0)) (λ _. h.0)

    handle_message-Once :
        (e : Entry) (s : Run r (List String × H))
        → IsOnce s
        → Once (handle_message (recording handler) consumer_id group max_attempts n block_ms e s)
    unfolding handle_message
    handle_message-Once (msg_id, fields) s h = decoded (from_fields fields)
      where
        checked :
            (p : Payment) (b : Bool) (t : Run r (List String × H))
            → IsOnce t × (b ≡ processed (see t.process) p.payment_id)
            → Once (
                (if b
                    then skip_duplicate
                        (recording handler)
                        consumer_id
                        group
                        max_attempts
                        n
                        block_ms
                        msg_id
                    else run_handler
                        (recording handler)
                        consumer_id
                        group
                        max_attempts
                        n
                        block_ms
                        msg_id
                        p)
                  t)
        checked p true t k =
            skip_duplicate-Once laws handler consumer_id group max_attempts n block_ms msg_id t k.0
        checked p false t k =
            run_handler-Once laws handler consumer_id group max_attempts n block_ms msg_id p t k.0
              (sym k.1)

        decoded :
            (x : Result Payment)
            → Once (
                and_then
                  (λ p. on_process (is_processed p.payment_id) >>= λ seen.
                    if seen
                    then skip_duplicate
                        (recording handler)
                        consumer_id
                        group
                        max_attempts
                        n
                        block_ms
                        msg_id
                    else run_handler
                        (recording handler)
                        consumer_id
                        group
                        max_attempts
                        n
                        block_ms
                        msg_id
                        p)
                  (x, s))
        decoded (err e) = h.0
        decoded (ok p) =
            Ends-and_then (λ b t. IsOnce t × (b ≡ processed (see t.process) p.payment_id))
              (λ _ t. IsOnce t) HasDistinct HasDistinct _ (on_process (is_processed p.payment_id) s)
              (is_processed-Ends p.payment_id s h) (checked p) (λ _ d. d)

    handle_batch-Once :
        (es : List Entry) (s : Run r (List String × H))
        → IsOnce s
        → Once (handle_batch (recording handler) consumer_id group max_attempts n block_ms es s)
    unfolding handle_batch
    handle_batch-Once [] s h = h
    handle_batch-Once (e ∷ es) s h =
        then_Once _
          (handle_message (recording handler) consumer_id group max_attempts n block_ms e s)
          (handle_message-Once e s h) (λ _ t k. handle_batch-Once es t k)

    or_pending-Once :
        (es : List Entry) (s : Run r (List String × H))
        → IsOnce s
        → Once (or_pending (recording handler) consumer_id group max_attempts n block_ms es s)
    unfolding or_pending
    or_pending-Once [] s h =
        on_process-IsOnce (read_pending group consumer_id n) s
          (read_pending-Grows laws group consumer_id n s.process) h
    or_pending-Once (e ∷ es) s h = h

    poll-Once :
        (s : Run r (List String × H))
        → IsOnce s
        → Once (poll (recording handler) consumer_id group max_attempts n block_ms s)
    unfolding poll
    poll-Once s h =
        then_Once _ (on_process (read_new group consumer_id n block_ms) s)
          (on_process-IsOnce (read_new group consumer_id n block_ms) s
            (read_new-Grows laws group consumer_id n block_ms s.process) h)
          (λ new t k.
            then_Once _
              (or_pending (recording handler) consumer_id group max_attempts n block_ms new t)
              (or_pending-Once new t k) (λ batch u z. handle_batch-Once batch u z))

    loop-Once :
        (schedule : List (r.State → r.State)) (s : Run r (List String × H))
        → IsFair r schedule
        → IsOnce s
        → Once (loop (recording handler) consumer_id group max_attempts n block_ms schedule s)
    unfolding loop
    loop-Once [] s fair h = h
    loop-Once (others ∷ rest) s fair h =
        let before = record s { process = record s.process { client = others s.process.client } } in
        then_Once _ (poll (recording handler) consumer_id group max_attempts n block_ms before)
          (poll-Once before (h.0, All-imp _ _ (fair.0 s.process.client) (log_of s) h.1))
          (λ _ t k. loop-Once rest t fair.1 k)

    ensure_all_groups-Grows :
        (p : Process r) → Returns (ensure_all_groups group p) (λ _ q. Grows (see p) (see q))
    unfolding ensure_all_groups
    ensure_all_groups-Grows p =
        Returns-and_then (λ _ q. Grows (see p) (see q)) (λ _ q. Grows (see p) (see q)) _
          (ensure_group main_stream group p) (group-Grows main_stream p)
          (λ _ q g.
            Returns-and_then (λ _ w. Grows (see q) (see w)) (λ _ w. Grows (see p) (see w)) _
              (ensure_group dlq_stream group q) (group-Grows dlq_stream q)
              (λ _ w k id h. k id (g id h)))
      where
        kept :
            (b : Bool) (stream : String) (v : Server)
            → Grows v (if b then with_group stream group v else v)
        kept true stream v id h = h
        kept false stream v id h = h

        group-Grows :
            (stream : String) (p : Process r)
            → Returns (ensure_group stream group p) (λ _ q. Grows (see p) (see q))
        group-Grows stream p =
            Returns-imp (λ b q. see q ≡ (if b then with_group stream group (see p) else see p))
              (λ _ q. Grows (see p) (see q)) (ensure_group stream group p)
              (ensure_group_lem laws stream group p)
              (λ b q e id h. rw e (kept b stream (see p) id h))

    run-Once :
        (schedule : List (r.State → r.State)) (s : Run r (List String × H))
        → IsFair r schedule
        → IsOnce s
        → Once (
            run_idempotent_consumer
              (recording handler)
              consumer_id
              group
              max_attempts
              n
              block_ms
              schedule
              s)
    unfolding run_idempotent_consumer
    run-Once schedule s fair h =
        then_Once _ (on_process (ensure_all_groups group) s)
          (on_process-IsOnce (ensure_all_groups group) s (ensure_all_groups-Grows s.process) h)
          (λ _ t k.
            then_Once _
              (loop (recording handler) consumer_id group max_attempts n block_ms schedule t)
              (loop-Once schedule t fair k) (λ _ u z. z))

    -- Over one run of the consumer, with any handler, and however the run ends, the handler has
    -- returned at most once for each payment id: no id stands twice in the record of its returns. The
    -- server obeys its laws, and the other clients remove no id from the processed set.
    pub handled_at_most_once :
        (schedule : List (r.State → r.State)) (s : Run r (List String × H))
        → IsFair r schedule
        → log_of s ≡ []
        → Distinct (
            log_of
              (run_idempotent_consumer
                (recording handler)
                consumer_id
                group
                max_attempts
                n
                block_ms
                schedule
                s).1)
    handled_at_most_once schedule s fair empty =
        ended
          (run_idempotent_consumer (recording handler) consumer_id group max_attempts n block_ms
            schedule s)
          (run-Once schedule s fair (rw empty tt, rw empty tt))
      where
        ended : (x : Result ℕ × Run r (List String × H)) → Once x → Distinct (log_of x.1)
        ended (ok k, t) h = h.0
        ended (err e, t) h = h
