-- ===== src/Dlq/Consumer/Outcomes.antt =====
-- What becomes of one delivered message: a duplicate, a success, and a failure within the budget or
-- at its end.
use message_broker_patterns.Base.{
  ℕ, ◌+◌, ◌<◌, ◌≤◌, String, ◌≡◌, ◌⊎◌, refl, sym, ap, ◌∙◌, Bool, true, false, List, none, some,
  arith, eq_iff, Bool-cases, inl, inr, if◌then◌else◌, ltb,
}
use mathlib.Core.Path.{subst}
use message_broker_patterns.Base.Int.{ℤ}
use message_broker_patterns.Base.Dict.{lookup, insert, erase, lookup-insert, lookup-erase}
use message_broker_patterns.Base.Exec.{
  Exec, Exn, Result, ok, err, cancelled, type_name, Returns, Returns-and_then, Returns-imp,
  zoom-Ends, modify, pure, ◌>>◌,
}
use message_broker_patterns.Redis.{Redis, Laws}
use message_broker_patterns.Redis.View.{Server, with_ack, with_member, with_entry}
use message_broker_patterns.Process.{Process, see}
use message_broker_patterns.Dlq.Models.{Payment, from_fields}
use message_broker_patterns.Dlq.Broker.{
  main_stream, dlq_stream, processed_set, dead_letter, ack, move_to_dlq, is_processed,
  mark_processed,
}
use message_broker_patterns.Dlq.Broker.Frames.{
  processed, ack_lem, is_processed_lem, mark_processed_lem, move_to_dlq_lem,
}
use message_broker_patterns.Dlq.Consumer.{
  Handler, Run, count_or, on_process, on_failure, on_success, after_handler, run_handler,
  skip_duplicate, handle_message,
}

module _ {r : Redis} {H : Type 0} where
  -- A call of the broker, seen from the run.
  pub on_process-Returns {ℓ} :
      {A : Type 0} (F : A → Run r H → Type ℓ) (m : Exec (Process r) A) (s : Run r H)
      → Returns (m s.process) (λ a q. F a (record s { process = q }))
      → Returns (on_process m s) F
  on_process-Returns F m s h =
      zoom-Ends (λ a q. F a (record s { process = q })) F (λ _. Unit) (λ t. t.process)
        (λ p t. record t { process = p }) s m h (λ a q k. k) (λ _. tt)

  -- The number of times that the message has failed in this run.
  abbrev pub failures : String → Run r H → ℕ
  failures msg_id s = count_or (lookup msg_id s.attempts)

  -- After a failure: within the budget the server is left alone, so that the message stays pending;
  -- at its end the message is acknowledged and stands in the dead-letter stream.
  abbrev pub Parked : String → String → Payment → Exn → ℕ → Run r H → Run r H → Type 0
  Parked group msg_id p exc max_attempts s t =
      (failures msg_id s + 1 < max_attempts
        → (see t.process ≡ see s.process)
          × (lookup msg_id t.attempts ≡ some (failures msg_id s + 1)))
      × (max_attempts ≤ failures msg_id s + 1
          → ((dlq_id : String) × (see t.process
                ≡ with_entry dlq_stream
                    (dlq_id, dead_letter p (type_name exc) (failures msg_id s + 1))
                    (with_ack main_stream group msg_id (see s.process))))
            × (lookup msg_id t.attempts ≡ none))

module _ {r : Redis} (laws : Laws r) {H : Type 0} where
  module _ (handler : Handler H) (consumer_id group : String) (max_attempts n : ℕ)
      (block_ms : ℤ) where
    on_failure-Parked :
        (msg_id : String) (p : Payment) (exc : Exn) (s : Run r H)
        → Returns
            (on_failure handler consumer_id group max_attempts n block_ms msg_id p exc s)
            (λ _ t. Parked group msg_id p exc max_attempts s t)
    unfolding on_failure
    on_failure-Parked msg_id p exc s = split (Bool-cases (ltb attempt max_attempts))
      where
        attempt : ℕ
        attempt = failures msg_id s + 1

        counted : Run r H
        counted = record s { attempts = insert msg_id attempt s.attempts }

        move : Exec (Process r) String
        move = move_to_dlq group msg_id p (type_name exc) attempt

        letter : String → Server
        letter i =
            with_entry dlq_stream (i, dead_letter p (type_name exc) attempt)
              (with_ack main_stream group msg_id (see s.process))

        split :
            (ltb attempt max_attempts ≡ true) ⊎ (ltb attempt max_attempts ≡ false)
            → Returns
                ((if ltb attempt max_attempts
                    then pure tt
                    else on_process move
                      >> modify (λ t. record t { attempts = erase msg_id t.attempts }))
                  counted)
                (λ _ t. Parked group msg_id p exc max_attempts s t)
        split (inl less) = rw less (
          (λ _. (
            refl,
            ground (arith, lookup-insert msg_id msg_id attempt s.attempts, eq_iff msg_id msg_id),
          )),
          λ h. absurd (ground arith),
        )
        split (inr spent) = rw spent (
            Returns-and_then (λ i t. (see t.process ≡ letter i) × (t.attempts ≡ counted.attempts))
              (λ _ t. Parked group msg_id p exc max_attempts s t) _ (on_process move counted)
              (on_process-Returns
                (λ i t. (see t.process ≡ letter i) × (t.attempts ≡ counted.attempts)) move counted
                (Returns-imp (λ i q. see q ≡ letter i) _ (move counted.process)
                  (move_to_dlq_lem laws group msg_id (type_name exc) p attempt counted.process)
                  (λ i q e. (e, refl))))
              (λ i t k. (
                (λ h. absurd (ground arith)),
                λ h. (
                  (i, k.0),
                  ground (arith, lookup-erase msg_id msg_id t.attempts, eq_iff msg_id msg_id),
                ),
              )))

    -- What a run knows of its handler's call: its result, and the state that it left.
    abbrev called : Payment → Run r H → Result Unit × H
    called p s = handler consumer_id p s.handler_state

    -- What became of a message whose payment was decoded, by the check and by the handler's result.
    abbrev pub Outcome : String → Payment → Run r H → Bool → Result Unit → Run r H → Type 0
    Outcome msg_id p s true result t =
        (see t.process ≡ with_ack main_stream group msg_id (see s.process))
        × (t.handler_state ≡ s.handler_state)
        × (t.total_processed ≡ s.total_processed)
    Outcome msg_id p s false (ok _) t =
        (see t.process
          ≡ with_ack main_stream group msg_id
              (with_member processed_set p.payment_id (see s.process)))
        × (t.handler_state ≡ (called p s).1)
        × (t.total_processed ≡ s.total_processed + 1)
    Outcome msg_id p s false (err exc) t = Parked group msg_id p exc max_attempts s t

    on_success_lem :
        (msg_id : String) (p : Payment) (s : Run r H)
        → Returns (on_success handler consumer_id group max_attempts n block_ms msg_id p s) (λ _ t.
          (see t.process
            ≡ with_ack main_stream group msg_id
                (with_member processed_set p.payment_id (see s.process)))
          × (t.handler_state ≡ s.handler_state)
          × (t.total_processed ≡ s.total_processed + 1))
    unfolding on_success
    on_success_lem msg_id p s =
        let marked = with_member processed_set p.payment_id (see s.process) in
        let Same = λ (t : Run r H).
          (t.handler_state ≡ s.handler_state) × (t.total_processed ≡ s.total_processed) in
        Returns-and_then (λ _ t. (see t.process ≡ marked) × Same t) _ _
          (on_process (mark_processed p.payment_id) s)
          (on_process-Returns (λ _ t. (see t.process ≡ marked) × Same t)
            (mark_processed p.payment_id) s
            (Returns-imp (λ _ q. see q ≡ marked) _ (mark_processed p.payment_id s.process)
              (mark_processed_lem laws p.payment_id s.process) (λ _ q e. (e, (refl, refl)))))
          (λ _ t h.
            Returns-and_then
              (λ _ u. (see u.process ≡ with_ack main_stream group msg_id marked) × Same u) _ _
              (on_process (ack group msg_id) t)
              (on_process-Returns
                (λ _ u. (see u.process ≡ with_ack main_stream group msg_id marked) × Same u)
                (ack group msg_id) t
                (Returns-imp (λ _ q. see q ≡ with_ack main_stream group msg_id (see t.process)) _
                  (ack group msg_id t.process) (ack_lem laws group msg_id t.process)
                  (λ _ q e. (e ∙ ap (with_ack main_stream group msg_id) h.0, h.1))))
              (λ _ u k. (k.0, k.1.0, ap (λ j. j + 1) k.1.1)))

    after_handler-Outcome :
        (msg_id : String) (p : Payment) (result : Result Unit) (h : H) (s : Run r H)
        → called p s ≡ (result, h)
        → Returns
            (after_handler handler consumer_id group max_attempts n block_ms msg_id p result
              (record s { handler_state = h }))
            (λ _ t. Outcome msg_id p s false result t)
    unfolding after_handler
    after_handler-Outcome msg_id p (ok u) h s e =
        Returns-imp _ (λ _ t. Outcome msg_id p s false (ok u) t)
          (on_success handler consumer_id group max_attempts n block_ms msg_id p
            (record s { handler_state = h }))
          (on_success_lem msg_id p (record s { handler_state = h }))
          (λ _ t k. (k.0, k.1 ∙ ap (λ x. x.1) (sym e), k.2))
    after_handler-Outcome msg_id p (err cancelled) h s e = tt
    after_handler-Outcome msg_id p (err exc) h s e =
        on_failure-Parked msg_id p exc (record s { handler_state = h })

    skip_duplicate-Outcome :
        (msg_id : String) (p : Payment) (result : Result Unit) (s : Run r H)
        → Returns
            (skip_duplicate handler consumer_id group max_attempts n block_ms msg_id s)
            (λ _ t. Outcome msg_id p s true result t)
    unfolding skip_duplicate
    skip_duplicate-Outcome msg_id p result s =
        Returns-and_then (λ _ t. Outcome msg_id p s true result t) _ _
          (on_process (ack group msg_id) s)
          (on_process-Returns (λ _ t. Outcome msg_id p s true result t) (ack group msg_id) s
            (Returns-imp _ _ (ack group msg_id s.process) (ack_lem laws group msg_id s.process)
              (λ _ q e. (e, refl, refl))))
          (λ _ t k. k)

    -- An outcome depends on the server, and not on the process that shows it.
    Outcome-see :
        (msg_id : String) (p : Payment) (s : Run r H) (q : Process r) (b : Bool)
        (result : Result Unit) (t : Run r H)
        → see q ≡ see s.process
        → Outcome msg_id p (record s { process = q }) b result t
        → Outcome msg_id p s b result t
    Outcome-see msg_id p s q true result t e h = rw (← e) h
    Outcome-see msg_id p s q false (ok u) t e h = rw (← e) h
    Outcome-see msg_id p s q false (err exc) t e h = rw (← e) h

    checked-Outcome :
        (msg_id : String) (p : Payment) (s : Run r H) (b : Bool) (q : Process r)
        → see q ≡ see s.process
        → Returns
            ((if b
                then skip_duplicate handler consumer_id group max_attempts n block_ms msg_id
                else run_handler handler consumer_id group max_attempts n block_ms msg_id p)
              (record s { process = q }))
            (λ _ t. Outcome msg_id p s b (called p s).0 t)
    unfolding run_handler
    checked-Outcome msg_id p s true q e =
        Returns-imp _ (λ _ t. Outcome msg_id p s true (called p s).0 t)
          (skip_duplicate handler consumer_id group max_attempts n block_ms msg_id
            (record s { process = q }))
          (skip_duplicate-Outcome msg_id p (called p s).0 (record s { process = q }))
          (λ _ t h. Outcome-see msg_id p s q true (called p s).0 t e h)
    checked-Outcome msg_id p s false q e =
        Returns-imp _ (λ _ t. Outcome msg_id p s false (called p s).0 t)
          (run_handler handler consumer_id group max_attempts n block_ms msg_id p
            (record s { process = q }))
          (after_handler-Outcome msg_id p (called p s).0 (called p s).1 (record s { process = q })
            refl)
          (λ _ t h. Outcome-see msg_id p s q false (called p s).0 t e h)

    -- What becomes of a delivered message that decodes to a payment, where every command is answered.
    -- If the payment was processed before, the message is acknowledged and the handler is not called.
    -- If the handler returns, the payment's id enters the processed set, the message is acknowledged
    -- and the total grows by one. If it raises, the message stays pending and the failure is counted
    -- while the budget lasts; at its end the message is acknowledged, stands in the dead-letter stream
    -- with the exception's name and the number of attempts, and its counter is gone.
    pub handle_message-Outcome :
        (msg_id : String) (fields : List (String × String)) (p : Payment) (s : Run r H)
        → from_fields fields ≡ ok p
        → Returns
            (handle_message handler consumer_id group max_attempts n block_ms (msg_id, fields) s)
            (λ _ t.
              Outcome msg_id p s
                (processed (see s.process) p.payment_id)
                (handler consumer_id p s.handler_state).0
                t)
    unfolding handle_message run_handler
    handle_message-Outcome msg_id fields p s decoded = rw decoded (
        Returns-and_then
          (λ b t.
            (b ≡ processed (see s.process) p.payment_id)
            × (see t.process ≡ see s.process)
            × (t ≡ record s { process = t.process }))
          (λ _ t. Outcome msg_id p s (processed (see s.process) p.payment_id) (called p s).0 t) _
          (on_process (is_processed p.payment_id) s)
          (on_process-Returns _ (is_processed p.payment_id) s (
            Returns-imp
              (λ b q. (b ≡ processed (see s.process) p.payment_id) × (see q ≡ see s.process)) _
              (is_processed p.payment_id s.process) (is_processed_lem laws p.payment_id s.process)
              (λ b q e. (e.0, e.1, refl))))
          (λ b t (e, same, kept).
            subst
              (λ u.
                Returns
                  ((if b
                      then skip_duplicate handler consumer_id group max_attempts n block_ms msg_id
                      else run_handler handler consumer_id group max_attempts n block_ms msg_id p)
                    u)
                  (λ _ t.
                    Outcome msg_id p s (processed (see s.process) p.payment_id) (called p s).0 t))
              (sym kept) (rw (← e) (checked-Outcome msg_id p s b t.process same))))
