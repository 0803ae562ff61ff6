-- ===== src/Dlq/Consumer/Once.antt =====
-- Effectively once: over one run of the consumer the handler returns at most once for a payment id,
-- whatever is redelivered, published again or raised on the way.
pub mod Loop
use message_broker_patterns.Base.{
  ℕ, ◌+◌, String, ◌≡◌, ◌≢◌, ◌⊎◌, refl, sym, ap, ◌∙◌, Bool, true, false, List, [], ◌∷◌, All, All-imp,
  arith, eq_iff, Bool-cases, inl, inr, if◌then◌else◌, ltb,
}
use message_broker_patterns.Base.Int.{ℤ}
use message_broker_patterns.Base.Dict.{lookup, insert, erase}
use message_broker_patterns.Base.Exec.{
  Exec, Exn, Result, ok, err, cancelled, type_name, Ends, Returns, Ends-and_then, Ends-imp,
  Returns-imp, zoom-Ends, and_then, zoom, modify, pure, ◌>>◌, ◌>>=◌,
}
use message_broker_patterns.Redis.{Redis, Laws}
use message_broker_patterns.Redis.View.{Entry, Server, with_ack, with_member}
use message_broker_patterns.Process.{Process, see, count}
use message_broker_patterns.Dlq.Models.{Payment, from_fields}
use message_broker_patterns.Dlq.Broker.{
  processed_set, ack, move_to_dlq, is_processed, mark_processed, read_new, read_pending,
  ensure_all_groups,
}
use message_broker_patterns.Dlq.Broker.Frames.{
  processed, Grows, ack_lem, is_processed_lem, mark_processed_lem, move_to_dlq_lem, read_new_lem,
  read_pending_lem, ack-Grows, move_to_dlq-Grows, read_new-Grows, read_pending-Grows,
}
use message_broker_patterns.Dlq.Consumer.{
  Handler, Run, count_or, on_process, on_failure, on_success, after_handler, run_handler,
  skip_duplicate, handle_message, handle_batch, or_pending, poll, loop, run_idempotent_consumer,
}

-- The handler, with a record of the payments for which it has returned.
logged : Result Unit → String → List String → List String
logged (ok _) id log = id ∷ log
logged (err _) id log = log

unfoldable pub recording : {H : Type 0} → Handler H → Handler (List String × H)
unfolding logged
recording handler consumer p (log, h) =
    let (result, h') = handler consumer p h in (result, (logged result p.payment_id log, h'))

-- No id twice.
abbrev pub Distinct : List String → Type 0
Distinct [] = Unit
Distinct (x ∷ xs) = All (λ y. x ≢ y) xs × Distinct xs

module _ {r : Redis} {H : Type 0} where
  abbrev pub log_of : Run r (List String × H) → List String
  log_of s = s.handler_state.0

  -- Each payment that the handler has returned for is in the processed set, and none is there twice.
  abbrev pub IsOnce : Run r (List String × H) → Type 0
  IsOnce s = Distinct (log_of s) × All (λ id. processed (see s.process) id ≡ true) (log_of s)

  abbrev HasDistinct : Run r (List String × H) → Type 0
  HasDistinct s = Distinct (log_of s)

  -- A call of the broker that loses no processed id keeps the invariant.
  on_process-IsOnce :
      {A : Type 0} (m : Exec (Process r) A) (s : Run r (List String × H))
      → Returns (m s.process) (λ _ q. Grows (see s.process) (see q))
      → IsOnce s
      → Ends (on_process m s) (λ _ t. IsOnce t) HasDistinct
  on_process-IsOnce m s grows h =
      zoom-Ends (λ _ q. Grows (see s.process) (see q)) (λ _ t. IsOnce t) HasDistinct
        (λ t. t.process) (λ p t. record t { process = p }) s m grows
        (λ _ q g. (h.0, All-imp _ _ g (log_of s) h.1)) (λ _. h.0)

  abbrev Once : {A : Type 0} → Result A × Run r (List String × H) → Type 0
  Once x = Ends x (λ _ t. IsOnce t) HasDistinct

  then_Once :
      {A B : Type 0} (f : A → Exec (Run r (List String × H)) B)
      (x : Result A × Run r (List String × H))
      → Once x
      → ((a : A) (t : Run r (List String × H)) → IsOnce t → Once (f a t))
      → Once (and_then f x)
  then_Once f x h k =
      Ends-and_then (λ _ t. IsOnce t) (λ _ t. IsOnce t) HasDistinct HasDistinct f x h k (λ _ d. d)

  if-Once :
      {A : Type 0} (b : Bool) (m k : Exec (Run r (List String × H)) A) (s : Run r (List String × H))
      → Once (m s)
      → Once (k s)
      → Once ((if b then m else k) s)
  if-Once true m k s hm hk = hm
  if-Once false m k s hm hk = hk

  -- Between the handler's return and the mark, the last id of the log may be missing in the set.
  abbrev IsMarking : String → Run r (List String × H) → Type 0
  IsMarking id s =
      Distinct (log_of s) × All (λ j. (j ≡ id) ⊎ (processed (see s.process) j ≡ true)) (log_of s)

module _ {r : Redis} (laws : Laws r) {H : Type 0} where
  mark-IsOnce :
      (id : String) (s : Run r (List String × H))
      → IsMarking id s
      → Once (on_process (mark_processed id) s)
  mark-IsOnce id s h =
      zoom-Ends (λ _ q. see q ≡ with_member processed_set id (see s.process)) (λ _ t. IsOnce t)
        HasDistinct (λ t. t.process) (λ p t. record t { process = p }) s (mark_processed id)
        (mark_processed_lem laws id s.process)
        (λ _ q e. (h.0, All-imp _ _ (λ j k. rw e (marked j k)) (log_of s) h.1)) (λ _. h.0)
    where
      marked :
          (j : String)
          → (j ≡ id) ⊎ (processed (see s.process) j ≡ true)
          → processed (with_member processed_set id (see s.process)) j ≡ true
      marked j k = ground (arith, eq_iff id j)

  module _ (handler : Handler H) (consumer_id group : String) (max_attempts n : ℕ)
      (block_ms : ℤ) where
    on_failure-Once :
        (msg_id : String) (p : Payment) (exc : Exn) (s : Run r (List String × H))
        → IsOnce s
        → Once (
            on_failure (recording handler) consumer_id group max_attempts n block_ms msg_id p exc s)
    unfolding on_failure
    on_failure-Once msg_id p exc s h =
        let attempt = count_or (lookup msg_id s.attempts) + 1 in
        let counted = record s { attempts = insert msg_id attempt s.attempts } in
        let move = move_to_dlq group msg_id p (type_name exc) attempt in
        if-Once (ltb attempt max_attempts) (pure tt)
          (on_process move >> modify (λ t. record t { attempts = erase msg_id t.attempts })) counted
          h
          (then_Once _ (on_process move counted)
            (on_process-IsOnce move counted
              (move_to_dlq-Grows laws group msg_id (type_name exc) p attempt counted.process) h)
            (λ _ t k. k))

    on_success-Once :
        (msg_id : String) (p : Payment) (s : Run r (List String × H))
        → IsMarking p.payment_id s
        → Once (on_success (recording handler) consumer_id group max_attempts n block_ms msg_id p s)
    unfolding on_success
    on_success-Once msg_id p s h =
        then_Once _ (on_process (mark_processed p.payment_id) s) (mark-IsOnce p.payment_id s h)
          (λ _ t k.
            then_Once _ (on_process (ack group msg_id) t)
              (on_process-IsOnce (ack group msg_id) t (ack-Grows laws group msg_id t.process) k)
              (λ _ u z. z))

    -- The record of a return meets the invariant where the id was not processed before.
    fresh-IsMarking :
        (id : String) (s : Run r (List String × H)) (h : H)
        → IsOnce s
        → processed (see s.process) id ≡ false
        → IsMarking id (record s { handler_state = (id ∷ log_of s, h) })
    fresh-IsMarking id s h once fresh = (
      (All-imp _ (λ j. id ≢ j) differs (log_of s) once.1, once.0),
      (inl refl, All-imp _ _ (λ j k. inr k) (log_of s) once.1),
    )
      where
        differs : (j : String) → processed (see s.process) j ≡ true → id ≢ j
        differs j k e = cc (fresh, k, e)

    after_handler-Once :
        (msg_id : String) (p : Payment) (result : Result Unit) (s : Run r (List String × H)) (h : H)
        → IsOnce s
        → processed (see s.process) p.payment_id ≡ false
        → Once (
            after_handler
              (recording handler)
              consumer_id
              group
              max_attempts
              n
              block_ms
              msg_id
              p
              result
              (record s { handler_state = (logged result p.payment_id (log_of s), h) }))
    unfolding after_handler logged
    after_handler-Once msg_id p (ok _) s h once fresh =
        on_success-Once msg_id p _ (fresh-IsMarking p.payment_id s h once fresh)
    after_handler-Once msg_id p (err cancelled) s h once fresh = once.0
    after_handler-Once msg_id p (err exc) s h once fresh =
        on_failure-Once msg_id p exc (record s { handler_state = (log_of s, h) }) once

    run_handler-Once :
        (msg_id : String) (p : Payment) (s : Run r (List String × H))
        → IsOnce s
        → processed (see s.process) p.payment_id ≡ false
        → Once
            (run_handler (recording handler) consumer_id group max_attempts n block_ms msg_id p s)
    unfolding run_handler recording
    run_handler-Once msg_id p s once fresh =
        let (result, h) = handler consumer_id p s.handler_state.1 in
        after_handler-Once msg_id p result s h once fresh

    skip_duplicate-Once :
        (msg_id : String) (s : Run r (List String × H))
        → IsOnce s
        → Once
            (skip_duplicate (recording handler) consumer_id group max_attempts n block_ms msg_id s)
    unfolding skip_duplicate
    skip_duplicate-Once msg_id s h =
        then_Once _ (on_process (ack group msg_id) s)
          (on_process-IsOnce (ack group msg_id) s (ack-Grows laws group msg_id s.process) h)
          (λ _ t k. k)
