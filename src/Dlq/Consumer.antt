-- ===== src/Dlq/Consumer.antt =====
-- dlq_pattern/consumer.py: the consumer loop. Other clients act between the polls: the schedule
-- holds, for each round of the loop, what they have done to the server by then, and the stop event
-- is set when it is used up.
pub mod Once
pub mod Outcomes
pub mod Budget
use message_broker_patterns.Base.{
  ℕ, ◌+◌, String, Bool, true, false, Option, none, some, List, [], ◌∷◌, ltb, if◌then◌else◌,
}
use message_broker_patterns.Base.Int.{ℤ}
use message_broker_patterns.Base.Dict.{Dict, lookup, insert, erase}
use message_broker_patterns.Base.Exec.{
  Exec, Exn, cancelled, Result, ok, err, pure, raise, gets, modify, lift, zoom, type_name, ◌>>=◌,
  ◌>>◌,
}
use message_broker_patterns.Redis.{Redis}
use message_broker_patterns.Redis.View.{Fields, Entry}
use message_broker_patterns.Process.{Process, count}
use message_broker_patterns.Dlq.Models.{Payment, from_fields}
use message_broker_patterns.Dlq.Broker.{
  ensure_all_groups, read_new, read_pending, ack, move_to_dlq, is_processed, mark_processed,
}

-- The caller's handler, with the state that it closes over; raising means that the payment failed.
abbrev pub Handler : Type 0 → Type 0
Handler H = String → Payment → Exec H Unit

-- The locals of `run_idempotent_consumer`, beside the process and the handler's state.
pub record Run (r : Redis) (H : Type 0) : Type 0 where
  pub process : Process r
  pub handler_state : H
  pub attempts : Dict ℕ
  pub total_processed : ℕ

abbrev count_or : Option ℕ → ℕ
count_or none = 0
count_or (some n) = n

module _ {r : Redis} {H : Type 0} where
  abbrev pub on_process : {A : Type 0} → Exec (Process r) A → Exec (Run r H) A
  on_process = zoom (λ s. s.process) (λ p s. record s { process = p })

  module _ (handler : Handler H) (consumer_id group : String) (max_attempts n : ℕ)
      (block_ms : ℤ) where
    -- The `except Exception` branch: the budget decides between redelivery and the dead letters.
    unfoldable pub on_failure : String → Payment → Exn → Exec (Run r H) Unit
    on_failure msg_id p exc = do
      attempt ← gets (λ s. count_or (lookup msg_id s.attempts) + 1)
      modify (λ s. record s { attempts = insert msg_id attempt s.attempts })
      if ltb attempt max_attempts then pure tt else do
        on_process (move_to_dlq group msg_id p (type_name exc) attempt)
        modify (λ s. record s { attempts = erase msg_id s.attempts })

    unfoldable pub on_success : String → Payment → Exec (Run r H) Unit
    on_success msg_id p = do
      on_process (mark_processed p.payment_id)
      on_process (ack group msg_id)
      modify (λ s. record s { attempts = erase msg_id s.attempts })
      on_process (count "dlq" "payments_processed")
      modify (λ s. record s { total_processed = s.total_processed + 1 })

    -- `except Exception` does not catch a cancellation.
    unfoldable pub after_handler : String → Payment → Result Unit → Exec (Run r H) Unit
    unfolding on_failure on_success
    after_handler msg_id p (ok _) = on_success msg_id p
    after_handler msg_id p (err cancelled) = raise cancelled
    after_handler msg_id p (err exc) = on_failure msg_id p exc

    unfoldable pub run_handler : String → Payment → Exec (Run r H) Unit
    unfolding after_handler
    run_handler msg_id p s =
        let (result, h) = handler consumer_id p s.handler_state in
        after_handler msg_id p result (record s { handler_state = h })

    unfoldable pub skip_duplicate : String → Exec (Run r H) Unit
    skip_duplicate msg_id = do
      on_process (ack group msg_id)
      on_process (count "dlq" "skipped_duplicate")

    -- The body of the `for` loop over the batch.
    unfoldable pub handle_message : Entry → Exec (Run r H) Unit
    unfolding run_handler skip_duplicate
    handle_message (msg_id, fields) = do
      p ← lift (from_fields fields)
      seen ← on_process (is_processed p.payment_id)
      if seen then skip_duplicate msg_id else run_handler msg_id p

    unfoldable pub handle_batch : List Entry → Exec (Run r H) Unit
    handle_batch [] = pure tt
    handle_batch (e ∷ es) = do handle_message e; handle_batch es

    -- With nothing new the consumer reads its own unacknowledged backlog again.
    unfoldable pub or_pending : List Entry → Exec (Run r H) (List Entry)
    or_pending [] = on_process (read_pending group consumer_id n)
    or_pending (e ∷ es) = pure (e ∷ es)

    unfoldable pub poll : Exec (Run r H) Unit
    unfolding or_pending
    poll = do
      new ← on_process (read_new group consumer_id n block_ms)
      batch ← or_pending new
      handle_batch batch

    unfoldable pub loop : List (r.State → r.State) → Exec (Run r H) Unit
    loop [] = pure tt
    loop (others ∷ rest) = do
      modify (λ s. record s { process = record s.process { client = others s.process.client } })
      poll
      loop rest

    unfoldable pub run_idempotent_consumer : List (r.State → r.State) → Exec (Run r H) ℕ
    run_idempotent_consumer schedule = do
      on_process (ensure_all_groups group)
      loop schedule
      gets (λ s. s.total_processed)
