-- ===== src/Dlq/Naive.antt =====
-- dlq_pattern/naive.py: the baseline that retries a failed payment without a bound. The schedule has
-- one element for each of `max_polls`: what other clients have done to the server by then.
pub mod Stuck
pub mod Starved
use message_broker_patterns.Base.{
  ℕ, ◌+◌, String, Bool, true, false, Option, none, some, List, [], ◌∷◌, ◌++◌,
}
use message_broker_patterns.Base.Int.{pos}
use message_broker_patterns.Base.Dict.{Dict, lookup, insert}
use message_broker_patterns.Base.Exec.{
  Exec, Exn, cancelled, Result, ok, err, pure, raise, gets, modify, lift, zoom, and_then, ◌>>=◌,
  ◌>>◌,
}
use message_broker_patterns.Redis.{Redis}
use message_broker_patterns.Redis.View.{Entry}
use message_broker_patterns.Process.{Process}
use message_broker_patterns.Dlq.Models.{Payment, from_fields}
use message_broker_patterns.Dlq.Broker.{ensure_all_groups, read_new, read_pending, ack}
use message_broker_patterns.Dlq.Consumer.{Handler}

-- NaiveRunResult, beside the process and the handler's state.
pub record NaiveRun (r : Redis) (H : Type 0) : Type 0 where
  pub process : Process r
  pub handler_state : H
  pub processed : List String
  pub failures : Dict ℕ
  pub polls : ℕ

abbrev pub or_zero : Option ℕ → ℕ
or_zero none = 0
or_zero (some n) = n

module _ {r : Redis} {H : Type 0} where
  unfoldable pub attempts_for : String → NaiveRun r H → ℕ
  attempts_for payment_id s = or_zero (lookup payment_id s.failures)

  abbrev pub on_process : {A : Type 0} → Exec (Process r) A → Exec (NaiveRun r H) A
  on_process = zoom (λ s. s.process) (λ p s. record s { process = p })

  module _ (handler : Handler H) (consumer_id group : String) (n : ℕ) where
    -- The handler returned: the rest of the batch follows. It raised: the batch is left.
    unfoldable pub after_handler :
        String → Payment → Exec (NaiveRun r H) Unit → Result Unit → Exec (NaiveRun r H) Unit
    unfolding attempts_for
    after_handler msg_id p rest (ok _) = do
      on_process (ack group msg_id)
      modify (λ s. record s { processed = s.processed ++ p.payment_id ∷ [] })
      rest
    after_handler msg_id p rest (err cancelled) = raise cancelled
    after_handler msg_id p rest (err exc) = modify (λ s. record s {
      failures = insert p.payment_id (attempts_for p.payment_id s + 1) s.failures;
    })

    unfoldable pub run_handler :
        String → Payment → Exec (NaiveRun r H) Unit → Exec (NaiveRun r H) Unit
    unfolding after_handler
    run_handler msg_id p rest s =
        let (result, h) = handler consumer_id p s.handler_state in
        after_handler msg_id p rest result (record s { handler_state = h })

    unfoldable pub handle_batch : List Entry → Exec (NaiveRun r H) Unit
    unfolding run_handler
    handle_batch [] = pure tt
    handle_batch ((msg_id, fields) ∷ es) =
        lift (from_fields fields) >>= (λ p. run_handler msg_id p (handle_batch es))

    -- With no backlog, new messages are read.
    unfoldable pub or_new : List Entry → Exec (NaiveRun r H) (List Entry)
    or_new [] = on_process (read_new group consumer_id n (pos 0))
    or_new (e ∷ es) = pure (e ∷ es)

    unfoldable pub poll : Exec (NaiveRun r H) Unit
    unfolding or_new handle_batch
    poll = do
      modify (λ s. record s { polls = s.polls + 1 })
      pending ← on_process (read_pending group consumer_id n)
      batch ← or_new pending
      handle_batch batch

    unfoldable pub loop : List (r.State → r.State) → Exec (NaiveRun r H) Unit
    loop [] = pure tt
    loop (others ∷ rest) = do
      modify (λ s. record s { process = record s.process { client = others s.process.client } })
      poll
      loop rest

    -- run_retry_forever_consumer, from a process
    unfoldable pub run_retry_forever_consumer :
        List (r.State → r.State) → Process r → H → Result Unit × NaiveRun r H
    run_retry_forever_consumer schedule process h =
        (do on_process (ensure_all_groups group); loop schedule)
          (record {
            process = process;
            handler_state = h;
            processed = [];
            failures = [];
            polls = 0;
          })
