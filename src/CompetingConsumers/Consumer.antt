-- ===== src/CompetingConsumers/Consumer.antt =====
-- competing_consumers_pattern/consumer.py. The schedule holds, for each round of the loop, what other
-- clients have done to the server by then; the stop event is set when it is used up.
pub mod Settled
use message_broker_patterns.Base.{ℕ, ◌+◌, String, List, [], ◌∷◌}
use message_broker_patterns.Base.Exec.{Exec, pure, modify, lift, zoom, ◌>>=◌, ◌>>◌}
use message_broker_patterns.Redis.{Redis}
use message_broker_patterns.Redis.View.{Entry}
use message_broker_patterns.Process.{Process, count, ensure_group}
use message_broker_patterns.CompetingConsumers.Models.{Task, from_fields}
use message_broker_patterns.CompetingConsumers.Broker.{read_new, ack, reclaim_stale}

abbrev pub Handler : Type 0 → Type 0
Handler H = String → Task → Exec H Unit

-- The process, and the state that the handler closes over.
pub record Worker (r : Redis) (H : Type 0) : Type 0 where
  pub process : Process r
  pub handler_state : H

module _ {r : Redis} {H : Type 0} where
  abbrev pub on_process : {A : Type 0} → Exec (Process r) A → Exec (Worker r H) A
  on_process = zoom (λ s. s.process) (λ p s. record s { process = p })

  abbrev pub on_handler : {A : Type 0} → Exec H A → Exec (Worker r H) A
  on_handler = zoom (λ s. s.handler_state) (λ h s. record s { handler_state = h })

  module _ (handler : Handler H) (stream group consumer_id : String) where
    unfoldable pub handle_message : Entry → Exec (Worker r H) Unit
    handle_message (msg_id, fields) = do
      task ← lift (from_fields fields)
      on_handler (handler consumer_id task)
      on_process (ack stream group msg_id)
      on_process (count "competing_consumers" "messages_consumed")

    -- How many messages of the batch were handled.
    unfoldable pub handle_batch : List Entry → ℕ → Exec (Worker r H) ℕ
    handle_batch [] handled = pure handled
    handle_batch (e ∷ es) handled = do handle_message e; handle_batch es (handled + 1)

    module _ (n block_ms reclaim_min_idle_ms : ℕ) where
      -- A round: what crashed siblings left, then what is new.
      unfoldable pub sweep : ℕ → Exec (Worker r H) ℕ
      sweep total = do
        reclaimed ← on_process (reclaim_stale stream group consumer_id reclaim_min_idle_ms n)
        old ← handle_batch reclaimed 0
        batch ← on_process (read_new stream group consumer_id n block_ms)
        new ← handle_batch batch 0
        pure (total + old + new)

      unfoldable pub loop : List (r.State → r.State) → ℕ → Exec (Worker r H) ℕ
      loop [] total = pure total
      loop (others ∷ rest) total = do
        modify (λ s. record s { process = record s.process { client = others s.process.client } })
        total' ← sweep total
        loop rest total'

      unfoldable pub run_consumer : List (r.State → r.State) → Exec (Worker r H) ℕ
      run_consumer schedule = do
        on_process (ensure_group stream group)
        on_process (count "competing_consumers" "consumer_joins")
        loop schedule 0
