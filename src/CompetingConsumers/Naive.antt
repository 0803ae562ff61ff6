-- ===== src/CompetingConsumers/Naive.antt =====
-- competing_consumers_pattern/naive.py: workers that read the stream without a group. The schedule
-- holds, for each round of the loop, what other clients have done to the server by then.
use message_broker_patterns.Base.{ℕ, ◌+◌, String, List, [], ◌∷◌}
use message_broker_patterns.Base.Exec.{Exec, Result, pure, gets, modify, lift, zoom, ◌>>=◌, ◌>>◌}
use message_broker_patterns.Redis.{Redis}
use message_broker_patterns.Redis.View.{Entry}
use message_broker_patterns.Process.{Process, on_client}
use message_broker_patterns.CompetingConsumers.Models.{from_fields}
use message_broker_patterns.CompetingConsumers.Consumer.{Handler}

-- The process, the state that the handler closes over, and the locals.
pub record Reader (r : Redis) (H : Type 0) : Type 0 where
  pub process : Process r
  pub handler_state : H
  pub last_id : String
  pub handled : ℕ

module _ {r : Redis} {H : Type 0} (handler : Handler H) (stream consumer_id : String) (n : ℕ) where
  -- The cursor moves before the work is done.
  unfoldable pub handle_entry : Entry → Exec (Reader r H) Unit
  handle_entry (msg_id, fields) = do
    modify (λ s. record s { last_id = msg_id })
    task ← lift (from_fields fields)
    zoom (λ s. s.handler_state) (λ h s. record s { handler_state = h }) (handler consumer_id task)
    modify (λ s. record s { handled = s.handled + 1 })

  unfoldable pub handle_entries : List Entry → Exec (Reader r H) Unit
  handle_entries [] = pure tt
  handle_entries (e ∷ es) = do handle_entry e; handle_entries es

  unfoldable pub loop : List (r.State → r.State) → Exec (Reader r H) Unit
  loop [] = pure tt
  loop (others ∷ rest) = do
    modify (λ s. record s { process = record s.process { client = others s.process.client } })
    last_id ← gets (λ s. s.last_id)
    batch ←
        zoom (λ s. s.process) (λ p s. record s { process = p })
          (on_client (r.xread stream last_id n))
    handle_entries batch
    loop rest

  -- run_bare_read_consumer, from a process
  unfoldable pub run_bare_read_consumer :
      List (r.State → r.State) → Process r → H → Result ℕ × Reader r H
  unfolding loop
  run_bare_read_consumer schedule process h =
      (do loop schedule; gets (λ s. s.handled))
        (record { process = process; handler_state = h; last_id = "0"; handled = 0 })
