-- ===== src/PriorityQueue/Naive.antt =====
-- priority_queue_pattern/naive.py: one stream for every priority. The schedule has one element for
-- each of `max_polls`: what other clients have done to the server by then.
use message_broker_patterns.Base.{ℕ, String, none, List, [], ◌∷◌, ◌++◌}
use message_broker_patterns.Base.Exec.{Exec, Result, pure, gets, modify, lift, zoom, ◌>>=◌, ◌>>◌}
use message_broker_patterns.Redis.{Redis}
use message_broker_patterns.Redis.View.{Entry}
use message_broker_patterns.Process.{Process, on_client}
use message_broker_patterns.Process
use message_broker_patterns.PriorityQueue.Models.{SupportTicket, to_fields, from_fields}
use message_broker_patterns.PriorityQueue.Consumer.{Handler}

abbrev pub single_stream : String
single_stream = "support:all"

-- The process, the state that the handler closes over, and the local `served`.
pub record Fifo (r : Redis) (H : Type 0) : Type 0 where
  pub process : Process r
  pub handler_state : H
  pub served : List SupportTicket

module _ {r : Redis} where
  unfoldable pub ensure_group : String → Exec (Process r) Unit
  ensure_group group = do Process.ensure_group single_stream group; pure tt

  unfoldable pub publish : SupportTicket → Exec (Process r) String
  publish ticket = on_client (r.xadd single_stream (to_fields ticket))

module _ {r : Redis} {H : Type 0} where
  abbrev pub on_process : {A : Type 0} → Exec (Process r) A → Exec (Fifo r H) A
  on_process = zoom (λ s. s.process) (λ p s. record s { process = p })

  module _ (handler : Handler H) (consumer_id group : String) (n : ℕ) where
    unfoldable pub serve : Entry → Exec (Fifo r H) Unit
    serve (msg_id, fields) = do
      ticket ← lift (from_fields fields)
      zoom (λ s. s.handler_state) (λ h s. record s { handler_state = h })
          (handler consumer_id ticket)
      on_process (on_client (r.xack single_stream group msg_id))
      modify (λ s. record s { served = s.served ++ ticket ∷ [] })

    unfoldable pub serve_all : List Entry → Exec (Fifo r H) Unit
    serve_all [] = pure tt
    serve_all (e ∷ es) = do serve e; serve_all es

    unfoldable pub loop : List (r.State → r.State) → Exec (Fifo r H) Unit
    loop [] = pure tt
    loop (others ∷ rest) = do
      modify (λ s. record s { process = record s.process { client = others s.process.client } })
      batch ← on_process (on_client (r.xreadgroup_new single_stream group consumer_id n none))
      serve_all batch
      loop rest

    -- run_fifo_consumer, from a process
    unfoldable pub run_fifo_consumer :
        List (r.State → r.State) → Process r → H → Result (List SupportTicket) × Fifo r H
    unfolding ensure_group
    run_fifo_consumer schedule process h =
        (do on_process (ensure_group group); loop schedule; gets (λ s. s.served))
          (record { process = process; handler_state = h; served = [] })
