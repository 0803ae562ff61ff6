-- ===== src/PriorityQueue/Consumer.antt =====
-- priority_queue_pattern/consumer.py. The schedule holds, for each round of a loop, what other clients
-- have done to the server by then; the stop event is set when it is used up.
pub mod Strict
use message_broker_patterns.Base.{ℕ, ◌+◌, String, Option, none, some, List, [], ◌∷◌, str_append}
use message_broker_patterns.Base.Int.{ℤ, pos}
use message_broker_patterns.Base.Exec.{Exec, pure, gets, modify, lift, zoom, ◌>>=◌, ◌>>◌}
use message_broker_patterns.Redis.{Redis}
use message_broker_patterns.Redis.View.{Entry}
use message_broker_patterns.Process.{Process, count}
use message_broker_patterns.PriorityQueue.Models.{Priority, value, SupportTicket, from_fields}
use message_broker_patterns.PriorityQueue.Broker.{ensure_group, read_new, ack}

abbrev pub Handler : Type 0 → Type 0
Handler H = String → SupportTicket → Exec H Unit

-- The process, the state that the handler closes over, and the local `total_handled`.
pub record Worker (r : Redis) (H : Type 0) : Type 0 where
  pub process : Process r
  pub handler_state : H
  pub total_handled : ℕ

-- `if not batch: continue`, and `break` after the first tier that has work.
abbrev pub or_next :
    {S : Type 0}
    → Exec S (Option (Priority × List Entry))
    → Priority
    → List Entry
    → Exec S (Option (Priority × List Entry))
or_next rest p [] = rest
or_next rest p (e ∷ es) = pure (some (p, e ∷ es))

module _ {r : Redis} where
  -- The scan of the tiers by non-blocking reads, up to the first that has work.
  unfoldable pub find_batch :
      String → String → ℕ → List Priority → Exec (Process r) (Option (Priority × List Entry))
  find_batch group consumer_id n [] = pure none
  find_batch group consumer_id n (p ∷ ps) =
      let rest = find_batch group consumer_id n ps in
      do batch ← read_new p group consumer_id n (pos 0); or_next rest p batch

module _ {r : Redis} {H : Type 0} where
  abbrev pub on_process : {A : Type 0} → Exec (Process r) A → Exec (Worker r H) A
  on_process = zoom (λ s. s.process) (λ p s. record s { process = p })

  abbrev pub on_handler : {A : Type 0} → Exec H A → Exec (Worker r H) A
  on_handler = zoom (λ s. s.handler_state) (λ h s. record s { handler_state = h })

  abbrev pub meanwhile : (r.State → r.State) → Exec (Worker r H) Unit
  meanwhile others =
      modify (λ s. record s { process = record s.process { client = others s.process.client } })

  module _ (handler : Handler H) (consumer_id group : String) (n : ℕ) where
    -- The body of the `for` loop over a batch.
    unfoldable pub handle_message : Priority → Entry → Exec (Worker r H) Unit
    handle_message p (msg_id, fields) = do
      ticket ← lift (from_fields fields)
      on_handler (handler consumer_id ticket)
      on_process (ack p group msg_id)
      on_process (count "priority_queue" "tickets_consumed")
      on_process (count "priority_queue" (str_append (value p) "_consumed"))
      modify (λ s. record s { total_handled = s.total_handled + 1 })

    unfoldable pub handle_batch : Priority → List Entry → Exec (Worker r H) Unit
    handle_batch p [] = pure tt
    handle_batch p (e ∷ es) = do handle_message p e; handle_batch p es

    unfoldable pub loop : Priority → ℤ → List (r.State → r.State) → Exec (Worker r H) Unit
    loop p block_ms [] = pure tt
    loop p block_ms (others ∷ rest) = do
      meanwhile others
      batch ← on_process (read_new p group consumer_id n block_ms)
      handle_batch p batch
      loop p block_ms rest

    unfoldable pub run_consumer : Priority → ℤ → List (r.State → r.State) → Exec (Worker r H) ℕ
    run_consumer p block_ms schedule = do
      on_process (ensure_group p group)
      loop p block_ms schedule
      gets (λ s. s.total_handled)

    unfoldable pub ensure_groups : List Priority → Exec (Worker r H) Unit
    ensure_groups [] = pure tt
    ensure_groups (p ∷ ps) = do on_process (ensure_group p group); ensure_groups ps

    unfoldable pub handle_found : Option (Priority × List Entry) → Exec (Worker r H) Unit
    handle_found none = pure tt
    handle_found (some (p, batch)) = handle_batch p batch

    unfoldable pub strict_loop : List Priority → List (r.State → r.State) → Exec (Worker r H) Unit
    strict_loop scan_order [] = pure tt
    strict_loop scan_order (others ∷ rest) = do
      meanwhile others
      found ← on_process (find_batch group consumer_id n scan_order)
      handle_found found
      strict_loop scan_order rest

    unfoldable pub run_strict_priority_consumer :
        List Priority → List (r.State → r.State) → Exec (Worker r H) ℕ
    run_strict_priority_consumer scan_order schedule = do
      ensure_groups scan_order
      strict_loop scan_order schedule
      gets (λ s. s.total_handled)
