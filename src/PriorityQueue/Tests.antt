-- ===== src/PriorityQueue/Tests.antt =====
-- The theorem on the strict scan at a concrete input.
use message_broker_patterns.Base.{ℕ, ◌+◌, ◌≡◌, refl, [], ◌∷◌}
use message_broker_patterns.Base.Exec.{ok, Returns}
use message_broker_patterns.Redis.Memory
use message_broker_patterns.Redis.Instance.{memory, memory_laws}
use message_broker_patterns.Process.{Process, see, ensure_group}
use message_broker_patterns.PriorityQueue.Models.{
  high, normal, low, SupportTicket, to_fields, from_fields,
}
use message_broker_patterns.PriorityQueue.Naive
use message_broker_patterns.PriorityQueue.Naive.{run_fifo_consumer, loop, serve_all, serve}
use message_broker_patterns.PriorityQueue.Broker.{publish}
use message_broker_patterns.PriorityQueue.Consumer.{Handler, find_batch}
use message_broker_patterns.PriorityQueue.Consumer.Strict.{
  first_waiting, waiting_in, find_batch-Strict,
}

abbrev routine : SupportTicket
routine = record { ticket_id = "t1"; subject = "invoice"; priority = low; customer_id = "c1" }

abbrev ordinary : SupportTicket
ordinary = record { ticket_id = "t2"; subject = "login"; priority = normal; customer_id = "c2" }

-- The routine ticket was published first.
abbrev waiting : Process memory
waiting = (publish ordinary (publish routine (record { client = Memory.empty; metrics = [] })).1).1

find_batch-Strict_example :
    Returns (find_batch "g" "w1" 10 (high ∷ normal ∷ low ∷ []) waiting) (λ found _.
      found ≡ first_waiting 10 (waiting_in "g" (see waiting)) (high ∷ normal ∷ low ∷ []))
find_batch-Strict_example =
    find_batch-Strict memory_laws "g" "w1" 9 (high ∷ normal ∷ low ∷ []) waiting

abbrev urgent : SupportTicket
urgent = record { ticket_id = "t3"; subject = "outage"; priority = high; customer_id = "c3" }

-- Serves every ticket.
abbrev serving : Handler ℕ
serving consumer ticket h = (ok tt, h + 1)

-- On the single stream the urgent ticket is served last, since it came last.
abbrev in_one_line : Process memory
in_one_line =
    (Naive.publish urgent
      (Naive.publish routine (record { client = Memory.empty; metrics = [] })).1).1

served_by_arrival :
    (run_fifo_consumer serving "w1" "g" 10 ((λ c. c) ∷ []) in_one_line 0).0
    ≡ ok (routine ∷ urgent ∷ [])
unfolding run_fifo_consumer loop serve_all serve Naive.publish Naive.ensure_group ensure_group
    Memory.number to_fields from_fields
served_by_arrival = refl
