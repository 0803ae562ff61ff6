-- ===== src/CompetingConsumers/Tests.antt =====
-- The theorem on a batch at a concrete input.
use message_broker_patterns.Base.{ℕ, ◌+◌, String, ◌≡◌, refl, List, [], ◌∷◌, All, length}
use message_broker_patterns.Base.Exec.{ok, Returns}
use message_broker_patterns.Base.Decimal.{parse_int, str_int}
use message_broker_patterns.Redis.Memory
use message_broker_patterns.Redis.View.{Entry}
use message_broker_patterns.Redis.Instance.{memory, memory_laws}
use message_broker_patterns.Process.{Process}
use message_broker_patterns.CompetingConsumers.Models.{Task, to_fields, from_fields}
use message_broker_patterns.CompetingConsumers.Naive.{
  run_bare_read_consumer, loop, handle_entries, handle_entry,
}
use message_broker_patterns.CompetingConsumers.Broker.{publish, read_new}
use message_broker_patterns.CompetingConsumers.Consumer.{Handler, Worker, handle_batch}
use message_broker_patterns.CompetingConsumers.Consumer.Settled.{IsSettled, handle_batch-Settles}

abbrev first : Task
first = record { task_id = "t1"; payload = "a" }

abbrev second : Task
second = record { task_id = "t2"; payload = "b" }

abbrev counting : Handler ℕ
counting consumer task h = (ok tt, h + 1)

-- Two tasks, delivered to "w1".
abbrev delivered : Process memory
delivered =
    (read_new "tasks" "g" "w1" 10 100
      (publish "tasks" (to_fields second)
        (publish "tasks" (to_fields first) (record { client = Memory.empty; metrics = [] })).1).1).1

abbrev batch : List Entry
batch = ("1", to_fields first) ∷ ("2", to_fields second) ∷ []

abbrev start : Worker memory ℕ
start = record { process = delivered; handler_state = 0 }

handle_batch-Settles_example :
    Returns (handle_batch counting "tasks" "g" "w1" batch 0 start) (λ n t.
      (n ≡ 0 + length batch)
      × All (λ e. IsSettled memory_laws counting "tasks" "g" "w1" t e.0) batch
      × ((j : String)
          → IsSettled memory_laws counting "tasks" "g" "w1" start j
          → IsSettled memory_laws counting "tasks" "g" "w1" t j))
handle_batch-Settles_example =
    handle_batch-Settles memory_laws counting "tasks" "g" "w1" batch 0 start

-- Without a group each worker handles both tasks.
abbrev bare : String → ℕ
bare consumer =
    (run_bare_read_consumer counting "tasks" consumer 10 ((λ c. c) ∷ (λ c. c) ∷ []) delivered
      0).1.handled

each_handles_all : (bare "w1" ≡ 2) × (bare "w2" ≡ 2)
unfolding run_bare_read_consumer loop handle_entries handle_entry read_new publish Memory.number
    to_fields from_fields parse_int str_int
each_handles_all = (refl, refl)
