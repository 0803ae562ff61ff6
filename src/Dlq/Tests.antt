-- ===== src/Dlq/Tests.antt =====
-- The theorems on the dead-letter queue at concrete inputs.
use message_broker_patterns.Base.{ℕ, String, ◌≡◌, refl, inl, List, [], ◌∷◌, none}
use message_broker_patterns.Base.Int.{pos}
use message_broker_patterns.Base.Exec.{ok, err, value_error, other, Returns}
use message_broker_patterns.Redis.{Redis, Laws}
use message_broker_patterns.Redis.Memory
use message_broker_patterns.Redis.Memory.{Mem}
use message_broker_patterns.Redis.Instance.{memory, memory_laws}
use message_broker_patterns.Base.Decimal.{str_int}
use message_broker_patterns.Process.{ensure_group, Process, see}
use message_broker_patterns.Dlq.Models.{Payment, to_fields, from_fields, from_fields-to_fields}
use message_broker_patterns.Dlq.Broker.{
  main_stream, dlq_stream, move_to_dlq, publish, read_new, ensure_all_groups,
}
use message_broker_patterns.Dlq.Broker.Frames.{processed}
use message_broker_patterns.Dlq.Broker.Loss.{move_to_dlq_loses}
use message_broker_patterns.Dlq.Naive.{attempts_for, run_retry_forever_consumer}
use message_broker_patterns.Dlq.Naive.Starved.{run_starves}
use message_broker_patterns.Redis.View.{backlog}
use message_broker_patterns.Dlq.Consumer.{Handler, Run, handle_message, run_idempotent_consumer}
use message_broker_patterns.Dlq.Consumer.Once.{recording, Distinct, log_of}
use message_broker_patterns.Dlq.Consumer.Once.Loop.{handled_at_most_once}
use message_broker_patterns.Dlq.Consumer.Outcomes.{Outcome, handle_message-Outcome}
use message_broker_patterns.Dlq.Consumer.Budget.{IsBounded, run-IsBounded}

abbrev payment : Payment
payment = record { payment_id = "p1"; amount_cents = pos 250; customer_id = "c1"; currency = "EUR" }

-- Accepts every payment.
abbrev accepting : Handler ℕ
accepting consumer p h = (ok tt, h)

-- Refuses every payment.
abbrev refusing : Handler ℕ
refusing consumer p h = (err value_error, h)

-- The same payment published twice.
abbrev two_published : Process memory
two_published =
    (publish payment (publish payment (record { client = Memory.empty; metrics = [] })).1).1

abbrev logged_start : Run memory (List String × ℕ)
logged_start = record {
  process = two_published;
  handler_state = ([], 0);
  attempts = [];
  total_processed = 0;
}

abbrev start : Run memory ℕ
start = record { process = two_published; handler_state = 0; attempts = []; total_processed = 0 }

handled_at_most_once_example : Distinct (
    log_of
      (run_idempotent_consumer
        (recording accepting)
        "w1"
        "g"
        3
        10
        (pos 5)
        ((λ c. c) ∷ (λ c. c) ∷ [])
        logged_start).1)
handled_at_most_once_example =
    handled_at_most_once memory_laws accepting "w1" "g" 3 10 (pos 5) ((λ c. c) ∷ (λ c. c) ∷ [])
      logged_start ((λ c id h. h), ((λ c id h. h), tt)) refl

handle_message-Outcome_example :
    Returns (handle_message refusing "w1" "g" 1 10 (pos 5) ("1", to_fields payment) start) (λ _ t.
      Outcome memory_laws refusing "w1" "g" 1 10
        (pos 5)
        "1"
        payment
        start
        (processed (see start.process) "p1")
        (refusing "w1" payment 0).0
        t)
handle_message-Outcome_example =
    handle_message-Outcome memory_laws refusing "w1" "g" 1 10 (pos 5) "1" (to_fields payment)
      payment start (from_fields-to_fields payment)

run-IsBounded_example :
    Returns
      (run_idempotent_consumer refusing "w1" "g" 3 10 (pos 5) ((λ c. c) ∷ (λ c. c) ∷ []) start)
      (λ _ t. IsBounded 3 t)
run-IsBounded_example =
    run-IsBounded 3 refusing "w1" "g" 10 (pos 5) ((λ c. c) ∷ (λ c. c) ∷ []) start refl

-- A server that refuses every append.
abbrev full : Redis
full = record memory { xadd = λ stream f m. (err (other "OutOfMemoryError"), m) }

full_laws : Laws full
full_laws = record {
  xadd_lem = λ stream f s. tt;
  xadd_raised = λ stream f s. inl refl;
  xread_lem = memory_laws.xread_lem;
  xgroup_create_lem = memory_laws.xgroup_create_lem;
  xgroup_create_refused = memory_laws.xgroup_create_refused;
  xreadgroup_new_lem = memory_laws.xreadgroup_new_lem;
  xreadgroup_pending_lem = memory_laws.xreadgroup_pending_lem;
  xack_lem = memory_laws.xack_lem;
  sadd_lem = memory_laws.sadd_lem;
  sismember_lem = memory_laws.sismember_lem;
}

-- The first message has been delivered to "w1".
abbrev delivered : Process full
delivered = record {
  client = (Memory.xreadgroup_new main_stream "g" "w1" 10 none two_published.client).1;
  metrics = [];
}

move_to_dlq_loses_example :
    let (result, q) = move_to_dlq {r = full} "g" "1" payment "ValueError" 3 delivered in
    (result ≡ err (other "OutOfMemoryError"))
    × ((see q).owner main_stream "g" "1" ≡ none)
    × ((see q).entries dlq_stream ≡ (see delivered).entries dlq_stream)
move_to_dlq_loses_example =
    move_to_dlq_loses full_laws "g" "1" "ValueError" payment 3 1 (other "OutOfMemoryError")
      delivered (full.xack main_stream "g" "1" delivered.client).1
      (full.xack main_stream "g" "1" delivered.client).1 refl refl refl

from_fields-to_fields_example : from_fields (to_fields payment) ≡ ok payment
from_fields-to_fields_example = from_fields-to_fields payment

-- The consumer has read both messages and acknowledged neither.
abbrev held : Process memory
held = (read_new "g" "w1" 10 (pos 5) (ensure_all_groups "g" two_published).1).1

run_starves_example :
    Returns
      (run_retry_forever_consumer refusing "w1" "g" 10 ((λ c. c) ∷ (λ c. c) ∷ []) held 0)
      (λ _ t.
        (t.processed ≡ [])
        × (backlog main_stream "g" "w1" (see t.process)
            ≡ ("1", to_fields payment) ∷ ("2", to_fields payment) ∷ [])
        × (attempts_for "p1" t ≡ 2))
unfolding Memory.number ensure_all_groups read_new publish ensure_group str_int
run_starves_example =
    run_starves memory_laws refusing "w1" "g" 9 payment "1" (to_fields payment)
      (("2", to_fields payment) ∷ []) ((λ c. c) ∷ (λ c. c) ∷ []) held 0 refl
      (from_fields-to_fields payment) (λ h. (value_error, refl, refl))
      ((λ c. refl), ((λ c. refl), tt))
