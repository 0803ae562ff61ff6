-- ===== src/EventSourcing/Tests.antt =====
-- The theorems on event sourcing at concrete inputs.
use message_broker_patterns.Base.{◌≡◌, refl, List, [], ◌∷◌, ◌++◌, map, append-nil, true, sym, arith}
use message_broker_patterns.Base.Int.{pos, ◌≤ℤ◌, ◌+ℤ◌, ◌-ℤ◌}
use message_broker_patterns.Base.Decimal.{parse_int, str_int}
use message_broker_patterns.Base.Exec.{ok, Returns}
use message_broker_patterns.Redis.Memory
use message_broker_patterns.Redis.View.{Entry}
use message_broker_patterns.Redis.Instance.{memory, memory_laws, memory_up}
use message_broker_patterns.Process.{Process, see}
use message_broker_patterns.EventSourcing.Events.{
  AccountEvent, account_created, to_dict, event_type, account_stream,
}
use message_broker_patterns.EventSourcing.Aggregate
use message_broker_patterns.EventSourcing.Aggregate.{
  BankAccount, replay, withdraw, deposit, create, apply,
}
use message_broker_patterns.EventSourcing.Aggregate.Replay.{
  Command, open_for, put_in, take_out, execute, kept, run_commands, new_account, execute_atomic,
  run_commands_nonneg, replay-run_commands,
}
use message_broker_patterns.EventSourcing.Store.{append}
use message_broker_patterns.EventSourcing.Projector.{
  AccountSummary, Projection, new_summary, project,
}
use message_broker_patterns.EventSourcing.Projector.Agreement.{
  apply_all, SameModel, Returned, Together, apply_all-Together, read_model-run_commands,
}
use message_broker_patterns.EventSourcing.Naive.Balance.{
  Movement, paid_in, paid_out, Mirrors, on_rows, on_accounts, on_rows-Mirrors,
}
use message_broker_patterns.EventSourcing.Projector.Liveness.{project_catches_up}
use message_broker_patterns.EventSourcing.Projector.CatchUp.{project-IsFolded}

-- The second withdrawal is refused.
abbrev commands : List Command
commands = open_for "ann" ∷ put_in (pos 100) ∷ take_out (pos 30) ∷ take_out (pos 500) ∷ []

replay-run_commands_example :
    replay (run_commands commands (new_account "a1")).0
    ≡ ok (run_commands commands (new_account "a1")).1
unfolding run_commands execute withdraw deposit create apply parse_int str_int ◌+ℤ◌ ◌-ℤ◌
replay-run_commands_example = replay-run_commands commands "a1" refl

run_commands_nonneg_example : pos 0 ≤ℤ (run_commands commands (new_account "a1")).1.balance
run_commands_nonneg_example = run_commands_nonneg commands (new_account "a1") (omega arith)

execute_atomic_example : (execute (take_out (pos 5)) (new_account "a1")).1 ≡ new_account "a1"
unfolding kept execute withdraw
execute_atomic_example = execute_atomic (take_out (pos 5)) (new_account "a1") refl

read_model-run_commands_example :
    let (es, a) = run_commands commands (new_account "a1") in
    Returned (apply_all (map to_dict es) (new_summary "a1")) (SameModel a)
read_model-run_commands_example = read_model-run_commands commands "a1"

abbrev history : List AccountEvent
history = (run_commands commands (new_account "a1")).0

apply_all-Together_example :
    Together
      (Aggregate.apply_all history (new_account "a1"))
      (apply_all (map to_dict history) (new_summary "a1"))
apply_all-Together_example =
    apply_all-Together history (new_account "a1") (new_summary "a1")
      (record { owners = refl; balances = refl; versions = refl })

-- The account's stream holds its creation.
abbrev created : Process memory
created =
    (append "a1" "AccountCreated" (to_dict (account_created "a1" "ann"))
      (record { client = Memory.empty; metrics = [] })).1

abbrev projection : Projection memory
projection = record { process = created; summary = new_summary "a1"; last_id = "0" }

abbrev stored : List Entry
stored = (see created).entries (account_stream "a1")

project-IsFolded_example : Returns (project "a1" 1 ((λ c. c) ∷ []) created projection) (λ summary t.
    (seen : List Entry) × (rest : List Entry) × ((see t.process).entries (account_stream "a1")
      ≡ seen ++ rest)
    × (apply_all (map (λ e. e.1) seen) (new_summary "a1") ≡ (ok tt, summary)))
project-IsFolded_example =
    project-IsFolded memory_laws "a1" 1 ((λ c. c) ∷ []) created projection
      ((λ c. ([], sym (append-nil ((memory.view c).entries (account_stream "a1"))))), tt)

-- The events of all the commands, in the account's stream.
abbrev append_all : List AccountEvent → Process memory → Process memory
append_all [] p = p
append_all (e ∷ es) p = append_all es (append "a1" (event_type e) (to_dict e) p).1

abbrev all_stored : Process memory
all_stored = append_all history (record { client = Memory.empty; metrics = [] })

project_catches_up_example :
    (summary : AccountSummary) × ((project "a1" 3 ((λ c. c) ∷ []) all_stored projection).0
      ≡ ok summary)
    × SameModel (run_commands commands (new_account "a1")).1 summary
unfolding run_commands execute withdraw deposit create apply parse_int str_int ◌+ℤ◌ ◌-ℤ◌ kept
    Memory.number append account_stream to_dict
project_catches_up_example =
    project_catches_up memory_laws memory_up "a1" 3 commands (λ c. c) [] all_stored projection
      ((see all_stored).entries (account_stream "a1")) (λ c. refl) tt refl refl refl (omega arith)

abbrev opened : BankAccount
opened = record {
  account_id = "a1";
  owner_id = "ann";
  balance = pos 0;
  version = 1;
  created = true;
}

-- One withdrawal that is refused, and one deposit that the row cannot hold.
abbrev movements : List Movement
movements =
    paid_in (pos 100)
    ∷ paid_out (pos 30)
    ∷ paid_out (pos 500)
    ∷ paid_in (pos 9223372036854775807)
    ∷ []

on_rows-Mirrors_example :
    Mirrors "a1" "ann"
      (on_rows "a1" movements (("a1", record { owner_id = "ann"; balance = pos 0 }) ∷ []))
      (on_accounts movements opened)
on_rows-Mirrors_example =
    on_rows-Mirrors "a1" "ann" movements (("a1", record { owner_id = "ann"; balance = pos 0 }) ∷ [])
      opened (refl, refl)
