-- ===== src/Outbox/Tests.antt =====
-- The theorems on the outbox at concrete inputs.
use message_broker_patterns.Base.{
  ℕ, zero, suc, String, ◌≡◌, refl, arith, ◌++◌, List, [], ◌∷◌, Bool, ◌||◌, none, some, true, false,
  str_eq,
}
use message_broker_patterns.Base.Exec.{Exec, ok, err, integrity_error, other, Ends}
use message_broker_patterns.Redis.Memory
use message_broker_patterns.Redis.View.{Fields}
use message_broker_patterns.Redis.Instance.{memory, memory_laws, memory_up}
use message_broker_patterns.Floats.{Floats}
use message_broker_patterns.Outbox.{Order, Db, insert_order_with_outbox, inserted, refusal}
use message_broker_patterns.Outbox.Naive.{DualWrite, order_created_event, place_order_dual_write}
use message_broker_patterns.Outbox.Naive.Lost.{Call, place, place_all, Owed, dual_write_loses}
use message_broker_patterns.Outbox.Relay.{Relay, run}
use message_broker_patterns.Outbox.Relay.NoLoss.{carries, IsQueue, Covered, insert_order-Covered}
use message_broker_patterns.Outbox.Relay.Drain.{bodies, payloads, run_drains}
use message_broker_patterns.Outbox.Relay.Safe.{IsSafe, run-IsSafe}

-- Numbers that are written as their text.
abbrev texts : Floats
texts = record {
  Float = String;
  show = λ x. x;
  read = λ t. some t;
  le_zero = λ x. false;
  is_nan = λ x. str_eq x "nan";
  read-show = λ x. refl;
}

abbrev order : Order texts
order = record { order_id = "o1"; customer_id = "c1"; amount = "9.5"; created_at = 1 }

abbrev new_db : Db texts
new_db = record { orders = []; outbox = []; next_id = 1 }

insert_order-Covered_example :
    let after = (insert_order_with_outbox texts none order 5 (new_db, [])).1.0 in
    IsQueue texts 0 after.next_id after.outbox × Covered texts after []
insert_order-Covered_example =
    insert_order-Covered texts none order 5 new_db [] [] tt (λ o there. there)

-- One order is committed, and none of the others acts.
abbrev start : Relay texts memory
start = record {
  db = (insert_order_with_outbox texts none order 5 (new_db, [])).1.0;
  process = record { client = Memory.empty; metrics = [] };
}

run-IsSafe_example :
    Ends
      (run {fl = texts} {r = memory} "orders" ((λ s. s) ∷ (λ s. s) ∷ []) start)
      (λ _. IsSafe memory_laws "orders")
      (IsSafe memory_laws "orders")
unfolding Memory.number
run-IsSafe_example =
    run-IsSafe memory_laws "orders" ((λ s. s) ∷ (λ s. s) ∷ []) start ((λ t h. h), ((λ t h. h), tt))
      (insert_order-Covered texts none order 5 new_db [] [] tt (λ o there. there))

-- One round of the relay moves the only row.
run_drains_example :
    let (result, t) = run {fl = texts} {r = memory} "orders" ((λ s. s) ∷ []) start in
    (result ≡ ok tt)
    × (t.db.outbox ≡ [])
    × (bodies memory_laws memory_up "orders" t
        ≡ bodies memory_laws memory_up "orders" start
          ++ payloads memory_laws memory_up "orders" start.db.outbox)
unfolding insert_order_with_outbox inserted refusal
run_drains_example =
    run_drains memory_laws memory_up "orders" ((λ s. s) ∷ []) start ((λ t. (refl, refl)), tt)
      (insert_order-Covered texts none order 5 new_db [] [] tt (λ o there. there)).0 (omega arith)

-- An amount that is no number is refused, and so is any order while the database has a fault.
nan_refused :
    insert_order_with_outbox texts none (record order { amount = "nan" }) 5 (new_db, [])
    ≡ (err integrity_error, (new_db, []))
unfolding insert_order_with_outbox inserted refusal
nan_refused = refl

locked_refused :
    insert_order_with_outbox texts (some (other "OperationalError")) order 5 (new_db, [])
    ≡ (err (other "OperationalError"), (new_db, []))
unfolding insert_order_with_outbox inserted refusal
locked_refused = refl

-- A broker that is down at the first call; the world counts the calls and keeps the events.
abbrev flaky : String → Fields → Exec (ℕ × List Fields) String
flaky stream f (zero, log) = (err (other "ConnectionError"), (1, log))
flaky stream f (suc n, log) = (ok "1-0", (suc n, f ∷ log))

abbrev mentions : String → List Fields → Bool
mentions id [] = false
mentions id (f ∷ log) = carries id f || mentions id log

-- No event of the order "o1" is out.
abbrev Silent : ℕ × List Fields → Type 0
Silent w = mentions "o1" w.1 ≡ false

others-Silent :
    (d : Call texts) (w : ℕ × List Fields)
    → str_eq d.order.order_id "o1" ≡ false
    → Silent w
    → Silent (flaky d.stream (order_created_event texts d.order) w).1
unfolding order_created_event
others-Silent d (zero, log) e h = h
others-Silent d (suc n, log) e h = rw (e, h) refl

abbrev shop : DualWrite texts (ℕ × List Fields)
shop = record { orders = []; world = (0, []) }

abbrev call : String → Call texts
call id = record { fault = none; order = record order { order_id = id }; stream = "orders" }

-- The same order is tried again, and another is placed.
dual_write_loses_example :
    ((place flaky (call "o1") shop).0 ≡ err (other "ConnectionError"))
    × Owed flaky Silent "o1"
        (place_all flaky (call "o1" ∷ call "o2" ∷ []) (place flaky (call "o1") shop).1)
unfolding refusal order_created_event
dual_write_loses_example =
    dual_write_loses flaky Silent (call "o1") shop (other "ConnectionError")
      (call "o1" ∷ call "o2" ∷ []) others-Silent refl refl refl

-- The other order's event goes out.
other_goes_out :
    mentions "o2" (place_all flaky (call "o1" ∷ call "o1" ∷ call "o2" ∷ []) shop).world.1 ≡ true
unfolding place_order_dual_write refusal order_created_event
other_goes_out = refl
