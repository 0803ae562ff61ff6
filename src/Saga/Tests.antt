-- ===== src/Saga/Tests.antt =====
-- The theorems on the saga at concrete inputs.
use message_broker_patterns.Base.{String, ◌≡◌, refl, [], ◌∷◌, some, str_eq, if◌then◌else◌}
use message_broker_patterns.Base.Decimal.{str_int}
use message_broker_patterns.Base.Int.{ℤ, pos}
use message_broker_patterns.Base.Exec.{Result, ok, err, value_error, shipping_unavailable, Returns}
use message_broker_patterns.Redis.Memory
use message_broker_patterns.Redis.Instance.{memory, memory_laws}
use message_broker_patterns.Floats.{Floats}
use message_broker_patterns.EventSourcing.Store.{tagged}
use message_broker_patterns.Saga.Events.{
  Order, payment_processing, order_created, payment_failed, event_type, to_dict, from_dict,
}
use message_broker_patterns.Saga.Events.Codec.{from_dict-tagged}
use message_broker_patterns.Saga.Services.{Saga}
use message_broker_patterns.Saga.Services.Payment.{stored, answer_to, Answered, on_orders-Answered}
use message_broker_patterns.Saga.Naive.{
  Shop, place_order_without_compensation, charge, ship, create_order, set_status,
}
use message_broker_patterns.Saga.Naive.Outcomes.{Outcome, place_order-Outcome}
use message_broker_patterns.Saga.Runner.{on_orders}

-- Numbers that are their text, of which only "0" is not positive.
abbrev texts : Floats
texts = record {
  Float = String;
  show = λ x. x;
  read = λ t. some t;
  le_zero = λ x. str_eq x "0";
  is_nan = λ x. str_eq x "nan";
  read-show = λ x. refl;
}

abbrev free : Order texts
free = record {
  order_id = "o1";
  customer_id = "c1";
  amount = "0";
  status = payment_processing;
  created_at = 0;
}

abbrev start : Saga texts memory
start = record {
  orders = ("o1", free) ∷ [];
  process = record { client = Memory.empty; metrics = [] };
  draws = 0;
}

on_orders-Answered_example :
    Returns (on_orders (λ k. str_int (pos k)) (stored (order_created "o1" "c1" "0")) start) (λ _ t.
      Answered memory_laws
        (λ k. str_int (pos k))
        (answer_to (texts.le_zero "0") "o1" "0" (str_int (pos 0)))
        start
        t)
on_orders-Answered_example = on_orders-Answered memory_laws (λ k. str_int (pos k)) free start

from_dict-tagged_example :
    from_dict
      (payment_failed "o1" "no")
      (tagged (event_type (payment_failed "o1" "no")) (to_dict (payment_failed "o1" "no")))
    ≡ ok (payment_failed "o1" "no")
from_dict-tagged_example = from_dict-tagged (payment_failed "o1" "no")

-- The shipping service has no stock for the order; "0" stands for 9.50, and no other text is an
-- amount.
abbrev to_cents : String → Result ℤ
to_cents x = if str_eq x "0" then ok (pos 950) else err value_error

abbrev shop : Shop texts to_cents
shop = record {
  orders = [];
  payments = record { decline_for = "o7" ∷ []; ledger = ("o1", pos 50) ∷ [] };
  shipping = record { reject_for = "o1" ∷ []; shipments = [] };
}

place_order-Outcome_example :
    Outcome to_cents free "tr" shop
      (place_order_without_compensation texts to_cents free "tx" "tr" shop)
place_order-Outcome_example = place_order-Outcome to_cents free "tx" "tr" shop

charged_without_shipping :
    (place_order_without_compensation texts to_cents free "tx" "tr" shop).0
    ≡ err shipping_unavailable
unfolding place_order_without_compensation charge ship create_order set_status
charged_without_shipping = refl

amount_without_cents :
    (place_order_without_compensation texts to_cents
      (record free { amount = "nan" })
      "tx"
      "tr"
      shop).0
    ≡ err value_error
unfolding place_order_without_compensation create_order set_status
amount_without_cents = refl
