-- ===== src/Saga/Events.antt =====
-- saga_pattern/events.py and models.py: the events and their flat text form, and the order.
pub mod Codec
use message_broker_patterns.Base.{ℕ, String, Option, none, some, [], ◌∷◌}
use message_broker_patterns.Base.Dict.{lookup}
use message_broker_patterns.Base.Exec.{Result, ok, err, key_error}
use message_broker_patterns.Redis.View.{Fields}
use message_broker_patterns.Floats.{Floats}

pub data SagaStatus : Type 0 where
  pending payment_processing paid shipped completed cancelled : SagaStatus

pub record Order (fl : Floats) : Type 0 where
  pub order_id : String
  pub customer_id : String
  pub amount : fl.Float
  pub status : SagaStatus
  pub created_at : ℕ

abbrev pub stream_orders : String
stream_orders = "saga:orders"

abbrev pub stream_payments : String
stream_payments = "saga:payments"

abbrev pub stream_shipping : String
stream_shipping = "saga:shipping"

-- The five event classes. Nothing in the program sets `event_type`, so it is the default of its
-- class.
pub data SagaEvent : Type 0 where
  order_created : (order_id customer_id amount : String) → SagaEvent
  payment_processed : (order_id transaction_id : String) → SagaEvent
  payment_failed : (order_id reason : String) → SagaEvent
  order_shipped : (order_id tracking_number : String) → SagaEvent
  order_cancelled : (order_id reason : String) → SagaEvent

unfoldable pub event_type : SagaEvent → String
event_type (order_created o c a) = "OrderCreated"
event_type (payment_processed o t) = "PaymentProcessed"
event_type (payment_failed o r) = "PaymentFailed"
event_type (order_shipped o t) = "OrderShipped"
event_type (order_cancelled o r) = "OrderCancelled"

unfoldable pub to_dict : SagaEvent → Fields
unfolding event_type
to_dict (order_created o c a) =
    ("event_type", event_type (order_created o c a))
    ∷ ("order_id", o)
    ∷ ("customer_id", c)
    ∷ ("amount", a)
    ∷ []
to_dict (payment_processed o t) =
    ("event_type", event_type (payment_processed o t))
    ∷ ("order_id", o)
    ∷ ("transaction_id", t)
    ∷ []
to_dict (payment_failed o r) =
    ("event_type", event_type (payment_failed o r)) ∷ ("order_id", o) ∷ ("reason", r) ∷ []
to_dict (order_shipped o t) =
    ("event_type", event_type (order_shipped o t)) ∷ ("order_id", o) ∷ ("tracking_number", t) ∷ []
to_dict (order_cancelled o r) =
    ("event_type", event_type (order_cancelled o r)) ∷ ("order_id", o) ∷ ("reason", r) ∷ []

-- The `from_dict` of a class with two fields: a missing key is a KeyError.
unfoldable pub from_two :
    (String → String → SagaEvent) → Option String → Option String → Result SagaEvent
from_two make (some a) (some b) = ok (make a b)
from_two make (some a) none = err key_error
from_two make none b = err key_error

-- OrderCreated.from_dict
unfoldable pub from_three : Option String → Option String → Option String → Result SagaEvent
from_three (some o) (some c) (some a) = ok (order_created o c a)
from_three (some o) (some c) none = err key_error
from_three (some o) none a = err key_error
from_three none c a = err key_error

unfoldable pub created_of : Fields → Result SagaEvent
unfolding from_three
created_of raw = from_three (lookup "order_id" raw) (lookup "customer_id" raw) (lookup "amount" raw)

unfoldable pub processed_of : Fields → Result SagaEvent
unfolding from_two
processed_of raw = from_two payment_processed (lookup "order_id" raw) (lookup "transaction_id" raw)

unfoldable pub failed_of : Fields → Result SagaEvent
unfolding from_two
failed_of raw = from_two payment_failed (lookup "order_id" raw) (lookup "reason" raw)

unfoldable pub shipped_of : Fields → Result SagaEvent
unfolding from_two
shipped_of raw = from_two order_shipped (lookup "order_id" raw) (lookup "tracking_number" raw)

unfoldable pub cancelled_of : Fields → Result SagaEvent
unfolding from_two
cancelled_of raw = from_two order_cancelled (lookup "order_id" raw) (lookup "reason" raw)

-- The `from_dict` of an event's own class.
unfoldable pub from_dict : SagaEvent → Fields → Result SagaEvent
unfolding created_of processed_of failed_of shipped_of cancelled_of
from_dict (order_created o c a) = created_of
from_dict (payment_processed o t) = processed_of
from_dict (payment_failed o r) = failed_of
from_dict (order_shipped o t) = shipped_of
from_dict (order_cancelled o r) = cancelled_of
