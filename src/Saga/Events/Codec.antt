-- ===== src/Saga/Events/Codec.antt =====
-- Saga events survive their text form.
use message_broker_patterns.Base.{◌≡◌, refl}
use message_broker_patterns.Base.Exec.{ok}
use message_broker_patterns.EventSourcing.Store.{tagged}
use message_broker_patterns.Saga.Events.{
  SagaEvent, order_created, payment_processed, payment_failed, order_shipped, order_cancelled,
  event_type, to_dict, from_dict, created_of, processed_of, failed_of, shipped_of, cancelled_of,
  from_two, from_three,
}

-- What the broker stores for an event, read by the event's class, is the event: the type that the
-- broker adds takes the place of the event's own.
pub from_dict-tagged : (e : SagaEvent) → from_dict e (tagged (event_type e) (to_dict e)) ≡ ok e
unfolding from_dict tagged to_dict event_type created_of processed_of failed_of shipped_of
    cancelled_of from_two from_three
from_dict-tagged (order_created o c a) = refl
from_dict-tagged (payment_processed o t) = refl
from_dict-tagged (payment_failed o r) = refl
from_dict-tagged (order_shipped o t) = refl
from_dict-tagged (order_cancelled o r) = refl
