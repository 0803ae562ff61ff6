-- ===== src/Saga/Services.antt =====
-- saga_pattern/broker.py and services/: the three services over one broker. The orders are objects
-- that `run_saga` and the order service share, kept by their id; `uuid4` gives the next of a stream of
-- texts.
pub mod Payment
use message_broker_patterns.Base.{
  ℕ, suc, String, Bool, true, false, Option, none, some, List, [], str_append, if◌then◌else◌,
}
use message_broker_patterns.Base.Dict.{Dict, lookup, insert}
use message_broker_patterns.Base.Exec.{
  Exec, pure, gets, modify, or_raise, value_error, zoom, ◌>>=◌, ◌>>◌,
}
use message_broker_patterns.Redis.{Redis}
use message_broker_patterns.Redis.View.{Fields, Entry}
use message_broker_patterns.Process.{Process, on_client, count}
use message_broker_patterns.Floats.{Floats}
use message_broker_patterns.EventSourcing.Store.{tagged}
use message_broker_patterns.Saga.Events.{
  SagaStatus, payment_processing, paid, completed, cancelled, Order, stream_orders, stream_payments,
  stream_shipping, SagaEvent, order_created, payment_processed, payment_failed, order_shipped,
  order_cancelled, event_type, to_dict,
}

pub record Saga (fl : Floats) (r : Redis) : Type 0 where
  pub orders : Dict (Order fl)
  pub process : Process r
  -- how many uuids were drawn
  pub draws : ℕ

-- The assignment `order.status = status` on the order of an id, if it is there.
unfoldable pub with_status :
    {fl : Floats} → SagaStatus → String → Option (Order fl) → Dict (Order fl) → Dict (Order fl)
with_status status id none orders = orders
with_status status id (some o) orders = insert id (record o { status = status }) orders

module _ {r : Redis} where
  -- SagaBroker.publish
  unfoldable pub publish : String → String → Fields → Exec (Process r) String
  unfolding tagged
  publish stream event_type payload = on_client (r.xadd stream (tagged event_type payload))

  -- SagaBroker.consume
  unfoldable pub consume : String → String → Exec (Process r) (List Entry)
  consume stream last_id = on_client (r.xread stream last_id 100)

module _ {fl : Floats} {r : Redis} where
  abbrev pub on_process : {A : Type 0} → Exec (Process r) A → Exec (Saga fl r) A
  on_process = zoom (λ s. s.process) (λ p s. record s { process = p })

  unfoldable pub publish_event : String → SagaEvent → Exec (Saga fl r) String
  publish_event stream e = on_process (publish stream (event_type e) (to_dict e))

  unfoldable pub set_status : SagaStatus → String → Exec (Saga fl r) Unit
  set_status status id =
      modify (λ s. record s { orders = with_status status id (lookup id s.orders) s.orders })

  -- OrderService
  unfoldable pub create_order : Order fl → Exec (Saga fl r) Unit
  create_order o = do
    modify (λ s. record s { orders = insert o.order_id o s.orders })
    on_process (count "saga" "sagas_started")

  unfoldable pub publish_created : Order fl → Exec (Saga fl r) Unit
  publish_created o = do
    set_status payment_processing o.order_id
    publish_event stream_orders (order_created o.order_id o.customer_id (fl.show o.amount))
    pure tt

  -- `if order is None: return`
  abbrev pub if_known : Option (Order fl) → Exec (Saga fl r) Unit → Exec (Saga fl r) Unit
  if_known none act = pure tt
  if_known (some o) act = act

  unfoldable pub order_paid : String → Exec (Saga fl r) Unit
  order_paid id = do known ← gets (λ s. lookup id s.orders); if_known known (set_status paid id)

  unfoldable pub order_failed : String → String → Exec (Saga fl r) Unit
  order_failed id reason = do
    known ← gets (λ s. lookup id s.orders)
    if_known known do
      set_status cancelled id
      on_process (count "saga" "sagas_cancelled")
      publish_event stream_orders (order_cancelled id reason)
      pure tt

  unfoldable pub order_shipped_on : String → Exec (Saga fl r) Unit
  order_shipped_on id = do
    known ← gets (λ s. lookup id s.orders)
    if_known known do set_status completed id; on_process (count "saga" "sagas_completed")

  module _ (uuid4 : ℕ → String) where
    unfoldable pub new_uuid : Exec (Saga fl r) String
    new_uuid = do k ← gets (λ s. s.draws); modify (λ s. record s { draws = suc k }); pure (uuid4 k)

    -- PaymentService.handle_order_created
    unfoldable pub decide_payment : Bool → String → String → Exec (Saga fl r) Unit
    unfolding new_uuid
    decide_payment true id amount = do
      publish_event stream_payments (payment_failed id (str_append "Invalid amount: " amount))
      pure tt
    decide_payment false id amount = do
      tx ← new_uuid
      publish_event stream_payments (payment_processed id tx)
      pure tt

    unfoldable pub handle_order_created : String → String → Exec (Saga fl r) Unit
    unfolding decide_payment
    handle_order_created id amount_text = do
      amount ← or_raise (fl.read amount_text) value_error
      decide_payment (fl.le_zero amount) id amount_text

    -- ShippingService.handle_payment_processed
    unfoldable pub ship : String → Exec (Saga fl r) Unit
    unfolding new_uuid
    ship id = do
      tracking ← new_uuid
      publish_event stream_shipping (order_shipped id tracking)
      pure tt
