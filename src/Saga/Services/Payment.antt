-- ===== src/Saga/Services/Payment.antt =====
-- What the payment service answers to a created order.
use message_broker_patterns.Base.{ℕ, suc, String, ◌≡◌, refl, Bool, true, false, str_append}
use message_broker_patterns.Base.Exec.{Result, ok, err, and_then, Returns}
use message_broker_patterns.Redis.{Redis, Laws}
use message_broker_patterns.Redis.View.{Fields, with_entry}
use message_broker_patterns.Process.{see}
use message_broker_patterns.Floats.{Floats}
use message_broker_patterns.EventSourcing.Store.{tagged}
use message_broker_patterns.Saga.Events.{
  Order, stream_payments, SagaEvent, order_created, payment_processed, payment_failed, event_type,
  to_dict, created_of, from_three,
}
use message_broker_patterns.Saga.Services.{
  Saga, publish, publish_event, new_uuid, decide_payment, handle_order_created,
}
use message_broker_patterns.Saga.Runner.{type_of, on_created, on_orders}

-- What the broker stores for an event.
abbrev pub stored : SagaEvent → Fields
stored e = tagged (event_type e) (to_dict e)

-- The answer to an order of an amount: a refusal if it is not positive, else the next transaction id.
abbrev pub answer_to : Bool → String → String → String → SagaEvent
answer_to true id amount tx = payment_failed id (str_append "Invalid amount: " amount)
answer_to false id amount tx = payment_processed id tx

module _ {fl : Floats} {r : Redis} (laws : Laws r) (uuid4 : ℕ → String) where
  -- One more event on the payments stream, and the orders as they were.
  abbrev pub Answered : SagaEvent → Saga fl r → Saga fl r → Type 0
  Answered e s t =
      ((msg_id : String) × (see t.process
          ≡ with_entry stream_payments (msg_id, stored e) (see s.process)))
      × (t.orders ≡ s.orders)

  sent-Answered :
      (e : SagaEvent) (s t : Saga fl r) (x : Result String × r.State)
      → t.orders ≡ s.orders
      → Returns x
          (λ msg_id c. r.view c ≡ with_entry stream_payments (msg_id, stored e) (see s.process))
      → Returns
          (and_then
            (λ _ u. (ok tt, u))
            (x.0, record t { process = record t.process { client = x.1 } }))
          (λ _ u. Answered e s u)
  sent-Answered e s t (ok msg_id, c) same h = ((msg_id, h), same)
  sent-Answered e s t (err exc, c) same h = tt

  decide_payment-Answered :
      (b : Bool) (id amount : String) (s : Saga fl r)
      → Returns
          (decide_payment uuid4 b id amount s)
          (λ _ t. Answered (answer_to b id amount (uuid4 s.draws)) s t)
  unfolding decide_payment publish_event publish new_uuid
  decide_payment-Answered true id amount s =
      let e = answer_to true id amount "" in
      sent-Answered e s s (r.xadd stream_payments (stored e) s.process.client) refl
        (laws.xadd_lem stream_payments (stored e) s.process.client)
  decide_payment-Answered false id amount s =
      let e = answer_to false id amount (uuid4 s.draws) in
      sent-Answered e s (record s { draws = suc s.draws })
        (r.xadd stream_payments (stored e) s.process.client) refl
        (laws.xadd_lem stream_payments (stored e) s.process.client)

  -- Where the runner hands over the message that a created order has on the orders stream, and the call
  -- returns, the payments stream has exactly one event more, and no order is changed: PaymentFailed
  -- with the amount in its reason if the order's amount is zero or less, and else PaymentProcessed
  -- with a new transaction id.
  pub on_orders-Answered :
      (o : Order fl) (s : Saga fl r)
      → Returns
          (on_orders uuid4 (stored (order_created o.order_id o.customer_id (fl.show o.amount))) s)
          (λ _ t.
            Answered
              (answer_to (fl.le_zero o.amount) o.order_id (fl.show o.amount) (uuid4 s.draws))
              s
              t)
  unfolding on_orders on_created handle_order_created type_of tagged to_dict event_type created_of
      from_three
  on_orders-Answered o s =
      rw (fl.read-show o.amount)
        (decide_payment-Answered (fl.le_zero o.amount) o.order_id (fl.show o.amount) s)
