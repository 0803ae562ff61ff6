-- ===== src/Saga/Runner.antt =====
-- saga_pattern/runner.py. The schedule holds, for each round, what other clients have done to the server
-- by then; the stop event is set when it is used up.
use message_broker_patterns.Base.{
  ℕ, String, Bool, true, false, Option, none, some, List, [], ◌∷◌, str_eq, if◌then◌else◌,
}
use message_broker_patterns.Base.Dict.{Dict, lookup, insert}
use message_broker_patterns.Base.Exec.{Exec, pure, gets, modify, lift, zoom, ◌>>=◌, ◌>>◌}
use message_broker_patterns.Redis.{Redis}
use message_broker_patterns.Redis.View.{Fields, Entry}
use message_broker_patterns.Floats.{Floats}
use message_broker_patterns.Saga.Events.{
  SagaStatus, completed, cancelled, Order, stream_orders, stream_payments, stream_shipping,
  SagaEvent, order_created, payment_processed, payment_failed, order_shipped, created_of,
  processed_of, failed_of, shipped_of,
}
use message_broker_patterns.Saga.Services.{
  Saga, consume, on_process, create_order, publish_created, order_paid, order_failed,
  order_shipped_on, handle_order_created, ship,
}

-- The services with the local `last_ids`.
pub record Run (fl : Floats) (r : Redis) : Type 0 where
  pub saga : Saga fl r
  pub last_ids : Dict String

-- raw.get(b"event_type", b"").decode()
unfoldable pub type_of : Fields → String
type_of raw = elim (lookup "event_type" raw) [ none ↦ "" | some t ↦ t ]

abbrev pub is_terminal : Option SagaStatus → Bool
is_terminal (some completed) = true
is_terminal (some cancelled) = true
is_terminal _ = false

abbrev pub last_of : Option String → String
last_of none = "0"
last_of (some id) = id

abbrev pub status_of : {fl : Floats} → Option (Order fl) → Option SagaStatus
status_of none = none
status_of (some o) = some o.status

module _ {fl : Floats} {r : Redis} (uuid4 : ℕ → String) where
  -- The events that each stream's branch hands to the services.
  unfoldable pub on_created : SagaEvent → Exec (Saga fl r) Unit
  on_created (order_created id customer amount) = handle_order_created uuid4 id amount
  on_created _ = pure tt

  unfoldable pub on_processed : SagaEvent → Exec (Saga fl r) Unit
  on_processed (payment_processed id tx) = do order_paid id; ship uuid4 id
  on_processed _ = pure tt

  unfoldable pub on_failed : SagaEvent → Exec (Saga fl r) Unit
  on_failed (payment_failed id reason) = order_failed id reason
  on_failed _ = pure tt

  unfoldable pub on_shipped : SagaEvent → Exec (Saga fl r) Unit
  on_shipped (order_shipped id tracking) = order_shipped_on id
  on_shipped _ = pure tt

  unfoldable pub on_orders : Fields → Exec (Saga fl r) Unit
  on_orders raw =
      if str_eq (type_of raw) "OrderCreated"
      then (do e ← lift (created_of raw); on_created e)
      else pure tt

  unfoldable pub on_payments : Fields → Exec (Saga fl r) Unit
  on_payments raw =
      if str_eq (type_of raw) "PaymentProcessed"
      then (do e ← lift (processed_of raw); on_processed e)
      else if str_eq (type_of raw) "PaymentFailed"
      then (do e ← lift (failed_of raw); on_failed e)
      else pure tt

  unfoldable pub on_shipping : Fields → Exec (Saga fl r) Unit
  on_shipping raw =
      if str_eq (type_of raw) "OrderShipped"
      then (do e ← lift (shipped_of raw); on_shipped e)
      else pure tt

  abbrev pub on_saga : {A : Type 0} → Exec (Saga fl r) A → Exec (Run fl r) A
  on_saga = zoom (λ s. s.saga) (λ g s. record s { saga = g })

  -- The body of a `for` loop: the cursor moves first.
  unfoldable pub handle_all :
      String → (Fields → Exec (Saga fl r) Unit) → List Entry → Exec (Run fl r) Unit
  handle_all stream handle [] = pure tt
  handle_all stream handle ((msg_id, raw) ∷ rest) = do
    modify (λ s. record s { last_ids = insert stream msg_id s.last_ids })
    on_saga (handle raw)
    handle_all stream handle rest

  unfoldable pub drain : String → (Fields → Exec (Saga fl r) Unit) → Exec (Run fl r) Unit
  drain stream handle = do
    last_id ← gets (λ s. last_of (lookup stream s.last_ids))
    batch ← on_saga (on_process (consume stream last_id))
    handle_all stream handle batch

  unfoldable pub round : Exec (Run fl r) Unit
  round = do
    drain stream_orders on_orders
    drain stream_payments on_payments
    drain stream_shipping on_shipping

  -- The `while` loop: the result says whether the order reached a terminal state.
  unfoldable pub loop : String → List (r.State → r.State) → Exec (Run fl r) Bool
  loop id [] = pure false
  loop id (others ∷ rest) = do
    modify (λ s. record s {
      saga = record s.saga {
        process = record s.saga.process { client = others s.saga.process.client };
      };
    })
    round
    current ← gets (λ s. lookup id s.saga.orders)
    if is_terminal (status_of current) then pure true else loop id rest

  unfoldable pub run_saga : Order fl → List (r.State → r.State) → Exec (Run fl r) Bool
  run_saga o schedule = do
    on_saga (create_order o)
    on_saga (publish_created o)
    modify (λ s. record s {
      last_ids = (stream_orders, "0") ∷ (stream_payments, "0") ∷ (stream_shipping, "0") ∷ [];
    })
    loop o.order_id schedule
