-- ===== src/Saga/Naive.antt =====
-- saga_pattern/naive.py: the direct calls without a compensation. The order service's table holds
-- the caller's order itself, so a new status is seen in the table. The new ids are given.
pub mod Outcomes
use message_broker_patterns.Base.{
  String, Bool, false, ◌||◌, List, [], ◌∷◌, ◌++◌, str_eq, if◌then◌else◌,
}
use message_broker_patterns.Base.Int.{ℤ, pos, ◌+ℤ◌}
use message_broker_patterns.Base.Dict.{Dict, insert}
use message_broker_patterns.Base.Exec.{
  Exec, Result, ok, err, pure, lift, modify, zoom, payment_declined, shipping_unavailable, ◌>>◌,
  ◌>>=◌,
}
use message_broker_patterns.Floats.{Floats}
use message_broker_patterns.Saga.Events.{Order, SagaStatus, payment_processing, paid, completed}

abbrev pub is_in : String → List String → Bool
is_in x [] = false
is_in x (y ∷ ys) = str_eq y x || is_in x ys

-- NaivePaymentService
pub record PaymentService : Type 0 where
  pub decline_for : List String
  pub ledger : List (String × ℤ)

unfoldable pub charge : String → ℤ → String → Exec PaymentService String
charge order_id amount_cents transaction_id s =
    if is_in order_id s.decline_for
    then (err payment_declined, s)
    else (ok transaction_id, record s { ledger = s.ledger ++ (order_id, amount_cents) ∷ [] })

-- NaivePaymentService.net_cents
unfoldable pub net_cents : String → List (String × ℤ) → ℤ
net_cents order_id [] = pos 0
net_cents order_id ((charged_id, cents) ∷ ledger) =
    let rest = net_cents order_id ledger in
    if str_eq charged_id order_id then cents +ℤ rest else rest

-- NaiveShippingService
pub record ShippingService : Type 0 where
  pub reject_for : List String
  pub shipments : List String

unfoldable pub ship : String → String → Exec ShippingService String
ship order_id tracking_number s =
    if is_in order_id s.reject_for
    then (err shipping_unavailable, s)
    else (ok tracking_number, record s { shipments = s.shipments ++ order_id ∷ [] })

module _ (fl : Floats) (cents : fl.Float → Result ℤ) where
  -- The three services; NaiveOrderService is its table.
  pub record Shop : Type 0 where
    pub orders : Dict (Order fl)
    pub payments : PaymentService
    pub shipping : ShippingService

  unfoldable pub create_order : Order fl → Exec Shop Unit
  create_order order = modify (λ s. record s { orders = insert order.order_id order s.orders })

  -- order.status = status, on the order of the table
  unfoldable pub set_status : Order fl → SagaStatus → Exec Shop Unit
  set_status order status =
      modify (λ s. record s {
        orders = insert order.order_id (record order { status = status }) s.orders;
      })

  -- `cents` is int(amount * 100), which raises for an amount that is no number or infinite.
  unfoldable pub place_order_without_compensation :
      Order fl → (transaction_id tracking_number : String) → Exec Shop String
  unfolding create_order set_status
  place_order_without_compensation order transaction_id tracking_number = do
    create_order order
    set_status order payment_processing
    amount_cents ← lift (cents order.amount)
    zoom (λ s. s.payments) (λ p s. record s { payments = p })
        (charge order.order_id amount_cents transaction_id)
    set_status order paid
    number ←
        zoom (λ s. s.shipping) (λ p s. record s { shipping = p })
          (ship order.order_id tracking_number)
    set_status order completed
    pure number
