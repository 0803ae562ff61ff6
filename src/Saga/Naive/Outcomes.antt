-- ===== src/Saga/Naive/Outcomes.antt =====
-- How the sequence of direct calls ends, and what each ending leaves behind.
use message_broker_patterns.Base.{
  String, ◌≡◌, refl, ap, ◌∙◌, Bool, true, false, some, List, [], ◌∷◌, ◌++◌, str_eq, arith, eq_iff,
  if◌then◌else◌,
}
use message_broker_patterns.Base.Int.{ℤ, pos, ◌+ℤ◌, +ℤ_parts, eq_of_parts}
use message_broker_patterns.Base.Dict.{Dict, lookup, insert, lookup-insert}
use message_broker_patterns.Base.Exec.{Exn, Result, ok, err, payment_declined, shipping_unavailable}
use message_broker_patterns.Floats.{Floats}
use message_broker_patterns.Saga.Events.{Order, SagaStatus, payment_processing, paid, completed}
use message_broker_patterns.Saga.Naive.{
  is_in, charge, net_cents, ship, Shop, create_order, set_status, place_order_without_compensation,
}

swap : (a b : ℤ) → a +ℤ b ≡ b +ℤ a
swap a b = eq_of_parts (a +ℤ b) (b +ℤ a) (omega (arith, +ℤ_parts a b, +ℤ_parts b a))

regroup : (a b c : ℤ) → a +ℤ (b +ℤ c) ≡ a +ℤ b +ℤ c
regroup a b c =
    eq_of_parts (a +ℤ (b +ℤ c)) (a +ℤ b +ℤ c)
      (omega (arith, +ℤ_parts a (b +ℤ c), +ℤ_parts b c, +ℤ_parts (a +ℤ b) c, +ℤ_parts a b))

lookup_inserted :
    {V : Type 0} (key : String) (v : V) (d : Dict V) → lookup key (insert key v d) ≡ some v
lookup_inserted key v d = ground (arith, lookup-insert key key v d, eq_iff key key)

-- What is charged last is added to what is held for the order.
net-append :
    (o : String) (ledger : List (String × ℤ)) (c : ℤ)
    → net_cents o (ledger ++ (o, c) ∷ []) ≡ net_cents o ledger +ℤ c
unfolding net_cents
net-append o [] c = rw ((eq_iff o o).1 refl) (swap c (pos 0))
net-append o ((j, d) ∷ ledger) c = go (net-append o ledger c) (str_eq j o)
  where
    go :
        net_cents o (ledger ++ (o, c) ∷ []) ≡ net_cents o ledger +ℤ c
        → (b : Bool)
        → (if b
            then d +ℤ net_cents o (ledger ++ (o, c) ∷ [])
            else net_cents o (ledger ++ (o, c) ∷ []))
          ≡ (if b then d +ℤ net_cents o ledger else net_cents o ledger) +ℤ c
    go h true = ap (λ n. d +ℤ n) h ∙ regroup d (net_cents o ledger) c
    go h false = h

module _ {fl : Floats} (cents : fl.Float → Result ℤ) where
  -- The order's row in the table has the status.
  abbrev pub Stands : Order fl → SagaStatus → Shop fl cents → Type 0
  Stands order status t = lookup order.order_id t.orders ≡ some (record order { status = status })

  -- The order's customer has been charged `n` more than before.
  abbrev pub Charged : Order fl → ℤ → Shop fl cents → Shop fl cents → Type 0
  Charged order n s t =
      net_cents order.order_id t.payments.ledger ≡ net_cents order.order_id s.payments.ledger +ℤ n

  pub data Outcome (order : Order fl) (tracking_number : String) (s : Shop fl cents)
      : Result String × Shop fl cents → Type 0 where
    unpriced :
        (e : Exn) (t : Shop fl cents)
        → cents order.amount ≡ err e
        → Stands order payment_processing t
        → t.payments ≡ s.payments
        → t.shipping ≡ s.shipping
        → Outcome order tracking_number s (err e, t)
    declined :
        (n : ℤ) (t : Shop fl cents)
        → cents order.amount ≡ ok n
        → is_in order.order_id s.payments.decline_for ≡ true
        → Stands order payment_processing t
        → t.payments ≡ s.payments
        → t.shipping ≡ s.shipping
        → Outcome order tracking_number s (err payment_declined, t)
    stranded :
        (n : ℤ) (t : Shop fl cents)
        → cents order.amount ≡ ok n
        → is_in order.order_id s.payments.decline_for ≡ false
        → is_in order.order_id s.shipping.reject_for ≡ true
        → Stands order paid t
        → Charged order n s t
        → t.shipping ≡ s.shipping
        → Outcome order tracking_number s (err shipping_unavailable, t)
    shipped :
        (n : ℤ) (t : Shop fl cents)
        → cents order.amount ≡ ok n
        → is_in order.order_id s.payments.decline_for ≡ false
        → is_in order.order_id s.shipping.reject_for ≡ false
        → Stands order completed t
        → Charged order n s t
        → t.shipping.shipments ≡ s.shipping.shipments ++ order.order_id ∷ []
        → Outcome order tracking_number s (ok tracking_number, t)

  -- A call ends in one of four ways. If the amount has no cents, the call raises what the conversion
  -- raises, and if the payment is declined, it raises that: either way nothing is charged or shipped,
  -- and the order stands in processing. If the payment is accepted and the shipment refused, the call
  -- raises that the shipping is unavailable and undoes nothing: the order stands as paid, its
  -- customer is charged the amount in cents, and nothing is shipped. Otherwise the customer is charged
  -- the same, the order is shipped and stands as completed, and the tracking number is returned.
  pub place_order-Outcome :
      (order : Order fl) (transaction_id tracking_number : String) (s : Shop fl cents)
      → Outcome order tracking_number s
          (place_order_without_compensation fl cents order transaction_id tracking_number s)
  unfolding place_order_without_compensation create_order set_status charge ship
  place_order-Outcome order transaction_id tracking_number s =
      split (cents order.amount) refl (is_in order.order_id s.payments.decline_for) refl
        (is_in order.order_id s.shipping.reject_for) refl
    where
      split :
          (r : Result ℤ)
          → cents order.amount ≡ r
          → (d : Bool) → is_in order.order_id s.payments.decline_for ≡ d
          → (j : Bool) → is_in order.order_id s.shipping.reject_for ≡ j
          → Outcome order tracking_number s
              (place_order_without_compensation fl cents order transaction_id tracking_number s)
      split (err e) c d p j q = rw c (unpriced e _ c (lookup_inserted order.order_id _ _) refl refl)
      split (ok n) c true p j q =
          rw (c, p) (declined n _ c p (lookup_inserted order.order_id _ _) refl refl)
      split (ok n) c false p true q =
          rw (c, p, q)
            (stranded n _ c p q (lookup_inserted order.order_id _ _)
              (net-append order.order_id s.payments.ledger n) refl)
      split (ok n) c false p false q =
          rw (c, p, q)
            (shipped n _ c p q (lookup_inserted order.order_id _ _)
              (net-append order.order_id s.payments.ledger n) refl)
