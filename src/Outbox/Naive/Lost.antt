-- ===== src/Outbox/Naive/Lost.antt =====
-- The event of a committed order whose publish failed never goes out.
use message_broker_patterns.Base.{
  String, ◌≡◌, refl, Bool, true, false, Option, none, some, List, [], ◌∷◌, arith, eq_iff, str_eq,
}
use message_broker_patterns.Base.Dict.{contains, lookup-insert}
use message_broker_patterns.Base.Exec.{Exec, Exn, err}
use message_broker_patterns.Redis.View.{Fields}
use message_broker_patterns.Floats.{Floats}
use message_broker_patterns.Outbox.{Order, refusal}
use message_broker_patterns.Outbox.Naive.{DualWrite, order_created_event, place_order_dual_write}

-- A call of place_order_dual_write: the fault of its transaction, if there is one, the order, and
-- the stream.
pub record Call (fl : Floats) : Type 0 where
  pub fault : Option Exn
  pub order : Order fl
  pub stream : String

module _ {fl : Floats} {W : Type 0} (publish : String → Fields → Exec W String) where
  abbrev pub place : Call fl → Exec (DualWrite fl W) String
  place c = place_order_dual_write fl publish c.fault c.order c.stream

  -- Calls one after the other, whatever they raise.
  abbrev pub place_all : List (Call fl) → DualWrite fl W → DualWrite fl W
  place_all [] s = s
  place_all (c ∷ cs) s = place_all cs (place c s).1

  -- The order is committed, and the world is as `Silent` says.
  abbrev pub Owed : (W → Type 0) → String → DualWrite fl W → Type 0
  Owed Silent id s = (contains id s.orders ≡ true) × Silent s.world

  -- An order whose id is there is refused.
  taken :
      (c : Call fl) (s : DualWrite fl W) (id : String)
      → str_eq c.order.order_id id ≡ true
      → contains id s.orders ≡ true
      → refusal fl c.fault c.order s.orders ≡ none
      → ⊥
  unfolding refusal
  taken c s id e there q = ground (arith, eq_iff c.order.order_id id)

  module _ (Silent : W → Type 0) (id : String)
      (others : (c : Call fl) (w : W)
        → str_eq c.order.order_id id ≡ false
        → Silent w
        → Silent (publish c.stream (order_created_event fl c.order) w).1) where
    place-Owed :
        (c : Call fl) (s : DualWrite fl W) → Owed Silent id s → Owed Silent id (place c s).1
    unfolding place_order_dual_write
    place-Owed c s h =
        split (str_eq c.order.order_id id) refl (refusal fl c.fault c.order s.orders) refl
      where
        split :
            (same : Bool)
            → str_eq c.order.order_id id ≡ same
            → (r : Option Exn) → refusal fl c.fault c.order s.orders ≡ r
            → Owed Silent id (place c s).1
        split same e (some exc) q = rw q h
        split true e none q = absurd (taken c s id e h.0 q)
        split false e none q = rw q (
          ground (arith, h.0, lookup-insert c.order.order_id id c.order s.orders),
          others c s.world e h.1,
        )

    place_all-Owed :
        (cs : List (Call fl)) (s : DualWrite fl W)
        → Owed Silent id s
        → Owed Silent id (place_all cs s)
    place_all-Owed [] s h = h
    place_all-Owed (c ∷ cs) s h = place_all-Owed cs (place c s).1 (place-Owed c s h)

  -- Let `Silent` be any property of the caller's world that publishing another order's event keeps,
  -- such as that no event of this order has gone out. If the database takes the order, and the publish
  -- raises and leaves a silent world, then the call raises the same exception, and after any further
  -- calls, attempts to place the same order again included, the order is committed and the world is
  -- silent still.
  pub dual_write_loses :
      (Silent : W → Type 0) (c : Call fl) (s : DualWrite fl W) (exc : Exn) (later : List (Call fl))
      → ((d : Call fl) (w : W)
          → str_eq d.order.order_id c.order.order_id ≡ false
          → Silent w
          → Silent (publish d.stream (order_created_event fl d.order) w).1)
      → refusal fl c.fault c.order s.orders ≡ none
      → (publish c.stream (order_created_event fl c.order) s.world).0 ≡ err exc
      → Silent (publish c.stream (order_created_event fl c.order) s.world).1
      → ((place c s).0 ≡ err exc) × Owed Silent c.order.order_id (place_all later (place c s).1)
  unfolding place_order_dual_write
  dual_write_loses Silent c s exc later others accepted failed silent = (
    rw accepted failed,
    place_all-Owed Silent c.order.order_id others later (place c s).1 (
        rw accepted (
          ground (
            arith,
            lookup-insert c.order.order_id c.order.order_id c.order s.orders,
            eq_iff c.order.order_id c.order.order_id,
          ),
          silent,
        )),
  )
