-- ===== src/Outbox/Naive.antt =====
-- outbox_pattern/naive.py: the dual write, kept in the repository to show the loss.
pub mod Lost
use message_broker_patterns.Base.{
  String, Bool, true, false, Option, none, some, List, [], ◌∷◌, if◌then◌else◌,
}
use message_broker_patterns.Base.Dict.{Dict, insert, contains}
use message_broker_patterns.Base.Exec.{Exec, Exn, Result, ok, err, integrity_error, ◌>>◌}
use message_broker_patterns.Redis.View.{Fields}
use message_broker_patterns.Floats.{Floats}
use message_broker_patterns.Outbox.{Order, refusal}

-- The committed orders, and the world of the publish call.
pub record DualWrite (fl : Floats) (W : Type 0) : Type 0 where
  pub orders : Dict (Order fl)
  pub world : W

unfoldable pub order_created_event : (fl : Floats) → Order fl → Fields
order_created_event fl o =
    ("event", "order_created")
    ∷ ("order_id", o.order_id)
    ∷ ("customer_id", o.customer_id)
    ∷ ("amount", fl.show o.amount)
    ∷ []

module _ (fl : Floats) {W : Type 0} where
  unfoldable pub committed : Option Exn → Order fl → Exec (DualWrite fl W) Unit
  committed (some e) o s = (err e, s)
  committed none o s = (ok tt, record s { orders = insert o.order_id o s.orders })

  unfoldable pub published : Result String × W → Exec (DualWrite fl W) String
  published (x, w) s = (x, record s { world = w })

  -- Step 1 commits the order, or fails as the INSERT of insert_order_with_outbox does; step 2 is the
  -- caller's `publish`.
  unfoldable pub place_order_dual_write :
      (String → Fields → Exec W String)
      → Option Exn
      → Order fl
      → String
      → Exec (DualWrite fl W) String
  unfolding committed published
  place_order_dual_write publish fault o stream = do
    (λ s. committed (refusal fl fault o s.orders) o s)
    (λ s. published (publish stream (order_created_event fl o) s.world) s)
