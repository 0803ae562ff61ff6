-- ===== src/Outbox.antt =====
-- outbox_pattern: the two tables, the transaction that writes both, and the relay that publishes
-- from the outbox. The JSON payload is kept as the mapping that `json.loads` gives back, and a
-- timestamp as a number. SQLite keeps the rows of the outbox in the order of their ids, and never
-- gives an id twice (AUTOINCREMENT).
pub mod Relay
pub mod Naive
mod Tests
use message_broker_patterns.Base.{
  ℕ, suc, ◌+◌, String, Bool, true, false, Option, none, some, List, [], ◌∷◌, ◌++◌, map, take, ◌==◌,
  if◌then◌else◌,
}
use message_broker_patterns.Base.Dict.{Dict, lookup, insert, contains}
use message_broker_patterns.Base.Exec.{Exec, Exn, Result, ok, err, integrity_error}
use message_broker_patterns.Metrics.{Registry, increment}
use message_broker_patterns.Redis.View.{Fields}
use message_broker_patterns.Floats.{Floats}

module _ (fl : Floats) where
  -- models.Order
  pub record Order : Type 0 where
    pub order_id : String
    pub customer_id : String
    pub amount : fl.Float
    pub created_at : ℕ

  -- A value of the payload.
  pub data Json : Type 0 where
    text : String → Json
    number : fl.Float → Json

  -- models.OutboxEntry, once it has an id
  pub record OutboxEntry : Type 0 where
    pub id : ℕ
    pub order_id : String
    pub payload : Dict Json
    pub created_at : ℕ

  pub record Db : Type 0 where
    pub orders : Dict Order
    pub outbox : List OutboxEntry
    pub next_id : ℕ

  -- The payload of an `order_created` event.
  unfoldable pub order_payload : Order → Dict Json
  order_payload o =
      ("event", text "order_created")
      ∷ ("order_id", text o.order_id)
      ∷ ("customer_id", text o.customer_id)
      ∷ ("amount", number o.amount)
      ∷ []

  abbrev pub entry_of : Order → ℕ → ℕ → OutboxEntry
  entry_of o id now = record {
    id = id;
    order_id = o.order_id;
    payload = order_payload o;
    created_at = now;
  }

  -- Why SQLite refuses the INSERT of an order: its id is there, or its amount is no number, which
  -- SQLite takes for a missing value; or a fault of the database itself, which is given.
  unfoldable pub refusal : Option Exn → Order → Dict Order → Option Exn
  refusal fault o orders =
      if contains o.order_id orders
      then some integrity_error
      else if fl.is_nan o.amount
      then some integrity_error
      else fault

  unfoldable pub inserted : Option Exn → Order → ℕ → Exec (Db × Registry) OutboxEntry
  inserted (some e) o now (db, metrics) = (err e, (db, metrics))
  inserted none o now (db, metrics) = (
    ok (entry_of o db.next_id now),
    (
      record {
        orders = insert o.order_id o db.orders;
        outbox = db.outbox ++ entry_of o db.next_id now ∷ [];
        next_id = db.next_id + 1;
      },
      increment "transactional_outbox" "orders_inserted" 1 metrics,
    ),
  )

  -- Both rows in one transaction, which is rolled back when anything fails in it.
  unfoldable pub insert_order_with_outbox :
      Option Exn → Order → ℕ → Exec (Db × Registry) OutboxEntry
  unfolding inserted refusal
  insert_order_with_outbox fault o now s = inserted (refusal fault o s.0.orders) o now s

  -- SELECT ... ORDER BY id LIMIT n
  unfoldable pub poll_outbox : ℕ → Db → List OutboxEntry
  poll_outbox limit db = take limit db.outbox

  unfoldable pub without_id : ℕ → List OutboxEntry → List OutboxEntry
  without_id id [] = []
  without_id id (e ∷ es) = let rest = without_id id es in if e.id == id then rest else e ∷ rest

  -- DELETE FROM outbox WHERE id = ?
  unfoldable pub delete_outbox_entry : ℕ → Db → Db
  unfolding without_id
  delete_outbox_entry id db = record db { outbox = without_id id db.outbox }

  -- str(v)
  unfoldable pub str_json : Json → String
  str_json (text t) = t
  str_json (number x) = fl.show x

  -- {k: str(v) for k, v in payload.items()}
  unfoldable pub str_payload : Dict Json → Fields
  unfolding str_json
  str_payload [] = []
  str_payload ((k, v) ∷ d) = (k, str_json v) ∷ str_payload d
