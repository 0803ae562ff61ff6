-- ===== src/Outbox/Relay/NoLoss.antt =====
-- No event is lost: a committed order has its row in the outbox until its message is on the stream.
use message_broker_patterns.Base.{
  ℕ, suc, ◌+◌, ◌≤◌, ◌<◌, String, ◌≡◌, refl, Bool, true, false, ◌||◌, Option, none, some, List, [],
  ◌∷◌, ◌++◌, arith, str_eq, if◌then◌else◌,
}
use message_broker_patterns.Base.Dict.{lookup, insert, contains, lookup-insert}
use message_broker_patterns.Base.Exec.{Exn}
use message_broker_patterns.Metrics.{Registry}
use message_broker_patterns.Redis.View.{Fields, Entry}
use message_broker_patterns.Floats.{Floats}
use message_broker_patterns.Outbox.{
  Order, OutboxEntry, Db, order_payload, entry_of, insert_order_with_outbox, without_id,
  str_payload, str_json, inserted, refusal,
}

-- The message is about the order.
abbrev pub carries : String → Fields → Bool
carries o f = elim (lookup "order_id" f) [ none ↦ false | some v ↦ str_eq v o ]

abbrev pub published : String → List Entry → Bool
published o [] = false
published o ((id, f) ∷ es) = if carries o f then true else published o es

pub published-append :
    (o : String) (es : List Entry) (e : Entry)
    → published o (es ++ e ∷ []) ≡ (published o es || carries o e.1)
published-append o [] e = ground arith
published-append o ((id, f) ∷ es) e = ground (arith, published-append o es e)

module _ (fl : Floats) where
  abbrev pub has_entry : String → List (OutboxEntry fl) → Bool
  has_entry o [] = false
  has_entry o (e ∷ es) = if str_eq e.order_id o then true else has_entry o es

  -- Ids grow along the outbox and stay below the next one, and each payload names its order.
  abbrev pub IsQueue : ℕ → ℕ → List (OutboxEntry fl) → Type 0
  IsQueue low next [] = Unit
  IsQueue low next (e ∷ es) =
      (low ≤ e.id)
      × (e.id < next)
      × (lookup "order_id" (str_payload fl e.payload) ≡ some e.order_id)
      × IsQueue (suc e.id) next es

  -- Each committed order has its row in the outbox, or its message on the stream.
  abbrev pub Covered : Db fl → List Entry → Type 0
  Covered db messages =
      (o : String)
      → contains o db.orders ≡ true
      → (has_entry o db.outbox || published o messages) ≡ true

  has_entry-append :
      (o : String) (es : List (OutboxEntry fl)) (e : OutboxEntry fl)
      → has_entry o (es ++ e ∷ []) ≡ (has_entry o es || str_eq e.order_id o)
  has_entry-append o [] e = ground arith
  has_entry-append o (f ∷ es) e = ground (arith, has_entry-append o es e)

  IsQueue-append :
      (low next : ℕ) (es : List (OutboxEntry fl)) (e : OutboxEntry fl)
      → IsQueue low next es
      → low ≤ next
      → e.id ≡ next
      → lookup "order_id" (str_payload fl e.payload) ≡ some e.order_id
      → IsQueue low (next + 1) (es ++ e ∷ [])
  IsQueue-append low next [] e h le at named = (omega arith, omega arith, named, tt)
  IsQueue-append low next (f ∷ es) e h le at named =
      (h.0, omega arith, h.2, IsQueue-append (suc f.id) next es e h.3 (omega arith) at named)

  -- Deleting the oldest row by its id deletes that row only.
  without_id-above :
      (id low next : ℕ) (es : List (OutboxEntry fl))
      → IsQueue low next es
      → id < low
      → without_id fl id es ≡ es
  unfolding without_id
  without_id-above id low next [] h lt = refl
  without_id-above id low next (e ∷ es) h lt =
      ground (arith, without_id-above id (suc e.id) next es h.3)

  pub without_id-first :
      (low next : ℕ) (e : OutboxEntry fl) (es : List (OutboxEntry fl))
      → IsQueue low next (e ∷ es)
      → without_id fl e.id (e ∷ es) ≡ es
  unfolding without_id
  without_id-first low next e es h = ground (arith, without_id-above e.id (suc e.id) next es h.3)

  pub IsQueue-tail :
      (low next : ℕ) (e : OutboxEntry fl) (es : List (OutboxEntry fl))
      → IsQueue low next (e ∷ es)
      → IsQueue 0 next es
  IsQueue-tail low next e [] h = tt
  IsQueue-tail low next e (f ∷ es) h = (omega arith, h.3.1, h.3.2, h.3.3)

  -- An insertion keeps all this, whether it commits or is rolled back, for whatever fault.
  pub insert_order-Covered :
      (fault : Option Exn) (o : Order fl) (now : ℕ) (db : Db fl) (metrics : Registry)
      (messages : List Entry)
      → IsQueue 0 db.next_id db.outbox
      → Covered db messages
      → let after = (insert_order_with_outbox fl fault o now (db, metrics)).1.0 in
        IsQueue 0 after.next_id after.outbox × Covered after messages
  unfolding insert_order_with_outbox inserted str_payload order_payload str_json
  insert_order-Covered fault o now db metrics messages queue covered =
      go (refusal fl fault o db.orders)
    where
      covered_more :
          (x : String)
          → contains x (insert o.order_id o db.orders) ≡ true
          → (has_entry x (db.outbox ++ entry_of fl o db.next_id now ∷ []) || published x messages)
            ≡ true
      covered_more x h = ground (
        arith,
        h,
        covered x,
        lookup-insert o.order_id x o db.orders,
        has_entry-append x db.outbox (entry_of fl o db.next_id now),
      )

      go :
          (b : Option Exn)
          → let after = (inserted fl b o now (db, metrics)).1.0 in
            IsQueue 0 after.next_id after.outbox × Covered after messages
      go (some e) = (queue, covered)
      go none = (
        IsQueue-append 0 db.next_id db.outbox (entry_of fl o db.next_id now) queue (omega arith)
            refl refl,
        covered_more,
      )
