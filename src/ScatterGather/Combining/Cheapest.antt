-- ===== src/ScatterGather/Combining/Cheapest.antt =====
-- The two combining rules agree on the best quote.
use message_broker_patterns.Base.{
  ◌≡◌, refl, ap, sym, ◌∙◌, Option, none, some, List, [], ◌∷◌, if◌then◌else◌, arith,
}
use message_broker_patterns.Base.Int.{ltb_ℤ, leb_ℤ}
use message_broker_patterns.ScatterGather.Models.{FlightQuote}
use message_broker_patterns.ScatterGather.Combining.{
  insert_by_price, sort_by_price, lowest, cheapest,
}

abbrev pub first : List FlightQuote → Option FlightQuote
first [] = none
first (q ∷ qs) = some q

-- The better of a quote and the best of the quotes after it.
abbrev pub better : FlightQuote → Option FlightQuote → FlightQuote
better q none = q
better q (some p) = if leb_ℤ q.price_cents p.price_cents then q else p

first-insert_by_price :
    (q : FlightQuote) (ps : List FlightQuote)
    → first (insert_by_price q ps) ≡ some (better q (first ps))
unfolding insert_by_price
first-insert_by_price q [] = refl
first-insert_by_price q (p ∷ ps) = ground arith

better_assoc :
    (q p : FlightQuote) (o : Option FlightQuote)
    → better (if ltb_ℤ p.price_cents q.price_cents then p else q) o ≡ better q (some (better p o))
better_assoc q p none = ground arith
better_assoc q p (some s) = ground arith

lowest-sort_by_price :
    (q : FlightQuote) (qs : List FlightQuote) → lowest q qs ≡ better q (first (sort_by_price qs))
unfolding sort_by_price
lowest-sort_by_price q [] = refl
lowest-sort_by_price q (p ∷ ps) =
    lowest-sort_by_price (if ltb_ℤ p.price_cents q.price_cents then p else q) ps
    ∙ better_assoc q p (first (sort_by_price ps))
    ∙ ap (better q) (sym (first-insert_by_price p (sort_by_price ps)))

-- `cheapest` gives the head of `sort_by_price`, on ties too: the same quote, the earliest collected
-- of the lowest fare; and nothing for no quotes.
pub cheapest-sort_by_price : (qs : List FlightQuote) → cheapest qs ≡ first (sort_by_price qs)
unfolding cheapest sort_by_price
cheapest-sort_by_price [] = refl
cheapest-sort_by_price (q ∷ qs) =
    ap some (lowest-sort_by_price q qs) ∙ sym (first-insert_by_price q (sort_by_price qs))
