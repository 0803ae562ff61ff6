-- ===== src/ScatterGather/Combining.antt =====
-- scatter_gather_pattern/combining.py. `sorted` is the stable sort that Python documents.
pub mod Cheapest
use message_broker_patterns.Base.{
  ℕ, Bool, true, false, Option, none, some, List, [], ◌∷◌, leb, if◌then◌else◌,
}
use message_broker_patterns.Base.Int.{ltb_ℤ, leb_ℤ}
use message_broker_patterns.ScatterGather.Models.{FlightQuote}

-- `q` goes before the first quote that is dearer or as dear.
unfoldable pub insert_by_price : FlightQuote → List FlightQuote → List FlightQuote
insert_by_price q [] = q ∷ []
insert_by_price q (p ∷ ps) =
    let rest = insert_by_price q ps in
    if leb_ℤ q.price_cents p.price_cents then q ∷ p ∷ ps else p ∷ rest

-- sorted(quotes, key=price_cents)
unfoldable pub sort_by_price : List FlightQuote → List FlightQuote
sort_by_price [] = []
sort_by_price (q ∷ qs) = insert_by_price q (sort_by_price qs)

-- min: the first of the lowest
abbrev pub lowest : FlightQuote → List FlightQuote → FlightQuote
lowest best [] = best
lowest best (q ∷ qs) = lowest (if ltb_ℤ q.price_cents best.price_cents then q else best) qs

unfoldable pub cheapest : List FlightQuote → Option FlightQuote
cheapest [] = none
cheapest (q ∷ qs) = some (lowest q qs)

unfoldable pub filter_departing_after : ℕ → List FlightQuote → List FlightQuote
filter_departing_after threshold [] = []
filter_departing_after threshold (q ∷ qs) =
    let rest = filter_departing_after threshold qs in
    if leb threshold q.depart_at then q ∷ rest else rest
