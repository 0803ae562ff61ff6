-- ===== src/ScatterGather/Tests.antt =====
-- The theorems on scatter-gather at concrete inputs.
use message_broker_patterns.Base.{
  ℕ, ◌+◌, ◌≤◌, String, ◌≡◌, List, [], ◌∷◌, ◌++◌, take, none, some, false, if◌then◌else◌, arith,
}
use message_broker_patterns.Base.{refl, suc, map, length, Bool, true, str_eq}
use message_broker_patterns.Base.Int.{pos}
use message_broker_patterns.Base.Exec.{Result, ok, err, value_error, type_error, cancelled}
use message_broker_patterns.ScatterGather.Service.{AirlineService, new_service, serve}
use message_broker_patterns.ScatterGather.Service.Answers.{
  quotes_of, is_caught, IsAnswer, serve_answers,
}
use message_broker_patterns.ScatterGather.Naive.{gather_quotes_sequentially, ask_in_turn}
use message_broker_patterns.ScatterGather.Models.{FlightQuote, SearchRequest, publish_subscribe}
use message_broker_patterns.ScatterGather.Broker.{Topics, queues_of, publish, subscribe}
use message_broker_patterns.ScatterGather.Broker.FanOut.{
  has, subscribe_to, unsubscribe_from, publish_on, do_calls, publish-once, Call,
}
use message_broker_patterns.ScatterGather.Aggregator.{
  Arrival, Message, request, quote, scatter, gather_loop, gather, scatter_gather, response_topic,
  broadcast_topic,
}
use message_broker_patterns.ScatterGather.Aggregator.Deadline.{answers, gather-Deadline}
use message_broker_patterns.ScatterGather.Combining.{cheapest, sort_by_price}
use message_broker_patterns.ScatterGather.Combining.Cheapest.{first, cheapest-sort_by_price}
use message_broker_patterns.ScatterGather.Aggregator.Cleanup.{scatter_gather-Cleanup}

abbrev new_broker : {M : Type 0} → Topics M
new_broker = record { subscribers = []; content = λ _. []; next_queue = 0; metrics = [] }

abbrev calls : List (Call ℕ)
calls = subscribe_to "t" ∷ subscribe_to "t" ∷ publish_on "t" 7 ∷ unsubscribe_from "t" 0 ∷ []

publish-once_example :
    let now = do_calls calls new_broker in
    (publish "t" 8 now).1.content 1
    ≡ (if has 1 (queues_of "t" now) then now.content 1 ++ 8 ∷ [] else now.content 1)
publish-once_example = publish-once calls new_broker "t" 8 1 (λ topic. tt)

abbrev quote_of : String → ℕ → FlightQuote
quote_of id price = record {
  correlation_id = id;
  airline = "air";
  flight_number = "f1";
  price_cents = pos price;
  depart_at = 9;
}

abbrev search : SearchRequest
search = record {
  correlation_id = "s1";
  origin = "ATH";
  destination = "LHR";
  departure_date = "2026-01-01";
  passengers = 1;
  created_at = 0;
}

-- A quote for another search, two for this one, and one that comes too late.
abbrev arrivals : List Arrival
arrivals =
    (1, quote_of "s2" 5)
    ∷ (2, quote_of "s1" 90)
    ∷ (3, quote_of "s1" 80)
    ∷ (50, quote_of "s1" 10)
    ∷ []

gather-Deadline_example :
    let g = (gather "s1" 3 10 arrivals 0 new_broker).0 in
    (g.collected ≡ take 3 (answers "s1" (0 + 10) arrivals)) × (g.at ≤ 0 + 10)
gather-Deadline_example = gather-Deadline "s1" 3 10 0 arrivals new_broker (omega arith)

-- The search is cancelled while it waits for its second quote.
scatter_gather-Cleanup_example :
    let after =
      (scatter_gather
        (λ t. t)
        arrivals
        (some 1)
        0
        search
        publish_subscribe
        3
        10
        none
        new_broker).1 in
    has 0 (queues_of response_topic after) ≡ false
scatter_gather-Cleanup_example =
    scatter_gather-Cleanup (λ t. t) arrivals (some 1) 0 search publish_subscribe 3 10 none
      new_broker (λ topic. tt) (λ t h. h)

cancelled_search :
    (scatter_gather (λ t. t) arrivals (some 1) 0 search publish_subscribe 3 10 none new_broker).0
    ≡ err cancelled
unfolding scatter_gather scatter gather gather_loop publish subscribe
cancelled_search = refl

-- It has both quotes before it is cancelled.
ended_before :
    (scatter_gather (λ t. t) arrivals (some 3) 0 search publish_subscribe 2 10 none new_broker).0
    ≡ ok (quote_of "s1" 90 ∷ quote_of "s1" 80 ∷ [])
unfolding scatter_gather scatter gather gather_loop publish subscribe
ended_before = refl

cheapest-sort_by_price_example :
    cheapest (quote_of "s1" 90 ∷ quote_of "s1" 80 ∷ [])
    ≡ first (sort_by_price (quote_of "s1" 90 ∷ quote_of "s1" 80 ∷ []))
cheapest-sort_by_price_example = cheapest-sort_by_price (quote_of "s1" 90 ∷ quote_of "s1" 80 ∷ [])

-- An airline that flies from Athens only; another message is no search.
abbrev from_athens : Message → Result FlightQuote
from_athens (request r) =
    if str_eq r.origin "ATH" then ok (quote_of r.correlation_id 70) else err value_error
from_athens (quote q) = err type_error

abbrev airline : AirlineService
airline =
    (new_service "air" broadcast_topic response_topic (subscribe response_topic new_broker).1).0

from_athens-IsAnswer : IsAnswer (λ m l. (from_athens m, suc l)) airline from_athens 0
from_athens-IsAnswer (request r) = (λ l. refl, caught (str_eq r.origin "ATH"))
  where
    caught :
        (b : Bool)
        → is_caught (if b then ok (quote_of r.correlation_id 70) else err value_error) ≡ true
    caught true = refl
    caught false = refl
from_athens-IsAnswer (quote q) = (λ l. refl, refl)

-- Two searches, of which the airline can answer the first.
abbrev searched : Topics Message
searched =
    (publish broadcast_topic (request (record search { origin = "SKG" }))
      (publish broadcast_topic (request search)
        (new_service "air" broadcast_topic response_topic
          (subscribe response_topic new_broker).1).1).1).1

serve_answers_example :
    let (result, t) =
      serve
        (λ m l. (from_athens m, suc l))
        airline
        ((λ b. b) ∷ (λ b. b) ∷ (λ b. b) ∷ [])
        searched
        0 in
    let qs = quotes_of from_athens (searched.content airline.queue) in
    (result ≡ ok (length qs))
    × (t.broker.content airline.queue ≡ [])
    × (t.broker.content 0 ≡ searched.content 0 ++ map (λ q. quote q) qs)
unfolding new_service subscribe publish
serve_answers_example =
    serve_answers (λ m l. (from_athens m, suc l)) airline from_athens 0 refl
      ((λ b. b) ∷ (λ b. b) ∷ (λ b. b) ∷ []) searched 0 from_athens-IsAnswer
      ((λ b. refl), ((λ b. refl), ((λ b. refl), tt))) refl (omega arith)

-- Asked one after the other, the first airline's quote is lost with the second's failure.
one_failure_sinks_all :
    (gather_quotes_sequentially search
      ((λ s n. (ok (quote_of "s1" 70), n + 200)) ∷ (λ s n. (err value_error, n)) ∷ [])
      0).0
    ≡ err value_error
unfolding gather_quotes_sequentially ask_in_turn
one_failure_sinks_all = refl
