-- ===== src/ScatterGather/Service.antt =====
-- scatter_gather_pattern/service.py: an airline that answers searches. The schedule has one element
-- for each round of its loop: what others have done to the broker by then. A simulated latency
-- leaves no trace, as it only lets time pass.
pub mod Answers
use message_broker_patterns.Base.{ℕ, ◌+◌, String, List, [], ◌∷◌, ◌==◌, if◌then◌else◌}
use message_broker_patterns.Base.Exec.{
  Exec, Result, ok, err, cancelled, pure, raise, modify, gets, ◌>>=◌, ◌>>◌,
}
use message_broker_patterns.ScatterGather.Models.{FlightQuote}
use message_broker_patterns.ScatterGather.Broker.{Topics, subscribe, publish}
use message_broker_patterns.ScatterGather.Aggregator.{Message, quote, report}

-- The caller's lookup, with the state that it closes over; an airline that cannot quote raises.
abbrev pub QuoteLookup : Type 0 → Type 0
QuoteLookup L = Message → Exec L FlightQuote

pub record AirlineService : Type 0 where
  pub name : String
  pub response_topic : String
  pub queue : ℕ

-- AirlineService.__init__: the queue is subscribed at once.
unfoldable pub new_service :
    (name request_topic response_topic : String) → Topics Message → AirlineService × Topics Message
new_service name request_topic response_topic b =
    let (queue, b') = subscribe request_topic b in
    (record { name = name; response_topic = response_topic; queue = queue }, b')

-- The broker, the lookup's state and the local `served`.
pub record Serving (L : Type 0) : Type 0 where
  pub broker : Topics Message
  pub lookup_state : L
  pub served : ℕ

-- queue.get(), when there is a message
abbrev pub taken : ℕ → List Message → Topics Message → Topics Message
taken q rest b = record b { content = λ p. if p == q then rest else b.content p }

module _ {L : Type 0} (lookup : QuoteLookup L) (service : AirlineService) where
  -- A quote is published; a lookup that raises is counted and publishes nothing.
  unfoldable pub after_lookup : Result FlightQuote → Exec (Serving L) Unit
  after_lookup (ok q) = modify (λ s. record s {
    broker = report "responses_published" 1 (publish service.response_topic (quote q) s.broker).1;
    served = s.served + 1;
  })
  after_lookup (err cancelled) = raise cancelled
  after_lookup (err e) = modify (λ s. record s { broker = report "service_failures" 1 s.broker })

  unfoldable pub answer : Message → Exec (Serving L) Unit
  unfolding after_lookup
  answer search s =
      let (result, l) = lookup search s.lookup_state in
      after_lookup result (record s { lookup_state = l })

  -- The receive times out when there is nothing.
  unfoldable pub receive : List Message → Exec (Serving L) Unit
  unfolding answer
  receive [] = pure tt
  receive (search ∷ rest) = do
    modify (λ s. record s { broker = taken service.queue rest s.broker })
    answer search

  unfoldable pub serve_round : Exec (Serving L) Unit
  unfolding receive
  serve_round s = receive (s.broker.content service.queue) s

  unfoldable pub serve_loop : List (Topics Message → Topics Message) → Exec (Serving L) Unit
  unfolding serve_round
  serve_loop [] = pure tt
  serve_loop (others ∷ rest) = do
    modify (λ s. record s { broker = others s.broker })
    serve_round
    serve_loop rest

  -- AirlineService.serve
  unfoldable pub serve :
      List (Topics Message → Topics Message) → Topics Message → L → Result ℕ × Serving L
  unfolding serve_loop
  serve schedule b l =
      (do serve_loop schedule; gets (λ s. s.served))
        (record { broker = b; lookup_state = l; served = 0 })
