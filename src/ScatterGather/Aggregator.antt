-- ===== src/ScatterGather/Aggregator.antt =====
-- scatter_gather_pattern/aggregator.py. Time is a number of clock ticks, and a timeout is not
-- negative. What comes on the response queue is a list of arrivals, each with the time at which it
-- can be taken; a `get` that is still waiting at the deadline is cancelled.
pub mod Deadline
pub mod Cleanup
use message_broker_patterns.Base.{
  ℕ, ◌+◌, String, Bool, true, false, Option, none, some, List, [], ◌∷◌, ◌++◌, length, ltb, leb,
  str_append, str_eq, if◌then◌else◌,
}
use message_broker_patterns.Base.Exec.{Exec, Result, ok, err, value_error, cancelled}
use message_broker_patterns.Metrics.{Registry, increment}
use message_broker_patterns.ScatterGather.Models.{
  DistributionStrategy, recipient_list, publish_subscribe, SearchRequest, FlightQuote,
}
use message_broker_patterns.ScatterGather.Broker.{Topics, subscribe, unsubscribe, publish}

-- What goes over the broker.
pub data Message : Type 0 where
  request : SearchRequest → Message
  quote : FlightQuote → Message

abbrev pub response_topic : String
response_topic = "flights:search:responses"

abbrev pub broadcast_topic : String
broadcast_topic = "flights:search:requests"

unfoldable pub recipient_request_topic : String → String
recipient_request_topic airline = str_append "flights:search:requests:" airline

-- REGISTRY.increment(PATTERN_ID, key, n)
abbrev pub report : String → ℕ → Topics Message → Topics Message
report key n b = record b { metrics = increment "scatter_gather" key n b.metrics }

-- The requests to the recipients, one after the other; how many queues they reached.
unfoldable pub scatter_to : SearchRequest → List String → ℕ → Topics Message → ℕ × Topics Message
unfolding recipient_request_topic
scatter_to req [] reached b = (reached, b)
scatter_to req (airline ∷ rest) reached b =
    let (n, b') = publish (recipient_request_topic airline) (request req) b in
    scatter_to req rest (reached + n) b'

abbrev pub scattered : ℕ × Topics Message → Result ℕ × Topics Message
scattered (reached, b) = (ok reached, report "requests_scattered" 1 b)

unfoldable pub scatter :
    SearchRequest → DistributionStrategy → Option (List String) → Exec (Topics Message) ℕ
scatter req publish_subscribe recipients b = scattered (publish broadcast_topic (request req) b)
scatter req recipient_list none b = (err value_error, b)
scatter req recipient_list (some recipients) b = scattered (scatter_to req recipients 0 b)

-- A quote on the response queue, with the time at which it can be taken.
abbrev pub Arrival : Type 0
Arrival = ℕ × FlightQuote

-- The loop: what was collected, what is left on the queue, and the time at which it ended.
pub record Gathered : Type 0 where
  pub collected : List FlightQuote
  pub left : List Arrival
  pub at : ℕ

abbrev pub later : ℕ → ℕ → ℕ
later now at = if ltb now at then at else now

unfoldable pub gather_loop : String → ℕ → ℕ → List FlightQuote → List Arrival → ℕ → Gathered
gather_loop id expected deadline collected [] now = record {
  collected = collected;
  left = [];
  at = if ltb (length collected) expected then later now deadline else now;
}
gather_loop id expected deadline collected ((at, q) ∷ rest) now =
    let stop : Gathered = record { collected = collected; left = (at, q) ∷ rest; at = now } in
    let timed_out : Gathered = record {
      collected = collected;
      left = (at, q) ∷ rest;
      at = deadline;
    } in
    let ignored = gather_loop id expected deadline collected rest (later now at) in
    let kept = gather_loop id expected deadline (collected ++ q ∷ []) rest (later now at) in
    if leb expected (length collected)
    then stop
    else if leb deadline now
    then stop
    else if leb deadline at
    then timed_out
    else if str_eq q.correlation_id id
    then kept
    else ignored

-- The counters of a gather.
unfoldable pub gather_report : ℕ → List FlightQuote → Topics Message → Topics Message
gather_report expected collected b =
    let b' = report "responses_gathered" (length collected) b in
    if ltb (length collected) expected then report "partial_gathers" 1 b' else b'

unfoldable pub gather :
    String → ℕ → ℕ → List Arrival → ℕ → Topics Message → Gathered × Topics Message
unfolding gather_report
gather id expected timeout arrivals now b =
    let g = gather_loop id expected (now + timeout) [] arrivals now in
    (g, gather_report expected g.collected b)

-- The `try` ... `finally`. While the search awaits, the services answer and others use the broker:
-- `others` is what they do to it, and `arrivals` what comes on the response queue. The task of the
-- search may be cancelled at the time `cancelled_at`: the `get` that is waiting then raises, and
-- nothing is counted. A gather that has ended by then, or that never waits, is not concerned.
module _ (others : Topics Message → Topics Message) (arrivals : List Arrival)
    (cancelled_at : Option ℕ) (now : ℕ) where
  abbrev pub is_cut : ℕ → Bool
  is_cut ends_at = elim cancelled_at [ none ↦ false | some at ↦ ltb (later now at) ends_at ]

  unfoldable pub gathered_after :
      SearchRequest → ℕ → ℕ → Result ℕ × Topics Message → Result (List FlightQuote) × Topics Message
  gathered_after req expected timeout (err e, b) = (err e, b)
  gathered_after req expected timeout (ok reached, b) =
      let (g, b') = gather req.correlation_id expected timeout arrivals now (others b) in
      if is_cut g.at then (err cancelled, others b) else (ok g.collected, b')

  unfoldable pub scatter_gather :
      SearchRequest
      → DistributionStrategy
      → ℕ
      → ℕ
      → Option (List String)
      → Exec (Topics Message) (List FlightQuote)
  unfolding gathered_after
  scatter_gather req strategy expected timeout recipients b =
      let (queue, b1) = subscribe response_topic b in
      let (result, b2) = gathered_after req expected timeout (scatter req strategy recipients b1) in
      (result, unsubscribe response_topic queue b2)
