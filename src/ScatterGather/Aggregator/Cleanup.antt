-- ===== src/ScatterGather/Aggregator/Cleanup.antt =====
-- A search leaves no subscription behind.
use message_broker_patterns.Base.{
  ℕ, suc, ◌+◌, ◌≡◌, refl, ap, ◌∙◌, String, Bool, true, false, Option, none, some, List, [], ◌∷◌,
  ltb, eq_iff, length, if◌then◌else◌, arith,
}
use message_broker_patterns.Base.Dict.{lookup, insert, lookup-insert}
use message_broker_patterns.Base.Exec.{Result, ok, err, cancelled}
use message_broker_patterns.ScatterGather.Models.{
  DistributionStrategy, recipient_list, publish_subscribe, SearchRequest, FlightQuote,
}
use message_broker_patterns.ScatterGather.Broker.{
  Topics, queues_of, subscribe, unsubscribe, remove, publish,
}
use message_broker_patterns.ScatterGather.Broker.FanOut.{
  has, has-above, IsRising, IsWired, subscribe_to, publish_on, do_call-IsWired,
}
use message_broker_patterns.ScatterGather.Aggregator.{
  Message, request, Arrival, response_topic, broadcast_topic, recipient_request_topic, scatter_to,
  scatter, report, gather_loop, gather_report, gather, is_cut, gathered_after, scatter_gather,
}

has-remove : (q low next : ℕ) (qs : List ℕ) → IsRising low next qs → has q (remove q qs) ≡ false
unfolding remove
has-remove q low next [] h = refl
has-remove q low next (p ∷ ps) h =
    ground (arith, has-above q (suc p) next ps h.2, has-remove q (suc p) next ps h.2)

unsubscribed :
    (topic : String) (q : ℕ) (b : Topics Message)
    → IsWired b
    → has q (queues_of topic (unsubscribe topic q b)) ≡ false
unfolding unsubscribe
unsubscribed topic q b wired = go (lookup topic b.subscribers) refl (wired topic)
  where
    go :
        (o : Option (List ℕ))
        → lookup topic b.subscribers ≡ o
        → IsRising 0 b.next_queue (elim o [ none ↦ [] | some qs ↦ qs ])
        → has q (
            queues_of topic (elim o [
              | none ↦ b
              | some qs ↦ record b { subscribers = insert topic (remove q qs) b.subscribers }
            ]))
          ≡ false
    go none at h = ap (λ o. has q (elim o [ none ↦ [] | some qs ↦ qs ])) at
    go (some qs) at h =
        ap (λ o. has q (elim o [ none ↦ [] | some ps ↦ ps ]))
          (lookup-insert topic topic (remove q qs) b.subscribers)
        ∙ ground (arith, eq_iff topic topic, has-remove q 0 b.next_queue qs h)

scatter_to-IsWired :
    (req : SearchRequest) (recipients : List String) (n : ℕ) (b : Topics Message)
    → IsWired b
    → IsWired (scatter_to req recipients n b).1
unfolding scatter_to
scatter_to-IsWired req [] n b h = h
scatter_to-IsWired req (airline ∷ rest) n b h =
    let sent = publish (recipient_request_topic airline) (request req) b in
    scatter_to-IsWired req rest (n + sent.0) sent.1
      (do_call-IsWired (publish_on (recipient_request_topic airline) (request req)) b h)

scatter-IsWired :
    (req : SearchRequest) (strategy : DistributionStrategy) (recipients : Option (List String))
    (b : Topics Message)
    → IsWired b
    → IsWired (scatter req strategy recipients b).1
unfolding scatter
scatter-IsWired req publish_subscribe recipients b h =
    do_call-IsWired (publish_on broadcast_topic (request req)) b h
scatter-IsWired req recipient_list none b h = h
scatter-IsWired req recipient_list (some recipients) b h = scatter_to-IsWired req recipients 0 b h

gather-IsWired :
    (id : String) (expected timeout : ℕ) (arrivals : List Arrival) (now : ℕ) (b : Topics Message)
    → IsWired b
    → IsWired (gather id expected timeout arrivals now b).1
unfolding gather gather_report
gather-IsWired id expected timeout arrivals now b h =
    go (gather_loop id expected (now + timeout) [] arrivals now).collected
  where
    go : (qs : List FlightQuote) → IsWired (gather_report expected qs b)
    go qs = settle (ltb (length qs) expected)
      where
        settle :
            (c : Bool)
            → let b' = report "responses_gathered" (length qs) b in
              IsWired (if c then report "partial_gathers" 1 b' else b')
        settle true = h
        settle false = h

-- The broker of a search, and how the search ends.
gathered_after-IsWired :
    (others : Topics Message → Topics Message) (arrivals : List Arrival) (cancelled_at : Option ℕ)
    (now : ℕ) (req : SearchRequest) (expected timeout : ℕ) (x : Result ℕ × Topics Message)
    → IsWired x.1
    → ((t : Topics Message) → IsWired t → IsWired (others t))
    → IsWired (gathered_after others arrivals cancelled_at now req expected timeout x).1
unfolding gathered_after
gathered_after-IsWired others arrivals cancelled_at now req expected timeout (err e, t) h fair = h
gathered_after-IsWired others arrivals cancelled_at now req expected timeout (ok n, t) h fair = go (
    is_cut others arrivals cancelled_at now
      (gather req.correlation_id expected timeout arrivals now (others t)).0.at)
  where
    go :
        (cut : Bool)
        → let (g, t') = gather req.correlation_id expected timeout arrivals now (others t) in
          let ended : Result (List FlightQuote) × Topics Message =
            if cut then (err cancelled, others t) else (ok g.collected, t') in
          IsWired ended.1
    go true = fair t h
    go false = gather-IsWired req.correlation_id expected timeout arrivals now (others t) (fair t h)

-- However a search ends, on a well-formed broker that the others keep well-formed (each topic's
-- queues were handed out before, each is there once), its response queue is subscribed no more: when
-- the quotes came, when the deadline passed, when the search was cancelled while it waited for a
-- quote, and when the scatter raised for want of recipients.
pub scatter_gather-Cleanup :
    (others : Topics Message → Topics Message) (arrivals : List Arrival) (cancelled_at : Option ℕ)
    (now : ℕ) (req : SearchRequest) (strategy : DistributionStrategy) (expected timeout : ℕ)
    (recipients : Option (List String)) (b : Topics Message)
    → IsWired b
    → ((t : Topics Message) → IsWired t → IsWired (others t))
    → let after =
        (scatter_gather others arrivals cancelled_at now req strategy expected timeout recipients
          b).1 in
      has b.next_queue (queues_of response_topic after) ≡ false
unfolding scatter_gather subscribe
scatter_gather-Cleanup others arrivals cancelled_at now req strategy expected timeout recipients b
      wired fair =
    let x = scatter req strategy recipients (subscribe response_topic b).1 in
    unsubscribed response_topic b.next_queue
      (gathered_after others arrivals cancelled_at now req expected timeout x).1
      (gathered_after-IsWired others arrivals cancelled_at now req expected timeout x
        (scatter-IsWired req strategy recipients (subscribe response_topic b).1
          (do_call-IsWired (subscribe_to response_topic) b wired))
        fair)
