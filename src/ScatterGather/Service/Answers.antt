-- ===== src/ScatterGather/Service/Answers.antt =====
-- An airline answers each search on its queue, in order.
use message_broker_patterns.Base.{
  ℕ, ◌≤◌, ◌≡◌, refl, sym, ap, ◌∙◌, subst, Bool, true, false, List, [], ◌∷◌, ◌++◌, map, length,
  length-append, map-append, append_assoc, append-nil, All, arith, ◌==◌,
}
use message_broker_patterns.Base.Exec.{Exn, Result, ok, err, cancelled, and_then}
use message_broker_patterns.ScatterGather.Models.{FlightQuote}
use message_broker_patterns.ScatterGather.Broker.{Topics, publish, queues_of}
use message_broker_patterns.ScatterGather.Aggregator.{Message, quote, report}
use message_broker_patterns.ScatterGather.Service.{
  QuoteLookup, AirlineService, Serving, taken, after_lookup, answer, receive, serve_round,
  serve_loop, serve,
}

-- The quotes that a lookup gives; what raises gives none.
abbrev pub quoted : Result FlightQuote → List FlightQuote → List FlightQuote
quoted (ok q) rest = q ∷ rest
quoted (err e) rest = rest

abbrev pub quotes_of : (Message → Result FlightQuote) → List Message → List FlightQuote
quotes_of f [] = []
quotes_of f (m ∷ ms) = quoted (f m) (quotes_of f ms)

abbrev pub is_caught : Result FlightQuote → Bool
is_caught (err cancelled) = false
is_caught _ = true

same : (q : ℕ) → (q == q) ≡ true
same q = ground arith

sym_false : (p q : ℕ) → (p == q) ≡ false → (q == p) ≡ false
sym_false p q h = ground arith

failure_counted :
    {L : Type 0} (lookup : QuoteLookup L) (service : AirlineService) (e : Exn) (s : Serving L)
    → is_caught (err e) ≡ true
    → after_lookup lookup service (err e) s
      ≡ (ok tt, record s { broker = report "service_failures" 1 s.broker })
unfolding after_lookup
failure_counted lookup service e s h = ground arith

goes_on :
    {L : Type 0} (k : Serving L → Result Unit × Serving L) (x : Result Unit × Serving L)
    → x.0 ≡ ok tt
    → and_then (λ _. k) x ≡ k x.1
goes_on k (ok u, s) h = refl
goes_on k (err e, s) h = ground arith

module _ {L : Type 0} (lookup : QuoteLookup L) (service : AirlineService)
    (f : Message → Result FlightQuote) (p : ℕ) where
  -- The lookup answers a message as `f` does, whatever it has done before, and is not cancelled.
  abbrev pub IsAnswer : Type 0
  IsAnswer = (m : Message) → ((l : L) → (lookup m l).0 ≡ f m) × (is_caught (f m) ≡ true)

  -- The searches left on the airline's queue, and what has been answered since the start.
  pub record Progress (before : List Message) (qs : List FlightQuote) (left : List Message)
      (s : Serving L) : Type 0 where
    pub only_subscriber : queues_of service.response_topic s.broker ≡ p ∷ []
    pub to_answer : s.broker.content service.queue ≡ left
    pub answered : s.broker.content p ≡ before ++ map (λ q. quote q) qs
    pub counted : s.served ≡ length qs

  module _ (other_queue : (service.queue == p) ≡ false) where
    after_lookup-Progress :
        (x : Result FlightQuote) (before : List Message) (qs : List FlightQuote)
        (left : List Message) (s : Serving L)
        → is_caught x ≡ true
        → Progress before qs left s
        → ((after_lookup lookup service x s).0 ≡ ok tt)
          × Progress before (qs ++ quoted x []) left (after_lookup lookup service x s).1
    unfolding after_lookup publish
    after_lookup-Progress (ok q) before qs left s c h = (
      refl,
      record {
        only_subscriber = h.only_subscriber;
        to_answer = rw (h.only_subscriber, other_queue) h.to_answer;
        answered =
            rw (h.only_subscriber, same p)
              (ap (λ ms. ms ++ quote q ∷ []) h.answered
                ∙ append_assoc before (map (λ a. quote a) qs) (quote q ∷ [])
                ∙ ap (λ ms. before ++ ms) (sym (map-append (λ a. quote a) qs (q ∷ []))));
        counted = omega (arith, h.counted, length-append qs (q ∷ []));
      },
    )
    after_lookup-Progress (err e) before qs left s c h =
        subst (λ (y : Result Unit × Serving L). (y.0 ≡ ok tt) × Progress before (qs ++ []) left y.1)
          (sym (failure_counted lookup service e s c))
          (
            refl,
            record {
              only_subscriber = h.only_subscriber;
              to_answer = h.to_answer;
              answered =
                  h.answered ∙ ap (λ as'. before ++ map (λ a. quote a) as') (sym (append-nil qs));
              counted = h.counted ∙ ap length (sym (append-nil qs));
            },
          )

    answer-Progress :
        (m : Message) (before : List Message) (qs : List FlightQuote) (left : List Message)
        (s : Serving L)
        → IsAnswer
        → Progress before qs left s
        → ((answer lookup service m s).0 ≡ ok tt)
          × Progress before (qs ++ quoted (f m) []) left (answer lookup service m s).1
    unfolding answer
    answer-Progress m before qs left s good h = rw ((good m).0 s.lookup_state) (
        after_lookup-Progress (f m) before qs left
          (record s { lookup_state = (lookup m s.lookup_state).1 }) (good m).1
          (record {
            only_subscriber = h.only_subscriber;
            to_answer = h.to_answer;
            answered = h.answered;
            counted = h.counted;
          }))

    receive-Progress :
        (m : Message) (before : List Message) (qs : List FlightQuote) (left : List Message)
        (s : Serving L)
        → IsAnswer
        → Progress before qs (m ∷ left) s
        → ((receive lookup service (m ∷ left) s).0 ≡ ok tt)
          × Progress before (qs ++ quoted (f m) []) left (receive lookup service (m ∷ left) s).1
    unfolding receive
    receive-Progress m before qs left s good h =
        answer-Progress m before qs left (record s { broker = taken service.queue left s.broker })
          good
          (record {
            only_subscriber = h.only_subscriber;
            to_answer = rw (same service.queue) refl;
            answered = rw (sym_false service.queue p other_queue) h.answered;
            counted = h.counted;
          })

    rejoin :
        (x : Result FlightQuote) (qs rest : List FlightQuote)
        → (qs ++ quoted x []) ++ rest ≡ qs ++ quoted x rest
    rejoin (ok q) qs rest = append_assoc qs (q ∷ []) rest
    rejoin (err e) qs rest = append_assoc qs [] rest

    -- The others leave the broker as it is.
    abbrev pub Quiet : (Topics Message → Topics Message) → Type 0
    Quiet others = (b : Topics Message) → others b ≡ b

    unmoved :
        (before : List Message) (qs : List FlightQuote) (left : List Message) (s : Serving L)
        (others : Topics Message → Topics Message)
        → Quiet others
        → Progress before qs left s
        → Progress before qs left (record s { broker = others s.broker })
    unmoved before qs left s others quiet h =
        subst (λ b. Progress before qs left (record s { broker = b })) (sym (quiet s.broker))
          (record {
            only_subscriber = h.only_subscriber;
            to_answer = h.to_answer;
            answered = h.answered;
            counted = h.counted;
          })

    loop-Progress :
        (schedule : List (Topics Message → Topics Message)) (before : List Message)
        (qs : List FlightQuote) (left : List Message) (s : Serving L)
        → IsAnswer
        → All Quiet schedule
        → length left ≤ length schedule
        → Progress before qs left s
        → ((serve_loop lookup service schedule s).0 ≡ ok tt)
          × Progress before (qs ++ quotes_of f left) [] (serve_loop lookup service schedule s).1
    unfolding serve_loop serve_round
    loop-Progress [] before qs [] s good quiet enough h =
        (refl, subst (λ as'. Progress before as' [] s) (sym (append-nil qs)) h)
    loop-Progress [] before qs (m ∷ left) s good quiet enough h = ground arith
    loop-Progress (others ∷ schedule) before qs [] s good quiet enough h =
        let s' : Serving L = record s { broker = others s.broker } in
        let h' = unmoved before qs [] s others quiet.0 h in
        rw h'.to_answer (loop-Progress schedule before qs [] s' good quiet.1 (omega arith) h')
    loop-Progress (others ∷ schedule) before qs (m ∷ left) s good quiet enough h =
        let s' : Serving L = record s { broker = others s.broker } in
        let h' = unmoved before qs (m ∷ left) s others quiet.0 h in
        let x = receive lookup service (m ∷ left) s' in
        let k = receive-Progress m before qs left s' good h' in
        rw h'.to_answer (
          subst
            (λ (y : Result Unit × Serving L).
              (y.0 ≡ ok tt) × Progress before (qs ++ quotes_of f (m ∷ left)) [] y.1)
            (sym (goes_on (serve_loop lookup service schedule) x k.0))
            (subst
              (λ as'.
                ((serve_loop lookup service schedule x.1).0 ≡ ok tt)
                × Progress before as' [] (serve_loop lookup service schedule x.1).1)
              (rejoin (f m) qs (quotes_of f left))
              (loop-Progress schedule before (qs ++ quoted (f m) []) left x.1 good quiet.1
                (omega (arith, enough)) k.1)))

    -- An airline whose lookup is not cancelled and answers each message in one way, which is alone
    -- with its broker and has at least a round for each search on its queue, returns the number of
    -- searches that its lookup could answer; its queue is empty then, and their quotes follow what
    -- was on the queue of the only subscriber to the responses, in the order of the searches.
    pub serve_answers :
        (schedule : List (Topics Message → Topics Message)) (b : Topics Message) (l : L)
        → IsAnswer
        → All Quiet schedule
        → queues_of service.response_topic b ≡ p ∷ []
        → length (b.content service.queue) ≤ length schedule
        → let (result, t) = serve lookup service schedule b l in
          let qs = quotes_of f (b.content service.queue) in
          (result ≡ ok (length qs))
          × (t.broker.content service.queue ≡ [])
          × (t.broker.content p ≡ b.content p ++ map (λ q. quote q) qs)
    unfolding serve
    serve_answers schedule b l good quiet only enough =
        let start : Serving L = record { broker = b; lookup_state = l; served = 0 } in
        let (e, k) =
          loop-Progress schedule (b.content p) [] (b.content service.queue) start good quiet enough
            (record {
              only_subscriber = only;
              to_answer = refl;
              answered = sym (append-nil (b.content p));
              counted = refl;
            }) in
        ended (serve_loop lookup service schedule start) e k
      where
        ended :
            (x : Result Unit × Serving L)
            → x.0 ≡ ok tt
            → Progress (b.content p) (quotes_of f (b.content service.queue)) [] x.1
            → let y = and_then {B = ℕ} (λ _ s. (ok s.served, s)) x in
              (y.0 ≡ ok (length (quotes_of f (b.content service.queue))))
              × (y.1.broker.content service.queue ≡ [])
              × (y.1.broker.content p
                  ≡ b.content p ++ map (λ q. quote q) (quotes_of f (b.content service.queue)))
        ended (ok u, t) e k = (ap (λ n. ok n) k.counted, k.to_answer, k.answered)
        ended (err x, t) e k = ground arith
