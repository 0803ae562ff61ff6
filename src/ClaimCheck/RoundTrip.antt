-- ===== src/ClaimCheck/RoundTrip.antt =====
-- A payload that was checked in is redeemed as it was.
use message_broker_patterns.Base.{
  ℕ, ◌+◌, String, ◌≡◌, ◌≢◌, refl, true, none, some, List, [], length, arith, eq_iff,
}
use message_broker_patterns.Base.Dict.{lookup, insert, erase, lookup-insert, lookup-erase}
use message_broker_patterns.Base.Exec.{ok}
use message_broker_patterns.Metrics.{increment}
use message_broker_patterns.ClaimCheck.{
  Payload, ClaimCheck, Handler, Desk, size_bytes, put, get, stored_or_raise, delete, enqueue,
  publish, reclaim, after_handler, redeem, poll_queue,
}

-- The claim check of a payload.
abbrev pub claim_of : String → Payload → ClaimCheck
claim_of id p = record {
  claim_id = id;
  content_type = p.content_type;
  original_name = p.original_name;
  size_bytes = length p.bytes;
}

module _ {H : Type 0} where
  redeem_lem :
      (handler : Handler H) (consumer_id : String) (claim : ClaimCheck) (bytes : List ℕ)
      (t : Desk H) (h : H)
      → lookup claim.claim_id t.store ≡ some bytes
      → handler consumer_id claim
          (record {
            bytes = bytes;
            content_type = claim.content_type;
            original_name = claim.original_name;
          })
          t.handler_state
        ≡ (ok tt, h)
      → redeem handler consumer_id true claim t ≡ (
        ok tt,
        record {
          store = erase claim.claim_id t.store;
          queue = t.queue;
          draws = t.draws;
          metrics = increment "claim_check" "payloads_deleted" 1 (
              increment "claim_check" "payloads_processed" 1
                (increment "claim_check" "payloads_retrieved" 1 t.metrics));
          handler_state = h;
          total_handled = t.total_handled + 1;
        },
      )
  unfolding redeem get stored_or_raise after_handler reclaim delete
  redeem_lem handler consumer_id claim bytes t h there returns = rw (there, returns) refl

  -- Publishing a payload on an empty queue and polling once, with a handler that returns, hands the
  -- handler the payload that was published, with its claim check; the queue is empty again, the
  -- payload is out of the store, every other stored payload is as it was, and the total is one more.
  pub redeem-publish :
      (uuid4 : ℕ → String) (wire_size : ClaimCheck → ℕ) (handler : Handler H) (consumer_id : String)
      (p : Payload) (s : Desk H) (h : H)
      → s.queue ≡ []
      → handler consumer_id (claim_of (uuid4 s.draws) p) p s.handler_state ≡ (ok tt, h)
      → let t = (publish uuid4 wire_size p s).1 in
        let (result, u) = poll_queue handler consumer_id true t.queue t in
        (result ≡ ok tt)
        × (u.handler_state ≡ h)
        × (u.queue ≡ [])
        × (lookup (uuid4 s.draws) u.store ≡ none)
        × ((j : String) → j ≢ uuid4 s.draws → lookup j u.store ≡ lookup j s.store)
        × (u.total_handled ≡ s.total_handled + 1)
  unfolding publish put enqueue size_bytes poll_queue
  redeem-publish uuid4 wire_size handler consumer_id p s h idle returns =
      let id = uuid4 s.draws in
      let t = (publish uuid4 wire_size p s).1 in
      let there : lookup id (insert id p.bytes s.store) ≡ some p.bytes =
        ground (arith, lookup-insert id id p.bytes s.store, eq_iff id id) in
      rw
        (
          idle,
          redeem_lem handler consumer_id (claim_of id p) p.bytes (record t { queue = [] }) h there
              returns,
        )
        (
          refl,
          refl,
          refl,
          ground (arith, lookup-erase id id (insert id p.bytes s.store), eq_iff id id),
          (λ j other. ground (
            arith,
            other,
            lookup-erase id j (insert id p.bytes s.store),
            lookup-insert id j p.bytes s.store,
            eq_iff id j,
          )),
          refl,
        )
