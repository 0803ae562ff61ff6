-- ===== src/CompetingConsumers/Consumer/Settled.antt =====
-- What a consumer has done with a batch when it is through with it.
use message_broker_patterns.Base.{
  ℕ, ◌+◌, String, ◌≡◌, refl, ap, none, List, [], ◌∷◌, All, length, arith, eq_iff,
}
use message_broker_patterns.Base.Exec.{
  Result, ok, err, and_then, ◌>>◌, Returns, Returns-and_then, Returns-imp,
}
use message_broker_patterns.Redis.{Redis, Laws}
use message_broker_patterns.Redis.View.{Entry, Fields, with_ack}
use message_broker_patterns.Metrics.{increment}
use message_broker_patterns.Process.{see, count}
use message_broker_patterns.CompetingConsumers.Models.{Task, from_fields}
use message_broker_patterns.CompetingConsumers.Broker.{ack}
use message_broker_patterns.CompetingConsumers.Consumer.{
  Handler, Worker, on_process, on_handler, handle_message, handle_batch,
}

module _ {r : Redis} (laws : Laws r) {H : Type 0} (handler : Handler H)
    (stream group consumer_id : String) where
  -- No consumer holds the message.
  abbrev pub IsSettled : Worker r H → String → Type 0
  IsSettled t id = (see t.process).owner stream group id ≡ none

  abbrev pub Settles : String → Worker r H → Worker r H → Type 0
  Settles id s t = IsSettled t id × ((j : String) → IsSettled s j → IsSettled t j)

  acked-Settles :
      (id : String) (s t : Worker r H) (x : Result ℕ × r.State)
      → t.process.client ≡ s.process.client
      → Returns x (λ _ c. r.view c ≡ with_ack stream group id (r.view t.process.client))
      → Returns
          (and_then
            (λ _ u. (
              ok tt,
              record u {
                process = record u.process {
                  metrics = increment "competing_consumers" "messages_consumed" 1 u.process.metrics;
                };
              },
            ))
            (x.0, record t { process = record t.process { client = x.1 } }))
          (λ _ u. Settles id s u)
  acked-Settles id s t (err exc, c) same h = tt
  acked-Settles id s t (ok n, c) same h = (
    ground (
      arith,
      ap (λ v. v.owner stream group id) h,
      eq_iff stream stream,
      eq_iff group group,
      eq_iff id id,
    ),
    λ j before. ground (
      arith,
      ap (λ v. v.owner stream group j) h,
      ap (λ k. (r.view k).owner stream group j) same,
      before,
    ),
  )

  handle_message-Settles :
      (id : String) (fields : Fields) (s : Worker r H)
      → Returns
          (handle_message handler stream group consumer_id (id, fields) s)
          (λ _ t. Settles id s t)
  unfolding handle_message ack
  handle_message-Settles id fields s = decoded (from_fields fields)
    where
      handled :
          (y : Result Unit × H)
          → Returns
              (and_then
                (λ _.
                  on_process (ack stream group id)
                  >> on_process (count "competing_consumers" "messages_consumed"))
                (y.0, record s { handler_state = y.1 }))
              (λ _ t. Settles id s t)
      handled (err exc, h) = tt
      handled (ok u, h) =
          acked-Settles id s (record s { handler_state = h })
            (r.xack stream group id s.process.client) refl
            (laws.xack_lem stream group id s.process.client)

      decoded :
          (d : Result Task)
          → Returns
              (and_then
                (λ task.
                  on_handler (handler consumer_id task)
                  >> (on_process (ack stream group id)
                      >> on_process (count "competing_consumers" "messages_consumed")))
                (d, s))
              (λ _ t. Settles id s t)
      decoded (err exc) = tt
      decoded (ok task) = handled (handler consumer_id task s.handler_state)

  -- When the handling of a batch returns, its count has grown by the length of the batch, no consumer
  -- of the group holds a message of the batch, and none holds a message that none held before.
  pub handle_batch-Settles :
      (es : List Entry) (handled : ℕ) (s : Worker r H)
      → Returns (handle_batch handler stream group consumer_id es handled s) (λ n t.
        (n ≡ handled + length es)
        × All (λ e. IsSettled t e.0) es
        × ((j : String) → IsSettled s j → IsSettled t j))
  unfolding handle_batch
  handle_batch-Settles [] handled s = (omega arith, tt, λ j h. h)
  handle_batch-Settles ((id, fields) ∷ es) handled s =
      Returns-and_then (λ _ t. Settles id s t) _
        (λ _. handle_batch handler stream group consumer_id es (handled + 1))
        (handle_message handler stream group consumer_id (id, fields) s)
        (handle_message-Settles id fields s)
        (λ _ t h.
          Returns-imp _ _ (handle_batch handler stream group consumer_id es (handled + 1) t)
            (handle_batch-Settles es (handled + 1) t)
            (λ n u k. (omega arith, (k.2 id h.0, k.1), λ j before. k.2 j (h.1 j before))))
