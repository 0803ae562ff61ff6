-- ===== src/ClaimCheck.antt =====
-- claim_check_pattern: a payload goes to the store, and only its claim check over the broker. The store
-- is the files of a directory, one for each claim id; bytes are numbers. `uuid4` gives the next of a
-- stream of texts, and the size of a claim's JSON text is a parameter.
pub mod RoundTrip
pub mod Naive
mod Tests
use message_broker_patterns.Base.{
  ℕ, suc, ◌+◌, ◌-◌, String, Bool, true, false, Option, none, some, List, [], ◌∷◌, ◌++◌, length,
}
use message_broker_patterns.Base.Dict.{Dict, lookup, insert, erase, contains}
use message_broker_patterns.Base.Exec.{
  Exec, Result, ok, err, payload_not_found, pure, raise, gets, modify, ◌>>=◌, ◌>>◌,
}
use message_broker_patterns.Metrics.{Registry, increment}

-- models.Payload
pub record Payload : Type 0 where
  pub bytes : List ℕ
  pub content_type : String
  pub original_name : String

unfoldable pub size_bytes : Payload → ℕ
size_bytes p = length p.bytes

-- models.ClaimCheck, without the time of its creation
pub record ClaimCheck : Type 0 where
  pub claim_id : String
  pub content_type : String
  pub original_name : String
  pub size_bytes : ℕ

abbrev pub Handler : Type 0 → Type 0
Handler H = String → ClaimCheck → Payload → Exec H Unit

-- The store, the broker's queue, the uuids drawn, the registry, the handler's state, and the
-- consumer's `total_handled`.
pub record Desk (H : Type 0) : Type 0 where
  pub store : Dict (List ℕ)
  pub queue : List ClaimCheck
  pub draws : ℕ
  pub metrics : Registry
  pub handler_state : H
  pub total_handled : ℕ

module _ {H : Type 0} where
  abbrev pub report : String → ℕ → Desk H → Desk H
  report key n s = record s { metrics = increment "claim_check" key n s.metrics }

  -- FilesystemPayloadStore
  unfoldable pub put : (ℕ → String) → List ℕ → Exec (Desk H) String
  put uuid4 bytes s = (
    ok (uuid4 s.draws),
    record s { store = insert (uuid4 s.draws) bytes s.store; draws = suc s.draws },
  )

  unfoldable pub stored_or_raise : Option (List ℕ) → Exec (Desk H) (List ℕ)
  stored_or_raise none = raise payload_not_found
  stored_or_raise (some bytes) = pure bytes

  unfoldable pub get : String → Exec (Desk H) (List ℕ)
  unfolding stored_or_raise
  get claim_id s = stored_or_raise (lookup claim_id s.store) s

  unfoldable pub delete : String → Desk H → Desk H
  delete claim_id s = record s { store = erase claim_id s.store }

  unfoldable pub exists : String → Desk H → Bool
  exists claim_id s = contains claim_id s.store

  -- ClaimCheckBroker.publish
  unfoldable pub enqueue : (ClaimCheck → ℕ) → ClaimCheck → Exec (Desk H) Unit
  enqueue wire_size claim s = (
    ok tt,
    report "broker_bytes_saved" (claim.size_bytes - wire_size claim)
        (report "claim_checks_published" 1 (record s { queue = s.queue ++ claim ∷ [] })),
  )

  -- ClaimCheckProducer.publish
  unfoldable pub publish : (ℕ → String) → (ClaimCheck → ℕ) → Payload → Exec (Desk H) ClaimCheck
  unfolding size_bytes
  publish uuid4 wire_size p = do
    claim_id ← put uuid4 p.bytes
    modify (report "payloads_stored" 1)
    let claim : ClaimCheck = record {
      claim_id = claim_id;
      content_type = p.content_type;
      original_name = p.original_name;
      size_bytes = size_bytes p;
    }
    enqueue wire_size claim
    pure claim

  module _ (handler : Handler H) (consumer_id : String) (delete_after : Bool) where
    unfoldable pub reclaim : Bool → String → Desk H → Desk H
    reclaim false claim_id s = s
    reclaim true claim_id s = report "payloads_deleted" 1 (delete claim_id s)

    -- After the handler: an exception leaves the loop, with the payload in the store.
    unfoldable pub after_handler : String → Result Unit × H → Exec (Desk H) Unit
    unfolding reclaim
    after_handler claim_id (err exc, h) s = (err exc, record s { handler_state = h })
    after_handler claim_id (ok _, h) s =
        let s' =
          reclaim delete_after claim_id
            (report "payloads_processed" 1 (record s { handler_state = h })) in
        (ok tt, record s' { total_handled = s'.total_handled + 1 })

    unfoldable pub redeem : ClaimCheck → Exec (Desk H) Unit
    unfolding after_handler
    redeem claim = do
      bytes ← get claim.claim_id
      modify (report "payloads_retrieved" 1)
      let payload : Payload = record {
        bytes = bytes;
        content_type = claim.content_type;
        original_name = claim.original_name;
      }
      (λ s. after_handler claim.claim_id (handler consumer_id claim payload s.handler_state) s)

    -- A round of the loop: `broker.get` gives the head of the queue, or nothing at its timeout.
    unfoldable pub poll_queue : List ClaimCheck → Exec (Desk H) Unit
    poll_queue [] = pure tt
    poll_queue (claim ∷ rest) = do modify (λ s. record s { queue = rest }); redeem claim

    unfoldable pub loop : List (Desk H → Desk H) → Exec (Desk H) Unit
    loop [] = pure tt
    loop (others ∷ rest) = do
      modify others
      queue ← gets (λ s. s.queue)
      poll_queue queue
      loop rest

    unfoldable pub run_consumer : List (Desk H → Desk H) → Exec (Desk H) ℕ
    run_consumer schedule = do loop schedule; gets (λ s. s.total_handled)
