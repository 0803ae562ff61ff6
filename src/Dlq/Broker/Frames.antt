-- ===== src/Dlq/Broker/Frames.antt =====
-- What each call of the broker does to the set of processed ids: none of them removes an id.
use message_broker_patterns.Base.{
  ℕ, String, ◌≡◌, ap, ◌∙◌, Bool, true, false, arith, take, if◌then◌else◌,
}
use message_broker_patterns.Base.Int.{ℤ}
use message_broker_patterns.Base.Exec.{ok, Returns, Returns-imp, Returns-and_then}
use message_broker_patterns.Redis.{Redis, Laws}
use message_broker_patterns.Redis.View.{
  Server, with_ack, with_member, with_entry, with_delivery, as_count, fresh_entries, backlog,
}
use message_broker_patterns.Process.{Process, on_client, see, on_client-Returns}
use message_broker_patterns.Dlq.Models.{Payment}
use message_broker_patterns.Dlq.Broker.{
  main_stream, dlq_stream, processed_set, ack, move_to_dlq, is_processed, mark_processed, read_new,
  read_pending, as_bool, dead_letter, block_of,
}

abbrev pub processed : Server → String → Bool
processed v id = v.members processed_set id

-- No processed id is lost.
abbrev pub Grows : Server → Server → Type 0
Grows v w = (id : String) → processed v id ≡ true → processed w id ≡ true

module _ {r : Redis} (laws : Laws r) where
  pub ack_lem :
      (group id : String) (p : Process r)
      → Returns (ack group id p) (λ _ q. see q ≡ with_ack main_stream group id (see p))
  unfolding ack
  ack_lem group id p =
      on_client-Returns (λ _ v. v ≡ with_ack main_stream group id (see p))
        (r.xack main_stream group id) p (laws.xack_lem main_stream group id p.client)

  pub is_processed_lem :
      (id : String) (p : Process r)
      → Returns (is_processed id p) (λ b q. (b ≡ processed (see p) id) × (see q ≡ see p))
  unfolding is_processed
  is_processed_lem id p =
      let Q = λ (n : ℕ) (v : Server). (n ≡ as_count (processed (see p) id)) × (v ≡ see p) in
      Returns-and_then (λ n q. Q n (see q)) (λ b q. (b ≡ processed (see p) id) × (see q ≡ see p))
        (λ n q. (ok (as_bool n), q)) (on_client (r.sismember processed_set id) p)
        (on_client-Returns Q (r.sismember processed_set id) p
          (laws.sismember_lem processed_set id p.client))
        (λ n q h. (ground (arith, h.0), h.1))

  pub mark_processed_lem :
      (id : String) (p : Process r)
      → Returns (mark_processed id p) (λ _ q. see q ≡ with_member processed_set id (see p))
  unfolding mark_processed
  mark_processed_lem id p =
      let new = if processed (see p) id then false else true in
      let Q =
        λ (n : ℕ) (v : Server). (n ≡ as_count new) × (v ≡ with_member processed_set id (see p)) in
      Returns-and_then (λ n q. Q n (see q)) (λ _ q. see q ≡ with_member processed_set id (see p))
        (λ n q. (ok tt, q)) (on_client (r.sadd processed_set id) p)
        (on_client-Returns Q (r.sadd processed_set id) p (laws.sadd_lem processed_set id p.client))
        (λ n q h. h.1)

  -- The entry that a dead letter leaves behind, after its message was acknowledged.
  pub move_to_dlq_lem :
      (group id reason : String) (payment : Payment) (attempt : ℕ) (p : Process r)
      → Returns (move_to_dlq group id payment reason attempt p) (λ dlq_id q.
        see q
        ≡ with_entry dlq_stream
            (dlq_id, dead_letter payment reason attempt)
            (with_ack main_stream group id (see p)))
  unfolding move_to_dlq
  move_to_dlq_lem group id reason payment attempt p =
      let letter = dead_letter payment reason attempt in
      let acked = with_ack main_stream group id (see p) in
      Returns-and_then (λ _ q. see q ≡ acked)
        (λ dlq_id q. see q ≡ with_entry dlq_stream (dlq_id, letter) acked) _
        (on_client (r.xack main_stream group id) p)
        (on_client-Returns (λ _ v. v ≡ acked) (r.xack main_stream group id) p
          (laws.xack_lem main_stream group id p.client))
        (λ _ q e.
          Returns-and_then (λ i w. see w ≡ with_entry dlq_stream (i, letter) (see q))
            (λ dlq_id q. see q ≡ with_entry dlq_stream (dlq_id, letter) acked) _
            (on_client (r.xadd dlq_stream letter) q)
            (on_client-Returns (λ i v. v ≡ with_entry dlq_stream (i, letter) (see q))
              (r.xadd dlq_stream letter) q (laws.xadd_lem dlq_stream letter q.client))
            (λ i w h. h ∙ ap (with_entry dlq_stream (i, letter)) e))

  pub read_new_lem :
      (group consumer : String) (n : ℕ) (ms : ℤ) (p : Process r)
      → Returns (read_new group consumer n ms p) (λ es q.
        (es ≡ take n (fresh_entries main_stream group (see p)))
        × (see q ≡ with_delivery main_stream group consumer es (see p)))
  unfolding read_new
  read_new_lem group consumer n ms p =
      on_client-Returns
        (λ es v.
          (es ≡ take n (fresh_entries main_stream group (see p)))
          × (v ≡ with_delivery main_stream group consumer es (see p)))
        (r.xreadgroup_new main_stream group consumer n (block_of ms)) p
        (laws.xreadgroup_new_lem main_stream group consumer n (block_of ms) p.client)

  pub read_pending_lem :
      (group consumer : String) (n : ℕ) (p : Process r)
      → Returns
          (read_pending group consumer n p)
          (λ es q. (es ≡ take n (backlog main_stream group consumer (see p))) × (see q ≡ see p))
  unfolding read_pending
  read_pending_lem group consumer n p =
      on_client-Returns
        (λ es v. (es ≡ take n (backlog main_stream group consumer (see p))) × (v ≡ see p))
        (r.xreadgroup_pending main_stream group consumer n) p
        (laws.xreadgroup_pending_lem main_stream group consumer n p.client)

  pub ack-Grows :
      (group id : String) (p : Process r) → Returns (ack group id p) (λ _ q. Grows (see p) (see q))
  ack-Grows group id p =
      Returns-imp (λ _ q. see q ≡ with_ack main_stream group id (see p))
        (λ _ q. Grows (see p) (see q)) (ack group id p) (ack_lem group id p) (λ _ q e m h. rw e h)

  pub move_to_dlq-Grows :
      (group id reason : String) (payment : Payment) (attempt : ℕ) (p : Process r)
      → Returns (move_to_dlq group id payment reason attempt p) (λ _ q. Grows (see p) (see q))
  move_to_dlq-Grows group id reason payment attempt p =
      Returns-imp
        (λ i q.
          see q
          ≡ with_entry dlq_stream (i, dead_letter payment reason attempt)
              (with_ack main_stream group id (see p)))
        (λ _ q. Grows (see p) (see q)) (move_to_dlq group id payment reason attempt p)
        (move_to_dlq_lem group id reason payment attempt p) (λ _ q e m h. rw e h)

  pub read_new-Grows :
      (group consumer : String) (n : ℕ) (ms : ℤ) (p : Process r)
      → Returns (read_new group consumer n ms p) (λ _ q. Grows (see p) (see q))
  read_new-Grows group consumer n ms p =
      Returns-imp
        (λ es q.
          (es ≡ take n (fresh_entries main_stream group (see p)))
          × (see q ≡ with_delivery main_stream group consumer es (see p)))
        (λ _ q. Grows (see p) (see q)) (read_new group consumer n ms p)
        (read_new_lem group consumer n ms p) (λ _ q e m h. rw e.1 h)

  pub read_pending-Grows :
      (group consumer : String) (n : ℕ) (p : Process r)
      → Returns (read_pending group consumer n p) (λ _ q. Grows (see p) (see q))
  read_pending-Grows group consumer n p =
      Returns-imp
        (λ es q. (es ≡ take n (backlog main_stream group consumer (see p))) × (see q ≡ see p))
        (λ _ q. Grows (see p) (see q)) (read_pending group consumer n p)
        (read_pending_lem group consumer n p) (λ _ q e m h. rw e.1 h)
