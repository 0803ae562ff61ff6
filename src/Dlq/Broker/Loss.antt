-- ===== src/Dlq/Broker/Loss.antt =====
-- A gap in the move to the dead letters: the message is acknowledged before it is added there.
use message_broker_patterns.Base.{ℕ, String, ◌≡◌, refl, ap, ◌∙◌, none, arith, eq_iff}
use message_broker_patterns.Base.Exec.{Exn, ok, err}
use message_broker_patterns.Redis.{Redis, Laws}
use message_broker_patterns.Redis.View.{with_ack}
use message_broker_patterns.Process.{Process, see}
use message_broker_patterns.Dlq.Models.{Payment}
use message_broker_patterns.Dlq.Broker.{main_stream, dlq_stream, dead_letter, move_to_dlq}

module _ {r : Redis} (laws : Laws r) where
  -- If the acknowledgement is answered and the append to the dead-letter stream then fails, having
  -- changed nothing, the move raises and the message is lost: it is no longer pending for any
  -- consumer, and the dead-letter stream is as it was.
  pub move_to_dlq_loses :
      (group id reason : String) (payment : Payment) (attempt k : ℕ) (exc : Exn) (p : Process r)
      (c c' : r.State)
      → r.xack main_stream group id p.client ≡ (ok k, c)
      → r.xadd dlq_stream (dead_letter payment reason attempt) c ≡ (err exc, c')
      → r.view c' ≡ r.view c
      → let (result, q) = move_to_dlq group id payment reason attempt p in
        (result ≡ err exc)
        × ((see q).owner main_stream group id ≡ none)
        × ((see q).entries dlq_stream ≡ (see p).entries dlq_stream)
  unfolding move_to_dlq
  move_to_dlq_loses group id reason payment attempt k exc p c c' acked failed kept =
      rw (acked, failed)
        (
          refl,
          ap (λ v. v.owner main_stream group id) shown
              ∙ ground (arith, eq_iff id id, eq_iff group group),
          ap (λ v. v.entries dlq_stream) shown,
        )
    where
      shown : r.view c' ≡ with_ack main_stream group id (see p)
      shown = kept ∙ (rw acked at (laws.xack_lem main_stream group id p.client))
