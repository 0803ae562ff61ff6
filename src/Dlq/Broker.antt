-- ===== src/Dlq/Broker.antt =====
-- dlq_pattern/broker.py: the main and the dead-letter stream, and the set of processed ids.
pub mod Frames
pub mod Loss
use message_broker_patterns.Base.{
  ℕ, String, Bool, true, false, Option, none, some, List, [], ◌∷◌, ◌++◌, ltb, if◌then◌else◌,
}
use message_broker_patterns.Base.Int.{ℤ, pos, pos_part, ltb_ℤ}
use message_broker_patterns.Base.Decimal.{str_int}
use message_broker_patterns.Base.Dict.{insert}
use message_broker_patterns.Base.Exec.{Exec, pure, ◌>>=◌, ◌>>◌}
use message_broker_patterns.Redis.{Redis}
use message_broker_patterns.Redis.View.{Fields, Entry}
use message_broker_patterns.Process.{Process, on_client, count, ensure_group}
use message_broker_patterns.Dlq.Models.{Payment, to_fields}

abbrev pub main_stream : String
main_stream = "payments:main"

abbrev pub dlq_stream : String
dlq_stream = "payments:dlq"

abbrev pub processed_set : String
processed_set = "payments:processed"

-- `block_ms if block_ms > 0 else None`
abbrev pub block_of : ℤ → Option ℕ
block_of ms = if ltb_ℤ (pos 0) ms then some (pos_part ms) else none

-- bool(n)
abbrev pub as_bool : ℕ → Bool
as_bool n = ltb 0 n

-- {**payment.to_fields(), "reason": reason, "attempt": str(attempt)}
unfoldable pub dead_letter : Payment → String → ℕ → Fields
unfolding to_fields
dead_letter p reason attempt =
    insert "attempt" (str_int (pos attempt)) (insert "reason" reason (to_fields p))

module _ {r : Redis} where
  unfoldable pub publish : Payment → Exec (Process r) String
  publish p = do
    id ← on_client (r.xadd main_stream (to_fields p))
    count "dlq" "payments_published"
    pure id

  unfoldable pub ensure_all_groups : String → Exec (Process r) Unit
  ensure_all_groups group = do
    ensure_group main_stream group
    ensure_group dlq_stream group
    pure tt

  unfoldable pub read_new : String → String → ℕ → ℤ → Exec (Process r) (List Entry)
  read_new group consumer n block_ms =
      on_client (r.xreadgroup_new main_stream group consumer n (block_of block_ms))

  unfoldable pub read_pending : String → String → ℕ → Exec (Process r) (List Entry)
  read_pending group consumer n = on_client (r.xreadgroup_pending main_stream group consumer n)

  unfoldable pub ack : String → String → Exec (Process r) ℕ
  ack group id = on_client (r.xack main_stream group id)

  -- The message leaves the main stream's pending list first, and enters the dead-letter stream then.
  unfoldable pub move_to_dlq : String → String → Payment → String → ℕ → Exec (Process r) String
  move_to_dlq group id p reason attempt = do
    on_client (r.xack main_stream group id)
    dlq_id ← on_client (r.xadd dlq_stream (dead_letter p reason attempt))
    count "dlq" "moved_to_dlq"
    pure dlq_id

  unfoldable pub is_processed : String → Exec (Process r) Bool
  is_processed payment_id = do
    n ← on_client (r.sismember processed_set payment_id)
    pure (as_bool n)

  unfoldable pub mark_processed : String → Exec (Process r) Unit
  mark_processed payment_id = do on_client (r.sadd processed_set payment_id); pure tt

  unfoldable pub read_dlq : String → String → ℕ → Exec (Process r) (List Entry)
  read_dlq group consumer n = on_client (r.xreadgroup_new dlq_stream group consumer n none)

  unfoldable pub ack_dlq : String → String → Exec (Process r) ℕ
  ack_dlq group id = on_client (r.xack dlq_stream group id)
