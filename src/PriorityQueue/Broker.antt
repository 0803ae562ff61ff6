-- ===== src/PriorityQueue/Broker.antt =====
-- priority_queue_pattern/broker.py.
use message_broker_patterns.Base.{ℕ, String, Bool, List, str_append}
use message_broker_patterns.Base.Int.{ℤ}
use message_broker_patterns.Base.Exec.{Exec, pure, ◌>>=◌, ◌>>◌}
use message_broker_patterns.Redis.{Redis}
use message_broker_patterns.Redis.View.{Entry}
use message_broker_patterns.Process as Process
use message_broker_patterns.Process.{Process, on_client, count}
use message_broker_patterns.Dlq.Broker.{block_of}
use message_broker_patterns.PriorityQueue.Models.{
  Priority, high, normal, low, value, SupportTicket, to_fields,
}

-- STREAMS
abbrev pub stream_of : Priority → String
stream_of high = "support:high"
stream_of normal = "support:normal"
stream_of low = "support:low"

module _ {r : Redis} where
  unfoldable pub publish : SupportTicket → Exec (Process r) String
  publish t = do
    id ← on_client (r.xadd (stream_of t.priority) (to_fields t))
    count "priority_queue" "tickets_published"
    count "priority_queue" (str_append (value t.priority) "_published")
    pure id

  unfoldable pub ensure_group : Priority → String → Exec (Process r) Bool
  ensure_group p group = Process.ensure_group (stream_of p) group

  unfoldable pub ensure_all_groups : String → Exec (Process r) Unit
  ensure_all_groups group = do
    ensure_group high group
    ensure_group normal group
    ensure_group low group
    pure tt

  unfoldable pub read_new : Priority → String → String → ℕ → ℤ → Exec (Process r) (List Entry)
  read_new p group consumer n block_ms =
      on_client (r.xreadgroup_new (stream_of p) group consumer n (block_of block_ms))

  unfoldable pub ack : Priority → String → String → Exec (Process r) ℕ
  ack p group id = on_client (r.xack (stream_of p) group id)

  unfoldable pub pending_count : Priority → String → Exec (Process r) ℕ
  pending_count p group = on_client (r.xpending (stream_of p) group)
