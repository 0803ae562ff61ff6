-- ===== src/CompetingConsumers/Broker.antt =====
-- competing_consumers_pattern/broker.py. `read_new` sends its `block_ms` as it is.
use message_broker_patterns.Base.{ℕ, String, some, List}
use message_broker_patterns.Base.Exec.{Exec, pure, ◌>>=◌, ◌>>◌}
use message_broker_patterns.Redis.{Redis}
use message_broker_patterns.Redis.View.{Fields, Entry}
use message_broker_patterns.Process.{Process, on_client, count}

module _ {r : Redis} where
  unfoldable pub publish : String → Fields → Exec (Process r) String
  publish stream task_fields = do
    id ← on_client (r.xadd stream task_fields)
    count "competing_consumers" "messages_published"
    pure id

  unfoldable pub read_new : String → String → String → ℕ → ℕ → Exec (Process r) (List Entry)
  read_new stream group consumer n block_ms =
      on_client (r.xreadgroup_new stream group consumer n (some block_ms))

  unfoldable pub ack : String → String → String → Exec (Process r) ℕ
  ack stream group id = on_client (r.xack stream group id)

  unfoldable pub reclaim_stale : String → String → String → ℕ → ℕ → Exec (Process r) (List Entry)
  reclaim_stale stream group consumer min_idle_ms n =
      on_client (r.xautoclaim stream group consumer min_idle_ms n)

  unfoldable pub pending_count : String → String → Exec (Process r) ℕ
  pending_count stream group = on_client (r.xpending stream group)
