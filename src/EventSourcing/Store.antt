-- ===== src/EventSourcing/Store.antt =====
-- event_sourcing_pattern/store.py: the append-only store, one Redis stream for each account.
use message_broker_patterns.Base.{ℕ, String, List, ◌∷◌, []}
use message_broker_patterns.Base.Dict.{insert}
use message_broker_patterns.Base.Exec.{Exec, pure, ◌>>=◌, ◌>>◌}
use message_broker_patterns.Redis.{Redis}
use message_broker_patterns.Redis.View.{Fields, Entry}
use message_broker_patterns.Process.{Process, on_client, count}
use message_broker_patterns.EventSourcing.Events.{account_stream}

-- {"event_type": event_type, **payload}
abbrev merge : Fields → Fields → Fields
merge d [] = d
merge d ((k, v) ∷ more) = merge (insert k v d) more

unfoldable pub tagged : String → Fields → Fields
tagged event_type payload = merge (("event_type", event_type) ∷ []) payload

module _ {r : Redis} where
  unfoldable pub append : String → String → Fields → Exec (Process r) String
  unfolding tagged
  append account_id event_type payload = do
    id ← on_client (r.xadd (account_stream account_id) (tagged event_type payload))
    count "event_sourcing" "events_appended"
    pure id

  -- At most 100 events after the cursor.
  unfoldable pub read : String → String → Exec (Process r) (List Entry)
  read account_id last_id = on_client (r.xread (account_stream account_id) last_id 100)

  unfoldable pub stream_length : String → Exec (Process r) ℕ
  stream_length account_id = on_client (r.xlen (account_stream account_id))
