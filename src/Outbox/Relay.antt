-- ===== src/Outbox/Relay.antt =====
-- outbox_pattern/relay.py: publish, then delete, in the order of the ids. Between two rounds others
-- write to the database and to the server; the stop event is set when the schedule is used up.
pub mod NoLoss
pub mod Safe
pub mod Drain
use message_broker_patterns.Base.{String, List, [], ◌∷◌}
use message_broker_patterns.Base.Exec.{Exec, pure, gets, modify, zoom, ◌>>=◌, ◌>>◌}
use message_broker_patterns.Redis.{Redis}
use message_broker_patterns.Redis.View.{Fields}
use message_broker_patterns.Process.{Process, on_client, count}
use message_broker_patterns.Floats.{Floats}
use message_broker_patterns.Outbox.{Db, OutboxEntry, poll_outbox, delete_outbox_entry, str_payload}

-- broker.RedisBroker.publish
unfoldable pub publish : {r : Redis} → String → Fields → Exec (Process r) String
publish {r} stream payload = on_client (r.xadd stream payload)

pub record Relay (fl : Floats) (r : Redis) : Type 0 where
  pub db : Db fl
  pub process : Process r

module _ {fl : Floats} {r : Redis} (stream : String) where
  abbrev pub on_process : {A : Type 0} → Exec (Process r) A → Exec (Relay fl r) A
  on_process = zoom (λ s. s.process) (λ p s. record s { process = p })

  -- The body of the `for` loop.
  unfoldable pub relay_entry : OutboxEntry fl → Exec (Relay fl r) Unit
  relay_entry e = do
    on_process (publish stream (str_payload fl e.payload))
    modify (λ s. record s { db = delete_outbox_entry fl e.id s.db })
    on_process (count "transactional_outbox" "entries_relayed")

  unfoldable pub relay_entries : List (OutboxEntry fl) → Exec (Relay fl r) Unit
  relay_entries [] = pure tt
  relay_entries (e ∷ es) = do relay_entry e; relay_entries es

  unfoldable pub relay_round : Exec (Relay fl r) Unit
  relay_round = do entries ← gets (λ s. poll_outbox fl 10 s.db); relay_entries entries

  -- relay.run
  unfoldable pub run : List (Relay fl r → Relay fl r) → Exec (Relay fl r) Unit
  run [] = pure tt
  run (others ∷ rest) = do modify others; relay_round; run rest
