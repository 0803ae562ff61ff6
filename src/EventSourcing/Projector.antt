-- ===== src/EventSourcing/Projector.antt =====
-- event_sourcing_pattern/projector.py: the read model, built from the stored fields alone. Its
-- `last_updated`, a reading of the wall clock, is left out. Other clients act between the polls.
pub mod Agreement
pub mod CatchUp
pub mod Success
pub mod Polls
pub mod Rounds
pub mod Liveness
use message_broker_patterns.Base.{
  ℕ, ◌+◌, String, Bool, true, false, Option, none, some, List, [], ◌∷◌, leb, if◌then◌else◌,
}
use message_broker_patterns.Base.Int.{ℤ, pos, ◌+ℤ◌, ◌-ℤ◌}
use message_broker_patterns.Base.Decimal.{parse_int}
use message_broker_patterns.Base.Exec.{
  Exec, pure, or_raise, lift, modify, gets, zoom, value_error, ◌>>=◌, ◌>>◌,
}
use message_broker_patterns.Redis.{Redis}
use message_broker_patterns.Redis.View.{Fields, Entry}
use message_broker_patterns.Process.{Process, count}
use message_broker_patterns.EventSourcing.Events.{
  AccountEvent, account_created, money_deposited, money_withdrawn, decode_event,
}
use message_broker_patterns.EventSourcing.Store.{read}

pub record AccountSummary : Type 0 where
  pub account_id : String
  pub owner_id : String
  pub balance : ℤ
  pub version : ℕ

-- AccountSummary(account_id=account_id)
abbrev pub new_summary : String → AccountSummary
new_summary id = record { account_id = id; owner_id = ""; balance = pos 0; version = 0 }

unfoldable pub fold_event : AccountEvent → Exec AccountSummary Unit
fold_event (account_created account_id owner_id) =
    modify (λ s. record s { account_id = account_id; owner_id = owner_id })
fold_event (money_deposited account_id amount) = do
  n ← or_raise (parse_int amount) value_error
  modify (λ s. record s { balance = s.balance +ℤ n })
fold_event (money_withdrawn account_id amount) = do
  n ← or_raise (parse_int amount) value_error
  modify (λ s. record s { balance = s.balance -ℤ n })

-- AccountSummary.apply
unfoldable pub apply : Fields → Exec AccountSummary Unit
unfolding fold_event
apply raw = do
  event ← lift (decode_event raw)
  fold_event event
  modify (λ s. record s { version = s.version + 1 })

-- The locals of `project`.
pub record Projection (r : Redis) : Type 0 where
  pub process : Process r
  pub summary : AccountSummary
  pub last_id : String

module _ {r : Redis} (account_id : String) (expected_version : ℕ) where
  -- The body of the inner loop.
  unfoldable pub apply_entry : Entry → Exec (Projection r) Unit
  apply_entry (msg_id, raw) = do
    modify (λ s. record s { last_id = msg_id })
    zoom (λ s. s.summary) (λ c s. record s { summary = c }) (apply raw)
    modify (λ s. record s {
      process = (count "event_sourcing" "read_model_events_applied" s.process).1;
    })

  unfoldable pub apply_entries : List Entry → Exec (Projection r) Unit
  apply_entries [] = pure tt
  apply_entries (e ∷ es) = do apply_entry e; apply_entries es

  unfoldable pub poll : Exec (Projection r) Unit
  poll = do
    last_id ← gets (λ s. s.last_id)
    batch ← zoom (λ s. s.process) (λ p s. record s { process = p }) (read account_id last_id)
    apply_entries batch

  -- The `while` loop: the result says whether the read model caught up.
  unfoldable pub project_loop : List (r.State → r.State) → Exec (Projection r) Bool
  project_loop [] = pure false
  project_loop (others ∷ rest) = do
    modify (λ s. record s { process = record s.process { client = others s.process.client } })
    poll
    caught_up ← gets (λ s. leb expected_version s.summary.version)
    if caught_up then pure true else project_loop rest

  -- project, from a process
  unfoldable pub project : List (r.State → r.State) → Process r → Exec (Projection r) AccountSummary
  project schedule p _ =
      (do project_loop schedule; gets (λ s. s.summary))
        (record { process = p; summary = new_summary account_id; last_id = "0" })
