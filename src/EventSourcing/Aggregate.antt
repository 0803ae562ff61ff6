-- ===== src/EventSourcing/Aggregate.antt =====
-- event_sourcing_pattern/aggregate.py: the write-side aggregate. A command checks, produces an
-- event and applies it; `replay` folds events over a fresh account.
pub mod Commands
pub mod Replay
use message_broker_patterns.Base.{
  ℕ, ◌+◌, String, Option, none, some, Bool, true, false, not, List, [], ◌∷◌, arith,
}
use message_broker_patterns.Base.Int.{ℤ, pos, ◌+ℤ◌, ◌-ℤ◌, leb_ℤ, ltb_ℤ}
use message_broker_patterns.Base.Decimal.{str_int, parse_int}
use message_broker_patterns.Base.Exec.{
  Exec, Result, ok, err, pure, raise_if, or_raise, modify, gets, ◌>>=◌, ◌>>◌, value_error,
  insufficient_funds,
}
use message_broker_patterns.EventSourcing.Events.{
  AccountEvent, account_created, money_deposited, money_withdrawn,
}

pub record BankAccount : Type 0 where
  pub account_id : String
  pub owner_id : String
  pub balance : ℤ
  pub version : ℕ
  pub created : Bool

abbrev pub blank : BankAccount
blank = record { account_id = ""; owner_id = ""; balance = pos 0; version = 0; created = false }

-- self.version += 1, the last line of `_apply`
abbrev bump_version : BankAccount → BankAccount
bump_version a = record a { version = a.version + 1 }

-- `_apply`: `int(event.amount)` may raise before anything is written.
unfoldable pub apply : AccountEvent → Exec BankAccount Unit
apply (account_created account_id owner_id) = do
  modify (λ a. record a { account_id = account_id; owner_id = owner_id; created = true })
  modify bump_version
apply (money_deposited account_id amount) = do
  n ← or_raise (parse_int amount) value_error
  modify (λ a. record a { balance = a.balance +ℤ n })
  modify bump_version
apply (money_withdrawn account_id amount) = do
  n ← or_raise (parse_int amount) value_error
  modify (λ a. record a { balance = a.balance -ℤ n })
  modify bump_version

require_created : Exec BankAccount Unit
require_created = do created ← gets (λ a. a.created); raise_if (not created) value_error

unfoldable pub create : String → Exec BankAccount AccountEvent
create owner_id = do
  a ← gets (λ a. a)
  raise_if a.created value_error
  apply (account_created a.account_id owner_id)
  pure (account_created a.account_id owner_id)

unfoldable pub deposit : ℤ → Exec BankAccount AccountEvent
unfolding require_created
deposit amount = do
  require_created
  raise_if (leb_ℤ amount (pos 0)) value_error
  a ← gets (λ a. a)
  apply (money_deposited a.account_id (str_int amount))
  pure (money_deposited a.account_id (str_int amount))

unfoldable pub withdraw : ℤ → Exec BankAccount AccountEvent
unfolding require_created
withdraw amount = do
  require_created
  raise_if (leb_ℤ amount (pos 0)) value_error
  a ← gets (λ a. a)
  raise_if (ltb_ℤ a.balance amount) insufficient_funds
  apply (money_withdrawn a.account_id (str_int amount))
  pure (money_withdrawn a.account_id (str_int amount))

-- The `for` loop of `replay`.
unfoldable pub apply_all : List AccountEvent → Exec BankAccount Unit
apply_all [] = pure tt
apply_all (e ∷ es) = do apply e; apply_all es

returned : Result Unit × BankAccount → Result BankAccount
returned (ok u, a) = ok a
returned (err e, a) = err e

-- The account that `replay` returns, or the exception of the first event that cannot be applied.
unfoldable pub replay : List AccountEvent → Result BankAccount
unfolding apply_all returned
replay events = returned (apply_all events blank)
