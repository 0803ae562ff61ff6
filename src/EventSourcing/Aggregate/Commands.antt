-- ===== src/EventSourcing/Aggregate/Commands.antt =====
-- What each command does to the account, on every branch.
use message_broker_patterns.Base.{◌+◌, String, ◌≡◌, arith, if◌then◌else◌}
use message_broker_patterns.Base.Int.{ℤ, pos, ◌+ℤ◌, ◌-ℤ◌, leb_ℤ, ltb_ℤ}
use message_broker_patterns.Base.Decimal.{str_int}
use message_broker_patterns.Base.Decimal.RoundTrip.{parse_int-str_int}
use message_broker_patterns.Base.Exec.{ok, err, value_error, insufficient_funds}
use message_broker_patterns.EventSourcing.Events.{money_deposited, money_withdrawn}
use message_broker_patterns.EventSourcing.Aggregate.{BankAccount, apply, deposit, withdraw}

-- A deposit or withdrawal whose amount was written by `str` moves the balance by that amount.
pub apply-deposited :
    (id : String) (n : ℤ) (a : BankAccount)
    → apply (money_deposited id (str_int n)) a
      ≡ (ok tt, record a { balance = a.balance +ℤ n; version = a.version + 1 })
unfolding apply
apply-deposited id n a = rw (parse_int-str_int n)

pub apply-withdrawn :
    (id : String) (n : ℤ) (a : BankAccount)
    → apply (money_withdrawn id (str_int n)) a
      ≡ (ok tt, record a { balance = a.balance -ℤ n; version = a.version + 1 })
unfolding apply
apply-withdrawn id n a = rw (parse_int-str_int n)

-- The whole of `deposit`: both refusals leave the account as it was.
pub deposit_lem :
    (n : ℤ) (a : BankAccount)
    → deposit n a ≡ (
        if a.created
        then (if leb_ℤ n (pos 0) then (err value_error, a) else (
          ok (money_deposited a.account_id (str_int n)),
          record a { balance = a.balance +ℤ n; version = a.version + 1 },
        ))
        else (err value_error, a))
unfolding deposit
deposit_lem n a = ground (arith, apply-deposited a.account_id n a)

pub withdraw_lem :
    (n : ℤ) (a : BankAccount)
    → withdraw n a ≡ (
        if a.created
        then (if leb_ℤ n (pos 0)
            then (err value_error, a)
            else if ltb_ℤ a.balance n
            then (err insufficient_funds, a)
            else (
              ok (money_withdrawn a.account_id (str_int n)),
              record a { balance = a.balance -ℤ n; version = a.version + 1 },
            ))
        else (err value_error, a))
unfolding withdraw
withdraw_lem n a = ground (arith, apply-withdrawn a.account_id n a)
