-- ===== src/EventSourcing/Naive.antt =====
-- event_sourcing_pattern/naive.py: one mutable row per account, without the time of its last update.
pub mod Balance
use message_broker_patterns.Base.{
  String, Bool, ◌&&◌, true, false, Option, none, some, List, [], ◌∷◌, if◌then◌else◌,
}
use message_broker_patterns.Base.Int.{ℤ, pos, negsuc, ◌+ℤ◌, ◌-ℤ◌, leb_ℤ, ltb_ℤ}
use message_broker_patterns.Base.Dict.{Dict, lookup, insert, contains}
use message_broker_patterns.Base.Exec.{
  Exec, Result, ok, err, value_error, insufficient_funds, account_not_found, integrity_error, other,
}

pub record Row : Type 0 where
  pub owner_id : String
  pub balance : ℤ

-- A second row for an account id violates the primary key.
unfoldable pub create_account : String → String → Exec (Dict Row) Unit
create_account id owner t =
    if contains id t
    then (err integrity_error, t)
    else (ok tt, insert id (record { owner_id = owner; balance = pos 0 }) t)

-- get_balance
unfoldable pub balance_in : Option Row → Result ℤ
balance_in none = err account_not_found
balance_in (some row) = ok row.balance

-- SQLite's INTEGER is a signed integer of 64 bits.
unfoldable pub fits : ℤ → Bool
fits n = leb_ℤ (negsuc 9223372036854775807) n && leb_ℤ n (pos 9223372036854775807)

-- UPDATE accounts SET balance = ? WHERE account_id = ?
unfoldable pub updated : String → ℤ → Option Row → Dict Row → Dict Row
updated id n none t = t
updated id n (some row) t = insert id (record row { balance = n }) t

-- A balance of more than 64 bits cannot be handed to SQLite.
unfoldable pub overwrite_balance : String → ℤ → Exec (Dict Row) ℤ
unfolding updated
overwrite_balance id n t =
    if fits n then (ok n, updated id n (lookup id t) t) else (err (other "OverflowError"), t)

unfoldable pub add_to : String → ℤ → Result ℤ → Exec (Dict Row) ℤ
add_to id amount (err e) t = (err e, t)
add_to id amount (ok balance) t = overwrite_balance id (balance +ℤ amount) t

unfoldable pub deposit : String → ℤ → Exec (Dict Row) ℤ
deposit id amount t =
    if leb_ℤ amount (pos 0)
    then (err value_error, t)
    else add_to id amount (balance_in (lookup id t)) t

unfoldable pub take_from : String → ℤ → Result ℤ → Exec (Dict Row) ℤ
take_from id amount (err e) t = (err e, t)
take_from id amount (ok balance) t =
    if ltb_ℤ balance amount
    then (err insufficient_funds, t)
    else overwrite_balance id (balance -ℤ amount) t

unfoldable pub withdraw : String → ℤ → Exec (Dict Row) ℤ
withdraw id amount t =
    if leb_ℤ amount (pos 0)
    then (err value_error, t)
    else take_from id amount (balance_in (lookup id t)) t
