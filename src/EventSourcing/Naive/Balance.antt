-- ===== src/EventSourcing/Naive/Balance.antt =====
-- The naive row and the aggregate hold the same balance, as long as the row can hold it.
use message_broker_patterns.Base.{
  ◌+◌, String, ◌≡◌, ◌||◌, Bool, true, false, some, List, [], ◌∷◌, arith, eq_iff, if◌then◌else◌,
}
use message_broker_patterns.Base.Int.{ℤ, pos, ◌+ℤ◌, ◌-ℤ◌, leb_ℤ, ltb_ℤ}
use message_broker_patterns.Base.Dict.{Dict, lookup, lookup-insert}
use message_broker_patterns.EventSourcing.Aggregate
use message_broker_patterns.EventSourcing.Aggregate.{BankAccount}
use message_broker_patterns.EventSourcing.Aggregate.Commands.{deposit_lem, withdraw_lem}
use message_broker_patterns.EventSourcing.Naive.{
  Row, fits, balance_in, updated, overwrite_balance, add_to, take_from, deposit, withdraw,
}

-- A deposit or a withdrawal of an amount.
pub data Movement : Type 0 where
  paid_in : ℤ → Movement
  paid_out : ℤ → Movement

-- On the row; what it raises is caught by the caller.
abbrev pub on_row : String → Movement → Dict Row → Dict Row
on_row id (paid_in n) t = (deposit id n t).1
on_row id (paid_out n) t = (withdraw id n t).1

abbrev pub on_rows : String → List Movement → Dict Row → Dict Row
on_rows id [] t = t
on_rows id (m ∷ ms) t = on_rows id ms (on_row id m t)

-- On the aggregate.
abbrev pub on_account : Movement → BankAccount → BankAccount
on_account (paid_in n) a = (Aggregate.deposit n a).1
on_account (paid_out n) a = (Aggregate.withdraw n a).1

-- The movement, where SQLite can hold the balance that it leads to.
abbrev pub on_account_fitting : Movement → BankAccount → BankAccount
on_account_fitting m a = let a' = on_account m a in if fits a'.balance then a' else a

abbrev pub on_accounts : List Movement → BankAccount → BankAccount
on_accounts [] a = a
on_accounts (m ∷ ms) a = on_accounts ms (on_account_fitting m a)

-- The account is created, and its row has its balance.
abbrev pub Mirrors : String → String → Dict Row → BankAccount → Type 0
Mirrors id owner t a =
    (a.created ≡ true) × (lookup id t ≡ some (record { owner_id = owner; balance = a.balance }))

overwritten_row :
    (id owner : String) (n m : ℤ) (t : Dict Row)
    → lookup id (updated id n (some (record { owner_id = owner; balance = m })) t)
      ≡ some (record { owner_id = owner; balance = n })
unfolding updated
overwritten_row id owner n m t =
    ground (arith, eq_iff id id, lookup-insert id id (record { owner_id = owner; balance = n }) t)

abbrev row_of : String → ℤ → Row
row_of owner balance = record { owner_id = owner; balance = balance }

-- The account after a new balance, and what is kept of it.
abbrev with_balance : Bool → ℤ → BankAccount → BankAccount
with_balance refused n a = if refused then a else record a { balance = n; version = a.version + 1 }

abbrev kept : BankAccount → BankAccount → BankAccount
kept a a' = if fits a'.balance then a' else a

-- The table after a new balance.
abbrev row_with : Bool → String → String → ℤ → ℤ → Dict Row → Dict Row
row_with refused id owner n m t =
    if refused then t else if fits n then updated id n (some (row_of owner m)) t else t

-- The table after each movement.
deposited :
    (id owner : String) (n m : ℤ) (t : Dict Row)
    → lookup id t ≡ some (row_of owner m)
    → (deposit id n t).1 ≡ row_with (leb_ℤ n (pos 0)) id owner (m +ℤ n) m t
unfolding deposit balance_in add_to overwrite_balance
deposited id owner n m t at = ground (arith, at)

withdrawn :
    (id owner : String) (n m : ℤ) (t : Dict Row)
    → lookup id t ≡ some (row_of owner m)
    → (withdraw id n t).1 ≡ row_with (leb_ℤ n (pos 0) || ltb_ℤ m n) id owner (m -ℤ n) m t
unfolding withdraw balance_in take_from overwrite_balance
withdrawn id owner n m t at = ground (arith, at)

moved :
    (id owner : String) (n : ℤ) (refused : Bool) (t : Dict Row) (a : BankAccount)
    → Mirrors id owner t a
    → Mirrors id owner (row_with refused id owner n a.balance t) (kept a (with_balance refused n a))
moved id owner n true t a h = split (fits a.balance)
  where
    split : (f : Bool) → Mirrors id owner t (if f then a else a)
    split true = h
    split false = h
moved id owner n false t a h = split (fits n)
  where
    split :
        (f : Bool)
        → Mirrors id owner
            (if f then updated id n (some (row_of owner a.balance)) t else t)
            (if f then with_balance false n a else a)
    split true = (h.0, overwritten_row id owner n a.balance t)
    split false = h

on_row-Mirrors :
    (id owner : String) (m : Movement) (t : Dict Row) (a : BankAccount)
    → Mirrors id owner t a
    → Mirrors id owner (on_row id m t) (on_account_fitting m a)
on_row-Mirrors id owner (paid_in n) t a h =
    let same : on_account (paid_in n) a ≡ with_balance (leb_ℤ n (pos 0)) (a.balance +ℤ n) a =
      ground (arith, h.0, deposit_lem n a) in
    rw (same, deposited id owner n a.balance t h.1)
      (moved id owner (a.balance +ℤ n) (leb_ℤ n (pos 0)) t a h)
on_row-Mirrors id owner (paid_out n) t a h =
    let refused = leb_ℤ n (pos 0) || ltb_ℤ a.balance n in
    let same : on_account (paid_out n) a ≡ with_balance refused (a.balance -ℤ n) a =
      ground (arith, h.0, withdraw_lem n a) in
    rw (same, withdrawn id owner n a.balance t h.1) (moved id owner (a.balance -ℤ n) refused t a h)

-- Over any deposits and withdrawals, the naive row keeps the balance of an event-sourced account
-- that is given those of them after which SQLite can hold the balance in 64 bits, if it starts with
-- the balance of a created account: a refused movement changes neither, and one that the row cannot
-- hold leaves the row as it was.
pub on_rows-Mirrors :
    (id owner : String) (ms : List Movement) (t : Dict Row) (a : BankAccount)
    → Mirrors id owner t a
    → Mirrors id owner (on_rows id ms t) (on_accounts ms a)
on_rows-Mirrors id owner [] t a h = h
on_rows-Mirrors id owner (m ∷ ms) t a h =
    on_rows-Mirrors id owner ms (on_row id m t) (on_account_fitting m a)
      (on_row-Mirrors id owner m t a h)
