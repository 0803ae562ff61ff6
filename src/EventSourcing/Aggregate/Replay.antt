-- ===== src/EventSourcing/Aggregate/Replay.antt =====
-- Histories of commands: the events that a caller stores, the account that the commands leave, and
-- the account that `replay` rebuilds from the stored events alone.
use mathlib.Core.Path.{fun_ext}
use message_broker_patterns.Base.{
  ◌+◌, String, ◌≡◌, refl, ap, sym, ◌∙◌, true, arith, List, [], ◌∷◌, ◌++◌,
}
use message_broker_patterns.Base.Int.{ℤ, pos, ◌≤ℤ◌, int_laws}
use message_broker_patterns.Base.Exec.{Result, ok, err, and_then, and_then_assoc, value_error}
use message_broker_patterns.EventSourcing.Events.{AccountEvent}
use message_broker_patterns.EventSourcing.Aggregate.{
  BankAccount, blank, apply, apply_all, create, deposit, withdraw, replay,
}
use message_broker_patterns.EventSourcing.Aggregate.Commands.{
  deposit_lem, withdraw_lem, apply-deposited, apply-withdrawn,
}

-- A call of one of the three command methods.
pub data Command : Type 0 where
  open_for : String → Command
  put_in : ℤ → Command
  take_out : ℤ → Command

unfoldable pub execute : Command → BankAccount → Result AccountEvent × BankAccount
execute (open_for owner) = create owner
execute (put_in n) = deposit n
execute (take_out n) = withdraw n

-- A caller stores the event of a command that returns, and goes on after one that raises.
unfoldable pub kept : Result AccountEvent → List AccountEvent
kept (ok e) = e ∷ []
kept (err e) = []

unfoldable pub run_commands : List Command → BankAccount → List AccountEvent × BankAccount
run_commands [] a = ([], a)
run_commands (c ∷ cs) a =
    let (r, a') = execute c a in let (es, a'') = run_commands cs a' in (kept r ++ es, a'')

-- BankAccount(account_id=id)
abbrev pub new_account : String → BankAccount
new_account id = record blank { account_id = id }

-- A command that raises leaves the account as it was.
pub execute_atomic :
    (c : Command) (a : BankAccount) → kept (execute c a).0 ≡ [] → (execute c a).1 ≡ a
unfolding execute kept create apply
execute_atomic (open_for owner) a h = ground arith
execute_atomic (put_in n) a h = ground (arith, deposit_lem n a)
execute_atomic (take_out n) a h = ground (arith, withdraw_lem n a)

-- One command, from an account with money in range: the balance stays in range.
execute_nonneg :
    (c : Command) (a : BankAccount) → pos 0 ≤ℤ a.balance → pos 0 ≤ℤ (execute c a).1.balance
unfolding execute create apply
execute_nonneg (open_for owner) a h = ground arith
execute_nonneg (put_in n) a h = grind (int_laws, deposit_lem n a)
execute_nonneg (take_out n) a h = grind (int_laws, withdraw_lem n a)

-- Whatever commands are run, a balance that is not negative stays so.
pub run_commands_nonneg :
    (cs : List Command) (a : BankAccount)
    → pos 0 ≤ℤ a.balance
    → pos 0 ≤ℤ (run_commands cs a).1.balance
unfolding run_commands
run_commands_nonneg [] a h = h
run_commands_nonneg (c ∷ cs) a h = run_commands_nonneg cs (execute c a).1 (execute_nonneg c a h)

-- What is left of the account to rebuild: the stored events of one command do what the command did.
execute_replays :
    (c : Command) (a : BankAccount) → apply_all (kept (execute c a).0) a ≡ (ok tt, (execute c a).1)
unfolding execute kept apply_all
execute_replays (open_for owner) a = unfold create apply in ground arith
execute_replays (put_in n) a = ground (arith, deposit_lem n a, apply-deposited a.account_id n a)
execute_replays (take_out n) a = ground (arith, withdraw_lem n a, apply-withdrawn a.account_id n a)

apply_all-append :
    (es fs : List AccountEvent) (a : BankAccount)
    → apply_all (es ++ fs) a ≡ and_then (λ _. apply_all fs) (apply_all es a)
unfolding apply_all
apply_all-append [] fs a = refl
apply_all-append (e ∷ es) fs a =
    ap (λ k. and_then k (apply e a)) (fun_ext λ u. fun_ext λ b. apply_all-append es fs b)
    ∙ sym (and_then_assoc (λ u b. apply_all es b) (λ u. apply_all fs) (apply e a))

pub run_replays :
    (cs : List Command) (a : BankAccount)
    → apply_all (run_commands cs a).0 a ≡ (ok tt, (run_commands cs a).1)
unfolding run_commands
run_replays [] a = unfold apply_all in refl
run_replays (c ∷ cs) a =
    rw
      (
        apply_all-append (kept (execute c a).0) (run_commands cs (execute c a).1).0 a,
        execute_replays c a,
      )
      (run_replays cs (execute c a).1)

-- Before `create` has run no command is accepted, so the first event is the creation.
put_in_refused :
    (n : ℤ) (id : String) → execute (put_in n) (new_account id) ≡ (err value_error, new_account id)
unfolding execute
put_in_refused n id = deposit_lem n (new_account id)

take_out_refused :
    (n : ℤ) (id : String)
    → execute (take_out n) (new_account id) ≡ (err value_error, new_account id)
unfolding execute
take_out_refused n id = withdraw_lem n (new_account id)

-- Replaying the events that a run of commands stored rebuilds exactly the account that the commands
-- left, once the account is created: owner, balance, version and identity.
pub replay-run_commands :
    (cs : List Command) (id : String)
    → (run_commands cs (new_account id)).1.created ≡ true
    → replay (run_commands cs (new_account id)).0 ≡ ok (run_commands cs (new_account id)).1
unfolding run_commands replay kept
replay-run_commands [] id h = cc h
replay-run_commands (open_for owner ∷ cs) id h =
    unfold execute create apply apply_all in
    rw (
      run_replays cs
        (record (new_account id) { owner_id = owner; version = 0 + 1; created = true }))
replay-run_commands (put_in n ∷ cs) id h =
    rw (put_in_refused n id) (replay-run_commands cs id (rw (put_in_refused n id) at h))
replay-run_commands (take_out n ∷ cs) id h =
    rw (take_out_refused n id) (replay-run_commands cs id (rw (take_out_refused n id) at h))
