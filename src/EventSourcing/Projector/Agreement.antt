-- ===== src/EventSourcing/Projector/Agreement.antt =====
-- The read model folds stored fields to what the write side folds events to.
use message_broker_patterns.Base.{
  ◌+◌, String, ◌≡◌, refl, ap, List, [], ◌∷◌, map, Option, none, some,
}
use message_broker_patterns.Base.Int.{ℤ, ◌+ℤ◌, ◌-ℤ◌}
use message_broker_patterns.Base.Decimal.{parse_int}
use message_broker_patterns.Base.Exec.{Exec, Result, ok, err, pure, and_then, ◌>>◌}
use message_broker_patterns.Redis.View.{Fields}
use message_broker_patterns.EventSourcing.Events.{
  AccountEvent, account_created, money_deposited, money_withdrawn, to_dict,
}
use message_broker_patterns.EventSourcing.Events.Codec.{decode_event-to_dict}
use message_broker_patterns.EventSourcing.Aggregate
use message_broker_patterns.EventSourcing.Aggregate.{BankAccount}
use message_broker_patterns.EventSourcing.Aggregate.Replay.{
  Command, run_commands, new_account, run_replays,
}
use message_broker_patterns.EventSourcing.Projector.{AccountSummary, new_summary, apply}

-- The read side over a list of stored entries.
unfoldable pub apply_all : List Fields → Exec AccountSummary Unit
apply_all [] = pure tt
apply_all (f ∷ fs) = do apply f; apply_all fs

-- What both models hold.
pub record SameModel (a : BankAccount) (s : AccountSummary) : Type 0 where
  pub owners : a.owner_id ≡ s.owner_id
  pub balances : a.balance ≡ s.balance
  pub versions : a.version ≡ s.version

-- The call returned, in a state with the property.
abbrev pub Returned : Result Unit × AccountSummary → (AccountSummary → Type 0) → Type 0
Returned (ok _, s) P = P s
Returned (err e, s) P = ⊥

-- Both sides return, in the same model, or both raise.
abbrev pub Together : Result Unit × BankAccount → Result Unit × AccountSummary → Type 0
Together (ok _, a) (ok _, s) = SameModel a s
Together (err e, a) (err f, s) = e ≡ f
Together _ _ = ⊥

deposited-Together :
    (o : Option ℤ) (id amount : String) (a : BankAccount) (s : AccountSummary)
    → SameModel a s
    → parse_int amount ≡ o
    → Together
        (Aggregate.apply (money_deposited id amount) a)
        (apply (to_dict (money_deposited id amount)) s)
unfolding Aggregate.apply apply
deposited-Together none id amount a s h e = rw (decode_event-to_dict, e)
deposited-Together (some n) id amount a s h e =
    rw (decode_event-to_dict, e)
      (record {
        owners = h.owners;
        balances = ap (λ b. b +ℤ n) h.balances;
        versions = ap (λ k. k + 1) h.versions;
      })

withdrawn-Together :
    (o : Option ℤ) (id amount : String) (a : BankAccount) (s : AccountSummary)
    → SameModel a s
    → parse_int amount ≡ o
    → Together
        (Aggregate.apply (money_withdrawn id amount) a)
        (apply (to_dict (money_withdrawn id amount)) s)
unfolding Aggregate.apply apply
withdrawn-Together none id amount a s h e = rw (decode_event-to_dict, e)
withdrawn-Together (some n) id amount a s h e =
    rw (decode_event-to_dict, e)
      (record {
        owners = h.owners;
        balances = ap (λ b. b -ℤ n) h.balances;
        versions = ap (λ k. k + 1) h.versions;
      })

apply-Together :
    (e : AccountEvent) (a : BankAccount) (s : AccountSummary)
    → SameModel a s
    → Together (Aggregate.apply e a) (apply (to_dict e) s)
unfolding Aggregate.apply apply
apply-Together (account_created id owner) a s h =
    rw decode_event-to_dict
      (record { owners = refl; balances = h.balances; versions = ap (λ n. n + 1) h.versions })
apply-Together (money_deposited id amount) a s h =
    deposited-Together (parse_int amount) id amount a s h refl
apply-Together (money_withdrawn id amount) a s h =
    withdrawn-Together (parse_int amount) id amount a s h refl

-- From equal models, the write side's fold over any events and the read side's fold over their
-- stored fields go together: both return, with the same owner, balance and version, or both raise
-- the same exception.
pub apply_all-Together :
    (es : List AccountEvent) (a : BankAccount) (s : AccountSummary)
    → SameModel a s
    → Together (Aggregate.apply_all es a) (apply_all (map to_dict es) s)
unfolding Aggregate.apply_all apply_all
apply_all-Together [] a s h = h
apply_all-Together (e ∷ es) a s h =
    go (Aggregate.apply e a) (apply (to_dict e) s) (apply-Together e a s h) (apply_all-Together es)
  where
    go :
        (x : Result Unit × BankAccount) (y : Result Unit × AccountSummary)
        → Together x y
        → ((b : BankAccount) (t : AccountSummary)
            → SameModel b t
            → Together (Aggregate.apply_all es b) (apply_all (map to_dict es) t))
        → Together
            (and_then (λ _. Aggregate.apply_all es) x)
            (and_then (λ _. apply_all (map to_dict es)) y)
    go (ok u, b) (ok v, t) k rest = rest b t k
    go (err x, b) (err y, t) k rest = k
    go (ok u, b) (err y, t) k rest = absurd k
    go (err x, b) (ok v, t) k rest = absurd k

-- Reading back the stored events of any run of commands on a new account, the read model has the
-- owner, the balance and the version of the account that the commands left.
pub read_model-run_commands :
    (cs : List Command) (id : String)
    → let (es, a) = run_commands cs (new_account id) in
      Returned (apply_all (map to_dict es) (new_summary id)) (SameModel a)
read_model-run_commands cs id =
    let (es, a) = run_commands cs (new_account id) in
    go (apply_all (map to_dict es) (new_summary id)) (
      rw (run_replays cs (new_account id)) at (
        apply_all-Together es (new_account id) (new_summary id)
          (record { owners = refl; balances = refl; versions = refl })))
  where
    go :
        (y : Result Unit × AccountSummary)
        → Together (ok tt, (run_commands cs (new_account id)).1) y
        → Returned y (SameModel (run_commands cs (new_account id)).1)
    go (ok v, t) k = k
    go (err y, t) k = k
