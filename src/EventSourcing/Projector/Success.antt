-- ===== src/EventSourcing/Projector/Success.antt =====
-- Stored fields that fold without an error are applied without one, and count as versions.
use message_broker_patterns.Base.{
  ℕ, zero, suc, ◌+◌, ◌≤◌, String, ◌≡◌, refl, sym, ap, ◌∙◌, subst, Option, none, some, List, [], ◌∷◌,
  map, drop, length, arith,
}
use message_broker_patterns.Base.Int.{ℤ, ◌+ℤ◌, ◌-ℤ◌}
use message_broker_patterns.Base.Decimal.{parse_int}
use message_broker_patterns.Base.Exec.{
  Exec, Result, ok, err, and_then, Returns, Returns-and_then, value_error, or_raise, modify, lift,
  ◌>>=◌, ◌>>◌,
}
use message_broker_patterns.Redis.{Redis, Succeeds}
use message_broker_patterns.Redis.View.{Fields, Entry}
use message_broker_patterns.Process.{count}
use message_broker_patterns.EventSourcing.Events.{
  AccountEvent, account_created, money_deposited, money_withdrawn, decode_event,
}
use message_broker_patterns.EventSourcing.Projector.{
  AccountSummary, Projection, fold_event, apply, apply_entry, apply_entries,
}
use message_broker_patterns.EventSourcing.Projector.Agreement.{apply_all}

amount_kept :
    (f : ℤ → AccountSummary → AccountSummary) (o : Option ℤ) (s : AccountSummary)
    → ((n : ℤ) → (f n s).version ≡ s.version)
    → Returns ((or_raise o value_error >>= (λ n. modify (f n))) s) (λ _ c. c.version ≡ s.version)
amount_kept f none s h = tt
amount_kept f (some n) s h = h n

fold_event-version :
    (e : AccountEvent) (s : AccountSummary)
    → Returns (fold_event e s) (λ _ c. c.version ≡ s.version)
unfolding fold_event
fold_event-version (account_created id owner) s = refl
fold_event-version (money_deposited id amount) s =
    amount_kept (λ n s. record s { balance = s.balance +ℤ n }) (parse_int amount) s (λ n. refl)
fold_event-version (money_withdrawn id amount) s =
    amount_kept (λ n s. record s { balance = s.balance -ℤ n }) (parse_int amount) s (λ n. refl)

-- An event that is applied counts as one more version.
apply-version :
    (raw : Fields) (s : AccountSummary) → Returns (apply raw s) (λ _ c. c.version ≡ s.version + 1)
unfolding apply
apply-version raw s = decoded (decode_event raw)
  where
    decoded :
        (x : Result AccountEvent)
        → Returns
            (and_then
              (λ e. fold_event e >> modify (λ s. record s { version = s.version + 1 }))
              (lift x s))
            (λ _ c. c.version ≡ s.version + 1)
    decoded (err e) = tt
    decoded (ok e) =
        Returns-and_then (λ _ c. c.version ≡ s.version) (λ _ c. c.version ≡ s.version + 1)
          (λ _. modify (λ s. record s { version = s.version + 1 })) (fold_event e s)
          (fold_event-version e s) (λ _ c h. ap (λ n. n + 1) h)

pub apply_all-version :
    (fs : List Fields) (s c : AccountSummary)
    → apply_all fs s ≡ (ok tt, c)
    → c.version ≡ s.version + length fs
unfolding apply_all
apply_all-version [] s c h =
    ap (λ (x : Result Unit × AccountSummary). x.1.version) (sym h) ∙ omega arith
apply_all-version (f ∷ fs) s c h = go (apply f s) (apply-version f s) (apply_all-version fs) h
  where
    go :
        (x : Result Unit × AccountSummary)
        → Returns x (λ _ d. d.version ≡ s.version + 1)
        → ((d c : AccountSummary) → apply_all fs d ≡ (ok tt, c) → c.version ≡ d.version + length fs)
        → and_then (λ _. apply_all fs) x ≡ (ok tt, c)
        → c.version ≡ s.version + length (f ∷ fs)
    go (ok u, d) v rec e = omega (arith, rec d c e, v)
    go (err x, d) v rec e = ground (arith, ap (λ (y : Result Unit × AccountSummary). y.0) e)

pub length-map : {A B : Type 0} (f : A → B) (xs : List A) → length (map f xs) ≡ length xs
length-map f [] = refl
length-map f (x ∷ xs) = ap suc (length-map f xs)

pub length-drop :
    {A : Type 0} (n : ℕ) (xs : List A) (m : ℕ) → length xs ≤ n + m → length (drop n xs) ≤ m
length-drop zero xs m h = omega arith
length-drop (suc n) [] m h = omega arith
length-drop (suc n) (x ∷ xs) m h = length-drop n xs m (omega arith)

pub empty : {A : Type 0} (xs : List A) → length xs ≤ 0 → xs ≡ []
empty [] h = refl
empty (x ∷ xs) h = ground arith

-- The call returned.
abbrev pub IsOk : {S A : Type 0} → Result A × S → Type 0
IsOk x = Succeeds x

pub returned :
    {S A : Type 0} (Q : A → S → Type 0) (x : Result A × S)
    → Returns x Q
    → IsOk x
    → (a : A) × (x.0 ≡ ok a) × Q a x.1
returned Q (ok a, s) h k = (a, refl, h)
returned Q (err e, s) h k = absurd k

pub first-IsOk :
    {S A B : Type 0} (f : A → Exec S B) (x : Result A × S) → IsOk (and_then f x) → IsOk x
first-IsOk f (ok a, s) h = tt
first-IsOk f (err e, s) h = h

unfoldable pub bodies : List Entry → List Fields
bodies es = map (λ (e : Entry). e.1) es

module _ {r : Redis} (account_id : String) (expected_version : ℕ) where
  apply_entry-IsOk :
      (id : String) (raw : Fields) (s : Projection r)
      → IsOk (apply raw s.summary)
      → IsOk (apply_entry account_id expected_version (id, raw) s)
        × ((apply_entry account_id expected_version (id, raw) s).1.summary
            ≡ (apply raw s.summary).1)
  unfolding apply_entry
  apply_entry-IsOk id raw s h = go (apply raw s.summary) h
    where
      go :
          (x : Result Unit × AccountSummary)
          → IsOk x
          → let y : Result Unit × Projection r =
              and_then
                (λ _ t. (
                  ok tt,
                  record t {
                    process = (count "event_sourcing" "read_model_events_applied" t.process).1;
                  },
                ))
                (x.0, record s { last_id = id; summary = x.1 }) in
            IsOk y × (y.1.summary ≡ x.1)
      go (ok u, c) h = (tt, refl)
      go (err e, c) h = absurd h

  -- Entries that fold can be applied one by one.
  pub apply_entries-IsOk :
      (es : List Entry) (s : Projection r)
      → IsOk (apply_all (bodies es) s.summary)
      → IsOk (apply_entries account_id expected_version es s)
  unfolding apply_entries apply_all bodies
  apply_entries-IsOk [] s h = tt
  apply_entries-IsOk ((id, raw) ∷ es) s h =
      let ok_first =
        apply_entry-IsOk id raw s
          (first-IsOk (λ _. apply_all (bodies es)) (apply raw s.summary) h) in
      go (apply raw s.summary) h (apply_entry account_id expected_version (id, raw) s) ok_first.0
        ok_first.1 (apply_entries-IsOk es)
    where
      go :
          (x : Result Unit × AccountSummary)
          → IsOk (and_then (λ _. apply_all (bodies es)) x)
          → (y : Result Unit × Projection r) → IsOk y
          → y.1.summary ≡ x.1
          → ((t : Projection r)
              → IsOk (apply_all (bodies es) t.summary)
              → IsOk (apply_entries account_id expected_version es t))
          → IsOk (and_then (λ _. apply_entries account_id expected_version es) y)
      go (ok u, c) h (ok v, t) k e rec =
          rec t (subst (λ d. IsOk (apply_all (bodies es) d)) (sym e) h)
      go (err x, c) h y k e rec = absurd h
      go x h (err z, t) k e rec = absurd k
