-- ===== src/Dlq/Naive/Starved.antt =====
-- Head-of-line blocking: behind a payment that always fails nothing is processed, however long the
-- baseline runs.
use message_broker_patterns.Base.{
  ℕ, suc, ◌+◌, String, ◌≡◌, refl, ap, ◌∙◌, Bool, true, false, List, [], ◌∷◌, length, All, arith,
  if◌then◌else◌,
}
use message_broker_patterns.Base.Exec.{
  Result, ok, err, and_then, Returns, Returns-and_then, Returns-imp,
}
use message_broker_patterns.Redis.{Redis, Laws}
use message_broker_patterns.Redis.View.{Fields, Entry, backlog, with_group}
use message_broker_patterns.Process.{Process, see, ensure_group, ensure_group_lem}
use message_broker_patterns.Dlq.Models.{Payment, from_fields}
use message_broker_patterns.Dlq.Broker.{main_stream, dlq_stream, ensure_all_groups}
use message_broker_patterns.Dlq.Consumer.{Handler}
use message_broker_patterns.Dlq.Naive.{
  NaiveRun, attempts_for, poll, loop, run_retry_forever_consumer,
}
use message_broker_patterns.Dlq.Naive.Stuck.{Poisonous, Stuck, poll-Stuck}

module _ {r : Redis} {H : Type 0} (laws : Laws r) (handler : Handler H) (consumer group : String)
    (m : ℕ) (p : Payment) (id : String) (fields : Fields) (rest : List Entry) where
  -- What the others do between the polls leaves the backlog as it is.
  abbrev pub Keeps : (r.State → r.State) → Type 0
  Keeps others =
      (c : r.State)
      → backlog main_stream group consumer (r.view (others c))
        ≡ backlog main_stream group consumer (r.view c)

  loop-Stuck :
      (schedule : List (r.State → r.State)) (s : NaiveRun r H)
      → from_fields fields ≡ ok p
      → Poisonous handler consumer p
      → All Keeps schedule
      → Stuck laws handler consumer group m p id fields rest s
      → Returns (loop handler consumer group (suc m) schedule s) (λ _ t.
        Stuck laws handler consumer group m p id fields rest t
        × (t.polls ≡ s.polls + length schedule))
  unfolding loop attempts_for
  loop-Stuck [] s reads fails keeps h = (h, omega arith)
  loop-Stuck (others ∷ schedule) s reads fails keeps h =
      let before : NaiveRun r H = record s {
        process = record s.process { client = others s.process.client };
      } in
      Returns-and_then
        (λ _ t. Stuck laws handler consumer group m p id fields rest t × (t.polls ≡ s.polls + 1))
        (λ _ t.
          Stuck laws handler consumer group m p id fields rest t
          × (t.polls ≡ s.polls + length (others ∷ schedule)))
        (λ _. loop handler consumer group (suc m) schedule)
        (poll handler consumer group (suc m) before)
        (poll-Stuck laws handler consumer group m p id fields rest before reads fails (record {
          same_backlog = keeps.0 s.process.client ∙ h.same_backlog;
          nothing_processed = h.nothing_processed;
          each_poll = h.each_poll;
        }))
        (λ _ t k.
          Returns-imp
            (λ _ u.
              Stuck laws handler consumer group m p id fields rest u
              × (u.polls ≡ t.polls + length schedule))
            (λ _ u.
              Stuck laws handler consumer group m p id fields rest u
              × (u.polls ≡ s.polls + length (others ∷ schedule)))
            (loop handler consumer group (suc m) schedule t)
            (loop-Stuck schedule t reads fails keeps.1 k.0)
            (λ _ u j. (j.0, omega (arith, j.1, k.1))))

  group_kept :
      (stream : String) (q : Process r)
      → Returns (ensure_group stream group q) (λ _ t.
        backlog main_stream group consumer (see t) ≡ backlog main_stream group consumer (see q))
  group_kept stream q =
      Returns-imp (λ b t. see t ≡ (if b then with_group stream group (see q) else see q))
        (λ _ t.
          backlog main_stream group consumer (see t) ≡ backlog main_stream group consumer (see q))
        (ensure_group stream group q) (ensure_group_lem laws stream group q)
        (λ b t e. ap (backlog main_stream group consumer) e ∙ either b)
    where
      either :
          (b : Bool)
          → backlog main_stream group consumer
              (if b then with_group stream group (see q) else see q)
            ≡ backlog main_stream group consumer (see q)
      either true = refl
      either false = refl

  groups_kept :
      (q : Process r)
      → Returns (ensure_all_groups group q) (λ _ t.
        backlog main_stream group consumer (see t) ≡ backlog main_stream group consumer (see q))
  unfolding ensure_all_groups
  groups_kept q =
      let Same = λ (t : Process r).
        backlog main_stream group consumer (see t) ≡ backlog main_stream group consumer (see q) in
      Returns-and_then (λ _. Same) (λ _. Same)
        (λ _ t. and_then (λ _ u. (ok tt, u)) (ensure_group dlq_stream group t))
        (ensure_group main_stream group q) (group_kept main_stream q)
        (λ _ t k.
          Returns-and_then (λ _. Same) (λ _. Same) (λ _ u. (ok tt, u))
            (ensure_group dlq_stream group t)
            (Returns-imp
              (λ _ u.
                backlog main_stream group consumer (see u)
                ≡ backlog main_stream group consumer (see t))
              (λ _. Same) (ensure_group dlq_stream group t) (group_kept dlq_stream t)
              (λ _ u j. j ∙ k))
            (λ _ u j. j))

  -- If the oldest unacknowledged message of the consumer is a payment on which the handler always
  -- fails, and the others leave the consumer's backlog as it is, the baseline, however often it
  -- polls, processes nothing when it returns: the message and all behind it are still in the backlog,
  -- and every poll has been one more attempt at the same payment.
  pub run_starves :
      (schedule : List (r.State → r.State)) (process : Process r) (h : H)
      → backlog main_stream group consumer (see process) ≡ (id, fields) ∷ rest
      → from_fields fields ≡ ok p
      → Poisonous handler consumer p
      → All Keeps schedule
      → Returns
          (run_retry_forever_consumer handler consumer group (suc m) schedule process h)
          (λ _ t.
            (t.processed ≡ [])
            × (backlog main_stream group consumer (see t.process) ≡ (id, fields) ∷ rest)
            × (attempts_for p.payment_id t ≡ length schedule))
  unfolding run_retry_forever_consumer attempts_for
  run_starves schedule process h at reads fails keeps =
      go (ensure_all_groups group process) (groups_kept process)
    where
      start : Process r → NaiveRun r H
      start q = record { process = q; handler_state = h; processed = []; failures = []; polls = 0 }

      go :
          (x : Result Unit × Process r)
          → Returns x (λ _ t.
            backlog main_stream group consumer (see t)
            ≡ backlog main_stream group consumer (see process))
          → Returns
              (and_then {A = Unit {0}}
                (λ _. loop handler consumer group (suc m) schedule)
                (x.0, start x.1))
              (λ _ t.
                (t.processed ≡ [])
                × (backlog main_stream group consumer (see t.process) ≡ (id, fields) ∷ rest)
                × (attempts_for p.payment_id t ≡ length schedule))
      go (ok u, q) k =
          Returns-imp
            (λ _ t.
              Stuck laws handler consumer group m p id fields rest t
              × (t.polls ≡ 0 + length schedule))
            (λ _ t.
              (t.processed ≡ [])
              × (backlog main_stream group consumer (see t.process) ≡ (id, fields) ∷ rest)
              × (attempts_for p.payment_id t ≡ length schedule))
            (loop handler consumer group (suc m) schedule (start q))
            (loop-Stuck schedule (start q) reads fails keeps
              (record { same_backlog = k ∙ at; nothing_processed = refl; each_poll = refl }))
            (λ _ t j. (j.0.nothing_processed, j.0.same_backlog, omega (arith, j.0.each_poll, j.1)))
      go (err e, q) k = tt
