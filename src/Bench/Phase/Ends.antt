-- ===== src/Bench/Phase/Ends.antt =====
-- A phase ends: how many steps a window of `n` operations takes, and what is returned then.
use message_broker_patterns.Base.{
  ℕ, zero, suc, ◌+◌, ◌≤◌, ◌<◌, ◌⊎◌, inl, inr, ◌≡◌, refl, sym, subst, Bool, true, false, none, some,
  List, [], ◌∷◌, ◌++◌, length, arith,
}
use message_broker_patterns.Base.Int.{pos, leb_ℤ}
use message_broker_patterns.Base.Exec.{ok}
use message_broker_patterns.Bench.{Arithmetic, is_done, done}
use message_broker_patterns.Bench.Phase.{
  Worker, ready, running, finished, raised, Tick, Phase, new_phase, repeat, worker_at, put_at,
  admit, check, complete, advance, tick, ticks, all_finished, result, run_phase,
}
use message_broker_patterns.Bench.Phase.Totals.{
  is_running, is_at_work, is_raised, is_finished, total, ops_window, Counts, left, total-put_at,
  total-repeat, at_work-lt,
}
use message_broker_patterns.Bench.Phase.Counting.{tick-Kept, new_phase-Counts}

module _ (fl : Arithmetic) (n c : ℕ) (started_at : fl.Float) where
  -- Each step is one of a worker at work, whose operation returns if it is in one.
  abbrev pub Live : List (Tick fl) → Phase fl → Type 0
  Live [] p = Unit
  Live (t ∷ ts) p =
      (is_at_work (worker_at fl t.worker p.workers) ≡ 1)
      × (t.outcome ≡ ok tt)
      × Live ts (tick fl (ops_window fl n) started_at t p)

  -- No operation has raised.
  abbrev IsFine : Phase fl → Type 0
  IsFine p = (p.failure ≡ none) × (total is_raised p.workers ≡ 0)

  replaced_fine :
      (i : ℕ) (v : Worker fl) (ws : List (Worker fl))
      → is_at_work (worker_at fl i ws) ≡ 1
      → is_raised v ≡ 0
      → total is_raised ws ≡ 0
      → total is_raised (put_at fl i v ws) ≡ 0
  replaced_fine i v ws w h k =
      let moved = total-put_at is_raised i v ws (at_work-lt i ws w) in omega (arith, moved, h, k)

  check-IsFine :
      (t : Tick fl) (p : Phase fl)
      → is_at_work (worker_at fl t.worker p.workers) ≡ 1
      → IsFine p
      → IsFine (check fl (ops_window fl n) started_at t p)
  unfolding check is_done done admit
  check-IsFine t p w h = admitted (leb_ℤ (pos n) (pos p.started))
    where
      admitted : (b : Bool) → IsFine (admit fl (ok b) t p)
      admitted true = (h.0, replaced_fine t.worker finished p.workers w refl h.1)
      admitted false = (h.0, replaced_fine t.worker (running t.called) p.workers w refl h.1)

  tick-IsFine :
      (t : Tick fl) (p : Phase fl)
      → is_at_work (worker_at fl t.worker p.workers) ≡ 1
      → t.outcome ≡ ok tt
      → IsFine p
      → IsFine (tick fl (ops_window fl n) started_at t p)
  unfolding tick advance complete
  tick-IsFine t p w o h = go (worker_at fl t.worker p.workers) refl w
    where
      go :
          (v : Worker fl)
          → worker_at fl t.worker p.workers ≡ v
          → is_at_work v ≡ 1
          → IsFine (advance fl (ops_window fl n) started_at v t p)
      go ready e a = check-IsFine t p w h
      go (running since) e a =
          subst (λ out. IsFine (complete fl (ops_window fl n) started_at since out t p)) (sym o)
            (check-IsFine t (record p { latencies = p.latencies ++ fl.sub t.completed since ∷ [] })
              w h)
      go finished e a = ground arith
      go (raised x) e a = ground arith

  ticks_go :
      (ts : List (Tick fl)) (p : Phase fl)
      → Counts n c p
      → IsFine p
      → Live ts p
      → let q = ticks fl (ops_window fl n) started_at ts p in
        Counts n c q × IsFine q × (length ts + left n q ≤ left n p)
  unfolding ticks
  ticks_go [] p k h l = (k, h, omega arith)
  ticks_go (t ∷ ts) p k h l =
      let q = tick fl (ops_window fl n) started_at t p in
      let (k', less) = tick-Kept fl n c started_at t p k in
      let (r, f, b) = ticks_go ts q k' (tick-IsFine t p l.0 l.1 h) l.2 in
      (r, f, omega (arith, b, less l.0))

  ended-all_finished :
      (ws : List (Worker fl))
      → total is_at_work ws ≡ 0
      → total is_raised ws ≡ 0
      → all_finished fl ws ≡ true
  unfolding all_finished
  ended-all_finished [] h k = refl
  ended-all_finished (ready ∷ ws) h k = ground arith
  ended-all_finished (running since ∷ ws) h k = ground arith
  ended-all_finished (finished ∷ ws) h k =
      ended-all_finished ws (omega (arith, h)) (omega (arith, k))
  ended-all_finished (raised x ∷ ws) h k = ground arith

  parts :
      (ws : List (Worker fl))
      → length ws ≡ total is_at_work ws + total is_raised ws + total is_finished ws
  parts [] = refl
  parts (w ∷ ws) = ground (arith, parts ws)

  fewer : (ws : List (Worker fl)) → total is_running ws ≤ total is_at_work ws
  fewer [] = omega arith
  fewer (w ∷ ws) = ground (arith, fewer ws)

  -- No worker at work: the phase has returned.
  returned :
      (p : Phase fl)
      → 0 < c
      → Counts n c p
      → IsFine p
      → total is_at_work p.workers ≡ 0
      → (p.started ≡ n) × (length p.latencies ≡ n) × (result fl p ≡ some (ok (n, p.latencies)))
  unfolding result
  returned p some_worker k h idle =
      (full, counted, rw (h.0, ended-all_finished p.workers idle h.1, full) refl)
    where
      someone : 0 < total is_finished p.workers
      someone = omega (arith, parts p.workers, k.same_workers, idle, h.1, some_worker)

      full : p.started ≡ n
      full = omega (arith, k.closed someone, k.no_overshoot)

      counted : length p.latencies ≡ n
      counted = omega (arith, k.accounted, fewer p.workers, idle, h.1, full)

  fresh_raised : (m : ℕ) → total is_raised (repeat fl m ready) ≡ 0
  fresh_raised m = total-repeat is_raised m ready refl

  fresh_work : (m : ℕ) → total is_at_work (repeat fl m ready) ≡ m
  fresh_work zero = refl
  fresh_work (suc m) = omega (arith, fresh_work m)

  new_phase-IsFine : IsFine (new_phase fl c)
  unfolding new_phase
  new_phase-IsFine = (refl, fresh_raised c)

  new_phase-left : left n (new_phase fl c) ≡ n + c
  unfolding new_phase
  new_phase-left = omega (arith, fresh_work c)

  -- A phase with a window of `n` operations, at least one worker and operations that return takes at
  -- most `n` steps and one more for each worker, in any order of the workers. After any such steps
  -- a worker is still at work, or the phase has returned, with exactly `n` operations and `n`
  -- latencies.
  pub run_phase_ends :
      (ts : List (Tick fl))
      → 0 < c
      → Live ts (new_phase fl c)
      → let p = ticks fl (ops_window fl n) started_at ts (new_phase fl c) in
        (length ts ≤ n + c)
        × ((0 < total is_at_work p.workers)
            ⊎ ((run_phase fl (ops_window fl n) c started_at ts ≡ some (ok (n, p.latencies)))
                × (length p.latencies ≡ n)))
  unfolding run_phase
  run_phase_ends ts some_worker live =
      let p = ticks fl (ops_window fl n) started_at ts (new_phase fl c) in
      let (k, h, b) =
        ticks_go ts (new_phase fl c) (new_phase-Counts fl n c) new_phase-IsFine live in
      (omega (arith, b, new_phase-left), at_work_or_not (total is_at_work p.workers) refl k h)
    where
      at_work_or_not :
          (m : ℕ)
          → let p = ticks fl (ops_window fl n) started_at ts (new_phase fl c) in
            total is_at_work p.workers ≡ m
            → Counts n c p
            → IsFine p
            → (0 < m) ⊎ ((result fl p ≡ some (ok (n, p.latencies))) × (length p.latencies ≡ n))
      at_work_or_not zero idle k h =
          let p = ticks fl (ops_window fl n) started_at ts (new_phase fl c) in
          let (full, counted, done') = returned p some_worker k h idle in inr (done', counted)
      at_work_or_not (suc m) e k h = inl (omega arith)
