-- ===== src/Bench/Phase/Counting.antt =====
-- A window of `n` operations: what holds after every step of every schedule.
use message_broker_patterns.Base.{
  ℕ, ◌+◌, ◌≤◌, ◌<◌, ◌≡◌, refl, ◌∙◌, ap, subst, Bool, true, false, List, [], ◌∷◌, ◌++◌, length,
  length-append, leb, leb→le, leb-false→lt, arith,
}
use message_broker_patterns.Base.Exec.{Exn, Result, ok, err}
use message_broker_patterns.Bench.{Arithmetic, is_done, done}
use message_broker_patterns.Bench.Phase.{
  Worker, ready, running, finished, raised, Tick, Phase, new_phase, worker_at, fail, admit, check,
  complete, advance, tick, ticks,
}
use message_broker_patterns.Bench.Phase.Totals.{
  is_running, is_at_work, is_raised, is_finished, total, ops_window, Counts, left, leb_ℤ-pos,
  total-put_at, length-put_at, at_work-lt, length-repeat, total-repeat, in_flight,
}

module _ (fl : Arithmetic) where
  -- One step of a worker: what is kept, and what is left.
  record Step (n c : ℕ) (p q : Phase fl) : Type 0 where
    counts : Counts n c q
    one_less : left n q < left n p

  module _ (n c : ℕ) (started_at : fl.Float) where
    -- The worker has noted its latency, if it had one to note.
    record Between (t : Tick fl) (p : Phase fl) : Type 0 where
      same_workers : length p.workers ≡ c
      no_overshoot : p.started ≤ n
      at_work : is_at_work (worker_at fl t.worker p.workers) ≡ 1
      accounted :
          p.started + is_running (worker_at fl t.worker p.workers)
          ≡ length p.latencies + total is_running p.workers + total is_raised p.workers
      closed : 0 < total is_finished p.workers → n ≤ p.started

    only_at_work :
        (w : Worker fl)
        → is_at_work w ≡ 1
        → (is_raised w ≡ 0) × (is_finished w ≡ 0) × (is_running w ≤ 1)
    only_at_work w h = ground arith

    -- No worker has ended while there is room.
    ended : {m f f' : ℕ} → 0 < f' → 0 < f → m < n → (0 < f → n ≤ m) → n ≤ m + 1
    ended k k' room h = omega (arith, h k', room)

    admit-Step :
        (t : Tick fl) (p : Phase fl) (b : Bool)
        → leb n p.started ≡ b
        → Between t p
        → Step n c p (admit fl (ok b) t p)
    unfolding admit
    admit-Step t p true e h =
        let i = t.worker in
        let ws = p.workers in
        let lt = at_work-lt i ws h.at_work in
        let at = only_at_work (worker_at fl i ws) h.at_work in
        let run' = total-put_at is_running i finished ws lt in
        let fail' = total-put_at is_raised i finished ws lt in
        let work' = total-put_at is_at_work i finished ws lt in
        let full = leb→le n p.started e in
        record {
          counts = record {
            same_workers = length-put_at i finished ws ∙ h.same_workers;
            no_overshoot = h.no_overshoot;
            accounted = omega (arith, h.accounted, run', fail', at.0);
            closed = λ _. full;
          };
          one_less = omega (arith, work', h.at_work);
        }
    admit-Step t p false e h =
        let i = t.worker in
        let ws = p.workers in
        let w = running t.called in
        let lt = at_work-lt i ws h.at_work in
        let at = only_at_work (worker_at fl i ws) h.at_work in
        let run' = total-put_at is_running i w ws lt in
        let fail' = total-put_at is_raised i w ws lt in
        let work' = total-put_at is_at_work i w ws lt in
        let end' = total-put_at is_finished i w ws lt in
        let room = leb-false→lt n p.started e in
        record {
          counts = record {
            same_workers = length-put_at i w ws ∙ h.same_workers;
            no_overshoot = omega (arith, room);
            accounted = omega (arith, h.accounted, run', fail', at.0);
            closed = λ k. ended k (omega (arith, k, end', at.1)) room h.closed;
          };
          one_less = omega (arith, work', h.at_work, room);
        }

    check-Step :
        (t : Tick fl) (p : Phase fl)
        → Between t p
        → Step n c p (check fl (ops_window fl n) started_at t p)
    unfolding check is_done done
    check-Step t p h = rw (leb_ℤ-pos n p.started) (admit-Step t p (leb n p.started) refl h)

    ready-Between :
        (t : Tick fl) (p : Phase fl)
        → Counts n c p
        → worker_at fl t.worker p.workers ≡ ready
        → Between t p
    ready-Between t p k e = record {
      same_workers = k.same_workers;
      no_overshoot = k.no_overshoot;
      at_work = ap is_at_work e;
      accounted = omega (arith, k.accounted, ap is_running e);
      closed = k.closed;
    }

    noted : (since : fl.Float) (t : Tick fl) (p : Phase fl) → Phase fl
    noted since t p = record p { latencies = p.latencies ++ fl.sub t.completed since ∷ [] }

    noted-Between :
        (since : fl.Float) (t : Tick fl) (p : Phase fl)
        → Counts n c p
        → worker_at fl t.worker p.workers ≡ running since
        → Between t (noted since t p)
    unfolding noted
    noted-Between since t p k e = record {
      same_workers = k.same_workers;
      no_overshoot = k.no_overshoot;
      at_work = ap is_at_work e;
      accounted = omega (
        arith,
        k.accounted,
        ap is_running e,
        length-append p.latencies (fl.sub t.completed since ∷ []),
      );
      closed = k.closed;
    }

    fail-Step :
        (since : fl.Float) (x : Exn) (t : Tick fl) (p : Phase fl)
        → Counts n c p
        → worker_at fl t.worker p.workers ≡ running since
        → Step n c p (fail fl t.worker x p)
    unfolding fail
    fail-Step since x t p k e =
        let i = t.worker in
        let ws = p.workers in
        let w = raised x in
        let lt = at_work-lt i ws (ap is_at_work e) in
        let run' = total-put_at is_running i w ws lt in
        let fail' = total-put_at is_raised i w ws lt in
        let work' = total-put_at is_at_work i w ws lt in
        let end' = total-put_at is_finished i w ws lt in
        record {
          counts = record {
            same_workers = length-put_at i w ws ∙ k.same_workers;
            no_overshoot = k.no_overshoot;
            accounted = omega (arith, k.accounted, run', fail', ap is_running e, ap is_raised e);
            closed = λ h. k.closed (omega (arith, h, end', ap is_finished e));
          };
          one_less = omega (arith, work', ap is_at_work e);
        }

    abbrev Kept : Worker fl → Phase fl → Phase fl → Type 0
    Kept w p q = Counts n c q × (is_at_work w ≡ 1 → left n q < left n p)

    Step-Kept : (w : Worker fl) (p q : Phase fl) → Step n c p q → Kept w p q
    Step-Kept w p q h = (h.counts, λ _. h.one_less)

    advance-Kept :
        (w : Worker fl) (t : Tick fl) (p : Phase fl)
        → worker_at fl t.worker p.workers ≡ w
        → Counts n c p
        → Kept w p (advance fl (ops_window fl n) started_at w t p)
    unfolding advance complete noted
    advance-Kept ready t p e k =
        Step-Kept ready p (check fl (ops_window fl n) started_at t p)
          (check-Step t p (ready-Between t p k e))
    advance-Kept (running since) t p e k = ended_with t.outcome
      where
        ended_with :
            (o : Result Unit)
            → Kept (running since) p (complete fl (ops_window fl n) started_at since o t p)
        ended_with (ok _) =
            let h = check-Step t (noted since t p) (noted-Between since t p k e) in
            (h.counts, λ _. h.one_less)
        ended_with (err x) =
            Step-Kept (running since) p (fail fl t.worker x p) (fail-Step since x t p k e)
    advance-Kept finished t p e k = (k, λ h. ground arith)
    advance-Kept (raised x) t p e k = (k, λ h. ground arith)

    -- A step keeps the counts, and leaves less to do if its worker is at work.
    pub tick-Kept :
        (t : Tick fl) (p : Phase fl)
        → Counts n c p
        → Kept (worker_at fl t.worker p.workers) p (tick fl (ops_window fl n) started_at t p)
    unfolding tick
    tick-Kept t p k = advance-Kept (worker_at fl t.worker p.workers) t p refl k

    ticks-Counts :
        (ts : List (Tick fl)) (p : Phase fl)
        → Counts n c p
        → Counts n c (ticks fl (ops_window fl n) started_at ts p)
    unfolding ticks
    ticks-Counts [] p k = k
    ticks-Counts (t ∷ ts) p k =
        ticks-Counts ts (tick fl (ops_window fl n) started_at t p) (tick-Kept t p k).0

  pub new_phase-Counts : (n c : ℕ) → Counts n c (new_phase fl c)
  unfolding new_phase
  new_phase-Counts n c = record {
    same_workers = length-repeat c ready;
    no_overshoot = omega arith;
    accounted =
        omega (arith, total-repeat is_running c ready refl, total-repeat is_raised c ready refl);
    closed = λ h. omega (arith, h, total-repeat is_finished c ready refl);
  }

  -- With a window of `n` operations and `c` workers, after any steps of the workers, whatever the
  -- operations and the clock give: no more than `n` operations have been started, no more than `c`
  -- are in flight, each one started has left a latency, is in flight or has raised, and no worker
  -- has ended before `n` were started.
  pub ticks_keep_count :
      (n c : ℕ) (started_at : fl.Float) (ts : List (Tick fl))
      → let p = ticks fl (ops_window fl n) started_at ts (new_phase fl c) in
        Counts n c p × (total is_running p.workers ≤ c)
  ticks_keep_count n c started_at ts =
      let p = ticks fl (ops_window fl n) started_at ts (new_phase fl c) in
      let k = ticks-Counts n c started_at ts (new_phase fl c) (new_phase-Counts n c) in
      (k, subst (λ m. total is_running p.workers ≤ m) k.same_workers (in_flight p.workers))
