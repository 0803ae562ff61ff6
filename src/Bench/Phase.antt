-- ===== src/Bench/Phase.antt =====
-- bench.py: `_run_phase`. The workers are tasks of one event loop, so what a worker does from one
-- await to the next is one step; a schedule says which worker goes on, and what the clock and the
-- operation give it.
pub mod Totals
pub mod Counting
pub mod Ends
use message_broker_patterns.Base.{
  ℕ, zero, suc, ◌+◌, Bool, true, false, Option, none, some, List, [], ◌∷◌, ◌++◌, if◌then◌else◌,
}
use message_broker_patterns.Base.Exec.{Exn, Result, ok, err}
use message_broker_patterns.Bench.{Arithmetic, Window, is_done}

module _ (fl : Arithmetic) where
  -- A worker before its next check of the window, in an operation since an instant, or at its end.
  pub data Worker : Type 0 where
    ready : Worker
    running : fl.Float → Worker
    finished : Worker
    raised : Exn → Worker

  -- A worker goes on: how its operation ended and the clock then, and the clock at its next check of
  -- the window and at the start of its next operation.
  pub record Tick : Type 0 where
    pub worker : ℕ
    pub outcome : Result Unit
    pub completed : fl.Float
    pub checked : fl.Float
    pub called : fl.Float

  pub record Phase : Type 0 where
    pub started : ℕ
    pub latencies : List fl.Float
    pub workers : List Worker
    -- the first exception, which `gather` raises
    pub failure : Option Exn

  abbrev pub repeat : ℕ → Worker → List Worker
  repeat zero w = []
  repeat (suc n) w = w ∷ repeat n w

  unfoldable pub new_phase : ℕ → Phase
  new_phase concurrency = record {
    started = 0;
    latencies = [];
    workers = repeat concurrency ready;
    failure = none;
  }

  abbrev pub worker_at : ℕ → List Worker → Worker
  worker_at i [] = finished
  worker_at zero (w ∷ ws) = w
  worker_at (suc i) (w ∷ ws) = worker_at i ws

  abbrev pub put_at : ℕ → Worker → List Worker → List Worker
  put_at i v [] = []
  put_at zero v (w ∷ ws) = v ∷ ws
  put_at (suc i) v (w ∷ ws) = w ∷ put_at i v ws

  abbrev pub set_worker : ℕ → Worker → Phase → Phase
  set_worker i v p = record p { workers = put_at i v p.workers }

  abbrev or_first : Exn → Option Exn → Option Exn
  or_first e none = some e
  or_first e (some f) = some f

  unfoldable pub fail : ℕ → Exn → Phase → Phase
  fail i e p = record (set_worker i (raised e) p) { failure = or_first e p.failure }

  -- What follows the test of the window: the worker ends, or starts an operation.
  unfoldable pub admit : Result Bool → Tick → Phase → Phase
  unfolding fail
  admit (ok true) t p = set_worker t.worker finished p
  admit (ok false) t p = record (set_worker t.worker (running t.called) p) {
    started = p.started + 1;
  }
  admit (err e) t p = fail t.worker e p

  unfoldable pub check : Window fl → fl.Float → Tick → Phase → Phase
  unfolding admit
  check w started_at t p = admit (is_done fl w p.started (fl.sub t.checked started_at)) t p

  -- The operation returns, its latency is noted and the window is checked again; or it raises.
  unfoldable pub complete : Window fl → fl.Float → fl.Float → Result Unit → Tick → Phase → Phase
  unfolding check fail
  complete w started_at since (ok _) t p =
      check w started_at t (record p { latencies = p.latencies ++ fl.sub t.completed since ∷ [] })
  complete w started_at since (err e) t p = fail t.worker e p

  unfoldable pub advance : Window fl → fl.Float → Worker → Tick → Phase → Phase
  unfolding check complete
  advance w started_at ready t p = check w started_at t p
  advance w started_at (running since) t p = complete w started_at since t.outcome t p
  advance w started_at finished t p = p
  advance w started_at (raised e) t p = p

  unfoldable pub tick : Window fl → fl.Float → Tick → Phase → Phase
  unfolding advance
  tick w started_at t p = advance w started_at (worker_at t.worker p.workers) t p

  unfoldable pub ticks : Window fl → fl.Float → List Tick → Phase → Phase
  unfolding tick
  ticks w started_at [] p = p
  ticks w started_at (t ∷ ts) p = ticks w started_at ts (tick w started_at t p)

  unfoldable pub all_finished : List Worker → Bool
  all_finished [] = true
  all_finished (finished ∷ ws) = all_finished ws
  all_finished (w ∷ ws) = false

  -- What `gather` gives: the first exception, or the return when all workers have ended; `none`
  -- while some are at work.
  unfoldable pub result : Phase → Option (Result (ℕ × List fl.Float))
  unfolding all_finished
  result p = elim p.failure [
    | some e ↦ some (err e)
    | none ↦ if all_finished p.workers then some (ok (p.started, p.latencies)) else none
  ]

  -- _run_phase
  unfoldable pub run_phase :
      Window fl → ℕ → fl.Float → List Tick → Option (Result (ℕ × List fl.Float))
  unfolding new_phase ticks result
  run_phase w concurrency started_at schedule =
      result (ticks w started_at schedule (new_phase concurrency))
