-- ===== src/Bench/Phase/Totals.antt =====
-- Counting the workers of a phase, and what a phase with a window of `n` operations keeps.
use message_broker_patterns.Base.{
  ℕ, zero, suc, ◌+◌, ◌-◌, ◌≤◌, ◌<◌, ◌≡◌, refl, ap, none, some, List, [], ◌∷◌, length, leb, arith,
}
use message_broker_patterns.Base.Int.{pos, leb_ℤ}
use message_broker_patterns.Bench.{Arithmetic, Window}
use message_broker_patterns.Bench.Phase.{
  Worker, ready, running, finished, raised, Phase, repeat, worker_at, put_at,
}

pub leb_ℤ-pos : (a b : ℕ) → leb_ℤ (pos a) (pos b) ≡ leb a b
leb_ℤ-pos a b = ground arith

module _ (fl : Arithmetic) where
  abbrev pub ops_window : ℕ → Window fl
  ops_window n = record { ops = some (pos n); seconds = none }

module _ {fl : Arithmetic} where
  abbrev pub is_running : Worker fl → ℕ
  is_running (running since) = 1
  is_running _ = 0

  abbrev pub is_at_work : Worker fl → ℕ
  is_at_work ready = 1
  is_at_work (running since) = 1
  is_at_work _ = 0

  abbrev pub total : (Worker fl → ℕ) → List (Worker fl) → ℕ
  total f [] = 0
  total f (w ∷ ws) = f w + total f ws

  -- Another state of one worker changes the total by the difference.
  pub total-put_at :
      (f : Worker fl → ℕ) (i : ℕ) (v : Worker fl) (ws : List (Worker fl))
      → i < length ws
      → total f (put_at fl i v ws) + f (worker_at fl i ws) ≡ total f ws + f v
  total-put_at f i v [] lt = ground arith
  total-put_at f zero v (w ∷ ws) lt = omega arith
  total-put_at f (suc i) v (w ∷ ws) lt = omega (arith, total-put_at f i v ws)

  pub length-put_at :
      (i : ℕ) (v : Worker fl) (ws : List (Worker fl)) → length (put_at fl i v ws) ≡ length ws
  length-put_at i v [] = refl
  length-put_at zero v (w ∷ ws) = refl
  length-put_at (suc i) v (w ∷ ws) = ap suc (length-put_at i v ws)

  pub at_work-lt :
      (i : ℕ) (ws : List (Worker fl)) → is_at_work (worker_at fl i ws) ≡ 1 → i < length ws
  at_work-lt i [] h = ground arith
  at_work-lt zero (w ∷ ws) h = omega arith
  at_work-lt (suc i) (w ∷ ws) h = omega (arith, at_work-lt i ws h)

  abbrev pub is_raised : Worker fl → ℕ
  is_raised (raised e) = 1
  is_raised _ = 0

  abbrev pub is_finished : Worker fl → ℕ
  is_finished finished = 1
  is_finished _ = 0

  -- What a phase of `n` operations with `c` workers keeps.
  pub record Counts (n c : ℕ) (p : Phase fl) : Type 0 where
    pub same_workers : length p.workers ≡ c
    pub no_overshoot : p.started ≤ n
    -- each admitted operation has returned, is in flight, or has raised
    pub accounted :
        p.started ≡ length p.latencies + total is_running p.workers + total is_raised p.workers
    -- a worker ends only when the window has closed
    pub closed : 0 < total is_finished p.workers → n ≤ p.started

  -- Operations to start and workers to end.
  abbrev pub left : ℕ → Phase fl → ℕ
  left n p = (n - p.started) + total is_at_work p.workers

  pub length-repeat : (c : ℕ) (w : Worker fl) → length (repeat fl c w) ≡ c
  length-repeat zero w = refl
  length-repeat (suc c) w = ap suc (length-repeat c w)

  pub total-repeat :
      (f : Worker fl → ℕ) (c : ℕ) (w : Worker fl) → f w ≡ 0 → total f (repeat fl c w) ≡ 0
  total-repeat f zero w h = refl
  total-repeat f (suc c) w h = omega (arith, total-repeat f c w h, h)

  pub in_flight : (ws : List (Worker fl)) → total is_running ws ≤ length ws
  in_flight [] = omega arith
  in_flight (w ∷ ws) = ground (arith, in_flight ws)
