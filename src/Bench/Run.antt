-- ===== src/Bench/Run.antt =====
-- bench.py: `run_bench`, the sampler of the queue depth, and the series that are written out.
pub mod Counted
use message_broker_patterns.Base.{
  ℕ, suc, ◌+◌, String, Bool, true, false, not, Option, none, some, List, [], ◌∷◌, ◌++◌, map,
  if◌then◌else◌,
}
use message_broker_patterns.Base.Int.{ℤ, pos, pos_part, ltb_ℤ}
use message_broker_patterns.Base.Dict.{Dict}
use message_broker_patterns.Base.Exec.{Exn, Result, ok, err, value_error}
use message_broker_patterns.Bench.{Arithmetic, Window, LatencySummary, from_seconds}
use message_broker_patterns.Bench.Phase.{Tick, run_phase}

-- What a call has come to: `none` while it is at work.
abbrev pub Ongoing : Type 0 → Type 0
Ongoing A = Option (Result A)

infixl 5 ◌>>=◌
abbrev pub ◌>>=◌ : {A B : Type 0} → Ongoing A → (A → Ongoing B) → Ongoing B
none >>= f = none
some (ok a) >>= f = f a
some (err e) >>= f = some (err e)

module _ (fl : Arithmetic) where
  pub record DepthSample : Type 0 where
    pub elapsed_s : fl.Float
    pub depth : ℤ

  pub record BenchResult : Type 0 where
    pub name : String
    pub knobs : Dict String
    pub warmup_ops : ℕ
    pub ops : ℕ
    pub duration_s : fl.Float
    pub throughput_ops_s : fl.Float
    pub latency : LatencySummary fl
    pub latencies_s : List fl.Float
    pub queue_depth : List DepthSample

  -- The arguments of `run_bench`; the operation and the sampler act in Course.
  pub record Bench : Type 0 where
    pub name : String
    pub measure : Window fl
    pub warmup : Option (Window fl)
    pub concurrency : ℤ
    pub knobs : Dict String
    pub is_sampled : Bool

  -- A reading of the clock and of the queue's depth, which may raise.
  abbrev pub Reading : Type 0
  Reading = fl.Float × Result ℤ

  -- What the clock, the scheduler, the operation and the sampler give.
  pub record Course : Type 0 where
    pub warmup_started : fl.Float
    pub warmup_ticks : List (Tick fl)
    pub started_at : fl.Float
    pub ticks : List (Tick fl)
    -- of the sampler's task, until it is cancelled
    pub readings : List Reading
    pub ended : fl.Float
    pub last_reading : Reading

  unfoldable pub read_depth : fl.Float → Reading → Result DepthSample
  read_depth started_at (at, ok d) = ok (record { elapsed_s = fl.sub at started_at; depth = d })
  read_depth started_at (at, err e) = err e

  -- _sample_depth: the samples taken, and the exception that ended the task, if one did.
  unfoldable pub sample_depth : fl.Float → List Reading → List DepthSample × Option Exn
  sample_depth started_at [] = ([], none)
  sample_depth started_at ((at, err e) ∷ readings) = ([], some e)
  sample_depth started_at ((at, ok d) ∷ readings) =
      let (samples, failure) = sample_depth started_at readings in
      (record { elapsed_s = fl.sub at started_at; depth = d } ∷ samples, failure)

  -- The warmup phase, whose latencies are dropped.
  unfoldable pub warm_up : Option (Window fl) → ℕ → Course → Ongoing ℕ
  warm_up none concurrency c = some (ok 0)
  warm_up (some w) concurrency c = do
    (ops, _) ← run_phase fl w concurrency c.warmup_started c.warmup_ticks
    some (ok ops)

  -- `finally`: the sampler's task is awaited, so that its own exception comes first.
  unfoldable pub after_phase :
      {A : Type 0}
      → Bool
      → List DepthSample × Option Exn
      → Ongoing A
      → Ongoing (A × List DepthSample)
  after_phase sampled t none = none
  after_phase false t (some (ok a)) = some (ok (a, []))
  after_phase false t (some (err e)) = some (err e)
  after_phase true (samples, some x) (some r) = some (err x)
  after_phase true (samples, none) (some (ok a)) = some (ok (a, samples))
  after_phase true (samples, none) (some (err e)) = some (err e)

  -- One reading more at the closing edge.
  unfoldable pub closing : Bool → Result DepthSample → List DepthSample → Ongoing (List DepthSample)
  closing false r samples = some (ok samples)
  closing true (ok sample) samples = some (ok (samples ++ sample ∷ []))
  closing true (err e) samples = some (err e)

  abbrev pub throughput : ℕ → fl.Float → fl.Float
  throughput ops duration =
      if fl.le duration (fl.lit 0) then fl.lit 0 else fl.div (fl.lit ops) duration

  unfoldable pub measured : Bench → Course → ℕ → Ongoing BenchResult
  unfolding sample_depth after_phase closing read_depth
  measured b c warmup_ops = do
    ((ops, latencies), samples) ←
        after_phase b.is_sampled (sample_depth c.started_at c.readings)
          (run_phase fl b.measure (pos_part b.concurrency) c.started_at c.ticks)
    queue_depth ← closing b.is_sampled (read_depth c.started_at c.last_reading) samples
    latency ← some (from_seconds fl latencies)
    some (
        ok (record {
          name = b.name;
          knobs = b.knobs;
          warmup_ops = warmup_ops;
          ops = ops;
          duration_s = fl.sub c.ended c.started_at;
          throughput_ops_s = throughput ops (fl.sub c.ended c.started_at);
          latency = latency;
          latencies_s = latencies;
          queue_depth = queue_depth;
        }))

  unfoldable pub run_bench : Bench → Course → Ongoing BenchResult
  unfolding warm_up measured
  run_bench b c =
      if ltb_ℤ b.concurrency (pos 1)
      then some (err value_error)
      else (warm_up b.warmup (pos_part b.concurrency) c >>= measured b c)

  -- The rows of `latency_csv`, numbered from 1, and of `queue_depth_csv`.
  unfoldable pub latency_rows : ℕ → List fl.Float → List (ℕ × fl.Float)
  latency_rows index [] = []
  latency_rows index (x ∷ xs) =
      (index, fl.round (fl.mul x (fl.lit 1000)) 3) ∷ latency_rows (suc index) xs

  unfoldable pub depth_rows : List DepthSample → List (fl.Float × ℤ)
  depth_rows samples = map (λ s. (fl.round s.elapsed_s 4, s.depth)) samples
