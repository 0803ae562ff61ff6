-- ===== src/Bench/Run/Counted.antt =====
-- A bench over windows of operations returns, and reports the measured phase only.
use message_broker_patterns.Base.{
  ℕ, suc, ◌+◌, ◌<◌, ◌≡◌, inl, inr, refl, ◌∙◌, ap, true, none, some, List, [], ◌∷◌, ◌++◌, map,
  length, length-append, arith,
}
use message_broker_patterns.Base.{false}
use message_broker_patterns.Base.Int.{ltb_ℤ, ℤ, pos}
use message_broker_patterns.Base.Exec.{ok}
use message_broker_patterns.Bench.{
  Arithmetic, Laws, LatencySummary, is_quantile, summary, from_seconds, minimum, maximum, sum,
}
use message_broker_patterns.Bench.Percentile.{percentile-Ranked}
use message_broker_patterns.Bench.Phase.{Tick, new_phase, ticks, run_phase}
use message_broker_patterns.Bench.Phase.Totals.{is_at_work, total, ops_window}
use message_broker_patterns.Bench.Phase.Ends.{Live, run_phase_ends}
use message_broker_patterns.Bench.Run.{
  DepthSample, BenchResult, Bench, Reading, Course, read_depth, sample_depth, warm_up, after_phase,
  closing, measured, run_bench, throughput,
}

not_refused : (workers : ℕ) → ltb_ℤ (pos (suc workers)) (pos 1) ≡ false
not_refused workers = ground arith

module _ {fl : Arithmetic} (laws : Laws fl) where
  quantile_lit : (q : ℕ) → q < 101 → is_quantile fl (fl.lit q) ≡ true
  quantile_lit q h = rw (laws.lit_le 0 q (ground arith), laws.lit_le q 100 (ground arith)) refl

  summary_of :
      (v : fl.Float) (vs : List fl.Float) → (s : LatencySummary fl) × (summary fl (v ∷ vs) ≡ ok s)
  unfolding summary
  summary_of v vs =
      let p50 = percentile-Ranked fl laws v vs (fl.lit 50) (quantile_lit 50 (omega arith)) in
      let p95 = percentile-Ranked fl laws v vs (fl.lit 95) (quantile_lit 95 (omega arith)) in
      let p99 = percentile-Ranked fl laws v vs (fl.lit 99) (quantile_lit 99 (omega arith)) in
      (
        record {
          size = length (v ∷ vs);
          min_ms = minimum fl v vs;
          p50_ms = p50.0;
          p95_ms = p95.0;
          p99_ms = p99.0;
          max_ms = maximum fl v vs;
          mean_ms = fl.div (sum fl (fl.lit 0) (v ∷ vs)) (fl.lit (length (v ∷ vs)));
        },
        rw (p50.1, p95.1, p99.1) refl,
      )

  summary_of_seconds :
      (n : ℕ) (xs : List fl.Float)
      → length xs ≡ suc n
      → (s : LatencySummary fl) × (from_seconds fl xs ≡ ok s)
  unfolding from_seconds
  summary_of_seconds n [] h = ground arith
  summary_of_seconds n (x ∷ xs) h =
      summary_of (fl.mul x (fl.lit 1000)) (map (λ y. fl.mul y (fl.lit 1000)) xs)

  -- The readings of a sampler that does not raise.
  abbrev pub answered : List (fl.Float × ℤ) → List (Reading fl)
  answered rs = map (λ (r : fl.Float × ℤ). (r.0, ok r.1)) rs

  samples_of :
      (started_at : fl.Float) (rs : List (fl.Float × ℤ))
      → (ss : List (DepthSample fl)) × (sample_depth fl started_at (answered rs) ≡ (ss, none))
        × (length ss ≡ length rs)
  unfolding sample_depth
  samples_of started_at [] = ([], refl, refl)
  samples_of started_at ((at, d) ∷ rs) =
      let (ss, e, k) = samples_of started_at rs in
      (record { elapsed_s = fl.sub at started_at; depth = d } ∷ ss, rw e refl, ap suc k)

  -- The steps of a phase are all of workers at work whose operations return, and no worker is left
  -- at work.
  abbrev pub Runs : ℕ → ℕ → fl.Float → List (Tick fl) → Type 0
  Runs n c started_at ts =
      Live fl n c started_at ts (new_phase fl c)
      × (total is_at_work (ticks fl (ops_window fl n) started_at ts (new_phase fl c)).workers ≡ 0)

  ran :
      (n c : ℕ) (started_at : fl.Float) (ts : List (Tick fl))
      → 0 < c
      → Runs n c started_at ts
      → (ls : List fl.Float) × (run_phase fl (ops_window fl n) c started_at ts ≡ some (ok (n, ls)))
        × (length ls ≡ n)
  ran n c started_at ts h (live, idle) =
      let p = ticks fl (ops_window fl n) started_at ts (new_phase fl c) in
      elim (run_phase_ends fl n c started_at ts h live).1 [
        | inl k ↦ absurd (busy (total is_at_work p.workers) k idle)
        | inr r ↦ (p.latencies, r.0, r.1)
      ]
    where
      busy : (m : ℕ) → 0 < m → m ≡ 0 → ⊥
      busy m k e = omega arith

  -- A bench with a window of `n + 1` operations, a warmup of `m` operations, at least one worker, and
  -- operations and a sampler that return, gives a result when both phases have run: it has exactly
  -- the `n + 1` measured operations with their latencies, counts the warmup apart, and has one depth
  -- sample for each reading and one for the closing edge.
  pub run_bench_counted :
      (b : Bench fl) (c : Course fl) (n m workers : ℕ) (rs : List (fl.Float × ℤ))
      (last : fl.Float × ℤ)
      → b.measure ≡ ops_window fl (suc n)
      → b.warmup ≡ some (ops_window fl m)
      → b.concurrency ≡ pos (suc workers)
      → b.is_sampled ≡ true
      → c.readings ≡ answered rs
      → c.last_reading ≡ (last.0, ok last.1)
      → Runs m (suc workers) c.warmup_started c.warmup_ticks
      → Runs (suc n) (suc workers) c.started_at c.ticks
      → (r : BenchResult fl) × (run_bench fl b c ≡ some (ok r))
        × (r.ops ≡ suc n)
        × (r.warmup_ops ≡ m)
        × (length r.latencies_s ≡ suc n)
        × (length r.queue_depth ≡ length rs + 1)
  unfolding run_bench measured warm_up after_phase closing read_depth
  run_bench_counted b c n m workers rs last e1 e2 e3 e4 e5 e6 warm main =
      let (_, w, _) = ran m (suc workers) c.warmup_started c.warmup_ticks (omega arith) warm in
      let (ls, p, k) = ran (suc n) (suc workers) c.started_at c.ticks (omega arith) main in
      let (ss, s, j) = samples_of c.started_at rs in
      let (l, q) = summary_of_seconds n ls k in
      let edge : DepthSample fl = record {
        elapsed_s = fl.sub last.0 c.started_at;
        depth = last.1;
      } in
      (
        record {
          name = b.name;
          knobs = b.knobs;
          warmup_ops = m;
          ops = suc n;
          duration_s = fl.sub c.ended c.started_at;
          throughput_ops_s = throughput fl (suc n) (fl.sub c.ended c.started_at);
          latency = l;
          latencies_s = ls;
          queue_depth = ss ++ edge ∷ [];
        },
        rw (e1, e2, e3, e4, e5, e6, not_refused workers, w, p, s, q) refl,
        refl,
        refl,
        k,
        length-append ss (edge ∷ []) ∙ ap (λ i. i + 1) j,
      )
