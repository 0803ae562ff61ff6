-- ===== src/Bench/Tests.antt =====
-- The theorems on the benchmark harness at concrete inputs, with numbers in hundredths for floats.
use native.Mathlib.Nat.{mul-le-mul_left}
use message_broker_patterns.Base.{
  ℕ, suc, ◌+◌, ◌-◌, ◌*◌, ◌/◌, ◌≤◌, ◌<◌, ◌≡◌, ◌⊎◌, refl, true, some, List, [], ◌∷◌, length, leb,
  leb→le, arith, not,
}
use message_broker_patterns.Base.Int.{pos, pos_part, ◌-ℤ◌}
use message_broker_patterns.Base.Exec.{ok, err, value_error}
use message_broker_patterns.Bench.{
  Arithmetic, Laws, rank, is_quantile, percentile, sorted, insert, at_rank, new_window, is_done,
  done,
}
use message_broker_patterns.Bench.Percentile.{count, IsIn, percentile-Ranked}
use message_broker_patterns.Bench.Phase.{
  Tick, new_phase, ticks, run_phase, tick, advance, check, complete, admit,
}
use message_broker_patterns.Bench.Phase.Totals.{is_at_work, is_running, total, ops_window, Counts}
use message_broker_patterns.Bench.Phase.Counting.{ticks_keep_count}
use message_broker_patterns.Bench.Phase.Ends.{Live, run_phase_ends}
use message_broker_patterns.Bench.Run.{Bench, Course, BenchResult, run_bench}
use message_broker_patterns.Bench.Report.{slug, join}
use message_broker_patterns.Bench.Run.Counted.{answered, run_bench_counted}

abbrev hundredths : Arithmetic
hundredths = record {
  Float = ℕ;
  le = leb;
  add = λ a b. a + b;
  sub = λ a b. a - b;
  mul = λ a b. b * a / 100;
  div = λ a b. a * 100 / b;
  lit = λ n. 100 * n;
  ceil = λ a. pos ((a + 99) / 100);
  is_finite = λ a. true;
  round = λ a d. a;
}

rank_within : (q n : ℕ) → leb q 10000 ≡ true → (100 * n * (q * 100 / 10000) / 100 + 99) / 100 ≤ n
rank_within q n h = omega (
  arith,
  mul-le-mul_left {m = q * 100 / 10000} {n = 100} (100 * n) (omega (arith, leb→le q 10000 h)),
)

upper : (q : ℕ) → is_quantile hundredths q ≡ true → leb q 10000 ≡ true
upper q h = ground arith

hundredths_laws : Laws hundredths
hundredths_laws = record {
  total = λ a b. ground arith;
  trans = λ a b c h k. ground arith;
  lit_le = λ a b h. ground arith;
  rank_le = λ q n h. omega (arith, rank_within q n (upper q h));
}

-- Three samples, of 3, 1 and 2; the median is 2.
median : percentile hundredths (300 ∷ 100 ∷ 200 ∷ []) 5000 ≡ ok 200
unfolding percentile at_rank sorted insert ◌-ℤ◌
median = refl

percentile-Ranked_example :
    (x : ℕ) × (percentile hundredths (300 ∷ 100 ∷ 200 ∷ []) 9500 ≡ ok x)
    × IsIn x (300 ∷ 100 ∷ 200 ∷ [])
    × (suc (pos_part (rank hundredths 9500 3 -ℤ pos 1))
        ≤ count (λ y. leb y x) (300 ∷ 100 ∷ 200 ∷ []))
    × (count (λ y. not (leb x y)) (300 ∷ 100 ∷ 200 ∷ [])
        ≤ pos_part (rank hundredths 9500 3 -ℤ pos 1))
percentile-Ranked_example =
    percentile-Ranked hundredths hundredths_laws 300 (100 ∷ 200 ∷ []) 9500 refl

abbrev step : ℕ → ℕ → Tick hundredths
step worker at = record {
  worker = worker;
  outcome = ok tt;
  completed = at;
  checked = at;
  called = at;
}

-- Two workers start, and each ends its only operation.
abbrev two_ops : List (Tick hundredths)
two_ops = step 0 10 ∷ step 1 11 ∷ step 1 15 ∷ step 0 20 ∷ []

two_ops-Live : Live hundredths 2 2 0 two_ops (new_phase hundredths 2)
unfolding new_phase tick advance complete check admit is_done done
two_ops-Live = (refl, refl, (refl, refl, (refl, refl, (refl, refl, tt))))

two_ops-idle :
    total is_at_work
      (ticks hundredths (ops_window hundredths 2) 0 two_ops (new_phase hundredths 2)).workers
    ≡ 0
unfolding ticks new_phase tick advance complete check admit is_done done
two_ops-idle = refl

run_phase_ends_example :
    let p = ticks hundredths (ops_window hundredths 2) 0 two_ops (new_phase hundredths 2) in
    (length two_ops ≤ 4)
    × ((0 < total is_at_work p.workers)
        ⊎ ((run_phase hundredths (ops_window hundredths 2) 2 0 two_ops ≡ some (ok (2, p.latencies)))
            × (length p.latencies ≡ 2)))
run_phase_ends_example = run_phase_ends hundredths 2 2 0 two_ops (omega arith) two_ops-Live

-- The second operation raises.
abbrev one_raises : List (Tick hundredths)
one_raises = step 0 10 ∷ step 1 11 ∷ record (step 1 15) { outcome = err value_error } ∷ []

ticks_keep_count_example :
    let p = ticks hundredths (ops_window hundredths 2) 0 one_raises (new_phase hundredths 2) in
    Counts 2 2 p × (total is_running p.workers ≤ 2)
ticks_keep_count_example = ticks_keep_count hundredths 2 2 0 one_raises

abbrev bench : Bench hundredths
bench = record {
  name = "outbox";
  measure = ops_window hundredths 2;
  warmup = some (ops_window hundredths 2);
  concurrency = pos 2;
  knobs = ("poll_interval", "0.05") ∷ [];
  is_sampled = true;
}

abbrev course : Course hundredths
course = record {
  warmup_started = 0;
  warmup_ticks = two_ops;
  started_at = 0;
  ticks = two_ops;
  readings = answered hundredths_laws ((5, pos 7) ∷ []);
  ended = 21;
  last_reading = (22, ok (pos 0));
}

run_bench_counted_example :
    (r : BenchResult hundredths) × (run_bench hundredths bench course ≡ some (ok r))
    × (r.ops ≡ 2)
    × (r.warmup_ops ≡ 2)
    × (length r.latencies_s ≡ 2)
    × (length r.queue_depth ≡ 2)
run_bench_counted_example =
    run_bench_counted hundredths_laws bench course 1 2 1 ((5, pos 7) ∷ []) (22, pos 0) refl refl
      refl refl refl refl (two_ops-Live, two_ops-idle) (two_ops-Live, two_ops-idle)

-- Windows that bound nothing, or twice, are refused.
both_refused : new_window hundredths (some (pos 3)) (some 100) ≡ err value_error
unfolding new_window
both_refused = refl

-- The name of a result with two knobs, whose characters are clean.
named :
    slug hundredths
      (λ t. t)
      (record {
        name = "outbox";
        knobs = ("poll-interval", "0.05") ∷ ("rows", "9") ∷ [];
        warmup_ops = 0;
        ops = 1;
        duration_s = 1;
        throughput_ops_s = 1;
        latency = record {
          size = 1;
          min_ms = 1;
          p50_ms = 1;
          p95_ms = 1;
          p99_ms = 1;
          max_ms = 1;
          mean_ms = 1;
        };
        latencies_s = 1 ∷ [];
        queue_depth = [];
      })
    ≡ "outbox_poll-interval-0.05_rows-9"
unfolding slug join
named = refl
