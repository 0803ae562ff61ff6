-- ===== src/Bench.antt =====
-- bench.py: percentiles, the summary of the latencies and the window of a phase. Floats and what the
-- harness computes with them are a parameter; they stand for floats that are not NaN.
pub mod Percentile
pub mod Phase
pub mod Run
pub mod Report
mod Tests
use message_broker_patterns.Base.{
  ℕ, String, ◌≡◌, ◌⊎◌, Bool, true, false, not, ◌&&◌, ◌||◌, Option, none, some, List, [], ◌∷◌, map,
  length, get_elem?, leb, if◌then◌else◌,
}
use message_broker_patterns.Base.Int.{ℤ, pos, pos_part, ◌-ℤ◌, ◌≤ℤ◌, ltb_ℤ, leb_ℤ}
use message_broker_patterns.Base.Exec.{Result, ok, err, value_error, other}
use message_broker_patterns.Base.Results.{◌>>=◌, or_err}

pub record Arithmetic : Type 1 where
  pub Float : Type 0
  -- a <= b
  pub le : Float → Float → Bool
  pub add : Float → Float → Float
  pub sub : Float → Float → Float
  pub mul : Float → Float → Float
  pub div : Float → Float → Float
  -- a number of the source, or an int that takes part in float arithmetic
  pub lit : ℕ → Float
  pub ceil : Float → ℤ
  pub is_finite : Float → Bool
  -- round(x, digits)
  pub round : Float → ℕ → Float

module _ (fl : Arithmetic) where
  -- math.ceil(quantile / 100 * n)
  abbrev pub rank : fl.Float → ℕ → ℤ
  rank q n = fl.ceil (fl.mul (fl.div q (fl.lit 100)) (fl.lit n))

  -- 0 <= quantile <= 100
  abbrev pub is_quantile : fl.Float → Bool
  is_quantile q = fl.le (fl.lit 0) q && fl.le q (fl.lit 100)

-- `<=` is a total order that agrees with that of numbers, and the rank of a quantile is at most the number of the samples, since
-- rounding does not carry a product over a number that it does not exceed.
pub record Laws (fl : Arithmetic) : Type 0 where
  pub total : (a b : fl.Float) → (fl.le a b ≡ true) ⊎ (fl.le b a ≡ true)
  pub trans : (a b c : fl.Float) → fl.le a b ≡ true → fl.le b c ≡ true → fl.le a c ≡ true
  pub lit_le : (a b : ℕ) → leb a b ≡ true → fl.le (fl.lit a) (fl.lit b) ≡ true
  pub rank_le : (q : fl.Float) (n : ℕ) → is_quantile fl q ≡ true → rank fl q n ≤ℤ pos n

module _ (fl : Arithmetic) where
  unfoldable pub insert : fl.Float → List fl.Float → List fl.Float
  insert x [] = x ∷ []
  insert x (y ∷ ys) = if fl.le x y then x ∷ y ∷ ys else y ∷ insert x ys

  -- sorted
  unfoldable pub sorted : List fl.Float → List fl.Float
  unfolding insert
  sorted [] = []
  sorted (x ∷ xs) = insert x (sorted xs)

  -- The sample at the rank of the quantile.
  unfoldable pub at_rank : List fl.Float → fl.Float → Result fl.Float
  unfolding sorted
  at_rank values q =
      or_err (other "IndexError")
        (get_elem? (sorted values) (pos_part (rank fl q (length (sorted values)) -ℤ pos 1)))

  unfoldable pub percentile : List fl.Float → fl.Float → Result fl.Float
  unfolding at_rank
  percentile [] q = err value_error
  percentile (v ∷ vs) q = if is_quantile fl q then at_rank (v ∷ vs) q else err value_error

  pub record LatencySummary : Type 0 where
    pub size : ℕ
    pub min_ms : fl.Float
    pub p50_ms : fl.Float
    pub p95_ms : fl.Float
    pub p99_ms : fl.Float
    pub max_ms : fl.Float
    pub mean_ms : fl.Float

  -- min and max, from the first sample on
  unfoldable pub minimum : fl.Float → List fl.Float → fl.Float
  minimum x [] = x
  minimum x (y ∷ ys) = minimum (if fl.le x y then x else y) ys

  unfoldable pub maximum : fl.Float → List fl.Float → fl.Float
  maximum x [] = x
  maximum x (y ∷ ys) = maximum (if fl.le y x then x else y) ys

  -- sum, from the left
  unfoldable pub sum : fl.Float → List fl.Float → fl.Float
  sum acc [] = acc
  sum acc (y ∷ ys) = sum (fl.add acc y) ys

  abbrev pub in_ms : fl.Float → fl.Float
  in_ms x = fl.mul x (fl.lit 1000)

  -- LatencySummary.from_seconds, of the samples in milliseconds
  unfoldable pub summary : List fl.Float → Result LatencySummary
  unfolding percentile minimum maximum sum
  summary [] = err value_error
  summary (v ∷ vs) = do
    p50 ← percentile (v ∷ vs) (fl.lit 50)
    p95 ← percentile (v ∷ vs) (fl.lit 95)
    p99 ← percentile (v ∷ vs) (fl.lit 99)
    ok (record {
      size = length (v ∷ vs);
      min_ms = minimum v vs;
      p50_ms = p50;
      p95_ms = p95;
      p99_ms = p99;
      max_ms = maximum v vs;
      mean_ms = fl.div (sum (fl.lit 0) (v ∷ vs)) (fl.lit (length (v ∷ vs)));
    })

  unfoldable pub from_seconds : List fl.Float → Result LatencySummary
  unfolding summary
  from_seconds latencies = summary (map in_ms latencies)

  pub record Window : Type 0 where
    pub ops : Option ℤ
    pub seconds : Option fl.Float

  -- Window.__post_init__
  unfoldable pub new_window : Option ℤ → Option fl.Float → Result Window
  new_window (some n) (some s) = err value_error
  new_window none none = err value_error
  new_window (some n) none =
      if ltb_ℤ n (pos 1) then err value_error else ok (record { ops = some n; seconds = none })
  new_window none (some s) =
      if not (fl.is_finite s) || fl.le s (fl.lit 0)
      then err value_error
      else ok (record { ops = none; seconds = some s })

  -- is_done, by the two fields
  unfoldable pub done : Option ℤ → Option fl.Float → ℕ → fl.Float → Result Bool
  done (some n) s started elapsed = ok (leb_ℤ n (pos started))
  done none (some s) started elapsed = ok (fl.le s elapsed)
  done none none started elapsed = err (other "AssertionError")

  unfoldable pub is_done : Window → ℕ → fl.Float → Result Bool
  unfolding done
  is_done w started elapsed = done w.ops w.seconds started elapsed
