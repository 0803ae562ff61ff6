-- ===== src/Bench/Report.antt =====
-- bench.py: the rounded summary, the name of a result, and the files of the series. The text of a
-- knob with its characters cleaned (`re.sub`) and that of CSV rows (`csv.writer`) are parameters.
use message_broker_patterns.Base.{ℕ, String, List, [], ◌∷◌, map, str_append}
use message_broker_patterns.Base.Int.{ℤ}
use message_broker_patterns.Base.Dict.{Dict, insert}
use message_broker_patterns.Bench.{Arithmetic, LatencySummary}
use message_broker_patterns.Bench.Run.{BenchResult, latency_rows, depth_rows}

-- "_".join(parts)
unfoldable pub join : List String → String
join [] = ""
join (x ∷ []) = x
join (x ∷ y ∷ xs) = str_append x (str_append "_" (join (y ∷ xs)))

module _ (fl : Arithmetic) where
  -- LatencySummary.to_dict
  unfoldable pub to_dict : LatencySummary fl → Dict fl.Float
  to_dict l =
      ("count", fl.lit l.size)
      ∷ ("min", fl.round l.min_ms 3)
      ∷ ("p50", fl.round l.p50_ms 3)
      ∷ ("p95", fl.round l.p95_ms 3)
      ∷ ("p99", fl.round l.p99_ms 3)
      ∷ ("max", fl.round l.max_ms 3)
      ∷ ("mean", fl.round l.mean_ms 3)
      ∷ []

  module _ (clean : String → String) where
    abbrev part : String × String → String
    part (k, v) = str_append (clean k) (str_append "-" (clean v))

    -- BenchResult.slug
    unfoldable pub slug : BenchResult fl → String
    unfolding join
    slug r = join (clean r.name ∷ map part r.knobs)

    module _ (latency_text : List (ℕ × fl.Float) → String)
        (depth_text : List (fl.Float × ℤ) → String) where
      unfoldable pub latency_csv : BenchResult fl → String
      latency_csv r = latency_text (latency_rows fl 1 r.latencies_s)

      unfoldable pub queue_depth_csv : BenchResult fl → String
      queue_depth_csv r = depth_text (depth_rows fl r.queue_depth)

      abbrev pub path_of : String → BenchResult fl → String
      path_of suffix r = str_append (slug r) (str_append suffix ".csv")

      -- write_csv_files, in a directory that is there: its files, and the paths written, in order.
      unfoldable pub write_csv_files :
          List (BenchResult fl) → Dict String → List String × Dict String
      unfolding latency_csv queue_depth_csv slug
      write_csv_files [] files = ([], files)
      write_csv_files (r ∷ rs) files =
          let (paths, files') = write_csv_files rs (
            insert (path_of "_depth" r) (queue_depth_csv r)
              (insert (path_of "_latency" r) (latency_csv r) files)) in
          (path_of "_latency" r ∷ path_of "_depth" r ∷ paths, files')
