-- ===== src/Metrics.antt =====
-- metrics.py: the registry of counters that every pattern reports to. The timestamps
-- (`last_updated`) are left out: nothing reads them but the snapshot. The lock makes each method one
-- step, so a method is a function on the registry.
use message_broker_patterns.Base.{ℕ, ◌+◌, String, Option, none, some, List, [], map}
use message_broker_patterns.Base.Dict.{Dict, lookup, insert}

pub record PatternMetrics : Type 0 where
  pub label : String
  pub counters : Dict ℕ

abbrev pub Registry : Type 0
Registry = Dict PatternMetrics

abbrev fresh : String → PatternMetrics
fresh label = record { label = label; counters = [] }

-- The entry of a pattern, or a fresh one under the given label.
entry_or : Option PatternMetrics → String → PatternMetrics
entry_or none label = fresh label
entry_or (some metrics) label = metrics

-- MetricsRegistry.register
unfoldable pub register : String → String → Registry → PatternMetrics × Registry
unfolding entry_or
register pattern_id label r = (
  entry_or (lookup pattern_id r) label,
  elim (lookup pattern_id r) [ none ↦ insert pattern_id (fresh label) r | some _ ↦ r ],
)

count_or : Option ℕ → ℕ
count_or none = 0
count_or (some n) = n

bump : PatternMetrics → String → ℕ → PatternMetrics
unfolding count_or
bump m key amount = record m {
  counters = insert key (count_or (lookup key m.counters) + amount) m.counters;
}

-- MetricsRegistry.increment
unfoldable pub increment : String → String → ℕ → Registry → Registry
unfolding entry_or bump
increment pattern_id key amount r =
    insert pattern_id (bump (entry_or (lookup pattern_id r) pattern_id) key amount) r

-- What a reader of the registry sees of one counter.
unfoldable pub counter : Registry → String → String → ℕ
unfolding count_or
counter r pattern_id key = elim (lookup pattern_id r) [
  | none ↦ 0
  | some m ↦ count_or (lookup key m.counters)
]

-- MetricsRegistry.snapshot
pub record Row : Type 0 where
  pub id : String
  pub label : String
  pub counters : Dict ℕ

unfoldable pub snapshot : Registry → List Row
snapshot r = map (λ e. record { id = e.0; label = e.1.label; counters = e.1.counters }) r
