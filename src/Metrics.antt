-- ===== src/Metrics.antt =====
-- src/Metrics.h, src/Metrics-inl.h and src/Metrics.cpp. A time is in nanoseconds and does not run back; a
-- thread is a number. A MetricPtr is the place of its metric in the manager's store.
pub mod Services
pub mod Counts
pub mod Reports
pub mod Names
pub mod Order
pub mod OneBucket
pub mod Reporting
pub mod OnTime
use Prim.Native.String.{String, compare}
use Prim.Native.Nat.{Ordering}
use text.Mathlib.Text.{◌==◌ as str_eq}
use bookie_cpp.Prelude.{
  ℕ, zero, suc, ◌+◌, ◌-◌, ◌*◌, ◌/◌, ◌%◌, ◌^◌, List, [], ◌∷◌, ◌++◌, map, Option, none, some, Bool,
  true, false, ◌==◌, if◌then◌else◌, length,
}
use Services.{Histograms}

-- The order of a std::map's names.
unfoldable pub before : String → String → Bool
before s t = elim (compare s t) [ Ordering.lt ↦ true | Ordering.eq ↦ false | Ordering.gt ↦ false ]

-- A new name in the map, at its place in the order.
unfoldable pub insert : String → ℕ → List (String × ℕ) → List (String × ℕ)
unfolding before
insert name p [] = (name, p) ∷ []
insert name p ((n, q) ∷ rest) =
    let behind = insert name p rest in
    if before n name then (n, q) ∷ behind else (name, p) ∷ (n, q) ∷ rest

abbrev pub bucket_size : ℕ
bucket_size = 100

abbrev pub min_value : ℕ
min_value = 0

-- A second, in microseconds.
abbrev pub max_value : ℕ
max_value = 1_000_000

module _ (hs : Histograms) where
  open hs use {Hist, Double, make, add_value, merge, clear, num_buckets, bucket_count, percentile}

  pub record Stats : Type 0 where
    pub min : Double
    pub pct50 : Double
    pub pct75 : Double
    pub pct90 : Double
    pub pct95 : Double
    pub pct99 : Double
    pub pct999 : Double
    pub pct9999 : Double
    pub max : Double
    pub count : ℕ
    pub rate : Double

  -- `histograms` has one for each thread that has added a sample.
  pub record Metric : Type 0 where
    pub name : String
    pub histograms : List (ℕ × Hist)
    pub stats : Option Stats

  abbrev pub new_histogram : Hist
  new_histogram = make bucket_size min_value max_value

  unfoldable pub new_metric : String → Metric
  new_metric name = record { name = name; histograms = []; stats = none }

  -- A thread's first sample makes its histogram.
  unfoldable pub add_to : ℕ → ℕ → List (ℕ × Hist) → List (ℕ × Hist)
  add_to thread v [] = (thread, add_value v new_histogram) ∷ []
  add_to thread v ((t, h) ∷ rest) =
      if t == thread then (t, add_value v h) ∷ rest else (t, h) ∷ add_to thread v rest

  unfoldable pub add_latency_sample : ℕ → ℕ → Metric → Metric
  unfolding add_to
  add_latency_sample thread nanos m = record m {
    histograms = add_to thread (nanos / 1000) m.histograms;
  }

  unfoldable pub add_value_sample : ℕ → ℕ → Metric → Metric
  unfolding add_to
  add_value_sample thread value m = record m {
    histograms = add_to thread (value * 1000 % 2 ^ 64) m.histograms;
  }

  -- All threads' histograms are merged, and each is cleared.
  unfoldable pub collect : Hist → List (ℕ × Hist) → Hist × List (ℕ × Hist)
  collect aggregated [] = (aggregated, [])
  collect aggregated ((t, h) ∷ rest) =
      let (all, cleared) = collect (merge aggregated h) rest in (all, (t, clear h) ∷ cleared)

  -- The counts of the first `n` buckets.
  unfoldable pub count_buckets : ℕ → Hist → ℕ
  count_buckets zero h = 0
  count_buckets (suc n) h = (count_buckets n h + bucket_count h n) % 2 ^ 64

  unfoldable pub stats_of : ℕ → Hist → Stats
  unfolding count_buckets
  stats_of stats_period aggregated =
      let count = count_buckets (num_buckets aggregated) aggregated in
      let estimate : ℕ → Double = λ p. hs.to_millis (percentile p aggregated) in
      record {
        min = estimate 0;
        pct50 = estimate 5000;
        pct75 = estimate 7500;
        pct90 = estimate 9000;
        pct95 = estimate 9500;
        pct99 = estimate 9900;
        pct999 = estimate 9990;
        pct9999 = estimate 9999;
        max = estimate 10000;
        count = count;
        rate = hs.per_second count stats_period;
      }

  unfoldable pub update_stats : ℕ → Metric → Metric
  unfolding collect stats_of
  update_stats stats_period m =
      let (aggregated, cleared) = collect new_histogram m.histograms in
      record m { histograms = cleared; stats = some (stats_of stats_period aggregated) }

  -- What happens to a metric: a thread adds a latency or a value, or the statistics are updated.
  pub data Sampling : Type 0 where
    latency : ℕ → ℕ → Sampling
    value : ℕ → ℕ → Sampling
    update : Sampling

  unfoldable pub sampling_step : ℕ → Sampling → Metric → Metric
  unfolding add_latency_sample add_value_sample update_stats
  sampling_step stats_period (latency thread nanos) m = add_latency_sample thread nanos m
  sampling_step stats_period (value thread v) m = add_value_sample thread v m
  sampling_step stats_period update m = update_stats stats_period m

  -- An update during which `thread` adds a sample, behind the merge of its histogram and before its
  -- clearing: the two are calls of their own, and no lock is held that samples take.
  unfoldable pub collect_racing : ℕ → ℕ → Hist → List (ℕ × Hist) → Hist × List (ℕ × Hist)
  collect_racing thread v aggregated [] = (aggregated, [])
  collect_racing thread v aggregated ((t, h) ∷ rest) =
      let (all, cleared) = collect_racing thread v (merge aggregated h) rest in
      (all, (t, clear (if t == thread then add_value v h else h)) ∷ cleared)

  unfoldable pub update_racing : ℕ → ℕ → ℕ → Metric → Metric
  unfolding collect_racing stats_of
  update_racing thread v stats_period m =
      let (aggregated, cleared) = collect_racing thread v new_histogram m.histograms in
      record m { histograms = cleared; stats = some (stats_of stats_period aggregated) }

  -- `metrics` is the map, in the order of its names.
  pub record MetricsManager : Type 0 where
    pub metrics : List (String × ℕ)
    pub store : List Metric
    pub stats_period : ℕ

  abbrev pub new_manager : ℕ → MetricsManager
  new_manager stats_period = record { metrics = []; store = []; stats_period = stats_period }

  unfoldable pub find : String → List (String × ℕ) → Option ℕ
  find name [] = none
  find name ((n, p) ∷ rest) = if str_eq n name then some p else find name rest

  unfoldable pub create_metric : String → MetricsManager → ℕ × MetricsManager
  unfolding find new_metric insert
  create_metric name mm = elim (find name mm.metrics) [
    | some p ↦ (p, mm)
    | none ↦ (
      length mm.store,
      record mm {
        metrics = insert name (length mm.store) mm.metrics;
        store = mm.store ++ new_metric name ∷ [];
      },
    )
  ]

  -- A metric in the store is replaced.
  unfoldable pub modify : (Metric → Metric) → ℕ → List Metric → List Metric
  modify f p [] = []
  modify f zero (m ∷ ms) = f m ∷ ms
  modify f (suc p) (m ∷ ms) = m ∷ modify f p ms

  -- The metrics of the map, in the order of their names.
  unfoldable pub update_each : ℕ → List (String × ℕ) → List Metric → List Metric
  unfolding modify update_stats
  update_each stats_period [] store = store
  update_each stats_period ((name, p) ∷ rest) store =
      update_each stats_period rest (modify (update_stats stats_period) p store)

  unfoldable pub update_all : MetricsManager → MetricsManager
  unfolding update_each
  update_all mm = record mm { store = update_each mm.stats_period mm.metrics mm.store }

  -- `metric` is null in a timer that no metric has started.
  pub record Timer : Type 0 where
    pub metric : Option ℕ
    pub start_time : ℕ

  abbrev pub no_timer : Timer
  no_timer = record { metric = none; start_time = 0 }

  unfoldable pub start_timer : ℕ → ℕ → Timer
  start_timer p now = record { metric = some p; start_time = now }

  -- `none` is the dereference of a null metric.
  unfoldable pub completed : ℕ → ℕ → Timer → MetricsManager → Option MetricsManager
  unfolding modify add_latency_sample
  completed thread now timer mm = elim timer.metric [
    | none ↦ none
    | some p ↦ some (record mm {
      store = modify (add_latency_sample thread (now - timer.start_time)) p mm.store;
    })
  ]

  unfoldable pub at_place : ℕ → List Metric → Option Metric
  at_place p [] = none
  at_place zero (m ∷ ms) = some m
  at_place (suc p) (m ∷ ms) = at_place p ms

  -- The object that getJsonStats prints: each name with its metric's last statistics.
  unfoldable pub json_stats : MetricsManager → List (String × Option Stats)
  unfolding at_place
  json_stats mm =
      map (λ e. (e.0, elim (at_place e.1 mm.store) [ none ↦ none | some m ↦ m.stats ])) mm.metrics
