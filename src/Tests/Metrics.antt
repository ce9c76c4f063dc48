-- ===== src/Tests/Metrics.antt =====
-- Metrics with histograms of one bucket (Metrics/OneBucket).
use bookie_cpp.Prelude.{ℕ, suc, ◌+◌, ◌*◌, ◌≤◌, ◌≡◌, refl, List, [], ◌∷◌, some, none, arith}
use bookie_cpp.Metrics.{
  Metric, MetricsManager, Sampling, latency, value, update, new_metric, update_stats, update_racing,
  create_metric, find, bucket_size, min_value, max_value,
}
use bookie_cpp.Metrics.{update_all}
use bookie_cpp.Metrics.Reporting
use bookie_cpp.Metrics.Reporting.{Printing, Updater, Runs, begins, passes, updates, uses}
use bookie_cpp.Metrics.OnTime.{all_printed, updates_are_on_time}
use bookie_cpp.Metrics.OneBucket.{one_bucket, one_bucket_laws}
use bookie_cpp.Metrics.Reports.{counts, counts_are_exact, race_loses_sample}
use bookie_cpp.Metrics.Names.{IsNamed, with_name, pointers, create_metric_lem}

-- Two threads, 1 and 2.
abbrev events : List (Sampling one_bucket)
events = latency 1 5000 ∷ value 2 9 ∷ latency 1 100 ∷ update ∷ update ∷ value 2 4 ∷ update ∷ []

counts_are_exact_example :
    counts one_bucket
      (one_bucket_laws bucket_size min_value max_value)
      60
      events
      (new_metric one_bucket "add")
    ≡ 3 ∷ 0 ∷ 1 ∷ []
counts_are_exact_example =
    counts_are_exact one_bucket (one_bucket_laws bucket_size min_value max_value) 60 "add" events
      (omega arith)

-- Two samples of thread 1.
abbrev used : Metric one_bucket
used = record { name = "add"; histograms = (1, 2) ∷ []; stats = none }

race_loses_sample_example :
    ((update_racing one_bucket 1 7 60 used).stats ≡ (update_stats one_bucket 60 used).stats)
    × (counts one_bucket
          (one_bucket_laws bucket_size min_value max_value)
          60
          (update ∷ [])
          (update_racing one_bucket 1 7 60 used)
        ≡ 0 ∷ [])
race_loses_sample_example =
    race_loses_sample one_bucket (one_bucket_laws bucket_size min_value max_value) 60 1 7 used
      (tt, tt)

abbrev empty : MetricsManager one_bucket
empty = record { metrics = []; store = []; stats_period = 60 }

empty-IsNamed : IsNamed one_bucket empty
unfolding find
empty-IsNamed name p there = cc

create_metric_lem_example :
    (p : ℕ) × (mm : MetricsManager one_bucket) × (create_metric one_bucket "add" empty ≡ (p, mm))
    × IsNamed one_bucket mm
    × (pointers one_bucket mm.metrics ≡ with_name one_bucket "add" p [])
    × (create_metric one_bucket "add" mm ≡ (p, mm))
create_metric_lem_example = create_metric_lem one_bucket "add" empty empty-IsNamed

abbrev filled : MetricsManager one_bucket
filled = record { metrics = ("add", 0) ∷ []; store = used ∷ []; stats_period = 60 }

abbrev printing : Printing one_bucket
printing = record {
  serialize_stats = λ opts stats. elim stats [ none ↦ "{}" | some s ↦ "{...}" ];
  serialize_all = λ opts all. "{...}";
  delay = λ millis. millis;
}

abbrev begun : Updater one_bucket
begun = Reporting.construct one_bucket printing 5 60

-- With one metric, a minute and three milliseconds behind the construction; the update takes seven.
abbrev reported : Updater one_bucket
reported =
    Reporting.update_stats one_bucket printing (5 + 60003 + 7)
      (record begun { manager = filled; timeouts = [] })

reporting_run :
    Runs one_bucket printing 5 60 (update_all one_bucket filled ∷ []) (5 + 60003 + 7) reported
unfolding Reporting.construct
reporting_run =
    updates [] [] 60005 7 refl refl (omega arith) (passes 60003 (uses filled refl begins))

updates_are_on_time_example :
    (due : ℕ) × (reported.timeouts ≡ due ∷ [])
    × (5 + suc 1 * 60000 ≤ due)
    × (5 + 1 * 60000 ≤ 60015)
    × (reported.printed ≡ all_printed one_bucket printing (update_all one_bucket filled ∷ []))
updates_are_on_time_example =
    updates_are_on_time one_bucket printing 5 60 60015 (update_all one_bucket filled ∷ []) reported
      reporting_run

-- Two metrics, with a name that goes between theirs.
abbrev two : MetricsManager one_bucket
two = record { metrics = ("add", 0) ∷ ("wal", 1) ∷ []; store = used ∷ used ∷ []; stats_period = 60 }

between_run :
    (create_metric one_bucket "sync" two).1.metrics ≡ ("add", 0) ∷ ("sync", 2) ∷ ("wal", 1) ∷ []
unfolding create_metric
between_run = refl
