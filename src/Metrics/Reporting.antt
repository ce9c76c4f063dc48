-- ===== src/Metrics/Reporting.antt =====
-- src/Metrics.cpp: the thread of a MetricsManager, which updates and prints the statistics once in a while.
-- Times are in milliseconds. folly's event loop is what `Runs` lets happen: a callback runs on the loop's
-- thread when its time has come, while the loop has not returned.
use Prim.Native.String.{String}
use bookie_cpp.Prelude.{ℕ, ◌+◌, ◌*◌, ◌≤◌, ◌≡◌, List, [], ◌∷◌, ◌++◌, Option, Bool, true, false}
use bookie_cpp.Metrics.Services.{Histograms}
use bookie_cpp.Metrics.{MetricsManager, Stats, update_all, json_stats, new_manager}

pub record SerializationOpts : Type 0 where
  pub pretty_formatting : Bool
  pub sort_keys : Bool

abbrev line_opts : SerializationOpts
line_opts = record { pretty_formatting = false; sort_keys = true }

-- How folly prints the statistics of one metric and those of all, and the delay that `runAfterDelay` takes a
-- number of milliseconds for.
pub record Printing (hs : Histograms) : Type 0 where
  pub serialize_stats : SerializationOpts → Option (Stats hs) → String
  pub serialize_all : SerializationOpts → List (String × Option (Stats hs)) → String
  pub delay : ℕ → ℕ

-- The manager with its event loop: the times at which calls of updateStats are due, whether the loop was
-- told to stop and whether its thread has returned, and the lines printed, each in pieces.
pub record Updater (hs : Histograms) : Type 0 where
  pub manager : MetricsManager hs
  pub timeouts : List ℕ
  pub stopping : Bool
  pub returned : Bool
  pub printed : List (List String)

module _ (hs : Histograms) (printing : Printing hs) where
  open printing use {serialize_stats, serialize_all, delay}

  -- MetricsManager::getJsonStats, with the lock and without it.
  unfoldable pub get_json_stats : Bool → MetricsManager hs → String
  get_json_stats format_json mm =
      serialize_all (record { pretty_formatting = format_json; sort_keys = true })
        (json_stats hs mm)

  unfoldable pub print_each : List (String × Option (Stats hs)) → List (List String)
  print_each [] = []
  print_each ((name, stats) ∷ rest) =
      (name ∷ " : " ∷ serialize_stats line_opts stats ∷ []) ∷ print_each rest

  -- What an update prints. The code prints each metric's line right behind the metric's update, and no update
  -- changes another metric.
  unfoldable pub print_stats : MetricsManager hs → List (List String)
  unfolding print_each
  print_stats mm = ("--- Stats ---" ∷ []) ∷ print_each (json_stats hs mm)

  -- How long after its scheduling an update is due.
  abbrev pub period : ℕ → ℕ
  period stats_period = delay (1000 * stats_period)

  -- The constructor, at the time at which its thread starts.
  unfoldable pub construct : ℕ → ℕ → Updater hs
  construct now stats_period = record {
    manager = new_manager hs stats_period;
    timeouts = (now + period stats_period) ∷ [];
    stopping = false;
    returned = false;
    printed = [];
  }

  -- MetricsManager::updateStats, which ends at a time.
  unfoldable pub update_stats : ℕ → Updater hs → Updater hs
  unfolding print_stats
  update_stats now u =
      let mm = update_all hs u.manager in
      record u {
        manager = mm;
        printed = u.printed ++ print_stats mm;
        timeouts = u.timeouts ++ (now + period mm.stats_period) ∷ [];
      }

  -- The first half of the destructor; the second waits for the thread to return.
  unfoldable pub destroy : Updater hs → Updater hs
  destroy u = record u { stopping = true }

  -- What can happen from the constructor's time on, with the managers that updates have left, the time, and
  -- the updater: time passes, another thread uses the metrics, an update whose time has come runs for some
  -- time, the destructor begins, and the loop, once it was told to, stops for good.
  pub data Runs (begun stats_period : ℕ) : List (MetricsManager hs) → ℕ → Updater hs → Type 0 where
    begins : Runs begun stats_period [] begun (construct begun stats_period)
    passes :
        {reports : List (MetricsManager hs)} {now : ℕ} {u : Updater hs} (millis : ℕ)
        → Runs begun stats_period reports now u
        → Runs begun stats_period reports (now + millis) u
    uses :
        {reports : List (MetricsManager hs)} {now : ℕ} {u : Updater hs} (mm : MetricsManager hs)
        → mm.stats_period ≡ u.manager.stats_period
        → Runs begun stats_period reports now u
        → Runs begun stats_period reports now (record u { manager = mm })
    updates :
        {reports : List (MetricsManager hs)} {now : ℕ} {u : Updater hs} (before after : List ℕ)
        (due millis : ℕ)
        → u.returned ≡ false
        → u.timeouts ≡ before ++ due ∷ after
        → due ≤ now
        → Runs begun stats_period reports now u
        → Runs begun stats_period
            (reports ++ update_all hs u.manager ∷ [])
            (now + millis)
            (update_stats (now + millis) (record u { timeouts = before ++ after }))
    is_destroyed :
        {reports : List (MetricsManager hs)} {now : ℕ} {u : Updater hs}
        → Runs begun stats_period reports now u
        → Runs begun stats_period reports now (destroy u)
    returns :
        {reports : List (MetricsManager hs)} {now : ℕ} {u : Updater hs}
        → u.stopping ≡ true
        → Runs begun stats_period reports now u
        → Runs begun stats_period reports now (record u { returned = true })
