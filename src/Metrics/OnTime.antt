-- ===== src/Metrics/OnTime.antt =====
-- When a manager updates and prints its statistics.
use Prim.Native.String.{String}
use bookie_cpp.Prelude.{
  ℕ, suc, ◌+◌, ◌*◌, ◌≤◌, ◌≡◌, refl, sym, ap, subst, ◌∙◌, List, [], ◌∷◌, ◌++◌, map, length,
  length-append, none, some, true, false, arith,
}
use mathlib.Core.List.{append_assoc, append-nil}
use bookie_cpp.Metrics.Services.{Histograms}
use bookie_cpp.Metrics.{MetricsManager, update_all, at_place, json_stats}
use bookie_cpp.Metrics.Reporting.{
  Printing, Updater, period, print_each, print_stats, construct, update_stats, destroy, Runs,
  begins, passes, uses, updates, is_destroyed, returns,
}

module _ (hs : Histograms) (printing : Printing hs) where
  -- A name and the statistics of its metric, compact and with sorted keys.
  abbrev pub line : MetricsManager hs → String × ℕ → List String
  line mm (name, p) =
      name
      ∷ " : "
      ∷ printing.serialize_stats (record { pretty_formatting = false; sort_keys = true })
          (elim (at_place hs p mm.store) [ none ↦ none | some m ↦ m.stats ])
      ∷ []

  -- The lines of updates that left these managers.
  abbrev pub all_printed : List (MetricsManager hs) → List (List String)
  all_printed [] = []
  all_printed (mm ∷ rest) = ("--- Stats ---" ∷ []) ∷ (map (line mm) mm.metrics ++ all_printed rest)

  print_each-map :
      (mm : MetricsManager hs) (ms : List (String × ℕ))
      → print_each hs printing
          (map (λ e. (e.0, elim (at_place hs e.1 mm.store) [ none ↦ none | some m ↦ m.stats ])) ms)
        ≡ map (line mm) ms
  unfolding print_each
  print_each-map mm [] = refl
  print_each-map mm (e ∷ ms) = ap (λ (l : List (List String)). line mm e ∷ l) (print_each-map mm ms)

  print_stats_lem :
      (mm : MetricsManager hs)
      → print_stats hs printing mm ≡ ("--- Stats ---" ∷ []) ∷ map (line mm) mm.metrics
  unfolding print_stats json_stats
  print_stats_lem mm =
      ap (λ (l : List (List String)). ("--- Stats ---" ∷ []) ∷ l) (print_each-map mm mm.metrics)

  all_printed-append :
      (ms : List (MetricsManager hs)) (mm : MetricsManager hs)
      → all_printed (ms ++ mm ∷ []) ≡ all_printed ms ++ print_stats hs printing mm
  all_printed-append [] mm =
      ap (λ (l : List (List String)). ("--- Stats ---" ∷ []) ∷ l)
        (append-nil (map (line mm) mm.metrics))
      ∙ sym (print_stats_lem mm)
  all_printed-append (m ∷ ms) mm =
      ap (λ (l : List (List String)). ("--- Stats ---" ∷ []) ∷ (map (line m) m.metrics ++ l))
        (all_printed-append ms mm)
      ∙ ap (λ (l : List (List String)). ("--- Stats ---" ∷ []) ∷ l)
          (sym
            (append_assoc (map (line m) m.metrics) (all_printed ms) (print_stats hs printing mm)))

  next_period :
      (begun n p now millis : ℕ) → begun + n * p ≤ now → begun + suc n * p ≤ now + millis + p
  next_period begun n p now millis h = omega (arith, h)

  -- One update is due, no earlier than a period after the last one that has run.
  record IsOnTime (begun stats_period : ℕ) (reports : List (MetricsManager hs)) (now : ℕ)
      (u : Updater hs) : Type 0 where
    due : ℕ
    alone : u.timeouts ≡ due ∷ []
    later : begun + suc (length reports) * period hs printing stats_period ≤ due
    elapsed : begun + length reports * period hs printing stats_period ≤ now
    same_period : u.manager.stats_period ≡ stats_period
    lines : u.printed ≡ all_printed reports

  only_one :
      (before after : List ℕ) (due other : ℕ)
      → other ∷ [] ≡ before ++ due ∷ after
      → (before ++ after ≡ []) × (due ≡ other)
  only_one [] [] due other e = (refl, ground (arith, e))
  only_one [] (x ∷ after) due other e = cc
  only_one (x ∷ []) after due other e = cc
  only_one (x ∷ y ∷ before) after due other e = cc

  Runs-IsOnTime :
      (begun stats_period : ℕ) {reports : List (MetricsManager hs)} {now : ℕ} {u : Updater hs}
      → Runs hs printing begun stats_period reports now u
      → IsOnTime begun stats_period reports now u
  unfolding construct update_stats destroy update_all
  Runs-IsOnTime begun stats_period begins = record {
    due = begun + period hs printing stats_period;
    alone = refl;
    later = omega arith;
    elapsed = omega arith;
    same_period = refl;
    lines = refl;
  }
  Runs-IsOnTime begun stats_period (passes millis run) =
      let t = Runs-IsOnTime begun stats_period run in
      record {
        due = t.due;
        alone = t.alone;
        later = t.later;
        elapsed = omega (arith, t.elapsed);
        same_period = t.same_period;
        lines = t.lines;
      }
  Runs-IsOnTime begun stats_period (uses mm same run) =
      let t = Runs-IsOnTime begun stats_period run in
      record {
        due = t.due;
        alone = t.alone;
        later = t.later;
        elapsed = t.elapsed;
        same_period = same ∙ t.same_period;
        lines = t.lines;
      }
  Runs-IsOnTime begun stats_period
        (updates {reports = reports} {now = now} {u = u} before after due millis running here came
          run) =
      let t = Runs-IsOnTime begun stats_period run in
      let (none_left, this) = only_one before after due t.due (sym t.alone ∙ here) in
      let p = period hs printing stats_period in
      let long : length (reports ++ update_all hs u.manager ∷ []) ≡ suc (length reports) =
        omega (arith, length-append reports (update_all hs u.manager ∷ [])) in
      let reached : begun + suc (length reports) * p ≤ now = omega (arith, t.later, this, came) in
      record {
        due = now + millis + p;
        alone =
            ap
              (λ (l : List ℕ). l ++ (now + millis + period hs printing u.manager.stats_period) ∷ [])
              none_left
            ∙ ap (λ (s : ℕ). (now + millis + period hs printing s) ∷ []) t.same_period;
        later =
            subst (λ (n : ℕ). begun + suc n * p ≤ now + millis + p) (sym long)
              (next_period begun (suc (length reports)) p now millis reached);
        elapsed =
            subst (λ (n : ℕ). begun + n * p ≤ now + millis) (sym long) (omega (arith, reached));
        same_period = t.same_period;
        lines =
            ap (λ (l : List (List String)). l ++ print_stats hs printing (update_all hs u.manager))
              t.lines
            ∙ sym (all_printed-append reports (update_all hs u.manager));
      }
  Runs-IsOnTime begun stats_period (is_destroyed run) =
      let t = Runs-IsOnTime begun stats_period run in
      record {
        due = t.due;
        alone = t.alone;
        later = t.later;
        elapsed = t.elapsed;
        same_period = t.same_period;
        lines = t.lines;
      }
  Runs-IsOnTime begun stats_period (returns told run) =
      let t = Runs-IsOnTime begun stats_period run in
      record {
        due = t.due;
        alone = t.alone;
        later = t.later;
        elapsed = t.elapsed;
        same_period = t.same_period;
        lines = t.lines;
      }

  -- Whatever happens behind the construction of a manager, at each moment just one update is scheduled; n
  -- updates have run only if n periods have gone by, and the next is due no earlier than at the end of one
  -- more; what is printed for each update, in their order and with nothing between them, is the
  -- header line and then, in the order of the names, a line for each metric with its name and the compact,
  -- sorted print of the statistics that the update has left for it.
  pub updates_are_on_time :
      (begun stats_period now : ℕ) (reports : List (MetricsManager hs)) (u : Updater hs)
      → Runs hs printing begun stats_period reports now u
      → (due : ℕ) × (u.timeouts ≡ due ∷ [])
        × (begun + suc (length reports) * period hs printing stats_period ≤ due)
        × (begun + length reports * period hs printing stats_period ≤ now)
        × (u.printed ≡ all_printed reports)
  updates_are_on_time begun stats_period now reports u run =
      let t = Runs-IsOnTime begun stats_period run in (t.due, t.alone, t.later, t.elapsed, t.lines)
