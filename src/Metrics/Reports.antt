-- ===== src/Metrics/Reports.antt =====
-- What the statistics report over any sequence of samples and updates.
use Prim.Native.String.{String}
use bookie_cpp.Prelude.{
  ℕ, ◌+◌, ◌*◌, ◌/◌, ◌%◌, ◌^◌, ◌<◌, ◌≡◌, refl, ap, ◌∙◌, List, [], ◌∷◌, ◌++◌, Option, none, some,
  arith, length, ◌==◌, Bool-cases, inl, inr,
}
use bookie_cpp.Metrics.Services.{Histograms, HistogramLaws}
use bookie_cpp.Metrics.{
  Metric, Stats, Sampling, latency, value, update, new_metric, new_histogram, add_latency_sample,
  add_value_sample, collect, collect_racing, update_stats, update_racing, sampling_step,
  bucket_size, min_value, max_value,
}
use bookie_cpp.Metrics.Counts.{
  AreLike, held, held_all, add_to_lem, collect_lem, count_buckets-held, held_below-make,
  held_below-clear,
}

-- The numbers of samples between updates: `n` have come since the last one.
abbrev pub samples_between : {hs : Histograms} → ℕ → List (Sampling hs) → List ℕ
samples_between n [] = []
samples_between n (latency t v ∷ events) = samples_between (n + 1) events
samples_between n (value t v ∷ events) = samples_between (n + 1) events
samples_between n (update ∷ events) = n ∷ samples_between 0 events

module _ (hs : Histograms) (laws : HistogramLaws hs bucket_size min_value max_value)
    (period : ℕ) where
  open laws use {make-Like, num_buckets_lem}

  count_of : Option (Stats hs) → List ℕ
  count_of none = []
  count_of (some s) = s.count ∷ []

  -- The counts that are reported on the way.
  unfoldable pub counts : List (Sampling hs) → Metric hs → List ℕ
  unfolding sampling_step count_of
  counts [] m = []
  counts (latency t v ∷ events) m = counts events (sampling_step hs period (latency t v) m)
  counts (value t v ∷ events) m = counts events (sampling_step hs period (value t v) m)
  counts (update ∷ events) m =
      let m' = sampling_step hs period update m in count_of m'.stats ++ counts events m'

  -- An update reports what the histograms hold, and leaves nothing in them.
  update_lem :
      (m : Metric hs)
      → AreLike hs laws m.histograms
      → held_all hs laws m.histograms < 2 ^ 64
      → (count_of (update_stats hs period m).stats ≡ held_all hs laws m.histograms ∷ [])
        × AreLike hs laws (update_stats hs period m).histograms
        × (held_all hs laws (update_stats hs period m).histograms ≡ 0)
  unfolding update_stats count_of
  update_lem m l small =
      let (lh, all, ls, none_left) =
        collect_lem hs laws (new_histogram hs) m.histograms make-Like l in
      let total : held hs laws (collect hs (new_histogram hs) m.histograms).0
          ≡ held_all hs laws m.histograms =
        omega (arith, all, held_below-make hs laws laws.buckets) in
      (
        rw (num_buckets_lem _ lh) (
            ap (λ (n : ℕ). n ∷ [])
              (count_buckets-held hs laws laws.buckets _ (omega (arith, total)) ∙ total)),
        ls,
        none_left,
      )

  counts_from :
      (events : List (Sampling hs)) (n : ℕ) (m : Metric hs)
      → AreLike hs laws m.histograms
      → held_all hs laws m.histograms ≡ n
      → n + length events < 2 ^ 64
      → counts events m ≡ samples_between n events
  unfolding counts sampling_step add_latency_sample add_value_sample
  counts_from [] n m l e few = refl
  counts_from (latency t v ∷ events) n m l e few =
      let (l', more) = add_to_lem hs laws t (v / 1000) m.histograms l in
      counts_from events (n + 1) (add_latency_sample hs t v m) l' (omega (arith, more))
        (omega arith)
  counts_from (value t v ∷ events) n m l e few =
      let (l', more) = add_to_lem hs laws t (v * 1000 % 2 ^ 64) m.histograms l in
      counts_from events (n + 1) (add_value_sample hs t v m) l' (omega (arith, more)) (omega arith)
  counts_from (update ∷ events) n m l e few =
      let (reported, l', none_left) = update_lem m l (omega arith) in
      let rest = counts_from events 0 (update_stats hs period m) l' none_left (omega arith) in
      ap (λ (l : List ℕ). l ++ counts events (update_stats hs period m))
        (reported ∙ ap (λ (k : ℕ). k ∷ []) e)
      ∙ ap (λ (l : List ℕ). n ∷ l) rest

  -- From a new metric on, over any sequence of fewer than 2 ^ 64 samples and updates in which no sample
  -- falls into an update, each update reports exactly the number of samples since the update before it,
  -- whichever threads they came from.
  pub counts_are_exact :
      (name : String) (events : List (Sampling hs))
      → length events < 2 ^ 64
      → counts events (new_metric hs name) ≡ samples_between 0 events
  unfolding new_metric held_all
  counts_are_exact name events few = counts_from events 0 (new_metric hs name) tt refl (omega arith)

  collect_racing_lem :
      (thread v : ℕ) (aggregated : hs.Hist) (hists : List (ℕ × hs.Hist))
      → AreLike hs laws hists
      → ((collect_racing hs thread v aggregated hists).0 ≡ (collect hs aggregated hists).0)
        × AreLike hs laws (collect_racing hs thread v aggregated hists).1
        × (held_all hs laws (collect_racing hs thread v aggregated hists).1 ≡ 0)
  unfolding collect_racing collect held_all
  collect_racing_lem thread v aggregated [] l = (refl, tt, refl)
  collect_racing_lem thread v aggregated ((t, h) ∷ rest) (l, ls) =
      let (same, ls', none_left) = collect_racing_lem thread v (hs.merge aggregated h) rest ls in
      elim (Bool-cases (t == thread)) [
        | inl this ↦
            let l' = laws.add_value-Like v h l in
            rw this (
              same,
              (laws.clear-Like _ l', ls'),
              omega (arith, none_left, held_below-clear hs laws laws.buckets _ l'),
            )
        | inr other ↦ rw other (
          same,
          (laws.clear-Like h l, ls'),
          omega (arith, none_left, held_below-clear hs laws laws.buckets h l),
        )
      ]

  -- A sample that a thread adds to its histogram behind the merge and before the clearing is lost: the
  -- update reports what one without the sample reports, and an update that follows reports no sample.
  pub race_loses_sample :
      (thread v : ℕ) (m : Metric hs)
      → AreLike hs laws m.histograms
      → ((update_racing hs thread v period m).stats ≡ (update_stats hs period m).stats)
        × (counts (update ∷ []) (update_racing hs thread v period m) ≡ 0 ∷ [])
  unfolding update_racing update_stats counts sampling_step
  race_loses_sample thread v m l =
      let (same, l', none_left) = collect_racing_lem thread v (new_histogram hs) m.histograms l in
      let (reported, _, _) =
        update_lem (update_racing hs thread v period m) l' (omega (arith, none_left)) in
      (rw same, ap (λ (l : List ℕ). l ++ []) (reported ∙ ap (λ (k : ℕ). k ∷ []) none_left))
