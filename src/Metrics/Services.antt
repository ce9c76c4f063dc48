-- ===== src/Metrics/Services.antt =====
-- What src/Metrics.cpp calls and the repository does not hold: folly's Histogram, and the arithmetic on
-- doubles. `Histograms` has the operations, `HistogramLaws` their documented behaviour.
use bookie_cpp.Prelude.{ℕ, ◌+◌, ◌<◌, ◌≡◌, ◌==◌, if◌then◌else◌}

pub record Histograms : Type 1 where
  pub Hist : Type 0
  -- The size of a bucket, the lowest and the highest value.
  pub make : ℕ → ℕ → ℕ → Hist
  pub add_value : ℕ → Hist → Hist
  -- `merge h g` is `h.merge(g)`.
  pub merge : Hist → Hist → Hist
  pub clear : Hist → Hist
  pub num_buckets : Hist → ℕ
  pub bucket_count : Hist → ℕ → ℕ
  -- `getPercentileEstimate` at a fraction in parts of 10000.
  pub percentile : ℕ → Hist → ℕ
  pub Double : Type 0
  pub to_millis : ℕ → Double
  -- A count over a number of seconds.
  pub per_second : ℕ → ℕ → Double

-- For histograms made with the same three numbers.
pub record HistogramLaws (hs : Histograms) (bucket_size min_value max_value : ℕ) : Type 1 where
  pub Like : hs.Hist → Type 0
  pub make-Like : Like (hs.make bucket_size min_value max_value)
  pub add_value-Like : (v : ℕ) (h : hs.Hist) → Like h → Like (hs.add_value v h)
  pub merge-Like : (h g : hs.Hist) → Like h → Like g → Like (hs.merge h g)
  pub clear-Like : (h : hs.Hist) → Like h → Like (hs.clear h)
  -- Every value belongs to one of the buckets; those out of range to the first or the last.
  pub buckets : ℕ
  pub bucket_of : ℕ → ℕ
  pub bucket_of-lt : (v : ℕ) → bucket_of v < buckets
  pub num_buckets_lem : (h : hs.Hist) → Like h → hs.num_buckets h ≡ buckets
  pub bucket_count-make : (i : ℕ) → hs.bucket_count (hs.make bucket_size min_value max_value) i ≡ 0
  pub bucket_count-add_value :
      (v : ℕ) (h : hs.Hist) (i : ℕ)
      → Like h
      → hs.bucket_count (hs.add_value v h) i
        ≡ hs.bucket_count h i + (if i == bucket_of v then 1 else 0)
  pub bucket_count-merge :
      (h g : hs.Hist) (i : ℕ)
      → Like h
      → Like g
      → hs.bucket_count (hs.merge h g) i ≡ hs.bucket_count h i + hs.bucket_count g i
  pub bucket_count-clear : (h : hs.Hist) (i : ℕ) → Like h → hs.bucket_count (hs.clear h) i ≡ 0
