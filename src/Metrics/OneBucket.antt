-- ===== src/Metrics/OneBucket.antt =====
-- Histograms with one bucket, and percentiles that are all 0: the laws can be met.
use bookie_cpp.Prelude.{ℕ, ◌+◌, ◌≡◌, refl, arith, ◌==◌, if◌then◌else◌}
use bookie_cpp.Metrics.Services.{Histograms, HistogramLaws}

-- A histogram is the number of its samples.
abbrev pub one_bucket : Histograms
one_bucket = record {
  Hist = ℕ;
  make = λ size lowest highest. 0;
  add_value = λ v n. n + 1;
  merge = λ n m. n + m;
  clear = λ n. 0;
  num_buckets = λ n. 1;
  bucket_count = λ n i. if i == 0 then n else 0;
  percentile = λ p n. 0;
  Double = ℕ;
  to_millis = λ n. n;
  per_second = λ n seconds. n;
}

abbrev pub counted : ℕ → ℕ → ℕ
counted n i = if i == 0 then n else 0

pub counted-add :
    (v n i : ℕ)
    → (if i == 0 then n + 1 else 0) ≡ (if i == 0 then n else 0) + (if i == 0 then 1 else 0)
counted-add v n i = ground arith

pub counted-merge :
    (n m i : ℕ)
    → (if i == 0 then n + m else 0) ≡ (if i == 0 then n else 0) + (if i == 0 then m else 0)
counted-merge n m i = ground arith

pub counted-none : (i : ℕ) → counted 0 i ≡ 0
counted-none i = ground arith

abbrev pub one_bucket_laws :
    (bucket_size min_value max_value : ℕ) → HistogramLaws one_bucket bucket_size min_value max_value
one_bucket_laws bucket_size min_value max_value = record {
  Like = λ n. Unit {0};
  make-Like = tt;
  add_value-Like = λ v n l. tt;
  merge-Like = λ n m l k. tt;
  clear-Like = λ n l. tt;
  buckets = 1;
  bucket_of = λ v. 0;
  bucket_of-lt = λ v. omega arith;
  num_buckets_lem = λ n l. refl;
  bucket_count-make = counted-none;
  bucket_count-add_value = λ v n i l. counted-add v n i;
  bucket_count-merge = λ n m i l k. counted-merge n m i;
  bucket_count-clear = λ n i l. counted-none i;
}
