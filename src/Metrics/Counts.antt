-- ===== src/Metrics/Counts.antt =====
-- No sample is lost and none is counted twice, as long as no thread adds one while another updates.
use bookie_cpp.Prelude.{
  ℕ, zero, suc, ◌+◌, ◌^◌, ◌<◌, ◌≡◌, refl, List, [], ◌∷◌, arith, ltb, ◌==◌, if◌then◌else◌,
  Bool-cases, inl, inr,
}
use bookie_cpp.Metrics.Services.{Histograms, HistogramLaws}
use bookie_cpp.Metrics.{
  new_histogram, add_to, collect, count_buckets, bucket_size, min_value, max_value,
}

module _ (hs : Histograms) (laws : HistogramLaws hs bucket_size min_value max_value) where
  open hs use {Hist, add_value, merge, clear, num_buckets, bucket_count}
  open laws use {
    Like, make-Like, add_value-Like, merge-Like, clear-Like, buckets, bucket_of, bucket_of-lt,
    num_buckets_lem, bucket_count-make, bucket_count-add_value, bucket_count-merge,
    bucket_count-clear,
  }

  -- The samples in the first `n` buckets, without bound.
  pub held_below : ℕ → Hist → ℕ
  held_below zero h = 0
  held_below (suc n) h = held_below n h + bucket_count h n

  abbrev pub held : Hist → ℕ
  held h = held_below buckets h

  held_below-add :
      (n v : ℕ) (h : Hist)
      → Like h
      → held_below n (add_value v h) ≡ held_below n h + (if ltb (bucket_of v) n then 1 else 0)
  unfolding held_below
  held_below-add zero v h l = ground arith
  held_below-add (suc n) v h l =
      ground (arith, held_below-add n v h l, bucket_count-add_value v h n l)

  held-add : (v : ℕ) (h : Hist) → Like h → held (add_value v h) ≡ held h + 1
  held-add v h l = ground (arith, held_below-add buckets v h l, bucket_of-lt v)

  pub held_below-make : (n : ℕ) → held_below n (new_histogram hs) ≡ 0
  unfolding held_below
  held_below-make zero = refl
  held_below-make (suc n) = omega (arith, held_below-make n, bucket_count-make n)

  held_below-merge :
      (n : ℕ) (h g : Hist)
      → Like h
      → Like g
      → held_below n (merge h g) ≡ held_below n h + held_below n g
  unfolding held_below
  held_below-merge zero h g l k = omega arith
  held_below-merge (suc n) h g l k =
      omega (arith, held_below-merge n h g l k, bucket_count-merge h g n l k)

  pub held_below-clear : (n : ℕ) (h : Hist) → Like h → held_below n (clear h) ≡ 0
  unfolding held_below
  held_below-clear zero h l = refl
  held_below-clear (suc n) h l = omega (arith, held_below-clear n h l, bucket_count-clear h n l)

  -- The loop over the buckets counts them all, unless 64 bits are too few.
  pub count_buckets-held :
      (n : ℕ) (h : Hist) → held_below n h < 2 ^ 64 → count_buckets hs n h ≡ held_below n h
  unfolding held_below count_buckets
  count_buckets-held zero h small = refl
  count_buckets-held (suc n) h small = omega (arith, count_buckets-held n h (omega arith))

  -- The samples that a metric holds and has not reported yet.
  abbrev pub AreLike : List (ℕ × Hist) → Type 0
  AreLike [] = Unit {0}
  AreLike ((t, h) ∷ rest) = Like h × AreLike rest

  unfoldable pub held_all : List (ℕ × Hist) → ℕ
  held_all [] = 0
  held_all ((t, h) ∷ rest) = held h + held_all rest

  pub add_to_lem :
      (thread v : ℕ) (hists : List (ℕ × Hist))
      → AreLike hists
      → AreLike (add_to hs thread v hists)
        × (held_all (add_to hs thread v hists) ≡ held_all hists + 1)
  unfolding add_to held_all
  add_to_lem thread v [] l = (
    (add_value-Like v (new_histogram hs) make-Like, tt),
    omega (arith, held-add v (new_histogram hs) make-Like, held_below-make buckets),
  )
  add_to_lem thread v ((t, h) ∷ rest) (l, ls) =
      let (ls', more) = add_to_lem thread v rest ls in
      elim (Bool-cases (t == thread)) [
        | inl this ↦ rw this ((add_value-Like v h l, ls), omega (arith, held-add v h l))
        | inr other ↦ rw other ((l, ls'), omega (arith, more))
      ]

  pub collect_lem :
      (aggregated : Hist) (hists : List (ℕ × Hist))
      → Like aggregated
      → AreLike hists
      → Like (collect hs aggregated hists).0
        × (held (collect hs aggregated hists).0 ≡ held aggregated + held_all hists)
        × AreLike (collect hs aggregated hists).1
        × (held_all (collect hs aggregated hists).1 ≡ 0)
  unfolding collect held_all
  collect_lem aggregated [] l ls = (l, omega arith, tt, refl)
  collect_lem aggregated ((t, h) ∷ rest) l (lh, ls) =
      let (l', all, cleared, none_left) =
        collect_lem (merge aggregated h) rest (merge-Like aggregated h l lh) ls in
      (
        l',
        omega (arith, all, held_below-merge buckets aggregated h l lh),
        (clear-Like h lh, cleared),
        omega (arith, none_left, held_below-clear buckets h lh),
      )
