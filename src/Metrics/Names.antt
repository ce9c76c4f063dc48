-- ===== src/Metrics/Names.antt =====
-- Metrics by name: one metric for each name.
use Prim.Native.String.{String}
use text.Mathlib.Text.{◌==◌ as str_eq}
use text.Mathlib.TextEquality.{eq_iff}
use bookie_cpp.Prelude.{
  ℕ, zero, suc, ◌≡◌, refl, ◌∙◌, List, [], ◌∷◌, ◌++◌, Option, none, some, arith, false, subst,
  length, if◌then◌else◌, Bool-cases, Option-cases, inl, inr,
}
use mathlib.Core.Path.{fun_ext}
use bookie_cpp.Metrics.Services.{Histograms}
use bookie_cpp.Metrics.{
  Metric, MetricsManager, new_metric, before, insert, find, create_metric, at_place,
}

find_other :
    (hs : Histograms) (other name : String) (p : ℕ) (ms : List (String × ℕ))
    → str_eq name other ≡ false
    → find hs other (insert name p ms) ≡ find hs other ms
unfolding find insert
find_other hs other name p [] differs = rw differs refl
find_other hs other name p ((n, q) ∷ rest) differs = elim (Bool-cases (before n name)) [
  | inl first ↦ rw first (ground (arith, find_other hs other name p rest differs))
  | inr last ↦ rw (last, differs) refl
]

find_same :
    (hs : Histograms) (name : String) (p : ℕ) (ms : List (String × ℕ))
    → find hs name ms ≡ none
    → find hs name (insert name p ms) ≡ some p
unfolding find insert
find_same hs name p [] absent = rw ((eq_iff name name).1 refl) refl
find_same hs name p ((n, q) ∷ rest) absent = elim (Bool-cases (before n name)) [
  | inl first ↦ rw first (elim (Bool-cases (str_eq n name)) [
    | inl same ↦ cc (rw same at absent)
    | inr differs ↦ rw differs (find_same hs name p rest (rw differs at absent))
  ])
  | inr last ↦ rw (last, (eq_iff name name).1 refl) refl
]

find-insert :
    (hs : Histograms) (other name : String) (p : ℕ) (ms : List (String × ℕ))
    → find hs name ms ≡ none
    → find hs other (insert name p ms) ≡ elim (find hs other ms) [
      | some q ↦ some q
      | none ↦ if str_eq name other then some p else none
    ]
find-insert hs other name p ms absent = elim (Bool-cases (str_eq name other)) [
  | inr differs ↦ find_other hs other name p ms differs ∙ elim (Option-cases (find hs other ms)) [
    | inl missing ↦ rw (missing, differs) refl
    | inr (q, there) ↦ rw there refl
  ]
  | inl same ↦
      let this : name ≡ other = (eq_iff name other).0 same in
      subst
        (λ (s : String).
          find hs s (insert name p ms)
          ≡ elim (find hs s ms) [ some q ↦ some q | none ↦ if str_eq name s then some p else none ])
        this (find_same hs name p ms absent ∙ rw (absent, (eq_iff name name).1 refl) refl)
]

module _ (hs : Histograms) where
  at_place-append :
      (store : List (Metric hs)) (m : Metric hs)
      → at_place hs (length store) (store ++ m ∷ []) ≡ some m
  unfolding at_place
  at_place-append [] m = refl
  at_place-append (x ∷ store) m = at_place-append store m

  at_place-old :
      (p : ℕ) (store : List (Metric hs)) (m x : Metric hs)
      → at_place hs p store ≡ some m
      → at_place hs p (store ++ x ∷ []) ≡ some m
  unfolding at_place
  at_place-old p [] m x e = cc
  at_place-old zero (y ∷ store) m x e = e
  at_place-old (suc p) (y ∷ store) m x e = at_place-old p store m x e

  -- Under each name there is a metric of that name.
  abbrev pub IsNamed : MetricsManager hs → Type 0
  IsNamed mm =
      (name : String) (p : ℕ)
      → find hs name mm.metrics ≡ some p
      → (m : Metric hs) × (at_place hs p mm.store ≡ some m) × (m.name ≡ name)

  -- The map with one more name, unless that name is there.
  abbrev pub with_name : String → ℕ → List (String × ℕ) → String → Option ℕ
  with_name name p ms other = elim (find hs other ms) [
    | some q ↦ some q
    | none ↦ if str_eq name other then some p else none
  ]

  old_name :
      (name other : String) (p : ℕ) (ms : List (String × ℕ))
      → find hs name ms ≡ some p
      → find hs other ms ≡ with_name name p ms other
  old_name name other p ms e = elim (Option-cases (find hs other ms)) [
    | inr (q, there) ↦ rw (there, with_name)
    | inl absent ↦ elim (Bool-cases (str_eq name other)) [
      | inr differs ↦ rw (absent, with_name, differs)
      | inl same ↦ cc ((eq_iff name other).0 same)
    ]
  ]

  new_name-IsNamed :
      (name : String) (mm : MetricsManager hs)
      → find hs name mm.metrics ≡ none
      → IsNamed mm
      → IsNamed (record mm {
        metrics = insert name (length mm.store) mm.metrics;
        store = mm.store ++ new_metric hs name ∷ [];
      })
  unfolding new_metric
  new_name-IsNamed name mm absent named other p e = elim (Option-cases (find hs other mm.metrics)) [
    | inr (q, there) ↦
        let (m, placed, called) = named other q there in
        let same : q ≡ p =
          cc (rw (there) at (find-insert hs other name (length mm.store) mm.metrics absent)) in
        (m, at_place-old p mm.store m (new_metric hs name) (rw (← same) placed), called)
    | inl missing ↦
        let last = rw missing at (find-insert hs other name (length mm.store) mm.metrics absent) in
        elim (Bool-cases (str_eq name other)) [
          | inr differs ↦ cc (rw differs at last)
          | inl same ↦
              let place : length mm.store ≡ p = cc (rw same at last) in
              (
                new_metric hs name,
                rw (← place) (at_place-append mm.store (new_metric hs name)),
                (eq_iff name other).0 same,
              )
        ]
  ]

  abbrev pub pointers : List (String × ℕ) → String → Option ℕ
  pointers ms other = find hs other ms

  -- Where each name has a metric of its own, a metric can be created for any name: the names are those
  -- before with this one, each still has a metric of its own, and another call for the same name gives
  -- the same metric and changes nothing.
  pub create_metric_lem :
      (name : String) (mm : MetricsManager hs)
      → IsNamed mm
      → (p : ℕ) × (mm' : MetricsManager hs) × (create_metric hs name mm ≡ (p, mm'))
        × IsNamed mm'
        × (pointers mm'.metrics ≡ with_name name p mm.metrics)
        × (create_metric hs name mm' ≡ (p, mm'))
  unfolding create_metric
  create_metric_lem name mm named = elim (Option-cases (find hs name mm.metrics)) [
    | inr (p, there) ↦ (
      p,
      mm,
      rw (there, create_metric),
      named,
      fun_ext λ other. old_name name other p mm.metrics there,
      rw (there, create_metric),
    )
    | inl absent ↦
        let p = length mm.store in
        let mm' : MetricsManager hs = record mm {
          metrics = insert name p mm.metrics;
          store = mm.store ++ new_metric hs name ∷ [];
        } in
        let found : find hs name mm'.metrics ≡ some p = find_same hs name p mm.metrics absent in
        (
          p,
          mm',
          rw (absent, create_metric),
          new_name-IsNamed name mm absent named,
          fun_ext λ other. find-insert hs other name p mm.metrics absent,
          rw (found, create_metric),
        )
  ]
