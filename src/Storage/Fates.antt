-- ===== src/Storage/Fates.antt =====
-- What becomes of the entries, whatever the database answers to its writes and whatever lies on the stack.
use bookie_cpp.Prelude.{
  ℕ, ◌≡◌, refl, ap, ◌∙◌, inl, inr, List, [], ◌∷◌, ◌++◌, map, Bool, true, false, if◌then◌else◌,
  Bool-cases,
}
use mathlib.Core.List.{append_assoc, append-nil}
use bookie_cpp.Io.{Io, first_segment}
use bookie_cpp.Storage.{JournalEntry, Journal}
use bookie_cpp.Storage.Services.{Deps, DepsLaws}
use bookie_cpp.Storage.Tracks.{Item, entry_of}

-- An entry with the bytes that the journal thread has read as its key.
pub record Read (X : Type 0) : Type 0 where
  pub entry : X
  pub key : List ℕ

-- The same with the outcome of the write of its batch.
pub record Fate (X : Type 0) : Type 0 where
  pub entry : X
  pub key : List ℕ
  pub written : Bool

abbrev pub fate : {X : Type 0} → Bool → Read X → Fate X
fate written r = record { entry = r.entry; key = r.key; written = written }

abbrev pub entry_in : {X : Type 0} → Fate X → X
entry_in f = f.entry

abbrev pub entry_read : {X : Type 0} → Read X → X
entry_read r = r.entry

abbrev pub All : {A : Type 0} → (A → Type 0) → List A → Type 0
All P [] = Unit {0}
All P (a ∷ xs) = P a × All P xs

pub All-append :
    {A : Type 0} (P : A → Type 0) (xs ys : List A) → All P xs → All P ys → All P (xs ++ ys)
All-append P [] ys h k = k
All-append P (a ∷ xs) ys (p, h) k = (p, All-append P xs ys h k)

pub All-front : {A : Type 0} (P : A → Type 0) (xs ys : List A) → All P (xs ++ ys) → All P xs
All-front P [] ys its = tt
All-front P (x ∷ xs) ys (p, its) = (p, All-front P xs ys its)

pub All-map :
    {A B : Type 0} (P : A → Type 0) (Q : B → Type 0) (f : A → B)
    → ((a : A) → P a → Q (f a))
    → (xs : List A) → All P xs
    → All Q (map f xs)
All-map P Q f h [] all = tt
All-map P Q f h (a ∷ xs) (p, all) = (h a p, All-map P Q f h xs all)

-- All entries, in the order in which they were queued.
abbrev pub all_entries : {X : Type 0} → List (Fate X) → List (Read X) → List X → List X
all_entries done batched queued = map entry_in done ++ (map entry_read batched ++ queued)

-- `X` has an entry with what else is known of it.
module _ (io : Io) (X : Type 0) (item : X → Item io.Buf) where
  abbrev pub promise_in : X → ℕ
  promise_in x = (item x).promise

  abbrev pub put_for : Read X → List ℕ × List ℕ
  put_for r = (r.key, first_segment io (item r.entry).payload)

  -- What was written: the puts of the batches whose write went well.
  unfoldable pub writes : List (Fate X) → List (List ℕ × List ℕ)
  writes [] = []
  writes (f ∷ fs) =
      if f.written then put_for (record { entry = f.entry; key = f.key }) ∷ writes fs else writes fs

  pub writes-append : (fs gs : List (Fate X)) → writes (fs ++ gs) ≡ writes fs ++ writes gs
  unfolding writes
  writes-append [] gs = refl
  writes-append (f ∷ fs) gs = elim (Bool-cases f.written) [
    | inl yes_ ↦ simp (yes_, writes-append fs gs)
    | inr no_ ↦ simp (no_, writes-append fs gs)
  ]

  pub writes_all : (rs : List (Read X)) → writes (map (fate true) rs) ≡ map put_for rs
  unfolding writes
  writes_all [] = refl
  writes_all (r ∷ rs) = ap (λ (l : List (List ℕ × List ℕ)). put_for r ∷ l) (writes_all rs)

  pub writes_none : (rs : List (Read X)) → writes (map (fate false) rs) ≡ []
  unfolding writes
  writes_none [] = refl
  writes_none (r ∷ rs) = writes_none rs

-- `P` is what is known of an entry and the key read for it,
-- `W` what is known of the writes' outcomes.
module _ (io : Io) (deps : Deps (JournalEntry io.Buf)) (laws : DepsLaws (JournalEntry io.Buf) deps)
    (fsync_wal : Bool) (X : Type 0) (item : X → Item io.Buf) (P : X → List ℕ → Type 0)
    (W : Bool → Type 0)
    (outcome : (b : deps.Batch) (d : deps.Db) → W (deps.write_db fsync_wal b d).0)
    (start : List (List ℕ × List ℕ)) where
  open laws use {
    contents, puts, log, read-nil, read-cons, puts-put, puts-clear, log-write_db,
    log-write_db_failed,
  }

  abbrev pub IsRead : Read X → Type 0
  IsRead r = P r.entry r.key

  abbrev pub IsFated : Fate X → Type 0
  IsFated f = P f.entry f.key × W f.written

  abbrev pub CanRead : (ℕ → List ℕ) → X → Type 0
  CanRead memory x = P x (memory (item x).key)

  pub record Fated (memory : ℕ → List ℕ) (done : List (Fate X)) (batched : List (Read X))
      (queued : List X) (j : Journal io.Buf deps) : Type 0 where
    pub acked : j.fulfilled ≡ map (promise_in io X item) (map entry_in done)
    pub written : log j.db ≡ start ++ writes io X item done
    pub unsynced : j.entries_to_sync ≡ map (promise_in io X item) (map entry_read batched)
    pub batch : puts j.write_batch ≡ map (put_for io X item) batched
    pub waiting : contents j.queue ≡ map entry_of (map item queued)
    pub fates : All IsFated done
    pub reads : All IsRead batched
    pub can_read : All (CanRead memory) queued

  -- The write of the batch: all of it, or none of it.
  pub write_lem :
      (done : List (Fate X)) (batched : List (Read X)) (b : deps.Batch) (d : deps.Db)
      → log d ≡ start ++ writes io X item done
      → puts b ≡ map (put_for io X item) batched
      → log (deps.write_db fsync_wal b d).1
        ≡ start ++ writes io X item (done ++ map (fate (deps.write_db fsync_wal b d).0) batched)
  write_lem done batched b d l p = elim (Bool-cases (deps.write_db fsync_wal b d).0) [
    | inl went_well ↦
        log-write_db fsync_wal b d went_well
        ∙ rw
            (
              l,
              p,
              went_well,
              writes-append io X item done (map (fate true) batched),
              writes_all io X item batched,
            )
            (append_assoc start (writes io X item done) (map (put_for io X item) batched))
    | inr failed ↦
        log-write_db_failed fsync_wal b d failed
        ∙ rw (
          l,
          failed,
          writes-append io X item done (map (fate false) batched),
          writes_none io X item batched,
          append-nil (writes io X item done),
        )
  ]
