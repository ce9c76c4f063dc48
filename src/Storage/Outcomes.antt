-- ===== src/Storage/Outcomes.antt =====
-- What holds of the storage when writes of the database fail, however things interleave.
use bookie_cpp.Prelude.{ℕ, ◌≡◌, refl, List, [], ◌∷◌, ◌++◌, map, Bool}
use bookie_cpp.Io.{Io}
use bookie_cpp.Storage.{JournalEntry, Storage}
use bookie_cpp.Storage.Services.{Deps, DepsLaws}
use bookie_cpp.Storage.Tracks.{Item, promise_of}
use bookie_cpp.Storage.Schedules.{Schedule, begins, puts_entry, runs_round, reuses_stack}
use bookie_cpp.Storage.Durable.{IsFresh}
use bookie_cpp.Storage.Stands.{Stands, round-Stands, memory-Stands, put-Stands, fresh-Stands}
use bookie_cpp.Storage.{store_at, key_bytes}
use bookie_cpp.Storage.Fates.{Fate, entry_in, entry_read, All, writes}

abbrev pub same_item : {Buf : Type 0} → Item Buf → Item Buf
same_item i = i

abbrev Anything : {Buf : Type 0} → Item Buf → List ℕ → Type 0
Anything i key = Unit {0}

abbrev Either : Bool → Type 0
Either ok = Unit {0}

module _ (io : Io) (deps : Deps (JournalEntry io.Buf)) (laws : DepsLaws (JournalEntry io.Buf) deps)
    (fsync_wal : Bool) where
  any_read :
      (memory : ℕ → List ℕ) (is : List (Item io.Buf)) → All (λ y. Anything y (memory y.key)) is
  any_read memory [] = tt
  any_read memory (i ∷ is) = (tt, any_read memory is)

  abbrev Stand : List (List ℕ × List ℕ) → List (Item io.Buf) → Storage io.Buf deps → Type 0
  Stand = Stands io deps laws fsync_wal (Item io.Buf) same_item Anything Either (λ b d. tt)

  Schedule-Stands :
      (start : List (List ℕ × List ℕ)) (first : Storage io.Buf deps)
      → Stand start [] first
      → {history : List (Item io.Buf)} {s : Storage io.Buf deps}
      → Schedule io deps fsync_wal first history s
      → Stand start history s
  Schedule-Stands start first st begins = st
  Schedule-Stands start first st (reuses_stack {history = history} {s = s} memory before) =
      let st' = Schedule-Stands start first st before in
      memory-Stands io deps laws fsync_wal (Item io.Buf) same_item Anything Either (λ b d. tt) start
        history s memory st' (any_read memory st'.queued)
  Schedule-Stands start first st (runs_round {history = history} {s = s} j before step) =
      round-Stands io deps laws fsync_wal (Item io.Buf) same_item Anything Either (λ b d. tt) start
        history s j (Schedule-Stands start first st before) step
  Schedule-Stands start first st
        (puts_entry {history = history} {s = s} {s' = s'} frame l e p d before step) =
      let st' = Schedule-Stands start first st before in
      put-Stands io deps laws fsync_wal (Item io.Buf) same_item Anything Either (λ b d. tt) start
        history s s' frame l e p d (λ x. record { key = frame; payload = d; promise = x }) st'
        (λ x. refl) step (any_read (store_at s.memory frame (key_bytes io deps l e)) _)

module _ (io : Io) (deps : Deps (JournalEntry io.Buf)) (laws : DepsLaws (JournalEntry io.Buf) deps)
    (fsync_wal : Bool) where
  -- Whatever the outcomes of the database's writes: from a fresh storage on, under every interleaving of
  -- calls of `put` (the dead read left out), rounds of the journal thread and other code's writes to the
  -- stack, the promises fulfilled are those of the entries queued first, in order, and each of these
  -- entries has either been written once, with its first buffer, or not at all; the database holds what
  -- it held at the start and behind it just the written ones, in the order of the entries.
  pub acked_or_lost :
      (first : Storage io.Buf deps) (history : List (Item io.Buf)) (s : Storage io.Buf deps)
      → IsFresh io deps laws first
      → Schedule io deps fsync_wal first history s
      → (done : List (Fate (Item io.Buf))) × (later : List (Item io.Buf)) × (history
          ≡ map entry_in done ++ later)
        × (s.journal.fulfilled ≡ map promise_of (map entry_in done))
        × (laws.log s.journal.db
            ≡ laws.log first.journal.db ++ writes io (Item io.Buf) same_item done)
  acked_or_lost first history s fresh schedule =
      let st =
        Schedule-Stands io deps laws fsync_wal (laws.log first.journal.db) first
          (fresh-Stands io deps laws fsync_wal (Item io.Buf) same_item Anything Either (λ b d. tt)
            first fresh)
          schedule in
      (st.done, map entry_read st.batched ++ st.queued, st.order, st.stand.acked, st.stand.written)
