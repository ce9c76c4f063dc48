-- ===== src/Storage/Durable.antt =====
-- What holds of the storage however calls of `put`, rounds of the journal thread and other code interleave.
use bookie_cpp.Prelude.{
  ℕ, ◌≡◌, refl, sym, ap, subst, ◌∙◌, inl, inr, List, [], ◌∷◌, ◌++◌, map, Bool, true, false,
}
use mathlib.Core.List.{append_assoc, append-nil}
use bookie_cpp.Io.{Io}
use bookie_cpp.Storage.{JournalEntry, Journal, Storage, goes_on, put, journal_round}
use bookie_cpp.Storage.Services.{Deps, DepsLaws}
use bookie_cpp.Storage.Tracks.{Item, promise_of}
use bookie_cpp.Storage.Schedules.{
  Schedule, begins, puts_entry, runs_round, reuses_stack, Kept, journal_round-Moves, put_keeps,
  goes_on_injective, value_of_item, value_of_put,
}

module _ (io : Io) (deps : Deps (JournalEntry io.Buf)) (laws : DepsLaws (JournalEntry io.Buf) deps)
    (fsync_wal : Bool)
    (writes_succeed : (b : deps.Batch) (d : deps.Db) → (deps.write_db fsync_wal b d).0 ≡ true)
    (start : List (List ℕ)) where
  abbrev IsKept :
      List (Item io.Buf) → List (Item io.Buf) → List (Item io.Buf) → Journal io.Buf deps → Type 0
  IsKept = Kept io deps laws fsync_wal writes_succeed start

  -- Where the entries stand, whatever the memory holds.
  record Stands (history : List (Item io.Buf)) (j : Journal io.Buf deps) : Type 0 where
    done : List (Item io.Buf)
    batched : List (Item io.Buf)
    queued : List (Item io.Buf)
    kept : IsKept done batched queued j
    order : history ≡ done ++ (batched ++ queued)

  round-Stands :
      (history : List (Item io.Buf)) (s : Storage io.Buf deps) (j : Journal io.Buf deps)
      → Stands history s.journal
      → journal_round io deps fsync_wal s.memory s.journal ≡ goes_on j
      → Stands history j
  round-Stands history s j st step =
      elim (journal_round-Moves io deps laws fsync_wal writes_succeed start st.done st.batched
        st.queued s.memory s.journal st.kept) [
          | inl stops ↦ cc
          | inr (j', moved, batched, queued, goes, t, e) ↦ record {
            done = st.done ++ moved;
            batched = batched;
            queued = queued;
            kept =
                subst (IsKept (st.done ++ moved) batched queued)
                  (goes_on_injective j' j (sym goes ∙ step)) t;
            order =
                st.order
                ∙ ap (λ (l : List (Item io.Buf)). st.done ++ l) e
                ∙ sym (append_assoc st.done moved (batched ++ queued));
          }
        ]

  put-Stands :
      (history : List (Item io.Buf)) (s s' : Storage io.Buf deps) (frame l e p : ℕ) (d : io.Buf)
      → Stands history s.journal
      → put io deps false frame l e d s ≡ goes_on (p, s')
      → Stands (history ++ (record { key = frame; payload = d; promise = p }) ∷ []) s'.journal
  put-Stands history s s' frame l e p d st step =
      let item : Item io.Buf = record { key = frame; payload = d; promise = p } in
      let regroup : (st.batched ++ st.queued) ++ item ∷ []
          ≡ st.batched ++ (st.queued ++ item ∷ []) =
        append_assoc st.batched st.queued (item ∷ []) in
      record {
        done = st.done;
        batched = st.batched;
        queued = st.queued ++ item ∷ [];
        kept =
            put_keeps io deps laws fsync_wal writes_succeed start st.done st.batched st.queued frame
              l e p d s s' st.kept step;
        order =
            ap (λ (h : List (Item io.Buf)). h ++ item ∷ []) st.order
            ∙ append_assoc st.done (st.batched ++ st.queued) (item ∷ [])
            ∙ ap (λ (h : List (Item io.Buf)). st.done ++ h) regroup;
      }

  Schedule-Stands :
      (first : Storage io.Buf deps)
      → IsKept [] [] [] first.journal
      → {history : List (Item io.Buf)} {s : Storage io.Buf deps}
      → Schedule io deps fsync_wal first history s
      → Stands history s.journal
  Schedule-Stands first fresh begins = record {
    done = [];
    batched = [];
    queued = [];
    kept = fresh;
    order = refl;
  }
  Schedule-Stands first fresh (reuses_stack memory before) = Schedule-Stands first fresh before
  Schedule-Stands first fresh (runs_round {history = history} {s = s} j before step) =
      round-Stands history s j (Schedule-Stands first fresh before) step
  Schedule-Stands first fresh
        (puts_entry {history = history} {s = s} {s' = s'} frame l e p d before step) =
      put-Stands history s s' frame l e p d (Schedule-Stands first fresh before) step

-- A storage that has done nothing yet: an empty queue and batch, and no promises.
pub record IsFresh (io : Io) (deps : Deps (JournalEntry io.Buf))
    (laws : DepsLaws (JournalEntry io.Buf) deps) (s : Storage io.Buf deps) : Type 0 where
  pub acked : s.journal.fulfilled ≡ []
  pub unsynced : s.journal.entries_to_sync ≡ []
  pub batch : laws.puts s.journal.write_batch ≡ []
  pub waiting : laws.contents s.journal.queue ≡ []

module _ (io : Io) (deps : Deps (JournalEntry io.Buf)) (laws : DepsLaws (JournalEntry io.Buf) deps)
    (fsync_wal : Bool)
    (writes_succeed : (b : deps.Batch) (d : deps.Db) → (deps.write_db fsync_wal b d).0 ≡ true) where
  open laws use {log}

  fresh-Stands :
      (first : Storage io.Buf deps) (history : List (Item io.Buf)) (s : Storage io.Buf deps)
      → IsFresh io deps laws first
      → Schedule io deps fsync_wal first history s
      → Stands io deps laws fsync_wal writes_succeed
          (map value_of_put (log first.journal.db))
          history
          s.journal
  fresh-Stands first history s fresh schedule =
      Schedule-Stands io deps laws fsync_wal writes_succeed
        (map value_of_put (log first.journal.db)) first
        (record {
          acked = fresh.acked;
          written = sym (append-nil _);
          unsynced = fresh.unsynced;
          batch = ap (map value_of_put) fresh.batch;
          waiting = fresh.waiting;
        })
        schedule

  -- If every write of the database succeeds, then from a fresh storage on, whatever calls of `put` are
  -- made, whatever rounds the journal thread runs between them and whatever other code writes over the
  -- stack, at every moment the promises fulfilled are those of the entries queued first, in order, and the
  -- values written since the start are the first buffers of just these entries, in order: nothing is
  -- acknowledged that is not written, nothing is written twice, and nothing is passed over.
  pub acked_are_written :
      (first : Storage io.Buf deps) (history : List (Item io.Buf)) (s : Storage io.Buf deps)
      → IsFresh io deps laws first
      → Schedule io deps fsync_wal first history s
      → (done : List (Item io.Buf)) × (later : List (Item io.Buf)) × (history ≡ done ++ later)
        × (s.journal.fulfilled ≡ map promise_of done)
        × (map value_of_put (laws.log s.journal.db)
            ≡ map value_of_put (laws.log first.journal.db) ++ map (value_of_item io) done)
  acked_are_written first history s fresh schedule =
      let st = fresh-Stands first history s fresh schedule in
      (st.done, st.batched ++ st.queued, st.order, st.kept.acked, st.kept.written)
