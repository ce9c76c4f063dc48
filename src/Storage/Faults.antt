-- ===== src/Storage/Faults.antt =====
-- A write that the database refuses, and an exit with a batch that is not written yet.
use bookie_cpp.Prelude.{
  ℕ, ◌≡◌, ◌≤◌, ap, ◌∙◌, List, [], ◌∷◌, ◌++◌, map, Bool, true, false, arith, Bool-cases, inl, inr,
  ◌==◌, length, none, some,
}
use mathlib.Core.List.{map-append}
use bookie_cpp.Io.{Io}
use bookie_cpp.Storage.{
  JournalEntry, Journal, goes_on, returned, journal_round, sync_batch, close_queue,
}
use bookie_cpp.Storage.Services.{Deps, DepsLaws}
use bookie_cpp.Storage.Tracks.{Item, promise_of, put_of, AtRound}

module _ (io : Io) (deps : Deps (JournalEntry io.Buf)) (laws : DepsLaws (JournalEntry io.Buf) deps)
    (memory : ℕ → List ℕ) (fsync_wal : Bool) where
  -- The journal thread, with an empty queue and a batch that the database refuses, fulfils every promise
  -- of the batch all the same, forgets the batch, and has written none of it.
  pub refused_write_acks :
      (start : List (List ℕ × List ℕ)) (done : List (Item io.Buf)) (i : Item io.Buf)
      (batched : List (Item io.Buf)) (j : Journal io.Buf deps)
      → AtRound io deps laws memory start done (i ∷ batched) [] j
      → (deps.write_db fsync_wal j.write_batch j.db).0 ≡ false
      → (j' : Journal io.Buf deps) × (journal_round io deps fsync_wal memory j ≡ goes_on j')
        × (j'.fulfilled ≡ map promise_of (done ++ i ∷ batched))
        × (j'.entries_to_sync ≡ [])
        × (laws.puts j'.write_batch ≡ [])
        × (laws.log j'.db ≡ laws.log j.db)
  unfolding journal_round sync_batch
  refused_write_acks start done i batched j r refused =
      let t = r.tracks in
      let run = laws.read-nil j.queue t.waiting in
      let some_wait : (j.to_sync_count == 0) ≡ false = ground (arith, t.counted) in
      elim (Bool-cases j.block_for_next_entry) [
        | inl blocks ↦ cc (r.idle blocks)
        | inr polls ↦ (
          sync_batch io deps fsync_wal (record j { block_for_next_entry = true }),
          rw (run, journal_round, polls, some_wait),
          rw (t.unsynced, sync_batch, t.acked, map-append promise_of done (i ∷ batched)),
          rw (t.unsynced, sync_batch),
          rw (t.unsynced, sync_batch) (laws.puts-clear j.write_batch),
          rw (t.unsynced, sync_batch)
              (laws.log-write_db_failed fsync_wal j.write_batch j.db refused),
        )
      ]

  -- The storage is closed while the queue is empty and a batch is being collected: the journal thread
  -- returns in its next round. What was written and acknowledged is what was before; the promises of the
  -- batch are still with the thread that has returned, and their entries are not written.
  pub exit_drops_batch :
      (start : List (List ℕ × List ℕ)) (done batched : List (Item io.Buf)) (j : Journal io.Buf deps)
      → AtRound io deps laws memory start done batched [] j
      → 1 ≤ laws.capacity
      → (j1 : Journal io.Buf deps) × (j2 : Journal io.Buf deps) × (close_queue io deps j ≡ some j1)
        × (journal_round io deps fsync_wal memory j1 ≡ returned j2)
        × (j2.fulfilled ≡ map promise_of done)
        × (laws.log j2.db ≡ start ++ map (put_of io memory) done)
        × (j2.entries_to_sync ≡ map promise_of batched)
  unfolding journal_round close_queue
  exit_drops_batch start done batched j r room =
      let t = r.tracks in
      let marker : JournalEntry io.Buf = record { key = 0; payload = none; promise = none } in
      let (q, wrote, grown) = laws.write_room marker j.queue (omega (arith, ap length t.waiting)) in
      let (q', run, _) =
        laws.read-cons q marker []
          (grown ∙ ap (λ (es : List (JournalEntry io.Buf)). es ++ marker ∷ []) t.waiting) in
      (
        record j { queue = q },
        record j { queue = q'; block_for_next_entry = false },
        rw (wrote, close_queue),
        rw (run, journal_round),
        t.acked,
        t.written,
        t.unsynced,
      )
