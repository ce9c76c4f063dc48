-- ===== src/Storage/Stops.antt =====
-- The journal thread's loop does not spin.
use bookie_cpp.Prelude.{
  ℕ, zero, suc, ◌+◌, ◌≤◌, ◌≡◌, refl, ap, ◌∙◌, ◌⊎◌, inl, inr, List, [], ◌∷◌, ◌++◌, Bool, true, false,
  length, arith, ◌==◌, Bool-cases, Option-cases,
}
use bookie_cpp.Io.{Io, first_segment}
use bookie_cpp.Storage.{
  JournalEntry, Journal, Round, waits, goes_on, returned, null_deref, sync_batch, batch_entry,
  take_entry, journal_round,
}
use bookie_cpp.Storage.Services.{Deps, DepsLaws}
use bookie_cpp.Storage.Drain.{rounds}

-- The thread has stopped: it waits for an entry, it has returned, or it has crashed.
abbrev pub IsStopped : {A : Type 0} → Round A → Type 0
IsStopped waits = Unit {0}
IsStopped (goes_on a) = ⊥
IsStopped (returned a) = Unit {0}
IsStopped null_deref = Unit {0}

module _ (io : Io) (deps : Deps (JournalEntry io.Buf)) (laws : DepsLaws (JournalEntry io.Buf) deps)
    (memory : ℕ → List ℕ) (fsync_wal : Bool) where
  open laws use {contents, read-nil, read-cons}

  sync_batch_keeps :
      (es : List ℕ) (j : Journal io.Buf deps)
      → j.entries_to_sync ≡ es
      → ((sync_batch io deps fsync_wal j).queue ≡ j.queue)
        × ((sync_batch io deps fsync_wal j).block_for_next_entry ≡ j.block_for_next_entry)
  unfolding sync_batch
  sync_batch_keeps [] j e = (rw (e, sync_batch), rw (e, sync_batch))
  sync_batch_keeps (p ∷ ps) j e = (rw (e, sync_batch), rw (e, sync_batch))

  batch_entry_keeps :
      (e : JournalEntry io.Buf) (p : ℕ) (d : io.Buf) (j : Journal io.Buf deps)
      → (j' : Journal io.Buf deps) × (batch_entry io deps fsync_wal memory e p d j ≡ goes_on j')
        × (j'.queue ≡ j.queue)
  unfolding batch_entry
  batch_entry_keeps e p d j =
      let joined : Journal io.Buf deps = record j {
        queue_samples = j.queue_samples + 1;
        entries_to_sync = j.entries_to_sync ++ p ∷ [];
        write_batch = deps.put (memory e.key) (first_segment io d) j.write_batch;
        to_sync_count = j.to_sync_count + 1;
      } in
      elim (Bool-cases (j.to_sync_count == 1000)) [
        | inl full ↦
            (sync_batch io deps fsync_wal joined, rw full, (sync_batch_keeps _ joined refl).0)
        | inr room ↦ (joined, rw room, refl)
      ]

  -- A round that has taken an entry from the queue stops, or leaves the rest of the queue.
  take_entry_keeps :
      (e : JournalEntry io.Buf) (j : Journal io.Buf deps)
      → IsStopped (take_entry io deps fsync_wal memory e j)
        ⊎ ((j' : Journal io.Buf deps) × (take_entry io deps fsync_wal memory e j ≡ goes_on j')
            × (j'.queue ≡ j.queue))
  unfolding take_entry
  take_entry_keeps e j = elim (Option-cases e.promise) [
    | inl none_there ↦ inl (rw (none_there, take_entry) tt)
    | inr (p, promised) ↦ elim (Option-cases e.payload) [
      | inl none_there ↦ inl (rw (promised, none_there, take_entry) tt)
      | inr (d, holds) ↦
          let (j', run, same) = batch_entry_keeps e p d j in
          inr (j', simp (promised, holds, take_entry, run), same)
    ]
  ]

  rounds_next :
      (n : ℕ) (j j' : Journal io.Buf deps)
      → journal_round io deps fsync_wal memory j ≡ goes_on j'
      → IsStopped (rounds io deps fsync_wal memory n j')
      → IsStopped (rounds io deps fsync_wal memory (suc n) j)
  unfolding rounds
  rounds_next n j j' e h = rw (e, rounds) h

  rounds_end :
      (n : ℕ) (j : Journal io.Buf deps)
      → IsStopped (journal_round io deps fsync_wal memory j)
      → IsStopped (rounds io deps fsync_wal memory (suc n) j)
  unfolding rounds
  rounds_end n j h =
      elim (journal_round io deps fsync_wal memory j)
          as (λ r.
            IsStopped r
            → IsStopped (elim r [
              | goes_on j' ↦ rounds io deps fsync_wal memory n j'
              | waits ↦ waits
              | returned j' ↦ returned j'
              | null_deref ↦ null_deref
            ])) [
              | goes_on j' ↦ λ s. absurd s
              | waits ↦ λ s. tt
              | returned j' ↦ λ s. tt
              | null_deref ↦ λ s. tt
            ]
        h

  -- An empty queue stops the thread at once, or in the round after the next.
  empty_stops :
      (n : ℕ) (j : Journal io.Buf deps)
      → contents j.queue ≡ []
      → IsStopped (rounds io deps fsync_wal memory (suc (suc n)) j)
  unfolding journal_round
  empty_stops n j empty = elim (Bool-cases j.block_for_next_entry) [
    | inl blocks ↦ rounds_end (suc n) j (blocking j empty blocks)
    | inr polls ↦
        let blocked : Journal io.Buf deps = record j { block_for_next_entry = true } in
        let (same, flag) = sync_batch_keeps _ blocked refl in
        elim (Bool-cases (j.to_sync_count == 0)) [
          | inl nothing ↦
              rounds_next (suc n) j blocked
                (rw (read-nil j.queue empty, journal_round, polls, nothing))
                (rounds_end n blocked (blocking blocked empty refl))
          | inr some_there ↦
              rounds_next (suc n) j (sync_batch io deps fsync_wal blocked)
                (rw (read-nil j.queue empty, journal_round, polls, some_there))
                (rounds_end n _ (blocking _ (ap contents same ∙ empty) flag))
        ]
  ]
    where
      blocking :
          (i : Journal io.Buf deps)
          → contents i.queue ≡ []
          → i.block_for_next_entry ≡ true
          → IsStopped (journal_round io deps fsync_wal memory i)
      blocking i e b = rw (read-nil i.queue e, journal_round, b) tt

  -- Whatever the entries, the batch and the outcomes of the database's writes, while nothing joins the
  -- queue the journal thread stops within one round for each entry of the queue and two more: it waits
  -- for an entry, has returned or has crashed.
  pub rounds_stop :
      (es : List (JournalEntry io.Buf)) (n : ℕ) (j : Journal io.Buf deps)
      → contents j.queue ≡ es
      → length es + 2 ≤ n
      → IsStopped (rounds io deps fsync_wal memory n j)
  unfolding journal_round
  rounds_stop es zero j holds h = absurd (omega arith)
  rounds_stop es (suc zero) j holds h = absurd (omega arith)
  rounds_stop [] (suc (suc n)) j holds h = empty_stops n j holds
  rounds_stop (e ∷ es) (suc (suc n)) j holds h =
      let (q, run, left) = read-cons j.queue e es holds in
      let took : Journal io.Buf deps = record j { queue = q; block_for_next_entry = false } in
      let step : journal_round io deps fsync_wal memory j
          ≡ take_entry io deps fsync_wal memory e took =
        rw (run, journal_round) in
      elim (take_entry_keeps e took) [
        | inl stops ↦ rounds_end (suc n) j (rw step stops)
        | inr (j', goes, same) ↦
            rounds_next (suc n) j j' (step ∙ goes)
              (rounds_stop es (suc n) j' (ap contents same ∙ left) (omega arith))
      ]
