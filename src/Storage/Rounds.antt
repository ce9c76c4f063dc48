-- ===== src/Storage/Rounds.antt =====
-- Rounds of the journal thread and calls of `put` move entries along, each to its fate.
use bookie_cpp.Prelude.{
  ℕ, ◌+◌, ◌≡◌, refl, sym, ap, ◌∙◌, ◌⊎◌, inl, inr, List, [], ◌∷◌, ◌++◌, map, map-map, Bool, true,
  false, ◌==◌, Bool-cases,
}
use mathlib.Core.List.{append_assoc, append-nil, map-append}
use bookie_cpp.Io.{Io, first_segment}
use bookie_cpp.Storage.{JournalEntry, Journal, Storage, waits, goes_on, sync_batch, journal_round}
use bookie_cpp.Storage.Services.{Deps, DepsLaws}
use bookie_cpp.Storage.Tracks.{Item, entry_of}
use bookie_cpp.Storage.Durable.{IsFresh}
use bookie_cpp.Storage.Fates.{
  Read, Fate, fate, entry_in, entry_read, All, All-append, All-map, Fated, write_lem, all_entries,
  writes,
}

module _ (io : Io) (deps : Deps (JournalEntry io.Buf)) (laws : DepsLaws (JournalEntry io.Buf) deps)
    (fsync_wal : Bool) (X : Type 0) (item : X → Item io.Buf) (P : X → List ℕ → Type 0)
    (W : Bool → Type 0)
    (outcome : (b : deps.Batch) (d : deps.Db) → W (deps.write_db fsync_wal b d).0)
    (start : List (List ℕ × List ℕ)) where
  open laws use {contents, read-nil, read-cons, puts-put, puts-clear}

  abbrev promise_at : X → ℕ
  promise_at x = (item x).promise

  abbrev Stand :
      (ℕ → List ℕ) → List (Fate X) → List (Read X) → List X → Journal io.Buf deps → Type 0
  Stand = Fated io deps laws fsync_wal X item P W outcome start

  fate_entry :
      (ok : Bool) (rs : List (Read X)) → map entry_in (map (fate ok) rs) ≡ map entry_read rs
  fate_entry ok rs = map-map entry_in (fate ok) entry_read (λ r. refl) rs

  fated_entries :
      (done : List (Fate X)) (ok : Bool) (rs : List (Read X))
      → map entry_in (done ++ map (fate ok) rs) ≡ map entry_in done ++ map entry_read rs
  fated_entries done ok rs =
      map-append entry_in done (map (fate ok) rs)
      ∙ ap (λ (l : List X). map entry_in done ++ l) (fate_entry ok rs)

  -- A batch meets its fate.
  sync_batch-Fated :
      (memory : ℕ → List ℕ) (done : List (Fate X)) (batched : List (Read X)) (queued : List X)
      (j : Journal io.Buf deps)
      → Stand memory done batched queued j
      → (done' : List (Fate X)) × Stand memory done' [] queued (sync_batch io deps fsync_wal j)
        × (map entry_in done' ≡ map entry_in done ++ map entry_read batched)
  unfolding sync_batch
  sync_batch-Fated memory done [] queued j t = (
    done,
    rw (t.unsynced, sync_batch)
        (record {
          acked = t.acked;
          written = t.written;
          unsynced = t.unsynced;
          batch = t.batch;
          waiting = t.waiting;
          fates = t.fates;
          reads = tt;
          can_read = t.can_read;
        }),
    sym (append-nil (map entry_in done)),
  )
  sync_batch-Fated memory done (r ∷ rs) queued j t =
      let ok = (deps.write_db fsync_wal j.write_batch j.db).0 in
      let entries = fated_entries done ok (r ∷ rs) in
      (
        done ++ map (fate ok) (r ∷ rs),
        rw (t.unsynced, sync_batch)
            (record {
              acked =
                  ap (λ (l : List ℕ). l ++ map promise_at (map entry_read (r ∷ rs))) t.acked
                  ∙ sym (map-append promise_at (map entry_in done) (map entry_read (r ∷ rs)))
                  ∙ sym (ap (map promise_at) entries);
              written =
                  write_lem io deps laws fsync_wal X item P W outcome start done (r ∷ rs)
                    j.write_batch j.db t.written t.batch;
              unsynced = refl;
              batch = puts-clear j.write_batch;
              waiting = t.waiting;
              fates =
                  All-append _ done (map (fate ok) (r ∷ rs)) t.fates (
                    All-map _ _ (fate ok) (λ r p. (p, outcome j.write_batch j.db)) (r ∷ rs)
                      t.reads);
              reads = tt;
              can_read = t.can_read;
            }),
        entries,
      )

  flag-Fated :
      (memory : ℕ → List ℕ) (done : List (Fate X)) (batched : List (Read X)) (queued : List X)
      (f : Bool) (j : Journal io.Buf deps)
      → Stand memory done batched queued j
      → Stand memory done batched queued (record j { block_for_next_entry = f })
  flag-Fated memory done batched queued f j t = record {
    acked = t.acked;
    written = t.written;
    unsynced = t.unsynced;
    batch = t.batch;
    waiting = t.waiting;
    fates = t.fates;
    reads = t.reads;
    can_read = t.can_read;
  }

  joined-Fated :
      (memory : ℕ → List ℕ) (done : List (Fate X)) (batched : List (Read X)) (queued : List X)
      (x : X) (q : deps.Queue) (j : Journal io.Buf deps)
      → Stand memory done batched (x ∷ queued) j
      → contents q ≡ map entry_of (map item queued)
      → Stand memory done
          (batched ++ (record { entry = x; key = memory (item x).key }) ∷ [])
          queued
          (record j {
            queue = q;
            block_for_next_entry = false;
            queue_samples = j.queue_samples + 1;
            entries_to_sync = j.entries_to_sync ++ (item x).promise ∷ [];
            write_batch =
                deps.put (memory (item x).key) (first_segment io (item x).payload) j.write_batch;
            to_sync_count = j.to_sync_count + 1;
          })
  joined-Fated memory done batched queued x q j t e =
      let r : Read X = record { entry = x; key = memory (item x).key } in
      record {
        acked = t.acked;
        written = t.written;
        unsynced =
            ap (λ (l : List ℕ). l ++ promise_at x ∷ []) t.unsynced
            ∙ sym (map-append promise_at (map entry_read batched) (x ∷ []))
            ∙ ap (map promise_at) (sym (map-append entry_read batched (r ∷ [])));
        batch =
            puts-put r.key (first_segment io (item x).payload) j.write_batch
            ∙ rw (t.batch) (sym (map-append _ batched (r ∷ [])));
        waiting = e;
        fates = t.fates;
        reads = All-append _ batched (r ∷ []) t.reads (t.can_read.0, tt);
        can_read = t.can_read.1;
      }

  -- A round moves entries, and drops and reorders none.
  abbrev pub Fates :
      (ℕ → List ℕ) → List (Fate X) → List (Read X) → List X → Journal io.Buf deps → Type 0
  Fates memory done batched queued j =
      (j' : Journal io.Buf deps) × (done' : List (Fate X)) × (batched' : List (Read X))
      × (queued' : List X) × (journal_round io deps fsync_wal memory j ≡ goes_on j')
      × Stand memory done' batched' queued' j'
      × (all_entries done batched queued ≡ all_entries done' batched' queued')

  entries_of_sync :
      (done done' : List (Fate X)) (batched : List (Read X)) (queued : List X)
      → map entry_in done' ≡ map entry_in done ++ map entry_read batched
      → all_entries done batched queued ≡ all_entries done' [] queued
  entries_of_sync done done' batched queued e =
      sym (append_assoc (map entry_in done) (map entry_read batched) queued)
      ∙ ap (λ (l : List X). l ++ queued) (sym e)

  entries_of_join :
      (done : List (Fate X)) (batched : List (Read X)) (r : Read X) (queued : List X)
      → all_entries done batched (r.entry ∷ queued) ≡ all_entries done (batched ++ r ∷ []) queued
  entries_of_join done batched r queued =
      ap (λ (l : List X). map entry_in done ++ l)
        (sym (append_assoc (map entry_read batched) (r.entry ∷ []) queued)
          ∙ ap (λ (l : List X). l ++ queued) (sym (map-append entry_read batched (r ∷ []))))

  pub journal_round-Fates :
      (memory : ℕ → List ℕ) (done : List (Fate X)) (batched : List (Read X)) (queued : List X)
      (j : Journal io.Buf deps)
      → Stand memory done batched queued j
      → (journal_round io deps fsync_wal memory j ≡ waits) ⊎ Fates memory done batched queued j
  unfolding journal_round
  journal_round-Fates memory done batched [] j t =
      let run = read-nil j.queue t.waiting in
      let flagged = flag-Fated memory done batched [] true j t in
      elim (Bool-cases j.block_for_next_entry) [
        | inl blocks ↦ inl (rw (run, journal_round, blocks))
        | inr polls ↦ elim (Bool-cases (j.to_sync_count == 0)) [
          | inl none_yet ↦
              inr (_, done, batched, [], rw (run, journal_round, polls, none_yet), flagged, refl)
          | inr some_yet ↦
              let (done', t', e) = sync_batch-Fated memory done batched [] _ flagged in
              inr (
                _,
                done',
                [],
                [],
                rw (run, journal_round, polls, some_yet),
                t',
                entries_of_sync done done' batched [] e,
              )
        ]
      ]
  journal_round-Fates memory done batched (x ∷ queued) j t =
      let (q, run, e) =
        read-cons j.queue (entry_of (item x)) (map entry_of (map item queued)) t.waiting in
      let r : Read X = record { entry = x; key = memory (item x).key } in
      let joined = joined-Fated memory done batched queued x q j t e in
      elim (Bool-cases (j.to_sync_count == 1000)) [
        | inl full ↦
            let (done', t', e') =
              sync_batch-Fated memory done (batched ++ r ∷ []) queued _ joined in
            inr (
              _,
              done',
              [],
              queued,
              rw (run, journal_round, full),
              t',
              entries_of_join done batched r queued
                  ∙ entries_of_sync done done' (batched ++ r ∷ []) queued e',
            )
        | inr room ↦ inr (
          _,
          done,
          batched ++ r ∷ [],
          queued,
          rw (run, journal_round, room),
          joined,
          entries_of_join done batched r queued,
        )
      ]

  -- A call of `put` that has come back, and whatever has become of the memory.
  pub put-Fated :
      (memory memory' : ℕ → List ℕ) (done : List (Fate X)) (batched : List (Read X))
      (queued : List X) (x : X) (q : deps.Queue) (j : Journal io.Buf deps)
      → Stand memory done batched queued j
      → contents q ≡ contents j.queue ++ entry_of (item x) ∷ []
      → All (λ y. P y (memory' (item y).key)) (queued ++ x ∷ [])
      → Stand memory' done batched (queued ++ x ∷ []) (record j { queue = q })
  put-Fated memory memory' done batched queued x q j t grown reads = record {
    acked = t.acked;
    written = t.written;
    unsynced = t.unsynced;
    batch = t.batch;
    waiting =
        grown
        ∙ ap (λ (es : List (JournalEntry io.Buf)). es ++ entry_of (item x) ∷ []) t.waiting
        ∙ sym (map-append entry_of (map item queued) (item x ∷ []))
        ∙ ap (map entry_of) (sym (map-append item queued (x ∷ [])));
    fates = t.fates;
    reads = t.reads;
    can_read = reads;
  }

  pub memory-Fated :
      (memory memory' : ℕ → List ℕ) (done : List (Fate X)) (batched : List (Read X))
      (queued : List X) (j : Journal io.Buf deps)
      → Stand memory done batched queued j
      → All (λ y. P y (memory' (item y).key)) queued
      → Stand memory' done batched queued j
  memory-Fated memory memory' done batched queued j t reads = record {
    acked = t.acked;
    written = t.written;
    unsynced = t.unsynced;
    batch = t.batch;
    waiting = t.waiting;
    fates = t.fates;
    reads = t.reads;
    can_read = reads;
  }

  pub entries_of_put :
      (done : List (Fate X)) (batched : List (Read X)) (queued : List X) (x : X)
      → all_entries done batched queued ++ x ∷ [] ≡ all_entries done batched (queued ++ x ∷ [])
  entries_of_put done batched queued x =
      append_assoc (map entry_in done) (map entry_read batched ++ queued) (x ∷ [])
      ∙ ap (λ (l : List X). map entry_in done ++ l)
          (append_assoc (map entry_read batched) queued (x ∷ []))

module _ (io : Io) (deps : Deps (JournalEntry io.Buf)) (laws : DepsLaws (JournalEntry io.Buf) deps)
    (fsync_wal : Bool) (X : Type 0) (item : X → Item io.Buf) (P : X → List ℕ → Type 0)
    (W : Bool → Type 0)
    (outcome : (b : deps.Batch) (d : deps.Db) → W (deps.write_db fsync_wal b d).0) where
  pub fresh-Fated :
      (first : Storage io.Buf deps)
      → IsFresh io deps laws first
      → Fated io deps laws fsync_wal X item P W outcome
          (laws.log first.journal.db)
          first.memory
          []
          []
          []
          first.journal
  unfolding writes
  fresh-Fated first fresh = record {
    acked = fresh.acked;
    written = sym (append-nil (laws.log first.journal.db));
    unsynced = fresh.unsynced;
    batch = fresh.batch;
    waiting = fresh.waiting;
    fates = tt;
    reads = tt;
    can_read = tt;
  }
