-- ===== src/Storage/Tracks.antt =====
-- Where each entry stands: written and acknowledged, in the batch, or in the queue. The journal thread
-- moves entries along in order, and drops, repeats and invents none.
use bookie_cpp.Prelude.{
  ℕ, ◌+◌, ◌≤◌, ◌≡◌, refl, sym, ap, ◌∙◌, ◌⊎◌, inl, inr, List, [], ◌∷◌, ◌++◌, map, some, Bool, true,
  false, length, length-append, arith, Bool-cases, ◌==◌,
}
use mathlib.Core.List.{append_assoc, append-nil, map-append}
use bookie_cpp.Io.{Io, first_segment}
use bookie_cpp.Storage.{JournalEntry, Journal, waits, goes_on, sync_batch, journal_round}
use bookie_cpp.Storage.Services.{Deps, DepsLaws}

-- An entry that `put` has queued.
pub record Item (Buf : Type 0) : Type 0 where
  pub key : ℕ
  pub payload : Buf
  pub promise : ℕ

abbrev pub entry_of : {Buf : Type 0} → Item Buf → JournalEntry Buf
entry_of i = record { key = i.key; payload = some i.payload; promise = some i.promise }

abbrev pub promise_of : {Buf : Type 0} → Item Buf → ℕ
promise_of i = i.promise

-- An entry with its ids.
pub record Add (Buf : Type 0) : Type 0 where
  pub item : Item Buf
  pub ledger_id : ℕ
  pub entry_id : ℕ

abbrev pub item_of : {Buf : Type 0} → Add Buf → Item Buf
item_of a = a.item

-- What the batch is given for an entry.
abbrev pub put_of : (io : Io) → (ℕ → List ℕ) → Item io.Buf → List ℕ × List ℕ
put_of io memory i = (memory i.key, first_segment io i.payload)

module _ (io : Io) (deps : Deps (JournalEntry io.Buf)) (laws : DepsLaws (JournalEntry io.Buf) deps)
    (memory : ℕ → List ℕ) where
  open laws use {contents, puts, log}

  -- `done` has been written and acknowledged, behind the puts that the database began with.
  pub record Tracks (start : List (List ℕ × List ℕ)) (done batched queued : List (Item io.Buf))
      (j : Journal io.Buf deps) : Type 0 where
    pub acked : j.fulfilled ≡ map promise_of done
    pub written : log j.db ≡ start ++ map (put_of io memory) done
    pub unsynced : j.entries_to_sync ≡ map promise_of batched
    pub batch : puts j.write_batch ≡ map (put_of io memory) batched
    pub waiting : contents j.queue ≡ map entry_of queued
    pub counted : j.to_sync_count ≡ length batched

  -- The same at the start of a round: the batch has room, and a thread that is about to block has
  -- nothing unwritten.
  pub record AtRound (start : List (List ℕ × List ℕ)) (done batched queued : List (Item io.Buf))
      (j : Journal io.Buf deps) : Type 0 where
    pub tracks : Tracks start done batched queued j
    pub small : length batched ≤ 1000
    pub idle : j.block_for_next_entry ≡ true → batched ≡ []

module _ (io : Io) (deps : Deps (JournalEntry io.Buf)) (laws : DepsLaws (JournalEntry io.Buf) deps)
    (memory : ℕ → List ℕ) (fsync_wal : Bool)
    (writes_succeed : (b : deps.Batch) (d : deps.Db) → (deps.write_db fsync_wal b d).0 ≡ true)
    (start : List (List ℕ × List ℕ)) where
  open laws use {contents, puts, log, read-nil, read-cons, puts-put, puts-clear, log-write_db}

  abbrev Stands :
      List (Item io.Buf) → List (Item io.Buf) → List (Item io.Buf) → Journal io.Buf deps → Type 0
  Stands = Tracks io deps laws memory start

  abbrev Ready :
      List (Item io.Buf) → List (Item io.Buf) → List (Item io.Buf) → Journal io.Buf deps → Type 0
  Ready = AtRound io deps laws memory start

  -- What a batch holds is written and acknowledged, all of it.
  sync_batch-Tracks :
      (done batched queued : List (Item io.Buf)) (j : Journal io.Buf deps)
      → Stands done batched queued j
      → Stands (done ++ batched) [] queued (sync_batch io deps fsync_wal j)
  unfolding sync_batch
  sync_batch-Tracks done [] queued j t =
      rw (t.unsynced, sync_batch)
        (record {
          acked = t.acked ∙ ap (map promise_of) (sym (append-nil done));
          written =
              t.written
              ∙ ap (λ (l : List (Item io.Buf)). start ++ map (put_of io memory) l)
                  (sym (append-nil done));
          unsynced = t.unsynced;
          batch = t.batch;
          waiting = t.waiting;
          counted = refl;
        })
  sync_batch-Tracks done (i ∷ is) queued j t =
      rw (t.unsynced, sync_batch)
        (record {
          acked = rw (t.acked, map-append promise_of done (i ∷ is));
          written =
              log-write_db fsync_wal j.write_batch j.db (writes_succeed j.write_batch j.db)
              ∙ rw (t.written, t.batch, map-append (put_of io memory) done (i ∷ is))
                  (append_assoc start (map (put_of io memory) done)
                    (map (put_of io memory) (i ∷ is)));
          unsynced = refl;
          batch = puts-clear j.write_batch;
          waiting = t.waiting;
          counted = refl;
        })

  -- The next entry of the queue joins the batch.
  joined-Tracks :
      (done batched queued : List (Item io.Buf)) (i : Item io.Buf) (q : deps.Queue)
      (j : Journal io.Buf deps)
      → Stands done batched (i ∷ queued) j
      → contents q ≡ map entry_of queued
      → Stands done (batched ++ i ∷ []) queued (record j {
        queue = q;
        block_for_next_entry = false;
        queue_samples = j.queue_samples + 1;
        entries_to_sync = j.entries_to_sync ++ i.promise ∷ [];
        write_batch = deps.put (memory i.key) (first_segment io i.payload) j.write_batch;
        to_sync_count = j.to_sync_count + 1;
      })
  joined-Tracks done batched queued i q j t e = record {
    acked = t.acked;
    written = t.written;
    unsynced = rw (t.unsynced, map-append promise_of batched (i ∷ []));
    batch =
        puts-put (memory i.key) (first_segment io i.payload) j.write_batch
        ∙ rw (t.batch, map-append (put_of io memory) batched (i ∷ []));
    waiting = e;
    counted = omega (arith, t.counted, length-append batched (i ∷ []));
  }

  flag-Tracks :
      (done batched queued : List (Item io.Buf)) (f : Bool) (j : Journal io.Buf deps)
      → Stands done batched queued j
      → Stands done batched queued (record j { block_for_next_entry = f })
  flag-Tracks done batched queued f j t = record {
    acked = t.acked;
    written = t.written;
    unsynced = t.unsynced;
    batch = t.batch;
    waiting = t.waiting;
    counted = t.counted;
  }

  sync_batch_keeps_flag :
      (es : List ℕ) (j : Journal io.Buf deps)
      → j.entries_to_sync ≡ es
      → (sync_batch io deps fsync_wal j).block_for_next_entry ≡ j.block_for_next_entry
  unfolding sync_batch
  sync_batch_keeps_flag [] j e = rw (e, sync_batch)
  sync_batch_keeps_flag (p ∷ ps) j e = rw (e, sync_batch)

  -- A round with an entry in the queue takes it, and the batch stays at 1000 entries or is written.
  pub round_takes :
      (done batched queued : List (Item io.Buf)) (i : Item io.Buf) (j : Journal io.Buf deps)
      → Ready done batched (i ∷ queued) j
      → (j' : Journal io.Buf deps) × (done' : List (Item io.Buf)) × (batched' : List (Item io.Buf))
        × (journal_round io deps fsync_wal memory j ≡ goes_on j')
        × Ready done' batched' queued j'
        × (done' ++ batched' ≡ done ++ (batched ++ i ∷ []))
  unfolding journal_round
  round_takes done batched queued i j r =
      let t = r.tracks in
      let (q, run, e) = read-cons j.queue (entry_of i) (map entry_of queued) t.waiting in
      let joined = joined-Tracks done batched queued i q j t e in
      elim (Bool-cases (j.to_sync_count == 1000)) [
        | inl full ↦ (
          _,
          done ++ (batched ++ i ∷ []),
          [],
          rw (run, journal_round, full),
          record {
            tracks = sync_batch-Tracks done (batched ++ i ∷ []) queued _ joined;
            small = omega arith;
            idle = λ _. refl;
          },
          append-nil _,
        )
        | inr room ↦ (
          _,
          done,
          batched ++ i ∷ [],
          rw (run, journal_round, room),
          record {
            tracks = joined;
            small = ground (arith, t.counted, r.small, length-append batched (i ∷ []));
            idle = λ h. cc;
          },
          refl,
        )
      ]

  -- A round with an empty queue waits, and then the batch is empty, or it writes what is in the batch
  -- and the next one waits.
  pub round_empty :
      (done batched : List (Item io.Buf)) (j : Journal io.Buf deps)
      → Ready done batched [] j
      → ((journal_round io deps fsync_wal memory j ≡ waits) × (batched ≡ []))
        ⊎ ((j' : Journal io.Buf deps) × (journal_round io deps fsync_wal memory j ≡ goes_on j')
            × Ready (done ++ batched) [] [] j'
            × (j'.block_for_next_entry ≡ true))
  unfolding journal_round
  round_empty done [] j r =
      let t = r.tracks in
      let run = read-nil j.queue t.waiting in
      elim (Bool-cases j.block_for_next_entry) [
        | inl blocks ↦ inl (rw (run, journal_round, blocks), refl)
        | inr polls ↦ inr (
          record j { block_for_next_entry = true },
          rw (run, journal_round, polls, t.counted),
          rw (append-nil done) (record {
            tracks = flag-Tracks done [] [] true j t;
            small = omega arith;
            idle = λ _. refl;
          }),
          refl,
        )
      ]
  round_empty done (b ∷ bs) j r =
      let t = r.tracks in
      let run = read-nil j.queue t.waiting in
      let unwritten : (j.to_sync_count == 0) ≡ false = ground (arith, t.counted) in
      elim (Bool-cases j.block_for_next_entry) [
        | inl blocks ↦ cc (r.idle blocks)
        | inr polls ↦ inr (
          sync_batch io deps fsync_wal (record j { block_for_next_entry = true }),
          rw (run, journal_round, polls, unwritten),
          record {
            tracks = sync_batch-Tracks done (b ∷ bs) [] _ (flag-Tracks done (b ∷ bs) [] true j t);
            small = omega arith;
            idle = λ _. refl;
          },
          sync_batch_keeps_flag _ (record j { block_for_next_entry = true }) refl,
        )
      ]

  pub round_blocks :
      (done batched : List (Item io.Buf)) (j : Journal io.Buf deps)
      → Ready done batched [] j
      → j.block_for_next_entry ≡ true
      → journal_round io deps fsync_wal memory j ≡ waits
  unfolding journal_round
  round_blocks done batched j r blocks =
      rw (read-nil j.queue r.tracks.waiting, journal_round, blocks)
