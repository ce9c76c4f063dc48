-- ===== src/Storage/Schedules.antt =====
-- Calls of `put`, rounds of the journal thread and other code's writes to the stack, in any order.
use bookie_cpp.Prelude.{
  ℕ, suc, ◌+◌, ◌≡◌, refl, sym, ap, subst, ◌∙◌, ◌⊎◌, inl, inr, List, [], ◌∷◌, ◌++◌, map, Bool, true,
  false, length, arith, ◌==◌, Bool-cases,
}
use native.Mathlib.Decide.{dec_le}
use mathlib.Core.List.{append_assoc, append-nil, map-append}
use bookie_cpp.Io.{Io, first_segment}
use bookie_cpp.Storage.{
  JournalEntry, Journal, Storage, Round, waits, goes_on, put, enqueue, key_bytes, store_at,
  sync_batch, journal_round,
}
use bookie_cpp.Storage.Services.{Deps, DepsLaws}
use bookie_cpp.Storage.Tracks.{Item, promise_of, entry_of}

abbrev pub value_of_item : (io : Io) → Item io.Buf → List ℕ
value_of_item io i = first_segment io i.payload

abbrev pub value_of_put : List ℕ × List ℕ → List ℕ
value_of_put p = p.1

pub goes_on_injective : {A : Type 0} (a b : A) → Round.goes_on a ≡ Round.goes_on b → a ≡ b
goes_on_injective a b e = cc

module _ (io : Io) (deps : Deps (JournalEntry io.Buf)) (fsync_wal : Bool) where
  -- What can happen from `first` on, with the entries that were queued on the way.
  pub data Schedule (first : Storage io.Buf deps)
      : List (Item io.Buf) → Storage io.Buf deps → Type 0 where
    begins : Schedule first [] first
    puts_entry :
        {history : List (Item io.Buf)} {s s' : Storage io.Buf deps} (frame ledger_id entry_id p : ℕ)
        (d : io.Buf)
        → Schedule first history s
        → put io deps false frame ledger_id entry_id d s ≡ goes_on (p, s')
        → Schedule first (history ++ (record { key = frame; payload = d; promise = p }) ∷ []) s'
    runs_round :
        {history : List (Item io.Buf)} {s : Storage io.Buf deps} (j : Journal io.Buf deps)
        → Schedule first history s
        → journal_round io deps fsync_wal s.memory s.journal ≡ goes_on j
        → Schedule first history (record s { journal = j })
    reuses_stack :
        {history : List (Item io.Buf)} {s : Storage io.Buf deps} (memory : ℕ → List ℕ)
        → Schedule first history s
        → Schedule first history (record s { memory = memory })

module _ (io : Io) (deps : Deps (JournalEntry io.Buf))
    (laws : DepsLaws (JournalEntry io.Buf) deps) where
  open laws use {contents}

  -- A storage behind a call of `put` that has come back.
  abbrev pub behind_put : ℕ → ℕ → ℕ → deps.Queue → Storage io.Buf deps → Storage io.Buf deps
  behind_put frame l e q s = record s {
    journal = record s.journal { queue = q };
    memory = store_at s.memory frame (key_bytes io deps l e);
    next_promise = suc s.next_promise;
    enqueue_samples = s.enqueue_samples + 1;
  }

  pub put_queues :
      (frame l e p : ℕ) (d : io.Buf) (s s' : Storage io.Buf deps)
      → put io deps false frame l e d s ≡ goes_on (p, s')
      → (q : deps.Queue) × (s.next_promise ≡ p)
        × (behind_put frame l e q s ≡ s')
        × (contents q
            ≡ contents s.journal.queue
              ++ entry_of (record { key = frame; payload = d; promise = s.next_promise }) ∷ [])
  unfolding put
  put_queues frame l e p d s s' run =
      let entry : JournalEntry io.Buf =
        entry_of (record { key = frame; payload = d; promise = s.next_promise }) in
      elim (dec_le laws.capacity (length (contents s.journal.queue))) [
        | yes full ↦
            let stuck : put io deps false frame l e d s ≡ waits =
              rw (laws.write_full entry s.journal.queue full, enqueue) in
            cc
        | no room ↦
            let (q, wrote, grown) = laws.write_room entry s.journal.queue (omega arith) in
            let step : put io deps false frame l e d s
                ≡ goes_on (s.next_promise, behind_put frame l e q s) =
              rw (wrote, enqueue) in
            let same = goes_on_injective _ (p, s') (sym step ∙ run) in
            (
              q,
              ap (λ (x : ℕ × Storage io.Buf deps). x.0) same,
              ap (λ (x : ℕ × Storage io.Buf deps). x.1) same,
              grown,
            )
      ]

module _ (io : Io) (deps : Deps (JournalEntry io.Buf)) (laws : DepsLaws (JournalEntry io.Buf) deps)
    (fsync_wal : Bool)
    (writes_succeed : (b : deps.Batch) (d : deps.Db) → (deps.write_db fsync_wal b d).0 ≡ true)
    (start : List (List ℕ)) where
  open laws use {contents, puts, log, read-nil, read-cons, puts-put, puts-clear, log-write_db}

  -- Where the entries stand, whatever the memory holds.
  pub record Kept (done batched queued : List (Item io.Buf)) (j : Journal io.Buf deps)
      : Type 0 where
    pub acked : j.fulfilled ≡ map promise_of done
    pub written : map value_of_put (log j.db) ≡ start ++ map (value_of_item io) done
    pub unsynced : j.entries_to_sync ≡ map promise_of batched
    pub batch : map value_of_put (puts j.write_batch) ≡ map (value_of_item io) batched
    pub waiting : contents j.queue ≡ map entry_of queued

  sync_batch-Kept :
      (done batched queued : List (Item io.Buf)) (j : Journal io.Buf deps)
      → Kept done batched queued j
      → Kept (done ++ batched) [] queued (sync_batch io deps fsync_wal j)
  unfolding sync_batch
  sync_batch-Kept done [] queued j t =
      rw (t.unsynced, sync_batch, append-nil done)
        (record {
          acked = t.acked;
          written = t.written;
          unsynced = t.unsynced;
          batch = t.batch;
          waiting = t.waiting;
        })
  sync_batch-Kept done (i ∷ is) queued j t =
      rw (t.unsynced, sync_batch)
        (record {
          acked = rw (t.acked, map-append promise_of done (i ∷ is));
          written =
              ap (map value_of_put)
                (log-write_db fsync_wal j.write_batch j.db (writes_succeed j.write_batch j.db))
              ∙ map-append value_of_put (log j.db) (puts j.write_batch)
              ∙ rw (t.written, t.batch, map-append (value_of_item io) done (i ∷ is))
                  (append_assoc start (map (value_of_item io) done)
                    (map (value_of_item io) (i ∷ is)));
          unsynced = refl;
          batch = ap (map value_of_put) (puts-clear j.write_batch);
          waiting = t.waiting;
        })

  flag-Kept :
      (done batched queued : List (Item io.Buf)) (f : Bool) (j : Journal io.Buf deps)
      → Kept done batched queued j
      → Kept done batched queued (record j { block_for_next_entry = f })
  flag-Kept done batched queued f j t = record {
    acked = t.acked;
    written = t.written;
    unsynced = t.unsynced;
    batch = t.batch;
    waiting = t.waiting;
  }

  joined-Kept :
      (done batched queued : List (Item io.Buf)) (i : Item io.Buf) (q : deps.Queue) (key : List ℕ)
      (j : Journal io.Buf deps)
      → Kept done batched (i ∷ queued) j
      → contents q ≡ map entry_of queued
      → Kept done (batched ++ i ∷ []) queued (record j {
        queue = q;
        block_for_next_entry = false;
        queue_samples = j.queue_samples + 1;
        entries_to_sync = j.entries_to_sync ++ i.promise ∷ [];
        write_batch = deps.put key (first_segment io i.payload) j.write_batch;
        to_sync_count = j.to_sync_count + 1;
      })
  joined-Kept done batched queued i q key j t e = record {
    acked = t.acked;
    written = t.written;
    unsynced = rw (t.unsynced, map-append promise_of batched (i ∷ []));
    batch =
        ap (map value_of_put) (puts-put key (first_segment io i.payload) j.write_batch)
        ∙ map-append value_of_put (puts j.write_batch) ((key, first_segment io i.payload) ∷ [])
        ∙ rw (t.batch, map-append (value_of_item io) batched (i ∷ []));
    waiting = e;
  }

  none_moved :
      (done batched queued : List (Item io.Buf)) (j : Journal io.Buf deps)
      → Kept done batched queued j
      → Kept (done ++ []) batched queued j
  none_moved done batched queued j t = rw (append-nil done) t

  -- A round moves entries from the front of those that are not done, and drops and reorders none.
  abbrev pub Moves :
      List (Item io.Buf) → List (Item io.Buf) → (ℕ → List ℕ) → Journal io.Buf deps → Type 0
  Moves done later memory j =
      (j' : Journal io.Buf deps) × (moved : List (Item io.Buf)) × (batched : List (Item io.Buf))
      × (queued : List (Item io.Buf)) × (journal_round io deps fsync_wal memory j ≡ goes_on j')
      × Kept (done ++ moved) batched queued j'
      × (later ≡ moved ++ (batched ++ queued))

  pub journal_round-Moves :
      (done batched queued : List (Item io.Buf)) (memory : ℕ → List ℕ) (j : Journal io.Buf deps)
      → Kept done batched queued j
      → (journal_round io deps fsync_wal memory j ≡ waits) ⊎ Moves done (batched ++ queued) memory j
  unfolding journal_round
  journal_round-Moves done batched [] memory j t =
      let run = read-nil j.queue t.waiting in
      elim (Bool-cases j.block_for_next_entry) [
        | inl blocks ↦ inl (rw (run, journal_round, blocks))
        | inr polls ↦ elim (Bool-cases (j.to_sync_count == 0)) [
          | inl none_yet ↦ inr (
            record j { block_for_next_entry = true },
            [],
            batched,
            [],
            rw (run, journal_round, polls, none_yet),
            none_moved done batched [] _ (flag-Kept done batched [] true j t),
            refl,
          )
          | inr some_yet ↦ inr (
            _,
            batched,
            [],
            [],
            rw (run, journal_round, polls, some_yet),
            sync_batch-Kept done batched [] _ (flag-Kept done batched [] true j t),
            refl,
          )
        ]
      ]
  journal_round-Moves done batched (i ∷ queued) memory j t =
      let (q, run, e) = read-cons j.queue (entry_of i) (map entry_of queued) t.waiting in
      let joined = joined-Kept done batched queued i q (memory i.key) j t e in
      let order : batched ++ i ∷ queued ≡ (batched ++ i ∷ []) ++ queued =
        sym (append_assoc batched (i ∷ []) queued) in
      elim (Bool-cases (j.to_sync_count == 1000)) [
        | inl full ↦ inr (
          _,
          batched ++ i ∷ [],
          [],
          queued,
          rw (run, journal_round, full),
          sync_batch-Kept done (batched ++ i ∷ []) queued _ joined,
          order,
        )
        | inr room ↦ inr (
          _,
          [],
          batched ++ i ∷ [],
          queued,
          rw (run, journal_round, room),
          none_moved done (batched ++ i ∷ []) queued _ joined,
          order,
        )
      ]

  pub put_keeps :
      (done batched queued : List (Item io.Buf)) (frame l e p : ℕ) (d : io.Buf)
      (s s' : Storage io.Buf deps)
      → Kept done batched queued s.journal
      → put io deps false frame l e d s ≡ goes_on (p, s')
      → Kept done batched
          (queued ++ (record { key = frame; payload = d; promise = p }) ∷ [])
          s'.journal
  put_keeps done batched queued frame l e p d s s' t run =
      let (q, next, same, grown) = put_queues io deps laws frame l e p d s s' run in
      let item : Item io.Buf = record { key = frame; payload = d; promise = s.next_promise } in
      subst
        (λ (x : ℕ).
          Kept done batched (queued ++ (record { key = frame; payload = d; promise = x }) ∷ [])
            s'.journal)
        next
        (subst (λ (x : Storage io.Buf deps). Kept done batched (queued ++ item ∷ []) x.journal) same
          (record {
            acked = t.acked;
            written = t.written;
            unsynced = t.unsynced;
            batch = t.batch;
            waiting =
                grown
                ∙ ap (λ (es : List (JournalEntry io.Buf)). es ++ entry_of item ∷ []) t.waiting
                ∙ sym (map-append entry_of queued (item ∷ []));
          }))
