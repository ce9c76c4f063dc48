-- ===== src/BookieHandler/Schedules.antt =====
-- Requests, rounds of the journal thread and answers of one connection, in any order.
use bookie_cpp.Prelude.{
  ℕ, ◌≡◌, ◌≢◌, refl, sym, subst, inl, inr, List, [], ◌∷◌, ◌++◌, some, Bool, false, arith,
  Option-cases,
}
use bookie_cpp.Io.{Io}
use bookie_cpp.Protocol.{Request, BookieOperation}
use bookie_cpp.Storage.{
  JournalEntry, Journal, Storage, Round, goes_on, waits, returned, put, enqueue, journal_round,
}
use bookie_cpp.Storage.Services.{Deps}
use bookie_cpp.Storage.Tracks.{Add}
use bookie_cpp.Storage.Schedules.{goes_on_injective}
use bookie_cpp.BookieHandler.{
  Waiting, Connection, add_entry, attach, handle_add_entry, handle_read_entry, read_as, read,
  fulfil,
}
use bookie_cpp.BookieHandler.Reads.{is_add}

abbrev pub future_of : {Buf : Type 0} → Add Buf → Waiting
future_of a = record { promise = a.item.promise; ledger_id = a.ledger_id; entry_id = a.entry_id }

module _ (io : Io) (deps : Deps (JournalEntry io.Buf)) (fsync_wal : Bool) where
  -- What can happen on a connection from `first` on, with the adds that were read and the promises whose
  -- fulfilment has reached the event loop. It gets there in the order of the fulfilments.
  pub data Session (first : Connection io.Buf deps)
      : List (Add io.Buf) → List ℕ → Connection io.Buf deps → Type 0 where
    opens : Session first [] [] first
    reads_add :
        {adds : List (Add io.Buf)} {delivered : List ℕ} {c c' : Connection io.Buf deps} (frame : ℕ)
        (r : Request io.Buf) (d : io.Buf)
        → Session first adds delivered c
        → r.op_code ≡ BookieOperation.add_entry
        → r.payload ≡ some d
        → read io deps false frame r c ≡ goes_on c'
        → Session first
            (adds
              ++ (record {
                item = record { key = frame; payload = d; promise = c.storage.next_promise };
                ledger_id = r.ledger_id;
                entry_id = r.entry_id;
              })
                ∷ [])
            delivered
            c'
    reads_other :
        {adds : List (Add io.Buf)} {delivered : List ℕ} {c c' : Connection io.Buf deps} (frame : ℕ)
        (r : Request io.Buf)
        → Session first adds delivered c
        → is_add r.op_code ≡ false
        → read io deps false frame r c ≡ goes_on c'
        → Session first adds delivered c'
    runs :
        {adds : List (Add io.Buf)} {delivered : List ℕ} {c : Connection io.Buf deps}
        (j : Journal io.Buf deps)
        → Session first adds delivered c
        → journal_round io deps fsync_wal c.storage.memory c.storage.journal ≡ goes_on j
        → Session first adds delivered (record c { storage = record c.storage { journal = j } })
    delivers :
        {adds : List (Add io.Buf)} {delivered : List ℕ} {c : Connection io.Buf deps} (p : ℕ)
        (later : List ℕ)
        → Session first adds delivered c
        → c.storage.journal.fulfilled ≡ delivered ++ p ∷ later
        → Session first adds (delivered ++ p ∷ []) (fulfil io deps p c)
    reuses :
        {adds : List (Add io.Buf)} {delivered : List ℕ} {c : Connection io.Buf deps}
        (memory : ℕ → List ℕ)
        → Session first adds delivered c
        → Session first adds delivered (record c { storage = record c.storage { memory = memory } })

module _ (io : Io) (deps : Deps (JournalEntry io.Buf)) where
  -- A call of `put` that comes back has queued its entry under the next promise.
  put_promise :
      (frame l e : ℕ) (d : io.Buf) (s s' : Storage io.Buf deps) (p : ℕ)
      → put io deps false frame l e d s ≡ goes_on (p, s')
      → s.next_promise ≡ p
  unfolding put enqueue
  put_promise frame l e d s s' p run =
      elim (Option-cases (
        deps.write (record { key = frame; payload = some d; promise = some s.next_promise })
          s.journal.queue)) [
            | inl full ↦ cc (rw (full, enqueue) at run)
            | inr (q, wrote) ↦ cc (rw (wrote, enqueue) at run)
          ]

  -- What attaching the continuations has done.
  attach_lem :
      (r : Request io.Buf) (c c' : Connection io.Buf deps)
      (result : Round (ℕ × Storage io.Buf deps))
      → ((x : ℕ × Storage io.Buf deps) → result ≢ returned x)
      → attach io deps r c result ≡ goes_on c'
      → (p : ℕ) × (s : Storage io.Buf deps) × (result ≡ goes_on (p, s))
        × (record c {
          storage = s;
          waiting =
              c.waiting
              ++ (record { promise = p; ledger_id = r.ledger_id; entry_id = r.entry_id }) ∷ [];
        }
            ≡ c')
  unfolding attach
  attach_lem r c c' waits n e = cc
  attach_lem r c c' (goes_on (p, s)) n e = (p, s, refl, goes_on_injective _ c' e)
  attach_lem r c c' (returned x) n e = absurd (n x refl)
  attach_lem r c c' Round.null_deref n e = cc

  put_never_returns :
      (frame l e : ℕ) (d : io.Buf) (s : Storage io.Buf deps) (x : ℕ × Storage io.Buf deps)
      → put io deps false frame l e d s ≢ returned x
  unfolding put enqueue
  put_never_returns frame l e d s x run =
      elim (Option-cases (
        deps.write (record { key = frame; payload = some d; promise = some s.next_promise })
          s.journal.queue)) [
            | inl full ↦ cc (rw (full, enqueue) at run)
            | inr (q, wrote) ↦ cc (rw (wrote, enqueue) at run)
          ]

  -- What a read of an add has done.
  pub read_add_lem :
      (frame : ℕ) (r : Request io.Buf) (d : io.Buf) (c c' : Connection io.Buf deps)
      → r.op_code ≡ BookieOperation.add_entry
      → r.payload ≡ some d
      → read io deps false frame r c ≡ goes_on c'
      → (s : Storage io.Buf deps) × (put io deps false frame r.ledger_id r.entry_id d c.storage
          ≡ goes_on (c.storage.next_promise, s))
        × (record c {
          storage = s;
          waiting =
              c.waiting
              ++ (record {
                promise = c.storage.next_promise;
                ledger_id = r.ledger_id;
                entry_id = r.entry_id;
              })
                ∷ [];
        }
            ≡ c')
  unfolding read read_as handle_add_entry add_entry
  read_add_lem frame r d c c' op has e =
      let called : attach io deps r c (put io deps false frame r.ledger_id r.entry_id d c.storage)
          ≡ goes_on c' =
        simp (op, has, read_as, handle_add_entry) at e in
      let (p, s, run, same) =
        attach_lem r c c' (put io deps false frame r.ledger_id r.entry_id d c.storage)
          (put_never_returns frame r.ledger_id r.entry_id d c.storage) called in
      let next = put_promise frame r.ledger_id r.entry_id d c.storage s p run in
      (
        s,
        subst
            (λ (n : ℕ). put io deps false frame r.ledger_id r.entry_id d c.storage ≡ goes_on (n, s))
            (sym next) run,
        subst
            (λ (n : ℕ).
              record c {
                storage = s;
                waiting =
                    c.waiting
                    ++ (record { promise = n; ledger_id = r.ledger_id; entry_id = r.entry_id })
                      ∷ [];
              }
              ≡ c')
            (sym next) same,
      )

  pub read_other_lem :
      (op : BookieOperation) (frame : ℕ) (r : Request io.Buf) (c c' : Connection io.Buf deps)
      → is_add op ≡ false
      → read_as io deps op false frame r c ≡ goes_on c'
      → c ≡ c'
  unfolding read_as handle_read_entry
  read_other_lem op frame r c c' no_add e = ground arith
