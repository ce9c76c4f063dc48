-- ===== src/Storage/Keys.antt =====
-- Each entry is written under its own key, as long as no one writes over the frame that it lies in.
use bookie_cpp.Prelude.{
  ℕ, ◌≡◌, refl, sym, ap, subst, ◌∙◌, List, [], ◌∷◌, ◌++◌, map, map-map, Bool, true, arith,
}
use bookie_cpp.Io.{Io, first_segment}
use bookie_cpp.Storage.{apart, JournalEntry, Storage, store_at, key_bytes}
use bookie_cpp.Storage.Services.{Deps, DepsLaws}
use bookie_cpp.Storage.Tracks.{Add, item_of, promise_of, entry_of}
use bookie_cpp.Storage.Puts.{key_of, key_bytes-key_of}
use bookie_cpp.Storage.Durable.{IsFresh}
use bookie_cpp.Storage.Stands.{Stands, round-Stands, memory-Stands, put-Stands, fresh-Stands}
use bookie_cpp.Storage.Fates.{Fate, entry_in, entry_read, All, All-append, IsFated, writes}
use bookie_cpp.Storage.Frames.{Careful, begins, puts_entry, runs_round, reuses_stack, IsSpared}

-- The key that was read for an entry is the one of its ids.
abbrev HasKey : {Buf : Type 0} → Add Buf → List ℕ → Type 0
HasKey a key = key ≡ key_of a.ledger_id a.entry_id

abbrev WentWell : Bool → Type 0
WentWell ok = ok ≡ true

-- How the database holds an entry: under its own key, with its first buffer.
abbrev pub stored_as : (io : Io) → Add io.Buf → List ℕ × List ℕ
stored_as io a = (key_of a.ledger_id a.entry_id, first_segment io a.item.payload)

store_other :
    (memory : ℕ → List ℕ) (a b : ℕ) (bytes : List ℕ)
    → apart a b ≡ true
    → store_at memory a bytes b ≡ memory b
store_other memory a b bytes n = ground arith

store_same : (memory : ℕ → List ℕ) (a : ℕ) (bytes : List ℕ) → store_at memory a bytes a ≡ bytes
store_same memory a bytes = ground arith

module _ (io : Io) (deps : Deps (JournalEntry io.Buf)) (laws : DepsLaws (JournalEntry io.Buf) deps)
    (fsync_wal : Bool)
    (writes_succeed : (b : deps.Batch) (d : deps.Db) → (deps.write_db fsync_wal b d).0 ≡ true)
    (start : List (List ℕ × List ℕ)) where
  open laws use {contents}

  abbrev Stand : List (Add io.Buf) → Storage io.Buf deps → Type 0
  Stand = Stands io deps laws fsync_wal (Add io.Buf) item_of HasKey WentWell writes_succeed start

  abbrev HoldsKeys : (ℕ → List ℕ) → List (Add io.Buf) → Type 0
  HoldsKeys memory = All (λ a. HasKey a (memory a.item.key))

  keys_stay :
      (memory memory' : ℕ → List ℕ) (queued : List (Add io.Buf))
      → All
          (λ (e : JournalEntry io.Buf). memory' e.key ≡ memory e.key)
          (map entry_of (map item_of queued))
      → HoldsKeys memory queued
      → HoldsKeys memory' queued
  keys_stay memory memory' [] agree holds = tt
  keys_stay memory memory' (a ∷ queued) (same, agree) (its, holds) =
      (same ∙ its, keys_stay memory memory' queued agree holds)

  spared_agree :
      (memory : ℕ → List ℕ) (frame : ℕ) (bytes : List ℕ) (es : List (JournalEntry io.Buf))
      → All (λ (e : JournalEntry io.Buf). apart frame e.key ≡ true) es
      → All (λ (e : JournalEntry io.Buf). store_at memory frame bytes e.key ≡ memory e.key) es
  spared_agree memory frame bytes [] spared = tt
  spared_agree memory frame bytes (e ∷ es) (away, spared) =
      (store_other memory frame e.key bytes away, spared_agree memory frame bytes es spared)

  -- The keys of the queued entries and of one more, behind its call of `put`.
  keys_of_put :
      (memory : ℕ → List ℕ) (a : Add io.Buf) (q : deps.Queue) (queued : List (Add io.Buf))
      → contents q ≡ map entry_of (map item_of queued)
      → IsSpared io deps laws fsync_wal a.item.key q
      → HoldsKeys memory queued
      → HoldsKeys
          (store_at memory a.item.key (key_bytes io deps a.ledger_id a.entry_id))
          (queued ++ a ∷ [])
  keys_of_put memory a q queued waiting spared holds =
      let bytes = key_bytes io deps a.ledger_id a.entry_id in
      let memory' = store_at memory a.item.key bytes in
      let old : HoldsKeys memory' queued =
        keys_stay memory memory' queued
          (subst (All (λ (x : JournalEntry io.Buf). memory' x.key ≡ memory x.key)) waiting
            (spared_agree memory a.item.key bytes (contents q) spared))
          holds in
      let new : HoldsKeys memory' (a ∷ []) = (
        store_same memory a.item.key bytes ∙ key_bytes-key_of io deps laws a.ledger_id a.entry_id,
        tt,
      ) in
      All-append _ queued (a ∷ []) old new

  Careful-Stands :
      (first : Storage io.Buf deps)
      → Stand [] first
      → {history : List (Add io.Buf)} {s : Storage io.Buf deps}
      → Careful io deps laws fsync_wal first history s
      → Stand history s
  Careful-Stands first st begins = st
  Careful-Stands first st (reuses_stack {history = history} {s = s} memory before agree) =
      let st' = Careful-Stands first st before in
      memory-Stands io deps laws fsync_wal (Add io.Buf) item_of HasKey WentWell writes_succeed start
        history s memory st'
        (keys_stay s.memory memory st'.queued
          (subst (All (λ (x : JournalEntry io.Buf). memory x.key ≡ s.memory x.key))
            st'.stand.waiting agree)
          st'.stand.can_read)
  Careful-Stands first st (runs_round {history = history} {s = s} j before step) =
      round-Stands io deps laws fsync_wal (Add io.Buf) item_of HasKey WentWell writes_succeed start
        history s j (Careful-Stands first st before) step
  Careful-Stands first st
        (puts_entry {history = history} {s = s} {s' = s'} frame l e p d before spared step) =
      let st' = Careful-Stands first st before in
      let add : ℕ → Add io.Buf = λ x. record {
        item = record { key = frame; payload = d; promise = x };
        ledger_id = l;
        entry_id = e;
      } in
      put-Stands io deps laws fsync_wal (Add io.Buf) item_of HasKey WentWell writes_succeed start
        history s s' frame l e p d add st' (λ x. refl) step
        (keys_of_put s.memory (add s.next_promise) s.journal.queue st'.queued st'.stand.waiting
          spared st'.stand.can_read)

  writes-stored_as :
      (done : List (Fate (Add io.Buf)))
      → All
          (IsFated io deps laws fsync_wal (Add io.Buf) item_of HasKey WentWell writes_succeed start)
          done
      → writes io (Add io.Buf) item_of done ≡ map (stored_as io) (map entry_in done)
  unfolding writes
  writes-stored_as [] all = refl
  writes-stored_as (f ∷ fs) ((key, well), all) = rw well (
      ap
        (λ (k : List ℕ).
          (k, first_segment io f.entry.item.payload) ∷ writes io (Add io.Buf) item_of fs)
        key
      ∙ ap (λ (l : List (List ℕ × List ℕ)). stored_as io f.entry ∷ l) (writes-stored_as fs all))

module _ (io : Io) (deps : Deps (JournalEntry io.Buf)) (laws : DepsLaws (JournalEntry io.Buf) deps)
    (fsync_wal : Bool)
    (writes_succeed : (b : deps.Batch) (d : deps.Db) → (deps.write_db fsync_wal b d).0 ≡ true) where
  -- If every write of the database succeeds and the frame of each queued key is left alone until the
  -- journal thread has taken its entry, then from a fresh storage on, however calls of `put` (the dead
  -- read left out), rounds and other writes to the stack interleave, the promises fulfilled are those of
  -- the entries queued first, in order, and the database has got just these entries, in order, each under
  -- the key of its ids and with its first buffer.
  pub acked_under_their_keys :
      (first : Storage io.Buf deps) (history : List (Add io.Buf)) (s : Storage io.Buf deps)
      → IsFresh io deps laws first
      → Careful io deps laws fsync_wal first history s
      → (done : List (Add io.Buf)) × (later : List (Add io.Buf)) × (history ≡ done ++ later)
        × (s.journal.fulfilled ≡ map promise_of (map item_of done))
        × (laws.log s.journal.db ≡ laws.log first.journal.db ++ map (stored_as io) done)
  acked_under_their_keys first history s fresh careful =
      let start = laws.log first.journal.db in
      let st =
        Careful-Stands io deps laws fsync_wal writes_succeed start first
          (fresh-Stands io deps laws fsync_wal (Add io.Buf) item_of HasKey WentWell writes_succeed
            first fresh)
          careful in
      (
        map entry_in st.done,
        map entry_read st.batched ++ st.queued,
        st.order,
        st.stand.acked ∙ sym (map-map promise_of item_of _ (λ a. refl) (map entry_in st.done)),
        st.stand.written
            ∙ ap (λ (l : List (List ℕ × List ℕ)). start ++ l)
                (writes-stored_as io deps laws fsync_wal writes_succeed start st.done
                  st.stand.fates),
      )
