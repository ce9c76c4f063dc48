-- ===== src/Storage.antt =====
-- src/Storage.h and src/Storage.cpp: entries are queued by `put`, and one journal thread writes them to
-- the database in batches and fulfils their promises. A promise is a number, and the promises that were
-- fulfilled are listed in order. Timers are counted: a sample for each completed one.
pub mod Services
pub mod Tracks
pub mod Drain
pub mod Puts
pub mod Lists
pub mod Faults
pub mod Schedules
pub mod Durable
pub mod Stops
pub mod Grows
pub mod Opening
pub mod Fates
pub mod Rounds
pub mod Stands
pub mod Outcomes
pub mod Frames
pub mod Keys
pub mod Table
pub mod Found
use bookie_cpp.Prelude.{
  ◌||◌, leb, ltb, take, drop, ◌-◌, ◌+◌, ℕ, suc, ◌+◌, List, [], ◌∷◌, ◌++◌, Option, none, some, Bool,
  true, false, ◌==◌, if◌then◌else◌,
}
use bookie_cpp.Io.{Io, first_segment}
use Services.{Deps}

-- `key` is the address that the Slice points to; it does not own the bytes there.
pub record JournalEntry (Buf : Type 0) : Type 0 where
  pub key : ℕ
  pub payload : Option Buf
  pub promise : Option ℕ

-- The queue and the database, with the local variables of runJournal.
pub record Journal (Buf : Type 0) (deps : Deps (JournalEntry Buf)) : Type 0 where
  pub queue : deps.Queue
  pub db : deps.Db
  pub entries_to_sync : List ℕ
  pub write_batch : deps.Batch
  pub to_sync_count : ℕ
  pub block_for_next_entry : Bool
  pub fulfilled : List ℕ
  pub queue_samples : ℕ
  pub sync_samples : ℕ

-- A thread waits on the queue, goes on, has returned, or has dereferenced a null pointer.
pub data Round (A : Type 0) : Type 0 where
  waits : Round A
  goes_on : A → Round A
  returned : A → Round A
  null_deref : Round A

module _ (io : Io) (deps : Deps (JournalEntry io.Buf)) (fsync_wal : Bool) where
  -- From behind the inner loop to its next start: the batch is written, whatever the status of the
  -- write is, and the promises are fulfilled.
  unfoldable pub sync_batch : Journal io.Buf deps → Journal io.Buf deps
  sync_batch j = elim j.entries_to_sync [
    | [] ↦ record j { to_sync_count = 0 }
    | p ∷ ps ↦ record j {
      db = (deps.write_db fsync_wal j.write_batch j.db).1;
      sync_samples = j.sync_samples + 1;
      fulfilled = j.fulfilled ++ p ∷ ps;
      entries_to_sync = [];
      write_batch = deps.clear j.write_batch;
      to_sync_count = 0;
    }
  ]

  -- An entry with a promise joins the batch. `memory` gives the bytes at an address.
  unfoldable pub batch_entry :
      (ℕ → List ℕ)
      → JournalEntry io.Buf
      → ℕ
      → io.Buf
      → Journal io.Buf deps
      → Round (Journal io.Buf deps)
  unfolding sync_batch
  batch_entry memory e promise payload j =
      let j' = record j {
        queue_samples = j.queue_samples + 1;
        entries_to_sync = j.entries_to_sync ++ promise ∷ [];
        write_batch = deps.put (memory e.key) (first_segment io payload) j.write_batch;
        to_sync_count = j.to_sync_count + 1;
      } in
      if j.to_sync_count == 1000 then goes_on (sync_batch j') else goes_on j'

  unfoldable pub take_entry :
      (ℕ → List ℕ) → JournalEntry io.Buf → Journal io.Buf deps → Round (Journal io.Buf deps)
  unfolding batch_entry
  take_entry memory e j = elim e.promise [
    | none ↦ returned j
    | some promise ↦ elim e.payload [
      | none ↦ null_deref
      | some payload ↦ batch_entry memory e promise payload j
    ]
  ]

  -- One pass through the inner loop.
  unfoldable pub journal_round : (ℕ → List ℕ) → Journal io.Buf deps → Round (Journal io.Buf deps)
  unfolding take_entry
  journal_round memory j = elim (deps.read j.queue) [
    | some (e, q) ↦ take_entry memory e (record j { queue = q; block_for_next_entry = false })
    | none ↦
        if j.block_for_next_entry
        then waits
        else if j.to_sync_count == 0
        then goes_on (record j { block_for_next_entry = true })
        else goes_on (sync_batch (record j { block_for_next_entry = true }))
  ]

-- The memory that callers' stack frames lie in, as the 16 bytes that lie at each address, with the rest of a
-- Storage.
pub record Storage (Buf : Type 0) (deps : Deps (JournalEntry Buf)) : Type 0 where
  pub journal : Journal Buf deps
  pub memory : ℕ → List ℕ
  pub next_promise : ℕ
  pub enqueue_samples : ℕ

-- Keys at two addresses share no byte.
abbrev pub apart : ℕ → ℕ → Bool
apart a b = leb (a + 16) b || leb (b + 16) a

-- What lies at `b` once the 16 bytes of a key are stored at `a`.
abbrev pub store_at : (ℕ → List ℕ) → ℕ → List ℕ → ℕ → List ℕ
store_at memory a bytes b =
    if a == b
    then bytes
    else if apart a b
    then memory b
    else if leb a b
    then drop (b - a) bytes ++ drop (16 - (b - a)) (memory b)
    else take (a - b) (memory b) ++ take (16 - (a - b)) bytes

module _ (io : Io) (deps : Deps (JournalEntry io.Buf)) where
  -- `union Key`: the two numbers, one behind the other.
  unfoldable pub key_bytes : ℕ → ℕ → List ℕ
  key_bytes ledger_id entry_id =
      deps.object_bytes (deps.big ledger_id) ++ deps.object_bytes (deps.big entry_id)

  -- The write of the new entry to the queue, once its key lies at `key`.
  unfoldable pub enqueue : ℕ → io.Buf → Storage io.Buf deps → Round (ℕ × Storage io.Buf deps)
  enqueue key payload s =
      elim (deps.write (record { key = key; payload = some payload; promise = some s.next_promise })
        s.journal.queue) [
          | none ↦ waits
          | some q ↦ goes_on (
            s.next_promise,
            record s {
              journal = record s.journal { queue = q };
              next_promise = suc s.next_promise;
              enqueue_samples = s.enqueue_samples + 1;
            },
          )
        ]

  -- `frame` is where this call's local `key` lies. The local `valueSlice` is read from `data` after
  -- `data` was moved from, and never used: `dead_reads` says whether the compiled code makes that read.
  -- `data` itself is not null: handleAddEntry has asked for its length.
  unfoldable pub put :
      Bool → ℕ → ℕ → ℕ → io.Buf → Storage io.Buf deps → Round (ℕ × Storage io.Buf deps)
  unfolding key_bytes enqueue
  put dead_reads frame ledger_id entry_id payload s =
      if dead_reads
      then null_deref
      else enqueue frame payload
          (record s { memory = store_at s.memory frame (key_bytes ledger_id entry_id) })

  -- The destructor's entry with no promise, which ends the journal thread.
  unfoldable pub close_queue : Journal io.Buf deps → Option (Journal io.Buf deps)
  close_queue j = elim (deps.write (record { key = 0; payload = none; promise = none }) j.queue) [
    | none ↦ none
    | some q ↦ some (record j { queue = q })
  ]
