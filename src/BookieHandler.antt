-- ===== src/BookieHandler.antt =====
-- src/BookieHandler.cpp, with Bookie::addEntry of src/Bookie.cpp: what becomes of a request, and the
-- answer that its future writes. The latency metric is counted: a sample for each persisted entry.
pub mod Reads
pub mod Peers
pub mod Answers
pub mod EndToEnd
pub mod Schedules
pub mod Durability
pub mod Lookups
use bookie_cpp.Prelude.{ℕ, ◌+◌, List, [], ◌∷◌, ◌++◌, Option, none, some, Bool, ◌==◌, if◌then◌else◌}
use bookie_cpp.Io.{Io}
use bookie_cpp.Protocol.{Request, Response, BookieOperation, BookieError}
use bookie_cpp.Storage.{JournalEntry, Storage, Round, waits, goes_on, returned, null_deref, put}
use bookie_cpp.Storage.Services.{Deps}

-- A future with its continuations, which hold the ids.
pub record Waiting : Type 0 where
  pub promise : ℕ
  pub ledger_id : ℕ
  pub entry_id : ℕ

-- The storage and a connection to the bookie, with what was written to it.
pub record Connection (Buf : Type 0) (deps : Deps (JournalEntry Buf)) : Type 0 where
  pub storage : Storage Buf deps
  pub waiting : List Waiting
  pub written : List (Response Buf)
  pub add_samples : ℕ

module _ (io : Io) (deps : Deps (JournalEntry io.Buf)) where
  -- Bookie::addEntry.
  unfoldable pub add_entry :
      Bool → ℕ → ℕ → ℕ → io.Buf → Storage io.Buf deps → Round (ℕ × Storage io.Buf deps)
  add_entry = put io deps

  -- The continuations of the future are attached to it.
  unfoldable pub attach :
      Request io.Buf
      → Connection io.Buf deps
      → Round (ℕ × Storage io.Buf deps)
      → Round (Connection io.Buf deps)
  attach request c waits = waits
  attach request c (goes_on (p, s)) = goes_on (record c {
    storage = s;
    waiting =
        c.waiting
        ++ (record { promise = p; ledger_id = request.ledger_id; entry_id = request.entry_id })
          ∷ [];
  })
  attach request c (returned (p, s)) = returned (record c { storage = s })
  attach request c null_deref = null_deref

  -- The length of the data is read first.
  unfoldable pub handle_add_entry :
      Bool → ℕ → Request io.Buf → Connection io.Buf deps → Round (Connection io.Buf deps)
  unfolding add_entry attach
  handle_add_entry dead_reads frame request c = elim request.payload [
    | none ↦ null_deref
    | some d ↦
        attach request c (add_entry dead_reads frame request.ledger_id request.entry_id d c.storage)
  ]

  -- The body is empty.
  unfoldable pub handle_read_entry :
      Request io.Buf → Connection io.Buf deps → Connection io.Buf deps
  handle_read_entry request c = c

  unfoldable pub read_as :
      BookieOperation
      → Bool
      → ℕ
      → Request io.Buf
      → Connection io.Buf deps
      → Round (Connection io.Buf deps)
  unfolding handle_add_entry handle_read_entry
  read_as BookieOperation.add_entry dead_reads frame request c =
      handle_add_entry dead_reads frame request c
  read_as BookieOperation.read_entry dead_reads frame request c =
      goes_on (handle_read_entry request c)
  read_as BookieOperation.auth dead_reads frame request c = goes_on c
  read_as (BookieOperation.other b) dead_reads frame request c = goes_on c

  unfoldable pub read :
      Bool → ℕ → Request io.Buf → Connection io.Buf deps → Round (Connection io.Buf deps)
  unfolding read_as
  read dead_reads frame request c = read_as request.op_code dead_reads frame request c

  -- One request after the other, each with the frame that its call of `put` has.
  unfoldable pub read_all :
      Bool → List (ℕ × Request io.Buf) → Connection io.Buf deps → Round (Connection io.Buf deps)
  read_all dead_reads [] c = goes_on c
  read_all dead_reads ((frame, request) ∷ rest) c = elim (read dead_reads frame request c) [
    | goes_on c' ↦ read_all dead_reads rest c'
    | waits ↦ waits
    | returned c' ↦ returned c'
    | null_deref ↦ null_deref
  ]

  -- The answers of the two continuations.
  unfoldable pub answer : BookieError → ℕ → ℕ → Response io.Buf
  answer code ledger_id entry_id = record {
    protocol_version = 2;
    op_code = BookieOperation.add_entry;
    error_code = code;
    ledger_id = ledger_id;
    entry_id = entry_id;
    payload = none;
  }

  unfoldable pub persisted : Waiting → Connection io.Buf deps → Connection io.Buf deps
  unfolding answer
  persisted w c = record c {
    written = c.written ++ answer BookieError.ok w.ledger_id w.entry_id ∷ [];
    add_samples = c.add_samples + 1;
  }

  unfoldable pub failed_to_persist : Waiting → Connection io.Buf deps → Connection io.Buf deps
  unfolding answer
  failed_to_persist w c = record c {
    written = c.written ++ answer BookieError.io_error w.ledger_id w.entry_id ∷ [];
  }

  -- The future of a promise, and the others.
  unfoldable pub find_waiting : ℕ → List Waiting → Option (Waiting × List Waiting)
  find_waiting p [] = none
  find_waiting p (w ∷ ws) =
      let rest = find_waiting p ws in
      if w.promise == p
      then some (w, ws)
      else elim rest [ none ↦ none | some (v, vs) ↦ some (v, w ∷ vs) ]

  -- A promise that is fulfilled runs `then` of its future. `onError`, above, is for one that is destroyed
  -- unfulfilled.
  unfoldable pub fulfil : ℕ → Connection io.Buf deps → Connection io.Buf deps
  unfolding find_waiting persisted
  fulfil p c = elim (find_waiting p c.waiting) [
    | none ↦ c
    | some (w, ws) ↦ persisted w (record c { waiting = ws })
  ]

  unfoldable pub fulfil_all : List ℕ → Connection io.Buf deps → Connection io.Buf deps
  unfolding fulfil
  fulfil_all [] c = c
  fulfil_all (p ∷ ps) c = fulfil_all ps (fulfil p c)
