-- ===== src/Tests/BookieHandler.antt =====
-- A connection over lists (Io/Lists, Storage/Lists).
use bookie_cpp.Prelude.{ℕ, ◌≤◌, ◌≡◌, refl, List, [], ◌∷◌, map, none, some, true, false, arith}
use bookie_cpp.Io.Lists.{list_io}
use bookie_cpp.Protocol.{Request, BookieOperation}
use bookie_cpp.Storage.{JournalEntry, Journal, goes_on, waits, journal_round}
use bookie_cpp.Storage.Services.{Deps}
use bookie_cpp.Storage.Lists.{list_deps, list_deps_laws}
use bookie_cpp.Storage.Tracks.{AtRound}
use bookie_cpp.Storage.Drain.{rounds}
use bookie_cpp.BookieHandler.{Connection, read_all, fulfil_all}
use bookie_cpp.BookieHandler.Reads.{ok_for}
use bookie_cpp.BookieHandler.Answers.{second, adds_answered}

abbrev pub Chain : Type 0
Chain = List (List ℕ)

abbrev pub deps : Deps (JournalEntry Chain)
deps = list_deps true (JournalEntry Chain)

abbrev pub connection : Connection Chain deps
connection = record {
  storage = record {
    journal = record {
      queue = [];
      db = [];
      entries_to_sync = [];
      write_batch = [];
      to_sync_count = 0;
      block_for_next_entry = true;
      fulfilled = [];
      queue_samples = 0;
      sync_samples = 0;
    };
    memory = λ a. [];
    next_promise = 5;
    enqueue_samples = 0;
  };
  waiting = [];
  written = [];
  add_samples = 0;
}

abbrev pub add : ℕ → Chain → Request Chain
add entry payload = record {
  protocol_version = 2;
  op_code = BookieOperation.add_entry;
  ledger_id = 7;
  entry_id = entry;
  flags = 0;
  payload = some payload;
}

abbrev read_request : Request Chain
read_request = record (add 8 []) { op_code = BookieOperation.read_entry; payload = none }

-- An add, a read of what it added, and another add, by one thread at one depth of its stack.
abbrev pub requests : List (ℕ × Request Chain)
requests = (3, add 8 ((0x61 ∷ []) ∷ [])) ∷ (3, read_request) ∷ (3, add 9 ((0x62 ∷ []) ∷ [])) ∷ []

pub connection-AtRound :
    AtRound list_io deps
      (list_deps_laws true (JournalEntry Chain))
      connection.storage.memory
      []
      []
      []
      []
      connection.storage.journal
connection-AtRound = record {
  tracks = record {
    acked = refl;
    written = refl;
    unsynced = refl;
    batch = refl;
    waiting = refl;
    counted = refl;
  };
  small = omega arith;
  idle = λ _. refl;
}

adds_answered_example :
    (c' : Connection Chain deps) × (n : ℕ) × (j : Journal Chain deps) × (read_all list_io deps false
        requests connection
      ≡ goes_on c')
    × (n ≤ 4)
    × (rounds list_io deps true c'.storage.memory n c'.storage.journal ≡ goes_on j)
    × (journal_round list_io deps true c'.storage.memory j ≡ waits)
    × (map second j.db ≡ (0x61 ∷ []) ∷ (0x62 ∷ []) ∷ [])
    × ((fulfil_all list_io deps j.fulfilled c').written ≡ ok_for 7 8 ∷ ok_for 7 9 ∷ [])
    × ((fulfil_all list_io deps j.fulfilled c').waiting ≡ [])
adds_answered_example =
    adds_answered list_io deps (list_deps_laws true (JournalEntry Chain)) [] true (λ b d. refl)
      requests connection ((_, refl), (_, ((_, refl), _))) (omega arith) connection-AtRound refl
