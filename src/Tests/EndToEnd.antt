-- ===== src/Tests/EndToEnd.antt =====
-- An add of "ab" as entry 9 of ledger 7.
use bookie_cpp.Prelude.{
  ℕ, ◌≤◌, ◌≡◌, refl, List, [], ◌∷◌, map, some, true, false, drop, concat, arith,
}
use mathlib.Core.List.{append-nil}
use bookie_cpp.Io.{first_segment}
use bookie_cpp.Io.Laws.{bytes}
use bookie_cpp.Io.Lists.{list_io, list_io_laws}
use bookie_cpp.Protocol.{Request, BookieOperation}
use bookie_cpp.Codec.{fired}
use bookie_cpp.Codec.Server.{server_read, server_write}
use bookie_cpp.Codec.Client.{client_read, client_write}
use bookie_cpp.Codec.RoundTrip.{IsDecoder, IsRequest}
use bookie_cpp.Storage.{JournalEntry, Journal, goes_on, waits, journal_round}
use bookie_cpp.Storage.Services.{Deps}
use bookie_cpp.Storage.Lists.{list_deps, list_deps_laws}
use bookie_cpp.Storage.Drain.{rounds}
use bookie_cpp.BookieHandler.{Connection, read_all, fulfil_all}
use bookie_cpp.BookieHandler.Reads.{ok_for}
use bookie_cpp.BookieHandler.Answers.{second}
use bookie_cpp.BookieHandler.EndToEnd.{add_returns}

abbrev Chain : Type 0
Chain = List (List ℕ)

abbrev deps : Deps (JournalEntry Chain)
deps = list_deps true (JournalEntry Chain)

abbrev decode : Chain → Chain
decode b = drop 4 (concat b) ∷ []

decode-IsDecoder : IsDecoder list_io decode
decode-IsDecoder b counted fits = append-nil (drop 4 (concat b))

abbrev connection : Connection Chain deps
connection = record {
  storage = record {
    journal = record {
      queue = [];
      db = [];
      entries_to_sync = [];
      write_batch = [];
      to_sync_count = 0;
      block_for_next_entry = true;
      fulfilled = [];
      queue_samples = 0;
      sync_samples = 0;
    };
    memory = λ a. [];
    next_promise = 5;
    enqueue_samples = 0;
  };
  waiting = [];
  written = [];
  add_samples = 0;
}

abbrev add : Request Chain
add = record {
  protocol_version = 2;
  op_code = BookieOperation.add_entry;
  ledger_id = 7;
  entry_id = 9;
  flags = 0;
  payload = some ((0x61 ∷ 0x62 ∷ []) ∷ []);
}

add-IsRequest : IsRequest add
add-IsRequest = record {
  header = record { version_fits = omega arith; op_known = tt; flags_fit = omega arith };
  ledger_fits = omega arith;
  entry_fits = omega arith;
}

add_returns_example :
    (b : Chain) × (d : Chain) × (request : Request Chain) × (c' : Connection Chain deps) × (n : ℕ)
    × (j : Journal Chain deps) × (b' : Chain) × (client_write list_io add ≡ fired b)
    × (server_read list_io add (some (decode b)) ≡ fired request)
    × (request.payload ≡ some d)
    × (bytes list_io d ≡ 0x61 ∷ 0x62 ∷ [])
    × (read_all list_io deps false ((3, request) ∷ []) connection ≡ goes_on c')
    × (n ≤ 2)
    × (rounds list_io deps true c'.storage.memory n c'.storage.journal ≡ goes_on j)
    × (journal_round list_io deps true c'.storage.memory j ≡ waits)
    × (map second j.db ≡ first_segment list_io d ∷ [])
    × ((fulfil_all list_io deps j.fulfilled c').written ≡ ok_for 7 9 ∷ [])
    × (server_write list_io (ok_for 7 9) ≡ fired b')
    × (client_read list_io (ok_for 0 0) (some (decode b')) ≡ fired (ok_for 7 9))
add_returns_example =
    add_returns list_io list_io_laws decode decode-IsDecoder deps
      (list_deps_laws true (JournalEntry Chain)) true (λ b d. refl) add add
      ((0x61 ∷ 0x62 ∷ []) ∷ []) (ok_for 0 0) 3 connection [] add-IsRequest refl refl refl
      (omega arith) (omega arith)
      (record {
        tracks = record {
          acked = refl;
          written = refl;
          unsynced = refl;
          batch = refl;
          waiting = refl;
          counted = refl;
        };
        small = omega arith;
        idle = λ _. refl;
      })
      refl
