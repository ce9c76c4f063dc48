-- ===== src/Tests/Durability.antt =====
-- An add, two rounds of the journal thread, the arrival of its fulfilment, and a read request.
use bookie_cpp.Prelude.{
  arith, length, ◌<◌, ◌+◌, ℕ, ◌≡◌, refl, List, [], ◌∷◌, ◌++◌, map, some, true, false,
}
use bookie_cpp.Io.Lists.{list_io}
use bookie_cpp.Protocol.{Request}
use bookie_cpp.Storage.{JournalEntry, Journal, goes_on, journal_round, store_at, key_bytes, put}
use bookie_cpp.Storage.Lists.{list_deps_laws}
use bookie_cpp.Storage.Schedules.{value_of_put}
use bookie_cpp.Storage.Durable.{IsFresh}
use bookie_cpp.BookieHandler.{Connection, read, fulfil}
use bookie_cpp.Storage.Tracks.{Add}
use bookie_cpp.BookieHandler.Schedules.{future_of, Session, opens, reads_add, runs, delivers}
use bookie_cpp.Storage.Table.{lookup}
use bookie_cpp.BookieHandler.Lookups.{IsTidy, answered_add_is_found}
use bookie_cpp.BookieHandler.Durability.{answer_to, value_added, answers_are_durable}
use bookie_cpp.Tests.BookieHandler.{Chain, deps, connection, add}

connection-IsFresh :
    IsFresh list_io deps (list_deps_laws true (JournalEntry Chain)) connection.storage
connection-IsFresh = record { acked = refl; unsynced = refl; batch = refl; waiting = refl }

abbrev request : Request Chain
request = add 8 ((0x61 ∷ []) ∷ [])

abbrev added : Add Chain
added = record {
  item = record { key = 3; payload = (0x61 ∷ []) ∷ []; promise = 5 };
  ledger_id = 7;
  entry_id = 8;
}

abbrev idle : Journal Chain deps
idle = connection.storage.journal

abbrev after_add : Connection Chain deps
after_add = record connection {
  storage = record {
    journal = record idle {
      queue = (record { key = 3; payload = some ((0x61 ∷ []) ∷ []); promise = some 5 }) ∷ [];
    };
    memory = store_at (λ a. []) 3 (key_bytes list_io deps 7 8);
    next_promise = 6;
    enqueue_samples = 1;
  };
  waiting = future_of added ∷ [];
}

abbrev key : List ℕ
key = key_bytes list_io deps 7 8

abbrev taken : Journal Chain deps
taken = record idle {
  entries_to_sync = 5 ∷ [];
  write_batch = (key, 0x61 ∷ []) ∷ [];
  to_sync_count = 1;
  block_for_next_entry = false;
  queue_samples = 1;
}

abbrev synced : Journal Chain deps
synced = record idle {
  db = (key, 0x61 ∷ []) ∷ [];
  fulfilled = 5 ∷ [];
  queue_samples = 1;
  sync_samples = 1;
}

abbrev with_journal : Journal Chain deps → Connection Chain deps → Connection Chain deps
with_journal j c = record c { storage = record c.storage { journal = j } }

read_run : read list_io deps false 3 request connection ≡ goes_on after_add
unfolding read put
read_run = refl

take_run :
    journal_round list_io deps true after_add.storage.memory after_add.storage.journal
    ≡ goes_on taken
unfolding journal_round
take_run = refl

sync_run : journal_round list_io deps true after_add.storage.memory taken ≡ goes_on synced
unfolding journal_round
sync_run = refl

abbrev fulfilled : Connection Chain deps
fulfilled = fulfil list_io deps 5 (with_journal synced after_add)

abbrev session : Session list_io deps true connection (added ∷ []) (5 ∷ []) fulfilled
session =
    delivers 5 []
      (runs synced
        (runs taken (reads_add 3 request ((0x61 ∷ []) ∷ []) opens refl refl read_run) take_run)
        sync_run)
      refl

answers_are_durable_example :
    (answered : List (Add Chain)) × (outstanding : List (Add Chain)) × (more : List (List ℕ))
    × (added ∷ [] ≡ answered ++ outstanding)
    × (fulfilled.written ≡ map answer_to answered)
    × (fulfilled.waiting ≡ map future_of outstanding)
    × (map value_of_put fulfilled.storage.journal.db ≡ map (value_added list_io) answered ++ more)
answers_are_durable_example =
    answers_are_durable list_io deps (list_deps_laws true (JournalEntry Chain)) true (λ b d. refl)
      connection (added ∷ []) (5 ∷ []) fulfilled connection-IsFresh refl session

one_answer : length connection.written + 0 < length fulfilled.written
unfolding fulfil
one_answer = omega arith

session-IsTidy : IsTidy list_io deps (list_deps_laws true (JournalEntry Chain)) true session
session-IsTidy = (tt, tt)

answered_add_is_found_example :
    lookup (key_bytes list_io deps 7 8) fulfilled.storage.journal.db ≡ some (0x61 ∷ [])
answered_add_is_found_example =
    answered_add_is_found list_io deps (list_deps_laws true (JournalEntry Chain)) true (λ b d. refl)
      connection (added ∷ []) (5 ∷ []) fulfilled [] [] added connection-IsFresh refl refl
      ((omega arith, omega arith), tt) session session-IsTidy refl tt one_answer
