-- ===== src/Tests/Schedules.antt =====
-- An entry is put, its frame is used again, and the journal thread runs two rounds.
use bookie_cpp.Prelude.{ℕ, ◌≡◌, refl, List, [], ◌∷◌, ◌++◌, map, some, true, false, arith}
use bookie_cpp.Io.Lists.{list_io}
use bookie_cpp.Storage.{
  JournalEntry, Journal, Storage, goes_on, put, journal_round, store_at, key_bytes,
}
use bookie_cpp.Storage.Lists.{list_deps, list_deps_laws}
use bookie_cpp.Storage.Services.{Deps}
use bookie_cpp.Storage.Tracks.{Item, promise_of}
use bookie_cpp.Storage.Schedules.{
  Schedule, begins, puts_entry, runs_round, reuses_stack, value_of_item,
}
use bookie_cpp.Storage.Durable.{IsFresh, acked_are_written}
use bookie_cpp.Storage.Stops.{IsStopped, rounds_stop}
use bookie_cpp.Storage.Drain.{rounds}

abbrev Chain : Type 0
Chain = List (List ℕ)

abbrev deps : Deps (JournalEntry Chain)
deps = list_deps true (JournalEntry Chain)

abbrev idle : Journal Chain deps
idle = record {
  queue = [];
  db = [];
  entries_to_sync = [];
  write_batch = [];
  to_sync_count = 0;
  block_for_next_entry = true;
  fulfilled = [];
  queue_samples = 0;
  sync_samples = 0;
}

abbrev storage : Storage Chain deps
storage = record { journal = idle; memory = λ a. []; next_promise = 5; enqueue_samples = 0 }

abbrev ab : Chain
ab = (0x61 ∷ 0x62 ∷ []) ∷ []

abbrev entry : JournalEntry Chain
entry = record { key = 3; payload = some ab; promise = some 5 }

abbrev item : Item Chain
item = record { key = 3; payload = ab; promise = 5 }

abbrev after_put : Storage Chain deps
after_put = record {
  journal = record idle { queue = entry ∷ [] };
  memory = store_at (λ a. []) 3 (key_bytes list_io deps 7 9);
  next_promise = 6;
  enqueue_samples = 1;
}

-- The frame holds one zero byte by now.
abbrev overwritten : Storage Chain deps
overwritten = record after_put { memory = λ a. 0 ∷ [] }

abbrev taken : Journal Chain deps
taken = record idle {
  entries_to_sync = 5 ∷ [];
  write_batch = (0 ∷ [], 0x61 ∷ 0x62 ∷ []) ∷ [];
  to_sync_count = 1;
  block_for_next_entry = false;
  queue_samples = 1;
}

abbrev synced : Journal Chain deps
synced = record idle {
  db = (0 ∷ [], 0x61 ∷ 0x62 ∷ []) ∷ [];
  fulfilled = 5 ∷ [];
  queue_samples = 1;
  sync_samples = 1;
}

put_run : put list_io deps false 3 7 9 ab storage ≡ goes_on (5, after_put)
unfolding put
put_run = refl

take_run : journal_round list_io deps true overwritten.memory overwritten.journal ≡ goes_on taken
unfolding journal_round
take_run = refl

sync_run : journal_round list_io deps true overwritten.memory taken ≡ goes_on synced
unfolding journal_round
sync_run = refl

schedule : Schedule list_io deps true storage (item ∷ []) (record overwritten { journal = synced })
schedule =
    runs_round synced
      (runs_round taken (reuses_stack (λ a. 0 ∷ []) (puts_entry 3 7 9 5 ab begins put_run))
        take_run)
      sync_run

storage-IsFresh : IsFresh list_io deps (list_deps_laws true (JournalEntry Chain)) storage
storage-IsFresh = record { acked = refl; unsynced = refl; batch = refl; waiting = refl }

acked_are_written_example :
    (done : List (Item Chain)) × (later : List (Item Chain)) × (item ∷ [] ≡ done ++ later)
    × (5 ∷ [] ≡ map promise_of done)
    × ((0x61 ∷ 0x62 ∷ []) ∷ [] ≡ map (value_of_item list_io) done)
acked_are_written_example =
    acked_are_written list_io deps (list_deps_laws true (JournalEntry Chain)) true (λ b d. refl)
      storage (item ∷ []) (record overwritten { journal = synced }) storage-IsFresh schedule

-- With the entry in the queue.
rounds_stop_example : IsStopped (rounds list_io deps true overwritten.memory 3 overwritten.journal)
rounds_stop_example =
    rounds_stop list_io deps (list_deps_laws true (JournalEntry Chain)) overwritten.memory true
      (entry ∷ []) 3 overwritten.journal refl (omega arith)
