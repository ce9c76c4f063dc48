-- ===== src/Tests/Tables.antt =====
-- An entry is put and the journal thread runs two rounds, with a disk that is healthy or refuses its writes.
use bookie_cpp.Prelude.{
  ℕ, ◌≡◌, refl, List, [], ◌∷◌, ◌++◌, map, Bool, some, true, false, arith, if◌then◌else◌,
}
use bookie_cpp.Io.Lists.{list_io}
use bookie_cpp.Storage.{
  JournalEntry, Journal, Storage, goes_on, put, journal_round, store_at, key_bytes,
}
use bookie_cpp.Storage.Lists.{list_deps, list_deps_laws}
use bookie_cpp.Storage.Services.{Deps}
use bookie_cpp.Storage.Tracks.{Item, Add, item_of, promise_of}
use bookie_cpp.Storage.Schedules.{Schedule, begins, puts_entry, runs_round}
use bookie_cpp.Storage.Durable.{IsFresh}
use bookie_cpp.Storage.Fates.{Fate, entry_in, writes}
use bookie_cpp.Storage.Outcomes.{same_item, acked_or_lost}
use bookie_cpp.Storage.Frames.{Careful}
use bookie_cpp.Storage.Frames
use bookie_cpp.Storage.Table.{lookup, latest, lookup-key_bytes}

abbrev Chain : Type 0
Chain = List (List ℕ)

abbrev deps : Bool → Deps (JournalEntry Chain)
deps healthy = list_deps healthy (JournalEntry Chain)

abbrev idle : (healthy : Bool) → Journal Chain (deps healthy)
idle healthy = record {
  queue = [];
  db = [];
  entries_to_sync = [];
  write_batch = [];
  to_sync_count = 0;
  block_for_next_entry = true;
  fulfilled = [];
  queue_samples = 0;
  sync_samples = 0;
}

abbrev storage : (healthy : Bool) → Storage Chain (deps healthy)
storage healthy = record {
  journal = idle healthy;
  memory = λ a. [];
  next_promise = 5;
  enqueue_samples = 0;
}

abbrev ab : Chain
ab = (0x61 ∷ 0x62 ∷ []) ∷ []

abbrev item : Item Chain
item = record { key = 3; payload = ab; promise = 5 }

abbrev add : Add Chain
add = record { item = item; ledger_id = 7; entry_id = 9 }

abbrev key : List ℕ
key = key_bytes list_io (deps true) 7 9

abbrev after_put : (healthy : Bool) → Storage Chain (deps healthy)
after_put healthy = record {
  journal = record (idle healthy) {
    queue = (record { key = 3; payload = some ab; promise = some 5 }) ∷ [];
  };
  memory = store_at (λ a. []) 3 key;
  next_promise = 6;
  enqueue_samples = 1;
}

abbrev taken : (healthy : Bool) → Journal Chain (deps healthy)
taken healthy = record (idle healthy) {
  entries_to_sync = 5 ∷ [];
  write_batch = (key, 0x61 ∷ 0x62 ∷ []) ∷ [];
  to_sync_count = 1;
  block_for_next_entry = false;
  queue_samples = 1;
}

abbrev synced : (healthy : Bool) → Journal Chain (deps healthy)
synced healthy = record (idle healthy) {
  db = if healthy then (key, 0x61 ∷ 0x62 ∷ []) ∷ [] else [];
  fulfilled = 5 ∷ [];
  queue_samples = 1;
  sync_samples = 1;
}

put_run :
    (healthy : Bool)
    → put list_io (deps healthy) false 3 7 9 ab (storage healthy) ≡ goes_on (5, after_put healthy)
unfolding put
put_run healthy = refl

take_run :
    (healthy : Bool)
    → journal_round list_io
        (deps healthy)
        true
        (after_put healthy).memory
        (after_put healthy).journal
      ≡ goes_on (taken healthy)
unfolding journal_round
take_run healthy = refl

sync_run :
    (healthy : Bool)
    → journal_round list_io (deps healthy) true (after_put healthy).memory (taken healthy)
      ≡ goes_on (synced healthy)
unfolding journal_round
sync_run healthy = refl

abbrev after_sync : (healthy : Bool) → Storage Chain (deps healthy)
after_sync healthy = record (after_put healthy) { journal = synced healthy }

refused : Schedule list_io (deps false) true (storage false) (item ∷ []) (after_sync false)
refused =
    runs_round (synced false)
      (runs_round (taken false) (puts_entry 3 7 9 5 ab begins (put_run false)) (take_run false))
      (sync_run false)

careful :
    Careful list_io
      (deps true)
      (list_deps_laws true (JournalEntry Chain))
      true
      (storage true)
      (add ∷ [])
      (after_sync true)
careful =
    Frames.runs_round (synced true)
      (Frames.runs_round (taken true) (Frames.puts_entry 3 7 9 5 ab Frames.begins tt (put_run true))
        (take_run true))
      (sync_run true)

storage-IsFresh :
    (healthy : Bool)
    → IsFresh list_io (deps healthy) (list_deps_laws healthy (JournalEntry Chain)) (storage healthy)
storage-IsFresh healthy = record { acked = refl; unsynced = refl; batch = refl; waiting = refl }

acked_or_lost_example :
    (done : List (Fate (Item Chain))) × (later : List (Item Chain)) × (item ∷ []
      ≡ map entry_in done ++ later)
    × (5 ∷ [] ≡ map promise_of (map entry_in done))
    × ([] ≡ writes list_io (Item Chain) same_item done)
acked_or_lost_example =
    acked_or_lost list_io (deps false) (list_deps_laws false (JournalEntry Chain)) true
      (storage false) (item ∷ []) (after_sync false) (storage-IsFresh false) refused

lookup-key_bytes_example :
    (done : List (Add Chain)) × (later : List (Add Chain)) × (add ∷ [] ≡ done ++ later)
    × (5 ∷ [] ≡ map promise_of (map item_of done))
    × (lookup key ((key, 0x61 ∷ 0x62 ∷ []) ∷ []) ≡ latest list_io 7 9 done)
lookup-key_bytes_example =
    lookup-key_bytes list_io (deps true) (list_deps_laws true (JournalEntry Chain)) true
      (λ b d. refl) (storage true) (add ∷ []) (after_sync true) (storage-IsFresh true) refl
      ((omega arith, omega arith), tt) careful 7 9 (omega arith) (omega arith)
