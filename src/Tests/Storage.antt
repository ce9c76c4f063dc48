-- ===== src/Tests/Storage.antt =====
-- The storage over lists (Storage/Lists), with chains as lists of byte lists (Io/Lists).
use bookie_cpp.Prelude.{inl, ℕ, ◌≤◌, ◌≡◌, refl, List, [], ◌∷◌, map, true, false, arith, some}
use bookie_cpp.Io.Lists.{list_io}
use bookie_cpp.Storage.{
  JournalEntry, Journal, Storage, goes_on, waits, returned, close_queue, put, journal_round,
}
use bookie_cpp.Storage.Lists.{list_deps, list_deps_laws}
use bookie_cpp.Storage.Services.{Deps}
use bookie_cpp.Storage.Tracks.{Item, AtRound, entry_of}
use bookie_cpp.Storage.Drain.{rounds, rounds_drain}
use bookie_cpp.Storage.Faults.{refused_write_acks, exit_drops_batch}
use bookie_cpp.Storage.Puts.{key_of, put_twice}

abbrev the : (A : Type 0) → A → A
the A a = a

abbrev Chain : Type 0
Chain = List (List ℕ)

abbrev deps : Deps (JournalEntry Chain)
deps = list_deps true (JournalEntry Chain)

-- "ab" in one buffer, and "cd" in two.
abbrev ab : Item Chain
ab = record { key = 1; payload = (0x61 ∷ 0x62 ∷ []) ∷ []; promise = 10 }

abbrev cd : Item Chain
cd = record { key = 2; payload = (0x63 ∷ []) ∷ (0x64 ∷ []) ∷ []; promise = 11 }

abbrev fresh : List (JournalEntry Chain) → Journal Chain deps
fresh q = record {
  queue = q;
  db = [];
  entries_to_sync = [];
  write_batch = [];
  to_sync_count = 0;
  block_for_next_entry = true;
  fulfilled = [];
  queue_samples = 0;
  sync_samples = 0;
}

abbrev memory : ℕ → List ℕ
memory a = a ∷ []

abbrev storage : Storage Chain deps
storage = record { journal = fresh []; memory = memory; next_promise = 5; enqueue_samples = 0 }

fresh-AtRound :
    (items : List (Item Chain))
    → AtRound list_io deps
        (list_deps_laws true (JournalEntry Chain))
        memory
        []
        []
        []
        items
        (fresh (map entry_of items))
fresh-AtRound items = record {
  tracks = record {
    acked = refl;
    written = refl;
    unsynced = refl;
    batch = refl;
    waiting = refl;
    counted = refl;
  };
  small = omega arith;
  idle = λ _. refl;
}

rounds_drain_example :
    (n : ℕ) × (j : Journal Chain deps) × (n ≤ 3)
    × (rounds list_io deps true memory n (fresh (entry_of ab ∷ entry_of cd ∷ [])) ≡ goes_on j)
    × (journal_round list_io deps true memory j ≡ waits)
    × (j.fulfilled ≡ 10 ∷ 11 ∷ [])
    × (j.db ≡ (1 ∷ [], 0x61 ∷ 0x62 ∷ []) ∷ (2 ∷ [], 0x63 ∷ []) ∷ [])
rounds_drain_example =
    rounds_drain list_io deps (list_deps_laws true (JournalEntry Chain)) memory true (λ b d. refl)
      [] (ab ∷ cd ∷ []) [] [] (fresh (entry_of ab ∷ entry_of cd ∷ []))
      (fresh-AtRound (ab ∷ cd ∷ []))

-- "ab" in the batch of a journal whose disk fails.
abbrev failing : Deps (JournalEntry Chain)
failing = list_deps false (JournalEntry Chain)

abbrev stuck : Journal Chain failing
stuck = record {
  queue = [];
  db = [];
  entries_to_sync = 10 ∷ [];
  write_batch = (1 ∷ [], 0x61 ∷ 0x62 ∷ []) ∷ [];
  to_sync_count = 1;
  block_for_next_entry = false;
  fulfilled = [];
  queue_samples = 1;
  sync_samples = 0;
}

stuck-AtRound :
    AtRound list_io failing
      (list_deps_laws false (JournalEntry Chain))
      memory
      []
      []
      (ab ∷ [])
      []
      stuck
stuck-AtRound = record {
  tracks = record {
    acked = refl;
    written = refl;
    unsynced = refl;
    batch = refl;
    waiting = refl;
    counted = refl;
  };
  small = omega arith;
  idle = λ h. cc;
}

refused_write_acks_example :
    (j : Journal Chain failing) × (journal_round list_io failing true memory stuck ≡ goes_on j)
    × (j.fulfilled ≡ 10 ∷ [])
    × (j.entries_to_sync ≡ [])
    × (j.write_batch ≡ [])
    × (j.db ≡ [])
refused_write_acks_example =
    refused_write_acks list_io failing (list_deps_laws false (JournalEntry Chain)) memory true [] []
      ab [] stuck stuck-AtRound refl

-- "ab" in the batch of a healthy journal, and "cd" written.
abbrev collecting : Journal Chain deps
collecting = record (fresh []) {
  db = (2 ∷ [], 0x63 ∷ []) ∷ [];
  entries_to_sync = 10 ∷ [];
  write_batch = (1 ∷ [], 0x61 ∷ 0x62 ∷ []) ∷ [];
  to_sync_count = 1;
  block_for_next_entry = false;
  fulfilled = 11 ∷ [];
}

collecting-AtRound :
    AtRound list_io deps
      (list_deps_laws true (JournalEntry Chain))
      memory
      []
      (cd ∷ [])
      (ab ∷ [])
      []
      collecting
collecting-AtRound = record {
  tracks = record {
    acked = refl;
    written = refl;
    unsynced = refl;
    batch = refl;
    waiting = refl;
    counted = refl;
  };
  small = omega arith;
  idle = λ h. cc;
}

exit_drops_batch_example :
    (j1 : Journal Chain deps) × (j2 : Journal Chain deps) × (close_queue list_io deps collecting
      ≡ some j1)
    × (journal_round list_io deps true memory j1 ≡ returned j2)
    × (j2.fulfilled ≡ 11 ∷ [])
    × (j2.db ≡ (2 ∷ [], 0x63 ∷ []) ∷ [])
    × (j2.entries_to_sync ≡ 10 ∷ [])
exit_drops_batch_example =
    exit_drops_batch list_io deps (list_deps_laws true (JournalEntry Chain)) memory true []
      (cd ∷ []) (ab ∷ []) collecting collecting-AtRound (omega arith)

put_twice_example :
    (s1 : Storage Chain deps) × (s2 : Storage Chain deps) × (n : ℕ) × (j : Journal Chain deps)
    × (put list_io deps false 3 7 8 ab.payload storage ≡ goes_on (5, s1))
    × (put list_io deps false 3 7 9 cd.payload s1 ≡ goes_on (6, s2))
    × (rounds list_io deps true s2.memory n s2.journal ≡ goes_on j)
    × (journal_round list_io deps true s2.memory j ≡ waits)
    × (j.fulfilled ≡ 5 ∷ 6 ∷ [])
    × (j.db ≡ (key_of 7 9, 0x61 ∷ 0x62 ∷ []) ∷ (key_of 7 9, 0x63 ∷ []) ∷ [])
put_twice_example =
    put_twice list_io deps (list_deps_laws true (JournalEntry Chain)) true (λ b d. refl) 3 3 7 8 7 9
      ab.payload cd.payload storage [] (inl refl) (omega arith) (fresh-AtRound [])
