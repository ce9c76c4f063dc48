-- ===== src/Storage/Frames.antt =====
-- What holds of the keys as long as no one writes over a frame that a queued key lies in.
use bookie_cpp.Prelude.{true, ℕ, ◌≡◌, List, [], ◌∷◌, ◌++◌, Bool, false}
use bookie_cpp.Io.{Io}
use bookie_cpp.Storage.{apart, JournalEntry, Journal, Storage, goes_on, put, journal_round}
use bookie_cpp.Storage.Services.{Deps, DepsLaws}
use bookie_cpp.Storage.Tracks.{Add}
use bookie_cpp.Storage.Fates.{All}

module _ (io : Io) (deps : Deps (JournalEntry io.Buf)) (laws : DepsLaws (JournalEntry io.Buf) deps)
    (fsync_wal : Bool) where
  open laws use {contents}

  -- The key in the frame that a call of `put` has shares no byte with one that is queued.
  abbrev pub IsSpared : ℕ → deps.Queue → Type 0
  IsSpared frame q = All (λ e. apart frame e.key ≡ true) (contents q)

  -- Two memories have the same queued keys.
  abbrev pub KeysAgree : (ℕ → List ℕ) → (ℕ → List ℕ) → deps.Queue → Type 0
  KeysAgree memory memory' q = All (λ e. memory' e.key ≡ memory e.key) (contents q)

  -- What can happen from `first` on if the frame of a queued key is left alone until the journal thread has
  -- taken its entry.
  pub data Careful (first : Storage io.Buf deps)
      : List (Add io.Buf) → Storage io.Buf deps → Type 0 where
    begins : Careful first [] first
    puts_entry :
        {history : List (Add io.Buf)} {s s' : Storage io.Buf deps} (frame ledger_id entry_id p : ℕ)
        (d : io.Buf)
        → Careful first history s
        → IsSpared frame s.journal.queue
        → put io deps false frame ledger_id entry_id d s ≡ goes_on (p, s')
        → Careful first
            (history
              ++ (record {
                item = record { key = frame; payload = d; promise = p };
                ledger_id = ledger_id;
                entry_id = entry_id;
              })
                ∷ [])
            s'
    runs_round :
        {history : List (Add io.Buf)} {s : Storage io.Buf deps} (j : Journal io.Buf deps)
        → Careful first history s
        → journal_round io deps fsync_wal s.memory s.journal ≡ goes_on j
        → Careful first history (record s { journal = j })
    reuses_stack :
        {history : List (Add io.Buf)} {s : Storage io.Buf deps} (memory : ℕ → List ℕ)
        → Careful first history s
        → KeysAgree s.memory memory s.journal.queue
        → Careful first history (record s { memory = memory })
