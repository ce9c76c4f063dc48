-- ===== src/Storage/Drain.antt =====
-- The journal thread's loop, round after round, while nothing else touches the queue.
use bookie_cpp.Prelude.{
  ℕ, zero, suc, ◌≤◌, ◌≡◌, refl, sym, ap, ◌∙◌, inl, inr, List, [], ◌∷◌, ◌++◌, map, Bool, true,
  length, arith,
}
use mathlib.Core.List.{append_assoc, append-nil}
use bookie_cpp.Io.{Io}
use bookie_cpp.Storage.{
  JournalEntry, Journal, Round, waits, goes_on, returned, null_deref, journal_round,
}
use bookie_cpp.Storage.Services.{Deps, DepsLaws}
use bookie_cpp.Storage.Tracks.{
  Item, promise_of, put_of, AtRound, round_takes, round_empty, round_blocks,
}

-- At most `n` rounds, fewer where the thread stops before.
unfoldable pub rounds :
    (io : Io) (deps : Deps (JournalEntry io.Buf))
    → Bool
    → (ℕ → List ℕ)
    → ℕ
    → Journal io.Buf deps
    → Round (Journal io.Buf deps)
rounds io deps fsync_wal memory zero j = goes_on j
rounds io deps fsync_wal memory (suc n) j = elim (journal_round io deps fsync_wal memory j) [
  | goes_on j' ↦ rounds io deps fsync_wal memory n j'
  | waits ↦ waits
  | returned j' ↦ returned j'
  | null_deref ↦ null_deref
]

module _ (io : Io) (deps : Deps (JournalEntry io.Buf)) (laws : DepsLaws (JournalEntry io.Buf) deps)
    (memory : ℕ → List ℕ) (fsync_wal : Bool)
    (writes_succeed : (b : deps.Batch) (d : deps.Db) → (deps.write_db fsync_wal b d).0 ≡ true)
    (start : List (List ℕ × List ℕ)) where
  abbrev Ready :
      List (Item io.Buf) → List (Item io.Buf) → List (Item io.Buf) → Journal io.Buf deps → Type 0
  Ready = AtRound io deps laws memory start

  abbrev run : ℕ → Journal io.Buf deps → Round (Journal io.Buf deps)
  run = rounds io deps fsync_wal memory

  rounds_first :
      (n : ℕ) (j j' : Journal io.Buf deps)
      → journal_round io deps fsync_wal memory j ≡ goes_on j'
      → run (suc n) j ≡ run n j'
  unfolding rounds
  rounds_first n j j' e = rw (e, rounds)

  -- If every write of the database succeeds, then from the start of a round on, while nothing joins the
  -- queue, the entries of the batch and of the queue are written and acknowledged behind those that
  -- already are, in order and completely, within one round for each queued entry and one more; then the
  -- thread waits.
  pub rounds_drain :
      (queued done batched : List (Item io.Buf)) (j : Journal io.Buf deps)
      → Ready done batched queued j
      → (n : ℕ) × (j' : Journal io.Buf deps) × (n ≤ suc (length queued))
        × (rounds io deps fsync_wal memory n j ≡ goes_on j')
        × (journal_round io deps fsync_wal memory j' ≡ waits)
        × (j'.fulfilled ≡ map promise_of (done ++ (batched ++ queued)))
        × (laws.log j'.db ≡ start ++ map (put_of io memory) (done ++ (batched ++ queued)))
  unfolding rounds
  rounds_drain [] done batched j r =
      elim (round_empty io deps laws memory fsync_wal writes_succeed start done batched j r) [
        | inl (stops, empty) ↦ (
          0,
          j,
          omega arith,
          refl,
          stops,
          rw (empty, append-nil) r.tracks.acked,
          rw (empty, append-nil) r.tracks.written,
        )
        | inr (j1, step, r1, blocks) ↦ (
          1,
          j1,
          omega arith,
          rounds_first 0 j j1 step,
          round_blocks io deps laws memory fsync_wal writes_succeed start _ [] j1 r1 blocks,
          rw append-nil r1.tracks.acked,
          rw append-nil r1.tracks.written,
        )
      ]
  rounds_drain (i ∷ is) done batched j r =
      let (j1, done1, batched1, step, r1, same) =
        round_takes io deps laws memory fsync_wal writes_succeed start done batched is i j r in
      let (n, j', short, ends, stops, acked, written) = rounds_drain is done1 batched1 j1 r1 in
      let order : done1 ++ (batched1 ++ is) ≡ done ++ (batched ++ i ∷ is) =
        sym (append_assoc done1 batched1 is)
        ∙ ap (λ (l : List (Item io.Buf)). l ++ is) same
        ∙ append_assoc done (batched ++ i ∷ []) is
        ∙ ap (λ (l : List (Item io.Buf)). done ++ l) (append_assoc batched (i ∷ []) is) in
      (
        suc n,
        j',
        omega arith,
        rounds_first n j j1 step ∙ ends,
        stops,
        acked ∙ ap (map promise_of) order,
        written ∙ ap (λ (l : List (Item io.Buf)). start ++ map (put_of io memory) l) order,
      )
