-- ===== src/Storage/Puts.antt =====
-- `put`, and what becomes of an entry that it queues.
use bookie_cpp.Prelude.{
  take, drop, ◌+◌, ℕ, suc, ◌+◌, ◌^◌, ◌<◌, ◌≡◌, ◌⊎◌, refl, sym, ap, ◌∙◌, List, [], ◌∷◌, ◌++◌, Bool,
  true, false, length, arith, ◌==◌, if◌then◌else◌, take, drop,
}
use mathlib.Core.List.{map-append}
use bookie_cpp.Prelude.Bytes.{to_be, of_be, of_be-to_be}
use bookie_cpp.Io.{Io, first_segment}
use bookie_cpp.Storage.{
  JournalEntry, Journal, Storage, waits, goes_on, put, enqueue, key_bytes, store_at, apart,
  journal_round,
}
use bookie_cpp.Storage.Services.{Deps, DepsLaws}
use bookie_cpp.Storage.Tracks.{Item, entry_of, AtRound}
use bookie_cpp.Storage.Drain.{rounds, rounds_drain}

-- The bytes that a key should have.
abbrev pub key_of : ℕ → ℕ → List ℕ
key_of ledger_id entry_id = to_be 8 ledger_id ++ to_be 8 entry_id

module _ (io : Io) (deps : Deps (JournalEntry io.Buf))
    (laws : DepsLaws (JournalEntry io.Buf) deps) where
  pub key_bytes-key_of : (l e : ℕ) → key_bytes io deps l e ≡ key_of l e
  unfolding key_bytes
  key_bytes-key_of l e = rw (laws.object_bytes-big l, laws.object_bytes-big e)

  -- A key is 16 bytes, of which the first 8 are the ledger's id, big-endian. Two entries whose ids fit 64
  -- bits have one key only if both ids are the same.
  pub key_bytes-injective :
      (l e l' e' : ℕ)
      → l < 2 ^ 64
      → e < 2 ^ 64
      → l' < 2 ^ 64
      → e' < 2 ^ 64
      → key_bytes io deps l e ≡ key_bytes io deps l' e'
      → (length (key_bytes io deps l e) ≡ 16)
        × (take 8 (key_bytes io deps l e) ≡ to_be 8 l)
        × (l ≡ l')
        × (e ≡ e')
  key_bytes-injective l e l' e' hl he hl' he' same =
      let plain : key_of l e ≡ key_of l' e' =
        sym (key_bytes-key_of l e) ∙ same ∙ key_bytes-key_of l' e' in
      (
        ap length (key_bytes-key_of l e),
        ap (take 8) (key_bytes-key_of l e),
        sym (of_be-to_be 8 l hl)
            ∙ ap (λ (k : List ℕ). of_be (take 8 k)) plain
            ∙ of_be-to_be 8 l' hl',
        sym (of_be-to_be 8 e he)
            ∙ ap (λ (k : List ℕ). of_be (drop 8 k)) plain
            ∙ of_be-to_be 8 e' he',
      )

  -- A call of `put`, with its dead read left out, while the queue has room and nothing is in the batch or
  -- written since the start: the entry is the last in the queue, under a new promise, and its key lies in
  -- the caller's frame.
  pub put_lem :
      (frame l e : ℕ) (d : io.Buf) (s : Storage io.Buf deps) (start : List (List ℕ × List ℕ))
      (queued : List (Item io.Buf))
      → length (laws.contents s.journal.queue) < laws.capacity
      → AtRound io deps laws s.memory start [] [] queued s.journal
      → (s' : Storage io.Buf deps) × (put io deps false frame l e d s
          ≡ goes_on (s.next_promise, s'))
        × (s'.memory ≡ store_at s.memory frame (key_bytes io deps l e))
        × (s'.next_promise ≡ suc s.next_promise)
        × AtRound io deps laws s'.memory start [] []
            (queued ++ (record { key = frame; payload = d; promise = s.next_promise }) ∷ [])
            s'.journal
  unfolding put
  put_lem frame l e d s start queued room r =
      let item : Item io.Buf = record { key = frame; payload = d; promise = s.next_promise } in
      let (q, run, grown) = laws.write_room (entry_of item) s.journal.queue room in
      let t = r.tracks in
      (
        record s {
          journal = record s.journal { queue = q };
          memory = store_at s.memory frame (key_bytes io deps l e);
          next_promise = suc s.next_promise;
          enqueue_samples = s.enqueue_samples + 1;
        },
        rw (run, enqueue),
        refl,
        refl,
        record {
          tracks = record {
            acked = t.acked;
            written = t.written;
            unsynced = t.unsynced;
            batch = t.batch;
            waiting =
                grown
                ∙ ap (λ (es : List (JournalEntry io.Buf)). es ++ entry_of item ∷ []) t.waiting
                ∙ sym (map-append entry_of queued (item ∷ []));
            counted = t.counted;
          };
          small = r.small;
          idle = r.idle;
        },
      )

  -- What lies at two frames once keys were stored there in turn.
  stored_keys :
      (m : ℕ → List ℕ) (f1 f2 : ℕ) (k1 k2 : List ℕ)
      → (f2 ≡ f1) ⊎ (apart f2 f1 ≡ true)
      → (store_at (store_at m f1 k1) f2 k2 f1 ≡ (if f2 == f1 then k2 else k1))
        × (store_at (store_at m f1 k1) f2 k2 f2 ≡ k2)
  stored_keys m f1 f2 k1 k2 frames = (ground arith, ground arith)

  -- Two calls of `put`, with the dead read left out, on an empty journal whose queue has room for two, and
  -- then the journal thread until it waits: if every write of the database succeeds, both entries are
  -- written and both promises fulfilled, but the first is written under the second's key if both calls
  -- had the same frame, where it is written under its own if the keys in the two frames share no byte.
  -- A queued entry points to the frame of a call that has returned, and takes the key found there.
  pub put_twice :
      (fsync_wal : Bool)
      → ((b : deps.Batch) (d : deps.Db) → (deps.write_db fsync_wal b d).0 ≡ true)
      → (f1 f2 l1 e1 l2 e2 : ℕ) (d1 d2 : io.Buf) (s : Storage io.Buf deps)
        (start : List (List ℕ × List ℕ))
      → (f2 ≡ f1) ⊎ (apart f2 f1 ≡ true)
      → 1 < laws.capacity
      → AtRound io deps laws s.memory start [] [] [] s.journal
      → (s1 : Storage io.Buf deps) × (s2 : Storage io.Buf deps) × (n : ℕ) × (j : Journal io.Buf
          deps)
        × (put io deps false f1 l1 e1 d1 s ≡ goes_on (s.next_promise, s1))
        × (put io deps false f2 l2 e2 d2 s1 ≡ goes_on (suc s.next_promise, s2))
        × (rounds io deps fsync_wal s2.memory n s2.journal ≡ goes_on j)
        × (journal_round io deps fsync_wal s2.memory j ≡ waits)
        × (j.fulfilled ≡ s.next_promise ∷ suc s.next_promise ∷ [])
        × (laws.log j.db
            ≡ start
              ++ ((if f2 == f1 then key_of l2 e2 else key_of l1 e1), first_segment io d1)
                ∷ (key_of l2 e2, first_segment io d2)
                ∷ [])
  put_twice fsync_wal ok f1 f2 l1 e1 l2 e2 d1 d2 s start frames room r =
      let (s1, run1, mem1, next1, r1) =
        put_lem f1 l1 e1 d1 s start [] (omega (arith, ap length r.tracks.waiting)) r in
      let (s2, run2, mem2, next2, r2) =
        put_lem f2 l2 e2 d2 s1 start _ (omega (arith, ap length r1.tracks.waiting)) r1 in
      let (n, j, _, run, stops, acked, written) =
        rounds_drain io deps laws s2.memory fsync_wal ok start _ [] [] s2.journal r2 in
      let memory : s2.memory ≡ store_at (store_at s.memory f1 (key_of l1 e1)) f2 (key_of l2 e2) =
        rw (mem2, mem1, key_bytes-key_of l1 e1, key_bytes-key_of l2 e2) in
      let (at1, at2) = stored_keys s.memory f1 f2 (key_of l1 e1) (key_of l2 e2) frames in
      (
        s1,
        s2,
        n,
        j,
        run1,
        rw next1 at run2,
        run,
        stops,
        acked ∙ rw next1,
        written
            ∙ rw (
              ap (λ (m : ℕ → List ℕ). m f1) memory ∙ at1,
              ap (λ (m : ℕ → List ℕ). m f2) memory ∙ at2,
            ),
      )
