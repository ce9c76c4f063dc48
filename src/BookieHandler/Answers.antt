-- ===== src/BookieHandler/Answers.antt =====
-- From requests to answers: the handler, the storage and the journal thread together.
use bookie_cpp.Prelude.{
  ℕ, suc, ◌+◌, ◌≤◌, ◌≡◌, refl, sym, ap, ◌∙◌, List, [], ◌∷◌, ◌++◌, map, some, Bool, true, false,
  length, map-map, arith,
}
use mathlib.Core.List.{append_assoc, append-nil, map-append}
use bookie_cpp.Io.{Io}
use bookie_cpp.Protocol.{Request}
use bookie_cpp.Storage.{JournalEntry, Journal, waits, goes_on, journal_round}
use bookie_cpp.Storage.Services.{Deps, DepsLaws}
use bookie_cpp.Storage.Tracks.{put_of, AtRound}
use bookie_cpp.Storage.Drain.{rounds, rounds_drain}
use bookie_cpp.BookieHandler.{
  Waiting, Connection, read_all, answer, persisted, find_waiting, fulfil, fulfil_all,
}
use bookie_cpp.BookieHandler.Reads.{HaveData, due, values, promise_in, value_in, ok, read_all_lem}

abbrev pub second : List ℕ × List ℕ → List ℕ
second p = p.1

module _ (io : Io) (deps : Deps (JournalEntry io.Buf)) (laws : DepsLaws (JournalEntry io.Buf) deps)
    (start : List (List ℕ × List ℕ)) where
  find_first :
      (w : Waiting) (ws : List Waiting) → find_waiting io deps w.promise (w ∷ ws) ≡ some (w, ws)
  unfolding find_waiting
  find_first w ws = ground arith

  -- The first future of those that wait.
  pub fulfil_first :
      (w : Waiting) (ws : List Waiting) (c : Connection io.Buf deps)
      → c.waiting ≡ w ∷ ws
      → fulfil io deps w.promise c ≡ record c {
        waiting = ws;
        written = c.written ++ ok io w ∷ [];
        add_samples = c.add_samples + 1;
      }
  unfolding fulfil persisted answer
  fulfil_first w ws c e = simp (fulfil, e, find_first w ws, persisted, answer)

  -- Promises that are fulfilled in the order of their futures answer all of them.
  fulfil_all_lem :
      (ws : List Waiting) (c : Connection io.Buf deps)
      → c.waiting ≡ ws
      → ((fulfil_all io deps (map promise_in ws) c).written ≡ c.written ++ map (ok io) ws)
        × ((fulfil_all io deps (map promise_in ws) c).waiting ≡ [])
        × ((fulfil_all io deps (map promise_in ws) c).add_samples ≡ c.add_samples + length ws)
  unfolding fulfil_all
  fulfil_all_lem [] c e = (sym (append-nil c.written), e, omega arith)
  fulfil_all_lem (w ∷ ws) c e =
      let (written, none_left, samples) =
        fulfil_all_lem ws
          (record c {
            waiting = ws;
            written = c.written ++ ok io w ∷ [];
            add_samples = c.add_samples + 1;
          })
          refl in
      rw (fulfil_all, fulfil_first w ws c e)
        (
          written ∙ append_assoc c.written (ok io w ∷ []) (map (ok io) ws),
          none_left,
          omega (arith, samples),
        )

  -- Requests that come in while the queue has room for them all are read (the dead read of `put` left
  -- out), and the journal thread, within one round for each of them and one more, writes the data of the
  -- adds and fulfils their promises. Then each add has been answered with an OK and its ids, in the order
  -- of the requests, no future is left waiting, the thread waits, and no request but an add has got an
  -- answer.
  pub adds_answered :
      (fsync_wal : Bool)
      → ((b : deps.Batch) (d : deps.Db) → (deps.write_db fsync_wal b d).0 ≡ true)
      → (requests : List (ℕ × Request io.Buf)) (c : Connection io.Buf deps) → HaveData requests
      → length requests ≤ laws.capacity
      → AtRound io deps laws c.storage.memory start [] [] [] c.storage.journal
      → c.waiting ≡ []
      → (c' : Connection io.Buf deps) × (n : ℕ) × (j : Journal io.Buf deps) × (read_all io deps
            false requests c
          ≡ goes_on c')
        × (n ≤ suc (length requests))
        × (rounds io deps fsync_wal c'.storage.memory n c'.storage.journal ≡ goes_on j)
        × (journal_round io deps fsync_wal c'.storage.memory j ≡ waits)
        × (map second (laws.log j.db) ≡ map second start ++ values io requests)
        × ((fulfil_all io deps j.fulfilled c').written ≡ c.written ++ due requests)
        × ((fulfil_all io deps j.fulfilled c').waiting ≡ [])
  adds_answered fsync_wal writes_succeed requests c h room ready nobody =
      let (c', items, run, q, short, answers, same, kept) =
        read_all_lem io deps laws start requests [] c h (omega arith)
          (record { journal = ready; futures = rw nobody }) in
      let (n, j, few, ends, stops, acked, logged) =
        rounds_drain io deps laws c'.storage.memory fsync_wal writes_succeed start items [] []
          c'.storage.journal q.journal in
      let (written, none_left, _) = fulfil_all_lem c'.waiting c' refl in
      let in_order : j.fulfilled ≡ map promise_in c'.waiting = acked ∙ q.futures in
      (
        c',
        n,
        j,
        run,
        omega arith,
        ends,
        stops,
        ap (map second) logged
            ∙ map-append second start (map (put_of io c'.storage.memory) items)
            ∙ ap (λ (l : List (List ℕ)). map second start ++ l)
                (map-map second (put_of io c'.storage.memory) (value_in io) (λ i. refl) items
                  ∙ kept),
        rw in_order (written ∙ rw (same, answers, nobody)),
        rw in_order none_left,
      )
