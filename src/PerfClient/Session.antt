-- ===== src/PerfClient/Session.antt =====
-- A connection of the load generator and the bookie that answers it.
use bookie_cpp.Prelude.{
  ℕ, suc, ◌-◌, ◌≤◌, ◌≡◌, refl, ap, ◌∙◌, List, [], ◌∷◌, ◌++◌, map, some, Bool, true, false, arith,
  length, length-map,
}
use bookie_cpp.Io.{Io}
use bookie_cpp.Protocol.{Request, Response}
use bookie_cpp.Storage.{JournalEntry, Journal, goes_on, waits, journal_round}
use bookie_cpp.Storage.Services.{Deps, DepsLaws}
use bookie_cpp.Storage.Tracks.{AtRound}
use bookie_cpp.Storage.Drain.{rounds}
use bookie_cpp.BookieHandler
use bookie_cpp.BookieHandler.{Connection, fulfil_all}
use bookie_cpp.BookieHandler.Reads.{ok_for, due, HaveData}
use bookie_cpp.BookieHandler.Answers.{adds_answered}
use bookie_cpp.Metrics.Services.{Histograms}
use bookie_cpp.Metrics.{Timer, MetricsManager, completed, modify, add_latency_sample}
use bookie_cpp.PerfClient.{
  AddEntryTask, done, is_ok, find_pending, erase, read, read_all, request_for,
}
use bookie_cpp.PerfClient.Sends.{key, AreStarted, IsTask}

module _ (Buf : Type 0) (wrap_buffer : List ℕ → Buf) (hs : Histograms) where
  abbrev pub acks : ℕ → List ℕ → List (Response Buf)
  acks ledger ids = map (λ id. ok_for ledger id) ids

  abbrev pub stamped : ℕ → List (Response Buf) → List (ℕ × Response Buf)
  stamped now rs = map (λ r. (now, r)) rs

  find_first :
      (id : ℕ) (timer : Timer hs) (rest pending : List (ℕ × Timer hs))
      → pending ≡ (id, timer) ∷ rest
      → (find_pending Buf wrap_buffer hs id pending ≡ some timer)
        × (erase Buf wrap_buffer hs id pending ≡ rest)
  unfolding find_pending erase
  find_first id timer rest pending e = (rw e (ground arith), rw e (ground arith))

  completed_lem :
      (thread now p : ℕ) (timer : Timer hs) (mm : MetricsManager hs)
      → timer.metric ≡ some p
      → (mm' : MetricsManager hs) × (completed hs thread now timer mm ≡ some mm')
  unfolding completed
  completed_lem thread now p timer mm started = (
    record mm {
      store = modify hs (add_latency_sample hs thread (now - timer.start_time)) p mm.store;
    },
    simp (started, completed),
  )

  -- An OK for the oldest request that is pending.
  read_first :
      (thread now ledger id p : ℕ) (timer : Timer hs) (rest : List (ℕ × Timer hs))
      (t : AddEntryTask Buf hs) (mm : MetricsManager hs)
      → t.pending_requests ≡ (id, timer) ∷ rest
      → timer.metric ≡ some p
      → (mm' : MetricsManager hs) × (read Buf wrap_buffer hs thread now (ok_for ledger id) t mm
          ≡ done (record t { pending_requests = rest }, mm'))
  unfolding read is_ok
  read_first thread now ledger id p timer rest t mm e started =
      let (found, erased) = find_first id timer rest t.pending_requests e in
      let (mm', run) = completed_lem thread now p timer mm started in
      (mm', simp (found, run, erased, read))

  pub reads_lem :
      (thread now ledger p : ℕ) (ids : List ℕ) (pending : List (ℕ × Timer hs))
      (t : AddEntryTask Buf hs) (mm : MetricsManager hs)
      → t.pending_requests ≡ pending
      → map key pending ≡ ids
      → AreStarted hs p pending
      → (t' : AddEntryTask Buf hs) × (mm' : MetricsManager hs) × (read_all Buf wrap_buffer hs thread
            (stamped now (acks ledger ids))
            t
            mm
          ≡ done (t', mm'))
        × (t'.pending_requests ≡ [])
  unfolding read_all
  reads_lem thread now ledger p [] [] t mm e ks a = (t, mm, refl, e)
  reads_lem thread now ledger p [] (x ∷ pending) t mm e ks a = cc
  reads_lem thread now ledger p (id ∷ ids) [] t mm e ks a = cc
  reads_lem thread now ledger p (id ∷ ids) ((i, timer) ∷ rest) t mm e ks (started, a) =
      let same : i ≡ id = cc in
      let left : map key rest ≡ ids = cc in
      let (mm1, run) = read_first thread now ledger id p timer rest t mm (rw same at e) started in
      let (t', mm', runs, none_left) =
        reads_lem thread now ledger p ids rest (record t { pending_requests = rest }) mm1 refl left
          a in
      (t', mm', rw (run, read_all) runs, none_left)

  -- The requests of a connection, as the bookie's handler takes them.
  abbrev pub arriving : ℕ → List (Request Buf) → List (ℕ × Request Buf)
  arriving frame rs = map (λ r. (frame, r)) rs

  arriving-HaveData :
      (frame : ℕ) (first : AddEntryTask Buf hs) (ids : List ℕ)
      → HaveData (arriving frame (map (request_for Buf wrap_buffer hs first) ids))
  unfolding request_for
  arriving-HaveData frame first [] = tt
  arriving-HaveData frame first (id ∷ ids) = ((_, refl), arriving-HaveData frame first ids)

  due-arriving :
      (frame : ℕ) (first : AddEntryTask Buf hs) (ids : List ℕ)
      → due (arriving frame (map (request_for Buf wrap_buffer hs first) ids))
        ≡ acks first.ledger_id ids
  unfolding request_for
  due-arriving frame first [] = refl
  due-arriving frame first (id ∷ ids) =
      ap (λ (l : List (Response Buf)). ok_for first.ledger_id id ∷ l) (due-arriving frame first ids)

module _ (io : Io) (wrap_buffer : List ℕ → io.Buf) (hs : Histograms)
    (deps : Deps (JournalEntry io.Buf)) (laws : DepsLaws (JournalEntry io.Buf) deps)
    (fsync_wal : Bool)
    (writes_succeed : (b : deps.Batch) (d : deps.Db) → (deps.write_db fsync_wal b d).0 ≡ true) where
  -- The requests that a connection of the load generator has written so far, on the bookie's side of a
  -- connection with nothing written, no future waiting, an idle journal and room in the queue for them
  -- all: the handler takes them without a wait (the dead read of `put` left out), and if every write of
  -- the database succeeds the journal thread, within one round for each and one more, writes and fulfils
  -- them and waits. The generator then reads all the answers that the bookie has written: it finds the
  -- request of each, does not exit, and has no request pending any more.
  pub session_completes :
      (first t : AddEntryTask io.Buf hs) (sent : List ℕ) (given : ℕ) (mm : MetricsManager hs)
      (thread now frame : ℕ) (c : Connection io.Buf deps) (start : List (List ℕ × List ℕ))
      → IsTask io.Buf wrap_buffer hs first sent given t
      → length sent ≤ laws.capacity
      → AtRound io deps laws c.storage.memory start [] [] [] c.storage.journal
      → c.waiting ≡ []
      → c.written ≡ []
      → (c' : Connection io.Buf deps) × (n : ℕ) × (j : Journal io.Buf deps) × (t' : AddEntryTask
          io.Buf hs)
        × (mm' : MetricsManager hs) × (BookieHandler.read_all io deps false
              (arriving io.Buf wrap_buffer hs frame t.written)
              c
            ≡ goes_on c')
        × (n ≤ suc (length sent))
        × (rounds io deps fsync_wal c'.storage.memory n c'.storage.journal ≡ goes_on j)
        × (journal_round io deps fsync_wal c'.storage.memory j ≡ waits)
        × (read_all io.Buf wrap_buffer hs thread
              (stamped io.Buf wrap_buffer hs now (fulfil_all io deps j.fulfilled c').written)
              t
              mm
            ≡ done (t', mm'))
        × (t'.pending_requests ≡ [])
  session_completes first t sent given mm thread now frame c start task room ready nobody quiet =
      let requests = map (request_for io.Buf wrap_buffer hs first) sent in
      let few : length (arriving io.Buf wrap_buffer hs frame requests) ≡ length sent =
        length-map (λ r. (frame, r)) requests
        ∙ length-map (request_for io.Buf wrap_buffer hs first) sent in
      let (c', n, j, run, short, ends, stops, _, answered, _) =
        adds_answered io deps laws start fsync_wal writes_succeed
          (arriving io.Buf wrap_buffer hs frame requests) c
          (arriving-HaveData io.Buf wrap_buffer hs frame first sent) (omega (arith, few)) ready
          nobody in
      let (t', mm', reads, none_left) =
        reads_lem io.Buf wrap_buffer hs thread now first.ledger_id t.metric sent t.pending_requests
          t mm refl task.pending task.timed in
      let answers : (fulfil_all io deps j.fulfilled c').written
          ≡ acks io.Buf wrap_buffer hs first.ledger_id sent =
        answered
        ∙ ap
            (λ (l : List (Response io.Buf)).
              l ++ due (arriving io.Buf wrap_buffer hs frame requests))
            quiet
        ∙ due-arriving io.Buf wrap_buffer hs frame first sent in
      (
        c',
        n,
        j,
        t',
        mm',
        rw task.wrote run,
        omega (arith, few),
        ends,
        stops,
        rw answers reads,
        none_left,
      )
