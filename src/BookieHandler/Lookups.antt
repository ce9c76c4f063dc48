-- ===== src/BookieHandler/Lookups.antt =====
-- What a client may look up in the database once its add is answered.
use bookie_cpp.Prelude.{
  ℕ, ◌+◌, ◌<◌, ◌≡◌, refl, sym, ap, subst, ◌∙◌, inl, inr, List, [], ◌∷◌, ◌++◌, map, some, Bool, true,
  length, length-append, length-map, arith, Option-cases,
}
use bookie_cpp.Io.{Io}
use bookie_cpp.Protocol.{Response}
use bookie_cpp.Storage.{JournalEntry, key_bytes}
use bookie_cpp.Storage.Services.{Deps, DepsLaws}
use bookie_cpp.Storage.Tracks.{Add}
use bookie_cpp.Storage.Durable.{IsFresh}
use bookie_cpp.Storage.Fates.{All}
use bookie_cpp.Storage.Frames.{Careful, IsSpared, KeysAgree}
use bookie_cpp.Storage.Frames
use bookie_cpp.Storage.Table.{lookup, Fits}
use bookie_cpp.Storage.Found.{HasOtherIds, fulfilled_add_is_found}
use bookie_cpp.BookieHandler.{Connection, read, fulfil, find_waiting, persisted}
use bookie_cpp.BookieHandler.Schedules.{
  Session, opens, reads_add, reads_other, runs, delivers, reuses, read_add_lem, read_other_lem,
}
use bookie_cpp.BookieHandler.Durability.{promise_to, answer_to, value_added, Live, Session-Live}

module _ (io : Io) (deps : Deps (JournalEntry io.Buf)) (laws : DepsLaws (JournalEntry io.Buf) deps)
    (fsync_wal : Bool) where
  -- No one has written over the frame of a queued key.
  abbrev pub IsTidy :
      {first c : Connection io.Buf deps} {adds : List (Add io.Buf)} {delivered : List ℕ}
      → Session io deps fsync_wal first adds delivered c
      → Type 0
  IsTidy opens = Unit {0}
  IsTidy (reads_add {c = c} frame r d before op has run) =
      IsSpared io deps laws fsync_wal frame c.storage.journal.queue × IsTidy before
  IsTidy (reads_other frame r before other run) = IsTidy before
  IsTidy (runs j before step) = IsTidy before
  IsTidy (delivers p later before arrives) = IsTidy before
  IsTidy (reuses {c = c} memory before) =
      KeysAgree io deps laws fsync_wal c.storage.memory memory c.storage.journal.queue
      × IsTidy before

  fulfil-storage : (p : ℕ) (c : Connection io.Buf deps) → (fulfil io deps p c).storage ≡ c.storage
  unfolding fulfil persisted
  fulfil-storage p c = elim (Option-cases (find_waiting io deps p c.waiting)) [
    | inl nobody ↦ rw (fulfil, nobody) refl
    | inr ((w, ws), waits) ↦ rw (fulfil, waits) refl
  ]

  Session-Careful :
      (first : Connection io.Buf deps) {adds : List (Add io.Buf)} {delivered : List ℕ}
      {c : Connection io.Buf deps} (session : Session io deps fsync_wal first adds delivered c)
      → IsTidy session
      → Careful io deps laws fsync_wal first.storage adds c.storage
  unfolding read
  Session-Careful first opens tidy = Frames.begins
  Session-Careful first (reads_add {adds = adds} {c = c} {c' = c'} frame r d before op has run)
        (spared, tidy) =
      let (s, put_it, same) = read_add_lem io deps frame r d c c' op has run in
      subst
        (λ (x : Connection io.Buf deps).
          Careful io deps laws fsync_wal first.storage
            (adds
              ++ (record {
                item = record { key = frame; payload = d; promise = c.storage.next_promise };
                ledger_id = r.ledger_id;
                entry_id = r.entry_id;
              })
                ∷ [])
            x.storage)
        same
        (Frames.puts_entry frame r.ledger_id r.entry_id c.storage.next_promise d
          (Session-Careful first before tidy) spared put_it)
  Session-Careful first (reads_other {adds = adds} {c = c} {c' = c'} frame r before other run)
        tidy =
      subst
        (λ (x : Connection io.Buf deps).
          Careful io deps laws fsync_wal first.storage adds x.storage)
        (read_other_lem io deps r.op_code frame r c c' other run)
        (Session-Careful first before tidy)
  Session-Careful first (runs j before step) tidy =
      Frames.runs_round j (Session-Careful first before tidy) step
  Session-Careful first (delivers {adds = adds} {c = c} p later before arrives) tidy =
      subst (Careful io deps laws fsync_wal first.storage adds) (sym (fulfil-storage p c))
        (Session-Careful first before tidy)
  Session-Careful first (reuses memory before) (agree, tidy) =
      Frames.reuses_stack memory (Session-Careful first before tidy) agree

module _ (io : Io) (deps : Deps (JournalEntry io.Buf)) (laws : DepsLaws (JournalEntry io.Buf) deps)
    (fsync_wal : Bool)
    (writes_succeed : (b : deps.Batch) (d : deps.Db) → (deps.write_db fsync_wal b d).0 ≡ true) where
  -- The adds that are answered are no more than the promises fulfilled.
  answered_bound :
      (first : Connection io.Buf deps) (adds : List (Add io.Buf)) (delivered : List ℕ)
      (c : Connection io.Buf deps) (n : ℕ)
      → Live io deps laws fsync_wal writes_succeed first adds delivered c
      → length first.written + n < length c.written
      → n < length c.storage.journal.fulfilled
  answered_bound first adds delivered c n live answered =
      let written : length c.written ≡ length first.written + length live.answered =
        ap (λ (l : List (Response io.Buf)). length l) live.wrote
        ∙ length-append first.written (map answer_to live.answered)
        ∙ ap (λ (k : ℕ). length first.written + k) (length-map answer_to live.answered) in
      let fulfilled : length c.storage.journal.fulfilled
          ≡ length live.answered + length live.behind =
        ap (λ (l : List ℕ). length l)
          (live.within ∙ ap (λ (l : List ℕ). l ++ live.behind) live.arrived)
        ∙ length-append (map promise_to live.answered) live.behind
        ∙ ap (λ (k : ℕ). k + length live.behind) (length-map promise_to live.answered) in
      omega (arith, written, fulfilled, answered)

  -- If every write of the database succeeds, then on a connection with no future waiting, to a fresh storage
  -- with an empty database, where the ids of the adds are 64-bit numbers and no one writes over the frame of
  -- a key that is still queued: at every moment, however reads of requests (the dead read of `put` left out),
  -- rounds of the journal thread, arrivals of fulfilments, in their order, and other code's writes to the
  -- stack interleave, an add that is answered and that no add behind it shares its ids with is found in the
  -- database: under the key that the code makes of its ids lies its first buffer.
  pub answered_add_is_found :
      (first : Connection io.Buf deps) (adds : List (Add io.Buf)) (delivered : List ℕ)
      (c : Connection io.Buf deps) (before after : List (Add io.Buf)) (a : Add io.Buf)
      → IsFresh io deps laws first.storage
      → first.waiting ≡ []
      → laws.log first.storage.journal.db ≡ []
      → All Fits adds
      → (session : Session io deps fsync_wal first adds delivered c)
      → IsTidy io deps laws fsync_wal session
      → adds ≡ before ++ a ∷ after
      → All (HasOtherIds a) after
      → length first.written + length before < length c.written
      → lookup (key_bytes io deps a.ledger_id a.entry_id) (laws.log c.storage.journal.db)
        ≡ some (value_added io a)
  answered_add_is_found first adds delivered c before after a fresh nobody empty fits session tidy
        here others answered =
      fulfilled_add_is_found io deps laws fsync_wal writes_succeed first.storage adds c.storage
        before after a fresh empty fits (Session-Careful io deps laws fsync_wal first session tidy)
        here others
        (answered_bound first adds delivered c (length before)
          (Session-Live io deps laws fsync_wal writes_succeed first fresh nobody session) answered)
