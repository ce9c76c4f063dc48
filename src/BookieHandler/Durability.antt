-- ===== src/BookieHandler/Durability.antt =====
-- What a client may conclude from an answer.
use bookie_cpp.Prelude.{
  ℕ, ◌≡◌, refl, sym, ap, subst, ◌∙◌, List, [], ◌∷◌, ◌++◌, map, map-map, some, Bool, true, false,
}
use mathlib.Core.List.{append_assoc, append-nil, map-append}
use bookie_cpp.Io.{Io, first_segment}
use bookie_cpp.Protocol.{Request, Response, BookieOperation}
use bookie_cpp.Storage.{JournalEntry, goes_on}
use bookie_cpp.Storage.Services.{Deps, DepsLaws}
use bookie_cpp.Storage.Tracks.{Item, promise_of, Add, item_of}
use bookie_cpp.Storage.Schedules.{
  Schedule, begins, puts_entry, runs_round, reuses_stack, value_of_item, value_of_put,
}
use bookie_cpp.Storage.Grows.{put_fulfils_none, Grows, journal_round-Grows}
use bookie_cpp.Storage.Durable.{IsFresh, acked_are_written}
use bookie_cpp.BookieHandler.{Waiting, Connection, read, fulfil}
use bookie_cpp.BookieHandler.Reads.{ok_for}
use bookie_cpp.BookieHandler.Answers.{fulfil_first}
use bookie_cpp.BookieHandler.Schedules.{
  future_of, Session, opens, reads_add, reads_other, runs, delivers, reuses, read_add_lem,
  read_other_lem,
}

abbrev pub promise_to : {Buf : Type 0} → Add Buf → ℕ
promise_to a = a.item.promise

abbrev pub answer_to : {Buf : Type 0} → Add Buf → Response Buf
answer_to a = ok_for a.ledger_id a.entry_id

abbrev pub value_added : (io : Io) → Add io.Buf → List ℕ
value_added io a = first_segment io a.item.payload

-- The add whose promise is fulfilled next is the first one that is not answered.
next_is_first :
    {Buf : Type 0} (answered outstanding : List (Add Buf)) (done lat : List (Item Buf)) (p : ℕ)
    (later : List ℕ)
    → map item_of (answered ++ outstanding) ≡ done ++ lat
    → map promise_of done ≡ map promise_to answered ++ p ∷ later
    → (a : Add Buf) × (rest : List (Add Buf)) × (outstanding ≡ a ∷ rest) × (promise_to a ≡ p)
next_is_first [] [] [] lat p later order acked = cc
next_is_first [] [] (i ∷ is) lat p later order acked = cc
next_is_first [] (a ∷ rest) [] lat p later order acked = cc
next_is_first [] (a ∷ rest) (i ∷ is) lat p later order acked = (a, rest, refl, cc)
next_is_first (b ∷ bs) outstanding [] lat p later order acked = cc
next_is_first (b ∷ bs) outstanding (i ∷ is) lat p later order acked =
    next_is_first bs outstanding is lat p later (cc) (cc)

-- What was answered was done.
answered_are_done :
    {Buf : Type 0} (answered outstanding : List (Add Buf)) (done lat : List (Item Buf))
    (behind : List ℕ)
    → map item_of (answered ++ outstanding) ≡ done ++ lat
    → map promise_of done ≡ map promise_to answered ++ behind
    → (more : List (Item Buf)) × (done ≡ map item_of answered ++ more)
answered_are_done [] outstanding done lat behind order acked = (done, refl)
answered_are_done (b ∷ bs) outstanding [] lat behind order acked = cc
answered_are_done (b ∷ bs) outstanding (i ∷ is) lat behind order acked =
    let (more, rest) = answered_are_done bs outstanding is lat behind (cc) (cc) in (more, cc)

module _ (io : Io) (deps : Deps (JournalEntry io.Buf)) (laws : DepsLaws (JournalEntry io.Buf) deps)
    (fsync_wal : Bool)
    (writes_succeed : (b : deps.Batch) (d : deps.Db) → (deps.write_db fsync_wal b d).0 ≡ true) where
  -- The adds that were answered and the others, of which the futures wait.
  pub record Live (first : Connection io.Buf deps) (adds : List (Add io.Buf)) (delivered : List ℕ)
      (c : Connection io.Buf deps) : Type 0 where
    pub answered : List (Add io.Buf)
    pub outstanding : List (Add io.Buf)
    pub behind : List ℕ
    pub schedule : Schedule io deps fsync_wal first.storage (map item_of adds) c.storage
    pub split : adds ≡ answered ++ outstanding
    pub futures : c.waiting ≡ map future_of outstanding
    pub arrived : delivered ≡ map promise_to answered
    pub wrote : c.written ≡ first.written ++ map answer_to answered
    pub within : c.storage.journal.fulfilled ≡ delivered ++ behind

  deliver-Live :
      (first : Connection io.Buf deps) (adds : List (Add io.Buf)) (delivered : List ℕ)
      (c : Connection io.Buf deps) (p : ℕ) (later : List ℕ)
      → IsFresh io deps laws first.storage
      → Live first adds delivered c
      → c.storage.journal.fulfilled ≡ delivered ++ p ∷ later
      → Live first adds (delivered ++ p ∷ []) (fulfil io deps p c)
  deliver-Live first adds delivered c p later fresh live arrives =
      let (done, lat, order, acked, _) =
        acked_are_written io deps laws fsync_wal writes_succeed first.storage (map item_of adds)
          c.storage fresh live.schedule in
      let (a, rest, next, its) =
        next_is_first live.answered live.outstanding done lat p later
          (sym (ap (map item_of) live.split) ∙ order)
          (sym acked ∙ arrives ∙ ap (λ (l : List ℕ). l ++ p ∷ later) live.arrived) in
      let waits_first : c.waiting ≡ future_of a ∷ map future_of rest =
        live.futures ∙ ap (map future_of) next in
      let answers = fulfil_first io deps laws [] (future_of a) (map future_of rest) c waits_first in
      subst (λ (q : ℕ). Live first adds (delivered ++ q ∷ []) (fulfil io deps q c)) its
        (rw answers (record {
          answered = live.answered ++ a ∷ [];
          outstanding = rest;
          behind = later;
          schedule = live.schedule;
          split =
              live.split
              ∙ ap (λ (l : List (Add io.Buf)). live.answered ++ l) next
              ∙ sym (append_assoc live.answered (a ∷ []) rest);
          futures = refl;
          arrived =
              ap (λ (l : List ℕ). l ++ promise_to a ∷ []) live.arrived
              ∙ sym (map-append promise_to live.answered (a ∷ []));
          wrote =
              ap (λ (l : List (Response io.Buf)). l ++ answer_to a ∷ []) live.wrote
              ∙ append_assoc first.written (map answer_to live.answered) (answer_to a ∷ [])
              ∙ ap (λ (l : List (Response io.Buf)). first.written ++ l)
                  (sym (map-append answer_to live.answered (a ∷ [])));
          within =
              arrives
              ∙ ap (λ (q : ℕ). delivered ++ q ∷ later) (sym its)
              ∙ sym (append_assoc delivered (promise_to a ∷ []) later);
        }))

  add-Live :
      (first : Connection io.Buf deps) (adds : List (Add io.Buf)) (delivered : List ℕ)
      (c c' : Connection io.Buf deps) (frame : ℕ) (r : Request io.Buf) (d : io.Buf)
      → Live first adds delivered c
      → r.op_code ≡ BookieOperation.add_entry
      → r.payload ≡ some d
      → read io deps false frame r c ≡ goes_on c'
      → Live first
          (adds
            ++ (record {
              item = record { key = frame; payload = d; promise = c.storage.next_promise };
              ledger_id = r.ledger_id;
              entry_id = r.entry_id;
            })
              ∷ [])
          delivered
          c'
  add-Live first adds delivered c c' frame r d live op has run =
      let (s, put_it, same) = read_add_lem io deps frame r d c c' op has run in
      let a : Add io.Buf = record {
        item = record { key = frame; payload = d; promise = c.storage.next_promise };
        ledger_id = r.ledger_id;
        entry_id = r.entry_id;
      } in
      subst (Live first (adds ++ a ∷ []) delivered) same (record {
        answered = live.answered;
        outstanding = live.outstanding ++ a ∷ [];
        behind = live.behind;
        schedule =
            subst (λ (h : List (Item io.Buf)). Schedule io deps fsync_wal first.storage h s)
              (sym (map-append item_of adds (a ∷ [])))
              (puts_entry frame r.ledger_id r.entry_id c.storage.next_promise d live.schedule
                put_it);
        split =
            ap (λ (l : List (Add io.Buf)). l ++ a ∷ []) live.split
            ∙ append_assoc live.answered live.outstanding (a ∷ []);
        futures =
            ap (λ (l : List Waiting). l ++ future_of a ∷ []) live.futures
            ∙ sym (map-append future_of live.outstanding (a ∷ []));
        arrived = live.arrived;
        wrote = live.wrote;
        within =
            sym (
              put_fulfils_none io deps frame r.ledger_id r.entry_id d c.storage s
                c.storage.next_promise put_it)
            ∙ live.within;
      })

  pub Session-Live :
      (first : Connection io.Buf deps)
      → IsFresh io deps laws first.storage
      → first.waiting ≡ []
      → {adds : List (Add io.Buf)} {delivered : List ℕ} {c : Connection io.Buf deps}
      → Session io deps fsync_wal first adds delivered c
      → Live first adds delivered c
  unfolding Grows read
  Session-Live first fresh nobody opens = record {
    answered = [];
    outstanding = [];
    behind = [];
    schedule = begins;
    split = refl;
    futures = nobody;
    arrived = refl;
    wrote = sym (append-nil first.written);
    within = fresh.acked;
  }
  Session-Live first fresh nobody
        (reads_add {adds = adds} {delivered = delivered} {c = c} {c' = c'} frame r d before op has
          run) =
      add-Live first adds delivered c c' frame r d (Session-Live first fresh nobody before) op has
        run
  Session-Live first fresh nobody
        (reads_other {adds = adds} {delivered = delivered} {c = c} {c' = c'} frame r before other
          run) =
      subst (Live first adds delivered) (read_other_lem io deps r.op_code frame r c c' other run)
        (Session-Live first fresh nobody before)
  Session-Live first fresh nobody
        (runs {adds = adds} {delivered = delivered} {c = c} j before step) =
      let live = Session-Live first fresh nobody before in
      let (more, grown) =
        journal_round-Grows io deps fsync_wal c.storage.memory c.storage.journal j step in
      record {
        answered = live.answered;
        outstanding = live.outstanding;
        behind = live.behind ++ more;
        schedule = runs_round j live.schedule step;
        split = live.split;
        futures = live.futures;
        arrived = live.arrived;
        wrote = live.wrote;
        within =
            grown
            ∙ ap (λ (l : List ℕ). l ++ more) live.within
            ∙ append_assoc delivered live.behind more;
      }
  Session-Live first fresh nobody
        (delivers {adds = adds} {delivered = delivered} {c = c} p later before arrives) =
      deliver-Live first adds delivered c p later fresh (Session-Live first fresh nobody before)
        arrives
  Session-Live first fresh nobody
        (reuses {adds = adds} {delivered = delivered} {c = c} memory before) =
      let live = Session-Live first fresh nobody before in
      record {
        answered = live.answered;
        outstanding = live.outstanding;
        behind = live.behind;
        schedule = reuses_stack memory live.schedule;
        split = live.split;
        futures = live.futures;
        arrived = live.arrived;
        wrote = live.wrote;
        within = live.within;
      }

  -- If every write of the database succeeds, then on a connection with no future waiting, to a fresh
  -- storage, at every moment, however reads of requests (the dead read of `put` left out), rounds of the
  -- journal thread, arrivals of fulfilments, in their order, and other code's writes to the stack interleave:
  -- the answers written are an OK with its ids for each of the adds read first, in order; just the futures of
  -- the other adds wait; and the values written to the database since the start begin with the first buffers
  -- of the answered adds, in order.
  pub answers_are_durable :
      (first : Connection io.Buf deps) (adds : List (Add io.Buf)) (delivered : List ℕ)
      (c : Connection io.Buf deps)
      → IsFresh io deps laws first.storage
      → first.waiting ≡ []
      → Session io deps fsync_wal first adds delivered c
      → (answered : List (Add io.Buf)) × (outstanding : List (Add io.Buf)) × (more : List (List ℕ))
        × (adds ≡ answered ++ outstanding)
        × (c.written ≡ first.written ++ map answer_to answered)
        × (c.waiting ≡ map future_of outstanding)
        × (map value_of_put (laws.log c.storage.journal.db)
            ≡ map value_of_put (laws.log first.storage.journal.db)
              ++ (map (value_added io) answered ++ more))
  answers_are_durable first adds delivered c fresh nobody session =
      let live = Session-Live first fresh nobody session in
      let (done, lat, order, acked, logged) =
        acked_are_written io deps laws fsync_wal writes_succeed first.storage (map item_of adds)
          c.storage fresh live.schedule in
      let (more, begins_so) =
        answered_are_done live.answered live.outstanding done lat live.behind
          (sym (ap (map item_of) live.split) ∙ order)
          (sym acked ∙ live.within ∙ ap (λ (l : List ℕ). l ++ live.behind) live.arrived) in
      (
        live.answered,
        live.outstanding,
        map (value_of_item io) more,
        live.split,
        live.wrote,
        live.futures,
        logged
            ∙ ap (λ (l : List (List ℕ)). map value_of_put (laws.log first.storage.journal.db) ++ l)
                (ap (map (value_of_item io)) begins_so
                  ∙ map-append (value_of_item io) (map item_of live.answered) more
                  ∙ ap (λ (l : List (List ℕ)). l ++ map (value_of_item io) more)
                      (map-map (value_of_item io) item_of (value_added io) (λ a. refl)
                        live.answered)),
      )
