-- ===== src/BookieHandler/Reads.antt =====
-- What requests leave in the queue, and the futures that wait for it.
use bookie_cpp.Prelude.{
  ℕ, suc, ◌+◌, ◌≤◌, ◌<◌, ◌≡◌, refl, sym, ap, ◌∙◌, List, [], ◌∷◌, ◌++◌, map, Option, none, some,
  Bool, true, false, length, length-append, length-map, arith, if◌then◌else◌,
}
use mathlib.Core.List.{append_assoc, append-nil, map-append}
use bookie_cpp.Io.{Io, first_segment}
use bookie_cpp.Protocol.{Request, Response, BookieOperation, BookieError}
use bookie_cpp.Storage.{JournalEntry, goes_on}
use bookie_cpp.Storage.Services.{Deps, DepsLaws}
use bookie_cpp.Storage.Tracks.{Item, entry_of, promise_of, AtRound}
use bookie_cpp.Storage.Puts.{put_lem}
use bookie_cpp.BookieHandler.{
  Waiting, Connection, add_entry, attach, handle_add_entry, handle_read_entry, read_as, read,
  read_all,
}

abbrev pub is_add : BookieOperation → Bool
is_add BookieOperation.add_entry = true
is_add BookieOperation.read_entry = false
is_add BookieOperation.auth = false
is_add (BookieOperation.other b) = false

-- Add requests have data, as those that the codec delivers.
abbrev pub HasData : {Buf : Type 0} → BookieOperation → Option Buf → Type 0
HasData BookieOperation.add_entry payload = (d : _) × (payload ≡ some d)
HasData BookieOperation.read_entry payload = Unit
HasData BookieOperation.auth payload = Unit
HasData (BookieOperation.other b) payload = Unit

abbrev pub HaveData : {Buf : Type 0} → List (ℕ × Request Buf) → Type 0
HaveData [] = Unit
HaveData ((frame, r) ∷ rs) = HasData r.op_code r.payload × HaveData rs

-- The answer to an add that was persisted.
abbrev pub ok_for : {Buf : Type 0} → ℕ → ℕ → Response Buf
ok_for ledger_id entry_id = record {
  protocol_version = 2;
  op_code = BookieOperation.add_entry;
  error_code = BookieError.ok;
  ledger_id = ledger_id;
  entry_id = entry_id;
  payload = none;
}

-- The answers that requests are due: an OK with its ids for each add.
abbrev pub due : {Buf : Type 0} → List (ℕ × Request Buf) → List (Response Buf)
due [] = []
due ((frame, r) ∷ rs) =
    let rest = due rs in if is_add r.op_code then ok_for r.ledger_id r.entry_id ∷ rest else rest

abbrev pub value_of : (io : Io) → Option io.Buf → List ℕ
value_of io none = []
value_of io (some d) = first_segment io d

-- The values that requests have stored: the first buffer of each add's data.
abbrev pub values : (io : Io) → List (ℕ × Request io.Buf) → List (List ℕ)
values io [] = []
values io ((frame, r) ∷ rs) =
    let rest = values io rs in if is_add r.op_code then value_of io r.payload ∷ rest else rest

abbrev pub promise_in : Waiting → ℕ
promise_in w = w.promise

abbrev pub ok : (io : Io) → Waiting → Response io.Buf
ok io w = ok_for w.ledger_id w.entry_id

abbrev pub value_in : (io : Io) → Item io.Buf → List ℕ
value_in io i = first_segment io i.payload

module _ (io : Io) (deps : Deps (JournalEntry io.Buf)) (laws : DepsLaws (JournalEntry io.Buf) deps)
    (start : List (List ℕ × List ℕ)) where
  -- The futures that wait are those of the queued entries, in order.
  pub record Queued (items : List (Item io.Buf)) (c : Connection io.Buf deps) : Type 0 where
    pub journal : AtRound io deps laws c.storage.memory start [] [] items c.storage.journal
    pub futures : map promise_of items ≡ map promise_in c.waiting

  handle_add_lem :
      (frame : ℕ) (r : Request io.Buf) (d : io.Buf) (items : List (Item io.Buf))
      (c : Connection io.Buf deps)
      → r.payload ≡ some d
      → length items < laws.capacity
      → Queued items c
      → (c' : Connection io.Buf deps) × (i : Item io.Buf) × (handle_add_entry io deps false frame r
            c
          ≡ goes_on c')
        × Queued (items ++ i ∷ []) c'
        × (map (ok io) c'.waiting ≡ map (ok io) c.waiting ++ ok_for r.ledger_id r.entry_id ∷ [])
        × (c'.written ≡ c.written)
        × (value_in io i ≡ first_segment io d)
  unfolding handle_add_entry add_entry attach
  handle_add_lem frame r d items c has room q =
      let (s', run, _, _, ready) =
        put_lem io deps laws frame r.ledger_id r.entry_id d c.storage start items
          (omega (arith, ap length q.journal.tracks.waiting, length-map entry_of items))
          q.journal in
      let w : Waiting = record {
        promise = c.storage.next_promise;
        ledger_id = r.ledger_id;
        entry_id = r.entry_id;
      } in
      (
        record c { storage = s'; waiting = c.waiting ++ w ∷ [] },
        record { key = frame; payload = d; promise = c.storage.next_promise },
        rw (has, run, attach),
        record {
          journal = ready;
          futures =
              rw (map-append promise_of items, map-append promise_in c.waiting (w ∷ []), q.futures);
        },
        map-append (ok io) c.waiting (w ∷ []),
        refl,
        refl,
      )

  read_lem :
      (op : BookieOperation) (frame : ℕ) (r : Request io.Buf) (items : List (Item io.Buf))
      (c : Connection io.Buf deps)
      → HasData op r.payload
      → length items < laws.capacity
      → Queued items c
      → (c' : Connection io.Buf deps) × (items' : List (Item io.Buf)) × (read_as io deps op false
            frame r c
          ≡ goes_on c')
        × Queued items' c'
        × (length items' ≤ suc (length items))
        × (map (ok io) c'.waiting
            ≡ map (ok io) c.waiting
              ++ (if is_add op then ok_for r.ledger_id r.entry_id ∷ [] else []))
        × (c'.written ≡ c.written)
        × (map (value_in io) items'
            ≡ map (value_in io) items ++ (if is_add op then value_of io r.payload ∷ [] else []))
  unfolding read_as handle_read_entry
  read_lem BookieOperation.add_entry frame r items c (d, has) room q =
      let (c', i, run, q', answers, same, value) = handle_add_lem frame r d items c has room q in
      (
        c',
        items ++ i ∷ [],
        run,
        q',
        omega (arith, length-append items (i ∷ [])),
        answers,
        same,
        map-append (value_in io) items (i ∷ [])
            ∙ ap (λ (v : List ℕ). map (value_in io) items ++ v ∷ [])
                (value ∙ sym (ap (value_of io) has)),
      )
  read_lem BookieOperation.read_entry frame r items c h room q =
      (c, items, refl, q, omega arith, sym (append-nil _), refl, sym (append-nil _))
  read_lem BookieOperation.auth frame r items c h room q =
      (c, items, refl, q, omega arith, sym (append-nil _), refl, sym (append-nil _))
  read_lem (BookieOperation.other b) frame r items c h room q =
      (c, items, refl, q, omega arith, sym (append-nil _), refl, sym (append-nil _))

  due-cons :
      {A : Type 0} (b : Bool) (x : A) (xs : List A)
      → (if b then x ∷ [] else []) ++ xs ≡ (if b then x ∷ xs else xs)
  due-cons true x xs = refl
  due-cons false x xs = refl

  pub read_all_lem :
      (requests : List (ℕ × Request io.Buf)) (items : List (Item io.Buf))
      (c : Connection io.Buf deps)
      → HaveData requests
      → length items + length requests ≤ laws.capacity
      → Queued items c
      → (c' : Connection io.Buf deps) × (items' : List (Item io.Buf)) × (read_all io deps false
            requests c
          ≡ goes_on c')
        × Queued items' c'
        × (length items' ≤ length items + length requests)
        × (map (ok io) c'.waiting ≡ map (ok io) c.waiting ++ due requests)
        × (c'.written ≡ c.written)
        × (map (value_in io) items' ≡ map (value_in io) items ++ values io requests)
  unfolding read_all read
  read_all_lem [] items c h room q =
      (c, items, refl, q, omega arith, sym (append-nil _), refl, sym (append-nil _))
  read_all_lem ((frame, r) ∷ rs) items c (has, h) room q =
      let (c1, items1, run, q1, short, answers, same, kept) =
        read_lem r.op_code frame r items c has (omega arith) q in
      let (c', items', run', q', short', answers', same', kept') =
        read_all_lem rs items1 c1 h (omega arith) q1 in
      (
        c',
        items',
        rw (run, read_all) run',
        q',
        omega arith,
        answers'
            ∙ ap (λ (l : List (Response io.Buf)). l ++ due rs) answers
            ∙ append_assoc (map (ok io) c.waiting) _ (due rs)
            ∙ ap (λ (l : List (Response io.Buf)). map (ok io) c.waiting ++ l)
                (due-cons (is_add r.op_code) _ (due rs)),
        same' ∙ same,
        kept'
            ∙ ap (λ (l : List (List ℕ)). l ++ values io rs) kept
            ∙ append_assoc (map (value_in io) items) _ (values io rs)
            ∙ ap (λ (l : List (List ℕ)). map (value_in io) items ++ l)
                (due-cons (is_add r.op_code) _ (values io rs)),
      )
