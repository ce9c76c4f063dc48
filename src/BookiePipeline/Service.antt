-- ===== src/BookiePipeline/Service.antt =====
-- A connection serves whatever bytes its frames hold.
use bookie_cpp.Prelude.{
  ℕ, suc, ◌≤◌, ◌≡◌, ◌≢◌, refl, ap, ◌∙◌, ◌⊎◌, inl, inr, List, [], ◌∷◌, ◌++◌, map, Bool, true, false,
  none, some, Option, length, arith, ltb, Bool-cases, Option-cases,
}
use bookie_cpp.Io.{Io}
use bookie_cpp.Io.Laws.{IoLaws, bytes}
use bookie_cpp.Protocol.{Request, BookieOperation}
use bookie_cpp.Codec.{fired, from_int}
use bookie_cpp.Codec.Server.{server_read, read_body, read_add_entry, read_read_entry}
use bookie_cpp.Codec.Frames.{IsWhole, server_read_decides}
use bookie_cpp.Storage.{JournalEntry, Journal, Round, waits, goes_on, returned, journal_round}
use bookie_cpp.Storage.Services.{Deps, DepsLaws}
use bookie_cpp.Storage.Tracks.{AtRound}
use bookie_cpp.Storage.Drain.{rounds}
use bookie_cpp.BookieHandler.{Connection, read, read_all, fulfil_all}
use bookie_cpp.BookieHandler.Reads.{is_add, HasData, HaveData, due, values}
use bookie_cpp.BookieHandler.Answers.{second, adds_answered}
use bookie_cpp.BookiePipeline.{served, shut, serve_all, pass_on, handled}

abbrev is_some : {A : Type 0} → Option A → Bool
is_some none = false
is_some (some a) = true

HasData-intro :
    {Buf : Type 0} (op : BookieOperation) (payload : Option Buf)
    → (is_add op ≡ true → is_some payload ≡ true)
    → HasData op payload
HasData-intro BookieOperation.add_entry none h = cc (h refl)
HasData-intro BookieOperation.add_entry (some d) h = (d, refl)
HasData-intro BookieOperation.read_entry payload h = tt
HasData-intro BookieOperation.auth payload h = tt
HasData-intro (BookieOperation.other b) payload h = tt

module _ (io : Io) where
  read_add_entry-data :
      (request r : Request io.Buf) (c : io.Cursor)
      → read_add_entry io request c ≡ fired r
      → is_some r.payload ≡ true
  unfolding read_add_entry
  read_add_entry-data request r c e = ground arith

  read_read_entry-op :
      (request r : Request io.Buf) (c : io.Cursor)
      → read_read_entry io request c ≡ fired r
      → r.op_code ≡ request.op_code
  unfolding read_read_entry
  read_read_entry-op request r c e = ground arith

  read_body-data :
      (op : BookieOperation) (request r : Request io.Buf) (c : io.Cursor)
      → request.op_code ≡ op
      → read_body io op request c ≡ fired r
      → is_add r.op_code ≡ true
      → is_some r.payload ≡ true
  unfolding read_body
  read_body-data BookieOperation.add_entry request r c o e h = read_add_entry-data request r c e
  read_body-data BookieOperation.read_entry request r c o e h =
      cc (ap is_add (read_read_entry-op request r c e ∙ o))
  read_body-data BookieOperation.auth request r c o e h = ground arith
  read_body-data (BookieOperation.other b) request r c o e h = ground arith

  -- What the server's codec fires has data if it is an add.
  server_read-HasData :
      (junk r : Request io.Buf) (buf : io.Buf)
      → server_read io junk (some buf) ≡ fired r
      → HasData r.op_code r.payload
  unfolding server_read
  server_read-HasData junk r buf e = HasData-intro r.op_code r.payload λ h.
      elim (Bool-cases (ltb (io.total_length (io.cursor buf)) 4)) [
        | inl short ↦ cc (rw short at e)
        | inr enough ↦ elim (Option-cases (io.read_be 4 (io.cursor buf))) [
          | inl none_there ↦ cc (rw (enough, none_there) at e)
          | inr ((word, c), run) ↦
              read_body-data (from_int word).op_code _ r c refl (rw (enough, run) at e) h
        ]
      ]

  -- The requests in frames, up to the first frame that is cut short.
  unfoldable pub requests_in : Request io.Buf → List (ℕ × io.Buf) → List (ℕ × Request io.Buf)
  requests_in junk [] = []
  requests_in junk ((frame, buf) ∷ rest) =
      let later = requests_in junk rest in
      elim (server_read io junk (some buf)) [ fired r ↦ (frame, r) ∷ later | _ ↦ [] ]

  -- Every frame is whole.
  abbrev pub AreWhole : List (ℕ × io.Buf) → Type 0
  AreWhole [] = Unit {0}
  AreWhole ((frame, buf) ∷ rest) = IsWhole (bytes io buf) × AreWhole rest

-- A round goes on, or it is anything else.
Round-cases : {A : Type 0} (r : Round A) → ((a : A) × (r ≡ goes_on a)) ⊎ ((a : A) → r ≢ goes_on a)
Round-cases (goes_on a) = inl (a, refl)
Round-cases waits = inr (λ a e. cc)
Round-cases (returned b) = inr (λ a e. cc)
Round-cases Round.null_deref = inr (λ a e. cc)

module _ (io : Io) (io_laws : IoLaws io) (deps : Deps (JournalEntry io.Buf))
    (junk : Request io.Buf) where
  read_all_stuck :
      (frame : ℕ) (r : Request io.Buf) (rs : List (ℕ × Request io.Buf))
      (c c' : Connection io.Buf deps)
      → ((a : Connection io.Buf deps) → read io deps false frame r c ≢ goes_on a)
      → read_all io deps false ((frame, r) ∷ rs) c ≢ goes_on c'
  unfolding read_all
  read_all_stuck frame r rs c c' never =
      elim (read io deps false frame r c)
          as (λ x.
            ((a : Connection io.Buf deps) → x ≢ goes_on a)
            → elim x [
              | goes_on c1 ↦ read_all io deps false rs c1
              | waits ↦ waits
              | returned c1 ↦ returned c1
              | Round.null_deref ↦ Round.null_deref
            ]
              ≢ goes_on c') [
                | goes_on c1 ↦ λ n. absurd (n c1 refl)
                | waits ↦ λ n e. cc
                | returned c1 ↦ λ n e. cc
                | Round.null_deref ↦ λ n e. cc
              ]
        never

  requests_in-HaveData : (frames : List (ℕ × io.Buf)) → HaveData (requests_in io junk frames)
  unfolding requests_in
  requests_in-HaveData [] = tt
  requests_in-HaveData ((frame, buf) ∷ rest) = elim (server_read_decides io io_laws junk buf) [
    | inl (r, run, whole) ↦
        rw (run, requests_in) (server_read-HasData io junk r buf run, requests_in-HaveData rest)
    | inr (run, short) ↦ rw (run, requests_in) tt
  ]

  length-requests_in :
      (frames : List (ℕ × io.Buf)) → length (requests_in io junk frames) ≤ length frames
  unfolding requests_in
  length-requests_in [] = omega arith
  length-requests_in ((frame, buf) ∷ rest) = elim (server_read_decides io io_laws junk buf) [
    | inl (r, run, whole) ↦ rw (run, requests_in) (omega (arith, length-requests_in rest))
    | inr (run, short) ↦ rw (run, requests_in) (omega arith)
  ]

  -- The pipeline reads the requests in its frames.
  serve_all_lem :
      (frames : List (ℕ × io.Buf)) (c c' : Connection io.Buf deps)
      → read_all io deps false (requests_in io junk frames) c ≡ goes_on c'
      → (AreWhole io frames × (serve_all io deps junk false frames c ≡ served c'))
        ⊎ ((¬ AreWhole io frames) × (serve_all io deps junk false frames c ≡ shut c'))
  unfolding serve_all requests_in read_all
  serve_all_lem [] c c' e = inl (tt, cc)
  serve_all_lem ((frame, buf) ∷ rest) c c' e = elim (server_read_decides io io_laws junk buf) [
    | inr (run, short) ↦
        let same : c ≡ c' = cc (rw (run, requests_in) at e) in
        inr (λ w. short w.0, rw (run, serve_all, pass_on) (ap shut same))
    | inl (r, run, whole) ↦
        let e' : read_all io deps false ((frame, r) ∷ requests_in io junk rest) c ≡ goes_on c' =
          rw (run, requests_in) at e in
        elim (Round-cases (read io deps false frame r c)) [
          | inr never ↦ absurd (read_all_stuck frame r (requests_in io junk rest) c c' never e')
          | inl (c1, step) ↦
              let opened : serve_all io deps junk false ((frame, buf) ∷ rest) c
                  ≡ serve_all io deps junk false rest c1 =
                rw (run, serve_all, pass_on, step, handled) in
              elim (serve_all_lem rest c1 c' (rw (step, read_all) at e')) [
                | inl (w, s) ↦ inl ((whole, w), opened ∙ s)
                | inr (n, s) ↦ inr (λ w. n w.1, opened ∙ s)
              ]
        ]
  ]

module _ (io : Io) (io_laws : IoLaws io) (deps : Deps (JournalEntry io.Buf))
    (laws : DepsLaws (JournalEntry io.Buf) deps) (fsync_wal : Bool)
    (writes_succeed : (b : deps.Batch) (d : deps.Db) → (deps.write_db fsync_wal b d).0 ≡ true) where
  -- Frames with any bytes, no more of them than the queue has room for, the dead read of `put` left out,
  -- on a connection with no future waiting and with an idle journal: no thread waits, nothing is thrown
  -- and nothing crashes. If all frames are whole, they are served; otherwise they are served up to the
  -- first that is not, at which the channel is asked to close. From the connection as it stands then, if
  -- every write of the database succeeds and no more is read, the journal thread, within one round for
  -- each frame and one more, writes the values of the adds among the requests so far, and waits. If all
  -- frames are whole, each of these adds, and nothing else, is then answered with an OK and its ids, in
  -- order.
  pub frames_are_served :
      (junk : Request io.Buf) (frames : List (ℕ × io.Buf)) (c : Connection io.Buf deps)
      (start : List (List ℕ × List ℕ))
      → length frames ≤ laws.capacity
      → AtRound io deps laws c.storage.memory start [] [] [] c.storage.journal
      → c.waiting ≡ []
      → (c' : Connection io.Buf deps) × (n : ℕ) × (j : Journal io.Buf deps) × ((AreWhole io frames
            × (serve_all io deps junk false frames c ≡ served c')
            × ((fulfil_all io deps j.fulfilled c').written
                ≡ c.written ++ due (requests_in io junk frames))
            × ((fulfil_all io deps j.fulfilled c').waiting ≡ []))
          ⊎ ((¬ AreWhole io frames) × (serve_all io deps junk false frames c ≡ shut c')))
        × (n ≤ suc (length frames))
        × (rounds io deps fsync_wal c'.storage.memory n c'.storage.journal ≡ goes_on j)
        × (journal_round io deps fsync_wal c'.storage.memory j ≡ waits)
        × (map second (laws.log j.db) ≡ map second start ++ values io (requests_in io junk frames))
  frames_are_served junk frames c start room ready nobody =
      let few = length-requests_in io io_laws deps junk frames in
      let (c', n, j, run, short, ends, stops, logged, answered, none_left) =
        adds_answered io deps laws start fsync_wal writes_succeed (requests_in io junk frames) c
          (requests_in-HaveData io io_laws deps junk frames) (omega arith) ready nobody in
      (
        c',
        n,
        j,
        elim (serve_all_lem io io_laws deps junk frames c c' run) [
          | inl (whole, served_all) ↦ inl (whole, served_all, answered, none_left)
          | inr cut ↦ inr cut
        ],
        omega arith,
        ends,
        stops,
        logged,
      )
