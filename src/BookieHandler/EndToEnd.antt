-- ===== src/BookieHandler/EndToEnd.antt =====
-- An add from the client's codec to the bookie and back.
use bookie_cpp.Prelude.{
  ◌+◌, length, ℕ, ◌%◌, ◌^◌, ◌≤◌, ◌<◌, ◌≡◌, refl, ap, ◌∙◌, List, [], ◌∷◌, ◌++◌, map, some, Bool,
  true, false, arith,
}
use bookie_cpp.Io.{Io, first_segment, buf_length}
use bookie_cpp.Io.Laws.{IoLaws, bytes}
use bookie_cpp.Protocol.{max_frame_size, Request, Response, BookieOperation}
use bookie_cpp.Codec.{fired}
use bookie_cpp.Codec.Server.{server_read, server_write}
use bookie_cpp.Codec.Client.{client_read, client_write}
use bookie_cpp.Codec.RoundTrip.{
  IsDecoder, IsRequest, IsResponse, server_read-client_write, client_read-server_write,
}
use bookie_cpp.Storage.{JournalEntry, Journal, waits, goes_on, journal_round}
use bookie_cpp.Storage.Services.{Deps, DepsLaws}
use bookie_cpp.Storage.Tracks.{AtRound}
use bookie_cpp.Storage.Drain.{rounds}
use bookie_cpp.BookieHandler.{Connection, read_all, fulfil_all}
use bookie_cpp.BookieHandler.Reads.{ok_for}
use bookie_cpp.BookieHandler.Answers.{second, adds_answered}

ok_for-IsResponse :
    {Buf : Type 0} (l e : ℕ) → l < 2 ^ 64 → e < 2 ^ 64 → IsResponse {Buf = Buf} (ok_for l e)
ok_for-IsResponse l e hl he = record {
  header = record { version_fits = omega arith; op_known = tt; flags_fit = omega arith };
  error_known = tt;
  ledger_fits = hl;
  entry_fits = he;
}

module _ (io : Io) (io_laws : IoLaws io) (decode : io.Buf → io.Buf) (decodes : IsDecoder io decode)
    (deps : Deps (JournalEntry io.Buf)) (laws : DepsLaws (JournalEntry io.Buf) deps)
    (fsync_wal : Bool)
    (writes_succeed : (b : deps.Batch) (d : deps.Db) → (deps.write_db fsync_wal b d).0 ≡ true) where
  -- An add with data in one buffer that fits the longest frame and with fields that fit their types, on a
  -- connection with no future waiting and with an idle journal, goes all the way if every write of the
  -- database succeeds: the client's codec writes it; the server's codec reads, from what the frame decoder
  -- makes of it, a request with all the bytes of the data; the handler reads that request without a wait; the
  -- journal thread writes one value, in two rounds at most, and waits; one answer is written, and the
  -- client's codec reads it back, from what its frame decoder makes of it, as an OK with the ids of the add.
  pub add_returns :
      (r junk : Request io.Buf) (payload : io.Buf) (junk_response : Response io.Buf) (frame : ℕ)
      (c : Connection io.Buf deps) (start : List (List ℕ × List ℕ))
      → IsRequest r
      → r.op_code ≡ BookieOperation.add_entry
      → r.payload ≡ some payload
      → buf_length io payload ≡ length (bytes io payload)
      → 44 + length (bytes io payload) ≤ max_frame_size
      → 1 ≤ laws.capacity
      → AtRound io deps laws c.storage.memory start [] [] [] c.storage.journal
      → c.waiting ≡ []
      → (b : io.Buf) × (d : io.Buf) × (request : Request io.Buf) × (c' : Connection io.Buf deps)
        × (n : ℕ) × (j : Journal io.Buf deps) × (b' : io.Buf) × (client_write io r ≡ fired b)
        × (server_read io junk (some (decode b)) ≡ fired request)
        × (request.payload ≡ some d)
        × (bytes io d ≡ bytes io payload)
        × (read_all io deps false ((frame, request) ∷ []) c ≡ goes_on c')
        × (n ≤ 2)
        × (rounds io deps fsync_wal c'.storage.memory n c'.storage.journal ≡ goes_on j)
        × (journal_round io deps fsync_wal c'.storage.memory j ≡ waits)
        × (map second (laws.log j.db) ≡ map second start ++ first_segment io d ∷ [])
        × ((fulfil_all io deps j.fulfilled c').written
            ≡ c.written ++ ok_for r.ledger_id r.entry_id ∷ [])
        × (server_write io (ok_for r.ledger_id r.entry_id) ≡ fired b')
        × (client_read io junk_response (some (decode b')) ≡ fired (ok_for r.ledger_id r.entry_id))
  add_returns r junk payload junk_response frame c start h op has one_buffer fits room ready
        nobody =
      let (b, sent, d, got, whole) =
        server_read-client_write io io_laws r junk payload decode decodes h op has one_buffer
          fits in
      let request : Request io.Buf = record r {
        op_code = BookieOperation.add_entry;
        flags = r.flags % 2 ^ 8;
        payload = some d;
      } in
      let (c', n, j, run, few, ends, stops, logged, answered, _) =
        adds_answered io deps laws start fsync_wal writes_succeed ((frame, request) ∷ []) c
          ((d, refl), _) room ready nobody in
      let (b', back, read_back) =
        client_read-server_write io io_laws (ok_for r.ledger_id r.entry_id) junk_response decode
          decodes (ok_for-IsResponse r.ledger_id r.entry_id h.ledger_fits h.entry_fits) refl refl in
      (
        b,
        d,
        request,
        c',
        n,
        j,
        b',
        sent,
        got
            ∙ ap
                (λ (o : BookieOperation).
                  fired (record r { op_code = o; flags = r.flags % 2 ^ 8; payload = some d }))
                op,
        refl,
        whole,
        run,
        few,
        ends,
        stops,
        logged,
        answered,
        back,
        read_back,
      )
