-- ===== src/Tests/BookiePipeline.antt =====
-- A frame with an add of "a", and a frame that is cut short.
use bookie_cpp.Prelude.{ℕ, ◌≤◌, ◌≡◌, refl, ◌⊎◌, List, [], ◌∷◌, map, true, false, arith}
use bookie_cpp.Io.Lists.{list_io, list_io_laws}
use bookie_cpp.Protocol.{Request, op_of_byte}
use bookie_cpp.Codec.Server.{server_read}
use bookie_cpp.Storage.{JournalEntry, Journal, goes_on, waits, journal_round}
use bookie_cpp.Storage.Lists.{list_deps_laws}
use bookie_cpp.Storage.Drain.{rounds}
use bookie_cpp.BookieHandler.{Connection, fulfil_all}
use bookie_cpp.BookieHandler.Reads.{due, values}
use bookie_cpp.BookieHandler.Answers.{second}
use bookie_cpp.BookiePipeline.{serve_all, served, shut}
use bookie_cpp.BookiePipeline.Service.{AreWhole, requests_in, frames_are_served}
use bookie_cpp.Tests.BookieHandler.{Chain, deps, connection, connection-AtRound, add}

-- Entry 9 of ledger 7: version 2, operation 1 and no flags, the master key, the ids and the data.
abbrev whole : Chain
whole =
    (2 ∷ 1 ∷ 0 ∷ 0 ∷ [])
    ∷ (0 ∷ 0 ∷ 0 ∷ 0 ∷ 0 ∷ 0 ∷ 0 ∷ 0 ∷ 0 ∷ 0 ∷ 0 ∷ 0 ∷ 0 ∷ 0 ∷ 0 ∷ 0 ∷ 0 ∷ 0 ∷ 0 ∷ 0 ∷ [])
    ∷ (0 ∷ 0 ∷ 0 ∷ 0 ∷ 0 ∷ 0 ∷ 0 ∷ 7 ∷ [])
    ∷ (0 ∷ 0 ∷ 0 ∷ 0 ∷ 0 ∷ 0 ∷ 0 ∷ 9 ∷ [])
    ∷ (0x61 ∷ [])
    ∷ []

abbrev cut : Chain
cut = (2 ∷ 1 ∷ 0 ∷ []) ∷ []

abbrev frames : List (ℕ × Chain)
frames = (3, whole) ∷ (3, cut) ∷ []

abbrev junk : Request Chain
junk = add 0 []

requests_run : map (λ x. x.1.entry_id) (requests_in list_io junk frames) ≡ 9 ∷ []
unfolding requests_in server_read op_of_byte
requests_run = refl

frames_are_served_example :
    (c' : Connection Chain deps) × (n : ℕ) × (j : Journal Chain deps) × ((AreWhole list_io frames
        × (serve_all list_io deps junk false frames connection ≡ served c')
        × ((fulfil_all list_io deps j.fulfilled c').written ≡ due (requests_in list_io junk frames))
        × ((fulfil_all list_io deps j.fulfilled c').waiting ≡ []))
      ⊎ ((¬ AreWhole list_io frames)
          × (serve_all list_io deps junk false frames connection ≡ shut c')))
    × (n ≤ 3)
    × (rounds list_io deps true c'.storage.memory n c'.storage.journal ≡ goes_on j)
    × (journal_round list_io deps true c'.storage.memory j ≡ waits)
    × (map second j.db ≡ values list_io (requests_in list_io junk frames))
frames_are_served_example =
    frames_are_served list_io list_io_laws deps (list_deps_laws true (JournalEntry Chain)) true
      (λ b d. refl) junk frames connection [] (omega arith) connection-AtRound refl
