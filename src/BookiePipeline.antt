-- ===== src/BookiePipeline.antt =====
-- src/BookiePipeline.cpp: the handlers of a connection, and how a frame passes through them. The socket,
-- the frame decoder and the way in which a pipeline hands messages on are wangle's.
pub mod Service
use bookie_cpp.Prelude.{ℕ, List, [], ◌∷◌, some, Bool}
use bookie_cpp.Io.{Io}
use bookie_cpp.Protocol.{Request, max_frame_size}
use bookie_cpp.Codec.{Outcome, fired, closed, ignored, out_of_range}
use bookie_cpp.Codec.Server.{server_read}
use bookie_cpp.Storage.{JournalEntry, Round, goes_on, waits, returned}
use bookie_cpp.Storage.Services.{Deps}
use bookie_cpp.BookieHandler.{Connection, read}

pub data Handler : Type 0 where
  async_socket server_codec bookie_handler : Handler
  -- The number of bytes of the length field, and the longest frame.
  frame_decoder : ℕ → ℕ → Handler

-- From the socket to the application.
abbrev pub new_pipeline : List Handler
new_pipeline = async_socket ∷ frame_decoder 4 max_frame_size ∷ server_codec ∷ bookie_handler ∷ []

-- What becomes of a connection: it has served the frame, its thread waits, the channel was asked to close, an
-- exception has left the handlers, or the process has crashed.
pub data Served (A : Type 0) : Type 0 where
  served : A → Served A
  blocked : Served A
  shut : A → Served A
  threw : Served A
  crashed : Served A

module _ (io : Io) (deps : Deps (JournalEntry io.Buf)) where
  -- The handler behind the codec has been called.
  unfoldable pub handled : Round (Connection io.Buf deps) → Served (Connection io.Buf deps)
  handled (goes_on c) = served c
  handled waits = blocked
  handled (returned c) = shut c
  handled Round.null_deref = crashed

  -- A message that the codec fires goes to the handler.
  unfoldable pub pass_on :
      Bool → ℕ → Connection io.Buf deps → Outcome (Request io.Buf) → Served (Connection io.Buf deps)
  unfolding handled
  pass_on dead_reads frame c (fired request) = handled (read io deps dead_reads frame request c)
  pass_on dead_reads frame c closed = shut c
  pass_on dead_reads frame c ignored = served c
  pass_on dead_reads frame c out_of_range = threw
  pass_on dead_reads frame c Outcome.null_deref = crashed

  -- A frame from the decoder, whose call of `put` has the stack frame `frame`.
  unfoldable pub serve :
      Request io.Buf → Bool → ℕ → io.Buf → Connection io.Buf deps → Served (Connection io.Buf deps)
  unfolding pass_on
  serve junk dead_reads frame buf c = pass_on dead_reads frame c (server_read io junk (some buf))

  -- One frame after the other, up to the first that is not served. Where the channel was asked to close,
  -- what becomes of the frames that are left and of the answers that are outstanding is wangle's, and not
  -- followed.
  unfoldable pub serve_all :
      Request io.Buf
      → Bool
      → List (ℕ × io.Buf)
      → Connection io.Buf deps
      → Served (Connection io.Buf deps)
  unfolding serve
  serve_all junk dead_reads [] c = served c
  serve_all junk dead_reads ((frame, buf) ∷ rest) c = elim (serve junk dead_reads frame buf c) [
    | served c' ↦ serve_all junk dead_reads rest c'
    | blocked ↦ blocked
    | shut c' ↦ shut c'
    | threw ↦ threw
    | crashed ↦ crashed
  ]
