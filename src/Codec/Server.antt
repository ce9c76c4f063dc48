-- ===== src/Codec/Server.antt =====
-- BookieServerCodecV2::read and BookieServerCodecV2::write.
use mathlib.Core.Option
use bookie_cpp.Prelude.{ℕ, Bool, true, false, ◌+◌, ◌*◌, ltb, if◌then◌else◌, Option, none, some}
use bookie_cpp.Io.{Io}
use bookie_cpp.Protocol.{
  Request, Response, BookieOperation, is_fencing, master_key_length, error_byte,
}
use bookie_cpp.Codec.{
  PacketHeader, from_int, to_int, promote, Outcome, closed, ignored, fired, ◌>>=◌,
}

abbrev pub add_request_size : ℕ
add_request_size = master_key_length + 2 * 8

abbrev pub read_request_size : Bool → ℕ
read_request_size fencing = 2 * 8 + (if fencing then master_key_length else 0)

abbrev pub response_frame_size : ℕ
response_frame_size = 4 + 24

module _ (io : Io) where
  -- The cases of the switch, from behind the header.
  unfoldable pub read_add_entry : Request io.Buf → io.Cursor → Outcome (Request io.Buf)
  read_add_entry request reader =
      if ltb (io.total_length reader) add_request_size then closed else do
        reader ← io.skip master_key_length reader
        (ledger_id, reader) ← io.read_be 8 reader
        (entry_id, reader) ← io.read_be 8 reader
        (payload, reader) ← io.clone (io.total_length reader) reader
        fired
            (record request { ledger_id = ledger_id; entry_id = entry_id; payload = some payload })

  -- A fencing read carries the master key, which is skipped.
  unfoldable pub skip_key : Bool → io.Cursor → Option io.Cursor
  skip_key true reader = io.skip master_key_length reader
  skip_key false reader = some reader

  unfoldable pub read_read_entry : Request io.Buf → io.Cursor → Outcome (Request io.Buf)
  unfolding skip_key is_fencing
  read_read_entry request reader =
      if ltb (io.total_length reader) (read_request_size (is_fencing request)) then closed else do
        (ledger_id, reader) ← io.read_be 8 reader
        (entry_id, reader) ← io.read_be 8 reader
        reader ← skip_key (is_fencing request) reader
        fired (record request { ledger_id = ledger_id; entry_id = entry_id })

  unfoldable pub read_body : BookieOperation → Request io.Buf → io.Cursor → Outcome (Request io.Buf)
  unfolding read_add_entry read_read_entry
  read_body BookieOperation.add_entry request reader = read_add_entry request reader
  read_body BookieOperation.read_entry request reader = read_read_entry request reader
  read_body BookieOperation.auth request reader = fired request
  read_body (BookieOperation.other b) request reader = fired request

  -- The error code and the two ids.
  unfoldable pub write_result : Response io.Buf → io.Writer → Option io.Writer
  write_result response w =
      Option.bind (io.write_be 4 (promote 8 (error_byte response.error_code)) w)
        λ w. Option.bind (io.write_be 8 response.ledger_id w) λ w. io.write_be 8 response.entry_id w

  -- `junk` holds what the fields of the local `Request request;` are before they are set; its `data`
  -- starts null.
  unfoldable pub server_read : Request io.Buf → Option io.Buf → Outcome (Request io.Buf)
  unfolding read_body from_int
  server_read junk none = ignored
  server_read junk (some buf) =
      let reader = io.cursor buf in
      if ltb (io.total_length reader) 4 then closed else do
        (value, reader) ← io.read_be 4 reader
        let hdr = from_int value
        let request = record junk {
          protocol_version = hdr.version;
          op_code = hdr.op_code;
          flags = hdr.flags;
          payload = none;
        }
        read_body hdr.op_code request reader

  -- The part of a response that the switch writes, by its operation.
  unfoldable pub write_body : BookieOperation → Response io.Buf → io.Writer → Option io.Writer
  write_body BookieOperation.add_entry response w = write_result response w
  write_body BookieOperation.read_entry response w = write_result response w
  write_body BookieOperation.auth response w = some w
  write_body (BookieOperation.other b) response w = some w

  -- The frame is said to hold `4 + 24` bytes, and the buffer has four more for that number.
  unfoldable pub server_write : Response io.Buf → Outcome io.Buf
  unfolding write_body to_int
  server_write response =
      let hdr : PacketHeader = record {
        version = response.protocol_version;
        op_code = response.op_code;
        flags = 0;
      } in
      do
        writer ← io.write_be 4 response_frame_size (io.writer (io.create (response_frame_size + 4)))
        writer ← io.write_be 4 (to_int hdr) writer
        writer ← write_body response.op_code response writer
        fired (io.written writer)
