-- ===== src/Codec/Client.antt =====
-- BookieClientCodecV2::read and BookieClientCodecV2::write.
use mathlib.Core.Option
use bookie_cpp.Prelude.{ℕ, ◌+◌, ◌*◌, ◌%◌, ◌^◌, ltb, if◌then◌else◌, Option, none, some}
use bookie_cpp.Io.{Io, buf_length}
use bookie_cpp.Protocol.{Request, Response, BookieOperation, master_key_length, error_of_byte}
use bookie_cpp.Codec.{
  PacketHeader, from_int, to_int, Outcome, closed, ignored, fired, null_deref, ◌>>=◌,
}

abbrev pub request_header_size : ℕ
request_header_size = 4 + master_key_length + 2 * 8

module _ (io : Io) where
  -- `(BookieError) reader.readBE<int32_t>()` keeps the low byte of the int.
  unfoldable pub read_result : Response io.Buf → io.Cursor → Outcome (Response io.Buf)
  read_result response reader = do
    (code, reader) ← io.read_be 4 reader
    (ledger_id, reader) ← io.read_be 8 reader
    (entry_id, reader) ← io.read_be 8 reader
    fired (record response {
      error_code = error_of_byte (code % 2 ^ 8);
      ledger_id = ledger_id;
      entry_id = entry_id;
    })

  unfoldable pub read_response :
      BookieOperation → Response io.Buf → io.Cursor → Outcome (Response io.Buf)
  unfolding read_result
  read_response BookieOperation.add_entry response reader = read_result response reader
  read_response BookieOperation.read_entry response reader = read_result response reader
  read_response BookieOperation.auth response reader = fired response
  read_response (BookieOperation.other b) response reader = fired response

  -- `junk` holds what the fields of the local `Response response;` are before they are set.
  unfoldable pub client_read : Response io.Buf → Option io.Buf → Outcome (Response io.Buf)
  unfolding read_response from_int
  client_read junk none = ignored
  client_read junk (some buf) =
      let reader = io.cursor buf in
      if ltb (io.total_length reader) 4 then closed else do
        (value, reader) ← io.read_be 4 reader
        let hdr = from_int value
        let response = record junk {
          protocol_version = hdr.version;
          op_code = hdr.op_code;
          payload = none;
        }
        read_response hdr.op_code response reader

  -- The part of a request that the switch writes. Only an add is written.
  unfoldable pub write_request :
      BookieOperation → Request io.Buf → io.Buf → io.Writer → Option io.Writer
  write_request BookieOperation.add_entry request payload w =
      Option.bind (io.skip_over master_key_length w) λ w.
        Option.bind (io.write_be 8 request.ledger_id w)
          λ w. Option.bind (io.write_be 8 request.entry_id w) λ w. some (io.insert payload w)
  write_request BookieOperation.read_entry request payload w = some w
  write_request BookieOperation.auth request payload w = some w
  write_request (BookieOperation.other b) request payload w = some w

  -- The frame size is computed from `data->length()`, so a null payload is dereferenced.
  unfoldable pub write_with : Request io.Buf → Option io.Buf → Outcome io.Buf
  unfolding write_request to_int
  write_with request none = null_deref
  write_with request (some payload) =
      let hdr : PacketHeader = record {
        version = request.protocol_version;
        op_code = request.op_code;
        flags = request.flags;
      } in
      let frame_size = (request_header_size + buf_length io payload) % 2 ^ 32 in
      do
        writer ← io.write_be 4 frame_size (io.writer (io.create (request_header_size + 4)))
        writer ← io.write_be 4 (to_int hdr) writer
        writer ← write_request request.op_code request payload writer
        fired (io.written writer)

  unfoldable pub client_write : Request io.Buf → Outcome io.Buf
  client_write request = write_with request request.payload
