-- ===== src/Tests/Codec.antt =====
-- The codecs over chains as lists of byte lists (Io/Lists).
use bookie_cpp.Prelude.{
  ℕ, ◌^◌, ◌≡◌, ◌↔◌, ◌⊎◌, inl, refl, List, [], ◌∷◌, ◌++◌, none, some, length, take, drop, replicate,
  arith, ◌<◌, concat,
}
use mathlib.Core.List.{append-nil}
use bookie_cpp.Prelude.Bytes.{to_be, of_be}
use bookie_cpp.Io.Laws.{bytes}
use bookie_cpp.Io.Lists.{list_io, list_io_laws}
use bookie_cpp.Protocol.{Request, Response, BookieOperation, BookieError, op_of_byte}
use bookie_cpp.Codec.{from_int, to_int, fired, closed, out_of_range}
use bookie_cpp.Codec.Header.{IsHeader, from_int-to_int_iff}
use bookie_cpp.Codec.Server.{server_read, server_write}
use bookie_cpp.Codec.Client.{client_read, client_write}
use bookie_cpp.Codec.Frames.{IsWhole, server_read_decides}
use bookie_cpp.Codec.Responses.{client_read_throws}
use bookie_cpp.Codec.RoundTrip.{
  IsDecoder, IsRequest, IsResponse, client_read-server_write, server_read-client_write,
  client_write-framed_iff,
}

abbrev Chain : Type 0
Chain = List (List ℕ)

-- Version 2, an add.
abbrev add_word : List ℕ
add_word = 2 ∷ 1 ∷ 0 ∷ 0 ∷ []

-- Version 2, a fencing read.
abbrev fence_word : List ℕ
fence_word = 2 ∷ 2 ∷ 0 ∷ 1 ∷ []

abbrev zero_key : List ℕ
zero_key = replicate 20 0

-- An add of "ab" as entry 9 of ledger 7, that came in two buffers.
abbrev add_frame : Chain
add_frame = (add_word ++ zero_key) ∷ (to_be 8 7 ++ (to_be 8 9 ++ 0x61 ∷ 0x62 ∷ [])) ∷ []

abbrev fence_frame : Chain
fence_frame = (fence_word ++ (to_be 8 7 ++ (to_be 8 9 ++ zero_key))) ∷ []

abbrev no_request : Request Chain
no_request = record {
  protocol_version = 0;
  op_code = BookieOperation.auth;
  ledger_id = 0xdead;
  entry_id = 0xbeef;
  flags = 0;
  payload = none;
}

abbrev no_response : Response Chain
no_response = record {
  protocol_version = 0;
  op_code = BookieOperation.auth;
  error_code = BookieError.ok;
  ledger_id = 0xdead;
  entry_id = 0xbeef;
  payload = none;
}

abbrev add_request : Request Chain
add_request = record {
  protocol_version = 2;
  op_code = BookieOperation.add_entry;
  ledger_id = 7;
  entry_id = 9;
  flags = 0;
  payload = some ((0x61 ∷ []) ∷ (0x62 ∷ []) ∷ []);
}

abbrev add_response : Response Chain
add_response = record {
  protocol_version = 2;
  op_code = BookieOperation.add_entry;
  error_code = BookieError.io_error;
  ledger_id = 7;
  entry_id = 9;
  payload = none;
}

add_header : (from_int (of_be add_word)).op_code ≡ BookieOperation.add_entry
unfolding from_int op_of_byte
add_header = refl

fence_run :
    server_read list_io no_request (some fence_frame)
    ≡ fired (record no_request {
      protocol_version = 2;
      op_code = BookieOperation.read_entry;
      ledger_id = 7;
      entry_id = 9;
      flags = 1;
    })
unfolding server_read from_int op_of_byte
fence_run = refl

cut_frame : server_read list_io no_request (some (add_word ∷ [])) ≡ closed
unfolding server_read op_of_byte
cut_frame = refl

server_read_decides_example :
    ((r : Request Chain) × (server_read list_io no_request (some add_frame) ≡ fired r)
      × IsWhole (bytes list_io add_frame))
    ⊎ ((server_read list_io no_request (some add_frame) ≡ closed)
        × (¬ IsWhole (bytes list_io add_frame)))
server_read_decides_example = server_read_decides list_io list_io_laws no_request add_frame

add_request-IsHeader :
    IsHeader (record { version = 2; op_code = BookieOperation.add_entry; flags = 0 })
add_request-IsHeader = record { version_fits = omega arith; op_known = tt; flags_fit = omega arith }

from_int-to_int_iff_example :
    (from_int (to_int (record { version = 2; op_code = BookieOperation.add_entry; flags = 0 }))
      ≡ record { version = 2; op_code = BookieOperation.add_entry; flags = 0 })
    ↔ (0 < 2 ^ 8)
from_int-to_int_iff_example = from_int-to_int_iff _ add_request-IsHeader

add_response-IsResponse : IsResponse add_response
add_response-IsResponse = record {
  header = add_request-IsHeader;
  error_known = tt;
  ledger_fits = omega arith;
  entry_fits = omega arith;
}

-- A frame decoder that always takes 4 bytes off.
abbrev decode : Chain → Chain
decode b = drop 4 (concat b) ∷ []

decode-IsDecoder : IsDecoder list_io decode
decode-IsDecoder b counted fits = append-nil (drop 4 (concat b))

client_read-server_write_example :
    (b : Chain) × (server_write list_io add_response ≡ fired b)
    × (client_read list_io no_response (some (decode b)) ≡ fired add_response)
client_read-server_write_example =
    client_read-server_write list_io list_io_laws add_response no_response decode decode-IsDecoder
      add_response-IsResponse refl refl

-- The same add in one buffer.
abbrev whole_request : Request Chain
whole_request = record add_request { payload = some ((0x61 ∷ 0x62 ∷ []) ∷ []) }

whole_request-IsRequest : IsRequest whole_request
whole_request-IsRequest = record {
  header = add_request-IsHeader;
  ledger_fits = omega arith;
  entry_fits = omega arith;
}

server_read-client_write_example :
    (b : Chain) × (client_write list_io whole_request ≡ fired b)
    × (d : Chain) × (server_read list_io no_request (some (decode b))
        ≡ fired (record add_request { flags = 0; payload = some d }))
    × (bytes list_io d ≡ 0x61 ∷ 0x62 ∷ [])
server_read-client_write_example =
    server_read-client_write list_io list_io_laws whole_request no_request ((0x61 ∷ 0x62 ∷ []) ∷ [])
      decode decode-IsDecoder whole_request-IsRequest refl refl refl (omega arith)

client_write-framed_iff_example :
    (b : Chain) × (client_write list_io add_request ≡ fired b)
    × ((of_be (take 4 (bytes list_io b)) ≡ length (drop 4 (bytes list_io b))) ↔ (◌≡◌ {A = ℕ} 1 2))
client_write-framed_iff_example =
    client_write-framed_iff list_io list_io_laws add_request ((0x61 ∷ []) ∷ (0x62 ∷ []) ∷ []) refl
      refl (omega arith)

client_read_throws_example :
    client_read list_io no_response (some ((add_word ++ 0 ∷ []) ∷ [])) ≡ out_of_range
client_read_throws_example =
    client_read_throws list_io list_io_laws no_response ((add_word ++ 0 ∷ []) ∷ []) add_word
      (0 ∷ []) refl refl (omega arith) (inl add_header)
