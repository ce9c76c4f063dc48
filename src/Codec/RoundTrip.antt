-- ===== src/Codec/RoundTrip.antt =====
-- What one side writes, the other reads back. The frame decoder in front of a codec is wangle's: it takes the
-- length field off a frame whose length field counts the bytes behind it.
use bookie_cpp.Prelude.{
  inl, Option, ℕ, ◌+◌, ◌%◌, ◌^◌, ◌≤◌, ◌<◌, ◌≡◌, ◌↔◌, refl, sym, ap, ◌∙◌, List, [], ◌∷◌, ◌++◌, none,
  some, length, take, drop, arith, length-append, head_or, concat, front_and_back,
}
use bookie_cpp.Prelude.Bytes.{to_be, of_be, length-to_be, of_be-to_be}
use bookie_cpp.Io.{Io, buf_length}
use bookie_cpp.Io.Laws.{IoLaws, bytes}
use bookie_cpp.Protocol.{Request, Response, BookieOperation, error_byte, max_frame_size}
use bookie_cpp.Protocol.Codes.{IsError, error_byte-lt, error_of_byte-error_byte}
use bookie_cpp.Codec.{PacketHeader, from_int, to_int, promote, fired}
use bookie_cpp.Codec.Header.{IsHeader, to_int-lt, from_int-to_int}
use bookie_cpp.Codec.Server.{server_read, server_write}
use bookie_cpp.Codec.Client.{client_read, client_write}
use bookie_cpp.Codec.Frames.{server_read-add_entry}
use bookie_cpp.Codec.Responses.{HasResult, client_read-result}
use bookie_cpp.Codec.Writes.{
  request_header, response_header, request_bytes, response_bytes, server_write-bytes,
  client_write-bytes,
}

-- The fields fit their types.
pub record IsRequest {Buf : Type 0} (r : Request Buf) : Type 0 where
  pub header : IsHeader (request_header r)
  pub ledger_fits : r.ledger_id < 2 ^ 64
  pub entry_fits : r.entry_id < 2 ^ 64

pub record IsResponse {Buf : Type 0} (r : Response Buf) : Type 0 where
  pub header : IsHeader (response_header r)
  pub error_known : IsError r.error_code
  pub ledger_fits : r.ledger_id < 2 ^ 64
  pub entry_fits : r.entry_id < 2 ^ 64

-- What wangle says of LengthFieldBasedFrameDecoder(4, max_frame_size), for the bytes of one frame, no longer
-- than is allowed.
abbrev pub IsDecoder : (io : Io) → (io.Buf → io.Buf) → Type 0
IsDecoder io decode =
    (b : io.Buf)
    → length (bytes io b) ≡ 4 + of_be (take 4 (bytes io b))
    → length (bytes io b) ≤ max_frame_size
    → bytes io (decode b) ≡ drop 4 (bytes io b)

-- The first buffer of a chain is no longer than the chain.
first-le : (segments : List (List ℕ)) → length (head_or [] segments) ≤ length (concat segments)
first-le [] = omega arith
first-le (s ∷ ss) = omega (arith, length-append s (concat ss))

-- A result code comes back from the int that it was sent as.
code_back : (v : ℕ) → v < 2 ^ 8 → of_be (to_be 4 (promote 8 v)) % 2 ^ 8 ≡ v
unfolding promote
code_back v h = rw (of_be-to_be 4 (promote 8 v) (ground arith)) (ground arith)

header_back :
    (hdr : PacketHeader)
    → IsHeader hdr
    → from_int (of_be (to_be 4 (to_int hdr))) ≡ record hdr { flags = hdr.flags % 2 ^ 8 }
header_back hdr h = rw (of_be-to_be 4 (to_int hdr) (to_int-lt hdr h)) (from_int-to_int hdr h)

module _ (io : Io) (laws : IoLaws io) where
  open laws use {rest, total_length-rest, rest-cursor}

  -- The length field of an answer counts the bytes behind it: 28, for an answer to an add or a read.
  pub server_write-framed :
      (r : Response io.Buf)
      → HasResult r.op_code
      → (b : io.Buf) × (server_write io r ≡ fired b)
        × (of_be (take 4 (bytes io b)) ≡ length (drop 4 (bytes io b)))
        × (length (drop 4 (bytes io b)) ≡ 28)
  server_write-framed r op =
      let (b, old, run, holds, l) = server_write-bytes io laws r op in
      let (front, back) =
        front_and_back {n = 4} (to_be 4 28) (response_bytes r old) holds (length-to_be 4 28) in
      let size : length (response_bytes r old) ≡ 28 = omega arith in
      (b, run, ap of_be front ∙ sym (ap length back ∙ size), ap length back ∙ size)

  -- The server's answer to an add, with fields that fit their types and without data, is read back by the
  -- client's codec from what the frame decoder makes of it: version, operation, error code and both ids.
  pub client_read-server_write :
      (r junk : Response io.Buf) (decode : io.Buf → io.Buf)
      → IsDecoder io decode
      → IsResponse r
      → r.op_code ≡ BookieOperation.add_entry
      → r.payload ≡ none
      → (b : io.Buf) × (server_write io r ≡ fired b)
        × (client_read io junk (some (decode b)) ≡ fired r)
  client_read-server_write r junk decode decodes h add no_data =
      let (b, old, run, holds, l) = server_write-bytes io laws r op in
      let (front, back) =
        front_and_back {n = 4} (to_be 4 28) (response_bytes r old) holds (length-to_be 4 28) in
      let size : length (response_bytes r old) ≡ 28 = omega arith in
      let said : of_be (take 4 (bytes io b)) ≡ 28 = ap of_be front in
      let long : length (bytes io b) ≡ 32 =
        ap (λ (xs : List ℕ). length xs) holds ∙ omega (arith, size) in
      (
        b,
        run,
        rebuild (decode b) old (decodes b (omega (arith, long, said)) (omega (arith, long)) ∙ back)
            ∙ ap (λ (d : Option io.Buf). fired (record r { payload = d })) (sym no_data),
      )
    where
      op : HasResult r.op_code
      op = inl add

      hdr : from_int (of_be (to_be 4 (to_int (response_header r)))) ≡ response_header r
      hdr = header_back (response_header r) h.header

      rebuild :
          (frame : io.Buf) (old : List ℕ)
          → bytes io frame ≡ response_bytes r old
          → client_read io junk (some frame) ≡ fired (record r { payload = none })
      rebuild frame old e =
          client_read-result io laws junk frame (to_be 4 (to_int (response_header r)))
            (to_be 4 (promote 8 (error_byte r.error_code))) (to_be 8 r.ledger_id)
            (to_be 8 r.entry_id) old e refl refl refl refl (rw hdr op)
          ∙ rw (
            hdr,
            code_back (error_byte r.error_code) (error_byte-lt r.error_code h.error_known),
            error_of_byte-error_byte r.error_code h.error_known,
            of_be-to_be 8 r.ledger_id h.ledger_fits,
            of_be-to_be 8 r.entry_id h.entry_fits,
          )

  -- The client's add request, with data in one buffer that fits the longest frame and with fields that fit
  -- their types, is read back by the server's codec from what the frame decoder makes of it: version,
  -- operation, ids, the low byte of the flags, and every byte of the entry.
  pub server_read-client_write :
      (r junk : Request io.Buf) (payload : io.Buf) (decode : io.Buf → io.Buf)
      → IsDecoder io decode
      → IsRequest r
      → r.op_code ≡ BookieOperation.add_entry
      → r.payload ≡ some payload
      → buf_length io payload ≡ length (bytes io payload)
      → 44 + length (bytes io payload) ≤ max_frame_size
      → (b : io.Buf) × (client_write io r ≡ fired b)
        × (d : io.Buf) × (server_read io junk (some (decode b))
            ≡ fired (record r { flags = r.flags % 2 ^ 8; payload = some d }))
        × (bytes io d ≡ bytes io payload)
  server_read-client_write r junk payload decode decodes h op data_of one_buffer fits =
      let (b, key, run, holds, l) = client_write-bytes io laws r payload op data_of in
      let size = (40 + buf_length io payload) % 2 ^ 32 in
      let (front, back) =
        front_and_back {n = 4} (to_be 4 size) (request_bytes r key (bytes io payload)) holds
          (length-to_be 4 size) in
      let behind : length (request_bytes r key (bytes io payload))
          ≡ 40 + length (bytes io payload) =
        omega (
          arith,
          l,
          length-append key (to_be 8 r.ledger_id ++ (to_be 8 r.entry_id ++ bytes io payload)),
        ) in
      let said : of_be (take 4 (bytes io b)) ≡ 40 + length (bytes io payload) =
        ap of_be front ∙ of_be-to_be 4 size (omega arith) ∙ omega (arith, one_buffer, fits) in
      let long : length (bytes io b) ≡ 44 + length (bytes io payload) =
        ap (λ (xs : List ℕ). length xs) holds ∙ omega (arith, behind) in
      let (d, got, same) =
        rebuild (decode b) key
          (decodes b (omega (arith, long, said)) (omega (arith, long, fits)) ∙ back) l in
      (b, run, d, got, same)
    where
      hdr :
          from_int (of_be (to_be 4 (to_int (request_header r))))
          ≡ record (request_header r) { flags = r.flags % 2 ^ 8 }
      hdr = header_back (request_header r) h.header

      rebuild :
          (frame : io.Buf) (key : List ℕ)
          → bytes io frame ≡ request_bytes r key (bytes io payload)
          → length key ≡ 20
          → (d : io.Buf) × (server_read io junk (some frame)
              ≡ fired (record r { flags = r.flags % 2 ^ 8; payload = some d }))
            × (bytes io d ≡ bytes io payload)
      rebuild frame key e l =
          let (d, run, holds) =
            server_read-add_entry io laws junk frame (to_be 4 (to_int (request_header r))) key
              (to_be 8 r.ledger_id) (to_be 8 r.entry_id) (bytes io payload) e refl l refl refl
              (rw hdr op) in
          (
            d,
            run
                ∙ rw
                    (
                      hdr,
                      of_be-to_be 8 r.ledger_id h.ledger_fits,
                      of_be-to_be 8 r.entry_id h.entry_fits,
                    )
                    (ap
                      (λ (o : BookieOperation).
                        fired (record r { op_code = o; flags = r.flags % 2 ^ 8; payload = some d }))
                      (sym op)),
            holds,
          )

  -- The length field of an add request with data, of fewer than 2 ^ 32 bytes in all, counts the bytes
  -- behind it exactly when `data->length()`, the size of the first buffer of the entry's chain, is the
  -- size of the whole chain.
  pub client_write-framed_iff :
      (r : Request io.Buf) (payload : io.Buf)
      → r.op_code ≡ BookieOperation.add_entry
      → r.payload ≡ some payload
      → 40 + length (bytes io payload) < 2 ^ 32
      → (b : io.Buf) × (client_write io r ≡ fired b)
        × ((of_be (take 4 (bytes io b)) ≡ length (drop 4 (bytes io b)))
            ↔ (buf_length io payload ≡ length (bytes io payload)))
  client_write-framed_iff r payload op data_of fits =
      let (b, key, run, holds, l) = client_write-bytes io laws r payload op data_of in
      let size = (40 + buf_length io payload) % 2 ^ 32 in
      let (front, back) =
        front_and_back {n = 4} (to_be 4 size) (request_bytes r key (bytes io payload)) holds refl in
      let behind : length (drop 4 (bytes io b)) ≡ 40 + length (bytes io payload) =
        ap length back
        ∙ omega (
          arith,
          length-append key (to_be 8 r.ledger_id ++ (to_be 8 r.entry_id ++ bytes io payload)),
        ) in
      let said : of_be (take 4 (bytes io b)) ≡ 40 + buf_length io payload =
        ap of_be front
        ∙ of_be-to_be 4 size (omega arith)
        ∙ omega (arith, first-le (io.segments payload)) in
      (b, run, (λ e. omega arith, λ e. omega arith))
