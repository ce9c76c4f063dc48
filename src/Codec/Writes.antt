-- ===== src/Codec/Writes.antt =====
-- The bytes that the codecs' `write` methods put into a buffer.
use mathlib.Core.List.{append_assoc, append-nil}
use mathlib.Core.Option
use bookie_cpp.Prelude.{
  ℕ, ◌+◌, ◌%◌, ◌^◌, ◌≤◌, ◌≡◌, inl, inr, refl, ap, ◌∙◌, List, [], ◌∷◌, ◌++◌, some, length, arith,
}
use bookie_cpp.Prelude.Bytes.{to_be}
use bookie_cpp.Io.{Io, buf_length}
use bookie_cpp.Io.Laws.{IoLaws, bytes}
use bookie_cpp.Io.Steps.{write_field, skip_room}
use bookie_cpp.Protocol.{Request, Response, BookieOperation, error_byte}
use bookie_cpp.Codec.{PacketHeader, to_int, promote, fired}
use bookie_cpp.Codec.Responses.{HasResult}
use bookie_cpp.Codec.Server.{server_write, write_body, write_result}
use bookie_cpp.Codec.Client.{client_write, write_request, write_with}

-- The header words that the codecs write.
abbrev pub response_header : {Buf : Type 0} → Response Buf → PacketHeader
response_header r = record { version = r.protocol_version; op_code = r.op_code; flags = 0 }

abbrev pub request_header : {Buf : Type 0} → Request Buf → PacketHeader
request_header r = record { version = r.protocol_version; op_code = r.op_code; flags = r.flags }

-- An answer behind its length field: header, error code, ids.
abbrev pub response_bytes : {Buf : Type 0} → Response Buf → List ℕ → List ℕ
response_bytes r more =
    to_be 4 (to_int (response_header r))
    ++ (to_be 4 (promote 8 (error_byte r.error_code))
        ++ (to_be 8 r.ledger_id ++ (to_be 8 r.entry_id ++ more)))

-- An add request behind its length field: header, master key, ids, entry.
abbrev pub request_bytes : {Buf : Type 0} → Request Buf → List ℕ → List ℕ → List ℕ
request_bytes r key payload =
    to_be 4 (to_int (request_header r))
    ++ (key ++ (to_be 8 r.ledger_id ++ (to_be 8 r.entry_id ++ payload)))

nothing_left : (xs : List ℕ) → length xs ≡ 0 → xs ≡ []
nothing_left [] h = refl
nothing_left (z ∷ zs) h = absurd (omega arith)

regroup :
    (a b c d e f : List ℕ) → ((((a ++ b) ++ c) ++ d) ++ e) ++ f ≡ a ++ (b ++ (c ++ (d ++ (e ++ f))))
regroup a b c d e f = simp append_assoc

module _ (io : Io) (laws : IoLaws io) where
  open laws use {before, after, before-writer, after-writer, length-create, bytes-written}

  -- A fresh buffer of `n` bytes, and the room for writing to it.
  room-create : (n : ℕ) → length (after (io.writer (io.create n))) ≡ n
  room-create n = ap length (after-writer (io.create n)) ∙ length-create n

  write_result_bytes :
      (r : Response io.Buf) (x : io.Writer) (done : List ℕ)
      → before x ≡ done
      → 20 ≤ length (after x)
      → (y : io.Writer) × (write_result io r x ≡ some y)
        × (before y
            ≡ ((done ++ to_be 4 (promote 8 (error_byte r.error_code))) ++ to_be 8 r.ledger_id)
              ++ to_be 8 r.entry_id)
        × (length (after y) + 20 ≡ length (after x))
  unfolding write_result Option.bind
  write_result_bytes r x done e room =
      let (y1, run1, e1, m1) =
        write_field io laws 4 (promote 8 (error_byte r.error_code)) x done e (omega arith) in
      let (y2, run2, e2, m2) = write_field io laws 8 r.ledger_id y1 _ e1 (omega arith) in
      let (y3, run3, e3, m3) = write_field io laws 8 r.entry_id y2 _ e2 (omega arith) in
      (y3, rw (run1, run2) run3, e3, omega arith)

  write_body_result :
      (op : BookieOperation) (r : Response io.Buf) (x : io.Writer)
      → HasResult op
      → write_body io op r x ≡ write_result io r x
  unfolding write_body
  write_body_result op r x (inl e) = rw e
  write_body_result op r x (inr e) = rw e

  -- An answer to an add or a read: the length 28, the fields, and four bytes nobody wrote.
  pub server_write-bytes :
      (r : Response io.Buf)
      → HasResult r.op_code
      → (b : io.Buf) × (old : List ℕ) × (server_write io r ≡ fired b)
        × (bytes io b ≡ to_be 4 28 ++ response_bytes r old)
        × (length old ≡ 4)
  unfolding server_write
  server_write-bytes r op =
      let x = io.writer (io.create 32) in
      let room = room-create 32 in
      let (y1, run1, e1, m1) = write_field io laws 4 28 x [] (before-writer _) (omega arith) in
      let (y2, run2, e2, m2) =
        write_field io laws 4 (to_int (response_header r)) y1 _ e1 (omega arith) in
      let (y3, run3, e3, m3) = write_result_bytes r y2 _ e2 (omega arith) in
      (
        io.written y3,
        after y3,
        rw (run1, run2, write_body_result r.op_code r y2 op, run3),
        bytes-written y3
            ∙ ap (λ (bs : List ℕ). bs ++ after y3) e3
            ∙ regroup (to_be 4 28) (to_be 4 (to_int (response_header r)))
                (to_be 4 (promote 8 (error_byte r.error_code))) (to_be 8 r.ledger_id)
                (to_be 8 r.entry_id) (after y3),
        omega arith,
      )

  write_request-bytes :
      (op : BookieOperation) (r : Request io.Buf) (payload : io.Buf) (x : io.Writer) (done : List ℕ)
      → op ≡ BookieOperation.add_entry
      → before x ≡ done
      → 36 ≤ length (after x)
      → (y : io.Writer) × (key : List ℕ) × (write_request io op r payload x ≡ some y)
        × (before y
            ≡ (((done ++ key) ++ to_be 8 r.ledger_id) ++ to_be 8 r.entry_id) ++ bytes io payload)
        × (length key ≡ 20)
        × (length (after y) + 36 ≡ length (after x))
  unfolding write_request Option.bind
  write_request-bytes op r payload x done is_add e room =
      let (y1, key, run1, e1, k, m1) = skip_room io laws 20 x done e (omega arith) in
      let (y2, run2, e2, m2) = write_field io laws 8 r.ledger_id y1 _ e1 (omega arith) in
      let (y3, run3, e3, m3) = write_field io laws 8 r.entry_id y2 _ e2 (omega arith) in
      (
        io.insert payload y3,
        key,
        rw (is_add, run1, run2, run3),
        laws.before-insert payload y3 ∙ ap (λ (bs : List ℕ). bs ++ bytes io payload) e3,
        k,
        omega (arith, ap length (laws.after-insert payload y3)),
      )

  -- An add request: the length field, the fields, and the whole chain of the entry.
  pub client_write-bytes :
      (r : Request io.Buf) (payload : io.Buf)
      → r.op_code ≡ BookieOperation.add_entry
      → r.payload ≡ some payload
      → (b : io.Buf) × (key : List ℕ) × (client_write io r ≡ fired b)
        × (bytes io b
            ≡ to_be 4 ((40 + buf_length io payload) % 2 ^ 32)
              ++ request_bytes r key (bytes io payload))
        × (length key ≡ 20)
  unfolding client_write write_with
  client_write-bytes r payload op data_of =
      let x = io.writer (io.create 44) in
      let room = room-create 44 in
      let (y1, run1, e1, m1) =
        write_field io laws 4 ((40 + buf_length io payload) % 2 ^ 32) x [] (before-writer _)
          (omega arith) in
      let (y2, run2, e2, m2) =
        write_field io laws 4 (to_int (request_header r)) y1 _ e1 (omega arith) in
      let (y3, key, run3, e3, k, m3) =
        write_request-bytes r.op_code r payload y2 _ op e2 (omega arith) in
      (
        io.written y3,
        key,
        ap (write_with io r) data_of ∙ rw (run1, run2, run3),
        bytes-written y3
            ∙ ap (λ (bs : List ℕ). before y3 ++ bs) (nothing_left (after y3) (omega arith))
            ∙ append-nil (before y3)
            ∙ e3
            ∙ regroup (to_be 4 ((40 + buf_length io payload) % 2 ^ 32))
                (to_be 4 (to_int (request_header r))) key (to_be 8 r.ledger_id) (to_be 8 r.entry_id)
                (bytes io payload),
        k,
      )
