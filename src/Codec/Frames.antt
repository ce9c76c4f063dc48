-- ===== src/Codec/Frames.antt =====
-- What BookieServerCodecV2::read accepts, refuses and delivers.
use bookie_cpp.Prelude.{
  ℕ, ◌+◌, ◌*◌, ◌%◌, ◌≤◌, ◌<◌, ◌≡◌, ◌⊎◌, inl, inr, refl, ap, ◌∙◌, List, ◌++◌, none, some, length,
  take, drop, arith, length-append, front_and_back, cut, lt→ltb, if◌then◌else◌,
}
use native.Mathlib.Decide.{dec_le}
use bookie_cpp.Prelude.Bits.{and_mask}
use bookie_cpp.Prelude.Bytes.{of_be}
use bookie_cpp.Io.{Io}
use bookie_cpp.Io.Laws.{IoLaws, bytes}
use bookie_cpp.Protocol.{Request, BookieOperation, is_fencing}
use bookie_cpp.Codec.{PacketHeader, from_int, closed, fired}
use bookie_cpp.Codec.Server.{read_body, server_read, read_request_size}
use bookie_cpp.Codec.Requests.{
  with_header, read_add_entry_layout, read_read_entry_layout, server_read_header,
}

-- The bytes that a body needs: the ids behind the master key, or the ids and, where the lowest flag
-- asks for fencing, the master key.
abbrev pub body_size : BookieOperation → ℕ → ℕ
body_size BookieOperation.add_entry flags = 36
body_size BookieOperation.read_entry flags = 16 + 20 * (flags % 2)
body_size BookieOperation.auth flags = 0
body_size (BookieOperation.other b) flags = 0

abbrev pub header_of : List ℕ → PacketHeader
header_of bs = from_int (of_be (take 4 bs))

-- A frame that holds a header and the body that the header asks for.
abbrev pub IsWhole : List ℕ → Type 0
IsWhole bs =
    (4 ≤ length bs) × (body_size (header_of bs).op_code (header_of bs).flags ≤ length (drop 4 bs))

fencing-size :
    {Buf : Type 0} (r : Request Buf) → read_request_size (is_fencing r) ≡ 16 + 20 * (r.flags % 2)
unfolding is_fencing
fencing-size r = ground (arith, and_mask 1 r.flags)

key_room :
    {Buf : Type 0} (r : Request Buf) (n : ℕ)
    → 20 * (r.flags % 2) ≤ n
    → (if is_fencing r then 20 else 0) ≤ n
unfolding is_fencing
key_room r n h = ground (arith, and_mask 1 r.flags)

module _ (io : Io) (laws : IoLaws io) where
  open laws use {rest, total_length-rest, rest-cursor}

  -- A body that is long enough is delivered, whatever it holds, and a shorter one closes.
  read_body_long :
      (op : BookieOperation) (request : Request io.Buf) (c : io.Cursor)
      → body_size op request.flags ≤ length (rest c)
      → (r : Request io.Buf) × (read_body io op request c ≡ fired r)
  unfolding read_body
  read_body_long BookieOperation.auth request c h = (request, refl)
  read_body_long (BookieOperation.other b) request c h = (request, refl)
  read_body_long BookieOperation.add_entry request c h =
      let (key, m1, e1, l1) = cut 20 (rest c) (omega arith) in
      let (ledger, m2, e2, l2) = cut 8 m1 (omega (arith, ap length e1, length-append key m1)) in
      let (entry, payload, e3, l3) = cut 8 m2 (
        omega (arith, ap length e1, length-append key m1, ap length e2, length-append ledger m2)) in
      let (d, run, _) =
        read_add_entry_layout io laws request c key ledger entry payload
          (e1 ∙ ap (◌++◌ key) (e2 ∙ ap (◌++◌ ledger) e3)) l1 l2 l3 in
      (_, run)
  read_body_long BookieOperation.read_entry request c h =
      let (ledger, m1, e1, l1) = cut 8 (rest c) (omega arith) in
      let (entry, m2, e2, l2) = cut 8 m1 (omega (arith, ap length e1, length-append ledger m1)) in
      (
        _,
        read_read_entry_layout io laws request c ledger entry m2 (e1 ∙ ap (◌++◌ ledger) e2) l1 l2 (
            omega (
              arith,
              fencing-size request,
              ap length e1,
              length-append ledger m1,
              ap length e2,
              length-append entry m2,
            )),
      )

  read_body_short :
      (op : BookieOperation) (request : Request io.Buf) (c : io.Cursor)
      → length (rest c) < body_size op request.flags
      → read_body io op request c ≡ closed
  unfolding read_body
  read_body_short BookieOperation.auth request c h = absurd (omega arith)
  read_body_short (BookieOperation.other b) request c h = absurd (omega arith)
  read_body_short BookieOperation.add_entry request c h =
      rw (lt→ltb (io.total_length c) 36 (omega (arith, total_length-rest c)))
  read_body_short BookieOperation.read_entry request c h = rw (
      lt→ltb (io.total_length c) (read_request_size (is_fencing request))
        (omega (arith, total_length-rest c, fencing-size request)))

  -- A frame that is cut inside its header.
  no_header :
      (junk : Request io.Buf) (buf : io.Buf)
      → length (bytes io buf) < 4
      → server_read io junk (some buf) ≡ closed
  unfolding server_read
  no_header junk buf h = rw (
      lt→ltb (io.total_length (io.cursor buf)) 4
        (omega (arith, total_length-rest (io.cursor buf), ap length (rest-cursor buf))))

  -- With a header in front, the size that the header asks for decides.
  behind_header :
      (junk : Request io.Buf) (buf : io.Buf) (word more : List ℕ)
      → bytes io buf ≡ word ++ more
      → length word ≡ 4
      → ((r : Request io.Buf) × (server_read io junk (some buf) ≡ fired r)
          × (body_size (from_int (of_be word)).op_code (from_int (of_be word)).flags ≤ length more))
        ⊎ ((server_read io junk (some buf) ≡ closed)
            × (length more
                < body_size (from_int (of_be word)).op_code (from_int (of_be word)).flags))
  behind_header junk buf word more e l =
      let hdr = from_int (of_be word) in
      let request = with_header junk hdr in
      let (c, run, left) = server_read_header io laws junk buf word more e l in
      elim (dec_le (body_size hdr.op_code hdr.flags) (length more)) [
        | yes enough ↦
            let (r, fires) = read_body_long hdr.op_code request c (rw left enough) in
            inl (r, run ∙ fires, enough)
        | no short ↦
            inr (run ∙ read_body_short hdr.op_code request c (rw left (omega arith)), omega arith)
      ]

  -- Every frame that is not a null pointer is either whole, and then it is delivered, or it is cut short,
  -- and then the channel is closed: `read` neither throws nor dereferences a null pointer, and it drops
  -- no frame silently.
  pub server_read_decides :
      (junk : Request io.Buf) (buf : io.Buf)
      → ((r : Request io.Buf) × (server_read io junk (some buf) ≡ fired r) × IsWhole (bytes io buf))
        ⊎ ((server_read io junk (some buf) ≡ closed) × (¬ IsWhole (bytes io buf)))
  server_read_decides junk buf = elim (dec_le 4 (length (bytes io buf))) [
    | no short ↦ inr (no_header junk buf (omega arith), λ whole. absurd (omega arith))
    | yes long ↦
        let (word, more, e, l) = cut 4 (bytes io buf) long in
        let (front, back) = front_and_back word more e l in
        elim (behind_header junk buf word more e l) [
          | inl (r, fires, enough) ↦ inl (r, fires, (long, rw (front, back) enough))
          | inr (closes, short) ↦
              inr (closes, λ whole. let size = rw (front, back) at whole.1 in absurd (omega arith))
        ]
  ]

  -- A whole add request is delivered with the two ids read big-endian from behind the master key, and
  -- with all the bytes after them as the entry.
  pub server_read-add_entry :
      (junk : Request io.Buf) (buf : io.Buf) (word key ledger entry payload : List ℕ)
      → bytes io buf ≡ word ++ (key ++ (ledger ++ (entry ++ payload)))
      → length word ≡ 4
      → length key ≡ 20
      → length ledger ≡ 8
      → length entry ≡ 8
      → (from_int (of_be word)).op_code ≡ BookieOperation.add_entry
      → (d : io.Buf) × (server_read io junk (some buf)
          ≡ fired (record {
            protocol_version = (from_int (of_be word)).version;
            op_code = BookieOperation.add_entry;
            ledger_id = of_be ledger;
            entry_id = of_be entry;
            flags = (from_int (of_be word)).flags;
            payload = some d;
          }))
        × (bytes io d ≡ payload)
  unfolding read_body
  server_read-add_entry junk buf word key ledger entry payload e hw hk hl he op =
      let hdr = from_int (of_be word) in
      let (c, run, left) = server_read_header io laws junk buf word _ e hw in
      let (d, fires, holds) =
        read_add_entry_layout io laws
          (record (with_header junk hdr) { op_code = BookieOperation.add_entry }) c key ledger entry
          payload left hk hl he in
      (d, (rw op at run) ∙ fires, holds)

  -- A whole read request is delivered with its two ids and no data; the master key of a fencing read
  -- is passed over.
  pub server_read-read_entry :
      (junk : Request io.Buf) (buf : io.Buf) (word ledger entry more : List ℕ)
      → bytes io buf ≡ word ++ (ledger ++ (entry ++ more))
      → length word ≡ 4
      → length ledger ≡ 8
      → length entry ≡ 8
      → (from_int (of_be word)).op_code ≡ BookieOperation.read_entry
      → 20 * ((from_int (of_be word)).flags % 2) ≤ length more
      → server_read io junk (some buf)
        ≡ fired (record {
          protocol_version = (from_int (of_be word)).version;
          op_code = BookieOperation.read_entry;
          ledger_id = of_be ledger;
          entry_id = of_be entry;
          flags = (from_int (of_be word)).flags;
          payload = none;
        })
  unfolding read_body
  server_read-read_entry junk buf word ledger entry more e hw hl he op hk =
      let hdr = from_int (of_be word) in
      let request : Request io.Buf = record (with_header junk hdr) {
        op_code = BookieOperation.read_entry;
      } in
      let (c, run, left) = server_read_header io laws junk buf word _ e hw in
      (rw op at run)
      ∙ read_read_entry_layout io laws request c ledger entry more left hl he
          (key_room request (length more) hk)
