-- ===== src/Codec/Requests.antt =====
-- What the server's codec makes of a frame.
use bookie_cpp.Prelude.{
  ℕ, ◌≤◌, ◌≡◌, refl, ap, ◌∙◌, List, ◌++◌, none, some, length, arith, length-append, le→ltb, Bool,
  true, false, if◌then◌else◌,
}
use bookie_cpp.Prelude.Bytes.{of_be}
use bookie_cpp.Io.{Io}
use bookie_cpp.Io.Laws.{IoLaws, bytes}
use bookie_cpp.Io.Steps.{read_field, skip_field, clone_rest}
use bookie_cpp.Protocol.{Request, is_fencing}
use bookie_cpp.Codec.{PacketHeader, from_int, fired}
use bookie_cpp.Codec.Server.{
  read_add_entry, read_read_entry, skip_key, read_body, server_read, read_request_size,
}

-- The request as the header leaves it.
abbrev pub with_header : {Buf : Type 0} → Request Buf → PacketHeader → Request Buf
with_header junk hdr = record junk {
  protocol_version = hdr.version;
  op_code = hdr.op_code;
  flags = hdr.flags;
  payload = none;
}

module _ (io : Io) (laws : IoLaws io) where
  open laws use {rest, total_length-rest, rest-cursor}

  pub read_add_entry_layout :
      (request : Request io.Buf) (c : io.Cursor) (key ledger entry payload : List ℕ)
      → rest c ≡ key ++ (ledger ++ (entry ++ payload))
      → length key ≡ 20
      → length ledger ≡ 8
      → length entry ≡ 8
      → (d : io.Buf) × (read_add_entry io request c
          ≡ fired (record request {
            ledger_id = of_be ledger;
            entry_id = of_be entry;
            payload = some d;
          }))
        × (bytes io d ≡ payload)
  unfolding read_add_entry
  read_add_entry_layout request c key ledger entry payload e hk hl he =
      let (c1, run1, e1) = skip_field io laws c key _ e in
      let (c2, run2, e2) = read_field io laws c1 ledger _ e1 in
      let (c3, run3, e3) = read_field io laws c2 entry payload e2 in
      let (d, c4, run4, e4) = clone_rest io laws c3 in
      (
        d,
        rw (
          le→ltb (io.total_length c) 36 enough,
          rw hk at run1,
          rw hl at run2,
          rw he at run3,
          run4,
        ),
        e4 ∙ e3,
      )
    where
      enough : 36 ≤ io.total_length c
      enough = omega (
        arith,
        total_length-rest c,
        ap length e,
        length-append key (ledger ++ (entry ++ payload)),
        length-append ledger (entry ++ payload),
        length-append entry payload,
      )

  skip_key_layout :
      (fencing : Bool) (c : io.Cursor)
      → (if fencing then 20 else 0) ≤ length (rest c)
      → (c' : io.Cursor) × (skip_key io fencing c ≡ some c')
  unfolding skip_key
  skip_key_layout false c h = (c, refl)
  skip_key_layout true c h = let (c', run, _) = laws.skip_enough 20 c h in (c', run)

  pub read_read_entry_layout :
      (request : Request io.Buf) (c : io.Cursor) (ledger entry more : List ℕ)
      → rest c ≡ ledger ++ (entry ++ more)
      → length ledger ≡ 8
      → length entry ≡ 8
      → (if is_fencing request then 20 else 0) ≤ length more
      → read_read_entry io request c
        ≡ fired (record request { ledger_id = of_be ledger; entry_id = of_be entry })
  unfolding read_read_entry
  read_read_entry_layout request c ledger entry more e hl he hk =
      let (c1, run1, e1) = read_field io laws c ledger _ e in
      let (c2, run2, e2) = read_field io laws c1 entry more e1 in
      let (c3, run3) = skip_key_layout (is_fencing request) c2 (rw e2 hk) in
      rw (
        le→ltb (io.total_length c) (read_request_size (is_fencing request)) enough,
        rw hl at run1,
        rw he at run2,
        run3,
      )
    where
      enough : read_request_size (is_fencing request) ≤ io.total_length c
      enough = omega (
        arith,
        total_length-rest c,
        ap length e,
        length-append ledger (entry ++ more),
        length-append entry more,
      )

  -- A frame of four bytes at least hands its body to the switch, under the header's operation.
  pub server_read_header :
      (junk : Request io.Buf) (buf : io.Buf) (word more : List ℕ)
      → bytes io buf ≡ word ++ more
      → length word ≡ 4
      → (c : io.Cursor) × (server_read io junk (some buf)
          ≡ read_body io
              (from_int (of_be word)).op_code
              (with_header junk (from_int (of_be word)))
              c)
        × (rest c ≡ more)
  unfolding server_read
  server_read_header junk buf word more e hw =
      let (c, run, left) = read_field io laws (io.cursor buf) word more (rest-cursor buf ∙ e) in
      (c, rw (le→ltb (io.total_length (io.cursor buf)) 4 enough, rw hw at run), left)
    where
      enough : 4 ≤ io.total_length (io.cursor buf)
      enough = omega (
        arith,
        total_length-rest (io.cursor buf),
        ap length (rest-cursor buf ∙ e),
        length-append word more,
      )
