-- ===== src/Codec/Responses.antt =====
-- What BookieClientCodecV2::read makes of a frame.
use native.Mathlib.Decide.{dec_le}
use bookie_cpp.Prelude.{
  ℕ, ◌+◌, ◌%◌, ◌^◌, ◌≤◌, ◌<◌, ◌≡◌, ◌⊎◌, inl, inr, ap, ◌∙◌, List, ◌++◌, none, some, length, arith,
  length-append, length-drop, le→ltb,
}
use bookie_cpp.Prelude.Bytes.{of_be}
use bookie_cpp.Io.{Io}
use bookie_cpp.Io.Laws.{IoLaws, bytes}
use bookie_cpp.Io.Steps.{read_field}
use bookie_cpp.Protocol.{Response, BookieOperation, error_of_byte}
use bookie_cpp.Codec.{from_int, fired, out_of_range}
use bookie_cpp.Codec.Client.{client_read, read_result, read_response}

-- The operations whose answers carry a result.
abbrev pub HasResult : BookieOperation → Type 0
HasResult op = (op ≡ BookieOperation.add_entry) ⊎ (op ≡ BookieOperation.read_entry)

module _ (io : Io) (laws : IoLaws io) where
  open laws use {rest, total_length-rest, rest-cursor, read_be_enough, read_be_short}

  read_response_result :
      (op : BookieOperation) (r : Response io.Buf) (c : io.Cursor)
      → HasResult op
      → read_response io op r c ≡ read_result io r c
  unfolding read_response
  read_response_result op r c (inl e) = rw e
  read_response_result op r c (inr e) = rw e

  read_result_layout :
      (r : Response io.Buf) (c : io.Cursor) (code ledger entry more : List ℕ)
      → rest c ≡ code ++ (ledger ++ (entry ++ more))
      → length code ≡ 4
      → length ledger ≡ 8
      → length entry ≡ 8
      → read_result io r c
        ≡ fired (record r {
          error_code = error_of_byte (of_be code % 2 ^ 8);
          ledger_id = of_be ledger;
          entry_id = of_be entry;
        })
  unfolding read_result
  read_result_layout r c code ledger entry more e hc hl he =
      let (c1, run1, e1) = read_field io laws c code _ e in
      let (c2, run2, e2) = read_field io laws c1 ledger _ e1 in
      let (c3, run3, e3) = read_field io laws c2 entry more e2 in
      rw (rw hc at run1, rw hl at run2, rw he at run3)

  -- `none`, or a cursor with `w` bytes fewer to read.
  read_be_cases :
      (w : ℕ) (c : io.Cursor)
      → (io.read_be w c ≡ none)
        ⊎ ((v : ℕ) × (c' : io.Cursor) × (io.read_be w c ≡ some (v, c'))
            × (length (rest c') + w ≡ length (rest c)))
  read_be_cases w c = elim (dec_le w (length (rest c))) [
    | no short ↦ inl (read_be_short w c (omega arith))
    | yes enough ↦
        let (c', run, left) = read_be_enough w c enough in
        inr (_, c', run, omega (arith, ap length left, length-drop w (rest c)))
  ]

  read_result_short :
      (r : Response io.Buf) (c : io.Cursor)
      → length (rest c) < 20
      → read_result io r c ≡ out_of_range
  unfolding read_result
  read_result_short r c h = elim (read_be_cases 4 c) [
    | inl stop ↦ rw stop
    | inr (v1, c1, run1, m1) ↦ elim (read_be_cases 8 c1) [
      | inl stop ↦ rw (run1, stop)
      | inr (v2, c2, run2, m2) ↦ rw (run1, run2, read_be_short 8 c2 (omega arith))
    ]
  ]

  client_read_header :
      (junk : Response io.Buf) (buf : io.Buf) (word more : List ℕ)
      → bytes io buf ≡ word ++ more
      → length word ≡ 4
      → (c : io.Cursor) × (client_read io junk (some buf)
          ≡ read_response io
              (from_int (of_be word)).op_code
              (record junk {
                protocol_version = (from_int (of_be word)).version;
                op_code = (from_int (of_be word)).op_code;
                payload = none;
              })
              c)
        × (rest c ≡ more)
  unfolding client_read
  client_read_header junk buf word more e hw =
      let (c, run, left) = read_field io laws (io.cursor buf) word more (rest-cursor buf ∙ e) in
      (c, rw (le→ltb (io.total_length (io.cursor buf)) 4 enough, rw hw at run), left)
    where
      enough : 4 ≤ io.total_length (io.cursor buf)
      enough = omega (
        arith,
        total_length-rest (io.cursor buf),
        ap length (rest-cursor buf ∙ e),
        length-append word more,
      )

  -- An answer to an add or a read that holds all its fields is delivered with them.
  pub client_read-result :
      (junk : Response io.Buf) (buf : io.Buf) (word code ledger entry more : List ℕ)
      → bytes io buf ≡ word ++ (code ++ (ledger ++ (entry ++ more)))
      → length word ≡ 4
      → length code ≡ 4
      → length ledger ≡ 8
      → length entry ≡ 8
      → HasResult (from_int (of_be word)).op_code
      → client_read io junk (some buf)
        ≡ fired (record {
          protocol_version = (from_int (of_be word)).version;
          op_code = (from_int (of_be word)).op_code;
          error_code = error_of_byte (of_be code % 2 ^ 8);
          ledger_id = of_be ledger;
          entry_id = of_be entry;
          payload = none;
        })
  client_read-result junk buf word code ledger entry more e hw hc hl he op =
      let (c, run, left) = client_read_header junk buf word _ e hw in
      run
      ∙ read_response_result _ _ c op
      ∙ read_result_layout _ c code ledger entry more left hc hl he

  -- An answer to an add or a read that has its header and fewer than the 20 bytes of its fields makes
  -- `read` throw: it has no check of the length behind the header, where the server's codec closes the
  -- channel.
  pub client_read_throws :
      (junk : Response io.Buf) (buf : io.Buf) (word more : List ℕ)
      → bytes io buf ≡ word ++ more
      → length word ≡ 4
      → length more < 20
      → HasResult (from_int (of_be word)).op_code
      → client_read io junk (some buf) ≡ out_of_range
  client_read_throws junk buf word more e hw short op =
      let (c, run, left) = client_read_header junk buf word more e hw in
      run ∙ read_response_result _ _ c op ∙ read_result_short _ c (rw left short)
