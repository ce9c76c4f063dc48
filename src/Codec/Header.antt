-- ===== src/Codec/Header.antt =====
-- Packing and unpacking the packet header.
use Prim.Native.Nat.{bit_and, bit_or}
use bookie_cpp.Prelude.{ℕ, ◌+◌, ◌*◌, ◌%◌, ◌^◌, ◌<◌, ◌≡◌, sym, ap, ◌∙◌, ◌↔◌, arith}
use bookie_cpp.Prelude.Bits.{and_mask, or_fields}
use bookie_cpp.Protocol.{op_byte}
use bookie_cpp.Protocol.Codes.{IsOperation, op_of_byte-op_byte, op_byte-lt}
use bookie_cpp.Codec.{PacketHeader, from_int, to_int, shift_right, promote}

-- The fields fit their types, and the operation is one that its byte stands for.
pub record IsHeader (hdr : PacketHeader) : Type 0 where
  pub version_fits : hdr.version < 2 ^ 8
  pub op_known : IsOperation hdr.op_code
  pub flags_fit : hdr.flags < 2 ^ 16

-- A field that was promoted to an int and masked is the field again.
byte_field : (v : ℕ) → v < 2 ^ 8 → bit_and (promote 8 v) 0xff ≡ v
unfolding promote
byte_field v h = ground (arith, and_mask 8 (promote 8 v))

short_field : (v : ℕ) → v < 2 ^ 16 → bit_and (promote 16 v) 0xffff ≡ v
unfolding promote
short_field v h = ground (arith, and_mask 16 (promote 16 v))

join_fields :
    (v b f : ℕ)
    → v < 2 ^ 8
    → b < 2 ^ 8
    → f < 2 ^ 16
    → bit_or (bit_or (v * 2 ^ 24 % 2 ^ 32) (b * 2 ^ 16)) f ≡ v * 2 ^ 24 + b * 2 ^ 16 + f
join_fields v b f hv hb hf = rw (top, upper) (or_fields 16 (v * 2 ^ 8 + b) f hf ∙ omega arith)
  where
    top : v * 2 ^ 24 % 2 ^ 32 ≡ v * 2 ^ 24
    top = omega arith

    upper : bit_or (v * 2 ^ 24) (b * 2 ^ 16) ≡ (v * 2 ^ 8 + b) * 2 ^ 16
    upper = or_fields 24 v (b * 2 ^ 16) (omega arith) ∙ omega arith

-- The header word is the plain sum of its fields.
pub to_int-sum :
    (hdr : PacketHeader)
    → IsHeader hdr
    → to_int hdr ≡ hdr.version * 2 ^ 24 + op_byte hdr.op_code * 2 ^ 16 + hdr.flags
unfolding to_int
to_int-sum hdr h =
    rw
      (
        byte_field hdr.version h.version_fits,
        byte_field (op_byte hdr.op_code) (op_byte-lt hdr.op_code h.op_known),
        short_field hdr.flags h.flags_fit,
      )
      (join_fields hdr.version (op_byte hdr.op_code) hdr.flags h.version_fits
        (op_byte-lt hdr.op_code h.op_known) h.flags_fit)

pub to_int-lt : (hdr : PacketHeader) → IsHeader hdr → to_int hdr < 2 ^ 32
to_int-lt hdr h = omega (arith, to_int-sum hdr h, op_byte-lt hdr.op_code h.op_known)

shifted_byte :
    (v b f : ℕ)
    → v < 2 ^ 8
    → b < 2 ^ 8
    → f < 2 ^ 16
    → bit_and (shift_right (v * 2 ^ 24 + b * 2 ^ 16 + f) 16) 0xff ≡ b
unfolding shift_right
shifted_byte v b f hv hb hf =
    ground (arith, and_mask 8 (shift_right (v * 2 ^ 24 + b * 2 ^ 16 + f) 16))

shifted_version :
    (v b f : ℕ)
    → v < 2 ^ 8
    → b < 2 ^ 8
    → f < 2 ^ 16
    → shift_right (v * 2 ^ 24 + b * 2 ^ 16 + f) 24 % 2 ^ 8 ≡ v
unfolding shift_right
shifted_version v b f hv hb hf = ground arith

-- Reading a header word that was written keeps the version, the operation and the low byte of flags.
pub from_int-to_int :
    (hdr : PacketHeader)
    → IsHeader hdr
    → from_int (to_int hdr) ≡ record hdr { flags = hdr.flags % 2 ^ 8 }
unfolding from_int
from_int-to_int hdr h =
    let b = op_byte hdr.op_code in
    let b_fits : b < 2 ^ 8 = op_byte-lt hdr.op_code h.op_known in
    rw
      (
        to_int-sum hdr h,
        shifted_version hdr.version b hdr.flags h.version_fits b_fits h.flags_fit,
        shifted_byte hdr.version b hdr.flags h.version_fits b_fits h.flags_fit,
        and_mask 8 (hdr.version * 2 ^ 24 + b * 2 ^ 16 + hdr.flags),
        op_of_byte-op_byte hdr.op_code h.op_known,
      )
      (ap (λ (f : ℕ). record hdr { flags = f }) (omega arith))

-- A header whose fields fit their types survives being written and read exactly when its flags fit one byte.
pub from_int-to_int_iff :
    (hdr : PacketHeader) → IsHeader hdr → (from_int (to_int hdr) ≡ hdr) ↔ (hdr.flags < 2 ^ 8)
from_int-to_int_iff hdr h = (
  λ e. omega (arith, ap (λ (r : PacketHeader). r.flags) (sym (from_int-to_int hdr h) ∙ e)),
  λ fits. from_int-to_int hdr h ∙ ap (λ (f : ℕ). record hdr { flags = f }) (omega arith),
)
