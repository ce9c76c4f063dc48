-- ===== src/Codec.antt =====
-- src/BookieCodecV2.h and src/BookieCodecV2.cpp: the packet header, and what a codec's `read` and
-- `write` do to the context. The handlers are `server_read`, `server_write` (Server), `client_read`
-- and `client_write` (Client).
pub mod Header
pub mod Server
pub mod Client
pub mod Requests
pub mod Frames
pub mod Responses
pub mod Writes
pub mod RoundTrip
use Prim.Native.Nat.{bit_and, bit_or}
use bookie_cpp.Prelude.{ℕ, ◌+◌, ◌-◌, ◌*◌, ◌/◌, ◌%◌, ◌^◌, Option, none, some, ltb, if◌then◌else◌}
use bookie_cpp.Protocol.{BookieOperation, op_byte, op_of_byte}

-- `value >> k` on the bit pattern of an int: the sign bit fills in.
unfoldable pub shift_right : ℕ → ℕ → ℕ
shift_right value k = value / 2 ^ k + (if ltb value (2 ^ 31) then 0 else 2 ^ 32 - 2 ^ (32 - k))

-- The int that a `w`-bit signed integer is promoted to, as a bit pattern.
unfoldable pub promote : ℕ → ℕ → ℕ
promote w v = if ltb v (2 ^ (w - 1)) then v else v + (2 ^ 32 - 2 ^ w)

pub record PacketHeader : Type 0 where
  pub version : ℕ
  pub op_code : BookieOperation
  pub flags : ℕ

unfoldable pub from_int : ℕ → PacketHeader
unfolding shift_right
from_int value = record {
  version = shift_right value 24 % 2 ^ 8;
  op_code = op_of_byte (bit_and (shift_right value 16) 0xff);
  flags = bit_and value 0xff;
}

unfoldable pub to_int : PacketHeader → ℕ
unfolding promote
to_int hdr =
    bit_or
      (bit_or (bit_and (promote 8 hdr.version) 0xff * 2 ^ 24 % 2 ^ 32)
        (bit_and (promote 8 (op_byte hdr.op_code)) 0xff * 2 ^ 16))
      (bit_and (promote 16 hdr.flags) 0xffff)

-- What a handler does with its context: it throws std::out_of_range, dereferences a null pointer,
-- returns, calls fireClose, or passes a value on by fireRead or fireWrite.
pub data Outcome (A : Type 0) : Type 0 where
  out_of_range null_deref ignored closed : Outcome A
  fired : A → Outcome A

-- A cursor's step that throws ends the handler.
infixl 5 ◌>>=◌
abbrev pub ◌>>=◌ {ℓ} : {A : Type ℓ} {B : Type 0} → Option A → (A → Outcome B) → Outcome B
none >>= k = out_of_range
some a >>= k = k a
