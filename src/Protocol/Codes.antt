-- ===== src/Protocol/Codes.antt =====
-- Casts between the enums and their bytes.
use bookie_cpp.Prelude.{ℕ, ◌<◌, ◌≡◌, refl, ◌≢◌, ◌⊎◌, arith}
use bookie_cpp.Protocol.{
  BookieOperation, BookieError, op_byte, op_of_byte, error_byte, error_of_byte,
}

-- A value of the enum that keeps the names for the named codes, and fits its byte.
abbrev pub IsOperation : BookieOperation → Type 0
IsOperation (BookieOperation.other b) = (b < 256) × (b ≢ 1) × (b ≢ 2) × (b ≢ 3)
IsOperation _ = Unit {0}

pub op_byte-op_of_byte : (b : ℕ) → op_byte (op_of_byte b) ≡ b
unfolding op_byte op_of_byte
op_byte-op_of_byte b = ground arith

pub op_of_byte-op_byte : (op : BookieOperation) → IsOperation op → op_of_byte (op_byte op) ≡ op
unfolding op_byte op_of_byte
op_of_byte-op_byte BookieOperation.add_entry h = refl
op_of_byte-op_byte BookieOperation.read_entry h = refl
op_of_byte-op_byte BookieOperation.auth h = refl
op_of_byte-op_byte (BookieOperation.other b) h = ground arith

pub op_byte-lt : (op : BookieOperation) → IsOperation op → op_byte op < 256
unfolding op_byte
op_byte-lt BookieOperation.add_entry h = omega arith
op_byte-lt _ h = omega arith

pub op_of_byte-IsOperation : (b : ℕ) → b < 256 → IsOperation (op_of_byte b)
unfolding op_of_byte
op_of_byte-IsOperation b h = ground arith

-- The same for the error codes.
abbrev pub IsError : BookieError → Type 0
IsError (BookieError.other b) = (b < 256) × ((b < 100) ⊎ (106 < b)) × (b ≢ 0) × (b ≢ 1) × (b ≢ 2)
IsError _ = Unit {0}

pub error_of_byte-error_byte : (e : BookieError) → IsError e → error_of_byte (error_byte e) ≡ e
unfolding error_byte error_of_byte
error_of_byte-error_byte (BookieError.other b) h = ground arith
error_of_byte-error_byte BookieError.ok h = refl
error_of_byte-error_byte _ h = refl

pub error_byte-lt : (e : BookieError) → IsError e → error_byte e < 256
unfolding error_byte
error_byte-lt BookieError.ok h = omega arith
error_byte-lt _ h = omega arith
