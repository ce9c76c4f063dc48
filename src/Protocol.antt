-- ===== src/Protocol.antt =====
-- src/BookieProtocol.h: the operations, error codes and flags of the wire protocol, and the request
-- and response that travel through the pipeline. An int8_t, int16_t or int64_t is its bit pattern,
-- a number below 2 ^ 8, 2 ^ 16 or 2 ^ 64.
pub mod Codes
pub mod Print
use Prim.Native.Nat.{bit_and}
use bookie_cpp.Prelude.{ℕ, ◌*◌, Bool, not, Option, ◌==◌, if◌then◌else◌}

-- An enum over int8_t takes every value of its byte: `other` is one that has no name.
pub data BookieOperation : Type 0 where
  add_entry read_entry auth : BookieOperation
  other : ℕ → BookieOperation

-- The byte of an operation, and the cast of a byte to an operation.
unfoldable pub op_byte : BookieOperation → ℕ
op_byte BookieOperation.add_entry = 1
op_byte BookieOperation.read_entry = 2
op_byte BookieOperation.auth = 3
op_byte (BookieOperation.other b) = b

unfoldable pub op_of_byte : ℕ → BookieOperation
op_of_byte b =
    if b == 1
    then BookieOperation.add_entry
    else if b == 2
    then BookieOperation.read_entry
    else if b == 3
    then BookieOperation.auth
    else BookieOperation.other b

pub data BookieError : Type 0 where
  ok no_ledger no_entry bad_request io_error unauthorized_access : BookieError
  bad_version fenced read_only too_many_requests : BookieError
  other : ℕ → BookieError

unfoldable pub error_byte : BookieError → ℕ
error_byte BookieError.ok = 0
error_byte BookieError.no_ledger = 1
error_byte BookieError.no_entry = 2
error_byte BookieError.bad_request = 100
error_byte BookieError.io_error = 101
error_byte BookieError.unauthorized_access = 102
error_byte BookieError.bad_version = 103
error_byte BookieError.fenced = 104
error_byte BookieError.read_only = 105
error_byte BookieError.too_many_requests = 106
error_byte (BookieError.other b) = b

unfoldable pub error_of_byte : ℕ → BookieError
error_of_byte b =
    if b == 0
    then BookieError.ok
    else if b == 1
    then BookieError.no_ledger
    else if b == 2
    then BookieError.no_entry
    else if b == 100
    then BookieError.bad_request
    else if b == 101
    then BookieError.io_error
    else if b == 102
    then BookieError.unauthorized_access
    else if b == 103
    then BookieError.bad_version
    else if b == 104
    then BookieError.fenced
    else if b == 105
    then BookieError.read_only
    else if b == 106
    then BookieError.too_many_requests
    else BookieError.other b

-- The BookieFlag values.
abbrev pub do_fencing : ℕ
do_fencing = 0x0001

abbrev pub recovery : ℕ
recovery = 0x0002

-- The BookieConstant values.
abbrev pub master_key_length : ℕ
master_key_length = 20

abbrev pub max_frame_size : ℕ
max_frame_size = 5 * 1024 * 1024

-- `payload` is the field `data`; `none` is the null pointer.
pub record Request (Buf : Type 0) : Type 0 where
  pub protocol_version : ℕ
  pub op_code : BookieOperation
  pub ledger_id : ℕ
  pub entry_id : ℕ
  pub flags : ℕ
  pub payload : Option Buf

unfoldable pub is_recovery : {Buf : Type 0} → Request Buf → Bool
is_recovery r = not (bit_and r.flags recovery == 0)

unfoldable pub is_fencing : {Buf : Type 0} → Request Buf → Bool
is_fencing r = not (bit_and r.flags do_fencing == 0)

pub record Response (Buf : Type 0) : Type 0 where
  pub protocol_version : ℕ
  pub op_code : BookieOperation
  pub error_code : BookieError
  pub ledger_id : ℕ
  pub entry_id : ℕ
  pub payload : Option Buf
