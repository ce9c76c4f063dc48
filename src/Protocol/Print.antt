-- ===== src/Protocol/Print.antt =====
-- src/BookieProtocol.cpp: what `operator<<` inserts into a stream, piece by piece. How a stream spells
-- a number is not modelled: a piece holds the number.
use Prim.Native.String.{String}
use bookie_cpp.Prelude.{ℕ, ◌≡◌, ◌↔◌, refl, List, [], ◌∷◌, ◌++◌, Option, none, some}
use bookie_cpp.Io.{Io, buf_length}
use bookie_cpp.Protocol.{BookieOperation, BookieError, Request, Response}

-- A text, a signed integer by its width and bit pattern, a length, and `format("{0:04x}", v)`.
pub data Piece : Type 0 where
  text : String → Piece
  signed : ℕ → ℕ → Piece
  count : ℕ → Piece
  hex04 : ℕ → Piece

unfoldable pub print_operation : BookieOperation → List Piece
print_operation BookieOperation.add_entry = text "AddEntry" ∷ []
print_operation BookieOperation.read_entry = text "ReadEntry" ∷ []
print_operation BookieOperation.auth = text "Auth" ∷ []
print_operation (BookieOperation.other b) = text "Unknown bookie op (" ∷ signed 8 b ∷ text ")" ∷ []

-- The switch has no default: a code without a name prints nothing.
unfoldable pub print_error : BookieError → List Piece
print_error BookieError.ok = text "OK" ∷ []
print_error BookieError.no_ledger = text "NoLedger" ∷ []
print_error BookieError.no_entry = text "NoEntry" ∷ []
print_error BookieError.bad_request = text "BadRequest" ∷ []
print_error BookieError.io_error = text "IOError" ∷ []
print_error BookieError.unauthorized_access = text "UnauthorizedAccess" ∷ []
print_error BookieError.bad_version = text "BadVersion" ∷ []
print_error BookieError.fenced = text "Fenced" ∷ []
print_error BookieError.read_only = text "ReadOnly" ∷ []
print_error BookieError.too_many_requests = text "TooManyRequests" ∷ []
print_error (BookieError.other b) = []

-- `(r.data ? r.data->length() : 0)`
abbrev pub data_length : (io : Io) → Option io.Buf → ℕ
data_length io none = 0
data_length io (some b) = buf_length io b

unfoldable pub print_request : (io : Io) → Request io.Buf → List Piece
unfolding print_operation
print_request io r =
    (text "Request(" ∷ text "version:" ∷ signed 8 r.protocol_version ∷ text " opCode:" ∷ [])
    ++ (print_operation r.op_code
        ++ (text " ledgerId:"
            ∷ signed 64 r.ledger_id
            ∷ text " entryId:"
            ∷ signed 64 r.entry_id
            ∷ text " flags:0x"
            ∷ hex04 r.flags
            ∷ text " data-len:"
            ∷ count (data_length io r.payload)
            ∷ text ")"
            ∷ []))

unfoldable pub print_response : (io : Io) → Response io.Buf → List Piece
unfolding print_operation print_error
print_response io r =
    (text "Response(" ∷ text "version:" ∷ signed 8 r.protocol_version ∷ text " opCode:" ∷ [])
    ++ (print_operation r.op_code
        ++ (text " error:"
            ∷ (print_error r.error_code
                ++ (text " ledgerId:"
                    ∷ signed 64 r.ledger_id
                    ∷ text " entryId:"
                    ∷ signed 64 r.entry_id
                    ∷ text " data-len:"
                    ∷ count (data_length io r.payload)
                    ∷ text ")"
                    ∷ []))))

-- An error code prints nothing exactly when it has no name.
pub print_error-nil_iff :
    (e : BookieError) → (print_error e ≡ []) ↔ ((b : ℕ) × (e ≡ BookieError.other b))
unfolding print_error
print_error-nil_iff (BookieError.other b) = (λ p. (b, refl), λ p. refl)
print_error-nil_iff BookieError.ok = (λ p. cc, λ p. cc p.1)
print_error-nil_iff _ = (λ p. cc, λ p. cc p.1)
