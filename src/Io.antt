-- ===== src/Io.antt =====
-- folly::IOBuf, io::Cursor and io::RWPrivateCursor, which src/BookieCodecV2.cpp and src/Storage.cpp
-- call. The repository does not hold their code, so they are a parameter: `Io` has the operations,
-- `IoLaws` the documented behaviour that the theorems rely on.
pub mod Laws
pub mod Steps
pub mod Lists
use bookie_cpp.Prelude.{ℕ, List, Option, length, head_or, [], ◌≡◌}

pub record Io : Type 1 where
  -- An IOBuf chain, and the bytes of each buffer of the chain.
  pub Buf : Type 0
  pub segments : Buf → List (List ℕ)
  -- io::Cursor. `none` is the std::out_of_range that a read past the end throws.
  pub Cursor : Type 0
  pub cursor : Buf → Cursor
  pub total_length : Cursor → ℕ
  pub read_be : ℕ → Cursor → Option (ℕ × Cursor)
  pub skip : ℕ → Cursor → Option Cursor
  pub clone : ℕ → Cursor → Option (Buf × Cursor)
  -- `IOBuf::create(n)` followed by `append(n)`: n bytes that nobody has written.
  pub create : ℕ → Buf
  -- io::RWPrivateCursor, with the chain that it writes to.
  pub Writer : Type 0
  pub writer : Buf → Writer
  pub write_be : ℕ → ℕ → Writer → Option Writer
  pub skip_over : ℕ → Writer → Option Writer
  pub insert : Buf → Writer → Writer
  pub written : Writer → Buf

-- IOBuf::data() and IOBuf::length() speak of the first buffer of a chain only.
abbrev pub first_segment : (io : Io) → io.Buf → List ℕ
first_segment io b = head_or [] (io.segments b)

abbrev pub buf_length : (io : Io) → io.Buf → ℕ
buf_length io b = length (first_segment io b)
