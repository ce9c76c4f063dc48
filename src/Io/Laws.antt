-- ===== src/Io/Laws.antt =====
-- The documented behaviour of cursors: they read and write the bytes of a chain in order, whatever
-- its cuts, and refuse to go past the end.
use bookie_cpp.Prelude.{ℕ, ◌≤◌, ◌<◌, ◌≡◌, List, [], ◌++◌, none, some, length, take, drop, concat}
use bookie_cpp.Prelude.Bytes.{to_be, of_be}
use bookie_cpp.Io.{Io}

-- The bytes of a chain.
abbrev pub bytes : (io : Io) → io.Buf → List ℕ
bytes io b = concat (io.segments b)

pub record IoLaws (io : Io) : Type 0 where
  -- What a cursor has not read yet.
  pub rest : io.Cursor → List ℕ
  pub rest-cursor : (b : io.Buf) → rest (io.cursor b) ≡ bytes io b
  pub total_length-rest : (c : io.Cursor) → io.total_length c ≡ length (rest c)
  pub read_be_enough :
      (w : ℕ) (c : io.Cursor)
      → w ≤ length (rest c)
      → (c' : io.Cursor) × (io.read_be w c ≡ some (of_be (take w (rest c)), c'))
        × (rest c' ≡ drop w (rest c))
  pub read_be_short : (w : ℕ) (c : io.Cursor) → length (rest c) < w → io.read_be w c ≡ none
  pub skip_enough :
      (n : ℕ) (c : io.Cursor)
      → n ≤ length (rest c)
      → (c' : io.Cursor) × (io.skip n c ≡ some c') × (rest c' ≡ drop n (rest c))
  pub clone_enough :
      (n : ℕ) (c : io.Cursor)
      → n ≤ length (rest c)
      → (b : io.Buf) × (c' : io.Cursor) × (io.clone n c ≡ some (b, c'))
        × (bytes io b ≡ take n (rest c))
        × (rest c' ≡ drop n (rest c))
  pub length-create : (n : ℕ) → length (bytes io (io.create n)) ≡ n
  -- What stands before a writer's position, and what from there on.
  pub before : io.Writer → List ℕ
  pub after : io.Writer → List ℕ
  pub before-writer : (b : io.Buf) → before (io.writer b) ≡ []
  pub after-writer : (b : io.Buf) → after (io.writer b) ≡ bytes io b
  pub write_be_enough :
      (w v : ℕ) (x : io.Writer)
      → w ≤ length (after x)
      → (y : io.Writer) × (io.write_be w v x ≡ some y)
        × (before y ≡ before x ++ to_be w v)
        × (after y ≡ drop w (after x))
  pub skip_over_enough :
      (n : ℕ) (x : io.Writer)
      → n ≤ length (after x)
      → (y : io.Writer) × (io.skip_over n x ≡ some y)
        × (before y ≡ before x ++ take n (after x))
        × (after y ≡ drop n (after x))
  pub before-insert : (b : io.Buf) (x : io.Writer) → before (io.insert b x) ≡ before x ++ bytes io b
  pub after-insert : (b : io.Buf) (x : io.Writer) → after (io.insert b x) ≡ after x
  pub bytes-written : (x : io.Writer) → bytes io (io.written x) ≡ before x ++ after x
