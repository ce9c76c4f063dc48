-- ===== src/Io/Lists.antt =====
-- Chains as lists of byte lists: the laws of `Io` can be met. Every chain that this instance makes
-- is one buffer, and fresh memory holds 0xaa.
use bookie_cpp.Prelude.{
  ℕ, ◌≤◌, ◌<◌, ◌≡◌, refl, List, [], ◌∷◌, ◌++◌, Option, none, some, length, take, drop, concat,
  replicate, leb, if◌then◌else◌, arith, length-replicate,
}
use bookie_cpp.Prelude.Bytes.{to_be, of_be}
use bookie_cpp.Io.{Io}
use bookie_cpp.Io.Laws.{IoLaws}
use mathlib.Core.List.{append-nil}

-- An action on the next `n` bytes, if they are there.
abbrev guarded {ℓ} : {A : Type ℓ} → ℕ → List ℕ → A → Option A
guarded n xs a = if leb n (length xs) then some a else none

abbrev pub list_io : Io
list_io = record {
  Buf = List (List ℕ);
  segments = λ b. b;
  Cursor = List ℕ;
  cursor = concat;
  total_length = length;
  read_be = λ w c. guarded w c (of_be (take w c), drop w c);
  skip = λ n c. guarded n c (drop n c);
  clone = λ n c. guarded n c (take n c ∷ [], drop n c);
  create = λ n. replicate n 0xaa ∷ [];
  Writer = List ℕ × List ℕ;
  writer = λ b. ([], concat b);
  write_be = λ w v x. guarded w x.1 (x.0 ++ to_be w v, drop w x.1);
  skip_over = λ n x. guarded n x.1 (x.0 ++ take n x.1, drop n x.1);
  insert = λ b x. (x.0 ++ concat b, x.1);
  written = λ x. (x.0 ++ x.1) ∷ [];
}

guarded_enough {ℓ} :
    {A : Type ℓ} (n : ℕ) (xs : List ℕ) (a : A) → n ≤ length xs → guarded n xs a ≡ some a
guarded_enough n xs a h = ground arith

guarded_short {ℓ} :
    {A : Type ℓ} (n : ℕ) (xs : List ℕ) (a : A) → length xs < n → guarded n xs a ≡ none
guarded_short n xs a h = ground arith

pub list_io_laws : IoLaws list_io
list_io_laws = record {
  rest = λ c. c;
  rest-cursor = λ b. refl;
  total_length-rest = λ c. refl;
  read_be_enough = λ w c h. (drop w c, guarded_enough w c _ h, refl);
  read_be_short = λ w c h. guarded_short w c _ h;
  skip_enough = λ n c h. (drop n c, guarded_enough n c _ h, refl);
  clone_enough =
      λ n c h. (take n c ∷ [], drop n c, guarded_enough n c _ h, append-nil (take n c), refl);
  length-create = λ n. rw append-nil (length-replicate n 0xaa);
  before = λ x. x.0;
  after = λ x. x.1;
  before-writer = λ b. refl;
  after-writer = λ b. refl;
  write_be_enough =
      λ w v x h. ((x.0 ++ to_be w v, drop w x.1), guarded_enough w x.1 _ h, refl, refl);
  skip_over_enough =
      λ n x h. ((x.0 ++ take n x.1, drop n x.1), guarded_enough n x.1 _ h, refl, refl);
  before-insert = λ b x. refl;
  after-insert = λ b x. refl;
  bytes-written = λ x. append-nil (x.0 ++ x.1);
}
