-- ===== src/Io/Steps.antt =====
-- The laws of cursors for bytes that are known to begin with a given field.
use bookie_cpp.Prelude.{
  ℕ, ◌+◌, ◌≤◌, ◌≡◌, ap, ◌∙◌, List, ◌++◌, some, length, take, drop, arith, length-append,
  length-drop, length-take, take-append, drop-append, take-length,
}
use bookie_cpp.Prelude.Bytes.{to_be, of_be}
use bookie_cpp.Io.{Io}
use bookie_cpp.Io.Laws.{IoLaws, bytes}

module _ (io : Io) (laws : IoLaws io) where
  open laws use {
    rest, read_be_enough, skip_enough, clone_enough, total_length-rest, before, after,
    write_be_enough, skip_over_enough,
  }

  pub read_field :
      (c : io.Cursor) (field more : List ℕ)
      → rest c ≡ field ++ more
      → (c' : io.Cursor) × (io.read_be (length field) c ≡ some (of_be field, c')) × (rest c' ≡ more)
  read_field c field more e =
      let (c', run, left) =
        read_be_enough (length field) c (omega (arith, ap length e, length-append field more)) in
      (
        c',
        run
            ∙ ap (λ (bs : List ℕ). some (of_be bs, c'))
                (ap (take (length field)) e ∙ take-append field more),
        left ∙ ap (drop (length field)) e ∙ drop-append field more,
      )

  pub skip_field :
      (c : io.Cursor) (field more : List ℕ)
      → rest c ≡ field ++ more
      → (c' : io.Cursor) × (io.skip (length field) c ≡ some c') × (rest c' ≡ more)
  skip_field c field more e =
      let (c', run, left) =
        skip_enough (length field) c (omega (arith, ap length e, length-append field more)) in
      (c', run, left ∙ ap (drop (length field)) e ∙ drop-append field more)

  -- All that is left, as the codec clones it.
  pub clone_rest :
      (c : io.Cursor)
      → (b : io.Buf) × (c' : io.Cursor) × (io.clone (io.total_length c) c ≡ some (b, c'))
        × (bytes io b ≡ rest c)
  clone_rest c =
      let (b, c', run, taken, _) =
        clone_enough (io.total_length c) c (omega (arith, total_length-rest c)) in
      (b, c', run, taken ∙ rw (total_length-rest c) (take-length (rest c)))

  -- Writing a field leaves that much less room, and what stood before it.
  pub write_field :
      (w v : ℕ) (x : io.Writer) (done : List ℕ)
      → before x ≡ done
      → w ≤ length (after x)
      → (y : io.Writer) × (io.write_be w v x ≡ some y)
        × (before y ≡ done ++ to_be w v)
        × (length (after y) + w ≡ length (after x))
  write_field w v x done e room =
      let (y, run, grown, left) = write_be_enough w v x room in
      (
        y,
        run,
        grown ∙ ap (λ (bs : List ℕ). bs ++ to_be w v) e,
        omega (arith, ap length left, length-drop w (after x)),
      )

  -- Passing over room leaves in it what the memory held.
  pub skip_room :
      (n : ℕ) (x : io.Writer) (done : List ℕ)
      → before x ≡ done
      → n ≤ length (after x)
      → (y : io.Writer) × (old : List ℕ) × (io.skip_over n x ≡ some y)
        × (before y ≡ done ++ old)
        × (length old ≡ n)
        × (length (after y) + n ≡ length (after x))
  skip_room n x done e room =
      let (y, run, grown, left) = skip_over_enough n x room in
      (
        y,
        take n (after x),
        run,
        grown ∙ ap (λ (bs : List ℕ). bs ++ take n (after x)) e,
        length-take n (after x) room,
        omega (arith, ap length left, length-drop n (after x)),
      )
