-- ===== src/Storage/Table.antt =====
-- The database as a table: what a lookup of an entry's key finds.
use bookie_cpp.Prelude.{
  ℕ, ◌^◌, ◌<◌, ◌≡◌, refl, sym, ap, subst, ◌∙◌, inl, inr, List, [], ◌∷◌, ◌++◌, map, Option, none,
  some, Bool, true, false, arith, ◌==◌, if◌then◌else◌, ◌&&◌, Bool-cases, drop, take,
}
use bookie_cpp.Prelude.Bytes.{of_be, of_be-to_be}
use bookie_cpp.Io.{Io, first_segment}
use bookie_cpp.Storage.{JournalEntry, Storage, key_bytes}
use bookie_cpp.Storage.Services.{Deps, DepsLaws}
use bookie_cpp.Storage.Tracks.{Add, item_of, promise_of}
use bookie_cpp.Storage.Puts.{key_of, key_bytes-key_of}
use bookie_cpp.Storage.Durable.{IsFresh}
use bookie_cpp.Storage.Fates.{All, All-front}
use bookie_cpp.Storage.Frames.{Careful}
use bookie_cpp.Storage.Keys.{stored_as, acked_under_their_keys}

unfoldable same_bytes : List ℕ → List ℕ → Bool
same_bytes [] [] = true
same_bytes [] (y ∷ ys) = false
same_bytes (x ∷ xs) [] = false
same_bytes (x ∷ xs) (y ∷ ys) = (x == y) && same_bytes xs ys

same_bytes_refl : (xs : List ℕ) → same_bytes xs xs ≡ true
unfolding same_bytes
same_bytes_refl [] = refl
same_bytes_refl (x ∷ xs) = ground (arith, same_bytes_refl xs)

same_bytes-eq : (xs ys : List ℕ) → same_bytes xs ys ≡ true → xs ≡ ys
unfolding same_bytes
same_bytes-eq [] [] e = refl
same_bytes-eq [] (y ∷ ys) e = cc
same_bytes-eq (x ∷ xs) [] e = cc
same_bytes-eq (x ∷ xs) (y ∷ ys) e = ground (arith, same_bytes-eq xs ys)

-- What a later put has left, or else the value of this one if its key is the one looked for.
unfoldable pub or_else : Option (List ℕ) → Bool → List ℕ → Option (List ℕ)
or_else (some w) here v = some w
or_else none here v = if here then some v else none

-- A database finds the last value that was put under a key.
unfoldable pub lookup : List ℕ → List (List ℕ × List ℕ) → Option (List ℕ)
unfolding or_else same_bytes
lookup key [] = none
lookup key ((k, v) ∷ rest) = or_else (lookup key rest) (same_bytes k key) v

-- The value of the last of the adds with these ids.
unfoldable pub latest : (io : Io) → ℕ → ℕ → List (Add io.Buf) → Option (List ℕ)
unfolding or_else
latest io l e [] = none
latest io l e (a ∷ rest) =
    or_else (latest io l e rest) ((a.ledger_id == l) && (a.entry_id == e))
      (first_segment io a.item.payload)

-- The ids of an add are 64-bit numbers.
abbrev pub Fits : {Buf : Type 0} → Add Buf → Type 0
Fits a = (a.ledger_id < 2 ^ 64) × (a.entry_id < 2 ^ 64)

key_of-ledger : (l e l' e' : ℕ) → l < 2 ^ 64 → l' < 2 ^ 64 → key_of l e ≡ key_of l' e' → l ≡ l'
key_of-ledger l e l' e' h h' same =
    sym (of_be-to_be 8 l h) ∙ ap (λ (k : List ℕ). of_be (take 8 k)) same ∙ of_be-to_be 8 l' h'

key_of-entry : (l e l' e' : ℕ) → e < 2 ^ 64 → e' < 2 ^ 64 → key_of l e ≡ key_of l' e' → e ≡ e'
key_of-entry l e l' e' h h' same =
    sym (of_be-to_be 8 e h) ∙ ap (λ (k : List ℕ). of_be (drop 8 k)) same ∙ of_be-to_be 8 e' h'

-- Keys are the same just when both ids are.
same_bytes-key_of :
    (l e l' e' : ℕ)
    → l < 2 ^ 64
    → e < 2 ^ 64
    → l' < 2 ^ 64
    → e' < 2 ^ 64
    → same_bytes (key_of l e) (key_of l' e') ≡ ((l == l') && (e == e'))
same_bytes-key_of l e l' e' hl he hl' he' = elim (Bool-cases ((l == l') && (e == e'))) [
  | inl both ↦
      let ledgers : l ≡ l' = ground arith in
      let entries : e ≡ e' = ground arith in
      subst (λ (k : List ℕ). same_bytes (key_of l e) k ≡ true)
        (ap (λ (x : ℕ). key_of x e) ledgers ∙ ap (key_of l') entries) (same_bytes_refl (key_of l e))
      ∙ sym both
  | inr differ ↦ elim (Bool-cases (same_bytes (key_of l e) (key_of l' e'))) [
    | inr apart ↦ apart ∙ sym differ
    | inl same ↦
        let keys = same_bytes-eq (key_of l e) (key_of l' e') same in
        let ledgers = key_of-ledger l e l' e' hl hl' keys in
        let entries = key_of-entry l e l' e' he he' keys in ground arith
  ]
]

module _ (io : Io) (l e : ℕ) (hl : l < 2 ^ 64) (he : e < 2 ^ 64) where
  lookup-stored_as :
      (done : List (Add io.Buf))
      → All Fits done
      → lookup (key_of l e) (map (stored_as io) done) ≡ latest io l e done
  unfolding lookup latest
  lookup-stored_as [] fits = refl
  lookup-stored_as (a ∷ rest) ((la, ea), fits) =
      ap
        (λ (later : Option (List ℕ)).
          or_else later (same_bytes (key_of a.ledger_id a.entry_id) (key_of l e))
            (first_segment io a.item.payload))
        (lookup-stored_as rest fits)
      ∙ ap (λ (here : Bool). or_else (latest io l e rest) here (first_segment io a.item.payload))
          (same_bytes-key_of a.ledger_id a.entry_id l e la ea hl he)

module _ (io : Io) (deps : Deps (JournalEntry io.Buf)) (laws : DepsLaws (JournalEntry io.Buf) deps)
    (fsync_wal : Bool)
    (writes_succeed : (b : deps.Batch) (d : deps.Db) → (deps.write_db fsync_wal b d).0 ≡ true) where
  -- If every write of the database succeeds, the database starts empty, the ids are 64-bit numbers and the
  -- frame of each queued key is left alone until the journal thread has taken its entry, then from a fresh
  -- storage on, under every interleaving of calls of `put` (the dead read left out), rounds of the journal
  -- thread and other writes to the stack, the database is the table of the entries whose promises are
  -- fulfilled, which are those queued first: under the key that the code makes of two 64-bit ids it has the
  -- first buffer of the last of these entries with the ids, and nothing if there is none.
  pub lookup-key_bytes :
      (first : Storage io.Buf deps) (history : List (Add io.Buf)) (s : Storage io.Buf deps)
      → IsFresh io deps laws first
      → laws.log first.journal.db ≡ []
      → All Fits history
      → Careful io deps laws fsync_wal first history s
      → (l e : ℕ) → l < 2 ^ 64
      → e < 2 ^ 64
      → (done : List (Add io.Buf)) × (later : List (Add io.Buf)) × (history ≡ done ++ later)
        × (s.journal.fulfilled ≡ map promise_of (map item_of done))
        × (lookup (key_bytes io deps l e) (laws.log s.journal.db) ≡ latest io l e done)
  lookup-key_bytes first history s fresh empty fits careful l e hl he =
      let (done, later, order, acked, log) =
        acked_under_their_keys io deps laws fsync_wal writes_succeed first history s fresh
          careful in
      (
        done,
        later,
        order,
        acked,
        ap (λ (k : List ℕ). lookup k (laws.log s.journal.db)) (key_bytes-key_of io deps laws l e)
            ∙ ap (lookup (key_of l e))
                (log ∙ ap (λ (d : List (List ℕ × List ℕ)). d ++ map (stored_as io) done) empty)
            ∙ lookup-stored_as io l e hl he done
                (All-front Fits done later (subst (All Fits) order fits)),
      )
