-- ===== src/Storage/Found.antt =====
-- What is found in the database once a promise is fulfilled, whoever has called `put`.
use bookie_cpp.Prelude.{
  ℕ, ◌<◌, ◌≡◌, refl, sym, ap, subst, ◌∙◌, List, [], ◌∷◌, ◌++◌, map, Option, none, some, Bool, true,
  false, length, length-map, arith, ◌==◌, ◌&&◌,
}
use bookie_cpp.Io.{Io, first_segment}
use bookie_cpp.Storage.{JournalEntry, Storage, key_bytes}
use bookie_cpp.Storage.Services.{Deps, DepsLaws}
use bookie_cpp.Storage.Tracks.{Add, item_of, promise_of}
use bookie_cpp.Storage.Durable.{IsFresh}
use bookie_cpp.Storage.Fates.{All, All-front}
use bookie_cpp.Storage.Frames.{Careful}
use bookie_cpp.Storage.Table.{lookup, latest, or_else, Fits, lookup-key_bytes}

-- Another add has other ids.
abbrev pub HasOtherIds : {Buf : Type 0} → Add Buf → Add Buf → Type 0
HasOtherIds a b = ((b.ledger_id == a.ledger_id) && (b.entry_id == a.entry_id)) ≡ false

-- Where two ways to cut a list meet.
cut :
    {A : Type 0} (done later before : List A) (a : A) (after : List A)
    → done ++ later ≡ before ++ a ∷ after
    → length before < length done
    → (rest : List A) × (done ≡ before ++ a ∷ rest) × (rest ++ later ≡ after)
cut [] later before a after e short = absurd (omega (arith, short))
cut (x ∷ done) later [] a after e short = (done, cc, cc)
cut (x ∷ done) later (y ∷ before) a after e short =
    let (rest, these, those) = cut done later before a after (cc) (omega (arith, short)) in
    (rest, cc, those)

both_same : (l e : ℕ) → ((l == l) && (e == e)) ≡ true
both_same l e = ground arith

All-middle :
    {A : Type 0} (P : A → Type 0) (before : List A) (a : A) (after : List A)
    → All P (before ++ a ∷ after)
    → P a
All-middle P [] a after (p, its) = p
All-middle P (b ∷ before) a after (p, its) = All-middle P before a after its

ids_fit :
    {Buf : Type 0} (adds before : List (Add Buf)) (a : Add Buf) (after : List (Add Buf))
    → adds ≡ before ++ a ∷ after
    → All Fits adds
    → Fits a
ids_fit adds before a after here fits = All-middle Fits before a after (subst (All Fits) here fits)

module _ (io : Io) (a : Add io.Buf) where
  abbrev found : Option (List ℕ)
  found = some (first_segment io a.item.payload)

  latest-others :
      (rest : List (Add io.Buf))
      → All (HasOtherIds a) rest
      → latest io a.ledger_id a.entry_id rest ≡ none
  unfolding latest or_else
  latest-others [] others = refl
  latest-others (b ∷ rest) (differs, others) = rw (latest-others rest others, differs) refl

  -- The last add with its ids is the one found.
  latest-last :
      (before rest : List (Add io.Buf))
      → All (HasOtherIds a) rest
      → latest io a.ledger_id a.entry_id (before ++ a ∷ rest) ≡ found
  unfolding latest or_else
  latest-last [] rest others =
      ap
        (λ (later : Option (List ℕ)).
          or_else later ((a.ledger_id == a.ledger_id) && (a.entry_id == a.entry_id))
            (first_segment io a.item.payload))
        (latest-others rest others)
      ∙ ap (λ (here : Bool). or_else none here (first_segment io a.item.payload))
          (both_same a.ledger_id a.entry_id)
  latest-last (b ∷ before) rest others = rw (latest-last before rest others) refl

module _ (io : Io) (deps : Deps (JournalEntry io.Buf)) (laws : DepsLaws (JournalEntry io.Buf) deps)
    (fsync_wal : Bool)
    (writes_succeed : (b : deps.Batch) (d : deps.Db) → (deps.write_db fsync_wal b d).0 ≡ true) where
  -- If every write of the database succeeds, the database starts empty, the ids are 64-bit numbers and the
  -- frame of each queued key is left alone until the journal thread has taken its entry: an entry whose
  -- promise is among those fulfilled and that no entry queued behind it shares its ids with is found under
  -- the key that the code makes of its ids.
  pub fulfilled_add_is_found :
      (first : Storage io.Buf deps) (history : List (Add io.Buf)) (s : Storage io.Buf deps)
      (before after : List (Add io.Buf)) (a : Add io.Buf)
      → IsFresh io deps laws first
      → laws.log first.journal.db ≡ []
      → All Fits history
      → Careful io deps laws fsync_wal first history s
      → history ≡ before ++ a ∷ after
      → All (HasOtherIds a) after
      → length before < length s.journal.fulfilled
      → lookup (key_bytes io deps a.ledger_id a.entry_id) (laws.log s.journal.db)
        ≡ some (first_segment io a.item.payload)
  fulfilled_add_is_found first history s before after a fresh empty fits careful here others
        in_time =
      let (its_ledger, its_entry) = ids_fit history before a after here fits in
      let (done, later, order, acked, table) =
        lookup-key_bytes io deps laws fsync_wal writes_succeed first history s fresh empty fits
          careful a.ledger_id a.entry_id its_ledger its_entry in
      let counted : length done ≡ length s.journal.fulfilled =
        sym (length-map item_of done)
        ∙ sym (length-map promise_of (map item_of done))
        ∙ ap (λ (l : List ℕ). length l) (sym acked) in
      let (rest, these, those) =
        cut done later before a after (sym order ∙ here) (omega (arith, counted, in_time)) in
      table
      ∙ ap (latest io a.ledger_id a.entry_id) these
      ∙ latest-last io a before rest
          (All-front (HasOtherIds a) rest later (subst (All (HasOtherIds a)) (sym those) others))
