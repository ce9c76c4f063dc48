-- ===== src/Storage/Grows.antt =====
-- A round of the journal thread takes back no fulfilment, and a call of `put` adds none.
use bookie_cpp.Prelude.{
  ℕ, ◌+◌, ◌≡◌, refl, sym, ap, ◌∙◌, inl, inr, List, [], ◌∷◌, ◌++◌, some, Bool, true, false, ◌==◌,
  Option-cases, Bool-cases,
}
use mathlib.Core.List.{append-nil}
use bookie_cpp.Io.{Io, first_segment}
use bookie_cpp.Storage.{
  JournalEntry, Journal, Storage, goes_on, put, enqueue, sync_batch, batch_entry, take_entry,
  journal_round,
}
use bookie_cpp.Storage.Services.{Deps}
use bookie_cpp.Storage.Schedules.{goes_on_injective}

module _ (io : Io) (deps : Deps (JournalEntry io.Buf)) where
  pub put_fulfils_none :
      (frame l e : ℕ) (d : io.Buf) (s s' : Storage io.Buf deps) (p : ℕ)
      → put io deps false frame l e d s ≡ goes_on (p, s')
      → s.journal.fulfilled ≡ s'.journal.fulfilled
  unfolding put enqueue
  put_fulfils_none frame l e d s s' p run =
      elim (Option-cases (
        deps.write (record { key = frame; payload = some d; promise = some s.next_promise })
          s.journal.queue)) [
            | inl full ↦ cc (rw (full, enqueue) at run)
            | inr (q, wrote) ↦ cc (rw (wrote, enqueue) at run)
          ]

  -- What was fulfilled stays so.
  unfoldable pub Grows : Journal io.Buf deps → Journal io.Buf deps → Type 0
  Grows j j' = (more : List ℕ) × (j'.fulfilled ≡ j.fulfilled ++ more)

  sync_batch-Grows :
      (fsync_wal : Bool) (es : List ℕ) (j : Journal io.Buf deps)
      → j.entries_to_sync ≡ es
      → Grows j (sync_batch io deps fsync_wal j)
  unfolding sync_batch Grows
  sync_batch-Grows fsync_wal [] j e = ([], rw (e, sync_batch) (sym (append-nil j.fulfilled)))
  sync_batch-Grows fsync_wal (p ∷ ps) j e = (p ∷ ps, rw (e, sync_batch))

  batch_entry-Grows :
      (fsync_wal : Bool) (memory : ℕ → List ℕ) (e : JournalEntry io.Buf) (p : ℕ) (d : io.Buf)
      (j j' : Journal io.Buf deps)
      → batch_entry io deps fsync_wal memory e p d j ≡ goes_on j'
      → Grows j j'
  unfolding batch_entry Grows
  batch_entry-Grows fsync_wal memory e p d j j' run =
      let joined : Journal io.Buf deps = record j {
        queue_samples = j.queue_samples + 1;
        entries_to_sync = j.entries_to_sync ++ p ∷ [];
        write_batch = deps.put (memory e.key) (first_segment io d) j.write_batch;
        to_sync_count = j.to_sync_count + 1;
      } in
      elim (Bool-cases (j.to_sync_count == 1000)) [
        | inl full ↦
            let (more, grown) = sync_batch-Grows fsync_wal _ joined refl in
            (
              more,
              sym (
                    ap (λ (i : Journal io.Buf deps). i.fulfilled)
                      (goes_on_injective _ j' (rw full at run)))
                  ∙ grown,
            )
        | inr room ↦ (
          [],
          sym (
                ap (λ (i : Journal io.Buf deps). i.fulfilled)
                  (goes_on_injective joined j' (rw room at run)))
              ∙ sym (append-nil j.fulfilled),
        )
      ]

  take_entry-Grows :
      (fsync_wal : Bool) (memory : ℕ → List ℕ) (e : JournalEntry io.Buf)
      (j j' : Journal io.Buf deps)
      → take_entry io deps fsync_wal memory e j ≡ goes_on j'
      → Grows j j'
  unfolding take_entry
  take_entry-Grows fsync_wal memory e j j' run = elim (Option-cases e.promise) [
    | inl none_there ↦ cc (simp (none_there, take_entry) at run)
    | inr (p, promised) ↦ elim (Option-cases e.payload) [
      | inl none_there ↦ cc (simp (promised, none_there, take_entry) at run)
      | inr (d, holds) ↦
          batch_entry-Grows fsync_wal memory e p d j j' (simp (promised, holds, take_entry) at run)
    ]
  ]

  pub journal_round-Grows :
      (fsync_wal : Bool) (memory : ℕ → List ℕ) (j j' : Journal io.Buf deps)
      → journal_round io deps fsync_wal memory j ≡ goes_on j'
      → Grows j j'
  unfolding journal_round Grows
  journal_round-Grows fsync_wal memory j j' run = elim (Option-cases (deps.read j.queue)) [
    | inr ((e, q), got) ↦
        take_entry-Grows fsync_wal memory e (record j { queue = q; block_for_next_entry = false })
          j' (rw (got, journal_round) at run)
    | inl empty ↦ elim (Bool-cases j.block_for_next_entry) [
      | inl blocks ↦ cc (rw (empty, journal_round, blocks) at run)
      | inr goes ↦ elim (Bool-cases (j.to_sync_count == 0)) [
        | inl nothing ↦ (
          [],
          sym (
                ap (λ (i : Journal io.Buf deps). i.fulfilled)
                  (goes_on_injective (record j { block_for_next_entry = true }) j'
                    (rw (empty, journal_round, goes, nothing) at run)))
              ∙ sym (append-nil j.fulfilled),
        )
        | inr some_there ↦
            let (more, grown) =
              sync_batch-Grows fsync_wal _ (record j { block_for_next_entry = true }) refl in
            (
              more,
              sym (
                    ap (λ (i : Journal io.Buf deps). i.fulfilled)
                      (goes_on_injective _ j' (rw (empty, journal_round, goes, some_there) at run)))
                  ∙ grown,
            )
      ]
    ]
  ]
