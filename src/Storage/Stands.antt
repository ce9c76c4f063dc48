-- ===== src/Storage/Stands.antt =====
-- Where the entries of a storage stand, and each step that moves them.
use bookie_cpp.Prelude.{
  ℕ, ◌≡◌, refl, sym, ap, subst, ◌∙◌, inl, inr, List, [], ◌∷◌, ◌++◌, Bool, false,
}
use bookie_cpp.Io.{Io}
use bookie_cpp.Storage.{
  JournalEntry, Journal, Storage, goes_on, put, store_at, key_bytes, journal_round,
}
use bookie_cpp.Storage.Services.{Deps, DepsLaws}
use bookie_cpp.Storage.Tracks.{Item, entry_of}
use bookie_cpp.Storage.Schedules.{goes_on_injective, put_queues, behind_put}
use bookie_cpp.Storage.Durable.{IsFresh}
use bookie_cpp.Storage.Fates.{Read, Fate, All, Fated, all_entries}
use bookie_cpp.Storage.Rounds.{
  journal_round-Fates, put-Fated, memory-Fated, fresh-Fated, entries_of_put,
}

module _ (io : Io) (deps : Deps (JournalEntry io.Buf)) (laws : DepsLaws (JournalEntry io.Buf) deps)
    (fsync_wal : Bool) (X : Type 0) (item : X → Item io.Buf) (P : X → List ℕ → Type 0)
    (W : Bool → Type 0)
    (outcome : (b : deps.Batch) (d : deps.Db) → W (deps.write_db fsync_wal b d).0) where
  module _ (start : List (List ℕ × List ℕ)) where
    abbrev Stand :
        (ℕ → List ℕ) → List (Fate X) → List (Read X) → List X → Journal io.Buf deps → Type 0
    Stand = Fated io deps laws fsync_wal X item P W outcome start

    pub record Stands (history : List X) (s : Storage io.Buf deps) : Type 0 where
      pub done : List (Fate X)
      pub batched : List (Read X)
      pub queued : List X
      pub stand : Stand s.memory done batched queued s.journal
      pub order : history ≡ all_entries done batched queued

    pub round-Stands :
        (history : List X) (s : Storage io.Buf deps) (j : Journal io.Buf deps)
        → Stands history s
        → journal_round io deps fsync_wal s.memory s.journal ≡ goes_on j
        → Stands history (record s { journal = j })
    round-Stands history s j st step =
        elim (journal_round-Fates io deps laws fsync_wal X item P W outcome start s.memory st.done
          st.batched st.queued s.journal st.stand) [
            | inl stops ↦ cc
            | inr (j', done, batched, queued, goes, t, e) ↦ record {
              done = done;
              batched = batched;
              queued = queued;
              stand =
                  subst (Stand s.memory done batched queued)
                    (goes_on_injective j' j (sym goes ∙ step)) t;
              order = st.order ∙ e;
            }
          ]

    pub memory-Stands :
        (history : List X) (s : Storage io.Buf deps) (memory : ℕ → List ℕ) (st : Stands history s)
        → All (λ y. P y (memory (item y).key)) st.queued
        → Stands history (record s { memory = memory })
    memory-Stands history s memory st reads = record {
      done = st.done;
      batched = st.batched;
      queued = st.queued;
      stand =
          memory-Fated io deps laws fsync_wal X item P W outcome start s.memory memory st.done
            st.batched st.queued s.journal st.stand reads;
      order = st.order;
    }

    -- `made` is what is known of the entry of a call of `put`, by its promise.
    pub put-Stands :
        (history : List X) (s s' : Storage io.Buf deps) (frame l e p : ℕ) (d : io.Buf)
        (made : ℕ → X) (st : Stands history s)
        → ((x : ℕ) → item (made x) ≡ record { key = frame; payload = d; promise = x })
        → put io deps false frame l e d s ≡ goes_on (p, s')
        → All
            (λ y. P y (store_at s.memory frame (key_bytes io deps l e) (item y).key))
            (st.queued ++ made s.next_promise ∷ [])
        → Stands (history ++ made p ∷ []) s'
    put-Stands history s s' frame l e p d made st items step reads =
        let (q, next, same, grown) = put_queues io deps laws frame l e p d s s' step in
        let x = made s.next_promise in
        subst (λ (n : ℕ). Stands (history ++ made n ∷ []) s') next
          (subst (Stands (history ++ x ∷ [])) same (record {
            done = st.done;
            batched = st.batched;
            queued = st.queued ++ x ∷ [];
            stand =
                put-Fated io deps laws fsync_wal X item P W outcome start s.memory
                  (behind_put io deps laws frame l e q s).memory st.done st.batched st.queued x q
                  s.journal st.stand
                  (grown
                    ∙ ap (λ (i : Item io.Buf). laws.contents s.journal.queue ++ entry_of i ∷ [])
                        (sym (items s.next_promise)))
                  reads;
            order =
                ap (λ (h : List X). h ++ x ∷ []) st.order
                ∙ entries_of_put io deps laws fsync_wal X item P W outcome start st.done st.batched
                    st.queued x;
          }))

  pub fresh-Stands :
      (first : Storage io.Buf deps)
      → IsFresh io deps laws first
      → Stands (laws.log first.journal.db) [] first
  fresh-Stands first fresh = record {
    done = [];
    batched = [];
    queued = [];
    stand = fresh-Fated io deps laws fsync_wal X item P W outcome first fresh;
    order = refl;
  }
