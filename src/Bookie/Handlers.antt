-- ===== src/Bookie/Handlers.antt =====
-- The handlers of a bookie's connections.
use bookie_cpp.Prelude.{
  ℕ, zero, suc, ◌≡◌, refl, ap, List, [], ◌∷◌, ◌++◌, map, Bool, true, replicate,
}
use bookie_cpp.Io.{Io}
use bookie_cpp.Storage.{JournalEntry}
use bookie_cpp.Storage.Services.{Deps, DepsLaws}
use bookie_cpp.Storage.Schedules.{value_of_put}
use bookie_cpp.Storage.Opening.{Openers, OpenersLaws, new_storage, new_storage-IsFresh}
use bookie_cpp.BookieHandler.{Connection}
use bookie_cpp.Storage.Tracks.{Add}
use bookie_cpp.BookieHandler.Schedules.{Session, future_of}
use bookie_cpp.BookieHandler.Durability.{answer_to, value_added, answers_are_durable}
use bookie_cpp.Metrics.Services.{Histograms}
use bookie_cpp.Metrics.{create_metric}
use bookie_cpp.Metrics.Names.{IsNamed, pointers, with_name, create_metric_lem}
use bookie_cpp.Bookie.{Bookie, new_handler, new_handlers}

module _ (io : Io) (deps : Deps (JournalEntry io.Buf)) (hs : Histograms) where
  again :
      (n p : ℕ) (b : Bookie io deps hs)
      → create_metric hs "addEntry" b.metrics_manager ≡ (p, b.metrics_manager)
      → new_handlers io deps hs n b ≡ (replicate n p, b)
  unfolding new_handlers new_handler
  again zero p b same = refl
  again (suc n) p b same =
      rw same (ap (λ (r : List ℕ × Bookie io deps hs). (p ∷ r.0, r.1)) (again n p b same))

  -- However many connections there are, and whatever metrics a bookie has, each under its own name: all
  -- of its handlers, one at least, count in one metric, the names are those before with "addEntry", and
  -- each still has a metric of its own.
  pub new_handlers_lem :
      (n : ℕ) (b : Bookie io deps hs)
      → IsNamed hs b.metrics_manager
      → (p : ℕ) × (b' : Bookie io deps hs) × (new_handlers io deps hs (suc n) b
          ≡ (p ∷ replicate n p, b'))
        × (pointers hs b'.metrics_manager.metrics
            ≡ with_name hs "addEntry" p b.metrics_manager.metrics)
        × IsNamed hs b'.metrics_manager
  unfolding new_handlers new_handler
  new_handlers_lem n b named =
      let (p, mm, run, named', names, same) =
        create_metric_lem hs "addEntry" b.metrics_manager named in
      (
        p,
        record b { metrics_manager = mm },
        simp (run, again n p (record b { metrics_manager = mm }) same),
        names,
        named',
      )

-- A bookie's storage, from its construction on, with the log that the database had.
module _ (io : Io) (deps : Deps (JournalEntry io.Buf)) (laws : DepsLaws (JournalEntry io.Buf) deps)
    (openers : Openers deps) (openers_laws : OpenersLaws io deps openers laws) (fsync_wal : Bool)
    (writes_succeed : (b : deps.Batch) (d : deps.Db) → (deps.write_db fsync_wal b d).0 ≡ true) where
  -- If every write of the database succeeds, then on a connection to a bookie's new storage, whatever
  -- happens on it in whatever order: the answers written are an OK with its ids for each of the adds read
  -- first, and to what the database held have been added values that begin with the first buffers of the
  -- answered adds, both in the order of the adds.
  pub new_storage_lem :
      (db : deps.Db) (memory : ℕ → List ℕ) (adds : List (Add io.Buf)) (delivered : List ℕ)
      (c : Connection io.Buf deps)
      → Session io deps fsync_wal
          (record {
            storage = new_storage io deps openers db memory;
            waiting = [];
            written = [];
            add_samples = 0;
          })
          adds
          delivered
          c
      → (answered : List (Add io.Buf)) × (outstanding : List (Add io.Buf)) × (more : List (List ℕ))
        × (adds ≡ answered ++ outstanding)
        × (c.written ≡ map answer_to answered)
        × (c.waiting ≡ map future_of outstanding)
        × (map value_of_put (laws.log c.storage.journal.db)
            ≡ map value_of_put (laws.log db) ++ (map (value_added io) answered ++ more))
  unfolding new_storage
  new_storage_lem db memory adds delivered c session =
      answers_are_durable io deps laws fsync_wal writes_succeed _ adds delivered c
        (new_storage-IsFresh io deps openers laws db memory openers_laws) refl session
