-- ===== src/Bookie/Lifecycle.antt =====
-- From main to the registration in ZooKeeper, and the metric of the handlers.
use Prim.Native.String.{String}
use bookie_cpp.Prelude.{
  ℕ, ◌+◌, ◌≤◌, ◌≡◌, List, [], ◌∷◌, none, some, Bool, true, false, length, ◌⊎◌, Option,
}
use bookie_cpp.Io.{Io}
use bookie_cpp.Storage.{JournalEntry}
use bookie_cpp.Storage.Services.{Deps}
use bookie_cpp.Storage.Opening.{Openers, options, new_storage, metric_names, create_metrics}
use bookie_cpp.BookieConfig.{BookieConfig}
use bookie_cpp.Metrics.Services.{Histograms}
use bookie_cpp.Metrics.{new_manager}
use bookie_cpp.ZooKeeper.{Client, CClient, new_client, close_client}
use bookie_cpp.ZooKeeper.Sessions.{hears, made_by}
use bookie_cpp.ZooKeeper.Handles.{expiries}
use bookie_cpp.BookieRegistration
use bookie_cpp.BookieRegistration.Sessions.{all_ok, node}
use bookie_cpp.Bookie.{Bookie, Life, lives, exits, threw, path_of}

module _ (io : Io) (deps : Deps (JournalEntry io.Buf)) (openers : Openers deps) (hs : Histograms)
    (zk : CClient) (registration_path : String → ℕ → String) where
  -- A client of a bookie that has been constructed.
  abbrev registered : Client
  registered = record new_client { listeners = 0 ∷ [] }

  -- A bookie behind its construction.
  abbrev constructed : BookieConfig → (ℕ → List ℕ) → deps.Db → Bookie io deps hs
  constructed conf memory db = record {
    conf = conf;
    metrics_manager =
        (create_metrics hs (metric_names hs) (new_manager hs conf.stats_reporting_interval)).1;
    zk = registered;
    storage = new_storage io deps openers db memory;
    port = none;
    stopped = false;
  }

  -- What is true of the bookie that `main` leaves: its server was bound and has been stopped, it has
  -- asked for its ephemeral node once in each session that began and for no other node, it has called
  -- zookeeper_init once for its start and once for each event of an expired session while at most one
  -- handle is ever closed, and its storage is the one that was constructed.
  pub record Ran (conf : BookieConfig) (memory : ℕ → List ℕ) (events : List (ℕ × ℕ)) (db : deps.Db)
      (b : Bookie io deps hs) : Type 0 where
    pub bound : b.port ≡ some conf.bookie_port
    pub stopped : b.stopped ≡ true
    pub created :
        b.zk.created
        ≡ made_by
            (node zk (path_of io deps openers hs zk registration_path conf))
            (hears zk none (0 ∷ []) events)
    pub opened_handles : b.zk.inits ≡ 1 + expiries zk events
    pub closed_handles : length (close_client b.zk) ≤ 1
    pub storage : b.storage ≡ new_storage io deps openers db memory

  -- The client once its first session is begun.
  abbrev begun : Client
  begun = record registered { handle = zk.zookeeper_init 0; inits = 1 }

  -- How `main` ends.
  abbrev pub Ends :
      BookieConfig
      → ℕ
      → (ℕ → List ℕ)
      → (ℕ → Bool)
      → List (ℕ × ℕ)
      → List ℕ
      → Life (ℕ × Option (Bookie io deps hs))
      → Type 0
  Ends conf hardware_concurrency memory binds events answers end =
      ((openers.open_db (options hardware_concurrency conf) conf.data_directory ≡ none)
        × (end ≡ exits 1))
      ⊎ ((binds conf.bookie_port ≡ false) × (end ≡ threw))
      ⊎ ((all_ok answers ≡ false) × (end ≡ exits 1))
      ⊎ ((binds conf.bookie_port ≡ true)
          × (all_ok answers ≡ true)
          × (db : deps.Db) × (openers.open_db (options hardware_concurrency conf)
                conf.data_directory
              ≡ some db)
          × (b : Bookie io deps hs) × (end ≡ lives (0, some b))
          × Ran conf memory events db b)
