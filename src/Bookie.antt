-- ===== src/Bookie.antt =====
-- src/Bookie.h and src/Bookie.cpp: the parts of the bookie put together, from its construction to its
-- destruction, and what main of src/main.cpp does with it. Whether the server can bind its port, the
-- formatting of the registration path and the watch events are parameters.
pub mod Lifecycle
pub mod Handlers
use Prim.Native.String.{String}
use bookie_cpp.Prelude.{
  ℕ, zero, suc, ◌-◌, ◌^◌, List, [], ◌∷◌, Option, none, some, Bool, true, false, if◌then◌else◌,
}
use bookie_cpp.Io.{Io}
use bookie_cpp.Storage.{JournalEntry, Storage}
use bookie_cpp.Storage.Services.{Deps}
use bookie_cpp.Storage.Opening
use bookie_cpp.Storage.Opening.{Openers, opened, exited}
use bookie_cpp.BookieConfig.{BookieConfig, Parsed, parsed, refused, help}
use bookie_cpp.Metrics.Services.{Histograms}
use bookie_cpp.Metrics.{MetricsManager, new_manager, create_metric}
use bookie_cpp.ZooKeeper.{
  Client, CClient, Call, comes_back, ended, deadlock, new_client, start_session, handle_all,
}
use bookie_cpp.BookieRegistration
use bookie_cpp.BookieRegistration.{listener, settle_all, running, registered}

-- `port` is the one that the server is bound to.
pub record Bookie (io : Io) (deps : Deps (JournalEntry io.Buf)) (hs : Histograms) : Type 0 where
  pub conf : BookieConfig
  pub metrics_manager : MetricsManager hs
  pub zk : Client
  pub storage : Storage io.Buf deps
  pub port : Option ℕ
  pub stopped : Bool

-- A call comes back, the process exits, an exception leaves the call, or the thread waits for itself.
pub data Life (A : Type 0) : Type 0 where
  lives : A → Life A
  exits : ℕ → Life A
  threw : Life A
  hangs : Life A

module _ (io : Io) (deps : Deps (JournalEntry io.Buf)) (hs : Histograms) where
  -- A call on the client.
  unfoldable pub on_client : Bookie io deps hs → Call Client → Life (Bookie io deps hs)
  on_client b (comes_back client) = lives (record b { zk = client })
  on_client b (ended code) = exits code
  on_client b deadlock = hangs

  unfoldable pub stop : Bookie io deps hs → Bookie io deps hs
  stop b = record b { stopped = true }

  -- A handler with the metric of its adds.
  unfoldable pub new_handler : Bookie io deps hs → ℕ × Bookie io deps hs
  new_handler b =
      let (metric, mm) = create_metric hs "addEntry" b.metrics_manager in
      (metric, record b { metrics_manager = mm })

  -- The handlers of connections, one after the other.
  unfoldable pub new_handlers : ℕ → Bookie io deps hs → List ℕ × Bookie io deps hs
  unfolding new_handler
  new_handlers zero b = ([], b)
  new_handlers (suc n) b =
      let (metric, b1) = new_handler b in
      let (metrics, b2) = new_handlers n b1 in (metric ∷ metrics, b2)

  -- The handler of the signals, while `bookie` is set or not.
  unfoldable pub signal_handler : Option (Bookie io deps hs) → Option (Bookie io deps hs)
  unfolding stop
  signal_handler none = none
  signal_handler (some b) = some (stop b)

module _ (io : Io) (deps : Deps (JournalEntry io.Buf)) (openers : Openers deps) (hs : Histograms)
    (zk : CClient) (registration_path : String → ℕ → String) where
  abbrev pub path_of : BookieConfig → String
  path_of conf = registration_path conf.bookie_host conf.bookie_port

  -- The members, in their order. The registration's listener is the client's first.
  unfoldable pub construct : ℕ → (ℕ → List ℕ) → BookieConfig → Life (Bookie io deps hs)
  construct hardware_concurrency memory conf =
      elim (BookieRegistration.construct zk (path_of conf) 0 new_client) [
        | ended code ↦ exits code
        | deadlock ↦ hangs
        | comes_back client ↦
            elim (Opening.construct io deps openers hs hardware_concurrency conf memory
              (new_manager hs conf.stats_reporting_interval)) [
                | exited code ↦ exits code
                | opened (storage, mm) ↦ lives (record {
                  conf = conf;
                  metrics_manager = mm;
                  zk = client;
                  storage = storage;
                  port = none;
                  stopped = false;
                })
              ]
      ]

  -- `binds` tells whether the port can be bound.
  unfoldable pub start : (ℕ → Bool) → Bookie io deps hs → Life (Bookie io deps hs)
  unfolding on_client
  start binds b =
      if binds b.conf.bookie_port
      then on_client io deps hs (record b { port = some b.conf.bookie_port })
          (start_session zk b.zk)
      else threw

  -- The C client's events, on its thread.
  unfoldable pub watch : List (ℕ × ℕ) → Bookie io deps hs → Life (Bookie io deps hs)
  unfolding on_client
  watch events b = on_client io deps hs b (handle_all zk (listener zk (path_of b.conf)) events b.zk)

  -- The bookie that `main` destroys at its end, if it gets there, and what it returns. The events come
  -- between the start and the signal that stops the server, and so do the answers to the registrations that
  -- were accepted; the process exits at the first that is an error, among the events or behind them.
  unfoldable pub main :
      Parsed
      → ℕ
      → (ℕ → List ℕ)
      → (ℕ → Bool)
      → List (ℕ × ℕ)
      → List ℕ
      → Life (ℕ × Option (Bookie io deps hs))
  unfolding construct start watch signal_handler
  main refused hardware_concurrency memory binds events answers = lives (2 ^ 32 - 1, none)
  main help hardware_concurrency memory binds events answers = exits 1
  main (parsed conf) hardware_concurrency memory binds events answers =
      elim (construct hardware_concurrency memory conf) [
        | exits code ↦ exits code
        | threw ↦ threw
        | hangs ↦ hangs
        | lives b ↦ elim (start binds b) [
          | exits code ↦ exits code
          | threw ↦ threw
          | hangs ↦ hangs
          | lives b ↦ elim (watch events b) [
            | exits code ↦ exits code
            | threw ↦ threw
            | hangs ↦ hangs
            | lives b ↦ elim (settle_all zk (path_of b.conf) answers) [
              | BookieRegistration.exited ↦ exits 1
              | running ↦ lives (0, signal_handler io deps hs (some b))
              | registered path ↦ lives (0, signal_handler io deps hs (some b))
            ]
          ]
        ]
      ]
