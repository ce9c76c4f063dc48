-- ===== src/Tests/Bookie.antt =====
-- A bookie over lists (Io/Lists, Storage/Lists, Metrics/OneBucket), and the C client of Tests/ZooKeeper.
use Prim.Native.String.{String}
use text.Mathlib.Text.{◌==◌ as str_eq}
use bookie_cpp.Prelude.{
  ℕ, ◌≡◌, ◌↔◌, refl, [], ◌∷◌, Option, some, none, Bool, true, false, take, arith, if◌then◌else◌,
}
use bookie_cpp.Io.Lists.{list_io}
use bookie_cpp.Storage.{JournalEntry, key_bytes}
use bookie_cpp.Storage.Lists.{list_deps_laws}
use bookie_cpp.Storage.Opening.{Openers, options, key_prefix_iff}
use bookie_cpp.BookieConfig.{
  BookieConfig, Value, string_value, int_value, bool_value, CommandLine, parse, parsed,
}
use bookie_cpp.BookieConfig.Settings.{Sets, parse_lem}
use bookie_cpp.Metrics.{find}
use bookie_cpp.Metrics.OneBucket.{one_bucket}
use bookie_cpp.Metrics.Names.{IsNamed, pointers, with_name}
use bookie_cpp.ZooKeeper.{new_client}
use bookie_cpp.Bookie.{Bookie, new_handlers}
use bookie_cpp.Bookie.Handlers.{new_handlers_lem}
use bookie_cpp.Tests.ZooKeeper.{zk}
use bookie_cpp.Tests.BookieHandler.{Chain, deps, connection}

abbrev the : (A : Type 0) → A → A
the A a = a

abbrev conf : BookieConfig
conf = record {
  zk_servers = "zk:2181";
  zk_session_timeout = 30000;
  bookie_host = "bookie1";
  bookie_port = 3182;
  data_directory = "./data";
  wal_directory = "./wal";
  fsync_wal = true;
  stats_reporting_interval = 60;
}

abbrev blank : BookieConfig
blank = record {
  zk_servers = "";
  zk_session_timeout = 0;
  bookie_host = "";
  bookie_port = 0;
  data_directory = "";
  wal_directory = "";
  fsync_wal = false;
  stats_reporting_interval = 0;
}

-- What the options of `-z zk:2181 -p 3182` have.
abbrev values : String → Option Value
values name =
    if str_eq name "zkServers"
    then some (string_value "zk:2181")
    else if str_eq name "zkSessionTimeout"
    then some (int_value 30000)
    else if str_eq name "bookieHost"
    then some (string_value "bookie1")
    else if str_eq name "bookiePort"
    then some (int_value 3182)
    else if str_eq name "dataDir"
    then some (string_value "./data")
    else if str_eq name "walDir"
    then some (string_value "./wal")
    else if str_eq name "fsyncWal"
    then some (bool_value true)
    else if str_eq name "statsReportingIntervalSeconds"
    then some (int_value 60)
    else none

abbrev command_line : CommandLine
command_line descriptions arguments = some values

values-Sets : Sets values conf
values-Sets = record {
  servers = refl;
  timeout = refl;
  host = refl;
  port = refl;
  data_dir = refl;
  wal_dir = refl;
  fsync = refl;
  interval = refl;
}

parse_lem_example :
    parse command_line "bookie1" ("-z" ∷ "zk:2181" ∷ "-p" ∷ "3182" ∷ []) blank ≡ parsed conf
parse_lem_example =
    parse_lem command_line "bookie1" ("-z" ∷ "zk:2181" ∷ "-p" ∷ "3182" ∷ []) values blank conf refl
      refl values-Sets

key_prefix_iff_example :
    (take (options 8 conf).prefix_extractor (key_bytes list_io deps 7 9)
      ≡ take (options 8 conf).prefix_extractor (key_bytes list_io deps 7 10))
    ↔ ((the ℕ 7) ≡ 7)
key_prefix_iff_example =
    key_prefix_iff list_io deps (list_deps_laws true (JournalEntry Chain)) 8 conf 7 9 7 10
      (omega arith) (omega arith)

abbrev openers : Openers deps
openers = record { new_queue = λ n. []; new_batch = []; open_db = λ o directory. some [] }

abbrev path_of : String → ℕ → String
path_of host port = host

abbrev binds : ℕ → Bool
binds port = true

abbrev bookie : Bookie list_io deps one_bucket
bookie = record {
  conf = conf;
  metrics_manager = record { metrics = []; store = []; stats_period = 60 };
  zk = new_client;
  storage = connection.storage;
  port = none;
  stopped = false;
}

bookie-IsNamed : IsNamed one_bucket bookie.metrics_manager
unfolding find
bookie-IsNamed name p there = cc

new_handlers_lem_example :
    (p : ℕ) × (b : Bookie list_io deps one_bucket) × (new_handlers list_io deps one_bucket 3 bookie
      ≡ (p ∷ p ∷ p ∷ [], b))
    × (pointers one_bucket b.metrics_manager.metrics ≡ with_name one_bucket "addEntry" p [])
    × IsNamed one_bucket b.metrics_manager
new_handlers_lem_example = new_handlers_lem list_io deps one_bucket 2 bookie bookie-IsNamed
