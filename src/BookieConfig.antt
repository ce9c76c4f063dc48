-- ===== src/BookieConfig.antt =====
-- src/BookieConfig.h and src/BookieConfig.cpp: the settings, the options that set them, and how the program
-- goes on behind the command line. The reading of the command line is boost's. A number of a setting is not
-- negative.
pub mod Settings
use Prim.Native.String.{String}
use bookie_cpp.Prelude.{ℕ, List, [], ◌∷◌, Option, none, some, Bool, true, false}

pub record BookieConfig : Type 0 where
  pub zk_servers : String
  pub zk_session_timeout : ℕ
  pub bookie_host : String
  pub bookie_port : ℕ
  pub data_directory : String
  pub wal_directory : String
  pub fsync_wal : Bool
  pub stats_reporting_interval : ℕ

pub data Value : Type 0 where
  string_value : String → Value
  int_value : ℕ → Value
  bool_value : Bool → Value

-- The variables that options store to.
pub data Variable : Type 0 where
  zk_servers zk_session_timeout bookie_host bookie_port : Variable
  data_directory wal_directory fsync_wal stats_reporting_interval : Variable

-- An option with its long name, its short one or "", and, if it has a value, the variable and the default.
pub record Description : Type 0 where
  pub long : String
  pub short : String
  pub stores : Option (Variable × Value)

abbrev stored : String → String → Variable → Value → Description
stored long short variable default = record {
  long = long;
  short = short;
  stores = some (variable, default);
}

unfoldable pub options : String → List Description
options default_hostname =
    record { long = "help"; short = "h"; stores = none }
    ∷ stored "zkServers" "z" zk_servers (string_value "localhost:2181")
    ∷ stored "zkSessionTimeout" "" zk_session_timeout (int_value 30000)
    ∷ stored "bookieHost" "" bookie_host (string_value default_hostname)
    ∷ stored "bookiePort" "p" bookie_port (int_value 3181)
    ∷ stored "dataDir" "d" data_directory (string_value "./data")
    ∷ stored "walDir" "w" wal_directory (string_value "./wal")
    ∷ stored "fsyncWal" "s" fsync_wal (bool_value true)
    ∷ stored "statsReportingIntervalSeconds" "r" stats_reporting_interval (int_value 60)
    ∷ []

-- What the parsing of a command line gives: the value of each option, or `none` for an exception. A value
-- that is not of its variable's type is an exception, so `assign` does not meet one.
abbrev pub CommandLine : Type 0
CommandLine = List Description → List String → Option (String → Option Value)

unfoldable pub assign : Variable → Value → BookieConfig → BookieConfig
assign zk_servers (string_value s) c = record c { zk_servers = s }
assign zk_session_timeout (int_value n) c = record c { zk_session_timeout = n }
assign bookie_host (string_value s) c = record c { bookie_host = s }
assign bookie_port (int_value n) c = record c { bookie_port = n }
assign data_directory (string_value s) c = record c { data_directory = s }
assign wal_directory (string_value s) c = record c { wal_directory = s }
assign fsync_wal (bool_value b) c = record c { fsync_wal = b }
assign stats_reporting_interval (int_value n) c = record c { stats_reporting_interval = n }
assign _ _ c = c

-- `po::notify`: each option's value goes to its variable.
unfoldable pub notify : List Description → (String → Option Value) → BookieConfig → BookieConfig
unfolding assign
notify [] values c = c
notify (d ∷ ds) values c = elim d.stores [
  | none ↦ notify ds values c
  | some (variable, default) ↦ elim (values d.long) [
    | none ↦ notify ds values c
    | some v ↦ notify ds values (assign variable v c)
  ]
]

-- `parse` returns true or false, or the process exits.
pub data Parsed : Type 0 where
  parsed : BookieConfig → Parsed
  refused : Parsed
  help : Parsed

unfoldable pub parse : CommandLine → String → List String → BookieConfig → Parsed
unfolding options notify
parse command_line default_hostname arguments c =
    elim (command_line (options default_hostname) arguments) [
      | none ↦ refused
      | some values ↦ elim (values "help") [
        | some v ↦ help
        | none ↦ parsed (notify (options default_hostname) values c)
      ]
    ]
