-- ===== src/BookieConfig/Settings.antt =====
-- Each option sets its own field.
use Prim.Native.String.{String}
use bookie_cpp.Prelude.{◌≡◌, List, Option, none, some}
use bookie_cpp.BookieConfig.{
  BookieConfig, Value, string_value, int_value, bool_value, CommandLine, options, assign, notify,
  parse, parsed,
}

-- The values that the options have where the fields are those of `c`.
pub record Sets (values : String → Option Value) (c : BookieConfig) : Type 0 where
  pub servers : values "zkServers" ≡ some (string_value c.zk_servers)
  pub timeout : values "zkSessionTimeout" ≡ some (int_value c.zk_session_timeout)
  pub host : values "bookieHost" ≡ some (string_value c.bookie_host)
  pub port : values "bookiePort" ≡ some (int_value c.bookie_port)
  pub data_dir : values "dataDir" ≡ some (string_value c.data_directory)
  pub wal_dir : values "walDir" ≡ some (string_value c.wal_directory)
  pub fsync : values "fsyncWal" ≡ some (bool_value c.fsync_wal)
  pub interval :
      values "statsReportingIntervalSeconds" ≡ some (int_value c.stats_reporting_interval)

notify_lem :
    (host : String) (values : String → Option Value) (before c : BookieConfig)
    → Sets values c
    → notify (options host) values before ≡ c
unfolding options notify assign
notify_lem host values before c s = simp (
  s.servers, s.timeout, s.host, s.port, s.data_dir, s.wal_dir, s.fsync, s.interval, options, notify,
  assign,
)

-- A command line that is accepted, without a call for help, and that gives each option a value, its own or
-- the default, is parsed to the settings with just these values, whatever they were before.
pub parse_lem :
    (command_line : CommandLine) (default_hostname : String) (arguments : List String)
    (values : String → Option Value) (before c : BookieConfig)
    → command_line (options default_hostname) arguments ≡ some values
    → values "help" ≡ none
    → Sets values c
    → parse command_line default_hostname arguments before ≡ parsed c
unfolding parse
parse_lem command_line default_hostname arguments values before c run no_help s =
    simp (run, parse, no_help, notify_lem default_hostname values before c s)
