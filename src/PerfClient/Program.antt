-- ===== src/PerfClient/Program.antt =====
-- src/perfClient.cpp: main of the load generator, from the command line to its connections. The reading of
-- the command line is boost's. A number of the command line is not negative.
use Prim.Native.String.{String}
use bookie_cpp.Prelude.{
  ℕ, ◌-◌, ◌^◌, ◌≡◌, List, [], ◌∷◌, map, Option, none, some, Bool, true, false, ◌&&◌, ◌⊎◌,
  if◌then◌else◌,
}
use bookie_cpp.RateLimiter.{Rates, create}
use bookie_cpp.Metrics.Services.{Histograms}
use bookie_cpp.Metrics.{MetricsManager, new_manager, create_metric}
use bookie_cpp.PerfClient.{AddEntryTask}
use bookie_cpp.PerfClient.Sends.{from}
use bookie_cpp.PerfClient.Connections.{Arguments, connect_all, AreAtStart}

-- `default_rate` is the double 100.
module _ (rates : Rates) (default_rate : rates.Rate) where
  pub data Value : Type 0 where
    string_value : String → Value
    double_value : rates.Rate → Value
    int_value : ℕ → Value
    bool_value : Bool → Value

  -- The fields of Arguments.
  pub data Variable : Type 0 where
    bookie_address rate msg_size number_of_connections : Variable
    format_stats_json stats_reporting_rate_seconds : Variable

  -- An option with its long name, its short one or "", and, if it has a value, the variable and the default.
  pub record Description : Type 0 where
    pub long : String
    pub short : String
    pub stores : Option (Variable × Value)

  abbrev stored : String → String → Variable → Value → Description
  stored long short variable default = record {
    long = long;
    short = short;
    stores = some (variable, default);
  }

  unfoldable pub options : List Description
  options =
      record { long = "help"; short = "h"; stores = none }
      ∷ stored "bookieAddress" "a" bookie_address (string_value "localhost:3181")
      ∷ stored "rate" "r" rate (double_value default_rate)
      ∷ stored "msg-size" "s" msg_size (int_value 1024)
      ∷ stored "num-connections" "c" number_of_connections (int_value 16)
      ∷ stored "format-stats" "" format_stats_json (bool_value true)
      ∷ stored "stats-reporting" "" stats_reporting_rate_seconds (int_value 10)
      ∷ []

  -- What the parsing of a command line gives: the value of each option, or `none` for an exception. A value
  -- that is not of its variable's type is an exception, so `assign` does not meet one.
  abbrev pub CommandLine : Type 0
  CommandLine = List Description → List String → Option (String → Option Value)

  unfoldable pub assign : Variable → Value → Arguments rates → Arguments rates
  assign bookie_address (string_value s) a = record a { bookie_address = s }
  assign rate (double_value d) a = record a { rate = d }
  assign msg_size (int_value n) a = record a { msg_size = n }
  assign number_of_connections (int_value n) a = record a { number_of_connections = n }
  assign format_stats_json (bool_value b) a = record a { format_stats_json = b }
  assign stats_reporting_rate_seconds (int_value n) a = record a {
    stats_reporting_rate_seconds = n;
  }
  assign _ _ a = a

  -- `po::notify`: each option's value goes to its variable.
  unfoldable pub notify :
      List Description → (String → Option Value) → Arguments rates → Arguments rates
  unfolding assign
  notify [] values a = a
  notify (d ∷ ds) values a = elim d.stores [
    | none ↦ notify ds values a
    | some (variable, default) ↦ elim (values d.long) [
      | none ↦ notify ds values a
      | some v ↦ notify ds values (assign variable v a)
    ]
  ]

  -- The values that the options have where the fields are those of `a`.
  pub record Sets (values : String → Option Value) (a : Arguments rates) : Type 0 where
    pub address : values "bookieAddress" ≡ some (string_value a.bookie_address)
    pub at_rate : values "rate" ≡ some (double_value a.rate)
    pub size : values "msg-size" ≡ some (int_value a.msg_size)
    pub connections : values "num-connections" ≡ some (int_value a.number_of_connections)
    pub format : values "format-stats" ≡ some (bool_value a.format_stats_json)
    pub reporting : values "stats-reporting" ≡ some (int_value a.stats_reporting_rate_seconds)

-- How main ends: the process exits, main returns, an exception leaves it, an assertion fails, or it goes on
-- with the tasks of its connections for ever.
pub data Program (A : Type 0) : Type 0 where
  exits : ℕ → Program A
  returns : ℕ → Program A
  threw : Program A
  aborts : Program A
  runs : A → Program A

module _ (Buf : Type 0) (wrap_buffer : List ℕ → Buf) (hs : Histograms) (rates : Rates)
    (default_rate : rates.Rate) (divide : rates.Rate → ℕ → rates.Rate) where
  -- `resolves` tells whether a host and port can be looked up, and `connected` whether all connections are
  -- made: the future of one that is not throws. An assertion that then fails in another is not followed.
  unfoldable pub run_client :
      (String → Bool)
      → Bool
      → Arguments rates
      → Program (List (AddEntryTask Buf hs) × MetricsManager hs)
  run_client resolves connected args =
      let (metric, mm) =
        create_metric hs "add-entry-metric" (new_manager hs args.stats_reporting_rate_seconds) in
      if resolves args.bookie_address
      then (if connected
          then elim (connect_all Buf wrap_buffer hs rates divide args metric) [
            | none ↦ aborts
            | some (ts, generator) ↦ runs (ts, mm)
          ]
          else threw)
      else threw

  -- `args` is what the arguments hold before they are set.
  unfoldable pub main :
      CommandLine rates default_rate
      → (String → Bool)
      → Bool
      → List String
      → Arguments rates
      → Program (List (AddEntryTask Buf hs) × MetricsManager hs)
  unfolding run_client
  main command_line resolves connected arguments args =
      elim (command_line (options rates default_rate) arguments) [
        | none ↦ returns (2 ^ 32 - 1)
        | some values ↦ elim (values "help") [
          | some v ↦ exits 1
          | none ↦
              run_client resolves connected
                (notify rates default_rate (options rates default_rate) values args)
        ]
      ]

  -- What main comes to with the arguments `a`.
  abbrev pub Comes :
      (String → Bool)
      → Bool
      → Arguments rates
      → Program (List (AddEntryTask Buf hs) × MetricsManager hs)
      → Type 0
  Comes resolves connected a end =
      ((resolves a.bookie_address && connected ≡ false) × (end ≡ threw))
      ⊎ ((create rates (divide a.rate a.number_of_connections) ≡ none) × (end ≡ aborts))
      ⊎ ((ts : List (AddEntryTask Buf hs)) × (end
            ≡ runs (
              ts,
              (create_metric hs "add-entry-metric"
                  (new_manager hs a.stats_reporting_rate_seconds)).1,
            ))
          × (map (λ t. t.ledger_id) ts ≡ from 0 a.number_of_connections)
          × AreAtStart Buf wrap_buffer hs ts)
