-- ===== src/Tests/PerfClient.antt =====
-- A connection of the load generator with a limiter of ten permits a second, and the bookie of
-- Tests/BookieHandler.
use Prim.Native.String.{String}
use text.Mathlib.Text.{◌==◌ as str_eq}
use bookie_cpp.Prelude.{
  Bool, Option, ℕ, ◌≤◌, ◌/◌, none, ltb, if◌then◌else◌, ◌≡◌, refl, List, [], ◌∷◌, some, true, false,
  arith,
}
use bookie_cpp.Io.Lists.{list_io}
use bookie_cpp.Storage.{JournalEntry, Journal, goes_on, waits, journal_round}
use bookie_cpp.Storage.Lists.{list_deps_laws}
use bookie_cpp.Storage.Drain.{rounds}
use bookie_cpp.BookieHandler
use bookie_cpp.BookieHandler.{Connection, fulfil_all}
use bookie_cpp.RateLimiter.{RateLimiter, Rates}
use bookie_cpp.PerfClient.Connections.{Arguments}
use bookie_cpp.PerfClient.Program
use bookie_cpp.RateLimiter.Bound.{IsLimiter}
use bookie_cpp.Metrics.{MetricsManager, new_metric}
use bookie_cpp.Metrics.OneBucket.{one_bucket}
use bookie_cpp.PerfClient.{
  AddEntryTask, Act, produces, transmits, done, start, read_all, run_acts, request_for,
}
use bookie_cpp.Protocol.{Request, BookieOperation}
use bookie_cpp.PerfClient.Sends.{IsTask, acts_send_in_order}
use bookie_cpp.PerfClient.Session.{arriving, stamped, session_completes}
use bookie_cpp.Tests.BookieHandler.{Chain, deps, connection, connection-AtRound}

abbrev ten : RateLimiter
ten = record { interval = 100; stored_permits = 2; max_permits = 10; next_free = 50 }

ten-IsLimiter : IsLimiter ten
ten-IsLimiter = record { ticks = omega arith; forward = omega arith; within = omega arith }

abbrev wrap : List ℕ → Chain
wrap bytes = bytes ∷ []

-- Ledger 7, with three bytes in each entry.
abbrev first : AddEntryTask Chain one_bucket
first = record {
  ledger_id = 7;
  entry_id_generator = 0;
  payload = 0x58 ∷ 0x58 ∷ 0x58 ∷ [];
  rate_limiter = ten;
  metric = 0;
  posted = [];
  pending_requests = [];
  written = [];
}

start_run : start Chain wrap one_bucket 7 ten 3 0 ≡ (first, 8)
unfolding start
start_run = refl

-- Two sends are posted before the first is transmitted, and the third is posted then.
abbrev acts : List Act
acts = produces 60 ∷ produces 60 ∷ transmits 70 ∷ produces 80 ∷ transmits 90 ∷ []

acts_send_in_order_example :
    (t : AddEntryTask Chain one_bucket) × (sent : List ℕ) × (run_acts Chain wrap one_bucket acts
        (start Chain wrap one_bucket 7 ten 3 0).0
      ≡ some t)
    × IsTask Chain wrap one_bucket (start Chain wrap one_bucket 7 ten 3 0).0 sent 3 t
acts_send_in_order_example =
    acts_send_in_order Chain wrap one_bucket acts 7 ten 3 0 ten-IsLimiter (omega arith)

abbrev request : ℕ → Request Chain
request id = record {
  protocol_version = 2;
  op_code = BookieOperation.add_entry;
  ledger_id = 7;
  entry_id = id;
  flags = 0;
  payload = some (wrap first.payload);
}

-- Entries 0 and 1 are on their way, and 2 is posted.
abbrev under_way : AddEntryTask Chain one_bucket
under_way = record first {
  entry_id_generator = 3;
  posted = 2 ∷ [];
  pending_requests =
      (0, record { metric = some 0; start_time = 70 })
      ∷ (1, record { metric = some 0; start_time = 90 })
      ∷ [];
  written = request 0 ∷ request 1 ∷ [];
}

under_way-IsTask : IsTask Chain wrap one_bucket first (0 ∷ 1 ∷ []) 3 under_way
unfolding request_for
under_way-IsTask = record {
  limiter = ten-IsLimiter;
  ids = refl;
  generator = refl;
  pending = refl;
  timed = (refl, (refl, tt));
  wrote = refl;
  same_ledger = refl;
  same_payload = refl;
  same_metric = refl;
}

abbrev metrics : MetricsManager one_bucket
metrics = record {
  metrics = ("add-entry-metric", 0) ∷ [];
  store = new_metric one_bucket "add-entry-metric" ∷ [];
  stats_period = 10;
}

session_completes_example :
    (c' : Connection Chain deps) × (n : ℕ) × (j : Journal Chain deps) × (t' : AddEntryTask Chain
      one_bucket)
    × (mm : MetricsManager one_bucket) × (BookieHandler.read_all list_io deps false
          (arriving Chain wrap one_bucket 3 under_way.written)
          connection
        ≡ goes_on c')
    × (n ≤ 3)
    × (rounds list_io deps true c'.storage.memory n c'.storage.journal ≡ goes_on j)
    × (journal_round list_io deps true c'.storage.memory j ≡ waits)
    × (read_all Chain wrap one_bucket 1
          (stamped Chain wrap one_bucket 200 (fulfil_all list_io deps j.fulfilled c').written)
          under_way
          metrics
        ≡ done (t', mm))
    × (t'.pending_requests ≡ [])
session_completes_example =
    session_completes list_io wrap one_bucket deps (list_deps_laws true (JournalEntry Chain)) true
      (λ b d. refl) first under_way (0 ∷ 1 ∷ []) 3 metrics 1 200 3 connection [] under_way-IsTask
      (omega arith) connection-AtRound refl refl

-- Whole rates in permits a second.
abbrev rates : Rates
rates = record {
  Rate = ℕ;
  period_micros = λ r. 1_000_000 / r;
  whole = λ r. r;
  below_million = λ r. ltb r 1_000_000;
}

abbrev blank : Arguments rates
blank = record {
  bookie_address = "";
  rate = 0;
  msg_size = 0;
  number_of_connections = 0;
  stats_reporting_rate_seconds = 0;
  format_stats_json = false;
}

-- `-r 30 -c 3`.
abbrev args : Arguments rates
args = record {
  bookie_address = "localhost:3181";
  rate = 30;
  msg_size = 1024;
  number_of_connections = 3;
  stats_reporting_rate_seconds = 10;
  format_stats_json = true;
}

abbrev values : String → Option (Program.Value rates 100)
values name =
    if str_eq name "bookieAddress"
    then some (Program.string_value "localhost:3181")
    else if str_eq name "rate"
    then some (Program.double_value 30)
    else if str_eq name "msg-size"
    then some (Program.int_value 1024)
    else if str_eq name "num-connections"
    then some (Program.int_value 3)
    else if str_eq name "format-stats"
    then some (Program.bool_value true)
    else if str_eq name "stats-reporting"
    then some (Program.int_value 10)
    else none

abbrev command_line : Program.CommandLine rates 100
command_line descriptions arguments = some values

abbrev resolves : String → Bool
resolves address = true
