-- ===== src/PerfClient.antt =====
-- src/perfClient.cpp: one connection of the load generator. Its thread produces entry ids at the rate of a
-- limiter and posts a send for each to the event loop; the event loop sends and reads. The message size is
-- not negative.
pub mod Sends
pub mod Session
pub mod Connections
pub mod Program
use mathlib.Core.Option
use bookie_cpp.Prelude.{
  ℕ, ◌+◌, ◌%◌, ◌^◌, List, [], ◌∷◌, ◌++◌, Option, none, some, Bool, true, false, ◌==◌, if◌then◌else◌,
  replicate,
}
use bookie_cpp.Protocol.{Request, Response, BookieOperation, BookieError}
use bookie_cpp.RateLimiter.{RateLimiter, aquire}
use bookie_cpp.Metrics.Services.{Histograms}
use bookie_cpp.Metrics.{Timer, MetricsManager, start_timer, completed}

-- An AddEntryTask with the variables of `start`, the sends that the event loop has not run yet, and what
-- was written to the pipeline. `metric` is the place of its metric.
pub record AddEntryTask (Buf : Type 0) (hs : Histograms) : Type 0 where
  pub ledger_id : ℕ
  pub entry_id_generator : ℕ
  pub payload : List ℕ
  pub rate_limiter : RateLimiter
  pub metric : ℕ
  pub posted : List ℕ
  pub pending_requests : List (ℕ × Timer hs)
  pub written : List (Request Buf)

-- `'X'`.
abbrev pub filling : ℕ
filling = 0x58

-- How a read ends: it comes back, the process exits, or an iterator at the end is dereferenced.
pub data Read (A : Type 0) : Type 0 where
  done : A → Read A
  exits : Read A
  no_request : Read A

unfoldable pub is_ok : BookieError → Bool
is_ok BookieError.ok = true
is_ok _ = false

-- `wrap_buffer` is IOBuf::wrapBuffer.
module _ (Buf : Type 0) (wrap_buffer : List ℕ → Buf) (hs : Histograms) where
  -- The start of the thread: it takes a ledger id from the generator that all connections share.
  unfoldable pub start : ℕ → RateLimiter → ℕ → ℕ → AddEntryTask Buf hs × ℕ
  start ledger_id_generator rate_limiter msg_size metric = (
    record {
      ledger_id = ledger_id_generator;
      entry_id_generator = 0;
      payload = replicate msg_size filling;
      rate_limiter = rate_limiter;
      metric = metric;
      posted = [];
      pending_requests = [];
      written = [];
    },
    (ledger_id_generator + 1) % 2 ^ 64,
  )

  -- One turn of the thread's loop. `none` is the limiter's division by zero.
  unfoldable pub produce : ℕ → AddEntryTask Buf hs → Option (AddEntryTask Buf hs)
  produce now t =
      Option.map
        (λ w. record t {
          rate_limiter = w.1;
          entry_id_generator = (t.entry_id_generator + 1) % 2 ^ 64;
          posted = t.posted ++ t.entry_id_generator ∷ [];
        })
        (aquire 1 now t.rate_limiter)

  unfoldable pub request_for : AddEntryTask Buf hs → ℕ → Request Buf
  request_for t entry_id = record {
    protocol_version = 2;
    op_code = BookieOperation.add_entry;
    ledger_id = t.ledger_id;
    entry_id = entry_id;
    flags = 0;
    payload = some (wrap_buffer t.payload);
  }

  -- `unordered_map::insert` keeps what is there.
  unfoldable pub insert_pending : ℕ → Timer hs → List (ℕ × Timer hs) → List (ℕ × Timer hs)
  insert_pending id timer [] = (id, timer) ∷ []
  insert_pending id timer ((i, w) ∷ rest) =
      if i == id then (i, w) ∷ rest else (i, w) ∷ insert_pending id timer rest

  -- The send of one entry, which the event loop runs.
  unfoldable pub send : ℕ → ℕ → AddEntryTask Buf hs → AddEntryTask Buf hs
  unfolding request_for insert_pending
  send now entry_id t = record t {
    written = t.written ++ request_for t entry_id ∷ [];
    pending_requests = insert_pending entry_id (start_timer hs t.metric now) t.pending_requests;
  }

  -- The event loop takes the next send, if there is one.
  unfoldable pub transmit : ℕ → AddEntryTask Buf hs → AddEntryTask Buf hs
  unfolding send
  transmit now t = elim t.posted [ [] ↦ t | id ∷ rest ↦ send now id (record t { posted = rest }) ]

  unfoldable pub find_pending : ℕ → List (ℕ × Timer hs) → Option (Timer hs)
  find_pending id [] = none
  find_pending id ((i, timer) ∷ rest) = if i == id then some timer else find_pending id rest

  unfoldable pub erase : ℕ → List (ℕ × Timer hs) → List (ℕ × Timer hs)
  erase id [] = []
  erase id ((i, timer) ∷ rest) = if i == id then rest else (i, timer) ∷ erase id rest

  -- A response at time `now`, on the event loop's thread.
  unfoldable pub read :
      ℕ
      → ℕ
      → Response Buf
      → AddEntryTask Buf hs
      → MetricsManager hs
      → Read (AddEntryTask Buf hs × MetricsManager hs)
  unfolding find_pending erase is_ok
  read thread now response t mm =
      if is_ok response.error_code
      then elim (find_pending response.entry_id t.pending_requests) [
        | none ↦ no_request
        | some timer ↦ elim (completed hs thread now timer mm) [
          | none ↦ no_request
          | some mm' ↦
              done (record t { pending_requests = erase response.entry_id t.pending_requests }, mm')
        ]
      ]
      else exits

  -- Responses, each with its time.
  unfoldable pub read_all :
      ℕ
      → List (ℕ × Response Buf)
      → AddEntryTask Buf hs
      → MetricsManager hs
      → Read (AddEntryTask Buf hs × MetricsManager hs)
  unfolding read
  read_all thread [] t mm = done (t, mm)
  read_all thread ((now, response) ∷ rest) t mm = elim (read thread now response t mm) [
    | done (t', mm') ↦ read_all thread rest t' mm'
    | exits ↦ exits
    | no_request ↦ no_request
  ]

-- The thread produces, or the event loop transmits, at a time. These are all the turns there are as long
-- as no answer has been read.
pub data Act : Type 0 where
  produces : ℕ → Act
  transmits : ℕ → Act

module _ (Buf : Type 0) (wrap_buffer : List ℕ → Buf) (hs : Histograms) where
  unfoldable pub run_acts : List Act → AddEntryTask Buf hs → Option (AddEntryTask Buf hs)
  unfolding produce transmit
  run_acts [] t = some t
  run_acts (produces now ∷ acts) t = elim (produce Buf wrap_buffer hs now t) [
    | none ↦ none
    | some t' ↦ run_acts acts t'
  ]
  run_acts (transmits now ∷ acts) t = run_acts acts (transmit Buf wrap_buffer hs now t)
