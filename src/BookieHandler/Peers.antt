-- ===== src/BookieHandler/Peers.antt =====
-- src/BookieHandler.h and src/BookieHandler.cpp: the handler's own fields, and what it does when its
-- connection becomes active and when the peer closes it.
use Prim.Native.String.{String}
use bookie_cpp.Prelude.{ℕ, ◌≡◌, ap, List, [], ◌∷◌, ◌++◌, Option, none, some, Bool}
use bookie_cpp.Io.{Io}
use bookie_cpp.Protocol.{Request}
use bookie_cpp.Storage.{JournalEntry, Round, waits, goes_on, returned, null_deref}
use bookie_cpp.Storage.Services.{Deps}
use bookie_cpp.Storage.Schedules.{goes_on_injective}
use bookie_cpp.BookieHandler.{Connection, read, read_all}

-- `add_entry_latency` is the place of its metric, and `peer_address` is empty at first.
pub record BookieHandler (Address : Type 0) : Type 0 where
  pub add_entry_latency : ℕ
  pub peer_address : Option Address

abbrev pub new_handler : {Address : Type 0} → ℕ → BookieHandler Address
new_handler metric = record { add_entry_latency = metric; peer_address = none }

-- What a handler asks of its context.
pub data ContextCall : Type 0 where
  fire_transport_active fire_read_eof close : ContextCall

-- A line of the log, with an address at its end.
pub record Line (Address : Type 0) : Type 0 where
  pub text : String
  pub address : Option Address

-- A handler with its connection, and what it has asked of its context and logged.
pub record Handling (Buf Address : Type 0) (deps : Deps (JournalEntry Buf)) : Type 0 where
  pub handler : BookieHandler Address
  pub connection : Connection Buf deps
  pub calls : List ContextCall
  pub log : List (Line Address)

-- What the transport tells a handler. A read has the frame of its call of `put`.
pub data Event (Buf Address : Type 0) : Type 0 where
  becomes_active : Address → Event Buf Address
  gets_request : ℕ → Request Buf → Event Buf Address
  gets_eof : Event Buf Address

module _ (io : Io) (deps : Deps (JournalEntry io.Buf)) (Address : Type 0) where
  abbrev State : Type 0
  State = Handling io.Buf Address deps

  unfoldable pub transport_active : Address → State → State
  transport_active address h =
      let handler = record h.handler { peer_address = some address } in
      record h {
        handler = handler;
        calls = h.calls ++ fire_transport_active ∷ [];
        log =
            h.log
            ++ (record { text = "New connection from "; address = handler.peer_address }) ∷ [];
      }

  -- The event is passed on; the connection is not closed.
  unfoldable pub read_eof : State → State
  read_eof h = record h {
    calls = h.calls ++ fire_read_eof ∷ [];
    log =
        h.log
        ++ (record { text = "Closed connection from "; address = h.handler.peer_address }) ∷ [];
  }

  unfoldable pub with_connection : State → Round (Connection io.Buf deps) → Round State
  with_connection h waits = waits
  with_connection h (goes_on c) = goes_on (record h { connection = c })
  with_connection h (returned c) = returned (record h { connection = c })
  with_connection h null_deref = null_deref

  unfoldable pub handle_event : Bool → Event io.Buf Address → State → Round State
  unfolding transport_active read_eof with_connection
  handle_event dead_reads (becomes_active address) h = goes_on (transport_active address h)
  handle_event dead_reads (gets_request frame request) h =
      with_connection h (read io deps dead_reads frame request h.connection)
  handle_event dead_reads gets_eof h = goes_on (read_eof h)

  unfoldable pub handle_events : Bool → List (Event io.Buf Address) → State → Round State
  unfolding handle_event
  handle_events dead_reads [] h = goes_on h
  handle_events dead_reads (e ∷ es) h = elim (handle_event dead_reads e h) [
    | goes_on h' ↦ handle_events dead_reads es h'
    | waits ↦ waits
    | returned h' ↦ returned h'
    | null_deref ↦ null_deref
  ]

  -- Requests that are read, and then the end of the stream.
  abbrev pub then_eof : List (ℕ × Request io.Buf) → List (Event io.Buf Address)
  then_eof [] = gets_eof ∷ []
  then_eof ((frame, request) ∷ rest) = gets_request frame request ∷ then_eof rest

  -- The state behind the reads.
  then_eof_lem :
      (dead_reads : Bool) (requests : List (ℕ × Request io.Buf)) (h : State)
      (c : Connection io.Buf deps)
      → read_all io deps dead_reads requests h.connection ≡ goes_on c
      → handle_events dead_reads (then_eof requests) h
        ≡ goes_on (read_eof (record h { connection = c }))
  unfolding handle_events handle_event with_connection read_all
  then_eof_lem dead_reads [] h c run =
      ap (λ (x : Connection io.Buf deps). goes_on (read_eof (record h { connection = x })))
        (goes_on_injective h.connection c run)
  then_eof_lem dead_reads ((frame, request) ∷ rest) h c run =
      after_read
        (λ c' rest_run. then_eof_lem dead_reads rest (record h { connection = c' }) c rest_run)
        (read io deps dead_reads frame request h.connection) run
    where
      after_read :
          ((c' : Connection io.Buf deps)
            → read_all io deps dead_reads rest c' ≡ goes_on c
            → handle_events dead_reads (then_eof rest) (record h { connection = c' })
              ≡ goes_on (read_eof (record h { connection = c })))
          → (r : Round (Connection io.Buf deps))
          → (elim r [
            | goes_on c' ↦ read_all io deps dead_reads rest c'
            | waits ↦ waits
            | returned c' ↦ returned c'
            | null_deref ↦ null_deref
          ])
            ≡ goes_on c
          → (elim (with_connection h r) [
            | goes_on h' ↦ handle_events dead_reads (then_eof rest) h'
            | waits ↦ waits
            | returned h' ↦ returned h'
            | null_deref ↦ null_deref
          ])
            ≡ goes_on (read_eof (record h { connection = c }))
      after_read others (goes_on c') run = others c' run
      after_read others waits run = cc
      after_read others (returned c') run = cc
      after_read others null_deref run = cc

  -- A connection that becomes active, brings requests that the handler deals with, and ends: the two lines
  -- of the log name its peer, the two events are passed on, the requests are dealt with as they are without
  -- the events, and the connection is never closed.
  pub peer_is_named :
      (dead_reads : Bool) (metric : ℕ) (address : Address) (requests : List (ℕ × Request io.Buf))
      (c c' : Connection io.Buf deps)
      → read_all io deps dead_reads requests c ≡ goes_on c'
      → handle_events dead_reads
          (becomes_active address ∷ then_eof requests)
          (record { handler = new_handler metric; connection = c; calls = []; log = [] })
        ≡ goes_on (record {
          handler = record { add_entry_latency = metric; peer_address = some address };
          connection = c';
          calls = fire_transport_active ∷ fire_read_eof ∷ [];
          log =
              (record { text = "New connection from "; address = some address })
              ∷ (record { text = "Closed connection from "; address = some address })
              ∷ [];
        })
  unfolding handle_events handle_event transport_active read_eof
  peer_is_named dead_reads metric address requests c c' run =
      then_eof_lem dead_reads requests _ c' run
