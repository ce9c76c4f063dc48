-- ===== src/Lib.antt =====
-- A verification library for the C++ bookie: the server that takes entries of ledgers from a network
-- client, writes them to a RocksDB database in batches, acknowledges them, and keeps itself registered in
-- ZooKeeper.
--
-- The parts and their files. Paths are from the repository's root; function names are those of the code in
-- snake case.
--   Protocol             src/BookieProtocol.h, .cpp: operations, error codes, flags, requests, responses;
--                        Protocol/Print has the printing operators, as lists of pieces.
--   Codec                src/BookieCodecV2.cpp. Codec: PacketHeader's fromInt and toInt. Codec/Server:
--                        BookieServerCodecV2::read and write. Codec/Client: BookieClientCodecV2::read and
--                        write. What `read` does with its context is an `Outcome`: it fires a message,
--                        closes the channel, ignores the call, throws (`out_of_range`) or dereferences null.
--   Storage              src/Storage.h, .cpp: `put` and the journal thread. `journal_round` is one pass of
--                        the inner loop of runJournal with, where the code breaks out of it, the write of
--                        the batch behind it; `Journal` has the loop's local variables with the queue, the
--                        database and the promises fulfilled. Storage/Schedules is what can happen to a
--                        storage: puts, rounds, and other code's use of the stack, in any order. Storage/Fates,
--                        Rounds and Stands follow each entry to the outcome of its write, Outcomes says what that
--                        comes to; Frames, Keys, Table and Found have the keys and the database as a table.
--   RateLimiter          src/RateLimiter.h. The clock is an argument, the sleep a result.
--   ZooKeeper            src/ZooKeeper.h, .cpp: sessions, listeners and node creation with the mutex in the
--                        state, where a second lock by the thread that holds it is a `deadlock`, and
--                        a listener in which the process exits is an `ended`; ZooKeeper/Errors has the
--                        error codes and messages.
--   BookieRegistration   src/BookieRegistration.cpp: the listener that registers the bookie in each session.
--                        BookieRegistration/Refusals is about a ZooKeeper that refuses.
--   BookieHandler        src/BookieHandler.cpp and Bookie::addEntry: a request's way to the storage, and the
--                        answers that fulfilled promises write. BookieHandler/Answers puts the handler, the
--                        storage and the journal thread together, BookieHandler/EndToEnd the codecs too.
--                        BookieHandler/Schedules is what can happen on a connection, in any order, and
--                        BookieHandler/Peers its beginning and end. Durability and Lookups say what an answer
--                        tells a client.
--   BookiePipeline       src/BookiePipeline.cpp: the row of handlers, and what becomes of a frame in them.
--   Metrics              src/Metrics.h, Metrics-inl.h, Metrics.cpp: a metric with a histogram for each
--                        thread, updates of its statistics, the manager's map of names, and timers.
--                        Metrics/Reporting has the thread that updates and prints once in a period.
--   PerfClient           src/perfClient.cpp: AddEntryTask, a connection of the load generator. `produce` is a
--                        turn of its thread, `send` what that turn posts to the event loop.
--                        PerfClient/Connections has the connections of the program, PerfClient/Program its
--                        options and main.
--   Logging              src/Logging.h, .cpp: init and the macros, over an interface to log4cxx.
--   BookieConfig         src/BookieConfig.h, .cpp: the options, the fields that they set, and `parse`.
--   Bookie               src/Bookie.h, .cpp and src/main.cpp: construction of the parts, start, the handlers of
--                        connections, and what main returns. Storage/Opening is the constructor of Storage with
--                        RocksDB's options; ZooKeeper/Events names events and states.
-- How they interact: the pipeline hands a frame to the server's codec, which delivers a request to the
-- handler; an add goes to Storage::put, whose future is answered when the journal thread has written the
-- batch. The ZooKeeper client calls the registration, a listener, whenever a session begins.
--
-- Code that the repository does not hold is a record of operations, and what is relied on is a record of
-- laws: Io and Io/Laws for folly's IOBuf and cursors, Storage/Services for the queue, the write batch, the
-- database and the byte order, Metrics/Services for folly's Histogram, `CClient` for ZooKeeper's C client,
-- `CommandLine` for boost's program options, `Log4cxx` for log4cxx, `Openers` for opening a
-- database, `Rates` for arithmetic on doubles.
-- Io/Lists, Storage/Lists and Metrics/OneBucket are instances, which show that the laws can be met.
--
-- An integer is its bit pattern, a number below a power of two; conversions and shifts of signed numbers are
-- written out. Fields that C++ leaves unset are an argument (`junk`, or the contents of a fresh buffer).
-- `rounds` runs the journal thread for a given number of rounds, and the number that is enough is part of
-- the theorem on it. The other loops are recursion on a list.
--
-- A frame decoder is any function that, where the length field counts the bytes behind it and these are no more
-- than the longest frame, takes the field off (`IsDecoder`); what it makes of other bytes is left open. The
-- listener's creation of a node may fail at once, which exits the process, or be answered later; `main` has the
-- answers as a list. Of memory, the 16 bytes of a key overlap those of another that is nearer than 16 bytes. In
-- the metrics time does not run back, and the message size of the load generator is not negative.
--
-- As written, `put` evaluates the data that it has moved away, which dereferences null. The read's result is
-- unused, and `dead_reads` tells whether it is made; "put's dead read left out" below means that it is not.
--
-- Not modelled: the reading of a command line, which is boost's; signals before the bookie waits for its stop;
-- glog's set-up; how a logger gets its name; the text of log lines, but for those that Logging, Metrics and
-- BookieHandler/Peers name; the storage's and the handler's own metrics, of which only the samples that their
-- timers add are counted; interleavings inside a call of `put`, a round of the journal thread, an update of
-- the statistics or a call of the ZooKeeper client, each of which is one step; what wangle does with frames and
-- answers behind a request to close the channel.
pub mod Prelude
pub mod Io
pub mod Protocol
pub mod Codec
pub mod Storage
pub mod RateLimiter
pub mod ZooKeeper
pub mod BookieRegistration
pub mod BookieHandler
pub mod BookiePipeline
pub mod Metrics
pub mod PerfClient
pub mod BookieConfig
pub mod Bookie
pub mod Logging
pub mod Tests
