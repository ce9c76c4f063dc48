-- ===== src/Storage/Opening.antt =====
-- The constructor of Storage, with the options that it gives RocksDB.
use Prim.Native.String.{String}
use bookie_cpp.Prelude.{
  ℕ, ◌-◌, ◌*◌, ◌%◌, ◌^◌, ◌<◌, ◌≡◌, ◌↔◌, refl, sym, ap, ◌∙◌, List, [], ◌∷◌, Option, none, some, Bool,
  true, false, take,
}
use bookie_cpp.Prelude.Bytes.{to_be, of_be, of_be-to_be}
use bookie_cpp.Io.{Io}
use bookie_cpp.Storage.{JournalEntry, Storage, key_bytes}
use bookie_cpp.Storage.Services.{Deps, DepsLaws}
use bookie_cpp.Storage.Durable.{IsFresh}
use bookie_cpp.Storage.Puts.{key_bytes-key_of}
use bookie_cpp.BookieConfig.{BookieConfig}
use bookie_cpp.Metrics.Services.{Histograms}
use bookie_cpp.Metrics.{MetricsManager, create_metric}

-- The literals' operators, on 64 bits.
abbrev pub kb : ℕ → ℕ
kb kilobytes = kilobytes * 1024 % 2 ^ 64

abbrev pub mb : ℕ → ℕ
mb megabytes = megabytes * 1024 * 1024 % 2 ^ 64

abbrev pub gb : ℕ → ℕ
gb gigabytes = gigabytes * 1024 * 1024 * 1024 % 2 ^ 64

pub record TableOptions : Type 0 where
  pub block_size : ℕ
  pub format_version : ℕ
  pub checksum : String
  -- The block cache's size and the number of bits of its shards.
  pub block_cache : ℕ × ℕ
  pub cache_index_and_filter_blocks : Bool
  -- The Bloom filter's bits for a key, and whether it is made for blocks.
  pub filter_policy : ℕ × Bool

pub record Options : Type 0 where
  pub create_if_missing : Bool
  pub write_buffer_size : ℕ
  pub max_write_buffer_number : ℕ
  pub max_background_compactions : ℕ
  pub max_background_flushes : ℕ
  pub increase_parallelism : ℕ
  pub max_open_files : ℕ
  pub max_file_opening_threads : ℕ
  pub target_file_size_base : ℕ
  pub max_bytes_for_level_base : ℕ
  pub delete_obsolete_files_period_micros : ℕ
  pub compaction_readahead_size : ℕ
  pub allow_concurrent_memtable_write : Bool
  -- The length of the fixed prefix.
  pub prefix_extractor : ℕ
  pub log_file_time_to_roll : ℕ
  pub keep_log_file_num : ℕ
  pub stats_dump_period_sec : ℕ
  pub wal_dir : String
  pub table_factory : TableOptions

abbrev pub table_options : TableOptions
table_options = record {
  block_size = kb 256;
  format_version = 2;
  checksum = "kxxHash";
  block_cache = (gb 8, 8);
  cache_index_and_filter_blocks = true;
  filter_policy = (10, false);
}

-- An int of -1 is its bit pattern.
abbrev pub options : ℕ → BookieConfig → Options
options hardware_concurrency conf = record {
  create_if_missing = true;
  write_buffer_size = gb 1;
  max_write_buffer_number = 4;
  max_background_compactions = 16;
  max_background_flushes = 4;
  increase_parallelism = hardware_concurrency;
  max_open_files = 2 ^ 32 - 1;
  max_file_opening_threads = 16;
  target_file_size_base = gb 1;
  max_bytes_for_level_base = gb 10;
  delete_obsolete_files_period_micros = 60 * 60 * 1_000_000;
  compaction_readahead_size = mb 8;
  allow_concurrent_memtable_write = true;
  prefix_extractor = 8;
  log_file_time_to_roll = 24 * 60 * 60;
  keep_log_file_num = 30;
  stats_dump_period_sec = 60;
  wal_dir = conf.wal_directory;
  table_factory = table_options;
}

-- A constructor that comes back, or the process exits.
pub data Opening (A : Type 0) : Type 0 where
  opened : A → Opening A
  exited : ℕ → Opening A

-- What opening a storage needs: an empty queue of a given size and an empty batch, and DB::Open, with
-- `none` for a status that is not ok.
pub record Openers {E : Type 0} (deps : Deps E) : Type 0 where
  pub new_queue : ℕ → deps.Queue
  pub new_batch : deps.Batch
  pub open_db : Options → String → Option deps.Db

module _ (hs : Histograms) where
  -- Metrics for names, one after the other.
  unfoldable pub create_metrics : List String → MetricsManager hs → List ℕ × MetricsManager hs
  create_metrics [] mm = ([], mm)
  create_metrics (name ∷ names) mm =
      let (p, mm) = create_metric hs name mm in
      let (ps, mm) = create_metrics names mm in (p ∷ ps, mm)

  -- rocksDbPutLatency_, addEntryEnqueueLatency_, walSyncLatency_ and walQueueLatency_.
  abbrev pub metric_names : List String
  metric_names = "rocksDbPut" ∷ "addEntryEnqueueLatency" ∷ "walSync" ∷ "walQueueLatency" ∷ []

module _ (io : Io) (deps : Deps (JournalEntry io.Buf)) (openers : Openers deps) where
  -- With the local variables that the journal thread starts with, and the memory as it is.
  unfoldable pub new_storage : deps.Db → (ℕ → List ℕ) → Storage io.Buf deps
  new_storage db memory = record {
    journal = record {
      queue = openers.new_queue 10000;
      db = db;
      entries_to_sync = [];
      write_batch = openers.new_batch;
      to_sync_count = 0;
      block_for_next_entry = false;
      fulfilled = [];
      queue_samples = 0;
      sync_samples = 0;
    };
    memory = memory;
    next_promise = 0;
    enqueue_samples = 0;
  }

  -- The metrics are created before the database is opened.
  unfoldable pub construct :
      (hs : Histograms)
      → ℕ
      → BookieConfig
      → (ℕ → List ℕ)
      → MetricsManager hs
      → Opening (Storage io.Buf deps × MetricsManager hs)
  unfolding new_storage create_metrics
  construct hs hardware_concurrency conf memory mm =
      let (metrics, mm') = create_metrics hs (metric_names hs) mm in
      elim (openers.open_db (options hardware_concurrency conf) conf.data_directory) [
        | none ↦ exited 1
        | some db ↦ opened (new_storage db memory, mm')
      ]

  pub construct_opens :
      (hs : Histograms) (hardware_concurrency : ℕ) (conf : BookieConfig) (memory : ℕ → List ℕ)
      (mm : MetricsManager hs) (db : deps.Db)
      → openers.open_db (options hardware_concurrency conf) conf.data_directory ≡ some db
      → construct hs hardware_concurrency conf memory mm
        ≡ opened (new_storage db memory, (create_metrics hs (metric_names hs) mm).1)
  unfolding construct
  construct_opens hs hardware_concurrency conf memory mm db opens = rw (construct, opens)

  pub construct_exits :
      (hs : Histograms) (hardware_concurrency : ℕ) (conf : BookieConfig) (memory : ℕ → List ℕ)
      (mm : MetricsManager hs)
      → openers.open_db (options hardware_concurrency conf) conf.data_directory ≡ none
      → construct hs hardware_concurrency conf memory mm ≡ exited 1
  unfolding construct
  construct_exits hs hardware_concurrency conf memory mm fails = rw (construct, fails)

  -- A new queue and a new batch are empty.
  pub record OpenersLaws (laws : DepsLaws (JournalEntry io.Buf) deps) : Type 0 where
    pub contents-new_queue : (n : ℕ) → laws.contents (openers.new_queue n) ≡ []
    pub puts-new_batch : laws.puts openers.new_batch ≡ []

  pub new_storage-IsFresh :
      (laws : DepsLaws (JournalEntry io.Buf) deps) (db : deps.Db) (memory : ℕ → List ℕ)
      → OpenersLaws laws
      → IsFresh io deps laws (new_storage db memory)
  unfolding new_storage
  new_storage-IsFresh laws db memory empties = record {
    acked = refl;
    unsynced = refl;
    batch = empties.puts-new_batch;
    waiting = empties.contents-new_queue 10000;
  }

module _ (io : Io) (deps : Deps (JournalEntry io.Buf))
    (laws : DepsLaws (JournalEntry io.Buf) deps) where
  key_prefix : (l e : ℕ) → take 8 (key_bytes io deps l e) ≡ to_be 8 l
  key_prefix l e = ap (take 8) (key_bytes-key_of io deps laws l e)

  -- The prefix of the length that the options have is the same for two keys exactly when they are of one
  -- ledger, for ledger ids that fit 64 bits.
  pub key_prefix_iff :
      (hardware_concurrency : ℕ) (conf : BookieConfig) (l e l' e' : ℕ)
      → l < 2 ^ 64
      → l' < 2 ^ 64
      → (take (options hardware_concurrency conf).prefix_extractor (key_bytes io deps l e)
          ≡ take (options hardware_concurrency conf).prefix_extractor (key_bytes io deps l' e'))
        ↔ (l ≡ l')
  key_prefix_iff hardware_concurrency conf l e l' e' hl hl' = (
    λ same.
        sym (of_be-to_be 8 l hl)
        ∙ ap of_be (sym (key_prefix l e) ∙ same ∙ key_prefix l' e')
        ∙ of_be-to_be 8 l' hl',
    λ same. key_prefix l e ∙ ap (to_be 8) same ∙ sym (key_prefix l' e'),
  )
