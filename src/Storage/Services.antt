-- ===== src/Storage/Services.antt =====
-- What src/Storage.cpp calls and the repository does not hold: folly::MPMCQueue, rocksdb's WriteBatch
-- and DB, and folly's Endian. `Deps` has the operations, `DepsLaws` their documented behaviour.
use bookie_cpp.Prelude.{
  ℕ, ◌≤◌, ◌<◌, ◌≡◌, List, [], ◌∷◌, ◌++◌, Option, none, some, Bool, true, false, length,
}
use bookie_cpp.Prelude.Bytes.{to_be}

-- `E` is the type of the queue's entries.
pub record Deps (E : Type 0) : Type 1 where
  -- `read` answers false on an empty queue; `write` is `blockingWrite`, and `none` means that it waits.
  -- `blockingRead` does what `read` does as soon as there is an entry.
  pub Queue : Type 0
  pub read : Queue → Option (E × Queue)
  pub write : E → Queue → Option Queue
  -- A batch of puts, and a database. The Boolean result of `write_db` is `Status::ok()`, its Boolean
  -- argument is `WriteOptions::sync`.
  pub Batch : Type 0
  pub Db : Type 0
  pub put : List ℕ → List ℕ → Batch → Batch
  pub clear : Batch → Batch
  pub write_db : Bool → Batch → Db → Bool × Db
  -- `Endian::big`, and the bytes of an int64_t in memory.
  pub big : ℕ → ℕ
  pub object_bytes : ℕ → List ℕ

pub record DepsLaws (E : Type 0) (deps : Deps E) : Type 0 where
  -- A bounded FIFO queue.
  pub capacity : ℕ
  pub contents : deps.Queue → List E
  pub read-nil : (q : deps.Queue) → contents q ≡ [] → deps.read q ≡ none
  pub read-cons :
      (q : deps.Queue) (e : E) (es : List E)
      → contents q ≡ e ∷ es
      → (r : deps.Queue) × (deps.read q ≡ some (e, r)) × (contents r ≡ es)
  pub write_room :
      (e : E) (q : deps.Queue)
      → length (contents q) < capacity
      → (r : deps.Queue) × (deps.write e q ≡ some r) × (contents r ≡ contents q ++ e ∷ [])
  pub write_full : (e : E) (q : deps.Queue) → capacity ≤ length (contents q) → deps.write e q ≡ none
  -- A batch holds its puts in order; a write applies all of them or, when it fails, none.
  pub puts : deps.Batch → List (List ℕ × List ℕ)
  pub puts-put : (k v : List ℕ) (b : deps.Batch) → puts (deps.put k v b) ≡ puts b ++ (k, v) ∷ []
  pub puts-clear : (b : deps.Batch) → puts (deps.clear b) ≡ []
  pub log : deps.Db → List (List ℕ × List ℕ)
  pub log-write_db :
      (s : Bool) (b : deps.Batch) (d : deps.Db)
      → (deps.write_db s b d).0 ≡ true
      → log (deps.write_db s b d).1 ≡ log d ++ puts b
  pub log-write_db_failed :
      (s : Bool) (b : deps.Batch) (d : deps.Db)
      → (deps.write_db s b d).0 ≡ false
      → log (deps.write_db s b d).1 ≡ log d
  -- A number converted to big-endian lies in memory with its highest byte first.
  pub object_bytes-big : (v : ℕ) → deps.object_bytes (deps.big v) ≡ to_be 8 v
