-- ===== src/SnapshotStore.antt =====
-- Code/SnapshotStorage: the class `SnapshotStore` (src/snapshot_storage.cpp) and its structs
-- (include/snapshot_storage.hpp). The tables are lists of rows that the SQL statements of the code
-- read and write (Table), a method runs under the mutex and is one step (Methods). Each call of
-- SQLite and of the file system may fail: `Outcomes` says which calls of a method succeed.
pub mod Table
pub mod Drafts
pub mod Methods
pub mod Counts
pub mod Lookups
pub mod Updates
pub mod Activation
pub mod Publish
pub mod Previews
pub mod Insertions
pub mod Unique
pub mod Bindings
pub mod Transactions
pub mod Runs
pub mod Agreement
pub mod Cache
pub mod Stale
pub mod Revisions
pub mod Total
mod Tests
use hybrid_blockchain_for_re.Prelude.{ℤ, ℕ, ℤ, Bool, Option, List, Text, ◌≡◌, refl}

pub data SnapshotState : Type 0 where
  preview : SnapshotState
  active : SnapshotState
  superseded : SnapshotState
  invalidated : SnapshotState

pub record SnapshotPreview : Type 0 where
  pub protocol : Text
  pub snapshot_id : Text
  pub schema_version : ℤ
  pub generated_at : Text
  pub batch_id : Text
  pub manifest_json : Text
  pub public_root : Text
  pub source_block_hash : Text
  pub route_fingerprint : Text
  pub candidate_json : Text

-- Also a row of the table snapshot_storage.
pub record SnapshotRecord : Type 0 where
  pub protocol : Text
  pub snapshot_id : Text
  pub revision : ℤ
  pub schema_version : ℤ
  pub generated_at : Text
  pub batch_id : Text
  pub manifest_json : Text
  pub public_root : Text
  pub source_block_hash : Text
  pub route_fingerprint : Text
  pub state : SnapshotState
  pub archive_path : Text
  pub candidate_json : Text
  pub publication_json : Text
  pub transaction_hash : Text
  pub published_at : Text

abbrev pub Rows : Type 0
Rows = List SnapshotRecord

-- The tables that the modelled methods write, the cache, and the records whose archive file has
-- been written, the last one first.
pub record Store : Type 0 where
  pub archive_root : Text
  pub rows : Rows
  pub schedule : List (Text × Text)
  pub active_cache : List (Text × SnapshotRecord)
  pub archives : Rows

-- Which calls of a method succeed: opening the database, BEGIN, the look-ups, the UPDATE that
-- supersedes rows, writing the record, COMMIT, the archive file, the UPDATE of the schedule.
pub record Outcomes : Type 0 where
  pub opened : Bool
  pub begun : Bool
  pub found : Bool
  pub counted : Bool
  pub updated : Bool
  pub stored : Bool
  pub committed : Bool
  pub archived : Bool
  pub scheduled : Bool
