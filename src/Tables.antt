-- ===== src/Tables.antt =====
-- The rows of the watcher's own tables (packages/util/src/types.ts) and the database that holds
-- them. A hash, an address, a kind and an event name are only compared, so each is a number; the
-- empty hash is 0. Each table is a list in the order in which its rows were inserted.
use watcher_ts.Common.{ℕ, Bool, Option, List, Action, ok, err}
use watcher_ts.Common.Int.{ℤ}

pub record BlockProgress : Type 0 where
  pub id : ℕ
  pub cid : Option ℕ
  pub block_hash : ℕ
  pub parent_hash : ℕ
  pub block_number : ℤ
  pub block_timestamp : ℤ
  pub num_events : ℕ
  pub num_processed_events : ℕ
  pub last_processed_event_index : ℤ
  pub is_complete : Bool
  pub is_pruned : Bool

pub record SyncStatus : Type 0 where
  pub chain_head_block_hash : ℕ
  pub chain_head_block_number : ℤ
  pub latest_indexed_block_hash : ℕ
  pub latest_indexed_block_number : ℤ
  pub latest_processed_block_hash : ℕ
  pub latest_processed_block_number : ℤ
  pub latest_canonical_block_hash : ℕ
  pub latest_canonical_block_number : ℤ
  pub initial_indexed_block_hash : ℕ
  pub initial_indexed_block_number : ℤ
  pub has_indexing_error : Bool

pub record StateSyncStatus : Type 0 where
  pub latest_indexed_block_number : ℤ
  pub latest_checkpoint_block_number : ℤ

pub record Contract : Type 0 where
  pub id : ℕ
  pub address : ℕ
  pub starting_block : ℤ
  pub kind : ℕ
  pub checkpoint : Bool

-- The text of `data`, `extraInfo` and `proof` is not looked into.
pub record Event : Type 0 where
  pub block_hash : ℕ
  pub tx_hash : ℕ
  pub index : ℤ
  pub contract : ℕ
  pub event_name : ℕ

-- `UNKNOWN_EVENT_NAME`
abbrev pub unknown_event_name : ℕ
unknown_event_name = 0

-- Each of the two status tables has at most one row, which `findOne` returns.
pub record Db : Type 0 where
  pub sync_status : Option SyncStatus
  pub state_sync_status : Option StateSyncStatus
  pub blocks : List BlockProgress
  pub events : List Event
  pub contracts : List Contract

-- `createTransactionRunner`, then `commitTransaction`, or `rollbackTransaction` and a rethrow.
abbrev pub transact : {A : Type 0} → Action Db A → Action Db A
transact op db = let (r, db') = op db in elim r [ ok a ↦ (ok a, db') | err e ↦ (err e, db) ]
