-- ===== src/Sync/Database.antt =====
-- The methods `updateSyncStatus..` and `updateStateSyncStatus..` of packages/util/src/database.ts.
-- Each returns the row as it stands in the table afterwards.
use watcher_ts.Common.{
  ℕ, Bool, false, ◌||◌, Option, none, some, if◌then◌else◌, Action, pure, expect, assertion, ok, err,
  ◌>>=◌,
}
use watcher_ts.Common.Int.{ℤ, negsuc, leb_ℤ, ltb_ℤ}
use watcher_ts.Tables.{SyncStatus, StateSyncStatus, Db}

abbrev pub write_status : SyncStatus → Action Db SyncStatus
write_status t db = (ok t, record db { sync_status = some t })

-- `findOne` and the `assert` under it
abbrev pub find_status : Action Db SyncStatus
find_status db = expect db.sync_status assertion db

unfoldable pub update_sync_status_indexed_block : ℕ → ℤ → Bool → Action Db SyncStatus
update_sync_status_indexed_block hash number force = do
  entity ← find_status
  if force || leb_ℤ entity.latest_indexed_block_number number
      then write_status
          (record entity { latest_indexed_block_hash = hash; latest_indexed_block_number = number })
      else pure entity

unfoldable pub update_sync_status_canonical_block : ℕ → ℤ → Bool → Action Db SyncStatus
update_sync_status_canonical_block hash number force = do
  entity ← find_status
  if force || leb_ℤ entity.latest_canonical_block_number number
      then write_status (record entity {
        latest_canonical_block_hash = hash;
        latest_canonical_block_number = number;
      })
      else pure entity

unfoldable pub update_sync_status_processed_block : ℕ → ℤ → Bool → Action Db SyncStatus
update_sync_status_processed_block hash number force = do
  entity ← find_status
  if force || leb_ℤ entity.latest_processed_block_number number
      then write_status (record entity {
        latest_processed_block_hash = hash;
        latest_processed_block_number = number;
      })
      else pure entity

-- The row that the first chain head creates.
abbrev pub initial_status : ℕ → ℤ → SyncStatus
initial_status hash number = record {
  chain_head_block_hash = hash;
  chain_head_block_number = number;
  latest_indexed_block_hash = 0;
  latest_indexed_block_number = negsuc 0;
  latest_processed_block_hash = 0;
  latest_processed_block_number = negsuc 0;
  latest_canonical_block_hash = hash;
  latest_canonical_block_number = number;
  initial_indexed_block_hash = hash;
  initial_indexed_block_number = number;
  has_indexing_error = false;
}

abbrev pub move_chain_head : ℕ → ℤ → Bool → SyncStatus → Action Db SyncStatus
move_chain_head hash number force entity =
    if force || leb_ℤ entity.chain_head_block_number number
    then write_status
        (record entity { chain_head_block_hash = hash; chain_head_block_number = number })
    else pure entity

unfoldable pub update_sync_status_chain_head : ℕ → ℤ → Bool → Action Db SyncStatus
update_sync_status_chain_head hash number force db = elim db.sync_status [
  | none ↦ write_status (initial_status hash number) db
  | some entity ↦ move_chain_head hash number force entity db
]

unfoldable pub update_sync_status_indexing_error : Bool → Action Db (Option SyncStatus)
update_sync_status_indexing_error has_error db = elim db.sync_status [
  | none ↦ (ok none, db)
  | some entity ↦
      let t = record entity { has_indexing_error = has_error } in
      (ok (some t), record db { sync_status = some t })
]

-- A `DeepPartial<SyncStatusInterface>`: the fields that the callers pass.
pub record SyncStatusChange : Type 0 where
  pub canonical : Option (ℕ × ℤ)
  pub indexed : Option (ℕ × ℤ)
  pub chain_head : Option (ℕ × ℤ)

abbrev pub or_old : Option (ℕ × ℤ) → ℕ × ℤ → ℕ × ℤ
or_old none old = old
or_old (some new) old = new

-- `{...entity, ...syncStatus}`
abbrev pub spread : SyncStatus → SyncStatusChange → SyncStatus
spread t c =
    let canonical =
      or_old c.canonical (t.latest_canonical_block_hash, t.latest_canonical_block_number) in
    let indexed = or_old c.indexed (t.latest_indexed_block_hash, t.latest_indexed_block_number) in
    let chain_head = or_old c.chain_head (t.chain_head_block_hash, t.chain_head_block_number) in
    record t {
      latest_canonical_block_hash = canonical.0;
      latest_canonical_block_number = canonical.1;
      latest_indexed_block_hash = indexed.0;
      latest_indexed_block_number = indexed.1;
      chain_head_block_hash = chain_head.0;
      chain_head_block_number = chain_head.1;
    }

unfoldable pub update_sync_status : SyncStatusChange → Action Db SyncStatus
update_sync_status change = do entity ← find_status; write_status (spread entity change)

-- The row found, or the one that `create` makes with no checkpoint.
abbrev pub state_status_or_new : ℤ → Option StateSyncStatus → StateSyncStatus
state_status_or_new number none = record {
  latest_indexed_block_number = number;
  latest_checkpoint_block_number = negsuc 0;
}
state_status_or_new number (some t) = t

unfoldable pub update_state_sync_status_indexed_block : ℤ → Bool → Action Db StateSyncStatus
update_state_sync_status_indexed_block number force db =
    let entity = state_status_or_new number db.state_sync_status in
    let t =
      if force || ltb_ℤ entity.latest_indexed_block_number number
      then record entity { latest_indexed_block_number = number }
      else entity in
    (ok t, record db { state_sync_status = some t })

unfoldable pub update_state_sync_status_checkpoint_block : ℤ → Bool → Action Db StateSyncStatus
update_state_sync_status_checkpoint_block number force db = elim db.state_sync_status [
  | none ↦ (err assertion, db)
  | some entity ↦
      let t =
        if force || ltb_ℤ entity.latest_checkpoint_block_number number
        then record entity { latest_checkpoint_block_number = number }
        else entity in
      (ok t, record db { state_sync_status = some t })
]
