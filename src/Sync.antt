-- ===== src/Sync.antt =====
-- The methods of packages/util/src/indexer.ts that read and update the sync status: each runs the
-- method of the same name of packages/util/src/database.ts in a transaction of its own. The last
-- three are those that packages/codegen/src/templates/indexer-template.handlebars gives a watcher.
pub mod Database
pub mod Head
pub mod Order
mod Tests
use watcher_ts.Common.{ℕ, Bool, Option, none, some, if◌then◌else◌, Action, gets, ok, ◌>>=◌}
use watcher_ts.Common.Int.{ℤ}
use watcher_ts.Tables.{SyncStatus, StateSyncStatus, Db, transact}
use Database.{SyncStatusChange}

unfoldable pub get_sync_status : Action Db (Option SyncStatus)
get_sync_status = transact (gets (λ db. db.sync_status))

unfoldable pub get_state_sync_status : Action Db (Option StateSyncStatus)
get_state_sync_status = gets (λ db. db.state_sync_status)

unfoldable pub update_sync_status_indexed_block : ℕ → ℤ → Bool → Action Db SyncStatus
unfolding Database.update_sync_status_indexed_block
update_sync_status_indexed_block hash number force =
    transact (Database.update_sync_status_indexed_block hash number force)

unfoldable pub update_sync_status_chain_head : ℕ → ℤ → Bool → Action Db SyncStatus
unfolding Database.update_sync_status_chain_head
update_sync_status_chain_head hash number force =
    transact (Database.update_sync_status_chain_head hash number force)

unfoldable pub update_sync_status_canonical_block : ℕ → ℤ → Bool → Action Db SyncStatus
unfolding Database.update_sync_status_canonical_block
update_sync_status_canonical_block hash number force =
    transact (Database.update_sync_status_canonical_block hash number force)

unfoldable pub update_sync_status_processed_block : ℕ → ℤ → Bool → Action Db SyncStatus
unfolding Database.update_sync_status_processed_block
update_sync_status_processed_block hash number force =
    transact (Database.update_sync_status_processed_block hash number force)

unfoldable pub update_sync_status_indexing_error : Bool → Action Db (Option SyncStatus)
unfolding Database.update_sync_status_indexing_error
update_sync_status_indexing_error has_error =
    transact (Database.update_sync_status_indexing_error has_error)

unfoldable pub update_sync_status : SyncStatusChange → Action Db SyncStatus
unfolding Database.update_sync_status
update_sync_status change = transact (Database.update_sync_status change)

unfoldable pub update_state_sync_status_indexed_block :
    Bool → ℤ → Bool → Action Db (Option StateSyncStatus)
unfolding Database.update_state_sync_status_indexed_block
update_state_sync_status_indexed_block enable_state number force db =
    if enable_state
    then transact
        (do t ← Database.update_state_sync_status_indexed_block number force; λ s. (ok (some t), s))
        db
    else (ok none, db)

unfoldable pub update_state_sync_status_checkpoint_block : ℤ → Bool → Action Db StateSyncStatus
unfolding Database.update_state_sync_status_checkpoint_block
update_state_sync_status_checkpoint_block number force =
    transact (Database.update_state_sync_status_checkpoint_block number force)
