-- ===== src/Reset.antt =====
-- `resetWatcherToBlock` and `clearProcessedBlockData` of packages/util/src/indexer.ts,
-- `deleteEntitiesByConditions` of packages/util/src/database.ts, and `resetToLatestProcessedBlock` of
-- packages/util/src/job-runner.ts. The entities of a watcher are tables of their own.
pub mod Entities
pub mod Status
pub mod Bounds
pub mod Rollback
pub mod Failure
mod Tests
use watcher_ts.Common.{
  ℕ, Bool, true, false, not, ◌==◌, Option, none, some, List, [], ◌∷◌, filter, any, head?,
  if◌then◌else◌, Action, ok, err, pure, gets, expect, modify, assert, ◌>>=◌, ◌>>◌, assertion,
}
use watcher_ts.Common.Int.{ℤ, ltb_ℤ, eqb_ℤ}
use watcher_ts.Tables.{BlockProgress, SyncStatus, StateSyncStatus, Contract, Event, Db}
use watcher_ts.Blocks.{get_blocks_at_height, find_block}
use watcher_ts.Contracts.{Indexer, clear_watched_contracts}
use watcher_ts.Events.{for_each}
use watcher_ts.Sync.{
  get_sync_status, update_sync_status_indexed_block, update_sync_status_processed_block,
  update_sync_status_canonical_block, update_sync_status_chain_head,
}
use watcher_ts.Sync.Database
use watcher_ts.State.{StateRow, StateIndexer}

-- What a row of an entity has for the reset.
pub record EntityRow : Type 0 where
  pub id : ℕ
  pub block_hash : ℕ
  pub block_number : ℤ

-- The indexer, and the tables of entities by their names.
pub record Watcher (Bytes : Type 0) : Type 0 where
  pub indexer : StateIndexer Bytes
  pub entities : ℕ → List EntityRow

abbrev pub removed_hash : (BlockProgress → Bool) → List BlockProgress → Event → Bool
removed_hash remove blocks e = any (λ b. b.block_hash == e.block_hash) (filter remove blocks)

abbrev pub starts_after : ℤ → Contract → Bool
starts_after number c = ltb_ℤ number c.starting_block

abbrev pub starts_at : ℤ → Contract → Bool
starts_at number c = eqb_ℤ c.starting_block number

abbrev pub is_after : ℤ → BlockProgress → Bool
is_after number b = ltb_ℤ number b.block_number

-- Statuses of a block that is below what they have.
abbrev pub when : Bool → Action Db SyncStatus → Action Db Unit
when b m = if b then (m >> pure tt) else pure tt

unfoldable pub lower_indexed : BlockProgress → SyncStatus → Action Db Unit
unfolding update_sync_status_indexed_block
lower_indexed block t =
    when (ltb_ℤ block.block_number t.latest_indexed_block_number)
      (update_sync_status_indexed_block block.block_hash block.block_number true)

unfoldable pub lower_processed : BlockProgress → SyncStatus → Action Db Unit
unfolding update_sync_status_processed_block
lower_processed block t =
    when (ltb_ℤ block.block_number t.latest_processed_block_number)
      (update_sync_status_processed_block block.block_hash block.block_number true)

unfoldable pub lower_canonical : BlockProgress → SyncStatus → Action Db Unit
unfolding update_sync_status_canonical_block
lower_canonical block t =
    when (ltb_ℤ block.block_number t.latest_canonical_block_number)
      (update_sync_status_canonical_block block.block_hash block.block_number true)

-- The status of states, where there is one.
abbrev pub lower_state_indexed : BlockProgress → ℤ → StateSyncStatus → Action Db Unit
lower_state_indexed block number t =
    if ltb_ℤ block.block_number t.latest_indexed_block_number
    then (Database.update_state_sync_status_indexed_block number true >> pure tt)
    else pure tt

abbrev pub lower_state_checkpoint : BlockProgress → ℤ → StateSyncStatus → Action Db Unit
lower_state_checkpoint block number t =
    if ltb_ℤ block.block_number t.latest_checkpoint_block_number
    then (Database.update_state_sync_status_checkpoint_block number true >> pure tt)
    else pure tt

unfoldable pub lower_state_status : BlockProgress → ℤ → Action Db Unit
unfolding Database.update_state_sync_status_indexed_block
    Database.update_state_sync_status_checkpoint_block
lower_state_status block number = do
  found ← gets (λ db. db.state_sync_status)
  elim found [
    | none ↦ pure tt
    | some t ↦ lower_state_indexed block number t >> lower_state_checkpoint block number t
  ]

-- From `getSyncStatus` on.
unfoldable pub lower_statuses : BlockProgress → ℤ → Action Db Unit
unfolding get_sync_status lower_indexed lower_processed lower_canonical lower_state_status
    update_sync_status_chain_head
lower_statuses block number = do
  found ← get_sync_status
  status ← expect found assertion
  lower_indexed block status
  lower_processed block status
  lower_canonical block status
  lower_state_status block number
  update_sync_status_chain_head block.block_hash block.block_number true
  pure tt

abbrev pub set_table : ℕ → List EntityRow → (ℕ → List EntityRow) → ℕ → List EntityRow
set_table name rows tables n = if n == name then rows else tables n

module _ {Bytes : Type 0} where
  abbrev pub set_db : Db → Watcher Bytes → Watcher Bytes
  set_db db w = record w {
    indexer = record w.indexer { indexer = record w.indexer.indexer { db = db } };
  }

  abbrev pub db_of : Watcher Bytes → Db
  db_of w = w.indexer.indexer.db

  abbrev pub on_db : {A : Type 0} → Action Db A → Action (Watcher Bytes) A
  on_db m w = let (r, db) = m (db_of w) in (r, set_db db w)

  -- `deleteEntitiesByConditions` on an entity, on contracts, and on blocks; the foreign keys of
  -- events and states have `onDelete: 'CASCADE'`.
  unfoldable pub delete_entities : (EntityRow → Bool) → ℕ → Watcher Bytes → Watcher Bytes
  delete_entities remove name w = record w {
    entities = set_table name (filter (λ e. not (remove e)) (w.entities name)) w.entities;
  }

  unfoldable pub delete_contracts : (Contract → Bool) → Watcher Bytes → Watcher Bytes
  delete_contracts remove w =
      set_db (record (db_of w) { contracts = filter (λ c. not (remove c)) (db_of w).contracts }) w

  abbrev pub removed_id : (BlockProgress → Bool) → List BlockProgress → StateRow Bytes → Bool
  removed_id remove blocks s = any (λ b. b.id == s.block_id) (filter remove blocks)

  unfoldable pub delete_blocks : (BlockProgress → Bool) → Watcher Bytes → Watcher Bytes
  delete_blocks remove w =
      let db = db_of w in
      let v =
        set_db
          (record db {
            blocks = filter (λ b. not (remove b)) db.blocks;
            events = filter (λ e. not (removed_hash remove db.blocks e)) db.events;
          })
          w in
      record v {
        indexer = record v.indexer {
          states = filter (λ s. not (removed_id remove db.blocks s)) v.indexer.states;
        };
      }

  -- `_clearWatchedContracts`
  abbrev pub clear_watched : (Contract → Bool) → Watcher Bytes → Watcher Bytes
  clear_watched remove w = record w {
    indexer = record w.indexer {
      indexer = record w.indexer.indexer {
        watched = clear_watched_contracts remove w.indexer.indexer.watched;
      };
    };
  }

  -- An error puts back what the transaction wrote. The sync status is written in transactions of its
  -- own, and the map in memory is none of the database's.
  abbrev pub restore : Watcher Bytes → Watcher Bytes → Watcher Bytes
  restore w v = record v {
    entities = w.entities;
    indexer = record v.indexer {
      states = w.indexer.states;
      indexer = record v.indexer.indexer {
        db = record (db_of w) { sync_status = (db_of v).sync_status };
      };
    };
  }

  abbrev pub transact_watcher : {A : Type 0} → Action (Watcher Bytes) A → Action (Watcher Bytes) A
  transact_watcher op w =
      let (r, v) = op w in elim r [ ok a ↦ (ok a, v) | err e ↦ (err e, restore w v) ]

  abbrev pub delete_entities_after : ℤ → ℕ → Action (Watcher Bytes) Unit
  delete_entities_after number name =
      modify (delete_entities (λ e. ltb_ℤ number e.block_number) name)

  -- The transaction of a reset.
  unfoldable pub reset_tables : ℤ → List ℕ → BlockProgress → Action (Watcher Bytes) Unit
  unfolding delete_entities delete_contracts delete_blocks clear_watched_contracts lower_statuses
  reset_tables number names block = do
    for_each (delete_entities_after number) names
    modify (delete_contracts (starts_after number))
    modify (clear_watched (starts_after number))
    modify (delete_blocks (is_after number))
    on_db (lower_statuses block number)

  unfoldable pub reset_watcher_to_block : ℤ → List ℕ → Action (Watcher Bytes) Unit
  unfolding get_blocks_at_height reset_tables
  reset_watcher_to_block number names = do
    blocks ← on_db (get_blocks_at_height number false)
    block ← expect (head? blocks) assertion
    assert (not (any (λ b. not b.is_complete) blocks)) assertion
    transact_watcher (reset_tables number names block)

  abbrev pub delete_entities_of : ℕ → ℕ → Action (Watcher Bytes) Unit
  delete_entities_of hash name = modify (delete_entities (λ e. e.block_hash == hash) name)

  unfoldable pub clear_processed_block_data : BlockProgress → List ℕ → Action (Watcher Bytes) Unit
  unfolding delete_entities delete_contracts clear_watched_contracts
  clear_processed_block_data block names = transact_watcher (do
    for_each (delete_entities_of block.block_hash) names
    modify (delete_contracts (starts_at block.block_number))
    modify (clear_watched (starts_at block.block_number)))

  -- The watcher's own `resetWatcherToBlock` takes no entities.
  unfoldable pub reset_to_latest_processed_block :
      (ℤ → Action (Watcher Bytes) Unit) → Action (Watcher Bytes) Unit
  unfolding get_sync_status
  reset_to_latest_processed_block reset = do
    found ← on_db get_sync_status
    elim found [
      | none ↦ pure tt
      | some status ↦ do
        known ← gets (λ w. find_block status.latest_processed_block_hash (db_of w).blocks)
        block ← expect known assertion
        assert block.is_complete assertion
        reset block.block_number
    ]
