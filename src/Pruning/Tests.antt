-- ===== src/Pruning/Tests.antt =====
-- Pruning at work, and the theorems about it at concrete inputs.
use watcher_ts.Common.{
  ℕ, ◌≡◌, refl, true, false, none, some, [], ◌∷◌, ok, err, arith, first, later, assertion,
}
use watcher_ts.Common.Int.{ℤ, pos, negsuc, ◌+ℤ◌, ◌-ℤ◌}
use watcher_ts.Tables.{BlockProgress, SyncStatus, Db}
use watcher_ts.Blocks.{get_ancestor_at_height, get_blocks_at_height}
use watcher_ts.Blocks.Ancestor.{is_linked-IsLinked}
use watcher_ts.Sync.{get_sync_status, update_sync_status_canonical_block}
use watcher_ts.Sync.Database.{initial_status}
use watcher_ts.Pruning.{prune_chain}
use watcher_ts.Pruning.Safety.{OnlyHash, prune_chain-canonical}

abbrev block : ℕ → ℕ → ℤ → BlockProgress
block hash parent number = record {
  id = hash;
  cid = none;
  block_hash = hash;
  parent_hash = parent;
  block_number = number;
  block_timestamp = pos 0;
  num_events = 0;
  num_processed_events = 0;
  last_processed_event_index = negsuc 0;
  is_complete = true;
  is_pruned = false;
}

abbrev status : SyncStatus
status = record (initial_status 90 (pos 9)) { latest_indexed_block_number = pos 26 }

-- Two blocks at height 10, and one on top of the second of them.
abbrev forked : ℤ → Db
forked number = record {
  sync_status = some status;
  state_sync_status = none;
  blocks = block 11 90 (pos 10) ∷ block 12 90 (pos 10) ∷ block 13 12 number ∷ [];
  events = [];
  contracts = [];
}

prune_10 : prune_chain (pos 10) (forked (pos 12)) ≡ (
  ok tt,
  record (forked (pos 12)) {
    sync_status = some (record status {
      latest_canonical_block_hash = 12;
      latest_canonical_block_number = pos 10;
    });
    blocks =
        record (block 11 90 (pos 10)) { is_pruned = true }
        ∷ block 12 90 (pos 10)
        ∷ block 13 12 (pos 12)
        ∷ [];
  },
)
unfolding prune_chain get_ancestor_at_height get_blocks_at_height get_sync_status
    update_sync_status_canonical_block ◌+ℤ◌ ◌-ℤ◌
prune_10 = refl

-- The block just above the height does not count: the assert of the loop fails before it is used.
prune_10_just_above : (prune_chain (pos 10) (forked (pos 11))).0 ≡ err assertion
unfolding prune_chain get_ancestor_at_height get_blocks_at_height get_sync_status
    update_sync_status_canonical_block ◌+ℤ◌ ◌-ℤ◌
prune_10_just_above = refl

prune_chain-canonical_example :
    (hash : ℕ) × (db' : Db) × (prune_chain (pos 10) (forked (pos 12)) ≡ (ok tt, db'))
    × (db'.sync_status
        ≡ some (record status {
          latest_canonical_block_hash = hash;
          latest_canonical_block_number = pos 10;
        }))
    × OnlyHash (pos 10) hash db'.blocks
unfolding ◌+ℤ◌
prune_chain-canonical_example =
    prune_chain-canonical (pos 10) (pos 12) (forked (pos 12)) status (block 13 12 (pos 12))
      (is_linked-IsLinked (forked (pos 12)).blocks refl) (refl, (refl, (refl, tt))) refl
      (omega arith) (omega arith) (later (later (first refl))) refl (omega arith) (omega arith)
