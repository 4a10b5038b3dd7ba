-- ===== src/Reset/Tests.antt =====
-- Resets at work, and the theorems about them at concrete inputs.
use watcher_ts.Common.{
  ℕ, ◌==◌, ◌≡◌, refl, true, false, not, Option, none, some, [], ◌∷◌, filter, any, map, ok,
  if◌then◌else◌,
}
use watcher_ts.Common.Int.{ℤ, pos, negsuc, eqb_ℤ}
use watcher_ts.Tables.{BlockProgress, SyncStatus, Contract}
use watcher_ts.Contracts.{get_watched_contracts, clear_watched_contracts}
use watcher_ts.Blocks.{get_blocks_at_height}
use watcher_ts.Sync.{get_sync_status}
use watcher_ts.Reset.{
  Watcher, db_of, reset_watcher_to_block, reset_tables, clear_processed_block_data, delete_entities,
  delete_contracts, delete_blocks, lower_statuses,
}
use watcher_ts.Reset.Bounds.{IsReset, reset_watcher_to_block-IsReset}
use watcher_ts.Reset.Rollback.{clear_processed_block_data-exact}

abbrev block : ℕ → ℕ → BlockProgress
block id number = record {
  id = id;
  cid = none;
  block_hash = id;
  parent_hash = 0;
  block_number = pos number;
  block_timestamp = pos 0;
  num_events = 0;
  num_processed_events = 0;
  last_processed_event_index = negsuc 0;
  is_complete = true;
  is_pruned = false;
}

abbrev contract : ℕ → ℕ → Contract
contract id start = record {
  id = id;
  address = id;
  starting_block = pos start;
  kind = 7;
  checkpoint = true;
}

abbrev status : SyncStatus
status = record {
  chain_head_block_hash = 3;
  chain_head_block_number = pos 7;
  latest_indexed_block_hash = 3;
  latest_indexed_block_number = pos 7;
  latest_processed_block_hash = 2;
  latest_processed_block_number = pos 6;
  latest_canonical_block_hash = 1;
  latest_canonical_block_number = pos 5;
  initial_indexed_block_hash = 1;
  initial_indexed_block_number = pos 5;
  has_indexing_error = false;
}

-- One table of entities, with a row at each block; the contract 51 starts at block 7.
abbrev watcher : Option SyncStatus → Watcher ℕ
watcher sync_status = record {
  indexer = record {
    indexer = record {
      db = record {
        sync_status = sync_status;
        state_sync_status = none;
        blocks = block 1 5 ∷ block 2 6 ∷ block 3 7 ∷ [];
        events = [];
        contracts = contract 50 5 ∷ contract 51 7 ∷ [];
      };
      watched = (50, contract 50 5 ∷ []) ∷ (51, contract 51 7 ∷ []) ∷ [];
    };
    states = [];
    next_state_id = 0;
    state_status_map = λ address. none;
    enable_state = true;
  };
  entities = λ name.
      record { id = 1; block_hash = 2; block_number = pos 6 }
      ∷ record { id = 1; block_hash = 3; block_number = pos 7 }
      ∷ [];
}

abbrev start_of : Contract → ℤ
start_of c = c.starting_block

-- Without a sync status the reset fails and the table keeps its contracts, but the map in memory has
-- lost those that start later.
forgets_contracts :
    map start_of (
      get_watched_contracts
        (reset_watcher_to_block (pos 6) [] (watcher none)).1.indexer.indexer.watched)
    ≡ pos 5 ∷ []
unfolding reset_watcher_to_block get_blocks_at_height reset_tables delete_entities delete_contracts
    clear_watched_contracts delete_blocks lower_statuses get_sync_status
forgets_contracts = refl

reset_watcher_to_block-IsReset_example :
    (u : Watcher ℕ) × (reset_watcher_to_block (pos 6) (9 ∷ []) (watcher (some status)) ≡ (ok tt, u))
    × (pos 6 ≡ pos 6)
    × IsReset (9 ∷ []) (block 2 6) status (watcher (some status)) u
reset_watcher_to_block-IsReset_example =
    reset_watcher_to_block-IsReset (pos 6) (9 ∷ []) (watcher (some status)) (block 2 6) [] status
      refl refl refl

abbrev after_failure : Watcher ℕ
after_failure = (reset_watcher_to_block (pos 6) (9 ∷ []) (watcher none)).1

clear_processed_block_data-exact_example :
    (u : Watcher ℕ) × (clear_processed_block_data (block 3 7) (9 ∷ []) (watcher none) ≡ (ok tt, u))
    × ((name : ℕ)
        → u.entities name ≡ (
            if any (λ m. name == m) (9 ∷ [])
            then filter (λ e. not (e.block_hash == 3)) ((watcher none).entities name)
            else (watcher none).entities name))
    × ((db_of u).contracts
        ≡ filter (λ c. not (eqb_ℤ c.starting_block (pos 7))) (db_of (watcher none)).contracts)
    × (get_watched_contracts u.indexer.indexer.watched
        ≡ filter
            (λ c. not (eqb_ℤ c.starting_block (pos 7)))
            (get_watched_contracts (watcher none).indexer.indexer.watched))
    × ((db_of u).blocks ≡ (db_of (watcher none)).blocks)
clear_processed_block_data-exact_example =
    clear_processed_block_data-exact (block 3 7) (9 ∷ []) (watcher none)
