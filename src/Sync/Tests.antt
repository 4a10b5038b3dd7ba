-- ===== src/Sync/Tests.antt =====
-- The sync status at work, and the theorems about it at concrete inputs.
use watcher_ts.Common.{ℕ, ◌≡◌, refl, true, false, none, some, List, [], ◌∷◌, map}
use watcher_ts.Common.Int.{ℤ, pos, negsuc}
use watcher_ts.Tables.{Db}
use watcher_ts.Sync.{update_sync_status_indexed_block}
use watcher_ts.Sync.Database.{initial_status}
use watcher_ts.Sync.Order.{
  Call, indexed, chain_head, canonical, processed, indexing_error, perform_all,
}
use watcher_ts.Sync.Head.{report, head_in, chain_head-highest}

abbrev empty_db : Db
empty_db = record {
  sync_status = none;
  state_sync_status = none;
  blocks = [];
  events = [];
  contracts = [];
}

abbrev started : Db
started = record empty_db { sync_status = some (initial_status 7 (pos 100)) }

-- An old block is ignored, a forced one is not.
indexed_old :
    (update_sync_status_indexed_block 5 (negsuc 1) false started).1.sync_status
    ≡ started.sync_status
unfolding update_sync_status_indexed_block
indexed_old = refl

indexed_forced :
    (update_sync_status_indexed_block 5 (negsuc 1) true started).1.sync_status
    ≡ some (record (initial_status 7 (pos 100)) {
      latest_indexed_block_hash = 5;
      latest_indexed_block_number = negsuc 1;
    })
unfolding update_sync_status_indexed_block
indexed_forced = refl

abbrev calls : List Call
calls =
    indexed 3 (pos 100)
    ∷ chain_head 4 (pos 101)
    ∷ canonical 2 (pos 90)
    ∷ processed 3 (pos 100)
    ∷ indexing_error true
    ∷ []

abbrev heads : List (ℕ × ℤ)
heads = (2, pos 6) ∷ (3, pos 5) ∷ (4, pos 6) ∷ []

chain_head-highest_example :
    head_in (perform_all (map report ((1, pos 4) ∷ heads)) empty_db).sync_status ≡ some (4, pos 6)
chain_head-highest_example = chain_head-highest (1, pos 4) heads empty_db refl
