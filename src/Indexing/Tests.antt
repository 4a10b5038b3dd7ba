-- ===== src/Indexing/Tests.antt =====
-- Indexing at work, and the theorem about it at a concrete input.
use watcher_ts.Common.{
  ℕ, ◌≡◌, refl, Bool, true, false, none, some, List, [], ◌∷◌, Result, ok, err, pure, arith,
  unique_violation, Action,
}
use watcher_ts.Common.Int.{pos, negsuc, ◌-ℤ◌}
use watcher_ts.Tables.{BlockProgress, SyncStatus}
use watcher_ts.Blocks.{PartialBlock, save_block_with_events, save_events}
use watcher_ts.Historical.{push_event_processing_jobs_for_blocks}
use watcher_ts.Indexing.{
  IndexServices, IndexRunner, FullBlock, db_of, index_block, index_now, row_of_block, check_parent,
  parent_and_block, fresh,
}
use watcher_ts.Indexing.Parent.{Waits, index_block-Waits}

abbrev block : ℕ → ℕ → ℕ → Bool → BlockProgress
block hash parent number complete = record {
  id = hash;
  cid = none;
  block_hash = hash;
  parent_hash = parent;
  block_number = pos number;
  block_timestamp = pos 0;
  num_events = 0;
  num_processed_events = 0;
  last_processed_event_index = negsuc 0;
  is_complete = complete;
  is_pruned = false;
}

abbrev partial : ℕ → ℕ → ℕ → PartialBlock
partial hash parent number = record {
  cid = none;
  block_hash = some hash;
  parent_hash = parent;
  block_number = some (pos number);
  block_timestamp = some (pos 0);
}

abbrev full : ℕ → ℕ → ℕ → FullBlock
full hash parent number = record {
  cid = none;
  block_hash = hash;
  block_number = pos number;
  parent_hash = parent;
  timestamp = pos 0;
}

-- The watcher started at block 5.
abbrev status : SyncStatus
status = record {
  chain_head_block_hash = 1;
  chain_head_block_number = pos 5;
  latest_indexed_block_hash = 0;
  latest_indexed_block_number = negsuc 0;
  latest_processed_block_hash = 0;
  latest_processed_block_number = negsuc 0;
  latest_canonical_block_hash = 1;
  latest_canonical_block_number = pos 5;
  initial_indexed_block_hash = 1;
  initial_indexed_block_number = pos 5;
  has_indexing_error = false;
}

abbrev runner : List BlockProgress → IndexRunner
runner blocks = record {
  runner = record {
    historical_processing_completed_upto = none;
    last_historical_processing_end_block_number = pos 0;
    error_in_events_processing = false;
    historical_jobs = [];
    events_jobs = [];
    indexer = record {
      db = record {
        sync_status = some status;
        state_sync_status = none;
        blocks = blocks;
        events = [];
        contracts = [];
      };
      watched = [];
    };
  };
  block_jobs = [];
  block_and_events = λ hash. some (fresh (full 1 9 5));
}

-- A new block is saved by the method of the database.
abbrev save : PartialBlock → Action IndexRunner (BlockProgress × List ℕ)
save p s =
    let (r, db) = save_block_with_events 8 p [] (db_of s) in
    elim r as (λ _. Result (BlockProgress × List ℕ) × IndexRunner) [
      | ok b ↦ (
        ok (b, []),
        record s { runner = record s.runner { indexer = record s.runner.indexer { db = db } } },
      )
      | err e ↦ (err e, s)
    ]

abbrev services : IndexServices
services = record {
  get_block = λ hash. pure (some (full hash 2 6));
  save_block_and_fetch_events = save;
  get_full_transactions = λ hashes. pure [];
  process_block = λ b. pure tt;
}

-- The first block, whose parent is not there.
first_block :
    (index_block services none (partial 1 9 5) (runner [])).1.runner.events_jobs ≡ (1, true) ∷ []
unfolding index_block index_now row_of_block check_parent parent_and_block save_block_with_events
    save_events push_event_processing_jobs_for_blocks ◌-ℤ◌
first_block = refl

-- The same job once more, after the row was saved: the row stands in the place of the parent, the
-- block counts as unknown, and saving it again is refused.
first_block_again :
    (index_block services none (partial 1 9 5) (runner (block 1 9 5 false ∷ []))).0
    ≡ err unique_violation
unfolding index_block index_now row_of_block check_parent parent_and_block save_block_with_events
    save_events push_event_processing_jobs_for_blocks ◌-ℤ◌
first_block_again = refl

index_block-Waits_example :
    (u : IndexRunner) × (index_block services none (partial 3 2 7) (runner (block 2 1 6 false ∷ []))
      ≡ (ok tt, u))
    × Waits 2 1 (runner (block 2 1 6 false ∷ [])) u
unfolding ◌-ℤ◌
index_block-Waits_example =
    index_block-Waits services none (partial 3 2 7) (runner (block 2 1 6 false ∷ [])) status (pos 7)
      3 2 (full 2 2 6) refl refl refl refl refl (omega arith) refl refl
