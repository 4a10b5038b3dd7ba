-- ===== src/EventWatcher/Tests.antt =====
-- The event watcher at work, and the theorems about it at concrete inputs.
use watcher_ts.Common.{ℕ, ◌≡◌, refl, true, false, none, some, [], ◌∷◌, ok, arith, ◌⊎◌}
use watcher_ts.Common.Int.{pos, ◌+ℤ◌, ◌-ℤ◌, ◌≤ℤ◌, ◌<ℤ◌}
use watcher_ts.Tables.{SyncStatus}
use watcher_ts.Contracts.{Indexer}
use watcher_ts.Historical.Batch.{completed}
use watcher_ts.EventWatcher.{
  WatcherConfig, EventWatcher, start_block_processing, start_historical_block_processing,
  start_realtime_block_processing, process_block_by_number, historical_processing_complete_handler,
  on_realtime_block_complete,
}
use watcher_ts.EventWatcher.Handover.{
  GoesOn, start_block_processing-GoesOn, complete_handler-GoesOn,
}

abbrev config : WatcherConfig
config = record {
  historical_max_fetch_ahead = some (pos 30);
  block_handler_exists = false;
  use_block_ranges = true;
}

abbrev idle : EventWatcher
idle = record {
  realtime_processing_started = false;
  historical_processing_end_block_number = pos 0;
  historical_jobs = [];
  index_jobs = [];
}

abbrev status : ℕ → SyncStatus
status head = record {
  chain_head_block_hash = 0;
  chain_head_block_number = pos head;
  latest_indexed_block_hash = 0;
  latest_indexed_block_number = pos head;
  latest_processed_block_hash = 3;
  latest_processed_block_number = pos 9;
  latest_canonical_block_hash = 0;
  latest_canonical_block_number = pos head;
  initial_indexed_block_hash = 3;
  initial_indexed_block_number = pos 9;
  has_indexing_error = false;
}

abbrev indexer : ℕ → Indexer
indexer head = record {
  db = record {
    sync_status = some (status head);
    state_sync_status = none;
    blocks = [];
    events = [];
    contracts = [];
  };
  watched = [];
}

-- 30 blocks ahead at most.
historical : start_block_processing config (pos 100) 0 (some (status 19)) idle ≡ record idle {
  historical_processing_end_block_number = pos 50;
  historical_jobs = record { block_number = pos 20; processing_end_block_number = pos 50 } ∷ [];
}
unfolding start_block_processing start_historical_block_processing ◌+ℤ◌ ◌-ℤ◌
historical = refl

-- Near the head of the chain realtime processing starts, and a complete block leads to the next.
realtime :
    (on_realtime_block_complete
      (pos 84)
      true
      (start_block_processing config (pos 100) 0 (some (status 83)) idle)).index_jobs
    ≡ pos 84 ∷ pos 85 ∷ []
unfolding start_block_processing start_realtime_block_processing process_block_by_number
    on_realtime_block_complete ◌+ℤ◌ ◌-ℤ◌
realtime = refl

start_block_processing-GoesOn_example :
    GoesOn config
      (pos 100)
      (pos 20)
      idle
      (start_block_processing config (pos 100) 0 (some (status 19)) idle)
unfolding ◌+ℤ◌
start_block_processing-GoesOn_example =
    start_block_processing-GoesOn config (pos 100) (some (status 19)) idle refl

complete_handler-GoesOn_example :
    (v : EventWatcher) × (historical_processing_complete_handler config
        (pos 100)
        0
        (some (status 50))
        false
        (completed (pos 50))
        idle
      ≡ (ok tt, v))
    × ((pos 50 <ℤ pos 0) × (v ≡ idle)
        ⊎ (pos 0 ≤ℤ pos 50) × GoesOn config (pos 100) (pos 50 +ℤ pos 1) idle v)
complete_handler-GoesOn_example =
    complete_handler-GoesOn config (pos 100) (pos 50) (indexer 50) idle refl (omega arith) (record {
      row = status 50;
      there = refl;
      canonical = refl;
      indexed = refl;
      chain_head = refl;
    })
