-- ===== src/Historical/Tests.antt =====
-- Historical processing at work, and the theorem about it at a concrete input.
use watcher_ts.Common.{◌≡◌, refl, false, none, some, [], ◌∷◌, ok, pure, arith, Ends, inl}
use watcher_ts.Common.Int.{pos, ◌+ℤ◌, ◌-ℤ◌}
use watcher_ts.Tables.{SyncStatus}
use watcher_ts.Sync.{update_sync_status}
use watcher_ts.Sync.Database
use watcher_ts.Contracts.{Indexer}
use watcher_ts.Historical.{
  HistoricalJob, Runner, Services, check_start, complete_batch, push_batch, process_batch,
  process_historical_blocks, push_event_processing_jobs_for_blocks, run_historical_jobs,
}
use watcher_ts.Historical.Batch.{Reliable}
use watcher_ts.Historical.Coverage.{Covered, run_historical_jobs-Covered}

abbrev status : SyncStatus
status = record {
  chain_head_block_hash = 3;
  chain_head_block_number = pos 9;
  latest_indexed_block_hash = 3;
  latest_indexed_block_number = pos 9;
  latest_processed_block_hash = 3;
  latest_processed_block_number = pos 9;
  latest_canonical_block_hash = 3;
  latest_canonical_block_number = pos 9;
  initial_indexed_block_hash = 3;
  initial_indexed_block_number = pos 9;
  has_indexing_error = false;
}

abbrev indexer : Indexer
indexer = record {
  db = record {
    sync_status = some status;
    state_sync_status = none;
    blocks = [];
    events = [];
    contracts = [];
  };
  watched = [];
}

abbrev services : Services
services = record {
  fetch_and_save = λ a b. pure [];
  reset_watcher_to_block = λ n. pure tt;
  is_get_logs_requests_slow = pure false;
  switch_clients = pure tt;
}

abbrev job : HistoricalJob
job = record { block_number = pos 10; processing_end_block_number = pos 17 }

abbrev runner : Runner
runner = record {
  historical_processing_completed_upto = none;
  last_historical_processing_end_block_number = pos 0;
  error_in_events_processing = false;
  historical_jobs = job ∷ [];
  events_jobs = [];
  indexer = indexer;
}

-- A range of 2 has 3 blocks in a batch.
ranges :
    (run_historical_jobs services (pos 2) 8 runner).0
    ≡ ok ((pos 10, pos 12) ∷ (pos 13, pos 15) ∷ (pos 16, pos 17) ∷ [])
unfolding run_historical_jobs process_historical_blocks check_start process_batch push_batch
    complete_batch push_event_processing_jobs_for_blocks update_sync_status
    Database.update_sync_status ◌+ℤ◌ ◌-ℤ◌
ranges = refl

-- A start that does not follow the last batch is refused.
refused :
    (process_historical_blocks services
      (pos 2)
      (record { block_number = pos 20; processing_end_block_number = pos 30 })
      (record runner { historical_processing_completed_upto = some (pos 17) })).0
    ≡ ok (record { is_complete = false; end_block = none })
unfolding process_historical_blocks check_start ◌-ℤ◌
refused = refl

services-Reliable : Reliable services
services-Reliable = record {
  fetches = λ a b s there. record { value = []; state = s; runs = refl; holds = there };
  slow = λ s. record { value = false; state = s; runs = refl; holds = refl };
  switches = λ s. record { value = tt; state = s; runs = refl; holds = refl };
}

run_historical_jobs-Covered_example :
    Ends (Covered (pos 10) (pos 17)) (run_historical_jobs services (pos 2) 8) runner
unfolding ◌+ℤ◌
run_historical_jobs-Covered_example =
    run_historical_jobs-Covered services (pos 2) services-Reliable (omega arith) 8 job runner refl
      (omega arith) (omega arith)
      (record { follows = inl refl; no_error = refl; status = (status, refl) })
