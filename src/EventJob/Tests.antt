-- ===== src/EventJob/Tests.antt =====
-- A job at work whose handler throws, and the theorem about it.
use watcher_ts.Common.{
  ◌≡◌, refl, ℕ, ◌==◌, true, false, none, some, [], ◌∷◌, ok, err, service, pure, if◌then◌else◌, map,
  Action, set_at,
}
use watcher_ts.Common.Int.{pos, negsuc}
use watcher_ts.Tables.{BlockProgress, SyncStatus, Contract, Event}
use watcher_ts.Contracts.{Indexer}
use watcher_ts.Events.{Handlers, handle_event, get_events_batch}
use watcher_ts.EventJob.{EventRunner, run_batch, attempt, process_events_job}
use watcher_ts.EventJob.Recovery.{AfterJob, process_events_job-AfterJob}

abbrev block : BlockProgress
block = record {
  id = 3;
  cid = none;
  block_hash = 3;
  parent_hash = 2;
  block_number = pos 7;
  block_timestamp = pos 0;
  num_events = 1;
  num_processed_events = 0;
  last_processed_event_index = negsuc 0;
  is_complete = false;
  is_pruned = false;
}

abbrev contract : ℕ → Contract
contract id = record { id = id; address = id; starting_block = pos 7; kind = 7; checkpoint = true }

abbrev failing : Event → Action Indexer Unit
failing e s = (if e.event_name == 8 then err service else ok tt, s)

abbrev handlers : Handlers
handlers = record {
  process_event = failing;
  parse_event = λ contracts e. none;
  fetch_events_for_contracts = λ hash number addresses. pure [];
  process_block_after_events = none;
  filter_logs_by_addresses = false;
  block_write_error = none;
  events_write_error = none;
}

abbrev status : SyncStatus
status = record {
  chain_head_block_hash = 3;
  chain_head_block_number = pos 7;
  latest_indexed_block_hash = 3;
  latest_indexed_block_number = pos 7;
  latest_processed_block_hash = 2;
  latest_processed_block_number = pos 6;
  latest_canonical_block_hash = 1;
  latest_canonical_block_number = pos 5;
  initial_indexed_block_hash = 1;
  initial_indexed_block_number = pos 5;
  has_indexing_error = false;
}

-- One table of entities, with a row that the block's handler wrote, and two jobs that wait.
abbrev runner : EventRunner ℕ
runner = record {
  kept_blocks = set_at 3 (some block) (λ hash. none);
  events_jobs = (4, true) ∷ [];
  historical_jobs = record { block_number = pos 8; processing_end_block_number = pos 20 } ∷ [];
  historical_processing_completed_upto = none;
  last_historical_processing_end_block_number = pos 0;
  error_in_events_processing = false;
  watcher = record {
    indexer = record {
      indexer = record {
        db = record {
          sync_status = some status;
          state_sync_status = none;
          blocks = block ∷ [];
          events =
              record { block_hash = 3; tx_hash = 1; index = pos 0; contract = 50; event_name = 8 }
              ∷ [];
          contracts = contract 50 ∷ [];
        };
        watched = (50, contract 50 ∷ []) ∷ [];
      };
      states = [];
      next_state_id = 0;
      state_status_map = λ address. none;
      enable_state = true;
    };
    entities = λ name. record { id = 1; block_hash = 3; block_number = pos 7 } ∷ [];
  };
}

-- An error after the events are done, here for want of a sync status: the data of the block is removed
-- although its row is complete, and the block has left the map that a second attempt reads.
abbrev late_error : EventRunner ℕ
unfolding process_events_job
late_error =
    (process_events_job (record handlers { process_event = λ e s. (ok tt, s) }) false 2 (9 ∷ []) 3 0
      (record runner {
        watcher = record runner.watcher {
          indexer = record runner.watcher.indexer {
            indexer = record runner.watcher.indexer.indexer {
              db = record runner.watcher.indexer.indexer.db { sync_status = none };
            };
          };
        };
      })).1

removed_complete :
    (late_error.watcher.entities 9 ≡ [])
    × (late_error.kept_blocks 3 ≡ none)
    × (map (λ (b : BlockProgress). b.is_complete) late_error.watcher.indexer.indexer.db.blocks
        ≡ true ∷ [])
unfolding late_error process_events_job run_batch get_events_batch handle_event
removed_complete = (refl, refl, refl)

-- A write of parsed events that is refused: the block that is kept for the retry is complete, so that
-- its hook will not run again, though the rows of its entities are gone.
abbrev refused_events : EventRunner ℕ
unfolding process_events_job
refused_events =
    (process_events_job
      (record handlers { process_event = λ e s. (ok tt, s); events_write_error = some service })
      false 2 (9 ∷ []) 3 0 runner).1

kept_complete :
    (refused_events.watcher.entities 9 ≡ [])
    × (elim (refused_events.kept_blocks 3) [ none ↦ false | some b ↦ b.is_complete ] ≡ true)
unfolding refused_events process_events_job run_batch get_events_batch handle_event
kept_complete = (refl, refl)

process_events_job-AfterJob_example :
    AfterJob
      (9 ∷ [])
      block
      (attempt handlers false 2 (9 ∷ []) block 0 runner).1
      (process_events_job handlers false 2 (9 ∷ []) 3 0 runner)
process_events_job-AfterJob_example =
    process_events_job-AfterJob handlers false 2 (9 ∷ []) block 0 3 runner refl
