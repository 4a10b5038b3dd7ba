-- ===== src/EventJob.antt =====
-- The job of a block's events: `_processEvents` of packages/util/src/job-runner.ts. What is
-- called together in a `Promise.all` is called one after the other.
pub mod Recovery
mod Tests
use watcher_ts.Common.{
  ℕ, ltb, Bool, true, false, not, ◌&&◌, Option, none, some, List, [], ◌∷◌, set_at, Action, Result,
  ok, err, pure, gets, modify, throw, expect, ◌>>=◌, ◌>>◌, assertion, if◌then◌else◌,
}
use watcher_ts.Common.Int.{ℤ, pos, ◌+ℤ◌, ltb_ℤ}
use watcher_ts.Tables.{BlockProgress}
use watcher_ts.Sync.{update_sync_status_processed_block, update_sync_status_indexing_error}
use watcher_ts.Events.{Handlers, Work}
use watcher_ts.Events.Batch.{process_batch_events, remove_unknown_events}
use watcher_ts.Historical.{HistoricalJob, truthy}
use watcher_ts.Reset.{Watcher, reset_watcher_to_block, clear_processed_block_data}
use watcher_ts.Reset

-- The fields of the job runner, its queues, the blocks of `_blockAndEventsMap`, and the watcher.
pub record EventRunner (Bytes : Type 0) : Type 0 where
  pub kept_blocks : ℕ → Option BlockProgress
  pub events_jobs : List (ℕ × Bool)
  pub historical_jobs : List HistoricalJob
  pub historical_processing_completed_upto : Option ℤ
  pub last_historical_processing_end_block_number : ℤ
  pub error_in_events_processing : Bool
  pub watcher : Watcher Bytes

-- `try` with a `catch` that throws again.
abbrev pub catch_with : {S A : Type 0} → Action S A → Action S Unit → Action S A
catch_with m handle s =
    let (r, t) = m s in elim r [ ok a ↦ (ok a, t) | err e ↦ (handle >> throw e) t ]

module _ {Bytes : Type 0} where
  abbrev pub on_watcher : {A : Type 0} → Action (Watcher Bytes) A → Action (EventRunner Bytes) A
  on_watcher m s = let (r, w) = m s.watcher in (r, record s { watcher = w })

  -- The block in the map is the object that the loops change.
  abbrev pub run_batch : Handlers → Bool → ℕ → BlockProgress → Action (EventRunner Bytes) Bool
  unfolding process_batch_events
  run_batch h subgraph_events_order n block s =
      let (r, v) =
        process_batch_events h subgraph_events_order n
          (record { indexer = s.watcher.indexer.indexer; block = block; updated = [] }) in
      (
        r,
        record s {
          kept_blocks = set_at block.block_hash (some v.block) s.kept_blocks;
          watcher = record s.watcher { indexer = record s.watcher.indexer { indexer = v.indexer } };
        },
      )

  -- Historical processing that is beyond the block starts again after it.
  abbrev pub restart_historical : BlockProgress → Option ℤ → EventRunner Bytes → EventRunner Bytes
  restart_historical block none s = s
  restart_historical block (some upto) s =
      if ltb_ℤ block.block_number upto
      then record s {
        historical_jobs =
            record {
              block_number = block.block_number +ℤ pos 1;
              processing_end_block_number = s.last_historical_processing_end_block_number;
            }
            ∷ [];
      }
      else s

  unfoldable pub after_batch : Bool → BlockProgress → EventRunner Bytes → EventRunner Bytes
  after_batch restart block s =
      let t = record s { kept_blocks = set_at block.block_hash none s.kept_blocks } in
      if restart
      then record (restart_historical block (truthy t.historical_processing_completed_upto) t) {
        events_jobs = [];
      }
      else t

  -- The sync status and the events, and for a retry the reset of the watcher.
  unfoldable pub settle : BlockProgress → ℕ → List ℕ → Action (Watcher Bytes) Unit
  unfolding update_sync_status_processed_block remove_unknown_events
      update_sync_status_indexing_error reset_watcher_to_block
  settle block retry_count names = do
    Reset.on_db (update_sync_status_processed_block block.block_hash block.block_number false)
    Reset.on_db (remove_unknown_events block)
    if ltb 0 retry_count
        then (Reset.on_db (update_sync_status_indexing_error false)
            >> reset_watcher_to_block block.block_number names)
        else pure tt

  abbrev pub set_error : Bool → EventRunner Bytes → EventRunner Bytes
  set_error b s = record s { error_in_events_processing = b }

  -- The body of the `try` block.
  unfoldable pub attempt :
      Handlers → Bool → ℕ → List ℕ → BlockProgress → ℕ → Action (EventRunner Bytes) Unit
  unfolding after_batch settle
  attempt h subgraph_events_order n names block retry_count = do
    is_new ← run_batch h subgraph_events_order n block
    modify (after_batch (is_new && h.filter_logs_by_addresses) block)
    on_watcher (settle block retry_count names)
    modify (set_error false)

  abbrev pub delete_jobs : EventRunner Bytes → EventRunner Bytes
  delete_jobs s = record s { events_jobs = []; historical_jobs = [] }

  -- What is done about an error.
  unfoldable pub recover : List ℕ → BlockProgress → Action (EventRunner Bytes) Unit
  unfolding clear_processed_block_data update_sync_status_indexing_error
  recover names block = do
    modify (set_error true)
    on_watcher (clear_processed_block_data block names)
    modify delete_jobs
    on_watcher (Reset.on_db (update_sync_status_indexing_error true))
    pure tt

  unfoldable pub process_events_job :
      Handlers → Bool → ℕ → List ℕ → ℕ → ℕ → Action (EventRunner Bytes) Unit
  unfolding attempt recover
  process_events_job h subgraph_events_order n names hash retry_count = do
    found ← gets (λ s. s.kept_blocks hash)
    block ← expect found assertion
    catch_with (attempt h subgraph_events_order n names block retry_count) (recover names block)
