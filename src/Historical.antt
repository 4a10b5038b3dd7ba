-- ===== src/Historical.antt =====
-- Historical processing in ranges of blocks: `processHistoricalBlocks` of
-- packages/util/src/job-runner.ts and the part of packages/util/src/events.ts that starts it.
-- A queue is the list of its pending jobs; pg-boss hands them out one at a time, in their order.
pub mod Batch
pub mod Job
pub mod Coverage
mod Tests
use watcher_ts.Common.{
  ℕ, zero, suc, Bool, true, false, not, ◌&&◌, Option, none, some, List, [], ◌∷◌, ◌++◌, map, ◌==◌,
  length, ltb, if◌then◌else◌, Action, Result, ok, err, pure, gets, modify, throw, ◌>>=◌, ◌>>◌,
  out_of_fuel,
}
use watcher_ts.Common.Int.{ℤ, pos, ◌+ℤ◌, ◌-ℤ◌, ltb_ℤ, eqb_ℤ, min_ℤ}
use watcher_ts.Tables.{BlockProgress, Db}
use watcher_ts.Blocks.{hash_zero}
use watcher_ts.Sync.Database.{SyncStatusChange}
use watcher_ts.Sync.{update_sync_status}
use watcher_ts.Contracts.{Indexer}

-- `HistoricalJobData`
pub record HistoricalJob : Type 0 where
  pub block_number : ℤ
  pub processing_end_block_number : ℤ

-- `HistoricalJobResponseData`
pub record HistoricalResponse : Type 0 where
  pub is_complete : Bool
  pub end_block : Option ℤ

-- The fields of the job runner that historical processing uses, and the two queues.
pub record Runner : Type 0 where
  pub historical_processing_completed_upto : Option ℤ
  pub last_historical_processing_end_block_number : ℤ
  pub error_in_events_processing : Bool
  pub historical_jobs : List HistoricalJob
  pub events_jobs : List (ℕ × Bool)
  pub indexer : Indexer

-- What is called: `fetchAndSaveFilteredLogsAndBlocks`, the reset of the watcher, and the upstream
-- clients.
pub record Services : Type 0 where
  pub fetch_and_save : ℤ → ℤ → Action Indexer (List BlockProgress)
  pub reset_watcher_to_block : ℤ → Action Indexer Unit
  pub is_get_logs_requests_slow : Action Indexer Bool
  pub switch_clients : Action Indexer Unit

abbrev pub on_indexer : {A : Type 0} → Action Indexer A → Action Runner A
on_indexer m s = let (r, i) = m s.indexer in (r, record s { indexer = i })

abbrev pub on_db : {A : Type 0} → Action Db A → Action Indexer A
on_db m s = let (r, db') = m s.db in (r, record s { db = db' })

-- A number is true unless it is 0.
abbrev pub truthy : Option ℤ → Option ℤ
truthy none = none
truthy (some n) = if eqb_ℤ n (pos 0) then none else some n

unfoldable pub push_event_processing_jobs_for_blocks : List BlockProgress → Bool → Runner → Runner
push_event_processing_jobs_for_blocks blocks realtime s = record s {
  events_jobs = s.events_jobs ++ map (λ b. (b.block_hash, realtime)) blocks;
}

abbrev pub delete_jobs : Runner → Runner
delete_jobs s = record s { historical_jobs = []; events_jobs = [] }

abbrev pub push_historical_job : HistoricalJob → Runner → Runner
push_historical_job job s = record s { historical_jobs = s.historical_jobs ++ job ∷ [] }

abbrev pub zero_hash_status : ℤ → SyncStatusChange
zero_hash_status number = record {
  canonical = some (hash_zero, number);
  indexed = some (hash_zero, number);
  chain_head = some (hash_zero, number);
}

-- The job for what is left after `end_block`.
abbrev pub next_job : HistoricalJob → ℤ → HistoricalJob
next_job job end_block = record {
  block_number = end_block +ℤ pos 1;
  processing_end_block_number = job.processing_end_block_number;
}

abbrev pub set_last_end : HistoricalJob → Runner → Runner
set_last_end job s = record s {
  last_historical_processing_end_block_number = job.processing_end_block_number;
}

abbrev pub set_upto : ℤ → Runner → Runner
set_upto end_block s = record s { historical_processing_completed_upto = some end_block }

abbrev pub push_rest : HistoricalJob → ℤ → Runner → Runner
push_rest job end_block s =
    if ltb_ℤ end_block job.processing_end_block_number
    then push_historical_job (next_job job end_block) s
    else s

module _ (services : Services) (logs_block_range : ℤ) where
  -- A start before the last batch resets the watcher; a later one has to follow it at once. The
  -- result says whether to go on.
  unfoldable pub check_start : ℤ → Action Runner Bool
  check_start start s = elim (truthy s.historical_processing_completed_upto) [
    | none ↦ (ok true, s)
    | some upto ↦
        if ltb_ℤ start upto
        then (modify delete_jobs
              >> on_indexer (services.reset_watcher_to_block (start -ℤ pos 1))
              >> pure true)
            s
        else (ok (eqb_ℤ (start -ℤ pos 1) upto), s)
  ]

  abbrev pub switch_if_slow : Action Indexer Unit
  switch_if_slow = do
    slow ← services.is_get_logs_requests_slow
    if slow then services.switch_clients else pure tt

  -- The rest of a batch, when its events have been pushed.
  unfoldable pub complete_batch : HistoricalJob → ℤ → Action Runner HistoricalResponse
  complete_batch job end_block = do
    on_indexer (on_db (update_sync_status (zero_hash_status end_block)))
    modify (set_upto end_block)
    on_indexer switch_if_slow
    modify (push_rest job end_block)
    pure (record { is_complete = true; end_block = some end_block })

  -- Blocks found while the processing of events is in error are not pushed.
  unfoldable pub push_batch :
      HistoricalJob → ℤ → List BlockProgress → Action Runner HistoricalResponse
  unfolding push_event_processing_jobs_for_blocks complete_batch
  push_batch job end_block blocks s =
      if ltb 0 (length blocks) && s.error_in_events_processing
      then (ok (record { is_complete = false; end_block = some end_block }), s)
      else complete_batch job end_block (push_event_processing_jobs_for_blocks blocks false s)

  unfoldable pub process_batch : HistoricalJob → Action Runner HistoricalResponse
  unfolding push_batch
  process_batch job = do
    modify (set_last_end job)
    let end_block = min_ℤ (job.block_number +ℤ logs_block_range) job.processing_end_block_number
    blocks ← on_indexer (services.fetch_and_save job.block_number end_block)
    push_batch job end_block blocks

  unfoldable pub process_historical_blocks : HistoricalJob → Action Runner HistoricalResponse
  unfolding check_start process_batch
  process_historical_blocks job = do
    go_on ← check_start job.block_number
    if go_on then process_batch job else pure (record { is_complete = false; end_block = none })

  abbrev pub processed_range : HistoricalJob → HistoricalResponse → List (ℤ × ℤ)
  processed_range job r = elim r.end_block [
    | none ↦ []
    | some end_block ↦ if r.is_complete then (job.block_number, end_block) ∷ [] else []
  ]

  -- The worker of the queue, until no job is pending: the ranges that it completed.
  unfoldable pub run_historical_jobs : ℕ → Action Runner (List (ℤ × ℤ))
  unfolding process_historical_blocks
  run_historical_jobs zero s = elim s.historical_jobs [
    | [] ↦ (ok [], s)
    | job ∷ jobs ↦ (err out_of_fuel, s)
  ]
  run_historical_jobs (suc fuel) s = elim s.historical_jobs [
    | [] ↦ (ok [], s)
    | job ∷ jobs ↦
        (do
          r ← process_historical_blocks job
          ranges ← run_historical_jobs fuel
          pure (processed_range job r ++ ranges))
          (record s { historical_jobs = jobs })
  ]
