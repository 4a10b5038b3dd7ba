-- ===== src/EventWatcher.antt =====
-- The event watcher, packages/util/src/events.ts: what it pushes to the queues of historical and of
-- block processing, when it starts and when a job is complete.
pub mod Handover
mod Tests
use watcher_ts.Common.{
  ℕ, Bool, true, false, not, ◌&&◌, Option, none, some, List, [], ◌∷◌, ◌++◌, ltb, ◌==◌,
  if◌then◌else◌, Action, ok, err, assertion,
}
use watcher_ts.Common.Int.{ℤ, pos, ◌+ℤ◌, ◌-ℤ◌, ltb_ℤ, min_ℤ}
use watcher_ts.Tables.{Db, SyncStatus}
use watcher_ts.Blocks.{max_reorg_depth}
use watcher_ts.Historical.{HistoricalJob, HistoricalResponse, truthy}

-- The options that the event watcher reads.
pub record WatcherConfig : Type 0 where
  pub historical_max_fetch_ahead : Option ℤ
  pub block_handler_exists : Bool
  pub use_block_ranges : Bool

-- Its fields, and the jobs that it has pushed to the two queues.
pub record EventWatcher : Type 0 where
  pub realtime_processing_started : Bool
  pub historical_processing_end_block_number : ℤ
  pub historical_jobs : List HistoricalJob
  pub index_jobs : List ℤ

abbrev pub default_historical_max_fetch_ahead : ℤ
default_historical_max_fetch_ahead = pos 20000

-- `processBlockByNumber`
unfoldable pub process_block_by_number : ℤ → EventWatcher → EventWatcher
process_block_by_number number w = record w { index_jobs = w.index_jobs ++ number ∷ [] }

abbrev pub max_fetch_ahead : Option ℤ → ℤ
max_fetch_ahead none = default_historical_max_fetch_ahead
max_fetch_ahead (some n) = n

-- With no limit, the whole way to the canonical block.
abbrev pub historical_end : WatcherConfig → ℤ → ℤ → ℤ
historical_end config start canonical =
    let ahead = max_fetch_ahead config.historical_max_fetch_ahead in
    if ltb_ℤ (pos 0) ahead then min_ℤ (start +ℤ ahead) canonical else canonical

unfoldable pub start_historical_block_processing :
    WatcherConfig → ℤ → ℤ → EventWatcher → EventWatcher
start_historical_block_processing config start canonical w =
    if w.realtime_processing_started then w else record w {
      historical_processing_end_block_number = historical_end config start canonical;
      historical_jobs =
          w.historical_jobs
          ++ record {
            block_number = start;
            processing_end_block_number = historical_end config start canonical;
          }
            ∷ [];
    }

unfoldable pub start_realtime_block_processing : ℤ → EventWatcher → EventWatcher
unfolding process_block_by_number
start_realtime_block_processing start w =
    if w.realtime_processing_started
    then w
    else record (process_block_by_number start w) { realtime_processing_started = true }

-- A round of the loop in `startRealtimeBlockProcessing`.
unfoldable pub on_realtime_block_complete : ℤ → Bool → EventWatcher → EventWatcher
unfolding process_block_by_number
on_realtime_block_complete number is_complete w =
    if is_complete then process_block_by_number (number +ℤ pos 1) w else w

abbrev pub start_block_number : ℤ → Option SyncStatus → ℤ
start_block_number latest none = latest
start_block_number latest (some t) = t.chain_head_block_number +ℤ pos 1

-- Given the number of the latest block of the chain and the number of historical jobs that are not
-- completed.
unfoldable pub start_block_processing :
    WatcherConfig → ℤ → ℕ → Option SyncStatus → EventWatcher → EventWatcher
unfolding start_historical_block_processing start_realtime_block_processing
start_block_processing config latest queue_size status w =
    let canonical = latest -ℤ pos max_reorg_depth in
    let start = start_block_number latest status in
    if ltb 0 queue_size
    then w
    else if not config.block_handler_exists && config.use_block_ranges && ltb_ℤ start canonical
    then start_historical_block_processing config start canonical w
    else start_realtime_block_processing start w

-- A job that failed has a response too; an `endBlock` of 0 fails the `assert`.
unfoldable pub historical_processing_complete_handler :
    WatcherConfig → ℤ → ℕ → Option SyncStatus → Bool → HistoricalResponse → Action EventWatcher Unit
unfolding start_block_processing
historical_processing_complete_handler config latest queue_size status failed response w =
    if failed
    then (ok tt, w)
    else if not response.is_complete
    then (ok tt, w)
    else elim (truthy response.end_block) [
      | none ↦ (err assertion, w)
      | some end_block ↦
          if ltb_ℤ w.historical_processing_end_block_number (end_block +ℤ pos 1)
          then (ok tt, start_block_processing config latest queue_size status w)
          else (ok tt, w)
    ]
