-- ===== src/Indexing.antt =====
-- `_indexBlock` of packages/util/src/job-runner.ts, with `createPruningJob` of
-- packages/util/src/common.ts. A queue is the list of its pending jobs.
pub mod Parent
mod Tests
use watcher_ts.Common.{
  ℕ, ◌+◌, Bool, true, false, not, ◌&&◌, ◌||◌, ◌==◌, Option, none, some, List, [], ◌∷◌, ◌++◌, map,
  filter, any, head?, get_elem?, if◌then◌else◌, Action, ok, err, pure, gets, expect, modify, assert,
  throw, ◌>>=◌, ◌>>◌, assertion, pruning_not_caught_up, no_blocks_at_parent_hash,
}
use watcher_ts.Common.Int.{ℤ, pos, ◌+ℤ◌, ◌-ℤ◌, ltb_ℤ, leb_ℤ}
use watcher_ts.Tables.{BlockProgress, Event, SyncStatus, Db}
use watcher_ts.Blocks.{PartialBlock, max_reorg_depth, some_hash}
use watcher_ts.Events.{joined_events}
use watcher_ts.Historical.{Runner, truthy, push_event_processing_jobs_for_blocks}

-- The jobs of the block queue that are pushed here, each with its priority.
pub data BlockJob : Type 0 where
  index_job :
      (cid : Option ℕ) (block_hash : ℕ) (block_number : ℤ) (parent_hash : ℕ) (timestamp : ℤ)
      (priority : ℕ)
      → BlockJob
  prune_job : (prune_block_height : ℤ) (priority : ℕ) → BlockJob

-- `EthFullBlock`, what indexing uses of it.
pub record FullBlock : Type 0 where
  pub cid : Option ℕ
  pub block_hash : ℕ
  pub block_number : ℤ
  pub parent_hash : ℕ
  pub timestamp : ℤ

-- `PrefetchedBlock`, without a block before it is set.
pub record Prefetched : Type 0 where
  pub block : Option BlockProgress
  pub events : List Event
  pub full_block : FullBlock
  pub full_transactions : List ℕ

pub record IndexRunner : Type 0 where
  pub runner : Runner
  pub block_jobs : List BlockJob
  pub block_and_events : ℕ → Option Prefetched

-- What is called: the node, what a watcher does to save a block, and its hook for a block.
pub record IndexServices : Type 0 where
  pub get_block : ℕ → Action IndexRunner (Option FullBlock)
  pub save_block_and_fetch_events : PartialBlock → Action IndexRunner (BlockProgress × List ℕ)
  pub get_full_transactions : List ℕ → Action IndexRunner (List ℕ)
  pub process_block : BlockProgress → Action IndexRunner Unit

abbrev pub db_of : IndexRunner → Db
db_of s = s.runner.indexer.db

abbrev pub push_block_job : BlockJob → IndexRunner → IndexRunner
push_block_job job s = record s { block_jobs = s.block_jobs ++ job ∷ [] }

abbrev pub set_prefetched : ℕ → Prefetched → IndexRunner → IndexRunner
set_prefetched hash p s = record s {
  block_and_events = λ h. if h == hash then some p else s.block_and_events h;
}

abbrev pub priority_of : Option ℕ → ℕ
priority_of none = 0
priority_of (some n) = n

unfoldable pub create_pruning_job : ℤ → ℕ → IndexRunner → IndexRunner
create_pruning_job canonical priority =
    push_block_job (prune_job (canonical +ℤ pos 1) (priority + 1))

-- `order: { blockNumber: 'ASC' }`
abbrev pub insert_by_number : BlockProgress → List BlockProgress → List BlockProgress
insert_by_number b [] = b ∷ []
insert_by_number b (c ∷ rows) =
    if leb_ℤ b.block_number c.block_number then b ∷ c ∷ rows else c ∷ insert_by_number b rows

abbrev pub sort_by_number : List BlockProgress → List BlockProgress
sort_by_number [] = []
sort_by_number (b ∷ rows) = insert_by_number b (sort_by_number rows)

-- The rows with one of the two hashes.
unfoldable pub parent_and_block : ℕ → ℕ → Db → List BlockProgress
parent_and_block parent hash db =
    sort_by_number (filter (λ b. b.block_hash == parent || b.block_hash == hash) db.blocks)

abbrev pub fresh : FullBlock → Prefetched
fresh full = record { block = none; events = []; full_block = full; full_transactions = [] }

-- The distinct hashes of transactions.
abbrev pub distinct : List ℕ → List ℕ
distinct [] = []
distinct (h ∷ hashes) = h ∷ filter (λ g. not (g == h)) (distinct hashes)

abbrev pub tx_hashes : ℕ → Db → List ℕ
tx_hashes hash db = distinct (map (λ e. e.tx_hash) (joined_events hash db))

abbrev pub keep_block : ℕ → Prefetched → BlockProgress → List ℕ → IndexRunner → IndexRunner
keep_block hash known block transactions =
    set_prefetched hash (record known { block = some block; full_transactions = transactions })

module _ (services : IndexServices) where
  -- The parent is fetched, and has to be indexed first.
  abbrev pub fetch_parent : ℕ → ℕ → Action IndexRunner Bool
  fetch_parent parent priority = do
    found ← services.get_block parent
    full ← expect found no_blocks_at_parent_hash
    modify (set_prefetched full.block_hash (fresh full))
    modify (
        push_block_job
          (index_job full.cid parent full.block_number full.parent_hash full.timestamp priority))
    pure false

  -- Whether the block can be indexed now.
  unfoldable pub check_parent : ℕ → ℕ → Option BlockProgress → Action IndexRunner Bool
  check_parent parent priority none = fetch_parent parent priority
  check_parent parent priority (some b) =
      if not (b.block_hash == parent)
      then fetch_parent parent priority
      else if not b.is_complete
      then (do
        modify (
            push_block_job
              (index_job b.cid parent b.block_number b.parent_hash b.block_timestamp priority))
        pure false)
      else pure true

  -- The row of the block, saved if it is not there.
  unfoldable pub row_of_block :
      PartialBlock → ℕ → Prefetched → Option BlockProgress → Action IndexRunner BlockProgress
  row_of_block partial hash known none = do
    (block, transactions) ← services.save_block_and_fetch_events partial
    modify (keep_block hash known block transactions)
    pure block
  row_of_block partial hash known (some block) = do
    hashes ← gets (λ s. tx_hashes hash (db_of s))
    transactions ← services.get_full_transactions hashes
    modify (keep_block hash known block transactions)
    pure block

  abbrev pub process_if_incomplete : BlockProgress → Action IndexRunner Unit
  process_if_incomplete block = if block.is_complete then pure tt else services.process_block block

  abbrev pub push_events_job : BlockProgress → IndexRunner → IndexRunner
  push_events_job block s = record s {
    runner = push_event_processing_jobs_for_blocks (block ∷ []) true s.runner;
  }

  unfoldable pub index_now : PartialBlock → ℕ → Option BlockProgress → Action IndexRunner Unit
  unfolding row_of_block push_event_processing_jobs_for_blocks
  index_now partial hash row = do
    found ← gets (λ s. s.block_and_events hash)
    known ← expect found assertion
    block ← row_of_block partial hash known row
    process_if_incomplete block
    modify (push_events_job block)

  abbrev pub check_pruning : SyncStatus → ℕ → Action IndexRunner Unit
  check_pruning status priority s =
      if ltb_ℤ (pos max_reorg_depth)
        (status.latest_indexed_block_number -ℤ status.latest_canonical_block_number)
      then (
        err pruning_not_caught_up,
        create_pruning_job status.latest_canonical_block_number priority s,
      )
      else (ok tt, s)

  abbrev pub may_index : SyncStatus → ℤ → ℕ → ℕ → Option BlockProgress → Action IndexRunner Bool
  may_index status number parent priority row =
      if ltb_ℤ status.latest_canonical_block_number number
      then check_parent parent (priority + 1) row
      else pure true

  abbrev pub index_if : Bool → Action IndexRunner Unit → Action IndexRunner Unit
  index_if b m = if b then m else pure tt

  unfoldable pub index_block : Option ℕ → PartialBlock → Action IndexRunner Unit
  unfolding create_pruning_job parent_and_block check_parent index_now
  index_block priority partial = do
    found ← gets (λ s. (db_of s).sync_status)
    status ← expect found assertion
    number ← expect (truthy partial.block_number) assertion
    hash ← expect (some_hash partial.block_hash) assertion
    parent ← expect (some_hash (some partial.parent_hash)) assertion
    check_pruning status (priority_of priority)
    rows ← gets (λ s. parent_and_block parent hash (db_of s))
    go_on ← may_index status number parent (priority_of priority) (head? rows)
    index_if go_on (index_now partial hash (get_elem? rows 1))
