-- ===== src/Pruning.antt =====
-- Chain pruning: `_pruneChain` of packages/util/src/job-runner.ts, which keeps one of the blocks at
-- a height and moves the canonical block of the sync status there.
pub mod Search
pub mod Safety
mod Tests
use watcher_ts.Common.{
  ℕ, zero, suc, Bool, true, false, not, Option, none, some, List, [], ◌∷◌, filter, head?, length,
  ◌==◌, ltb, if◌then◌else◌, Action, ok, err, pure, throw, expect, assert, ◌>>=◌, ◌>>◌, assertion,
  pruning_not_safe, out_of_fuel,
}
use watcher_ts.Common.Int.{ℤ, pos, ◌+ℤ◌, ◌-ℤ◌, leb_ℤ, ltb_ℤ}
use watcher_ts.Tables.{BlockProgress, SyncStatus, Db, transact}
use watcher_ts.Blocks.{
  max_reorg_depth, hash_zero, get_blocks_at_height, get_ancestor_at_height, mark_blocks_as_pruned,
}
use watcher_ts.Sync.{get_sync_status, update_sync_status_canonical_block}

-- The loop that looks for an indexed block from `indexed_height` down. The assert comes in each
-- round after the height is lowered, also when a block was found.
pub find_indexed_block : ℕ → ℤ → ℤ → Action Db BlockProgress
find_indexed_block zero prune_height indexed_height db = (err out_of_fuel, db)
find_indexed_block (suc fuel) prune_height indexed_height db =
    let next = indexed_height -ℤ pos 1 in
    elim (ltb_ℤ prune_height next) [
      | false ↦ (err assertion, db)
      | true ↦ elim (get_blocks_at_height indexed_height false db).0 [
        | err e ↦ (err e, db)
        | ok blocks ↦ elim blocks [
          | [] ↦ find_indexed_block fuel prune_height next db
          | b ∷ _ ↦ (ok b, db)
        ]
      ]
    ]

abbrev pub is_other_hash : ℕ → BlockProgress → Bool
is_other_hash hash b = not (hash == b.block_hash)

-- `markBlocksAsPruned`, if there is a block to prune
pub prune_others : ℕ → List BlockProgress → Action Db Unit
unfolding mark_blocks_as_pruned
prune_others hash blocks =
    let others = filter (is_other_hash hash) blocks in
    if ltb 0 (length others) then transact (mark_blocks_as_pruned others) else pure tt

-- The canonical block among those at the height, the others pruned.
pub choose_canonical : ℤ → List BlockProgress → Action Db ℕ
unfolding find_indexed_block prune_others
choose_canonical height [] = pure hash_zero
choose_canonical height (b ∷ []) = pure b.block_hash
choose_canonical height (b ∷ c ∷ blocks) = do
  indexed ← find_indexed_block max_reorg_depth height (height +ℤ pos max_reorg_depth)
  ancestor ← get_ancestor_at_height indexed.block_hash height
  prune_others ancestor (b ∷ c ∷ blocks)
  pure ancestor

unfoldable pub prune_chain : ℤ → Action Db Unit
unfolding choose_canonical
prune_chain height = do
  found ← get_sync_status
  status ← expect found assertion
  assert (leb_ℤ (height +ℤ pos max_reorg_depth) status.latest_indexed_block_number) pruning_not_safe
  if leb_ℤ height status.latest_canonical_block_number then pure tt else do
    blocks ← get_blocks_at_height height false
    hash ← choose_canonical height blocks
    update_sync_status_canonical_block hash height false
    pure tt
