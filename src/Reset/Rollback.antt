-- ===== src/Reset/Rollback.antt =====
-- The removal of the data of one block.
use watcher_ts.Common.{
  ℕ, ◌==◌, not, List, filter, any, Result, ok, err, modify, ◌>>◌, ◌≡◌, refl, ap, if◌then◌else◌,
  bind_ok,
}
use watcher_ts.Common.Int.{eqb_ℤ}
use watcher_ts.Tables.{BlockProgress}
use watcher_ts.Contracts.{get_watched_contracts, clear_watched_contracts}
use watcher_ts.Contracts.Views.{get_watched_contracts-clear}
use watcher_ts.Events.{for_each}
use watcher_ts.Reset.{
  Watcher, clear_processed_block_data, delete_entities_of, delete_contracts, db_of, starts_at,
  clear_watched, restore,
}
use watcher_ts.Reset.Entities.{entities_after, entities_after_lem, for_each-entities}

module _ {Bytes : Type 0} where
  -- Removing the data of a processed block removes the rows of the entities named that have its
  -- hash, and the contracts that start at its number, in the table and in memory; it does not fail.
  pub clear_processed_block_data-exact :
      (block : BlockProgress) (names : List ℕ) (w : Watcher Bytes)
      → (u : Watcher Bytes) × (clear_processed_block_data block names w ≡ (ok tt, u))
        × ((name : ℕ)
            → u.entities name ≡ (
                if any (λ m. name == m) names
                then filter (λ e. not (e.block_hash == block.block_hash)) (w.entities name)
                else w.entities name))
        × ((db_of u).contracts
            ≡ filter (λ c. not (eqb_ℤ c.starting_block block.block_number)) (db_of w).contracts)
        × (get_watched_contracts u.indexer.indexer.watched
            ≡ filter
                (λ c. not (eqb_ℤ c.starting_block block.block_number))
                (get_watched_contracts w.indexer.indexer.watched))
        × ((db_of u).blocks ≡ (db_of w).blocks)
  unfolding clear_processed_block_data delete_contracts clear_watched_contracts
  clear_processed_block_data-exact block names w = (
    clear_watched (starts_at block.block_number) (
        delete_contracts (starts_at block.block_number) (record w {
          entities = entities_after (λ e. e.block_hash == block.block_hash) names w.entities;
        })),
    ap
        (λ (p : Result (Unit {0}) × Watcher Bytes).
          elim p.0 as (λ _. Result (Unit {0}) × Watcher Bytes) [
            | ok a ↦ (ok a, p.1)
            | err x ↦ (err x, restore w p.1)
          ])
        (bind_ok (for_each (delete_entities_of block.block_hash) names)
          (λ _.
            modify (delete_contracts (starts_at block.block_number))
            >> modify (clear_watched (starts_at block.block_number)))
          (for_each-entities (λ e. e.block_hash == block.block_hash) names w)),
    entities_after_lem (λ e. e.block_hash == block.block_hash) names w.entities,
    refl,
    get_watched_contracts-clear (starts_at block.block_number) w.indexer.indexer.watched,
    refl,
  )
