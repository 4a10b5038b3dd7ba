-- ===== src/Filling.antt =====
-- Filling of blocks, packages/util/src/fill.ts. Blocks that are complete come as a sequence of
-- events. The node answers by a state of its own.
pub mod Jobs
mod Tests
use watcher_ts.Common.{
  ℕ, zero, suc, Bool, true, false, not, ◌&&◌, ◌==◌, Option, none, some, List, [], ◌∷◌, ◌++◌, drop,
  if◌then◌else◌, Action, Result, ok, err, pure, gets, modify, assert, throw, ◌>>=◌, ◌>>◌,
  end_before_start, start_not_above_head, missing_blocks, end_not_above_head, out_of_fuel,
}
use watcher_ts.Common.Int.{ℤ, pos, pos_part, ◌+ℤ◌, ◌-ℤ◌, ltb_ℤ, leb_ℤ, min_ℤ}
use watcher_ts.Tables.{Db, SyncStatus}
use watcher_ts.Blocks.{PartialBlock, get_block_progress}
use watcher_ts.Sync.{get_sync_status}
use watcher_ts.EventWatcher.{EventWatcher, process_block_by_number}
use watcher_ts.Indexing.{FullBlock}
use watcher_ts.Events.{for_each}

pub record FillArguments : Type 0 where
  pub start_block : ℤ
  pub end_block : ℤ
  pub prefetch : Bool
  pub batch_blocks : ℤ

pub record Filler (Node : Type 0) : Type 0 where
  pub node : Node
  pub db : Db
  pub watcher : EventWatcher

-- What is called: the blocks of a number at the node, null ones among them, and what a watcher does
-- to save a block.
pub record FillServices (Node : Type 0) : Type 0 where
  pub get_blocks : ℤ → Action (Filler Node) (List (Option FullBlock))
  pub save_block_and_fetch_events : PartialBlock → Action (Filler Node) Unit

-- The loop over the events, and whether it has ended.
unfoldable pub fill_loop : ℤ → List (ℤ × Bool) → EventWatcher → Bool × EventWatcher
unfolding process_block_by_number
fill_loop end [] w = (false, w)
fill_loop end ((number, is_complete) ∷ events) w =
    let rest = fill_loop end events in
    if is_complete
    then (if ltb_ℤ end (number +ℤ pos 1)
        then (true, w)
        else rest (process_block_by_number (number +ℤ pos 1) w))
    else rest w

-- The place of the first answer that is empty.
abbrev pub find_missing : List (List (Option FullBlock)) → Option ℕ
find_missing [] = none
find_missing ([] ∷ answers) = some 0
find_missing ((b ∷ blocks) ∷ answers) = elim (find_missing answers) [
  | none ↦ none
  | some k ↦ some (suc k)
]

abbrev pub present : List (Option FullBlock) → List FullBlock
present [] = []
present (none ∷ blocks) = present blocks
present (some b ∷ blocks) = b ∷ present blocks

abbrev pub flat : List (List (Option FullBlock)) → List (Option FullBlock)
flat [] = []
flat (blocks ∷ answers) = blocks ++ flat answers

-- `count` numbers from `first` on.
abbrev pub numbers : ℤ → ℕ → List ℤ
numbers first zero = []
numbers first (suc count) = first ∷ numbers (first +ℤ pos 1) count

abbrev pub partial_of : FullBlock → PartialBlock
partial_of b = record {
  cid = b.cid;
  block_hash = some b.block_hash;
  parent_hash = b.parent_hash;
  block_number = some b.block_number;
  block_timestamp = some b.timestamp;
}

module _ {Node : Type 0} where
  abbrev pub on_db : {A : Type 0} → Action Db A → Action (Filler Node) A
  on_db m s = let (r, db) = m s.db in (r, record s { db = db })

  -- An error has been thrown if `b`.
  abbrev pub refuse : Bool → Action (Filler Node) Unit → Action (Filler Node) Unit
  refuse b e = if b then e else pure tt

  module _ (services : FillServices Node) where
    abbrev pub fetch_all : List ℤ → Action (Filler Node) (List (List (Option FullBlock)))
    fetch_all [] = pure []
    fetch_all (n ∷ rest) = do
      blocks ← services.get_blocks n
      answers ← fetch_all rest
      pure (blocks ∷ answers)

    -- From the first number that is missing on, the blocks are fetched again.
    unfoldable pub fetch_batch : ℕ → List ℤ → Action (Filler Node) (List FullBlock)
    fetch_batch zero block_numbers = throw out_of_fuel
    fetch_batch (suc fuel) block_numbers = do
      answers ← fetch_all block_numbers
      elim (find_missing answers) [
        | none ↦ pure (present (flat answers))
        | some k ↦ fetch_batch fuel (drop k block_numbers)
      ]

    unfoldable pub save_if_new : FullBlock → Action (Filler Node) Unit
    unfolding get_block_progress
    save_if_new block = do
      found ← on_db (get_block_progress block.block_hash)
      elim found [
        | some _ ↦ pure tt
        | none ↦ services.save_block_and_fetch_events (partial_of block)
      ]

    abbrev pub batch_numbers : ℤ → ℤ → ℤ → List ℤ
    batch_numbers i end batch = numbers i (pos_part (min_ℤ (i +ℤ batch) (end +ℤ pos 1) -ℤ i))

    -- The outer loop on fuel; an error in saving ends the process.
    unfoldable pub prefetch_blocks : ℕ → ℕ → ℤ → ℤ → ℤ → Action (Filler Node) Unit
    unfolding fetch_batch save_if_new
    prefetch_blocks zero retries i end batch = throw out_of_fuel
    prefetch_blocks (suc fuel) retries i end batch = if ltb_ℤ end i then pure tt else (do
      blocks ← fetch_batch retries (batch_numbers i end batch)
      for_each save_if_new blocks
      prefetch_blocks fuel retries (i +ℤ batch) end batch)

    abbrev pub fill_from : ℤ → ℤ → List (ℤ × Bool) → Action (Filler Node) Bool
    fill_from start end events s =
        let (done, w) = fill_loop end events (process_block_by_number start s.watcher) in
        (ok done, record s { watcher = w })

    -- The checks against the chain head.
    abbrev pub prefetch_from : ℕ → ℕ → FillArguments → Option SyncStatus → Action (Filler Node) Bool
    prefetch_from fuel retries a none =
        prefetch_blocks fuel retries a.start_block a.end_block a.batch_blocks >> pure true
    prefetch_from fuel retries a (some t) =
        refuse (leb_ℤ a.start_block t.chain_head_block_number) (throw start_not_above_head)
        >> (prefetch_blocks fuel retries a.start_block a.end_block a.batch_blocks >> pure true)

    abbrev pub fill_after :
        FillArguments → List (ℤ × Bool) → Option SyncStatus → Action (Filler Node) Bool
    fill_after a events none = fill_from a.start_block a.end_block events
    fill_after a events (some t) =
        refuse (ltb_ℤ (t.chain_head_block_number +ℤ pos 1) a.start_block) (throw missing_blocks)
        >> (refuse (leb_ℤ a.end_block t.chain_head_block_number) (throw end_not_above_head)
            >> fill_from (t.chain_head_block_number +ℤ pos 1) a.end_block events)

    unfoldable pub fill_blocks : ℕ → ℕ → FillArguments → List (ℤ × Bool) → Action (Filler Node) Bool
    unfolding get_sync_status prefetch_blocks fill_loop process_block_by_number
    fill_blocks fuel retries a events = do
      refuse (ltb_ℤ a.end_block a.start_block) (throw end_before_start)
      found ← on_db get_sync_status
      if a.prefetch then prefetch_from fuel retries a found else fill_after a events found
