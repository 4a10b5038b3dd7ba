-- ===== src/Blocks.antt =====
-- The table `block_progress` (packages/util/src/database.ts). Its index makes `block_hash` unique
-- (packages/codegen/src/data/entities/BlockProgress.yaml), so a recursive query over parents has at
-- most one row in hand at a time and walks a chain.
pub mod Ancestor
pub mod Region
mod Tests
use watcher_ts.Common.{
  ℕ, zero, suc, ◌+◌, Bool, true, false, not, ◌&&◌, Option, none, some, List, [], ◌∷◌, ◌++◌, map,
  length, filter, find, any, ◌==◌, if◌then◌else◌, Action, Result, ok, err, pure, expect, throw,
  assert, ◌>>=◌, ◌>>◌, assertion, type_error, unique_violation, out_of_fuel,
}
use watcher_ts.Common.Int.{ℤ, pos, negsuc, pos_part, ◌-ℤ◌, ◌+ℤ◌, ltb_ℤ, leb_ℤ, eqb_ℤ}
use watcher_ts.Tables.{BlockProgress, Event, Db}

-- `repo.findOne({ where: { blockHash } })`
abbrev pub find_block : ℕ → List BlockProgress → Option BlockProgress
find_block hash rows = find (λ b. b.block_hash == hash) rows

unfoldable pub get_block_progress : ℕ → Action Db (Option BlockProgress)
get_block_progress hash db = (ok (find_block hash db.blocks), db)

abbrev pub at_height : ℤ → Bool → BlockProgress → Bool
at_height height pruned b =
    eqb_ℤ b.block_number height && (if pruned then b.is_pruned else not b.is_pruned)

unfoldable pub get_blocks_at_height : ℤ → Bool → Action Db (List BlockProgress)
get_blocks_at_height height pruned db = (ok (filter (at_height height pruned) db.blocks), db)

-- The row, marked if its id is among those of `blocks`.
abbrev pub prune_if_in : List BlockProgress → BlockProgress → BlockProgress
prune_if_in blocks row =
    if any (λ b. b.id == row.id) blocks then record row { is_pruned = true } else row

unfoldable pub mark_blocks_as_pruned : List BlockProgress → Action Db Unit
mark_blocks_as_pruned blocks db = (ok tt, record db { blocks = map (prune_if_in blocks) db.blocks })

abbrev pub replace_block : BlockProgress → BlockProgress → BlockProgress
replace_block block row = if row.id == block.id then block else row

-- The block as the caller's object is after the call: `updateBlockProgress` changes it.
abbrev pub step_progress : BlockProgress → ℤ → BlockProgress
step_progress block index = if block.is_complete then block else record block {
  last_processed_event_index = index;
  num_processed_events = block.num_processed_events + 1;
}

-- The result is the row that was changed, or none where no row has the id.
unfoldable pub update_block_progress : BlockProgress → ℤ → Action Db (Option BlockProgress)
update_block_progress block index db =
    let block' = step_progress block index in
    (
      ok (if any (λ b. b.id == block.id) db.blocks then some block' else none),
      record db { blocks = map (replace_block block') db.blocks },
    )

unfoldable pub save_events : List Event → Action Db Unit
save_events events db = (ok tt, record db { events = db.events ++ events })

-- The fields of a block that `saveBlockWithEvents` is given; `undefined` is `none`.
pub record PartialBlock : Type 0 where
  pub cid : Option ℕ
  pub block_hash : Option ℕ
  pub parent_hash : ℕ
  pub block_number : Option ℤ
  pub block_timestamp : Option ℤ

-- An empty hash fails its `assert` as an undefined one does.
abbrev pub some_hash : Option ℕ → Option ℕ
some_hash none = none
some_hash (some hash) = if hash == 0 then none else some hash

-- The asserts on a number: defined, and above -1.
abbrev pub some_nonneg : Option ℤ → Option ℤ
some_nonneg none = none
some_nonneg (some n) = if ltb_ℤ (negsuc 0) n then some n else none

abbrev pub insert_block : BlockProgress → Action Db BlockProgress
insert_block row db = elim (find_block row.block_hash db.blocks) [
  | some _ ↦ (err unique_violation, db)
  | none ↦ (ok row, record db { blocks = db.blocks ++ row ∷ [] })
]

abbrev pub of_block : ℕ → Event → Event
of_block hash e = record e { block_hash = hash }

-- `new_id` is what the table's sequence gives.
unfoldable pub save_block_with_events : ℕ → PartialBlock → List Event → Action Db BlockProgress
unfolding save_events
save_block_with_events new_id block events = do
  hash ← expect (some_hash block.block_hash) assertion
  number ← expect (some_nonneg block.block_number) assertion
  timestamp ← expect (some_nonneg block.block_timestamp) assertion
  row ← insert_block (record {
    id = new_id;
    cid = block.cid;
    block_hash = hash;
    parent_hash = block.parent_hash;
    block_number = number;
    block_timestamp = timestamp;
    num_events = length events;
    num_processed_events = 0;
    last_processed_event_index = negsuc 0;
    is_complete = false;
    is_pruned = false;
  })
  save_events (map (of_block hash) events)
  pure row

-- The row that `parent_hash = block_hash` joins.
abbrev pub parent_of : List BlockProgress → BlockProgress → Option BlockProgress
parent_of rows b = find_block b.parent_hash rows

-- `ORDER BY block_number ASC LIMIT 1`
abbrev pub lowest : BlockProgress → List BlockProgress → BlockProgress
lowest b [] = b
lowest b (c ∷ rows) =
    let low = lowest c rows in if leb_ℤ b.block_number low.block_number then b else low

-- The recursive query of `getAncestorAtHeight`, from a row on: at each round the parent, while it
-- is not below `height`. `none`: the fuel ran out.
rows_down_to : ℕ → List BlockProgress → ℤ → BlockProgress → Option (List BlockProgress)
rows_down_to zero rows height b = none
rows_down_to (suc fuel) rows height b = elim (parent_of rows b) [
  | none ↦ some []
  | some p ↦ elim (leb_ℤ height p.block_number) [
    | false ↦ some []
    | true ↦ elim (rows_down_to fuel rows height p) [ none ↦ none | some l ↦ some (p ∷ l) ]
  ]
]

-- A walk over different rows has no more rounds than rows, and one along falling block numbers no
-- more than there are heights.
abbrev pub walk_fuel : List BlockProgress → ℤ → BlockProgress → ℕ
walk_fuel rows height b = suc (length rows + pos_part (b.block_number -ℤ height))

unfoldable pub get_ancestor_at_height : ℕ → ℤ → Action Db ℕ
unfolding rows_down_to
get_ancestor_at_height hash height db = elim (find_block hash db.blocks) [
  | none ↦ (err type_error, db)
  | some b ↦ elim (rows_down_to (walk_fuel db.blocks height b) db.blocks height b) [
    | none ↦ (err out_of_fuel, db)
    | some l ↦ (ok (lowest b l).block_hash, db)
  ]
]

-- `MAX_REORG_DEPTH`
abbrev pub max_reorg_depth : ℕ
max_reorg_depth = 16

-- `ethers.constants.HashZero`
abbrev pub hash_zero : ℕ
hash_zero = 1

-- A row and the parents above it, at most `rounds` of them.
unfoldable pub ancestry : ℕ → List BlockProgress → BlockProgress → List BlockProgress
ancestry zero rows b = b ∷ []
ancestry (suc rounds) rows b = elim (parent_of rows b) [
  | none ↦ b ∷ []
  | some p ↦ b ∷ ancestry rounds rows p
]

-- A recursive query with `c.depth < 16`, whose first row has depth 1.
abbrev pub frothy_rows : List BlockProgress → BlockProgress → List BlockProgress
frothy_rows rows b = ancestry 15 rows b

abbrev pub last_of : BlockProgress → List BlockProgress → BlockProgress
last_of b [] = b
last_of b (c ∷ rows) = last_of c rows

-- `canonicalBlockNumber` and `blockHashes`; the rows come in the order in which the query makes them.
unfoldable pub get_frothy_region : ℕ → Action Db (ℤ × List ℕ)
unfolding ancestry
get_frothy_region hash db = elim (find_block hash db.blocks) [
  | none ↦ (err type_error, db)
  | some b ↦
      let rows = frothy_rows db.blocks b in
      (ok ((last_of b rows).block_number +ℤ pos 1, map (λ c. c.block_hash) rows), db)
]
