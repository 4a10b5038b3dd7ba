-- ===== src/Entity.antt =====
-- Versions of a subgraph entity: `getFrothyEntity`, `getPrevEntityVersion` and
-- `getLatestPrunedEntity` of packages/util/src/database.ts. An entity table has at most one row for
-- an id and a block hash, its primary key.
pub mod Nearest
pub mod Seen
mod Tests
use watcher_ts.Common.{
  ℕ, zero, suc, Bool, true, false, not, ◌&&◌, Option, none, some, List, [], ◌∷◌, filter, find, ◌==◌,
  if◌then◌else◌, Result, ok, err, no_such_block,
}
use watcher_ts.Common.Int.{ℤ, pos, ◌+ℤ◌, leb_ℤ}
use watcher_ts.Tables.{BlockProgress}
use watcher_ts.Blocks.{find_block, parent_of, lowest}

-- `value` stands for the columns that the schema of the subgraph adds.
pub record Version : Type 0 where
  pub id : ℕ
  pub block_hash : ℕ
  pub block_number : ℤ
  pub is_pruned : Bool
  pub is_removed : Bool
  pub value : ℕ

-- The row that the left join finds, and `findOne` by the same two columns.
abbrev pub find_version : List Version → ℕ → ℕ → Option Version
find_version versions id hash = find (λ v. v.id == id && v.block_hash == hash) versions

-- The rows of the recursive query below `b`: parents, while no version is found and the depth is
-- below its bound.
entity_rows : ℕ → List BlockProgress → List Version → ℕ → BlockProgress → List BlockProgress
entity_rows zero rows versions id b = []
entity_rows (suc rounds) rows versions id b = elim (find_version versions id b.block_hash) [
  | some _ ↦ []
  | none ↦ elim (parent_of rows b) [
    | none ↦ []
    | some p ↦ p ∷ entity_rows rounds rows versions id p
  ]
]

-- The block hash and number of the lowest row, and whether its id is there.
pub record FrothyEntity : Type 0 where
  pub block_hash : ℕ
  pub block_number : ℤ
  pub found : Bool

unfoldable pub get_frothy_entity : List BlockProgress → List Version → ℕ → ℕ → Result FrothyEntity
unfolding entity_rows
get_frothy_entity rows versions hash id = elim (find_block hash rows) [
  | none ↦ err no_such_block
  | some b ↦
      let low = lowest b (entity_rows 15 rows versions id b) in
      ok (record {
        block_hash = low.block_hash;
        block_number = low.block_number;
        found = elim (find_version versions id low.block_hash) [ none ↦ false | some _ ↦ true ];
      })
]

-- `ORDER BY block_number DESC LIMIT 1`
abbrev pub highest_version : List Version → Option Version
highest_version [] = none
highest_version (v ∷ versions) = elim (highest_version versions) [
  | none ↦ some v
  | some w ↦ if leb_ℤ w.block_number v.block_number then some v else some w
]

abbrev pub is_unpruned_upto : ℕ → ℤ → Version → Bool
is_unpruned_upto id number v = v.id == id && not v.is_pruned && leb_ℤ v.block_number number

unfoldable pub get_latest_pruned_entity : List Version → ℕ → ℤ → Option Version
get_latest_pruned_entity versions id number =
    highest_version (filter (is_unpruned_upto id number) versions)

unfoldable pub get_prev_entity_version :
    List BlockProgress → List Version → ℕ → ℕ → Result (Option Version)
unfolding get_frothy_entity
get_prev_entity_version rows versions hash id = elim (get_frothy_entity rows versions hash id) [
  | err e ↦ err e
  | ok f ↦ ok (
      if f.found
      then find_version versions id f.block_hash
      else get_latest_pruned_entity versions id (f.block_number +ℤ pos 1))
]
