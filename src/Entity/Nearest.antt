-- ===== src/Entity/Nearest.antt =====
-- Which version of an entity a block sees.
use watcher_ts.Common.{
  ℕ, zero, suc, ◌≡◌, refl, Option, none, some, List, [], ◌∷◌, arith, ok, Option-cases, inl, inr,
}
use watcher_ts.Common.Int.{pos, ◌+ℤ◌, ◌≤ℤ◌}
use watcher_ts.Tables.{BlockProgress}
use watcher_ts.Blocks.{find_block, parent_of, lowest, last_of, ancestry}
use watcher_ts.Blocks.Ancestor.{IsLinked, find_block_self}
use watcher_ts.Entity.{
  Version, find_version, entity_rows, get_latest_pruned_entity, get_prev_entity_version,
}

-- The version of the first of the blocks that has one.
abbrev pub first_version : List Version → ℕ → List BlockProgress → Option Version
first_version versions id [] = none
first_version versions id (b ∷ blocks) = elim (find_version versions id b.block_hash) [
  | some v ↦ some v
  | none ↦ first_version versions id blocks
]

last_of-ancestry :
    (rounds : ℕ) (rows : List BlockProgress) (b p : BlockProgress)
    → last_of b (ancestry rounds rows p) ≡ last_of p (ancestry rounds rows p)
unfolding ancestry
last_of-ancestry zero rows b p = refl
last_of-ancestry (suc rounds) rows b p = ground arith

module _ (rows : List BlockProgress) (versions : List Version) (id : ℕ)
    (linked : IsLinked rows) where
  -- The query's last row is its lowest, and it has the version of the nearest block.
  record EndsNearest (rounds : ℕ) (b : BlockProgress) (l : List BlockProgress) : Type 0 where
    lowest_last : lowest b l ≡ last_of b l
    falls : (last_of b l).block_number ≤ℤ b.block_number
    nearest :
        find_version versions id (last_of b l).block_hash
        ≡ first_version versions id (ancestry rounds rows b)
    whole :
        first_version versions id (ancestry rounds rows b) ≡ none
        → last_of b l ≡ last_of b (ancestry rounds rows b)

  entity_rows-EndsNearest :
      (rounds : ℕ) (b : BlockProgress)
      → find_block b.block_hash rows ≡ some b
      → EndsNearest rounds b (entity_rows rounds rows versions id b)
  unfolding entity_rows ancestry
  entity_rows-EndsNearest zero b known = record {
    lowest_last = refl;
    falls = omega arith;
    nearest = ground arith;
    whole = λ _. refl;
  }
  entity_rows-EndsNearest (suc rounds) b known =
      elim (Option-cases (find_version versions id b.block_hash)) [
        | inr (v, here) ↦ record {
          lowest_last = ground arith;
          falls = ground arith;
          nearest = ground arith;
          whole = ground arith;
        }
        | inl missing ↦ elim (Option-cases (parent_of rows b)) [
          | inl no_parent ↦ record {
            lowest_last = ground arith;
            falls = ground arith;
            nearest = ground arith;
            whole = ground arith;
          }
          | inr (p, found) ↦
              let below =
                entity_rows-EndsNearest rounds p (find_block_self b.parent_hash rows p found) in
              let lt = linked b p known found in
              record {
                lowest_last = ground (arith, below.lowest_last, below.falls);
                falls = ground (arith, below.falls);
                nearest = ground (arith, below.nearest);
                whole = λ e.
                    ground (arith, below.whole (ground arith), last_of-ancestry rounds rows b p);
              }
        ]
      ]

-- What the query gives, by what its parts find.
pub get_prev_entity_version-walk :
    (rows : List BlockProgress) (versions : List Version) (hash id : ℕ) (b : BlockProgress)
    → IsLinked rows
    → find_block hash rows ≡ some b
    → get_prev_entity_version rows versions hash id
      ≡ ok (elim (first_version versions id (ancestry 15 rows b)) [
        | some v ↦ some v
        | none ↦
            get_latest_pruned_entity versions id
              ((last_of b (ancestry 15 rows b)).block_number +ℤ pos 1)
      ])
unfolding get_prev_entity_version
get_prev_entity_version-walk rows versions hash id b linked found =
    let e =
      entity_rows-EndsNearest rows versions id linked 15 b (find_block_self hash rows b found) in
    elim (Option-cases (first_version versions id (ancestry 15 rows b))) [
      | inl missing ↦ ground (arith, e.lowest_last, e.nearest, e.whole missing)
      | inr (v, there) ↦ ground (arith, e.lowest_last, e.nearest)
    ]
