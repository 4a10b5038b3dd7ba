-- ===== src/Pruning/Search.antt =====
-- The search of `_pruneChain` for an indexed block above the height finds one.
use watcher_ts.Common.{
  ℕ, zero, suc, ◌≡◌, refl, ap, subst, first, ◌∙◌, true, false, List, [], ◌∷◌, arith, ok, filter,
  Has, Has-filter, filter-Has, Bool-cases, inl, inr,
}
use watcher_ts.Common.Int.{
  ℤ, pos, ◌+ℤ◌, ◌-ℤ◌, ◌≤ℤ◌, ◌<ℤ◌, eqb_ℤ, eqb_ℤ→eq, lt→ltb_ℤ, lt_of_ne, int_laws,
}
use watcher_ts.Tables.{BlockProgress, Db}
use watcher_ts.Blocks.{at_height, get_blocks_at_height}
use watcher_ts.Pruning.{find_indexed_block}

-- One round of the search that does not stop at its assert.
find_indexed_block-suc :
    (fuel : ℕ) (prune_height indexed_height : ℤ) (db : Db) (blocks : List BlockProgress)
    → filter (at_height indexed_height false) db.blocks ≡ blocks
    → prune_height <ℤ indexed_height -ℤ pos 1
    → find_indexed_block (suc fuel) prune_height indexed_height db ≡ elim blocks [
      | [] ↦ find_indexed_block fuel prune_height (indexed_height -ℤ pos 1) db
      | b ∷ _ ↦ (ok b, db)
    ]
unfolding find_indexed_block get_blocks_at_height
find_indexed_block-suc fuel prune_height indexed_height db [] e lt =
    ground (arith, lt→ltb_ℤ prune_height (indexed_height -ℤ pos 1) lt)
find_indexed_block-suc fuel prune_height indexed_height db (b ∷ rest) e lt =
    ground (arith, lt→ltb_ℤ prune_height (indexed_height -ℤ pos 1) lt)

at_height-number :
    (height : ℤ) (b : BlockProgress)
    → at_height height false b ≡ true
    → (b.block_number ≤ℤ height) × (height ≤ℤ b.block_number)
at_height-number height b h = ground arith

-- The search succeeds from any height at or above that of an unpruned block, if that block is two
-- or more above the height to prune.
module _ (prune_height number : ℤ) (db : Db) (r : BlockProgress) (h : Has r db.blocks)
    (at : at_height number false r ≡ true) (above : prune_height +ℤ pos 1 <ℤ number) where
  abbrev pub Found : ℕ → ℤ → Type 0
  Found fuel indexed_height =
      (b : BlockProgress) × (find_indexed_block fuel prune_height indexed_height db ≡ (ok b, db))
      × Has b db.blocks
      × (prune_height <ℤ b.block_number)

  Found-suc :
      (fuel : ℕ) (indexed_height : ℤ) (blocks : List BlockProgress)
      → filter (at_height indexed_height false) db.blocks ≡ blocks
      → number ≤ℤ indexed_height
      → (number <ℤ indexed_height → Found fuel (indexed_height -ℤ pos 1))
      → Found (suc fuel) indexed_height
  Found-suc fuel indexed_height [] e le ih = elim (Bool-cases (eqb_ℤ number indexed_height)) [
    | inl same ↦
        elim (subst (λ l. Has r l)
          (ap (λ n. filter (at_height n false) db.blocks) (eqb_ℤ→eq number indexed_height same) ∙ e)
          (filter-Has (at_height number false) r db.blocks h at)) [ ]
    | inr other ↦
        let (b, found, k, gt) = ih (lt_of_ne number indexed_height other le) in
        (
          b,
          find_indexed_block-suc fuel prune_height indexed_height db [] e (omega int_laws) ∙ found,
          k,
          gt,
        )
  ]
  Found-suc fuel indexed_height (b ∷ rest) e le ih =
      let (k, at_b) = Has-filter (at_height indexed_height false) b db.blocks (rw e (first refl)) in
      (
        b,
        find_indexed_block-suc fuel prune_height indexed_height db (b ∷ rest) e (omega int_laws),
        k,
        omega (int_laws, at_height-number indexed_height b at_b),
      )

  pub find_indexed_block-total :
      (fuel : ℕ) (indexed_height : ℤ)
      → number ≤ℤ indexed_height
      → indexed_height <ℤ number +ℤ pos fuel
      → Found fuel indexed_height
  find_indexed_block-total zero indexed_height le short = absurd (omega int_laws)
  find_indexed_block-total (suc fuel) indexed_height le short =
      Found-suc fuel indexed_height (filter (at_height indexed_height false) db.blocks) refl le
        (λ lt.
          find_indexed_block-total fuel (indexed_height -ℤ pos 1) (omega int_laws) (omega int_laws))
