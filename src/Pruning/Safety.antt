-- ===== src/Pruning/Safety.antt =====
-- What pruning leaves at the height, and that it succeeds.
use watcher_ts.Common.{
  ℕ, ◌≡◌, refl, sym, ap, subst, ◌∙◌, true, false, some, List, [], ◌∷◌, map, arith, ok, filter, any,
  length, ltb, pure, ◌==◌, Has, first, later, Has-map, Has-any, filter-Has, Bool-cases, inl, inr,
  if◌then◌else◌,
}
use watcher_ts.Common.Int.{ℤ, pos, ◌+ℤ◌, ◌≤ℤ◌, ◌<ℤ◌, int_laws}
use watcher_ts.Tables.{BlockProgress, SyncStatus, Db, transact}
use watcher_ts.Blocks.{
  max_reorg_depth, hash_zero, at_height, get_blocks_at_height, get_ancestor_at_height,
  mark_blocks_as_pruned, prune_if_in,
}
use watcher_ts.Blocks.Ancestor.{
  IsLinked, UniqueHashes, find_block-Has, get_ancestor_at_height-Ancestor,
}
use watcher_ts.Sync.{get_sync_status, update_sync_status_canonical_block}
use watcher_ts.Pruning.{
  find_indexed_block, is_other_hash, prune_others, choose_canonical, prune_chain,
}
use watcher_ts.Pruning.Search.{find_indexed_block-total}

-- Every unpruned row at the height has the hash.
abbrev pub OnlyHash : ℤ → ℕ → List BlockProgress → Type 0
OnlyHash height hash rows =
    (b : BlockProgress) → Has b rows → at_height height false b ≡ true → hash ≡ b.block_hash

map-prune_if_in_nil : (rows : List BlockProgress) → map (prune_if_in []) rows ≡ rows
map-prune_if_in_nil [] = refl
map-prune_if_in_nil (r ∷ rows) = ap (λ l. r ∷ l) (map-prune_if_in_nil rows)

others-cases :
    (others : List BlockProgress) (db : Db)
    → (if ltb 0 (length others) then transact (mark_blocks_as_pruned others) else pure tt) db
      ≡ (ok tt, record db { blocks = map (prune_if_in others) db.blocks })
unfolding mark_blocks_as_pruned
others-cases [] db = ground (arith, map-prune_if_in_nil db.blocks)
others-cases (b ∷ others) db = ground arith

prune_others_lem :
    (hash : ℕ) (blocks : List BlockProgress) (db : Db)
    → prune_others hash blocks db ≡ (
      ok tt,
      record db { blocks = map (prune_if_in (filter (is_other_hash hash) blocks)) db.blocks },
    )
unfolding prune_others
prune_others_lem hash blocks db = others-cases (filter (is_other_hash hash) blocks) db

-- A row that stays unpruned is as it was.
prune_if_in-unpruned :
    (height : ℤ) (others : List BlockProgress) (r : BlockProgress)
    → at_height height false (prune_if_in others r) ≡ true
    → (any (λ b. b.id == r.id) others ≡ false) × (at_height height false r ≡ true)
prune_if_in-unpruned height others r at = ground arith

block_hash-prune_if_in :
    (others : List BlockProgress) (r : BlockProgress)
    → (prune_if_in others r).block_hash ≡ r.block_hash
block_hash-prune_if_in others r = ground arith

module _ (height : ℤ) (hash : ℕ) (rows : List BlockProgress) where
  abbrev others : List BlockProgress
  others = filter (is_other_hash hash) (filter (at_height height false) rows)

  not_other :
      (r : BlockProgress)
      → Has r rows
      → at_height height false r ≡ true
      → any (λ b. b.id == r.id) others ≡ false
      → hash ≡ r.block_hash
  not_other r k at unmarked = elim (Bool-cases (hash == r.block_hash)) [
    | inl same ↦ ground arith
    | inr differs ↦
        let marked =
          Has-any (λ (b : BlockProgress). b.id == r.id) r others
            (filter-Has (is_other_hash hash) r (filter (at_height height false) rows)
              (filter-Has (at_height height false) r rows k at) (ground arith))
            (ground arith) in
        ground arith
  ]

  prune_if_in-OnlyHash : OnlyHash height hash (map (prune_if_in others) rows)
  prune_if_in-OnlyHash b h at =
      let (r, k, e) = Has-map (prune_if_in others) b rows h in
      let (unmarked, at_r) =
        prune_if_in-unpruned height others r (subst (λ c. at_height height false c ≡ true) e at) in
      not_other r k at_r unmarked ∙ sym (ap (λ c. c.block_hash) e ∙ block_hash-prune_if_in others r)

-- The choice among the unpruned blocks at the height: it returns, leaves the status alone and
-- leaves no other block at the height.
Chosen : ℤ → Db → List BlockProgress → Type 0
Chosen height db blocks =
    (hash : ℕ) × (db' : Db) × (choose_canonical height blocks db ≡ (ok hash, db'))
    × (db'.sync_status ≡ db.sync_status)
    × OnlyHash height hash db'.blocks

-- With two or more, the one that an indexed block above the height descends from.
many-Chosen :
    (height : ℤ) (db : Db) (b c : BlockProgress) (rest : List BlockProgress)
    → filter (at_height height false) db.blocks ≡ b ∷ c ∷ rest
    → (i a : BlockProgress)
    → find_indexed_block max_reorg_depth height (height +ℤ pos max_reorg_depth) db ≡ (ok i, db)
    → get_ancestor_at_height i.block_hash height db ≡ (ok a.block_hash, db)
    → Chosen height db (b ∷ c ∷ rest)
unfolding Chosen choose_canonical
many-Chosen height db b c rest e i a indexed ancestor =
    let others = filter (is_other_hash a.block_hash) (b ∷ c ∷ rest) in
    let db' = record db { blocks = map (prune_if_in others) db.blocks } in
    (
      a.block_hash,
      db',
      ground (arith, prune_others_lem a.block_hash (b ∷ c ∷ rest) db),
      refl,
      subst
          (λ l.
            OnlyHash height a.block_hash
              (map (prune_if_in (filter (is_other_hash a.block_hash) l)) db.blocks))
          e (prune_if_in-OnlyHash height a.block_hash db.blocks),
    )

-- The unpruned rows at the height are those of the list.
Has-list :
    (height : ℤ) (rows blocks : List BlockProgress) (r : BlockProgress)
    → filter (at_height height false) rows ≡ blocks
    → Has r rows
    → at_height height false r ≡ true
    → Has r blocks
Has-list height rows blocks r e h at =
    subst (λ l. Has r l) e (filter-Has (at_height height false) r rows h at)

only_one : (b r : BlockProgress) → Has r (b ∷ []) → b.block_hash ≡ r.block_hash
only_one b r (first e) = sym (ap (λ c. c.block_hash) e)
only_one b r (later h) = elim h [ ]

module _ (height number : ℤ) (db : Db) (r : BlockProgress) (linked : IsLinked db.blocks)
    (unique : UniqueHashes db.blocks) (h : Has r db.blocks) (at : at_height number false r ≡ true)
    (above : height +ℤ pos 1 <ℤ number) (near : number ≤ℤ height +ℤ pos max_reorg_depth) where
  choose_canonical-Chosen :
      (blocks : List BlockProgress)
      → filter (at_height height false) db.blocks ≡ blocks
      → Chosen height db blocks
  unfolding Chosen choose_canonical
  choose_canonical-Chosen [] e =
      (hash_zero, db, refl, refl, λ b k at_b. elim (Has-list height db.blocks [] b e k at_b) [ ])
  choose_canonical-Chosen (b ∷ []) e = (
    b.block_hash,
    db,
    refl,
    refl,
    λ c k at_c. only_one b c (Has-list height db.blocks (b ∷ []) c e k at_c),
  )
  choose_canonical-Chosen (b ∷ c ∷ rest) e =
      let (i, indexed, k, gt) =
        find_indexed_block-total height number db r h at above max_reorg_depth
          (height +ℤ pos max_reorg_depth) near (omega int_laws) in
      let (a, ancestor, reached, within, top) =
        get_ancestor_at_height-Ancestor i.block_hash height db i linked
          (find_block-Has i db.blocks unique k) (omega arith) in
      unfold Chosen in many-Chosen height db b c rest e i a indexed ancestor

-- A height is pruned if it lies `max_reorg_depth` or more below the latest indexed block and above
-- the canonical block, if in the table parents have lower numbers and hashes are unique, and if some
-- unpruned block is two to sixteen blocks above the height. Then pruning succeeds: the canonical
-- block moves to the height, with a hash that every block has that is left unpruned there, and
-- nothing else of the status changes.
pub prune_chain-canonical :
    (height number : ℤ) (db : Db) (status : SyncStatus) (r : BlockProgress)
    → IsLinked db.blocks
    → UniqueHashes db.blocks
    → db.sync_status ≡ some status
    → height +ℤ pos max_reorg_depth ≤ℤ status.latest_indexed_block_number
    → status.latest_canonical_block_number <ℤ height
    → Has r db.blocks
    → at_height number false r ≡ true
    → height +ℤ pos 1 <ℤ number
    → number ≤ℤ height +ℤ pos max_reorg_depth
    → (hash : ℕ) × (db' : Db) × (prune_chain height db ≡ (ok tt, db'))
      × (db'.sync_status
          ≡ some (record status {
            latest_canonical_block_hash = hash;
            latest_canonical_block_number = height;
          }))
      × OnlyHash height hash db'.blocks
unfolding prune_chain get_sync_status get_blocks_at_height update_sync_status_canonical_block Chosen
prune_chain-canonical height number db status r linked unique found safe fresh h at above near =
    let (hash, db', chosen, same, only) =
      choose_canonical-Chosen height number db r linked unique h at above near
        (filter (at_height height false) db.blocks) refl in
    let status' = record status {
      latest_canonical_block_hash = hash;
      latest_canonical_block_number = height;
    } in
    (hash, record db' { sync_status = some status' }, ground arith, refl, only)
