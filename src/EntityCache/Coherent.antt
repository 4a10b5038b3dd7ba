-- ===== src/EntityCache/Coherent.antt =====
-- The blocks of the cache agree with the database.
use watcher_ts.Common.{
  ℕ, true, false, ◌&&◌, ◌==◌, Option, none, some, List, ◌≡◌, ◌≢◌, refl, sym, ap, subst, ◌∙◌, inl,
  inr, arith, if◌then◌else◌, Bool-cases, set_at-cases,
}
use watcher_ts.Common.Int.{ℤ, pos, ◌≤ℤ◌}
use watcher_ts.Tables.{BlockProgress}
use watcher_ts.Blocks.{find_block}
use watcher_ts.Entity.{Version, find_version}
use watcher_ts.EntityCache.{
  entity_at, put_entity, FrothyBlock, Store, put_in_block, cache_updated_entity, add_block,
  update_entity_cache_frothy_blocks, keep_above, prune_entity_cache_frothy_blocks, EntityData,
  row_of, save_entity, save_and_cache, upsert,
}
use watcher_ts.EntityCache.Saved.{IsClean, is_of, find_version-upsert}

-- A block of the cache is in the table, and has the versions that the database has at it.
pub record IsAt (s : Store) (hash : ℕ) (fb : FrothyBlock) : Type 0 where
  pub block : BlockProgress
  pub known : find_block hash s.blocks ≡ some block
  pub number : block.block_number ≡ fb.block_number
  pub parent : block.parent_hash ≡ fb.parent_hash
  pub nonneg : pos 0 ≤ℤ fb.block_number
  pub same :
      (table id : ℕ) → entity_at fb.entities table id ≡ find_version (s.versions table) id hash

abbrev pub IsCoherent : Store → Type 0
IsCoherent s = (hash : ℕ) (fb : FrothyBlock) → s.cache.frothy_blocks hash ≡ some fb → IsAt s hash fb

-- A block that is there stays, with its number and its parent; its other columns may change, as they
-- do when it is complete or pruned.
abbrev pub KeepsBlock : ℕ → List BlockProgress → List BlockProgress → Type 0
KeepsBlock hash rows rows' =
    (b : BlockProgress)
    → find_block hash rows ≡ some b
    → (b' : BlockProgress) × (find_block hash rows' ≡ some b')
      × (b'.block_number ≡ b.block_number)
      × (b'.parent_hash ≡ b.parent_hash)

pub KeepsBlock-same :
    (hash : ℕ) (rows rows' : List BlockProgress)
    → find_block hash rows' ≡ find_block hash rows
    → KeepsBlock hash rows rows'
KeepsBlock-same hash rows rows' e b found = (b, e ∙ found, refl, refl)

pub IsAt-change :
    (s t : Store) (hash : ℕ) (fb : FrothyBlock)
    → KeepsBlock hash s.blocks t.blocks
    → ((table id : ℕ)
        → find_version (t.versions table) id hash ≡ find_version (s.versions table) id hash)
    → IsAt s hash fb
    → IsAt t hash fb
IsAt-change s t hash fb keeps versions a =
    let (b, known, number, parent) = keeps a.block a.known in
    record {
      block = b;
      known = known;
      number = number ∙ a.number;
      parent = parent ∙ a.parent;
      nonneg = a.nonneg;
      same = λ table id. a.same table id ∙ sym (versions table id);
    }

pub caches_block-IsCoherent :
    (b : BlockProgress) (interval : ℕ) (s : Store)
    → find_block b.block_hash s.blocks ≡ some b
    → pos 0 ≤ℤ b.block_number
    → (s.cache.frothy_blocks b.block_hash ≡ none
        → (table id : ℕ) → find_version (s.versions table) id b.block_hash ≡ none)
    → IsCoherent s
    → IsCoherent (record s { cache = update_entity_cache_frothy_blocks b interval s.cache })
unfolding update_entity_cache_frothy_blocks
caches_block-IsCoherent b interval s found nonneg fresh c h fb =
    step (s.cache.frothy_blocks b.block_hash) refl
  where
    new : FrothyBlock
    new = record { block_number = b.block_number; parent_hash = b.parent_hash; entities = none }

    after : Store
    after = record s { cache = update_entity_cache_frothy_blocks b interval s.cache }

    old : s.cache.frothy_blocks h ≡ some fb → IsAt after h fb
    old e =
        IsAt-change s after h fb (KeepsBlock-same h s.blocks s.blocks refl) (λ table id. refl)
          (c h fb e)

    added :
        s.cache.frothy_blocks b.block_hash ≡ none → h ≡ b.block_hash → new ≡ fb → IsAt after h fb
    added missing e same = subst (IsAt after h) same (
        subst (λ k. IsAt after k new) (sym e)
          (record {
            block = b;
            known = found;
            number = refl;
            parent = refl;
            nonneg = nonneg;
            same = λ table id. sym (fresh missing table id);
          }))

    step :
        (there : Option FrothyBlock)
        → s.cache.frothy_blocks b.block_hash ≡ there
        → (add_block b there s.cache).frothy_blocks h ≡ some fb
        → IsAt after h fb
    step (some _) e = old
    step none e =
        set_at-cases (λ o. o ≡ some fb → IsAt after h fb) b.block_hash (some new)
          s.cache.frothy_blocks h (λ k same. added e k (ground (arith, same))) (λ _. old)

-- What is found in the tables after an entity was saved.
abbrev pub saved_rows : ℕ → EntityData → Store → ℕ → List Version
saved_rows table d s t =
    if t == table
    then upsert d (find_version (s.versions table) d.id d.block_hash) (s.versions table)
    else s.versions t

pub saved_rows-find_version :
    (table : ℕ) (d : EntityData) (s : Store)
    → IsClean d (s.versions table)
    → (t id hash : ℕ)
    → find_version (saved_rows table d s t) id hash ≡ (
        if t == table && is_of d id hash
        then some (row_of d false false)
        else find_version (s.versions t) id hash)
saved_rows-find_version table d s clean t id hash = elim (Bool-cases (t == table)) [
  | inl same ↦
      subst
        (λ n. find_version (saved_rows table d s n) id hash ≡ (
          if n == table && is_of d id hash
          then some (row_of d false false)
          else find_version (s.versions n) id hash))
        (sym (same_table same))
        (ground (arith, find_version-upsert d (s.versions table) id hash clean))
  | inr other ↦ ground (arith, other)
]
  where
    same_table : (t == table) ≡ true → t ≡ table
    same_table e = ground (arith, e)

module _ (table : ℕ) (d : EntityData) (s : Store) (clean : IsClean d (s.versions table))
    (c : IsCoherent s) where
  abbrev saved : Option FrothyBlock → Store
  saved there = record s {
    versions = saved_rows table d s;
    cache = put_in_block table (row_of d false false) there s.cache;
  }

  untouched :
      (there : Option FrothyBlock) (h : ℕ) (fb : FrothyBlock)
      → h ≢ d.block_hash
      → s.cache.frothy_blocks h ≡ some fb
      → IsAt (saved there) h fb
  untouched there h fb ne e =
      let a = c h fb e in
      record {
        block = a.block;
        known = a.known;
        number = a.number;
        parent = a.parent;
        nonneg = a.nonneg;
        same = λ t i. ground (arith, a.same t i, saved_rows-find_version table d s clean t i h, ne);
      }

  updated :
      (h : ℕ) (old : FrothyBlock)
      → h ≡ d.block_hash
      → s.cache.frothy_blocks d.block_hash ≡ some old
      → IsAt
          (saved (some old))
          h
          (record old { entities = put_entity table (row_of d false false) old.entities })
  updated h old same e =
      let a = c h old (ap s.cache.frothy_blocks same ∙ e) in
      record {
        block = a.block;
        known = a.known;
        number = a.number;
        parent = a.parent;
        nonneg = a.nonneg;
        same =
            λ t i. ground (arith, a.same t i, saved_rows-find_version table d s clean t i h, same);
      }

  pub saves-IsCoherent : IsCoherent (save_and_cache table d s).1
  unfolding save_and_cache save_entity cache_updated_entity
  saves-IsCoherent h fb = step (s.cache.frothy_blocks d.block_hash) refl
    where
      step :
          (there : Option FrothyBlock)
          → s.cache.frothy_blocks d.block_hash ≡ there
          → (saved there).cache.frothy_blocks h ≡ some fb
          → IsAt (saved there) h fb
      step none e = λ found.
          untouched none h fb (λ same. ground (arith, e, ap s.cache.frothy_blocks same, found))
            found
      step (some old) e =
          set_at-cases (λ o. o ≡ some fb → IsAt (saved (some old)) h fb) d.block_hash
            (some (record old { entities = put_entity table (row_of d false false) old.entities }))
            s.cache.frothy_blocks h
            (λ same found.
              subst (IsAt (saved (some old)) h) (ground (arith, found)) (updated h old same e))
            (λ ne found. untouched (some old) h fb ne found)

pub prunes-IsCoherent :
    (hash : ℕ) (number : ℤ) (s : Store)
    → IsCoherent s
    → IsCoherent (record s { cache = prune_entity_cache_frothy_blocks hash number s.cache })
unfolding prune_entity_cache_frothy_blocks
prunes-IsCoherent hash number s c h fb = kept (s.cache.frothy_blocks h) refl
  where
    after : Store
    after = record s { cache = prune_entity_cache_frothy_blocks hash number s.cache }

    kept :
        (there : Option FrothyBlock)
        → s.cache.frothy_blocks h ≡ there
        → keep_above number there ≡ some fb
        → IsAt after h fb
    kept none e = λ found. absurd (ground (arith, found))
    kept (some old) e = λ found.
        IsAt-change s after h fb (KeepsBlock-same h s.blocks s.blocks refl) (λ t i. refl)
          (c h fb (e ∙ ground (arith, found)))
