-- ===== src/EntityCache/Written.antt =====
-- What mapping code reads after it wrote.
use watcher_ts.Common.{
  err, ◌>>=◌, ℕ, false, Option, none, some, ◌≡◌, ◌≢◌, refl, sym, ap, subst, ◌∙◌, inl, inr, arith,
  Option-cases, ok, Result, Action, bind_ok, pure,
}
use watcher_ts.Common.Int.{ℤ, negsuc}
use watcher_ts.Tables.{BlockProgress}
use watcher_ts.Blocks.{find_block, ancestry}
use watcher_ts.Blocks.Ancestor.{IsLinked, find_block-hash}
use watcher_ts.Entity.{Version, find_version, get_prev_entity_version}
use watcher_ts.Entity.Nearest.{first_version}
use watcher_ts.EntityCache.{
  Entities, FrothyBlock, Store, walk_frothy, walk_rounds, below, read_walked, read_cached,
  get_model_entity, EntityData, row_of, save_entity, save_and_cache, cache_updated_entity, present,
  store_get, store_set, removal, store_remove,
}
use watcher_ts.EntityCache.Saved.{IsClean}
use watcher_ts.EntityCache.Coherent.{saved_rows-find_version}
use watcher_ts.EntityCache.Steps.{IsRead, get_model_entity-IsRead, Reach, next, saves, reads}
use watcher_ts.EntityCache.Transparent.{get_model_entity-transparent, get_prev_entity_version-near}

-- A block that is not in the cache is read from the database.
uncached-database :
    (s : Store) (table id hash : ℕ)
    → s.cache.frothy_blocks hash ≡ none
    → (get_model_entity table id (some hash) s).0
      ≡ get_prev_entity_version s.blocks (s.versions table) hash id
unfolding get_model_entity walk_frothy
uncached-database s table id hash missing = step s.cache.latest_pruned_entities
  where
    walked :
        walk_frothy (walk_rounds (s.cache.frothy_blocks hash)) s.cache table id hash (negsuc 0)
        ≡ below (negsuc 0)
    walked =
        subst (λ o. walk_frothy (walk_rounds o) s.cache table id hash (negsuc 0) ≡ below (negsuc 0))
          (sym missing) (ground (arith, missing))

    step :
        (latest : Entities)
        → (read_cached table id hash latest s).0
          ≡ get_prev_entity_version s.blocks (s.versions table) hash id
    step none = refl
    step (some _) = ap (λ w. (read_walked table id hash w s).0) walked

module _ (s0 s : Store) (table : ℕ) (d : EntityData) (b : BlockProgress)
    (empty : (h : ℕ) → s0.cache.frothy_blocks h ≡ none) (reach : Reach s0 s)
    (linked : IsLinked s.blocks) (found : find_block d.block_hash s.blocks ≡ some b)
    (clean : IsClean d (s.versions table)) where
  saved_version :
      first_version ((save_and_cache table d s).1.versions table) d.id (ancestry 0 s.blocks b)
      ≡ some (row_of d false false)
  unfolding save_and_cache save_entity cache_updated_entity ancestry
  saved_version = ground (
    arith,
    saved_rows-find_version table d s clean table d.id b.block_hash,
    find_block-hash d.block_hash s.blocks b found,
  )

  -- A read of what was saved gives it.
  pub save_and_cache-get :
      (get_model_entity table d.id (some d.block_hash) (save_and_cache table d s).1).0
      ≡ ok (some (row_of d false false))
  unfolding save_and_cache save_entity cache_updated_entity ancestry
  save_and_cache-get = elim (Option-cases (t.cache.frothy_blocks d.block_hash)) [
    | inl missing ↦
        uncached-database t table d.id d.block_hash missing
        ∙ get_prev_entity_version-near t table d.id d.block_hash 0 b (row_of d false false) linked
            (omega arith) found saved_version
    | inr (fb, there) ↦
        (get_model_entity-transparent s0 t table d.id d.block_hash 0 b (row_of d false false) empty
          (next reach (saves table d s clean)) linked (omega arith) found
          (
            λ missing. some_none fb (
                sym there
                ∙ ap t.cache.frothy_blocks (sym (find_block-hash d.block_hash s.blocks b found))
                ∙ missing),
            tt,
          )
          saved_version).0
  ]
    where
      t : Store
      t = (save_and_cache table d s).1

      some_none : (fb : FrothyBlock) → some fb ≢ none
      some_none fb e = ground (arith, e)

read_then :
    (m : Action Store (Option Version)) (s : Store) (o : Option Version)
    → (m s).0 ≡ ok o
    → ((m >>= λ found. pure (present found)) s).0 ≡ ok (present o)
read_then m s o e =
    ap
      (λ (r : Result (Option Version)).
        (elim r as (λ _. Result (Option Version) × Store) [
          | ok found ↦ (ok (present found), (m s).1)
          | err error ↦ (err error, (m s).1)
        ]).0)
      e

read_ok :
    (m : Action Store (Option Version)) (s : Store) (o : Option Version)
    → ((m >>= λ found. pure (present found)) s).0 ≡ ok o
    → (m >>= λ found. pure (present found)) s ≡ (ok o, (m s).1)
read_ok m s o = step (m s).0
  where
    after : Result (Option Version) → Result (Option Version) × Store
    after r = elim r [ ok found ↦ (ok (present found), (m s).1) | err error ↦ (err error, (m s).1) ]

    step : (r : Result (Option Version)) → (after r).0 ≡ ok o → after r ≡ (ok o, (m s).1)
    step (ok found) e = ap (λ (x : Result (Option Version)). (x, (m s).1)) e
    step (err error) e = absurd (ground (arith, e))

-- Mapping code that sets an entity reads it at once, through the cache or without it. In every
-- state that is reached as for `get_model_entity-transparent`, `store.get` after `store.set` at a
-- block of the table gives the value that was set, with the block and the flags of a new row. A row
-- of the entity that is there for the block already is neither pruned nor removed, and every block
-- of the table has a higher number than its parent there.
pub store_set-get :
    (s0 s : Store) (table id hash : ℕ) (number : ℤ) (value : ℕ) (b : BlockProgress)
    → ((h : ℕ) → s0.cache.frothy_blocks h ≡ none)
    → Reach s0 s
    → IsLinked s.blocks
    → find_block hash s.blocks ≡ some b
    → ((old : Version)
        → find_version (s.versions table) id hash ≡ some old
        → (old.is_pruned ≡ false) × (old.is_removed ≡ false))
    → (store_get table id hash (store_set table id hash number value s).1).0
      ≡ ok (
          some (record {
            id = id;
            block_hash = hash;
            block_number = number;
            is_pruned = false;
            is_removed = false;
            value = value;
          }))
unfolding store_get store_set
store_set-get s0 s table id hash number value b empty reach linked found fresh =
    read_then (get_model_entity table id (some hash)) (store_set table id hash number value s).1
      (some (row_of d false false))
      (save_and_cache-get s0 s table d b empty reach linked found
        (λ old there. ground (arith, fresh old there)))
  where
    d : EntityData
    d = record {
      id = id;
      block_hash = hash;
      block_number = number;
      is_pruned = none;
      is_removed = none;
      value = value;
    }

-- Mapping code that removes an entity does not read it any more. In every state that is reached as
-- for `get_model_entity-transparent`, if `store.get` at a block of the table finds the entity, with
-- the id that was asked for, then `store.remove` ends without an error, and `store.get` after it
-- finds none. Every block of the table has a higher number than its parent there.
store_remove-get :
    (s0 s : Store) (table id hash : ℕ) (number : ℤ) (b : BlockProgress) (v : Version)
    → ((h : ℕ) → s0.cache.frothy_blocks h ≡ none)
    → Reach s0 s
    → IsLinked s.blocks
    → find_block hash s.blocks ≡ some b
    → (store_get table id hash s).0 ≡ ok (some v)
    → v.id ≡ id
    → ((store_remove table id hash number s).0 ≡ ok tt)
      × ((store_get table id hash (store_remove table id hash number s).1).0 ≡ ok none)
unfolding store_get store_remove save_and_cache save_entity
store_remove-get s0 s table id hash number b v empty reach linked found there same = (
  ap (λ (r : Result Unit × Store). r.0) removed,
  ap (λ (r : Result Unit × Store). (store_get table id hash r.1).0) removed
      ∙ read_then (get_model_entity table id (some hash)) (save_and_cache table d u).1
          (some (row_of d false false))
          (subst
            (λ i.
              (get_model_entity table i (some hash) (save_and_cache table d u).1).0
              ≡ ok (some (row_of d false false)))
            same
            (save_and_cache-get s0 u table d b empty (next reach (reads table id (some hash) s))
              (subst IsLinked (sym unread.blocks) linked)
              (ap (find_block hash) unread.blocks ∙ found) (λ old _. refl))),
)
  where
    d : EntityData
    d = removal hash number v

    u : Store
    u = (get_model_entity table id (some hash) s).1

    unread : IsRead s u
    unread = get_model_entity-IsRead table id (some hash) s

    removed : store_remove table id hash number s ≡ save_and_cache table d u
    removed =
        bind_ok (store_get table id hash)
          (λ found. elim found as (λ _. Action Store Unit) [
            | none ↦ pure tt
            | some w ↦ save_and_cache table (removal hash number w)
          ])
          {s = s} (read_ok (get_model_entity table id (some hash)) s (some v) there)
