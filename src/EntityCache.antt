-- ===== src/EntityCache.antt =====
-- The cache of subgraph entities, packages/util/src/graph/database.ts, and the reads and writes of
-- mapping code through it, packages/graph-node/src/loader.ts. A name of a table is a number.
pub mod Saved
pub mod Coherent
pub mod Steps
pub mod Transparent
pub mod Written
pub mod Pruned
mod Tests
use watcher_ts.Common.{
  ℕ, zero, suc, ◌%◌, ◌+◌, Bool, true, false, not, ◌&&◌, ◌||◌, ◌==◌, Option, none, some, List, [],
  ◌∷◌, ◌++◌, map, filter, if◌then◌else◌, set_at, Action, Result, ok, err, pure, modify, gets, ◌>>=◌,
  ◌>>◌, out_of_fuel,
}
use watcher_ts.Common.Int.{ℤ, pos, negsuc, pos_part, neg_part, ◌+ℤ◌, ltb_ℤ, leb_ℤ}
use watcher_ts.Tables.{BlockProgress}
use watcher_ts.Entity.{
  Version, find_version, highest_version, get_latest_pruned_entity, get_prev_entity_version,
}

-- `Map<string, Map<string, ..>>`, from a table's name and an id. The maps inside are never empty, so
-- `none` is the map of size 0.
abbrev pub Entities : Type 0
Entities = Option (ℕ → ℕ → Option Version)

abbrev pub entity_at : Entities → ℕ → ℕ → Option Version
entity_at none table id = none
entity_at (some at) table id = at table id

abbrev pub put_entity : ℕ → Version → Entities → Entities
put_entity table v entities =
    some (λ t i. if t == table && i == v.id then some v else entity_at entities t i)

pub record FrothyBlock : Type 0 where
  pub block_number : ℤ
  pub parent_hash : ℕ
  pub entities : Entities

-- `CachedEntities`
pub record EntityCache : Type 0 where
  pub frothy_blocks : ℕ → Option FrothyBlock
  pub latest_pruned_entities : Entities

-- The database and the cache.
pub record Store : Type 0 where
  pub blocks : List BlockProgress
  pub versions : ℕ → List Version
  pub cache : EntityCache

abbrev pub put_in_block : ℕ → Version → Option FrothyBlock → EntityCache → EntityCache
put_in_block table v none c = c
put_in_block table v (some fb) c = record c {
  frothy_blocks =
      set_at v.block_hash (some (record fb { entities = put_entity table v fb.entities }))
        c.frothy_blocks;
}

abbrev pub put_pruned : ℕ → Version → EntityCache → EntityCache
put_pruned table v c = record c {
  latest_pruned_entities = put_entity table v c.latest_pruned_entities;
}

-- A block that is not in the cache is not added.
unfoldable pub cache_updated_entity : ℕ → Version → Bool → EntityCache → EntityCache
cache_updated_entity table v true c = put_pruned table v c
cache_updated_entity table v false c = put_in_block table v (c.frothy_blocks v.block_hash) c

-- `n % interval === 0`, which is false for an interval of 0.
abbrev pub is_multiple : ℤ → ℕ → Bool
is_multiple n interval = not (interval == 0) && (pos_part n + neg_part n) % interval == 0

abbrev pub add_block : BlockProgress → Option FrothyBlock → EntityCache → EntityCache
add_block b (some _) c = c
add_block b none c = record c {
  frothy_blocks =
      set_at b.block_hash
        (some
          (record { block_number = b.block_number; parent_hash = b.parent_hash; entities = none }))
        c.frothy_blocks;
}

abbrev pub clear_if : Bool → EntityCache → EntityCache
clear_if b c = record c { latest_pruned_entities = if b then none else c.latest_pruned_entities }

unfoldable pub update_entity_cache_frothy_blocks : BlockProgress → ℕ → EntityCache → EntityCache
update_entity_cache_frothy_blocks b interval c =
    clear_if (is_multiple b.block_number interval) (add_block b (c.frothy_blocks b.block_hash) c)

-- The entities of a block over those that are there.
abbrev pub over : Entities → Entities → Entities
over none entities = entities
over (some at) entities =
    some (λ table id. elim (at table id) [ some v ↦ some v | none ↦ entity_at entities table id ])

abbrev pub entities_of : Option FrothyBlock → Entities
entities_of none = none
entities_of (some fb) = fb.entities

abbrev pub keep_above : ℤ → Option FrothyBlock → Option FrothyBlock
keep_above number none = none
keep_above number (some fb) = if leb_ℤ fb.block_number number then none else some fb

unfoldable pub prune_entity_cache_frothy_blocks : ℕ → ℤ → EntityCache → EntityCache
prune_entity_cache_frothy_blocks hash number c = record {
  frothy_blocks = λ h. keep_above number (c.frothy_blocks h);
  latest_pruned_entities = over (entities_of (c.frothy_blocks hash)) c.latest_pruned_entities;
}

-- What the loop over parents ends with: an entity, or `canonicalBlockNumber`.
pub data Walk : Type 0 where
  hit : Version → Walk
  below : ℤ → Walk
  no_fuel : Walk

unfoldable pub walk_frothy : ℕ → EntityCache → ℕ → ℕ → ℕ → ℤ → Walk
walk_frothy zero c table id hash canonical = no_fuel
walk_frothy (suc fuel) c table id hash canonical = elim (c.frothy_blocks hash) [
  | none ↦ below canonical
  | some fb ↦ elim (entity_at fb.entities table id) [
    | some v ↦ hit v
    | none ↦ walk_frothy fuel c table id fb.parent_hash (fb.block_number +ℤ pos 1)
  ]
]

-- Where the numbers of parents are lower, and none is negative, a walk has no more rounds.
abbrev pub walk_rounds : Option FrothyBlock → ℕ
walk_rounds none = 1
walk_rounds (some fb) = suc (suc (pos_part fb.block_number))

-- The latest version before the frothy region, which is taken into the cache.
abbrev pub cache_found : ℕ → Option Version → Store → Store
cache_found table none s = s
cache_found table (some v) s = record s { cache = cache_updated_entity table v true s.cache }

abbrev pub read_pruned : ℕ → ℕ → ℤ → Option Version → Action Store (Option Version)
read_pruned table id canonical (some v) s = (ok (some v), s)
read_pruned table id canonical none s =
    let found = get_latest_pruned_entity (s.versions table) id canonical in
    (ok found, cache_found table found s)

abbrev pub read_database : ℕ → ℕ → ℕ → Action Store (Option Version)
read_database table id hash s = (get_prev_entity_version s.blocks (s.versions table) hash id, s)

abbrev pub read_walked : ℕ → ℕ → ℕ → Walk → Action Store (Option Version)
read_walked table id hash no_fuel s = (err out_of_fuel, s)
read_walked table id hash (hit v) s = (ok (some v), s)
read_walked table id hash (below canonical) s =
    if ltb_ℤ (negsuc 0) canonical
    then read_pruned table id canonical (entity_at s.cache.latest_pruned_entities table id) s
    else read_database table id hash s

abbrev pub read_cached : ℕ → ℕ → ℕ → Entities → Action Store (Option Version)
read_cached table id hash none s = read_database table id hash s
read_cached table id hash (some _) s =
    read_walked table id hash
      (walk_frothy (walk_rounds (s.cache.frothy_blocks hash)) s.cache table id hash (negsuc 0)) s

-- With no hash, `findOne` with the highest number first.
unfoldable pub get_model_entity : ℕ → ℕ → Option ℕ → Action Store (Option Version)
unfolding walk_frothy
get_model_entity table id none s =
    (ok (highest_version (filter (λ v. v.id == id) (s.versions table))), s)
get_model_entity table id (some hash) s = read_cached table id hash s.cache.latest_pruned_entities s

-- What is saved: of a column that is undefined, a new row has the default and a row that is there
-- keeps its own.
pub record EntityData : Type 0 where
  pub id : ℕ
  pub block_hash : ℕ
  pub block_number : ℤ
  pub is_pruned : Option Bool
  pub is_removed : Option Bool
  pub value : ℕ

abbrev pub flag : Option Bool → Bool → Bool
flag none b = b
flag (some b) _ = b

abbrev pub row_of : EntityData → (pruned removed : Bool) → Version
row_of d pruned removed = record {
  id = d.id;
  block_hash = d.block_hash;
  block_number = d.block_number;
  is_pruned = flag d.is_pruned pruned;
  is_removed = flag d.is_removed removed;
  value = d.value;
}

abbrev pub upsert : EntityData → Option Version → List Version → List Version
upsert d none versions = versions ++ row_of d false false ∷ []
upsert d (some old) versions =
    map
      (λ v.
        if v.id == d.id && v.block_hash == d.block_hash
        then row_of d old.is_pruned old.is_removed
        else v)
      versions

-- The object that `repo.save` gives back has the columns that were saved, and the defaults of a new
-- row; a flag that is undefined is read as false.
unfoldable pub save_entity : ℕ → EntityData → Action Store Version
save_entity table d s =
    let rows = s.versions table in
    (
      ok (row_of d false false),
      record s {
        versions = λ t.
            if t == table
            then upsert d (find_version rows d.id d.block_hash) rows
            else s.versions t;
      },
    )

unfoldable pub save_and_cache : ℕ → EntityData → Action Store Unit
unfolding save_entity cache_updated_entity
save_and_cache table d = do
  v ← save_entity table d
  modify (λ s. record s { cache = cache_updated_entity table v false s.cache })

abbrev pub present : Option Version → Option Version
present none = none
present (some v) = if v.is_removed then none else some v

-- `getEntity` with the hash of the block of the context: none that is marked as removed.
unfoldable pub store_get : ℕ → ℕ → ℕ → Action Store (Option Version)
unfolding get_model_entity
store_get table id hash = do found ← get_model_entity table id (some hash); pure (present found)

-- The id is that of the entity that is set.
unfoldable pub store_set : ℕ → ℕ → ℕ → ℤ → ℕ → Action Store Unit
unfolding save_and_cache
store_set table id hash number value = save_and_cache table (record {
  id = id;
  block_hash = hash;
  block_number = number;
  is_pruned = none;
  is_removed = none;
  value = value;
})

-- The entity that is there, as removed at the block.
abbrev pub removal : ℕ → ℤ → Version → EntityData
removal hash number v = record {
  id = v.id;
  block_hash = hash;
  block_number = number;
  is_pruned = some v.is_pruned;
  is_removed = some true;
  value = v.value;
}

unfoldable pub store_remove : ℕ → ℕ → ℕ → ℤ → Action Store Unit
unfolding store_get save_and_cache
store_remove table id hash number = do
  found ← store_get table id hash
  elim found [ none ↦ pure tt | some v ↦ save_and_cache table (removal hash number v) ]
