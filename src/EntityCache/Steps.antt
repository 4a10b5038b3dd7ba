-- ===== src/EntityCache/Steps.antt =====
-- The states that are reached from an empty cache are coherent.
use watcher_ts.Common.{
  ℕ, Bool, true, false, Option, none, some, ◌≡◌, refl, sym, ap, ◌∙◌, if◌then◌else◌,
}
use watcher_ts.Common.Int.{ℤ, pos, negsuc, ◌≤ℤ◌, ltb_ℤ}
use watcher_ts.Tables.{BlockProgress}
use watcher_ts.Blocks.{find_block}
use watcher_ts.Entity.{Version, find_version, get_latest_pruned_entity}
use watcher_ts.EntityCache.{
  Entities, entity_at, FrothyBlock, EntityCache, Store, cache_updated_entity,
  update_entity_cache_frothy_blocks, prune_entity_cache_frothy_blocks, cache_found, read_pruned,
  read_database, read_walked, read_cached, walk_frothy, walk_rounds, Walk, hit, below, no_fuel,
  get_model_entity, EntityData, save_and_cache,
}
use watcher_ts.EntityCache.Saved.{IsClean}
use watcher_ts.EntityCache.Coherent.{
  IsCoherent, KeepsBlock, KeepsBlock-same, IsAt-change, caches_block-IsCoherent, saves-IsCoherent,
  prunes-IsCoherent,
}

-- What happens to the database and the cache: a block is taken into the cache that has no versions
-- yet, an entity is saved, read, the cache is pruned, and other changes that leave the cached
-- blocks with their numbers and parents, and their versions, such as blocks that are saved, that
-- become complete, or that are marked as pruned.
pub data Step : Store → Store → Type 0 where
  caches_block :
      (b : BlockProgress) (interval : ℕ) (s : Store)
      → find_block b.block_hash s.blocks ≡ some b
      → pos 0 ≤ℤ b.block_number
      → (s.cache.frothy_blocks b.block_hash ≡ none
          → (table id : ℕ) → find_version (s.versions table) id b.block_hash ≡ none)
      → Step s (record s { cache = update_entity_cache_frothy_blocks b interval s.cache })
  saves :
      (table : ℕ) (d : EntityData) (s : Store)
      → IsClean d (s.versions table)
      → Step s (save_and_cache table d s).1
  reads : (table id : ℕ) (hash : Option ℕ) (s : Store) → Step s (get_model_entity table id hash s).1
  prunes :
      (hash : ℕ) (number : ℤ) (s : Store)
      → Step s (record s { cache = prune_entity_cache_frothy_blocks hash number s.cache })
  changes :
      (s t : Store)
      → t.cache ≡ s.cache
      → ((hash : ℕ) (fb : FrothyBlock)
          → s.cache.frothy_blocks hash ≡ some fb
          → KeepsBlock hash s.blocks t.blocks
            × ((table id : ℕ)
                → find_version (t.versions table) id hash
                  ≡ find_version (s.versions table) id hash))
      → Step s t

pub data Reach : Store → Store → Type 0 where
  here : {s : Store} → Reach s s
  next : {s t u : Store} → Reach s t → Step t u → Reach s u

-- A read leaves the blocks of the cache and the database.
pub record IsRead (s t : Store) : Type 0 where
  pub blocks : t.blocks ≡ s.blocks
  pub versions : t.versions ≡ s.versions
  pub frothy : t.cache.frothy_blocks ≡ s.cache.frothy_blocks

IsRead-refl : (s : Store) → IsRead s s
IsRead-refl s = record { blocks = refl; versions = refl; frothy = refl }

pub get_model_entity-IsRead :
    (table id : ℕ) (hash : Option ℕ) (s : Store) → IsRead s (get_model_entity table id hash s).1
unfolding get_model_entity cache_updated_entity
get_model_entity-IsRead table id none s = IsRead-refl s
get_model_entity-IsRead table id (some hash) s = cached s.cache.latest_pruned_entities
  where
    taken : (found : Option Version) → IsRead s (cache_found table found s)
    taken none = IsRead-refl s
    taken (some v) = record { blocks = refl; versions = refl; frothy = refl }

    pruned : (n : ℤ) (found : Option Version) → IsRead s (read_pruned table id n found s).1
    pruned n (some v) = IsRead-refl s
    pruned n none = taken (get_latest_pruned_entity (s.versions table) id n)

    chosen :
        (n : ℤ) (b : Bool)
        → IsRead s
            (if b
              then read_pruned table id n (entity_at s.cache.latest_pruned_entities table id) s
              else read_database table id hash s).1
    chosen n true = pruned n (entity_at s.cache.latest_pruned_entities table id)
    chosen n false = IsRead-refl s

    walked : (w : Walk) → IsRead s (read_walked table id hash w s).1
    walked (hit v) = IsRead-refl s
    walked no_fuel = IsRead-refl s
    walked (below n) = chosen n (ltb_ℤ (negsuc 0) n)

    cached : (pruned : Entities) → IsRead s (read_cached table id hash pruned s).1
    cached none = IsRead-refl s
    cached (some _) =
        walked
          (walk_frothy (walk_rounds (s.cache.frothy_blocks hash)) s.cache table id hash (negsuc 0))

reads-IsCoherent :
    (table id : ℕ) (hash : Option ℕ) (s : Store)
    → IsCoherent s
    → IsCoherent (get_model_entity table id hash s).1
reads-IsCoherent table id hash s c h fb e =
    let t = (get_model_entity table id hash s).1 in
    let r = get_model_entity-IsRead table id hash s in
    IsAt-change s t h fb (KeepsBlock-same h s.blocks t.blocks (ap (find_block h) r.blocks))
      (λ tb i. ap (λ rows. find_version (rows tb) i h) r.versions)
      (c h fb (sym (ap (λ f. f h) r.frothy) ∙ e))

Step-IsCoherent : {s t : Store} → Step s t → IsCoherent s → IsCoherent t
Step-IsCoherent (caches_block b interval s found nonneg fresh) c =
    caches_block-IsCoherent b interval s found nonneg fresh c
Step-IsCoherent (saves table d s clean) c = saves-IsCoherent table d s clean c
Step-IsCoherent (reads table id hash s) c = reads-IsCoherent table id hash s c
Step-IsCoherent (prunes hash number s) c = prunes-IsCoherent hash number s c
Step-IsCoherent (changes s t cache keeps) c = λ h fb e.
    let there = sym (ap (λ (k : EntityCache). k.frothy_blocks h) cache) ∙ e in
    let (block, versions) = keeps h fb there in IsAt-change s t h fb block versions (c h fb there)

pub Reach-IsCoherent : {s t : Store} → Reach s t → IsCoherent s → IsCoherent t
Reach-IsCoherent here c = c
Reach-IsCoherent (next r step) c = Step-IsCoherent step (Reach-IsCoherent r c)
