-- ===== src/EntityCache/Tests.antt =====
-- The cache of entities at work, and the theorems about it at concrete inputs.
use watcher_ts.Common.{
  Bool-cases, inl, inr, ℕ, ◌≡◌, refl, true, false, none, some, List, [], ◌∷◌, ok, arith, ◌==◌,
  if◌then◌else◌,
}
use watcher_ts.Common.Int.{ℤ, pos, negsuc, ◌+ℤ◌}
use watcher_ts.Tables.{BlockProgress}
use watcher_ts.Blocks.{ancestry}
use watcher_ts.Blocks.Ancestor.{is_linked-IsLinked}
use watcher_ts.Entity.{
  Version, get_prev_entity_version, get_frothy_entity, get_latest_pruned_entity,
}
use watcher_ts.EntityCache.{
  put_entity, FrothyBlock, EntityCache, Store, EntityData, walk_frothy, cache_updated_entity,
  update_entity_cache_frothy_blocks, prune_entity_cache_frothy_blocks, get_model_entity,
  save_entity, save_and_cache, store_get, store_set, store_remove,
}
use watcher_ts.EntityCache.Coherent.{KeepsBlock}
use watcher_ts.EntityCache.Steps.{changes, Reach, here, next, caches_block, saves}
use watcher_ts.EntityCache.Transparent.{get_model_entity-transparent}
use watcher_ts.EntityCache.Written.{store_set-get}
use watcher_ts.EntityCache.Pruned.{cached_answer, IsFalling, child, prune_entity_cache-answer}

abbrev block : ℕ → ℕ → ℤ → BlockProgress
block hash parent number = record {
  id = hash;
  cid = none;
  block_hash = hash;
  parent_hash = parent;
  block_number = number;
  block_timestamp = pos 0;
  num_events = 0;
  num_processed_events = 0;
  last_processed_event_index = negsuc 0;
  is_complete = false;
  is_pruned = false;
}

-- Blocks 2 and 3 are siblings on top of block 1.
abbrev fork : List BlockProgress
fork = block 1 9 (pos 10) ∷ block 2 1 (pos 11) ∷ block 3 1 (pos 11) ∷ []

abbrev version : ℕ → ℕ → ℤ → ℕ → Version
version id hash number value = record {
  id = id;
  block_hash = hash;
  block_number = number;
  is_pruned = false;
  is_removed = false;
  value = value;
}

-- The cache has an entity of the pruned region, and no block.
abbrev start : Store
start = record {
  blocks = fork;
  versions = λ t. [];
  cache = record {
    frothy_blocks = λ h. none;
    latest_pruned_entities = put_entity 4 (version 6 8 (pos 9) 60) none;
  };
}

abbrev caches : BlockProgress → Store → Store
unfolding update_entity_cache_frothy_blocks
caches b s = record s { cache = update_entity_cache_frothy_blocks b 1000 s.cache }

-- A block without an entity: a sibling's version is read, and is then the latest one of the cache.
sibling_test :
    (store_get 4 5 2 (
      caches
        (block 2 1 (pos 11))
        (store_set 4 5 3 (pos 11) 70 (caches (block 3 1 (pos 11)) start)).1)).0
    ≡ ok (some (version 5 3 (pos 11) 70))
unfolding store_get store_set get_model_entity save_and_cache save_entity cache_updated_entity
    caches walk_frothy get_latest_pruned_entity update_entity_cache_frothy_blocks ◌+ℤ◌
sibling_test = refl

-- Set after it was removed in one block: not removed in the cache, and removed in the database.
abbrev set_again : Store
unfolding store_get store_set store_remove get_model_entity save_and_cache save_entity caches
set_again =
    (store_set 4 5 2 (pos 11) 72
      (store_remove 4 5 2 (pos 11)
        (store_set 4 5 2 (pos 11) 70 (caches (block 2 1 (pos 11)) start)).1).1).1

set_again_test :
    ((store_get 4 5 2 set_again).0 ≡ ok (some (version 5 2 (pos 11) 72)))
    × (get_prev_entity_version set_again.blocks (set_again.versions 4) 2 5
        ≡ ok (some (record (version 5 2 (pos 11) 72) { is_removed = true })))
unfolding store_get store_set store_remove get_model_entity save_and_cache save_entity
    cache_updated_entity caches walk_frothy update_entity_cache_frothy_blocks set_again
    get_prev_entity_version get_frothy_entity get_latest_pruned_entity ◌+ℤ◌
set_again_test = (refl, refl)

abbrev with_parent : Store
with_parent = caches (block 1 9 (pos 10)) start

abbrev saved_entity : EntityData
saved_entity = record {
  id = 5;
  block_hash = 1;
  block_number = pos 10;
  is_pruned = none;
  is_removed = none;
  value = 70;
}

abbrev with_version : Store
unfolding save_and_cache
with_version = (save_and_cache 4 saved_entity with_parent).1

-- Block 1 is complete, as a parent is before its child is indexed.
abbrev complete : BlockProgress → BlockProgress
complete b = record b { is_complete = true }

abbrev completed_fork : List BlockProgress
completed_fork = complete (block 1 9 (pos 10)) ∷ block 2 1 (pos 11) ∷ block 3 1 (pos 11) ∷ []

abbrev with_complete : Store
with_complete = record with_version { blocks = completed_fork }

abbrev with_child : Store
with_child = caches (block 2 1 (pos 11)) with_complete

with_version-Reach : Reach start with_version
unfolding caches with_version update_entity_cache_frothy_blocks save_and_cache
with_version-Reach =
    next
      (next here (caches_block (block 1 9 (pos 10)) 1000 start refl (omega arith) (λ _ t i. refl)))
      (saves 4 saved_entity with_parent (λ old e. absurd (ground (arith, e))))

with_complete-keeps : (hash : ℕ) → KeepsBlock hash fork completed_fork
with_complete-keeps hash b found = elim (Bool-cases (1 == hash)) [
  | inl first ↦ (
    complete (block 1 9 (pos 10)),
    ground (arith, first),
    ground (arith, first, found),
    ground (arith, first, found),
  )
  | inr other ↦ (b, ground (arith, other, found), refl, refl)
]

with_complete-Reach : Reach start with_complete
unfolding caches with_version update_entity_cache_frothy_blocks save_and_cache
with_complete-Reach = next with_version-Reach (
    changes with_version with_complete refl
      (λ hash fb e. (with_complete-keeps hash, (λ table id. refl))))

with_child-Reach : Reach start with_child
unfolding caches with_version update_entity_cache_frothy_blocks save_and_cache save_entity
    cache_updated_entity
with_child-Reach = next with_complete-Reach (
    caches_block (block 2 1 (pos 11)) 1000 with_complete refl (omega arith) (λ _ t i. ground arith))

get_model_entity-transparent_example :
    ((get_model_entity 4 5 (some 2) with_child).0 ≡ ok (some (version 5 1 (pos 10) 70)))
    × (get_prev_entity_version completed_fork (with_child.versions 4) 2 5
        ≡ ok (some (version 5 1 (pos 10) 70)))
unfolding caches with_version update_entity_cache_frothy_blocks save_and_cache save_entity
    cache_updated_entity ancestry
get_model_entity-transparent_example =
    get_model_entity-transparent start with_child 4 5 2 1 (block 2 1 (pos 11))
      (version 5 1 (pos 10) 70) (λ h. refl) with_child-Reach
      (is_linked-IsLinked completed_fork refl) (omega arith) refl
      (λ e. ground (arith, e), (λ e. ground (arith, e), tt)) refl

store_set-get_example :
    (store_get 4 5 2 (store_set 4 5 2 (pos 11) 71 with_child).1).0
    ≡ ok (some (version 5 2 (pos 11) 71))
unfolding caches with_version update_entity_cache_frothy_blocks save_and_cache save_entity
    cache_updated_entity
store_set-get_example =
    store_set-get start with_child 4 5 2 (pos 11) 71 (block 2 1 (pos 11)) (λ h. refl)
      with_child-Reach (is_linked-IsLinked completed_fork refl) refl
      (λ old e. absurd (ground (arith, e)))

abbrev parent_block : FrothyBlock
parent_block = record {
  block_number = pos 10;
  parent_hash = 9;
  entities = put_entity 4 (version 5 1 (pos 10) 70) none;
}

abbrev child_block : FrothyBlock
child_block = record { block_number = pos 11; parent_hash = 1; entities = none }

abbrev two_blocks : EntityCache
two_blocks = record {
  frothy_blocks =
      λ h. if h == 1 then some parent_block else if h == 2 then some child_block else none;
  latest_pruned_entities = put_entity 4 (version 5 8 (pos 9) 60) none;
}

two_blocks-IsFalling : IsFalling two_blocks
two_blocks-IsFalling = record {
  lower = λ h p fb fp e f. ground (arith, e, f);
  nonneg = λ h fb e. ground (arith, e);
}

prune_entity_cache-answer_example :
    cached_answer (prune_entity_cache_frothy_blocks 1 (pos 10) two_blocks) 4 5 2
    ≡ cached_answer two_blocks 4 5 2
prune_entity_cache-answer_example =
    prune_entity_cache-answer two_blocks two_blocks-IsFalling 1 (pos 10) parent_block refl refl refl
      4 5 2 child_block (child 2 child_block refl refl)
