-- ===== src/Entity/Tests.antt =====
-- Entity versions at work, and the theorem about them at a concrete input.
use watcher_ts.Common.{ℕ, ◌≡◌, refl, true, false, none, some, Option, List, [], ◌∷◌, ok}
use watcher_ts.Common.Int.{ℤ, pos, negsuc, ◌+ℤ◌}
use watcher_ts.Tables.{BlockProgress}
use watcher_ts.Blocks.{ancestry}
use watcher_ts.Entity.{Version, get_prev_entity_version, get_latest_pruned_entity}
use watcher_ts.Entity.Seen.{Sees, get_prev_entity_version-Sees}
use watcher_ts.Blocks.Ancestor.{is_linked-IsLinked}

abbrev block : ℕ → ℕ → ℤ → BlockProgress
block hash parent number = record {
  id = hash;
  cid = none;
  block_hash = hash;
  parent_hash = parent;
  block_number = number;
  block_timestamp = pos 0;
  num_events = 0;
  num_processed_events = 0;
  last_processed_event_index = negsuc 0;
  is_complete = true;
  is_pruned = false;
}

-- Blocks 2 and 3 are siblings on top of block 1.
abbrev fork : List BlockProgress
fork = block 1 9 (pos 10) ∷ block 2 1 (pos 11) ∷ block 3 1 (pos 11) ∷ []

abbrev version : ℕ → ℕ → ℤ → ℕ → Version
version id hash number value = record {
  id = id;
  block_hash = hash;
  block_number = number;
  is_pruned = false;
  is_removed = false;
  value = value;
}

own_version :
    get_prev_entity_version fork (version 5 1 (pos 10) 70 ∷ version 5 3 (pos 11) 71 ∷ []) 2 5
    ≡ ok (some (version 5 1 (pos 10) 70))
unfolding get_prev_entity_version ancestry
own_version = refl

-- Block 2 is given the version that its sibling wrote, since no block below it has one.
sibling_version :
    get_prev_entity_version fork (version 5 3 (pos 11) 71 ∷ []) 2 5
    ≡ ok (some (version 5 3 (pos 11) 71))
unfolding get_prev_entity_version get_latest_pruned_entity ◌+ℤ◌
sibling_version = refl

-- Versions in the table of blocks that are not there: the lower one, a pruned one, and a higher one.
abbrev old_versions : List Version
old_versions =
    version 5 8 (pos 3) 60
    ∷ record (version 5 6 (pos 9) 62) { is_pruned = true }
    ∷ version 5 7 (pos 8) 61
    ∷ []

latest_test : get_prev_entity_version fork old_versions 2 5 ≡ ok (some (version 5 7 (pos 8) 61))
unfolding get_prev_entity_version get_latest_pruned_entity ◌+ℤ◌
latest_test = refl

get_prev_entity_version-Sees_example :
    (o : Option Version) × (get_prev_entity_version fork old_versions 2 5 ≡ ok o)
    × Sees old_versions 5 (pos 10 +ℤ pos 1) (block 2 1 (pos 11) ∷ block 1 9 (pos 10) ∷ []) o
unfolding ancestry
get_prev_entity_version-Sees_example =
    get_prev_entity_version-Sees fork old_versions 2 5 (block 2 1 (pos 11))
      (is_linked-IsLinked fork refl) refl
