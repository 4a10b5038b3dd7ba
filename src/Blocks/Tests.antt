-- ===== src/Blocks/Tests.antt =====
-- The block queries at work, and the theorems about them at concrete inputs.
use watcher_ts.Common.{
  arith, ℕ, ◌≡◌, refl, true, false, none, some, List, [], ◌∷◌, ok, get_elem?, leb, if◌then◌else◌,
}
use watcher_ts.Common.Int.{ℤ, pos, negsuc, ◌+ℤ◌, ◌-ℤ◌, ◌≤ℤ◌, ◌<ℤ◌}
use watcher_ts.Tables.{BlockProgress, Db}
use watcher_ts.Blocks.{parent_of, last_of, frothy_rows, get_ancestor_at_height, get_frothy_region}
use watcher_ts.Blocks.Ancestor.{Ancestor, is_linked-IsLinked, get_ancestor_at_height-Ancestor}
use watcher_ts.Blocks.Region.{hash_of, parent_times, get_frothy_region-parents}

abbrev block : ℕ → ℕ → ℤ → BlockProgress
block hash parent number = record {
  id = hash;
  cid = none;
  block_hash = hash;
  parent_hash = parent;
  block_number = number;
  block_timestamp = pos 0;
  num_events = 0;
  num_processed_events = 0;
  last_processed_event_index = negsuc 0;
  is_complete = true;
  is_pruned = false;
}

-- The block of number 12 is missing: its round was empty.
abbrev chain : Db
chain = record {
  sync_status = none;
  state_sync_status = none;
  blocks = block 1 9 (pos 10) ∷ block 2 1 (pos 11) ∷ block 3 1 (pos 11) ∷ block 4 2 (pos 13) ∷ [];
  events = [];
  contracts = [];
}

ancestor_at_11 : get_ancestor_at_height 4 (pos 11) chain ≡ (ok 2, chain)
unfolding get_ancestor_at_height ◌-ℤ◌
ancestor_at_11 = refl

ancestor_at_12 : get_ancestor_at_height 4 (pos 12) chain ≡ (ok 4, chain)
unfolding get_ancestor_at_height ◌-ℤ◌
ancestor_at_12 = refl

region_of_4 : get_frothy_region 4 chain ≡ (ok (pos 11, 4 ∷ 2 ∷ 1 ∷ []), chain)
unfolding get_frothy_region ◌+ℤ◌
region_of_4 = refl

get_ancestor_at_height-Ancestor_example :
    (a : BlockProgress) × (get_ancestor_at_height 4 (pos 11) chain ≡ (ok a.block_hash, chain))
    × Ancestor chain.blocks (block 4 2 (pos 13)) a
    × (pos 11 ≤ℤ a.block_number)
    × ((p : BlockProgress) → parent_of chain.blocks a ≡ some p → p.block_number <ℤ pos 11)
get_ancestor_at_height-Ancestor_example =
    get_ancestor_at_height-Ancestor 4 (pos 11) chain (block 4 2 (pos 13))
      (is_linked-IsLinked chain.blocks refl) refl (omega arith)

get_frothy_region-parents_example :
    (number : ℤ) × (hashes : List ℕ) × (get_frothy_region 4 chain ≡ (ok (number, hashes), chain))
    × ((k : ℕ)
        → get_elem? hashes k
          ≡ (if leb k 15 then hash_of (parent_times k chain.blocks (block 4 2 (pos 13))) else none))
    × (number
        ≡ (last_of
            (block 4 2 (pos 13))
            (frothy_rows chain.blocks (block 4 2 (pos 13)))).block_number
          +ℤ pos 1)
get_frothy_region-parents_example = get_frothy_region-parents 4 chain (block 4 2 (pos 13)) refl
