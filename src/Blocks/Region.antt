-- ===== src/Blocks/Region.antt =====
-- The frothy region of a block: its hash and those of its nearest parents.
use watcher_ts.Common.{
  ℕ, zero, suc, ◌≡◌, refl, ap, ◌∙◌, Bool, true, false, Option, none, some, List, [], ◌∷◌, map,
  get_elem?, arith, ok, leb, if◌then◌else◌, Option-cases, inl, inr,
}
use watcher_ts.Common.Int.{ℤ, pos, ◌+ℤ◌}
use watcher_ts.Tables.{BlockProgress, Db}
use watcher_ts.Blocks.{find_block, parent_of, last_of, ancestry, frothy_rows, get_frothy_region}

-- The parent of the parent .. of `b`, `k` times.
abbrev pub parent_times : ℕ → List BlockProgress → BlockProgress → Option BlockProgress
parent_times zero rows b = some b
parent_times (suc k) rows b = elim (parent_of rows b) [
  | none ↦ none
  | some p ↦ parent_times k rows p
]

abbrev pub hash_of : Option BlockProgress → Option ℕ
hash_of none = none
hash_of (some b) = some b.block_hash

hash_of-if :
    (test : Bool) (o : Option BlockProgress)
    → hash_of (if test then o else none) ≡ (if test then hash_of o else none)
hash_of-if true o = refl
hash_of-if false o = refl

get_elem?-hashes :
    (blocks : List BlockProgress) (k : ℕ)
    → get_elem? (map (λ b. b.block_hash) blocks) k ≡ hash_of (get_elem? blocks k)
get_elem?-hashes [] k = refl
get_elem?-hashes (b ∷ blocks) zero = refl
get_elem?-hashes (b ∷ blocks) (suc k) = get_elem?-hashes blocks k

get_elem?-ancestry :
    (rounds k : ℕ) (rows : List BlockProgress) (b : BlockProgress)
    → get_elem? (ancestry rounds rows b) k ≡ (if leb k rounds then parent_times k rows b else none)
unfolding ancestry
get_elem?-ancestry zero zero rows b = refl
get_elem?-ancestry zero (suc k) rows b = ground arith
get_elem?-ancestry (suc rounds) zero rows b = ground arith
get_elem?-ancestry (suc rounds) (suc k) rows b = elim (Option-cases (parent_of rows b)) [
  | inl no_parent ↦ ground arith
  | inr (p, found) ↦ ground (arith, get_elem?-ancestry rounds k rows p)
]

-- The frothy region of a known block has at place `k`, for every `k` below 16, the hash of the
-- parent that is `k` steps up, as far as the table has it, and nothing else; its canonical number
-- is one more than the number of the last block of the region.
pub get_frothy_region-parents :
    (hash : ℕ) (db : Db) (b : BlockProgress)
    → find_block hash db.blocks ≡ some b
    → (number : ℤ) × (hashes : List ℕ) × (get_frothy_region hash db ≡ (ok (number, hashes), db))
      × ((k : ℕ)
          → get_elem? hashes k ≡ (if leb k 15 then hash_of (parent_times k db.blocks b) else none))
      × (number ≡ (last_of b (frothy_rows db.blocks b)).block_number +ℤ pos 1)
unfolding get_frothy_region
get_frothy_region-parents hash db b found = (
  (last_of b (frothy_rows db.blocks b)).block_number +ℤ pos 1,
  map (λ c. c.block_hash) (frothy_rows db.blocks b),
  ground arith,
  (λ k.
      get_elem?-hashes (frothy_rows db.blocks b) k
      ∙ ap hash_of (get_elem?-ancestry 15 k db.blocks b)
      ∙ hash_of-if (leb k 15) (parent_times k db.blocks b)),
  refl,
)
