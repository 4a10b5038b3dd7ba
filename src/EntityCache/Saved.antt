-- ===== src/EntityCache/Saved.antt =====
-- What is found of an entity after one was saved.
use watcher_ts.Common.{
  ℕ, Bool, true, false, ◌&&◌, ◌==◌, Option, none, some, List, [], ◌∷◌, ◌++◌, map, ◌≡◌, refl, arith,
  if◌then◌else◌, Bool-cases, ◌⊎◌, inl, inr,
}
use watcher_ts.Entity.{Version, find_version}
use watcher_ts.EntityCache.{EntityData, row_of, upsert}

abbrev pub is_of : EntityData → ℕ → ℕ → Bool
is_of d id hash = d.id == id && d.block_hash == hash

find_version-append :
    (rows : List Version) (v : Version) (id hash : ℕ)
    → find_version (rows ++ v ∷ []) id hash ≡ elim (find_version rows id hash) [
      | some w ↦ some w
      | none ↦ if v.id == id && v.block_hash == hash then some v else none
    ]
find_version-append [] v id hash = ground arith
find_version-append (r ∷ rows) v id hash = ground (arith, find_version-append rows v id hash)

find_version-replace :
    (rows : List Version) (d : EntityData) (pruned removed : Bool) (id hash : ℕ)
    → find_version
        (map
          (λ v. if v.id == d.id && v.block_hash == d.block_hash then row_of d pruned removed else v)
          rows)
        id
        hash
      ≡ (if is_of d id hash
          then elim (find_version rows id hash) [
            | none ↦ none
            | some _ ↦ some (row_of d pruned removed)
          ]
          else find_version rows id hash)
find_version-replace [] d pruned removed id hash = ground arith
find_version-replace (r ∷ rows) d pruned removed id hash =
    ground (arith, find_version-replace rows d pruned removed id hash)

-- A row that is there has the flags that the saved object is given back with.
abbrev pub IsClean : EntityData → List Version → Type 0
IsClean d rows =
    (old : Version)
    → find_version rows d.id d.block_hash ≡ some old
    → row_of d old.is_pruned old.is_removed ≡ row_of d false false

pub find_version-upsert :
    (d : EntityData) (rows : List Version) (id hash : ℕ)
    → IsClean d rows
    → find_version (upsert d (find_version rows d.id d.block_hash) rows) id hash
      ≡ (if is_of d id hash then some (row_of d false false) else find_version rows id hash)
find_version-upsert d rows id hash clean =
    step (find_version rows d.id d.block_hash) refl (Bool-cases (is_of d id hash))
  where
    own : is_of d id hash ≡ true → find_version rows d.id d.block_hash ≡ find_version rows id hash
    own same = ground (arith, same)

    step :
        (found : Option Version)
        → find_version rows d.id d.block_hash ≡ found
        → (is_of d id hash ≡ true) ⊎ (is_of d id hash ≡ false)
        → find_version (upsert d found rows) id hash
          ≡ (if is_of d id hash then some (row_of d false false) else find_version rows id hash)
    step none e (inl same) =
        ground (arith, find_version-append rows (row_of d false false) id hash, own same, e, same)
    step none e (inr other) =
        ground (arith, find_version-append rows (row_of d false false) id hash, other)
    step (some old) e (inl same) = ground (
      arith,
      find_version-replace rows d old.is_pruned old.is_removed id hash,
      own same,
      e,
      same,
      clean old e,
    )
    step (some old) e (inr other) =
        ground (arith, find_version-replace rows d old.is_pruned old.is_removed id hash, other)
