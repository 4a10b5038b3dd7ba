-- ===== src/Blocks/Ancestor.antt =====
-- The walk of `getAncestorAtHeight` from a block to its ancestor at a height: it ends, and where.
use watcher_ts.Common.{
  Has, first, later, none, all, Bool, true, ℕ, zero, suc, ◌≡◌, refl, ap, ◌∙◌, some, List, [], ◌∷◌,
  arith, ok, Option-cases, Bool-cases, inl, inr,
}
use watcher_ts.Common.Int.{ℤ, pos, ◌≤ℤ◌, ◌<ℤ◌, leb_ℤ, ltb_ℤ, ◌+ℤ◌, int_laws}
use watcher_ts.Tables.{BlockProgress, Db}
use watcher_ts.Blocks.{
  find_block, parent_of, lowest, last_of, rows_down_to, walk_fuel, get_ancestor_at_height,
}

-- A block that the table holds has a higher number than its parent there.
abbrev pub IsLinked : List BlockProgress → Type 0
IsLinked rows =
    (b p : BlockProgress)
    → find_block b.block_hash rows ≡ some b
    → parent_of rows b ≡ some p
    → p.block_number <ℤ b.block_number

pub data Ancestor (rows : List BlockProgress) (b : BlockProgress) : BlockProgress → Type 0 where
  here : Ancestor rows b b
  up : {a p : BlockProgress} → Ancestor rows b a → parent_of rows a ≡ some p → Ancestor rows b p

Ancestor-cons :
    {rows : List BlockProgress} (b : BlockProgress) {p a : BlockProgress}
    → parent_of rows b ≡ some p
    → Ancestor rows p a
    → Ancestor rows b a
Ancestor-cons b h here = up here h
Ancestor-cons b h (up r k) = up (Ancestor-cons b h r) k

-- What a hash finds has that hash, and is found by it.
pub find_block-hash :
    (hash : ℕ) (rows : List BlockProgress) (b : BlockProgress)
    → find_block hash rows ≡ some b
    → b.block_hash ≡ hash
find_block-hash hash [] b h = cc
find_block-hash hash (r ∷ rows) b h = ground (arith, find_block-hash hash rows b)

pub find_block_self :
    (hash : ℕ) (rows : List BlockProgress) (b : BlockProgress)
    → find_block hash rows ≡ some b
    → find_block b.block_hash rows ≡ some b
find_block_self hash rows b found =
    ap (λ h. find_block h rows) (find_block-hash hash rows b found) ∙ found

-- What the walk from `b` found: it ends at the lowest row, which is an ancestor of `b` that is not
-- below `height`, and whose parent, if the table has it, is.
record DownTo (rows : List BlockProgress) (height : ℤ) (b : BlockProgress) (l : List BlockProgress)
    : Type 0 where
  lowest_last : lowest b l ≡ last_of b l
  falls : (last_of b l).block_number ≤ℤ b.block_number
  within : height ≤ℤ (last_of b l).block_number
  reached : Ancestor rows b (last_of b l)
  top : (p : BlockProgress) → parent_of rows (last_of b l) ≡ some p → p.block_number <ℤ height

module _ (rows : List BlockProgress) (height : ℤ) (linked : IsLinked rows) where
  DownTo-cons :
      (b p : BlockProgress) (l : List BlockProgress)
      → parent_of rows b ≡ some p
      → p.block_number <ℤ b.block_number
      → DownTo rows height p l
      → DownTo rows height b (p ∷ l)
  DownTo-cons b p l h lt d = record {
    lowest_last = ground (arith, d.lowest_last, d.falls);
    falls = omega (arith, d.falls);
    within = d.within;
    reached = Ancestor-cons b h d.reached;
    top = d.top;
  }

  DownTo-nil :
      (b : BlockProgress)
      → height ≤ℤ b.block_number
      → ((p : BlockProgress) → parent_of rows b ≡ some p → p.block_number <ℤ height)
      → DownTo rows height b []
  DownTo-nil b le top = record {
    lowest_last = refl;
    falls = omega arith;
    within = le;
    reached = here;
    top = top;
  }

  rows_down_to-DownTo :
      (fuel : ℕ) (b : BlockProgress)
      → find_block b.block_hash rows ≡ some b
      → height ≤ℤ b.block_number
      → b.block_number <ℤ height +ℤ pos fuel
      → (l : List BlockProgress) × (rows_down_to fuel rows height b ≡ some l)
        × DownTo rows height b l
  unfolding rows_down_to
  rows_down_to-DownTo zero b known le short = absurd (omega int_laws)
  rows_down_to-DownTo (suc fuel) b known le short = elim (Option-cases (parent_of rows b)) [
    | inl no_parent ↦ ([], ground arith, DownTo-nil b le (λ p e. cc))
    | inr (p, found) ↦ elim (Bool-cases (leb_ℤ height p.block_number)) [
      | inl above ↦
          let lt = linked b p known found in
          let (l, walked, d) =
            rows_down_to-DownTo fuel p (find_block_self b.parent_hash rows p found) (ground arith)
              (omega int_laws) in
          (p ∷ l, ground arith, DownTo-cons b p l found lt d)
      | inr below ↦ ([], ground arith, DownTo-nil b le (λ q e. ground arith))
    ]
  ]

  -- With the fuel of `get_ancestor_at_height`.
  walk_fuel-DownTo :
      (b : BlockProgress)
      → find_block b.block_hash rows ≡ some b
      → height ≤ℤ b.block_number
      → (l : List BlockProgress) × (rows_down_to (walk_fuel rows height b) rows height b ≡ some l)
        × DownTo rows height b l
  walk_fuel-DownTo b known le =
      rows_down_to-DownTo (walk_fuel rows height b) b known le (omega int_laws)

-- Where every block in the table has a higher number than its parent there, the query for the
-- ancestor of a known block at a height not above it ends. It gives an ancestor of the block, or
-- the block itself, that is not below the height and whose parent, if the table has it, is; and it
-- changes nothing.
pub get_ancestor_at_height-Ancestor :
    (hash : ℕ) (height : ℤ) (db : Db) (b : BlockProgress)
    → IsLinked db.blocks
    → find_block hash db.blocks ≡ some b
    → height ≤ℤ b.block_number
    → (a : BlockProgress) × (get_ancestor_at_height hash height db ≡ (ok a.block_hash, db))
      × Ancestor db.blocks b a
      × (height ≤ℤ a.block_number)
      × ((p : BlockProgress) → parent_of db.blocks a ≡ some p → p.block_number <ℤ height)
unfolding get_ancestor_at_height
get_ancestor_at_height-Ancestor hash height db b linked found le =
    let (l, walked, d) =
      walk_fuel-DownTo db.blocks height linked b (find_block_self hash db.blocks b found) le in
    (last_of b l, ground (arith, d.lowest_last), d.reached, d.within, d.top)

-- A test that decides `IsLinked` on a given table.
abbrev pub is_linked_at : List BlockProgress → BlockProgress → Bool
is_linked_at rows b = elim (parent_of rows b) [
  | none ↦ true
  | some p ↦ ltb_ℤ p.block_number b.block_number
]

abbrev pub is_linked : List BlockProgress → Bool
is_linked rows = all (is_linked_at rows) rows

all-find_block :
    (test : BlockProgress → Bool) (hash : ℕ) (rows : List BlockProgress) (b : BlockProgress)
    → all test rows ≡ true
    → find_block hash rows ≡ some b
    → test b ≡ true
all-find_block test hash [] b h found = cc
all-find_block test hash (r ∷ rows) b h found = ground (arith, all-find_block test hash rows b)

pub is_linked-IsLinked : (rows : List BlockProgress) → is_linked rows ≡ true → IsLinked rows
is_linked-IsLinked rows h b p known found =
    let fact = all-find_block (is_linked_at rows) b.block_hash rows b h known in ground arith

-- The unique index on `block_hash`.
abbrev pub UniqueHashes : List BlockProgress → Type 0
UniqueHashes [] = Unit
UniqueHashes (b ∷ rows) = (find_block b.block_hash rows ≡ none) × UniqueHashes rows

pub find_block-Has :
    (b : BlockProgress) (rows : List BlockProgress)
    → UniqueHashes rows
    → Has b rows
    → find_block b.block_hash rows ≡ some b
find_block-Has b [] u h = elim h [ ]
find_block-Has b (r ∷ rows) u (first e) = ground arith
find_block-Has b (r ∷ rows) u (later h) = ground (arith, find_block-Has b rows u.1 h)
