-- ===== src/State/Query.antt =====
-- The queries of packages/util/src/database.ts on the table of states, joined with their blocks.
use watcher_ts.Common.{
  ℕ, Bool, true, not, ◌&&◌, ◌==◌, ltb, Option, none, some, List, [], ◌∷◌, take, filter, find,
  if◌then◌else◌,
}
use watcher_ts.Common.Int.{ℤ, pos, eqb_ℤ, leb_ℤ, ltb_ℤ, ◌+ℤ◌}
use watcher_ts.Tables.{BlockProgress}
use watcher_ts.State.{StateKind, diff, diff_staged, same_kind, StateRow, StateIndexer}

-- A state with its block.
abbrev pub Joined : Type 0 → Type 0
Joined Bytes = StateRow Bytes × BlockProgress

abbrev pub has_id : ℕ → BlockProgress → Bool
has_id id b = b.id == id

-- A number of 0 is not a filter.
abbrev pub number_test : Option ℤ → BlockProgress → Bool
number_test none b = true
number_test (some n) b = if eqb_ℤ n (pos 0) then true else leb_ℤ b.block_number n

-- `Between(start + 1, end)`
abbrev pub is_between : ℤ → ℤ → ℤ → Bool
is_between start end n = leb_ℤ (start +ℤ pos 1) n && leb_ℤ n end

module _ {Bytes : Type 0} where
  -- The foreign key has the block there; a state without one would have no block to show.
  abbrev pub join : List BlockProgress → List (StateRow Bytes) → List (Joined Bytes)
  join blocks [] = []
  join blocks (s ∷ states) =
      let rest = join blocks states in
      elim (find (has_id s.block_id) blocks) [ none ↦ rest | some b ↦ (s, b) ∷ rest ]

  -- The kind asked for, or else any but a staged diff.
  abbrev pub kind_test : Option StateKind → StateRow Bytes → Bool
  kind_test none s = not (same_kind s.kind diff_staged)
  kind_test (some k) s = same_kind s.kind k

  abbrev pub is_candidate : ℕ → Option StateKind → Option ℤ → Joined Bytes → Bool
  is_candidate address kind number (s, b) =
      not b.is_pruned && s.contract_address == address && number_test number b && kind_test kind s

  -- `ORDER BY block_number DESC`; rows of one number come in the order of the table.
  abbrev pub insert_latest : Joined Bytes → List (Joined Bytes) → List (Joined Bytes)
  insert_latest r [] = r ∷ []
  insert_latest r (t ∷ rows) =
      if leb_ℤ t.1.block_number r.1.block_number then r ∷ t ∷ rows else t ∷ insert_latest r rows

  abbrev pub latest_first : List (Joined Bytes) → List (Joined Bytes)
  latest_first [] = []
  latest_first (r ∷ rows) = insert_latest r (latest_first rows)

  -- The first by block number, then by id, each from the greatest.
  abbrev pub before : Joined Bytes → Joined Bytes → Bool
  before r t =
      if eqb_ℤ r.1.block_number t.1.block_number
      then ltb t.0.id r.0.id
      else ltb_ℤ t.1.block_number r.1.block_number

  abbrev pub first_of : Joined Bytes → List (Joined Bytes) → Joined Bytes
  first_of r [] = r
  first_of r (t ∷ rows) = let best = first_of t rows in if before best r then best else r

  abbrev pub first_row : List (Joined Bytes) → Option (Joined Bytes)
  first_row [] = none
  first_row (r ∷ rows) = some (first_of r rows)

  abbrev pub candidates : ℕ → Option StateKind → Option ℤ → StateIndexer Bytes → List (Joined Bytes)
  candidates address kind number s =
      filter (is_candidate address kind number) (join s.indexer.db.blocks s.states)

  unfoldable pub get_latest_state :
      ℕ → Option StateKind → Option ℤ → StateIndexer Bytes → Option (Joined Bytes)
  get_latest_state address kind number s =
      first_row (take 3 (latest_first (candidates address kind number s)))

  abbrev pub is_state_of : BlockProgress → ℕ → StateKind → StateRow Bytes → Bool
  is_state_of block address kind s =
      s.block_id == block.id && s.contract_address == address && same_kind s.kind kind

  -- `getStates` with a block, a contract and a kind, and with a block and a kind.
  unfoldable pub get_states :
      BlockProgress → ℕ → StateKind → StateIndexer Bytes → List (StateRow Bytes)
  get_states block address kind s = filter (is_state_of block address kind) s.states

  abbrev pub is_state_of_block : BlockProgress → StateKind → StateRow Bytes → Bool
  is_state_of_block block kind s = s.block_id == block.id && same_kind s.kind kind

  unfoldable pub get_states_of_block :
      BlockProgress → StateKind → StateIndexer Bytes → List (StateRow Bytes)
  get_states_of_block block kind s = filter (is_state_of_block block kind) s.states

  -- `order: { block: 'ASC' }` is by the key of the block.
  abbrev pub insert_by_block : Joined Bytes → List (Joined Bytes) → List (Joined Bytes)
  insert_by_block r [] = r ∷ []
  insert_by_block r (t ∷ rows) =
      if ltb t.1.id r.1.id then t ∷ insert_by_block r rows else r ∷ t ∷ rows

  abbrev pub order_by_block : List (Joined Bytes) → List (Joined Bytes)
  order_by_block [] = []
  order_by_block (r ∷ rows) = insert_by_block r (order_by_block rows)

  abbrev pub is_diff_of : ℕ → Joined Bytes → Bool
  is_diff_of address (s, b) =
      s.contract_address == address && same_kind s.kind diff && not b.is_pruned

  abbrev pub in_range : ℤ → ℤ → Joined Bytes → Bool
  in_range start end (s, b) = is_between start end b.block_number

  -- All diffs of a contract on unpruned blocks, in the order of their blocks.
  abbrev pub all_diffs : ℕ → StateIndexer Bytes → List (Joined Bytes)
  all_diffs address s =
      order_by_block (filter (is_diff_of address) (join s.indexer.db.blocks s.states))

  unfoldable pub get_diff_states_in_range : ℕ → ℤ → ℤ → StateIndexer Bytes → List (Joined Bytes)
  get_diff_states_in_range address start end s = filter (in_range start end) (all_diffs address s)
