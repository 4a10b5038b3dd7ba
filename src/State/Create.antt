-- ===== src/State/Create.antt =====
-- Initial states, diffs and checkpoints of packages/util/src/indexer.ts. `contracts.sort(..)` sorts
-- the array that the map of watched contracts holds.
use watcher_ts.Common.{
  ℕ, zero, suc, ◌+◌, ◌%◌, Bool, false, not, ◌&&◌, ◌||◌, ◌==◌, Option, none, some, List, [], ◌∷◌,
  length, head?, get_elem?, if◌then◌else◌, Action, ok, err, pure, gets, expect, modify, assert,
  ◌>>=◌, ◌>>◌, assertion, type_error,
}
use watcher_ts.Common.Int.{ℤ, pos, pos_part, neg_part, leb_ℤ, ltb_ℤ, ◌-ℤ◌}
use watcher_ts.Tables.{BlockProgress, Contract}
use watcher_ts.Blocks.{find_block}
use watcher_ts.Contracts.{Watched, is_contract_address_watched}
use watcher_ts.Events.{for_each}
use watcher_ts.State.{
  StateKind, diff, init, diff_staged, checkpoint, StateData, Codec, StateRow, StateStatus,
  no_status, StateIndexer, update_state_status_map, is_set,
}
use watcher_ts.State.Query.{get_latest_state, get_states_of_block}
use watcher_ts.State.Entry.{prepare_state_entry, save_or_update_state, remove_states, equals_number}
use watcher_ts.State.Merge.{merge_diffs_in_range}

-- `sort((a, b) => a.startingBlock - b.startingBlock)`, which is stable.
abbrev pub insert_by_start : Contract → List Contract → List Contract
insert_by_start c [] = c ∷ []
insert_by_start c (d ∷ contracts) =
    if leb_ℤ c.starting_block d.starting_block
    then c ∷ d ∷ contracts
    else d ∷ insert_by_start c contracts

abbrev pub sort_by_start : List Contract → List Contract
sort_by_start [] = []
sort_by_start (c ∷ contracts) = insert_by_start c (sort_by_start contracts)

abbrev pub set_contracts : ℕ → List Contract → Watched → Watched
set_contracts address contracts [] = []
set_contracts address contracts ((a, cs) ∷ m) =
    if a == address then (a, contracts) ∷ m else (a, cs) ∷ set_contracts address contracts m

-- The hooks of a watcher for states.
pub record StateHooks (Json Bytes : Type 0) : Type 0 where
  pub process_initial_state : ℕ → ℕ → Action (StateIndexer Bytes) (StateData Json)
  pub process_state_checkpoint : ℕ → ℕ → Action (StateIndexer Bytes) Bool

-- `number % interval === 0`; a remainder by 0 is not a number.
abbrev pub divides : ℕ → ℤ → Bool
divides zero number = false
divides (suc n) number = (pos_part number + neg_part number) % suc n == 0

abbrev pub has_state : StateStatus → Bool
has_state status =
    is_set status.init_number || is_set status.diff_number || is_set status.checkpoint_number

module _ {Bytes : Type 0} where
  abbrev pub when_enabled :
      {A : Type 0} → A → Action (StateIndexer Bytes) A → Action (StateIndexer Bytes) A
  when_enabled a m s = if s.enable_state then m s else (ok a, s)

  -- Blocks before the start of the contract are left out.
  abbrev pub from_start :
      {A : Type 0}
      → A
      → BlockProgress
      → Contract
      → Action (StateIndexer Bytes) A
      → Action (StateIndexer Bytes) A
  from_start a block contract m s =
      if ltb_ℤ block.block_number contract.starting_block then (ok a, s) else m s

  abbrev pub unless : Bool → Action (StateIndexer Bytes) Unit → Action (StateIndexer Bytes) Unit
  unless b m s = if b then (ok tt, s) else m s

  abbrev pub set_watched : Watched → StateIndexer Bytes → StateIndexer Bytes
  set_watched m s = record s { indexer = record s.indexer { watched = m } }

  -- The first of the contracts, sorted in place.
  abbrev pub sorted_first : ℕ → List Contract → Action (StateIndexer Bytes) Contract
  sorted_first address contracts = do
    let sorted = sort_by_start contracts
    modify (λ s. set_watched (set_contracts address sorted s.indexer.watched) s)
    expect (head? sorted) type_error

  unfoldable pub first_watched_contract : ℕ → Action (StateIndexer Bytes) Contract
  first_watched_contract address = do
    found ← gets (λ s. is_contract_address_watched s.indexer.watched address)
    contracts ← expect found assertion
    sorted_first address contracts

  abbrev pub known_status : ℕ → Action (StateIndexer Bytes) StateStatus
  known_status address = do found ← gets (λ s. s.state_status_map address); expect found assertion

  abbrev pub known_block : ℕ → Action (StateIndexer Bytes) BlockProgress
  known_block hash = do
    found ← gets (λ s. find_block hash s.indexer.db.blocks)
    expect found assertion

  -- The state that a checkpoint builds upon, and the number after which diffs are merged. A number
  -- of 0 before the block is not a filter.
  abbrev pub checkpoint_base : ℕ → BlockProgress → Action (StateIndexer Bytes) (StateRow Bytes × ℤ)
  checkpoint_base address block = do
    found ← gets (get_latest_state address (some checkpoint) (some (block.block_number -ℤ pos 1)))
    elim found [
      | some (row, b) ↦ do
        modify (
            update_state_status_map address
              (record no_status { checkpoint_number = some b.block_number }))
        pure (row, b.block_number)
      | none ↦ do
        init_state ← gets (get_latest_state address (some init) none)
        (row, b) ← expect init_state assertion
        pure (row, b.block_number -ℤ pos 1)
    ]

module _ {Json Bytes : Type 0} (codec : Codec Json Bytes) where
  abbrev pub save_new_state :
      BlockProgress → ℕ → StateData Json → StateKind → Action (StateIndexer Bytes) Unit
  save_new_state block address content kind = do
    entry ← prepare_state_entry codec block address content kind
    save_or_update_state entry
    pure tt

  unfoldable pub create_state_checkpoint :
      ℕ → BlockProgress → StateData Json → Action (StateIndexer Bytes) Unit
  unfolding first_watched_contract prepare_state_entry save_or_update_state
  create_state_checkpoint address block content = when_enabled tt (do
    first ← first_watched_contract address
    from_start tt block first (save_new_state block address content checkpoint))

  unfoldable pub create_diff_staged : ℕ → ℕ → StateData Json → Action (StateIndexer Bytes) Unit
  unfolding first_watched_contract prepare_state_entry save_or_update_state
  create_diff_staged address hash content = when_enabled tt (do
    block ← known_block hash
    contract ← first_watched_contract address
    from_start tt block contract (save_new_state block address content diff_staged))

  -- A diff wants an initial state or a checkpoint, and none of the block itself.
  abbrev pub check_diff_base : ℕ → BlockProgress → StateStatus → Action (StateIndexer Bytes) Unit
  check_diff_base address block status =
      if not (is_set status.checkpoint_number)
      then assert (is_set status.init_number) assertion
      else if equals_number status.checkpoint_number block.block_number
      then (do
        found ← gets (get_latest_state address (some checkpoint) none)
        latest ← expect found assertion
        assert (not (latest.1.block_hash == block.block_hash)) assertion)
      else pure tt

  unfoldable pub create_diff : ℕ → BlockProgress → StateData Json → Action (StateIndexer Bytes) Unit
  unfolding first_watched_contract prepare_state_entry save_or_update_state get_latest_state
  create_diff address block content = when_enabled tt (do
    contract ← first_watched_contract address
    from_start tt block contract (do
      status ← known_status address
      check_diff_base address block status
      save_new_state block address content diff))

  abbrev pub finalize_each : BlockProgress → StateRow Bytes → Action (StateIndexer Bytes) Unit
  finalize_each block staged = create_diff staged.contract_address block (codec.decode staged.bytes)

  unfoldable pub finalize_diff_staged : ℕ → Action (StateIndexer Bytes) Unit
  unfolding create_diff get_states_of_block remove_states
  finalize_diff_staged hash = do
    block ← known_block hash
    staged ← gets (get_states_of_block block diff_staged)
    for_each (finalize_each block) staged
    remove_states block.block_number diff_staged

  abbrev pub merged :
      ℕ → BlockProgress → StateRow Bytes × ℤ → Action (StateIndexer Bytes) (StateData Json)
  merged address block (row, start) s =
      elim (merge_diffs_in_range codec address start block.block_number s
        (codec.decode row.bytes).state) [
          | ok state ↦ (ok (record { meta = none; state = state }), s)
          | err e ↦ (err e, s)
        ]

  -- The default checkpoint: the last one, or the initial state, with the diffs since.
  unfoldable pub default_checkpoint : ℕ → BlockProgress → Action (StateIndexer Bytes) Unit
  unfolding prepare_state_entry save_or_update_state get_latest_state merge_diffs_in_range
  default_checkpoint address block = do
    base ← checkpoint_base address block
    content ← merged address block base
    save_new_state block address content checkpoint

module _ {Json Bytes : Type 0} (codec : Codec Json Bytes) (hooks : StateHooks Json Bytes) where
  abbrev pub init_entry : ℕ → ℤ → ℕ × List Contract → Action (StateIndexer Bytes) Unit
  init_entry hash number (address, contracts) = do
    contract ← sorted_first address contracts
    unless (not contract.checkpoint || ltb_ℤ number contract.starting_block) (do
      status ← known_status contract.address
      unless (has_state status) (do
        content ← hooks.process_initial_state contract.address hash
        block ← known_block hash
        save_new_state codec block contract.address content init))

  unfoldable pub create_init : ℕ → ℤ → Action (StateIndexer Bytes) Unit
  unfolding prepare_state_entry save_or_update_state
  create_init hash number =
      when_enabled tt
        (do watched ← gets (λ s. s.indexer.watched); for_each (init_entry hash number) watched)

  unfoldable pub create_checkpoint : ℕ → BlockProgress → Action (StateIndexer Bytes) (Option ℕ)
  unfolding first_watched_contract default_checkpoint
  create_checkpoint address block = when_enabled none (do
    contract ← first_watched_contract address
    from_start none block contract (do
      assert block.is_complete assertion
      found ← gets (λ s. s.indexer.db.state_sync_status)
      status ← expect found assertion
      assert (leb_ℤ block.block_number status.latest_indexed_block_number) assertion
      disabled ← hooks.process_state_checkpoint address block.block_hash
      if disabled
          then pure (some block.block_hash)
          else (do default_checkpoint codec address block; pure (some block.block_hash))))

  abbrev pub checkpoint_due : ℕ → BlockProgress → Contract → StateStatus → Bool
  checkpoint_due interval block contract status =
      contract.checkpoint
      && (divides interval block.block_number
          || equals_number status.init_number block.block_number)

  abbrev pub checkpoint_each : ℕ → BlockProgress → Contract → Action (StateIndexer Bytes) Unit
  checkpoint_each interval block contract = do
    status ← known_status contract.address
    unless (not (checkpoint_due interval block contract status))
        (do create_checkpoint contract.address block; pure tt)

  -- The loop over an array that `createCheckpoint` sorts: at each index the contract that is there
  -- by then, as many as there were at the start.
  unfoldable pub checkpoint_loop : ℕ → ℕ → BlockProgress → ℕ → ℕ → Action (StateIndexer Bytes) Unit
  checkpoint_loop zero interval block address i = pure tt
  checkpoint_loop (suc fuel) interval block address i = do
    found ← gets (λ s. is_contract_address_watched s.indexer.watched address)
    contracts ← expect found type_error
    elim (get_elem? contracts i) [
      | none ↦ pure tt
      | some contract ↦
          checkpoint_each interval block contract
          >> checkpoint_loop fuel interval block address (i + 1)
    ]

  -- `const [contracts] = Object.values(..)` is the array of the first address.
  unfoldable pub process_checkpoint : ℕ → ℕ → Action (StateIndexer Bytes) Unit
  unfolding create_checkpoint checkpoint_loop
  process_checkpoint hash interval = when_enabled tt (do
    watched ← gets (λ s. s.indexer.watched)
    block ← known_block hash
    (address, contracts) ← expect (head? watched) type_error
    checkpoint_loop (length contracts) interval block address 0)
