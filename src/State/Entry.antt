-- ===== src/State/Entry.antt =====
-- Entries of the table of states: `prepareStateEntry`, `saveOrUpdateState`, `removeStates` and
-- `fetchStateStatus` of packages/util/src/indexer.ts, the methods of packages/util/src/database.ts
-- that they call, and `createOrUpdateStateData` of packages/util/src/state-helper.ts.
use watcher_ts.Common.{
  ℕ, ◌+◌, Bool, false, not, ◌&&◌, ◌||◌, ◌==◌, leb, Option, none, some, List, [], ◌∷◌, ◌++◌, map,
  filter, any, length, head?, if◌then◌else◌, Action, ok, err, pure, gets, expect, modify, assert,
  ◌>>=◌, ◌>>◌, assertion, unique_violation,
}
use watcher_ts.Common.Int.{ℤ, eqb_ℤ}
use watcher_ts.Tables.{BlockProgress}
use watcher_ts.Contracts.{Watched}
use watcher_ts.State.{
  StateKind, diff, init, diff_staged, checkpoint, same_kind, Meta, StateData, Codec, StateRow,
  StateStatus, status_of, set_status_of, set_status, StateIndexer, is_set,
}
use watcher_ts.State.Query.{get_latest_state, get_states, join, Joined}

-- `StateInterface` with its block; a new one has no id yet.
pub record StateEntry (Bytes : Type 0) : Type 0 where
  pub id : Option ℕ
  pub block : BlockProgress
  pub contract_address : ℕ
  pub cid : ℕ
  pub kind : StateKind
  pub bytes : Bytes

abbrev pub is_checkpoint : StateKind → Bool
is_checkpoint kind = same_kind kind checkpoint

abbrev pub equals_number : Option ℤ → ℤ → Bool
equals_number none n = false
equals_number (some m) n = eqb_ℤ m n

module _ {Bytes : Type 0} where
  abbrev pub row_of : ℕ → StateEntry Bytes → StateRow Bytes
  row_of id e = record {
    id = id;
    block_id = e.block.id;
    contract_address = e.contract_address;
    cid = e.cid;
    kind = e.kind;
    bytes = e.bytes;
  }

  -- The unique indexes of the table (packages/codegen/src/data/entities/State.yaml).
  abbrev pub conflicts : StateEntry Bytes → StateRow Bytes → Bool
  conflicts e s =
      s.cid == e.cid
      || (s.block_id == e.block.id
          && s.contract_address == e.contract_address
          && same_kind s.kind e.kind)

  abbrev pub is_other : ℕ → StateRow Bytes → Bool
  is_other id s = not (s.id == id)

  abbrev pub replace_row : StateRow Bytes → StateRow Bytes → StateRow Bytes
  replace_row new s = if s.id == new.id then new else s

  -- `INSERT`
  unfoldable pub insert_state : StateEntry Bytes → Action (StateIndexer Bytes) (StateRow Bytes)
  insert_state e s = if any (conflicts e) s.states then (err unique_violation, s) else (
    ok (row_of s.next_state_id e),
    record s {
      states = s.states ++ row_of s.next_state_id e ∷ [];
      next_state_id = s.next_state_id + 1;
    },
  )

  -- `UPDATE`, whose first returned row has to be there.
  unfoldable pub update_state : ℕ → StateEntry Bytes → Action (StateIndexer Bytes) (StateRow Bytes)
  update_state id e s =
      if any (conflicts e) (filter (is_other id) s.states)
      then (err unique_violation, s)
      else if any (λ r. r.id == id) s.states
      then (ok (row_of id e), record s { states = map (replace_row (row_of id e)) s.states })
      else (err assertion, s)

  abbrev pub save_state : StateEntry Bytes → Action (StateIndexer Bytes) (StateRow Bytes)
  save_state e = elim e.id [ none ↦ insert_state e | some id ↦ update_state id e ]

  abbrev pub note_saved : StateEntry Bytes → StateStatus → StateIndexer Bytes → StateIndexer Bytes
  note_saved e status s = record s {
    state_status_map =
        set_status e.contract_address (set_status_of e.kind e.block.block_number status)
          s.state_status_map;
  }

  -- The row is written through a pool of connections of its own, so an error after it does not undo it.
  unfoldable pub save_or_update_state :
      StateEntry Bytes → Action (StateIndexer Bytes) (StateRow Bytes)
  unfolding insert_state update_state
  save_or_update_state e = do
    row ← save_state e
    known ← gets (λ s. s.state_status_map e.contract_address)
    status ← expect known assertion
    modify (note_saved e status)
    pure row

  abbrev pub at_number : ℤ → StateKind → Joined Bytes → Bool
  at_number number kind (s, b) = eqb_ℤ b.block_number number && same_kind s.kind kind

  abbrev pub has_row : List (Joined Bytes) → StateRow Bytes → Bool
  has_row rows s = any (λ r. r.0.id == s.id) rows

  unfoldable pub remove_states : ℤ → StateKind → Action (StateIndexer Bytes) Unit
  remove_states number kind s =
      let found = filter (at_number number kind) (join s.indexer.db.blocks s.states) in
      (ok tt, record s { states = filter (λ r. not (has_row found r)) s.states })

  abbrev pub latest_number : ℕ → StateKind → StateIndexer Bytes → Option ℤ
  latest_number address kind s = elim (get_latest_state address (some kind) none s) [
    | none ↦ none
    | some r ↦ some r.1.block_number
  ]

  abbrev pub fetched_status : ℕ → StateIndexer Bytes → StateStatus
  fetched_status address s = record {
    diff_number = latest_number address diff s;
    init_number = latest_number address init s;
    diff_staged_number = latest_number address diff_staged s;
    checkpoint_number = latest_number address checkpoint s;
  }

  abbrev pub fetch_statuses : Watched → StateIndexer Bytes → StateIndexer Bytes
  fetch_statuses [] s = s
  fetch_statuses ((address, contracts) ∷ m) s = fetch_statuses m (record s {
    state_status_map = set_status address (fetched_status address s) s.state_status_map;
  })

  unfoldable pub fetch_state_status : StateIndexer Bytes → StateIndexer Bytes
  unfolding get_latest_state
  fetch_state_status s = if s.enable_state then fetch_statuses s.indexer.watched s else s

abbrev pub or_meta : Option Meta → Option Meta → Option Meta
or_meta old none = old
or_meta old (some m) = some m

module _ {Bytes : Type 0} where
  -- The states of the same block, contract and kind, if they are looked for.
  abbrev pub current_states :
      BlockProgress → ℕ → StateKind → StateStatus → StateIndexer Bytes → List (StateRow Bytes)
  current_states block address kind status s =
      if is_checkpoint kind
        || (is_set (status_of kind status)
            && equals_number (status_of kind status) block.block_number)
      then get_states block address kind s
      else []

  abbrev pub parent_cid : Option (Joined Bytes) → Option ℕ
  parent_cid none = none
  parent_cid (some r) = some r.0.cid

  abbrev pub new_meta : BlockProgress → ℕ → StateKind → StateIndexer Bytes → Meta
  new_meta block address kind s = record {
    id = address;
    kind = kind;
    parent = parent_cid (get_latest_state address none (some block.block_number) s);
    eth_block_cid = block.cid;
    eth_block_number = block.block_number;
  }

module _ {Json Bytes : Type 0} (codec : Codec Json Bytes) where
  -- `_.merge` of two states; the fields of `meta` are there together or not at all.
  abbrev pub merge_data : StateData Json → StateData Json → StateData Json
  merge_data old new = record {
    meta = or_meta old.meta new.meta;
    state = codec.merge_json old.state new.state;
  }

  -- `createOrUpdateStateData`, and the assignment to the entry.
  unfoldable pub create_or_update_state_data :
      Option ℕ
      → BlockProgress
      → ℕ
      → StateData Json
      → Option Meta
      → Action (StateIndexer Bytes) (StateEntry Bytes)
  create_or_update_state_data id block address content given = do
    let full = record content { meta = or_meta content.meta given }
    let bytes = codec.encode full
    meta ← expect full.meta assertion
    pure (record {
      id = id;
      block = block;
      contract_address = address;
      cid = codec.cid_of bytes;
      kind = meta.kind;
      bytes = bytes;
    })

  unfoldable pub prepare_state_entry :
      BlockProgress
      → ℕ
      → StateData Json
      → StateKind
      → Action (StateIndexer Bytes) (StateEntry Bytes)
  unfolding create_or_update_state_data get_latest_state get_states
  prepare_state_entry block address content kind = do
    known ← gets (λ s. s.state_status_map address)
    status ← expect known assertion
    states ← gets (current_states block address kind status)
    assert (leb (length states) 1) assertion
    meta ← gets (new_meta block address kind)
    elim (head? states) [
      | some row ↦
          create_or_update_state_data (some row.id) block address
            (merge_data (codec.decode row.bytes) content) none
      | none ↦ create_or_update_state_data none block address content (some meta)
    ]
