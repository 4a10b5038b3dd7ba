-- ===== src/State.antt =====
-- The states of contracts: rows of the table `state`, their queries in
-- packages/util/src/database.ts, and what packages/util/src/indexer.ts keeps in memory about them.
-- A state is a JSON value that is stored as bytes.
pub mod Query
pub mod Entry
pub mod Ranges
pub mod Merge
pub mod Checkpoint
pub mod Create
pub mod Saved
pub mod Latest
mod Tests
use watcher_ts.Common.{
  ℕ, Bool, true, false, not, ◌&&◌, ◌==◌, Option, none, some, List, [], ◌∷◌, ◌++◌, if◌then◌else◌,
  Action, Result, ok, err,
}
use watcher_ts.Common.Int.{ℤ, eqb_ℤ, pos}
use watcher_ts.Contracts.{Indexer}

pub data StateKind : Type 0 where
  diff init diff_staged checkpoint : StateKind

abbrev pub same_kind : StateKind → StateKind → Bool
same_kind diff diff = true
same_kind init init = true
same_kind diff_staged diff_staged = true
same_kind checkpoint checkpoint = true
same_kind _ _ = false

-- `StateDataMeta`; the links are the texts under '/'.
pub record Meta : Type 0 where
  pub id : ℕ
  pub kind : StateKind
  pub parent : Option ℕ
  pub eth_block_cid : Option ℕ
  pub eth_block_number : ℤ

-- `StateData`
pub record StateData (Json : Type 0) : Type 0 where
  pub meta : Option Meta
  pub state : Json

-- What is called: `_.merge` on JSON values, the codec dag-cbor, and the CID of bytes.
pub record Codec (Json Bytes : Type 0) : Type 0 where
  pub merge_json : Json → Json → Json
  pub encode : StateData Json → Bytes
  pub decode : Bytes → StateData Json
  pub cid_of : Bytes → ℕ

-- `StateInterface`, the block as the key of its row.
pub record StateRow (Bytes : Type 0) : Type 0 where
  pub id : ℕ
  pub block_id : ℕ
  pub contract_address : ℕ
  pub cid : ℕ
  pub kind : StateKind
  pub bytes : Bytes

-- `StateStatus`: the block number of the latest state of each kind.
pub record StateStatus : Type 0 where
  pub diff_number : Option ℤ
  pub init_number : Option ℤ
  pub diff_staged_number : Option ℤ
  pub checkpoint_number : Option ℤ

abbrev pub no_status : StateStatus
no_status = record {
  diff_number = none;
  init_number = none;
  diff_staged_number = none;
  checkpoint_number = none;
}

abbrev pub status_of : StateKind → StateStatus → Option ℤ
status_of diff t = t.diff_number
status_of init t = t.init_number
status_of diff_staged t = t.diff_staged_number
status_of checkpoint t = t.checkpoint_number

-- `stateStatus[kind] = number`
abbrev pub set_status_of : StateKind → ℤ → StateStatus → StateStatus
set_status_of diff number t = record t { diff_number = some number }
set_status_of init number t = record t { init_number = some number }
set_status_of diff_staged number t = record t { diff_staged_number = some number }
set_status_of checkpoint number t = record t { checkpoint_number = some number }

-- `_stateStatusMap`
abbrev pub StatusMap : Type 0
StatusMap = ℕ → Option StateStatus

abbrev pub set_status : ℕ → StateStatus → StatusMap → StatusMap
set_status address t m a = if a == address then some t else m a

-- The indexer, the table of states with the next id of its sequence, and the option `enableState`.
pub record StateIndexer (Bytes : Type 0) : Type 0 where
  pub indexer : Indexer
  pub states : List (StateRow Bytes)
  pub next_state_id : ℕ
  pub state_status_map : StatusMap
  pub enable_state : Bool

abbrev pub or_number : Option ℤ → Option ℤ → Option ℤ
or_number old none = old
or_number old (some n) = some n

-- `_.merge`, which skips what is undefined; no status merges as an empty one.
abbrev pub merge_status : Option StateStatus → StateStatus → StateStatus
merge_status none new = new
merge_status (some old) new = record {
  diff_number = or_number old.diff_number new.diff_number;
  init_number = or_number old.init_number new.init_number;
  diff_staged_number = or_number old.diff_staged_number new.diff_staged_number;
  checkpoint_number = or_number old.checkpoint_number new.checkpoint_number;
}

unfoldable pub update_state_status_map :
    {Bytes : Type 0} → ℕ → StateStatus → StateIndexer Bytes → StateIndexer Bytes
update_state_status_map address status s = record s {
  state_status_map =
      set_status address (merge_status (s.state_status_map address) status) s.state_status_map;
}

-- A number is there and is not 0.
abbrev pub is_set : Option ℤ → Bool
is_set none = false
is_set (some n) = not (eqb_ℤ n (pos 0))
