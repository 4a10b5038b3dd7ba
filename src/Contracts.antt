-- ===== src/Contracts.antt =====
-- The watched contracts: the map `_watchedContractsByAddressMap` of packages/util/src/indexer.ts,
-- an object whose keys come in the order in which they were added, and the table behind it.
pub mod Views
mod Tests
use watcher_ts.Common.{
  ℕ, Bool, true, false, not, Option, none, some, List, [], ◌∷◌, ◌++◌, filter, any, ◌==◌, map, find,
  if◌then◌else◌, Action, ok, err, pure, gets, modify, ◌>>=◌, ◌>>◌, Result,
}
use watcher_ts.Common.Int.{ℤ, eqb_ℤ, ltb_ℤ}
use watcher_ts.Tables.{Contract, Db}

abbrev pub Watched : Type 0
Watched = List (ℕ × List Contract)

-- What an indexer keeps: its database and its map of watched contracts.
pub record Indexer : Type 0 where
  pub db : Db
  pub watched : Watched

abbrev pub is_contract_address_watched : Watched → ℕ → Option (List Contract)
is_contract_address_watched [] address = none
is_contract_address_watched ((a, contracts) ∷ m) address =
    if a == address then some contracts else is_contract_address_watched m address

abbrev pub get_watched_contracts : Watched → List Contract
get_watched_contracts [] = []
get_watched_contracts ((a, contracts) ∷ m) = contracts ++ get_watched_contracts m

abbrev pub of_kind : ℕ → Contract → Bool
of_kind kind c = c.kind == kind

-- `reduce` with `acc.concat(contracts.filter(..))`
abbrev concat_kind : ℕ → List Contract → Watched → List Contract
concat_kind kind acc [] = acc
concat_kind kind acc ((a, contracts) ∷ m) =
    concat_kind kind (acc ++ filter (of_kind kind) contracts) m

unfoldable pub get_contracts_by_kind : Watched → ℕ → List Contract
get_contracts_by_kind m kind = concat_kind kind [] m

-- `acc[address].push(contract)`, on an empty list if the key is not there.
abbrev pub push_contract : Contract → Watched → Watched
push_contract c [] = (c.address, c ∷ []) ∷ []
push_contract c ((a, contracts) ∷ m) =
    if a == c.address then (a, contracts ++ c ∷ []) ∷ m else (a, contracts) ∷ push_contract c m

abbrev pub reduce_contracts : Watched → List Contract → Watched
reduce_contracts acc [] = acc
reduce_contracts acc (c ∷ contracts) = reduce_contracts (push_contract c acc) contracts

unfoldable pub fetch_contracts : Action Indexer Unit
fetch_contracts s = (ok tt, record s { watched = reduce_contracts [] s.db.contracts })

abbrev pub same_id : Contract → Contract → Bool
same_id c d = c.id == d.id

-- A key that `cacheContract` adds holds an empty list until the contract is pushed.
unfoldable pub cache_contract : Contract → Watched → Watched
cache_contract c m = elim (is_contract_address_watched m c.address) [
  | none ↦ push_contract c m
  | some contracts ↦ if any (same_id c) contracts then m else push_contract c m
]

-- Entries are filtered, and those left empty are dropped.
unfoldable pub clear_watched_contracts : (Contract → Bool) → Watched → Watched
clear_watched_contracts remove [] = []
clear_watched_contracts remove ((a, contracts) ∷ m) =
    let rest = clear_watched_contracts remove m in
    elim (filter (λ c. not (remove c)) contracts) [ [] ↦ rest | c ∷ kept ↦ (a, c ∷ kept) ∷ rest ]
