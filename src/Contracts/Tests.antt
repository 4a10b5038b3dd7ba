-- ===== src/Contracts/Tests.antt =====
-- The watched contracts at work, and the theorems about them at concrete inputs.
use watcher_ts.Common.{Has, ℕ, ◌≡◌, refl, false, none, some, [], ◌∷◌}
use watcher_ts.Common.Int.{pos, leb_ℤ}
use watcher_ts.Tables.{Contract}
use watcher_ts.Contracts.{
  Watched, Indexer, is_contract_address_watched, get_watched_contracts, get_contracts_by_kind,
  fetch_contracts, cache_contract, clear_watched_contracts,
}
use watcher_ts.Contracts.Views.{
  get_contracts_by_kind-Has, get_watched_contracts-clear, fetch_contracts-filter,
  is_contract_address_watched-cache_contract,
}

abbrev contract : ℕ → ℕ → ℕ → ℕ → Contract
contract id address start kind = record {
  id = id;
  address = address;
  starting_block = pos start;
  kind = kind;
  checkpoint = false;
}

abbrev indexer : Indexer
indexer = record {
  db = record {
    sync_status = none;
    state_sync_status = none;
    blocks = [];
    events = [];
    contracts = contract 1 50 10 7 ∷ contract 2 51 11 8 ∷ contract 3 50 12 8 ∷ [];
  };
  watched = [];
}

abbrev watched : Watched
watched = (50, contract 1 50 10 7 ∷ contract 3 50 12 8 ∷ []) ∷ (51, contract 2 51 11 8 ∷ []) ∷ []

fetched : (fetch_contracts indexer).1.watched ≡ watched
unfolding fetch_contracts
fetched = refl

cached : cache_contract (contract 3 50 12 8) watched ≡ watched
unfolding cache_contract
cached = refl

-- Contracts that start after block 10 are cleared, and an address left with none goes too.
cleared :
    clear_watched_contracts (λ c. leb_ℤ (pos 11) c.starting_block) watched
    ≡ (50, contract 1 50 10 7 ∷ []) ∷ []
unfolding clear_watched_contracts
cleared = refl

fetch_contracts-filter_example :
    is_contract_address_watched (fetch_contracts indexer).1.watched 50
    ≡ some (contract 1 50 10 7 ∷ contract 3 50 12 8 ∷ [])
fetch_contracts-filter_example = fetch_contracts-filter indexer 50

cache_contract_example :
    is_contract_address_watched (cache_contract (contract 4 51 9 7) watched) 51
    ≡ some (contract 2 51 11 8 ∷ contract 4 51 9 7 ∷ [])
cache_contract_example = is_contract_address_watched-cache_contract (contract 4 51 9 7) watched 51

get_watched_contracts-clear_example :
    get_watched_contracts (clear_watched_contracts (λ c. leb_ℤ (pos 11) c.starting_block) watched)
    ≡ contract 1 50 10 7 ∷ []
get_watched_contracts-clear_example =
    get_watched_contracts-clear (λ c. leb_ℤ (pos 11) c.starting_block) watched

by_kind : get_contracts_by_kind watched 8 ≡ contract 3 50 12 8 ∷ contract 2 51 11 8 ∷ []
unfolding get_contracts_by_kind
by_kind = refl

get_contracts_by_kind-Has_example :
    (Has (contract 1 50 10 7) (get_contracts_by_kind watched 8)
      → Has (contract 1 50 10 7) (get_watched_contracts watched) × ((contract 1 50 10 7).kind ≡ 8))
    × (Has (contract 1 50 10 7) (get_watched_contracts watched)
        → (contract 1 50 10 7).kind ≡ 8
        → Has (contract 1 50 10 7) (get_contracts_by_kind watched 8))
get_contracts_by_kind-Has_example = get_contracts_by_kind-Has watched 8 (contract 1 50 10 7)
