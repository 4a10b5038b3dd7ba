-- ===== src/Contracts/Views.antt =====
-- What the watched contracts look like from outside after each operation.
use watcher_ts.Common.{
  Has, Has-filter, filter-Has, subst, ℕ, ◌≡◌, refl, sym, ap, ◌∙◌, Bool, true, false, not, Option,
  none, some, List, [], ◌∷◌, ◌++◌, any, ◌&&◌, filter, filter-append, ◌==◌, arith, if◌then◌else◌,
}
use mathlib.Core.List.{append-nil, append_assoc}
use watcher_ts.Tables.{Contract}
use watcher_ts.Contracts.{
  Watched, Indexer, fetch_contracts, cache_contract, same_id, is_contract_address_watched,
  get_watched_contracts, of_kind, concat_kind, get_contracts_by_kind, push_contract,
  reduce_contracts, clear_watched_contracts,
}

concat_kind_lem :
    (kind : ℕ) (acc : List Contract) (m : Watched)
    → concat_kind kind acc m ≡ acc ++ filter (of_kind kind) (get_watched_contracts m)
concat_kind_lem kind acc [] = sym (append-nil acc)
concat_kind_lem kind acc ((a, contracts) ∷ m) =
    concat_kind_lem kind (acc ++ filter (of_kind kind) contracts) m
    ∙ rw filter-append (
        append_assoc acc (filter (of_kind kind) contracts)
          (filter (of_kind kind) (get_watched_contracts m)))

-- The contracts of a kind are the watched contracts whose kind it is: one is in the answer exactly
-- if it is watched and has the kind.
pub get_contracts_by_kind-Has :
    (m : Watched) (kind : ℕ) (c : Contract)
    → (Has c (get_contracts_by_kind m kind) → Has c (get_watched_contracts m) × (c.kind ≡ kind))
      × (Has c (get_watched_contracts m) → c.kind ≡ kind → Has c (get_contracts_by_kind m kind))
unfolding get_contracts_by_kind
get_contracts_by_kind-Has m kind c = (
  λ h.
      let (there, same) =
        Has-filter (of_kind kind) c (get_watched_contracts m)
          (subst (Has c) (concat_kind_lem kind [] m) h) in
      (there, ground (arith, same)),
  λ there same.
      subst (Has c) (sym (concat_kind_lem kind [] m))
        (filter-Has (of_kind kind) c (get_watched_contracts m) there (ground (arith, same))),
)

abbrev pub keeps : (Contract → Bool) → Contract → Bool
keeps remove c = not (remove c)

-- Clearing removes the contracts that the test picks, and keeps the others in their order.
pub get_watched_contracts-clear :
    (remove : Contract → Bool) (m : Watched)
    → get_watched_contracts (clear_watched_contracts remove m)
      ≡ filter (keeps remove) (get_watched_contracts m)
unfolding clear_watched_contracts
get_watched_contracts-clear remove [] = refl
get_watched_contracts-clear remove ((a, contracts) ∷ m) =
    rw filter-append (step (filter (keeps remove) contracts) (get_watched_contracts-clear remove m))
  where
    step :
        (kept : List Contract)
        → get_watched_contracts (clear_watched_contracts remove m)
          ≡ filter (keeps remove) (get_watched_contracts m)
        → get_watched_contracts (elim kept [
          | [] ↦ clear_watched_contracts remove m
          | c ∷ others ↦ (a, c ∷ others) ∷ clear_watched_contracts remove m
        ])
          ≡ kept ++ filter (keeps remove) (get_watched_contracts m)
    step [] ih = ih
    step (c ∷ others) ih = ap (λ l. c ∷ (others ++ l)) ih

abbrev pub at_address : ℕ → Contract → Bool
at_address address c = c.address == address

-- `none` for a missing key
abbrev pub nonempty : List Contract → Option (List Contract)
nonempty [] = none
nonempty (c ∷ contracts) = some (c ∷ contracts)

abbrev pub or_empty : Option (List Contract) → List Contract
or_empty none = []
or_empty (some contracts) = contracts

is_contract_address_watched-push :
    (c : Contract) (m : Watched) (address : ℕ)
    → is_contract_address_watched (push_contract c m) address ≡ (
        if c.address == address
        then some (or_empty (is_contract_address_watched m address) ++ c ∷ [])
        else is_contract_address_watched m address)
is_contract_address_watched-push c [] address = ground arith
is_contract_address_watched-push c ((a, contracts) ∷ m) address =
    ground (arith, is_contract_address_watched-push c m address)

-- No entry is empty.
abbrev pub EntriesFilled : Watched → Type 0
EntriesFilled m =
    (address : ℕ)
    → nonempty (or_empty (is_contract_address_watched m address))
      ≡ is_contract_address_watched m address

nonempty-snoc : (l : List Contract) (c : Contract) → nonempty (l ++ c ∷ []) ≡ some (l ++ c ∷ [])
nonempty-snoc [] c = refl
nonempty-snoc (d ∷ l) c = refl

EntriesFilled-push :
    (c : Contract) (m : Watched) → EntriesFilled m → EntriesFilled (push_contract c m)
EntriesFilled-push c m h address = ground (
  arith,
  is_contract_address_watched-push c m address,
  nonempty-snoc (or_empty (is_contract_address_watched m address)) c,
  h address,
)

or_empty-push :
    (c : Contract) (m : Watched) (address : ℕ)
    → or_empty (is_contract_address_watched (push_contract c m) address) ≡ (
        if c.address == address
        then or_empty (is_contract_address_watched m address) ++ c ∷ []
        else or_empty (is_contract_address_watched m address))
or_empty-push c m address = ground (arith, is_contract_address_watched-push c m address)

regroup :
    (c : Contract) (b : Bool) (old found : List Contract) {new : List Contract}
    → new ≡ (if b then old ++ c ∷ [] else old)
    → new ++ found ≡ old ++ (if b then c ∷ found else found)
regroup c true old found e = ap (λ l. l ++ found) e ∙ append_assoc old (c ∷ []) found
regroup c false old found e = ap (λ l. l ++ found) e

is_contract_address_watched-reduce :
    (contracts : List Contract) (acc : Watched) (address : ℕ)
    → EntriesFilled acc
    → is_contract_address_watched (reduce_contracts acc contracts) address
      ≡ nonempty (
          or_empty (is_contract_address_watched acc address)
          ++ filter (at_address address) contracts)
is_contract_address_watched-reduce [] acc address h =
    sym (ap nonempty (append-nil (or_empty (is_contract_address_watched acc address))) ∙ h address)
is_contract_address_watched-reduce (c ∷ contracts) acc address h =
    is_contract_address_watched-reduce contracts (push_contract c acc) address
      (EntriesFilled-push c acc h)
    ∙ ap nonempty (
        regroup c (c.address == address) (or_empty (is_contract_address_watched acc address))
          (filter (at_address address) contracts) (or_empty-push c acc address))

-- After a fetch, the contracts watched at an address are those that the table has there, in the
-- order of the table; an address without one is not watched.
pub fetch_contracts-filter :
    (s : Indexer) (address : ℕ)
    → is_contract_address_watched (fetch_contracts s).1.watched address
      ≡ nonempty (filter (at_address address) s.db.contracts)
unfolding fetch_contracts
fetch_contracts-filter s address =
    is_contract_address_watched-reduce s.db.contracts [] address (λ _. refl)

-- Caching a contract adds it behind those at its address, unless one of these has its id already,
-- and leaves every other address as it was.
pub is_contract_address_watched-cache_contract :
    (c : Contract) (m : Watched) (address : ℕ)
    → is_contract_address_watched (cache_contract c m) address ≡ (
        if c.address == address
          && not (any (same_id c) (or_empty (is_contract_address_watched m c.address)))
        then some (or_empty (is_contract_address_watched m address) ++ c ∷ [])
        else is_contract_address_watched m address)
unfolding cache_contract
is_contract_address_watched-cache_contract c m address =
    ground (arith, is_contract_address_watched-push c m address)
