-- ===== src/Events/Subgraph.antt =====
-- Processing in the order of a subgraph: `_processEventsInSubgraphOrder` of
-- packages/util/src/common.ts. Events of contracts that are watched at the start come first.
use watcher_ts.Common.{
  ℕ, zero, suc, ◌+◌, Bool, true, false, not, none, some, List, [], ◌∷◌, ◌++◌, map, length, filter,
  any, ◌==◌, ltb, if◌then◌else◌, Action, ok, err, pure, gets, modify, ◌>>=◌, ◌>>◌, out_of_fuel,
}
use watcher_ts.Common.Int.{pos, ◌+ℤ◌, max_ℤ}
use watcher_ts.Tables.{Event, Contract, unknown_event_name}
use watcher_ts.Contracts.{get_watched_contracts, is_contract_address_watched}
use watcher_ts.Events.{
  Handlers, Work, on_indexer, for_each, start_work, advance, get_events_batch, parse_unknown_event,
}

abbrev pub address_of : Contract → ℕ
address_of c = c.address

abbrev pub watched_addresses : Work → List ℕ
watched_addresses w = map address_of (get_watched_contracts w.indexer.watched)

-- `addresses.includes(event.contract)`
abbrev pub is_event_of : List ℕ → Event → Bool
is_event_of addresses e = any (λ a. a == e.contract) addresses

abbrev pub is_not_event_of : List ℕ → Event → Bool
is_not_event_of addresses e = not (is_event_of addresses e)

abbrev pub push_updated : List Event → Work → Work
push_updated events w = record w { updated = w.updated ++ events }

abbrev pub set_block : Work → Event → Event
set_block w e = record e { block_hash = w.block.block_hash }

module _ (h : Handlers) where
  -- The body of the loop over the events of contracts watched at the start.
  unfoldable pub process_known_event : Event → Action Work Unit
  process_known_event e = on_indexer (h.process_event e) >> modify (advance e.index)

  -- The `while` loop, with the events set aside; its result has them all.
  unfoldable pub subgraph_pages : List ℕ → ℕ → ℕ → ℕ → ℕ → List Event → Action Work (List Event)
  unfolding process_known_event
  subgraph_pages initial zero events_in_batch page fetched unwatched w = (err out_of_fuel, w)
  subgraph_pages initial (suc fuel) events_in_batch page fetched unwatched w =
      elim (ltb fetched w.block.num_events) [
        | false ↦ (ok unwatched, w)
        | true ↦
            let events = get_events_batch w.block.block_hash events_in_batch page w.indexer.db in
            (for_each process_known_event (filter (is_event_of initial) events)
                >> subgraph_pages initial fuel events_in_batch (page + 1) (fetched + length events)
                    (unwatched ++ filter (is_not_event_of initial) events))
              w
      ]

  -- Past events of the new contracts, if logs are fetched by address. The result says whether there
  -- are new contracts.
  unfoldable pub fetch_new_contracts : List ℕ → Action Work Bool
  fetch_new_contracts initial w =
      let addresses = watched_addresses w in
      if ltb (length initial) (length addresses)
      then (if h.filter_logs_by_addresses
          then (do
            events ← on_indexer (
                h.fetch_events_for_contracts w.block.block_hash w.block.block_number
                  (filter (λ a. not (any (λ b. b == a) initial)) addresses))
            modify (push_updated (map (set_block w) events))
            pure true)
              w
          else (ok true, w))
      else (ok false, w)

  -- The body of the loop that parses the events set aside.
  unfoldable pub parse_new_event : Event → Work → Work
  parse_new_event e w = elim (is_contract_address_watched w.indexer.watched e.contract) [
    | none ↦ w
    | some contracts ↦
        if e.event_name == unknown_event_name then (parse_unknown_event h contracts e w).1 else w
  ]

  abbrev pub parse_new_events : List Event → Work → Work
  parse_new_events [] w = w
  parse_new_events (e ∷ events) w = parse_new_events events (parse_new_event e w)

  -- `block.lastProcessedEventIndex = Math.max(block.lastProcessedEventIndex + 1, index)`
  unfoldable pub process_updated_event : Event → Action Work Unit
  process_updated_event e =
      on_indexer (h.process_event e)
      >> modify (λ w. advance (max_ℤ (w.block.last_processed_event_index +ℤ pos 1) e.index) w)

  -- What follows the `while` loop, given the events set aside.
  unfoldable pub process_new_events : List ℕ → List Event → Action Work Bool
  unfolding fetch_new_contracts parse_new_event process_updated_event
  process_new_events initial unwatched = do
    is_new ← fetch_new_contracts initial
    modify (parse_new_events unwatched)
    updated ← gets (λ w. w.updated)
    for_each process_updated_event updated
    pure is_new

  unfoldable pub process_events_in_subgraph_order : ℕ → Action Work Bool
  unfolding subgraph_pages process_new_events
  process_events_in_subgraph_order events_in_batch w =
      let initial = watched_addresses w in
      (subgraph_pages initial (suc w.block.num_events) events_in_batch 0 0 []
          >>= process_new_events initial)
        (start_work w)
