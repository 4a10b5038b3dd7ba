-- ===== src/Events.antt =====
-- Processing the events of a block: `getBlockEvents` of packages/util/src/database.ts and
-- the loops below `processBatchEvents` of packages/util/src/common.ts, which is Events/Batch.
pub mod Batch
pub mod Keeps
pub mod Order
pub mod Paging
pub mod Loop
pub mod Progress
pub mod Subgraph
pub mod Table
mod Tests
use watcher_ts.Common.{
  ℕ, zero, suc, ◌+◌, ◌*◌, Bool, true, false, not, ◌&&◌, Option, none, some, List, [], ◌∷◌, ◌++◌,
  map, length, filter, take, drop, any, ◌==◌, ltb, if◌then◌else◌, Action, Result, Error, ok, err,
  pure, gets, modify, throw, ◌>>=◌, ◌>>◌, out_of_fuel,
}
use watcher_ts.Common.Int.{ℤ, pos, ◌+ℤ◌, leb_ℤ, max_ℤ}
use watcher_ts.Tables.{BlockProgress, Event, Contract, Db, transact, unknown_event_name}
use watcher_ts.Blocks.{find_block, update_block_progress, save_events, of_block}
use watcher_ts.Contracts.{Indexer, Watched, is_contract_address_watched, get_watched_contracts}

-- `ORDER BY index ASC, id ASC`; the table is in the order of its ids.
abbrev pub insert_by_index : Event → List Event → List Event
insert_by_index e [] = e ∷ []
insert_by_index e (f ∷ events) =
    if leb_ℤ e.index f.index then e ∷ f ∷ events else f ∷ insert_by_index e events

abbrev pub order_by_index : List Event → List Event
order_by_index [] = []
order_by_index (e ∷ events) = insert_by_index e (order_by_index events)

abbrev pub in_block : ℕ → Event → Bool
in_block hash e = e.block_hash == hash

-- The join with the block, which has to be there and unpruned.
abbrev pub join_events : ℕ → List BlockProgress → List Event → List Event
join_events hash blocks events = elim (find_block hash blocks) [
  | none ↦ []
  | some b ↦ if b.is_pruned then [] else filter (in_block hash) events
]

abbrev pub joined_events : ℕ → Db → List Event
joined_events hash db = join_events hash db.blocks db.events

-- A limit of 0 is no limit.
abbrev pub limit_to : ℕ → List Event → List Event
limit_to limit events = if limit == 0 then events else take limit events

unfoldable pub get_block_events : ℕ → (Event → Bool) → ℕ → ℕ → Db → List Event
get_block_events hash test skip limit db =
    limit_to limit (drop skip (order_by_index (filter test (joined_events hash db))))

-- `_getEventsBatch`
unfoldable pub get_events_batch : ℕ → ℕ → ℕ → Db → List Event
unfolding get_block_events
get_events_batch hash events_in_batch page db =
    get_block_events hash (λ _. true) (page * events_in_batch) events_in_batch db

-- What a watcher brings: its handler of one event, the parser of its contracts' events (`none` if
-- it parses none), the fetch of past events for new contracts, the hook after the events of a block,
-- and `filterLogsByAddresses` of its configuration. The last two say
-- whether the database refuses, at the end of a block, to write the block's row or the parsed events.
pub record Handlers : Type 0 where
  pub process_event : Event → Action Indexer Unit
  pub parse_event : List Contract → Event → Option ℕ
  pub fetch_events_for_contracts : ℕ → ℤ → List ℕ → Action Indexer (List Event)
  pub process_block_after_events : Option (ℕ → ℤ → Action Indexer Unit)
  pub filter_logs_by_addresses : Bool
  pub block_write_error : Option Error
  pub events_write_error : Option Error

-- The indexer, the block as an object that the loops change, and `updatedDbEvents`.
pub record Work : Type 0 where
  pub indexer : Indexer
  pub block : BlockProgress
  pub updated : List Event

-- Each loop starts with no updated events.
abbrev pub start_work : Work → Work
start_work w = record w { updated = [] }

abbrev pub on_indexer : {A : Type 0} → Action Indexer A → Action Work A
on_indexer m w = let (r, s) = m w.indexer in (r, record w { indexer = s })

abbrev pub on_db : {A : Type 0} → Action Db A → Action Work A
on_db m w =
    let (r, db') = m w.indexer.db in (r, record w { indexer = record w.indexer { db = db' } })

abbrev pub for_each : {S A : Type 0} → (A → Action S Unit) → List A → Action S Unit
for_each f [] = pure tt
for_each f (a ∷ rest) = f a >> for_each f rest

-- `block.lastProcessedEventIndex = index; block.numProcessedEvents++`
abbrev pub advance : ℤ → Work → Work
advance index w = record w {
  block = record w.block {
    last_processed_event_index = index;
    num_processed_events = w.block.num_processed_events + 1;
  };
}

module _ (h : Handlers) where
  -- `_parseUnknownEvent`, and the push of what it parsed
  abbrev pub parse_unknown_event : List Contract → Event → Work → Event × Work
  parse_unknown_event contracts e w = elim (h.parse_event contracts e) [
    | none ↦ (e, w)
    | some name ↦
        let parsed = record e { event_name = name } in
        (parsed, record w { updated = w.updated ++ parsed ∷ [] })
  ]

  abbrev pub handle_watched : List Contract → Event → Action Work Unit
  handle_watched contracts e w =
      let (e', w') =
        if e.event_name == unknown_event_name then parse_unknown_event contracts e w else (e, w) in
      on_indexer (h.process_event e') w'

  -- The body of the loop over the events of a batch in `_processEvents`.
  unfoldable pub handle_event : Event → Action Work Unit
  handle_event e w = elim (is_contract_address_watched w.indexer.watched e.contract) [
    | none ↦ modify (advance e.index) w
    | some contracts ↦ (handle_watched contracts e >> modify (advance e.index)) w
  ]

  -- The `while` loop of `_processEvents`.
  process_pages : ℕ → ℕ → ℕ → ℕ → Action Work Unit
  process_pages zero events_in_batch page fetched w = (err out_of_fuel, w)
  process_pages (suc fuel) events_in_batch page fetched w = elim (ltb fetched w.block.num_events) [
    | false ↦ (ok tt, w)
    | true ↦
        let events = get_events_batch w.block.block_hash events_in_batch page w.indexer.db in
        (for_each handle_event events
            >> process_pages fuel events_in_batch (page + 1) (fetched + length events))
          w
  ]

  -- Each round fetches an event or more, if the table has as many as the block counts.
  unfoldable pub process_events : ℕ → Action Work Unit
  unfolding process_pages
  process_events events_in_batch w =
      process_pages (suc w.block.num_events) events_in_batch 0 0 (start_work w)
