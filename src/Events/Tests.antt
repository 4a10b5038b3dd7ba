-- ===== src/Events/Tests.antt =====
-- The loops over a block's events at work, and the theorems about them at concrete inputs.
use watcher_ts.Common.{
  if◌then◌else◌, ◌==◌, ℕ, ◌≡◌, refl, false, none, some, [], ◌∷◌, ok, err, service, true, map, pure,
  arith, Action,
}
use watcher_ts.Common.Int.{ℤ, pos, negsuc}
use watcher_ts.Tables.{Event, Contract, BlockProgress}
use watcher_ts.Contracts.{Indexer}
use watcher_ts.Events.{
  start_work, Handlers, Work, for_each, handle_event, process_events, process_pages,
  get_block_events, get_events_batch,
}
use watcher_ts.Events.Order.{process_events_in_subgraph_order-for_each}
use watcher_ts.Events.Subgraph.{
  process_events_in_subgraph_order, subgraph_pages, process_known_event, process_new_events,
  fetch_new_contracts, parse_new_event, process_updated_event,
}
use watcher_ts.Common.{◌>>◌}
use watcher_ts.Common.Int.{◌+ℤ◌}
use watcher_ts.Events.Table.{events_of}
use watcher_ts.Events.Paging.{process_events-for_each}
use watcher_ts.Blocks.{update_block_progress, save_events}
use watcher_ts.Events.Batch.{
  Ended, after_events, save_block_and_events, process_batch_events, remove_unknown_events,
  process_batch_events-Ended,
}
use watcher_ts.Events.Progress.{Progressed, process_events-Progressed}

abbrev event : ℕ → ℤ → ℕ → ℕ → Event
event hash index contract name = record {
  block_hash = hash;
  tx_hash = 1;
  index = index;
  contract = contract;
  event_name = name;
}

abbrev block : BlockProgress
block = record {
  id = 1;
  cid = none;
  block_hash = 5;
  parent_hash = 4;
  block_number = pos 9;
  block_timestamp = pos 100;
  num_events = 3;
  num_processed_events = 0;
  last_processed_event_index = negsuc 0;
  is_complete = false;
  is_pruned = false;
}

abbrev contract : ℕ → ℕ → Contract
contract id address = record {
  id = id;
  address = address;
  starting_block = pos 0;
  kind = 7;
  checkpoint = false;
}

-- The handler of event 8 starts to watch the contract at 51, as a factory does.
abbrev handle : Event → Action Indexer Unit
handle e s = (
  ok tt,
  record s {
    watched =
        if e.event_name == 0
        then s.watched
        else (50, contract 1 50 ∷ []) ∷ (51, contract 2 51 ∷ []) ∷ [];
  },
)

abbrev handlers : Handlers
handlers = record {
  process_event = handle;
  parse_event = λ contracts e. some 9;
  fetch_events_for_contracts = λ hash number addresses. pure [];
  process_block_after_events = none;
  filter_logs_by_addresses = false;
  block_write_error = none;
  events_write_error = none;
}

-- The events of block 5 were inserted out of order, and one is of another block.
abbrev work : Work
work = record {
  indexer = record {
    db = record {
      sync_status = none;
      state_sync_status = none;
      blocks = block ∷ [];
      events =
          event 5 (pos 2) 51 0
          ∷ event 6 (pos 0) 50 8
          ∷ event 5 (pos 0) 52 0
          ∷ event 5 (pos 1) 50 8
          ∷ [];
      contracts = [];
    };
    watched = (50, contract 1 50 ∷ []) ∷ [];
  };
  block = block;
  updated = [];
}

in_order :
    events_of 5 work.indexer.db
    ≡ event 5 (pos 0) 52 0 ∷ event 5 (pos 1) 50 8 ∷ event 5 (pos 2) 51 0 ∷ []
in_order = refl

-- The event of the contract that a previous event of the block started to watch is parsed.
parsed : (process_events handlers 2 work).1.updated ≡ event 5 (pos 2) 51 9 ∷ []
unfolding process_events process_pages handle_event get_events_batch get_block_events
parsed = refl

process_events-for_each_example :
    process_events handlers 2 work
    ≡ for_each (handle_event handlers) (events_of 5 work.indexer.db) (start_work work)
process_events-for_each_example =
    process_events-for_each handlers (λ e s. (refl, refl)) 2 work (omega arith) refl

process_events-Progressed_example : Progressed 3 (pos 2) work (process_events handlers 2 work)
process_events-Progressed_example =
    process_events-Progressed handlers (λ e s. refl) (λ e s. (refl, refl)) 2 work (omega arith) refl

-- Contract 51 is not watched at the start: its event comes last although its index is not.
abbrev factory_last : Work
factory_last = record work {
  indexer = record work.indexer {
    db = record work.indexer.db {
      events = event 5 (pos 0) 51 0 ∷ event 5 (pos 1) 50 8 ∷ event 5 (pos 2) 50 3 ∷ [];
    };
  };
}

subgraph_order :
    (process_events_in_subgraph_order handlers 2 factory_last).1.block.last_processed_event_index
    ≡ pos 3
unfolding process_events_in_subgraph_order subgraph_pages process_known_event process_new_events
    fetch_new_contracts parse_new_event process_updated_event get_events_batch get_block_events ◌+ℤ◌
subgraph_order = refl

process_events_in_subgraph_order-for_each_example :
    process_events_in_subgraph_order handlers 2 factory_last
    ≡ (for_each (process_known_event handlers) (event 5 (pos 1) 50 8 ∷ event 5 (pos 2) 50 3 ∷ [])
          >> process_new_events handlers (50 ∷ []) (event 5 (pos 0) 51 0 ∷ []))
        factory_last
process_events_in_subgraph_order-for_each_example =
    process_events_in_subgraph_order-for_each handlers (λ e s. (refl, refl)) 2 factory_last
      (omega arith) refl

-- With a hook that reads only.
abbrev hooked_handlers : Handlers
hooked_handlers = record handlers {
  process_block_after_events = some (λ hash number s. (ok tt, s));
}

-- The database refuses the events that were parsed.
abbrev refusing : Handlers
refusing = record hooked_handlers { events_write_error = some service }

process_batch_events-Ended_example :
    Ended none
      (some service)
      work
      ((for_each (handle_event refusing) (events_of 5 work.indexer.db)
          >> after_events refusing refusing.process_block_after_events)
        (start_work work))
      (process_batch_events refusing false 2 work)
process_batch_events-Ended_example =
    process_batch_events-Ended refusing 2 work (λ e s. (refl, refl)) (λ hash number s. (refl, refl))
      refl

-- The row of the block is complete without them.
refused_test :
    ((process_batch_events refusing false 2 work).0 ≡ err service)
    × (map
          (λ (b : BlockProgress). b.is_complete)
          (process_batch_events refusing false 2 work).1.indexer.db.blocks
        ≡ true ∷ [])
    × ((process_batch_events refusing false 2 work).1.indexer.db.events ≡ work.indexer.db.events)
unfolding process_batch_events process_events process_pages handle_event get_events_batch
    get_block_events update_block_progress save_events save_block_and_events
refused_test = (refl, refl, refl)

-- The event that was parsed is there twice until the unknown one is removed.
removed :
    (remove_unknown_events block
      (process_batch_events hooked_handlers false 0 work).1.indexer.db).1.events
    ≡ event 6 (pos 0) 50 8 ∷ event 5 (pos 1) 50 8 ∷ event 5 (pos 2) 51 9 ∷ []
unfolding process_batch_events process_events process_pages handle_event get_events_batch
    get_block_events remove_unknown_events update_block_progress save_events save_block_and_events
removed = refl
