-- ===== src/Events/Batch.antt =====
-- All events of a block and what follows them: `processBatchEvents` of packages/util/src/common.ts,
-- and `removeUnknownEvents` of packages/util/src/indexer.ts.
use watcher_ts.Common.{
  ℕ, ◌<◌, ◌⊎◌, inl, inr, Bool, true, false, not, ◌&&◌, ◌==◌, Option, none, some, List, ◌++◌, map,
  filter, length, ◌≡◌, refl, sym, ap, subst, ◌∙◌, arith, Action, Result, Error, ok, err, pure,
  modify, throw, ◌>>=◌, ◌>>◌, if◌then◌else◌,
}
use watcher_ts.Common.Int.{ℤ}
use watcher_ts.Tables.{BlockProgress, Event, Db, transact, unknown_event_name}
use watcher_ts.Blocks.{replace_block, update_block_progress, save_events}
use watcher_ts.Contracts.{Indexer}
use watcher_ts.Events.{
  Handlers, Work, start_work, on_indexer, on_db, for_each, handle_event, process_events,
}
use watcher_ts.Events.Subgraph.{process_events_in_subgraph_order}
use watcher_ts.Events.Keeps.{KeepsEvents, Keeps, for_each-Keeps}
use watcher_ts.Events.Table.{events_of}
use watcher_ts.Events.Paging.{process_events-for_each}

-- `DEFAULT_EVENTS_IN_BATCH`
abbrev pub default_events_in_batch : ℕ
default_events_in_batch = 50

abbrev pub events_in_batch_of : ℕ → ℕ
events_in_batch_of n = if n == 0 then default_events_in_batch else n

abbrev pub set_complete : Work → Work
set_complete w = record w { block = record w.block { is_complete = true } }

-- A write in its own transaction, which the database may refuse.
abbrev pub refuse : Option Error → Action Db Unit
refuse none = pure tt
refuse (some e) = throw e

abbrev pub write_refused : {A : Type 0} → Option Error → Action Db A → Action Db Unit
write_refused refused m = transact (m >> refuse refused)

-- `Promise.all` of two.
abbrev pub both_done : Result (Unit {0}) → Result (Unit {0}) → Result (Unit {0})
both_done (ok _) r = r
both_done (err e) r = err e

-- The block's row, and rows for the events that were parsed, each in a transaction of its own. What
-- comes of one does not stop the other; of two errors the model has the first.
unfoldable pub save_block_and_events : Option Error → Option Error → Action Work Unit
unfolding update_block_progress save_events
save_block_and_events block_error events_error w =
    let (block_result, v) =
      on_db
        (write_refused block_error
          (update_block_progress w.block w.block.last_processed_event_index))
        w in
    let (events_result, u) = on_db (write_refused events_error (save_events w.updated)) v in
    (both_done block_result events_result, u)

module _ (h : Handlers) where
  abbrev pub process_all : Bool → ℕ → Action Work Bool
  process_all true n = process_events_in_subgraph_order h n
  process_all false n = process_events h n >> pure false

  -- The hook of a watcher, for a block that is not complete.
  abbrev pub after_events : Option (ℕ → ℤ → Action Indexer Unit) → Action Work Unit
  after_events none w = (ok tt, w)
  after_events (some hook) w =
      if w.block.is_complete
      then (ok tt, w)
      else on_indexer (hook w.block.block_hash w.block.block_number) w

  unfoldable pub process_batch_events : Bool → ℕ → Action Work Bool
  unfolding process_events process_events_in_subgraph_order save_block_and_events
  process_batch_events subgraph_events_order n = do
    is_new_contract_watched ← process_all subgraph_events_order (events_in_batch_of n)
    after_events h.process_block_after_events
    modify set_complete
    save_block_and_events h.block_write_error h.events_write_error
    pure is_new_contract_watched

abbrev pub is_unknown_of : BlockProgress → Event → Bool
is_unknown_of block e = e.block_hash == block.block_hash && e.event_name == unknown_event_name

unfoldable pub remove_unknown_events : BlockProgress → Action Db Unit
remove_unknown_events block =
    transact
      (modify (λ db. record db { events = filter (λ e. not (is_unknown_of block e)) db.events }))

-- The hook writes neither of the tables of events and blocks.
abbrev pub HookKeeps : Option (ℕ → ℤ → Action Indexer Unit) → Type 0
HookKeeps none = Unit
HookKeeps (some hook) =
    (hash : ℕ) (number : ℤ) (s : Indexer)
    → ((hook hash number s).1.db.events ≡ s.db.events)
      × ((hook hash number s).1.db.blocks ≡ s.db.blocks)

-- What the two writes do, unless they are refused.
abbrev pub blocks_written : Option Error → BlockProgress → List BlockProgress → List BlockProgress
blocks_written none block blocks = map (replace_block block) blocks
blocks_written (some _) block blocks = blocks

abbrev pub events_written : Option Error → List Event → List Event → List Event
events_written none updated events = events ++ updated
events_written (some _) updated events = events

-- What is left of `w` when its events and the hook left `v`: the block is that of `v`, complete, and
-- each of the two tables has what its write does.
pub record IsWritten (block_error events_error : Option Error) (w v u : Work) : Type 0 where
  pub block : u.block ≡ record v.block { is_complete = true }
  pub blocks : u.indexer.db.blocks ≡ blocks_written block_error u.block w.indexer.db.blocks
  pub events : u.indexer.db.events ≡ events_written events_error v.updated w.indexer.db.events

pub record IsUnwritten (w u : Work) : Type 0 where
  pub blocks : u.indexer.db.blocks ≡ w.indexer.db.blocks
  pub events : u.indexer.db.events ≡ w.indexer.db.events

-- How the block ends that the events and the hook left as `processed`.
abbrev pub Ended :
    Option Error → Option Error → Work → Result (Unit {0}) × Work → Result Bool × Work → Type 0
Ended block_error events_error w processed (ok _, u) =
    (processed.0 ≡ ok tt)
    × (block_error ≡ none)
    × (events_error ≡ none)
    × IsWritten block_error events_error w processed.1 u
Ended block_error events_error w processed (err e, u) =
    ((processed.0 ≡ err e) × IsUnwritten w u)
    ⊎ ((processed.0 ≡ ok tt)
        × ((block_error ≡ some e) ⊎ (events_error ≡ some e))
        × IsWritten block_error events_error w processed.1 u)

save_block_and_events-Ended :
    (block_error events_error : Option Error) (b : Bool) (w v : Work)
    → Keeps w v
    → Ended block_error events_error w
        (ok tt, v)
        ((save_block_and_events block_error events_error >> pure b) (set_complete v))
unfolding save_block_and_events update_block_progress save_events
save_block_and_events-Ended none none b w v k = (
  refl,
  refl,
  refl,
  record {
    block = refl;
    blocks = ap (map (replace_block (set_complete v).block)) k.blocks;
    events = ap (λ events. events ++ v.updated) k.events;
  },
)
save_block_and_events-Ended none (some e) b w v k = inr (
  refl,
  inr refl,
  record {
    block = refl;
    blocks = ap (map (replace_block (set_complete v).block)) k.blocks;
    events = k.events;
  },
)
save_block_and_events-Ended (some e) none b w v k = inr (
  refl,
  inl refl,
  record { block = refl; blocks = k.blocks; events = ap (λ events. events ++ v.updated) k.events },
)
save_block_and_events-Ended (some e) (some e') b w v k =
    inr (refl, inl refl, record { block = refl; blocks = k.blocks; events = k.events })

module _ (h : Handlers) (w : Work) where
  abbrev HasEnded : Result (Unit {0}) × Work → Result Bool × Work → Type 0
  HasEnded = Ended h.block_write_error h.events_write_error w

  abbrev save : Action Work Unit
  save = save_block_and_events h.block_write_error h.events_write_error

  saved-Ended :
      (b : Bool) (p : Result Unit × Work)
      → Keeps w p.1
      → HasEnded p (((λ (_ : Work). p) >> (modify set_complete >> (save >> pure b))) w)
  saved-Ended b (err e, v) k = inl (refl, record { blocks = k.blocks; events = k.events })
  saved-Ended b (ok _, v) k =
      save_block_and_events-Ended h.block_write_error h.events_write_error b w v k

  after_events-Keeps :
      (hook : Option (ℕ → ℤ → Action Indexer Unit)) (v : Work)
      → HookKeeps hook
      → Keeps w v
      → Keeps w (after_events h hook v).1
  after_events-Keeps none v keeps k = k
  after_events-Keeps (some hook) v keeps k = step v.block.is_complete
    where
      ran : Result (Unit {0}) × Indexer
      ran = hook v.block.block_hash v.block.block_number v.indexer

      pick : Bool → Result (Unit {0}) × Work
      pick b = if b then (ok tt, v) else (ran.0, record v { indexer = ran.1 })

      step : (b : Bool) → Keeps w (pick b).1
      step true = k
      step false =
          let same = keeps v.block.block_hash v.block.block_number v.indexer in
          record {
            events = same.0 ∙ k.events;
            blocks = same.1 ∙ k.blocks;
            block_hash = k.block_hash;
            num_events = k.num_events;
          }

  -- What follows the loop.
  abbrev rest_of : Bool → Action Work Bool
  rest_of b =
      after_events h h.process_block_after_events >> (modify set_complete >> (save >> pure b))

  rest_of-Ended :
      (b : Bool) (v : Work)
      → HookKeeps h.process_block_after_events
      → Keeps w v
      → HasEnded (after_events h h.process_block_after_events v) (rest_of b v)
  rest_of-Ended b v keeps k =
      saved-Ended b (after_events h h.process_block_after_events v)
        (after_events-Keeps h.process_block_after_events v keeps k)

  looped-Ended :
      (p : Result Unit × Work)
      → HookKeeps h.process_block_after_events
      → Keeps w p.1
      → HasEnded
          (((λ (_ : Work). p) >> after_events h h.process_block_after_events) w)
          ((((λ (_ : Work). p) >> pure false) >>= rest_of) w)
  looped-Ended (err e, v) keeps k = inl (refl, record { blocks = k.blocks; events = k.events })
  looped-Ended (ok _, v) keeps k = rest_of-Ended false v keeps k

-- A block is complete in its table only after all its events and the hook. Without the order of
-- subgraphs, if neither the handler nor the hook writes events or blocks, and the table has as many
-- events for the block as the block counts, then `processBatchEvents` ends in one of three ways.
-- Without an error: one loop over all events of the block and the hook succeed, neither of the two
-- last writes is refused, the row of the block is the block that they leave, complete, and the events
-- that they parsed are added to the table. With the error of the loop or of the hook: the tables of
-- blocks and events are as before. With the error of a refused write, where the loop and the hook
-- succeed: that write's table is as before, and a write that is not refused is done all the same.
pub process_batch_events-Ended :
    (h : Handlers) (n : ℕ) (w : Work)
    → KeepsEvents h
    → HookKeeps h.process_block_after_events
    → length (events_of w.block.block_hash w.indexer.db) ≡ w.block.num_events
    → Ended h.block_write_error h.events_write_error w
        ((for_each (handle_event h) (events_of w.block.block_hash w.indexer.db)
            >> after_events h h.process_block_after_events)
          (start_work w))
        (process_batch_events h false n w)
unfolding process_batch_events
process_batch_events-Ended h n w keeps hook count =
    subst
      (λ (p : Result Unit × Work).
        HasEnded h w (looped_and_hooked (start_work w))
          ((((λ (_ : Work). p) >> pure false) >>= rest_of h w) w))
      (sym (process_events-for_each h keeps (events_in_batch_of n) w (positive n) count))
      (looped-Ended h w
        (for_each (handle_event h) (events_of w.block.block_hash w.indexer.db) (start_work w)) hook
        (started
          (for_each-Keeps h keeps (events_of w.block.block_hash w.indexer.db) (start_work w))))
  where
    looped_and_hooked : Action Work (Unit {0})
    looped_and_hooked =
        for_each (handle_event h) (events_of w.block.block_hash w.indexer.db)
        >> after_events h h.process_block_after_events

    positive : (k : ℕ) → 0 < events_in_batch_of k
    positive k = ground arith

    started : {v : Work} → Keeps (start_work w) v → Keeps w v
    started k = record {
      events = k.events;
      blocks = k.blocks;
      block_hash = k.block_hash;
      num_events = k.num_events;
    }
