-- ===== src/Events/Table.antt =====
-- The events of a block as the table has them, and the page of them that is fetched.
use watcher_ts.Common.{
  take, ◌<◌, ℕ, zero, suc, ◌+◌, ◌*◌, true, List, length, drop, filter, ◌≡◌, sym, ap, ◌∙◌, arith,
}
use watcher_ts.Tables.{Event, Db}
use watcher_ts.Events.{
  limit_to, join_events, get_events_batch, get_block_events, Handlers, Work, order_by_index,
  joined_events,
}
use watcher_ts.Events.Keeps.{KeepsEvents, Keeps}

-- All the events of a block in the order of their index.
abbrev pub events_of : ℕ → Db → List Event
events_of hash db = order_by_index (filter (λ _. true) (joined_events hash db))

pub no_page : (n : ℕ) → 0 * n ≡ 0
no_page n = omega arith

pub next_page : (page n : ℕ) → (page + 1) * n ≡ page * n + n
next_page page n = omega arith

limit_to-take : (n : ℕ) (es : List Event) → 0 < n → limit_to n es ≡ take n es
limit_to-take zero es pn = absurd (omega arith)
limit_to-take (suc n) es pn = ground arith

module _ (h : Handlers) (keeps : KeepsEvents h) where
  -- The state of the loop: the table of events and the block are those of `all`.
  pub record Reads (all : List Event) (w : Work) : Type 0 where
    pub same : events_of w.block.block_hash w.indexer.db ≡ all
    pub count : length all ≡ w.block.num_events

  pub Reads-Keeps : (all : List Event) (v w : Work) → Reads all v → Keeps v w → Reads all w
  Reads-Keeps all v w r k = record {
    same =
        ap (λ hash. events_of hash w.indexer.db) k.block_hash
        ∙ ap
            (λ bs.
              order_by_index
                (filter (λ _. true) (join_events v.block.block_hash bs w.indexer.db.events)))
            k.blocks
        ∙ ap
            (λ es.
              order_by_index
                (filter (λ _. true) (join_events v.block.block_hash v.indexer.db.blocks es)))
            k.events
        ∙ r.same;
    count = r.count ∙ sym k.num_events;
  }

  pub get_events_batch-take :
      (n page : ℕ) (all : List Event) (w : Work)
      → 0 < n
      → Reads all w
      → get_events_batch w.block.block_hash n page w.indexer.db ≡ take n (drop (page * n) all)
  unfolding get_events_batch get_block_events
  get_events_batch-take n page all w pn r =
      limit_to-take n (drop (page * n) (events_of w.block.block_hash w.indexer.db)) pn
      ∙ ap (λ es. take n (drop (page * n) es)) r.same
