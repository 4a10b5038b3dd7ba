-- ===== src/Events/Paging.antt =====
-- Paging of a block's events: the pages of `_processEvents` against one loop over all of them.
use watcher_ts.Common.{
  ◌<◌, ℕ, suc, ◌*◌, List, length, drop, ◌≡◌, refl, ap, ◌∙◌, ok, err, ◌>>◌, arith, Result,
}
use watcher_ts.Tables.{Event}
use watcher_ts.Events.{
  start_work, process_pages, process_events, Handlers, Work, for_each, handle_event,
}
use watcher_ts.Events.Keeps.{KeepsEvents, for_each-append, for_each-Keeps}
use watcher_ts.Events.Table.{events_of, no_page}
use watcher_ts.Events.Loop.{Rounds, loop-body}
use watcher_ts.Common.{pure}

module _ (h : Handlers) (keeps : KeepsEvents h) where
  process_pages-Rounds :
      (n : ℕ)
      → Rounds h keeps n
          (λ fuel page fetched (_ : Unit). process_pages h fuel n page fetched)
          (for_each (handle_event h))
          (λ a es. a)
          (λ a. a)
  unfolding process_pages
  process_pages-Rounds n = record {
    done = λ fuel page fetched a w e. ground (arith, e);
    more = λ fuel page fetched a w e. ground (arith, e);
    body_nil = λ w. refl;
    body_append = λ xs ys w. for_each-append (handle_event h) xs ys w;
    body_Keeps = λ es w. for_each-Keeps h keeps es w;
    gather_nil = λ a. refl;
    gather_append = λ a xs ys. refl;
  }

  -- Whatever the size of a page above 0, if the handler writes neither events nor blocks and the
  -- table has as many events for the block as the block counts, `_processEvents` ends and does what
  -- one loop over all of the block's events in the order of their index does, errors included.
  pub process_events-for_each :
      (n : ℕ) (w : Work)
      → 0 < n
      → length (events_of w.block.block_hash w.indexer.db) ≡ w.block.num_events
      → process_events h n w
        ≡ for_each (handle_event h) (events_of w.block.block_hash w.indexer.db) (start_work w)
  unfolding process_events
  process_events-for_each n w pn count =
      loop-body h keeps n (λ fuel page fetched (_ : Unit). process_pages h fuel n page fetched)
        (for_each (handle_event h)) (λ a es. a) (λ a. a) (process_pages-Rounds n) all
        (suc w.block.num_events) 0 0 tt (start_work w) pn (record { same = refl; count = count })
        (omega (arith, dropped)) (omega (arith, count, dropped))
      ∙ ap (λ k. (for_each (handle_event h) (drop k all) >> pure tt) (start_work w)) (no_page n)
      ∙ once (for_each (handle_event h) all (start_work w))
    where
      all : List Event
      all = events_of w.block.block_hash w.indexer.db

      once : (p : Result Unit × Work) → ((λ (v : Work). p) >> pure tt) w ≡ p
      once (ok _, v) = refl
      once (err e, v) = refl

      dropped : length (drop (0 * n) all) ≡ length all
      dropped = ap (λ k. length (drop k all)) (no_page n)
