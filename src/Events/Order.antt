-- ===== src/Events/Order.antt =====
-- The order of events in `_processEventsInSubgraphOrder`.
use watcher_ts.Common.{
  Bool, pure, ◌<◌, ◌*◌, length, drop, suc, ℕ, List, [], ◌∷◌, ◌++◌, filter, filter-append, ◌≡◌, refl,
  ap, ◌∙◌, Action, Result, ok, err, modify, ◌>>◌, arith,
}
use watcher_ts.Tables.{Event}
use watcher_ts.Events.{start_work, Handlers, Work, for_each, advance, on_indexer}
use watcher_ts.Events.Keeps.{
  Keeps, Keeps-refl, Keeps-trans, KeepsEvents, process_event-Keeps, for_each-append,
}
use watcher_ts.Events.Loop.{Rounds, loop-body}
use watcher_ts.Events.Table.{events_of, no_page}
use watcher_ts.Events.Subgraph.{
  process_new_events, process_events_in_subgraph_order, watched_addresses, is_event_of,
  is_not_event_of, process_known_event, subgraph_pages,
}

append_nil : {A : Type 0} (xs : List A) → xs ++ [] ≡ xs
append_nil [] = refl
append_nil (x ∷ xs) = ap (λ l. x ∷ l) (append_nil xs)

append_assoc : {A : Type 0} (xs ys zs : List A) → xs ++ (ys ++ zs) ≡ (xs ++ ys) ++ zs
append_assoc [] ys zs = refl
append_assoc (x ∷ xs) ys zs = ap (λ l. x ∷ l) (append_assoc xs ys zs)

module _ (h : Handlers) (keeps : KeepsEvents h) (initial : List ℕ) where
  abbrev process_known : List Event → Action Work Unit
  process_known es = for_each (process_known_event h) (filter (is_event_of initial) es)

  abbrev set_aside : List Event → List Event → List Event
  set_aside unwatched es = unwatched ++ filter (is_not_event_of initial) es

  known-Keeps : (e : Event) (w : Work) → Keeps w (process_known_event h e w).1
  unfolding process_known_event
  known-Keeps e w =
      step (on_indexer (h.process_event e) w) (process_event-Keeps h keeps w (e, w) (Keeps-refl w))
    where
      step :
          (p : Result Unit × Work)
          → Keeps w p.1
          → Keeps w (((λ (v : Work). p) >> modify (advance e.index)) w).1
      step (ok _, v) k = record {
        events = k.events;
        blocks = k.blocks;
        block_hash = k.block_hash;
        num_events = k.num_events;
      }
      step (err error, v) k = k

  all_known-Keeps : (es : List Event) (w : Work) → Keeps w (for_each (process_known_event h) es w).1
  all_known-Keeps [] w = Keeps-refl w
  all_known-Keeps (e ∷ es) w =
      step (process_known_event h e w) (known-Keeps e w) (λ v. all_known-Keeps es v)
    where
      step :
          (p : Result Unit × Work)
          → Keeps w p.1
          → ((v : Work) → Keeps v (for_each (process_known_event h) es v).1)
          → Keeps w (((λ (v : Work). p) >> for_each (process_known_event h) es) w).1
      step (ok _, v) k ih = Keeps-trans k (ih v)
      step (err error, v) k ih = k

  subgraph_pages-Rounds :
      (n : ℕ)
      → Rounds h keeps n (λ fuel. subgraph_pages h initial fuel n) process_known set_aside (λ a. a)
  unfolding subgraph_pages
  subgraph_pages-Rounds n = record {
    done = λ fuel page fetched a w e. ground (arith, e);
    more = λ fuel page fetched a w e. ground (arith, e);
    body_nil = λ w. refl;
    body_append = λ xs ys w.
        ap (λ es. for_each (process_known_event h) es w) (filter-append (is_event_of initial) xs ys)
        ∙ for_each-append (process_known_event h) (filter (is_event_of initial) xs)
            (filter (is_event_of initial) ys) w;
    body_Keeps = λ es w. all_known-Keeps (filter (is_event_of initial) es) w;
    gather_nil = λ a. append_nil a;
    gather_append = λ a xs ys.
        ap (λ l. a ++ l) (filter-append (is_not_event_of initial) xs ys)
        ∙ append_assoc a (filter (is_not_event_of initial) xs)
            (filter (is_not_event_of initial) ys);
  }

module _ (h : Handlers) (keeps : KeepsEvents h) where
  -- If the handler writes neither events nor blocks and the table has as many events for the block
  -- as the block counts, then for every size of a page above 0 the events of contracts watched at
  -- the start are processed first, all in the order of their index, and then what follows the pages
  -- is done once with all the other events in that order; errors included.
  pub process_events_in_subgraph_order-for_each :
      (n : ℕ) (w : Work)
      → 0 < n
      → length (events_of w.block.block_hash w.indexer.db) ≡ w.block.num_events
      → process_events_in_subgraph_order h n w
        ≡ (for_each (process_known_event h) (
                filter
                  (is_event_of (watched_addresses w))
                  (events_of w.block.block_hash w.indexer.db))
              >> process_new_events h (watched_addresses w) (
                  filter
                    (is_not_event_of (watched_addresses w))
                    (events_of w.block.block_hash w.indexer.db)))
            (start_work w)
  unfolding process_events_in_subgraph_order
  process_events_in_subgraph_order-for_each n w pn count =
      ap (continue) (
        loop-body h keeps n (λ fuel. subgraph_pages h initial fuel n)
          (process_known h keeps initial) (set_aside h keeps initial) (λ a. a)
          (subgraph_pages-Rounds h keeps initial n) all (suc w.block.num_events) 0 0 []
          (start_work w) pn (record { same = refl; count = count }) (omega (arith, dropped))
          (omega (arith, count, dropped))
        ∙ ap
            (λ k.
              (process_known h keeps initial (drop k all)
                  >> pure (set_aside h keeps initial [] (drop k all)))
                (start_work w))
            (no_page n))
      ∙ once (process_known h keeps initial all (start_work w))
    where
      initial : List ℕ
      initial = watched_addresses w

      all : List Event
      all = events_of w.block.block_hash w.indexer.db

      continue : Result (List Event) × Work → Result Bool × Work
      continue p = elim p.0 [
        | ok unwatched ↦ process_new_events h initial unwatched p.1
        | err e ↦ (err e, p.1)
      ]

      once :
          (p : Result Unit × Work)
          → continue (((λ (v : Work). p) >> pure (filter (is_not_event_of initial) all)) w)
            ≡ ((λ (v : Work). p)
                  >> process_new_events h initial (filter (is_not_event_of initial) all))
                w
      once (ok _, v) = refl
      once (err e, v) = refl

      dropped : length (drop (0 * n) all) ≡ length all
      dropped = ap (λ k. length (drop k all)) (no_page n)
