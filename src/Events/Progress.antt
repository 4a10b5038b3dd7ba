-- ===== src/Events/Progress.antt =====
-- How far the loop over a block's events comes.
use watcher_ts.Common.{
  Error, ◌≢◌, ◌++◌, ℕ, ◌+◌, ◌<◌, Bool, true, false, Option, none, some, List, [], ◌∷◌, length,
  if◌then◌else◌, modify, ◌==◌, ◌≡◌, refl, sym, ap, ◌∙◌, ok, err, ◌>>◌, Result, arith,
}
use watcher_ts.Common.Int.{ℤ}
use watcher_ts.Tables.{Event, Contract, unknown_event_name}
use watcher_ts.Contracts.{Indexer, is_contract_address_watched}
use watcher_ts.Events.{
  start_work, Handlers, Work, on_indexer, for_each, handle_event, handle_watched,
  parse_unknown_event, process_events, advance,
}
use watcher_ts.Events.Keeps.{KeepsEvents}
use watcher_ts.Events.Table.{events_of}
use watcher_ts.Events.Paging.{process_events-for_each}

-- The handler throws at no event.
abbrev pub NeverThrows : Handlers → Type 0
NeverThrows h = (e : Event) (s : Indexer) → (h.process_event e s).0 ≡ ok tt

-- The index of the last event, or the one before if there is none.
abbrev pub last_index : ℤ → List Event → ℤ
last_index index [] = index
last_index index (e ∷ events) = last_index e.index events

-- The loop ended well, with `n` more events counted, the last at `index`.
pub record Progressed (n : ℕ) (index : ℤ) (w : Work) (p : Result (Unit {0}) × Work) : Type 0 where
  pub result : p.0 ≡ ok tt
  pub counted : p.1.block.num_processed_events ≡ w.block.num_processed_events + n
  pub last : p.1.block.last_processed_event_index ≡ index

ok≢err : {u : Unit {0}} {e : Error} → ok u ≢ err e
ok≢err p = ground arith

module _ (h : Handlers) (never : NeverThrows h) where
  parsed_block :
      (contracts : List Contract) (e : Event) (w : Work)
      → (parse_unknown_event h contracts e w).1.block ≡ w.block
  parsed_block contracts e w = step (h.parse_event contracts e)
    where
      step :
          (o : Option ℕ)
          → (elim o as (λ _. Event × Work) [
            | none ↦ (e, w)
            | some name ↦
                let parsed = record e { event_name = name } in
                (parsed, record w { updated = w.updated ++ parsed ∷ [] })
          ]).1.block
            ≡ w.block
      step none = refl
      step (some name) = refl

  handle_watched_block :
      (contracts : List Contract) (e : Event) (w : Work)
      → ((handle_watched h contracts e w).0 ≡ ok tt)
        × ((handle_watched h contracts e w).1.block ≡ w.block)
  handle_watched_block contracts e w =
      step (e.event_name == unknown_event_name) (parse_unknown_event h contracts e w)
        (parsed_block contracts e w)
    where
      step :
          (b : Bool) (p : Event × Work)
          → p.1.block ≡ w.block
          → ((let (e', w') = if b then p else (e, w) in on_indexer (h.process_event e') w').0
              ≡ ok tt)
            × ((let (e', w') = if b then p else (e, w) in
                  on_indexer (h.process_event e') w').1.block
                ≡ w.block)
      step true (e', w') k = (never e' w'.indexer, k)
      step false p k = (never e w.indexer, refl)

  handle_event-Progressed : (e : Event) (w : Work) → Progressed 1 e.index w (handle_event h e w)
  unfolding handle_event
  handle_event-Progressed e w = step (is_contract_address_watched w.indexer.watched e.contract)
    where
      advanced :
          (p : Result Unit × Work)
          → p.0 ≡ ok tt
          → p.1.block ≡ w.block
          → Progressed 1 e.index w (((λ (v : Work). p) >> modify (advance e.index)) w)
      advanced (ok _, v) k b = record {
        result = refl;
        counted = ap (λ block. block.num_processed_events + 1) b;
        last = refl;
      }
      advanced (err error, v) k b = absurd (ok≢err (sym k))

      step :
          (o : Option (List Contract))
          → Progressed 1 e.index w (elim o as (λ _. Result (Unit {0}) × Work) [
            | none ↦ modify (advance e.index) w
            | some contracts ↦ (handle_watched h contracts e >> modify (advance e.index)) w
          ])
      step none = record { result = refl; counted = refl; last = refl }
      step (some contracts) =
          let (k, b) = handle_watched_block contracts e w in
          advanced (handle_watched h contracts e w) k b

  for_each-Progressed :
      (events : List Event) (w : Work)
      → Progressed
          (length events)
          (last_index w.block.last_processed_event_index events)
          w
          (for_each (handle_event h) events w)
  for_each-Progressed [] w = record { result = refl; counted = omega arith; last = refl }
  for_each-Progressed (e ∷ events) w =
      step (handle_event h e w) (handle_event-Progressed e w) (λ v. for_each-Progressed events v)
    where
      step :
          (p : Result Unit × Work)
          → Progressed 1 e.index w p
          → ((v : Work)
              → Progressed
                  (length events)
                  (last_index v.block.last_processed_event_index events)
                  v
                  (for_each (handle_event h) events v))
          → Progressed
              (length (e ∷ events))
              (last_index e.index events)
              w
              (((λ (v : Work). p) >> for_each (handle_event h) events) w)
      step (err error, v) k ih = absurd (ok≢err (sym k.result))
      step (ok _, v) k ih = record {
        result = (ih v).result;
        counted = omega (arith, (ih v).counted, k.counted);
        last = (ih v).last ∙ ap (λ index. last_index index events) k.last;
      }

  -- With a handler that throws at no event and writes neither events nor blocks, and a table that has
  -- as many events for the block as the block counts, `_processEvents` ends without an error, has
  -- counted each of the block's events once, and leaves the last of their indices in the block.
  pub process_events-Progressed :
      KeepsEvents h
      → (n : ℕ) (w : Work) → 0 < n
      → length (events_of w.block.block_hash w.indexer.db) ≡ w.block.num_events
      → Progressed w.block.num_events
          (last_index w.block.last_processed_event_index
            (events_of w.block.block_hash w.indexer.db))
          w
          (process_events h n w)
  process_events-Progressed keeps n w pn count =
      let same = process_events-for_each h keeps n w pn count in
      let done = for_each-Progressed (events_of w.block.block_hash w.indexer.db) (start_work w) in
      record {
        result = ap (λ p. p.0) same ∙ done.result;
        counted =
            ap (λ p. p.1.block.num_processed_events) same
            ∙ done.counted
            ∙ ap (λ k. w.block.num_processed_events + k) count;
        last = ap (λ p. p.1.block.last_processed_event_index) same ∙ done.last;
      }
