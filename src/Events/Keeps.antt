-- ===== src/Events/Keeps.antt =====
-- What the loop over a block's events leaves as it is.
use watcher_ts.Common.{
  if◌then◌else◌, modify, ℕ, Bool, true, false, Option, none, some, List, [], ◌∷◌, ◌++◌, ◌==◌, ◌≡◌,
  refl, ◌∙◌, Action, ok, err, ◌>>◌, Result,
}
use watcher_ts.Tables.{Event, Contract, unknown_event_name}
use watcher_ts.Contracts.{Indexer, is_contract_address_watched}
use watcher_ts.Events.{
  Handlers, Work, on_indexer, for_each, handle_event, handle_watched, parse_unknown_event, advance,
}

-- The handler writes neither of the tables of events and blocks.
abbrev pub KeepsEvents : Handlers → Type 0
KeepsEvents h =
    (e : Event) (s : Indexer)
    → ((h.process_event e s).1.db.events ≡ s.db.events)
      × ((h.process_event e s).1.db.blocks ≡ s.db.blocks)

-- What the loops read stays.
pub record Keeps (w v : Work) : Type 0 where
  pub events : v.indexer.db.events ≡ w.indexer.db.events
  pub blocks : v.indexer.db.blocks ≡ w.indexer.db.blocks
  pub block_hash : v.block.block_hash ≡ w.block.block_hash
  pub num_events : v.block.num_events ≡ w.block.num_events

pub Keeps-refl : (w : Work) → Keeps w w
Keeps-refl w = record { events = refl; blocks = refl; block_hash = refl; num_events = refl }

pub Keeps-trans : {u v w : Work} → Keeps u v → Keeps v w → Keeps u w
Keeps-trans p q = record {
  events = q.events ∙ p.events;
  blocks = q.blocks ∙ p.blocks;
  block_hash = q.block_hash ∙ p.block_hash;
  num_events = q.num_events ∙ p.num_events;
}

module _ {S A : Type 0} (f : A → Action S Unit) where
  pub for_each-append :
      (xs ys : List A) (s : S) → for_each f (xs ++ ys) s ≡ (for_each f xs >> for_each f ys) s
  for_each-append [] ys s = refl
  for_each-append (x ∷ xs) ys s = step (f x s) (λ v. for_each-append xs ys v)
    where
      step :
          (p : Result Unit × S)
          → ((v : S) → for_each f (xs ++ ys) v ≡ (for_each f xs >> for_each f ys) v)
          → ((λ _. p) >> for_each f (xs ++ ys)) s ≡ (((λ _. p) >> for_each f xs) >> for_each f ys) s
      step (ok a, v) ih = ih v
      step (err e, v) ih = refl

module _ (h : Handlers) (keeps : KeepsEvents h) where
  pub process_event-Keeps :
      (w : Work) (p : Event × Work) → Keeps w p.1 → Keeps w (on_indexer (h.process_event p.0) p.1).1
  process_event-Keeps w (e, v) k = record {
    events = (keeps e v.indexer).0 ∙ k.events;
    blocks = (keeps e v.indexer).1 ∙ k.blocks;
    block_hash = k.block_hash;
    num_events = k.num_events;
  }

  parsed-Keeps :
      (contracts : List Contract) (e : Event) (w : Work)
      → Keeps w (parse_unknown_event h contracts e w).1
  parsed-Keeps contracts e w = step (h.parse_event contracts e)
    where
      step :
          (o : Option ℕ)
          → Keeps w
              (elim o as (λ _. Event × Work) [
                | none ↦ (e, w)
                | some name ↦
                    let parsed = record e { event_name = name } in
                    (parsed, record w { updated = w.updated ++ parsed ∷ [] })
              ]).1
      step none = Keeps-refl w
      step (some name) = record {
        events = refl;
        blocks = refl;
        block_hash = refl;
        num_events = refl;
      }

  handle_watched-Keeps :
      (contracts : List Contract) (e : Event) (w : Work)
      → Keeps w (handle_watched h contracts e w).1
  handle_watched-Keeps contracts e w =
      process_event-Keeps w
        (if e.event_name == unknown_event_name then parse_unknown_event h contracts e w else (e, w))
        (either (e.event_name == unknown_event_name) (parse_unknown_event h contracts e w) (e, w)
          (parsed-Keeps contracts e w) (Keeps-refl w))
    where
      either :
          (b : Bool) (p q : Event × Work)
          → Keeps w p.1
          → Keeps w q.1
          → Keeps w (if b then p else q).1
      either true p q k l = k
      either false p q k l = l

  pub handle_event-Keeps : (e : Event) (w : Work) → Keeps w (handle_event h e w).1
  unfolding handle_event
  handle_event-Keeps e w = step (is_contract_address_watched w.indexer.watched e.contract)
    where
      advanced :
          (p : Result Unit × Work)
          → Keeps w p.1
          → Keeps w (((λ (v : Work). p) >> modify (advance e.index)) w).1
      advanced (ok _, v) k = record {
        events = k.events;
        blocks = k.blocks;
        block_hash = k.block_hash;
        num_events = k.num_events;
      }
      advanced (err error, v) k = k

      step :
          (o : Option (List Contract))
          → Keeps w
              (elim o as (λ _. Result (Unit {0}) × Work) [
                | none ↦ modify (advance e.index) w
                | some contracts ↦ (handle_watched h contracts e >> modify (advance e.index)) w
              ]).1
      step none = record { events = refl; blocks = refl; block_hash = refl; num_events = refl }
      step (some contracts) =
          advanced (handle_watched h contracts e w) (handle_watched-Keeps contracts e w)

  pub for_each-Keeps : (es : List Event) (w : Work) → Keeps w (for_each (handle_event h) es w).1
  for_each-Keeps [] w = Keeps-refl w
  for_each-Keeps (e ∷ es) w =
      step (handle_event h e w) (handle_event-Keeps e w) (λ v. for_each-Keeps es v)
    where
      step :
          (p : Result Unit × Work)
          → Keeps w p.1
          → ((v : Work) → Keeps v (for_each (handle_event h) es v).1)
          → Keeps w (((λ (v : Work). p) >> for_each (handle_event h) es) w).1
      step (ok _, v) k ih = Keeps-trans k (ih v)
      step (err error, v) k ih = k
