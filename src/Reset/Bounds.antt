-- ===== src/Reset/Bounds.antt =====
-- What is left after a reset.
use watcher_ts.Common.{
  Has, first, Has-filter, ℕ, ◌==◌, Bool, true, false, not, some, List, ◌∷◌, filter, any, head?,
  Action, Result, ok, err, modify, assert, expect, ◌>>=◌, ◌>>◌, assertion, ◌≡◌, refl, sym, ap, ◌∙◌,
  arith, subst, if◌then◌else◌, bind_ok,
}
use watcher_ts.Common.Int.{ℤ, ltb_ℤ}
use watcher_ts.Tables.{BlockProgress, SyncStatus}
use watcher_ts.Blocks.{get_blocks_at_height, at_height}
use watcher_ts.Contracts.{get_watched_contracts, clear_watched_contracts}
use watcher_ts.Contracts.Views.{get_watched_contracts-clear}
use watcher_ts.Events.{for_each}
use watcher_ts.Reset.{
  EntityRow, Watcher, lower_statuses, on_db, transact_watcher, removed_hash, removed_id,
  reset_tables, reset_watcher_to_block, delete_entities_after, delete_contracts, delete_blocks,
  db_of, set_db, is_after, starts_after, clear_watched, restore,
}
use watcher_ts.Reset.Entities.{is_kept, entities_after, entities_after_lem, for_each-entities}
use watcher_ts.Reset.Status.{
  Lowered, with_status, with_state_status, reset_status, reset_status-Lowered, lower_statuses_some,
}

abbrev pub later_entity : ℤ → EntityRow → Bool
later_entity number e = ltb_ℤ number e.block_number

pub first_passes :
    {A : Type 0} (p : A → Bool) (x : A) (xs rest : List A) → filter p xs ≡ x ∷ rest → p x ≡ true
first_passes p x xs rest e = (Has-filter p x xs (subst (Has x) (sym e) (first refl))).1

-- What a reset to the number of a block leaves of a watcher.
pub record IsReset {Bytes : Type 0} (names : List ℕ) (block : BlockProgress) (t : SyncStatus)
    (w u : Watcher Bytes) : Type 0 where
  pub entities :
      (name : ℕ)
      → u.entities name ≡ (
          if any (λ m. name == m) names
          then filter (is_kept (later_entity block.block_number)) (w.entities name)
          else w.entities name)
  pub blocks : (db_of u).blocks ≡ filter (λ b. not (is_after block.block_number b)) (db_of w).blocks
  pub events :
      (db_of u).events
      ≡ filter
          (λ e. not (removed_hash (is_after block.block_number) (db_of w).blocks e))
          (db_of w).events
  pub states :
      u.indexer.states
      ≡ filter
          (λ s. not (removed_id (is_after block.block_number) (db_of w).blocks s))
          w.indexer.states
  pub contracts :
      (db_of u).contracts
      ≡ filter (λ c. not (starts_after block.block_number c)) (db_of w).contracts
  pub watched :
      get_watched_contracts u.indexer.indexer.watched
      ≡ filter
          (λ c. not (starts_after block.block_number c))
          (get_watched_contracts w.indexer.indexer.watched)
  pub status : (v : SyncStatus) × ((db_of u).sync_status ≡ some v) × Lowered block t v

module _ {Bytes : Type 0} where
  -- The tables after the deletions.
  abbrev pub tables_after : ℤ → List ℕ → Watcher Bytes → Watcher Bytes
  tables_after number names w = delete_blocks (is_after number) (
      clear_watched (starts_after number) (
        delete_contracts (starts_after number)
          (record w { entities = entities_after (later_entity number) names w.entities })))

  pub reset_tables_lem :
      (names : List ℕ) (block : BlockProgress) (t : SyncStatus) (w : Watcher Bytes)
      → (db_of w).sync_status ≡ some t
      → (u : Watcher Bytes) × (reset_tables block.block_number names block w ≡ (ok tt, u))
        × IsReset names block t w u
  unfolding reset_tables delete_blocks delete_contracts clear_watched_contracts
  reset_tables_lem names block t w e =
      let v = tables_after block.block_number names w in
      let (x, lowers) = lower_statuses_some block block.block_number t (db_of v) in
      (
        set_db
            (with_state_status x (with_status (reset_status block block.block_number t) (db_of v)))
            v,
        bind_ok (for_each (delete_entities_after block.block_number) names)
              (λ _.
                modify (delete_contracts (starts_after block.block_number))
                >> (modify (clear_watched (starts_after block.block_number))
                    >> (modify (delete_blocks (is_after block.block_number))
                        >> on_db (lower_statuses block block.block_number))))
              (for_each-entities (later_entity block.block_number) names w)
            ∙ ap
                (λ o.
                  on_db (lower_statuses block block.block_number)
                    (set_db (record (db_of v) { sync_status = o }) v))
                e
            ∙ ap (λ p. (p.0, set_db p.1 v)) lowers,
        record {
          entities = entities_after_lem (later_entity block.block_number) names w.entities;
          blocks = refl;
          events = refl;
          states = refl;
          contracts = refl;
          watched =
              get_watched_contracts-clear (starts_after block.block_number)
                w.indexer.indexer.watched;
          status = (
            reset_status block block.block_number t,
            refl,
            reset_status-Lowered block block.block_number t,
          );
        },
      )

  pub transact_ok :
      (op : Action (Watcher Bytes) Unit) (w u : Watcher Bytes)
      → op w ≡ (ok tt, u)
      → transact_watcher op w ≡ (ok tt, u)
  transact_ok op w u e =
      ap
        (λ (p : Result (Unit {0}) × Watcher Bytes).
          elim p.0 as (λ _. Result (Unit {0}) × Watcher Bytes) [
            | ok a ↦ (ok a, p.1)
            | err x ↦ (err x, restore w p.1)
          ])
        e

  -- A reset to a height at which unpruned blocks are there, all complete, with a sync status, ends
  -- without an error. It removes what is above the height and nothing else: the rows of the
  -- entities named, the blocks with their events and states, and the contracts, in the table and in
  -- memory. It lowers the sync status to the first of the blocks.
  pub reset_watcher_to_block-IsReset :
      (number : ℤ) (names : List ℕ) (w : Watcher Bytes) (block : BlockProgress)
      (blocks : List BlockProgress) (t : SyncStatus)
      → filter (at_height number false) (db_of w).blocks ≡ block ∷ blocks
      → any (λ b. not b.is_complete) (block ∷ blocks) ≡ false
      → (db_of w).sync_status ≡ some t
      → (u : Watcher Bytes) × (reset_watcher_to_block number names w ≡ (ok tt, u))
        × (block.block_number ≡ number)
        × IsReset names block t w u
  unfolding reset_watcher_to_block get_blocks_at_height reset_tables
  reset_watcher_to_block-IsReset number names w block blocks t found complete known =
      let (u, runs, is_reset) = reset_tables_lem names block t w known in
      let at = block_at in
      (
        u,
        ap (λ bs. after bs w) found
            ∙ bind_ok (assert (not (any (λ b. not b.is_complete) (block ∷ blocks))) assertion)
                (λ _. transact_watcher (reset_tables number names block))
                (ap (λ b. (if not b then ok tt else err assertion, w)) complete)
            ∙ transact_ok (reset_tables number names block) w u
                (ap (λ n. reset_tables n names block w) (sym at) ∙ runs),
        at,
        is_reset,
      )
    where
      block_at : block.block_number ≡ number
      block_at =
          ground (arith, first_passes (at_height number false) block (db_of w).blocks blocks found)

      after : List BlockProgress → Action (Watcher Bytes) Unit
      after bs = do
        b ← expect (head? bs) assertion
        assert (not (any (λ b. not b.is_complete) bs)) assertion
        transact_watcher (reset_tables number names b)
