-- ===== src/Reset/Status.antt =====
-- The statuses after a reset.
use watcher_ts.Common.{
  Bool, true, false, Option, none, some, Action, ok, pure, ◌>>◌, ◌≡◌, refl, ◌∙◌, arith,
  if◌then◌else◌, bind_ok,
}
use watcher_ts.Common.Int.{ℤ, min_ℤ, ltb_ℤ}
use watcher_ts.Tables.{BlockProgress, SyncStatus, StateSyncStatus, Db}
use watcher_ts.Sync.Database
use watcher_ts.Sync.{
  get_sync_status, update_sync_status_indexed_block, update_sync_status_processed_block,
  update_sync_status_canonical_block, update_sync_status_chain_head,
}
use watcher_ts.Reset.{
  when, lower_state_indexed, lower_state_checkpoint, lower_indexed, lower_processed,
  lower_canonical, lower_state_status, lower_statuses,
}

-- The status `u` is `t` lowered to the block, which is its chain head.
pub record Lowered (block : BlockProgress) (t u : SyncStatus) : Type 0 where
  pub indexed :
      u.latest_indexed_block_number ≡ min_ℤ t.latest_indexed_block_number block.block_number
  pub processed :
      u.latest_processed_block_number ≡ min_ℤ t.latest_processed_block_number block.block_number
  pub canonical :
      u.latest_canonical_block_number ≡ min_ℤ t.latest_canonical_block_number block.block_number
  pub head_number : u.chain_head_block_number ≡ block.block_number
  pub head_hash : u.chain_head_block_hash ≡ block.block_hash

abbrev pub with_status : SyncStatus → Db → Db
with_status u db = record db { sync_status = some u }

when_lem :
    (b : Bool) (m : Action Db SyncStatus) (u v : SyncStatus) (db : Db)
    → m (with_status u db) ≡ (ok v, with_status v db)
    → when b m (with_status u db) ≡ (ok tt, with_status (if b then v else u) db)
when_lem true m u v db e = bind_ok m (λ _. pure tt) e
when_lem false m u v db e = refl

module _ (block : BlockProgress) (t : SyncStatus) where
  -- What each update makes of the status that is there by then.
  abbrev pub indexed_after : SyncStatus → SyncStatus
  indexed_after u =
      if ltb_ℤ block.block_number t.latest_indexed_block_number
      then record u {
        latest_indexed_block_hash = block.block_hash;
        latest_indexed_block_number = block.block_number;
      }
      else u

  abbrev pub processed_after : SyncStatus → SyncStatus
  processed_after u =
      if ltb_ℤ block.block_number t.latest_processed_block_number
      then record u {
        latest_processed_block_hash = block.block_hash;
        latest_processed_block_number = block.block_number;
      }
      else u

  abbrev pub canonical_after : SyncStatus → SyncStatus
  canonical_after u =
      if ltb_ℤ block.block_number t.latest_canonical_block_number
      then record u {
        latest_canonical_block_hash = block.block_hash;
        latest_canonical_block_number = block.block_number;
      }
      else u

  lower_indexed_lem :
      (u : SyncStatus) (db : Db)
      → lower_indexed block t (with_status u db) ≡ (ok tt, with_status (indexed_after u) db)
  unfolding lower_indexed update_sync_status_indexed_block
  lower_indexed_lem u db =
      when_lem (ltb_ℤ block.block_number t.latest_indexed_block_number)
        (update_sync_status_indexed_block block.block_hash block.block_number true) u
        (record u {
          latest_indexed_block_hash = block.block_hash;
          latest_indexed_block_number = block.block_number;
        })
        db refl

  lower_processed_lem :
      (u : SyncStatus) (db : Db)
      → lower_processed block t (with_status u db) ≡ (ok tt, with_status (processed_after u) db)
  unfolding lower_processed update_sync_status_processed_block
  lower_processed_lem u db =
      when_lem (ltb_ℤ block.block_number t.latest_processed_block_number)
        (update_sync_status_processed_block block.block_hash block.block_number true) u
        (record u {
          latest_processed_block_hash = block.block_hash;
          latest_processed_block_number = block.block_number;
        })
        db refl

  lower_canonical_lem :
      (u : SyncStatus) (db : Db)
      → lower_canonical block t (with_status u db) ≡ (ok tt, with_status (canonical_after u) db)
  unfolding lower_canonical update_sync_status_canonical_block
  lower_canonical_lem u db =
      when_lem (ltb_ℤ block.block_number t.latest_canonical_block_number)
        (update_sync_status_canonical_block block.block_hash block.block_number true) u
        (record u {
          latest_canonical_block_hash = block.block_hash;
          latest_canonical_block_number = block.block_number;
        })
        db refl

abbrev pub with_state_status : Option StateSyncStatus → Db → Db
with_state_status x db = record db { state_sync_status = x }

module _ (block : BlockProgress) (number : ℤ) where
  state_indexed :
      (b : Bool) (y : StateSyncStatus) (db : Db)
      → (x : StateSyncStatus) × ((if b
              then Database.update_state_sync_status_indexed_block number true >> pure tt
              else pure tt)
            (with_state_status (some y) db)
          ≡ (ok tt, with_state_status (some x) db))
  unfolding Database.update_state_sync_status_indexed_block
  state_indexed true y db = (_, refl)
  state_indexed false y db = (y, refl)

  state_checkpoint :
      (b : Bool) (y : StateSyncStatus) (db : Db)
      → (x : StateSyncStatus) × ((if b
              then Database.update_state_sync_status_checkpoint_block number true >> pure tt
              else pure tt)
            (with_state_status (some y) db)
          ≡ (ok tt, with_state_status (some x) db))
  unfolding Database.update_state_sync_status_checkpoint_block
  state_checkpoint true y db = (_, refl)
  state_checkpoint false y db = (y, refl)

  state_status_some :
      (o : Option StateSyncStatus) (db : Db)
      → (x : Option StateSyncStatus) × (lower_state_status block number (with_state_status o db)
          ≡ (ok tt, with_state_status x db))
  unfolding lower_state_status Database.update_state_sync_status_indexed_block
      Database.update_state_sync_status_checkpoint_block
  state_status_some none db = (none, refl)
  state_status_some (some y) db =
      let (x, e) = state_indexed (ltb_ℤ block.block_number y.latest_indexed_block_number) y db in
      let (x', e') =
        state_checkpoint (ltb_ℤ block.block_number y.latest_checkpoint_block_number) x db in
      (
        some x',
        bind_ok (lower_state_indexed block number y) (λ _. lower_state_checkpoint block number y) e
            ∙ e',
      )

  -- The status after the three updates, and after that of the chain head.
  abbrev pub lowered : SyncStatus → SyncStatus
  lowered t = canonical_after block t (processed_after block t (indexed_after block t t))

  abbrev pub reset_status : SyncStatus → SyncStatus
  reset_status t = record (lowered t) {
    chain_head_block_hash = block.block_hash;
    chain_head_block_number = block.block_number;
  }

  pub reset_status-Lowered : (t : SyncStatus) → Lowered block t (reset_status t)
  reset_status-Lowered t = record {
    indexed = ground arith;
    processed = ground arith;
    canonical = ground arith;
    head_number = refl;
    head_hash = refl;
  }

  abbrev move_head : Action Db Unit
  move_head = update_sync_status_chain_head block.block_hash block.block_number true >> pure tt

  pub lower_statuses_some :
      (t : SyncStatus) (db : Db)
      → (x : Option StateSyncStatus) × (lower_statuses block number (with_status t db)
          ≡ (ok tt, with_state_status x (with_status (reset_status t) db)))
  unfolding lower_statuses get_sync_status update_sync_status_chain_head
  lower_statuses_some t db =
      let (x, e) = state_status_some db.state_sync_status (with_status (lowered t) db) in
      (
        x,
        bind_ok (lower_indexed block t)
              (λ _.
                lower_processed block t
                >> (lower_canonical block t >> (lower_state_status block number >> move_head)))
              (lower_indexed_lem block t t db)
            ∙ bind_ok (lower_processed block t)
                (λ _. lower_canonical block t >> (lower_state_status block number >> move_head))
                (lower_processed_lem block t (indexed_after block t t) db)
            ∙ bind_ok (lower_canonical block t) (λ _. lower_state_status block number >> move_head)
                (lower_canonical_lem block t (processed_after block t (indexed_after block t t)) db)
            ∙ bind_ok (lower_state_status block number) (λ _. move_head) e,
      )
