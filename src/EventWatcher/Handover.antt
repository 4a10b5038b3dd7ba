-- ===== src/EventWatcher/Handover.antt =====
-- From one run of historical processing to the next, or to realtime processing.
use watcher_ts.Common.{
  Bool, true, false, not, ◌&&◌, Option, none, some, [], ◌∷◌, ◌++◌, ◌≡◌, refl, ap, subst, ◌∙◌, ◌⊎◌,
  inl, inr, arith, Bool-cases, ok, if◌then◌else◌,
}
use watcher_ts.Common.Int.{lt→ltb_ℤ, ltb_ℤ→lt, ℤ, pos, ◌+ℤ◌, ◌-ℤ◌, ◌≤ℤ◌, ◌<ℤ◌, ltb_ℤ, +ℤ_parts}
use watcher_ts.Tables.{SyncStatus}
use watcher_ts.Contracts.{Indexer}
use watcher_ts.Blocks.{max_reorg_depth}
use watcher_ts.Historical.Batch.{StatusAt, completed}
use watcher_ts.EventWatcher.{
  max_fetch_ahead, WatcherConfig, EventWatcher, start_historical_block_processing,
  start_realtime_block_processing, process_block_by_number, start_block_processing,
  historical_processing_complete_handler, historical_end, start_block_number,
}

-- The next block is run in a range if the watcher has no handler of blocks, uses ranges, and the
-- block is more than `max_reorg_depth` ones below the latest.
pub record IsInRange (config : WatcherConfig) (latest start : ℤ) : Type 0 where
  pub no_block_handler : config.block_handler_exists ≡ false
  pub ranges : config.use_block_ranges ≡ true
  pub old : start <ℤ latest -ℤ pos max_reorg_depth

-- What was pushed goes on at `start`: a job for a range of blocks that ends before the last
-- `max_reorg_depth` ones, or a job for the block alone, with which realtime processing starts.
pub data GoesOn (config : WatcherConfig) (latest start : ℤ) (w v : EventWatcher) : Type 0 where
  in_ranges :
      (end : ℤ)
      → IsInRange config latest start
      → start ≤ℤ end
      → end ≤ℤ latest -ℤ pos max_reorg_depth
      → v ≡ record w {
        historical_processing_end_block_number = end;
        historical_jobs =
            w.historical_jobs
            ++ record { block_number = start; processing_end_block_number = end } ∷ [];
      }
      → GoesOn config latest start w v
  in_realtime :
      (IsInRange config latest start → ⊥)
      → v ≡ record w { realtime_processing_started = true; index_jobs = w.index_jobs ++ start ∷ [] }
      → GoesOn config latest start w v

historical_end-above :
    (config : WatcherConfig) (start canonical : ℤ)
    → start <ℤ canonical
    → start ≤ℤ historical_end config start canonical
historical_end-above config start canonical lt =
    ground (arith, lt, +ℤ_parts start (max_fetch_ahead config.historical_max_fetch_ahead))

historical_end-below :
    (config : WatcherConfig) (start canonical : ℤ)
    → historical_end config start canonical ≤ℤ canonical
historical_end-below config start canonical =
    ground (arith, +ℤ_parts start (max_fetch_ahead config.historical_max_fetch_ahead))

last_of_and : (a b c : Bool) → (a && b && c) ≡ true → c ≡ true
last_of_and a b c e = ground (arith, e)

ranges_of_test :
    (config : WatcherConfig) (latest start : ℤ)
    → (not config.block_handler_exists
        && config.use_block_ranges
        && ltb_ℤ start (latest -ℤ pos max_reorg_depth))
      ≡ true
    → IsInRange config latest start
ranges_of_test config latest start e = record {
  no_block_handler = ground (arith, e);
  ranges = ground (arith, e);
  old = ltb_ℤ→lt start (latest -ℤ pos max_reorg_depth) (
      last_of_and (not config.block_handler_exists) config.use_block_ranges
        (ltb_ℤ start (latest -ℤ pos max_reorg_depth)) e);
}

not_in_range :
    (config : WatcherConfig) (latest start : ℤ)
    → (not config.block_handler_exists
        && config.use_block_ranges
        && ltb_ℤ start (latest -ℤ pos max_reorg_depth))
      ≡ false
    → IsInRange config latest start
    → ⊥
not_in_range config latest start e r =
    ground
      (arith, e, r.no_block_handler, r.ranges, lt→ltb_ℤ start (latest -ℤ pos max_reorg_depth) r.old)

-- When realtime processing has not started and no historical job is there, starting goes on with the
-- block after the chain head of the sync status, or at the latest block if there is no status. If
-- the watcher has no handler of blocks and uses ranges, and that block is below the last sixteen,
-- then with a range of blocks that stays out of them; otherwise with that block alone.
pub start_block_processing-GoesOn :
    (config : WatcherConfig) (latest : ℤ) (status : Option SyncStatus) (w : EventWatcher)
    → w.realtime_processing_started ≡ false
    → GoesOn config latest
        (elim status [ none ↦ latest | some t ↦ t.chain_head_block_number +ℤ pos 1 ])
        w
        (start_block_processing config latest 0 status w)
unfolding start_block_processing start_historical_block_processing start_realtime_block_processing
    process_block_by_number
start_block_processing-GoesOn config latest status w not_started =
    subst (λ n. GoesOn config latest n w (start_block_processing config latest 0 status w))
      (start_lem status)
      (step (not config.block_handler_exists && config.use_block_ranges && ltb_ℤ start canonical)
        refl)
  where
    start_lem :
        (o : Option SyncStatus)
        → start_block_number latest o
          ≡ elim o [ none ↦ latest | some t ↦ t.chain_head_block_number +ℤ pos 1 ]
    start_lem none = refl
    start_lem (some t) = refl

    start : ℤ
    start = start_block_number latest status

    canonical : ℤ
    canonical = latest -ℤ pos max_reorg_depth

    step :
        (b : Bool)
        → (not config.block_handler_exists && config.use_block_ranges && ltb_ℤ start canonical) ≡ b
        → GoesOn config latest start w (
            if b
            then start_historical_block_processing config start canonical w
            else start_realtime_block_processing start w)
    step true e =
        let r = ranges_of_test config latest start e in
        in_ranges (historical_end config start canonical) r
          (historical_end-above config start canonical r.old)
          (historical_end-below config start canonical) (ground (arith, not_started))
    step false e = in_realtime (not_in_range config latest start e) (ground (arith, not_started))

-- After the last batch of a historical run, which the sync status says ended at `end`, processing
-- goes on right after `end`; after a batch that ended before the end of the run nothing is pushed.
-- Realtime processing has not started, no historical job is there, and `end` is above 0.
pub complete_handler-GoesOn :
    (config : WatcherConfig) (latest end : ℤ) (s : Indexer) (w : EventWatcher)
    → w.realtime_processing_started ≡ false
    → pos 0 <ℤ end
    → StatusAt end s
    → (v : EventWatcher) × (historical_processing_complete_handler config latest 0 s.db.sync_status
          false
          (completed end)
          w
        ≡ (ok tt, v))
      × ((end <ℤ w.historical_processing_end_block_number) × (v ≡ w)
          ⊎ (w.historical_processing_end_block_number ≤ℤ end)
            × GoesOn config latest (end +ℤ pos 1) w v)
unfolding historical_processing_complete_handler
complete_handler-GoesOn config latest end s w not_started positive at_end =
    elim (Bool-cases (ltb_ℤ w.historical_processing_end_block_number (end +ℤ pos 1))) [
      | inl reached ↦ (
        start_block_processing config latest 0 s.db.sync_status w,
        ground (arith, positive, reached),
        inr (
          omega (
            arith,
            ltb_ℤ→lt w.historical_processing_end_block_number (end +ℤ pos 1) reached,
            +ℤ_parts end (pos 1),
          ),
          subst
              (λ n.
                GoesOn config latest n w
                  (start_block_processing config latest 0 s.db.sync_status w))
              (ap
                  (λ (o : Option SyncStatus). elim o as (λ _. ℤ) [
                    | none ↦ latest
                    | some t ↦ t.chain_head_block_number +ℤ pos 1
                  ])
                  at_end.there
                ∙ ap (λ n. n +ℤ pos 1) at_end.chain_head)
              (start_block_processing-GoesOn config latest s.db.sync_status w not_started),
        ),
      )
      | inr before ↦ (
        w,
        ground (arith, positive, before),
        inl (ground (arith, before, +ℤ_parts end (pos 1)), refl),
      )
    ]
