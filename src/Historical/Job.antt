-- ===== src/Historical/Job.antt =====
-- One job of historical processing as a whole, when the services that it calls do not fail.
use watcher_ts.Common.{
  Ends-same, Ends-modify, Bool, false, none, List, if◌then◌else◌, Result, ok, err, pure, modify,
  ◌>>=◌, ◌>>◌, Ends, Ends-bind, ◌≡◌, refl, ap, subst, ◌∙◌, arith,
}
use watcher_ts.Common.Int.{ℤ, ltb_ℤ}
use watcher_ts.Tables.{BlockProgress}
use watcher_ts.Sync.{update_sync_status}
use watcher_ts.Historical.{
  set_last_end, set_upto, push_rest, HistoricalJob, HistoricalResponse, Runner, Services,
  on_indexer, on_db, zero_hash_status, push_event_processing_jobs_for_blocks, switch_if_slow,
  complete_batch, push_batch, process_batch, process_historical_blocks,
}
use watcher_ts.Historical.Batch.{
  HasStatus, Reliable, Ready, StatusAt, BatchDone, completed, batch_end, push_rest-BatchDone,
  StatusAt-same, on_indexer-Ends, check_start-Ready, switch_if_slow-Ends, updated-StatusAt,
}

module _ (services : Services) (range : ℤ) (reliable : Reliable services) where
  complete_batch-BatchDone :
      (job : HistoricalJob) (end_block : ℤ) (s : Runner)
      → s.error_in_events_processing ≡ false
      → HasStatus s.indexer
      → Ends
          (BatchDone job s.historical_jobs end_block
            (ltb_ℤ end_block job.processing_end_block_number))
          (complete_batch services range job end_block)
          s
  unfolding complete_batch
  complete_batch-BatchDone job end_block s no_error status =
      Ends-bind (λ _ t. StatusAt end_block t.indexer × (t ≡ record s { indexer = t.indexer }))
        (BatchDone job s.historical_jobs end_block
          (ltb_ℤ end_block job.processing_end_block_number))
        (on_indexer (on_db (update_sync_status (zero_hash_status end_block))))
        (λ _.
          modify (set_upto end_block)
          >> (on_indexer (switch_if_slow services range)
              >> (modify (push_rest job end_block) >> pure (completed end_block))))
        s
        (on_indexer-Ends (λ _ t. StatusAt end_block t)
          (on_db (update_sync_status (zero_hash_status end_block))) s
          (updated-StatusAt services range reliable end_block s.indexer status))
        (λ _ t p.
          Ends-modify _ (set_upto end_block)
            (on_indexer (switch_if_slow services range)
              >> (modify (push_rest job end_block) >> pure (completed end_block)))
            t
            (Ends-bind
              (λ _ u.
                (u.indexer.db ≡ t.indexer.db)
                × (u ≡ record (set_upto end_block t) { indexer = u.indexer }))
              (BatchDone job s.historical_jobs end_block
                (ltb_ℤ end_block job.processing_end_block_number))
              (on_indexer (switch_if_slow services range))
              (λ _. modify (push_rest job end_block) >> pure (completed end_block))
              (set_upto end_block t)
              (on_indexer-Ends (λ _ u. u.db ≡ t.indexer.db) (switch_if_slow services range)
                (set_upto end_block t) (switch_if_slow-Ends services range reliable t.indexer))
              (λ _ u q. record {
                value = completed end_block;
                state = push_rest job end_block u;
                runs = refl;
                holds =
                    push_rest-BatchDone job s.historical_jobs end_block
                      (ltb_ℤ end_block job.processing_end_block_number) u
                      (ap (λ v. v.historical_processing_completed_upto) q.1)
                      (ap (λ v. v.error_in_events_processing) q.1
                        ∙ ap (λ v. v.error_in_events_processing) p.1
                        ∙ no_error)
                      (StatusAt-same end_block t.indexer u.indexer p.0 q.0)
                      (ap (λ v. v.historical_jobs) q.1 ∙ ap (λ v. v.historical_jobs) p.1);
              })))

  push_batch_same :
      (job : HistoricalJob) (end_block : ℤ) (blocks : List BlockProgress) (s : Runner)
      → s.error_in_events_processing ≡ false
      → push_batch services range job end_block blocks s
        ≡ complete_batch services range job end_block
            (push_event_processing_jobs_for_blocks blocks false s)
  unfolding push_batch
  push_batch_same job end_block blocks s no_error = ground (arith, no_error)

  push_batch-BatchDone :
      (job : HistoricalJob) (end_block : ℤ) (blocks : List BlockProgress) (s : Runner)
      → s.error_in_events_processing ≡ false
      → HasStatus s.indexer
      → Ends
          (BatchDone job s.historical_jobs end_block
            (ltb_ℤ end_block job.processing_end_block_number))
          (push_batch services range job end_block blocks)
          s
  unfolding push_event_processing_jobs_for_blocks
  push_batch-BatchDone job end_block blocks s no_error status =
      Ends-same (push_batch services range job end_block blocks)
        (complete_batch services range job end_block) s
        (push_event_processing_jobs_for_blocks blocks false s)
        (push_batch_same job end_block blocks s no_error)
        (complete_batch-BatchDone job end_block
          (push_event_processing_jobs_for_blocks blocks false s) no_error status)

  process_batch-BatchDone :
      (job : HistoricalJob) (s : Runner)
      → s.error_in_events_processing ≡ false
      → HasStatus s.indexer
      → Ends
          (BatchDone job s.historical_jobs
            (batch_end range job)
            (ltb_ℤ (batch_end range job) job.processing_end_block_number))
          (process_batch services range job)
          s
  unfolding process_batch
  process_batch-BatchDone job s no_error status =
      Ends-modify _ (set_last_end job)
        (on_indexer (services.fetch_and_save job.block_number (batch_end range job))
          >>= push_batch services range job (batch_end range job))
        s
        (Ends-bind
          (λ _ t. HasStatus t.indexer × (t ≡ record (set_last_end job s) { indexer = t.indexer }))
          (BatchDone job s.historical_jobs (batch_end range job)
            (ltb_ℤ (batch_end range job) job.processing_end_block_number))
          (on_indexer (services.fetch_and_save job.block_number (batch_end range job)))
          (push_batch services range job (batch_end range job)) (set_last_end job s)
          (on_indexer-Ends (λ _ t. HasStatus t)
            (services.fetch_and_save job.block_number (batch_end range job)) (set_last_end job s)
            (reliable.fetches job.block_number (batch_end range job) s.indexer status))
          (λ blocks t p.
            subst
              (λ jobs.
                Ends
                  (BatchDone job jobs (batch_end range job)
                    (ltb_ℤ (batch_end range job) job.processing_end_block_number))
                  (push_batch services range job (batch_end range job) blocks) t)
              (ap (λ v. v.historical_jobs) p.1)
              (push_batch-BatchDone job (batch_end range job) blocks t
                (ap (λ v. v.error_in_events_processing) p.1 ∙ no_error) p.0)))

  pub process_historical_blocks-BatchDone :
      (job : HistoricalJob) (s : Runner)
      → Ready job.block_number s
      → Ends
          (BatchDone job s.historical_jobs
            (batch_end range job)
            (ltb_ℤ (batch_end range job) job.processing_end_block_number))
          (process_historical_blocks services range job)
          s
  unfolding process_historical_blocks
  process_historical_blocks-BatchDone job s ready =
      Ends-same (process_historical_blocks services range job) (process_batch services range job) s
        s
        (ap
          (λ (p : Result Bool × Runner). elim p.0 as (λ _. Result HistoricalResponse × Runner) [
            | ok go_on ↦
                (if go_on
                    then process_batch services range job
                    else pure (record { is_complete = false; end_block = none }))
                  p.1
            | err e ↦ (err e, p.1)
          ])
          (check_start-Ready services range reliable job.block_number s ready))
        (process_batch-BatchDone job s ready.no_error ready.status)
