-- ===== src/Historical/Coverage.antt =====
-- The ranges of blocks that historical processing goes through.
use watcher_ts.Common.{
  ℕ, zero, suc, Bool, false, some, List, [], ◌∷◌, ◌++◌, Action, Result, ok, pure, ◌>>=◌, Ends,
  Ends-pure, Ends-bind, Ends-same, ◌≡◌, refl, sym, ap, subst, ◌∙◌, inl, inr, arith, Bool-cases,
  if◌then◌else◌,
}
use watcher_ts.Common.Int.{
  ltb_ℤ→lt, next_le, next_enough, after_before, ℤ, pos, ◌+ℤ◌, ◌≤ℤ◌, ◌<ℤ◌, ltb_ℤ, +ℤ_parts,
}
use watcher_ts.Historical.{
  HistoricalJob, HistoricalResponse, Runner, Services, next_job, process_historical_blocks,
  processed_range, run_historical_jobs,
}
use watcher_ts.Historical.Batch.{Reliable, Ready, StatusAt, BatchDone, completed, batch_end}
use watcher_ts.Historical.Job.{process_historical_blocks-BatchDone}

-- Ranges that follow one another without a gap or an overlap, from `start` to `end`.
pub data Tiles : ℤ → ℤ → List (ℤ × ℤ) → Type 0 where
  whole : {start end : ℤ} → start ≤ℤ end → Tiles start end ((start, end) ∷ [])
  split :
      {start middle end : ℤ} {ranges : List (ℤ × ℤ)}
      → start ≤ℤ middle
      → middle <ℤ end
      → Tiles (middle +ℤ pos 1) end ranges
      → Tiles start end ((start, middle) ∷ ranges)

-- What is left when historical processing has come to `end`.
pub record Covered (start end : ℤ) (ranges : List (ℤ × ℤ)) (t : Runner) : Type 0 where
  pub tiles : Tiles start end ranges
  pub no_jobs : t.historical_jobs ≡ []
  pub upto : t.historical_processing_completed_upto ≡ some end
  pub status : StatusAt end t.indexer

module _ (range : ℤ) (not_negative : pos 0 ≤ℤ range) where
  batch_end_above :
      (job : HistoricalJob)
      → job.block_number ≤ℤ job.processing_end_block_number
      → job.block_number ≤ℤ batch_end range job
  batch_end_above job le = ground (arith, le, not_negative, +ℤ_parts job.block_number range)

  batch_end_last :
      (job : HistoricalJob)
      → ltb_ℤ (batch_end range job) job.processing_end_block_number ≡ false
      → batch_end range job ≡ job.processing_end_block_number
  batch_end_last job e = ground (arith, e)

module _ (services : Services) (range : ℤ) (reliable : Reliable services)
    (not_negative : pos 0 ≤ℤ range) where
  idle :
      (fuel : ℕ) (s : Runner)
      → s.historical_jobs ≡ []
      → run_historical_jobs services range fuel s ≡ (ok [], s)
  unfolding run_historical_jobs
  idle zero s e = ground (arith, e)
  idle (suc fuel) s e = ground (arith, e)

  abbrev run_job : ℕ → HistoricalJob → Action Runner (List (ℤ × ℤ))
  run_job fuel job = process_historical_blocks services range job >>= λ r.
      run_historical_jobs services range fuel >>= λ ranges.
      pure (processed_range services range job r ++ ranges)

  first_job :
      (fuel : ℕ) (job : HistoricalJob) (s : Runner)
      → s.historical_jobs ≡ job ∷ []
      → run_historical_jobs services range (suc fuel) s
        ≡ run_job fuel job (record s { historical_jobs = [] })
  unfolding run_historical_jobs
  first_job fuel job s e =
      ap
        (λ jobs. elim jobs as (λ _. Result (List (ℤ × ℤ)) × Runner) [
          | [] ↦ (ok [], s)
          | job' ∷ jobs' ↦ run_job fuel job' (record s { historical_jobs = jobs' })
        ])
        e

  gather :
      (fuel : ℕ) (job : HistoricalJob) (r : HistoricalResponse) (t : Runner) (end : ℤ)
      → r ≡ completed end
      → Ends
          (Covered (end +ℤ pos 1) job.processing_end_block_number)
          (run_historical_jobs services range fuel)
          t
      → job.block_number ≤ℤ end
      → end <ℤ job.processing_end_block_number
      → Ends
          (Covered job.block_number job.processing_end_block_number)
          (run_historical_jobs services range fuel >>= λ ranges.
            pure (processed_range services range job r ++ ranges))
          t
  gather fuel job r t end response rest le lt =
      Ends-bind (Covered (end +ℤ pos 1) job.processing_end_block_number)
        (Covered job.block_number job.processing_end_block_number)
        (run_historical_jobs services range fuel)
        (λ ranges. pure (processed_range services range job r ++ ranges)) t rest
        (λ ranges u k.
          Ends-pure (Covered job.block_number job.processing_end_block_number)
            (processed_range services range job r ++ ranges) u
            (subst (λ l. Covered job.block_number job.processing_end_block_number (l ++ ranges) u)
              (sym (ap (processed_range services range job) response))
              (record {
                tiles = split le lt k.tiles;
                no_jobs = k.no_jobs;
                upto = k.upto;
                status = k.status;
              })))

  finish :
      (fuel : ℕ) (job : HistoricalJob) (r : HistoricalResponse) (t : Runner) (end : ℤ)
      → BatchDone job [] end false r t
      → job.block_number ≤ℤ end
      → Ends
          (Covered job.block_number end)
          (run_historical_jobs services range fuel >>= λ ranges.
            pure (processed_range services range job r ++ ranges))
          t
  finish fuel job r t end done le =
      Ends-bind (λ ranges u. (ranges ≡ []) × (u ≡ t)) (Covered job.block_number end)
        (run_historical_jobs services range fuel)
        (λ ranges. pure (processed_range services range job r ++ ranges)) t
        (record { value = []; state = t; runs = idle fuel t done.pending; holds = (refl, refl) })
        (λ ranges u same.
          Ends-pure (Covered job.block_number end) (processed_range services range job r ++ ranges)
            u
            (subst
              (λ v. Covered job.block_number end (processed_range services range job r ++ ranges) v)
              (sym same.1)
              (subst (λ l. Covered job.block_number end l t)
                (sym (
                  ap (λ l. processed_range services range job r ++ l) same.0
                  ∙ ap (λ r. processed_range services range job r ++ []) done.response))
                (record {
                  tiles = whole le;
                  no_jobs = done.pending;
                  upto = done.upto;
                  status = done.status;
                }))))

  -- If the services do not fail and the range of a batch is not negative, a job for the blocks from
  -- a start to an end, alone in its queue and ready to start, with fuel above their difference, leads
  -- to batches that end without an error, follow one another from the start to the end without a gap
  -- or an overlap, and leave no job, the end as the block that historical processing has come to, and
  -- the end as the canonical, indexed and chain head block number of the sync status.
  pub run_historical_jobs-Covered :
      (fuel : ℕ) (job : HistoricalJob) (s : Runner)
      → s.historical_jobs ≡ job ∷ []
      → job.block_number ≤ℤ job.processing_end_block_number
      → job.processing_end_block_number <ℤ job.block_number +ℤ pos fuel
      → Ready job.block_number s
      → Ends
          (Covered job.block_number job.processing_end_block_number)
          (run_historical_jobs services range fuel)
          s
  run_historical_jobs-Covered zero job s e le enough ready =
      absurd (omega (arith, le, enough, +ℤ_parts job.block_number (pos 0)))
  run_historical_jobs-Covered (suc fuel) job s e le enough ready =
      Ends-same (run_historical_jobs services range (suc fuel)) (run_job fuel job) s
        (record s { historical_jobs = [] }) (first_job fuel job s e)
        (Ends-bind
          (BatchDone job [] (batch_end range job)
            (ltb_ℤ (batch_end range job) job.processing_end_block_number))
          (Covered job.block_number job.processing_end_block_number)
          (process_historical_blocks services range job)
          (λ r. run_historical_jobs services range fuel >>= λ ranges.
            pure (processed_range services range job r ++ ranges))
          (record s { historical_jobs = [] })
          (process_historical_blocks-BatchDone services range reliable job
            (record s { historical_jobs = [] })
            (record { follows = ready.follows; no_error = ready.no_error; status = ready.status }))
          (λ r t done.
            elim (Bool-cases (ltb_ℤ (batch_end range job) job.processing_end_block_number)) [
              | inl more ↦
                  gather fuel job r t (batch_end range job) done.response
                    (run_historical_jobs-Covered fuel (next_job job (batch_end range job)) t
                      (done.pending ∙ ap (λ b. pending b) more)
                      (next_le (batch_end range job) job.processing_end_block_number
                        (ltb_ℤ→lt (batch_end range job) job.processing_end_block_number more))
                      (next_enough fuel job.block_number (batch_end range job)
                        job.processing_end_block_number (batch_end_above range not_negative job le)
                        enough)
                      (record {
                        follows =
                            inr (done.upto ∙ ap (λ n. some n) (after_before (batch_end range job)));
                        no_error = done.no_error;
                        status = (done.status.row, done.status.there);
                      }))
                    (batch_end_above range not_negative job le)
                    (ltb_ℤ→lt (batch_end range job) job.processing_end_block_number more)
              | inr no_more ↦
                  subst
                    (λ end.
                      Ends (Covered job.block_number end)
                        (run_historical_jobs services range fuel >>= λ ranges.
                          pure (processed_range services range job r ++ ranges))
                        t)
                    (batch_end_last range not_negative job no_more)
                    (finish fuel job r t (batch_end range job)
                      (subst (λ b. BatchDone job [] (batch_end range job) b r t) no_more done)
                      (batch_end_above range not_negative job le))
            ]))
    where
      pending : Bool → List HistoricalJob
      pending b = if b then [] ++ next_job job (batch_end range job) ∷ [] else []
