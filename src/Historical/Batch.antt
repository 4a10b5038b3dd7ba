-- ===== src/Historical/Batch.antt =====
-- One job of historical processing, when the services that it calls do not fail.
use watcher_ts.Common.{
  Bool, true, false, Option, none, some, List, [], ◌∷◌, ◌++◌, if◌then◌else◌, Action, Result, ok,
  pure, modify, ◌>>◌, Ends, Ends-pure, Ends-bind, Ends-weaken, ◌≡◌, refl, ap, ◌∙◌, ◌⊎◌, inl, inr,
  arith, Bool-cases,
}
use watcher_ts.Common.Int.{ -ℤ_parts, ℤ, pos, ◌+ℤ◌, ◌-ℤ◌, ltb_ℤ, eqb_ℤ, min_ℤ, eqb_ℤ_refl}
use watcher_ts.Tables.{SyncStatus}
use watcher_ts.Sync.Database.{SyncStatusChange, spread}
use watcher_ts.Sync.Database
use watcher_ts.Sync.{update_sync_status}
use watcher_ts.Contracts.{Indexer}
use watcher_ts.Historical.{
  next_job, HistoricalJob, HistoricalResponse, Runner, Services, on_indexer, on_db, truthy,
  zero_hash_status, delete_jobs, push_historical_job, check_start, switch_if_slow,
}

abbrev pub HasStatus : Indexer → Type 0
HasStatus s = (t : SyncStatus) × (s.db.sync_status ≡ some t)

-- The fetch of a range of blocks succeeds and leaves the sync status there; the checks of the
-- upstream clients succeed and write nothing to the database.
pub record Reliable (services : Services) : Type 0 where
  pub fetches :
      (a b : ℤ) (s : Indexer)
      → HasStatus s
      → Ends (λ _ t. HasStatus t) (services.fetch_and_save a b) s
  pub slow : (s : Indexer) → Ends (λ _ t. t.db ≡ s.db) services.is_get_logs_requests_slow s
  pub switches : (s : Indexer) → Ends (λ _ t. t.db ≡ s.db) services.switch_clients s

-- The next range may start here: it is the first, or the last one ended right before.
pub record Ready (start : ℤ) (s : Runner) : Type 0 where
  pub follows :
      (s.historical_processing_completed_upto ≡ none)
      ⊎ (s.historical_processing_completed_upto ≡ some (start -ℤ pos 1))
  pub no_error : s.error_in_events_processing ≡ false
  pub status : HasStatus s.indexer

-- The status that a batch up to `number` leaves.
pub record StatusAt (number : ℤ) (s : Indexer) : Type 0 where
  pub row : SyncStatus
  pub there : s.db.sync_status ≡ some row
  pub canonical : row.latest_canonical_block_number ≡ number
  pub indexed : row.latest_indexed_block_number ≡ number
  pub chain_head : row.chain_head_block_number ≡ number

-- What a batch up to `end_block` leaves, where `jobs` were pending and there is `more` to do.
pub record BatchDone (job : HistoricalJob) (jobs : List HistoricalJob) (end_block : ℤ) (more : Bool)
    (r : HistoricalResponse) (t : Runner) : Type 0 where
  pub response : r ≡ record { is_complete = true; end_block = some end_block }
  pub upto : t.historical_processing_completed_upto ≡ some end_block
  pub no_error : t.error_in_events_processing ≡ false
  pub status : StatusAt end_block t.indexer
  pub pending : t.historical_jobs ≡ (if more then jobs ++ next_job job end_block ∷ [] else jobs)

abbrev pub completed : ℤ → HistoricalResponse
completed end_block = record { is_complete = true; end_block = some end_block }

abbrev pub batch_end : ℤ → HistoricalJob → ℤ
batch_end range job = min_ℤ (job.block_number +ℤ range) job.processing_end_block_number

pub push_rest-BatchDone :
    (job : HistoricalJob) (jobs : List HistoricalJob) (end_block : ℤ) (more : Bool) (u : Runner)
    → u.historical_processing_completed_upto ≡ some end_block
    → u.error_in_events_processing ≡ false
    → StatusAt end_block u.indexer
    → u.historical_jobs ≡ jobs
    → BatchDone job jobs end_block more
        (record { is_complete = true; end_block = some end_block })
        (if more then push_historical_job (next_job job end_block) u else u)
push_rest-BatchDone job jobs end_block true u p q r e = record {
  response = refl;
  upto = p;
  no_error = q;
  status = r;
  pending = ap (λ l. l ++ next_job job end_block ∷ []) e;
}
push_rest-BatchDone job jobs end_block false u p q r e = record {
  response = refl;
  upto = p;
  no_error = q;
  status = r;
  pending = e;
}

pub StatusAt-same :
    (number : ℤ) (s t : Indexer) → StatusAt number s → t.db ≡ s.db → StatusAt number t
StatusAt-same number s t k same = record {
  row = k.row;
  there = ap (λ db. db.sync_status) same ∙ k.there;
  canonical = k.canonical;
  indexed = k.indexed;
  chain_head = k.chain_head;
}

-- A range that follows the last one does not start before it ended.
follows_after : (start : ℤ) → ltb_ℤ start (start -ℤ pos 1) ≡ false
follows_after start = ground (arith, -ℤ_parts start (pos 1))

pub on_indexer-Ends :
    {A : Type 0} (P : A → Indexer → Type 0) (m : Action Indexer A) (s : Runner)
    → Ends P m s.indexer
    → Ends (λ a t. P a t.indexer × (t ≡ record s { indexer = t.indexer })) (on_indexer m) s
on_indexer-Ends P m s k = record {
  value = k.value;
  state = record s { indexer = k.state };
  runs = ap (λ p. (p.0, record s { indexer = p.1 })) k.runs;
  holds = (k.holds, refl);
}

module _ (services : Services) (range : ℤ) (reliable : Reliable services) where
  pub check_start-Ready :
      (start : ℤ) (s : Runner) → Ready start s → check_start services range start s ≡ (ok true, s)
  unfolding check_start
  check_start-Ready start s ready = elim ready.follows [
    | inl first ↦ ap go first
    | inr next ↦ ap go next ∙ after
  ]
    where
      go : Option ℤ → Result Bool × Runner
      go o = elim (truthy o) [
        | none ↦ (ok true, s)
        | some upto ↦
            if ltb_ℤ start upto
            then (modify delete_jobs
                  >> on_indexer (services.reset_watcher_to_block (start -ℤ pos 1))
                  >> pure true)
                s
            else (ok (eqb_ℤ (start -ℤ pos 1) upto), s)
      ]

      after : go (some (start -ℤ pos 1)) ≡ (ok true, s)
      after = elim (Bool-cases (eqb_ℤ (start -ℤ pos 1) (pos 0))) [
        | inl e ↦ ground (arith, e)
        | inr e ↦ ground (arith, e, follows_after start, eqb_ℤ_refl (start -ℤ pos 1))
      ]

  pub switch_if_slow-Ends :
      (s : Indexer) → Ends (λ _ t. t.db ≡ s.db) (switch_if_slow services range) s
  switch_if_slow-Ends s =
      Ends-bind (λ _ t. t.db ≡ s.db) (λ _ t. t.db ≡ s.db) services.is_get_logs_requests_slow
        (λ slow. if slow then services.switch_clients else pure tt) s (reliable.slow s)
        (λ slow t same. step slow t same)
    where
      step :
          (slow : Bool) (t : Indexer)
          → t.db ≡ s.db
          → Ends (λ _ u. u.db ≡ s.db) (if slow then services.switch_clients else pure tt) t
      step true t same =
          Ends-weaken services.switch_clients t (reliable.switches t) (λ a u e. e ∙ same)
      step false t same = Ends-pure (λ _ u. u.db ≡ s.db) tt t same

  pub updated-StatusAt :
      (number : ℤ) (s : Indexer)
      → HasStatus s
      → Ends (λ _ t. StatusAt number t) (on_db (update_sync_status (zero_hash_status number))) s
  unfolding update_sync_status Database.update_sync_status
  updated-StatusAt number s (row, there) = record {
    value = spread row (zero_hash_status number);
    state = record s {
      db = record s.db { sync_status = some (spread row (zero_hash_status number)) };
    };
    runs =
        ap
          (λ o.
            on_db (update_sync_status (zero_hash_status number))
              (record s { db = record s.db { sync_status = o } }))
          there;
    holds = record {
      row = spread row (zero_hash_status number);
      there = refl;
      canonical = refl;
      indexed = refl;
      chain_head = refl;
    };
  }
