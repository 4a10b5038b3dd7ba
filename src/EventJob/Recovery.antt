-- ===== src/EventJob/Recovery.antt =====
-- How a job ends, with an error and without one.
use watcher_ts.Common.{
  ℕ, Bool, true, false, not, ◌&&◌, ◌==◌, Option, none, some, List, [], any, filter, ◌≡◌, refl, sym,
  ap, subst, ◌∙◌, arith, set_at, if◌then◌else◌, Result, Error, ok, err, pure, modify, throw, ◌>>=◌,
  ◌>>◌, assertion, expect,
}
use watcher_ts.Common.Int.{ℤ, eqb_ℤ}
use watcher_ts.Historical.{truthy}
use watcher_ts.Tables.{BlockProgress, SyncStatus}
use watcher_ts.Sync.{update_sync_status_indexing_error}
use watcher_ts.Sync.Database
use watcher_ts.Events.{Handlers}
use watcher_ts.Reset.{Watcher, db_of, clear_processed_block_data}
use watcher_ts.Reset
use watcher_ts.Reset.Rollback.{clear_processed_block_data-exact}
use watcher_ts.EventJob.{
  EventRunner, on_watcher, run_batch, restart_historical, after_batch, settle, set_error, attempt,
  delete_jobs, recover, catch_with, process_events_job,
}

module _ {Bytes : Type 0} where
  -- No job is pending, none of the block's entities and contracts is left, and the status has the
  -- flag of an error.
  pub record IsRecovered (names : List ℕ) (b : BlockProgress) (t u : EventRunner Bytes)
      : Type 0 where
    pub flag : u.error_in_events_processing ≡ true
    pub no_events_jobs : u.events_jobs ≡ []
    pub no_historical_jobs : u.historical_jobs ≡ []
    pub entities :
        (name : ℕ)
        → any (λ m. name == m) names ≡ true
        → u.watcher.entities name
          ≡ filter (λ e. not (e.block_hash == b.block_hash)) (t.watcher.entities name)
    pub contracts :
        (db_of u.watcher).contracts
        ≡ filter (λ c. not (eqb_ℤ c.starting_block b.block_number)) (db_of t.watcher).contracts
    pub status :
        (st : SyncStatus) → (db_of u.watcher).sync_status ≡ some st → st.has_indexing_error ≡ true

  -- The error is thrown again after that; without one, the flag is off and the block is dropped.
  abbrev pub AfterJob :
      List ℕ → BlockProgress → EventRunner Bytes → Result (Unit {0}) × EventRunner Bytes → Type 0
  AfterJob names b t (ok _, u) =
      (u.error_in_events_processing ≡ false) × (u.kept_blocks b.block_hash ≡ none)
  AfterJob names b t (err _, u) = IsRecovered names b t u

  -- The flag is set where there is a status.
  record IsFlagged (w : Watcher Bytes) : Type 0 where
    value : Option SyncStatus
    state : Watcher Bytes
    runs : Reset.on_db (update_sync_status_indexing_error true) w ≡ (ok value, state)
    entities : state.entities ≡ w.entities
    contracts : (db_of state).contracts ≡ (db_of w).contracts
    status : (st : SyncStatus) → (db_of state).sync_status ≡ some st → st.has_indexing_error ≡ true

  flagged : (w : Watcher Bytes) → IsFlagged w
  unfolding update_sync_status_indexing_error Database.update_sync_status_indexing_error
  flagged w = step (db_of w).sync_status
    where
      with_status : Option SyncStatus → Watcher Bytes
      with_status found = record w {
        indexer = record w.indexer {
          indexer = record w.indexer.indexer { db = record (db_of w) { sync_status = found } };
        };
      }

      step : (found : Option SyncStatus) → IsFlagged (with_status found)
      step none = record {
        value = none;
        state = with_status none;
        runs = refl;
        entities = refl;
        contracts = refl;
        status = λ st e. absurd (ground (arith, e));
      }
      step (some entity) = record {
        value = some (record entity { has_indexing_error = true });
        state = with_status (some (record entity { has_indexing_error = true }));
        runs = refl;
        entities = refl;
        contracts = refl;
        status = λ st e. ground (arith, e);
      }

  recover-IsRecovered :
      (names : List ℕ) (b : BlockProgress) (e : Error) (t : EventRunner Bytes)
      → AfterJob names b t ((recover names b >> throw e) t)
  unfolding recover
  recover-IsRecovered names b e t =
      let (w, cleared, entities, contracts, _, _) =
        clear_processed_block_data-exact b names t.watcher in
      let f = flagged w in
      subst (λ (p : Result (Unit {0}) × Watcher Bytes). AfterJob names b t (after p)) (sym cleared)
        (subst (λ (p : Result (Option SyncStatus) × Watcher Bytes). AfterJob names b t (last w p))
          (sym f.runs)
          (record {
            flag = refl;
            no_events_jobs = refl;
            no_historical_jobs = refl;
            entities = λ name named.
                ap (λ tables. tables name) f.entities
                ∙ entities name
                ∙ ap
                    (λ c.
                      if c
                      then filter (λ e. not (e.block_hash == b.block_hash))
                          (t.watcher.entities name)
                      else t.watcher.entities name)
                    named;
            contracts = f.contracts ∙ contracts;
            status = f.status;
          }))
    where
      -- The calls after the block's data is cleared, and after the flag is set.
      last :
          Watcher Bytes
          → Result (Option SyncStatus) × Watcher Bytes
          → Result (Unit {0}) × EventRunner Bytes
      last w p =
          (((λ (s : EventRunner Bytes). (p.0, record s { watcher = p.1 })) >> pure tt) >> throw e)
            (delete_jobs (record (set_error true t) { watcher = w }))

      after : Result (Unit {0}) × Watcher Bytes → Result (Unit {0}) × EventRunner Bytes
      after p =
          (((λ (s : EventRunner Bytes). (p.0, record s { watcher = p.1 }))
                >> (modify delete_jobs
                    >> (on_watcher (Reset.on_db (update_sync_status_indexing_error true))
                        >> pure tt)))
              >> throw e)
            (set_error true t)

  restart_historical-kept :
      (b : BlockProgress) (upto : Option ℤ) (s : EventRunner Bytes)
      → (restart_historical b upto s).kept_blocks ≡ s.kept_blocks
  restart_historical-kept b none s = refl
  restart_historical-kept b (some upto) s = ground arith

  after_batch-dropped :
      (restart : Bool) (b : BlockProgress) (s : EventRunner Bytes)
      → (after_batch restart b s).kept_blocks b.block_hash ≡ none
  unfolding after_batch
  after_batch-dropped false b s = ground arith
  after_batch-dropped true b s =
      ap (λ (blocks : ℕ → Option BlockProgress). blocks b.block_hash)
        (restart_historical-kept b (truthy s.historical_processing_completed_upto)
          (record s { kept_blocks = set_at b.block_hash none s.kept_blocks }))
      ∙ ground arith

  module _ (h : Handlers) (subgraph_events_order : Bool) (n : ℕ) (names : List ℕ)
      (b : BlockProgress) (retry_count : ℕ) where
    -- The `try` block after the events, and after the calls that settle the block.
    abbrev settled :
        Result (Unit {0}) × Watcher Bytes
        → EventRunner Bytes
        → Result (Unit {0}) × EventRunner Bytes
    settled p s =
        ((λ (v : EventRunner Bytes). (p.0, record v { watcher = p.1 })) >> modify (set_error false))
          s

    settled-dropped :
        (p : Result (Unit {0}) × Watcher Bytes) (s : EventRunner Bytes)
        → s.kept_blocks b.block_hash ≡ none
        → (a : Unit {0}) → (settled p s).0 ≡ ok a
        → ((settled p s).1.error_in_events_processing ≡ false)
          × ((settled p s).1.kept_blocks b.block_hash ≡ none)
    settled-dropped (err e, w) s dropped a = λ done. absurd (ground (arith, done))
    settled-dropped (ok _, w) s dropped a = λ done. (refl, dropped)

    attempt-dropped :
        (s : EventRunner Bytes) (a : Unit {0})
        → (attempt h subgraph_events_order n names b retry_count s).0 ≡ ok a
        → ((attempt h subgraph_events_order n names b retry_count s).1.error_in_events_processing
            ≡ false)
          × ((attempt h subgraph_events_order n names b retry_count s).1.kept_blocks b.block_hash
              ≡ none)
    unfolding attempt
    attempt-dropped s a = step (run_batch h subgraph_events_order n b s)
      where
        tried : Result Bool × EventRunner Bytes → Result (Unit {0}) × EventRunner Bytes
        tried p =
            ((λ (_ : EventRunner Bytes). p) >>= λ is_new.
            modify (after_batch (is_new && h.filter_logs_by_addresses) b)
            >> (on_watcher (settle b retry_count names) >> modify (set_error false)))
              s

        step :
            (p : Result Bool × EventRunner Bytes)
            → (tried p).0 ≡ ok a
            → ((tried p).1.error_in_events_processing ≡ false)
              × ((tried p).1.kept_blocks b.block_hash ≡ none)
        step (err e, v) = λ done. absurd (ground (arith, done))
        step (ok is_new, v) =
            let t = after_batch (is_new && h.filter_logs_by_addresses) b v in
            settled-dropped (settle b retry_count names t.watcher) t
              (after_batch-dropped (is_new && h.filter_logs_by_addresses) b v) a

    -- A job of events ends in one of two ways, for a block that is in the map. Without an error, the
    -- runner's flag of an error is off and the block has left the map. With an error, at whichever
    -- step of the attempt, the flag is on, no job of events and no historical job is pending, each
    -- of the entities named has lost its rows of the block, the table has lost the contracts that
    -- start at the block's number, and the sync status, if there is one, has the flag too.
    pub process_events_job-AfterJob :
        (hash : ℕ) (s : EventRunner Bytes)
        → s.kept_blocks hash ≡ some b
        → AfterJob names b
            (attempt h subgraph_events_order n names b retry_count s).1
            (process_events_job h subgraph_events_order n names hash retry_count s)
    unfolding process_events_job
    process_events_job-AfterJob hash s kept =
        subst (λ found. AfterJob names b tried.1 (started found)) (sym kept) (step tried refl)
      where
        tried : Result (Unit {0}) × EventRunner Bytes
        tried = attempt h subgraph_events_order n names b retry_count s

        started : Option BlockProgress → Result (Unit {0}) × EventRunner Bytes
        started found =
            (expect found assertion >>= λ c.
            catch_with (attempt h subgraph_events_order n names c retry_count) (recover names c))
              s

        step :
            (p : Result (Unit {0}) × EventRunner Bytes)
            → tried ≡ p
            → AfterJob names b tried.1 (catch_with (λ _. p) (recover names b) s)
        step (ok a, t) e =
            let d =
              attempt-dropped s a (ap (λ (q : Result (Unit {0}) × EventRunner Bytes). q.0) e) in
            subst
              (λ (u : EventRunner Bytes).
                (u.error_in_events_processing ≡ false) × (u.kept_blocks b.block_hash ≡ none))
              (ap (λ (q : Result (Unit {0}) × EventRunner Bytes). q.1) e) d
        step (err x, t) e =
            subst (λ (u : EventRunner Bytes). AfterJob names b u ((recover names b >> throw x) t))
              (sym (ap (λ (q : Result (Unit {0}) × EventRunner Bytes). q.1) e))
              (recover-IsRecovered names b x t)
