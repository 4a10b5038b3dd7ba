-- ===== src/Reset/Failure.antt =====
-- A reset that fails.
use watcher_ts.Common.{Has, false, not, none, filter, Result, Error, ok, err, assertion, ◌≡◌, ◌⊎◌}
use watcher_ts.Common.Int.{ℤ}
use watcher_ts.Tables.{BlockProgress, Db}
use watcher_ts.Contracts.{get_watched_contracts}
use watcher_ts.Reset.{Watcher, db_of, starts_after}

-- An unpruned block of the height.
abbrev pub IsThere : ℤ → Db → BlockProgress → Type 0
IsThere number db b = Has b db.blocks × (b.block_number ≡ number) × (b.is_pruned ≡ false)

-- There is no such block, or one that is not complete.
abbrev pub IsUnready : ℤ → Db → Type 0
IsUnready number db =
    ((b : BlockProgress) → IsThere number db b → ⊥)
    ⊎ ((b : BlockProgress) × IsThere number db b × (b.is_complete ≡ false))

module _ {Bytes : Type 0} where
  -- Why a reset fails, and what it leaves in memory.
  abbrev pub Reason : ℤ → Watcher Bytes → Watcher Bytes → Type 0
  Reason number w u =
      (IsUnready number (db_of w) × (u ≡ w))
      ⊎ (((db_of w).sync_status ≡ none)
          × (get_watched_contracts u.indexer.indexer.watched
              ≡ filter (λ c. not (starts_after number c))
                  (get_watched_contracts w.indexer.indexer.watched)))

  pub record IsFailure (number : ℤ) (e : Error) (w u : Watcher Bytes) : Type 0 where
    pub error : e ≡ assertion
    pub entities : u.entities ≡ w.entities
    pub db : db_of u ≡ db_of w
    pub states : u.indexer.states ≡ w.indexer.states
    pub reason : Reason number w u

  error_of : Result (Unit {0}) × Watcher Bytes → Error
  error_of (ok _, _) = assertion
  error_of (err e, _) = e
