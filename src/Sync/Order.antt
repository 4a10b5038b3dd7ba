-- ===== src/Sync/Order.antt =====
-- How the sync status moves: forward under every sequence of calls that are not forced.
use watcher_ts.Common.{ℕ, ◌≡◌, Bool, false, Option, none, some, List, [], ◌∷◌, if◌then◌else◌}
use watcher_ts.Common.Int.{ℤ, ◌≤ℤ◌, leb_ℤ}
use watcher_ts.Tables.{SyncStatus, Db}
use watcher_ts.Sync.{
  update_sync_status_indexed_block, update_sync_status_chain_head,
  update_sync_status_canonical_block, update_sync_status_processed_block,
  update_sync_status_indexing_error,
}
use watcher_ts.Sync.Database.{initial_status}

-- A call that is not forced, with its hash and number, or its flag.
pub data Call : Type 0 where
  indexed chain_head canonical processed : ℕ → ℤ → Call
  indexing_error : Bool → Call

-- What a call leaves in the database, whether it returns or throws.
unfoldable pub perform : Call → Db → Db
unfolding update_sync_status_indexed_block update_sync_status_chain_head
    update_sync_status_canonical_block update_sync_status_processed_block
    update_sync_status_indexing_error
perform (indexed hash number) db = (update_sync_status_indexed_block hash number false db).1
perform (chain_head hash number) db = (update_sync_status_chain_head hash number false db).1
perform (canonical hash number) db = (update_sync_status_canonical_block hash number false db).1
perform (processed hash number) db = (update_sync_status_processed_block hash number false db).1
perform (indexing_error flag) db = (update_sync_status_indexing_error flag db).1

unfoldable pub perform_all : List Call → Db → Db
perform_all [] db = db
perform_all (c ∷ calls) db = perform_all calls (perform c db)

-- From `s` to `t` no number falls, and the first indexed block stays.
pub record NoEarlier (s t : SyncStatus) : Type 0 where
  pub chain_head : s.chain_head_block_number ≤ℤ t.chain_head_block_number
  pub indexed : s.latest_indexed_block_number ≤ℤ t.latest_indexed_block_number
  pub canonical : s.latest_canonical_block_number ≤ℤ t.latest_canonical_block_number
  pub processed : s.latest_processed_block_number ≤ℤ t.latest_processed_block_number
  pub initial_number : s.initial_indexed_block_number ≡ t.initial_indexed_block_number
  pub initial_hash : s.initial_indexed_block_hash ≡ t.initial_indexed_block_hash

-- A status that is there stays there.
abbrev pub Advances : Option SyncStatus → Option SyncStatus → Type 0
Advances none _ = Unit
Advances (some s) none = ⊥
Advances (some s) (some t) = NoEarlier s t

-- What a call makes of the row.
abbrev after : Call → Option SyncStatus → Option SyncStatus
after (indexed hash number) (some t) = some (
    if leb_ℤ t.latest_indexed_block_number number
    then record t { latest_indexed_block_hash = hash; latest_indexed_block_number = number }
    else t)
after (chain_head hash number) (some t) = some (
    if leb_ℤ t.chain_head_block_number number
    then record t { chain_head_block_hash = hash; chain_head_block_number = number }
    else t)
after (canonical hash number) (some t) = some (
    if leb_ℤ t.latest_canonical_block_number number
    then record t { latest_canonical_block_hash = hash; latest_canonical_block_number = number }
    else t)
after (processed hash number) (some t) = some (
    if leb_ℤ t.latest_processed_block_number number
    then record t { latest_processed_block_hash = hash; latest_processed_block_number = number }
    else t)
after (indexing_error flag) (some t) = some (record t { has_indexing_error = flag })
after (chain_head hash number) none = some (initial_status hash number)
after _ none = none
