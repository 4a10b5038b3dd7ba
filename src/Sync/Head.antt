-- ===== src/Sync/Head.antt =====
-- The chain head of the sync status is the highest block that was reported.
use watcher_ts.Common.{
  ℕ, ◌≡◌, refl, Option, none, some, List, [], ◌∷◌, map, arith, if◌then◌else◌, ◌∙◌, ap,
}
use watcher_ts.Common.Int.{ℤ, ◌≤ℤ◌, leb_ℤ}
use watcher_ts.Tables.{SyncStatus, Db}
use watcher_ts.Sync.{update_sync_status_chain_head}
use watcher_ts.Sync.Order.{Call, chain_head, perform, perform_all}

abbrev pub report : ℕ × ℤ → Call
report (hash, number) = chain_head hash number

-- Among the blocks with the greatest number, the one that was reported last.
abbrev pub highest : ℕ × ℤ → List (ℕ × ℤ) → ℕ × ℤ
highest first [] = first
highest first (next ∷ reports) =
    let rest = highest next reports in if leb_ℤ first.1 rest.1 then rest else first

abbrev pub head_of : SyncStatus → ℕ × ℤ
head_of t = (t.chain_head_block_hash, t.chain_head_block_number)

abbrev pub head_in : Option SyncStatus → Option (ℕ × ℤ)
head_in none = none
head_in (some t) = some (head_of t)

le-highest : (first : ℕ × ℤ) (reports : List (ℕ × ℤ)) → first.1 ≤ℤ (highest first reports).1
le-highest first [] = omega arith
le-highest first (next ∷ reports) = ground arith

highest-merge :
    (first next : ℕ × ℤ) (reports : List (ℕ × ℤ))
    → highest (if leb_ℤ first.1 next.1 then next else first) reports
      ≡ highest first (next ∷ reports)
highest-merge first next [] = refl
highest-merge first next (third ∷ reports) = ground (arith, le-highest next (third ∷ reports))

head_in-perform :
    (r : ℕ × ℤ) (first : ℕ × ℤ) (db : Db)
    → head_in db.sync_status ≡ some first
    → head_in (perform (report r) db).sync_status ≡ some (if leb_ℤ first.1 r.1 then r else first)
unfolding perform
head_in-perform r first db h = ground arith

head_in-perform_all :
    (reports : List (ℕ × ℤ)) (first : ℕ × ℤ) (db : Db)
    → head_in db.sync_status ≡ some first
    → head_in (perform_all (map report reports) db).sync_status ≡ some (highest first reports)
unfolding perform_all
head_in-perform_all [] first db h = h
head_in-perform_all (r ∷ reports) first db h =
    head_in-perform_all reports (if leb_ℤ first.1 r.1 then r else first) (perform (report r) db)
      (head_in-perform r first db h)
    ∙ ap some (highest-merge first r reports)

-- On a database with no status yet, after one or more reports of chain heads the status holds the
-- hash and the number of the highest block reported, the latest report of that height.
pub chain_head-highest :
    (first : ℕ × ℤ) (reports : List (ℕ × ℤ)) (db : Db)
    → db.sync_status ≡ none
    → head_in (perform_all (map report (first ∷ reports)) db).sync_status
      ≡ some (highest first reports)
unfolding perform_all
chain_head-highest first reports db h =
    head_in-perform_all reports first (perform (report first) db)
      (unfold perform in rw (h, update_sync_status_chain_head) refl)
