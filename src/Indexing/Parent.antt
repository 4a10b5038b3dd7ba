-- ===== src/Indexing/Parent.antt =====
-- A block whose parent is not there or not complete.
use watcher_ts.Common.{
  ℕ, ◌+◌, ◌==◌, Bool, true, false, not, ◌&&◌, ◌||◌, Option, none, some, List, [], ◌∷◌, ◌++◌, filter,
  head?, get_elem?, Action, Result, ok, err, pure, gets, modify, expect, assertion,
  no_blocks_at_parent_hash, pruning_not_caught_up, ◌>>=◌, ◌>>◌, ◌≡◌, refl, ap, ◌∙◌, arith, subst,
  if◌then◌else◌, bind_ok, Bool-cases, inl, inr, Has, first, later, Has-filter, filter-Has,
}
use watcher_ts.Common.Int.{ℤ, pos, ltb_ℤ, leb_ℤ, ◌<ℤ◌, ◌-ℤ◌, lt→ltb_ℤ}
use watcher_ts.Tables.{BlockProgress, SyncStatus, Db}
use watcher_ts.Blocks.{PartialBlock, max_reorg_depth, some_hash}
use watcher_ts.Historical.{truthy}
use watcher_ts.Indexing.{
  IndexServices, IndexRunner, index_job, FullBlock, fresh, set_prefetched, push_block_job, db_of,
  priority_of, insert_by_number, sort_by_number, parent_and_block, fetch_parent, check_parent,
  index_now, check_pruning, may_index, index_if, index_block, create_pruning_job,
}

insert-Has :
    (x b : BlockProgress) (rows : List BlockProgress)
    → Has x (insert_by_number b rows)
    → Has x (b ∷ rows)
insert-Has x b [] h = h
insert-Has x b (c ∷ rows) h = step (leb_ℤ b.block_number c.block_number) (insert-Has x b rows) h
  where
    swap :
        Has x (c ∷ insert_by_number b rows)
        → (Has x (insert_by_number b rows) → Has x (b ∷ rows))
        → Has x (b ∷ (c ∷ rows))
    swap (first e) ih = later (first e)
    swap (later k) ih = past (ih k)
      where
        past : Has x (b ∷ rows) → Has x (b ∷ (c ∷ rows))
        past (first e) = first e
        past (later k) = later (later k)

    step :
        (t : Bool)
        → (Has x (insert_by_number b rows) → Has x (b ∷ rows))
        → Has x (if t then b ∷ (c ∷ rows) else c ∷ insert_by_number b rows)
        → Has x (b ∷ (c ∷ rows))
    step true ih h = h
    step false ih h = swap h ih

sort-Has :
    (x : BlockProgress) (rows : List BlockProgress) → Has x (sort_by_number rows) → Has x rows
sort-Has x [] h = h
sort-Has x (b ∷ rows) h = step (insert-Has x b (sort_by_number rows) h) (sort-Has x rows)
  where
    step :
        Has x (b ∷ sort_by_number rows)
        → (Has x (sort_by_number rows) → Has x rows)
        → Has x (b ∷ rows)
    step (first e) ih = first e
    step (later k) ih = later (ih k)

-- The runner goes on to the parent: it pushes one job for it, with the priority, and changes nothing
-- in the database, in the queue of events and in what it keeps of historical processing.
pub record Waits (parent priority : ℕ) (s u : IndexRunner) : Type 0 where
  pub cid : Option ℕ
  pub number : ℤ
  pub grandparent : ℕ
  pub timestamp : ℤ
  pub same_runner : u.runner ≡ s.runner
  pub pushed :
      u.block_jobs ≡ s.block_jobs ++ index_job cid parent number grandparent timestamp priority ∷ []

module _ (services : IndexServices) (parent priority : ℕ) (s : IndexRunner) (full : FullBlock)
    (served : services.get_block parent s ≡ (ok (some full), s)) where
  abbrev WaitsFor : Result Bool × IndexRunner → Type 0
  WaitsFor p = (u : IndexRunner) × (p ≡ (ok false, u)) × Waits parent priority s u

  fetch_parent-Waits : WaitsFor (fetch_parent services parent priority s)
  fetch_parent-Waits = (
    push_block_job
        (index_job full.cid parent full.block_number full.parent_hash full.timestamp priority)
        (set_prefetched full.block_hash (fresh full) s),
    bind_ok (services.get_block parent)
        (λ found. expect found no_blocks_at_parent_hash >>= λ full.
          modify (set_prefetched full.block_hash (fresh full))
          >> (modify (
                push_block_job (
                  index_job full.cid parent full.block_number full.parent_hash full.timestamp
                    priority))
              >> pure false))
        served,
    record {
      cid = full.cid;
      number = full.block_number;
      grandparent = full.parent_hash;
      timestamp = full.timestamp;
      same_runner = refl;
      pushed = refl;
    },
  )

  check_parent-Waits :
      (row : Option BlockProgress)
      → ((b : BlockProgress) → row ≡ some b → (b.block_hash == parent && b.is_complete) ≡ false)
      → WaitsFor (check_parent services parent priority row s)
  unfolding check_parent
  check_parent-Waits none incomplete = fetch_parent-Waits
  check_parent-Waits (some b) incomplete =
      step (b.block_hash == parent) b.is_complete (incomplete b refl)
    where
      step :
          (same complete : Bool)
          → (same && complete) ≡ false
          → WaitsFor (
              (if not same
                  then fetch_parent services parent priority
                  else if not complete
                  then (do
                    modify (
                        push_block_job (
                          index_job b.cid parent b.block_number b.parent_hash b.block_timestamp
                            priority))
                    pure false)
                  else pure true)
                s)
      step false complete e = fetch_parent-Waits
      step true false e = (
        push_block_job
            (index_job b.cid parent b.block_number b.parent_hash b.block_timestamp priority) s,
        refl,
        record {
          cid = b.cid;
          number = b.block_number;
          grandparent = b.parent_hash;
          timestamp = b.block_timestamp;
          same_runner = refl;
          pushed = refl;
        },
      )
      step true true e = absurd (ground (arith, e))

head-Has : (b : BlockProgress) (rows : List BlockProgress) → head? rows ≡ some b → Has b rows
head-Has b [] e = absurd (ground (arith, e))
head-Has b (c ∷ rows) e = subst (λ x. Has x (c ∷ rows)) (ground (arith, e)) (first refl)

-- No row of the block's hash is complete.
abbrev pub ParentIncomplete : ℕ → Db → Type 0
ParentIncomplete parent db = filter (λ b. b.block_hash == parent && b.is_complete) db.blocks ≡ []

incomplete_head :
    (parent hash : ℕ) (db : Db) (b : BlockProgress)
    → ParentIncomplete parent db
    → head? (parent_and_block parent hash db) ≡ some b
    → (b.block_hash == parent && b.is_complete) ≡ false
unfolding parent_and_block
incomplete_head parent hash db b none_complete e =
    elim (Bool-cases (b.block_hash == parent && b.is_complete)) [
      | inl complete ↦
          elim (subst (Has b) none_complete (
            filter-Has (λ b. b.block_hash == parent && b.is_complete) b db.blocks in_db
              complete)) [ ]
      | inr incomplete ↦ incomplete
    ]
  where
    either : BlockProgress → Bool
    either b = b.block_hash == parent || b.block_hash == hash

    in_db : Has b db.blocks
    in_db =
        (Has-filter either b db.blocks (
          sort-Has b (filter either db.blocks)
            (head-Has b (sort_by_number (filter either db.blocks)) e))).0

expects :
    {S A : Type 0} (o : Option A) (a : A) (s : S) → o ≡ some a → expect o assertion s ≡ (ok a, s)
expects o a s e = ap (λ o. expect o assertion s) e

-- A block above the canonical block whose parent has no complete row is not indexed: the job ends
-- without an error, and all it pushes is one job for the parent, whose priority is one more. The
-- sync status is there, pruning has caught up, the block has a number that is not 0 and two hashes,
-- and the node has the parent.
pub index_block-Waits :
    (services : IndexServices) (priority : Option ℕ) (partial : PartialBlock) (s : IndexRunner)
    (t : SyncStatus) (number : ℤ) (hash parent : ℕ) (full : FullBlock)
    → (db_of s).sync_status ≡ some t
    → truthy partial.block_number ≡ some number
    → some_hash partial.block_hash ≡ some hash
    → some_hash (some partial.parent_hash) ≡ some parent
    → ltb_ℤ (pos max_reorg_depth) (t.latest_indexed_block_number -ℤ t.latest_canonical_block_number)
      ≡ false
    → t.latest_canonical_block_number <ℤ number
    → ParentIncomplete parent (db_of s)
    → services.get_block parent s ≡ (ok (some full), s)
    → (u : IndexRunner) × (index_block services priority partial s ≡ (ok tt, u))
      × Waits parent (priority_of priority + 1) s u
unfolding index_block
index_block-Waits services priority partial s t number hash parent full known has_number has_hash
      has_parent caught_up above incomplete served =
    let (u, waits, is_waiting) =
      check_parent-Waits services parent (priority_of priority + 1) s full served (head? rows)
        (λ b e. incomplete_head parent hash (db_of s) b incomplete e) in
    (
      u,
      bind_ok (expect (db_of s).sync_status assertion) with_status
            (expects (db_of s).sync_status t s known)
          ∙ bind_ok (expect (truthy partial.block_number) assertion) (with_number t)
              (expects (truthy partial.block_number) number s has_number)
          ∙ bind_ok (expect (some_hash partial.block_hash) assertion) (with_hash t number)
              (expects (some_hash partial.block_hash) hash s has_hash)
          ∙ bind_ok (expect (some_hash (some partial.parent_hash)) assertion)
              (with_parent t number hash)
              (expects (some_hash (some partial.parent_hash)) parent s has_parent)
          ∙ bind_ok (check_pruning services t (priority_of priority))
              (λ _. on_rows t number hash parent)
              (ap
                (λ b.
                  if b
                  then (
                    err pruning_not_caught_up,
                    create_pruning_job t.latest_canonical_block_number (priority_of priority) s,
                  )
                  else (ok tt, s))
                caught_up)
          ∙ bind_ok (may_index services t number parent (priority_of priority) (head? rows))
              (go hash parent)
              (ap
                  (λ b.
                    (if b
                        then check_parent services parent (priority_of priority + 1) (head? rows)
                        else pure true)
                      s)
                  (lt→ltb_ℤ t.latest_canonical_block_number number above)
                ∙ waits),
      is_waiting,
    )
  where
    rows : List BlockProgress
    rows = parent_and_block parent hash (db_of s)

    go : ℕ → ℕ → Bool → Action IndexRunner Unit
    go hash parent b =
        index_if services b
          (index_now services partial hash (get_elem? (parent_and_block parent hash (db_of s)) 1))

    on_rows : SyncStatus → ℤ → ℕ → ℕ → Action IndexRunner Unit
    on_rows status number hash parent = do
      rows ← gets (λ s. parent_and_block parent hash (db_of s))
      go_on ← may_index services status number parent (priority_of priority) (head? rows)
      index_if services go_on (index_now services partial hash (get_elem? rows 1))

    with_parent : SyncStatus → ℤ → ℕ → ℕ → Action IndexRunner Unit
    with_parent status number hash parent =
        check_pruning services status (priority_of priority) >> on_rows status number hash parent

    with_hash : SyncStatus → ℤ → ℕ → Action IndexRunner Unit
    with_hash status number hash =
        expect (some_hash (some partial.parent_hash)) assertion >>= with_parent status number hash

    with_number : SyncStatus → ℤ → Action IndexRunner Unit
    with_number status number =
        expect (some_hash partial.block_hash) assertion >>= with_hash status number

    with_status : SyncStatus → Action IndexRunner Unit
    with_status status = expect (truthy partial.block_number) assertion >>= with_number status
