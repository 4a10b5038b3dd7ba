-- ===== src/Filling/Jobs.antt =====
-- The jobs that filling pushes.
use watcher_ts.Common.{
  throw, end_before_start, missing_blocks, end_not_above_head, ℕ, zero, suc, Bool, true, false,
  Option, none, some, List, [], ◌∷◌, ◌++◌, Action, ok, ◌>>=◌, ◌>>◌, ◌≡◌, refl, sym, ap, ◌∙◌, arith,
  if◌then◌else◌,
}
use mathlib.Core.List.{append_assoc, append-nil}
use watcher_ts.Common.Int.{
  ℤ, pos, ◌+ℤ◌, ltb_ℤ, leb_ℤ, lt→leb_ℤ, ◌≤ℤ◌, ◌<ℤ◌, +ℤ_parts, eq_of_parts, pos_part, neg_part,
}
use watcher_ts.Tables.{Db, SyncStatus}
use watcher_ts.EventWatcher.{EventWatcher, process_block_by_number}
use watcher_ts.Sync.{get_sync_status}
use watcher_ts.Filling.{
  prefetch_from, on_db, FillArguments, Filler, FillServices, fill_loop, fill_from, fill_after,
  fill_blocks, numbers, refuse,
}

-- The numbers of the events that say that a block is complete.
abbrev pub completes : List (ℤ × Bool) → List ℤ
completes [] = []
completes ((number, is_complete) ∷ events) =
    if is_complete then number ∷ completes events else completes events

abbrev add_jobs : List ℤ → EventWatcher → EventWatcher
add_jobs jobs w = record w { index_jobs = w.index_jobs ++ jobs }

add_jobs_again :
    (a : ℤ) (jobs : List ℤ) (w : EventWatcher)
    → add_jobs jobs (add_jobs (a ∷ []) w) ≡ add_jobs (a ∷ jobs) w
add_jobs_again a jobs w =
    ap (λ l. record w { index_jobs = l }) (append_assoc w.index_jobs (a ∷ []) jobs)

first_is : (a b : ℤ) (xs ys : List ℤ) → a ∷ xs ≡ b ∷ ys → a ≡ b
first_is a b xs ys e = ground (arith, e)

rest_is : (a b : ℤ) (xs ys : List ℤ) → a ∷ xs ≡ b ∷ ys → xs ≡ ys
rest_is a b xs ys e = ground (arith, e)

last_ends : (a end : ℤ) → a +ℤ pos 0 ≡ end → ltb_ℤ end (a +ℤ pos 1) ≡ true
last_ends a end e =
    ground (arith, ap pos_part e, ap neg_part e, +ℤ_parts a (pos 0), +ℤ_parts a (pos 1))

others_go_on : (a end : ℤ) (n : ℕ) → a +ℤ pos (suc n) ≡ end → ltb_ℤ end (a +ℤ pos 1) ≡ false
others_go_on a end n e =
    ground (arith, ap pos_part e, ap neg_part e, +ℤ_parts a (pos (suc n)), +ℤ_parts a (pos 1))

next_end : (a end : ℤ) (n : ℕ) → a +ℤ pos (suc n) ≡ end → a +ℤ pos 1 +ℤ pos n ≡ end
next_end a end n e = eq_of_parts (a +ℤ pos 1 +ℤ pos n) end (
    omega (
      arith,
      ap pos_part e,
      ap neg_part e,
      +ℤ_parts a (pos (suc n)),
      +ℤ_parts a (pos 1),
      +ℤ_parts (a +ℤ pos 1) (pos n),
    ))

-- If blocks are reported complete in their order up to the end, the loop ends there, and has pushed
-- each block after the first once, in their order.
fill_loop-numbers :
    (end : ℤ) (events : List (ℤ × Bool)) (a : ℤ) (n : ℕ) (more : List ℤ) (w : EventWatcher)
    → a +ℤ pos n ≡ end
    → completes events ≡ numbers a (suc n) ++ more
    → fill_loop end events w ≡ (true, add_jobs (numbers (a +ℤ pos 1) n) w)
unfolding fill_loop process_block_by_number
fill_loop-numbers end [] a n more w last e = absurd (ground (arith, e))
fill_loop-numbers end ((b, false) ∷ events) a n more w last e =
    fill_loop-numbers end events a n more w last e
fill_loop-numbers end ((b, true) ∷ events) a zero more w last e =
    ap (λ t. if t then (true, w) else fill_loop end events (process_block_by_number (b +ℤ pos 1) w))
      (ap (λ x. ltb_ℤ end (x +ℤ pos 1)) (first_is b a (completes events) more e)
        ∙ last_ends a end last)
    ∙ ap (λ l. (true, record w { index_jobs = l })) (sym (append-nil w.index_jobs))
fill_loop-numbers end ((b, true) ∷ events) a (suc n) more w last e =
    ap (λ t. if t then (true, w) else fill_loop end events (process_block_by_number (b +ℤ pos 1) w))
      (ap (λ x. ltb_ℤ end (x +ℤ pos 1)) (first_is b a (completes events) _ e)
        ∙ others_go_on a end n last)
    ∙ ap (λ x. fill_loop end events (process_block_by_number (x +ℤ pos 1) w))
        (first_is b a (completes events) _ e)
    ∙ fill_loop-numbers end events (a +ℤ pos 1) n more (add_jobs ((a +ℤ pos 1) ∷ []) w)
        (next_end a end n last) (rest_is b a (completes events) _ e)
    ∙ ap (λ v. (true, v)) (add_jobs_again (a +ℤ pos 1) (numbers (a +ℤ pos 1 +ℤ pos 1) n) w)

-- Where filling begins: at the start if there is no sync status, else right behind the chain head,
-- which is at or above the block before the start, and below the end.
pub data Begins (db : Db) (a : FillArguments) : ℤ → Type 0 where
  at_start : db.sync_status ≡ none → Begins db a a.start_block
  behind_head :
      (t : SyncStatus)
      → db.sync_status ≡ some t
      → a.start_block ≤ℤ t.chain_head_block_number +ℤ pos 1
      → t.chain_head_block_number <ℤ a.end_block
      → Begins db a (t.chain_head_block_number +ℤ pos 1)

refuses_not : (a b : ℤ) → a ≤ℤ b → ltb_ℤ b a ≡ false
refuses_not a b le = ground (arith, le)

module _ {Node : Type 0} (services : FillServices Node) where
  fill_from-numbers :
      (first end : ℤ) (n : ℕ) (events : List (ℤ × Bool)) (more : List ℤ) (s : Filler Node)
      → first +ℤ pos n ≡ end
      → completes events ≡ numbers first (suc n) ++ more
      → fill_from services first end events s
        ≡ (ok true, record s { watcher = add_jobs (numbers first (suc n)) s.watcher })
  unfolding process_block_by_number
  fill_from-numbers first end n events more s last e =
      ap (λ (p : Bool × EventWatcher). (ok p.0, record s { watcher = p.1 }))
        (fill_loop-numbers end events first n more (add_jobs (first ∷ []) s.watcher) last e
          ∙ ap (λ v. (true, v)) (add_jobs_again first (numbers (first +ℤ pos 1) n) s.watcher))

  passes :
      (b : Bool) (e : Action (Filler Node) Unit) (k : Action (Filler Node) Bool) (s : Filler Node)
      → b ≡ false
      → (refuse b e >> k) s ≡ k s
  passes true e k s not_refused = absurd (ground (arith, not_refused))
  passes false e k s not_refused = refl

  fill_after-numbers :
      (a : FillArguments) (events : List (ℤ × Bool)) (s : Filler Node) (first : ℤ) (n : ℕ)
      (more : List ℤ)
      → Begins s.db a first
      → first +ℤ pos n ≡ a.end_block
      → completes events ≡ numbers first (suc n) ++ more
      → fill_after services a events s.db.sync_status s
        ≡ (ok true, record s { watcher = add_jobs (numbers first (suc n)) s.watcher })
  fill_after-numbers a events s first n more (at_start none_there) last e =
      ap (λ o. fill_after services a events o s) none_there
      ∙ fill_from-numbers a.start_block a.end_block n events more s last e
  fill_after-numbers a events s first n more (behind_head t there le lt) last e =
      ap (λ o. fill_after services a events o s) there
      ∙ passes (ltb_ℤ (t.chain_head_block_number +ℤ pos 1) a.start_block) (throw missing_blocks)
          (refuse (leb_ℤ a.end_block t.chain_head_block_number) (throw end_not_above_head)
            >> fill_from services (t.chain_head_block_number +ℤ pos 1) a.end_block events)
          s (refuses_not a.start_block (t.chain_head_block_number +ℤ pos 1) le)
      ∙ passes (leb_ℤ a.end_block t.chain_head_block_number) (throw end_not_above_head)
          (fill_from services (t.chain_head_block_number +ℤ pos 1) a.end_block events) s
          (lt→leb_ℤ a.end_block t.chain_head_block_number lt)
      ∙ fill_from-numbers (t.chain_head_block_number +ℤ pos 1) a.end_block n events more s last e

  -- Filling without prefetching, over a range whose end is not below its start, ends if blocks are
  -- reported complete one after another from the first to the end, reports of incomplete ones
  -- between them, and has pushed each of these blocks once, in their order. The first block is the
  -- start if there is no sync status, or else the one behind the chain head, which leaves no gap to
  -- the start and is below the end.
  pub fill_blocks-numbers :
      (fuel retries : ℕ) (a : FillArguments) (events : List (ℤ × Bool)) (s : Filler Node)
      (first : ℤ) (n : ℕ) (more : List ℤ)
      → a.prefetch ≡ false
      → a.start_block ≤ℤ a.end_block
      → Begins s.db a first
      → first +ℤ pos n ≡ a.end_block
      → completes events ≡ numbers first (suc n) ++ more
      → fill_blocks services fuel retries a events s ≡ (
        ok true,
        record s {
          watcher = record s.watcher { index_jobs = s.watcher.index_jobs ++ numbers first (suc n) };
        },
      )
  unfolding fill_blocks get_sync_status
  fill_blocks-numbers fuel retries a events s first n more plain le begins last e =
      passes (ltb_ℤ a.end_block a.start_block) (throw end_before_start)
        (on_db get_sync_status >>= chosen) s (refuses_not a.start_block a.end_block le)
      ∙ ap
          (λ b.
            (if b
                then prefetch_from services fuel retries a s.db.sync_status
                else fill_after services a events s.db.sync_status)
              s)
          plain
      ∙ fill_after-numbers a events s first n more begins last e
    where
      chosen : Option SyncStatus → Action (Filler Node) Bool
      chosen found =
          if a.prefetch
          then prefetch_from services fuel retries a found
          else fill_after services a events found
