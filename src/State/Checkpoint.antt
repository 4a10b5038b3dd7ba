-- ===== src/State/Checkpoint.antt =====
-- The content of a default checkpoint.
use watcher_ts.Common.{ℕ, none, some, [], ◌∷◌, Result, ok, err, ◌>>=◌, ◌≡◌, ap, ◌∙◌, bind_ok, arith}
use watcher_ts.Common.Int.{ℤ, pos, ◌-ℤ◌}
use watcher_ts.Tables.{BlockProgress}
use watcher_ts.State.{
  init, checkpoint, StateData, Codec, StateRow, StateStatus, no_status, set_status_of, StateIndexer,
  update_state_status_map,
}
use watcher_ts.State.Query.{get_latest_state, get_states, get_diff_states_in_range, all_diffs}
use watcher_ts.State.Ranges.{Ascending}
use watcher_ts.State.Merge.{merge_diffs, merge_diffs_in_range-merge_diffs}
use watcher_ts.State.Create.{default_checkpoint, checkpoint_base, merged, save_new_state}
use watcher_ts.State.Saved.{IsFresh, RoundTrip, save_new_state-get_states}

module _ {Bytes : Type 0} where
  -- The last checkpoint before the block, whose number goes to the status map.
  abbrev pub note_checkpoint : ℕ → ℤ → StateIndexer Bytes → StateIndexer Bytes
  note_checkpoint address number s =
      update_state_status_map address (record no_status { checkpoint_number = some number }) s

  -- What a checkpoint of the block builds upon: the state, the number after which diffs count, and
  -- the indexer after the look-up.
  pub data Base (address : ℕ) (block : BlockProgress) (s : StateIndexer Bytes)
      : StateRow Bytes → ℤ → StateIndexer Bytes → Type 0 where
    last_checkpoint :
        (row : StateRow Bytes) (b : BlockProgress)
        → get_latest_state address (some checkpoint) (some (block.block_number -ℤ pos 1)) s
          ≡ some (row, b)
        → Base address block s row b.block_number (note_checkpoint address b.block_number s)
    initial_state :
        (row : StateRow Bytes) (b : BlockProgress)
        → get_latest_state address (some checkpoint) (some (block.block_number -ℤ pos 1)) s ≡ none
        → get_latest_state address (some init) none s ≡ some (row, b)
        → Base address block s row (b.block_number -ℤ pos 1) s

  checkpoint_base-Base :
      (address : ℕ) (block : BlockProgress) (s : StateIndexer Bytes) (row : StateRow Bytes)
      (start : ℤ) (t : StateIndexer Bytes)
      → Base address block s row start t
      → checkpoint_base address block s ≡ (ok (row, start), t)
  checkpoint_base-Base address block s row start t (last_checkpoint r b e) = ground (arith, e)
  checkpoint_base-Base address block s row start t (initial_state r b e f) = ground (arith, e, f)

module _ {Json Bytes : Type 0} (codec : Codec Json Bytes) where
  -- A default checkpoint of a block at which the contract has none saves exactly one there: what it
  -- builds upon, the last checkpoint before the block or else the initial state, with the diffs
  -- after it and up to the block merged into it one after another. It notes the block in the status
  -- map. Content is read back as it was written, the numbers of the diffs in the order of the query
  -- do not fall, and what is saved has a cid and a key that no row has.
  pub default_checkpoint-merge_diffs :
      (address : ℕ) (block : BlockProgress) (s t : StateIndexer Bytes) (row : StateRow Bytes)
      (start : ℤ) (status : StateStatus)
      → RoundTrip codec
      → Base address block s row start t
      → Ascending (all_diffs address t)
      → IsFresh codec block address
          (record {
            meta = none;
            state =
                merge_diffs codec
                  (codec.decode row.bytes).state
                  (get_diff_states_in_range address start block.block_number t);
          })
          checkpoint
          status
          t
      → get_states block address checkpoint t ≡ []
      → (u : StateIndexer Bytes) × (new : StateRow Bytes) × (default_checkpoint codec address block
            s
          ≡ (ok tt, u))
        × (get_states block address checkpoint u ≡ new ∷ [])
        × ((codec.decode new.bytes).state
            ≡ merge_diffs codec
                (codec.decode row.bytes).state
                (get_diff_states_in_range address start block.block_number t))
        × (u.state_status_map address ≡ some (set_status_of checkpoint block.block_number status))
  unfolding default_checkpoint
  default_checkpoint-merge_diffs address block s t row start status round base ascending fresh
        nothing =
      let (u, new, saved, found, content, noted) =
        save_new_state-get_states codec block address
          (record {
            meta = none;
            state =
                merge_diffs codec (codec.decode row.bytes).state
                  (get_diff_states_in_range address start block.block_number t);
          })
          checkpoint status t round fresh nothing in
      (
        u,
        new,
        bind_ok (checkpoint_base address block)
              (λ base. merged codec address block base >>= λ content.
                save_new_state codec block address content checkpoint)
              {s = s} (checkpoint_base-Base address block s row start t base)
            ∙ bind_ok (merged codec address block (row, start))
                (λ content. save_new_state codec block address content checkpoint)
                (ap
                  (λ r. elim r as (λ _. Result (StateData Json) × StateIndexer Bytes) [
                    | ok state ↦ (ok (record { meta = none; state = state }), t)
                    | err e ↦ (err e, t)
                  ])
                  (merge_diffs_in_range-merge_diffs codec address start block.block_number t
                    (codec.decode row.bytes).state ascending))
            ∙ saved,
        found,
        ap (λ d. d.state) content,
        noted,
      )
