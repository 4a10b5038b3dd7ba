-- ===== src/State/Merge.antt =====
-- `_mergeDiffsInRange` of packages/util/src/indexer.ts, in batches, against one merge of all diffs.
use watcher_ts.Common.{
  ℕ, zero, suc, true, false, List, [], ◌∷◌, ◌++◌, filter, if◌then◌else◌, ◌≡◌, refl, sym, ap, ◌∙◌,
  arith, Result, ok, err, out_of_fuel, Bool-cases, inl, inr,
}
use watcher_ts.Common.Int.{
  ℤ, pos, ◌+ℤ◌, ◌≤ℤ◌, ◌<ℤ◌, ltb_ℤ, min_ℤ, +ℤ_parts, -ℤ_parts, ◌-ℤ◌, pos_part, ltb_ℤ→lt,
}
use watcher_ts.State.{Codec, StateIndexer}
use watcher_ts.State.Ranges.{Ascending, in_range_split}
use watcher_ts.State.Query.{is_between, Joined, in_range, all_diffs, get_diff_states_in_range}

abbrev pub diff_merge_batch_size : ℕ
diff_merge_batch_size = 10000

abbrev pub batch_end : ℤ → ℤ → ℤ
batch_end start end = min_ℤ (start +ℤ pos diff_merge_batch_size) end

module _ {Json Bytes : Type 0} (codec : Codec Json Bytes) where
  -- The loop over the diffs of a batch.
  abbrev pub merge_diffs : Json → List (Joined Bytes) → Json
  merge_diffs state [] = state
  merge_diffs state (r ∷ rows) =
      merge_diffs (codec.merge_json state (codec.decode r.0.bytes).state) rows

  unfoldable pub merge_batches : ℕ → ℕ → ℤ → ℤ → StateIndexer Bytes → Json → Result Json
  merge_batches zero address start end s state = err out_of_fuel
  merge_batches (suc fuel) address start end s state =
      let next = batch_end start end in
      let rest =
        merge_batches fuel address next end s
          (merge_diffs state (get_diff_states_in_range address start next s)) in
      if ltb_ℤ start end then rest else ok state

  -- A round goes to the end or on by a batch, so the difference of the ends is fuel enough.
  unfoldable pub merge_diffs_in_range : ℕ → ℤ → ℤ → StateIndexer Bytes → Json → Result Json
  unfolding merge_batches
  merge_diffs_in_range address start end s state =
      merge_batches (suc (pos_part (end -ℤ start))) address start end s state

batch_end_above : (start end : ℤ) → start ≤ℤ end → start ≤ℤ batch_end start end
batch_end_above start end le = ground (arith, le, +ℤ_parts start (pos diff_merge_batch_size))

batch_end_below : (start end : ℤ) → batch_end start end ≤ℤ end
batch_end_below start end = ground (arith, +ℤ_parts start (pos diff_merge_batch_size))

batch_end_next : (start end : ℤ) → start <ℤ end → start <ℤ batch_end start end
batch_end_next start end lt = ground (arith, lt, +ℤ_parts start (pos diff_merge_batch_size))

not_lt : (a b : ℤ) → ltb_ℤ a b ≡ false → b ≤ℤ a
not_lt a b e = ground (arith, e)

le→not_ltb : (a b : ℤ) → b ≤ℤ a → ltb_ℤ a b ≡ false
le→not_ltb a b le = ground (arith, le)

nothing_between : (start end n : ℤ) → end ≤ℤ start → is_between start end n ≡ false
nothing_between start end n le = ground (arith, le, +ℤ_parts start (pos 1))

-- A batch reaches the end or goes on by one block or more.
batch_end_closer :
    (fuel : ℕ) (start end : ℤ)
    → start <ℤ end
    → end <ℤ start +ℤ pos (suc (suc fuel))
    → end <ℤ batch_end start end +ℤ pos (suc fuel)
batch_end_closer fuel start end lt enough = omega (
  arith,
  enough,
  batch_end_next start end lt,
  +ℤ_parts start (pos (suc (suc fuel))),
  +ℤ_parts (batch_end start end) (pos (suc fuel)),
)

module _ {Json Bytes : Type 0} (codec : Codec Json Bytes) where
  merge_diffs-append :
      (state : Json) (xs ys : List (Joined Bytes))
      → merge_diffs codec state (xs ++ ys) ≡ merge_diffs codec (merge_diffs codec state xs) ys
  merge_diffs-append state [] ys = refl
  merge_diffs-append state (r ∷ xs) ys =
      merge_diffs-append (codec.merge_json state (codec.decode r.0.bytes).state) xs ys

  merge_batches_done :
      (fuel address : ℕ) (start end : ℤ) (s : StateIndexer Bytes) (state : Json)
      → ltb_ℤ start end ≡ false
      → merge_batches codec (suc fuel) address start end s state ≡ ok state
  unfolding merge_batches
  merge_batches_done fuel address start end s state e =
      ap
        (λ b.
          if b
          then merge_batches codec fuel address (batch_end start end) end s (
              merge_diffs codec state
                (get_diff_states_in_range address start (batch_end start end) s))
          else ok state)
        e

  merge_batches_more :
      (fuel address : ℕ) (start end : ℤ) (s : StateIndexer Bytes) (state : Json)
      → ltb_ℤ start end ≡ true
      → merge_batches codec (suc fuel) address start end s state
        ≡ merge_batches codec fuel address (batch_end start end) end s (
            merge_diffs codec state
              (get_diff_states_in_range address start (batch_end start end) s))
  unfolding merge_batches
  merge_batches_more fuel address start end s state e =
      ap
        (λ b.
          if b
          then merge_batches codec fuel address (batch_end start end) end s (
              merge_diffs codec state
                (get_diff_states_in_range address start (batch_end start end) s))
          else ok state)
        e

  two_batches :
      (address : ℕ) (a b c : ℤ) (s : StateIndexer Bytes) (state : Json)
      → Ascending (all_diffs address s)
      → a ≤ℤ b
      → b ≤ℤ c
      → merge_diffs codec
          (merge_diffs codec state (get_diff_states_in_range address a b s))
          (get_diff_states_in_range address b c s)
        ≡ merge_diffs codec state (get_diff_states_in_range address a c s)
  unfolding get_diff_states_in_range
  two_batches address a b c s state ascending ab bc =
      sym (
        merge_diffs-append state (get_diff_states_in_range address a b s)
          (get_diff_states_in_range address b c s))
      ∙ ap (merge_diffs codec state) (in_range_split a b c (all_diffs address s) ab bc ascending)

  nothing_in_range :
      (address : ℕ) (start end : ℤ) (s : StateIndexer Bytes)
      → end ≤ℤ start
      → get_diff_states_in_range address start end s ≡ []
  unfolding get_diff_states_in_range
  nothing_in_range address start end s le = none_in (all_diffs address s)
    where
      none_in : (rows : List (Joined Bytes)) → filter (in_range start end) rows ≡ []
      none_in [] = refl
      none_in (r ∷ rows) =
          ground (arith, nothing_between start end r.1.block_number le, none_in rows)

  merge_batches_at_end :
      (fuel address : ℕ) (start end : ℤ) (s : StateIndexer Bytes) (state : Json)
      → ltb_ℤ start end ≡ false
      → merge_batches codec (suc fuel) address start end s state
        ≡ ok (merge_diffs codec state (get_diff_states_in_range address start end s))
  merge_batches_at_end fuel address start end s state done =
      merge_batches_done fuel address start end s state done
      ∙ ap (λ rows. ok (merge_diffs codec state rows))
          (sym (nothing_in_range address start end s (not_lt start end done)))

  merge_batches_lem :
      (fuel address : ℕ) (start end : ℤ) (s : StateIndexer Bytes) (state : Json)
      → Ascending (all_diffs address s)
      → end <ℤ start +ℤ pos (suc fuel)
      → merge_batches codec (suc fuel) address start end s state
        ≡ ok (merge_diffs codec state (get_diff_states_in_range address start end s))
  merge_batches_lem zero address start end s state ascending enough =
      merge_batches_at_end zero address start end s state
        (le→not_ltb start end (omega (arith, enough, +ℤ_parts start (pos 1))))
  merge_batches_lem (suc fuel) address start end s state ascending enough =
      elim (Bool-cases (ltb_ℤ start end)) [
        | inr done ↦ merge_batches_at_end (suc fuel) address start end s state done
        | inl more ↦
            merge_batches_more (suc fuel) address start end s state more
            ∙ merge_batches_lem fuel address (batch_end start end) end s
                (merge_diffs codec state
                  (get_diff_states_in_range address start (batch_end start end) s))
                ascending (batch_end_closer fuel start end (ltb_ℤ→lt start end more) enough)
            ∙ ap (λ j. ok j)
                (two_batches address start (batch_end start end) end s state ascending
                  (batch_end_above start end (omega (arith, ltb_ℤ→lt start end more)))
                  (batch_end_below start end))
      ]

  -- If the diffs of a contract on unpruned blocks, in the order of the keys of their blocks, have
  -- block numbers that do not fall, then merging those of a range in batches ends and is merging them
  -- all in that order: the batches do not show.
  pub merge_diffs_in_range-merge_diffs :
      (address : ℕ) (start end : ℤ) (s : StateIndexer Bytes) (state : Json)
      → Ascending (all_diffs address s)
      → merge_diffs_in_range codec address start end s state
        ≡ ok (merge_diffs codec state (get_diff_states_in_range address start end s))
  unfolding merge_diffs_in_range
  merge_diffs_in_range-merge_diffs address start end s state ascending =
      merge_batches_lem (pos_part (end -ℤ start)) address start end s state ascending
        (omega (arith, -ℤ_parts end start, +ℤ_parts start (pos (suc (pos_part (end -ℤ start))))))
