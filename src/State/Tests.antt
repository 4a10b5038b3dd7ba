-- ===== src/State/Tests.antt =====
-- States at work, and the theorems about them at concrete inputs. A JSON value is a list, merging
-- appends, and the codec stores the value itself.
use watcher_ts.Common.{
  Option, Has, first, unique_violation, ℕ, ◌+◌, ◌*◌, ◌≡◌, refl, true, false, none, some, List, [],
  ◌∷◌, ◌++◌, map, ok, err, pure, arith,
}
use watcher_ts.Common.Int.{pos, negsuc, pos_part, ◌+ℤ◌, ◌-ℤ◌, ◌≤ℤ◌}
use watcher_ts.Tables.{BlockProgress, Contract}
use watcher_ts.State.{
  StateKind, diff, init, diff_staged, checkpoint, StateData, Codec, StateRow, no_status,
  set_status_of, StateIndexer,
}
use watcher_ts.State.Query.{
  Joined, candidates, get_latest_state, get_states, get_states_of_block, get_diff_states_in_range,
}
use watcher_ts.State.Entry.{
  insert_state, update_state, create_or_update_state_data, prepare_state_entry,
  save_or_update_state, remove_states,
}
use watcher_ts.State.Merge.{
  merge_diffs, merge_batches, merge_diffs_in_range, merge_diffs_in_range-merge_diffs,
}
use watcher_ts.State.Create.{
  StateHooks, first_watched_contract, default_checkpoint, create_checkpoint, process_checkpoint,
  checkpoint_loop, create_diff, finalize_diff_staged, save_new_state,
}
use watcher_ts.State.Latest.{get_latest_state-latest}
use watcher_ts.State.Saved.{full_content, save_new_state-get_states}
use watcher_ts.State.Checkpoint.{initial_state, default_checkpoint-merge_diffs}

abbrev Json : Type 0
Json = List ℕ

abbrev kind_number : StateKind → ℕ
kind_number diff = 0
kind_number init = 1
kind_number diff_staged = 2
kind_number checkpoint = 3

abbrev cid : StateData Json → ℕ
cid content = elim content.meta [
  | none ↦ 0
  | some m ↦ m.id * 100 + pos_part m.eth_block_number * 10 + kind_number m.kind
]

abbrev codec : Codec Json (StateData Json)
codec = record { merge_json = ◌++◌; encode = λ d. d; decode = λ d. d; cid_of = cid }

abbrev hooks : StateHooks Json (StateData Json)
hooks = record {
  process_initial_state = λ address hash. pure (record { meta = none; state = [] });
  process_state_checkpoint = λ address hash. pure false;
}

abbrev block : ℕ → ℕ → BlockProgress
block id number = record {
  id = id;
  cid = none;
  block_hash = id;
  parent_hash = 0;
  block_number = pos number;
  block_timestamp = pos 0;
  num_events = 0;
  num_processed_events = 0;
  last_processed_event_index = negsuc 0;
  is_complete = true;
  is_pruned = false;
}

abbrev contract : ℕ → ℕ → Contract
contract id address = record {
  id = id;
  address = address;
  starting_block = pos 5;
  kind = 7;
  checkpoint = true;
}

abbrev given : ℕ → ℕ → StateKind → Json → StateData Json
given number address kind content = record {
  meta = some (record {
    id = address;
    kind = kind;
    parent = none;
    eth_block_cid = none;
    eth_block_number = pos number;
  });
  state = content;
}

abbrev state_row : ℕ → ℕ → ℕ → ℕ → StateKind → Json → StateRow (StateData Json)
state_row id block_id number address kind content = record {
  id = id;
  block_id = block_id;
  contract_address = address;
  cid = cid (given number address kind content);
  kind = kind;
  bytes = given number address kind content;
}

-- Both contracts have an initial state at block 5 and a diff at block 6.
abbrev indexer : StateIndexer (StateData Json)
indexer = record {
  indexer = record {
    db = record {
      sync_status = none;
      state_sync_status =
          some (record {
            latest_indexed_block_number = pos 7;
            latest_checkpoint_block_number = pos 6;
          });
      blocks = block 1 5 ∷ block 2 6 ∷ block 3 7 ∷ [];
      events = [];
      contracts = [];
    };
    watched = (50, contract 1 50 ∷ []) ∷ (51, contract 2 51 ∷ []) ∷ [];
  };
  states =
      state_row 1 1 5 50 init (1 ∷ [])
      ∷ state_row 2 1 5 51 init (100 ∷ [])
      ∷ state_row 3 2 6 50 diff (2 ∷ [])
      ∷ state_row 4 2 6 51 diff (101 ∷ [])
      ∷ state_row 5 3 7 50 diff (3 ∷ [])
      ∷ [];
  next_state_id = 6;
  state_status_map =
      λ a. some (record no_status { init_number = some (pos 5); diff_number = some (pos 7) });
  enable_state = true;
}

abbrev contents : List (StateRow (StateData Json)) → List (ℕ × Json)
contents rows = map (λ r. (r.contract_address, r.bytes.state)) rows

-- A checkpoint is due at block 7 for both contracts; only the first address has one made.
only_first :
    contents
      (get_states_of_block (block 3 7) checkpoint (process_checkpoint codec hooks 3 7 indexer).1)
    ≡ (50, 1 ∷ 2 ∷ 3 ∷ []) ∷ []
unfolding get_states_of_block process_checkpoint checkpoint_loop create_checkpoint
    first_watched_contract default_checkpoint prepare_state_entry save_or_update_state
    get_latest_state get_states merge_diffs_in_range merge_batches get_diff_states_in_range
    insert_state update_state create_or_update_state_data ◌+ℤ◌ ◌-ℤ◌
only_first = refl

abbrev staged : StateIndexer (StateData Json)
staged = record indexer {
  states = indexer.states ++ state_row 6 3 7 50 diff_staged (4 ∷ []) ∷ [];
  next_state_id = 7;
}

-- The block has a diff already. Merging the staged one into it takes over its kind, which the unique
-- index on block, contract and kind refuses.
diff_refused : (finalize_diff_staged codec 3 staged).0 ≡ err unique_violation
unfolding get_states_of_block finalize_diff_staged create_diff first_watched_contract
    prepare_state_entry save_or_update_state get_latest_state get_states insert_state update_state
    create_or_update_state_data remove_states
diff_refused = refl

-- Without it the staged diff becomes one.
finalized :
    contents (
      get_states_of_block
        (block 3 7)
        diff
        (finalize_diff_staged codec 3 (record staged {
          states = state_row 1 1 5 50 init (1 ∷ []) ∷ state_row 6 3 7 50 diff_staged (4 ∷ []) ∷ [];
        })).1)
    ≡ (50, 4 ∷ []) ∷ []
unfolding get_states_of_block finalize_diff_staged create_diff first_watched_contract
    prepare_state_entry save_or_update_state get_latest_state get_states insert_state update_state
    create_or_update_state_data remove_states
finalized = refl

-- Each diff is merged into the state at its place, in one batch.
merge_diffs_in_range-merge_diffs_example :
    merge_diffs_in_range codec 50 (pos 4) (pos 7) indexer (1 ∷ [])
    ≡ ok (merge_diffs codec (1 ∷ []) (get_diff_states_in_range 50 (pos 4) (pos 7) indexer))
merge_diffs_in_range-merge_diffs_example =
    merge_diffs_in_range-merge_diffs codec 50 (pos 4) (pos 7) indexer (1 ∷ [])
      ((omega arith, tt), (tt, tt))

save_new_state-get_states_example :
    (t : StateIndexer (StateData Json)) × (row : StateRow (StateData Json)) × (save_new_state codec
        (block 3 7)
        51
        (record { meta = none; state = 102 ∷ [] })
        diff
        indexer
      ≡ (ok tt, t))
    × (get_states (block 3 7) 51 diff t ≡ row ∷ [])
    × (row.bytes
        ≡ full_content codec (block 3 7) 51 (record { meta = none; state = 102 ∷ [] }) diff indexer)
    × (t.state_status_map 51
        ≡ some (record no_status { init_number = some (pos 5); diff_number = some (pos 7) }))
unfolding get_states get_latest_state
save_new_state-get_states_example =
    save_new_state-get_states codec (block 3 7) 51 (record { meta = none; state = 102 ∷ [] }) diff
      (record no_status { init_number = some (pos 5); diff_number = some (pos 7) }) indexer
      (λ content. refl) (record { known = refl; none_there = refl; no_conflict = refl }) refl

default_checkpoint-merge_diffs_example :
    (u : StateIndexer (StateData Json)) × (new : StateRow (StateData Json)) × (default_checkpoint
        codec 50
        (block 3 7)
        indexer
      ≡ (ok tt, u))
    × (get_states (block 3 7) 50 checkpoint u ≡ new ∷ [])
    × (new.bytes.state
        ≡ merge_diffs codec (1 ∷ []) (get_diff_states_in_range 50 (pos 5 -ℤ pos 1) (pos 7) indexer))
    × (u.state_status_map 50
        ≡ some (
            set_status_of checkpoint
              (pos 7)
              (record no_status { init_number = some (pos 5); diff_number = some (pos 7) })))
unfolding get_states get_latest_state get_diff_states_in_range ◌-ℤ◌ ◌+ℤ◌
default_checkpoint-merge_diffs_example =
    default_checkpoint-merge_diffs codec 50 (block 3 7) indexer indexer
      (state_row 1 1 5 50 init (1 ∷ [])) (pos 4)
      (record no_status { init_number = some (pos 5); diff_number = some (pos 7) })
      (λ content. refl) (initial_state (state_row 1 1 5 50 init (1 ∷ [])) (block 1 5) refl refl)
      ((omega arith, tt), (tt, tt)) (record { known = refl; none_there = refl; no_conflict = refl })
      refl

get_latest_state-latest_example :
    (r : Joined (StateData Json)) × (get_latest_state 50 (some diff) none indexer ≡ some r)
    × Has r (candidates 50 (some diff) none indexer)
    × (pos 6 ≤ℤ r.1.block_number)
get_latest_state-latest_example =
    get_latest_state-latest 50 (some diff) none indexer
      (state_row 3 2 6 50 diff (2 ∷ []), block 2 6) (first refl)

-- A state of the block itself is found up to its number.
abbrev id_of : Option (Joined (StateData Json)) → ℕ
id_of none = 0
id_of (some r) = r.0.id

own_number : id_of (get_latest_state 50 none (some (pos 6)) indexer) ≡ 3
unfolding get_latest_state
own_number = refl
