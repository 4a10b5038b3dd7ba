-- ===== src/Filling/Tests.antt =====
-- Filling at work, and the theorem about it at a concrete input.
use watcher_ts.Common.{
  ℕ, ◌+◌, ◌==◌, ltb, ◌&&◌, ◌≡◌, refl, true, false, Option, none, some, List, [], ◌∷◌, ◌++◌, ok,
  arith, if◌then◌else◌, modify,
}
use watcher_ts.Common.Int.{ℤ, pos, pos_part, ◌+ℤ◌, ◌-ℤ◌}
use watcher_ts.Blocks.{get_block_progress}
use watcher_ts.Indexing.{FullBlock}
use watcher_ts.Filling.{
  FillArguments, Filler, FillServices, fill_blocks, prefetch_blocks, fetch_batch, save_if_new,
  numbers,
}
use watcher_ts.Filling.Jobs.{at_start, fill_blocks-numbers}

-- The node keeps how often it was asked, and the hashes of the blocks that were saved.
abbrev Node : Type 0
Node = ℕ × List (Option ℕ)

abbrev full : ℤ → FullBlock
full number = record {
  cid = none;
  block_hash = pos_part number;
  block_number = number;
  parent_hash = 0;
  timestamp = pos 0;
}

-- It does not have block 6 in the first three requests.
abbrev services : FillServices Node
services = record {
  get_blocks = λ number s. (
    ok (if ltb s.node.0 3 && pos_part number == 6 then [] else some (full number) ∷ []),
    record s { node = (s.node.0 + 1, s.node.1) },
  );
  save_block_and_fetch_events =
      λ p. modify (λ s. record s { node = (s.node.0, s.node.1 ++ p.block_hash ∷ []) });
}

abbrev filler : Filler Node
filler = record {
  node = (0, []);
  db = record {
    sync_status = none;
    state_sync_status = none;
    blocks = [];
    events = [];
    contracts = [];
  };
  watcher = record {
    realtime_processing_started = false;
    historical_processing_end_block_number = pos 0;
    historical_jobs = [];
    index_jobs = [];
  };
}

-- Blocks 5 to 7 in one batch: block 6 comes with the second try, and block 5, which the first try
-- had, is not saved.
block_left_out :
    (prefetch_blocks services 2 2 (pos 5) (pos 7) (pos 10) filler).1.node.1 ≡ some 6 ∷ some 7 ∷ []
unfolding prefetch_blocks fetch_batch save_if_new get_block_progress ◌+ℤ◌ ◌-ℤ◌
block_left_out = refl

abbrev arguments : FillArguments
arguments = record {
  start_block = pos 5;
  end_block = pos 7;
  prefetch = false;
  batch_blocks = pos 10;
}

fill_blocks-numbers_example :
    fill_blocks services 0 0 arguments
      ((pos 5, true) ∷ (pos 6, false) ∷ (pos 6, true) ∷ (pos 7, true) ∷ [])
      filler
    ≡ (
      ok true,
      record filler { watcher = record filler.watcher { index_jobs = [] ++ numbers (pos 5) 3 } },
    )
unfolding ◌+ℤ◌
fill_blocks-numbers_example =
    fill_blocks-numbers services 0 0 arguments
      ((pos 5, true) ∷ (pos 6, false) ∷ (pos 6, true) ∷ (pos 7, true) ∷ []) filler (pos 5) 2 [] refl
      (omega arith) (at_start refl) refl refl
