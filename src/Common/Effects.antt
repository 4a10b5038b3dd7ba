-- ===== src/Common/Effects.antt =====
-- Methods that change a state and may throw. What was written before a throw stays written, so the
-- state comes back beside the error too.
use mathlib.Core.Bool.{Bool}
use mathlib.Core.Option.{Option, none, some}
use watcher_ts.Common.Tests.{if◌then◌else◌}

-- The errors that the modelled code throws: a failed `assert`, a property of `undefined`, the
-- `new Error(..)` of each place, and an error of a service that the code calls.
pub data Error : Type 0 where
  assertion type_error : Error
  no_such_block : Error
  max_new_block_retries : Error
  invalid_job_kind : Error
  pruning_not_safe pruning_not_caught_up : Error
  no_blocks_at_parent_hash : Error
  state_not_indexed checkpoint_not_processed : Error
  end_before_start start_not_above_head missing_blocks end_not_above_head : Error
  bad_range max_range_exceeded : Error
  unique_violation : Error
  service : Error
  invalid_key no_such_variable missing_type not_implemented : Error
  out_of_fuel : Error

pub data Result {ℓ} (A : Type ℓ) : Type ℓ where
  ok : A → Result A
  err : Error → Result A

abbrev pub Action {ℓ} : Type ℓ → Type ℓ → Type ℓ
Action S A = S → Result A × S

module _ {ℓ} {S A : Type ℓ} where
  abbrev pub pure : A → Action S A
  pure a s = (ok a, s)

  abbrev pub throw : Error → Action S A
  throw e s = (err e, s)

  abbrev pub gets : (S → A) → Action S A
  gets f s = (ok (f s), s)

  -- A value that `assert` wants to be there, or that is destructured.
  abbrev pub expect : Option A → Error → Action S A
  expect none e s = (err e, s)
  expect (some a) e s = (ok a, s)

module _ {ℓ} {S A B : Type ℓ} where
  infixl 5 ◌>>=◌ ◌>>◌
  abbrev pub ◌>>=◌ : Action S A → (A → Action S B) → Action S B
  ◌>>=◌ m f s = let (r, s') = m s in elim r [ ok a ↦ f a s' | err e ↦ (err e, s') ]

  abbrev pub ◌>>◌ : Action S A → Action S B → Action S B
  m >> k = m >>= λ _. k

module _ {S : Type 0} where
  abbrev pub modify : (S → S) → Action S Unit
  modify f s = (ok tt, f s)

  -- `assert(b)`
  abbrev pub assert : Bool → Error → Action S Unit
  assert b e s = (if b then ok tt else err e, s)
