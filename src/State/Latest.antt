-- ===== src/State/Latest.antt =====
-- What `getLatestState` gives.
use watcher_ts.Common.{
  ℕ, zero, suc, Bool, true, false, Option, some, List, [], ◌∷◌, take, if◌then◌else◌, ◌≡◌, refl, sym,
  arith, Has, first, later, All, subst,
}
use watcher_ts.Common.Int.{ℤ, ◌≤ℤ◌, leb_ℤ}
use watcher_ts.State.{StateKind, StateIndexer}
use watcher_ts.State.Query.{
  Joined, before, first_of, first_row, insert_latest, latest_first, candidates, get_latest_state,
}

module _ {Bytes : Type 0} where
  abbrev number_of : Joined Bytes → ℤ
  number_of r = r.1.block_number

  abbrev Below : Joined Bytes → List (Joined Bytes) → Type 0
  Below r rows = All (λ t. number_of t ≤ℤ number_of r) rows

  -- Rows whose first has the greatest number.
  abbrev Headed : List (Joined Bytes) → Type 0
  Headed [] = Unit
  Headed (r ∷ rows) = Below r rows

  abbrev Descending : List (Joined Bytes) → Type 0
  Descending [] = Unit
  Descending (r ∷ rows) = Below r rows × Descending rows

  insert-Below :
      (q r : Joined Bytes) (rows : List (Joined Bytes))
      → number_of r ≤ℤ number_of q
      → Below q rows
      → Below q (insert_latest r rows)
  insert-Below q r [] le below = (le, tt)
  insert-Below q r (t ∷ rows) le (this, below) =
      step (leb_ℤ (number_of t) (number_of r)) (insert-Below q r rows le below)
    where
      step :
          (b : Bool)
          → Below q (insert_latest r rows)
          → Below q (if b then r ∷ t ∷ rows else t ∷ insert_latest r rows)
      step true ih = (le, (this, below))
      step false ih = (this, ih)

  Below-trans :
      (q r : Joined Bytes) (rows : List (Joined Bytes))
      → number_of r ≤ℤ number_of q
      → Below r rows
      → Below q rows
  Below-trans q r [] le below = tt
  Below-trans q r (t ∷ rows) le (this, below) =
      (omega (arith, le, this), Below-trans q r rows le below)

  insert-Descending :
      (r : Joined Bytes) (rows : List (Joined Bytes))
      → Descending rows
      → Descending (insert_latest r rows)
  insert-Descending r [] d = (tt, tt)
  insert-Descending r (t ∷ rows) (below, d) =
      step (leb_ℤ (number_of t) (number_of r)) refl (insert-Descending r rows d)
    where
      step :
          (b : Bool)
          → leb_ℤ (number_of t) (number_of r) ≡ b
          → Descending (insert_latest r rows)
          → Descending (if b then r ∷ t ∷ rows else t ∷ insert_latest r rows)
      step true e ih =
          ((ground (arith, e), Below-trans r t rows (ground (arith, e)) below), (below, d))
      step false e ih = (insert-Below t r rows (ground (arith, e)) below, ih)

  latest_first-Descending : (rows : List (Joined Bytes)) → Descending (latest_first rows)
  latest_first-Descending [] = tt
  latest_first-Descending (r ∷ rows) =
      insert-Descending r (latest_first rows) (latest_first-Descending rows)

  insert-first : (r : Joined Bytes) (rows : List (Joined Bytes)) → Has r (insert_latest r rows)
  insert-first r [] = first refl
  insert-first r (t ∷ rows) = step (leb_ℤ (number_of t) (number_of r)) (insert-first r rows)
    where
      step :
          (b : Bool)
          → Has r (insert_latest r rows)
          → Has r (if b then r ∷ t ∷ rows else t ∷ insert_latest r rows)
      step true ih = first refl
      step false ih = later ih

  insert-later :
      (x r : Joined Bytes) (rows : List (Joined Bytes)) → Has x rows → Has x (insert_latest r rows)
  insert-later x r [] h = elim h [ ]
  insert-later x r (t ∷ rows) h = step (leb_ℤ (number_of t) (number_of r)) h (insert-later x r rows)
    where
      go :
          Has x (t ∷ rows)
          → (Has x rows → Has x (insert_latest r rows))
          → Has x (t ∷ insert_latest r rows)
      go (first e) ih = first e
      go (later k) ih = later (ih k)

      step :
          (b : Bool)
          → Has x (t ∷ rows)
          → (Has x rows → Has x (insert_latest r rows))
          → Has x (if b then r ∷ t ∷ rows else t ∷ insert_latest r rows)
      step true h ih = later h
      step false h ih = go h ih

  latest_first-Has :
      (x : Joined Bytes) (rows : List (Joined Bytes)) → Has x rows → Has x (latest_first rows)
  latest_first-Has x [] h = elim h [ ]
  latest_first-Has x (r ∷ rows) (first e) =
      subst (λ y. Has y (insert_latest r (latest_first rows))) (sym e)
        (insert-first r (latest_first rows))
  latest_first-Has x (r ∷ rows) (later k) =
      insert-later x r (latest_first rows) (latest_first-Has x rows k)

  first_of-best :
      (r : Joined Bytes) (rows : List (Joined Bytes)) → number_of r ≤ℤ number_of (first_of r rows)
  first_of-best r [] = omega arith
  first_of-best r (t ∷ rows) = ground arith

  Below-Has :
      (q x : Joined Bytes) (rows : List (Joined Bytes))
      → Below q rows
      → Has x rows
      → number_of x ≤ℤ number_of q
  Below-Has q x [] below h = elim h [ ]
  Below-Has q x (t ∷ rows) (this, below) (first e) =
      subst (λ y. number_of y ≤ℤ number_of q) (sym e) this
  Below-Has q x (t ∷ rows) (this, below) (later k) = Below-Has q x rows below k

  insert-sub :
      (x r : Joined Bytes) (rows : List (Joined Bytes))
      → Has x (insert_latest r rows)
      → Has x (r ∷ rows)
  insert-sub x r [] h = h
  insert-sub x r (t ∷ rows) h = step (leb_ℤ (number_of t) (number_of r)) h (insert-sub x r rows)
    where
      skip : Has x (r ∷ rows) → Has x (r ∷ (t ∷ rows))
      skip (first e) = first e
      skip (later k) = later (later k)

      go :
          Has x (t ∷ insert_latest r rows)
          → (Has x (insert_latest r rows) → Has x (r ∷ rows))
          → Has x (r ∷ (t ∷ rows))
      go (first e) ih = later (first e)
      go (later k) ih = skip (ih k)

      step :
          (b : Bool)
          → Has x (if b then r ∷ t ∷ rows else t ∷ insert_latest r rows)
          → (Has x (insert_latest r rows) → Has x (r ∷ rows))
          → Has x (r ∷ (t ∷ rows))
      step true h ih = h
      step false h ih = go h ih

  latest_first-sub :
      (x : Joined Bytes) (rows : List (Joined Bytes)) → Has x (latest_first rows) → Has x rows
  latest_first-sub x [] h = h
  latest_first-sub x (r ∷ rows) h =
      go (insert-sub x r (latest_first rows) h) (latest_first-sub x rows)
    where
      go :
          Has x (r ∷ latest_first rows)
          → (Has x (latest_first rows) → Has x rows)
          → Has x (r ∷ rows)
      go (first e) ih = first e
      go (later k) ih = later (ih k)

  first_of-Has : (r : Joined Bytes) (rows : List (Joined Bytes)) → Has (first_of r rows) (r ∷ rows)
  first_of-Has r [] = first refl
  first_of-Has r (t ∷ rows) = step (before (first_of t rows) r) (first_of-Has t rows)
    where
      step :
          (b : Bool)
          → Has (first_of t rows) (t ∷ rows)
          → Has (if b then first_of t rows else r) (r ∷ (t ∷ rows))
      step true ih = later ih
      step false ih = first refl

  take-sub :
      (n : ℕ) (x : Joined Bytes) (rows : List (Joined Bytes)) → Has x (take n rows) → Has x rows
  take-sub zero x rows h = elim h [ ]
  take-sub (suc n) x [] h = h
  take-sub (suc n) x (r ∷ rows) (first e) = first e
  take-sub (suc n) x (r ∷ rows) (later k) = later (take-sub n x rows k)

  -- The first of the latest rows, at most three, is one with the greatest number.
  first_row-latest :
      (x : Joined Bytes) (rows : List (Joined Bytes))
      → Descending rows
      → Has x rows
      → (r : Joined Bytes) × (first_row (take 3 rows) ≡ some r)
        × Has r rows
        × (number_of x ≤ℤ number_of r)
  first_row-latest x [] d h = elim h [ ]
  first_row-latest x (q ∷ rows) (below, d) h = (
    first_of q (take 2 rows),
    refl,
    take-sub 3 (first_of q (take 2 rows)) (q ∷ rows) (first_of-Has q (take 2 rows)),
    omega (arith, first_of-best q (take 2 rows), Below-Has q x (q ∷ rows) (omega arith, below) h),
  )

  -- Where there is a state that the query looks for, it gives one of them, and none is of a later
  -- block.
  pub get_latest_state-latest :
      (address : ℕ) (kind : Option StateKind) (number : Option ℤ) (s : StateIndexer Bytes)
      (x : Joined Bytes)
      → Has x (candidates address kind number s)
      → (r : Joined Bytes) × (get_latest_state address kind number s ≡ some r)
        × Has r (candidates address kind number s)
        × (x.1.block_number ≤ℤ r.1.block_number)
  unfolding get_latest_state
  get_latest_state-latest address kind number s x h =
      let (r, found, has, le) =
        first_row-latest x (latest_first (candidates address kind number s))
          (latest_first-Descending (candidates address kind number s))
          (latest_first-Has x (candidates address kind number s) h) in
      (r, found, latest_first-sub r (candidates address kind number s) has, le)
