-- ===== src/State/Ranges.antt =====
-- Ranges of block numbers and the rows in them, as the query for diffs takes them.
use watcher_ts.Common.{
  Bool, false, List, [], ◌∷◌, ◌++◌, filter, All, if◌then◌else◌, ◌≡◌, refl, arith, Bool-cases, inl,
  inr,
}
use watcher_ts.Common.Int.{ℤ, pos, ◌≤ℤ◌, ◌<ℤ◌, ltb_ℤ, +ℤ_parts, ltb_ℤ→lt}
use watcher_ts.State.Query.{is_between, Joined, in_range}

-- Rows come in the order of their block numbers.
abbrev pub Ascending : {Bytes : Type 0} → List (Joined Bytes) → Type 0
Ascending [] = Unit
Ascending (r ∷ rows) = All (λ t. r.1.block_number ≤ℤ t.1.block_number) rows × Ascending rows

none_below :
    {Bytes : Type 0} (a b n : ℤ) (rows : List (Joined Bytes))
    → b <ℤ n
    → All (λ t. n ≤ℤ t.1.block_number) rows
    → filter (in_range a b) rows ≡ []
none_below a b n [] lt above = refl
none_below a b n (r ∷ rows) lt (le, above) = ground (arith, lt, le, none_below a b n rows lt above)

later_out : (a b n : ℤ) → b <ℤ n → is_between a b n ≡ false
later_out a b n lt = ground (arith, lt)

later_same : (a b c n : ℤ) → a ≤ℤ b → b <ℤ n → is_between b c n ≡ is_between a c n
later_same a b c n ab lt = ground (arith, ab, lt, +ℤ_parts a (pos 1), +ℤ_parts b (pos 1))

earlier_out : (b c n : ℤ) → ltb_ℤ b n ≡ false → is_between b c n ≡ false
earlier_out b c n le = ground (arith, le, +ℤ_parts b (pos 1))

earlier_same : (a b c n : ℤ) → b ≤ℤ c → ltb_ℤ b n ≡ false → is_between a b n ≡ is_between a c n
earlier_same a b c n bc le = ground (arith, bc, le)

module _ {A : Type 0} where
  join_later :
      (x : A) (p q r : Bool) (xs ys zs : List A)
      → p ≡ false
      → q ≡ r
      → xs ≡ []
      → xs ++ ys ≡ zs
      → (if p then x ∷ xs else xs) ++ (if q then x ∷ ys else ys) ≡ (if r then x ∷ zs else zs)
  join_later x p q r xs ys zs out same none_left ih = ground (arith, out, same, none_left, ih)

  join_earlier :
      (x : A) (p q r : Bool) (xs ys zs : List A)
      → q ≡ false
      → p ≡ r
      → xs ++ ys ≡ zs
      → (if p then x ∷ xs else xs) ++ (if q then x ∷ ys else ys) ≡ (if r then x ∷ zs else zs)
  join_earlier x p q r xs ys zs out same ih = ground (arith, out, same, ih)

pub in_range_split :
    {Bytes : Type 0} (a b c : ℤ) (rows : List (Joined Bytes))
    → a ≤ℤ b
    → b ≤ℤ c
    → Ascending rows
    → filter (in_range a b) rows ++ filter (in_range b c) rows ≡ filter (in_range a c) rows
in_range_split a b c [] ab bc ascending = refl
in_range_split a b c (r ∷ rows) ab bc (above, ascending) =
    elim (Bool-cases (ltb_ℤ b r.1.block_number)) [
      | inl later ↦
          join_later r (in_range a b r) (in_range b c r) (in_range a c r)
            (filter (in_range a b) rows) (filter (in_range b c) rows) (filter (in_range a c) rows)
            (later_out a b r.1.block_number (ltb_ℤ→lt b r.1.block_number later))
            (later_same a b c r.1.block_number ab (ltb_ℤ→lt b r.1.block_number later))
            (none_below a b r.1.block_number rows (ltb_ℤ→lt b r.1.block_number later) above)
            (in_range_split a b c rows ab bc ascending)
      | inr earlier ↦
          join_earlier r (in_range a b r) (in_range b c r) (in_range a c r)
            (filter (in_range a b) rows) (filter (in_range b c) rows) (filter (in_range a c) rows)
            (earlier_out b c r.1.block_number earlier)
            (earlier_same a b c r.1.block_number bc earlier)
            (in_range_split a b c rows ab bc ascending)
    ]
