-- ===== src/Storage/Place.antt =====
-- Where the elements of an array lie.
use watcher_ts.Common.{
  subst, ltb, ltb→lt, ℕ, ◌+◌, ◌*◌, ◌/◌, ◌%◌, ◌≤◌, ◌<◌, true, false, leb, if◌then◌else◌, ◌≡◌, arith,
  Bool-cases, inl, inr, ◌⊎◌, leb→le, ap, sym,
}
use native.Mathlib.Nat.{le-div_iff_mul-le, div-mul-le_self, mod-lt, div-add-mod}
use watcher_ts.Storage.Decode.{div_up, element_place}

-- The first byte of an element, counted from the first slot of the array.
abbrev pub position : ℕ → ℕ → ℕ
position number_of_bytes index =
    let (slot, offset) = element_place number_of_bytes index in slot * 32 + offset

per_slot : (n : ℕ) → 0 < n → n ≤ 32 → (0 < 32 / n) × (32 / n * n ≤ 32)
per_slot n positive le = ((le-div_iff_mul-le positive).1 (omega arith), div-mul-le_self 32 n)

rem_within : (r k n : ℕ) → r < k → k * n ≤ 32 → r * n + n ≤ 32
rem_within r k n lt le = grind arith

one_quotient : (k q r q' r' : ℕ) → k * q + r ≡ k * q' + r' → r < k → r' < k → q ≡ q'
one_quotient k q r q' r' e lt lt' = grind arith

-- Counting one on stays in the slot or carries to the next.
next_index :
    (k q r q' r' : ℕ)
    → k * q + r + 1 ≡ k * q' + r'
    → r < k
    → r' < k
    → ((q' ≡ q) × (r' ≡ r + 1)) ⊎ ((q' ≡ q + 1) × (r + 1 ≡ k) × (r' ≡ 0))
next_index k q r q' r' e lt lt' = elim (Bool-cases (ltb (r + 1) k)) [
  | inl stays ↦
      let same = one_quotient k q (r + 1) q' r' (omega (arith, e)) (ltb→lt (r + 1) k stays) lt' in
      inl (sym same, omega (arith, e, ap (λ x. k * x) same))
  | inr carries ↦
      let full : r + 1 ≡ k = ground (arith, lt, carries) in
      let next = one_quotient k (q + 1) 0 q' r' (omega (arith, e, full)) (omega (arith, lt)) lt' in
      inr (sym next, full, omega (arith, e, full, ap (λ x. k * x) next))
]

packed_place :
    (n index : ℕ)
    → leb n 32 ≡ true
    → element_place n index ≡ (index / (32 / n), index % (32 / n) * n)
unfolding element_place
packed_place n index e =
    ap (λ b. if b then (index / (32 / n), index % (32 / n) * n) else (div_up n 32 * index, 0)) e

wide_place : (n index : ℕ) → leb n 32 ≡ false → element_place n index ≡ (div_up n 32 * index, 0)
unfolding element_place
wide_place n index e =
    ap (λ b. if b then (index / (32 / n), index % (32 / n) * n) else (div_up n 32 * index, 0)) e

packed_next :
    (k n q r q' r' : ℕ)
    → k * n ≤ 32
    → ((q' ≡ q) × (r' ≡ r + 1)) ⊎ ((q' ≡ q + 1) × (r + 1 ≡ k) × (r' ≡ 0))
    → q * 32 + r * n + n ≤ q' * 32 + r' * n
packed_next k n q r q' r' fits (inl (same, next)) = omega (arith, same, ap (λ x. x * n) next)
packed_next k n q r q' r' fits (inr (next, full, none_left)) =
    omega (arith, fits, next, ap (λ x. x * n) full, ap (λ x. x * n) none_left)

wide_next : (n c i : ℕ) → n ≤ c * 32 → c * i * 32 + 0 + n ≤ c * (i + 1) * 32 + 0
wide_next n c i le = omega (arith, le)

-- A packed element does not reach past its slot, and an element that fills slots starts one.
pub element_place-within :
    (n index : ℕ)
    → 0 < n
    → ((n ≤ 32) × ((element_place n index).1 + n ≤ 32))
      ⊎ ((32 < n) × ((element_place n index).1 ≡ 0))
element_place-within n index positive = elim (Bool-cases (leb n 32)) [
  | inl packed ↦
      let (positive_k, fits) = per_slot n positive (leb→le n 32 packed) in
      inl (
        leb→le n 32 packed,
        subst (λ p. p.1 + n ≤ 32) (sym (packed_place n index packed))
            (rem_within (index % (32 / n)) (32 / n) n (mod-lt index positive_k) fits),
      )
  | inr wide ↦ inr (ground (arith, wide), ap (λ p. p.1) (wide_place n index wide))
]

-- Elements follow one another without an overlap: the next begins behind the last byte.
pub position-next : (n index : ℕ) → 0 < n → position n index + n ≤ position n (index + 1)
position-next n index positive = elim (Bool-cases (leb n 32)) [
  | inl packed ↦
      let (positive_k, fits) = per_slot n positive (leb→le n 32 packed) in
      subst (λ p. p.0 * 32 + p.1 + n ≤ position n (index + 1)) (sym (packed_place n index packed))
        (subst (λ p. index / (32 / n) * 32 + index % (32 / n) * n + n ≤ p.0 * 32 + p.1)
          (sym (packed_place n (index + 1) packed))
          (packed_next (32 / n) n (index / (32 / n)) (index % (32 / n)) ((index + 1) / (32 / n))
            ((index + 1) % (32 / n)) fits
            (next_index (32 / n) (index / (32 / n)) (index % (32 / n)) ((index + 1) / (32 / n))
              ((index + 1) % (32 / n))
              (omega (arith, div-add-mod index (32 / n), div-add-mod (index + 1) (32 / n)))
              (mod-lt index positive_k) (mod-lt (index + 1) positive_k))))
  | inr wide ↦
      subst (λ p. p.0 * 32 + p.1 + n ≤ position n (index + 1)) (sym (wide_place n index wide))
        (subst (λ p. div_up n 32 * index * 32 + 0 + n ≤ p.0 * 32 + p.1)
          (sym (wide_place n (index + 1) wide)) (wide_next n (div_up n 32) index (omega arith)))
]
