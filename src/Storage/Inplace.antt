-- ===== src/Storage/Inplace.antt =====
-- A value in a part of its slot, read back after it was written there, and its neighbours.
use watcher_ts.Common.{
  ℕ, zero, suc, ◌+◌, ◌-◌, ◌≤◌, List, [], ◌∷◌, ◌++◌, length, take, drop, ◌≡◌, refl, sym, ap, ◌∙◌,
  ◌⊎◌, inl, inr, arith, Result, ok, err, length-append, length-take, length-drop, take-append-drop,
}
use watcher_ts.Common.Int.{pos, ◌-ℤ◌}
use watcher_ts.Storage.{Ethers, get_inplace_value}

-- `hexDataSlice` of a range inside the data.
abbrev pub SliceLaw : Ethers → Type 0
SliceLaw ethers =
    (value : List ℕ) (a b : ℕ)
    → a ≤ b
    → b ≤ length value
    → ethers.hex_data_slice value (pos a) (pos b) ≡ take (b - a) (drop a value)

-- What the compiler's layout writes: offsets count from the last byte.
abbrev pub store_inplace : ℕ → List ℕ → List ℕ → List ℕ
store_inplace offset bytes word =
    take (length word - (offset + length bytes)) word ++ (bytes ++ drop (length word - offset) word)

module _ {A : Type 0} where
  drop_append : (k : ℕ) (xs ys : List A) → k ≡ length xs → drop k (xs ++ ys) ≡ ys
  drop_append zero [] ys e = refl
  drop_append zero (x ∷ xs) ys e = absurd (omega arith)
  drop_append (suc k) [] ys e = absurd (omega arith)
  drop_append (suc k) (x ∷ xs) ys e = drop_append k xs ys (omega arith)

  take_append : (k : ℕ) (xs ys : List A) → k ≡ length xs → take k (xs ++ ys) ≡ xs
  take_append zero [] ys e = refl
  take_append zero (x ∷ xs) ys e = absurd (omega arith)
  take_append (suc k) [] ys e = absurd (omega arith)
  take_append (suc k) (x ∷ xs) ys e = ap (λ l. x ∷ l) (take_append k xs ys (omega arith))

  drop_past :
      (k d : ℕ) (xs ys : List A) → length xs ≡ d → d ≤ k → drop k (xs ++ ys) ≡ drop (k - d) ys
  drop_past k zero [] ys e le = ap (λ j. drop j ys) (omega arith)
  drop_past k (suc d) [] ys e le = absurd (omega arith)
  drop_past k zero (x ∷ xs) ys e le = absurd (omega arith)
  drop_past zero (suc d) (x ∷ xs) ys e le = absurd (omega arith)
  drop_past (suc k) (suc d) (x ∷ xs) ys e le =
      drop_past k d xs ys (omega arith) (omega arith) ∙ ap (λ j. drop j ys) (omega arith)

  -- A part inside the first list.
  part_of_first :
      (m a : ℕ) (xs ys : List A)
      → a + m ≤ length xs
      → take m (drop a (xs ++ ys)) ≡ take m (drop a xs)
  part_of_first zero a xs ys le = refl
  part_of_first (suc m) a [] ys le = absurd (omega arith)
  part_of_first (suc m) zero (x ∷ xs) ys le =
      ap (λ l. x ∷ l) (part_of_first m zero xs ys (omega arith))
  part_of_first (suc m) (suc a) (x ∷ xs) ys le = part_of_first (suc m) a xs ys (omega arith)

pos-sub : (a b : ℕ) → b ≤ a → pos a -ℤ pos b ≡ pos (a - b)
unfolding ◌-ℤ◌
pos-sub a b le = ground (arith, le)

length-store_inplace :
    (offset : ℕ) (bytes word : List ℕ)
    → offset + length bytes ≤ length word
    → length (store_inplace offset bytes word) ≡ length word
length-store_inplace offset bytes word le = omega (
  arith,
  le,
  length-append (take (length word - (offset + length bytes)) word)
      (bytes ++ drop (length word - offset) word),
  length-append bytes (drop (length word - offset) word),
  length-take (length word - (offset + length bytes)) word,
  length-drop (length word - offset) word,
)

-- A part that does not overlap with what was written.
part_of_store :
    (offset : ℕ) (bytes word : List ℕ) (other n : ℕ)
    → offset + length bytes ≤ length word
    → other + n ≤ length word
    → (other + n ≤ offset) ⊎ (offset + length bytes ≤ other)
    → take n (drop (length word - (other + n)) (store_inplace offset bytes word))
      ≡ take n (drop (length word - (other + n)) word)
part_of_store offset bytes word other n le le' (inl behind) = ap (take n) (
    ap (drop (length word - (other + n))) (assoc before bytes behind_it)
    ∙ drop_past (length word - (other + n)) (length word - offset) (before ++ bytes) behind_it
        (omega (
          arith,
          le,
          length-append before bytes,
          length-take (length word - (offset + length bytes)) word,
        ))
        (omega (arith, behind))
    ∙ sym (
        drop_past (length word - (other + n)) (length word - offset)
          (take (length word - offset) word) behind_it
          (omega (arith, length-take (length word - offset) word)) (omega (arith, behind)))
    ∙ ap (drop (length word - (other + n))) (take-append-drop (length word - offset) word))
  where
    before : List ℕ
    before = take (length word - (offset + length bytes)) word

    behind_it : List ℕ
    behind_it = drop (length word - offset) word

    assoc : (xs ys zs : List ℕ) → xs ++ (ys ++ zs) ≡ (xs ++ ys) ++ zs
    assoc [] ys zs = refl
    assoc (x ∷ xs) ys zs = ap (λ l. x ∷ l) (assoc xs ys zs)
part_of_store offset bytes word other n le le' (inr ahead) =
    part_of_first n (length word - (other + n)) before (bytes ++ drop (length word - offset) word)
      (omega (arith, ahead, le', length-take (length word - (offset + length bytes)) word))
    ∙ sym (
        part_of_first n (length word - (other + n)) before
          (drop (length word - (offset + length bytes)) word)
          (omega (arith, ahead, le', length-take (length word - (offset + length bytes)) word)))
    ∙ ap (λ l. take n (drop (length word - (other + n)) l))
        (take-append-drop (length word - (offset + length bytes)) word)
  where
    before : List ℕ
    before = take (length word - (offset + length bytes)) word

module _ (ethers : Ethers) (slices : SliceLaw ethers) where
  -- The bytes that a variable has in the value of its slot.
  get_inplace_value-take :
      (slot offset n proof : ℕ) (value : List ℕ)
      → ethers.get_storage_at slot ≡ ok (value, proof)
      → offset + n ≤ length value
      → get_inplace_value ethers slot offset n
        ≡ ok (take n (drop (length value - (offset + n)) value), proof)
  unfolding get_inplace_value
  get_inplace_value-take slot offset n proof value stored le =
      ap
        (λ r. elim r as (λ _. Result (List ℕ × ℕ)) [
          | ok a ↦ ok (
            ethers.hex_data_slice a.0 (pos (length a.0) -ℤ pos (offset + n))
                (pos (length a.0) -ℤ pos offset),
            a.1,
          )
          | err e ↦ err e
        ])
        stored
      ∙ ap (λ b. ok (ethers.hex_data_slice value b (pos (length value) -ℤ pos offset), proof))
          (pos-sub (length value) (offset + n) le)
      ∙ ap (λ b. ok (ethers.hex_data_slice value (pos (length value - (offset + n))) b, proof))
          (pos-sub (length value) offset (omega (arith, le)))
      ∙ ap (λ l. ok (l, proof))
          (slices value (length value - (offset + n)) (length value - offset) (omega arith)
              (omega arith)
            ∙ ap (λ k. take k (drop (length value - (offset + n)) value)) (omega (arith, le)))

  -- A value that was written in place, inside its slot, is read back.
  pub get_inplace_value-store_inplace :
      (slot offset proof : ℕ) (bytes word : List ℕ)
      → offset + length bytes ≤ length word
      → ethers.get_storage_at slot ≡ ok (store_inplace offset bytes word, proof)
      → get_inplace_value ethers slot offset (length bytes) ≡ ok (bytes, proof)
  get_inplace_value-store_inplace slot offset proof bytes word le stored =
      get_inplace_value-take slot offset (length bytes) proof (store_inplace offset bytes word)
        stored (omega (arith, le, length-store_inplace offset bytes word le))
      ∙ ap (λ l. ok (l, proof))
          (ap (λ k. take (length bytes) (drop k (store_inplace offset bytes word)))
              (ap (λ k. k - (offset + length bytes)) (length-store_inplace offset bytes word le))
            ∙ ap (take (length bytes)) (
                drop_append (length word - (offset + length bytes))
                  (take (length word - (offset + length bytes)) word)
                  (bytes ++ drop (length word - offset) word)
                  (omega (arith, length-take (length word - (offset + length bytes)) word)))
            ∙ take_append (length bytes) bytes (drop (length word - offset) word) refl)

  -- A variable that does not overlap with one that is written in place keeps its bytes.
  pub get_inplace_value-other :
      (slot offset proof : ℕ) (bytes word : List ℕ) (other n : ℕ)
      → offset + length bytes ≤ length word
      → other + n ≤ length word
      → (other + n ≤ offset) ⊎ (offset + length bytes ≤ other)
      → ethers.get_storage_at slot ≡ ok (store_inplace offset bytes word, proof)
      → get_inplace_value ethers slot other n
        ≡ ok (take n (drop (length word - (other + n)) word), proof)
  get_inplace_value-other slot offset proof bytes word other n le le' apart stored =
      get_inplace_value-take slot other n proof (store_inplace offset bytes word) stored
        (omega (arith, le', length-store_inplace offset bytes word le))
      ∙ ap (λ l. ok (l, proof))
          (ap (λ k. take n (drop k (store_inplace offset bytes word)))
              (ap (λ k. k - (other + n)) (length-store_inplace offset bytes word le))
            ∙ part_of_store offset bytes word other n le le' apart)
