-- ===== src/Storage/Answers.antt =====
-- Reading a variable, whose parts a decoder reads: what ends with a value or an error of the code.
use watcher_ts.Common.{
  Bool-cases, subst, inl, inr, ltb, ℕ, zero, suc, ◌+◌, Bool, true, false, ◌==◌, Option, none, some,
  List, [], ◌∷◌, All, find, if◌then◌else◌, Result, ok, err, Error, out_of_fuel, type_error, ◌≡◌,
  refl, ap, sym, ◌∙◌, arith,
}
use watcher_ts.Common.Int.{pos}
use watcher_ts.Storage.{
  Types, TypeInfo, StorageVariable, MappingKey, text_key, bool_key, number_key, Decoded,
  DecodedList, element, member, array, structure, Ethers, ◌>>=◌, expect, get_mapping_slot,
  get_inplace_value,
}
use watcher_ts.Storage.Decode.{
  Decoder, get_array_element, get_elements, get_array_value, get_struct_member, get_members,
  get_structure_value, named_member, later_keys, text_length, get_slots, get_bytes_value,
  get_dynamic_array_info, mapping_slot, div_up,
}

abbrev is_fuel_error : Error → Bool
is_fuel_error out_of_fuel = true
is_fuel_error _ = false

abbrev pub is_out_of_fuel : {A : Type 0} → Result A → Bool
is_out_of_fuel (ok a) = false
is_out_of_fuel (err e) = is_fuel_error e

-- Not out of fuel: a value, or an error that the code throws.
abbrev pub Answers : {A : Type 0} → Result A → Type 0
Answers r = is_out_of_fuel r ≡ false

module _ {A B : Type 0} where
  pub bind-Answers :
      (r : Result A) (f : A → Result B)
      → Answers r
      → ((a : A) → r ≡ ok a → Answers (f a))
      → Answers (r >>= f)
  bind-Answers (ok a) f answers next = next a refl
  bind-Answers (err e) f answers next = answers

pub expect-Answers :
    {A : Type 0} (o : Option A) (e : Error)
    → is_out_of_fuel {A = A} (err e) ≡ false
    → Answers (expect o e)
expect-Answers none e other = other
expect-Answers (some a) e other = refl

if-Answers :
    {A : Type 0} (b : Bool) (r r' : Result A)
    → Answers r
    → Answers r'
    → Answers (if b then r else r')
if-Answers true r r' first second = first
if-Answers false r r' first second = second

pub option-Answers :
    {A B : Type 0} (o : Option A) (r : Result B) (f : A → Result B)
    → Answers r
    → ((a : A) → o ≡ some a → Answers (f a))
    → Answers (elim o as (λ _. Result B) [ none ↦ r | some a ↦ f a ])
option-Answers none r f nothing just = nothing
option-Answers (some a) r f nothing just = just a refl

pub expect-some : {A : Type 0} (o : Option A) (e : Error) (a : A) → expect o e ≡ ok a → o ≡ some a
expect-some none e a found = absurd (ground (arith, found))
expect-some (some b) e a found = ground (arith, found)

pub then_ok : {A B : Type 0} (r : Result A) (g : A → B) → Answers r → Answers (r >>= λ a. ok (g a))
then_ok r g answers = bind-Answers r (λ a. ok (g a)) answers (λ a _. refl)

get_elements-Answers :
    (get : ℕ → Result Decoded) (n i : ℕ)
    → ((j : ℕ) → Answers (get j))
    → Answers (get_elements get n i)
unfolding get_elements
get_elements-Answers get zero i each = refl
get_elements-Answers get (suc n) i each =
    bind-Answers (get i) (λ value. get_elements get n (i + 1) >>= λ rest. ok (element value rest))
      (each i)
      (λ value _.
        then_ok (get_elements get n (i + 1)) (element value)
          (get_elements-Answers get n (i + 1) each))

-- A decoder answers for a type, wherever its value is.
abbrev pub AnswersFor : Decoder → ℕ → Type 0
AnswersFor decode t =
    (slot offset : ℕ) (keys : List MappingKey)
    → Answers (decode (record { slot = slot; offset = offset; type_name = t }) keys)

pub get_array_value-Answers :
    (decode : Decoder) (types : Types) (keys : List MappingKey) (slot base size : ℕ)
    → AnswersFor decode base
    → Answers (get_array_value decode types keys slot base size)
unfolding get_array_value get_array_element
get_array_value-Answers decode types keys slot base size each =
    bind-Answers (expect (types base) type_error) (λ info. part info keys)
      (expect-Answers (types base) type_error refl) (λ info _. part-Answers info keys)
  where
    all : TypeInfo → List MappingKey → Result DecodedList
    all info keys =
        get_elements (get_array_element decode slot base info.number_of_bytes keys) size 0

    part : TypeInfo → List MappingKey → Result Decoded
    part info keys =
        let every = all info keys in
        elim keys [
          | number_key i ∷ rest ↦ get_array_element decode slot base info.number_of_bytes rest i
          | _ ↦ (do values ← every; ok (array values))
        ]

    all-Answers : (info : TypeInfo) (keys : List MappingKey) → Answers (all info keys)
    all-Answers info keys =
        get_elements-Answers (get_array_element decode slot base info.number_of_bytes keys) size 0
          (λ j. each _ _ keys)

    part-Answers : (info : TypeInfo) (keys : List MappingKey) → Answers (part info keys)
    part-Answers info [] = then_ok (all info []) array (all-Answers info [])
    part-Answers info (number_key i ∷ rest) = each _ _ rest
    part-Answers info (text_key n ∷ rest) =
        then_ok (all info (text_key n ∷ rest)) array (all-Answers info (text_key n ∷ rest))
    part-Answers info (bool_key b ∷ rest) =
        then_ok (all info (bool_key b ∷ rest)) array (all-Answers info (bool_key b ∷ rest))

get_members-Answers :
    (get : StorageVariable → Result Decoded) (members : List StorageVariable)
    → All (λ v. Answers (get v)) members
    → Answers (get_members get members)
unfolding get_members
get_members-Answers get [] each = refl
get_members-Answers get (v ∷ members) (first, each) =
    bind-Answers (get v)
      (λ value. get_members get members >>= λ rest. ok (member v.label value rest)) first
      (λ value _.
        then_ok (get_members get members) (member v.label value)
          (get_members-Answers get members each))

first-found :
    {A : Type 0} (y x : A) (rest : Option A) (b : Bool)
    → b ≡ true
    → (if b then some y else rest) ≡ some x
    → y ≡ x
first-found y x rest true e found = ground (arith, found)
first-found y x rest false e found = absurd (ground (arith, e))

pub find-All :
    {A : Type 0} (P : A → Type 0) (test : A → Bool) (xs : List A)
    → All P xs
    → (x : A) → find test xs ≡ some x
    → P x
find-All P test [] all x found = absurd (ground (arith, found))
find-All P test (y ∷ xs) (this, all) x found = elim (Bool-cases (test y)) [
  | inl found_here ↦ subst P (first-found y x (find test xs) (test y) found_here found) this
  | inr not_here ↦
      find-All P test xs all x (sym (ap (λ b. if b then some y else find test xs) not_here) ∙ found)
]

pub get_structure_value-Answers :
    (decode : Decoder) (keys : List MappingKey) (slot : ℕ) (members : List StorageVariable)
    → All (λ v. AnswersFor decode v.type_name) members
    → Answers (get_structure_value decode keys slot members)
unfolding get_structure_value
get_structure_value-Answers decode keys slot members each =
    option-Answers (named_member members keys)
      (get_members (get_struct_member decode slot keys) members >>= λ values. ok (structure values))
      (get_struct_member decode slot (later_keys keys))
      (then_ok (get_members (get_struct_member decode slot keys) members) structure (
        get_members-Answers (get_struct_member decode slot keys) members
          (all-Answers members each)))
      (λ v e. member-Answers keys v e _ _ (later_keys keys))
  where
    all-Answers :
        (ms : List StorageVariable)
        → All (λ v. AnswersFor decode v.type_name) ms
        → All (λ v. Answers (get_struct_member decode slot keys v)) ms
    all-Answers [] each = tt
    all-Answers (v ∷ ms) (first, each) = (first _ _ keys, all-Answers ms each)

    member-Answers :
        (ks : List MappingKey) (v : StorageVariable)
        → named_member members ks ≡ some v
        → AnswersFor decode v.type_name
    member-Answers [] v e = absurd (ground (arith, e))
    member-Answers (text_key name ∷ ks) v e =
        find-All (λ v. AnswersFor decode v.type_name) (λ v. v.label == name) members each v e
    member-Answers (bool_key b ∷ ks) v e = absurd (ground (arith, e))
    member-Answers (number_key n ∷ ks) v e = absurd (ground (arith, e))

pub mapping_slot-Answers :
    (ethers : Ethers) (types : Types) (slot key_type : ℕ) (keys : List MappingKey)
    → Answers (mapping_slot ethers types slot key_type keys)
unfolding get_mapping_slot
mapping_slot-Answers ethers types slot key_type keys = ground (arith)

module _ (ethers : Ethers) (reads : (slot : ℕ) → Answers (ethers.get_storage_at slot)) where
  pub get_inplace_value-Answers :
      (slot offset n : ℕ) → Answers (get_inplace_value ethers slot offset n)
  unfolding get_inplace_value
  get_inplace_value-Answers slot offset n =
      bind-Answers (ethers.get_storage_at slot) _ (reads slot) (λ a _. refl)

  get_slots-Answers : (n position i : ℕ) → Answers (get_slots ethers n position i)
  unfolding get_slots
  get_slots-Answers zero position i = refl
  get_slots-Answers (suc n) position i =
      bind-Answers (ethers.get_storage_at (position + i)) _ (reads (position + i)) (λ a _.
        bind-Answers (get_slots ethers n position (i + 1)) _ (get_slots-Answers n position (i + 1))
          (λ b _. refl))

  pub get_bytes_value-Answers : (slot : ℕ) → Answers (get_bytes_value ethers slot)
  unfolding get_bytes_value
  get_bytes_value-Answers slot =
      bind-Answers (ethers.get_storage_at slot) _ (reads slot)
        (λ a _. either a (text_length ethers a.0))
    where
      position : ℕ
      position = ethers.keccak256 (ethers.hex_zero_pad (ethers.hexlify_number slot))

      short : List ℕ × ℕ → ℕ → Result (List ℕ × List ℕ)
      short a size = ok (ethers.hex_data_slice a.0 (pos 0) (pos size), a.1 ∷ [])

      long : List ℕ × ℕ → ℕ → Result (List ℕ × List ℕ)
      long a size = get_slots ethers (div_up size 32) position 0 >>= λ p.
          ok (ethers.hex_data_slice p.0 (pos 0) (pos size), a.1 ∷ p.1)

      either :
          (a : List ℕ × ℕ) (size : ℕ) → Answers (if ltb size 32 then short a size else long a size)
      either a size = if-Answers (ltb size 32) (short a size) (long a size) refl (
          then_ok (get_slots ethers (div_up size 32) position 0)
            (λ p. (ethers.hex_data_slice p.0 (pos 0) (pos size), a.1 ∷ p.1))
            (get_slots-Answers (div_up size 32) position 0))

  pub get_dynamic_array_info-Answers :
      (slot offset n : ℕ) → Answers (get_dynamic_array_info ethers slot offset n)
  unfolding get_dynamic_array_info
  get_dynamic_array_info-Answers slot offset n =
      bind-Answers (get_inplace_value ethers slot offset n) _
        (get_inplace_value-Answers slot offset n) (λ a _. refl)
