-- ===== src/Storage/Tests.antt =====
-- Storage at work, and the theorems about it at concrete inputs. The slots are of four bytes here.
use watcher_ts.Common.{
  All, subst, sym, ℕ, ◌+◌, ◌-◌, ◌*◌, ◌≡◌, ◌≤◌, ◌<◌, refl, Bool, true, false, Option, none, some,
  List, [], ◌∷◌, take, drop, ok, arith, ◌⊎◌, inr, if◌then◌else◌, ◌==◌,
}
use watcher_ts.Common.Int.{pos, negsuc, pos_part, ◌-ℤ◌}
use watcher_ts.Storage.{
  TypeLabel, NumberLabel, uint_label, int_label, Encoding, inplace, dynamic_array, TypeInfo, Types,
  StorageVariable, StorageLayout, number_key, leaf, structure, no_values, member, one_proof,
  bool_value, number_value, Ethers, to_number, get_inplace_value, get_value_by_type,
}
use watcher_ts.Storage.Decode.{
  element_place, get_array_element, get_elements, get_array_value, get_members, get_structure_value,
  get_dynamic_array_info, get_decoded_value, get_storage_value,
}
use watcher_ts.Storage.Place.{element_place-within, position, position-next}
use watcher_ts.Storage.Answers.{is_out_of_fuel}
use watcher_ts.Storage.Enough.{Ranked, get_storage_value-Answers}
use watcher_ts.Storage.Inplace.{
  SliceLaw, store_inplace, get_inplace_value-store_inplace, get_inplace_value-other,
}

-- Slot 3 has three elements of an array, whose first slot is the hash 9.
abbrev lookup : {A : Type 0} → List (ℕ × A) → A → ℕ → A
lookup [] default n = default
lookup ((m, a) ∷ rows) default n = if n == m then a else lookup rows default n

abbrev slots : ℕ → List ℕ
slots =
    lookup
      ((0, 1 ∷ 254 ∷ 7 ∷ 6 ∷ [])
        ∷ (1, store_inplace 1 (8 ∷ 9 ∷ []) (1 ∷ 2 ∷ 3 ∷ 4 ∷ []))
        ∷ (3, 0 ∷ 0 ∷ 0 ∷ 3 ∷ [])
        ∷ (9, 0 ∷ 0 ∷ 0 ∷ 40 ∷ [])
        ∷ (10, 0 ∷ 0 ∷ 0 ∷ 41 ∷ [])
        ∷ [])
      []

abbrev ethers : Ethers
ethers = record {
  get_storage_at = λ slot. ok (slots slot, slot * 100);
  hex_data_slice = λ value a b. take (pos_part b - pos_part a) (drop (pos_part a) value);
  hex_zero_pad = λ bytes. bytes;
  keccak256 = λ bytes. to_number bytes * 3;
  hexlify_text = λ text. text ∷ [];
  hexlify_number = λ n. n ∷ [];
  to_utf8_bytes = λ text. text ∷ [];
  to_utf8_string = to_number;
  get_address = to_number;
}

slices : SliceLaw ethers
slices value a b le le' = refl

abbrev label : Bool → Option NumberLabel → Bool → TypeLabel
label is_bool number is_struct = record {
  is_bool = is_bool;
  number = number;
  is_string = false;
  includes_string = false;
  starts_with_address = false;
  array_size = none;
  is_struct = is_struct;
}

abbrev plain : Encoding → ℕ → TypeLabel → TypeInfo
plain encoding number_of_bytes label = record {
  encoding = encoding;
  number_of_bytes = number_of_bytes;
  label = label;
  base = none;
  value_type = none;
  key_type = none;
  members = none;
}

abbrev variable : ℕ → ℕ → ℕ → ℕ → StorageVariable
variable slot offset type_name name = record {
  slot = slot;
  offset = offset;
  type_name = type_name;
  label = name;
}

-- int8, bool, uint32, a dynamic array of uint256, which is type 6, and a structure of the first two.
abbrev pair : List StorageVariable
pair = variable 0 2 0 70 ∷ variable 0 3 1 71 ∷ []

abbrev types : Types
types =
    lookup
      ((0, some (plain inplace 1 (label false (some (int_label 8)) false)))
        ∷ (1, some (plain inplace 1 (label true none false)))
        ∷ (2, some (plain inplace 4 (label false (some (uint_label 32)) false)))
        ∷ (3, some (record (plain dynamic_array 4 (label false none false)) { base = some 6 }))
        ∷ (4, some (record (plain inplace 4 (label false none true)) { members = some pair }))
        ∷ (6, some (plain inplace 32 (label false (some (uint_label 256)) false)))
        ∷ [])
      none

abbrev layout : StorageLayout
layout = record { storage = variable 0 0 4 60 ∷ variable 3 0 3 61 ∷ []; types = types }

-- The members of a structure, packed into one slot, one of them negative.
structure_read :
    get_storage_value ethers layout 2 60 []
    ≡ ok (
        structure (
          member 70
            (leaf (number_value (negsuc 1)) (one_proof 0))
            (member 71 (leaf (bool_value true) (one_proof 0)) no_values)))
unfolding get_storage_value get_decoded_value get_structure_value get_members get_inplace_value
    get_value_by_type ◌-ℤ◌
structure_read = refl

element_read :
    get_storage_value ethers layout 2 61 (number_key 1 ∷ [])
    ≡ ok (leaf (number_value (pos 41)) (one_proof 1000))
unfolding get_storage_value get_decoded_value get_dynamic_array_info get_array_value get_elements
    get_array_element element_place get_inplace_value get_value_by_type ◌-ℤ◌
element_read = refl

-- An element of 12 bytes is the second of two in its slot, and fits there.
element_place-within_example :
    ((12 ≤ 32) × ((element_place 12 5).1 + 12 ≤ 32)) ⊎ ((32 < 12) × ((element_place 12 5).1 ≡ 0))
element_place-within_example = element_place-within 12 5 (omega arith)

position-next_example : position 40 3 + 40 ≤ position 40 4
position-next_example = position-next 40 3 (omega arith)

get_inplace_value-store_inplace_example : get_inplace_value ethers 1 1 2 ≡ ok (8 ∷ 9 ∷ [], 100)
get_inplace_value-store_inplace_example =
    get_inplace_value-store_inplace ethers slices 1 1 100 (8 ∷ 9 ∷ []) (1 ∷ 2 ∷ 3 ∷ 4 ∷ [])
      (omega arith) refl

get_inplace_value-other_example : get_inplace_value ethers 1 3 1 ≡ ok (1 ∷ [], 100)
get_inplace_value-other_example =
    get_inplace_value-other ethers slices 1 1 100 (8 ∷ 9 ∷ []) (1 ∷ 2 ∷ 3 ∷ 4 ∷ []) 3 1
      (omega arith) (omega arith) (inr (omega arith)) refl

-- The structure is above its members, the array above its elements.
abbrev rank : ℕ → ℕ
rank t = if t == 3 then 1 else if t == 4 then 1 else 0

four :
    (t : ℕ) (info : TypeInfo) (members : List StorageVariable)
    → types t ≡ some info
    → info.members ≡ some members
    → t ≡ 4
four t info members known e = ground (arith, known, e)

members_are :
    (t : ℕ) (info : TypeInfo) (members : List StorageVariable)
    → types t ≡ some info
    → info.members ≡ some members
    → members ≡ pair
members_are t info members known e = ground (arith, known, e)

types-Ranked : Ranked types rank
types-Ranked = record {
  base_lower = λ t b info known e. ground (arith, known, e);
  value_lower = λ t v info known e. ground (arith, known, e);
  members_lower = λ t info members known e.
      subst (λ ms. All (λ v. rank v.type_name < rank t) ms)
        (sym (members_are t info members known e))
        (subst (λ u. All (λ v. rank v.type_name < rank u) pair) (sym (four t info members known e))
          ((omega arith, (omega arith, tt))));
}

get_storage_value-Answers_example :
    is_out_of_fuel (get_storage_value ethers layout 2 61 (number_key 1 ∷ [])) ≡ false
get_storage_value-Answers_example =
    get_storage_value-Answers ethers (λ slot. refl) layout rank 2 61 (number_key 1 ∷ [])
      types-Ranked (omega arith, (omega arith, tt))
