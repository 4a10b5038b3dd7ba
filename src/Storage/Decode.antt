-- ===== src/Storage/Decode.antt =====
-- `getDecodedValue` of packages/solidity-mapper/src/storage.ts and the functions that call it and
-- that it calls. The functions for arrays and structures take the decoder of their parts.
use watcher_ts.Common.{
  ℕ, zero, suc, ◌+◌, ◌-◌, ◌*◌, ◌/◌, ◌%◌, false, ◌==◌, leb, ltb, Option, none, some, List, [], ◌∷◌,
  ◌++◌, find, if◌then◌else◌, Result, ok, err, type_error, out_of_fuel, no_such_variable,
  missing_type, not_implemented,
}
use watcher_ts.Common.Int.{pos}
use watcher_ts.Storage.{
  Types, TypeInfo, StorageVariable, StorageLayout, MappingKey, text_key, bool_key, number_key,
  inplace, bytes_encoding, mapping, dynamic_array, other_encoding, Decoded, DecodedList, leaf,
  array, structure, no_values, element, member, one_proof, proofs, Ethers, ◌>>=◌, expect,
  get_value_by_type, get_mapping_slot, get_inplace_value, to_number,
}

-- Where a value is: `{ slot, offset, type }`.
pub record StorageInfo : Type 0 where
  pub slot : ℕ
  pub offset : ℕ
  pub type_name : ℕ

-- `Math.ceil(a / b)` for a `b` above 0
abbrev pub div_up : ℕ → ℕ → ℕ
div_up a b = (a + b - 1) / b

-- The slot of an element, whose bytes are one or more, behind the first one of the array, and its offset there.
unfoldable pub element_place : ℕ → ℕ → ℕ × ℕ
element_place number_of_bytes index =
    if leb number_of_bytes 32
    then (index / (32 / number_of_bytes), index % (32 / number_of_bytes) * number_of_bytes)
    else (div_up number_of_bytes 32 * index, 0)

abbrev pub fixed_array : TypeInfo → Option (ℕ × ℕ)
fixed_array info = elim info.label.array_size [
  | none ↦ none
  | some size ↦ elim info.base [ none ↦ none | some base ↦ some (base, size) ]
]

abbrev pub struct_members : TypeInfo → Option (List StorageVariable)
struct_members info = if info.label.is_struct then info.members else none

abbrev pub Decoder : Type 0
Decoder = StorageInfo → List MappingKey → Result Decoded

-- `getArrayElement`
unfoldable pub get_array_element : Decoder → ℕ → ℕ → ℕ → List MappingKey → ℕ → Result Decoded
unfolding element_place
get_array_element decode slot base number_of_bytes keys index =
    let (slot_index, offset) = element_place number_of_bytes index in
    decode (record { slot = slot + slot_index; offset = offset; type_name = base }) keys

-- The loop over the elements, from an index on.
unfoldable pub get_elements : (ℕ → Result Decoded) → ℕ → ℕ → Result DecodedList
get_elements get zero i = ok no_values
get_elements get (suc n) i = do
  value ← get i
  rest ← get_elements get n (i + 1)
  ok (element value rest)

unfoldable pub get_array_value : Decoder → Types → List MappingKey → ℕ → ℕ → ℕ → Result Decoded
unfolding get_array_element get_elements
get_array_value decode types keys slot base size = do
  info ← expect (types base) type_error
  let all = get_elements (get_array_element decode slot base info.number_of_bytes keys) size 0
  elim keys [
    | number_key i ∷ rest ↦ get_array_element decode slot base info.number_of_bytes rest i
    | _ ↦ (do values ← all; ok (array values))
  ]

-- `getStructMember`
abbrev pub get_struct_member : Decoder → ℕ → List MappingKey → StorageVariable → Result Decoded
get_struct_member decode slot keys v =
    decode (record { slot = slot + v.slot; offset = v.offset; type_name = v.type_name }) keys

unfoldable pub get_members :
    (StorageVariable → Result Decoded) → List StorageVariable → Result DecodedList
get_members get [] = ok no_values
get_members get (v ∷ members) = do
  value ← get v
  rest ← get_members get members
  ok (member v.label value rest)

-- The member that the first key names.
abbrev pub named_member : List StorageVariable → List MappingKey → Option StorageVariable
named_member members (text_key name ∷ keys) = find (λ v. v.label == name) members
named_member members _ = none

abbrev pub later_keys : List MappingKey → List MappingKey
later_keys [] = []
later_keys (k ∷ keys) = keys

unfoldable pub get_structure_value :
    Decoder → List MappingKey → ℕ → List StorageVariable → Result Decoded
unfolding get_members
get_structure_value decode keys slot members =
    let all = get_members (get_struct_member decode slot keys) members in
    elim (named_member members keys) [
      | some v ↦ get_struct_member decode slot (later_keys keys) v
      | none ↦ (do values ← all; ok (structure values))
    ]

-- `getStorageInfo`
abbrev pub get_storage_info : StorageLayout → ℕ → Result StorageVariable
get_storage_info layout name = expect (find (λ v. v.label == name) layout.storage) no_such_variable

module _ (ethers : Ethers) where
  -- The length of a text: in the last byte, or in the whole slot if its lowest bit is set.
  abbrev pub text_length : List ℕ → ℕ
  text_length value =
      if to_number value % 2 == 1
      then (to_number value - 1) / 2
      else to_number (ethers.hex_data_slice value (pos 31) (pos 32)) / 2

  -- The values and proofs of slots that follow one another.
  unfoldable pub get_slots : ℕ → ℕ → ℕ → Result (List ℕ × List ℕ)
  get_slots zero position i = ok ([], [])
  get_slots (suc n) position i = do
    (value, proof) ← ethers.get_storage_at (position + i)
    (values, rest) ← get_slots n position (i + 1)
    ok (value ++ values, proof ∷ rest)

  unfoldable pub get_bytes_value : ℕ → Result (List ℕ × List ℕ)
  unfolding get_slots
  get_bytes_value slot = do
    (value, proof) ← ethers.get_storage_at slot
    let size = text_length value
    let position = ethers.keccak256 (ethers.hex_zero_pad (ethers.hexlify_number slot))
    let long = do
      (values, rest) ← get_slots (div_up size 32) position 0
      ok (ethers.hex_data_slice values (pos 0) (pos size), proof ∷ rest)
    if ltb size 32 then ok (ethers.hex_data_slice value (pos 0) (pos size), proof ∷ []) else long

  -- `getDynamicArrayInfo`: the label 'uint' has no size, so the bytes stay as they are, and they are
  -- read as a number.
  unfoldable pub get_dynamic_array_info : ℕ → ℕ → ℕ → Result (ℕ × ℕ)
  unfolding get_inplace_value
  get_dynamic_array_info slot offset number_of_bytes = do
    (value, proof) ← get_inplace_value ethers slot offset number_of_bytes
    ok (to_number value, ethers.keccak256 (ethers.hex_zero_pad (ethers.hexlify_number slot)))

  abbrev pub decode_inplace : TypeInfo → StorageInfo → Result Decoded
  decode_inplace info place = do
    (value, proof) ← get_inplace_value ethers place.slot place.offset info.number_of_bytes
    ok (leaf (get_value_by_type ethers value info.label) (one_proof proof))

  abbrev pub decode_bytes : TypeInfo → StorageInfo → Result Decoded
  decode_bytes info place = do
    (value, all) ← get_bytes_value place.slot
    ok (leaf (get_value_by_type ethers value info.label) (proofs all))

  -- A key that is not there is not true, and throws if a truth value is not wanted.
  abbrev pub mapping_slot : Types → ℕ → ℕ → List MappingKey → Result ℕ
  mapping_slot types slot key_type [] = do
    info ← expect (types key_type) type_error
    if info.label.is_bool
        then get_mapping_slot ethers types slot key_type (bool_key false)
        else err type_error
  mapping_slot types slot key_type (key ∷ keys) = get_mapping_slot ethers types slot key_type key

  abbrev pub decode_mapping :
      Decoder → Types → TypeInfo → StorageInfo → List MappingKey → Result Decoded
  decode_mapping decode types info place keys = do
    value_type ← expect info.value_type missing_type
    key_type ← expect info.key_type missing_type
    slot ← mapping_slot types place.slot key_type keys
    decode (record { slot = slot; offset = 0; type_name = value_type }) (later_keys keys)

  abbrev pub decode_dynamic_array :
      Decoder → Types → TypeInfo → StorageInfo → List MappingKey → Result Decoded
  decode_dynamic_array decode types info place keys = do
    base ← expect info.base missing_type
    (size, slot) ← get_dynamic_array_info place.slot place.offset info.number_of_bytes
    get_array_value decode types keys slot base size

  abbrev pub decode_by_encoding :
      Decoder → Types → TypeInfo → StorageInfo → List MappingKey → Result Decoded
  decode_by_encoding decode types info place keys = elim info.encoding [
    | inplace ↦ decode_inplace info place
    | bytes_encoding ↦ decode_bytes info place
    | mapping ↦ decode_mapping decode types info place keys
    | dynamic_array ↦ decode_dynamic_array decode types info place keys
    | other_encoding _ ↦ err not_implemented
  ]

  abbrev pub decode_type :
      Decoder → Types → TypeInfo → StorageInfo → List MappingKey → Result Decoded
  decode_type decode types info place keys = elim (fixed_array info) [
    | some (base, size) ↦ get_array_value decode types keys place.slot base size
    | none ↦ elim (struct_members info) [
      | some members ↦ get_structure_value decode keys place.slot members
      | none ↦ decode_by_encoding decode types info place keys
    ]
  ]

  -- Types refer to types; the fuel is for a chain of them.
  unfoldable pub get_decoded_value : Types → ℕ → StorageInfo → List MappingKey → Result Decoded
  unfolding get_bytes_value get_dynamic_array_info get_array_value get_structure_value
  get_decoded_value types zero place keys = err out_of_fuel
  get_decoded_value types (suc fuel) place keys = do
    info ← expect (types place.type_name) type_error
    decode_type (get_decoded_value types fuel) types info place keys

  unfoldable pub get_storage_value : StorageLayout → ℕ → ℕ → List MappingKey → Result Decoded
  unfolding get_decoded_value
  get_storage_value layout fuel name keys = do
    v ← get_storage_info layout name
    get_decoded_value layout.types fuel
        (record { slot = v.slot; offset = v.offset; type_name = v.type_name }) keys
