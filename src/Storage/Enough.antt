-- ===== src/Storage/Enough.antt =====
-- The fuel that reading a variable takes: types refer to types, and a chain of them ends.
use watcher_ts.Common.{
  no_such_variable, not_implemented, ℕ, zero, suc, ◌<◌, false, ◌==◌, some, List, [], ◌∷◌, All, find,
  Result, err, type_error, missing_type, ◌≡◌, refl, arith,
}
use watcher_ts.Storage.{
  Types, TypeInfo, StorageVariable, StorageLayout, MappingKey, inplace, bytes_encoding, mapping,
  dynamic_array, other_encoding, Decoded, Ethers, expect, get_inplace_value,
}
use watcher_ts.Storage.Decode.{
  StorageInfo, Decoder, get_bytes_value, get_dynamic_array_info, decode_inplace, decode_bytes,
  mapping_slot, decode_mapping, decode_dynamic_array, decode_by_encoding, decode_type, fixed_array,
  struct_members, get_decoded_value, get_storage_info, get_storage_value,
}
use watcher_ts.Storage.Answers.{
  is_out_of_fuel, Answers, AnswersFor, bind-Answers, then_ok, option-Answers, expect-Answers,
  expect-some, find-All, get_array_value-Answers, get_structure_value-Answers, mapping_slot-Answers,
  get_inplace_value-Answers, get_bytes_value-Answers, get_dynamic_array_info-Answers,
}

-- Each type has a rank above those of the types it refers to.
pub record Ranked (types : Types) (rank : ℕ → ℕ) : Type 0 where
  pub base_lower :
      (t b : ℕ) (info : TypeInfo) → types t ≡ some info → info.base ≡ some b → rank b < rank t
  pub value_lower :
      (t v : ℕ) (info : TypeInfo) → types t ≡ some info → info.value_type ≡ some v → rank v < rank t
  pub members_lower :
      (t : ℕ) (info : TypeInfo) (members : List StorageVariable)
      → types t ≡ some info
      → info.members ≡ some members
      → All (λ v. rank v.type_name < rank t) members

module _ (ethers : Ethers) (reads : (slot : ℕ) → Answers (ethers.get_storage_at slot)) where
  module _ (types : Types) (rank : ℕ → ℕ) (ranked : Ranked types rank) where
    fixed-base :
        (info : TypeInfo) (base size : ℕ)
        → fixed_array info ≡ some (base, size)
        → info.base ≡ some base
    fixed-base info base size e = ground (arith, e)

    struct-members :
        (info : TypeInfo) (members : List StorageVariable)
        → struct_members info ≡ some members
        → info.members ≡ some members
    struct-members info members e = ground (arith, e)

    -- A type whose parts have a decoder that answers.
    module _ (decode : Decoder) (t : ℕ) (info : TypeInfo) (known : types t ≡ some info)
        (below : (u : ℕ) → rank u < rank t → AnswersFor decode u) where
      members-Answers :
          (members : List StorageVariable)
          → All (λ v. rank v.type_name < rank t) members
          → All (λ v. AnswersFor decode v.type_name) members
      members-Answers [] lower = tt
      members-Answers (v ∷ members) (first, lower) =
          (below v.type_name first, members-Answers members lower)

      decode_mapping-Answers :
          (place : StorageInfo) (keys : List MappingKey)
          → Answers (decode_mapping ethers decode types info place keys)
      decode_mapping-Answers place keys =
          bind-Answers (expect info.value_type missing_type) _
            (expect-Answers info.value_type missing_type refl)
            (λ v e.
              bind-Answers (expect info.key_type missing_type) _
                (expect-Answers info.key_type missing_type refl)
                (λ k _.
                  bind-Answers (mapping_slot ethers types place.slot k keys) _
                    (mapping_slot-Answers ethers types place.slot k keys)
                    (λ slot _.
                      below v
                        (ranked.value_lower t v info known
                          (expect-some info.value_type missing_type v e))
                        _ _ _)))

      decode_dynamic_array-Answers :
          (place : StorageInfo) (keys : List MappingKey)
          → Answers (decode_dynamic_array ethers decode types info place keys)
      decode_dynamic_array-Answers place keys =
          bind-Answers (expect info.base missing_type) _
            (expect-Answers info.base missing_type refl)
            (λ b e.
              bind-Answers
                (get_dynamic_array_info ethers place.slot place.offset info.number_of_bytes) _
                (get_dynamic_array_info-Answers ethers reads place.slot place.offset
                  info.number_of_bytes)
                (λ p _. get_array_value-Answers decode types keys _ b _ (
                  below b
                    (ranked.base_lower t b info known (expect-some info.base missing_type b e)))))

      decode_by_encoding-Answers :
          (place : StorageInfo) (keys : List MappingKey)
          → Answers (decode_by_encoding ethers decode types info place keys)
      decode_by_encoding-Answers place keys =
          elim info.encoding
            as (λ c. Answers (elim c as (λ _. Result Decoded) [
              | inplace ↦ decode_inplace ethers info place
              | bytes_encoding ↦ decode_bytes ethers info place
              | mapping ↦ decode_mapping ethers decode types info place keys
              | dynamic_array ↦ decode_dynamic_array ethers decode types info place keys
              | other_encoding _ ↦ err not_implemented
            ])) [
              | inplace ↦
                  then_ok (get_inplace_value ethers place.slot place.offset info.number_of_bytes) _
                    (get_inplace_value-Answers ethers reads place.slot place.offset
                      info.number_of_bytes)
              | bytes_encoding ↦
                  then_ok (get_bytes_value ethers place.slot) _
                    (get_bytes_value-Answers ethers reads place.slot)
              | mapping ↦ decode_mapping-Answers place keys
              | dynamic_array ↦ decode_dynamic_array-Answers place keys
              | other_encoding _ ↦ refl
            ]

      decode_type-Answers :
          (place : StorageInfo) (keys : List MappingKey)
          → Answers (decode_type ethers decode types info place keys)
      decode_type-Answers place keys =
          option-Answers (fixed_array info) _ _
            (option-Answers (struct_members info) _ _ (decode_by_encoding-Answers place keys)
              (λ members e. get_structure_value-Answers decode keys place.slot members (
                members-Answers members
                  (ranked.members_lower t info members known (struct-members info members e)))))
            (λ p e.
              get_array_value-Answers decode types keys place.slot p.0 p.1
                (below p.0 (ranked.base_lower t p.0 info known (fixed-base info p.0 p.1 e))))

    get_decoded_value-Answers :
        (fuel t : ℕ) → rank t < fuel → AnswersFor (get_decoded_value ethers types fuel) t
    unfolding get_decoded_value
    get_decoded_value-Answers zero t lt slot offset keys = absurd (omega (arith, lt))
    get_decoded_value-Answers (suc fuel) t lt slot offset keys =
        bind-Answers (expect (types t) type_error) _ (expect-Answers (types t) type_error refl)
          (λ info e.
            decode_type-Answers (get_decoded_value ethers types fuel) t info
              (expect-some (types t) type_error info e)
              (λ u lower. get_decoded_value-Answers fuel u (omega (arith, lt, lower)))
              (record { slot = slot; offset = offset; type_name = t }) keys)

  -- With fuel above the ranks of the variables' types, where a type has a rank above those it refers
  -- to and the node never is out of fuel, reading a variable ends with a value or an error of the
  -- code.
  pub get_storage_value-Answers :
      (layout : StorageLayout) (rank : ℕ → ℕ) (fuel name : ℕ) (keys : List MappingKey)
      → Ranked layout.types rank
      → All (λ v. rank v.type_name < fuel) layout.storage
      → is_out_of_fuel (get_storage_value ethers layout fuel name keys) ≡ false
  unfolding get_storage_value
  get_storage_value-Answers layout rank fuel name keys ranked below =
      bind-Answers (get_storage_info layout name)
        (λ v.
          get_decoded_value ethers layout.types fuel
            (record { slot = v.slot; offset = v.offset; type_name = v.type_name }) keys)
        (expect-Answers (find (λ v. v.label == name) layout.storage) no_such_variable refl)
        (λ v e.
          get_decoded_value-Answers layout.types rank ranked fuel v.type_name
            (find-All (λ v. rank v.type_name < fuel) (λ v. v.label == name) layout.storage below v
              (expect-some (find (λ v. v.label == name) layout.storage) no_such_variable v e))
            v.slot v.offset keys)
