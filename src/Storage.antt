-- ===== src/Storage.antt =====
-- Reading the storage of a contract by its layout: packages/solidity-mapper/src/storage.ts. A slot is
-- a number, its value the list of its bytes, and a name or a text is a number, the empty one 0. Labels of types are
-- only matched with regular expressions, so a label is the list of what they give. A value and its
-- proof have the same shape, so one tree holds both.
pub mod Decode
pub mod Place
pub mod Inplace
pub mod Answers
pub mod Enough
mod Tests
use watcher_ts.Common.{
  ℕ, zero, suc, ◌+◌, ◌-◌, ◌*◌, ◌/◌, ◌%◌, Bool, true, false, not, ◌==◌, leb, ltb, Option, none, some,
  List, [], ◌∷◌, ◌++◌, length, find, if◌then◌else◌, Result, ok, err, Error, type_error, invalid_key,
}
use watcher_ts.Common.Int.{ℤ, pos, ◌-ℤ◌}

-- `/^enum|((u?)int([0-9]+))/`
pub data NumberLabel : Type 0 where
  enum_label : NumberLabel
  uint_label int_label : ℕ → NumberLabel

pub record TypeLabel : Type 0 where
  pub is_bool : Bool
  pub number : Option NumberLabel
  pub is_string : Bool
  pub includes_string : Bool
  pub starts_with_address : Bool
  pub array_size : Option ℕ
  pub is_struct : Bool

pub data Encoding : Type 0 where
  inplace bytes_encoding mapping dynamic_array : Encoding
  other_encoding : ℕ → Encoding

-- `Storage`
pub record StorageVariable : Type 0 where
  pub slot : ℕ
  pub offset : ℕ
  pub type_name : ℕ
  pub label : ℕ

pub record TypeInfo : Type 0 where
  pub encoding : Encoding
  pub number_of_bytes : ℕ
  pub label : TypeLabel
  pub base : Option ℕ
  pub value_type : Option ℕ
  pub key_type : Option ℕ
  pub members : Option (List StorageVariable)

abbrev pub Types : Type 0
Types = ℕ → Option TypeInfo

pub record StorageLayout : Type 0 where
  pub storage : List StorageVariable
  pub types : Types

pub data MappingKey : Type 0 where
  text_key : ℕ → MappingKey
  bool_key : Bool → MappingKey
  number_key : ℕ → MappingKey

pub data Scalar : Type 0 where
  bool_value : Bool → Scalar
  number_value : ℤ → Scalar
  text_value address_value : ℕ → Scalar
  raw_value : List ℕ → Scalar

-- The proof of one slot, or those of the slots of a text.
pub data LeafProof : Type 0 where
  one_proof : ℕ → LeafProof
  proofs : List ℕ → LeafProof

mutual
  pub data Decoded : Type 0 where
    leaf : Scalar → LeafProof → Decoded
    array : DecodedList → Decoded
    structure : DecodedList → Decoded

  -- The elements of an array, or the members of a structure with their labels.
  pub data DecodedList : Type 0 where
    no_values : DecodedList
    element : Decoded → DecodedList → DecodedList
    member : ℕ → Decoded → DecodedList → DecodedList

-- What is called: the node, and ethers.
pub record Ethers : Type 0 where
  pub get_storage_at : ℕ → Result (List ℕ × ℕ)
  pub hex_data_slice : List ℕ → ℤ → ℤ → List ℕ
  pub hex_zero_pad : List ℕ → List ℕ
  pub keccak256 : List ℕ → ℕ
  pub hexlify_text : ℕ → List ℕ
  pub hexlify_number : ℕ → List ℕ
  pub to_utf8_bytes : ℕ → List ℕ
  pub to_utf8_string : List ℕ → ℕ
  pub get_address : List ℕ → ℕ

module _ {A B : Type 0} where
  infixl 5 ◌>>=◌
  abbrev pub ◌>>=◌ : Result A → (A → Result B) → Result B
  r >>= f = elim r [ ok a ↦ f a | err e ↦ err e ]

abbrev pub expect : {A : Type 0} → Option A → Error → Result A
expect none e = err e
expect (some a) e = ok a

-- `BigNumber.from` of bytes
abbrev pub number_from : ℕ → List ℕ → ℕ
number_from acc [] = acc
number_from acc (b ∷ bytes) = number_from (acc * 256 + b) bytes

abbrev pub to_number : List ℕ → ℕ
to_number bytes = number_from 0 bytes

-- `2 ^ size`, and `fromTwos(size)`: numbers with the bit of the sign set are negative.
abbrev pub two_to : ℕ → ℕ
two_to zero = 1
two_to (suc n) = 2 * two_to n

abbrev pub from_twos : ℕ → ℕ → ℤ
from_twos size n = if ltb n (two_to (size - 1)) then pos n else pos n -ℤ pos (two_to size)

abbrev pub number_by_label : NumberLabel → ℕ → ℤ
number_by_label enum_label n = pos n
number_by_label (uint_label size) n = pos n
number_by_label (int_label size) n = from_twos size n

module _ (ethers : Ethers) where
  unfoldable pub get_value_by_type : List ℕ → TypeLabel → Scalar
  get_value_by_type value label =
      if label.is_bool then bool_value (not (to_number value == 0)) else elim label.number [
        | some number ↦ number_value (number_by_label number (to_number value))
        | none ↦
            if label.includes_string
            then text_value (ethers.to_utf8_string value)
            else if label.starts_with_address
            then address_value (ethers.get_address value)
            else raw_value value
      ]

  -- The text of a key becomes its bytes, a truth value 1 or 0; what is a truth value still is no key.
  abbrev pub key_bytes : TypeLabel → MappingKey → Option (List ℕ)
  key_bytes label (bool_key b) =
      if label.is_bool then some (ethers.hexlify_number (if b then 1 else 0)) else none
  key_bytes label (text_key text) =
      if label.is_bool
      then some (ethers.hexlify_number (if text == 0 then 0 else 1))
      else if label.is_string
      then some (ethers.to_utf8_bytes text)
      else some (ethers.hexlify_text text)
  key_bytes label (number_key n) =
      if label.is_bool
      then some (ethers.hexlify_number (if n == 0 then 0 else 1))
      else some (ethers.hexlify_number n)

  abbrev pub pad_key : Encoding → List ℕ → List ℕ
  pad_key bytes_encoding key = key
  pad_key _ key = ethers.hex_zero_pad key

  unfoldable pub get_mapping_slot : Types → ℕ → ℕ → MappingKey → Result ℕ
  get_mapping_slot types slot key_type key = do
    info ← expect (types key_type) type_error
    bytes ← expect (key_bytes info.label key) invalid_key
    let slot_bytes = ethers.hex_zero_pad (ethers.hexlify_number slot)
    ok (ethers.keccak256 (pad_key info.encoding bytes ++ slot_bytes))

  -- `getInplaceValue`
  unfoldable pub get_inplace_value : ℕ → ℕ → ℕ → Result (List ℕ × ℕ)
  get_inplace_value slot offset number_of_bytes = do
    (value, proof) ← ethers.get_storage_at slot
    let size = length value
    ok (
      ethers.hex_data_slice value (pos size -ℤ pos (offset + number_of_bytes))
          (pos size -ℤ pos offset),
      proof,
    )
