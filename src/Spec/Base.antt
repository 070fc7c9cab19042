-- ===== src/Spec/Base.antt =====
-- The errors of the spec tools, and what they call in other crates.
use soroban_tools.Prelude.{ℕ, ◌-◌, ◌^◌, ◌≤◌, String, Bool, true, ◌≡◌, Option, some, List}
use soroban_tools.Prelude.Int.{ℤ, fits_signed}
use soroban_tools.Xdr.{Bytes}
use soroban_tools.Spec.Types.{ScType, ScVal}
use soroban_tools.Spec.Json.{Value}

pub data Error : Type 0 where
  invalid_pair : ScVal → ScType → Error
  invalid_value : Option ScType → Error
  enum_case : String → String → Error
  enum_missing_second_value : String → String → Error
  ill_formed_enum : String → Error
  enum_const : ℕ → Error
  enum_const_too_large : ℕ → Error
  missing_entry : String → Error
  missing_spec : Error
  -- The payloads of `Xdr`, `Serde`, `Ethnum` and `FailedNumConversion` are not read.
  xdr : Error
  serde : Error
  ethnum : Error
  missing_key : String → Error
  failed_num_conversion : Error
  enum_first_value_not_symbol : Error
  failed_to_find_enum_case : String → Error
  missing_error_case : ℕ → Error
  -- A `todo!()`, a failed `unwrap` or an index out of range.
  panic : Error
  -- The model's own: the fuel for the nesting of values and types ran out.
  out_of_fuel : Error

-- `stellar_strkey::Strkey`
pub data Strkey : Type 0 where
  public_key_ed25519 : Bytes → Strkey
  contract : Bytes → Strkey
  other : Strkey

-- `serde_json`, `stellar_strkey`, `ethnum`, `hex` and `stellar_xdr`.
pub record Crates : Type 1 where
  pub Number : Type 0
  pub as_u64 : Number → Option ℕ
  pub as_i64 : Number → Option ℤ
  pub number_from_u64 : ℕ → Number
  pub number_from_i64 : ℤ → Number
  pub number_text : Number → String
  -- `serde_json::from_str`, `from_value` into an `ScVal`, `to_string` and `to_value`.
  pub parse_json : String → Option (Value Number)
  pub value_to_sc_val : Value Number → Option ScVal
  pub json_text : Value Number → String
  pub error_value : Value Number
  pub hash_value : Bytes → Value Number
  -- Strkeys.
  pub strkey : String → Option Strkey
  pub public_key_text : Bytes → String
  pub contract_text : Bytes → String
  -- 256-bit words as the numbers of their two halves, and their decimal text.
  pub parse_u256 : String → Option (ℕ × ℕ)
  pub parse_i256 : String → Option (ℕ × ℕ)
  pub u256_text : ℕ → String
  pub i256_text : ℕ → String
  -- `hex::decode` and the text of bytes by `{b:02x}`.
  pub hex_decode : String → Option Bytes
  -- Whether a `VecM`, `BytesM` or `StringM` of that maximum takes that length.
  pub fits : ℕ → ℕ → Bool
  -- `ScMap::sorted_from`
  pub sorted_from : List (ScVal × ScVal) → Option (List (ScVal × ScVal))
  -- `to_utf8_string_lossy` of bytes that are no UTF-8.
  pub lossy : Bytes → String

-- What a round trip relies on: numbers keep integers, and the limits of XDR admit the lengths up
-- to their maximum.
pub record IsLawful (K : Crates) : Type 0 where
  pub as_u64_from : (n : ℕ) → n ≤ 2 ^ 64 - 1 → K.as_u64 (K.number_from_u64 n) ≡ some n
  pub as_i64_from : (z : ℤ) → fits_signed 63 z ≡ true → K.as_i64 (K.number_from_i64 z) ≡ some z
  pub fits_up_to : (most n : ℕ) → n ≤ most → K.fits most n ≡ true
