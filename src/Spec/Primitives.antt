-- ===== src/Spec/Primitives.antt =====
-- `from_json_primitives` with what it calls: strkeys, hex text and the two halves of wide integers.
-- `padded_hex_from_str` is from soroban-spec-tools/src/utils.rs.
use Prim.Native.String.{len, count}
use soroban_tools.Prelude.{
  ℕ, ◌-◌, ◌*◌, ◌/◌, ◌%◌, ◌^◌, String, ◌<>◌, Bool, Option, none, some, List, length, ltb, ◌==◌,
  if◌then◌else◌, repeat,
}
use soroban_tools.Prelude.Int.{ℤ, fits_signed, to_pattern, of_pattern}
use soroban_tools.Prelude.Parse.{parse_unsigned, parse_signed}
use soroban_tools.Prelude.Result.{Result, ok, err, ◌>>=◌, ok_or, collect}
use soroban_tools.Xdr.{Bytes, account}
use soroban_tools.Xdr
use soroban_tools.Spec.Types.{ScType, ScVal, utf8}
use soroban_tools.Spec.Json.{Value, values}
use soroban_tools.Spec.Base.{Error, invalid_value, xdr, serde, ethnum, Strkey, Crates}

abbrev invalid : ScType → Error
invalid t = invalid_value (some t)

abbrev checked : Bool → ScVal → Error → Result Error ScVal
checked fits v e = if fits then ok v else err e

-- The parts of a 128-bit word: its big-endian bytes, split in the middle.
unfoldable pub u128_parts : ℕ → ScVal
u128_parts n = ScVal.u128 (n / 2 ^ 64) (n % 2 ^ 64)

unfoldable pub i128_parts : ℤ → ScVal
i128_parts z = let p = to_pattern 128 z in ScVal.i128 (of_pattern 64 (p / 2 ^ 64)) (p % 2 ^ 64)

unfoldable pub u256_parts : ℕ × ℕ → ScVal
u256_parts (hi, lo) = ScVal.u256 (hi / 2 ^ 64) (hi % 2 ^ 64) (lo / 2 ^ 64) (lo % 2 ^ 64)

unfoldable pub i256_parts : ℕ × ℕ → ScVal
i256_parts (hi, lo) =
    ScVal.i256 (of_pattern 64 (hi / 2 ^ 64)) (hi % 2 ^ 64) (lo / 2 ^ 64) (lo % 2 ^ 64)

module _ (K : Crates) where
  unfoldable pub strkey_address : Option Strkey → Result Error ScVal
  strkey_address none = err (invalid ScType.address)
  strkey_address (some (Strkey.public_key_ed25519 p)) = ok (ScVal.address (account p))
  strkey_address (some (Strkey.contract c)) = ok (ScVal.address (Xdr.ScAddress.contract c))
  strkey_address (some Strkey.other) = err (invalid ScType.address)

  unfoldable pub sc_address_from_json : String → Result Error ScVal
  unfolding strkey_address
  sc_address_from_json s = strkey_address (K.strkey s)

  -- `none` is a `FromHexError`. The text is padded to a number of characters, and decoded if
  -- that is its number of bytes.
  unfoldable pub padded_hex_from_str : String → ℕ → Option Bytes
  unfolding repeat
  padded_hex_from_str s n =
      let padded = repeat (n * 2 - count s) "0" <> s in
      if ltb (n * 2) (len s)
      then none
      else if len padded == n * 2
      then K.hex_decode padded
      else none

  unfoldable pub bytes_val : ScType → Option Bytes → Result Error ScVal
  bytes_val t none = err (invalid t)
  bytes_val t (some b) = checked (K.fits (2 ^ 32 - 1) (length b)) (ScVal.bytes b) (invalid t)

  unfoldable pub bytes_n_val : ℕ → String → Result Error ScVal
  bytes_n_val n s =
      let hex = bytes_val (ScType.bytes_n n) (padded_hex_from_str s n) in
      if n == 32 then (elim (sc_address_from_json s) [ ok key ↦ ok key | err e ↦ hex ]) else hex

  -- `Value::as_u64` and `u8::try_from`
  unfoldable pub byte_of : ScType → Value K.Number → Result Error ℕ
  byte_of t (Value.number n) = elim (K.as_u64 n) [
    | none ↦ err (invalid t)
    | some b ↦ if ltb b 256 then ok b else err (invalid t)
  ]
  byte_of t _ = err (invalid t)

  unfoldable pub byte_array : ScType → List (Value K.Number) → Result Error ScVal
  byte_array t raw = do
    b ← collect (byte_of t) raw
    checked (K.fits (2 ^ 32 - 1) (length b)) (ScVal.bytes b) xdr

  -- `serde_json::from_value(raw.clone())?`
  unfoldable pub from_value : Value K.Number → Result Error ScVal
  from_value raw = ok_or (K.value_to_sc_val raw) serde

  unfoldable pub from_number : ScType → K.Number → Result Error ScVal
  from_number ScType.i32 n = elim (K.as_i64 n) [
    | none ↦ err (invalid ScType.i32)
    | some z ↦ checked (fits_signed 31 z) (ScVal.i32 z) (invalid ScType.i32)
  ]
  from_number ScType.u32 n = elim (K.as_u64 n) [
    | none ↦ err (invalid ScType.u32)
    | some m ↦ checked (ltb m (2 ^ 32)) (ScVal.u32 m) (invalid ScType.u32)
  ]
  from_number ScType.i64 n = elim (K.as_i64 n) [
    | none ↦ err (invalid ScType.i64)
    | some z ↦ ok (ScVal.i64 z)
  ]
  from_number ScType.u64 n = elim (K.as_u64 n) [
    | none ↦ err (invalid ScType.u64)
    | some m ↦ ok (ScVal.u64 m)
  ]
  from_number ScType.timepoint n = elim (K.as_u64 n) [
    | none ↦ err (invalid ScType.timepoint)
    | some m ↦ ok (ScVal.u64 m)
  ]
  from_number ScType.duration n = elim (K.as_u64 n) [
    | none ↦ err (invalid ScType.duration)
    | some m ↦ ok (ScVal.u64 m)
  ]
  from_number (ScType.bytes_n m) n = bytes_n_val m (K.number_text n)
  from_number ScType.bytes n = bytes_val ScType.bytes (K.hex_decode (K.number_text n))
  from_number t n = from_value (Value.number n)

  unfoldable pub from_text : ScType → String → Result Error ScVal
  from_text ScType.u128 s = elim (parse_unsigned 128 s) [
    | none ↦ err (invalid ScType.u128)
    | some n ↦ ok (u128_parts n)
  ]
  from_text ScType.i128 s = elim (parse_signed 128 s) [
    | none ↦ err (invalid ScType.i128)
    | some z ↦ ok (i128_parts z)
  ]
  from_text ScType.u256 s = elim (K.parse_u256 s) [
    | none ↦ err ethnum
    | some words ↦ ok (u256_parts words)
  ]
  from_text ScType.i256 s = elim (K.parse_i256 s) [
    | none ↦ err ethnum
    | some words ↦ ok (i256_parts words)
  ]
  from_text ScType.symbol s =
      checked (K.fits 32 (len s)) (ScVal.symbol (utf8 s)) (invalid ScType.symbol)
  from_text ScType.address s = sc_address_from_json s
  from_text (ScType.bytes_n m) s = bytes_n_val m s
  from_text ScType.bytes s = bytes_val ScType.bytes (K.hex_decode s)
  from_text ScType.string s =
      checked (K.fits (2 ^ 32 - 1) (len s)) (ScVal.string (utf8 s)) (invalid ScType.string)
  from_text t s = from_value (Value.string s)

  unfoldable pub from_bool : ScType → Bool → Result Error ScVal
  from_bool ScType.bool b = ok (ScVal.bool b)
  from_bool t b = from_value (Value.bool b)

  unfoldable pub from_array : ScType → List (Value K.Number) → Value K.Number → Result Error ScVal
  from_array ScType.bytes raw v = byte_array ScType.bytes raw
  from_array (ScType.bytes_n n) raw v = byte_array (ScType.bytes_n n) raw
  from_array t raw v = from_value v

  unfoldable pub from_json_primitives : Value K.Number → ScType → Result Error ScVal
  unfolding from_number from_text from_bool from_array from_value bytes_val bytes_n_val byte_array
      byte_of sc_address_from_json u128_parts i128_parts u256_parts i256_parts
  from_json_primitives (Value.number n) t = from_number t n
  from_json_primitives (Value.string s) t = from_text t s
  from_json_primitives (Value.bool b) t = from_bool t b
  from_json_primitives (Value.array raw) t = from_array t (values raw) (Value.array raw)
  from_json_primitives Value.null t = from_value Value.null
  from_json_primitives (Value.object fs) t = from_value (Value.object fs)
