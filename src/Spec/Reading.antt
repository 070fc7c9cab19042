-- ===== src/Spec/Reading.antt =====
-- JSON that stands for a primitive value is read as that value.
use Prim.Native.String.{len}
use soroban_tools.Prelude.{ℕ, ◌-◌, ◌^◌, ◌≤◌, ◌<◌, String, ◌≡◌, refl, Bool, true, arith, decimal}
use soroban_tools.Prelude.Int.{ℤ, pos, negsuc, fits_signed}
use soroban_tools.Prelude.Parse.{parse_unsigned-decimal}
use soroban_tools.Prelude.Result.{ok}
use soroban_tools.Spec.Types.{ScType, ScVal, utf8}
use soroban_tools.Spec.Json.{Value}
use soroban_tools.Spec.Base.{Crates, IsLawful}
use soroban_tools.Spec.Primitives.{from_json_primitives, u128_parts}

wider : (z : ℤ) → fits_signed 31 z ≡ true → fits_signed 63 z ≡ true
wider (pos n) h = ground arith
wider (negsuc n) h = ground arith

module _ (K : Crates) (L : IsLawful K) where
  pub read_bool : (b : Bool) → from_json_primitives K (Value.bool b) ScType.bool ≡ ok (ScVal.bool b)
  unfolding from_json_primitives
  read_bool b = refl

  pub read_u32 :
      (n : ℕ)
      → n < 2 ^ 32
      → from_json_primitives K (Value.number (K.number_from_u64 n)) ScType.u32 ≡ ok (ScVal.u32 n)
  unfolding from_json_primitives
  read_u32 n h = ground (arith, L.as_u64_from n (omega arith))

  pub read_u64 :
      (n : ℕ)
      → n < 2 ^ 64
      → from_json_primitives K (Value.number (K.number_from_u64 n)) ScType.u64 ≡ ok (ScVal.u64 n)
  unfolding from_json_primitives
  read_u64 n h = ground (arith, L.as_u64_from n (omega arith))

  pub read_i32 :
      (z : ℤ)
      → fits_signed 31 z ≡ true
      → from_json_primitives K (Value.number (K.number_from_i64 z)) ScType.i32 ≡ ok (ScVal.i32 z)
  unfolding from_json_primitives
  read_i32 z h = ground (arith, L.as_i64_from z (wider z h))

  pub read_i64 :
      (z : ℤ)
      → fits_signed 63 z ≡ true
      → from_json_primitives K (Value.number (K.number_from_i64 z)) ScType.i64 ≡ ok (ScVal.i64 z)
  unfolding from_json_primitives
  read_i64 z h = ground (arith, L.as_i64_from z h)

  pub read_u128 :
      (n : ℕ)
      → n < 2 ^ 128
      → from_json_primitives K (Value.string (decimal n)) ScType.u128 ≡ ok (u128_parts n)
  unfolding from_json_primitives
  read_u128 n h = ground (arith, parse_unsigned-decimal 128 n h)

  pub read_string :
      (s : String)
      → len s ≤ 2 ^ 32 - 1
      → from_json_primitives K (Value.string s) ScType.string ≡ ok (ScVal.string (utf8 s))
  unfolding from_json_primitives
  read_string s h = ground (arith, L.fits_up_to (2 ^ 32 - 1) (len s) h)

  pub read_symbol :
      (s : String)
      → len s ≤ 32
      → from_json_primitives K (Value.string s) ScType.symbol ≡ ok (ScVal.symbol (utf8 s))
  unfolding from_json_primitives
  read_symbol s h = ground (arith, L.fits_up_to 32 (len s) h)
