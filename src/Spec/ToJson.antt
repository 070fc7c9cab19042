-- ===== src/Spec/ToJson.antt =====
-- `to_json` and `to_string`: a contract value as JSON, without its type.
use soroban_tools.Prelude.{
  ℕ, zero, suc, ◌+◌, ◌-◌, ◌*◌, ◌/◌, ◌%◌, ◌^◌, ltb, if◌then◌else◌, String, ◌<>◌, true, none, some,
  [], ◌∷◌, decimal,
}
use soroban_tools.Prelude.Int.{ℤ, to_pattern, of_pattern, decimal_ℤ}
use soroban_tools.Prelude.Result.{Result, ok, ◌>>=◌, ok_or, map_err}
use soroban_tools.Xdr.{Bytes, ScAddress, account}
use soroban_tools.Xdr
use soroban_tools.Spec.Types.{ScType, ScVal, ScVals, ScMap, empty, entry, from_utf8}
use soroban_tools.Spec.Json.{Value, Values, Fields, end, field, insert}
use soroban_tools.Spec.Json
use soroban_tools.Spec.Base.{Error, invalid_value, Crates}

hex_letter : ℕ → String
hex_letter zero = "a"
hex_letter (suc zero) = "b"
hex_letter (suc (suc zero)) = "c"
hex_letter (suc (suc (suc zero))) = "d"
hex_letter (suc (suc (suc (suc zero)))) = "e"
hex_letter _ = "f"

hex_digit : ℕ → String
hex_digit d = if ltb d 10 then decimal d else hex_letter (d - 10)

unfoldable pub to_lower_hex : Bytes → String
unfolding hex_digit hex_letter decimal
to_lower_hex [] = ""
to_lower_hex (b ∷ bytes) = hex_digit (b / 16) <> (hex_digit (b % 16) <> to_lower_hex bytes)

-- The number that the parts of a wide integer stand for.
unfoldable pub u128_value : ℕ → ℕ → ℕ
u128_value hi lo = hi * 2 ^ 64 + lo

unfoldable pub i128_value : ℤ → ℕ → ℤ
i128_value hi lo = of_pattern 128 (to_pattern 64 hi * 2 ^ 64 + lo)

module _ (K : Crates) where
  unfoldable pub sc_address_to_json : ScAddress → Value K.Number
  sc_address_to_json (account k) = Value.string (K.public_key_text k)
  sc_address_to_json (Xdr.ScAddress.contract h) = Value.string (K.contract_text h)

  -- `to_string` of a value whose JSON is at hand.
  key_text : ScVal → Result Error (Value K.Number) → Result Error String
  key_text (ScVal.symbol s) json = ok_or (from_utf8 s) (invalid_value (some ScType.symbol))
  key_text ScVal.ledger_key_contract_instance json = ok "LedgerKeyContractInstance"
  key_text v json = do j ← json; ok (K.json_text j)

  unfoldable mutual
    unfolding to_lower_hex u128_value i128_value sc_address_to_json decimal decimal_ℤ key_text

    pub to_json : ScVal → Result Error (Value K.Number)
    to_json (ScVal.bool b) = ok (Value.bool b)
    to_json ScVal.void = ok Value.null
    to_json ScVal.error = ok K.error_value
    to_json (ScVal.u32 n) = ok (Value.number (K.number_from_u64 n))
    to_json (ScVal.i32 z) = ok (Value.number (K.number_from_i64 z))
    to_json (ScVal.u64 n) = ok (Value.number (K.number_from_u64 n))
    to_json (ScVal.i64 z) = ok (Value.number (K.number_from_i64 z))
    to_json (ScVal.timepoint n) = ok (Value.number (K.number_from_u64 n))
    to_json (ScVal.duration n) = ok (Value.number (K.number_from_u64 n))
    to_json (ScVal.u128 hi lo) = ok (Value.string (decimal (u128_value hi lo)))
    to_json (ScVal.i128 hi lo) = ok (Value.string (decimal_ℤ (i128_value hi lo)))
    to_json (ScVal.u256 a b c d) =
        ok (Value.string (K.u256_text (((a * 2 ^ 64 + b) * 2 ^ 64 + c) * 2 ^ 64 + d)))
    to_json (ScVal.i256 a b c d) =
        ok (Value.string (K.i256_text (((to_pattern 64 a * 2 ^ 64 + b) * 2 ^ 64 + c) * 2 ^ 64 + d)))
    to_json (ScVal.bytes b) = ok (Value.string (to_lower_hex b))
    to_json (ScVal.string s) = do
      t ← ok_or (from_utf8 s) (invalid_value (some ScType.symbol))
      ok (Value.string t)
    to_json (ScVal.symbol s) = do
      t ← ok_or (from_utf8 s) (invalid_value (some ScType.symbol))
      ok (Value.string t)
    to_json ScVal.vec_none = ok (Value.array Json.Values.nil)
    to_json (ScVal.vec vs) = do values ← to_json_all vs; ok (Value.array values)
    to_json ScVal.map_none = ok (Value.object end)
    to_json (ScVal.map m) = do fs ← to_json_map m end; ok (Value.object fs)
    to_json (ScVal.address a) = ok (sc_address_to_json a)
    to_json (ScVal.contract_instance_wasm h) = ok (Value.object (field "hash" (K.hash_value h) end))
    to_json ScVal.contract_instance_stellar_asset =
        ok (Value.object (field "SAC" (Value.bool true) end))
    to_json ScVal.ledger_key_contract_instance = ok (Value.string "LedgerKeyContractInstance")
    to_json (ScVal.ledger_key_nonce z) = ok (Value.number (K.number_from_i64 z))

    to_json_all : ScVals → Result Error (Values K.Number)
    to_json_all ScVals.nil = ok Json.Values.nil
    to_json_all (ScVals.cons v vs) = do
      j ← to_json v
      rest ← to_json_all vs
      ok (Json.Values.cons j rest)

    to_json_map : ScMap → Fields K.Number → Result Error (Fields K.Number)
    to_json_map empty m = ok m
    to_json_map (entry key val rest) m = do
      k ← key_text key (to_json key)
      v ← map_err (λ e. invalid_value none) (to_json val)
      to_json_map rest (insert k v m)

  unfoldable pub to_string : ScVal → Result Error String
  unfolding to_json key_text
  to_string v = key_text v (to_json v)
