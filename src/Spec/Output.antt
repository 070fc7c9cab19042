-- ===== src/Spec/Output.antt =====
-- `xdr_to_json`: a contract value as JSON by its type, with the recursion on fuel.
use soroban_tools.Prelude.{
  ℕ, zero, suc, String, Bool, true, false, List, [], ◌∷◌, find, if◌then◌else◌,
}
use soroban_tools.Prelude.Result.{Result, ok, err, ◌>>=◌, ok_or, collect, collect_zip}
use soroban_tools.Spec.Types.{
  ScType, types, ScVal, vals, entries, Text, utf8, not_utf8, Field, UnionCase, void_v0, tuple_v0,
  UdtUnionV0, SpecEntry, udt_struct_v0, udt_union_v0, udt_enum_v0,
}
use soroban_tools.Spec.Json.{Value, to_values, to_fields, end, field}
use soroban_tools.Spec.Base.{
  Error, invalid_pair, enum_first_value_not_symbol, failed_to_find_enum_case,
  enum_missing_second_value, panic, out_of_fuel, Crates,
}
use soroban_tools.Spec.Find.{Spec, find_spec}
use soroban_tools.Spec.FromJson.{case_name}
use soroban_tools.Spec.ToJson.{to_json}
use text.Mathlib.Text.{◌==◌ as str_eq}

-- The pairs that are shown as `null`.
unfoldable pub is_null : ScVal → ScType → Bool
is_null ScVal.void ScType.val = true
is_null ScVal.void (ScType.option t) = true
is_null ScVal.void (ScType.tuple ts) = true
is_null ScVal.map_none (ScType.option t) = true
is_null ScVal.vec_none (ScType.option t) = true
is_null v t = false

-- The pairs that are shown by `to_json`.
unfoldable pub is_plain : ScVal → ScType → Bool
is_plain (ScVal.bool b) ScType.bool = true
is_plain ScVal.void ScType.void = true
is_plain (ScVal.string s) ScType.string = true
is_plain (ScVal.symbol s) ScType.symbol = true
is_plain (ScVal.u64 n) ScType.u64 = true
is_plain (ScVal.i64 z) ScType.i64 = true
is_plain (ScVal.u32 n) ScType.u32 = true
is_plain (ScVal.i32 z) ScType.i32 = true
is_plain (ScVal.u128 hi lo) ScType.u128 = true
is_plain (ScVal.i128 hi lo) ScType.i128 = true
is_plain (ScVal.u256 a b c d) ScType.u256 = true
is_plain (ScVal.i256 a b c d) ScType.i256 = true
is_plain (ScVal.duration n) ScType.duration = true
is_plain (ScVal.timepoint n) ScType.timepoint = true
is_plain (ScVal.contract_instance_wasm h) t = true
is_plain ScVal.contract_instance_stellar_asset t = true
is_plain ScVal.ledger_key_contract_instance t = true
is_plain (ScVal.ledger_key_nonce z) t = true
is_plain (ScVal.address a) ScType.address = true
is_plain (ScVal.bytes b) ScType.bytes = true
is_plain (ScVal.bytes b) (ScType.bytes_n n) = true
is_plain v t = false

-- `name.as_vec() == case_name.as_vec()`
unfoldable pub same_name : String → Text → Bool
same_name s (utf8 t) = str_eq s t
same_name s (not_utf8 b) = false

module _ (K : Crates) where
  unfoldable pub text_lossy : Text → String
  text_lossy (utf8 s) = s
  text_lossy (not_utf8 b) = K.lossy b

  -- What a call of `xdr_to_json` on a part does.
  module _ (rec : ScVal → ScType → Result Error (Value K.Number)) where
    unfoldable pub vec_m_to_json : List ScVal → ScType → Result Error (Value K.Number)
    vec_m_to_json vs t = do items ← collect (λ v. rec v t) vs; ok (Value.array (to_values items))

    unfoldable pub map_item :
        ScType → ScType → ScVal × ScVal → Result Error (String × Value K.Number)
    map_item key_type value_type (key, val) = do
      k ← rec key key_type
      v ← rec val value_type
      ok (K.json_text k, v)

    unfoldable pub sc_map_to_json :
        List (ScVal × ScVal) → ScType → ScType → Result Error (Value K.Number)
    sc_map_to_json kvs key_type value_type = do
      items ← collect (map_item key_type value_type) kvs
      ok (Value.object (to_fields items))

    unfoldable pub struct_item : Field → ScVal × ScVal → Result Error (String × Value K.Number)
    struct_item f (key, val) = do v ← rec val f.type_; ok (f.name, v)

    unfoldable pub tuple_to_json : List ScVal → List ScType → Result Error (Value K.Number)
    tuple_to_json vs ts = do
      items ← collect_zip (λ (t : ScType) (v : ScVal). rec v t) ts vs
      ok (Value.array (to_values items))

    -- The value under the name of a case with values.
    unfoldable pub case_to_json :
        UdtUnionV0 → String → List ScType → List ScVal → Result Error (Value K.Number)
    case_to_json union name ts [] = err (enum_missing_second_value union.name name)
    case_to_json union name (t ∷ []) (v ∷ rest) = rec v t
    case_to_json union name ts rest = tuple_to_json rest ts

    unfoldable pub union_case_to_json :
        UdtUnionV0 → UnionCase → String → List ScVal → Result Error (Value K.Number)
    union_case_to_json union (void_v0 n) name rest = ok (Value.string name)
    union_case_to_json union (tuple_v0 n ts) name rest = do
      val ← case_to_json union name ts rest
      ok (Value.object (field name val end))

    unfoldable pub union_to_json : UdtUnionV0 → List ScVal → Result Error (Value K.Number)
    -- `split_at(1)` panics on an empty slice, before the arm for an ill-formed enum.
    union_to_json union [] = err panic
    union_to_json union (ScVal.symbol name ∷ rest) = do
      c ←
          ok_or (find (λ c. same_name (case_name c) name) union.cases)
            (failed_to_find_enum_case (text_lossy name))
      union_case_to_json union c (text_lossy name) rest
    union_to_json union (v ∷ rest) = err enum_first_value_not_symbol

    unfoldable pub entry_to_json : ScVal → SpecEntry → Result Error (Value K.Number)
    entry_to_json (ScVal.map m) (udt_struct_v0 strukt) = do
      items ← collect_zip struct_item strukt.fields (entries m)
      ok (Value.object (to_fields items))
    entry_to_json (ScVal.vec vs) (udt_struct_v0 strukt) = do
      items ← collect_zip (λ (f : Field) (v : ScVal). rec v f.type_) strukt.fields (vals vs)
      ok (Value.array (to_values items))
    entry_to_json (ScVal.vec vs) (udt_union_v0 union) = union_to_json union (vals vs)
    entry_to_json (ScVal.u32 n) (udt_enum_v0 enum_) = ok (Value.number (K.number_from_u64 n))
    entry_to_json v e = err panic

    unfoldable pub udt_to_json : Spec → String → ScVal → Result Error (Value K.Number)
    udt_to_json spec name sc_obj = do udt ← find_spec spec name; entry_to_json sc_obj udt

    unfoldable pub vec_to_json : Spec → ScVal → List ScVal → ScType → Result Error (Value K.Number)
    vec_to_json spec v vs (ScType.vec t) = vec_m_to_json vs t
    vec_to_json spec v vs (ScType.tuple ts) = do
      items ← collect_zip (λ (v : ScVal) (t : ScType). rec v t) vs (types ts)
      ok (Value.array (to_values items))
    vec_to_json spec v vs (ScType.udt name) = udt_to_json spec name v
    vec_to_json spec v vs (ScType.result t e) = rec v t
    vec_to_json spec v vs t = err (invalid_pair v t)

    unfoldable pub map_to_json :
        Spec → ScVal → List (ScVal × ScVal) → ScType → Result Error (Value K.Number)
    map_to_json spec v m (ScType.udt name) = udt_to_json spec name v
    map_to_json spec v m (ScType.map key_type value_type) = sc_map_to_json m key_type value_type
    map_to_json spec v m (ScType.result t e) = rec v t
    map_to_json spec v m t = err (invalid_pair v t)

    unfoldable pub u32_to_json : Spec → ScVal → ScType → Result Error (Value K.Number)
    u32_to_json spec v (ScType.udt name) = udt_to_json spec name v
    u32_to_json spec v (ScType.result t e) = rec v t
    u32_to_json spec v t = err (invalid_pair v t)

    -- `sc_object_to_json` on the three kinds of values that `xdr_to_json` hands it.
    unfoldable pub sc_object_to_json : Spec → ScVal → ScType → Result Error (Value K.Number)
    sc_object_to_json spec (ScVal.vec vs) t = vec_to_json spec (ScVal.vec vs) (vals vs) t
    sc_object_to_json spec (ScVal.map m) t = map_to_json spec (ScVal.map m) (entries m) t
    sc_object_to_json spec (ScVal.u32 n) t = u32_to_json spec (ScVal.u32 n) t
    sc_object_to_json spec v t = err panic

    unfoldable pub by_type : Spec → ScVal → ScType → Result Error (Value K.Number)
    by_type spec v (ScType.result t e) = rec v t
    by_type spec v (ScType.option t) = rec v t
    by_type spec v t = sc_object_to_json spec v t

    unfoldable pub xdr_to_json_step : Spec → ScVal → ScType → Result Error (Value K.Number)
    xdr_to_json_step spec v t =
        if is_null v t
        then ok Value.null
        else if is_plain v t
        then to_json K v
        else by_type spec v t

  unfoldable pub xdr_to_json : ℕ → Spec → ScVal → ScType → Result Error (Value K.Number)
  unfolding xdr_to_json_step is_null is_plain by_type sc_object_to_json u32_to_json map_to_json
      vec_to_json udt_to_json entry_to_json union_to_json union_case_to_json case_to_json
      tuple_to_json struct_item sc_map_to_json map_item vec_m_to_json text_lossy same_name
  xdr_to_json zero spec v t = err out_of_fuel
  xdr_to_json (suc fuel) spec v t = xdr_to_json_step (xdr_to_json fuel spec) spec v t
