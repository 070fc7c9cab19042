-- ===== src/Spec/FromJson.antt =====
-- `from_json` and `from_string`: an argument's text and JSON as a contract value of its type. The
-- nesting of values and types bounds the recursion, which is given as fuel.
use Prim.Native.String.{len}
use soroban_tools.Prelude.{
  ℕ, zero, suc, ◌+◌, ◌-◌, ◌^◌, String, not, Option, none, some, List, [], ◌∷◌, length, find, any,
  ltb, ◌==◌, str_eq, if◌then◌else◌, decimal,
}
use soroban_tools.Prelude.Result.{
  Result, ok, err, ◌>>=◌, ◌>>◌, ok_or, reject_if, collect, collect_zip,
}
use soroban_tools.Spec.Types.{
  ScType, types, ScVal, to_vals, to_entries, utf8, Field, UdtStructV0, UnionCase, void_v0, tuple_v0,
  UdtUnionV0, UdtEnumV0, SpecEntry, udt_struct_v0, udt_union_v0, udt_enum_v0,
}
use soroban_tools.Spec.Json.{Value, values, to_values, fields, get}
use soroban_tools.Spec.Base.{
  Error, invalid_value, enum_case, enum_const, enum_const_too_large, xdr, serde, missing_key,
  failed_num_conversion, panic, out_of_fuel, Crates,
}
use soroban_tools.Spec.Find.{Spec, find_spec}
use soroban_tools.Spec.Primitives.{from_json_primitives, from_value}

abbrev pub case_name : UnionCase → String
case_name (void_v0 name) = name
case_name (tuple_v0 name ts) = name

module _ (K : Crates) where
  -- `ScVec` by `try_into`
  unfoldable pub to_sc_vec : List ScVal → Result Error ScVal
  to_sc_vec xs = if K.fits (2 ^ 32 - 1) (length xs) then ok (ScVal.vec (to_vals xs)) else err xdr

  unfoldable pub to_sc_map : List (ScVal × ScVal) → Result Error ScVal
  to_sc_map kvs = elim (K.sorted_from kvs) [
    | none ↦ err xdr
    | some sorted ↦ ok (ScVal.map (to_entries sorted))
  ]

  -- A name as a symbol; the error is that of the caller.
  unfoldable pub symbol_of : Error → String → Result Error ScVal
  symbol_of e name = if K.fits 32 (len name) then ok (ScVal.symbol (utf8 name)) else err e

  -- `(from..from + n).map(|i| map.get(&i.to_string()).unwrap())`
  unfoldable pub numbered :
      ℕ → ℕ → List (String × Value K.Number) → Result Error (List (Value K.Number))
  numbered zero i obj = ok []
  numbered (suc n) i obj = do
    v ← ok_or (get (decimal i) obj) panic
    rest ← numbered n (i + 1) obj
    ok (v ∷ rest)

  unfoldable pub parse_const_enum : K.Number → UdtEnumV0 → Result Error ScVal
  parse_const_enum number enum_ = do
    num ← ok_or (K.as_u64 number) failed_num_conversion
    reject_if (not (ltb num (2 ^ 32))) (enum_const_too_large num)
    c ← ok_or (find (λ c. c.value == num) enum_.cases) (enum_const num)
    ok (ScVal.u32 c.value)

  -- What a call of `from_json` on a part does.
  module _ (rec : Value K.Number → ScType → Result Error ScVal) where
    unfoldable pub parse_tuple_strukt : UdtStructV0 → List (Value K.Number) → Result Error ScVal
    parse_tuple_strukt strukt arr = do
      items ← collect_zip (λ (f : Field) (v : Value K.Number). rec v f.type_) strukt.fields arr
      to_sc_vec items

    unfoldable pub strukt_item :
        List (String × Value K.Number) → Field → Result Error (ScVal × ScVal)
    strukt_item obj f = do
      v ← ok_or (get f.name obj) (missing_key f.name)
      val ← rec v f.type_
      key ← symbol_of panic f.name
      ok (key, val)

    unfoldable pub parse_strukt : UdtStructV0 → List (String × Value K.Number) → Result Error ScVal
    parse_strukt strukt obj = do items ← collect (strukt_item obj) strukt.fields; to_sc_map items

    -- What stands under the one key of an object.
    unfoldable pub union_rest : Value K.Number → Result Error (Value K.Number)
    union_rest (Value.object obj) = elim (get "0" (fields obj)) [
      | none ↦ ok (Value.object obj)
      | some v ↦ do
        vs ← numbered (length (fields obj)) 0 (fields obj)
        ok (Value.array (to_values vs))
    ]
    union_rest v = ok v

    unfoldable pub case_values : UnionCase → Option (Value K.Number) → Result Error (List ScVal)
    case_values (void_v0 name) rest = ok []
    case_values (tuple_v0 name ts) none = ok []
    case_values (tuple_v0 name (t ∷ [])) (some arr) = do v ← rec arr t; ok (v ∷ [])
    case_values (tuple_v0 name ts) (some (Value.array arr)) =
        collect_zip (λ (v : Value K.Number) (t : ScType). rec v t) (values arr) ts
    case_values (tuple_v0 name ts) (some v) = ok []

    unfoldable pub union_val : UdtUnionV0 → String → Option (Value K.Number) → Result Error ScVal
    union_val union name rest = do
      c ← ok_or (find (λ c. str_eq name (case_name c)) union.cases) (enum_case name union.name)
      head ← symbol_of xdr name
      tail ← case_values c rest
      to_sc_vec (head ∷ tail)

    unfoldable pub union_object : UdtUnionV0 → List (String × Value K.Number) → Result Error ScVal
    union_object union ((name, v) ∷ []) = do rest ← union_rest v; union_val union name (some rest)
    union_object union obj = err panic

    unfoldable pub parse_union : UdtUnionV0 → Value K.Number → Result Error ScVal
    parse_union union (Value.string s) = union_val union s none
    parse_union union (Value.object obj) = union_object union (fields obj)
    parse_union union v = err panic

    unfoldable pub struct_object : UdtStructV0 → List (String × Value K.Number) → Result Error ScVal
    struct_object strukt obj =
        if any (λ (f : Field). str_eq f.name "0") strukt.fields
        then (do arr ← numbered (length obj) 0 obj; parse_tuple_strukt strukt arr)
        else parse_strukt strukt obj

    unfoldable pub entry_val : SpecEntry → Value K.Number → Result Error ScVal
    entry_val (udt_struct_v0 strukt) (Value.object obj) = struct_object strukt (fields obj)
    entry_val (udt_struct_v0 strukt) (Value.array arr) = parse_tuple_strukt strukt (values arr)
    entry_val (udt_union_v0 union) (Value.array arr) = parse_union union (Value.array arr)
    entry_val (udt_union_v0 union) (Value.string s) = parse_union union (Value.string s)
    entry_val (udt_union_v0 union) (Value.object obj) = parse_union union (Value.object obj)
    entry_val (udt_enum_v0 enum_) (Value.number num) = parse_const_enum num enum_
    entry_val e v = err panic

    unfoldable pub parse_udt : Spec → String → Value K.Number → Result Error ScVal
    parse_udt spec name value = do e ← find_spec spec name; entry_val e value

    unfoldable pub parse_tuple : ScType → List ScType → List (Value K.Number) → Result Error ScVal
    parse_tuple t ts items = do
      reject_if (not (length items == length ts)) (invalid_value (some t))
      parsed ← collect_zip (λ (v : Value K.Number) (t : ScType). rec v t) items ts
      to_sc_vec parsed

    -- The text that stands for a string where it is no JSON.
    unfoldable pub raw_text : Spec → ScType → String → Result Error (Value K.Number)
    raw_text spec ScType.symbol s = ok (Value.string s)
    raw_text spec ScType.string s = ok (Value.string s)
    raw_text spec ScType.bytes s = ok (Value.string s)
    raw_text spec (ScType.bytes_n n) s = ok (Value.string s)
    raw_text spec ScType.u256 s = ok (Value.string s)
    raw_text spec ScType.i256 s = ok (Value.string s)
    raw_text spec ScType.u128 s = ok (Value.string s)
    raw_text spec ScType.i128 s = ok (Value.string s)
    raw_text spec ScType.address s = ok (Value.string s)
    raw_text spec (ScType.udt name) s = do
      e ← find_spec spec name
      elim e [
        | udt_union_v0 union ↦ ok (Value.string s)
        | udt_struct_v0 strukt ↦ ok (Value.string s)
        | _ ↦ err serde
      ]
    raw_text spec t s = err serde

    -- The wide integers keep their text also where it is JSON.
    unfoldable pub json_or_text : ScType → String → Value K.Number → Value K.Number
    json_or_text ScType.u128 s v = Value.string s
    json_or_text ScType.i128 s v = Value.string s
    json_or_text ScType.u256 s v = Value.string s
    json_or_text ScType.i256 s v = Value.string s
    json_or_text t s v = v

    unfoldable pub raw_value : Spec → ScType → String → Result Error (Value K.Number)
    raw_value spec t s = elim (K.parse_json s) [
      | none ↦ raw_text spec t s
      | some v ↦ ok (json_or_text t s v)
    ]

    unfoldable pub from_text : Spec → String → ScType → Result Error ScVal
    from_text spec s (ScType.option t) =
        let rest = from_text spec s t in if str_eq s "null" then ok ScVal.void else rest
    from_text spec s t = do raw ← raw_value spec t s; rec raw t

    unfoldable pub entry_of :
        Spec → ScType → ScType → String × Value K.Number → Result Error (ScVal × ScVal)
    entry_of spec key_type value_type (k, v) = do
      key ← from_text spec k key_type
      val ← rec v value_type
      ok (key, val)

    unfoldable pub parse_map :
        Spec → ScType → ScType → List (String × Value K.Number) → Result Error ScVal
    parse_map spec key_type value_type obj = do
      parsed ← collect (entry_of spec key_type value_type) obj
      to_sc_map parsed

    unfoldable pub from_array :
        Spec → ScType → List (Value K.Number) → Value K.Number → Result Error ScVal
    from_array spec (ScType.vec t) raw v = do
      converted ← collect (λ item. rec item t) raw
      to_sc_vec converted
    from_array spec (ScType.tuple ts) raw v = parse_tuple (ScType.tuple ts) (types ts) raw
    from_array spec t raw v = from_value K v

    -- The types that are no primitive and no user-defined type.
    unfoldable pub from_composite : Spec → ScType → Value K.Number → Result Error ScVal
    from_composite spec (ScType.option t) Value.null = ok ScVal.void
    from_composite spec (ScType.option t) v = rec v t
    from_composite spec t (Value.array raw) = from_array spec t (values raw) (Value.array raw)
    from_composite spec (ScType.map k t) (Value.object raw) = parse_map spec k t (fields raw)
    from_composite spec t v = from_value K v

    unfoldable pub from_json_step : Spec → Value K.Number → ScType → Result Error ScVal
    from_json_step spec v ScType.bool = from_json_primitives K v ScType.bool
    from_json_step spec v ScType.u128 = from_json_primitives K v ScType.u128
    from_json_step spec v ScType.i128 = from_json_primitives K v ScType.i128
    from_json_step spec v ScType.u256 = from_json_primitives K v ScType.u256
    from_json_step spec v ScType.i256 = from_json_primitives K v ScType.i256
    from_json_step spec v ScType.i32 = from_json_primitives K v ScType.i32
    from_json_step spec v ScType.i64 = from_json_primitives K v ScType.i64
    from_json_step spec v ScType.u32 = from_json_primitives K v ScType.u32
    from_json_step spec v ScType.u64 = from_json_primitives K v ScType.u64
    from_json_step spec v ScType.string = from_json_primitives K v ScType.string
    from_json_step spec v ScType.symbol = from_json_primitives K v ScType.symbol
    from_json_step spec v ScType.address = from_json_primitives K v ScType.address
    from_json_step spec v ScType.bytes = from_json_primitives K v ScType.bytes
    from_json_step spec v (ScType.bytes_n n) = from_json_primitives K v (ScType.bytes_n n)
    from_json_step spec v (ScType.udt name) = parse_udt spec name v
    from_json_step spec v t = from_composite spec t v

  unfoldable pub from_json : ℕ → Spec → Value K.Number → ScType → Result Error ScVal
  unfolding from_json_step from_composite from_array parse_map entry_of parse_tuple parse_udt
      entry_val struct_object parse_union union_object union_val case_values union_rest parse_strukt
      strukt_item parse_tuple_strukt to_sc_vec to_sc_map symbol_of numbered from_text raw_value
      json_or_text raw_text
  from_json zero spec v t = err out_of_fuel
  from_json (suc fuel) spec v t = from_json_step (from_json fuel spec) spec v t

  unfoldable pub from_string : ℕ → Spec → String → ScType → Result Error ScVal
  unfolding from_text raw_value json_or_text raw_text
  from_string fuel spec s t = from_text (from_json fuel spec) spec s t
