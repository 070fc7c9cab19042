-- ===== src/Spec/Example.antt =====
-- `example`: a sample argument of a type, with the recursion as in `arg_value_name`.
use soroban_tools.Prelude.{
  ℕ, zero, suc, ◌-◌, ◌%◌, String, ◌<>◌, Bool, true, false, none, List, [], ◌∷◌, map, length, ◌==◌,
  if◌then◌else◌, decimal, join, repeat,
}
use soroban_tools.Prelude.Result.{Result, ok, err}
use soroban_tools.Spec.Types.{
  ScType, ScTypes, types, Field, UdtStructV0, UnionCase, void_v0, tuple_v0, UdtUnionV0, EnumCase,
  SpecEntry, udt_struct_v0, udt_union_v0, udt_enum_v0,
}
use soroban_tools.Spec.Base.{Error, Crates}
use soroban_tools.Spec.Find.{Spec, find_spec}
use soroban_tools.Spec.Names.{overflow, Named, named, and_then, collect_named, is_tuple_struct}

abbrev quoted : String → String
quoted s = "\"" <> s <> "\""

abbrev pub to_types : List ScType → ScTypes
to_types [] = ScTypes.nil
to_types (t ∷ ts) = ScTypes.cons t (to_types ts)

-- The sample of `BytesN`: hex digits.
unfoldable pub bytes_n_example : ℕ → String
unfolding repeat
bytes_n_example n = if n % 2 == 0 then repeat n "ef" else repeat (n - 1) "ef" <> "e"

is_symbol : ScType → Bool
is_symbol ScType.symbol = true
is_symbol _ = false

first_value : List EnumCase → Named String
first_value [] = ok none
first_value (c ∷ cs) = named (decimal c.value)

module _ (K : Crates) (rec : ScType → Named String) where
  -- The fields of a tuple struct have to fit the types of a tuple.
  tuple_struct_example : List Field → Named String
  tuple_struct_example fs =
      let ts = map (λ (f : Field). f.type_) fs in
      if K.fits 12 (length ts) then rec (ScType.tuple (to_types ts)) else ok none

  field_example : Field → Named String
  field_example f = and_then (rec f.type_) (λ t. named (quoted f.name <> ": " <> t))

  struct_example : UdtStructV0 → Named String
  struct_example strukt =
      if is_tuple_struct strukt.fields
      then tuple_struct_example strukt.fields
      else and_then (collect_named field_example strukt.fields)
          (λ parts. named ("{ " <> join ", " parts <> " }"))

  case_example : UnionCase → Named String
  case_example (void_v0 name) = named (quoted name)
  case_example (tuple_v0 name (t ∷ [])) =
      and_then (rec t) (λ single. named ("{" <> quoted name <> ":" <> single <> "}"))
  case_example (tuple_v0 name ts) =
      and_then (collect_named rec ts)
        (λ names. named ("{" <> quoted name <> ":[" <> join ", " names <> "]}"))

  example_union : UdtUnionV0 → Named String
  example_union union =
      and_then (collect_named case_example union.cases) (λ res. named (join "|" res))

  example_udts : Result Error SpecEntry → Named String
  example_udts (ok (udt_struct_v0 strukt)) = struct_example strukt
  example_udts (ok (udt_union_v0 union)) = example_union union
  example_udts (ok (udt_enum_v0 enum_)) = first_value enum_.cases
  example_udts _ = ok none

  example_step : Spec → ScType → Named String
  example_step spec ScType.u64 = named "42"
  example_step spec ScType.i64 = named "-42"
  example_step spec ScType.u128 = named "\"1000\""
  example_step spec ScType.i128 = named "\"-100\""
  example_step spec ScType.u32 = named "1"
  example_step spec ScType.i32 = named "-1"
  example_step spec ScType.bool = named "true"
  example_step spec ScType.symbol = named "\"hello\""
  example_step spec ScType.error = named "Error"
  example_step spec ScType.bytes = named "\"beefface123\""
  example_step spec ScType.address =
      named "\"GDIY6AQQ75WMD4W46EYB7O6UYMHOCGQHLAQGQTKHDX4J2DYQCHVCR4W4\""
  example_step spec ScType.void = named "null"
  example_step spec ScType.timepoint = named "1234"
  example_step spec ScType.duration = named "9999"
  example_step spec ScType.u256 = named "\"2000\""
  example_step spec ScType.i256 = named "\"-20000\""
  example_step spec ScType.string = named "\"hello world\""
  example_step spec (ScType.option t) = rec t
  example_step spec (ScType.vec t) = and_then (rec t) (λ inner. named ("[ " <> inner <> " ]"))
  example_step spec (ScType.result t e) =
      and_then (rec t) (λ ok_text.
        and_then (rec e) (λ error. named ("Result<" <> ok_text <> ", " <> error <> ">")))
  example_step spec (ScType.tuple ts) =
      and_then (collect_named rec (types ts)) (λ names. named ("[" <> join ", " names <> "]"))
  example_step spec (ScType.map k t) = and_then (rec k) (λ key.
      and_then (rec t)
        (λ val. named ("{ " <> (if is_symbol k then key else quoted key) <> ": " <> val <> " }")))
  example_step spec (ScType.bytes_n n) = named (quoted (bytes_n_example n))
  example_step spec (ScType.udt name) = example_udts (find_spec spec name)
  example_step spec ScType.val = ok none

module _ (K : Crates) where
  unfoldable pub example : ℕ → Spec → ScType → Named String
  unfolding example_step example_udts example_union case_example struct_example field_example
      tuple_struct_example first_value is_symbol bytes_n_example decimal join
  example zero spec t = err overflow
  example (suc fuel) spec t = example_step K (example fuel spec) spec t
