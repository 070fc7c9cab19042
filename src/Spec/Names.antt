-- ===== src/Spec/Names.antt =====
-- `arg_value_name`: the name of a type in the help text. A type that a spec entry names is looked up
-- and followed without a bound, so the recursion is on fuel and `overflow` is the exhausted stack.
use soroban_tools.Prelude.{
  ℕ, zero, suc, String, ◌<>◌, Bool, false, Option, none, some, List, [], ◌∷◌, map, str_eq,
  if◌then◌else◌, decimal, join,
}
use soroban_tools.Prelude.Result.{Result, ok, err}
use soroban_tools.Spec.Types.{
  ScType, types, Field, UdtStructV0, UnionCase, void_v0, tuple_v0, UdtUnionV0, EnumCase, UdtEnumV0,
  SpecEntry, udt_struct_v0, udt_union_v0, udt_enum_v0,
}
use soroban_tools.Spec.Base.{Error}
use soroban_tools.Spec.Find.{Spec, find_spec}

pub data Overflow : Type 0 where
  overflow : Overflow

abbrev pub Named : Type 0 → Type 0
Named A = Result Overflow (Option A)

-- `?` on an `Option`.
abbrev pub and_then : {A B : Type 0} → Named A → (A → Named B) → Named B
and_then (err e) f = err e
and_then (ok none) f = ok none
and_then (ok (some a)) f = f a

-- `.collect::<Option<Vec<_>>>()`
abbrev pub collect_named : {A B : Type 0} → (A → Named B) → List A → Named (List B)
collect_named f [] = ok (some [])
collect_named f (x ∷ xs) =
    and_then (f x) (λ y. and_then (collect_named f xs) (λ ys. ok (some (y ∷ ys))))

abbrev pub named : {A : Type 0} → A → Named A
named a = ok (some a)

unfoldable pub arg_value_enum : UdtEnumV0 → String
unfolding decimal join
arg_value_enum enum_ = join " | " (map (λ (c : EnumCase). decimal c.value) enum_.cases)

-- A struct whose first field is named `0` is a tuple.
abbrev pub is_tuple_struct : List Field → Bool
is_tuple_struct [] = false
is_tuple_struct (f ∷ fs) = str_eq f.name "0"

module _ (rec : ScType → Named String) where
  unfoldable pub arg_value_udt : UdtStructV0 → Named String
  arg_value_udt strukt =
      and_then
        (collect_named (λ (f : Field). and_then (rec f.type_) (λ t. named (f.name <> ": " <> t)))
          strukt.fields)
        (λ parts. named ("{ " <> join ", " parts <> " }"))

  unfoldable pub arg_value_case : UnionCase → Named String
  arg_value_case (void_v0 name) = named name
  arg_value_case (tuple_v0 name ts) =
      and_then (collect_named rec ts) (λ names. named (name <> "(" <> join "," names <> ")"))

  unfoldable pub arg_value_union : UdtUnionV0 → Named String
  arg_value_union union =
      and_then (collect_named arg_value_case union.cases) (λ names. named (join " | " names))

  unfoldable pub arg_value_struct : UdtStructV0 → Named String
  arg_value_struct strukt =
      if is_tuple_struct strukt.fields
      then and_then (collect_named (λ (f : Field). rec f.type_) strukt.fields)
          (λ names. named ("[" <> join ", " names <> "]"))
      else arg_value_udt strukt

  unfoldable pub arg_value_entry : Result Error SpecEntry → Named String
  arg_value_entry (err e) = ok none
  arg_value_entry (ok (udt_struct_v0 strukt)) = arg_value_struct strukt
  arg_value_entry (ok (udt_union_v0 union)) = arg_value_union union
  arg_value_entry (ok (udt_enum_v0 enum_)) = named (arg_value_enum enum_)
  arg_value_entry (ok _) = ok none

  unfoldable pub arg_value_name_step : Spec → ScType → Named String
  arg_value_name_step spec ScType.u64 = named "u64"
  arg_value_name_step spec ScType.i64 = named "i64"
  arg_value_name_step spec ScType.u128 = named "u128"
  arg_value_name_step spec ScType.i128 = named "i128"
  arg_value_name_step spec ScType.u32 = named "u32"
  arg_value_name_step spec ScType.i32 = named "i32"
  arg_value_name_step spec ScType.bool = named "bool"
  arg_value_name_step spec ScType.symbol = named "Symbol"
  arg_value_name_step spec ScType.error = named "Error"
  arg_value_name_step spec ScType.bytes = named "hex_bytes"
  arg_value_name_step spec ScType.address = named "Address"
  arg_value_name_step spec ScType.void = named "Null"
  arg_value_name_step spec ScType.timepoint = named "Timepoint"
  arg_value_name_step spec ScType.duration = named "Duration"
  arg_value_name_step spec ScType.u256 = named "u256"
  arg_value_name_step spec ScType.i256 = named "i256"
  arg_value_name_step spec ScType.string = named "String"
  arg_value_name_step spec (ScType.option t) =
      and_then (rec t) (λ inner. named ("Option<" <> inner <> ">"))
  arg_value_name_step spec (ScType.vec t) =
      and_then (rec t) (λ inner. named ("Array<" <> inner <> ">"))
  arg_value_name_step spec (ScType.result t e) =
      and_then (rec t) (λ ok_name.
        and_then (rec e) (λ error. named ("Result<" <> ok_name <> ", " <> error <> ">")))
  arg_value_name_step spec (ScType.tuple ts) =
      and_then (collect_named rec (types ts)) (λ names. named ("Tuple<" <> join ", " names <> ">"))
  arg_value_name_step spec (ScType.map k t) =
      and_then (rec k)
        (λ key. and_then (rec t) (λ val. named ("Map<" <> key <> ", " <> val <> ">")))
  arg_value_name_step spec (ScType.bytes_n n) = named (decimal n <> "_hex_bytes")
  arg_value_name_step spec (ScType.udt name) = arg_value_entry (find_spec spec name)
  arg_value_name_step spec ScType.val = ok none

-- The `depth` argument of the source is not read.
unfoldable pub arg_value_name : ℕ → Spec → ScType → Named String
unfolding arg_value_name_step arg_value_entry arg_value_struct arg_value_union arg_value_case
    arg_value_udt arg_value_enum
arg_value_name zero spec t = err overflow
arg_value_name (suc fuel) spec t = arg_value_name_step (arg_value_name fuel spec) spec t
