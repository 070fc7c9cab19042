-- ===== src/SpecJson.antt =====
-- cmd/crates/soroban-spec-json/src: the JSON of a spec, as the values that serde prints. Names and docs
-- in a spec are valid UTF-8.
pub mod Laws
mod Examples
use soroban_tools.Prelude.{ℕ, String, List, [], ◌∷◌, map}
use soroban_tools.Spec.Types.{ScType, ScTypes}

-- The spec entries of stellar-xdr.
pub record FieldV0 : Type 0 where
  pub doc : String
  pub name : String
  pub type_ : ScType

pub data UnionCaseV0 : Type 0 where
  void_v0 : String → String → UnionCaseV0
  tuple_v0 : String → String → List ScType → UnionCaseV0

pub record EnumCaseV0 : Type 0 where
  pub doc : String
  pub name : String
  pub value : ℕ

-- The doc and the name of an entry, and its content. A type has the library that it comes from between
-- the two, which is not printed.
pub data ScSpecEntry : Type 0 where
  function_v0 : String → String → List FieldV0 → List ScType → ScSpecEntry
  udt_struct_v0 : String → String → String → List FieldV0 → ScSpecEntry
  udt_union_v0 : String → String → String → List UnionCaseV0 → ScSpecEntry
  udt_enum_v0 : String → String → String → List EnumCaseV0 → ScSpecEntry
  udt_error_enum_v0 : String → String → String → List EnumCaseV0 → ScSpecEntry

mutual
  -- `Type`
  pub data JsonType : Type 0 where
    val bool void error u32 i32 u64 i64 timepoint duration u128 i128 u256 i256 bytes string symbol
          address :
        JsonType
    map_of : JsonType → JsonType → JsonType
    option_of : JsonType → JsonType
    result_of : JsonType → JsonType → JsonType
    vec_of : JsonType → JsonType
    bytes_n : ℕ → JsonType
    tuple_of : JsonTypes → JsonType
    custom : String → JsonType

  pub data JsonTypes : Type 0 where
    nil : JsonTypes
    cons : JsonType → JsonTypes → JsonTypes

-- A field of a struct, and an input of a function.
pub record StructField : Type 0 where
  pub doc : String
  pub name : String
  pub value : JsonType

pub record UnionCase : Type 0 where
  pub doc : String
  pub name : String
  pub values : List JsonType

pub record EnumCase : Type 0 where
  pub doc : String
  pub name : String
  pub value : ℕ

pub data Entry : Type 0 where
  function : String → String → List StructField → List JsonType → Entry
  struct : String → String → List StructField → Entry
  union : String → String → List UnionCase → Entry
  enum : String → String → List EnumCase → Entry
  error_enum : String → String → List EnumCase → Entry

-- `Type::from`
unfoldable mutual
  pub type_from : ScType → JsonType
  type_from ScType.val = JsonType.val
  type_from ScType.bool = JsonType.bool
  type_from ScType.void = JsonType.void
  type_from ScType.error = JsonType.error
  type_from ScType.u32 = JsonType.u32
  type_from ScType.i32 = JsonType.i32
  type_from ScType.u64 = JsonType.u64
  type_from ScType.i64 = JsonType.i64
  type_from ScType.timepoint = JsonType.timepoint
  type_from ScType.duration = JsonType.duration
  type_from ScType.u128 = JsonType.u128
  type_from ScType.i128 = JsonType.i128
  type_from ScType.u256 = JsonType.u256
  type_from ScType.i256 = JsonType.i256
  type_from ScType.bytes = JsonType.bytes
  type_from ScType.string = JsonType.string
  type_from ScType.symbol = JsonType.symbol
  type_from ScType.address = JsonType.address
  type_from (ScType.map k v) = map_of (type_from k) (type_from v)
  type_from (ScType.option t) = option_of (type_from t)
  type_from (ScType.result t e) = result_of (type_from t) (type_from e)
  type_from (ScType.vec t) = vec_of (type_from t)
  type_from (ScType.tuple ts) = tuple_of (types_from ts)
  type_from (ScType.bytes_n n) = JsonType.bytes_n n
  type_from (ScType.udt name) = custom name

  pub types_from : ScTypes → JsonTypes
  types_from ScTypes.nil = JsonTypes.nil
  types_from (ScTypes.cons t ts) = JsonTypes.cons (type_from t) (types_from ts)

-- `StructField::from` and `FunctionInput::from`
unfoldable pub field_from : FieldV0 → StructField
unfolding type_from
field_from f = record { doc = f.doc; name = f.name; value = type_from f.type_ }

unfoldable pub union_case_from : UnionCaseV0 → UnionCase
unfolding type_from
union_case_from (void_v0 doc name) = record { doc = doc; name = name; values = [] }
union_case_from (tuple_v0 doc name ts) = record {
  doc = doc;
  name = name;
  values = map type_from ts;
}

-- `EnumCase::from`, of a case of an enum and of an error enum.
unfoldable pub enum_case_from : EnumCaseV0 → EnumCase
enum_case_from c = record { doc = c.doc; name = c.name; value = c.value }

-- `Entry::from`
unfoldable pub entry_from : ScSpecEntry → Entry
unfolding field_from union_case_from enum_case_from
entry_from (function_v0 doc name inputs outputs) =
    function doc name (map field_from inputs) (map type_from outputs)
entry_from (udt_struct_v0 doc lib name fields) = struct doc name (map field_from fields)
entry_from (udt_union_v0 doc lib name cases) = union doc name (map union_case_from cases)
entry_from (udt_enum_v0 doc lib name cases) = enum doc name (map enum_case_from cases)
entry_from (udt_error_enum_v0 doc lib name cases) = enum doc name (map enum_case_from cases)

-- `generate`, up to the text that serde_json prints.
unfoldable pub generate : List ScSpecEntry → List Entry
unfolding entry_from
generate spec = map entry_from spec
