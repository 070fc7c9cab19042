-- ===== src/Spec/Types.antt =====
-- The spec types, the spec entries and the contract values that the spec tools take apart, with
-- the constructors that `soroban-spec-tools/src/lib.rs` names. Names in a spec are valid UTF-8.

use soroban_tools.Prelude.{ℕ, String, Bool, Option, none, some, List, [], ◌∷◌}
use soroban_tools.Prelude.Int.{ℤ}
use soroban_tools.Xdr.{Bytes, ScAddress}

mutual
  -- `ScSpecTypeDef`
  pub data ScType : Type 0 where
    val bool void error u32 i32 u64 i64 timepoint duration u128 i128 u256 i256 : ScType
    bytes string symbol address : ScType
    option : ScType → ScType
    result : ScType → ScType → ScType
    vec : ScType → ScType
    map : ScType → ScType → ScType
    tuple : ScTypes → ScType
    bytes_n : ℕ → ScType
    udt : String → ScType

  pub data ScTypes : Type 0 where
    nil : ScTypes
    cons : ScType → ScTypes → ScTypes

abbrev pub types : ScTypes → List ScType
types nil = []
types (cons t ts) = t ∷ types ts

-- The text of a `StringM`: a `String`, or bytes that are no UTF-8.
pub data Text : Type 0 where
  utf8 : String → Text
  not_utf8 : Bytes → Text

-- `std::str::from_utf8`
abbrev pub from_utf8 : Text → Option String
from_utf8 (utf8 s) = some s
from_utf8 (not_utf8 b) = none

mutual
  pub data ScVal : Type 0 where
    bool : Bool → ScVal
    void : ScVal
    -- The payload is only handed to `serde_json`.
    error : ScVal
    u32 : ℕ → ScVal
    i32 : ℤ → ScVal
    u64 : ℕ → ScVal
    i64 : ℤ → ScVal
    timepoint : ℕ → ScVal
    duration : ℕ → ScVal
    u128 : ℕ → ℕ → ScVal
    i128 : ℤ → ℕ → ScVal
    u256 : ℕ → ℕ → ℕ → ℕ → ScVal
    i256 : ℤ → ℕ → ℕ → ℕ → ScVal
    bytes : Bytes → ScVal
    string : Text → ScVal
    symbol : Text → ScVal
    vec_none : ScVal
    vec : ScVals → ScVal
    map_none : ScVal
    map : ScMap → ScVal
    address : ScAddress → ScVal
    -- The storage of an instance is not read.
    contract_instance_wasm : Bytes → ScVal
    contract_instance_stellar_asset : ScVal
    ledger_key_contract_instance : ScVal
    ledger_key_nonce : ℤ → ScVal

  pub data ScVals : Type 0 where
    nil : ScVals
    cons : ScVal → ScVals → ScVals

  -- The entries of a map: key, value, rest.
  pub data ScMap : Type 0 where
    empty : ScMap
    entry : ScVal → ScVal → ScMap → ScMap

abbrev pub vals : ScVals → List ScVal
vals ScVals.nil = []
vals (ScVals.cons v vs) = v ∷ vals vs

abbrev pub to_vals : List ScVal → ScVals
to_vals [] = ScVals.nil
to_vals (v ∷ vs) = ScVals.cons v (to_vals vs)

abbrev pub entries : ScMap → List (ScVal × ScVal)
entries empty = []
entries (entry k v m) = (k, v) ∷ entries m

abbrev pub to_entries : List (ScVal × ScVal) → ScMap
to_entries [] = empty
to_entries ((k, v) ∷ m) = entry k v (to_entries m)

-- `ScSpecUdtStructFieldV0`, and the inputs of a function.
pub record Field : Type 0 where
  pub name : String
  pub type_ : ScType

pub record FunctionV0 : Type 0 where
  pub doc : String
  pub name : String
  pub inputs : List Field
  pub outputs : List ScType

pub record UdtStructV0 : Type 0 where
  pub doc : String
  pub name : String
  pub fields : List Field

pub data UnionCase : Type 0 where
  void_v0 : String → UnionCase
  tuple_v0 : String → List ScType → UnionCase

pub record UdtUnionV0 : Type 0 where
  pub doc : String
  pub name : String
  pub cases : List UnionCase

-- A case of an enum or an error enum.
pub record EnumCase : Type 0 where
  pub name : String
  pub value : ℕ

pub record UdtEnumV0 : Type 0 where
  pub doc : String
  pub name : String
  pub cases : List EnumCase

pub record UdtErrorEnumV0 : Type 0 where
  pub doc : String
  pub name : String
  pub cases : List EnumCase

pub data SpecEntry : Type 0 where
  function_v0 : FunctionV0 → SpecEntry
  udt_struct_v0 : UdtStructV0 → SpecEntry
  udt_union_v0 : UdtUnionV0 → SpecEntry
  udt_enum_v0 : UdtEnumV0 → SpecEntry
  udt_error_enum_v0 : UdtErrorEnumV0 → SpecEntry
