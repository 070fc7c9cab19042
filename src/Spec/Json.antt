-- ===== src/Spec/Json.antt =====
-- `serde_json::Value` over an unknown type of numbers, and its maps as lists of fields.
use soroban_tools.Prelude.{String, Bool, Option, none, some, List, [], ◌∷◌, str_eq, if◌then◌else◌}

module _ (Number : Type 0) where
  mutual
    pub data Value : Type 0 where
      null : Value
      bool : Bool → Value
      number : Number → Value
      string : String → Value
      array : Values → Value
      object : Fields → Value

    pub data Values : Type 0 where
      nil : Values
      cons : Value → Values → Values

    pub data Fields : Type 0 where
      end : Fields
      field : String → Value → Fields → Fields

module _ {Number : Type 0} where
  abbrev pub values : Values Number → List (Value Number)
  values nil = []
  values (cons v vs) = v ∷ values vs

  abbrev pub to_values : List (Value Number) → Values Number
  to_values [] = nil
  to_values (v ∷ vs) = cons v (to_values vs)

  abbrev pub fields : Fields Number → List (String × Value Number)
  fields end = []
  fields (field k v fs) = (k, v) ∷ fields fs

  -- `Map::get`
  abbrev pub get : String → List (String × Value Number) → Option (Value Number)
  get k [] = none
  get k ((j, v) ∷ fs) = if str_eq j k then some v else get k fs

  -- `Map::insert`, which replaces the value of a key that is there. The order of the keys of
  -- `serde_json` is not modelled.
  abbrev pub insert : String → Value Number → Fields Number → Fields Number
  insert k v end = field k v end
  insert k v (field j w fs) = if str_eq j k then field k v fs else field j w (insert k v fs)

  abbrev pub insert_all : Fields Number → List (String × Value Number) → Fields Number
  insert_all fs [] = fs
  insert_all fs ((k, v) ∷ rest) = insert_all (insert k v fs) rest

  -- `collect` into a `Map`.
  abbrev pub to_fields : List (String × Value Number) → Fields Number
  to_fields kvs = insert_all end kvs
