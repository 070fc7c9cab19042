-- ===== src/SpecJson/Laws.antt =====
-- What the JSON of a spec says of the spec: all, but the libraries of its types, which enums are of
-- errors, and which cases of a union have an empty tuple.
use soroban_tools.Prelude.{String, List, [], ◌∷◌, map, ◌≡◌, ◌↔◌, refl, ap, ◌∙◌, sym}
use soroban_tools.Spec.Types.{ScType, ScTypes}
use soroban_tools.SpecJson.{
  FieldV0, UnionCaseV0, void_v0, tuple_v0, EnumCaseV0, ScSpecEntry, function_v0, udt_struct_v0,
  udt_union_v0, udt_enum_v0, udt_error_enum_v0, JsonType, JsonTypes, map_of, option_of, result_of,
  vec_of, tuple_of, custom, StructField, UnionCase, EnumCase, Entry, function, struct, union, enum,
  error_enum, type_from, types_from, field_from, union_case_from, enum_case_from, entry_from,
  generate,
}

mutual
  read_type : JsonType → ScType
  read_type JsonType.val = ScType.val
  read_type JsonType.bool = ScType.bool
  read_type JsonType.void = ScType.void
  read_type JsonType.error = ScType.error
  read_type JsonType.u32 = ScType.u32
  read_type JsonType.i32 = ScType.i32
  read_type JsonType.u64 = ScType.u64
  read_type JsonType.i64 = ScType.i64
  read_type JsonType.timepoint = ScType.timepoint
  read_type JsonType.duration = ScType.duration
  read_type JsonType.u128 = ScType.u128
  read_type JsonType.i128 = ScType.i128
  read_type JsonType.u256 = ScType.u256
  read_type JsonType.i256 = ScType.i256
  read_type JsonType.bytes = ScType.bytes
  read_type JsonType.string = ScType.string
  read_type JsonType.symbol = ScType.symbol
  read_type JsonType.address = ScType.address
  read_type (map_of k v) = ScType.map (read_type k) (read_type v)
  read_type (option_of t) = ScType.option (read_type t)
  read_type (result_of t e) = ScType.result (read_type t) (read_type e)
  read_type (vec_of t) = ScType.vec (read_type t)
  read_type (tuple_of ts) = ScType.tuple (read_types ts)
  read_type (JsonType.bytes_n n) = ScType.bytes_n n
  read_type (custom name) = ScType.udt name

  read_types : JsonTypes → ScTypes
  read_types JsonTypes.nil = ScTypes.nil
  read_types (JsonTypes.cons t ts) = ScTypes.cons (read_type t) (read_types ts)

mutual
  unfolding type_from types_from read_type read_types

  read_type_from : (t : ScType) → read_type (type_from t) ≡ t
  read_type_from ScType.val = refl
  read_type_from ScType.bool = refl
  read_type_from ScType.void = refl
  read_type_from ScType.error = refl
  read_type_from ScType.u32 = refl
  read_type_from ScType.i32 = refl
  read_type_from ScType.u64 = refl
  read_type_from ScType.i64 = refl
  read_type_from ScType.timepoint = refl
  read_type_from ScType.duration = refl
  read_type_from ScType.u128 = refl
  read_type_from ScType.i128 = refl
  read_type_from ScType.u256 = refl
  read_type_from ScType.i256 = refl
  read_type_from ScType.bytes = refl
  read_type_from ScType.string = refl
  read_type_from ScType.symbol = refl
  read_type_from ScType.address = refl
  read_type_from (ScType.map k v) = rw (read_type_from k, read_type_from v)
  read_type_from (ScType.option t) = rw (read_type_from t)
  read_type_from (ScType.result t e) = rw (read_type_from t, read_type_from e)
  read_type_from (ScType.vec t) = rw (read_type_from t)
  read_type_from (ScType.tuple ts) = rw (read_types_from ts)
  read_type_from (ScType.bytes_n n) = refl
  read_type_from (ScType.udt name) = refl

  read_types_from : (ts : ScTypes) → read_types (types_from ts) ≡ ts
  read_types_from ScTypes.nil = refl
  read_types_from (ScTypes.cons t ts) = rw (read_type_from t, read_types_from ts)

read_map :
    {A B C : Type 0} (f : A → B) (g : B → C) (h : A → C)
    → ((a : A) → g (f a) ≡ h a)
    → (xs : List A) → map g (map f xs) ≡ map h xs
read_map f g h e [] = refl
read_map f g h e (x ∷ xs) = rw (e x, read_map f g h e xs)

map_id : {A : Type 0} (f : A → A) → ((a : A) → f a ≡ a) → (xs : List A) → map f xs ≡ xs
map_id f e [] = refl
map_id f e (x ∷ xs) = rw (e x, map_id f e xs)

read_field : StructField → FieldV0
read_field f = record { doc = f.doc; name = f.name; type_ = read_type f.value }

read_field_from : (f : FieldV0) → read_field (field_from f) ≡ f
unfolding read_field field_from
read_field_from f = ap (λ (t : ScType). record f { type_ = t }) (read_type_from f.type_)

case_of : String → String → List ScType → UnionCaseV0
case_of doc name [] = void_v0 doc name
case_of doc name (t ∷ ts) = tuple_v0 doc name (t ∷ ts)

read_case : UnionCase → UnionCaseV0
read_case c = case_of c.doc c.name (map read_type c.values)

read_enum_case : EnumCase → EnumCaseV0
read_enum_case c = record { doc = c.doc; name = c.name; value = c.value }

-- A case with an empty tuple as one without values.
abbrev pub plain_case : UnionCaseV0 → UnionCaseV0
plain_case (void_v0 doc name) = void_v0 doc name
plain_case (tuple_v0 doc name []) = void_v0 doc name
plain_case (tuple_v0 doc name (t ∷ ts)) = tuple_v0 doc name (t ∷ ts)

-- An error enum as an enum, and a type as one without a library.
abbrev pub plain_entry : ScSpecEntry → ScSpecEntry
plain_entry (function_v0 doc name inputs outputs) = function_v0 doc name inputs outputs
plain_entry (udt_struct_v0 doc lib name fields) = udt_struct_v0 doc "" name fields
plain_entry (udt_union_v0 doc lib name cases) = udt_union_v0 doc "" name (map plain_case cases)
plain_entry (udt_enum_v0 doc lib name cases) = udt_enum_v0 doc "" name cases
plain_entry (udt_error_enum_v0 doc lib name cases) = udt_enum_v0 doc "" name cases

read_case_from : (c : UnionCaseV0) → read_case (union_case_from c) ≡ plain_case c
unfolding read_case union_case_from case_of
read_case_from (void_v0 doc name) = refl
read_case_from (tuple_v0 doc name []) = refl
read_case_from (tuple_v0 doc name (t ∷ ts)) = ap (case_of doc name) (
    read_map type_from read_type (λ x. x) read_type_from (t ∷ ts)
    ∙ map_id (λ x. x) (λ a. refl) (t ∷ ts))

read_entry : Entry → ScSpecEntry
read_entry (function doc name inputs outputs) =
    function_v0 doc name (map read_field inputs) (map read_type outputs)
read_entry (struct doc name fields) = udt_struct_v0 doc "" name (map read_field fields)
read_entry (union doc name cases) = udt_union_v0 doc "" name (map read_case cases)
read_entry (enum doc name cases) = udt_enum_v0 doc "" name (map read_enum_case cases)
read_entry (error_enum doc name cases) = udt_error_enum_v0 doc "" name (map read_enum_case cases)

read_back :
    {A B : Type 0} (f : A → B) (g : B → A)
    → ((a : A) → g (f a) ≡ a)
    → (xs : List A) → map g (map f xs) ≡ xs
read_back f g e [] = refl
read_back f g e (x ∷ xs) = rw (e x, read_back f g e xs)

read_enum_case_from : (c : EnumCaseV0) → read_enum_case (enum_case_from c) ≡ c
unfolding read_enum_case enum_case_from
read_enum_case_from c = refl

read_entry_from : (e : ScSpecEntry) → read_entry (entry_from e) ≡ plain_entry e
unfolding read_entry entry_from
read_entry_from (function_v0 doc name inputs outputs) = rw (
  read_back field_from read_field read_field_from inputs,
  read_back type_from read_type read_type_from outputs,
)
read_entry_from (udt_struct_v0 doc lib name fields) =
    rw (read_back field_from read_field read_field_from fields)
read_entry_from (udt_union_v0 doc lib name cases) =
    rw (read_map union_case_from read_case plain_case read_case_from cases)
read_entry_from (udt_enum_v0 doc lib name cases) =
    rw (read_back enum_case_from read_enum_case read_enum_case_from cases)
read_entry_from (udt_error_enum_v0 doc lib name cases) =
    rw (read_back enum_case_from read_enum_case read_enum_case_from cases)

plain_case_from : (c : UnionCaseV0) → union_case_from (plain_case c) ≡ union_case_from c
unfolding union_case_from
plain_case_from (void_v0 doc name) = refl
plain_case_from (tuple_v0 doc name []) = refl
plain_case_from (tuple_v0 doc name (t ∷ ts)) = refl

plain_entry_from : (e : ScSpecEntry) → entry_from (plain_entry e) ≡ entry_from e
unfolding entry_from
plain_entry_from (function_v0 doc name inputs outputs) = refl
plain_entry_from (udt_struct_v0 doc lib name fields) = refl
plain_entry_from (udt_union_v0 doc lib name cases) =
    ap (union doc name) (read_map plain_case union_case_from union_case_from plain_case_from cases)
plain_entry_from (udt_enum_v0 doc lib name cases) = refl
plain_entry_from (udt_error_enum_v0 doc lib name cases) = refl

-- Two specs whose texts are UTF-8 have the same JSON exactly when they agree after the libraries
-- of their types are dropped, error enums are taken as enums, and cases with an empty tuple as
-- cases without values.
pub generate_iff :
    (s t : List ScSpecEntry) → (generate s ≡ generate t) ↔ (map plain_entry s ≡ map plain_entry t)
unfolding generate
generate_iff s t = (
  (λ h.
      sym (read_map entry_from read_entry plain_entry read_entry_from s)
      ∙ (ap (map read_entry) h ∙ read_map entry_from read_entry plain_entry read_entry_from t)),
  (λ h.
      sym (read_map plain_entry entry_from entry_from plain_entry_from s)
      ∙ (ap (map entry_from) h ∙ read_map plain_entry entry_from entry_from plain_entry_from t)),
)
