-- ===== src/Spec/Examples.antt =====
-- A model of the other crates, small specs, and the laws and runs at them.
use soroban_tools.Prelude.{ℕ, ◌≡◌, ◌≤◌, refl, String, Option, leb, none, some, [], ◌∷◌, arith}
use soroban_tools.Prelude.Int.{ℤ, pos, negsuc}
use soroban_tools.Prelude.Result.{ok, err}
use soroban_tools.Spec.Types.{ScType, ScVal, Field, UdtStructV0, udt_struct_v0}
use soroban_tools.Spec.Json.{Value, Values}
use soroban_tools.Spec.Base.{Crates, IsLawful}
use soroban_tools.Spec.Find.{Spec, find_spec}
use soroban_tools.Spec.FromJson.{from_json}
use soroban_tools.Spec.Output.{xdr_to_json}
use soroban_tools.Spec.Names.{overflow, arg_value_name}
use soroban_tools.Spec.RoundTrip.{xdr_to_json-from_json}
use soroban_tools.Spec.Stands.{Stands, Each, depth}
use soroban_tools.Spec.Termination.{
  Wraps, arg_value_name_overflows, arg_value_name_ends, weight, IsRanked,
}

abbrev pub natural : ℤ → Option ℕ
natural (pos n) = some n
natural (negsuc n) = none

-- Numbers are integers; no text is JSON, a strkey or a wide number.
abbrev pub crates : Crates
crates = record {
  Number = ℤ;
  as_u64 = natural;
  as_i64 = λ z. some z;
  number_from_u64 = pos;
  number_from_i64 = λ z. z;
  number_text = λ z. "";
  parse_json = λ s. none;
  value_to_sc_val = λ v. none;
  json_text = λ v. "";
  error_value = Value.null;
  hash_value = λ b. Value.null;
  strkey = λ s. none;
  public_key_text = λ b. "";
  contract_text = λ b. "";
  parse_u256 = λ s. none;
  parse_i256 = λ s. none;
  u256_text = λ n. "";
  i256_text = λ n. "";
  hex_decode = λ s. none;
  fits = λ most n. leb n most;
  sorted_from = λ kvs. some kvs;
  lossy = λ b. "";
}

crates-IsLawful : IsLawful crates
crates-IsLawful = record {
  as_u64_from = λ n h. refl;
  as_i64_from = λ z h. refl;
  fits_up_to = λ most n h. ground (arith, h);
}

abbrev no_spec : Spec
no_spec = record { entries = none }

-- A vector of an absent and a present number.
abbrev numbers_type : ScType
numbers_type = ScType.vec (ScType.option ScType.u32)

abbrev numbers : Value ℤ
numbers = Value.array (Values.cons Value.null (Values.cons (Value.number (pos 7)) Values.nil))

seven_not_null : ¬ (◌≡◌ {A = Value ℤ} (Value.number (pos 7)) Value.null)
seven_not_null e = cc

numbers-Stands : Stands crates numbers_type numbers
numbers-Stands =
    Stands.vec (ScType.option ScType.u32) (Value.null ∷ Value.number (pos 7) ∷ []) (omega arith) (
      Each.more _ _ _ (Stands.absent ScType.u32) (
        Each.more _ _ _
          (Stands.present ScType.u32 (Value.number (pos 7)) seven_not_null
            (Stands.u32 7 (omega arith)))
          (Each.done _)))

numbers_depth : depth numbers_type ≤ 3
unfolding depth
numbers_depth = omega arith

xdr_to_json-from_json_example :
    (x : ScVal) × (from_json crates 3 no_spec numbers numbers_type ≡ ok x)
    × (xdr_to_json crates 3 no_spec x numbers_type ≡ ok numbers)
xdr_to_json-from_json_example =
    xdr_to_json-from_json crates crates-IsLawful no_spec numbers_type numbers 3 3 numbers-Stands
      numbers_depth numbers_depth

abbrev tail_field : Field
tail_field = record { name = "tail"; type_ = ScType.option (ScType.udt "Chain") }

abbrev chain : UdtStructV0
chain = record { doc = ""; name = "Chain"; fields = tail_field ∷ [] }

abbrev chain_spec : Spec
chain_spec = record { entries = some (udt_struct_v0 chain ∷ []) }

chain_found : find_spec chain_spec "Chain" ≡ ok (udt_struct_v0 chain)
unfolding find_spec
chain_found = refl

arg_value_name_overflows_example : arg_value_name 50 chain_spec (ScType.udt "Chain") ≡ err overflow
arg_value_name_overflows_example =
    arg_value_name_overflows chain_spec "Chain" chain tail_field [] 50 chain_found refl Wraps.option

abbrev count_field : Field
count_field = record { name = "count"; type_ = ScType.vec ScType.u64 }

abbrev counter : UdtStructV0
counter = record { doc = ""; name = "Counter"; fields = count_field ∷ [] }

abbrev counter_spec : Spec
counter_spec = record { entries = some (udt_struct_v0 counter ∷ []) }

abbrev two : String → ℕ
two name = 2

counter-IsRanked : IsRanked two counter_spec
unfolding find_spec weight
counter-IsRanked name e h = ground (arith, h)

counter_weight : weight two (ScType.udt "Counter") ≤ 3
unfolding weight
counter_weight = omega arith

arg_value_name_ends_example :
    (o : Option String) × (arg_value_name 3 counter_spec (ScType.udt "Counter") ≡ ok o)
arg_value_name_ends_example =
    arg_value_name_ends two counter_spec 3 (ScType.udt "Counter") counter-IsRanked counter_weight

arg_value_name_runs :
    arg_value_name 3 counter_spec (ScType.udt "Counter") ≡ ok (some "{ count: Array<u64> }")
unfolding arg_value_name find_spec
arg_value_name_runs = refl
