-- ===== src/Spec/Find.antt =====
-- `Spec::find` and the look-ups that stand on it.
use soroban_tools.Prelude.{ℕ, String, Option, none, some, List, [], ◌∷◌, find, str_eq, ◌==◌}
use soroban_tools.Prelude.Result.{Result, ok, err, ◌>>=◌, ok_or}
use soroban_tools.Spec.Types.{
  SpecEntry, function_v0, udt_struct_v0, udt_union_v0, udt_enum_v0, udt_error_enum_v0, FunctionV0,
  EnumCase,
}
use soroban_tools.Spec.Base.{Error, missing_entry, missing_spec, missing_error_case}

-- `Spec(pub Option<Vec<ScSpecEntry>>)`
pub record Spec : Type 0 where
  pub entries : Option (List SpecEntry)

abbrev pub entry_name : SpecEntry → String
entry_name (function_v0 x) = x.name
entry_name (udt_struct_v0 x) = x.name
entry_name (udt_union_v0 x) = x.name
entry_name (udt_enum_v0 x) = x.name
entry_name (udt_error_enum_v0 x) = x.name

find_entry : String → Option (List SpecEntry) → Result Error SpecEntry
find_entry name none = err (missing_entry name)
find_entry name (some specs) =
    ok_or (find (λ e. str_eq name (entry_name e)) specs) (missing_entry name)

-- `Spec::find`
unfoldable pub find_spec : Spec → String → Result Error SpecEntry
unfolding find_entry
find_spec spec name = find_entry name spec.entries

as_function : String → SpecEntry → Result Error FunctionV0
as_function name (function_v0 f) = ok f
as_function name _ = err (missing_entry name)

unfoldable pub find_function : Spec → String → Result Error FunctionV0
unfolding find_spec as_function
find_function spec name = do e ← find_spec spec name; as_function name e

keep_functions : List SpecEntry → List FunctionV0
keep_functions [] = []
keep_functions (function_v0 f ∷ es) = f ∷ keep_functions es
keep_functions (_ ∷ es) = keep_functions es

functions_of : Option (List SpecEntry) → Result Error (List FunctionV0)
functions_of none = err missing_spec
functions_of (some specs) = ok (keep_functions specs)

unfoldable pub find_functions : Spec → Result Error (List FunctionV0)
unfolding functions_of keep_functions
find_functions spec = functions_of spec.entries

error_case : ℕ → SpecEntry → Result Error EnumCase
error_case value (udt_error_enum_v0 e) =
    ok_or (find (λ c. value == c.value) e.cases) (missing_error_case value)
error_case value _ = err (missing_error_case value)

unfoldable pub find_error_type : Spec → ℕ → Result Error EnumCase
unfolding find_spec error_case
find_error_type spec value = do e ← find_spec spec "Error"; error_case value e
