-- ===== src/SpecJson/Examples.antt =====
-- An error enum of a library, which is printed as an enum without one.
use soroban_tools.Prelude.{List, [], ◌∷◌, map, ◌≡◌, ◌↔◌, refl}
use soroban_tools.SpecJson.{ScSpecEntry, EnumCaseV0, udt_enum_v0, udt_error_enum_v0, generate}
use soroban_tools.SpecJson.Laws.{plain_entry, generate_iff}

abbrev case_a : EnumCaseV0
case_a = record { doc = ""; name = "A"; value = 1 }

abbrev errors : List ScSpecEntry
errors = udt_error_enum_v0 "" "lib" "Error" (case_a ∷ []) ∷ []

abbrev enums : List ScSpecEntry
enums = udt_enum_v0 "" "" "Error" (case_a ∷ []) ∷ []

errors_as_enums : generate errors ≡ generate enums
unfolding generate
errors_as_enums = refl

generate_iff_example :
    (generate errors ≡ generate enums) ↔ (map plain_entry errors ≡ map plain_entry enums)
generate_iff_example = generate_iff errors enums
