-- ===== src/ArgParsing/Examples.antt =====
-- A call of a function with a symbol, an optional number and an address.
use soroban_tools.Prelude.{
  ℕ, String, Option, none, some, List, [], ◌∷◌, ◌≡◌, refl, arith, str_eq, if◌then◌else◌,
}
use soroban_tools.Prelude.Result.{ok}
use soroban_tools.Spec.Types.{ScType, ScVal, utf8, FunctionV0, function_v0}
use soroban_tools.Spec.Find.{Spec}
use soroban_tools.Spec.FromJson.{from_json}
use soroban_tools.Spec.Primitives.{from_json_primitives}
use soroban_tools.Spec.Examples
use soroban_tools.Config.Machine.{crates, host, args, empty}
use soroban_tools.Config.Resolve.{NetworkArgs, ScAddress}
use soroban_tools.ArgParsing.{
  Matches, Files, InvokeContractArgs, build_call, build_host_function_parameters, running_cmd,
  values_of, signers_of,
}
use soroban_tools.ArgParsing.Arguments.{Arguments, build_call-Arguments, build_call_files}

abbrev no_network : NetworkArgs
no_network = record { rpc_url = none; rpc_headers = []; network_passphrase = none; network = none }

abbrev no_address : String → Option (ScAddress crates)
no_address s = none

abbrev address_text : ScAddress crates → String
address_text a = ""

abbrev no_files : Files
no_files = record { read = λ p. none; read_to_string = λ p. none }

abbrev some_files : Files
some_files = record { read = λ p. none; read_to_string = λ p. some "5" }

abbrev given : Matches
given = record {
  get_raw = λ name. if str_eq name "to" then some "\"hi\"" else none;
  get_path = λ name. none;
}

abbrev given_path : Matches
given_path = record {
  get_raw = λ name. if str_eq name "to" then some "\"hi\"" else none;
  get_path = λ name. some "five.json";
}

abbrev hello : FunctionV0
hello = record {
  doc = "";
  name = "hello";
  inputs =
      record { name = "to"; type_ = ScType.symbol }
      ∷ (record { name = "n"; type_ = ScType.option ScType.u32 } ∷ []);
  outputs = [];
}

abbrev spec : Spec
spec = record { entries = some (function_v0 hello ∷ []) }

abbrev hello_call : InvokeContractArgs String
hello_call = record {
  contract_address = "CID";
  function_name = "hello";
  args = ScVal.symbol (utf8 "hi") ∷ (ScVal.void ∷ []);
}

builds :
    build_call crates Examples.crates no_address address_text args no_network host empty no_files
      given 3 spec "CID" "hello" hello
    ≡ ok ("hello", (hello_call, []))
unfolding build_call from_json from_json_primitives
builds = refl

build_call-Arguments_example :
    (ps : List (ScVal × Option ℕ)) × (Arguments crates Examples.crates no_address address_text args
        no_network host empty no_files given 3 spec hello.inputs ps
      × (((hello_call.contract_address ≡ "CID") × (hello_call.function_name ≡ "hello"))
          × ((hello_call.args
                ≡ values_of crates Examples.crates no_address address_text args no_network host
                    empty no_files given 3 spec ps)
              × ([]
                  ≡ signers_of crates Examples.crates no_address address_text args no_network host
                      empty no_files given 3 spec ps))))
build_call-Arguments_example =
    build_call-Arguments crates Examples.crates no_address address_text args no_network host empty
      no_files given 3 spec "CID" "hello" hello hello_call [] builds

-- The file that is given for the number is not read.
build_call_files_example :
    build_call crates Examples.crates no_address address_text args no_network host empty some_files
      given_path 3 spec "CID" "hello" hello
    ≡ build_call crates Examples.crates no_address address_text args no_network host empty no_files
        given 3 spec "CID" "hello" hello
build_call_files_example =
    build_call_files crates Examples.crates no_address address_text args no_network host empty
      no_files given 3 spec some_files given_path (λ s. refl) "CID" "hello" hello
      ((λ h. ground (arith, h)), ((λ h. refl), tt))

whole_command :
    build_host_function_parameters crates Examples.crates no_address address_text args no_network
      host empty
      (λ fs slop. some ("hello", given))
      no_files
      3
      "CID"
      []
      (function_v0 hello ∷ [])
    ≡ ok ("hello", (hello_call, []))
unfolding build_host_function_parameters from_json from_json_primitives
whole_command = refl

before_the_dashes :
    running_cmd ("stellar" ∷ ("contract" ∷ ("--" ∷ ("hello" ∷ [])))) ≡ "stellar contract --"
unfolding running_cmd
before_the_dashes = refl
