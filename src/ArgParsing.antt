-- ===== src/ArgParsing.antt =====
-- cmd/soroban-cli/src/commands/contract/arg_parsing.rs: the call that the arguments of `contract invoke`
-- ask for, and the text of its result. What clap makes of the arguments is a parameter.
pub mod Arguments
mod Examples
use Prim.Native.Char.{code}
use Prim.Native.String.{len}
use soroban_tools.Prelude.{
  ℕ, ◌^◌, ◌-◌, String, Bool, true, false, not, Option, none, some, List, [], ◌∷◌, length, ◌<>◌,
  join, ◌==◌, str_eq, if◌then◌else◌,
}
use soroban_tools.Prelude.Result.{Result, ok, err, ok_or, map_err, collect, reject_if, ◌>>=◌, ◌>>◌}
use soroban_tools.Xdr.{Bytes}
use soroban_tools.Spec.Types.{ScType, ScVal, Field, FunctionV0, SpecEntry}
use soroban_tools.Spec.Base
use soroban_tools.Spec.Base.{Crates}
use soroban_tools.Spec.Find.{Spec, find_function, find_functions}
use soroban_tools.Spec.FromJson.{from_string}
use soroban_tools.Spec.Output.{xdr_to_json}
use soroban_tools.Config.Disk.{Host, Disk}
use soroban_tools.Config.Directories.{Args}
use soroban_tools.Config.Keys.{private_key}
use soroban_tools.Config.Locator
use soroban_tools.Config.Locator.{read_key}
use soroban_tools.Config.Resolve.{
  NetworkArgs, NetworkError, AddressError, ScAddress, alias_address, get_network, resolve_address,
}

-- `soroban_spec_tools::Error`, which has `Unknown` too.
pub data ParseError : Type 0 where
  spec_error : Base.Error → ParseError
  unknown : ParseError

pub data Error (C : Locator.Crates) : Type 0 where
  cannot_parse_arg : String → ParseError → Error C
  cannot_print_result : ScVal → Base.Error → Error C
  function_name_too_long : String → Error C
  max_number_of_arguments_reached : ℕ → ℕ → Error C
  str_val : Base.Error → Error C
  missing_argument : String → Error C
  missing_file_arg : String → Error C
  sc_address : AddressError C → Error C
  config : NetworkError → Error C
  -- The process ended with the help.
  exited : Error C

-- What clap found: the raw value of an argument, and the path given for its file.
pub record Matches : Type 0 where
  pub get_raw : String → Option String
  pub get_path : String → Option String

-- `std::fs::read` and `read_to_string`.
pub record Files : Type 0 where
  pub read : String → Option Bytes
  pub read_to_string : String → Option String

pub record InvokeContractArgs (Contract : Type 0) : Type 0 where
  pub contract_address : Contract
  pub function_name : String
  pub args : List ScVal

-- The arguments before the first `--`.
abbrev pub before_slop : List String → List String
before_slop [] = []
before_slop (a ∷ args) = let rest = before_slop args in if str_eq a "--" then [] else a ∷ rest

unfoldable pub running_cmd : List String → String
unfolding join
running_cmd args = join " " (before_slop args) <> " --"

unfoldable pub fmt_arg_file_name : String → String
fmt_arg_file_name name = name <> "-file-path"

abbrev pub drop_quotes : String → String
drop_quotes String.[] = ""
drop_quotes (String.◌∷◌ c s) =
    let rest = drop_quotes s in if code c == 34 then rest else String.◌∷◌ c s

abbrev pub drop_last_quotes : String → String
drop_last_quotes String.[] = ""
drop_last_quotes (String.◌∷◌ c s) = elim (drop_last_quotes s) [
  | String.[] ↦ if code c == 34 then "" else String.◌∷◌ c ""
  | String.◌∷◌ d t ↦ String.◌∷◌ c (String.◌∷◌ d t)
]

-- `trim_matches('"')`
abbrev pub trim_quotes : String → String
trim_quotes s = drop_last_quotes (drop_quotes s)

abbrev pub is_address : ScType → Bool
is_address ScType.address = true
is_address _ = false

abbrev pub is_option : ScType → Bool
is_option (ScType.option t) = true
is_option _ = false

abbrev pub is_raw_bytes : ScType → Bool
is_raw_bytes ScType.bytes = true
is_raw_bytes (ScType.bytes_n n) = true
is_raw_bytes _ = false

module _ (C : Locator.Crates) (K : Crates) (address_from_str : String → Option (ScAddress C))
    (address_to_string : ScAddress C → String) (args : Args) (network : NetworkArgs) (host : Host)
    (d : Disk) where
  abbrev pub resolve_alias_text : String → Result (Error C) String
  resolve_alias_text s = do
    n ← map_err config (get_network C args host network d)
    address ←
        map_err sc_address (resolve_address C args host (alias_address s) n.network_passphrase d)
    ok (address_to_string address)

  -- `resolve_address` of this file.
  unfoldable pub resolve_address_text : String → Result (Error C) String
  unfolding get_network resolve_address
  resolve_address_text s = elim (address_from_str s) [
    | some address ↦ ok (address_to_string address)
    | none ↦ resolve_alias_text s
  ]

  abbrev pub ok_option : {E A : Type 0} → Result E A → Option A
  ok_option (ok a) = some a
  ok_option (err e) = none

  unfoldable pub resolve_signer : String → Option C.keys.SigningKey
  unfolding read_key private_key
  resolve_signer s = ok_option (do
    k ← map_err (λ e. tt) (read_key C args host s d)
    pk ← map_err (λ e. tt) (private_key C.keys k none)
    ok (C.keys.signing_key_from_bytes pk))

  module _ (files : Files) (matches : Matches) (fuel : ℕ) (spec : Spec) where
    -- `from_string` with the name of the argument in its error.
    abbrev pub parse_text : String → ScType → String → Result (Error C) ScVal
    parse_text name t s =
        map_err (λ (e : Base.Error). cannot_parse_arg name (spec_error e))
          (from_string K fuel spec s t)

    -- An argument that was given: an address is resolved first, and may bring a signer.
    abbrev pub given_arg :
        String → ScType → String → Bool → Result (Error C) (ScVal × Option C.keys.SigningKey)
    given_arg name t s true = do
      address ← resolve_address_text s
      v ← parse_text name t address
      ok (v, resolve_signer s)
    given_arg name t s false = do v ← parse_text name t s; ok (v, none)

    abbrev pub file_arg : String → ScType → String → Bool → Result (Error C) ScVal
    file_arg name t p true = do
      b ← ok_or (files.read p) (missing_file_arg p)
      if K.fits (2 ^ 32 - 1) (length b)
          then ok (ScVal.bytes b)
          else err (cannot_parse_arg name unknown)
    file_arg name t p false = do
      s ← ok_or (files.read_to_string p) (missing_file_arg p)
      parse_text name t s

    abbrev pub absent_arg :
        String → ScType → Bool → Result (Error C) (ScVal × Option C.keys.SigningKey)
    absent_arg name t true = ok (ScVal.void, none)
    absent_arg name t false = do
      p ← ok_or (matches.get_path (fmt_arg_file_name name)) (missing_argument name)
      v ← file_arg name t p (is_raw_bytes t)
      ok (v, none)

    -- One input of the function, and the signer that it brings.
    unfoldable pub parse_arg : Field → Result (Error C) (ScVal × Option C.keys.SigningKey)
    unfolding resolve_address_text resolve_signer fmt_arg_file_name from_string
    parse_arg i = elim (matches.get_raw i.name) [
      | some val ↦ given_arg i.name i.type_ (trim_quotes val) (is_address i.type_)
      | none ↦ absent_arg i.name i.type_ (is_option i.type_)
    ]

    abbrev pub values_of : List (ScVal × Option C.keys.SigningKey) → List ScVal
    values_of [] = []
    values_of ((v, s) ∷ rest) = v ∷ values_of rest

    abbrev pub add_signer :
        Option C.keys.SigningKey → List C.keys.SigningKey → List C.keys.SigningKey
    add_signer none signers = signers
    add_signer (some s) signers = s ∷ signers

    abbrev pub signers_of : List (ScVal × Option C.keys.SigningKey) → List C.keys.SigningKey
    signers_of [] = []
    signers_of ((v, s) ∷ rest) = add_signer s (signers_of rest)

    unfoldable pub build_call :
        C.Contract
        → String
        → FunctionV0
        → Result (Error C) (String × (InvokeContractArgs C.Contract × List C.keys.SigningKey))
    unfolding parse_arg
    build_call contract_id function func = do
      parsed ← collect parse_arg func.inputs
      reject_if (not (K.fits 32 (len function))) (function_name_too_long function)
      reject_if (not (K.fits (2 ^ 32 - 1) (length parsed)))
          (max_number_of_arguments_reached (length parsed) (2 ^ 32 - 1))
      ok (
        function,
        (
          record {
            contract_address = contract_id;
            function_name = function;
            args = values_of parsed;
          },
          signers_of parsed,
        ),
      )

  -- The commands are those of the functions of the spec, and clap answers with the function and its
  -- arguments, or ends the process.
  unfoldable pub build_host_function_parameters :
      (List FunctionV0 → List String → Option (String × Matches))
      → Files
      → ℕ
      → C.Contract
      → List String
      → List SpecEntry
      → Result (Error C) (String × (InvokeContractArgs C.Contract × List C.keys.SigningKey))
  unfolding find_functions find_function build_call
  build_host_function_parameters clap files fuel contract_id slop spec_entries =
      let spec : Spec = record { entries = some spec_entries } in
      do
        functions ← map_err str_val (find_functions spec)
        found ← ok_or (clap functions slop) exited
        func ← map_err str_val (find_function spec (found.0))
        build_call files (found.1) fuel spec contract_id (found.0) func

  abbrev pub output_as : ℕ → Spec → ScVal → List ScType → Result (Error C) String
  output_as fuel spec res [] = ok ""
  output_as fuel spec res (t ∷ ts) = do
    json ← map_err (λ (e : Base.Error). cannot_print_result res e) (xdr_to_json K fuel spec res t)
    ok (K.json_text json)

  unfoldable pub output_to_string : ℕ → Spec → ScVal → String → Result (Error C) String
  unfolding find_function xdr_to_json
  output_to_string fuel spec res function = do
    func ← map_err str_val (find_function spec function)
    output_as fuel spec res func.outputs
