-- ===== src/Config/Locator.antt =====
-- The operations of `locator::Args` in cmd/soroban-cli/src/config/locator.rs that read the disk.
use soroban_tools.Prelude.{
  String, Bool, false, Option, none, some, List, [], ◌∷◌, ◌++◌, ◌||◌, if◌then◌else◌, str_eq,
}
use soroban_tools.Prelude.Result.{Result, ok, err, ok_or, or_else, map_err, ◌>>=◌}
use soroban_tools.Config.Paths.{FilePath}
use soroban_tools.Config.Disk.{Host, Disk, exists, read_to_string}
use soroban_tools.Config.Errors.{
  Error, Format, config_missing, io, key, secret_key_only, cannot_parse_contract_id,
}
use soroban_tools.Config.Secrets.{KeyCrates, Secret}
use soroban_tools.Config.Keys
use soroban_tools.Config.Keys.{Key, MuxedAccount, secret}
use soroban_tools.Config.Networks.{Network, Map, get, defaults, from_pair}
use soroban_tools.Config.Directories.{
  Args, Location, path_of, alias_path, local_config, local_and_global,
}
use soroban_tools.Config.KeyTypes.{identity, network, read_with_global, read_from_path, list_paths}

-- `alias::Data`, the contract id for each network's passphrase.
pub record AliasData : Type 0 where
  pub ids : Map String

-- What the crates print and parse.
pub record Crates : Type 1 where
  pub keys : KeyCrates
  pub Contract : Type 0
  pub contract_to_string : Contract → String
  pub contract_from_str : String → Option Contract
  pub key_toml : Format (Key keys)
  pub network_toml : Format Network
  pub alias_json : Format AliasData

-- `unwrap_or_default`
abbrev pub or_default : Option AliasData → AliasData
or_default (some found) = found
or_default none = record { ids = [] }

abbrev pub text_or_default : Option String → String
text_or_default (some s) = s
text_or_default none = ""

abbrev pub names_of : List (String × Location) → List String
names_of [] = []
names_of ((name, p) ∷ rest) = name ∷ names_of rest

abbrev pub names_and_paths : List (String × Location) → List (String × FilePath)
names_and_paths [] = []
names_and_paths ((name, p) ∷ rest) = (name, path_of p) ∷ names_and_paths rest

abbrev pub default_names : Map (String × String) → List String
default_names [] = []
default_names ((name, n) ∷ rest) = name ∷ default_names rest

abbrev pub default_networks : Map (String × String) → List (String × (Network × Option Location))
default_networks [] = []
default_networks ((name, n) ∷ rest) = (name, (from_pair n, none)) ∷ default_networks rest

abbrev pub is_among : String → List String → Bool
is_among s [] = false
is_among s (t ∷ rest) = str_eq s t || is_among s rest

-- `Itertools::unique`, which keeps the first of each.
abbrev pub unique_after : List String → List String → List String
unique_after seen [] = []
unique_after seen (s ∷ rest) =
    let others = unique_after (s ∷ seen) rest in if is_among s seen then others else s ∷ others

module _ (C : Crates) (args : Args) (host : Host) where
  unfoldable pub list_identities : Disk → Result Error (List String)
  unfolding list_paths local_and_global
  list_identities d = do
    paths ← local_and_global args host d
    ok (names_of (list_paths host identity paths d))

  unfoldable pub list_identities_long : Disk → Result Error (List (String × FilePath))
  unfolding list_paths local_and_global
  list_identities_long d = do
    paths ← local_and_global args host d
    ok (names_and_paths (list_paths host identity paths d))

  unfoldable pub list_networks : Disk → Result Error (List String)
  unfolding list_paths local_and_global
  list_networks d = do
    paths ← local_and_global args host d
    ok (unique_after [] (names_of (list_paths host network paths d) ++ default_names defaults))

  -- A file that is no network is left out. The location of a default network is none.
  unfoldable pub read_networks :
      List (String × Location) → Disk → List (String × (Network × Option Location))
  unfolding read_from_path
  read_networks [] d = []
  read_networks ((name, p) ∷ rest) d =
      let others = read_networks rest d in
      elim (read_from_path host C.network_toml (path_of p) d) [
        | ok n ↦ (name, (n, some p)) ∷ others
        | err e ↦ others
      ]

  unfoldable pub list_networks_long :
      Disk → Result Error (List (String × (Network × Option Location)))
  unfolding list_paths local_and_global read_networks
  list_networks_long d = do
    paths ← local_and_global args host d
    ok (read_networks (list_paths host network paths d) d ++ default_networks defaults)

  unfoldable pub read_identity : String → Disk → Result Error (Key C.keys)
  unfolding local_config read_with_global
  read_identity name d = do
    pwd ← local_config args host d
    read_with_global host C.key_toml identity name pwd d

  unfoldable pub read_key : String → Disk → Result Error (Key C.keys)
  unfolding read_identity Keys.from_str
  read_key key_or_name d =
      or_else (map_err key (Keys.from_str C.keys key_or_name)) (read_identity key_or_name d)

  abbrev pub secret_key_of : String → Key C.keys → Result Error Secret
  secret_key_of name (secret s) = ok s
  secret_key_of name other = err (secret_key_only name)

  unfoldable pub get_secret_key : String → Disk → Result Error Secret
  unfolding read_key
  get_secret_key key_or_name d = do k ← read_key key_or_name d; secret_key_of key_or_name k

  -- Whether a default takes the place of what the configuration says.
  abbrev pub or_default_network : String → Result Error Network → Result Error Network
  or_default_network name (err (config_missing kind missing)) = elim (get name defaults) [
    | some n ↦ ok (from_pair n)
    | none ↦ err (config_missing kind missing)
  ]
  or_default_network name other = other

  unfoldable pub read_network : String → Disk → Result Error Network
  unfolding local_config read_with_global get
  read_network name d = do
    pwd ← local_config args host d
    or_default_network name (read_with_global host C.network_toml network name pwd d)

  abbrev pub data_in : Option String → Result Error (Option AliasData)
  data_in (some content) = ok (some (or_default (C.alias_json.parse content)))
  data_in none = err io

  unfoldable pub load_contract_from_alias : String → Disk → Result Error (Option AliasData)
  unfolding alias_path exists read_to_string
  load_contract_from_alias alias d = do
    p ← alias_path args host alias d
    if exists p d then data_in (read_to_string host p d) else ok none

  abbrev pub parse_id : String → Option String → Result Error (Option C.Contract)
  parse_id alias none = ok none
  parse_id alias (some id) = do
    contract ← ok_or (C.contract_from_str id) (cannot_parse_contract_id alias)
    ok (some contract)

  abbrev pub id_in : String → String → Option AliasData → Result Error (Option C.Contract)
  id_in alias network_passphrase none = ok none
  id_in alias network_passphrase (some found) = parse_id alias (get network_passphrase found.ids)

  unfoldable pub get_contract_id : String → String → Disk → Result Error (Option C.Contract)
  unfolding load_contract_from_alias get
  get_contract_id alias network_passphrase d = do
    found ← load_contract_from_alias alias d
    id_in alias network_passphrase found

  unfoldable pub resolve_contract_id : String → String → Disk → Result Error C.Contract
  unfolding get_contract_id
  resolve_contract_id alias_or_id network_passphrase d = do
    found ← get_contract_id alias_or_id network_passphrase d
    elim found [
      | some contract ↦ ok contract
      | none ↦ ok_or (C.contract_from_str alias_or_id) (cannot_parse_contract_id alias_or_id)
    ]
