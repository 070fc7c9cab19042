-- ===== src/Config/Directories.antt =====
-- cmd/soroban-cli/src/config/locator.rs and utils.rs: which directories hold the configuration. The
-- warnings about two directories are output, and left out.
pub mod Stable
use soroban_tools.Prelude.{
  String, Bool, true, false, Option, none, some, List, [], ◌∷◌, ◌<>◌, if◌then◌else◌,
}
use soroban_tools.Prelude.Result.{Result, ok, err, ok_or, ◌>>=◌}
use soroban_tools.Config.Paths.{FilePath, join_path}
use soroban_tools.Config.Disk.{Host, Disk, exists}
use soroban_tools.Config.Errors.{Error, home_dir_not_found, current_dir_not_found}

-- `locator::Args`
pub record Args : Type 0 where
  pub global : Bool
  pub config_dir : Option FilePath

pub data Location : Type 0 where
  local : FilePath → Location
  global : FilePath → Location

abbrev pub path_of : Location → FilePath
path_of (local p) = p
path_of (global p) = p

-- `Location::wrap`
abbrev pub wrap : Location → FilePath → Location
wrap (local q) p = local p
wrap (global q) p = global p

-- `set_pwd`
abbrev pub set_pwd : Args → FilePath → Args
set_pwd args pwd = record { global = args.global; config_dir = some pwd }

-- One round of the loop of `find_config_dir`.
unfoldable pub config_dir_in : FilePath → Disk → Option FilePath
unfolding exists
config_dir_in pwd d =
    if exists (".stellar" ∷ pwd) d
    then some (".stellar" ∷ pwd)
    else (if exists (".soroban" ∷ pwd) d then some (".soroban" ∷ pwd) else none)

-- `find_config_dir`: the loop goes on at the directory above.
unfoldable pub find_config_dir : FilePath → Disk → Option FilePath
unfolding config_dir_in
find_config_dir [] d = config_dir_in [] d
find_config_dir (s ∷ pwd) d = elim (config_dir_in (s ∷ pwd) d) [
  | some found ↦ some found
  | none ↦ find_config_dir pwd d
]

-- The directory under `XDG_CONFIG_HOME`, or under `.config` in the home directory.
abbrev pub config_home : Host → Result Error FilePath
config_home host = elim host.xdg_config_home [
  | some p ↦ ok p
  | none ↦ do home ← ok_or host.home_dir home_dir_not_found; ok (".config" ∷ home)
]

abbrev pub global_config_in : FilePath → Disk → FilePath
global_config_in config d =
    if exists ("stellar" ∷ config) d
    then "stellar" ∷ config
    else (if exists ("soroban" ∷ config) d then "soroban" ∷ config else "stellar" ∷ config)

unfoldable pub global_config_path : Host → Disk → Result Error FilePath
global_config_path host d = do config ← config_home host; ok (global_config_in config d)

unfoldable pub config_file : Host → Disk → Result Error FilePath
unfolding global_config_path
config_file host d = do dir ← global_config_path host d; ok ("config.toml" ∷ dir)

abbrev pub unwrap_or_dir : Option FilePath → FilePath → FilePath
unwrap_or_dir (some p) q = p
unwrap_or_dir none q = q

module _ (args : Args) (host : Host) where
  unfoldable pub current_dir : Result Error FilePath
  current_dir = elim args.config_dir [
    | none ↦ ok_or host.current_dir current_dir_not_found
    | some pwd ↦ ok pwd
  ]

  unfoldable pub local_config : Disk → Result Error FilePath
  unfolding current_dir find_config_dir join_path
  local_config d = do
    pwd ← current_dir
    ok (unwrap_or_dir (find_config_dir pwd d) (".stellar" ∷ pwd))

  unfoldable pub config_dir : Disk → Result Error FilePath
  unfolding global_config_path local_config
  config_dir d = if args.global then global_config_path host d else local_config d

  unfoldable pub local_and_global : Disk → Result Error (List Location)
  unfolding global_config_path local_config
  local_and_global d = do
    here ← local_config d
    home ← global_config_path host d
    ok (local here ∷ (global home ∷ []))

  -- `alias_path`
  unfoldable pub alias_path : String → Disk → Result Error FilePath
  unfolding config_dir join_path
  alias_path alias d = do
    dir ← config_dir d
    ok (join_path ("contract-ids" ∷ dir) (alias <> ".json"))
