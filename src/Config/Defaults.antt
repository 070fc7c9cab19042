-- ===== src/Config/Defaults.antt =====
-- `Config` of cmd/soroban-cli/src/config/mod.rs, `UpgradeCheck` of config/upgrade_check.rs, and the
-- operations of locator.rs that touch them or the keyring.
pub mod Removal
mod Examples
use soroban_tools.Prelude.{String, Bool, true, false, Option, none, some, if◌then◌else◌, ◌∷◌}
use soroban_tools.Prelude.Result.{Result, ok, err, ok_or}
use soroban_tools.Config.Paths.{FilePath}
use soroban_tools.Config.Disk.{Host, Disk, exists, read_to_string, open_truncated, write_all, write}
use soroban_tools.Config.Errors.{
  Error, Io, ◌>>=◌, pure, fail, reads, try, Format, file_read, toml, toml_serialize, io, json,
  keyring, config_serialization, upgrade_check_read_failed, upgrade_check_write_failed,
}
use soroban_tools.Config.Secrets.{Secret, secure_store}
use soroban_tools.Config.Keys.{Key, secret}
use soroban_tools.Config.Directories.{Args, config_dir, config_file, global_config_path}
use soroban_tools.Config.KeyTypes.{identity}
use soroban_tools.Config.Locator.{Crates, read_identity}
use soroban_tools.Config.Writes.{remove_key_type, ensure_directory}

pub record Config : Type 0 where
  pub network : Option String
  pub identity : Option String

abbrev pub set_network : Config → String → Config
set_network config s = record { network = some s; identity = config.identity }

abbrev pub set_identity : Config → String → Config
set_identity config s = record { network = config.network; identity = some s }

module _ (host : Host) where
  abbrev pub parsed_config : Format Config → FilePath → Option String → Result Error Config
  parsed_config format p none = err (file_read p)
  parsed_config format p (some text) = ok_or (format.parse text) toml

  abbrev pub config_at : Format Config → FilePath → Disk → Result Error Config
  config_at format p d =
      if exists p d
      then parsed_config format p (read_to_string host p d)
      else ok (record { network = none; identity = none })

  -- `Config::new`
  unfoldable pub new_config : Format Config → Io Config
  unfolding config_file exists read_to_string
  new_config format = do p ← reads (config_file host); reads (config_at format p)

  -- `Config::save`
  unfoldable pub save_config : Format Config → Config → Io (Unit {0})
  unfolding config_file open_truncated write_all
  save_config format config = do
    text ← reads (λ d. ok_or (format.print config) toml_serialize)
    p ← reads (config_file host)
    opened ← try (open_truncated host p) io
    try (write_all host p text) io

  unfoldable pub write_default_network : Format Config → String → Io (Unit {0})
  unfolding new_config save_config
  write_default_network format name = do
    config ← new_config format
    save_config format (set_network config name)

  unfoldable pub write_default_identity : Format Config → String → Io (Unit {0})
  unfolding new_config save_config
  write_default_identity format name = do
    config ← new_config format
    save_config format (set_identity config name)

  abbrev pub parsed_check : {T : Type 0} → Format T → FilePath → Option String → Result Error T
  parsed_check format p none = err (upgrade_check_read_failed p)
  parsed_check format p (some text) = ok_or (format.parse text) json

  abbrev pub check_at : {T : Type 0} → Format T → T → FilePath → Disk → Result Error T
  check_at format default p d =
      if exists p d then parsed_check format p (read_to_string host p d) else ok default

  -- `UpgradeCheck::load` and `save`, of the state and its default.
  unfoldable pub load_upgrade_check : {T : Type 0} → Format T → T → Io T
  unfolding global_config_path exists read_to_string
  load_upgrade_check format default = do
    dir ← reads (global_config_path host)
    reads (check_at format default ("upgrade_check.json" ∷ dir))

  unfoldable pub save_upgrade_check : {T : Type 0} → Format T → T → Io (Unit {0})
  unfolding global_config_path ensure_directory write
  save_upgrade_check format check = do
    dir ← reads (global_config_path host)
    p ← ensure_directory host ("upgrade_check.json" ∷ dir)
    text ← reads (λ d. ok_or (format.print check) config_serialization)
    try (write host p text) (upgrade_check_write_failed p)

-- What `delete_credential` of the crate `keyring` answers.
pub data Deleted : Type 0 where
  deleted : Deleted
  no_entry : Deleted
  failed : Deleted

module _ (C : Crates) (args : Args) (host : Host) {Ring : Type 0}
    (delete_credential : C.keys.Entry → Ring → Deleted × Ring) where
  abbrev pub remove_identity_file : String → Disk × Ring → Result Error (Unit {0}) × (Disk × Ring)
  remove_identity_file name (d, ring) =
      let removed =
        ((reads (config_dir args host)) >>= λ (dir : FilePath).
        remove_key_type host identity name dir)
          d in
      (removed.0, (removed.1, ring))

  abbrev pub after_deletion :
      String → Disk → Deleted × Ring → Result Error (Unit {0}) × (Disk × Ring)
  after_deletion name d (deleted, ring) = remove_identity_file name (d, ring)
  after_deletion name d (no_entry, ring) = remove_identity_file name (d, ring)
  after_deletion name d (failed, ring) = (err keyring, (d, ring))

  abbrev pub remove_entry :
      String → Disk × Ring → Option C.keys.Entry → Result Error (Unit {0}) × (Disk × Ring)
  remove_entry name (d, ring) none = (err keyring, (d, ring))
  remove_entry name (d, ring) (some entry) = after_deletion name d (delete_credential entry ring)

  abbrev pub remove_read :
      String → Disk × Ring → Result Error (Key C.keys) → Result Error (Unit {0}) × (Disk × Ring)
  remove_read name world (err e) = (err e, world)
  remove_read name world (ok (secret (secure_store entry_name))) =
      remove_entry name world (C.keys.keyring_entry entry_name)
  remove_read name world (ok k) = remove_identity_file name world

  -- `remove_identity`: a key in the secure store is deleted there first.
  unfoldable pub remove_identity : String → Disk × Ring → Result Error (Unit {0}) × (Disk × Ring)
  unfolding read_identity config_dir remove_key_type
  remove_identity name (d, ring) = remove_read name (d, ring) (read_identity C args host name d)
