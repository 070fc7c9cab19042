-- ===== src/Config/Writes.antt =====
-- The operations of cmd/soroban-cli/src/config/locator.rs and config/mod.rs that change the disk.
pub mod Files
pub mod ReadBack
pub mod Aliases
pub mod Refinement
pub mod RoundTrip
pub mod Invariant
pub mod Separate
pub mod Success
mod Examples
use soroban_tools.Prelude.{String, Bool, true, false, Option, none, some, if◌then◌else◌}
use soroban_tools.Prelude.Result.{Result, ok, err, ok_or, is_ok}
use soroban_tools.Config.Paths.{FilePath, parent}
use soroban_tools.Config.Disk.{
  Host, Disk, exists, is_file, read_to_string, create_dir_all, open_truncated, write_all, write,
  remove_file,
}
use soroban_tools.Config.Errors.{
  Error, Io, ◌>>=◌, pure, fail, reads, try, Format, dir_creation_failed, home_dir_not_found,
  config_serialization, id_creation_failed, cannot_access_config_dir, io, json, toml, file_read,
  toml_serialize, cannot_access_alias_config_file, config_removal,
  contract_alias_cannot_overlap_with_key, key_cannot_overlap_with_contract_alias,
}
use soroban_tools.Config.Secrets.{Secret}
use soroban_tools.Config.Keys.{Key, secret, public_key}
use soroban_tools.Config.Networks.{Network, insert, remove}
use soroban_tools.Config.Directories.{Args, config_dir, alias_path, config_file}
use soroban_tools.Config.KeyTypes.{KeyType, identity, network, path, key_type_name}
use soroban_tools.Config.Locator.{
  Crates, AliasData, or_default, text_or_default, read_identity, load_contract_from_alias,
}

module _ (host : Host) where
  -- `ensure_directory` at a parent.
  abbrev pub ensure_parent : FilePath → Option FilePath → Io FilePath
  ensure_parent p none = fail home_dir_not_found
  ensure_parent p (some above) = do
    made ← try (create_dir_all host above) (dir_creation_failed above)
    pure p

  unfoldable pub ensure_directory : FilePath → Io FilePath
  unfolding create_dir_all
  ensure_directory dir = ensure_parent dir (parent dir)

  abbrev pub write_at : {T : Type 0} → Format T → FilePath → T → Io FilePath
  write_at format p value = do
    filepath ← ensure_directory p
    text ← reads (λ d. ok_or (format.print value) config_serialization)
    written ← try (write host filepath text) (id_creation_failed filepath)
    pure filepath

  -- `KeyType::write`
  unfoldable pub write_key_type :
      {T : Type 0} → Format T → KeyType → String → T → FilePath → Io FilePath
  unfolding path ensure_directory write
  write_key_type format kt key value pwd = write_at format (path kt pwd key) value

  -- `KeyType::remove`
  unfoldable pub remove_key_type : KeyType → String → FilePath → Io (Unit {0})
  unfolding path exists remove_file
  remove_key_type kt key pwd d =
      if exists (path kt pwd key) d
      then try (remove_file host (path kt pwd key)) (config_removal (key_type_name kt) key) d
      else pure tt d

module _ (C : Crates) (args : Args) (host : Host) where
  unfoldable pub write_key : String → Key C.keys → Io FilePath
  unfolding config_dir write_key_type
  write_key name key = do
    dir ← reads (config_dir args host)
    write_key_type host C.key_toml identity name key dir

  abbrev pub write_public_key : String → C.keys.Key32 → Io FilePath
  unfolding write_key
  write_public_key name k = write_key name (public_key k)

  -- Whether the alias has a file that is read.
  abbrev pub has_alias : Result Error (Option AliasData) → Bool
  has_alias (ok (some found)) = true
  has_alias (ok none) = false
  has_alias (err e) = false

  unfoldable pub write_identity : String → Secret → Io FilePath
  unfolding load_contract_from_alias config_dir write_key_type
  write_identity name s d =
      if has_alias (load_contract_from_alias C args host name d)
      then fail (key_cannot_overlap_with_contract_alias name) d
      else write_key name (secret s) d

  unfoldable pub write_network : String → Network → Io FilePath
  unfolding config_dir write_key_type
  write_network name n = do
    dir ← reads (config_dir args host)
    write_key_type host C.network_toml network name n dir

  unfoldable pub remove_network : String → Io (Unit {0})
  unfolding config_dir remove_key_type
  remove_network name = do dir ← reads (config_dir args host); remove_key_type host network name dir

  -- What stands at the alias's path is replaced by what `change` makes of it.
  unfoldable pub rewrite_alias : FilePath → (AliasData → AliasData) → Io (Unit {0})
  unfolding read_to_string open_truncated write_all
  rewrite_alias p change = do
    content ← reads (λ d. ok (text_or_default (read_to_string host p d)))
    opened ← try (open_truncated host p) io
    text ←
        reads
          (λ d. ok_or (C.alias_json.print (change (or_default (C.alias_json.parse content)))) json)
    try (write_all host p text) io

  abbrev pub with_id : String → String → AliasData → AliasData
  with_id network_passphrase id found = record { ids = insert network_passphrase id found.ids }

  abbrev pub without_id : String → AliasData → AliasData
  without_id network_passphrase found = record { ids = remove network_passphrase found.ids }

  abbrev pub save_at : FilePath → String → C.Contract → Io (Unit {0})
  save_at p network_passphrase contract_id = do
    dir ← reads (λ d. ok_or (parent p) cannot_access_config_dir)
    made ← try (create_dir_all host dir) cannot_access_config_dir
    rewrite_alias p (with_id network_passphrase (C.contract_to_string contract_id))

  abbrev pub save_under : String → String → C.Contract → Io (Unit {0})
  save_under network_passphrase alias contract_id = do
    p ← reads (alias_path args host alias)
    save_at p network_passphrase contract_id

  unfoldable pub save_contract_id : String → C.Contract → String → Io (Unit {0})
  unfolding read_identity alias_path create_dir_all rewrite_alias insert
  save_contract_id network_passphrase contract_id alias d =
      if is_ok (read_identity C args host alias d)
      then fail (contract_alias_cannot_overlap_with_key alias) d
      else save_under network_passphrase alias contract_id d

  abbrev pub remove_at : FilePath → String → Io (Unit {0})
  remove_at p network_passphrase d =
      if is_file p d
      then rewrite_alias p (without_id network_passphrase) d
      else fail cannot_access_alias_config_file d

  unfoldable pub remove_contract_id : String → String → Io (Unit {0})
  unfolding alias_path is_file rewrite_alias remove
  remove_contract_id network_passphrase alias = do
    p ← reads (alias_path args host alias)
    remove_at p network_passphrase
