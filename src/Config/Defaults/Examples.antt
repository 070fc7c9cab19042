-- ===== src/Config/Defaults/Examples.antt =====
-- The small machine without a configuration, and with an identity that is elsewhere.
use soroban_tools.Prelude.{String, false, none, some, List, [], ◌∷◌, ◌≡◌, refl}
use soroban_tools.Prelude.Result.{ok, err}
use soroban_tools.Config.Machine.{key_crates, crates, host, args, empty, empty-IsTree}
use soroban_tools.Config.Paths.{path_eq}
use soroban_tools.Config.Disk.{Disk, file, node, exists}
use soroban_tools.Config.Errors.{Format, io}
use soroban_tools.Config.Secrets.{secure_store}
use soroban_tools.Config.Keys.{Key, secret}
use soroban_tools.Config.Directories.{global_config_path, config_dir}
use soroban_tools.Config.KeyTypes.{identity, path}
use soroban_tools.Config.Locator.{Crates, read_identity}
use soroban_tools.Config.Defaults.{Config, write_default_network, Deleted, deleted, remove_identity}
use soroban_tools.Config.Defaults.Removal.{
  write_default_network_no_directory, remove_identity-Forgotten, Forgotten,
}

no_global : exists ("stellar" ∷ (".config" ∷ ("me" ∷ ("home" ∷ [])))) empty ≡ false
unfolding exists node
no_global = refl

abbrev config_toml : Format Config
config_toml = record { print = λ c. some "config"; parse = λ s. none }

global_dir : global_config_path host empty ≡ ok ("stellar" ∷ (".config" ∷ ("me" ∷ ("home" ∷ []))))
unfolding global_config_path node exists
global_dir = refl

write_default_network_no_directory_example :
    write_default_network host config_toml "testnet" empty ≡ (err io, empty)
write_default_network_no_directory_example =
    write_default_network_no_directory host config_toml "testnet" empty empty-IsTree
      ("stellar" ∷ (".config" ∷ ("me" ∷ ("home" ∷ [])))) global_dir no_global "config" refl

abbrev home_identity : Disk
home_identity =
    (
      ("alice.toml" ∷ ("identity" ∷ ("stellar" ∷ (".config" ∷ ("me" ∷ ("home" ∷ [])))))),
      file "secure_store:alice",
    )
    ∷ []

-- Crates whose identities are entries of the secure store.
abbrev store_crates : Crates
store_crates = record {
  keys = key_crates;
  Contract = String;
  contract_to_string = λ s. s;
  contract_from_str = λ s. some s;
  key_toml = record { print = λ k. none; parse = λ s. some (secret (secure_store s)) };
  network_toml = crates.network_toml;
  alias_json = crates.alias_json;
}

abbrev delete : String → List String → Deleted × List String
delete entry ring = (deleted, [])

reads_alice :
    read_identity store_crates args host "alice" home_identity
    ≡ ok (secret (secure_store "secure_store:alice"))
unfolding read_identity node path_eq
reads_alice = refl

here : config_dir args host home_identity ≡ ok (".stellar" ∷ ("work" ∷ []))
unfolding config_dir node path_eq
here = refl

not_here : exists (path identity (".stellar" ∷ ("work" ∷ [])) "alice") home_identity ≡ false
unfolding exists path node path_eq
not_here = refl

removes_nothing :
    remove_identity store_crates args host delete "alice" (home_identity, "alice" ∷ [])
    ≡ (ok tt, (home_identity, []))
unfolding remove_identity read_identity node path_eq exists
removes_nothing = refl

remove_identity-Forgotten_example :
    (k : Key key_crates) × (read_identity store_crates args host "alice" home_identity ≡ ok k)
    × Forgotten store_crates args host delete k ("alice" ∷ []) []
    × (exists (path identity (".stellar" ∷ ("work" ∷ [])) "alice") home_identity ≡ false)
    × (exists (path identity (".stellar" ∷ ("work" ∷ [])) "alice") home_identity ≡ false
        → read_identity store_crates args host "alice" home_identity ≡ ok k)
remove_identity-Forgotten_example =
    remove_identity-Forgotten store_crates args host delete "alice" home_identity home_identity
      ("alice" ∷ []) [] (".stellar" ∷ ("work" ∷ [])) here removes_nothing
