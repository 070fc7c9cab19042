-- ===== src/Config/Writes/Examples.antt =====
-- The writes that succeed on the small machine with an empty disk.
use soroban_tools.Prelude.{String, false, none, some, [], ◌∷◌, ◌≡◌, ◌≢◌, refl, arith, eq_iff}
use soroban_tools.Prelude.Result.{ok, is_ok}
use soroban_tools.Config.Machine.{key_crates, crates, host, args, empty, sample_network}
use soroban_tools.Config.Paths.{FilePath}
use soroban_tools.Config.Disk.{node, lookup, dir, exists}
use soroban_tools.Config.Directories.{config_dir}
use soroban_tools.Config.KeyTypes.{network, path}
use soroban_tools.Config.Locator.{Crates, AliasData, read_identity}
use soroban_tools.Config.Writes.{save_contract_id, write_network}
use soroban_tools.Config.Writes.Refinement.{file_of}
use soroban_tools.Config.Writes.Success.{
  Accepts, NoFileAbove, save_contract_id_succeeds, write_network_succeeds,
}

-- Crates that print every map.
abbrev printing : Crates
printing = record {
  keys = key_crates;
  Contract = String;
  contract_to_string = λ s. s;
  contract_from_str = λ s. some s;
  key_toml = record { print = λ k. none; parse = λ s. none };
  network_toml = crates.network_toml;
  alias_json = record { print = λ (m : AliasData). some "ids"; parse = λ s. none };
}

host-Accepts : Accepts host
host-Accepts = record { writable = λ p. refl; whole = λ p s. refl }

abbrev here : FilePath
here = ".stellar" ∷ ("work" ∷ [])

empty-NoFileAbove : (p : FilePath) → NoFileAbove p empty
unfolding node lookup
empty-NoFileAbove p [] text above h = ground (arith, h)
empty-NoFileAbove p (s ∷ q) text above h = ground (arith, h)

no_app_file : node (file_of "app" here) empty ≢ some dir
unfolding node lookup
no_app_file h = ground (arith, h)

no_network_file : node (path network here "here") empty ≢ some dir
unfolding node lookup path
no_network_file h = ground (arith, h)

config_is_here : config_dir args host empty ≡ ok here
unfolding config_dir node exists
config_is_here = refl

no_app : is_ok (read_identity printing args host "app" empty) ≡ false
unfolding read_identity node
no_app = refl

save_contract_id_succeeds_example :
    (save_contract_id printing args host "net" "CID" "app" empty).0 ≡ ok tt
save_contract_id_succeeds_example =
    save_contract_id_succeeds printing args host host-Accepts "net" "CID" "app" empty here
      (refl, refl) config_is_here no_app (λ m h. ground (arith, h))
      (empty-NoFileAbove ("contract-ids" ∷ here)) no_app_file

write_network_succeeds_example :
    (write_network crates args host "here" sample_network empty).0 ≡ ok (path network here "here")
write_network_succeeds_example =
    write_network_succeeds crates args host host-Accepts "here" sample_network "http://here" empty
      here
      (record { component = (refl, refl); not_parent = λ h. ground (arith, eq_iff "here" "..", h) })
      config_is_here refl (empty-NoFileAbove ("network" ∷ here)) no_network_file
