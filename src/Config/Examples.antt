-- ===== src/Config/Examples.antt =====
-- What the small machine's configuration holds after each operation, and the laws at it.
use soroban_tools.Config.Machine.{
  key_crates, crates, host, args, empty, sample_network, empty-IsTree, crates-PrintsMaps,
  network_toml-ReadsBack,
}
use soroban_tools.Prelude.{
  String, none, some, [], ◌∷◌, ◌≡◌, ◌≢◌, refl, arith, str_eq, if◌then◌else◌, eq_iff, ◌&&◌,
}
use soroban_tools.Prelude.Result.{ok, err}
use soroban_tools.Config.Paths.{FilePath, path_eq}
use soroban_tools.Config.Paths.Names.{IsFileName}
use soroban_tools.Config.Disk.{Disk, dir, node, lookup, put, is_dir}
use soroban_tools.Config.Disk.Growth.{IsTree}
use soroban_tools.Config.Errors.{parse_error}
use soroban_tools.Config.Secrets.{seed_phrase}
use soroban_tools.Config.Keys
use soroban_tools.Config.Keys.{Key, secret, public_key, muxed_account}
use soroban_tools.Config.Directories.{config_dir}
use soroban_tools.Config.KeyTypes.{identity, path, read}
use soroban_tools.Config.Locator.{get_contract_id, resolve_contract_id, read_network}
use soroban_tools.Config.Writes.{
  save_contract_id, remove_contract_id, write_network, write_identity, write_key,
}
use soroban_tools.Config.Writes.Refinement.{
  IsAlias, file_of, stored_id, save_contract_id-refines, remove_contract_id-refines,
}
use soroban_tools.Config.Writes.RoundTrip.{get_contract_id-save_contract_id}
use soroban_tools.Config.Writes.Invariant.{operations-Keeps}
use soroban_tools.Config.Writes.Separate.{contract_ids-read}
use soroban_tools.Config.KeyNames.{key_name_from_str, key_name_from_str-path}
use soroban_tools.Config.Resolve.{NetworkArgs, get_network}
use soroban_tools.Config.Writes.ReadBack.{read_network-write_network}

-- What the disk holds after an id was saved under the alias `app`.
abbrev saved : Disk
saved = (save_contract_id crates args host "net" "CID" "app" empty).1

saves : save_contract_id crates args host "net" "CID" "app" empty ≡ (ok tt, saved)
unfolding save_contract_id node put path_eq is_dir
saves = refl

app-IsAlias : IsAlias "app"
app-IsAlias = (refl, refl)

save_contract_id-refines_example : stored_id crates args host "app" "net" saved ≡ (
    if str_eq "app" "app" && str_eq "net" "net"
    then some "CID"
    else stored_id crates args host "app" "net" empty)
save_contract_id-refines_example =
    save_contract_id-refines crates args host crates-PrintsMaps (λ p. refl) empty empty-IsTree "net"
      "CID" "app" app-IsAlias saved saves "app" "net" app-IsAlias

get_contract_id-save_contract_id_example :
    (get_contract_id crates args host "app" "net" saved ≡ ok (some "CID"))
    × (resolve_contract_id crates args host "app" "net" saved ≡ ok "CID")
get_contract_id-save_contract_id_example =
    get_contract_id-save_contract_id crates args host (λ p. refl) refl crates-PrintsMaps "net" "CID"
      "app" refl app-IsAlias empty empty-IsTree saved saves

local_dir : config_dir args host empty ≡ ok (".stellar" ∷ ("work" ∷ []))
unfolding config_dir node
local_dir = refl

no_directory : node (file_of "app" (".stellar" ∷ ("work" ∷ []))) empty ≢ some dir
unfolding node lookup
no_directory h = ground (arith, h)

-- The id that was saved is removed again.
abbrev removed : Disk
removed = (remove_contract_id crates args host "net" "app" saved).1

removes : remove_contract_id crates args host "net" "app" saved ≡ (ok tt, removed)
unfolding remove_contract_id save_contract_id node put path_eq is_dir
removes = refl

saved-IsTree : IsTree saved
saved-IsTree =
    let k =
      operations-Keeps crates args host "app" "net" empty empty-IsTree
        (secret (seed_phrase "words")) (seed_phrase "words") sample_network "CID" in
    k.1.1.1.1.0

remove_contract_id-refines_example : stored_id crates args host "app" "net" removed ≡ (
    if str_eq "app" "app" && str_eq "net" "net"
    then none
    else stored_id crates args host "app" "net" saved)
remove_contract_id-refines_example =
    remove_contract_id-refines crates args host crates-PrintsMaps (λ p. refl) saved saved-IsTree
      "net" "app" app-IsAlias removed removes "app" "net" app-IsAlias

abbrev with_network : Disk
with_network = (write_network crates args host "testnet" sample_network empty).1

abbrev network_file : FilePath
network_file = "testnet.toml" ∷ ("network" ∷ (".stellar" ∷ ("work" ∷ [])))

writes_network :
    write_network crates args host "testnet" sample_network empty ≡ (ok network_file, with_network)
unfolding write_network node put path_eq is_dir
writes_network = refl

testnet-IsFileName : IsFileName "testnet"
testnet-IsFileName = record {
  component = (refl, refl);
  not_parent = λ h. ground (arith, eq_iff "testnet" "..", h);
}

-- The name of a default network.
read_network-write_network_example :
    read_network crates args host "testnet" with_network ≡ ok sample_network
read_network-write_network_example =
    read_network-write_network crates args refl host (".config" ∷ ("me" ∷ ("home" ∷ []))) refl
      (λ p. refl) network_toml-ReadsBack "testnet" testnet-IsFileName sample_network empty
      empty-IsTree with_network network_file writes_network

abbrev with_identity : Disk
with_identity = (write_identity crates args host "alice" (seed_phrase "words") empty).1

abbrev identity_file : FilePath
identity_file = "alice.toml" ∷ ("identity" ∷ (".stellar" ∷ ("work" ∷ [])))

writes_identity :
    write_identity crates args host "alice" (seed_phrase "words") empty
    ≡ (ok identity_file, with_identity)
unfolding write_identity node put path_eq is_dir write_key
writes_identity = refl

alice-IsFileName : IsFileName "alice"
alice-IsFileName = record {
  component = (refl, refl);
  not_parent = λ h. ground (arith, eq_iff "alice" "..", h);
}

alice_no_key : Keys.from_str key_crates "alice" ≡ err parse_error
unfolding Keys.from_str
alice_no_key = refl

contract_ids-read_example :
    (read host crates.key_toml identity "alice"
        (".stellar" ∷ ("work" ∷ []))
        ((save_contract_id crates args host "net" "CID" "app" with_identity).1)
      ≡ read host crates.key_toml identity "alice" (".stellar" ∷ ("work" ∷ [])) with_identity)
    × (read host crates.key_toml identity "alice"
          (".stellar" ∷ ("work" ∷ []))
          ((remove_contract_id crates args host "net" "app" with_identity).1)
        ≡ read host crates.key_toml identity "alice" (".stellar" ∷ ("work" ∷ [])) with_identity)
contract_ids-read_example =
    contract_ids-read crates args host crates.key_toml identity "alice" alice-IsFileName
      (".stellar" ∷ ("work" ∷ [])) "app" app-IsAlias "net" "CID" with_identity

abbrev network_args : NetworkArgs
network_args = record {
  rpc_url = none;
  rpc_headers = [];
  network_passphrase = none;
  network = some "testnet";
}

gets_network : get_network crates args host network_args with_network ≡ ok sample_network
unfolding get_network write_network node put path_eq is_dir
gets_network = refl

accepts_alice : key_name_from_str "alice" ≡ ok "alice"
unfolding key_name_from_str
accepts_alice = refl

-- The empty name is accepted too, and its file lies beside the directory of identities.
accepts_empty :
    (key_name_from_str "" ≡ ok "")
    × (path identity (".stellar" ∷ []) "" ≡ ("identity.toml" ∷ (".stellar" ∷ [])))
unfolding key_name_from_str path
accepts_empty = (refl, refl)

key_name_from_str-path_example :
    IsFileName "alice"
    × ((path identity (".stellar" ∷ []) "alice" ≡ ("alice.toml" ∷ ("identity" ∷ (".stellar" ∷ []))))
        × ((r : String)
            → r ≢ ""
            → key_name_from_str r ≡ ok r
            → path identity (".stellar" ∷ []) r ≡ path identity (".stellar" ∷ []) "alice"
            → r ≡ "alice"))
key_name_from_str-path_example =
    key_name_from_str-path identity (".stellar" ∷ []) "alice" "alice"
      (λ h. ground (arith, eq_iff "alice" "", h)) accepts_alice
