-- ===== src/Config/Meaning.antt =====
-- What the names in a command's arguments stand for, before and after the configuration changes.
use soroban_tools.Prelude.{String, false, Option, none, some, List, ◌≡◌, refl, arith, ◌⊎◌, inl, inr}
use soroban_tools.Prelude.Result.{ok, err}
use soroban_tools.Config.Paths.{FilePath}
use soroban_tools.Config.Paths.Names.{IsFileName}
use soroban_tools.Config.Disk.{Host, Disk}
use soroban_tools.Config.Disk.Growth.{IsTree}
use soroban_tools.Config.Errors.{KeyError}
use soroban_tools.Config.Secrets.{Secret}
use soroban_tools.Config.Keys
use soroban_tools.Config.Keys.{Key, secret}
use soroban_tools.Config.Networks.{Network}
use soroban_tools.Config.Directories.{Args, config_home}
use soroban_tools.Config.Locator.{Crates, read_key, read_network}
use soroban_tools.Config.Writes.{write_identity, save_contract_id}
use soroban_tools.Config.Writes.Aliases.{PrintsMaps}
use soroban_tools.Config.Writes.Refinement.{IsAlias}
use soroban_tools.Config.Writes.ReadBack.{ReadsBack, read_identity-write_identity}
use soroban_tools.Config.Writes.RoundTrip.{get_contract_id-save_contract_id}
use soroban_tools.Config.Resolve.{
  NetworkArgs, get_network, get_of, alias_or_secret, resolve_secret, alias_address,
  contract_address, resolve_address, resolve_alias,
}

module _ (C : Crates) (args : Args) (host : Host) where
  get_of-origin :
      (headers : List (String × String)) (name url passphrase : Option String) (d : Disk)
      {n : Network}
      → get_of C args host headers name url passphrase d ≡ ok n
      → (((url ≡ some n.rpc_url) × (passphrase ≡ some n.network_passphrase))
          × (headers ≡ n.rpc_headers))
        ⊎ ((s : String) × (((url ≡ none) × (passphrase ≡ none))
              × ((name ≡ some s) × (read_network C args host s d ≡ ok n))))
  get_of-origin headers none none none d h = absurd (cc)
  get_of-origin headers none (some url) none d h = absurd (cc)
  get_of-origin headers (some name) (some url) none d h = absurd (cc)
  get_of-origin headers none none (some passphrase) d h = absurd (cc)
  get_of-origin headers (some name) none (some passphrase) d h = absurd (cc)
  get_of-origin headers (some name) none none d h =
      inr (name, ((refl, refl), (refl, ground (arith, h))))
  get_of-origin headers none (some url) (some passphrase) d h = inl (ground (arith, h))
  get_of-origin headers (some name) (some url) (some passphrase) d h = inl (ground (arith, h))

  -- A command's network has the URL, passphrase and headers of the arguments, or, when neither URL
  -- nor passphrase is given, is the one configured under the name given.
  pub get_network-origin :
      (network : NetworkArgs) (d : Disk) (n : Network)
      → get_network C args host network d ≡ ok n
      → (((network.rpc_url ≡ some n.rpc_url)
            × (network.network_passphrase ≡ some n.network_passphrase))
          × (network.rpc_headers ≡ n.rpc_headers))
        ⊎ ((s : String) × (((network.rpc_url ≡ none) × (network.network_passphrase ≡ none))
              × ((network.network ≡ some s) × (read_network C args host s d ≡ ok n))))
  unfolding get_network
  get_network-origin network d n h =
      get_of-origin network.rpc_headers network.network network.rpc_url network.network_passphrase d
        h

  module _ (readable : (p : FilePath) → host.unreadable p ≡ false) where
    -- After a contract id was saved with success under an alias, an address given by the alias is
    -- that contract, also where a key has the same name.
    pub resolve_address-save_contract_id :
        C.alias_json.parse "" ≡ none
        → PrintsMaps C args host
        → (network_passphrase : String) (id : C.Contract) (alias : String)
        → C.contract_from_str (C.contract_to_string id) ≡ some id
        → IsAlias alias
        → (d : Disk) → IsTree d
        → (e : Disk) → save_contract_id C args host network_passphrase id alias d ≡ (ok tt, e)
        → resolve_address C args host (alias_address alias) network_passphrase e
          ≡ ok (contract_address id)
    unfolding resolve_address resolve_alias
    resolve_address-save_contract_id no_json laws network_passphrase id alias law plain d tree e h =
        let found =
          get_contract_id-save_contract_id C args host readable no_json laws network_passphrase id
            alias law plain d tree e h in
        ground (arith, found)

    -- After a secret was written with success to the local configuration, its name as the source
    -- account resolves to that secret, where the name is not itself a key.
    pub resolve_secret-write_identity :
        args.global ≡ false
        → (home : FilePath) → config_home host ≡ ok home
        → ReadsBack C.key_toml
        → (name : String) → IsFileName name
        → (x : KeyError) → Keys.from_str C.keys name ≡ err x
        → (s : Secret) (d : Disk) → IsTree d
        → (e : Disk) (p : FilePath) → write_identity C args host name s d ≡ (ok p, e)
        → resolve_secret C args host (alias_or_secret name) e ≡ ok s
    unfolding resolve_secret read_key
    resolve_secret-write_identity is_local home has_home law name plain x no_key s d tree e p h =
        let found =
          read_identity-write_identity C args is_local host home has_home readable law name plain s
            d tree e p h in
        ground (arith, found, no_key)
