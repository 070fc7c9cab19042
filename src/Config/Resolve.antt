-- ===== src/Config/Resolve.antt =====
-- cmd/soroban-cli/src/config/{address,alias,sc_address}.rs, network.rs and mod.rs: how the arguments
-- of a command name an account, a contract, an address and a network.
use soroban_tools.Prelude.{ℕ, String, Option, none, some, List}
use soroban_tools.Prelude.Result.{Result, ok, err, ok_or, map_err, ◌>>=◌}
use soroban_tools.Config.Disk.{Host, Disk}
use soroban_tools.Config.Errors.{Error, KeyError, contract_not_found}
use soroban_tools.Config.Secrets.{Secret}
use soroban_tools.Config.Keys.{
  Key, MuxedAccount, ed25519, muxed_ed25519, secret_of_key, muxed_account_of,
}
use soroban_tools.Config.Networks.{Network}
use soroban_tools.Config.Directories.{Args}
use soroban_tools.Config.Locator.{Crates, read_key, read_network, get_contract_id}

-- `network::Error`
pub data NetworkError : Type 0 where
  config : Error → NetworkError
  network_missing : NetworkError
  missing_network_passphrase : NetworkError
  missing_rpc_url : NetworkError

-- `address::Error` and `sc_address::Error`
pub data AddressError (C : Crates) : Type 0 where
  locator : Error → AddressError C
  key : KeyError → AddressError C
  cannot_sign : MuxedAccount C.keys → AddressError C
  account_alias_not_found : String → AddressError C

-- `network::Args`
pub record NetworkArgs : Type 0 where
  pub rpc_url : Option String
  pub rpc_headers : List (String × String)
  pub network_passphrase : Option String
  pub network : Option String

pub data UnresolvedContract (C : Crates) : Type 0 where
  resolved : C.Contract → UnresolvedContract C
  alias : String → UnresolvedContract C

pub data UnresolvedMuxedAccount (C : Crates) : Type 0 where
  resolved_account : MuxedAccount C.keys → UnresolvedMuxedAccount C
  alias_or_secret : String → UnresolvedMuxedAccount C

-- `xdr::ScAddress`
pub data ScAddress (C : Crates) : Type 0 where
  contract_address : C.Contract → ScAddress C
  account_address : C.keys.Key32 → ScAddress C

pub data UnresolvedScAddress (C : Crates) : Type 0 where
  resolved_address : ScAddress C → UnresolvedScAddress C
  alias_address : String → UnresolvedScAddress C

module _ (C : Crates) (args : Args) (host : Host) where
  -- The match of `network::Args::get`, on the name, the URL and the passphrase.
  abbrev pub get_of :
      List (String × String)
      → Option String
      → Option String
      → Option String
      → Disk
      → Result NetworkError Network
  get_of headers none none none d = err network_missing
  get_of headers name (some url) none d = err missing_network_passphrase
  get_of headers name none (some passphrase) d = err missing_rpc_url
  get_of headers (some name) none none d = map_err config (read_network C args host name d)
  get_of headers name (some url) (some passphrase) d =
      ok (record { rpc_url = url; rpc_headers = headers; network_passphrase = passphrase })

  unfoldable pub get_network : NetworkArgs → Disk → Result NetworkError Network
  unfolding read_network
  get_network network d =
      get_of network.rpc_headers network.network network.rpc_url network.network_passphrase d

  -- `UnresolvedContract::from_str`
  unfoldable pub contract_from_str : String → UnresolvedContract C
  contract_from_str value = elim (C.contract_from_str value) [
    | some contract ↦ resolved contract
    | none ↦ alias value
  ]

  unfoldable pub resolve_alias : String → String → Disk → Result Error C.Contract
  unfolding get_contract_id
  resolve_alias name network_passphrase d = do
    found ← get_contract_id C args host name network_passphrase d
    ok_or found (contract_not_found name)

  -- `UnresolvedContract::resolve_contract_id`
  unfoldable pub resolve_contract : UnresolvedContract C → String → Disk → Result Error C.Contract
  unfolding resolve_alias
  resolve_contract (resolved contract) network_passphrase d = ok contract
  resolve_contract (alias name) network_passphrase d = resolve_alias name network_passphrase d

  unfoldable pub resolve_muxed_account :
      UnresolvedMuxedAccount C → Option ℕ → Disk → Result (AddressError C) (MuxedAccount C.keys)
  unfolding read_key muxed_account_of
  resolve_muxed_account (resolved_account account) hd_path d = ok account
  resolve_muxed_account (alias_or_secret name) hd_path d = do
    k ← map_err locator (read_key C args host name d)
    map_err key (muxed_account_of C.keys k hd_path)

  unfoldable pub resolve_secret : UnresolvedMuxedAccount C → Disk → Result (AddressError C) Secret
  unfolding read_key
  resolve_secret (resolved_account account) d = err (cannot_sign account)
  resolve_secret (alias_or_secret name) d = do
    k ← map_err locator (read_key C args host name d)
    map_err key (secret_of_key C.keys k)

  -- `MuxedAccount::account_id`
  abbrev pub account_id : MuxedAccount C.keys → ScAddress C
  account_id (ed25519 k) = account_address k
  account_id (muxed_ed25519 k id) = account_address k

  abbrev pub address_among :
      String
      → Result Error C.Contract
      → Result Error (Key C.keys)
      → Result (AddressError C) (ScAddress C)
  address_among name (ok contract) found = ok (contract_address contract)
  address_among name (err e) (ok k) = do
    account ← map_err key (muxed_account_of C.keys k none)
    ok (account_id account)
  address_among name (err e) (err f) = err (account_alias_not_found name)

  -- `UnresolvedScAddress::resolve`; its warning is output.
  unfoldable pub resolve_address :
      UnresolvedScAddress C → String → Disk → Result (AddressError C) (ScAddress C)
  unfolding resolve_alias read_key muxed_account_of
  resolve_address (resolved_address address) network_passphrase d = ok address
  resolve_address (alias_address name) network_passphrase d =
      address_among name (resolve_alias name network_passphrase d) (read_key C args host name d)
