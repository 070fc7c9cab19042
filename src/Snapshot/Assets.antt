-- ===== src/Snapshot/Assets.antt =====
-- cmd/soroban-cli/src/tx/builder/asset.rs, and of utils.rs the name in the storage of a Stellar asset
-- contract: the account that issues the asset of a contract.
use Prim.Native.Char.{code}
use soroban_tools.Prelude.{String, Bool, false, Option, none, some, str_eq, if◌then◌else◌}
use soroban_tools.Prelude.Result.{Result, ok, err, ok_or, map_err, ◌>>=◌}
use soroban_tools.Config.Disk.{Host, Disk}
use soroban_tools.Config.Keys.{MuxedAccount, ed25519, muxed_ed25519}
use soroban_tools.Config.Directories.{Args}
use soroban_tools.Config.Locator.{Crates}
use soroban_tools.Config.Networks.{split_colon}
use soroban_tools.Config.Resolve.{
  AddressError, UnresolvedMuxedAccount, resolved_account, alias_or_secret, resolve_muxed_account,
}
use soroban_tools.Spec.Types.{ScVal, ScMap, empty, entry, symbol, string, map, Text, utf8}
use soroban_tools.Snapshot.Entries.{LedgerTypes}

-- `xdr::AssetCode`
pub data AssetCode : Type 0 where
  code4 : String → AssetCode
  code12 : String → AssetCode

-- What stellar-xdr and stellar-strkey do for a snapshot.
pub record SnapshotCrates (C : Crates) (L : LedgerTypes) : Type 0 where
  pub asset_code_from_str : String → Option AssetCode
  pub muxed_account_from_str : String → Option (MuxedAccount C.keys)
  pub address_from_str : String → Option L.ScAddress
  pub account_of : C.keys.Key32 → L.AccountId
  pub contract_address : C.Contract → L.ScAddress
  pub storage_map : L.ScMap → ScMap
  pub text_to_string : Text → String

abbrev pub is_symbol : String → ScVal → Bool
is_symbol name (symbol (utf8 s)) = str_eq s name
is_symbol name _ = false

-- `iter().find(..)` by a key that is a symbol.
abbrev pub find_symbol : String → ScMap → Option ScVal
find_symbol name empty = none
find_symbol name (entry key val rest) =
    let later = find_symbol name rest in if is_symbol name key then some val else later

abbrev pub as_string : Option ScVal → Option Text
as_string (some (string name)) = some name
as_string _ = none

abbrev pub name_in : Option ScVal → Option Text
name_in (some (map m)) = as_string (find_symbol "name" m)
name_in _ = none

-- `get_name_from_stellar_asset_contract_storage`
unfoldable pub get_name_from_storage : ScMap → Option Text
get_name_from_storage storage = name_in (find_symbol "METADATA" storage)

module _ (C : Crates) where
  pub data Asset : Type 0 where
    asset : AssetCode → UnresolvedMuxedAccount C → Asset
    native : Asset

  pub data AssetError : Type 0 where
    cannot_parse_asset : String → AssetError
    xdr : AssetError
    address : AddressError C → AssetError

  module _ (L : LedgerTypes) (S : SnapshotCrates C L) where
    -- `UnresolvedMuxedAccount::from_str`
    abbrev pub unresolved_from_str : String → UnresolvedMuxedAccount C
    unresolved_from_str value = elim (S.muxed_account_from_str value) [
      | some account ↦ resolved_account account
      | none ↦ alias_or_secret value
    ]

    abbrev pub asset_of_parts : String → Option (String × String) → Result AssetError Asset
    asset_of_parts value none = err (cannot_parse_asset value)
    asset_of_parts value (some (code, issuer)) = do
      c ← ok_or (S.asset_code_from_str code) xdr
      ok (asset c (unresolved_from_str issuer))

    -- `Asset::from_str`
    unfoldable pub asset_from_str : String → Result AssetError Asset
    unfolding split_colon
    asset_from_str value =
        if str_eq value "native" then ok native else asset_of_parts value (split_colon value)

    -- `xdr::Asset`
    pub data ResolvedAsset : Type 0 where
      native_asset : ResolvedAsset
      credit_alphanum4 : String → L.AccountId → ResolvedAsset
      credit_alphanum12 : String → L.AccountId → ResolvedAsset

    -- `MuxedAccount::account_id`
    abbrev pub muxed_account_id : MuxedAccount C.keys → L.AccountId
    muxed_account_id (ed25519 k) = S.account_of k
    muxed_account_id (muxed_ed25519 k id) = S.account_of k

    abbrev pub with_issuer : AssetCode → L.AccountId → ResolvedAsset
    with_issuer (code4 asset_code) issuer = credit_alphanum4 asset_code issuer
    with_issuer (code12 asset_code) issuer = credit_alphanum12 asset_code issuer

    module _ (args : Args) (host : Host) (d : Disk) where
      -- `Asset::resolve`
      unfoldable pub resolve_asset : Asset → Result AssetError ResolvedAsset
      unfolding resolve_muxed_account
      resolve_asset native = ok native_asset
      resolve_asset (asset code issuer) = do
        account ← map_err address (resolve_muxed_account C args host issuer none d)
        ok (with_issuer code (muxed_account_id account))

      abbrev pub issuer_in : ResolvedAsset → Option L.AccountId
      issuer_in native_asset = none
      issuer_in (credit_alphanum4 code issuer) = some issuer
      issuer_in (credit_alphanum12 code issuer) = some issuer

      abbrev pub issuer_by_name : Option Text → Result AssetError (Option L.AccountId)
      issuer_by_name none = ok none
      issuer_by_name (some name) = do
        parsed ← asset_from_str (S.text_to_string name)
        resolved ← resolve_asset parsed
        ok (issuer_in resolved)

      -- The issuer that the search of a snapshot follows.
      unfoldable pub asset_issuer : L.ScMap → Result AssetError (Option L.AccountId)
      unfolding get_name_from_storage asset_from_str resolve_asset
      asset_issuer storage = issuer_by_name (get_name_from_storage (S.storage_map storage))
