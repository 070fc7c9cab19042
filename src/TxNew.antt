-- ===== src/TxNew.antt =====
-- cmd/soroban-cli/src/commands/tx/new: the operations whose flags are or-ed together. The resolving
-- of accounts and assets is a parameter, and the values of the flags are those of the protocol.
pub mod Flags
mod Examples
use Prim.Native.Nat.{bit_or}
use soroban_tools.Prelude.{ℕ, Bool, Option, none, some, if◌then◌else◌}
use soroban_tools.Prelude.Result.{Result, ok, err, ◌>>=◌}

-- `xdr::TrustLineFlags`
abbrev pub authorized_flag : ℕ
authorized_flag = 1

abbrev pub authorized_to_maintain_liabilities_flag : ℕ
authorized_to_maintain_liabilities_flag = 2

abbrev pub trustline_clawback_enabled_flag : ℕ
trustline_clawback_enabled_flag = 4

-- `xdr::AccountFlags`
abbrev pub required_flag : ℕ
required_flag = 1

abbrev pub revocable_flag : ℕ
revocable_flag = 2

abbrev pub immutable_flag : ℕ
immutable_flag = 4

abbrev pub clawback_enabled_flag : ℕ
clawback_enabled_flag = 8

-- The closure `set_flag`, called if the argument is given.
abbrev pub or_flag : Bool → ℕ → ℕ → ℕ
or_flag given flag flags = if given then bit_or flags flag else flags

-- `*set_flags.get_or_insert(0) |= flag as u32`
abbrev pub insert_flag : Bool → ℕ → Option ℕ → Option ℕ
insert_flag given flag none = if given then some (bit_or 0 flag) else none
insert_flag given flag (some flags) = if given then some (bit_or flags flag) else some flags

pub record TrustlineArgs (Account Asset : Type 0) : Type 0 where
  pub trustor : Account
  pub asset : Asset
  pub set_authorize : Bool
  pub set_authorize_to_maintain_liabilities : Bool
  pub set_trustline_clawback_enabled : Bool
  pub clear_authorize : Bool
  pub clear_authorize_to_maintain_liabilities : Bool
  pub clear_trustline_clawback_enabled : Bool

pub record SetTrustLineFlagsOp (AccountId XdrAsset : Type 0) : Type 0 where
  pub trustor : AccountId
  pub asset : XdrAsset
  pub clear_flags : ℕ
  pub set_flags : ℕ

module _ {Account Asset AccountId XdrAsset Error : Type 0}
    (resolve_account_id : Account → Result Error AccountId)
    (resolve_asset : Asset → Result Error XdrAsset) where
  -- `try_from` of set_trustline_flags.rs
  unfoldable pub set_trustline_flags :
      TrustlineArgs Account Asset → Result Error (SetTrustLineFlagsOp AccountId XdrAsset)
  set_trustline_flags op = do
    trustor ← resolve_account_id op.trustor
    asset ← resolve_asset op.asset
    ok (record {
      trustor = trustor;
      asset = asset;
      clear_flags = or_flag op.clear_trustline_clawback_enabled trustline_clawback_enabled_flag (
          or_flag op.clear_authorize_to_maintain_liabilities authorized_to_maintain_liabilities_flag
            (or_flag op.clear_authorize authorized_flag 0));
      set_flags = or_flag op.set_trustline_clawback_enabled trustline_clawback_enabled_flag (
          or_flag op.set_authorize_to_maintain_liabilities authorized_to_maintain_liabilities_flag
            (or_flag op.set_authorize authorized_flag 0));
    })

-- The weights are at most 255; `Domain` and `Key` are passed on.
pub record OptionsArgs (Account Domain Key : Type 0) : Type 0 where
  pub inflation_dest : Option Account
  pub master_weight : Option ℕ
  pub low_threshold : Option ℕ
  pub med_threshold : Option ℕ
  pub high_threshold : Option ℕ
  pub home_domain : Option Domain
  pub signer : Option Key
  pub signer_weight : Option ℕ
  pub set_required : Bool
  pub set_revocable : Bool
  pub set_clawback_enabled : Bool
  pub set_immutable : Bool
  pub clear_required : Bool
  pub clear_revocable : Bool
  pub clear_immutable : Bool
  pub clear_clawback_enabled : Bool

pub record SetOptionsOp (AccountId Domain Key : Type 0) : Type 0 where
  pub inflation_dest : Option AccountId
  pub clear_flags : Option ℕ
  pub set_flags : Option ℕ
  pub master_weight : Option ℕ
  pub low_threshold : Option ℕ
  pub med_threshold : Option ℕ
  pub high_threshold : Option ℕ
  pub home_domain : Option Domain
  pub signer : Option (Key × ℕ)

-- A signer needs its weight.
abbrev pub signer_of : {Key : Type 0} → Option Key → Option ℕ → Option (Key × ℕ)
signer_of (some key) (some weight) = some (key, weight)
signer_of _ _ = none

-- The flags of the arguments in the order of the source.
abbrev pub account_flags : Bool → Bool → Bool → Bool → Option ℕ
account_flags required revocable immutable clawback = insert_flag clawback clawback_enabled_flag (
    insert_flag immutable immutable_flag
      (insert_flag revocable revocable_flag (insert_flag required required_flag none)))

-- `map` and `transpose`
abbrev pub resolve_dest :
    {Account AccountId Error : Type 0}
    → (Account → Result Error AccountId)
    → Option Account
    → Result Error (Option AccountId)
resolve_dest resolve none = ok none
resolve_dest resolve (some dest) = do id ← resolve dest; ok (some id)

module _ {Account Domain Key AccountId Error : Type 0}
    (resolve_account_id : Account → Result Error AccountId) where
  -- `try_from` of set_options.rs
  unfoldable pub set_options :
      OptionsArgs Account Domain Key → Result Error (SetOptionsOp AccountId Domain Key)
  set_options cmd = do
    inflation_dest ← resolve_dest resolve_account_id cmd.inflation_dest
    ok (record {
      inflation_dest = inflation_dest;
      clear_flags =
          account_flags cmd.clear_required cmd.clear_revocable cmd.clear_immutable
            cmd.clear_clawback_enabled;
      set_flags =
          account_flags cmd.set_required cmd.set_revocable cmd.set_immutable
            cmd.set_clawback_enabled;
      master_weight = cmd.master_weight;
      low_threshold = cmd.low_threshold;
      med_threshold = cmd.med_threshold;
      high_threshold = cmd.high_threshold;
      home_domain = cmd.home_domain;
      signer = signer_of cmd.signer cmd.signer_weight;
    })
