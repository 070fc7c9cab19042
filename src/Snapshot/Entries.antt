-- ===== src/Snapshot/Entries.antt =====
-- cmd/soroban-cli/src/commands/snapshot/create.rs, `data_into_key`: the entries of a ledger and their
-- keys, by the parts of `xdr::LedgerEntry` that the source reads. What it does not read is one text.
use soroban_tools.Prelude.{ℕ, String, Bool, true, Option, ◌≡◌, ◌↔◌}

-- The identifiers of stellar-xdr, which the source only compares.
pub record LedgerTypes : Type 1 where
  pub AccountId : Type 0
  pub ScAddress : Type 0
  pub Hash : Type 0
  pub Asset : Type 0
  pub ScMap : Type 0
  pub OtherVal : Type 0
  pub account_eq : AccountId → AccountId → Bool
  pub address_eq : ScAddress → ScAddress → Bool
  pub hash_eq : Hash → Hash → Bool
  pub account_eq_iff : (a b : AccountId) → (account_eq a b ≡ true) ↔ (a ≡ b)
  pub address_eq_iff : (a b : ScAddress) → (address_eq a b ≡ true) ↔ (a ≡ b)
  pub hash_eq_iff : (a b : Hash) → (hash_eq a b ≡ true) ↔ (a ≡ b)

pub data ConfigSettingId : Type 0 where
  contract_max_size_bytes : ConfigSettingId
  contract_compute_v0 : ConfigSettingId
  contract_ledger_cost_v0 : ConfigSettingId
  contract_historical_data_v0 : ConfigSettingId
  contract_events_v0 : ConfigSettingId
  contract_bandwidth_v0 : ConfigSettingId
  contract_cost_params_cpu_instructions : ConfigSettingId
  contract_cost_params_memory_bytes : ConfigSettingId
  contract_data_key_size_bytes : ConfigSettingId
  contract_data_entry_size_bytes : ConfigSettingId
  state_archival : ConfigSettingId
  contract_execution_lanes : ConfigSettingId
  bucketlist_size_window : ConfigSettingId
  eviction_iterator : ConfigSettingId

pub data ConfigSettingEntry : Type 0 where
  contract_max_size_bytes : String → ConfigSettingEntry
  contract_compute_v0 : String → ConfigSettingEntry
  contract_ledger_cost_v0 : String → ConfigSettingEntry
  contract_historical_data_v0 : String → ConfigSettingEntry
  contract_events_v0 : String → ConfigSettingEntry
  contract_bandwidth_v0 : String → ConfigSettingEntry
  contract_cost_params_cpu_instructions : String → ConfigSettingEntry
  contract_cost_params_memory_bytes : String → ConfigSettingEntry
  contract_data_key_size_bytes : String → ConfigSettingEntry
  contract_data_entry_size_bytes : String → ConfigSettingEntry
  state_archival : String → ConfigSettingEntry
  contract_execution_lanes : String → ConfigSettingEntry
  bucketlist_size_window : String → ConfigSettingEntry
  eviction_iterator : String → ConfigSettingEntry

abbrev pub config_setting_id : ConfigSettingEntry → ConfigSettingId
config_setting_id (ConfigSettingEntry.contract_max_size_bytes s) =
    ConfigSettingId.contract_max_size_bytes
config_setting_id (ConfigSettingEntry.contract_compute_v0 s) = ConfigSettingId.contract_compute_v0
config_setting_id (ConfigSettingEntry.contract_ledger_cost_v0 s) =
    ConfigSettingId.contract_ledger_cost_v0
config_setting_id (ConfigSettingEntry.contract_historical_data_v0 s) =
    ConfigSettingId.contract_historical_data_v0
config_setting_id (ConfigSettingEntry.contract_events_v0 s) = ConfigSettingId.contract_events_v0
config_setting_id (ConfigSettingEntry.contract_bandwidth_v0 s) =
    ConfigSettingId.contract_bandwidth_v0
config_setting_id (ConfigSettingEntry.contract_cost_params_cpu_instructions s) =
    ConfigSettingId.contract_cost_params_cpu_instructions
config_setting_id (ConfigSettingEntry.contract_cost_params_memory_bytes s) =
    ConfigSettingId.contract_cost_params_memory_bytes
config_setting_id (ConfigSettingEntry.contract_data_key_size_bytes s) =
    ConfigSettingId.contract_data_key_size_bytes
config_setting_id (ConfigSettingEntry.contract_data_entry_size_bytes s) =
    ConfigSettingId.contract_data_entry_size_bytes
config_setting_id (ConfigSettingEntry.state_archival s) = ConfigSettingId.state_archival
config_setting_id (ConfigSettingEntry.contract_execution_lanes s) =
    ConfigSettingId.contract_execution_lanes
config_setting_id (ConfigSettingEntry.bucketlist_size_window s) =
    ConfigSettingId.bucketlist_size_window
config_setting_id (ConfigSettingEntry.eviction_iterator s) = ConfigSettingId.eviction_iterator

module _ (L : LedgerTypes) where
  pub data ContractExecutable : Type 0 where
    wasm : L.Hash → ContractExecutable
    stellar_asset : ContractExecutable

  pub data ScVal : Type 0 where
    ledger_key_contract_instance : ScVal
    contract_instance : ContractExecutable → Option L.ScMap → ScVal
    other_val : L.OtherVal → ScVal

  pub data LedgerKey : Type 0 where
    account : L.AccountId → LedgerKey
    trustline : L.AccountId → L.Asset → LedgerKey
    offer : L.AccountId → ℕ → LedgerKey
    data_key : L.AccountId → String → LedgerKey
    claimable_balance : L.Hash → LedgerKey
    liquidity_pool : L.Hash → LedgerKey
    contract_data : L.ScAddress → ScVal → Bool → LedgerKey
    contract_code : L.Hash → LedgerKey
    config_setting : ConfigSettingId → LedgerKey
    ttl : L.Hash → LedgerKey

  -- The last text of an entry stands for what is not read.
  pub data LedgerEntry : Type 0 where
    account_entry : L.AccountId → String → LedgerEntry
    trustline_entry : L.AccountId → L.Asset → String → LedgerEntry
    offer_entry : L.AccountId → ℕ → String → LedgerEntry
    data_entry : L.AccountId → String → String → LedgerEntry
    claimable_balance_entry : L.Hash → String → LedgerEntry
    liquidity_pool_entry : L.Hash → String → LedgerEntry
    contract_data_entry : L.ScAddress → ScVal → Bool → ScVal → LedgerEntry
    contract_code_entry : L.Hash → String → LedgerEntry
    config_setting_entry : ConfigSettingEntry → LedgerEntry
    ttl_entry : L.Hash → ℕ → LedgerEntry

  unfoldable pub data_into_key : LedgerEntry → LedgerKey
  data_into_key (account_entry id rest) = account id
  data_into_key (trustline_entry id asset rest) = trustline id asset
  data_into_key (offer_entry seller id rest) = offer seller id
  data_into_key (data_entry id name rest) = data_key id name
  data_into_key (claimable_balance_entry id rest) = claimable_balance id
  data_into_key (liquidity_pool_entry id rest) = liquidity_pool id
  data_into_key (contract_data_entry contract key durability val) =
      contract_data contract key durability
  data_into_key (contract_code_entry hash rest) = contract_code hash
  data_into_key (config_setting_entry e) = config_setting (config_setting_id e)
  data_into_key (ttl_entry hash live_until) = ttl hash

  -- `BucketEntry`; `Liveentry` and `Initentry` share an arm.
  pub data BucketEntry : Type 0 where
    live_entry : LedgerEntry → BucketEntry
    init_entry : LedgerEntry → BucketEntry
    dead_entry : LedgerKey → BucketEntry
    meta_entry : ℕ → BucketEntry

  -- The equality of keys.
  pub record KeyEq : Type 0 where
    pub key_eq : LedgerKey → LedgerKey → Bool
    pub key_eq_iff : (a b : LedgerKey) → (key_eq a b ≡ true) ↔ (a ≡ b)
