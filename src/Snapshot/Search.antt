-- ===== src/Snapshot/Search.antt =====
-- cmd/soroban-cli/src/commands/snapshot/create.rs, the loop of `run`: the buckets are searched for the
-- entries of the inputs, and again for what the contracts found refer to.
use soroban_tools.Prelude.{
  ℕ, zero, suc, String, Bool, true, false, ◌&&◌, Option, none, some, List, [], ◌∷◌, ◌++◌, any,
  is_empty, ltb, if◌then◌else◌,
}
use soroban_tools.Prelude.Result.{Result, ok, err, ◌>>=◌}
use soroban_tools.Snapshot.Entries.{
  LedgerTypes, LedgerKey, LedgerEntry, ScVal, BucketEntry, KeyEq, data_into_key, wasm,
  stellar_asset, ledger_key_contract_instance, contract_instance, other_val, account, trustline,
  offer, data_key, claimable_balance, liquidity_pool, contract_data, contract_code, config_setting,
  ttl, account_entry, trustline_entry, offer_entry, data_entry, claimable_balance_entry,
  liquidity_pool_entry, contract_data_entry, contract_code_entry, config_setting_entry, ttl_entry,
  live_entry, init_entry, dead_entry, meta_entry,
}

abbrev pub u32_max : ℕ
u32_max = 4294967295

-- `HashSet::contains`
abbrev pub contains {ℓ} : {A : Type ℓ} → (A → A → Bool) → List A → A → Bool
contains eq xs a = any (λ x. eq x a) xs

module _ (L : LedgerTypes) where
  pub record SearchInputs : Type 0 where
    pub account_ids : List L.AccountId
    pub contract_ids : List L.ScAddress
    pub wasm_hashes : List L.Hash

  abbrev pub no_inputs : SearchInputs
  no_inputs = record { account_ids = []; contract_ids = []; wasm_hashes = [] }

  -- `SearchInputs::is_empty`
  unfoldable pub inputs_empty : SearchInputs → Bool
  inputs_empty s = is_empty s.account_ids && (is_empty s.contract_ids && is_empty s.wasm_hashes)

  -- The fields of the snapshot that change, the keys seen, and the inputs of the next round.
  pub record Search : Type 0 where
    pub protocol_version : ℕ
    pub ledger_entries : List (LedgerKey L × (LedgerEntry L × Option ℕ))
    pub seen : List (LedgerKey L)
    pub next : SearchInputs

  -- The match on the key.
  unfoldable pub keep : SearchInputs → LedgerKey L → Bool
  keep current (account id) = contains L.account_eq current.account_ids id
  keep current (trustline id asset) = contains L.account_eq current.account_ids id
  keep current (contract_data contract key durability) =
      contains L.address_eq current.contract_ids contract
  keep current (contract_code hash) = contains L.hash_eq current.wasm_hashes hash
  keep current (offer id n) = false
  keep current (data_key id name) = false
  keep current (claimable_balance id) = false
  keep current (liquidity_pool id) = false
  keep current (config_setting id) = false
  keep current (ttl hash) = false

  abbrev pub add_wasm : L.Hash → SearchInputs → SearchInputs
  add_wasm hash next = record next { wasm_hashes = hash ∷ next.wasm_hashes }

  abbrev pub add_issuer : Option L.AccountId → SearchInputs → SearchInputs
  add_issuer none next = next
  add_issuer (some issuer) next = record next { account_ids = issuer ∷ next.account_ids }

  -- The issuer of the asset whose contract has a storage is a parameter here; Assets has it.
  module _ {E : Type 0} (issuer_of : L.ScMap → Result E (Option L.AccountId)) where
    abbrev pub follow_instance : ScVal L → SearchInputs → SearchInputs → Result E SearchInputs
    follow_instance (contract_instance (wasm hash) storage) current next =
        ok (if contains L.hash_eq current.wasm_hashes hash then next else add_wasm hash next)
    follow_instance (contract_instance stellar_asset (some storage)) current next = do
      issuer ← issuer_of storage
      ok (add_issuer issuer next)
    follow_instance (contract_instance stellar_asset none) current next = ok next
    follow_instance ledger_key_contract_instance current next = ok next
    follow_instance (other_val v) current next = ok next

    abbrev pub follow_data : ScVal L → ScVal L → SearchInputs → SearchInputs → Result E SearchInputs
    follow_data ledger_key_contract_instance val current next = follow_instance val current next
    follow_data (contract_instance executable storage) val current next = ok next
    follow_data (other_val v) val current next = ok next

    -- The match on the entry that is kept.
    unfoldable pub follow : LedgerEntry L → SearchInputs → SearchInputs → Result E SearchInputs
    follow (contract_data_entry contract key durability val) current next =
        follow_data key val current next
    follow (account_entry id rest) current next = ok next
    follow (trustline_entry id asset rest) current next = ok next
    follow (offer_entry id n rest) current next = ok next
    follow (data_entry id name rest) current next = ok next
    follow (claimable_balance_entry id rest) current next = ok next
    follow (liquidity_pool_entry id rest) current next = ok next
    follow (contract_code_entry hash rest) current next = ok next
    follow (config_setting_entry e) current next = ok next
    follow (ttl_entry hash n) current next = ok next

    module _ (K : KeyEq L) where
      -- The end of the body, for a key that is kept.
      unfoldable pub save :
          SearchInputs → LedgerKey L → Option (LedgerEntry L) → Search → Result E Search
      unfolding follow
      save current key none s = ok s
      save current key (some val) s = do
        next ← follow val current s.next
        ok (record s {
          next = next;
          ledger_entries = s.ledger_entries ++ ((key, (val, some u32_max)) ∷ []);
        })

      unfoldable pub visit :
          SearchInputs → LedgerKey L → Option (LedgerEntry L) → Search → Result E Search
      unfolding save keep
      visit current key val s =
          if contains K.key_eq s.seen key
          then ok s
          else (if keep current key
              then save current key val (record s { seen = key ∷ s.seen })
              else ok s)

      -- One round of the innermost loop.
      unfoldable pub search_entry : SearchInputs → BucketEntry L → Search → Result E Search
      unfolding visit data_into_key
      search_entry current (live_entry l) s = visit current (data_into_key L l) (some l) s
      search_entry current (init_entry l) s = visit current (data_into_key L l) (some l) s
      search_entry current (dead_entry k) s = visit current k none s
      search_entry current (meta_entry ledger_version) s = ok (
          if ltb s.protocol_version ledger_version
          then record s { protocol_version = ledger_version }
          else s)

      -- The entries of a bucket, some of which may not be read.
      unfoldable pub search_bucket :
          SearchInputs → List (Result E (BucketEntry L)) → Search → Result E Search
      unfolding search_entry
      search_bucket current [] s = ok s
      search_bucket current (frame ∷ frames) s = do
        entry ← frame
        s' ← search_entry current entry s
        search_bucket current frames s'

      -- What downloading, caching and opening a bucket gives is a parameter.
      module _ (open_bucket : String → Result E (List (Result E (BucketEntry L)))) where
        unfoldable pub search_buckets : SearchInputs → List String → Search → Result E Search
        unfolding search_bucket
        search_buckets current [] s = ok s
        search_buckets current (bucket ∷ buckets) s = do
          frames ← open_bucket bucket
          s' ← search_bucket current frames s
          search_buckets current buckets s'

        abbrev continue_with :
            (Search → Option (Result E Search)) → Result E Search → Option (Result E Search)
        continue_with rest (err e) = some (err e)
        continue_with rest (ok s) = rest s

        -- The loop; `none` is too little fuel.
        unfoldable pub search_from :
            ℕ → SearchInputs → List String → Search → Option (Result E Search)
        unfolding search_buckets inputs_empty
        search_from zero current buckets s = none
        search_from (suc fuel) current buckets s = elim (inputs_empty current) [
          | true ↦ some (ok s)
          | false ↦
              continue_with
                (λ s'. search_from fuel s'.next buckets (record s' { next = no_inputs }))
                (search_buckets current buckets s)
        ]
