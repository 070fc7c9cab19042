-- ===== src/Snapshot/Run.antt =====
-- cmd/soroban-cli/src/commands/snapshot/create.rs, `run` from the history to the snapshot that is
-- written, with what the addresses of the arguments stand for.
use soroban_tools.Prelude.{
  ℕ, String, Option, none, some, List, [], ◌∷◌, ◌≡◌, ◌⊎◌, inl, inr, ◌∙◌, ap,
}
use soroban_tools.Prelude.Result.{Result, ok, err, map_err, collect, ◌>>=◌, Result-cases}
use soroban_tools.Config.Disk.{Host, Disk}
use soroban_tools.Config.Directories.{Args}
use soroban_tools.Config.Locator.{Crates, resolve_contract_id}
use soroban_tools.Config.Resolve.{resolve_muxed_account}
use soroban_tools.Snapshot.Entries.{LedgerTypes, LedgerKey, LedgerEntry, KeyEq, BucketEntry}
use soroban_tools.Snapshot.Search.{SearchInputs, Search, search_from}
use soroban_tools.Snapshot.Assets.{
  SnapshotCrates, AssetError, asset_issuer, unresolved_from_str, muxed_account_id,
}
use soroban_tools.Snapshot.Archive.{History, bucket_list}
use soroban_tools.Snapshot.Streams.{start}
use soroban_tools.Snapshot.Rounds.{search_from_ends}

-- The errors of the search. A bucket's is one of downloading, caching or reading it.
pub data SnapshotError (C : Crates) : Type 0 where
  asset_error : AssetError C → SnapshotError C
  bucket_error : String → SnapshotError C

module _ (C : Crates) (L : LedgerTypes) (S : SnapshotCrates C L) (args : Args) (host : Host)
    (d : Disk) where
  unfoldable pub resolve_account : String → Option L.AccountId
  unfolding resolve_muxed_account
  resolve_account address =
      elim (resolve_muxed_account C args host (unresolved_from_str C L S address) none d) [
        | ok account ↦ some (muxed_account_id C L S account)
        | err e ↦ none
      ]

  unfoldable pub resolve_contract : String → String → Option L.ScAddress
  unfolding resolve_contract_id
  resolve_contract network_passphrase address = elim (S.address_from_str address) [
    | some a ↦ some a
    | none ↦ elim (resolve_contract_id C args host address network_passphrase d) [
      | ok contract ↦ some (S.contract_address contract)
      | err e ↦ none
    ]
  ]

  -- A contract before an account; what is neither is left out.
  unfoldable pub resolve_address : String → String → Option (L.ScAddress ⊎ L.AccountId)
  unfolding resolve_account resolve_contract
  resolve_address network_passphrase address = elim (resolve_contract network_passphrase address) [
    | some contract ↦ some (inl contract)
    | none ↦ elim (resolve_account address) [ some account ↦ some (inr account) | none ↦ none ]
  ]

  abbrev add_address : Option (L.ScAddress ⊎ L.AccountId) → SearchInputs L → SearchInputs L
  add_address none inputs = inputs
  add_address (some (inl contract)) inputs = record inputs {
    contract_ids = contract ∷ inputs.contract_ids;
  }
  add_address (some (inr account)) inputs = record inputs {
    account_ids = account ∷ inputs.account_ids;
  }

  -- The inputs of the first round.
  unfoldable pub starting_inputs : String → List String → List L.Hash → SearchInputs L
  unfolding resolve_address
  starting_inputs network_passphrase [] wasm_hashes = record {
    account_ids = [];
    contract_ids = [];
    wasm_hashes = wasm_hashes;
  }
  starting_inputs network_passphrase (address ∷ addresses) wasm_hashes =
      add_address (resolve_address network_passphrase address)
        (starting_inputs network_passphrase addresses wasm_hashes)

  -- The fields of `LedgerSnapshot` that are not constants.
  pub record LedgerSnapshot : Type 0 where
    pub protocol_version : ℕ
    pub sequence_number : ℕ
    pub network_id : String
    pub ledger_entries : List (LedgerKey L × (LedgerEntry L × Option ℕ))

  module _ (K : KeyEq L) (network_id : String → String)
      (cache_bucket : String → Result (SnapshotError C) String)
      (read_xdr_iter : String
        → Result (SnapshotError C) (List (Result (SnapshotError C) (BucketEntry L)))) where
    -- A bucket is cached, where it is not, and opened.
    abbrev pub open_bucket :
        String → Result (SnapshotError C) (List (Result (SnapshotError C) (BucketEntry L)))
    open_bucket bucket = do cache_path ← cache_bucket bucket; read_xdr_iter cache_path

    abbrev pub issuer_of : L.ScMap → Result (SnapshotError C) (Option L.AccountId)
    issuer_of storage = map_err asset_error (asset_issuer C L S args host d storage)

    abbrev pub snapshot_of :
        History → Result (SnapshotError C) (Search L) → Result (SnapshotError C) LedgerSnapshot
    snapshot_of history searched = do
      found ← searched
      ok (record {
        protocol_version = found.protocol_version;
        sequence_number = history.current_ledger;
        network_id = network_id history.network_passphrase;
        ledger_entries = found.ledger_entries;
      })

    abbrev finished :
        History
        → Option (Result (SnapshotError C) (Search L))
        → Option (Result (SnapshotError C) LedgerSnapshot)
    finished history none = none
    finished history (some searched) = some (snapshot_of history searched)

    abbrev pub search_archive :
        History
        → SearchInputs L
        → Result (SnapshotError C) (List String)
        → Option (Result (SnapshotError C) LedgerSnapshot)
    search_archive history inputs (err e) = some (err e)
    search_archive history inputs (ok paths) = finished history (
        search_from L issuer_of K open_bucket 3 inputs (bucket_list history.current_buckets)
          (start L))

    -- `none` would be a search of more than two rounds.
    unfoldable pub create_snapshot :
        History → List String → List L.Hash → Option (Result (SnapshotError C) LedgerSnapshot)
    unfolding bucket_list starting_inputs asset_issuer
    create_snapshot history addresses wasm_hashes =
        search_archive history (starting_inputs history.network_passphrase addresses wasm_hashes)
          (collect cache_bucket (bucket_list history.current_buckets))

    -- The creation of a snapshot ends after at most two rounds over the buckets, with a snapshot
    -- or an error, whatever the history and the arguments.
    pub create_snapshot_ends :
        (history : History) (addresses : List String) (wasm_hashes : List L.Hash)
        → (r : Result (SnapshotError C) LedgerSnapshot) × (create_snapshot history addresses
              wasm_hashes
            ≡ some r)
    unfolding create_snapshot
    create_snapshot_ends history addresses wasm_hashes =
        let inputs = starting_inputs history.network_passphrase addresses wasm_hashes in
        let buckets = bucket_list history.current_buckets in
        elim (Result-cases (collect cache_bucket buckets)) [
          | inr (e, q) ↦ (err e, ap (search_archive history inputs) q)
          | inl (paths, q) ↦
              let (r, f) = search_from_ends L K issuer_of open_bucket 0 inputs buckets in
              (
                snapshot_of history r,
                ap (search_archive history inputs) q ∙ ap (finished history) f,
              )
        ]
