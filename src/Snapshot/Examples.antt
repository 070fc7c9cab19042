-- ===== src/Snapshot/Examples.antt =====
-- Two buckets with a contract, its code and an asset, and the laws of the search at them.
use soroban_tools.Prelude.{
  ℕ, ◌+◌, ◌-◌, ◌^◌, ◌<◌, String, Bool, true, false, Option, none, some, List, [], ◌∷◌, ◌++◌, map,
  ◌==◌, ==_iff, ◌≡◌, ◌↔◌, inl, inr, refl, arith, str_eq, eq_iff, Bool-cases, if◌then◌else◌, All,
}
use native.Mathlib.Decide.{ℕ_discrete}
use soroban_tools.Prelude.Result.{Result, ok, err}
use soroban_tools.Config.Machine.{crates, host, args, empty}
use soroban_tools.Spec.Types.{empty as empty_map}
use soroban_tools.Snapshot.Entries.{
  LedgerTypes, LedgerKey, LedgerEntry, BucketEntry, KeyEq, ledger_key_contract_instance,
  contract_instance, other_val, wasm, stellar_asset, account, contract_data, contract_code,
  account_entry, contract_data_entry, contract_code_entry, live_entry, init_entry, dead_entry,
  meta_entry,
}
use soroban_tools.Snapshot.Search.{SearchInputs, Search, search_from, keep, u32_max, no_inputs}
use soroban_tools.Snapshot.Assets.{SnapshotCrates, code4}
use soroban_tools.Snapshot.Archive.{
  History, no_bucket, history_url, proposed_ledgers, IsCheckpoint, proposed_ledgers_bounds,
  proposed_ledgers_wraps,
}
use soroban_tools.Snapshot.Run.{
  SnapshotError, LedgerSnapshot, create_snapshot, create_snapshot_ends,
}
use soroban_tools.Snapshot.Newest.{newest, lookup_entry}
use soroban_tools.Snapshot.Streams.{start}
use soroban_tools.Snapshot.Complete.{search_from-newest}
use soroban_tools.Snapshot.Closed.{PresentFor, search_from_closed}
use soroban_tools.Snapshot.Distinct.{Distinct, search_from-Distinct}

abbrev types : LedgerTypes
types = record {
  AccountId = ℕ;
  ScAddress = ℕ;
  Hash = ℕ;
  Asset = ℕ;
  ScMap = ℕ;
  OtherVal = ℕ;
  account_eq = ◌==◌;
  address_eq = ◌==◌;
  hash_eq = ◌==◌;
  account_eq_iff = ==_iff;
  address_eq_iff = ==_iff;
  hash_eq_iff = ==_iff;
}

String-discrete : Discrete String
String-discrete a b = elim (Bool-cases (str_eq a b)) [
  | inl e ↦ yes ((eq_iff a b).0 e)
  | inr e ↦ no (λ p. ground (arith, e, (eq_iff a b).1 p))
]

Key-discrete : Discrete (LedgerKey types)
Key-discrete = hlevel (String-discrete, ℕ_discrete)

is_same : (j k : LedgerKey types) → Bool
is_same j k = elim (Key-discrete j k) [ yes p ↦ true | no p ↦ false ]

is_same_iff : (j k : LedgerKey types) → (is_same j k ≡ true) ↔ (j ≡ k)
unfolding is_same
is_same_iff j k =
    elim (Key-discrete j k)
      as (λ (x : Dec (j ≡ k)). ((elim x [ yes p ↦ true | no p ↦ false ]) ≡ true) ↔ (j ≡ k)) [
        | yes p ↦ ((λ e. p), (λ q. refl))
        | no n ↦ ((λ e. absurd (ground (arith, e))), (λ q. absurd (n q)))
      ]

abbrev keys : KeyEq types
keys = record { key_eq = is_same; key_eq_iff = is_same_iff }

abbrev issuer_of : ℕ → Result String (Option ℕ)
issuer_of storage = if storage == 9 then ok (some 1) else err "no asset"

-- The newer bucket has the instances, and says that an account was removed.
abbrev newer : List (BucketEntry types)
newer =
    meta_entry 22
    ∷ (live_entry (
          contract_data_entry 3 ledger_key_contract_instance true (contract_instance (wasm 5) none))
        ∷ (live_entry (
              contract_data_entry 4 ledger_key_contract_instance true
                (contract_instance stellar_asset (some 9)))
            ∷ (dead_entry (account 2) ∷ [])))

abbrev older : List (BucketEntry types)
older =
    init_entry (contract_data_entry 3 ledger_key_contract_instance true (other_val 0))
    ∷ (live_entry (contract_code_entry 5 "code")
        ∷ (live_entry (account_entry 1 "issuer") ∷ (live_entry (account_entry 2 "gone") ∷ [])))

abbrev frames : List (BucketEntry types) → List (Result String (BucketEntry types))
frames es = map ok es

abbrev open_bucket : String → Result String (List (Result String (BucketEntry types)))
open_bucket bucket = if str_eq bucket "new" then ok (frames newer) else ok (frames older)

abbrev inputs : SearchInputs types
inputs = record { account_ids = 2 ∷ []; contract_ids = 3 ∷ (4 ∷ []); wasm_hashes = [] }

abbrev buckets : List String
buckets = "new" ∷ ("old" ∷ [])

abbrev found : Search types
found = record {
  protocol_version = 22;
  ledger_entries =
      (
        contract_data 3 ledger_key_contract_instance true,
        (
          contract_data_entry 3 ledger_key_contract_instance true (contract_instance (wasm 5) none),
          some u32_max,
        ),
      )
      ∷ ((
        contract_data 4 ledger_key_contract_instance true,
        (
          contract_data_entry 4 ledger_key_contract_instance true
              (contract_instance stellar_asset (some 9)),
          some u32_max,
        ),
      )
          ∷ ((contract_code 5, (contract_code_entry 5 "code", some u32_max))
              ∷ ((account 1, (account_entry 1 "issuer", some u32_max)) ∷ [])));
  seen =
      account 1
      ∷ (contract_code 5
          ∷ (account 2
              ∷ (contract_data 4 ledger_key_contract_instance true
                  ∷ (contract_data 3 ledger_key_contract_instance true ∷ []))));
  next = no_inputs types;
}

finds_code_and_issuer :
    search_from types issuer_of keys open_bucket 3 inputs buckets (start types) ≡ some (ok found)
unfolding search_from is_same Key-discrete String-discrete ℕ_discrete
finds_code_and_issuer = refl

proposes_neighbours : proposed_ledgers 130 ≡ some (127, 191)
unfolding proposed_ledgers
proposes_neighbours = refl

search_from-newest_example :
    (keep types inputs (account 2) ≡ true
      → lookup_entry types keys (account 2) found.ledger_entries
        ≡ newest types keys (account 2) (newer ++ (older ++ [])))
    × ((v : LedgerEntry types × Option ℕ)
        → lookup_entry types keys (account 2) found.ledger_entries ≡ some v
        → newest types keys (account 2) (newer ++ (older ++ [])) ≡ some v)
search_from-newest_example =
    search_from-newest types keys issuer_of open_bucket 0 (newer ++ (older ++ [])) inputs buckets
      found (account 2) refl finds_code_and_issuer

search_from_closed_example :
    All
      (PresentFor types keys issuer_of (newer ++ (older ++ [])) found.ledger_entries)
      found.ledger_entries
search_from_closed_example =
    search_from_closed types keys issuer_of open_bucket 0 (newer ++ (older ++ [])) inputs buckets
      found refl finds_code_and_issuer

search_from-Distinct_example : Distinct types keys found.ledger_entries
search_from-Distinct_example =
    search_from-Distinct types keys issuer_of open_bucket 0 (newer ++ (older ++ [])) inputs buckets
      found refl finds_code_and_issuer

proposed_ledgers_bounds_example :
    IsCheckpoint 127 × IsCheckpoint 191 × (127 < 130) × (130 < 191) × (191 ≡ 127 + 64)
proposed_ledgers_bounds_example =
    proposed_ledgers_bounds 130 127 191 (omega arith) (omega arith) proposes_neighbours

proposed_ledgers_wraps_example : proposed_ledgers 10 ≡ some (2 ^ 32 - 1, 63)
proposed_ledgers_wraps_example = proposed_ledgers_wraps 10 (omega arith)

names_files :
    history_url "http://localhost:8000/archive/" (some 1023)
    ≡ "http://localhost:8000/archive/history/00/00/03/history-000003ff.json"
unfolding history_url
names_files = refl

abbrev history : History
history = record {
  current_ledger = 127;
  current_buckets =
      record { curr = "new"; snap = "old" } ∷ (record { curr = no_bucket; snap = no_bucket } ∷ []);
  network_passphrase = "net";
}

abbrev snapshot_crates : SnapshotCrates crates types
snapshot_crates = record {
  asset_code_from_str = λ s. some (code4 s);
  muxed_account_from_str = λ s. none;
  address_from_str = λ s. if str_eq s "CTHREE" then some 3 else none;
  account_of = λ k. k;
  contract_address = λ c. 4;
  storage_map = λ m. empty_map;
  text_to_string = λ t. "USD:issuer";
}

abbrev lifted : List (BucketEntry types) → List (Result (SnapshotError crates) (BucketEntry types))
lifted es = map ok es

abbrev read_bucket :
    String
    → Result (SnapshotError crates) (List (Result (SnapshotError crates) (BucketEntry types)))
read_bucket bucket = if str_eq bucket "new" then ok (lifted newer) else ok (lifted older)

create_snapshot_ends_example :
    (r : Result
      (SnapshotError crates)
      (LedgerSnapshot crates types snapshot_crates args host empty))
    × (create_snapshot crates types snapshot_crates args host empty keys
          (λ s. s)
          ok
          read_bucket
          history
          ("CTHREE" ∷ [])
          []
        ≡ some r)
create_snapshot_ends_example =
    create_snapshot_ends crates types snapshot_crates args host empty keys (λ s. s) ok read_bucket
      history ("CTHREE" ∷ []) []
