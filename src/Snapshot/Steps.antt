-- ===== src/Snapshot/Steps.antt =====
-- What one entry of a bucket does to the entries of the snapshot and to the inputs of the next round.
use soroban_tools.Prelude.{
  true, false, Option, none, some, List, [], ◌∷◌, ◌++◌, ◌≡◌, inl, inr, arith, Bool-cases,
}
use mathlib.Core.Path.{subst}
use soroban_tools.Prelude.Result.{Result, ok, Result-cases, ok_eq}
use soroban_tools.Snapshot.Entries.{
  LedgerTypes, LedgerKey, LedgerEntry, BucketEntry, KeyEq, ScVal, data_into_key, live_entry,
  init_entry, dead_entry, meta_entry, wasm, stellar_asset, ledger_key_contract_instance,
  contract_instance, other_val, account_entry, trustline_entry, offer_entry, data_entry,
  claimable_balance_entry, liquidity_pool_entry, contract_data_entry, contract_code_entry,
  config_setting_entry, ttl_entry,
}
use soroban_tools.Snapshot.Search.{
  contains, SearchInputs, Search, keep, follow, save, visit, search_entry, u32_max, add_wasm,
  add_issuer, follow_data,
}

module _ (L : LedgerTypes) where
  -- How the inputs of the next round grow by one entry.
  pub data Added (next : SearchInputs L) : SearchInputs L → Type 0 where
    nothing : Added next next
    a_wasm : (hash : L.Hash) → Added next (add_wasm L hash next)
    an_issuer : (issuer : L.AccountId) → Added next (add_issuer L (some issuer) next)

module _ (L : LedgerTypes) (K : KeyEq L) {E : Type 0}
    (issuer_of : L.ScMap → Result E (Option L.AccountId)) (c : SearchInputs L) where
  data_Added :
      (key val : ScVal L) (next after : SearchInputs L)
      → follow_data L issuer_of key val c next ≡ ok after
      → Added L next after
  data_Added (contract_instance x storage) val next after h = subst (Added L next) (ok_eq h) nothing
  data_Added (other_val v) val next after h = subst (Added L next) (ok_eq h) nothing
  data_Added ledger_key_contract_instance ledger_key_contract_instance next after h =
      subst (Added L next) (ok_eq h) nothing
  data_Added ledger_key_contract_instance (other_val v) next after h =
      subst (Added L next) (ok_eq h) nothing
  data_Added ledger_key_contract_instance (contract_instance stellar_asset none) next after h =
      subst (Added L next) (ok_eq h) nothing
  data_Added ledger_key_contract_instance (contract_instance (wasm hash) storage) next after h =
      elim (Bool-cases (contains L.hash_eq c.wasm_hashes hash)) [
        | inl e ↦ subst (Added L next) (ground (arith, e, h)) nothing
        | inr e ↦ subst (Added L next) (ground (arith, e, h)) (a_wasm hash)
      ]
  data_Added ledger_key_contract_instance (contract_instance stellar_asset (some storage)) next
        after h =
      elim (Result-cases (issuer_of storage)) [
        | inr (r, q) ↦ absurd (ground (arith, q, h))
        | inl (none, q) ↦ subst (Added L next) (ground (arith, q, h)) nothing
        | inl (some issuer, q) ↦ subst (Added L next) (ground (arith, q, h)) (an_issuer issuer)
      ]

  pub follow-Added :
      (l : LedgerEntry L) (next after : SearchInputs L)
      → follow L issuer_of l c next ≡ ok after
      → Added L next after
  unfolding follow
  follow-Added (contract_data_entry contract key durability val) next after h =
      data_Added key val next after h
  follow-Added (account_entry id rest) next after h = subst (Added L next) (ok_eq h) nothing
  follow-Added (trustline_entry id asset rest) next after h = subst (Added L next) (ok_eq h) nothing
  follow-Added (offer_entry id n rest) next after h = subst (Added L next) (ok_eq h) nothing
  follow-Added (data_entry id name rest) next after h = subst (Added L next) (ok_eq h) nothing
  follow-Added (claimable_balance_entry id rest) next after h =
      subst (Added L next) (ok_eq h) nothing
  follow-Added (liquidity_pool_entry id rest) next after h = subst (Added L next) (ok_eq h) nothing
  follow-Added (contract_code_entry hash rest) next after h = subst (Added L next) (ok_eq h) nothing
  follow-Added (config_setting_entry e) next after h = subst (Added L next) (ok_eq h) nothing
  follow-Added (ttl_entry hash n) next after h = subst (Added L next) (ok_eq h) nothing

  -- An entry that is not saved, or one that is, with what it refers to.
  pub data Entered (s t : Search L) : Type 0 where
    skipped : t.ledger_entries ≡ s.ledger_entries → t.next ≡ s.next → Entered s t
    saved :
        (l : LedgerEntry L)
        → keep L c (data_into_key L l) ≡ true
        → contains K.key_eq s.seen (data_into_key L l) ≡ false
        → follow L issuer_of l c s.next ≡ ok t.next
        → t.ledger_entries ≡ s.ledger_entries ++ ((data_into_key L l, (l, some u32_max)) ∷ [])
        → Entered s t

  save-Entered :
      (l : LedgerEntry L) (j : List (LedgerKey L)) (s t : Search L)
      → keep L c (data_into_key L l) ≡ true
      → contains K.key_eq s.seen (data_into_key L l) ≡ false
      → save L issuer_of K c (data_into_key L l) (some l) (record s { seen = j }) ≡ ok t
      → Entered s t
  unfolding save
  save-Entered l j s t k e h = elim (Result-cases (follow L issuer_of l c s.next)) [
    | inr (r, q) ↦ absurd (ground (arith, q, h))
    | inl (n, q) ↦ saved l k e (ground (arith, q, h)) (ground (arith, q, h))
  ]

  visit-Entered :
      (l : LedgerEntry L) (s t : Search L)
      → visit L issuer_of K c (data_into_key L l) (some l) s ≡ ok t
      → Entered s t
  unfolding visit
  visit-Entered l s t h = elim (Bool-cases (contains K.key_eq s.seen (data_into_key L l))) [
    | inl e ↦ skipped (ground (arith, e, h)) (ground (arith, e, h))
    | inr e ↦ elim (Bool-cases (keep L c (data_into_key L l))) [
      | inr k ↦ skipped (ground (arith, e, k, h)) (ground (arith, e, k, h))
      | inl k ↦ save-Entered l (data_into_key L l ∷ s.seen) s t k e (ground (arith, e, k, h))
    ]
  ]

  pub search_entry-Entered :
      (e : BucketEntry L) (s t : Search L) → search_entry L issuer_of K c e s ≡ ok t → Entered s t
  unfolding search_entry save visit
  search_entry-Entered (live_entry l) s t h = visit-Entered l s t h
  search_entry-Entered (init_entry l) s t h = visit-Entered l s t h
  search_entry-Entered (dead_entry k) s t h = skipped (ground (arith, h)) (ground (arith, h))
  search_entry-Entered (meta_entry v) s t h = skipped (ground (arith, h)) (ground (arith, h))
