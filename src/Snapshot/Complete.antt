-- ===== src/Snapshot/Complete.antt =====
-- What a snapshot holds: the newest version of each key that is wanted, and of what its contracts refer
-- to.
use soroban_tools.Prelude.{
  ℕ, suc, String, Bool, true, false, ◌&&◌, ◌||◌, Option, none, some, List, [], ◌∷◌, if◌then◌else◌,
  ◌≡◌, inl, inr, arith, refl, Bool-cases, is_empty,
}
use mathlib.Core.Path.{subst}
use soroban_tools.Prelude.Result.{Result, ok}
use soroban_tools.Snapshot.Entries.{
  LedgerTypes, LedgerKey, LedgerEntry, BucketEntry, KeyEq, account, trustline, offer, data_key,
  claimable_balance, liquidity_pool, contract_data, contract_code, config_setting, ttl,
}
use soroban_tools.Snapshot.Search.{contains, SearchInputs, Search, keep, inputs_empty, search_from}
use soroban_tools.Snapshot.Newest.{newest, lookup_entry, occurs_in, not_in-newest}
use soroban_tools.Snapshot.Advances.{
  Advances, Advances-Fresh, Fresh, search_entries-Advances, unchanged_not_kept,
}
use soroban_tools.Snapshot.Streams.{Round, no_round, full_round, start, fresh_next}
use soroban_tools.Snapshot.Rounds.{all_entries, TwoRounds, search_from-TwoRounds}

module _ (L : LedgerTypes) where
  is_empty-contains :
      {A : Type 0} (eq : A → A → Bool) (xs : List A) (a : A)
      → is_empty xs ≡ true
      → contains eq xs a ≡ false
  is_empty-contains eq [] a h = refl
  is_empty-contains eq (x ∷ xs) a h = absurd (ground (arith, h))

  inputs_empty-keep :
      (c : SearchInputs L) (k : LedgerKey L) → inputs_empty L c ≡ true → keep L c k ≡ false
  unfolding keep inputs_empty
  inputs_empty-keep c (account id) h =
      is_empty-contains L.account_eq c.account_ids id (ground (arith, h))
  inputs_empty-keep c (trustline id asset) h =
      is_empty-contains L.account_eq c.account_ids id (ground (arith, h))
  inputs_empty-keep c (contract_data contract key durability) h =
      is_empty-contains L.address_eq c.contract_ids contract (ground (arith, h))
  inputs_empty-keep c (contract_code hash) h =
      is_empty-contains L.hash_eq c.wasm_hashes hash (ground (arith, h))
  inputs_empty-keep c (offer id n) h = refl
  inputs_empty-keep c (data_key id name) h = refl
  inputs_empty-keep c (claimable_balance id) h = refl
  inputs_empty-keep c (liquidity_pool id) h = refl
  inputs_empty-keep c (config_setting id) h = refl
  inputs_empty-keep c (ttl hash) h = refl

module _ (L : LedgerTypes) (K : KeyEq L) {E : Type 0}
    (issuer_of : L.ScMap → Result E (Option L.AccountId)) where
  Round-Advances :
      (es : List (BucketEntry L)) (c : SearchInputs L) (k : LedgerKey L) (s t : Search L)
      → Fresh L K issuer_of c k s
      → Round L K issuer_of es c s t
      → Advances L K issuer_of c k (occurs_in L K k es) (newest L K k es) s t
  Round-Advances es c k s t f (full_round h) = search_entries-Advances L K issuer_of c k es s t f h
  Round-Advances es c k s t f (no_round q e) =
      let never : ((keep L c k && occurs_in L K k es) ≡ false) =
        ground (arith, inputs_empty-keep L c k q) in
      subst
        (λ (x : Search L). Advances L K issuer_of c k (occurs_in L K k es) (newest L K k es) s x) e
        (unchanged_not_kept L K issuer_of c k (occurs_in L K k es) (newest L K k es) s never f)

  module _ (open_bucket : String → Result E (List (Result E (BucketEntry L)))) where
    pub TwoRounds-lookup_entry :
        (es : List (BucketEntry L)) (c : SearchInputs L) (t : Search L)
        (r : TwoRounds L K issuer_of open_bucket es c t) (k : LedgerKey L)
        → lookup_entry L K k t.ledger_entries
          ≡ (if keep L c k || keep L r.first_end.next k then newest L K k es else none)
    TwoRounds-lookup_entry es c t r k =
        let s = r.first_end in
        let a = Round-Advances es c k (start L) s (λ n. refl) r.first_round in
        let f =
          Advances-Fresh L K issuer_of c k (occurs_in L K k es) (newest L K k es) (start L) s a in
        let b = Round-Advances es s.next k (fresh_next L s) t f r.second_round in
        elim (Bool-cases (occurs_in L K k es)) [
          | inl o ↦ ground (arith, o, a.entries, a.seen, b.entries)
          | inr o ↦ ground (arith, o, a.entries, a.seen, b.entries, not_in-newest L K k es o)
        ]

    -- Where every bucket is read and the search succeeds, a key that the inputs ask for has in the
    -- snapshot its newest version in the order of the buckets, or no entry where that version is a
    -- removal or there is none, and every entry of the snapshot is the newest version of its key.
    pub search_from-newest :
        (n : ℕ) (es : List (BucketEntry L)) (c : SearchInputs L) (bs : List String) (t : Search L)
        (k : LedgerKey L)
        → all_entries L K issuer_of open_bucket bs ≡ ok es
        → search_from L issuer_of K open_bucket (suc (suc (suc n))) c bs (start L) ≡ some (ok t)
        → (keep L c k ≡ true → lookup_entry L K k t.ledger_entries ≡ newest L K k es)
          × ((v : LedgerEntry L × Option ℕ)
              → lookup_entry L K k t.ledger_entries ≡ some v
              → newest L K k es ≡ some v)
    search_from-newest n es c bs t k r h =
        let two = search_from-TwoRounds L K issuer_of open_bucket n es c bs t r h in
        let e = TwoRounds-lookup_entry es c t two k in
        (
          (λ q. ground (arith, e, q)),
          (λ v f. elim (Bool-cases (keep L c k || keep L two.first_end.next k)) [
            | inl q ↦ ground (arith, e, q, f)
            | inr q ↦ absurd (ground (arith, e, q, f))
          ]),
        )
