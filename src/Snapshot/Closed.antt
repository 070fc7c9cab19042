-- ===== src/Snapshot/Closed.antt =====
-- A snapshot is closed: with the instance of a contract it has the newest version of its code, or of the
-- account that issues its asset.
use soroban_tools.Prelude.{
  ℕ, suc, String, true, ◌||◌, Option, none, some, List, [], ◌∷◌, ◌++◌, ◌≡◌, inl, inr, arith, refl,
  sym, Bool-cases, All, All-mono,
}
use mathlib.Core.Path.{subst}
use soroban_tools.Prelude.Result.{Result, ok}
use soroban_tools.Snapshot.Entries.{
  LedgerTypes, LedgerKey, LedgerEntry, BucketEntry, KeyEq, ScVal, ContractExecutable, data_into_key,
  wasm, stellar_asset, ledger_key_contract_instance, contract_instance, other_val, account,
  contract_code, account_entry, trustline_entry, offer_entry, data_entry, claimable_balance_entry,
  liquidity_pool_entry, contract_data_entry, contract_code_entry, config_setting_entry, ttl_entry,
}
use soroban_tools.Snapshot.Search.{
  contains, SearchInputs, Search, keep, follow, search_from, search_entry, u32_max, follow_data,
  add_wasm, add_issuer,
}
use soroban_tools.Snapshot.Newest.{newest, lookup_entry, Saved}
use soroban_tools.Snapshot.Steps.{
  Added, nothing, a_wasm, an_issuer, skipped, saved, search_entry-Entered, follow-Added,
}
use soroban_tools.Snapshot.Streams.{
  Round, no_round, full_round, start, fresh_next, keeps_fact, keep-no_data,
}
use soroban_tools.Snapshot.Rounds.{all_entries, TwoRounds, search_from-TwoRounds}
use soroban_tools.Snapshot.Complete.{TwoRounds-lookup_entry}

All-snoc {ℓ κ} :
    {A : Type ℓ} (P : A → Type κ) (xs : List A) (x : A) → All P xs → P x → All P (xs ++ (x ∷ []))
All-snoc P [] x a p = (p, tt)
All-snoc P (y ∷ xs) x a p = (a.0, All-snoc P xs x a.1 p)

-- The executable and the storage of a contract, where an entry is its instance.
module _ (L : LedgerTypes) where
  abbrev pub instance_val : ScVal L → Option (ContractExecutable L × Option L.ScMap)
  instance_val (contract_instance executable storage) = some (executable, storage)
  instance_val ledger_key_contract_instance = none
  instance_val (other_val v) = none

  abbrev pub instance_at : ScVal L → ScVal L → Option (ContractExecutable L × Option L.ScMap)
  instance_at ledger_key_contract_instance val = instance_val val
  instance_at (contract_instance executable storage) val = none
  instance_at (other_val v) val = none

  abbrev pub instance_of : LedgerEntry L → Option (ContractExecutable L × Option L.ScMap)
  instance_of (contract_data_entry contract key durability val) = instance_at key val
  instance_of (account_entry id rest) = none
  instance_of (trustline_entry id asset rest) = none
  instance_of (offer_entry id n rest) = none
  instance_of (data_entry id name rest) = none
  instance_of (claimable_balance_entry id rest) = none
  instance_of (liquidity_pool_entry id rest) = none
  instance_of (contract_code_entry hash rest) = none
  instance_of (config_setting_entry e) = none
  instance_of (ttl_entry hash n) = none

module _ (L : LedgerTypes) (K : KeyEq L) {E : Type 0}
    (issuer_of : L.ScMap → Result E (Option L.AccountId)) where
  -- What an instance refers to is among the inputs of this round, or of the next.
  module _ (c : SearchInputs L) where
    abbrev Referred : SearchInputs L → Option (ContractExecutable L × Option L.ScMap) → Type 0
    Referred next none = Unit
    Referred next (some (wasm hash, storage)) =
        (contains L.hash_eq c.wasm_hashes hash || contains L.hash_eq next.wasm_hashes hash) ≡ true
    Referred next (some (stellar_asset, none)) = Unit
    Referred next (some (stellar_asset, some storage)) =
        (issuer : L.AccountId)
        → issuer_of storage ≡ ok (some issuer)
        → contains L.account_eq next.account_ids issuer ≡ true

    abbrev EntryReferred : SearchInputs L → LedgerKey L × Saved L → Type 0
    EntryReferred next (key, (l, live_until)) = Referred next (instance_of L l)

    Referred-Added :
        (next after : SearchInputs L) (i : Option (ContractExecutable L × Option L.ScMap))
        → Added L next after
        → Referred next i
        → Referred after i
    Referred-Added next after none a r = tt
    Referred-Added next after (some (stellar_asset, none)) a r = tt
    Referred-Added next after (some (wasm hash, storage)) nothing r = r
    Referred-Added next after (some (wasm hash, storage)) (a_wasm h) r = ground (arith, r)
    Referred-Added next after (some (wasm hash, storage)) (an_issuer i) r = r
    Referred-Added next after (some (stellar_asset, some storage)) nothing r = r
    Referred-Added next after (some (stellar_asset, some storage)) (a_wasm h) r = r
    Referred-Added next after (some (stellar_asset, some storage)) (an_issuer i) r =
        λ issuer q. ground (arith, r issuer q)

    data-Referred :
        (key val : ScVal L) (next after : SearchInputs L)
        → follow_data L issuer_of key val c next ≡ ok after
        → Referred after (instance_at L key val)
    data-Referred (contract_instance x storage) val next after h = tt
    data-Referred (other_val v) val next after h = tt
    data-Referred ledger_key_contract_instance ledger_key_contract_instance next after h = tt
    data-Referred ledger_key_contract_instance (other_val v) next after h = tt
    data-Referred ledger_key_contract_instance (contract_instance stellar_asset none) next after h =
        tt
    data-Referred ledger_key_contract_instance (contract_instance (wasm hash) storage) next after
          h =
        elim (Bool-cases (contains L.hash_eq c.wasm_hashes hash)) [
          | inl e ↦ ground (arith, e)
          | inr e ↦
              let added : (add_wasm L hash next ≡ after) = ground (arith, e, h) in
              ground (arith, e, added, (L.hash_eq_iff hash hash).1 refl)
        ]
    data-Referred ledger_key_contract_instance (contract_instance stellar_asset (some storage)) next
          after h =
        λ issuer q.
          let added : (add_issuer L (some issuer) next ≡ after) = ground (arith, q, h) in
          ground (arith, added, (L.account_eq_iff issuer issuer).1 refl)

    follow-Referred :
        (l : LedgerEntry L) (next after : SearchInputs L)
        → follow L issuer_of l c next ≡ ok after
        → Referred after (instance_of L l)
    unfolding follow
    follow-Referred (contract_data_entry contract key durability val) next after h =
        data-Referred key val next after h
    follow-Referred (account_entry id rest) next after h = tt
    follow-Referred (trustline_entry id asset rest) next after h = tt
    follow-Referred (offer_entry id n rest) next after h = tt
    follow-Referred (data_entry id name rest) next after h = tt
    follow-Referred (claimable_balance_entry id rest) next after h = tt
    follow-Referred (liquidity_pool_entry id rest) next after h = tt
    follow-Referred (contract_code_entry hash rest) next after h = tt
    follow-Referred (config_setting_entry e) next after h = tt
    follow-Referred (ttl_entry hash n) next after h = tt

    abbrev AllReferred : Search L → Type 0
    AllReferred s = All (EntryReferred s.next) s.ledger_entries

    All-eq :
        (n m : SearchInputs L) (xs ys : List (LedgerKey L × Saved L))
        → m ≡ n
        → ys ≡ xs
        → All (EntryReferred n) xs
        → All (EntryReferred m) ys
    All-eq n m xs ys e f a =
        subst (λ (zs : List (LedgerKey L × Saved L)). All (EntryReferred m) zs) (sym f)
          (subst (λ (x : SearchInputs L). All (EntryReferred x) xs) (sym e) a)

    entry-AllReferred :
        (e : BucketEntry L) (s t : Search L)
        → search_entry L issuer_of K c e s ≡ ok t
        → AllReferred s
        → AllReferred t
    entry-AllReferred e s t h p = elim (search_entry-Entered L K issuer_of c e s t h) [
      | skipped a b ↦ All-eq s.next t.next s.ledger_entries t.ledger_entries b a p
      | saved l k n f a ↦
          let grown =
            All-mono (EntryReferred s.next) (EntryReferred t.next)
              (λ x r.
                Referred-Added s.next t.next (instance_of L x.1.0)
                  (follow-Added L K issuer_of c l s.next t.next f) r)
              s.ledger_entries p in
          All-eq t.next t.next (s.ledger_entries ++ ((data_into_key L l, (l, some u32_max)) ∷ []))
            t.ledger_entries refl a
            (All-snoc (EntryReferred t.next) s.ledger_entries (data_into_key L l, (l, some u32_max))
              grown (follow-Referred l s.next t.next f))
    ]

    Round-AllReferred :
        (es : List (BucketEntry L)) (t : Search L)
        → Round L K issuer_of es c (start L) t
        → AllReferred t
    Round-AllReferred es t (no_round q e) = subst AllReferred e tt
    Round-AllReferred es t (full_round h) =
        keeps_fact L K issuer_of c AllReferred entry-AllReferred es (start L) t h tt

  -- Without contracts among the inputs no instance is saved.
  module _ (c : SearchInputs L) (none_left : c.contract_ids ≡ []) where
    keep-no_instance :
        (l : LedgerEntry L) → keep L c (data_into_key L l) ≡ true → instance_of L l ≡ none
    unfolding keep data_into_key
    keep-no_instance (contract_data_entry contract key durability val) k =
        absurd (ground (arith, k, keep-no_data L K issuer_of c none_left contract key durability))
    keep-no_instance (account_entry id rest) k = refl
    keep-no_instance (trustline_entry id asset rest) k = refl
    keep-no_instance (offer_entry id n rest) k = refl
    keep-no_instance (data_entry id name rest) k = refl
    keep-no_instance (claimable_balance_entry id rest) k = refl
    keep-no_instance (liquidity_pool_entry id rest) k = refl
    keep-no_instance (contract_code_entry hash rest) k = refl
    keep-no_instance (config_setting_entry e) k = refl
    keep-no_instance (ttl_entry hash n) k = refl

    module _ (d : SearchInputs L) (n : SearchInputs L) where
      abbrev AllReferredTo : Search L → Type 0
      AllReferredTo s = All (EntryReferred d n) s.ledger_entries

      entry-AllReferredTo :
          (e : BucketEntry L) (s t : Search L)
          → search_entry L issuer_of K c e s ≡ ok t
          → AllReferredTo s
          → AllReferredTo t
      entry-AllReferredTo e s t h p = elim (search_entry-Entered L K issuer_of c e s t h) [
        | skipped a b ↦ All-eq d n n s.ledger_entries t.ledger_entries refl a p
        | saved l k new f a ↦
            All-eq d n n (s.ledger_entries ++ ((data_into_key L l, (l, some u32_max)) ∷ []))
              t.ledger_entries refl a
              (All-snoc (EntryReferred d n) s.ledger_entries (data_into_key L l, (l, some u32_max))
                p (subst (Referred d n) (sym (keep-no_instance l k)) tt))
      ]

      Round-AllReferredTo :
          (es : List (BucketEntry L)) (s t : Search L)
          → Round L K issuer_of es c s t
          → AllReferredTo s
          → AllReferredTo t
      Round-AllReferredTo es s t (no_round q e) a = subst AllReferredTo e a
      Round-AllReferredTo es s t (full_round h) a =
          keeps_fact L K issuer_of c AllReferredTo entry-AllReferredTo es s t h a

  -- What an instance refers to is in a list of entries as in the stream.
  abbrev pub Present :
      List (BucketEntry L)
      → List (LedgerKey L × Saved L)
      → Option (ContractExecutable L × Option L.ScMap)
      → Type 0
  Present es xs none = Unit
  Present es xs (some (wasm hash, storage)) =
      lookup_entry L K (contract_code hash) xs ≡ newest L K (contract_code hash) es
  Present es xs (some (stellar_asset, none)) = Unit
  Present es xs (some (stellar_asset, some storage)) =
      (issuer : L.AccountId)
      → issuer_of storage ≡ ok (some issuer)
      → lookup_entry L K (account issuer) xs ≡ newest L K (account issuer) es

  abbrev pub PresentFor :
      List (BucketEntry L) → List (LedgerKey L × Saved L) → LedgerKey L × Saved L → Type 0
  PresentFor es xs (key, (l, live_until)) = Present es xs (instance_of L l)

  module _ (open_bucket : String → Result E (List (Result E (BucketEntry L)))) where
    Referred-Present :
        (es : List (BucketEntry L)) (c : SearchInputs L) (t : Search L)
        (r : TwoRounds L K issuer_of open_bucket es c t)
        (i : Option (ContractExecutable L × Option L.ScMap))
        → Referred c r.first_end.next i
        → Present es t.ledger_entries i
    unfolding keep
    Referred-Present es c t r none h = tt
    Referred-Present es c t r (some (stellar_asset, none)) h = tt
    Referred-Present es c t r (some (wasm hash, storage)) h =
        ground
          (arith, h, TwoRounds-lookup_entry L K issuer_of open_bucket es c t r (contract_code hash))
    Referred-Present es c t r (some (stellar_asset, some storage)) h = λ issuer q.
        let wanted = h issuer q in
        ground (
          arith,
          wanted,
          TwoRounds-lookup_entry L K issuer_of open_bucket es c t r (account issuer),
        )

    -- Where every bucket is read and the search succeeds, with each contract instance of the
    -- snapshot the newest version of its code, or of the account that issues its asset, is in the
    -- snapshot, where it is not removed.
    pub search_from_closed :
        (n : ℕ) (es : List (BucketEntry L)) (c : SearchInputs L) (bs : List String) (t : Search L)
        → all_entries L K issuer_of open_bucket bs ≡ ok es
        → search_from L issuer_of K open_bucket (suc (suc (suc n))) c bs (start L) ≡ some (ok t)
        → All (PresentFor es t.ledger_entries) t.ledger_entries
    search_from_closed n es c bs t r h =
        let two = search_from-TwoRounds L K issuer_of open_bucket n es c bs t r h in
        let s = two.first_end in
        let first = Round-AllReferred c es s two.first_round in
        let all =
          Round-AllReferredTo s.next two.no_contracts c s.next es (fresh_next L s) t
            two.second_round first in
        All-mono (EntryReferred c s.next) (PresentFor es t.ledger_entries)
          (λ x. Referred-Present es c t two (instance_of L x.1.0)) t.ledger_entries all
