-- ===== src/Snapshot/Streams.antt =====
-- The search of a stream of bucket entries: the frames of a bucket as a stream, what every entry keeps,
-- and streams that are searched without contracts.
use soroban_tools.Prelude.{
  Bool, true, false, Option, List, [], ◌∷◌, ◌++◌, ◌≡◌, inl, inr, arith, refl, ap, ◌∙◌, sym,
}
use mathlib.Core.Path.{subst}
use soroban_tools.Prelude.Result.{Result, ok, err, ◌>>=◌, Result-cases, ok_eq}
use soroban_tools.Snapshot.Entries.{
  LedgerTypes, LedgerEntry, BucketEntry, KeyEq, ScVal, data_into_key, contract_data, account_entry,
  trustline_entry, offer_entry, data_entry, claimable_balance_entry, liquidity_pool_entry,
  contract_data_entry, contract_code_entry, config_setting_entry, ttl_entry,
}
use soroban_tools.Snapshot.Search.{
  contains, SearchInputs, Search, keep, follow, search_entry, no_inputs, inputs_empty,
  search_bucket,
}
use soroban_tools.Snapshot.Advances.{search_entries}
use soroban_tools.Snapshot.Steps.{
  Added, nothing, a_wasm, an_issuer, skipped, saved, search_entry-Entered, follow-Added,
}

module _ (L : LedgerTypes) where
  abbrev pub fresh_next : Search L → Search L
  fresh_next s = record s { next = no_inputs L }

  abbrev pub start : Search L
  start = record { protocol_version = 0; ledger_entries = []; seen = []; next = no_inputs L }

module _ (L : LedgerTypes) (K : KeyEq L) {E : Type 0}
    (issuer_of : L.ScMap → Result E (Option L.AccountId)) where
  abbrev pub frames_read : List (Result E (BucketEntry L)) → Result E (List (BucketEntry L))
  frames_read [] = ok []
  frames_read (frame ∷ frames) = do entry ← frame; rest ← frames_read frames; ok (entry ∷ rest)

  module _ (c : SearchInputs L) where
    abbrev pub entries_search : List (BucketEntry L) → Search L → Result E (Search L)
    entries_search = search_entries L K issuer_of c

    pub search_entries-append :
        (xs ys : List (BucketEntry L)) (s t u : Search L)
        → entries_search xs s ≡ ok t
        → entries_search ys t ≡ ok u
        → entries_search (xs ++ ys) s ≡ ok u
    unfolding search_entries
    search_entries-append [] ys s t u h k = ground (arith, h, k)
    search_entries-append (x ∷ xs) ys s t u h k =
        elim (Result-cases (search_entry L issuer_of K c x s)) [
          | inr (r, q) ↦ absurd (ground (arith, q, h))
          | inl (v, q) ↦
              let rest = search_entries-append xs ys v t u (ground (arith, q, h)) k in
              ground (arith, q, rest)
        ]

    pub search_bucket-entries :
        (frames : List (Result E (BucketEntry L))) (s t : Search L)
        → search_bucket L issuer_of K c frames s ≡ ok t
        → (es : List (BucketEntry L)) × (frames_read frames ≡ ok es) × (entries_search es s ≡ ok t)
    unfolding search_bucket search_entries
    search_bucket-entries [] s t h = ([], refl, h)
    search_bucket-entries (err e ∷ frames) s t h = absurd (ground (arith, h))
    search_bucket-entries (ok e ∷ frames) s t h =
        elim (Result-cases (search_entry L issuer_of K c e s)) [
          | inr (r, q) ↦ absurd (ground (arith, q, h))
          | inl (v, q) ↦
              let (es, f, g) = search_bucket-entries frames v t (ground (arith, q, h)) in
              (e ∷ es, ground (arith, f), ground (arith, q, g))
        ]

    -- Facts that every entry of a stream keeps.
    pub keeps_fact :
        (P : Search L → Type 0)
        → ((e : BucketEntry L) (s t : Search L)
            → search_entry L issuer_of K c e s ≡ ok t
            → P s
            → P t)
        → (es : List (BucketEntry L)) (s t : Search L) → entries_search es s ≡ ok t
        → P s
        → P t
    unfolding search_entries
    keeps_fact P step [] s t h p = subst P (ok_eq h) p
    keeps_fact P step (e ∷ es) s t h p = elim (Result-cases (search_entry L issuer_of K c e s)) [
      | inr (r, q) ↦ absurd (ground (arith, q, h))
      | inl (u, q) ↦ keeps_fact P step es u t (ground (arith, q, h)) (step e s u q p)
    ]

    Added-contract_ids :
        (next after : SearchInputs L) → Added L next after → after.contract_ids ≡ next.contract_ids
    Added-contract_ids next after nothing = refl
    Added-contract_ids next after (a_wasm hash) = refl
    Added-contract_ids next after (an_issuer issuer) = refl

    pub entry-contract_ids :
        (e : BucketEntry L) (s t : Search L)
        → search_entry L issuer_of K c e s ≡ ok t
        → s.next.contract_ids ≡ []
        → t.next.contract_ids ≡ []
    entry-contract_ids e s t h p = elim (search_entry-Entered L K issuer_of c e s t h) [
      | skipped a b ↦ ap (λ (n : SearchInputs L). n.contract_ids) b ∙ p
      | saved l k n f a ↦
          Added-contract_ids s.next t.next (follow-Added L K issuer_of c l s.next t.next f) ∙ p
    ]

    -- Without contracts among the inputs no contract data is saved.
    module _ (none_left : c.contract_ids ≡ []) where
      pub keep-no_data :
          (contract : L.ScAddress) (key : ScVal L) (durability : Bool)
          → keep L c (contract_data contract key durability) ≡ false
      unfolding keep
      keep-no_data contract key durability =
          ap (λ (xs : List L.ScAddress). contains L.address_eq xs contract) none_left

      follow-no_data :
          (l : LedgerEntry L) (next after : SearchInputs L)
          → keep L c (data_into_key L l) ≡ true
          → follow L issuer_of l c next ≡ ok after
          → next ≡ after
      unfolding follow data_into_key
      follow-no_data (contract_data_entry contract key durability val) next after k h =
          absurd (ground (arith, k, keep-no_data contract key durability))
      follow-no_data (account_entry id rest) next after k h = ok_eq h
      follow-no_data (trustline_entry id asset rest) next after k h = ok_eq h
      follow-no_data (offer_entry id n rest) next after k h = ok_eq h
      follow-no_data (data_entry id name rest) next after k h = ok_eq h
      follow-no_data (claimable_balance_entry id rest) next after k h = ok_eq h
      follow-no_data (liquidity_pool_entry id rest) next after k h = ok_eq h
      follow-no_data (contract_code_entry hash rest) next after k h = ok_eq h
      follow-no_data (config_setting_entry e) next after k h = ok_eq h
      follow-no_data (ttl_entry hash n) next after k h = ok_eq h

      pub entry-next :
          (e : BucketEntry L) (s t : Search L)
          → search_entry L issuer_of K c e s ≡ ok t
          → s.next ≡ no_inputs L
          → t.next ≡ no_inputs L
      entry-next e s t h p = elim (search_entry-Entered L K issuer_of c e s t h) [
        | skipped a b ↦ b ∙ p
        | saved l k n f a ↦ sym (follow-no_data l s.next t.next k f) ∙ p
      ]

  -- A round of the loop over the stream.
  pub data Round (es : List (BucketEntry L)) (c : SearchInputs L) (s t : Search L) : Type 0 where
    no_round : inputs_empty L c ≡ true → s ≡ t → Round es c s t
    full_round : search_entries L K issuer_of c es s ≡ ok t → Round es c s t
