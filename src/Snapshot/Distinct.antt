-- ===== src/Snapshot/Distinct.antt =====
-- No key is twice in a snapshot.
use soroban_tools.Prelude.{
  ℕ, suc, String, false, Option, none, some, List, [], ◌∷◌, ◌++◌, ◌≡◌, inl, inr, arith, refl, sym,
  Bool-cases,
}
use mathlib.Core.Path.{subst}
use soroban_tools.Prelude.Result.{Result, ok}
use soroban_tools.Snapshot.Entries.{LedgerTypes, LedgerKey, BucketEntry, KeyEq, data_into_key}
use soroban_tools.Snapshot.Search.{
  contains, SearchInputs, Search, search_from, search_entry, u32_max,
}
use soroban_tools.Snapshot.Newest.{lookup_entry, Saved, speaks_of, version}
use soroban_tools.Snapshot.Advances.{Advances-Fresh, search_entry-Advances}
use soroban_tools.Snapshot.Steps.{skipped, saved, search_entry-Entered}
use soroban_tools.Snapshot.Streams.{Round, no_round, full_round, start, fresh_next, keeps_fact}
use soroban_tools.Snapshot.Rounds.{all_entries, search_from-TwoRounds}

module _ (L : LedgerTypes) (K : KeyEq L) where
  -- Each key is not among the later ones.
  abbrev pub Distinct : List (LedgerKey L × Saved L) → Type 0
  Distinct [] = Unit
  Distinct ((k, v) ∷ xs) = (lookup_entry L K k xs ≡ none) × Distinct xs

  lookup_entry-snoc_other :
      (k j : LedgerKey L) (v : Saved L) (xs : List (LedgerKey L × Saved L))
      → K.key_eq j k ≡ false
      → lookup_entry L K k xs ≡ none
      → lookup_entry L K k (xs ++ ((j, v) ∷ [])) ≡ none
  lookup_entry-snoc_other k j v [] n h = ground (arith, n)
  lookup_entry-snoc_other k j v ((i, w) ∷ xs) n h =
      ground (arith, h, n, lookup_entry-snoc_other k j v xs n)

  key_eq_comm : (j k : LedgerKey L) → K.key_eq j k ≡ false → K.key_eq k j ≡ false
  key_eq_comm j k h = elim (Bool-cases (K.key_eq k j)) [
    | inr e ↦ e
    | inl e ↦
        let same : (j ≡ k) = sym ((K.key_eq_iff k j).0 e) in
        absurd (ground (arith, h, (K.key_eq_iff j k).1 same))
  ]

  Distinct-snoc :
      (j : LedgerKey L) (v : Saved L) (xs : List (LedgerKey L × Saved L))
      → lookup_entry L K j xs ≡ none
      → Distinct xs
      → Distinct (xs ++ ((j, v) ∷ []))
  Distinct-snoc j v [] h d = (refl, tt)
  Distinct-snoc j v ((i, w) ∷ xs) h d =
      let other : (K.key_eq i j ≡ false) = ground (arith, h) in
      (
        lookup_entry-snoc_other i j v xs (key_eq_comm i j other) d.0,
        Distinct-snoc j v xs (ground (arith, h, other)) d.1,
      )

  module _ {E : Type 0} (issuer_of : L.ScMap → Result E (Option L.AccountId)) where
    module _ (c : SearchInputs L) where
      abbrev IsDistinct : Search L → Type 0
      IsDistinct s =
          Distinct s.ledger_entries
          × ((k : LedgerKey L)
              → contains K.key_eq s.seen k ≡ false
              → lookup_entry L K k s.ledger_entries ≡ none)

      entry-IsDistinct :
          (e : BucketEntry L) (s t : Search L)
          → search_entry L issuer_of K c e s ≡ ok t
          → IsDistinct s
          → IsDistinct t
      entry-IsDistinct e s t h (d, f) = (
        elim (search_entry-Entered L K issuer_of c e s t h) [
          | skipped a b ↦ subst Distinct (sym a) d
          | saved l k n g a ↦ subst Distinct (sym a) (
              Distinct-snoc (data_into_key L l) (l, some u32_max) s.ledger_entries
                (f (data_into_key L l) n) d)
        ],
        (λ k.
            let a = search_entry-Advances L K issuer_of c k e s t (f k) h in
            Advances-Fresh L K issuer_of c k (speaks_of L K k e) (version L K e) s t a),
      )

      Round-IsDistinct :
          (es : List (BucketEntry L)) (s t : Search L)
          → Round L K issuer_of es c s t
          → IsDistinct s
          → IsDistinct t
      Round-IsDistinct es s t (no_round q e) p = subst IsDistinct e p
      Round-IsDistinct es s t (full_round h) p =
          keeps_fact L K issuer_of c IsDistinct entry-IsDistinct es s t h p

    module _ (open_bucket : String → Result E (List (Result E (BucketEntry L)))) where
      -- Where every bucket is read and the search succeeds, no key is twice in the snapshot.
      pub search_from-Distinct :
          (n : ℕ) (es : List (BucketEntry L)) (c : SearchInputs L) (bs : List String) (t : Search L)
          → all_entries L K issuer_of open_bucket bs ≡ ok es
          → search_from L issuer_of K open_bucket (suc (suc (suc n))) c bs (start L) ≡ some (ok t)
          → Distinct t.ledger_entries
      search_from-Distinct n es c bs t r h =
          let two = search_from-TwoRounds L K issuer_of open_bucket n es c bs t r h in
          let s = two.first_end in
          let first = Round-IsDistinct c es (start L) s two.first_round (tt, (λ k e. refl)) in
          (Round-IsDistinct s.next es (fresh_next L s) t two.second_round first).0
