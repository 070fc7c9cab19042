-- ===== src/Snapshot/Newest.antt =====
-- The newest version of a key in a stream of bucket entries, which is the first in the order of the
-- buckets, and the entries of a snapshot by key.
use soroban_tools.Prelude.{
  ℕ, Bool, true, false, ◌||◌, Option, none, some, List, [], ◌∷◌, ◌++◌, if◌then◌else◌, ◌≡◌, inl, inr,
  arith, refl, Bool-cases,
}
use soroban_tools.Snapshot.Entries.{
  LedgerTypes, LedgerKey, LedgerEntry, BucketEntry, KeyEq, data_into_key, live_entry, init_entry,
  dead_entry, meta_entry,
}
use soroban_tools.Snapshot.Search.{u32_max}

abbrev pub Saved : LedgerTypes → Type 0
Saved L = LedgerEntry L × Option ℕ

module _ (L : LedgerTypes) (K : KeyEq L) where
  abbrev pub lookup_entry : LedgerKey L → List (LedgerKey L × Saved L) → Option (Saved L)
  lookup_entry k [] = none
  lookup_entry k ((j, v) ∷ rest) = if K.key_eq j k then some v else lookup_entry k rest

  abbrev pub saved_as : Option (LedgerEntry L) → Option (Saved L)
  saved_as none = none
  saved_as (some l) = some (l, some u32_max)

  -- What a bucket entry says of a key, over what older entries say.
  abbrev pub version_over : LedgerKey L → Option (Saved L) → BucketEntry L → Option (Saved L)
  version_over k older (live_entry l) =
      if K.key_eq (data_into_key L l) k then some (l, some u32_max) else older
  version_over k older (init_entry l) =
      if K.key_eq (data_into_key L l) k then some (l, some u32_max) else older
  version_over k older (dead_entry j) = if K.key_eq j k then none else older
  version_over k older (meta_entry v) = older

  -- The newest version of a key in a stream, `none` where it is dead or absent.
  abbrev pub newest : LedgerKey L → List (BucketEntry L) → Option (Saved L)
  newest k [] = none
  newest k (e ∷ es) = version_over k (newest k es) e

  abbrev pub with_saved :
      LedgerKey L
      → Option (LedgerEntry L)
      → List (LedgerKey L × Saved L)
      → List (LedgerKey L × Saved L)
  with_saved j none xs = xs
  with_saved j (some l) xs = xs ++ ((j, (l, some u32_max)) ∷ [])

  lookup_entry-snoc :
      (k j : LedgerKey L) (v : Saved L) (xs : List (LedgerKey L × Saved L))
      → (K.key_eq j k ≡ true → lookup_entry k xs ≡ none)
      → lookup_entry k (xs ++ ((j, v) ∷ [])) ≡ (if K.key_eq j k then some v else lookup_entry k xs)
  lookup_entry-snoc k j v [] h = refl
  lookup_entry-snoc k j v ((i, w) ∷ xs) h = elim (Bool-cases (K.key_eq i k)) [
    | inl e ↦ ground (arith, e, h)
    | inr e ↦ ground (
      arith,
      e,
      lookup_entry-snoc k j v xs (λ (o : K.key_eq j k ≡ true). let r = h o in ground (arith, e, r)),
    )
  ]

  pub lookup_entry-with_saved :
      (k j : LedgerKey L) (v : Option (LedgerEntry L)) (xs : List (LedgerKey L × Saved L))
      → (K.key_eq j k ≡ true → lookup_entry k xs ≡ none)
      → lookup_entry k (with_saved j v xs)
        ≡ (if K.key_eq j k then saved_as v else lookup_entry k xs)
  lookup_entry-with_saved k j none xs h = elim (Bool-cases (K.key_eq j k)) [
    | inl e ↦ ground (arith, e, h e)
    | inr e ↦ ground (arith, e)
  ]
  lookup_entry-with_saved k j (some l) xs h = lookup_entry-snoc k j (l, some u32_max) xs h

  -- The keys that an entry and a stream speak of.
  abbrev pub speaks_of : LedgerKey L → BucketEntry L → Bool
  speaks_of k (live_entry l) = K.key_eq (data_into_key L l) k
  speaks_of k (init_entry l) = K.key_eq (data_into_key L l) k
  speaks_of k (dead_entry j) = K.key_eq j k
  speaks_of k (meta_entry v) = false

  abbrev pub occurs_in : LedgerKey L → List (BucketEntry L) → Bool
  occurs_in k [] = false
  occurs_in k (e ∷ es) = speaks_of k e || occurs_in k es

  abbrev pub version : BucketEntry L → Option (Saved L)
  version (live_entry l) = some (l, some u32_max)
  version (init_entry l) = some (l, some u32_max)
  version (dead_entry j) = none
  version (meta_entry v) = none

  pub version_over-version :
      (k : LedgerKey L) (older : Option (Saved L)) (e : BucketEntry L)
      → version_over k older e ≡ (if speaks_of k e then version e else older)
  version_over-version k older (live_entry l) = refl
  version_over-version k older (init_entry l) = refl
  version_over-version k older (dead_entry j) = refl
  version_over-version k older (meta_entry v) = refl

  pub not_in-newest :
      (k : LedgerKey L) (es : List (BucketEntry L)) → occurs_in k es ≡ false → newest k es ≡ none
  not_in-newest k [] h = refl
  not_in-newest k (live_entry l ∷ es) h = ground (arith, h, not_in-newest k es)
  not_in-newest k (init_entry l ∷ es) h = ground (arith, h, not_in-newest k es)
  not_in-newest k (dead_entry j ∷ es) h = ground (arith, h, not_in-newest k es)
  not_in-newest k (meta_entry v ∷ es) h = not_in-newest k es h
