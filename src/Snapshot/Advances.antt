-- ===== src/Snapshot/Advances.antt =====
-- What the search of a stream of bucket entries leaves of one key.
use soroban_tools.Prelude.{
  Bool, true, false, ◌&&◌, ◌||◌, Option, none, some, List, [], ◌∷◌, if◌then◌else◌, ◌≡◌, ◌⊎◌, inl,
  inr, arith, ap, ◌∙◌, sym, Bool-cases,
}
use mathlib.Core.Path.{subst}
use soroban_tools.Prelude.Result.{Result, ok, ◌>>=◌, Result-cases}
use soroban_tools.Snapshot.Entries.{
  LedgerTypes, LedgerKey, LedgerEntry, BucketEntry, KeyEq, data_into_key, live_entry, init_entry,
  dead_entry, meta_entry,
}
use soroban_tools.Snapshot.Search.{
  contains, SearchInputs, Search, keep, follow, save, visit, search_entry,
}
use soroban_tools.Snapshot.Newest.{
  Saved, lookup_entry, saved_as, newest, with_saved, lookup_entry-with_saved, speaks_of, occurs_in,
  version, version_over-version,
}

module _ (L : LedgerTypes) (K : KeyEq L) {E : Type 0}
    (issuer_of : L.ScMap → Result E (Option L.AccountId)) (c : SearchInputs L) where
  -- How a state and a later one differ at a key, where the entries between may have a version of it.
  pub record Advances (k : LedgerKey L) (occurs : Bool) (new : Option (Saved L)) (s t : Search L)
      : Type 0 where
    pub entries : lookup_entry L K k t.ledger_entries ≡ (
        if contains K.key_eq s.seen k
        then lookup_entry L K k s.ledger_entries
        else (if keep L c k && occurs then new else none))
    pub seen : contains K.key_eq t.seen k ≡ (contains K.key_eq s.seen k || (keep L c k && occurs))

  -- A key that was not seen has no entry.
  abbrev pub Fresh : LedgerKey L → Search L → Type 0
  Fresh k s = contains K.key_eq s.seen k ≡ false → lookup_entry L K k s.ledger_entries ≡ none

  pub Advances-Fresh :
      (k : LedgerKey L) (occurs : Bool) (new : Option (Saved L)) (s t : Search L)
      → Advances k occurs new s t
      → Fresh k t
  Advances-Fresh k occurs new s t a n = ground (arith, a.entries, a.seen, n)

  Advances-append :
      (k : LedgerKey L) (o p : Bool) (new older : Option (Saved L)) (s t u : Search L)
      → Advances k o new s t
      → Advances k p older t u
      → Advances k (o || p) (if o then new else older) s u
  Advances-append k o p new older s t u a b = record {
    entries = ground (arith, a.entries, a.seen, b.entries);
    seen = ground (arith, a.seen, b.seen);
  }

  save-fields :
      (j : LedgerKey L) (v : Option (LedgerEntry L)) (s t : Search L)
      → save L issuer_of K c j v s ≡ ok t
      → (t.seen ≡ s.seen) × (t.ledger_entries ≡ with_saved L K j v s.ledger_entries)
  unfolding save
  save-fields j none s t h = ground (arith, h)
  save-fields j (some l) s t h = elim (Result-cases (follow L issuer_of l c s.next)) [
    | inl (n, e) ↦ ground (arith, e, h)
    | inr (n, e) ↦ absurd (ground (arith, e, h))
  ]

  kept-Advances :
      (j k : LedgerKey L) (v : Option (LedgerEntry L)) (s t : Search L)
      → keep L c j ≡ true
      → contains K.key_eq s.seen j ≡ false
      → Fresh k s
      → t.seen ≡ j ∷ s.seen
      → t.ledger_entries ≡ with_saved L K j v s.ledger_entries
      → Advances k (K.key_eq j k) (saved_as L K v) s t
  kept-Advances j k v s t q n f seen entries =
      let kept : (K.key_eq j k ≡ true → keep L c k ≡ true) =
        λ e. sym (ap (keep L c) ((K.key_eq_iff j k).0 e)) ∙ q in
      let new : (K.key_eq j k ≡ true → contains K.key_eq s.seen k ≡ false) =
        λ e. sym (ap (contains K.key_eq s.seen) ((K.key_eq_iff j k).0 e)) ∙ n in
      let found = lookup_entry-with_saved L K k j v s.ledger_entries (λ e. f (new e)) in
      elim (Bool-cases (K.key_eq j k)) [
        | inl e ↦ record {
          entries = ground (arith, e, kept e, new e, entries, found);
          seen = ground (arith, e, kept e, new e, seen);
        }
        | inr e ↦ elim (Bool-cases (contains K.key_eq s.seen k)) [
          | inl o ↦ record {
            entries = ground (arith, e, o, entries, found);
            seen = ground (arith, e, o, seen);
          }
          | inr o ↦ record {
            entries = ground (arith, e, o, f o, entries, found);
            seen = ground (arith, e, o, seen);
          }
        ]
      ]

  -- Nothing changes for a key that was seen, or is not kept.
  unchanged_seen :
      (k : LedgerKey L) (o : Bool) (v : Option (Saved L)) (s : Search L)
      → contains K.key_eq s.seen k ≡ true
      → Advances k o v s s
  unchanged_seen k o v s h = record { entries = ground (arith, h); seen = ground (arith, h) }

  pub unchanged_not_kept :
      (k : LedgerKey L) (o : Bool) (v : Option (Saved L)) (s : Search L)
      → (keep L c k && o) ≡ false
      → Fresh k s
      → Advances k o v s s
  unchanged_not_kept k o v s h f = elim (Bool-cases (contains K.key_eq s.seen k)) [
    | inl e ↦ unchanged_seen k o v s e
    | inr e ↦ record { entries = ground (arith, h, e, f e); seen = ground (arith, h, e) }
  ]

  unchanged-Advances :
      (j k : LedgerKey L) (v : Option (Saved L)) (s : Search L)
      → (contains K.key_eq s.seen j ≡ true) ⊎ (keep L c j ≡ false)
      → Fresh k s
      → Advances k (K.key_eq j k) v s s
  unchanged-Advances j k v s (inl n) f = elim (Bool-cases (K.key_eq j k)) [
    | inl e ↦
        let seen : (contains K.key_eq s.seen k ≡ true) =
          sym (ap (contains K.key_eq s.seen) ((K.key_eq_iff j k).0 e)) ∙ n in
        unchanged_seen k (K.key_eq j k) v s seen
    | inr e ↦ unchanged_not_kept k (K.key_eq j k) v s (ground (arith, e)) f
  ]
  unchanged-Advances j k v s (inr q) f = elim (Bool-cases (K.key_eq j k)) [
    | inl e ↦
        let other : (keep L c k ≡ false) = sym (ap (keep L c) ((K.key_eq_iff j k).0 e)) ∙ q in
        unchanged_not_kept k (K.key_eq j k) v s (ground (arith, other)) f
    | inr e ↦ unchanged_not_kept k (K.key_eq j k) v s (ground (arith, e)) f
  ]

  Advances-eq :
      (k : LedgerKey L) (o : Bool) (v : Option (Saved L)) (s t : Search L)
      → s ≡ t
      → Advances k o v s s
      → Advances k o v s t
  Advances-eq k o v s t e a = subst (λ (t : Search L). Advances k o v s t) e a

  visit-Advances :
      (j k : LedgerKey L) (v : Option (LedgerEntry L)) (s t : Search L)
      → Fresh k s
      → visit L issuer_of K c j v s ≡ ok t
      → Advances k (K.key_eq j k) (saved_as L K v) s t
  unfolding visit
  visit-Advances j k v s t f h = elim (Bool-cases (contains K.key_eq s.seen j)) [
    | inl e ↦
        Advances-eq k (K.key_eq j k) (saved_as L K v) s t (ground (arith, e, h))
          (unchanged-Advances j k (saved_as L K v) s (inl e) f)
    | inr e ↦ elim (Bool-cases (keep L c j)) [
      | inr q ↦
          Advances-eq k (K.key_eq j k) (saved_as L K v) s t (ground (arith, e, q, h))
            (unchanged-Advances j k (saved_as L K v) s (inr q) f)
      | inl q ↦
          let after =
            save-fields j v (record s { seen = j ∷ s.seen }) t (ground (arith, e, q, h)) in
          kept-Advances j k v s t q e f after.0 after.1
    ]
  ]

  pub search_entry-Advances :
      (k : LedgerKey L) (e : BucketEntry L) (s t : Search L)
      → Fresh k s
      → search_entry L issuer_of K c e s ≡ ok t
      → Advances k (speaks_of L K k e) (version L K e) s t
  unfolding search_entry
  search_entry-Advances k (live_entry l) s t f h =
      visit-Advances (data_into_key L l) k (some l) s t f h
  search_entry-Advances k (init_entry l) s t f h =
      visit-Advances (data_into_key L l) k (some l) s t f h
  search_entry-Advances k (dead_entry j) s t f h = visit-Advances j k none s t f h
  search_entry-Advances k (meta_entry v) s t f h =
      let a = unchanged_not_kept k false none s (ground arith) f in
      record { entries = ground (arith, a.entries, h); seen = ground (arith, a.seen, h) }

  -- The stream read without errors.
  unfoldable pub search_entries : List (BucketEntry L) → Search L → Result E (Search L)
  search_entries [] s = ok s
  search_entries (e ∷ es) s = do s' ← search_entry L issuer_of K c e s; search_entries es s'

  pub search_entries-Advances :
      (k : LedgerKey L) (es : List (BucketEntry L)) (s t : Search L)
      → Fresh k s
      → search_entries es s ≡ ok t
      → Advances k (occurs_in L K k es) (newest L K k es) s t
  unfolding search_entries
  search_entries-Advances k [] s t f h =
      Advances-eq k false none s t (ground (arith, h))
        (unchanged_not_kept k false none s (ground arith) f)
  search_entries-Advances k (e ∷ es) s t f h =
      elim (Result-cases (search_entry L issuer_of K c e s)) [
        | inr (r, q) ↦ absurd (ground (arith, q, h))
        | inl (u, q) ↦
            let a = search_entry-Advances k e s u f q in
            let b =
              search_entries-Advances k es u t
                (Advances-Fresh k (speaks_of L K k e) (version L K e) s u a)
                (ground (arith, q, h)) in
            rw (version_over-version L K k (newest L K k es) e) (
              Advances-append k (speaks_of L K k e) (occurs_in L K k es) (version L K e)
                (newest L K k es) s u t a b)
      ]
