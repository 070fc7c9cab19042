-- ===== src/Snapshot/Rounds.antt =====
-- The search of the buckets as a search of the stream of their entries, and the rounds of the loop: a
-- second round is the last.
use soroban_tools.Prelude.{
  ℕ, suc, String, true, false, Option, some, List, [], ◌∷◌, ◌++◌, ◌≡◌, inl, inr, arith, refl, ap,
  ◌∙◌, sym, Bool-cases,
}
use mathlib.Core.Path.{subst}
use soroban_tools.Prelude.Result.{Result, ok, err, ◌>>=◌, Result-cases, ok_eq}
use soroban_tools.Snapshot.Entries.{LedgerTypes, BucketEntry, KeyEq}
use soroban_tools.Snapshot.Search.{
  SearchInputs, Search, no_inputs, inputs_empty, search_bucket, search_buckets, search_from,
}
use soroban_tools.Snapshot.Advances.{search_entries}
use soroban_tools.Snapshot.Streams.{
  frames_read, search_entries-append, search_bucket-entries, keeps_fact, entry-contract_ids,
  entry-next, Round, no_round, full_round, fresh_next, start,
}

module _ (L : LedgerTypes) (K : KeyEq L) {E : Type 0}
    (issuer_of : L.ScMap → Result E (Option L.AccountId))
    (open_bucket : String → Result E (List (Result E (BucketEntry L)))) where
  -- The entries of the buckets, one bucket after the other.
  abbrev pub all_entries : List String → Result E (List (BucketEntry L))
  all_entries [] = ok []
  all_entries (bucket ∷ buckets) = do
    frames ← open_bucket bucket
    entries ← frames_read L K issuer_of frames
    rest ← all_entries buckets
    ok (entries ++ rest)

  module _ (c : SearchInputs L) where
    search_buckets-entries :
        (buckets : List String) (s t : Search L)
        → search_buckets L issuer_of K open_bucket c buckets s ≡ ok t
        → (es : List (BucketEntry L)) × (all_entries buckets ≡ ok es)
          × (search_entries L K issuer_of c es s ≡ ok t)
    unfolding search_buckets search_entries
    search_buckets-entries [] s t h = ([], refl, h)
    search_buckets-entries (bucket ∷ buckets) s t h = elim (Result-cases (open_bucket bucket)) [
      | inr (r, q) ↦ absurd (ground (arith, q, h))
      | inl (frames, q) ↦ elim (Result-cases (search_bucket L issuer_of K c frames s)) [
        | inr (r, p) ↦ absurd (ground (arith, q, p, h))
        | inl (v, p) ↦
            let (xs, f, g) = search_bucket-entries L K issuer_of c frames s v p in
            let (ys, m, n) = search_buckets-entries buckets v t (ground (arith, q, p, h)) in
            (
              xs ++ ys,
              ground (arith, q, f, m),
              search_entries-append L K issuer_of c xs ys s v t g n,
            )
      ]
    ]

  abbrev loop : ℕ → SearchInputs L → List String → Search L → Option (Result E (Search L))
  loop fuel c bs s = search_from L issuer_of K open_bucket fuel c bs s

  no_inputs-empty : inputs_empty L (no_inputs L) ≡ true
  unfolding inputs_empty
  no_inputs-empty = refl

  loop-empty :
      (n : ℕ) (c : SearchInputs L) (bs : List String) (s : Search L)
      → inputs_empty L c ≡ true
      → loop (suc n) c bs s ≡ some (ok s)
  unfolding search_from
  loop-empty n c bs s h = ground (arith, h)

  loop-full :
      (n : ℕ) (c : SearchInputs L) (bs : List String) (s t : Search L)
      → inputs_empty L c ≡ false
      → search_buckets L issuer_of K open_bucket c bs s ≡ ok t
      → loop (suc n) c bs s ≡ loop n t.next bs (fresh_next L t)
  unfolding search_from
  loop-full n c bs s t h e = ground (arith, h, e)

  loop-failed :
      (n : ℕ) (c : SearchInputs L) (bs : List String) (s : Search L) (e : E)
      → inputs_empty L c ≡ false
      → search_buckets L issuer_of K open_bucket c bs s ≡ err e
      → loop (suc n) c bs s ≡ some (err e)
  unfolding search_from
  loop-failed n c bs s e h f = ground (arith, h, f)

  -- One round of the loop fails, is not made for want of inputs, or goes on.
  data Outcome (n : ℕ) (c : SearchInputs L) (bs : List String) (s : Search L) : Type 0 where
    fails : (e : E) → loop (suc n) c bs s ≡ some (err e) → Outcome n c bs s
    ends : inputs_empty L c ≡ true → loop (suc n) c bs s ≡ some (ok s) → Outcome n c bs s
    goes_on :
        (t : Search L)
        → search_buckets L issuer_of K open_bucket c bs s ≡ ok t
        → loop (suc n) c bs s ≡ loop n t.next bs (fresh_next L t)
        → Outcome n c bs s

  loop-Outcome : (n : ℕ) (c : SearchInputs L) (bs : List String) (s : Search L) → Outcome n c bs s
  loop-Outcome n c bs s = elim (Bool-cases (inputs_empty L c)) [
    | inl h ↦ ends h (loop-empty n c bs s h)
    | inr h ↦ elim (Result-cases (search_buckets L issuer_of K open_bucket c bs s)) [
      | inl (t, e) ↦ goes_on t e (loop-full n c bs s t h e)
      | inr (e, f) ↦ fails e (loop-failed n c bs s e h f)
    ]
  ]

  next-contract_ids :
      (c : SearchInputs L) (bs : List String) (t : Search L)
      → search_buckets L issuer_of K open_bucket c bs (start L) ≡ ok t
      → t.next.contract_ids ≡ []
  next-contract_ids c bs t h =
      let (es, r, g) = search_buckets-entries c bs (start L) t h in
      keeps_fact L K issuer_of c (λ (s : Search L). s.next.contract_ids ≡ [])
        (entry-contract_ids L K issuer_of c) es (start L) t g refl

  next_empty :
      (c : SearchInputs L) (bs : List String) (s t : Search L)
      → c.contract_ids ≡ []
      → s.next ≡ no_inputs L
      → search_buckets L issuer_of K open_bucket c bs s ≡ ok t
      → t.next ≡ no_inputs L
  next_empty c bs s t none_left n h =
      let (es, r, g) = search_buckets-entries c bs s t h in
      keeps_fact L K issuer_of c (λ (s : Search L). s.next ≡ no_inputs L)
        (entry-next L K issuer_of c none_left) es s t g n

  abbrev succeeded : Search L → Option (Result E (Search L))
  succeeded s = some (ok s)

  -- After a second round the loop ends.
  loop-second :
      (n : ℕ) (c : SearchInputs L) (bs : List String) (s t : Search L)
      → c.contract_ids ≡ []
      → s.next ≡ no_inputs L
      → search_buckets L issuer_of K open_bucket c bs s ≡ ok t
      → loop (suc n) t.next bs (fresh_next L t) ≡ some (ok t)
  loop-second n c bs s t none_left m h =
      let e = next_empty c bs s t none_left m h in
      let same : (fresh_next L t ≡ t) =
        ap (λ (x : SearchInputs L). record t { next = x }) (sym e) in
      loop-empty n t.next bs (fresh_next L t) (ap (inputs_empty L) e ∙ no_inputs-empty)
      ∙ ap succeeded same

  -- x
  pub search_from_ends :
      (n : ℕ) (c : SearchInputs L) (bs : List String)
      → (r : Result E (Search L)) × (search_from L issuer_of K open_bucket
            (suc (suc (suc n)))
            c
            bs
            (start L)
          ≡ some r)
  search_from_ends n c bs = elim (loop-Outcome (suc (suc n)) c bs (start L)) [
    | fails e h ↦ (err e, h)
    | ends h e ↦ (ok (start L), e)
    | goes_on s f e ↦ elim (loop-Outcome (suc n) s.next bs (fresh_next L s)) [
      | fails r h ↦ (err r, e ∙ h)
      | ends h g ↦ (ok (fresh_next L s), e ∙ g)
      | goes_on t g h ↦ (
        ok t,
        e ∙ (h ∙ loop-second n s.next bs (fresh_next L s) t (next-contract_ids c bs s f) refl g),
      )
    ]
  ]

  some_ok_eq :
      (a b : Search L) → ◌≡◌ {A = Option (Result E (Search L))} (some (ok a)) (some (ok b)) → a ≡ b
  some_ok_eq a b h = cc

  search_buckets-Round :
      (es : List (BucketEntry L)) (c : SearchInputs L) (bs : List String) (s t : Search L)
      → all_entries bs ≡ ok es
      → search_buckets L issuer_of K open_bucket c bs s ≡ ok t
      → Round L K issuer_of es c s t
  search_buckets-Round es c bs s t r h =
      let (xs, q, g) = search_buckets-entries c bs s t h in
      let same : (xs ≡ es) = ok_eq (sym q ∙ r) in
      full_round
        (subst (λ (ys : List (BucketEntry L)). search_entries L K issuer_of c ys s ≡ ok t) same g)

  -- A search that succeeds is two rounds, the second without contracts among its inputs.
  pub record TwoRounds (es : List (BucketEntry L)) (c : SearchInputs L) (t : Search L)
      : Type 0 where
    pub first_end : Search L
    pub first_round : Round L K issuer_of es c (start L) first_end
    pub second_round : Round L K issuer_of es first_end.next (fresh_next L first_end) t
    pub no_contracts : first_end.next.contract_ids ≡ []

  pub search_from-TwoRounds :
      (n : ℕ) (es : List (BucketEntry L)) (c : SearchInputs L) (bs : List String) (t : Search L)
      → all_entries bs ≡ ok es
      → search_from L issuer_of K open_bucket (suc (suc (suc n))) c bs (start L) ≡ some (ok t)
      → TwoRounds es c t
  search_from-TwoRounds n es c bs t r h = elim (loop-Outcome (suc (suc n)) c bs (start L)) [
    | fails e g ↦ absurd (ground (arith, g, h))
    | ends q e ↦ record {
      first_end = (start L);
      first_round = no_round q refl;
      second_round = no_round no_inputs-empty (some_ok_eq (start L) t (sym e ∙ h));
      no_contracts = refl;
    }
    | goes_on s f e ↦ elim (loop-Outcome (suc n) s.next bs (fresh_next L s)) [
      | fails x g ↦ absurd (ground (arith, e, g, h))
      | ends q g ↦ record {
        first_end = s;
        first_round = search_buckets-Round es c bs (start L) s r f;
        second_round = no_round q (some_ok_eq (fresh_next L s) t (sym (e ∙ g) ∙ h));
        no_contracts = next-contract_ids c bs s f;
      }
      | goes_on u g k ↦
          let last =
            loop-second n s.next bs (fresh_next L s) u (next-contract_ids c bs s f) refl g in
          let same : (u ≡ t) = some_ok_eq u t (sym (e ∙ (k ∙ last)) ∙ h) in
          record {
            first_end = s;
            first_round = search_buckets-Round es c bs (start L) s r f;
            second_round =
                subst (λ (x : Search L). Round L K issuer_of es s.next (fresh_next L s) x) same
                  (search_buckets-Round es s.next bs (fresh_next L s) u r g);
            no_contracts = next-contract_ids c bs s f;
          }
    ]
  ]
