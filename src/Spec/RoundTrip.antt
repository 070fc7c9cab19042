-- ===== src/Spec/RoundTrip.antt =====
-- JSON that is read at a type is written back as it was.
use soroban_tools.Prelude.{
  ℕ, zero, suc, ◌-◌, ◌/◌, ◌%◌, ◌^◌, ◌≤◌, ◌≡◌, ◌≢◌, refl, ap, ◌∙◌, ◌⊎◌, inl, inr, Bool, true, false,
  List, [], ◌∷◌, length, ==_iff, arith, decimal,
}
use soroban_tools.Prelude.Result.{Result, ok, collect, collect_zip}
use soroban_tools.Spec.Types.{ScType, ScTypes, types, ScVal, vals, to_vals, utf8}
use soroban_tools.Spec.Json.{Value, values, to_values}
use soroban_tools.Spec.Stands.{
  Stands, Each, Zipped, bool, u32, u64, i32, i64, u128, string, symbol, absent, present, vec, tuple,
  done, more, end, next, depth, depth_all, depth_pos,
}
use soroban_tools.Spec.Reading.{
  read_bool, read_u32, read_u64, read_i32, read_i64, read_u128, read_string, read_symbol,
}
use soroban_tools.Spec.Base.{Error, Crates, IsLawful}
use soroban_tools.Spec.Find.{Spec}
use soroban_tools.Spec.Primitives.{u128_parts}
use soroban_tools.Spec.FromJson.{from_json, from_composite, to_sc_vec, parse_tuple}
use soroban_tools.Spec.ToJson.{to_json, u128_value}
use soroban_tools.Spec.Output.{xdr_to_json, xdr_to_json_step, is_null, is_plain, by_type}

-- What stands for JSON other than `null`.
written : ScVal → Bool
written ScVal.void = false
written ScVal.vec_none = false
written ScVal.map_none = false
written (ScVal.bool b) = true
written (ScVal.u32 n) = true
written (ScVal.u64 n) = true
written (ScVal.i32 z) = true
written (ScVal.i64 z) = true
written (ScVal.u128 hi lo) = true
written (ScVal.string s) = true
written (ScVal.symbol s) = true
written (ScVal.vec vs) = true
written _ = false

vals-to_vals : (xs : List ScVal) → vals (to_vals xs) ≡ xs
vals-to_vals [] = refl
vals-to_vals (x ∷ xs) = ap (λ ys. x ∷ ys) (vals-to_vals xs)

module _ {N : Type 0} where
  values-to_values : (vs : List (Value N)) → values (to_values vs) ≡ vs
  values-to_values [] = refl
  values-to_values (v ∷ vs) = ap (λ ws. v ∷ ws) (values-to_values vs)

u128_halves : (n : ℕ) → u128_value (n / 2 ^ 64) (n % 2 ^ 64) ≡ n
unfolding u128_value
u128_halves n = omega arith

module _ (K : Crates) (L : IsLawful K) (spec : Spec) where
  abbrev Returns : ScType → Value K.Number → ℕ → ℕ → Type 0
  Returns t v n m =
      (x : ScVal) × (from_json K n spec v t ≡ ok x)
      × (xdr_to_json K m spec x t ≡ ok v)
      × ((v ≡ Value.null) ⊎ (written x ≡ true))

  abbrev ReturnsEach : ScType → List (Value K.Number) → ℕ → ℕ → Type 0
  ReturnsEach t vs n m =
      (xs : List ScVal) × (collect (λ v. from_json K n spec v t) vs ≡ ok xs)
      × (collect (λ x. xdr_to_json K m spec x t) xs ≡ ok vs)
      × (length xs ≡ length vs)

  abbrev ReturnsAll : ScTypes → List (Value K.Number) → ℕ → ℕ → Type 0
  ReturnsAll ts vs n m =
      (xs : List ScVal) × (collect_zip (λ (v : Value K.Number) (t : ScType). from_json K n spec v t)
          vs (types ts)
        ≡ ok xs)
      × (collect_zip (λ (x : ScVal) (t : ScType). xdr_to_json K m spec x t) xs (types ts) ≡ ok vs)
      × (length xs ≡ length vs)
      × (length vs ≡ length (types ts))

  vec_of : (xs : List ScVal) → length xs ≤ 2 ^ 32 - 1 → to_sc_vec K xs ≡ ok (ScVal.vec (to_vals xs))
  unfolding to_sc_vec
  vec_of xs h = rw (L.fits_up_to (2 ^ 32 - 1) (length xs) h)

  tuple_read :
      (rec : Value K.Number → ScType → Result Error ScVal) (t : ScType) (ts : List ScType)
      (vs : List (Value K.Number)) (xs : List ScVal)
      → length vs ≡ length ts
      → collect_zip (λ (v : Value K.Number) (t : ScType). rec v t) vs ts ≡ ok xs
      → length xs ≤ 2 ^ 32 - 1
      → parse_tuple K rec t ts vs ≡ ok (ScVal.vec (to_vals xs))
  unfolding parse_tuple
  tuple_read rec t ts vs xs same e h = rw ((==_iff (length vs) (length ts)).1 same, e) (vec_of xs h)

  -- An optional value that is there is read and written at the inner type.
  option_read :
      (rec : Value K.Number → ScType → Result Error ScVal) (t : ScType) (v : Value K.Number)
      → v ≢ Value.null
      → from_composite K rec spec (ScType.option t) v ≡ rec v t
  unfolding from_composite
  option_read rec t Value.null h = absurd (h refl)
  option_read rec t _ h = refl

  option_written :
      (rec : ScVal → ScType → Result Error (Value K.Number)) (t : ScType) (x : ScVal)
      → written x ≡ true
      → xdr_to_json_step K rec spec x (ScType.option t) ≡ rec x t
  unfolding xdr_to_json_step is_null is_plain by_type written
  option_written rec t ScVal.void h = cc
  option_written rec t ScVal.vec_none h = cc
  option_written rec t ScVal.map_none h = cc
  option_written rec t (ScVal.contract_instance_wasm b) h = cc
  option_written rec t ScVal.contract_instance_stellar_asset h = cc
  option_written rec t ScVal.ledger_key_contract_instance h = cc
  option_written rec t (ScVal.ledger_key_nonce z) h = cc
  option_written rec t _ h = refl

  was_written :
      (v : Value K.Number)
      → v ≢ Value.null
      → (x : ScVal) → ((v ≡ Value.null) ⊎ (written x ≡ true))
      → written x ≡ true
  was_written v h x (inl e) = absurd (h e)
  was_written v h x (inr w) = w

  mutual
    unfolding from_json xdr_to_json to_json written depth u128_parts u128_value

    round :
        {t : ScType} {v : Value K.Number}
        → Stands K t v
        → (n m : ℕ) → depth t ≤ n
        → depth t ≤ m
        → Returns t v n m
    round {t} d zero m p q = absurd (omega (arith, depth_pos t))
    round {t} d (suc n) zero p q = absurd (omega (arith, depth_pos t))
    round (bool b) (suc n) (suc m) p q = (ScVal.bool b, read_bool K L b, refl, inr refl)
    round (u32 k h) (suc n) (suc m) p q = (ScVal.u32 k, read_u32 K L k h, refl, inr refl)
    round (u64 k h) (suc n) (suc m) p q = (ScVal.u64 k, read_u64 K L k h, refl, inr refl)
    round (i32 z h) (suc n) (suc m) p q = (ScVal.i32 z, read_i32 K L z h, refl, inr refl)
    round (i64 z h) (suc n) (suc m) p q = (ScVal.i64 z, read_i64 K L z h, refl, inr refl)
    round (u128 k h) (suc n) (suc m) p q = (
      u128_parts k,
      read_u128 K L k h,
      ap (λ i. ok (Value.string (decimal i))) (u128_halves k),
      inr refl,
    )
    round (string s h) (suc n) (suc m) p q =
        (ScVal.string (utf8 s), read_string K L s h, refl, inr refl)
    round (symbol s h) (suc n) (suc m) p q =
        (ScVal.symbol (utf8 s), read_symbol K L s h, refl, inr refl)
    round (absent t) (suc n) (suc m) p q = (ScVal.void, refl, refl, inl refl)
    round (present t v h d) (suc n) (suc m) p q =
        let r = round d n m (omega arith) (omega arith) in
        let w = was_written v h r.0 r.3 in
        (
          r.0,
          option_read (from_json K n spec) t v h ∙ r.1,
          option_written (xdr_to_json K m spec) t r.0 w ∙ r.2,
          inr w,
        )
    round (vec t vs h e) (suc n) (suc m) p q =
        let r = round-Each e n m (omega arith) (omega arith) in
        (
          ScVal.vec (to_vals r.0),
          rw (values-to_values vs, r.1) (vec_of r.0 (omega (arith, r.3))),
          rw (vals-to_vals r.0, r.2),
          inr refl,
        )
    round (tuple ts vs h e) (suc n) (suc m) p q =
        let r = round-Zipped e n m (omega arith) (omega arith) in
        (
          ScVal.vec (to_vals r.0),
          rw (values-to_values vs) (
              tuple_read (from_json K n spec) (ScType.tuple ts) (types ts) vs r.0 r.4 r.1
                (omega (arith, r.3))),
          rw (vals-to_vals r.0, r.2),
          inr refl,
        )

    round-Each :
        {t : ScType} {vs : List (Value K.Number)}
        → Each K t vs
        → (n m : ℕ) → depth t ≤ n
        → depth t ≤ m
        → ReturnsEach t vs n m
    round-Each (done t) n m p q = ([], refl, refl, refl)
    round-Each (more t v vs d e) n m p q =
        let head = round d n m p q in
        let tail = round-Each e n m p q in
        (head.0 ∷ tail.0, rw (head.1, tail.1), rw (head.2, tail.2), ap suc tail.3)

    round-Zipped :
        {ts : ScTypes} {vs : List (Value K.Number)}
        → Zipped K ts vs
        → (n m : ℕ) → depth_all ts ≤ n
        → depth_all ts ≤ m
        → ReturnsAll ts vs n m
    round-Zipped end n m p q = ([], refl, refl, refl, refl)
    round-Zipped (next t ts v vs d e) n m p q =
        let head = round d n m (omega arith) (omega arith) in
        let tail = round-Zipped e n m (omega arith) (omega arith) in
        (head.0 ∷ tail.0, rw (head.1, tail.1), rw (head.2, tail.2), ap suc tail.3, ap suc tail.4)

  -- JSON that stands for a value of a type is read as a contract value with as much fuel as the type
  -- is nested, and that value is written, again with that fuel, as the same JSON.
  pub xdr_to_json-from_json :
      (t : ScType) (v : Value K.Number) (n m : ℕ)
      → Stands K t v
      → depth t ≤ n
      → depth t ≤ m
      → (x : ScVal) × (from_json K n spec v t ≡ ok x) × (xdr_to_json K m spec x t ≡ ok v)
  xdr_to_json-from_json t v n m d p q = let r = round d n m p q in (r.0, r.1, r.2)
