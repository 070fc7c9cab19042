-- ===== src/Spec/Termination.antt =====
-- When the help text of a type is found: for a spec whose types do not go round in a circle, with
-- enough fuel, and never for a struct that holds itself first.
use soroban_tools.Prelude.{
  ℕ, zero, suc, ◌≤◌, max, String, ◌≡◌, refl, inl, inr, Option, none, some, List, [], ◌∷◌, All,
  All-mono, Bool-cases, arith,
}
use native.Mathlib.Nat.{le_trans}
use soroban_tools.Prelude.Result.{Result, ok, err}
use soroban_tools.Spec.Types.{
  ScType, ScTypes, types, Field, UdtStructV0, UnionCase, void_v0, tuple_v0, SpecEntry,
  udt_struct_v0, udt_union_v0, udt_enum_v0, udt_error_enum_v0, function_v0,
}
use soroban_tools.Spec.Base.{Error}
use soroban_tools.Spec.Find.{Spec, find_spec}
use soroban_tools.Spec.Names.{
  overflow, Named, and_then, collect_named, is_tuple_struct, arg_value_name, arg_value_name_step,
  arg_value_entry, arg_value_struct, arg_value_udt, arg_value_union, arg_value_case,
}

-- The types that a spec admits for a field of a type within itself.
pub data Wraps (name : String) : ScType → Type 0 where
  option : Wraps name (ScType.option (ScType.udt name))
  vec : Wraps name (ScType.vec (ScType.udt name))

module _ (spec : Spec) (name : String) (strukt : UdtStructV0) (f : Field) (fs : List Field) where
  wrapped :
      (n : ℕ) (t : ScType)
      → Wraps name t
      → arg_value_name n spec (ScType.udt name) ≡ err overflow
      → arg_value_name (suc n) spec t ≡ err overflow
  unfolding arg_value_name
  wrapped n t option h = rw h
  wrapped n t vec h = rw h

  struct_of_first :
      (rec : ScType → Named String)
      → strukt.fields ≡ f ∷ fs
      → rec f.type_ ≡ err overflow
      → arg_value_struct rec strukt ≡ err overflow
  unfolding arg_value_struct arg_value_udt
  struct_of_first rec e h = elim (Bool-cases (is_tuple_struct strukt.fields)) [
    | inl t ↦ rw (t, e, h)
    | inr t ↦ rw (t, e, h)
  ]

  -- A struct whose first field is an option or a vector of that struct has no name at any depth: the
  -- source recurs until its stack is exhausted.
  pub arg_value_name_overflows :
      (n : ℕ)
      → find_spec spec name ≡ ok (udt_struct_v0 strukt)
      → strukt.fields ≡ f ∷ fs
      → Wraps name f.type_
      → arg_value_name n spec (ScType.udt name) ≡ err overflow
  unfolding arg_value_name arg_value_name_step arg_value_entry
  arg_value_name_overflows zero found first w = refl
  arg_value_name_overflows (suc zero) found first w =
      rw found (struct_of_first (arg_value_name 0 spec) first refl)
  arg_value_name_overflows (suc (suc n)) found first w = rw found (
      struct_of_first (arg_value_name (suc n) spec) first
        (wrapped n f.type_ w (arg_value_name_overflows n found first w)))

abbrev Ends : {A : Type 0} → Named A → Type 0
Ends {A} r = (o : Option A) × (r ≡ ok o)

and_then-Ends :
    {A B : Type 0} (r : Named A) (g : A → Named B)
    → Ends r
    → ((a : A) → Ends (g a))
    → Ends (and_then r g)
and_then-Ends (err e) g h k = cc (h.1)
and_then-Ends (ok none) g h k = (none, refl)
and_then-Ends (ok (some a)) g h k = k a

collect_named-Ends :
    {A B : Type 0} (P : A → Type 0) (g : A → Named B)
    → ((a : A) → P a → Ends (g a))
    → (xs : List A) → All P xs
    → Ends (collect_named g xs)
collect_named-Ends P g k [] h = (some [], refl)
collect_named-Ends P g k (x ∷ xs) h = and_then-Ends (g x) _ (k x h.0) (λ y.
    and_then-Ends (collect_named g xs) _ (collect_named-Ends P g k xs h.1)
      (λ ys. (some (y ∷ ys), refl)))

module _ (rank : String → ℕ) where
  -- The nesting of a type, through the types that it names.
  unfoldable mutual
    pub weight : ScType → ℕ
    weight (ScType.option t) = suc (weight t)
    weight (ScType.vec t) = suc (weight t)
    weight (ScType.result t e) = suc (max (weight t) (weight e))
    weight (ScType.map k t) = suc (max (weight k) (weight t))
    weight (ScType.tuple ts) = suc (weight_all ts)
    weight (ScType.udt name) = suc (rank name)
    weight _ = 1

    pub weight_all : ScTypes → ℕ
    weight_all ScTypes.nil = 0
    weight_all (ScTypes.cons t ts) = max (weight t) (weight_all ts)

  abbrev pub Lighter : ℕ → ScType → Type 0
  Lighter n t = weight t ≤ n

  abbrev pub LighterCase : ℕ → UnionCase → Type 0
  LighterCase n (void_v0 name) = Unit
  LighterCase n (tuple_v0 name ts) = All (Lighter n) ts

  -- Every type in the entry has at most the weight.
  abbrev pub LighterEntry : ℕ → SpecEntry → Type 0
  LighterEntry n (udt_struct_v0 s) = All (λ (f : Field). weight f.type_ ≤ n) s.fields
  LighterEntry n (udt_union_v0 u) = All (LighterCase n) u.cases
  LighterEntry n _ = Unit

  -- The rank of a name bounds the types of its entry, so no type contains itself.
  abbrev pub IsRanked : Spec → Type 0
  IsRanked spec =
      (name : String) (e : SpecEntry) → find_spec spec name ≡ ok e → LighterEntry (rank name) e

  types-Lighter : (n : ℕ) (ts : ScTypes) → weight_all ts ≤ n → All (Lighter n) (types ts)
  unfolding weight
  types-Lighter n ScTypes.nil h = tt
  types-Lighter n (ScTypes.cons t ts) h = (omega arith, types-Lighter n ts (omega arith))

  heavier_case : (m n : ℕ) → m ≤ n → (c : UnionCase) → LighterCase m c → LighterCase n c
  heavier_case m n k (void_v0 name) h = tt
  heavier_case m n k (tuple_v0 name ts) h =
      All-mono (Lighter m) (Lighter n) (λ t w. le_trans w k) ts h

  heavier : (m n : ℕ) → m ≤ n → (e : SpecEntry) → LighterEntry m e → LighterEntry n e
  heavier m n k (udt_struct_v0 s) h =
      All-mono (λ (f : Field). weight f.type_ ≤ m) (λ (f : Field). weight f.type_ ≤ n)
        (λ f w. le_trans w k) s.fields h
  heavier m n k (udt_union_v0 u) h =
      All-mono (LighterCase m) (LighterCase n) (heavier_case m n k) u.cases h
  heavier m n k _ h = tt

  module _ (n : ℕ) (rec : ScType → Named String)
      (ends : (t : ScType) → weight t ≤ n → Ends (rec t)) where
    struct-Ends :
        (s : UdtStructV0)
        → All (λ (f : Field). weight f.type_ ≤ n) s.fields
        → Ends (arg_value_struct rec s)
    unfolding arg_value_struct arg_value_udt
    struct-Ends s h = elim (Bool-cases (is_tuple_struct s.fields)) [
      | inl t ↦ rw t (
          and_then-Ends _ _
            (collect_named-Ends (λ (f : Field). weight f.type_ ≤ n) _ (λ f k. ends f.type_ k)
              s.fields h)
            (λ names. (some _, refl)))
      | inr t ↦ rw t (
          and_then-Ends _ _
            (collect_named-Ends (λ (f : Field). weight f.type_ ≤ n) _
              (λ f k. and_then-Ends (rec f.type_) _ (ends f.type_ k) (λ a. (some _, refl))) s.fields
              h)
            (λ names. (some _, refl)))
    ]

    case-Ends : (c : UnionCase) → LighterCase n c → Ends (arg_value_case rec c)
    unfolding arg_value_case
    case-Ends (void_v0 name) h = (some name, refl)
    case-Ends (tuple_v0 name ts) h =
        and_then-Ends _ _ (collect_named-Ends (Lighter n) rec ends ts h) (λ names. (some _, refl))

    entry-Ends : (e : SpecEntry) → LighterEntry n e → Ends (arg_value_entry rec (ok e))
    unfolding arg_value_entry arg_value_union
    entry-Ends (udt_struct_v0 s) h = struct-Ends s h
    entry-Ends (udt_union_v0 u) h =
        and_then-Ends _ _ (collect_named-Ends (LighterCase n) _ case-Ends u.cases h)
          (λ names. (some _, refl))
    entry-Ends (udt_enum_v0 e) h = (some _, refl)
    entry-Ends (udt_error_enum_v0 e) h = (none, refl)
    entry-Ends (function_v0 f) h = (none, refl)

    found-Ends :
        (r : Result Error SpecEntry)
        → ((e : SpecEntry) → r ≡ ok e → LighterEntry n e)
        → Ends (arg_value_entry rec r)
    found-Ends (ok e) h = entry-Ends e (h e refl)
    found-Ends (err e) h = unfold arg_value_entry in (none, refl)

    step-Ends :
        (spec : Spec) (t : ScType)
        → IsRanked spec
        → weight t ≤ suc n
        → Ends (arg_value_name_step rec spec t)
    unfolding arg_value_name_step weight
    step-Ends spec (ScType.option t) r h =
        and_then-Ends _ _ (ends t (omega arith)) (λ a. (some _, refl))
    step-Ends spec (ScType.vec t) r h =
        and_then-Ends _ _ (ends t (omega arith)) (λ a. (some _, refl))
    step-Ends spec (ScType.result t e) r h =
        and_then-Ends _ _ (ends t (omega arith))
          (λ a. and_then-Ends _ _ (ends e (omega arith)) (λ b. (some _, refl)))
    step-Ends spec (ScType.map k t) r h =
        and_then-Ends _ _ (ends k (omega arith))
          (λ a. and_then-Ends _ _ (ends t (omega arith)) (λ b. (some _, refl)))
    step-Ends spec (ScType.tuple ts) r h =
        and_then-Ends _ _
          (collect_named-Ends (Lighter n) rec ends (types ts) (types-Lighter n ts (omega arith)))
          (λ names. (some _, refl))
    step-Ends spec (ScType.udt name) r h =
        found-Ends (find_spec spec name)
          (λ e found. heavier (rank name) n (omega arith) e (r name e found))
    step-Ends spec ScType.val r h = (none, refl)
    step-Ends spec _ r h = (some _, refl)

  weight_pos : (t : ScType) → 1 ≤ weight t
  unfolding weight
  weight_pos (ScType.option t) = omega arith
  weight_pos (ScType.vec t) = omega arith
  weight_pos (ScType.result t e) = omega arith
  weight_pos (ScType.map k t) = omega arith
  weight_pos (ScType.tuple ts) = omega arith
  weight_pos (ScType.udt name) = omega arith
  weight_pos _ = omega arith

  -- In a spec whose types are ranked, so that none contains itself, fuel of the nesting of a type is
  -- enough to find whether it has a name.
  pub arg_value_name_ends :
      (spec : Spec) (n : ℕ) (t : ScType)
      → IsRanked spec
      → weight t ≤ n
      → (o : Option String) × (arg_value_name n spec t ≡ ok o)
  unfolding arg_value_name
  arg_value_name_ends spec zero t r h = absurd (omega (arith, weight_pos t))
  arg_value_name_ends spec (suc n) t r h =
      step-Ends n (arg_value_name n spec) (λ t' k. arg_value_name_ends spec n t' r k) spec t r h
