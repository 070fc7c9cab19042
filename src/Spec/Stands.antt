-- ===== src/Spec/Stands.antt =====
-- The JSON that stands for values of a type, and the nesting of types.
use Prim.Native.String.{len}
use soroban_tools.Prelude.{
  ℕ, suc, ◌-◌, ◌^◌, ◌≤◌, ◌<◌, max, String, ◌≡◌, ◌≢◌, Bool, true, List, [], ◌∷◌, length, arith,
  decimal,
}
use soroban_tools.Prelude.Int.{ℤ, fits_signed}
use soroban_tools.Spec.Types.{ScType, ScTypes}
use soroban_tools.Spec.Json.{Value, to_values}
use soroban_tools.Spec.Base.{Crates}

module _ (K : Crates) where
  -- The JSON that stands for a value of the type: integers in range, text within its limit, wide
  -- integers as decimal text, `null` for an absent option.
  mutual
    pub data Stands : ScType → Value K.Number → Type 0 where
      bool : (b : Bool) → Stands ScType.bool (Value.bool b)
      u32 : (n : ℕ) → n < 2 ^ 32 → Stands ScType.u32 (Value.number (K.number_from_u64 n))
      u64 : (n : ℕ) → n < 2 ^ 64 → Stands ScType.u64 (Value.number (K.number_from_u64 n))
      i32 :
          (z : ℤ) → fits_signed 31 z ≡ true → Stands ScType.i32 (Value.number (K.number_from_i64 z))
      i64 :
          (z : ℤ) → fits_signed 63 z ≡ true → Stands ScType.i64 (Value.number (K.number_from_i64 z))
      u128 : (n : ℕ) → n < 2 ^ 128 → Stands ScType.u128 (Value.string (decimal n))
      string : (s : String) → len s ≤ 2 ^ 32 - 1 → Stands ScType.string (Value.string s)
      symbol : (s : String) → len s ≤ 32 → Stands ScType.symbol (Value.string s)
      absent : (t : ScType) → Stands (ScType.option t) Value.null
      present :
          (t : ScType) (v : Value K.Number)
          → v ≢ Value.null
          → Stands t v
          → Stands (ScType.option t) v
      vec :
          (t : ScType) (vs : List (Value K.Number))
          → length vs ≤ 2 ^ 32 - 1
          → Each t vs
          → Stands (ScType.vec t) (Value.array (to_values vs))
      tuple :
          (ts : ScTypes) (vs : List (Value K.Number))
          → length vs ≤ 2 ^ 32 - 1
          → Zipped ts vs
          → Stands (ScType.tuple ts) (Value.array (to_values vs))

    pub data Each : ScType → List (Value K.Number) → Type 0 where
      done : (t : ScType) → Each t []
      more :
          (t : ScType) (v : Value K.Number) (vs : List (Value K.Number))
          → Stands t v
          → Each t vs
          → Each t (v ∷ vs)

    pub data Zipped : ScTypes → List (Value K.Number) → Type 0 where
      end : Zipped ScTypes.nil []
      next :
          (t : ScType) (ts : ScTypes) (v : Value K.Number) (vs : List (Value K.Number))
          → Stands t v
          → Zipped ts vs
          → Zipped (ScTypes.cons t ts) (v ∷ vs)

-- The nesting of a type: the fuel that its values need.
unfoldable mutual
  pub depth : ScType → ℕ
  depth (ScType.option t) = suc (depth t)
  depth (ScType.vec t) = suc (depth t)
  depth (ScType.tuple ts) = suc (depth_all ts)
  depth _ = 1

  pub depth_all : ScTypes → ℕ
  depth_all ScTypes.nil = 0
  depth_all (ScTypes.cons t ts) = max (depth t) (depth_all ts)

pub depth_pos : (t : ScType) → 0 < depth t
unfolding depth
depth_pos (ScType.option t) = omega arith
depth_pos (ScType.vec t) = omega arith
depth_pos (ScType.tuple ts) = omega arith
depth_pos _ = omega arith
