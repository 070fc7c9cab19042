-- ===== src/Prelude/Result.antt =====
-- `Result<A, E>` with its combinators. `collect` gathers the results of a mapped iterator, as the
-- source's `.collect::<Result<Vec<_>, _>>()` does: the first error ends it.
use mathlib.Core.Path.{◌≡◌, refl}
use mathlib.Core.Bool.{Bool, true, false}
use mathlib.Core.Logic.{◌⊎◌, inl, inr}
use mathlib.Core.Option.{Option, none, some}
use mathlib.Core.List.{List, [], ◌∷◌}

pub data Result {ℓ κ} (E : Type ℓ) (A : Type κ) : Type (ℓ ⊔ κ) where
  ok : A → Result E A
  err : E → Result E A

module _ {ℓ κ} {E : Type ℓ} {A : Type κ} where
  pub Result-cases : (r : Result E A) → ((a : A) × (r ≡ ok a)) ⊎ ((e : E) × (r ≡ err e))
  Result-cases (ok a) = inl (a, refl)
  Result-cases (err e) = inr (e, refl)

  abbrev pub is_ok : Result E A → Bool
  is_ok (ok a) = true
  is_ok (err e) = false

  -- `Result::ok`
  abbrev pub to_option : Result E A → Option A
  to_option (ok a) = some a
  to_option (err e) = none

  -- `Option::ok_or`
  abbrev pub ok_or : Option A → E → Result E A
  ok_or none e = err e
  ok_or (some a) e = ok a

  -- `Result::or_else` on an error that is dropped.
  abbrev pub or_else : Result E A → Result E A → Result E A
  or_else (ok a) r = ok a
  or_else (err e) r = r

  abbrev pub unwrap_or : Result E A → A → A
  unwrap_or (ok a) d = a
  unwrap_or (err e) d = d

pub not_ok : {E A : Type 0} {e : E} {a : A} → ◌≡◌ {A = Result E A} (err e) (ok a) → ⊥
not_ok h = cc

pub ok_eq : {E A : Type 0} {a b : A} → ◌≡◌ {A = Result E A} (ok a) (ok b) → a ≡ b
ok_eq h = cc

infixl 5 ◌>>=◌ ◌>>◌
abbrev pub ◌>>=◌ {ℓ κ λ'} :
    {E : Type ℓ} {A : Type κ} {B : Type λ'} → Result E A → (A → Result E B) → Result E B
ok a >>= f = f a
err e >>= f = err e

abbrev pub ◌>>◌ {ℓ κ} : {E : Type ℓ} {B : Type κ} → Result E (Unit {0}) → Result E B → Result E B
m >> k = m >>= λ _. k

-- The conversion that `?` makes from the callee's error type.
abbrev pub map_err {ℓ κ λ'} :
    {E : Type ℓ} {F : Type κ} {A : Type λ'} → (E → F) → Result E A → Result F A
map_err f (ok a) = ok a
map_err f (err e) = err (f e)

-- `if cond { return Err(e) }`
abbrev pub reject_if {ℓ} : {E : Type ℓ} → Bool → E → Result E (Unit {0})
reject_if true e = err e
reject_if false e = ok tt

module _ {ℓ κ λ'} {E : Type ℓ} {A : Type κ} {B : Type λ'} where
  abbrev pub collect : (A → Result E B) → List A → Result E (List B)
  collect f [] = ok []
  collect f (x ∷ xs) = do y ← f x; ys ← collect f xs; ok (y ∷ ys)

-- `xs.iter().zip(ys.iter()).map(f).collect()`, as long as the shorter list.
abbrev pub collect_zip {ℓ κ λ' μ} :
    {E : Type ℓ} {A : Type κ} {B : Type λ'} {C : Type μ}
    → (A → B → Result E C)
    → List A
    → List B
    → Result E (List C)
collect_zip f [] ys = ok []
collect_zip f (x ∷ xs) [] = ok []
collect_zip f (x ∷ xs) (y ∷ ys) = do z ← f x y; zs ← collect_zip f xs ys; ok (z ∷ zs)
