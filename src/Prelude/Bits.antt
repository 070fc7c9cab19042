-- ===== src/Prelude/Bits.antt =====
-- `&` with a low mask and `|` of disjoint fields, as arithmetic at every width. The native
-- operations are recursions on binary digits with fuel; `last_and` and `last_or` drop the fuel.
use Prim.Native.Nat.{
  ℕ, zero, suc, ◌+◌, ◌-◌, ◌*◌, ◌/◌, ◌%◌, ◌^◌, ◌≤◌, ◌<◌, min, max, bit_and, bit_or, digits,
  bit_and-bitwise, bit_or-bitwise,
}
use mathlib.Core.Path.{◌≡◌, refl, ap}
use native.Mathlib.Nat.{pow-suc, one-le-pow}
use native.Mathlib.Omega.{arith}

-- `x << k` and `x >> k` on `u64`.
abbrev pub shl64 : ℕ → ℕ → ℕ
shl64 x k = (x * 2 ^ k) % 2 ^ 64

abbrev pub shr : ℕ → ℕ → ℕ
shr x k = x / 2 ^ k

-- Fuel above the first operand is not used.
spare_fuel :
    (end : ℕ → ℕ) (op : ℕ → ℕ → ℕ) (spare fuel x y : ℕ)
    → x ≤ fuel
    → fuel ≤ spare
    → digits end op spare x y ≡ digits end op fuel x y
spare_fuel end op zero zero x y h k = refl
spare_fuel end op zero (suc fuel) x y h k = absurd (omega arith)
spare_fuel end op (suc spare) zero zero y h k = refl
spare_fuel end op (suc spare) zero (suc x) y h k = absurd (omega arith)
spare_fuel end op (suc spare) (suc fuel) zero y h k = refl
spare_fuel end op (suc spare) (suc fuel) (suc x) y h k =
    ap (λ (t : ℕ). t * 2 + op (suc x % 2) (y % 2))
      (spare_fuel end op spare fuel (suc x / 2) (y / 2) (omega arith) (omega arith))

pub last_and : (x y : ℕ) → bit_and x y ≡ bit_and (x / 2) (y / 2) * 2 + min (x % 2) (y % 2)
last_and zero y = omega (arith, bit_and-bitwise 0 y, bit_and-bitwise 0 (y / 2))
last_and (suc x) y = omega (
  arith,
  bit_and-bitwise (suc x) y,
  bit_and-bitwise (suc x / 2) (y / 2),
  spare_fuel (λ d. zero) min x (suc x / 2) (suc x / 2) (y / 2) (omega arith) (omega arith),
)

pub last_or : (x y : ℕ) → bit_or x y ≡ bit_or (x / 2) (y / 2) * 2 + max (x % 2) (y % 2)
last_or zero y = omega (arith, bit_or-bitwise 0 y, bit_or-bitwise 0 (y / 2))
last_or (suc x) y = omega (
  arith,
  bit_or-bitwise (suc x) y,
  bit_or-bitwise (suc x / 2) (y / 2),
  spare_fuel (λ d. d) max x (suc x / 2) (suc x / 2) (y / 2) (omega arith) (omega arith),
)

and-zero_below : (n x : ℕ) → x ≤ n → bit_and x 0 ≡ 0
and-zero_below zero zero h = refl
and-zero_below zero (suc x) h = absurd (omega arith)
and-zero_below (suc n) zero h = refl
and-zero_below (suc n) (suc x) h =
    omega (arith, last_and (suc x) 0, and-zero_below n (suc x / 2) (omega arith))

or-zero_below : (n x : ℕ) → x ≤ n → bit_or x 0 ≡ x
or-zero_below zero zero h = refl
or-zero_below zero (suc x) h = absurd (omega arith)
or-zero_below (suc n) zero h = refl
or-zero_below (suc n) (suc x) h =
    omega (arith, last_or (suc x) 0, or-zero_below n (suc x / 2) (omega arith))

twice-pow : (q k : ℕ) → q * 2 ^ suc k ≡ q * 2 ^ k * 2
twice-pow q k = omega (arith, ap (λ (t : ℕ). q * t) (pow-suc 2 k))

-- Two fields that do not overlap.
pub or-field : (k high low : ℕ) → low < 2 ^ k → bit_or (high * 2 ^ k) low ≡ high * 2 ^ k + low
or-field zero high low h = ground (arith, or-zero_below high high)
or-field (suc k) high low h = ground (
  arith,
  last_or (high * 2 ^ suc k) low,
  twice-pow high k,
  pow-suc 2 k,
  or-field k high (low / 2) (omega (arith, pow-suc 2 k)),
)

mask-field : (k high low : ℕ) → low < 2 ^ k → bit_and (high * 2 ^ k + low) (2 ^ k - 1) ≡ low
mask-field zero high low h =
    omega (arith, and-zero_below (high * 1 + low) (high * 1 + low) (omega arith))
mask-field (suc k) high low h = ground (
  arith,
  last_and (high * 2 ^ suc k + low) (2 ^ suc k - 1),
  twice-pow high k,
  pow-suc 2 k,
  one-le-pow k 2,
  mask-field k high (low / 2) (omega (arith, pow-suc 2 k)),
)

-- `x & ((1 << k) - 1)` is the remainder.
pub and-low_mask : (k x : ℕ) → bit_and x (2 ^ k - 1) ≡ x % 2 ^ k
and-low_mask k x = ground (arith, one-le-pow k 2, mask-field k (x / 2 ^ k) (x % 2 ^ k))
