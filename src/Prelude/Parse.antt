-- ===== src/Prelude/Parse.antt =====
-- `FromStr` of the integer types, and that it reads back what `to_string` writes.
use Prim.Native.Nat.{ℕ, zero, suc, ◌+◌, ◌-◌, ◌*◌, ◌/◌, ◌%◌, ◌^◌, ◌<◌}
use Prim.Native.Char.{code}
use Prim.Native.String.{String, ◌++◌ as ◌<>◌}
use Prim.Native.String.append
use mathlib.Core.Path.{◌≡◌, refl}
use mathlib.Core.Logic.{inl, inr}
use mathlib.Core.Bool.{Bool, true, false, ◌&&◌}
use mathlib.Core.Option.{Option, none, some}
use native.Mathlib.Omega.{arith}
use soroban_tools.Prelude.Tests.{ltb, leb, ◌==◌, if◌then◌else◌, Bool-cases, ltb→lt}
use soroban_tools.Prelude.Texts.{digit, decimal_digits, decimal}
use soroban_tools.Prelude.Int.{ℤ, pos, negsuc, fits_signed}

read_digits : ℕ → String → Option ℕ
read_digits acc String.[] = some acc
read_digits acc (String.◌∷◌ c s) =
    let rest = read_digits (acc * 10 + (code c - 48)) s in
    if leb 48 (code c) && leb (code c) 57 then rest else none

-- At least one digit.
read_nonempty : String → Option ℕ
read_nonempty String.[] = none
read_nonempty (String.◌∷◌ c s) = read_digits 0 (String.◌∷◌ c s)

-- An optional `+`, digits, and no overflow of `w` bits.
unfoldable pub parse_unsigned : ℕ → String → Option ℕ
unfolding read_digits read_nonempty
parse_unsigned w String.[] = none
parse_unsigned w (String.◌∷◌ c s) =
    elim (if code c == 43 then read_nonempty s else read_nonempty (String.◌∷◌ c s)) [
      | none ↦ none
      | some n ↦ if ltb n (2 ^ w) then some n else none
    ]

in_signed : ℕ → ℤ → Option ℤ
in_signed w z = if fits_signed (w - 1) z then some z else none

negate : ℕ → ℤ
negate zero = pos 0
negate (suc n) = negsuc n

unfoldable pub parse_signed : ℕ → String → Option ℤ
unfolding read_digits read_nonempty in_signed negate
parse_signed w String.[] = none
parse_signed w (String.◌∷◌ c s) =
    if code c == 45
    then elim (read_nonempty s) [ none ↦ none | some n ↦ in_signed w (negate n) ]
    else elim (if code c == 43 then read_nonempty s else read_nonempty (String.◌∷◌ c s)) [
      | none ↦ none
      | some n ↦ in_signed w (pos n)
    ]

read_then : Option ℕ → String → Option ℕ
read_then none t = none
read_then (some a) t = read_digits a t

read_digits-append :
    (acc : ℕ) (s t : String) → read_digits acc (s <> t) ≡ read_then (read_digits acc s) t
unfolding read_digits read_then
read_digits-append acc String.[] t = rw append.nil
read_digits-append acc (String.◌∷◌ c s) t = elim (Bool-cases (leb 48 (code c) && leb (code c) 57)) [
  | inl e ↦ rw (append.cons, e) (read_digits-append (acc * 10 + (code c - 48)) s t)
  | inr e ↦ rw (append.cons, e)
]

read_digits-digit : (acc d : ℕ) → d < 10 → read_digits acc (digit d) ≡ some (acc * 10 + d)
unfolding read_digits digit
read_digits-digit acc zero h = refl
read_digits-digit acc (suc zero) h = refl
read_digits-digit acc (suc (suc zero)) h = refl
read_digits-digit acc (suc (suc (suc zero))) h = refl
read_digits-digit acc (suc (suc (suc (suc zero)))) h = refl
read_digits-digit acc (suc (suc (suc (suc (suc zero))))) h = refl
read_digits-digit acc (suc (suc (suc (suc (suc (suc zero)))))) h = refl
read_digits-digit acc (suc (suc (suc (suc (suc (suc (suc zero))))))) h = refl
read_digits-digit acc (suc (suc (suc (suc (suc (suc (suc (suc zero)))))))) h = refl
read_digits-digit acc (suc (suc (suc (suc (suc (suc (suc (suc (suc zero))))))))) h = refl
read_digits-digit acc (suc (suc (suc (suc (suc (suc (suc (suc (suc (suc n)))))))))) h =
    absurd (omega arith)

read_digits-decimal : (fuel n : ℕ) → n < fuel → read_digits 0 (decimal_digits fuel n) ≡ some n
unfolding decimal_digits
read_digits-decimal zero n h = absurd (omega arith)
read_digits-decimal (suc fuel) n h = elim (Bool-cases (ltb n 10)) [
  | inl e ↦ rw e (ground (arith, read_digits-digit 0 n (ltb→lt n 10 e)))
  | inr e ↦
      rw
        (
          e,
          read_digits-append 0 (decimal_digits fuel (n / 10)) (digit (n % 10)),
          read_digits-decimal fuel (n / 10) (ground arith),
        )
        (unfold read_then in ground (arith, read_digits-digit (n / 10) (n % 10) (omega arith)))
]

abbrev starts : String → Bool
starts String.[] = false
starts (String.◌∷◌ c s) = true

starts-append : (s t : String) → starts t ≡ true → starts (s <> t) ≡ true
starts-append String.[] t h = rw append.nil h
starts-append (String.◌∷◌ c s) t h = rw append.cons

starts-digit : (d : ℕ) → starts (digit d) ≡ true
unfolding digit
starts-digit zero = refl
starts-digit (suc zero) = refl
starts-digit (suc (suc zero)) = refl
starts-digit (suc (suc (suc zero))) = refl
starts-digit (suc (suc (suc (suc zero)))) = refl
starts-digit (suc (suc (suc (suc (suc zero))))) = refl
starts-digit (suc (suc (suc (suc (suc (suc zero)))))) = refl
starts-digit (suc (suc (suc (suc (suc (suc (suc zero))))))) = refl
starts-digit (suc (suc (suc (suc (suc (suc (suc (suc zero)))))))) = refl
starts-digit _ = refl

starts-decimal : (n : ℕ) → starts (decimal n) ≡ true
unfolding decimal decimal_digits
starts-decimal n = elim (Bool-cases (ltb n 10)) [
  | inl e ↦ rw e (starts-digit n)
  | inr e ↦
      rw e (starts-append (decimal_digits n (n / 10)) (digit (n % 10)) (starts-digit (n % 10)))
]

parse_unsigned-read :
    (w : ℕ) (s : String) (n : ℕ)
    → starts s ≡ true
    → read_digits 0 s ≡ some n
    → n < 2 ^ w
    → parse_unsigned w s ≡ some n
unfolding parse_unsigned
parse_unsigned-read w String.[] n h e k = cc
parse_unsigned-read w (String.◌∷◌ c s) n h e k = ground arith

-- An unsigned integer in range is read back from its text.
pub parse_unsigned-decimal : (w n : ℕ) → n < 2 ^ w → parse_unsigned w (decimal n) ≡ some n
unfolding decimal
parse_unsigned-decimal w n h =
    parse_unsigned-read w (decimal n) n (starts-decimal n)
      (read_digits-decimal (suc n) n (omega arith)) h
