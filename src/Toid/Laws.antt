-- ===== src/Toid/Laws.antt =====
-- The packed number as arithmetic, its order, and what unpacking gives back.
use Prim.Native.Nat.{bit_or}
use soroban_tools.Prelude.{ℕ, ◌+◌, ◌*◌, ◌/◌, ◌%◌, ◌^◌, ◌<◌, ◌≡◌, ◌⊎◌, ◌↔◌, some, arith}
use soroban_tools.Prelude.Bits.{shl64, or-field, and-low_mask}
use soroban_tools.Toid.{Toid, new, to_u64, from_u64}

-- The ranges that SEP-35 gives the fields.
pub record Fits (t : Toid) : Type 0 where
  pub ledger : t.ledger_sequence < 2 ^ 32
  pub transaction : t.transaction_order < 2 ^ 20
  pub operation : t.operation_order < 2 ^ 12

or_shifted :
    (a b c : ℕ)
    → a < 2 ^ 32
    → b < 2 ^ 20
    → c < 2 ^ 12
    → bit_or (bit_or (bit_or 0 (shl64 a 32)) (shl64 b 12)) (shl64 c 0) ≡ a * 2 ^ 32 + b * 2 ^ 12 + c
or_shifted a b c p q r = ground (
  arith,
  or-field 64 0 (a * 2 ^ 32) (omega arith),
  or-field 32 a (b * 2 ^ 12) (omega arith),
  or-field 12 (a * 2 ^ 20 + b) c (omega arith),
)

-- Packing keeps the low 32, 20 and 12 bits of the fields, each in its own place.
pub to_u64_fields :
    (t : Toid)
    → to_u64 t
      ≡ t.ledger_sequence % 2 ^ 32 * 2 ^ 32
        + t.transaction_order % 2 ^ 20 * 2 ^ 12
        + t.operation_order % 2 ^ 12
unfolding to_u64
to_u64_fields t =
    rw
      (
        and-low_mask 32 t.ledger_sequence,
        and-low_mask 20 t.transaction_order,
        and-low_mask 12 t.operation_order,
      )
      (or_shifted (t.ledger_sequence % 2 ^ 32) (t.transaction_order % 2 ^ 20)
        (t.operation_order % 2 ^ 12) (omega arith) (omega arith) (omega arith))

-- Of two ids with fields in range the first is packed to the smaller number exactly when it comes
-- first by ledger, then by transaction, then by operation.
pub to_u64_order :
    (s t : Toid)
    → Fits s
    → Fits t
    → (to_u64 s < to_u64 t) ↔ (
        (s.ledger_sequence < t.ledger_sequence)
        ⊎ ((s.ledger_sequence ≡ t.ledger_sequence)
            × ((s.transaction_order < t.transaction_order)
                ⊎ ((s.transaction_order ≡ t.transaction_order)
                    × (s.operation_order < t.operation_order)))))
to_u64_order s t p q = (
  λ h. grind (arith, to_u64_fields s, to_u64_fields t),
  λ h. grind (arith, to_u64_fields s, to_u64_fields t),
)

-- What unpacking computes: it never panics, the ledger is 0, and the transaction is read from
-- bits 12 to 19 only.
pub from_u64_lem : (x : ℕ) → from_u64 x ≡ some (new 0 (x % 2 ^ 20 / 2 ^ 12) (x % 2 ^ 12))
unfolding from_u64
from_u64_lem x = rw (and-low_mask 32 x, and-low_mask 20 x, and-low_mask 12 x) (ground arith)

-- An id with fields in range survives packing and unpacking exactly when its ledger is 0 and its
-- transaction order is below 256.
pub from_u64-to_u64_iff :
    (t : Toid)
    → Fits t
    → (from_u64 (to_u64 t) ≡ some t) ↔ ((t.ledger_sequence ≡ 0) × (t.transaction_order < 256))
unfolding new
from_u64-to_u64_iff t p = (
  λ h. ground (arith, from_u64_lem (to_u64 t), to_u64_fields t),
  λ h. ground (arith, from_u64_lem (to_u64 t), to_u64_fields t),
)
