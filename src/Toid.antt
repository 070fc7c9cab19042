-- ===== src/Toid.antt =====
-- cmd/soroban-cli/src/toid.rs: total order ids, three fields packed into a `u64`.
pub mod Laws
mod Examples
use Prim.Native.Nat.{bit_and, bit_or}
use Prim.Native.String.{count}
use soroban_tools.Prelude.{
  ℕ, ◌-◌, ◌^◌, String, ◌<>◌, Option, none, some, ltb, if◌then◌else◌, decimal, repeat,
}
use soroban_tools.Prelude.Bits.{shl64, shr}

pub record Toid : Type 0 where
  pub ledger_sequence : ℕ
  pub transaction_order : ℕ
  pub operation_order : ℕ

abbrev pub ledger_mask : ℕ
ledger_mask = 2 ^ 32 - 1

abbrev pub transaction_mask : ℕ
transaction_mask = 2 ^ 20 - 1

abbrev pub operation_mask : ℕ
operation_mask = 2 ^ 12 - 1

abbrev pub ledger_shift : ℕ
ledger_shift = 32

abbrev pub transaction_shift : ℕ
transaction_shift = 12

abbrev pub operation_shift : ℕ
operation_shift = 0

pub new : ℕ → ℕ → ℕ → Toid
new ledger tx_order op_order = record {
  ledger_sequence = ledger;
  transaction_order = tx_order;
  operation_order = op_order;
}

-- `From<Toid> for u64`
unfoldable pub to_u64 : Toid → ℕ
to_u64 item =
    bit_or
      (bit_or (bit_or 0 (shl64 (bit_and item.ledger_sequence ledger_mask) ledger_shift))
        (shl64 (bit_and item.transaction_order transaction_mask) transaction_shift))
      (shl64 (bit_and item.operation_order operation_mask) operation_shift)

-- `u64 as u32` by `try_into`; the caller's `unwrap` panics on `none`.
try_into_u32 : ℕ → Option ℕ
try_into_u32 n = if ltb n (2 ^ 32) then some n else none

infixl 5 ◌>>=◌
abbrev ◌>>=◌ : {A B : Type 0} → Option A → (A → Option B) → Option B
none >>= f = none
some a >>= f = f a

-- `From<u64> for Toid`; `none` is a panic.
unfoldable pub from_u64 : ℕ → Option Toid
unfolding try_into_u32 new
from_u64 item = do
  ledger ← try_into_u32 (shr (bit_and item ledger_mask) ledger_shift)
  tx_order ← try_into_u32 (shr (bit_and item transaction_mask) transaction_shift)
  op_order ← try_into_u32 (shr (bit_and item operation_mask) operation_shift)
  some (new ledger tx_order op_order)

-- `{u:019}` pads with zeros on the left.
unfoldable pub to_paging_token : Toid → String
unfolding decimal repeat to_u64
to_paging_token item = let u = decimal (to_u64 item) in repeat (19 - count u) "0" <> u

-- `Display`
unfoldable pub fmt : Toid → String
unfolding decimal to_u64
fmt item = decimal (to_u64 item)
