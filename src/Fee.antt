-- ===== src/Fee.antt =====
-- cmd/soroban-cli/src/fee.rs: what the fee arguments do to an assembled transaction.
pub mod Laws
use soroban_tools.Prelude.{ℕ, ◌+◌, ◌*◌, ◌/◌, Bool, false, Option, none, some}
use soroban_tools.Xdr.{Xdr, TransactionExt, v0, v1}
use soroban_tools.Assembled.{Assembled, set_max_instructions, try_u32}

pub record Args : Type 0 where
  pub fee : ℕ
  pub cost : Bool
  pub instructions : Option ℕ
  pub build_only : Bool
  pub sim_only : Bool

-- `Args::default`
abbrev pub default_args : Args
default_args = record {
  fee = 100;
  cost = false;
  instructions = none;
  build_only = false;
  sim_only = false;
}

-- `u32::checked_mul` with `unwrap_or`
checked_mul_or : ℕ → ℕ → ℕ → ℕ
checked_mul_or a b d = elim (try_u32 (a * b)) [ none ↦ d | some n ↦ n ]

module _ (X : Xdr) where
  pad_by_ext : Assembled X → TransactionExt X → Assembled X
  pad_by_ext txn v0 = txn
  pad_by_ext txn (v1 tx_data) =
      let instructions = tx_data.resources.instructions in
      set_max_instructions X txn (checked_mul_or instructions (150 / 100) instructions)

  unfoldable pub add_padding_to_instructions : Assembled X → Assembled X
  unfolding pad_by_ext checked_mul_or set_max_instructions
  add_padding_to_instructions txn = pad_by_ext txn txn.txn.ext

  unfoldable pub apply_to_assembled_txn : Args → Assembled X → Assembled X
  unfolding add_padding_to_instructions set_max_instructions
  apply_to_assembled_txn self txn = elim self.instructions [
    | none ↦ add_padding_to_instructions txn
    | some instructions ↦ set_max_instructions X txn instructions
  ]
