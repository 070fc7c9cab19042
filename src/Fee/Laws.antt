-- ===== src/Fee/Laws.antt =====
-- What is padded, and what is not.
use soroban_tools.Prelude.{ℕ, ◌/◌, ◌≡◌, refl, none, arith}
use soroban_tools.Xdr.{Xdr, TransactionExt, v0, v1}
use soroban_tools.Assembled.{Assembled, set_max_instructions}
use soroban_tools.Fee.{Args, checked_mul_or, pad_by_ext, apply_to_assembled_txn}

factor_is_one : (n : ℕ) → checked_mul_or n (150 / 100) n ≡ n
unfolding checked_mul_or
factor_is_one n = ground arith

module _ (X : Xdr) where
  with_ext : Assembled X → TransactionExt X → Assembled X
  with_ext a e = record a { txn = record a.txn { ext = e } }

  pad_same : (a : Assembled X) (e : TransactionExt X) → pad_by_ext X (with_ext a e) e ≡ with_ext a e
  unfolding pad_by_ext with_ext set_max_instructions
  pad_same a v0 = refl
  pad_same a (v1 d) = rw (factor_is_one d.resources.instructions)

  -- Without a number of instructions the arguments leave every transaction as it is: the padding
  -- multiplies by 150 / 100, which is 1.
  pub apply_unpadded :
      (args : Args) (a : Assembled X)
      → args.instructions ≡ none
      → apply_to_assembled_txn X args a ≡ a
  unfolding apply_to_assembled_txn with_ext
  apply_unpadded args a h = rw h (pad_same a a.txn.ext)
