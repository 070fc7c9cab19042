-- ===== src/Assembled/Restore.antt =====
-- The transaction that restores archived entries, and which calls need authorization.
use soroban_tools.Prelude.{◌+◌, ◌^◌, ◌≤◌, ◌<◌, ◌≡◌, ◌↔◌, true, none, some, List, [], ◌∷◌, arith}
use soroban_tools.Prelude.Result.{ok, err}
use soroban_tools.Xdr.{Xdr, restore_footprint, Operation, SorobanTransactionData, Transaction}
use soroban_tools.Assembled.{
  RestorePreamble, large_fee, Codec, Assembled, first_is_contract_fn, auth_entries,
  only_op_requires_auth, first_auth_entries, op_requires_auth, op_auth_entries, requires_auth,
  try_vec_m, restore,
}

module _ (X : Xdr) (C : Codec X) where
  -- The restoring transaction adds the preamble's fee to the parent's, within 32 bits, keeps the
  -- parent's account and sequence number, and only restores the footprint.
  pub restore_keeps :
      (parent : Transaction X) (p : RestorePreamble) {tx : Transaction X}
      → restore X C parent p ≡ ok tx
      → (tx.fee ≡ parent.fee + p.min_resource_fee)
        × (tx.fee < 2 ^ 32)
        × (tx.source_account ≡ parent.source_account)
        × (tx.seq_num ≡ parent.seq_num)
        × (tx.operations ≡ record { source_account = none; body = restore_footprint } ∷ [])
  unfolding restore try_vec_m
  restore_keeps parent p h = ground arith

  -- Where the preamble's data is accepted, a sum of fees of 2 ^ 32 or more is refused with the
  -- preamble's fee.
  pub restore_large_fee :
      (parent : Transaction X) (p : RestorePreamble) (d : SorobanTransactionData X)
      → C.transaction_data p.transaction_data ≡ ok d
      → 2 ^ 32 ≤ parent.fee + p.min_resource_fee
      → restore X C parent p ≡ err (large_fee p.min_resource_fee)
  unfolding restore
  restore_large_fee parent p d e h = ground arith

module _ (X : Xdr) where
  only_op_auth :
      (ops : List (Operation X)) (op : Operation X)
      → (only_op_requires_auth X ops ≡ some op)
        ↔ ((ops ≡ op ∷ []) × (first_is_contract_fn X (first_auth_entries X ops) ≡ true))
  unfolding only_op_requires_auth op_requires_auth first_auth_entries op_auth_entries
      first_is_contract_fn
  only_op_auth [] op = (λ h. cc, λ h. cc (h.0))
  only_op_auth (o ∷ o' ∷ ops) op = (λ h. cc, λ h. cc (h.0))
  only_op_auth (o ∷ []) op = (λ h. ground arith, λ h. ground arith)

  pub only_operation :
      (tx : Transaction X) (op : Operation X)
      → requires_auth X tx ≡ some op
      → tx.operations ≡ op ∷ []
  unfolding requires_auth
  only_operation tx op h = ((only_op_auth tx.operations op).0 h).0

  -- A transaction requires authorization by an operation exactly when that is its one operation
  -- and the authorization entries that are reported for it begin with a contract call.
  pub requires_auth_iff :
      (a : Assembled X) (op : Operation X)
      → (requires_auth X a.txn ≡ some op)
        ↔ ((a.txn.operations ≡ op ∷ []) × (first_is_contract_fn X (auth_entries X a) ≡ true))
  unfolding requires_auth auth_entries
  requires_auth_iff a op = only_op_auth a.txn.operations op
