-- ===== src/Assembled.antt =====
-- cmd/soroban-cli/src/assembled.rs: a transaction joined with the response of its simulation.
-- The types of `soroban_rpc` carry the fields that are read; base64 decoding is a parameter.
mod Assemble
pub mod Restore
mod Examples
use soroban_tools.Prelude.{
  ℕ, ◌+◌, ◌-◌, ◌^◌, ◌%◌, max, String, Bool, true, false, not, Option, none, some, List, [], ◌∷◌,
  length, first, is_empty, ltb, ◌==◌, if◌then◌else◌,
}
use soroban_tools.Prelude.Result.{Result, ok, err, ◌>>=◌, ◌>>◌, map_err, reject_if, collect}
use soroban_tools.Xdr.{
  Xdr, SorobanAuthorizedFunction, contract_fn, SorobanAuthorizationEntry, OperationBody,
  invoke_host_function, restore_footprint, Operation, SorobanTransactionData, TransactionExt, v0,
  v1, Transaction,
}

pub record RestorePreamble : Type 0 where
  pub transaction_data : String
  pub min_resource_fee : ℕ

-- `SimulateHostFunctionResultRaw`, of which only `auth` is read.
pub record SimulateResult : Type 0 where
  pub auth : List String

pub record SimulateTransactionResponse : Type 0 where
  pub error : Option String
  pub min_resource_fee : ℕ
  pub results : List SimulateResult
  pub transaction_data : String
  pub restore_preamble : Option RestorePreamble

abbrev pub default_transaction_fees : ℕ
default_transaction_fees = 100

pub data Error (X : Xdr) : Type 0 where
  unexpected_operation_count : ℕ → Error X
  unexpected_simulate_transaction_result_size : ℕ → Error X
  large_fee : ℕ → Error X
  transaction_simulation_failed : String → Error X
  xdr : Xdr.Error X → Error X

-- `from_xdr_base64` of the two types that a response holds in base64.
pub record Codec (X : Xdr) : Type 0 where
  pub auth_entry : String → Result (Xdr.Error X) (SorobanAuthorizationEntry X)
  pub transaction_data : String → Result (Xdr.Error X) (SorobanTransactionData X)
  -- `SimulateTransactionResponse::events`, which are only logged.
  pub events : SimulateTransactionResponse → Result {0, 0} (Error X) Unit

pub record Assembled (X : Xdr) : Type 0 where
  pub txn : Transaction X
  pub sim_res : SimulateTransactionResponse

-- `u64` addition as it is compiled for release, and `u32::try_from`.
abbrev pub add_u64 : ℕ → ℕ → ℕ
add_u64 a b = (a + b) % 2 ^ 64

abbrev pub try_u32 : ℕ → Option ℕ
try_u32 n = if ltb n (2 ^ 32) then some n else none

-- `u32::checked_add`
abbrev pub checked_add_u32 : ℕ → ℕ → Option ℕ
checked_add_u32 a b = try_u32 (a + b)

module _ (X : Xdr) where
  -- `matches!(auth.first()…, Some(ContractFn(_)))`
  pub first_is_contract_fn : List (SorobanAuthorizationEntry X) → Bool
  first_is_contract_fn [] = false
  first_is_contract_fn (x ∷ auth) = elim x.root_invocation.function [
    | contract_fn args ↦ true
    | _ ↦ false
  ]

  op_auth_entries : OperationBody X → List (SorobanAuthorizationEntry X)
  op_auth_entries (invoke_host_function f auth) = if first_is_contract_fn auth then auth else []
  op_auth_entries _ = []

  first_auth_entries : List (Operation X) → List (SorobanAuthorizationEntry X)
  first_auth_entries [] = []
  first_auth_entries (op ∷ rest) = op_auth_entries op.body

  pub auth_entries : Assembled X → List (SorobanAuthorizationEntry X)
  unfolding op_auth_entries first_auth_entries first_is_contract_fn
  auth_entries self = first_auth_entries self.txn.operations

  op_requires_auth : Operation X → OperationBody X → Option (Operation X)
  op_requires_auth op (invoke_host_function f auth) =
      if first_is_contract_fn auth then some op else none
  op_requires_auth op _ = none

  only_op_requires_auth : List (Operation X) → Option (Operation X)
  only_op_requires_auth (op ∷ []) = op_requires_auth op op.body
  only_op_requires_auth _ = none

  -- The free function `requires_auth`.
  unfoldable pub requires_auth : Transaction X → Option (Operation X)
  unfolding op_requires_auth only_op_requires_auth first_is_contract_fn
  requires_auth txn = only_op_requires_auth txn.operations

  ext_is_view : TransactionExt X → Bool
  ext_is_view v0 = false
  ext_is_view (v1 tx_data) = is_empty tx_data.resources.read_write

  pub is_view : Assembled X → Bool
  unfolding ext_is_view
  is_view self = ext_is_view self.txn.ext

  -- The `i64` is kept as its two's complement pattern.
  pub bump_seq_num : Assembled X → Assembled X
  bump_seq_num self = record self {
    txn = record self.txn { seq_num = (self.txn.seq_num + 1) % 2 ^ 64 };
  }

  ext_set_instructions : ℕ → TransactionExt X → TransactionExt X
  ext_set_instructions n v0 = v0
  ext_set_instructions n (v1 tx_data) =
      v1 (record tx_data { resources = record tx_data.resources { instructions = n } })

  unfoldable pub set_max_instructions : Assembled X → ℕ → Assembled X
  unfolding ext_set_instructions
  set_max_instructions self n = record self {
    txn = record self.txn { ext = ext_set_instructions n self.txn.ext };
  }

  -- `VecM::try_from` and `vec.try_into()`.
  unfoldable pub try_vec_m {ℓ} : {A : Type ℓ} → ℕ → List A → Result (Xdr.Error X) (List A)
  try_vec_m max xs = if X.vec_m_fits max (length xs) then ok xs else err X.length_exceeds_max

module _ (X : Xdr) (C : Codec X) where
  result_auth : SimulateResult → Result (Error X) (List (SorobanAuthorizationEntry X))
  unfolding try_vec_m
  result_auth r = do
    entries ← map_err xdr (collect C.auth_entry r.auth)
    map_err xdr (try_vec_m X (2 ^ 32 - 1) entries)

  first_or_same :
      List (List (SorobanAuthorizationEntry X))
      → List (SorobanAuthorizationEntry X)
      → List (SorobanAuthorizationEntry X)
  first_or_same [] auth = auth
  first_or_same (auth ∷ rest) _ = auth

  -- The authorizations of the simulation go into a call that has none.
  pub fill_auth : SimulateTransactionResponse → OperationBody X → Result (Error X) (OperationBody X)
  unfolding result_auth first_or_same
  fill_auth sim (invoke_host_function f []) = do
    reject_if (not (length sim.results == 1))
        (unexpected_simulate_transaction_result_size (length sim.results))
    auths ← collect result_auth sim.results
    ok (invoke_host_function f (first_or_same auths []))
  fill_auth sim body = ok body

  -- The larger of the fee that is there and the inclusion fee with the resource fee.
  pub assemble_fee : ℕ → ℕ → Result (Error X) ℕ
  assemble_fee fee min_resource_fee =
      elim (try_u32 (add_u64 default_transaction_fees min_resource_fee)) [
        | none ↦ err (large_fee (add_u64 min_resource_fee default_transaction_fees))
        | some n ↦ ok (max fee n)
      ]

  assemble_one :
      Transaction X → SimulateTransactionResponse → Operation X → Result (Error X) (Transaction X)
  assemble_one tx simulation op = do
    tx_data ← map_err xdr (C.transaction_data simulation.transaction_data)
    body ← fill_auth simulation op.body
    fee ← assemble_fee tx.fee simulation.min_resource_fee
    operations ← map_err xdr (try_vec_m X 100 (record op { body = body } ∷ []))
    ok (record tx { fee = fee; operations = operations; ext = v1 tx_data })

  assemble_operations :
      Transaction X
      → SimulateTransactionResponse
      → List (Operation X)
      → Result (Error X) (Transaction X)
  unfolding assemble_one
  assemble_operations tx simulation (op ∷ []) = assemble_one tx simulation op
  assemble_operations tx simulation ops = err (unexpected_operation_count (length ops))

  unfoldable pub assemble :
      Transaction X → SimulateTransactionResponse → Result (Error X) (Transaction X)
  unfolding assemble_operations fill_auth assemble_fee
  assemble raw simulation = assemble_operations raw simulation raw.operations

  -- `Assembled::new`
  unfoldable pub new : Transaction X → SimulateTransactionResponse → Result (Error X) (Assembled X)
  new txn sim_res = do txn' ← assemble txn sim_res; ok (record { txn = txn'; sim_res = sim_res })

  -- What follows the answer of the RPC client.
  unfoldable pub simulate_and_assemble :
      Transaction X → SimulateTransactionResponse → Result (Error X) (Assembled X)
  simulate_and_assemble tx sim_res = elim sim_res.error [
    | some e ↦ do logged ← C.events sim_res; err (transaction_simulation_failed e)
    | none ↦ new tx sim_res
  ]

  restore_fee : ℕ → ℕ → Result (Error X) ℕ
  restore_fee parent_fee min_resource_fee = elim (try_u32 min_resource_fee) [
    | none ↦ err (large_fee min_resource_fee)
    | some fee ↦ elim (checked_add_u32 parent_fee fee) [
      | none ↦ err (large_fee min_resource_fee)
      | some sum ↦ ok sum
    ]
  ]

  pub restore : Transaction X → RestorePreamble → Result (Error X) (Transaction X)
  unfolding restore_fee
  restore parent preamble = do
    tx_data ← map_err xdr (C.transaction_data preamble.transaction_data)
    fee ← restore_fee parent.fee preamble.min_resource_fee
    operations ←
        map_err xdr
          (try_vec_m X 100 (record { source_account = none; body = restore_footprint } ∷ []))
    ok (record {
      source_account = parent.source_account;
      fee = fee;
      seq_num = parent.seq_num;
      cond = X.no_preconditions;
      memo = X.no_memo;
      operations = operations;
      ext = v1 tx_data;
    })

  restore_of : Transaction X → Option RestorePreamble → Result (Error X) (Option (Transaction X))
  restore_of txn none = ok none
  restore_of txn (some preamble) = do tx ← restore txn preamble; ok (some tx)

  pub restore_txn : Assembled X → Result (Error X) (Option (Transaction X))
  unfolding restore_of restore
  restore_txn self = restore_of self.txn self.sim_res.restore_preamble
