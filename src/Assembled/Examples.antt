-- ===== src/Assembled/Examples.antt =====
-- A call assembled with its simulation, and the laws at it.
use soroban_tools.Prelude.{
  ℕ, ◌+◌, ◌^◌, ◌<◌, ◌≡◌, refl, max, none, some, List, [], ◌∷◌, leb, arith, true,
}
use soroban_tools.Prelude.Result.{Result, ok, err}
use soroban_tools.Xdr.{
  Xdr, ed25519, contract_fn, source_account, SorobanAuthorizationEntry, invoke_host_function,
  Operation, SorobanTransactionData, v0, Transaction,
}
use soroban_tools.Assembled.{
  SimulateTransactionResponse, Error, RestorePreamble, Codec, Assembled, assemble, fill_auth,
  restore, is_view, bump_seq_num, new, simulate_and_assemble, restore_txn,
  transaction_simulation_failed, try_vec_m,
}
use soroban_tools.Assembled.Assemble.{fee-assemble, assemble_idem, assemble_fills_auth, FilledAuth}
use soroban_tools.Fee.{default_args, apply_to_assembled_txn}
use soroban_tools.Fee.Laws.{apply_unpadded}

abbrev unit_xdr : Xdr
unit_xdr = record {
  Error = Unit;
  Preconditions = Unit;
  Memo = Unit;
  HostFunction = Unit;
  ContractArgs = Unit;
  CreateArgs = Unit;
  SubInvocations = Unit;
  SignatureVal = Unit;
  LedgerKey = Unit;
  OtherOperation = Unit;
  no_preconditions = tt;
  no_memo = tt;
  vec_m_fits = λ most n. leb n most;
  length_exceeds_max = tt;
}

abbrev auth_entry : SorobanAuthorizationEntry unit_xdr
auth_entry = record {
  credentials = source_account;
  root_invocation = record { function = contract_fn tt; sub_invocations = tt };
}

abbrev footprint : SorobanTransactionData unit_xdr
footprint = record {
  resources = record {
    read_only = [];
    read_write = [];
    instructions = 40;
    read_bytes = 5;
    write_bytes = 0;
  };
  resource_fee = 0;
}

abbrev codec : Codec unit_xdr
codec = record {
  auth_entry = λ s. ok auth_entry;
  transaction_data = λ s. ok footprint;
  events = λ sim. ok tt;
}

abbrev call_op : List (SorobanAuthorizationEntry unit_xdr) → Operation unit_xdr
call_op auth = record { source_account = none; body = invoke_host_function tt auth }

abbrev transaction_of : List (Operation unit_xdr) → Transaction unit_xdr
transaction_of ops = record {
  source_account = ed25519 [];
  fee = 100;
  seq_num = 7;
  cond = tt;
  memo = tt;
  operations = ops;
  ext = v0;
}

abbrev simulated : ℕ → SimulateTransactionResponse
simulated fee = record {
  error = none;
  min_resource_fee = fee;
  results = record { auth = "entry" ∷ [] } ∷ [];
  transaction_data = "data";
  restore_preamble = none;
}

abbrev raw : Transaction unit_xdr
raw = transaction_of (call_op [] ∷ [])

abbrev signed : Transaction unit_xdr
signed = transaction_of (call_op (auth_entry ∷ []) ∷ [])

abbrev preamble : ℕ → RestorePreamble
preamble fee = record { transaction_data = "data"; min_resource_fee = fee }

abbrev value_of : Result (Error unit_xdr) (Transaction unit_xdr) → Transaction unit_xdr
value_of (ok tx) = tx
value_of (err e) = raw

abbrev assembled : Transaction unit_xdr
unfolding assemble
assembled = value_of (assemble unit_xdr codec raw (simulated 115))

raw_assembles : assemble unit_xdr codec raw (simulated 115) ≡ ok assembled
unfolding assemble assembled
raw_assembles = refl

fee-assemble_example : (assembled.fee ≡ max 100 (115 + 100)) × (◌<◌ (115 + 100) (2 ^ 32))
fee-assemble_example = fee-assemble unit_xdr codec raw (simulated 115) raw_assembles (omega arith)

assemble_idem_example : assemble unit_xdr codec assembled (simulated 115) ≡ ok assembled
assemble_idem_example = assemble_idem unit_xdr codec raw (simulated 115) raw_assembles

abbrev signed_assembled : Transaction unit_xdr
unfolding assemble
signed_assembled = value_of (assemble unit_xdr codec signed (simulated 115))

assemble_fills_auth_example :
    (auth : List (SorobanAuthorizationEntry unit_xdr)) × FilledAuth unit_xdr codec
      (simulated 115)
      []
      auth
    × (assembled.operations ≡ call_op auth ∷ [])
assemble_fills_auth_example =
    assemble_fills_auth unit_xdr codec raw (simulated 115) (call_op []) tt [] refl refl
      raw_assembles

filled :
    fill_auth unit_xdr codec (simulated (2 ^ 32)) (invoke_host_function tt [])
    ≡ ok (invoke_host_function tt (auth_entry ∷ []))
unfolding fill_auth
filled = refl

abbrev restoring : Transaction unit_xdr
unfolding restore try_vec_m
restoring = value_of (restore unit_xdr codec raw (preamble 9))

restores : restore unit_xdr codec raw (preamble 9) ≡ ok restoring
unfolding restore restoring try_vec_m
restores = refl

abbrev call_assembled : Assembled unit_xdr
call_assembled = record { txn = signed; sim_res = simulated 115 }

apply_unpadded_example :
    apply_to_assembled_txn unit_xdr default_args call_assembled ≡ call_assembled
apply_unpadded_example = apply_unpadded unit_xdr default_args call_assembled refl

is_view_runs : is_view unit_xdr (record call_assembled { txn = assembled }) ≡ true
unfolding is_view assembled assemble
is_view_runs = refl

bump_seq_num_runs : (bump_seq_num unit_xdr call_assembled).txn.seq_num ≡ 8
unfolding bump_seq_num
bump_seq_num_runs = refl

new_runs :
    new unit_xdr codec raw (simulated 115)
    ≡ ok (record { txn = assembled; sim_res = simulated 115 })
unfolding new
new_runs = rw raw_assembles refl

simulation_error_runs :
    simulate_and_assemble unit_xdr codec raw (record (simulated 115) { error = some "no" })
    ≡ err (transaction_simulation_failed "no")
unfolding simulate_and_assemble
simulation_error_runs = refl

restore_txn_runs : restore_txn unit_xdr codec call_assembled ≡ ok none
unfolding restore_txn
restore_txn_runs = refl
