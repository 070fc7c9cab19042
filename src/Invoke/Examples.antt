-- ===== src/Invoke/Examples.antt =====
-- A call whose simulation asks for an authorization, and one that only reads.
use soroban_tools.Prelude.{ℕ, Bool, true, false, none, [], ◌∷◌, ◌≡◌, refl, leb}
use soroban_tools.Prelude.Result.{ok}
use soroban_tools.Xdr.{
  Xdr, contract_fn, source_account, SorobanAuthorizationEntry, SorobanTransactionData, Transaction,
}
use soroban_tools.Assembled.{
  SimulateTransactionResponse, Codec, assemble, new, simulate_and_assemble,
}
use soroban_tools.Fee.{default_args, apply_to_assembled_txn}
use soroban_tools.Invoke.{Send, default, always, Steps, Cmd, invoke}
use soroban_tools.Invoke.Sending.{sends, SendsOne}
use soroban_tools.Invoke.Sent.{Sent, invoke-Sent}

abbrev unit_xdr : Xdr
unit_xdr = record {
  Error = Unit;
  Preconditions = Unit;
  Memo = Unit;
  HostFunction = Unit;
  ContractArgs = Unit;
  CreateArgs = Unit;
  SubInvocations = Unit;
  SignatureVal = Unit;
  LedgerKey = Unit;
  OtherOperation = Unit;
  no_preconditions = tt;
  no_memo = tt;
  vec_m_fits = λ most n. leb n most;
  length_exceeds_max = tt;
}

abbrev auth_entry : SorobanAuthorizationEntry unit_xdr
auth_entry = record {
  credentials = source_account;
  root_invocation = record { function = contract_fn tt; sub_invocations = tt };
}

abbrev footprint : SorobanTransactionData unit_xdr
footprint = record {
  resources = record {
    read_only = [];
    read_write = [];
    instructions = 40;
    read_bytes = 5;
    write_bytes = 0;
  };
  resource_fee = 0;
}

abbrev codec : Codec unit_xdr
codec = record {
  auth_entry = λ s. ok auth_entry;
  transaction_data = λ s. ok footprint;
  events = λ sim. ok tt;
}

abbrev response : SimulateTransactionResponse
response = record {
  error = none;
  min_resource_fee = 115;
  results = record { auth = "entry" ∷ [] } ∷ [];
  transaction_data = "data";
  restore_preamble = none;
}

-- The envelope is the number of the transaction's sequence.
abbrev steps : Steps unit_xdr
steps = record {
  Error = Unit;
  Network = Unit;
  Contract = Unit;
  SpecEntries = Unit;
  Spec = Unit;
  Params = Unit;
  SigningKey = Unit;
  Envelope = ℕ;
  Val = ℕ;
  Response = ℕ;
  assembled_error = λ e. tt;
  xdr_error = λ e. tt;
  get_network = ok tt;
  resolve_contract_id = λ n. ok tt;
  spec_entries = ok none;
  rpc_client = λ n. ok tt;
  build_host_function_parameters = λ c s. ok (("f", tt), (tt, []));
  host_function = λ p. tt;
  source_account = ok "G";
  sign_soroban_authorizations = λ t signers. ok none;
  sign_with_local_key = λ (t : Transaction unit_xdr). ok t.seq_num;
  output_to_string = λ s v f. ok "3";
  results = λ r. ok (record { auth = auth_entry ∷ []; val = 3 } ∷ []);
  events = λ r. ok [];
  return_value = λ r. ok r;
  write_simulation = λ r n. ok tt;
  write_response = λ r n. ok tt;
  panic = tt;
  contract_spec = λ c. ok tt;
  first_simulation = λ t. ok response;
  verify_network_passphrase = λ n. ok tt;
  get_account = λ a. ok ([], 7);
  second_simulation = λ t. ok response;
  send_transaction_polling = λ e. ok 3;
}

abbrev cmd_of : Send → Bool → Cmd
cmd_of s view = record { send = s; is_view = view; fee = default_args; no_cache = false }

sends_next_sequence :
    sends unit_xdr codec steps (invoke unit_xdr codec steps (cmd_of default false)).0 ≡ 8 ∷ []
unfolding invoke assemble new simulate_and_assemble apply_to_assembled_txn
sends_next_sequence = refl

sends_no_view :
    sends unit_xdr codec steps (invoke unit_xdr codec steps (cmd_of default true)).0 ≡ []
unfolding invoke assemble new simulate_and_assemble apply_to_assembled_txn
sends_no_view = refl

invoke-Sent_example :
    SendsOne unit_xdr codec steps
      (Sent unit_xdr codec steps (cmd_of always false))
      (invoke unit_xdr codec steps (cmd_of always false)).0
invoke-Sent_example = invoke-Sent unit_xdr codec steps (cmd_of always false)
