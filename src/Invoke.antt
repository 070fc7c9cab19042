-- ===== src/Invoke.antt =====
-- cmd/soroban-cli/src/commands/contract/invoke.rs: what a call of a contract asks of the server, and what
-- becomes of the answers. The files, the configuration and the arguments come in by `Steps`, whose
-- operations are those of Config, ArgParsing, Signer and Envelopes.
pub mod Sending
pub mod Sent
mod Examples
use soroban_tools.Prelude.{
  ℕ, ◌+◌, String, Bool, true, false, not, Option, none, some, List, [], ◌∷◌, ◌++◌, any, is_empty,
  replicate, ◌%◌, ◌^◌, if◌then◌else◌,
}
use soroban_tools.Prelude.Result.{Result, ok, err, map_err, Result-cases}
use soroban_tools.Xdr.{
  Xdr, Bytes, MuxedAccount, ed25519, SorobanAuthorizationEntry, invoke_host_function, Transaction,
  SorobanTransactionData, Operation, v0,
}
use soroban_tools.Assembled
use soroban_tools.Assembled.{
  SimulateTransactionResponse, Codec, Assembled, try_vec_m, simulate_and_assemble,
}
use soroban_tools.Fee
use soroban_tools.Fee.{apply_to_assembled_txn}

pub data Send : Type 0 where
  default : Send
  no_send : Send
  always : Send

pub data ShouldSend : Type 0 where
  default_no : ShouldSend
  no_sending : ShouldSend
  sending : ShouldSend

pub data ContractEventType : Type 0 where
  system_event : ContractEventType
  contract_event : ContractEventType
  diagnostic_event : ContractEventType

-- A result of a simulation, decoded.
pub record HostFunctionResult (X : Xdr) (Val : Type 0) : Type 0 where
  pub auth : List (SorobanAuthorizationEntry X)
  pub val : Val

-- What the command takes from the other parts and from the RPC client. A call is simulated first for an
-- account that is made up, and then for that of the source, so there are two answers.
pub record Steps (X : Xdr) : Type 1 where
  pub Error : Type 0
  pub Network : Type 0
  pub Contract : Type 0
  pub SpecEntries : Type 0
  pub Spec : Type 0
  pub Params : Type 0
  pub SigningKey : Type 0
  pub Envelope : Type 0
  pub Val : Type 0
  pub Response : Type 0
  pub assembled_error : Assembled.Error X → Error
  pub xdr_error : Xdr.Error X → Error
  pub get_network : Result Error Network
  pub resolve_contract_id : Network → Result Error Contract
  pub spec_entries : Result Error (Option SpecEntries)
  pub rpc_client : Network → Result Error (Unit {0})
  pub build_host_function_parameters :
      Contract → SpecEntries → Result Error ((String × Spec) × (Params × List SigningKey))
  pub host_function : Params → X.HostFunction
  pub source_account : Result Error String
  pub sign_soroban_authorizations :
      Transaction X → List SigningKey → Result Error (Option (Transaction X))
  pub sign_with_local_key : Transaction X → Result Error Envelope
  pub output_to_string : Spec → Val → String → Result Error String
  -- The methods of a simulation's response.
  pub results : SimulateTransactionResponse → Result Error (List (HostFunctionResult X Val))
  pub events : SimulateTransactionResponse → Result Error (List ContractEventType)
  pub return_value : Response → Result Error Val
  -- The cache of responses.
  pub write_simulation : SimulateTransactionResponse → Network → Result Error (Unit {0})
  pub write_response : Response → Network → Result Error (Unit {0})
  -- The index `return_value[0]` is out of range.
  pub panic : Error
  -- The answers of the server.
  pub contract_spec : Contract → Result Error SpecEntries
  pub first_simulation : Transaction X → Result Error SimulateTransactionResponse
  pub verify_network_passphrase : Network → Result Error (Unit {0})
  pub get_account : String → Result Error (Bytes × ℕ)
  pub second_simulation : Transaction X → Result Error SimulateTransactionResponse
  pub send_transaction_polling : Envelope → Result Error Response

pub record Cmd : Type 0 where
  pub send : Send
  pub is_view : Bool
  pub fee : Fee.Args
  pub no_cache : Bool

module _ (X : Xdr) (C : Codec X) (S : Steps X) where
  pub data Request : Type 0 where
    spec_of : S.Contract → Request
    simulate : Transaction X → Request
    verify : S.Network → Request
    account_of : String → Request
    send_transaction : S.Envelope → Request

  -- The requests that were made, and the result.
  abbrev pub Requesting : Type 0 → Type 0
  Requesting A = List Request × Result S.Error A

  abbrev pub after :
      {A B : Type 0} → List Request → Result S.Error A → (A → Requesting B) → Requesting B
  after rs (ok a) f = (rs ++ (f a).0, (f a).1)
  after rs (err e) f = (rs, err e)

  infixl 5 ◌>>=◌
  abbrev pub ◌>>=◌ : {A B : Type 0} → Requesting A → (A → Requesting B) → Requesting B
  m >>= f = after m.0 m.1 f

  -- A step without a request, and one with.
  abbrev pub local : {A : Type 0} → Result S.Error A → Requesting A
  local r = ([], r)

  abbrev pub ask : {A : Type 0} → Request → Result S.Error A → Requesting A
  ask r answer = (r ∷ [], answer)

  pub data TxnResult : Type 0 where
    txn : Transaction X → TxnResult
    res : String → TxnResult

  -- `a? || b?`, which does not ask the second where the first holds.
  abbrev pub or_test : Result S.Error Bool → Result S.Error Bool → Result S.Error Bool
  or_test (ok true) later = ok true
  or_test (ok false) later = later
  or_test (err e) later = err e

  abbrev pub writes : Result (Xdr.Error X) (SorobanTransactionData X) → Result S.Error Bool
  writes (ok tx_data) = ok (not (is_empty tx_data.resources.read_write))
  writes (err e) = err (S.xdr_error e)

  unfoldable pub has_write : SimulateTransactionResponse → Result S.Error Bool
  has_write sim_res = writes (C.transaction_data sim_res.transaction_data)

  abbrev pub is_contract : ContractEventType → Bool
  is_contract contract_event = true
  is_contract system_event = false
  is_contract diagnostic_event = false

  abbrev pub publishes : Result S.Error (List ContractEventType) → Result S.Error Bool
  publishes (ok events) = ok (any is_contract events)
  publishes (err e) = err e

  unfoldable pub has_published_event : SimulateTransactionResponse → Result S.Error Bool
  has_published_event sim_res = publishes (S.events sim_res)

  abbrev pub needs_auth : HostFunctionResult X S.Val → Bool
  needs_auth r = not (is_empty r.auth)

  abbrev pub authorizes : Result S.Error (List (HostFunctionResult X S.Val)) → Result S.Error Bool
  authorizes (ok results) = ok (any needs_auth results)
  authorizes (err e) = err e

  unfoldable pub has_auth : SimulateTransactionResponse → Result S.Error Bool
  has_auth sim_res = authorizes (S.results sim_res)

  abbrev pub when_changing : Result S.Error Bool → Result S.Error ShouldSend
  when_changing (ok true) = ok sending
  when_changing (ok false) = ok default_no
  when_changing (err e) = err e

  -- Whether a simulation shows that the call does more than read.
  abbrev pub changes : SimulateTransactionResponse → Result S.Error Bool
  changes sim_res =
      or_test (has_write sim_res) (or_test (has_published_event sim_res) (has_auth sim_res))

  abbrev pub by_send : Send → Bool → Result S.Error Bool → Result S.Error ShouldSend
  by_send default true c = ok no_sending
  by_send default false c = when_changing c
  by_send no_send is_view c = ok no_sending
  by_send always is_view c = ok sending

  unfoldable pub should_send_tx : Cmd → SimulateTransactionResponse → Result S.Error ShouldSend
  unfolding has_write has_published_event has_auth
  should_send_tx cmd sim_res = by_send cmd.send cmd.is_view (changes sim_res)

  abbrev with_operations :
      ℕ → ℕ → Bytes → Result (Xdr.Error X) (List (Operation X)) → Result S.Error (Transaction X)
  with_operations sequence fee source_account_id (ok operations) = ok (record {
    source_account = ed25519 source_account_id;
    fee = fee;
    seq_num = sequence;
    cond = X.no_preconditions;
    memo = X.no_memo;
    operations = operations;
    ext = v0;
  })
  with_operations sequence fee source_account_id (err e) = err (S.xdr_error e)

  abbrev pub checked : {A : Type 0} → Result S.Error A → Result S.Error (Unit {0})
  checked (ok a) = ok tt
  checked (err e) = err e

  unfoldable pub build_invoke_contract_tx :
      S.Params → ℕ → ℕ → Bytes → Result S.Error (Transaction X)
  unfolding try_vec_m
  build_invoke_contract_tx parameters sequence fee source_account_id =
      with_operations sequence fee source_account_id (
        try_vec_m X 100 (
          record {
            source_account = none;
            body = invoke_host_function (S.host_function parameters) [];
          }
          ∷ []))

  -- `i64` addition as it is compiled for release.
  abbrev pub next_sequence : ℕ → ℕ
  next_sequence sequence = (sequence + 1) % 2 ^ 64

  abbrev pub default_account_id : Bytes
  default_account_id = replicate 32 0

  abbrev pub assembled_with :
      Transaction X → Result S.Error SimulateTransactionResponse → Result S.Error (Assembled X)
  assembled_with tx (ok sim_res) = map_err S.assembled_error (simulate_and_assemble X C tx sim_res)
  assembled_with tx (err e) = err e

  -- `Cmd::simulate`
  unfoldable pub simulate_call : Cmd → S.Params → Requesting (Assembled X)
  unfolding build_invoke_contract_tx simulate_and_assemble
  simulate_call cmd parameters = do
    tx ←
        local (build_invoke_contract_tx parameters (next_sequence 0) cmd.fee.fee default_account_id)
    ask (simulate tx) (assembled_with tx (S.first_simulation tx))

  abbrev pub first_val : List (HostFunctionResult X S.Val) → Result S.Error S.Val
  first_val [] = err S.panic
  first_val (r ∷ rs) = ok r.val

  -- The result of a simulation that is not sent.
  unfoldable pub simulated_result : S.Spec → String → Assembled X → Requesting TxnResult
  simulated_result spec function assembled = do
    return_value ← local (S.results assembled.sim_res)
    events ← local (S.events assembled.sim_res)
    val ← local (first_val return_value)
    output ← local (S.output_to_string spec val function)
    local (ok (res output))

  abbrev pub write_unless :
      {A : Type 0}
      → Bool
      → (A → S.Network → Result S.Error (Unit {0}))
      → A
      → S.Network
      → Requesting (Unit {0})
  write_unless true write a network = local (ok tt)
  write_unless false write a network = local (write a network)

  abbrev pub signed_or : Transaction X → Option (Transaction X) → Transaction X
  signed_or t none = t
  signed_or t (some signed) = signed

  -- From the second simulation, that of the account's transaction, to the answer.
  unfoldable pub sign_and_send :
      Cmd → S.Network → String → S.Spec → List S.SigningKey → Assembled X → Requesting TxnResult
  sign_and_send cmd network function spec signers assembled = do
    cached ← write_unless cmd.no_cache S.write_simulation assembled.sim_res network
    authorized ← local (S.sign_soroban_authorizations assembled.txn signers)
    envelope ← local (S.sign_with_local_key (signed_or assembled.txn authorized))
    response ← ask (send_transaction envelope) (S.send_transaction_polling envelope)
    written ← write_unless cmd.no_cache S.write_response response network
    return_value ← local (S.return_value response)
    output ← local (S.output_to_string spec return_value function)
    local (ok (res output))

  abbrev pub unless_only : Bool → Transaction X → Requesting TxnResult → Requesting TxnResult
  unless_only true t rest = local (ok (txn t))
  unless_only false t rest = rest

  unfoldable pub assemble_and_send :
      Cmd → S.Network → String → S.Spec → List S.SigningKey → Transaction X → Requesting TxnResult
  unfolding sign_and_send apply_to_assembled_txn simulate_and_assemble
  assemble_and_send cmd network function spec signers tx = do
    simulated ← ask (simulate tx) (assembled_with tx (S.second_simulation tx))
    let assembled = apply_to_assembled_txn X cmd.fee simulated
    unless_only cmd.fee.sim_only assembled.txn
        (sign_and_send cmd network function spec signers assembled)

  unfoldable pub send_call :
      Cmd → S.Network → String → S.Spec → S.Params → List S.SigningKey → Requesting TxnResult
  unfolding assemble_and_send build_invoke_contract_tx
  send_call cmd network function spec parameters signers = do
    verified ← ask (verify network) (S.verify_network_passphrase network)
    source ← local S.source_account
    account ← ask (account_of source) (S.get_account source)
    tx ← local (build_invoke_contract_tx parameters (next_sequence account.1) cmd.fee.fee account.0)
    unless_only cmd.fee.build_only tx (assemble_and_send cmd network function spec signers tx)

  abbrev pub by_should_send :
      ShouldSend → Requesting TxnResult → Requesting TxnResult → Requesting TxnResult
  by_should_send sending send_it result = send_it
  by_should_send default_no send_it result = result
  by_should_send no_sending send_it result = result

  abbrev pub check_wasm : S.Contract → Option S.SpecEntries → Result S.Error (Unit {0})
  check_wasm contract none = ok tt
  check_wasm contract (some entries) = checked (S.build_host_function_parameters contract entries)

  -- `run_against_rpc_server`; what it logs is left out.
  unfoldable pub invoke : Cmd → Requesting TxnResult
  unfolding simulate_call should_send_tx send_call simulated_result
  invoke cmd = do
    network ← local S.get_network
    contract ← local (S.resolve_contract_id network)
    wasm_entries ← local S.spec_entries
    wasm_checked ← local (check_wasm contract wasm_entries)
    client ← local (S.rpc_client network)
    entries ← ask (spec_of contract) (S.contract_spec contract)
    call ← local (S.build_host_function_parameters contract entries)
    assembled ← simulate_call cmd call.1.0
    decision ← local (should_send_tx cmd assembled.sim_res)
    by_should_send decision (send_call cmd network call.0.0 call.0.1 call.1.0 call.1.1)
        (simulated_result call.0.1 call.0.0 assembled)
