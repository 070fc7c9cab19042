-- ===== src/Invoke/Sent.antt =====
-- What is known of a transaction that the invocation of a contract sends.
use soroban_tools.Prelude.{ℕ, String, Bool, true, false, List, [], ◌≡◌, inl, arith, refl}
use soroban_tools.Prelude.Result.{Result, ok, err}
use soroban_tools.Xdr.{Xdr, Bytes, Transaction}
use soroban_tools.Assembled.{SimulateTransactionResponse, Codec, Assembled}
use soroban_tools.Invoke.{
  Send, default, no_send, always, ShouldSend, default_no, no_sending, sending, Steps, Cmd, spec_of,
  verify, account_of, local, ask, changes, should_send_tx, build_invoke_contract_tx, next_sequence,
  simulate_call, simulated_result, assemble_and_send, send_call, by_should_send, by_send, invoke,
  first_val, check_wasm, default_account_id,
}
use soroban_tools.Invoke.Sending.{
  sends, SendsOne, SendsOne-mono, step, quiet, AssembledOf, unless_only-SendsOne,
  assemble_and_send-AssembledOf,
}

module _ (X : Xdr) (C : Codec X) (S : Steps X) where
  -- The transaction is the call, of the source account and after its sequence number.
  pub record CallOf (cmd : Cmd) (parameters : S.Params) (signers : List S.SigningKey)
      (e : S.Envelope) : Type 0 where
    pub not_build_only : cmd.fee.build_only ≡ false
    pub source : String
    pub is_source : S.source_account ≡ ok source
    pub account : Bytes × ℕ
    pub is_account : S.get_account source ≡ ok account
    pub transaction : Transaction X
    pub built :
        build_invoke_contract_tx X C S parameters
          (next_sequence X C S account.1)
          cmd.fee.fee
          account.0
        ≡ ok transaction
    pub assembled_of : AssembledOf X C S cmd signers transaction e

  send_call-CallOf :
      (cmd : Cmd) (network : S.Network) (function : String) (spec : S.Spec) (parameters : S.Params)
      (signers : List S.SigningKey)
      → SendsOne X C S
          (CallOf cmd parameters signers)
          (send_call X C S cmd network function spec parameters signers).0
  unfolding send_call
  send_call-CallOf cmd network function spec parameters signers =
      let P = CallOf cmd parameters signers in
      step X C S P (ask X C S (verify network) (S.verify_network_passphrase network)) _ refl
        (λ verified v. step X C S P (local X C S S.source_account) _ refl (λ source s.
          step X C S P (ask X C S (account_of source) (S.get_account source)) _ refl (λ account a.
            step X C S P
              (local X C S (
                build_invoke_contract_tx X C S parameters (next_sequence X C S account.1)
                  cmd.fee.fee account.0))
              _ refl
              (λ t b.
                let rest = assemble_and_send X C S cmd network function spec signers t in
                unless_only-SendsOne X C S P cmd.fee.build_only t rest (λ n.
                  SendsOne-mono X C S (AssembledOf X C S cmd signers t) P rest.0
                    (λ e m. record {
                      not_build_only = n;
                      source = source;
                      is_source = s;
                      account = account;
                      is_account = a;
                      transaction = t;
                      built = b;
                      assembled_of = m;
                    })
                    (assemble_and_send-AssembledOf X C S cmd network function spec signers t))))))

  simulate_call-quiet :
      (cmd : Cmd) (parameters : S.Params) → sends X C S (simulate_call X C S cmd parameters).0 ≡ []
  unfolding simulate_call
  simulate_call-quiet cmd parameters =
      quiet X C S
        (local X C S (
          build_invoke_contract_tx X C S parameters (next_sequence X C S 0) cmd.fee.fee
            (default_account_id X C S)))
        _ refl (λ t. refl)

  simulated_result-quiet :
      (spec : S.Spec) (function : String) (assembled : Assembled X)
      → sends X C S (simulated_result X C S spec function assembled).0 ≡ []
  unfolding simulated_result
  simulated_result-quiet spec function assembled =
      quiet X C S (local X C S (S.results assembled.sim_res)) _ refl (λ results.
        quiet X C S (local X C S (S.events assembled.sim_res)) _ refl (λ events.
          quiet X C S (local X C S (first_val X C S results)) _ refl (λ val.
            quiet X C S (local X C S (S.output_to_string spec val function)) _ refl
              (λ output. refl))))

  -- The arguments ask for sending, or leave it to a simulation that shows that something changes.
  pub data Wanted (cmd : Cmd) (sim_res : SimulateTransactionResponse) : Type 0 where
    asked_for : cmd.send ≡ always → Wanted cmd sim_res
    changing :
        cmd.send ≡ default
        → cmd.is_view ≡ false
        → changes X C S sim_res ≡ ok true
        → Wanted cmd sim_res

  by_send-Wanted :
      (cmd : Cmd) (sim_res : SimulateTransactionResponse) (s : Send) (v : Bool)
      (c : Result S.Error Bool)
      → cmd.send ≡ s
      → cmd.is_view ≡ v
      → changes X C S sim_res ≡ c
      → by_send X C S s v c ≡ ok sending
      → Wanted cmd sim_res
  by_send-Wanted cmd sim_res always v c p q r h = asked_for p
  by_send-Wanted cmd sim_res no_send v c p q r h = absurd (ground (arith, h))
  by_send-Wanted cmd sim_res default true c p q r h = absurd (ground (arith, h))
  by_send-Wanted cmd sim_res default false (ok true) p q r h = changing p q r
  by_send-Wanted cmd sim_res default false (ok false) p q r h = absurd (ground (arith, h))
  by_send-Wanted cmd sim_res default false (err e) p q r h = absurd (ground (arith, h))

  should_send_tx-Wanted :
      (cmd : Cmd) (sim_res : SimulateTransactionResponse)
      → should_send_tx X C S cmd sim_res ≡ ok sending
      → Wanted cmd sim_res
  unfolding should_send_tx
  should_send_tx-Wanted cmd sim_res h =
      by_send-Wanted cmd sim_res cmd.send cmd.is_view (changes X C S sim_res) refl refl refl h

  -- Sending was wanted after the first simulation of the call that the arguments make.
  pub record Sent (cmd : Cmd) (e : S.Envelope) : Type 0 where
    pub parameters : S.Params
    pub signers : List S.SigningKey
    pub first : Assembled X
    pub is_first : (simulate_call X C S cmd parameters).1 ≡ ok first
    pub wanted : Wanted cmd first.sim_res
    pub call_of : CallOf cmd parameters signers e

  decision-Sent :
      (cmd : Cmd) (network : S.Network) (function : String) (spec : S.Spec) (parameters : S.Params)
      (signers : List S.SigningKey) (first : Assembled X) (d : ShouldSend)
      → (simulate_call X C S cmd parameters).1 ≡ ok first
      → should_send_tx X C S cmd first.sim_res ≡ ok d
      → SendsOne X C S
          (Sent cmd)
          (by_should_send X C S d
            (send_call X C S cmd network function spec parameters signers)
            (simulated_result X C S spec function first)).0
  decision-Sent cmd network function spec parameters signers first default_no f h =
      inl (simulated_result-quiet spec function first)
  decision-Sent cmd network function spec parameters signers first no_sending f h =
      inl (simulated_result-quiet spec function first)
  decision-Sent cmd network function spec parameters signers first sending f h =
      SendsOne-mono X C S (CallOf cmd parameters signers) (Sent cmd)
        (send_call X C S cmd network function spec parameters signers).0
        (λ e c. record {
          parameters = parameters;
          signers = signers;
          first = first;
          is_first = f;
          wanted = should_send_tx-Wanted cmd first.sim_res h;
          call_of = c;
        })
        (send_call-CallOf cmd network function spec parameters signers)

  -- Whatever the server answers, an invocation sends nothing, or one envelope: then the arguments
  -- ask for sending or the simulation shows a write, a contract event or an authorization in a
  -- call that is no view, neither build_only nor sim_only is set, and the envelope is the
  -- signature of the assembled call, built for the account of the source and after its sequence
  -- number, with its authorizations signed.
  pub invoke-Sent : (cmd : Cmd) → SendsOne X C S (Sent cmd) (invoke X C S cmd).0
  unfolding invoke
  invoke-Sent cmd =
      let P = Sent cmd in
      step X C S P (local X C S S.get_network) _ refl (λ network n.
        step X C S P (local X C S (S.resolve_contract_id network)) _ refl (λ contract c.
          step X C S P (local X C S S.spec_entries) _ refl (λ wasm w.
            step X C S P (local X C S (check_wasm X C S contract wasm)) _ refl (λ checked k.
              step X C S P (local X C S (S.rpc_client network)) _ refl (λ client r.
                step X C S P (ask X C S (spec_of contract) (S.contract_spec contract)) _ refl
                  (λ entries e.
                    step X C S P (local X C S (S.build_host_function_parameters contract entries)) _
                      refl
                      (λ call b.
                        step X C S P (simulate_call X C S cmd call.1.0) _
                          (simulate_call-quiet cmd call.1.0)
                          (λ first f.
                            step X C S P (local X C S (should_send_tx X C S cmd first.sim_res)) _
                              refl
                              (λ d h.
                                decision-Sent cmd network call.0.0 call.0.1 call.1.0 call.1.1 first
                                  d f h)))))))))
