-- ===== src/Assembled/Assemble.antt =====
-- What `assemble` returns: its fee, its operation and its errors.
use soroban_tools.Prelude.{
  ℕ, ◌+◌, ◌^◌, ◌≤◌, ◌<◌, max, ◌≡◌, ◌≢◌, refl, sym, ap, ◌∙◌, true, inl, inr, List, [], ◌∷◌, length,
  arith,
}
use soroban_tools.Prelude.Result.{ok, err, collect, Result-cases}
use soroban_tools.Xdr.{
  Xdr, SorobanAuthorizationEntry, OperationBody, invoke_host_function, restore_footprint, other,
  Operation, SorobanTransactionData, v1, Transaction,
}
use soroban_tools.Assembled.{
  SimulateResult, SimulateTransactionResponse, unexpected_operation_count, large_fee, Codec,
  default_transaction_fees, try_vec_m, result_auth, first_or_same, fill_auth, assemble_fee,
  assemble_one, assemble_operations, assemble,
}

module _ (X : Xdr) (C : Codec X) where
  -- What a successful run has gone through.
  record Steps (raw : Transaction X) (sim : SimulateTransactionResponse) (tx : Transaction X)
      : Type 0 where
    op : Operation X
    only : raw.operations ≡ op ∷ []
    tx_data : SorobanTransactionData X
    decoded : C.transaction_data sim.transaction_data ≡ ok tx_data
    body : OperationBody X
    filled : fill_auth X C sim op.body ≡ ok body
    fits : X.vec_m_fits 100 1 ≡ true
    fee : ℕ
    paid : assemble_fee X C raw.fee sim.min_resource_fee ≡ ok fee
    result :
        tx ≡ record raw { fee = fee; operations = record op { body = body } ∷ []; ext = v1 tx_data }

  one-Steps :
      (raw : Transaction X) (sim : SimulateTransactionResponse) (op : Operation X)
      {tx : Transaction X}
      → assemble_one X C raw sim op ≡ ok tx
      → (d : SorobanTransactionData X) × (body : OperationBody X) × (fee : ℕ) × (C.transaction_data
            sim.transaction_data
          ≡ ok d)
        × (fill_auth X C sim op.body ≡ ok body)
        × (assemble_fee X C raw.fee sim.min_resource_fee ≡ ok fee)
        × (X.vec_m_fits 100 1 ≡ true)
        × (tx ≡ record raw { fee = fee; operations = record op { body = body } ∷ []; ext = v1 d })
  unfolding assemble_one try_vec_m
  one-Steps raw sim op h = ground arith

  operations-Steps :
      (raw : Transaction X) (sim : SimulateTransactionResponse) (ops : List (Operation X))
      {tx : Transaction X}
      → raw.operations ≡ ops
      → assemble_operations X C raw sim ops ≡ ok tx
      → Steps raw sim tx
  unfolding assemble_operations
  operations-Steps raw sim [] e h = cc
  operations-Steps raw sim (op ∷ op' ∷ rest) e h = cc
  operations-Steps raw sim (op ∷ []) e h =
      let found = one-Steps raw sim op h in
      record {
        op = op;
        only = e;
        tx_data = found.0;
        decoded = found.3;
        body = found.1;
        filled = found.4;
        fits = found.6;
        fee = found.2;
        paid = found.5;
        result = found.7;
      }

  raw-Steps :
      (raw : Transaction X) (sim : SimulateTransactionResponse) {tx : Transaction X}
      → assemble X C raw sim ≡ ok tx
      → Steps raw sim tx
  unfolding assemble
  raw-Steps raw sim h = operations-Steps raw sim raw.operations refl h

  paid_bounds :
      (fee min_resource_fee : ℕ) {paid : ℕ}
      → assemble_fee X C fee min_resource_fee ≡ ok paid
      → min_resource_fee + default_transaction_fees < 2 ^ 64
      → (paid ≡ max fee (min_resource_fee + default_transaction_fees))
        × (min_resource_fee + default_transaction_fees < 2 ^ 32)
  unfolding assemble_fee
  paid_bounds fee min_resource_fee h k = ground arith

  -- An assembled transaction pays the larger of its own fee and the inclusion fee with the
  -- resource fee, and that sum fits 32 bits, where it fits 64.
  pub fee-assemble :
      (raw : Transaction X) (sim : SimulateTransactionResponse) {tx : Transaction X}
      → assemble X C raw sim ≡ ok tx
      → sim.min_resource_fee + default_transaction_fees < 2 ^ 64
      → (tx.fee ≡ max raw.fee (sim.min_resource_fee + default_transaction_fees))
        × (sim.min_resource_fee + default_transaction_fees < 2 ^ 32)
  fee-assemble raw sim h k =
      let s = raw-Steps raw sim h in
      let p = paid_bounds raw.fee sim.min_resource_fee s.paid k in
      (ap (λ (t : Transaction X). t.fee) s.result ∙ p.0, p.1)

  only_op :
      {op op' : Operation X} {ops : List (Operation X)} → ops ≡ op ∷ [] → ops ≡ op' ∷ [] → op ≡ op'
  only_op e e' = cc

  refill :
      (sim : SimulateTransactionResponse) (body filled : OperationBody X)
      → fill_auth X C sim body ≡ ok filled
      → fill_auth X C sim filled ≡ ok filled
  unfolding fill_auth
  refill sim (invoke_host_function f []) (invoke_host_function f' []) h = ground arith
  refill sim body (invoke_host_function f' (a ∷ auth)) h = refl
  refill sim body restore_footprint h = refl
  refill sim body (other o) h = refl
  refill sim (invoke_host_function f (a ∷ auth)) (invoke_host_function f' []) h = cc
  refill sim restore_footprint (invoke_host_function f' []) h = cc
  refill sim (other o) (invoke_host_function f' []) h = cc

  same_fee :
      (fee min_resource_fee : ℕ) {paid : ℕ}
      → assemble_fee X C fee min_resource_fee ≡ ok paid
      → assemble_fee X C paid min_resource_fee ≡ ok paid
  unfolding assemble_fee
  same_fee fee min_resource_fee h = ground arith

  -- Assembling an assembled transaction again with the same response changes nothing.
  pub assemble_idem :
      (raw : Transaction X) (sim : SimulateTransactionResponse) {tx : Transaction X}
      → assemble X C raw sim ≡ ok tx
      → assemble X C tx sim ≡ ok tx
  unfolding assemble_one assemble_operations assemble try_vec_m
  assemble_idem raw sim h =
      let s = raw-Steps raw sim h in
      rw s.result (
        rw (
          s.decoded,
          refill sim s.op.body s.body s.filled,
          same_fee raw.fee sim.min_resource_fee s.paid,
          s.fits,
        ))

  -- The authorizations that a call has, and those that it gets from a response.
  pub data FilledAuth (sim : SimulateTransactionResponse)
      : List (SorobanAuthorizationEntry X) → List (SorobanAuthorizationEntry X) → Type 0 where
    has_some :
        (a : SorobanAuthorizationEntry X) (auth : List (SorobanAuthorizationEntry X))
        → FilledAuth sim (a ∷ auth) (a ∷ auth)
    of_result :
        (r : SimulateResult) (entries : List (SorobanAuthorizationEntry X))
        → sim.results ≡ r ∷ []
        → collect C.auth_entry r.auth ≡ ok entries
        → FilledAuth sim [] entries

  result_auth-decodes :
      (r : SimulateResult) {entries : List (SorobanAuthorizationEntry X)}
      → result_auth X C r ≡ ok entries
      → collect C.auth_entry r.auth ≡ ok entries
  unfolding result_auth try_vec_m
  result_auth-decodes r h = ground arith

  one_result :
      (f : X.HostFunction) (sim : SimulateTransactionResponse) (results : List SimulateResult)
      {body : OperationBody X}
      → sim.results ≡ results
      → fill_auth X C sim (invoke_host_function f []) ≡ ok body
      → (r : SimulateResult) × (entries : List (SorobanAuthorizationEntry X)) × (sim.results
          ≡ r ∷ [])
        × (result_auth X C r ≡ ok entries)
        × (body ≡ invoke_host_function f entries)
  unfolding fill_auth first_or_same
  one_result f sim [] e h = absurd (ground (arith, e, h))
  one_result f sim (r ∷ r' ∷ rest) e h = absurd (ground (arith, e, h))
  one_result f sim (r ∷ []) e h = elim (Result-cases (result_auth X C r)) [
    | inl (entries, q) ↦ (r, entries, e, q, ground (arith, e, q, h))
    | inr (x, q) ↦ absurd (ground (arith, e, q, h))
  ]

  filled-FilledAuth :
      (f : X.HostFunction) (auth : List (SorobanAuthorizationEntry X))
      (sim : SimulateTransactionResponse) {body : OperationBody X}
      → fill_auth X C sim (invoke_host_function f auth) ≡ ok body
      → (auth' : List (SorobanAuthorizationEntry X)) × FilledAuth sim auth auth'
        × (body ≡ invoke_host_function f auth')
  unfolding fill_auth
  filled-FilledAuth f (a ∷ auth) sim h = (a ∷ auth, has_some a auth, ground (arith, h))
  filled-FilledAuth f [] sim h =
      let (r, entries, one, q, b) = one_result f sim sim.results refl h in
      (entries, of_result r entries one (result_auth-decodes r q), b)

  -- A call that is assembled with success keeps its authorizations where it has some; where it has
  -- none, the simulation has exactly one result, and the call gets the authorizations of that
  -- result, decoded in order.
  pub assemble_fills_auth :
      (raw : Transaction X) (sim : SimulateTransactionResponse) (op : Operation X)
      (f : X.HostFunction) (auth : List (SorobanAuthorizationEntry X)) {tx : Transaction X}
      → raw.operations ≡ op ∷ []
      → op.body ≡ invoke_host_function f auth
      → assemble X C raw sim ≡ ok tx
      → (auth' : List (SorobanAuthorizationEntry X)) × FilledAuth sim auth auth'
        × (tx.operations ≡ record op { body = invoke_host_function f auth' } ∷ [])
  assemble_fills_auth raw sim op f auth e b h =
      let s = raw-Steps raw sim h in
      let same = only_op s.only e in
      let (auth', filled, body) =
        filled-FilledAuth f auth sim
          (sym (ap (fill_auth X C sim) (ap (λ (o : Operation X). o.body) same ∙ b)) ∙ s.filled) in
      (auth', filled, ground (arith, s.result, same, body))

  count_error :
      (raw : Transaction X) (sim : SimulateTransactionResponse) (ops : List (Operation X))
      → length ops ≢ 1
      → assemble_operations X C raw sim ops ≡ err (unexpected_operation_count (length ops))
  unfolding assemble_operations
  count_error raw sim [] h = refl
  count_error raw sim (op ∷ []) h = absurd (h refl)
  count_error raw sim (op ∷ op' ∷ ops) h = refl

  -- Anything but one operation is refused with the count.
  pub assemble_wrong_count :
      (raw : Transaction X) (sim : SimulateTransactionResponse)
      → length raw.operations ≢ 1
      → assemble X C raw sim ≡ err (unexpected_operation_count (length raw.operations))
  unfolding assemble
  assemble_wrong_count raw sim h = count_error raw sim raw.operations h

  -- Where the one operation and the transaction data are accepted, a fee of 2 ^ 32 or more is
  -- refused with that fee. The sum is taken to fit 64 bits.
  pub assemble_large_fee :
      (raw : Transaction X) (sim : SimulateTransactionResponse) (op : Operation X)
      (d : SorobanTransactionData X) (body : OperationBody X)
      → raw.operations ≡ op ∷ []
      → C.transaction_data sim.transaction_data ≡ ok d
      → fill_auth X C sim op.body ≡ ok body
      → 2 ^ 32 ≤ sim.min_resource_fee + default_transaction_fees
      → sim.min_resource_fee + default_transaction_fees < 2 ^ 64
      → assemble X C raw sim ≡ err (large_fee (sim.min_resource_fee + default_transaction_fees))
  unfolding assemble assemble_operations assemble_one assemble_fee
  assemble_large_fee raw sim op d body e p q k l = rw (e, p, q) (ground arith)
