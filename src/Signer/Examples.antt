-- ===== src/Signer/Examples.antt =====
-- A call with one address that a signer holds the key of, and the law at it.
use soroban_tools.Prelude.{ℕ, ◌≡◌, refl, leb, Option, none, some, [], ◌∷◌}
use soroban_tools.Prelude.Result.{Result, ok, err}
use soroban_tools.Xdr.{
  Operation, SorobanAddressCredentials, Xdr, ed25519, account, contract_fn, address_credentials,
  SorobanAuthorizationEntry, invoke_host_function, Transaction, v0,
}
use soroban_tools.Assembled.{requires_auth, try_vec_m}
use soroban_tools.Spec.Types.{ScVal}
use soroban_tools.Signer.Missing.{HasNoKey, sign_soroban_authorizations_missing}
use soroban_tools.Signer.{missing_signer_for_address, Crypto, Error, sign_soroban_authorizations}
use soroban_tools.Signer.Authorizations.{
  here, there, SignedCall, sign_soroban_authorizations-SignedCall,
}

abbrev pub unit_xdr : Xdr
unit_xdr = record {
  Error = Unit;
  Preconditions = Unit;
  Memo = Unit;
  HostFunction = Unit;
  ContractArgs = Unit;
  CreateArgs = Unit;
  SubInvocations = Unit;
  SignatureVal = ScVal;
  LedgerKey = Unit;
  OtherOperation = Unit;
  no_preconditions = tt;
  no_memo = tt;
  vec_m_fits = λ most n. leb n most;
  length_exceeds_max = tt;
}

-- A key is a number, its public key is that number, and a signature is put before the data.
abbrev crypto : Crypto unit_xdr
crypto = record {
  SigningKey = ℕ;
  verifying_key = λ k. k ∷ [];
  sign = λ k b. k ∷ b;
  digest = λ b. b;
  text_bytes = λ s. [];
  preimage = λ network i nonce ledger. ok (nonce ∷ ledger ∷ []);
  sorted_from = λ kvs. ok kvs;
  signature_val = λ v. v;
  public_key_text = λ b. "G";
  contract_text = λ b. "C";
}

abbrev pub entry_credentials : SorobanAddressCredentials unit_xdr
entry_credentials = record {
  address = account (5 ∷ []);
  nonce = 11;
  signature_expiration_ledger = 0;
  signature = ScVal.void;
}

abbrev pub entry : SorobanAuthorizationEntry unit_xdr
entry = record {
  credentials = address_credentials entry_credentials;
  root_invocation = record { function = contract_fn tt; sub_invocations = tt };
}

abbrev pub call_op : Operation unit_xdr
call_op = record { source_account = none; body = invoke_host_function tt (entry ∷ []) }

abbrev pub call : Transaction unit_xdr
call = record {
  source_account = ed25519 [];
  fee = 100;
  seq_num = 7;
  cond = tt;
  memo = tt;
  operations = call_op ∷ [];
  ext = v0;
}

requires_auth-call : requires_auth unit_xdr call ≡ some call_op
unfolding requires_auth
requires_auth-call = refl

abbrev value_of : Result (Error unit_xdr) (Option (Transaction unit_xdr)) → Transaction unit_xdr
value_of (ok (some tx)) = tx
value_of _ = call

abbrev signed_call : Transaction unit_xdr
unfolding sign_soroban_authorizations requires_auth try_vec_m
signed_call = value_of (sign_soroban_authorizations unit_xdr crypto call 4 (6 ∷ 5 ∷ []) 90 "net")

call_signs :
    sign_soroban_authorizations unit_xdr crypto call 4 (6 ∷ 5 ∷ []) 90 "net" ≡ ok (some signed_call)
unfolding sign_soroban_authorizations requires_auth try_vec_m signed_call
call_signs = refl

sign_soroban_authorizations-SignedCall_example :
    SignedCall unit_xdr crypto 4 (6 ∷ 5 ∷ []) 90 [] call signed_call
sign_soroban_authorizations-SignedCall_example =
    sign_soroban_authorizations-SignedCall unit_xdr crypto call 4 (6 ∷ 5 ∷ []) 90 "net" call_signs

-- The entry of the account 5, for a source 4 and a signer 6.
five-HasNoKey : HasNoKey unit_xdr crypto 4 (6 ∷ []) (5 ∷ [])
five-HasNoKey k (here xs) e = cc
five-HasNoKey k (there x xs (here ys)) e = cc
five-HasNoKey k (there x xs (there y ys m)) e = elim m [ ]

sign_soroban_authorizations_missing_example :
    sign_soroban_authorizations unit_xdr crypto call 4 (6 ∷ []) 90 "net"
    ≡ err (missing_signer_for_address "G")
sign_soroban_authorizations_missing_example =
    sign_soroban_authorizations_missing unit_xdr crypto call 4 (6 ∷ []) 90 "net" call_op tt [] entry
      [] entry_credentials (5 ∷ []) requires_auth-call refl refl refl refl five-HasNoKey
