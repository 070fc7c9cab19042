-- ===== src/Signer.antt =====
-- cmd/soroban-cli/src/signer.rs: the signatures of the authorization entries of a call. Its
-- `requires_auth` has the text of that of assembled.rs, which stands for it here. Keys, digests and
-- the encoding of what is signed are parameters.
mod Authorizations
mod Missing
pub mod Examples
use soroban_tools.Prelude.{
  ℕ, ◌-◌, ◌^◌, String, Bool, true, false, ◌&&◌, Option, none, some, List, [], ◌∷◌, length, find,
  ◌==◌, if◌then◌else◌,
}
use soroban_tools.Prelude.Result.{Result, ok, err, ◌>>=◌, map_err, collect}
use soroban_tools.Xdr.{
  Xdr, Bytes, ScAddress, account, contract, SorobanAuthorizedInvocation, SorobanAddressCredentials,
  SorobanCredentials, source_account, address_credentials, SorobanAuthorizationEntry, OperationBody,
  invoke_host_function, Operation, Transaction,
}
use soroban_tools.Assembled.{requires_auth, try_vec_m}
use soroban_tools.Spec.Types.{ScVal, ScVals, to_entries, utf8}

-- `ed25519_dalek`, `sha2`, `stellar_strkey`, and the encoders of `stellar_xdr`.
pub record Crypto (X : Xdr) : Type 1 where
  pub SigningKey : Type 0
  pub verifying_key : SigningKey → Bytes
  pub sign : SigningKey → Bytes → Bytes
  pub digest : Bytes → Bytes
  pub text_bytes : String → Bytes
  -- `to_xdr` of the preimage with a network id, an invocation, a nonce and a ledger of expiry.
  pub preimage : Bytes → SorobanAuthorizedInvocation X → ℕ → ℕ → Result (Xdr.Error X) Bytes
  -- `ScMap::sorted_from`
  pub sorted_from : List (ScVal × ScVal) → Result (Xdr.Error X) (List (ScVal × ScVal))
  -- The contract value as the field of the credentials holds it.
  pub signature_val : ScVal → Xdr.SignatureVal X
  pub public_key_text : Bytes → String
  pub contract_text : Bytes → String

pub data Error (X : Xdr) : Type 0 where
  missing_signer_for_address : String → Error X
  xdr : Xdr.Error X → Error X

abbrev pub bytes_eq : Bytes → Bytes → Bool
bytes_eq [] [] = true
bytes_eq (x ∷ xs) (y ∷ ys) = (x == y) && bytes_eq xs ys
bytes_eq _ _ = false

module _ (X : Xdr) (C : Crypto X) where
  -- `try_into` of bytes into an `ScBytes`.
  sc_bytes : Bytes → Result (Error X) ScVal
  unfolding try_vec_m
  sc_bytes b = do b' ← map_err xdr (try_vec_m X (2 ^ 32 - 1) b); ok (ScVal.bytes b')

  -- The value that stands for a signature: a vector of one map. The two names are symbols.
  pub signature_value : Bytes → Bytes → Result (Error X) ScVal
  unfolding sc_bytes
  signature_value public_key signature = do
    public_key_val ← sc_bytes public_key
    signature_val ← sc_bytes signature
    sorted ← map_err xdr (
        C.sorted_from (
          (ScVal.symbol (utf8 "public_key"), public_key_val)
          ∷ (ScVal.symbol (utf8 "signature"), signature_val)
          ∷ []))
    ok (ScVal.vec (ScVals.cons (ScVal.map (to_entries sorted)) ScVals.nil))

  sign_credentials :
      SorobanAuthorizationEntry X
      → SorobanCredentials X
      → C.SigningKey
      → ℕ
      → Bytes
      → Result (Error X) (SorobanAuthorizationEntry X)
  sign_credentials raw source_account signer expiration network_id = ok raw
  sign_credentials raw (address_credentials credentials) signer expiration network_id = do
    preimage ← map_err xdr (C.preimage network_id raw.root_invocation credentials.nonce expiration)
    value ← signature_value (C.verifying_key signer) (C.sign signer (C.digest preimage))
    ok (record raw {
      credentials = address_credentials (record credentials {
        signature = C.signature_val value;
        signature_expiration_ledger = expiration;
      });
    })

  pub sign_soroban_authorization_entry :
      SorobanAuthorizationEntry X
      → C.SigningKey
      → ℕ
      → Bytes
      → Result (Error X) (SorobanAuthorizationEntry X)
  unfolding sign_credentials
  sign_soroban_authorization_entry raw signer expiration network_id =
      sign_credentials raw raw.credentials signer expiration network_id

  -- The key for an address: one of the signers, else the source's.
  pub find_signer : C.SigningKey → List C.SigningKey → ScAddress → Result (Error X) C.SigningKey
  find_signer source_key signers (contract c) = err (missing_signer_for_address (C.contract_text c))
  find_signer source_key signers (account needle) =
      elim (find (λ s. bytes_eq needle (C.verifying_key s)) signers) [
        | some s ↦ ok s
        | none ↦
            if bytes_eq needle (C.verifying_key source_key)
            then ok source_key
            else err (missing_signer_for_address (C.public_key_text needle))
      ]

  sign_by_credentials :
      C.SigningKey
      → List C.SigningKey
      → ℕ
      → Bytes
      → SorobanAuthorizationEntry X
      → SorobanCredentials X
      → Result (Error X) (SorobanAuthorizationEntry X)
  sign_by_credentials source_key signers expiration network_id raw_auth source_account = ok raw_auth
  sign_by_credentials source_key signers expiration network_id raw_auth (address_credentials c) = do
    signer ← find_signer source_key signers c.address
    sign_soroban_authorization_entry raw_auth signer expiration network_id

  -- What is mapped over the authorizations.
  pub sign_raw_auth :
      C.SigningKey
      → List C.SigningKey
      → ℕ
      → Bytes
      → SorobanAuthorizationEntry X
      → Result (Error X) (SorobanAuthorizationEntry X)
  unfolding sign_by_credentials
  sign_raw_auth source_key signers expiration network_id raw_auth =
      sign_by_credentials source_key signers expiration network_id raw_auth raw_auth.credentials

  sign_operation :
      Transaction X
      → C.SigningKey
      → List C.SigningKey
      → ℕ
      → Bytes
      → Operation X
      → OperationBody X
      → Result (Error X) (Option (Transaction X))
  unfolding try_vec_m
  sign_operation raw source_key signers expiration network_id op (invoke_host_function f auth) = do
    signed_auths ← collect (sign_raw_auth source_key signers expiration network_id) auth
    auth' ← map_err xdr (try_vec_m X (2 ^ 32 - 1) signed_auths)
    operations ←
        map_err xdr (try_vec_m X 100 (record op { body = invoke_host_function f auth' } ∷ []))
    ok (some (record raw { operations = operations }))
  sign_operation raw source_key signers expiration network_id op body = ok none

  sign_required :
      Transaction X
      → C.SigningKey
      → List C.SigningKey
      → ℕ
      → Bytes
      → Option (Operation X)
      → Result (Error X) (Option (Transaction X))
  sign_required raw source_key signers expiration network_id none = ok none
  sign_required raw source_key signers expiration network_id (some op) =
      sign_operation raw source_key signers expiration network_id op op.body

  pub sign_soroban_authorizations :
      Transaction X
      → C.SigningKey
      → List C.SigningKey
      → ℕ
      → String
      → Result (Error X) (Option (Transaction X))
  unfolding sign_required sign_operation sign_raw_auth sign_soroban_authorization_entry find_signer
      signature_value
  sign_soroban_authorizations raw source_key signers signature_expiration_ledger
        network_passphrase =
      sign_required raw source_key signers signature_expiration_ledger
        (C.digest (C.text_bytes network_passphrase)) (requires_auth X raw)
