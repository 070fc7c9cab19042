-- ===== src/Envelopes.antt =====
-- cmd/soroban-cli/src/signer.rs, config/sign_with.rs and config/mod.rs: the signing of a transaction
-- envelope by a key of the configuration. Printing and the opening of the lab are left out.
pub mod Signed
mod Examples
use soroban_tools.Prelude.{
  ℕ, ◌-◌, ◌^◌, String, Bool, true, false, Option, none, some, List, [], ◌∷◌, ◌++◌, length, drop,
  ◌==◌, if◌then◌else◌,
}
use soroban_tools.Prelude.Result.{Result, ok, err, ok_or, map_err, ◌>>=◌}
use soroban_tools.Xdr.{Xdr, Bytes, Transaction}
use soroban_tools.Assembled.{try_vec_m}
use soroban_tools.Config.Disk.{Host, Disk}
use soroban_tools.Config.Errors
use soroban_tools.Config.Errors.{SecretError, keyring_error}
use soroban_tools.Config.Secrets
use soroban_tools.Config.Secrets.{
  KeyCrates, Secret, secret_key, seed_phrase, secure_store, use_key, get_public_key, key_pair,
}
use soroban_tools.Config.Networks.{Network}
use soroban_tools.Config.Directories.{Args}
use soroban_tools.Config.Locator.{Crates, get_secret_key}
use soroban_tools.Config.Resolve.{
  NetworkArgs, NetworkError, AddressError, UnresolvedMuxedAccount, resolve_secret, get_network,
}

-- `signer::Error`
pub data SignerError (X : Xdr) : Type 0 where
  xdr : Xdr.Error X → SignerError X
  try_from_slice : SignerError X
  unsupported_transaction_envelope_type : SignerError X
  returning_signature_from_lab : SignerError X
  keyring : SignerError X

pub record DecoratedSignature : Type 0 where
  pub hint : Bytes
  pub signature : Bytes

pub data TransactionEnvelope (X : Xdr) : Type 0 where
  tx : Transaction X → List DecoratedSignature → TransactionEnvelope X
  other_envelope : TransactionEnvelope X

-- Signatures, digests, and the payload that is signed, of a network id and a transaction.
pub record SigningCrates (X : Xdr) (C : KeyCrates) : Type 0 where
  pub key_bytes : C.Key32 → Bytes
  pub sign : C.SigningKey → Bytes → Bytes
  pub digest : Bytes → Bytes
  pub text_bytes : String → Bytes
  pub payload : Bytes → Transaction X → Result (Xdr.Error X) Bytes

pub data SignerKind (C : KeyCrates) : Type 0 where
  local : C.SigningKey → SignerKind C
  lab : SignerKind C
  secure_store_entry : String → Option ℕ → SignerKind C

module _ (X : Xdr) (C : KeyCrates) (S : SigningCrates X C) where
  -- `transaction_hash` of utils.rs
  unfoldable pub transaction_hash : Transaction X → String → Result (Xdr.Error X) Bytes
  transaction_hash t network_passphrase = do
    payload ← S.payload (S.digest (S.text_bytes network_passphrase)) t
    ok (S.digest payload)

  -- `SignatureHint(bytes[28..].try_into()?)`
  abbrev pub signature_hint : C.Key32 → Result (SignerError X) Bytes
  signature_hint k =
      if length (drop 28 (S.key_bytes k)) == 4
      then ok (drop 28 (S.key_bytes k))
      else err try_from_slice

  abbrev pub signature_of : Bytes → Result (SignerError X) Bytes
  signature_of b = map_err xdr (try_vec_m X 64 b)

  -- `LocalKey::sign_tx_hash`
  unfoldable pub sign_local : C.SigningKey → Bytes → Result (SignerError X) DecoratedSignature
  unfolding try_vec_m
  sign_local k tx_hash = do
    hint ← signature_hint (C.verifying_key k)
    signature ← signature_of (S.sign k tx_hash)
    ok (record { hint = hint; signature = signature })

  -- `StellarEntry::sign_data`
  unfoldable pub sign_data : C.Entry → Bytes → Option ℕ → Result SecretError Bytes
  unfolding use_key
  sign_data entry b hd_path = use_key C entry (λ (k : C.SigningKey). S.sign k b) hd_path

  -- `SecureStoreEntry::sign_tx_hash`
  unfoldable pub sign_by_entry :
      String → Option ℕ → Bytes → Result (SignerError X) DecoratedSignature
  unfolding get_public_key sign_data try_vec_m
  sign_by_entry name hd_path tx_hash = do
    entry ← ok_or (C.keyring_entry name) keyring
    public ← map_err (λ e. keyring) (get_public_key C entry hd_path)
    hint ← signature_hint public
    signed ← map_err (λ e. keyring) (sign_data entry tx_hash hd_path)
    signature ← signature_of signed
    ok (record { hint = hint; signature = signature })

  -- The match on the kind of the signer.
  abbrev pub sign_by : SignerKind C → Bytes → Result (SignerError X) DecoratedSignature
  sign_by (local k) tx_hash = sign_local k tx_hash
  sign_by lab tx_hash = err returning_signature_from_lab
  sign_by (secure_store_entry name hd_path) tx_hash = sign_by_entry name hd_path tx_hash

  -- `Signer::sign_tx_env`
  unfoldable pub sign_tx_env :
      SignerKind C → TransactionEnvelope X → String → Result (SignerError X) (TransactionEnvelope X)
  unfolding transaction_hash sign_local sign_by_entry try_vec_m
  sign_tx_env kind other_envelope network_passphrase = err unsupported_transaction_envelope_type
  sign_tx_env kind (tx t signatures) network_passphrase = do
    tx_hash ← map_err xdr (transaction_hash t network_passphrase)
    decorated_signature ← sign_by kind tx_hash
    sigs ← map_err xdr (try_vec_m X 20 (signatures ++ (decorated_signature ∷ [])))
    ok (tx t sigs)

  -- `Signer::sign_tx`
  unfoldable pub sign_tx :
      SignerKind C → Transaction X → String → Result (SignerError X) (TransactionEnvelope X)
  unfolding sign_tx_env
  sign_tx kind t network_passphrase = sign_tx_env kind (tx t []) network_passphrase

  abbrev pub local_signer : Result SecretError C.SigningKey → Result SecretError (SignerKind C)
  local_signer pair = do k ← pair; ok (local k)

  -- `Secret::signer`
  unfoldable pub secret_signer : Secret → Option ℕ → Result SecretError (SignerKind C)
  unfolding key_pair
  secret_signer (secret_key s) hd_path = local_signer (key_pair C (secret_key s) hd_path)
  secret_signer (seed_phrase s) hd_path = local_signer (key_pair C (seed_phrase s) hd_path)
  secret_signer (secure_store name) hd_path = ok (secure_store_entry name hd_path)

-- `sign_with::Args` and its error.
pub record SignWithArgs : Type 0 where
  pub sign_with_key : Option String
  pub hd_path : Option ℕ
  pub sign_with_lab : Bool

pub data SignWithError (X : Xdr) : Type 0 where
  signer : SignerError X → SignWithError X
  secret : SecretError → SignWithError X
  locator : Errors.Error → SignWithError X
  no_sign_with_key : SignWithError X

module _ (X : Xdr) (C : Crates) (S : SigningCrates X C.keys) (args : Args) (host : Host)
    (d : Disk) where
  abbrev pub kind_of : SignWithArgs → Bool → Result (SignWithError X) (SignerKind C.keys)
  kind_of with_ true = ok lab
  kind_of with_ false = do
    key_or_name ← ok_or with_.sign_with_key no_sign_with_key
    s ← map_err locator (get_secret_key C args host key_or_name d)
    map_err secret (secret_signer X C.keys S s with_.hd_path)

  -- `sign_with::Args::sign_tx_env`
  unfoldable pub sign_with :
      SignWithArgs
      → TransactionEnvelope X
      → Network
      → Result (SignWithError X) (TransactionEnvelope X)
  unfolding get_secret_key secret_signer sign_tx_env
  sign_with with_ env network = do
    kind ← kind_of with_ with_.sign_with_lab
    map_err signer (sign_tx_env X C.keys S kind env network.network_passphrase)
