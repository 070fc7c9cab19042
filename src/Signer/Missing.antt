-- ===== src/Signer/Missing.antt =====
-- What is refused: an address without a key.
use soroban_tools.Prelude.{
  ℕ, String, ◌≡◌, ◌≢◌, refl, inl, inr, Bool, false, some, none, List, [], ◌∷◌, ◌++◌, find,
  Bool-cases,
}
use soroban_tools.Prelude.Result.{Result, Result-cases, ok, err, collect}
use soroban_tools.Xdr.{
  Xdr, Bytes, account, SorobanAddressCredentials, SorobanCredentials, address_credentials,
  SorobanAuthorizationEntry, OperationBody, invoke_host_function, Operation, Transaction,
}
use soroban_tools.Assembled.{requires_auth}
use soroban_tools.Signer.{
  Crypto, missing_signer_for_address, bytes_eq, find_signer, sign_by_credentials, sign_raw_auth,
  sign_operation, sign_required, sign_soroban_authorizations,
}
use soroban_tools.Signer.Authorizations.{equal_bytes, Among, here, there}

collect_stops :
    {E A B : Type 0} (f : A → Result E B) (before : List A) (a : A) (after : List A) {e : E}
    {bs : List B}
    → collect f before ≡ ok bs
    → f a ≡ err e
    → collect f (before ++ a ∷ after) ≡ err e
collect_stops f [] a after h k = rw k refl
collect_stops f (x ∷ before) a after h k = elim (Result-cases (f x)) [
  | inr n ↦ cc
  | inl y ↦ elim (Result-cases (collect f before)) [
    | inr n ↦ cc
    | inl ys ↦ rw (y.1, collect_stops f before a after ys.1 k) refl
  ]
]

find-none :
    {A : Type 0} (p : A → Bool) (xs : List A)
    → ((x : A) → Among x xs → p x ≡ false)
    → find p xs ≡ none
find-none p [] h = refl
find-none p (x ∷ xs) h = rw (h x (here xs), find) (find-none p xs (λ y m. h y (there x xs m)))

other_bytes : (a b : Bytes) → a ≢ b → bytes_eq a b ≡ false
other_bytes a b h = elim (Bool-cases (bytes_eq a b)) [
  | inl t ↦ absurd (h (equal_bytes a b t))
  | inr f ↦ f
]

module _ (X : Xdr) (C : Crypto X) (source_key : C.SigningKey) (signers : List C.SigningKey) where
  -- No key of the signers and the source has that public key.
  abbrev pub HasNoKey : Bytes → Type 0
  HasNoKey a = (k : C.SigningKey) → Among k (source_key ∷ signers) → a ≢ C.verifying_key k

  no_signer :
      (a : Bytes)
      → HasNoKey a
      → find_signer X C source_key signers (account a)
        ≡ err (missing_signer_for_address (C.public_key_text a))
  unfolding find_signer
  no_signer a h =
      rw
        (
          find-none (λ s. bytes_eq a (C.verifying_key s)) signers
              (λ k m. other_bytes a (C.verifying_key k) (h k (there source_key signers m))),
          other_bytes a (C.verifying_key source_key) (h source_key (here signers)),
          find_signer,
        )
        refl

  module _ (expiration : ℕ) (network_id : Bytes) where
    refused_credentials :
        (raw : SorobanAuthorizationEntry X) (cr : SorobanCredentials X)
        (c : SorobanAddressCredentials X) (a : Bytes)
        → cr ≡ address_credentials c
        → c.address ≡ account a
        → HasNoKey a
        → sign_by_credentials X C source_key signers expiration network_id raw cr
          ≡ err (missing_signer_for_address (C.public_key_text a))
    unfolding sign_by_credentials
    refused_credentials raw cr c a e k h = rw (e, k, no_signer a h) refl

    refused_entry :
        (e : SorobanAuthorizationEntry X) (c : SorobanAddressCredentials X) (a : Bytes)
        → e.credentials ≡ address_credentials c
        → c.address ≡ account a
        → HasNoKey a
        → sign_raw_auth X C source_key signers expiration network_id e
          ≡ err (missing_signer_for_address (C.public_key_text a))
    unfolding sign_raw_auth
    refused_entry e c a q k h = refused_credentials e e.credentials c a q k h

    refused_operation :
        (raw : Transaction X) (op : Operation X) (body : OperationBody X) (f : X.HostFunction)
        (before : List (SorobanAuthorizationEntry X)) (e : SorobanAuthorizationEntry X)
        (after : List (SorobanAuthorizationEntry X)) (c : SorobanAddressCredentials X) (a : Bytes)
        {signed : List (SorobanAuthorizationEntry X)}
        → body ≡ invoke_host_function f (before ++ e ∷ after)
        → collect (sign_raw_auth X C source_key signers expiration network_id) before ≡ ok signed
        → e.credentials ≡ address_credentials c
        → c.address ≡ account a
        → HasNoKey a
        → sign_operation X C raw source_key signers expiration network_id op body
          ≡ err (missing_signer_for_address (C.public_key_text a))
    unfolding sign_operation
    refused_operation raw op body f before e after c a b s q k h =
        rw
          (
            b,
            collect_stops (sign_raw_auth X C source_key signers expiration network_id) before e
                after s (refused_entry e c a q k h),
          )
          refl

module _ (X : Xdr) (C : Crypto X) where
  -- Where a transaction requires authorizations (its one operation is a call whose first
  -- authorization is of a contract function) and those before it can be signed, the first entry of
  -- an account that neither the signers nor the source have the key of is refused with an error
  -- that names the account.
  pub sign_soroban_authorizations_missing :
      (raw : Transaction X) (source_key : C.SigningKey) (signers : List C.SigningKey)
      (signature_expiration_ledger : ℕ) (network_passphrase : String) (op : Operation X)
      (f : X.HostFunction) (before : List (SorobanAuthorizationEntry X))
      (e : SorobanAuthorizationEntry X) (after : List (SorobanAuthorizationEntry X))
      (c : SorobanAddressCredentials X) (a : Bytes) {signed : List (SorobanAuthorizationEntry X)}
      → requires_auth X raw ≡ some op
      → op.body ≡ invoke_host_function f (before ++ e ∷ after)
      → collect
          (sign_raw_auth X C source_key signers signature_expiration_ledger
            (C.digest (C.text_bytes network_passphrase)))
          before
        ≡ ok signed
      → e.credentials ≡ address_credentials c
      → c.address ≡ account a
      → HasNoKey X C source_key signers a
      → sign_soroban_authorizations X C raw source_key signers signature_expiration_ledger
          network_passphrase
        ≡ err (missing_signer_for_address (C.public_key_text a))
  unfolding sign_soroban_authorizations sign_required
  sign_soroban_authorizations_missing raw source_key signers expiration passphrase op f before e
        after c a r b s q k h =
      rw r (
        refused_operation X C source_key signers expiration (C.digest (C.text_bytes passphrase)) raw
          op op.body f before e after c a b s q k h)
