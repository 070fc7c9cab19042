-- ===== src/Signer/Authorizations.antt =====
-- Who signs which authorization of a call.
use mathlib.Core.Path.{subst}
use soroban_tools.Prelude.{
  ℕ, String, ◌≡◌, refl, ap, ◌∙◌, inl, inr, Bool, true, Option, none, some, List, [], ◌∷◌, find,
  ==_iff, Bool-cases, ◌==◌, arith, Option-cases,
}
use soroban_tools.Prelude.Result.{ok_eq, not_ok, Result, Result-cases, ok, collect}
use soroban_tools.Xdr.{
  Xdr, Bytes, ScAddress, account, contract, SorobanAddressCredentials, SorobanCredentials,
  source_account, address_credentials, SorobanAuthorizationEntry, OperationBody,
  invoke_host_function, restore_footprint, other, Operation, Transaction,
}
use soroban_tools.Assembled.{requires_auth, try_vec_m}
use soroban_tools.Assembled.Restore.{only_operation}
use soroban_tools.Spec.Types.{ScVal}
use soroban_tools.Signer.{
  Crypto, bytes_eq, signature_value, sign_credentials, sign_soroban_authorization_entry,
  find_signer, sign_by_credentials, sign_raw_auth, sign_operation, sign_required,
  sign_soroban_authorizations,
}

pub equal_bytes : (a b : Bytes) → bytes_eq a b ≡ true → a ≡ b
equal_bytes [] [] h = refl
equal_bytes [] (y ∷ ys) h = cc
equal_bytes (x ∷ xs) [] h = cc
equal_bytes (x ∷ xs) (y ∷ ys) h = elim (Bool-cases (x == y)) [
  | inr n ↦ cc
  | inl e ↦ elim (Bool-cases (bytes_eq xs ys)) [
    | inr n ↦ cc
    | inl f ↦ cc ((==_iff x y).0 e, equal_bytes xs ys f)
  ]
]

-- The items of a list, and one more.
pub data Among {A : Type 0} (a : A) : List A → Type 0 where
  here : (xs : List A) → Among a (a ∷ xs)
  there : (x : A) (xs : List A) → Among a xs → Among a (x ∷ xs)

some_eq : {A : Type 0} {a b : A} → some a ≡ some b → a ≡ b
some_eq h = cc

not_some : {E A : Type 0} {a : A} → ◌≡◌ {A = Result E (Option A)} (ok none) (ok (some a)) → ⊥
not_some h = cc

find-Among :
    {A : Type 0} (p : A → Bool) (xs : List A) {a : A}
    → find p xs ≡ some a
    → (p a ≡ true) × Among a xs
find-Among p [] h = cc
find-Among p (x ∷ xs) {a} h = elim (Bool-cases (p x)) [
  | inl t ↦ subst (λ b. (p b ≡ true) × Among b (x ∷ xs)) (some_eq (rw (t, find) at h)) (t, here xs)
  | inr n ↦ let r = find-Among p xs (rw (n, find) at h) in (r.0, there x xs r.1)
]

module _ (X : Xdr) (C : Crypto X) (source_key : C.SigningKey) (signers : List C.SigningKey)
    (expiration : ℕ) (network_id : Bytes) where
  -- An entry with the account of the source is left alone. An entry with an address is signed by a
  -- key among the signers and the source whose public key is the address: over its invocation, its
  -- nonce and the ledger of expiry on that network.
  pub data IsSigned : SorobanAuthorizationEntry X → SorobanAuthorizationEntry X → Type 0 where
    plain : (e : SorobanAuthorizationEntry X) → e.credentials ≡ source_account → IsSigned e e
    by_key :
        (e : SorobanAuthorizationEntry X) (c : SorobanAddressCredentials X) (k : C.SigningKey)
        (preimage : Bytes) (value : ScVal)
        → e.credentials ≡ address_credentials c
        → Among k (source_key ∷ signers)
        → c.address ≡ account (C.verifying_key k)
        → C.preimage network_id e.root_invocation c.nonce expiration ≡ ok preimage
        → signature_value X C (C.verifying_key k) (C.sign k (C.digest preimage)) ≡ ok value
        → IsSigned e (record e {
          credentials = address_credentials (record c {
            signature = C.signature_val value;
            signature_expiration_ledger = expiration;
          });
        })

  pub data AllSigned
      : List (SorobanAuthorizationEntry X) → List (SorobanAuthorizationEntry X) → Type 0 where
    done : AllSigned [] []
    more :
        (e e' : SorobanAuthorizationEntry X) (es es' : List (SorobanAuthorizationEntry X))
        → IsSigned e e'
        → AllSigned es es'
        → AllSigned (e ∷ es) (e' ∷ es')

  found_key :
      (address : ScAddress) {k : C.SigningKey}
      → find_signer X C source_key signers address ≡ ok k
      → Among k (source_key ∷ signers) × (address ≡ account (C.verifying_key k))
  unfolding find_signer
  found_key (contract c) h = cc
  found_key (account needle) h =
      elim (Option-cases (find (λ s. bytes_eq needle (C.verifying_key s)) signers)) [
        | inr s ↦
            let f = find-Among (λ s. bytes_eq needle (C.verifying_key s)) signers s.1 in
            subst
              (λ k. Among k (source_key ∷ signers) × (account needle ≡ account (C.verifying_key k)))
              (ok_eq (rw (s.1, find_signer) at h))
              (
                there source_key signers f.1,
                ap account (equal_bytes needle (C.verifying_key s.0) f.0),
              )
        | inl n ↦ elim (Bool-cases (bytes_eq needle (C.verifying_key source_key))) [
          | inl t ↦
              subst
                (λ k.
                  Among k (source_key ∷ signers) × (account needle ≡ account (C.verifying_key k)))
                (ok_eq (rw (n, t, find_signer) at h))
                (here signers, ap account (equal_bytes needle (C.verifying_key source_key) t))
          | inr f ↦ absurd (not_ok (rw (n, f, find_signer) at h))
        ]
      ]

  same_credentials :
      {a b : SorobanAddressCredentials X}
      → ◌≡◌ {A = SorobanCredentials X} (address_credentials a) (address_credentials b)
      → a ≡ b
  same_credentials h = cc

  sign_credentials-IsSigned :
      (raw : SorobanAuthorizationEntry X) (k : C.SigningKey) (cr : SorobanCredentials X)
      (c : SorobanAddressCredentials X) {e' : SorobanAuthorizationEntry X}
      → sign_credentials X C raw cr k expiration network_id ≡ ok e'
      → raw.credentials ≡ cr
      → cr ≡ address_credentials c
      → Among k (source_key ∷ signers)
      → c.address ≡ account (C.verifying_key k)
      → IsSigned raw e'
  unfolding sign_credentials
  sign_credentials-IsSigned raw k source_account c h r q m a = cc
  sign_credentials-IsSigned raw k (address_credentials d) c h r q m a =
      elim (Result-cases (C.preimage network_id raw.root_invocation d.nonce expiration)) [
        | inr n ↦ absurd (not_ok (rw (n.1, sign_credentials) at h))
        | inl pre ↦
            elim (Result-cases
              (signature_value X C (C.verifying_key k) (C.sign k (C.digest pre.0)))) [
                | inr n ↦ absurd (not_ok (rw (pre.1, n.1, sign_credentials) at h))
                | inl v ↦
                    subst (λ x. IsSigned raw x) (ok_eq (rw (pre.1, v.1, sign_credentials) at h))
                      (by_key raw d k pre.0 v.0 r m
                        (ap (λ (x : SorobanAddressCredentials X). x.address) (same_credentials q)
                          ∙ a)
                        pre.1 v.1)
              ]
      ]

  sign_by_credentials-IsSigned :
      (raw : SorobanAuthorizationEntry X) (cr : SorobanCredentials X)
      {e' : SorobanAuthorizationEntry X}
      → sign_by_credentials X C source_key signers expiration network_id raw cr ≡ ok e'
      → raw.credentials ≡ cr
      → IsSigned raw e'
  unfolding sign_by_credentials sign_soroban_authorization_entry
  sign_by_credentials-IsSigned raw source_account h r =
      subst (λ x. IsSigned raw x) (ok_eq h) (plain raw r)
  sign_by_credentials-IsSigned raw (address_credentials c) h r =
      elim (Result-cases (find_signer X C source_key signers c.address)) [
        | inr n ↦ absurd (not_ok (rw (n.1, sign_by_credentials) at h))
        | inl k ↦
            let f = found_key c.address k.1 in
            sign_credentials-IsSigned raw k.0 raw.credentials c (rw (k.1, sign_by_credentials) at h)
              refl r f.0 f.1
      ]

  sign_raw_auth-IsSigned :
      (e : SorobanAuthorizationEntry X) {e' : SorobanAuthorizationEntry X}
      → sign_raw_auth X C source_key signers expiration network_id e ≡ ok e'
      → IsSigned e e'
  unfolding sign_raw_auth
  sign_raw_auth-IsSigned e h = sign_by_credentials-IsSigned e e.credentials h refl

  collect-AllSigned :
      (es : List (SorobanAuthorizationEntry X)) {es' : List (SorobanAuthorizationEntry X)}
      → collect (sign_raw_auth X C source_key signers expiration network_id) es ≡ ok es'
      → AllSigned es es'
  collect-AllSigned [] h = subst (λ es. AllSigned [] es) (ok_eq h) done
  collect-AllSigned (e ∷ es) h =
      elim (Result-cases (sign_raw_auth X C source_key signers expiration network_id e)) [
        | inr n ↦ cc
        | inl s ↦
            elim (Result-cases
              (collect (sign_raw_auth X C source_key signers expiration network_id) es)) [
                | inr n ↦ cc
                | inl r ↦
                    subst (λ l. AllSigned (e ∷ es) l) (ok_eq (rw (s.1, r.1) at h))
                      (more e s.0 es r.0 (sign_raw_auth-IsSigned e s.1) (collect-AllSigned es r.1))
              ]
      ]

  -- One operation whose call has its authorizations signed.
  pub record SignedCall (raw tx : Transaction X) : Type 0 where
    pub op : Operation X
    pub function : X.HostFunction
    pub auth : List (SorobanAuthorizationEntry X)
    pub signed : List (SorobanAuthorizationEntry X)
    pub only : raw.operations ≡ op ∷ []
    pub body : op.body ≡ invoke_host_function function auth
    pub all_signed : AllSigned auth signed
    pub result :
        tx
        ≡ record raw { operations = record op { body = invoke_host_function function signed } ∷ [] }

  operation-SignedCall :
      (raw : Transaction X) (op : Operation X) (body : OperationBody X) {tx : Transaction X}
      → sign_operation X C raw source_key signers expiration network_id op body ≡ ok (some tx)
      → op.body ≡ body
      → raw.operations ≡ op ∷ []
      → SignedCall raw tx
  unfolding sign_operation try_vec_m
  operation-SignedCall raw op restore_footprint h b e = cc
  operation-SignedCall raw op (other o) h b e = cc
  operation-SignedCall raw op (invoke_host_function f auth) h b e =
      elim (Result-cases
        (collect (sign_raw_auth X C source_key signers expiration network_id) auth)) [
          | inr n ↦ absurd (not_ok (rw (n.1, sign_operation) at h))
          | inl r ↦ record {
            op = op;
            function = f;
            auth = auth;
            signed = r.0;
            only = e;
            body = b;
            all_signed = collect-AllSigned auth r.1;
            result = ground (arith, r.1);
          }
        ]

module _ (X : Xdr) (C : Crypto X) where
  -- A transaction that comes back signed is the one that was given but for its operation's
  -- authorizations: those of the source account are as they were, and each of the others keeps its
  -- invocation, address and nonce and is signed by a key of its address among the signers and the
  -- source, for the ledger of expiry and the network that were given.
  pub sign_soroban_authorizations-SignedCall :
      (raw : Transaction X) (source_key : C.SigningKey) (signers : List C.SigningKey)
      (signature_expiration_ledger : ℕ) (network_passphrase : String) {tx : Transaction X}
      → sign_soroban_authorizations X C raw source_key signers signature_expiration_ledger
          network_passphrase
        ≡ ok (some tx)
      → SignedCall X C source_key signers signature_expiration_ledger
          (C.digest (C.text_bytes network_passphrase))
          raw
          tx
  unfolding sign_soroban_authorizations sign_required
  sign_soroban_authorizations-SignedCall raw source_key signers expiration passphrase h =
      elim (Option-cases (requires_auth X raw)) [
        | inl n ↦ absurd (not_some (rw (n, sign_required) at h))
        | inr op ↦
            operation-SignedCall X C source_key signers expiration
              (C.digest (C.text_bytes passphrase)) raw op.0 op.0.body
              (rw (op.1, sign_required) at h) refl (only_operation X raw op.0 op.1)
      ]
