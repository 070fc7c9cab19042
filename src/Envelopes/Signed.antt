-- ===== src/Envelopes/Signed.antt =====
-- What an envelope that comes back signed carries.
use soroban_tools.Prelude.{
  ℕ, String, Option, some, List, [], ◌∷◌, ◌++◌, length, drop, ◌≡◌, refl, ap, arith, Bool-cases,
  Option-cases, inl, inr, ◌==◌,
}
use soroban_tools.Prelude.Result.{Result, ok, err, Result-cases, map_err, ok_eq, not_ok, ◌>>=◌}
use soroban_tools.Xdr.{Xdr, Bytes, Transaction}
use soroban_tools.Assembled.{try_vec_m}
use soroban_tools.Config.Secrets.{KeyCrates, Secret, use_key, entry_key, get_public_key}
use soroban_tools.Config.Disk.{Host, Disk}
use soroban_tools.Config.Networks.{Network}
use soroban_tools.Config.Directories.{Args}
use soroban_tools.Config.Locator.{Crates, get_secret_key}
use soroban_tools.Envelopes.{
  DecoratedSignature, TransactionEnvelope, tx, other_envelope, SigningCrates, SignerKind, local,
  lab, secure_store_entry, transaction_hash, sign_local, sign_data, sign_by_entry, sign_by,
  sign_tx_env, signature_hint, signature_of, secret_signer, SignWithArgs, SignWithError, signer,
  sign_with,
}

module _ (X : Xdr) (C : KeyCrates) (S : SigningCrates X C) where
  -- The key that a signer signs with.
  abbrev pub SignsWith : SignerKind C → C.SigningKey → Type 0
  SignsWith (local k) key = k ≡ key
  SignsWith lab key = ⊥
  SignsWith (secure_store_entry name hd_path) key =
      (entry : C.Entry) × ((C.keyring_entry name ≡ some entry)
        × (entry_key C entry hd_path ≡ ok key))

  -- A signature by a key of a digest, with the end of its public key.
  abbrev pub SignatureOf : C.SigningKey → Bytes → DecoratedSignature → Type 0
  SignatureOf key tx_hash s =
      (s.hint ≡ drop 28 (S.key_bytes (C.verifying_key key))) × (s.signature ≡ S.sign key tx_hash)

  signed :
      (k : C.Key32) (b : Bytes) (s : DecoratedSignature)
      → (do
        hint ← signature_hint X C S k
        signature ← signature_of X C S b
        ok (record { hint = hint; signature = signature }))
        ≡ ok s
      → (s.hint ≡ drop 28 (S.key_bytes k)) × (s.signature ≡ b)
  unfolding try_vec_m
  signed k b s h = elim (Bool-cases (length (drop 28 (S.key_bytes k)) == 4)) [
    | inr q ↦ absurd (ground (arith, q, h))
    | inl q ↦ elim (Bool-cases (X.vec_m_fits 64 (length b))) [
      | inr r ↦ absurd (ground (arith, q, r, h))
      | inl r ↦ ground (arith, q, r, h)
    ]
  ]

  sign_local-SignatureOf :
      (k : C.SigningKey) (tx_hash : Bytes) (s : DecoratedSignature)
      → sign_local X C S k tx_hash ≡ ok s
      → SignatureOf k tx_hash s
  unfolding sign_local
  sign_local-SignatureOf k tx_hash s h = signed (C.verifying_key k) (S.sign k tx_hash) s h

  entry_signs :
      (name : String) (entry : C.Entry) (hd_path : Option ℕ) (k : C.SigningKey) (tx_hash : Bytes)
      (s : DecoratedSignature)
      → C.keyring_entry name ≡ some entry
      → entry_key C entry hd_path ≡ ok k
      → sign_by_entry X C S name hd_path tx_hash ≡ ok s
      → (do
        hint ← signature_hint X C S (C.verifying_key k)
        signature ← signature_of X C S (S.sign k tx_hash)
        ok (record { hint = hint; signature = signature }))
        ≡ ok s
  unfolding sign_by_entry get_public_key sign_data use_key
  entry_signs name entry hd_path k tx_hash s q r h =
      elim (Result-cases (signature_hint X C S (C.verifying_key k))) [
        | inl (hint, u) ↦ ground (arith, q, r, u, h)
        | inr (x, u) ↦ ground (arith, q, r, u, h)
      ]

  sign_by_entry-SignatureOf :
      (name : String) (hd_path : Option ℕ) (tx_hash : Bytes) (s : DecoratedSignature)
      → sign_by_entry X C S name hd_path tx_hash ≡ ok s
      → (k : C.SigningKey) × (SignsWith (secure_store_entry name hd_path) k
          × SignatureOf k tx_hash s)
  unfolding sign_by_entry get_public_key sign_data use_key
  sign_by_entry-SignatureOf name hd_path tx_hash s h = elim (Option-cases (C.keyring_entry name)) [
    | inl q ↦ absurd (ground (arith, q, h))
    | inr (entry, q) ↦ elim (Result-cases (entry_key C entry hd_path)) [
      | inr (x, r) ↦ absurd (ground (arith, q, r, h))
      | inl (k, r) ↦ (
        k,
        (
          (entry, (q, r)),
          signed (C.verifying_key k) (S.sign k tx_hash) s
              (entry_signs name entry hd_path k tx_hash s q r h),
        ),
      )
    ]
  ]

  sign_by-SignatureOf :
      (kind : SignerKind C) (tx_hash : Bytes) (s : DecoratedSignature)
      → sign_by X C S kind tx_hash ≡ ok s
      → (k : C.SigningKey) × (SignsWith kind k × SignatureOf k tx_hash s)
  sign_by-SignatureOf (local k) tx_hash s h = (k, (refl, sign_local-SignatureOf k tx_hash s h))
  sign_by-SignatureOf lab tx_hash s h = absurd (ground (arith, h))
  sign_by-SignatureOf (secure_store_entry name hd_path) tx_hash s h =
      sign_by_entry-SignatureOf name hd_path tx_hash s h

  -- An envelope with one more signature, of the transaction and the network, by the signer's key.
  pub record SignedEnvelope (kind : SignerKind C) (network_passphrase : String)
      (before after : TransactionEnvelope X) : Type 0 where
    pub transaction : Transaction X
    pub signatures : List DecoratedSignature
    pub tx_hash : Bytes
    pub key : C.SigningKey
    pub added : DecoratedSignature
    pub before_is : before ≡ tx transaction signatures
    pub after_is : after ≡ tx transaction (signatures ++ (added ∷ []))
    pub hash_is : transaction_hash X C S transaction network_passphrase ≡ ok tx_hash
    pub signs : SignsWith kind key
    pub signature_is : SignatureOf key tx_hash added

  sign_tx_env-Signed :
      (kind : SignerKind C) (env after : TransactionEnvelope X) (network_passphrase : String)
      → sign_tx_env X C S kind env network_passphrase ≡ ok after
      → SignedEnvelope kind network_passphrase env after
  unfolding sign_tx_env try_vec_m
  sign_tx_env-Signed kind other_envelope after network_passphrase h = absurd (ground (arith, h))
  sign_tx_env-Signed kind (tx t signatures) after network_passphrase h =
      elim (Result-cases (transaction_hash X C S t network_passphrase)) [
        | inr (x, q) ↦ absurd (ground (arith, q, h))
        | inl (tx_hash, q) ↦ elim (Result-cases (sign_by X C S kind tx_hash)) [
          | inr (x, r) ↦ absurd (ground (arith, q, r, h))
          | inl (s, r) ↦ elim (Bool-cases (X.vec_m_fits 20 (length (signatures ++ (s ∷ []))))) [
            | inr u ↦ absurd (ground (arith, q, r, u, h))
            | inl u ↦
                let k = sign_by-SignatureOf kind tx_hash s r in
                record {
                  transaction = t;
                  signatures = signatures;
                  tx_hash = tx_hash;
                  key = k.0;
                  added = s;
                  before_is = refl;
                  after_is = ground (arith, q, r, u, h);
                  hash_is = q;
                  signs = k.1.0;
                  signature_is = k.1.1;
                }
          ]
        ]
      ]

unmapped : {E F A : Type 0} (f : E → F) (r : Result E A) {a : A} → map_err f r ≡ ok a → r ≡ ok a
unmapped f (ok b) h = ap ok (ok_eq h)
unmapped f (err x) h = absurd (not_ok h)

module _ (X : Xdr) (C : Crates) (S : SigningCrates X C.keys) (args : Args) (host : Host)
    (d : Disk) where
  -- An envelope that comes back signed is the one given with one more signature after the others,
  -- of the hash of its transaction and network, by the key of the secret that the argument names,
  -- with the end of its public key as the hint.
  pub sign_with-SignedEnvelope :
      (with_ : SignWithArgs) (env after : TransactionEnvelope X) (network : Network)
      → sign_with X C S args host d with_ env network ≡ ok after
      → (name : String) × ((with_.sign_with_key ≡ some name)
          × ((s : Secret) × ((get_secret_key C args host name d ≡ ok s)
                × ((kind : SignerKind C.keys) × ((secret_signer X C.keys S s with_.hd_path
                        ≡ ok kind)
                      × SignedEnvelope X C.keys S kind network.network_passphrase env after)))))
  unfolding sign_with
  sign_with-SignedEnvelope with_ env after network h = elim (Bool-cases with_.sign_with_lab) [
    | inl l ↦
        let h1 : (map_err {F = SignWithError X} signer
              (sign_tx_env X C.keys S lab env network.network_passphrase)
            ≡ ok after) =
          ground (arith, l, h) in
        absurd (
          (sign_tx_env-Signed X C.keys S lab env after network.network_passphrase
            (unmapped signer _ h1)).signs)
    | inr l ↦ elim (Option-cases with_.sign_with_key) [
      | inl n ↦ absurd (ground (arith, l, n, h))
      | inr (name, n) ↦ elim (Result-cases (get_secret_key C args host name d)) [
        | inr (x, g) ↦ absurd (ground (arith, l, n, g, h))
        | inl (s, g) ↦ elim (Result-cases (secret_signer X C.keys S s with_.hd_path)) [
          | inr (x, k) ↦ absurd (ground (arith, l, n, g, k, h))
          | inl (kind, k) ↦
              let h1 : (map_err {F = SignWithError X} signer
                    (sign_tx_env X C.keys S kind env network.network_passphrase)
                  ≡ ok after) =
                ground (arith, l, n, g, k, h) in
              (
                name,
                (
                  n,
                  (
                    s,
                    (
                      g,
                      (
                        kind,
                        (
                          k,
                          sign_tx_env-Signed X C.keys S kind env after network.network_passphrase
                              (unmapped signer _ h1),
                        ),
                      ),
                    ),
                  ),
                ),
              )
        ]
      ]
    ]
  ]
