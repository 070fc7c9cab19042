-- ===== src/Invoke/Sending.antt =====
-- When the invocation of a contract sends a transaction, and which one.
use soroban_tools.Prelude.{
  String, Bool, true, false, Option, List, [], ◌∷◌, ◌++◌, ◌≡◌, ◌⊎◌, inl, inr, arith, refl, ap, ◌∙◌,
}
use soroban_tools.Prelude.Result.{Result, ok, err}
use soroban_tools.Xdr.{Xdr, Transaction}
use soroban_tools.Assembled.{Codec, Assembled}
use soroban_tools.Fee.{apply_to_assembled_txn}
use soroban_tools.Invoke.{
  Steps, Cmd, Request, spec_of, simulate, verify, account_of, send_transaction, Requesting, ◌>>=◌,
  local, ask, TxnResult, assembled_with, write_unless, signed_or, sign_and_send, unless_only,
  assemble_and_send,
}

module _ (X : Xdr) (C : Codec X) (S : Steps X) where
  -- The envelopes that are sent.
  abbrev pub sends : List (Request X C S) → List S.Envelope
  sends [] = []
  sends (send_transaction e ∷ rs) = e ∷ sends rs
  sends (spec_of c ∷ rs) = sends rs
  sends (simulate t ∷ rs) = sends rs
  sends (verify n ∷ rs) = sends rs
  sends (account_of a ∷ rs) = sends rs

  sends-append : (xs ys : List (Request X C S)) → sends xs ≡ [] → sends (xs ++ ys) ≡ sends ys
  sends-append [] ys h = refl
  sends-append (send_transaction e ∷ rs) ys h = absurd (ground (arith, h))
  sends-append (spec_of c ∷ rs) ys h = sends-append rs ys h
  sends-append (simulate t ∷ rs) ys h = sends-append rs ys h
  sends-append (verify n ∷ rs) ys h = sends-append rs ys h
  sends-append (account_of a ∷ rs) ys h = sends-append rs ys h

  -- Nothing is sent, or one envelope of which something holds.
  abbrev pub SendsOne : (S.Envelope → Type 0) → List (Request X C S) → Type 0
  SendsOne P rs = (sends rs ≡ []) ⊎ ((e : S.Envelope) × (sends rs ≡ e ∷ []) × P e)

  SendsOne-eq :
      (P : S.Envelope → Type 0) (rs qs : List (Request X C S))
      → sends rs ≡ sends qs
      → SendsOne P qs
      → SendsOne P rs
  SendsOne-eq P rs qs h (inl n) = inl (h ∙ n)
  SendsOne-eq P rs qs h (inr (e, o, p)) = inr (e, h ∙ o, p)

  -- A step that sends nothing fails, or what follows it counts.
  pub step :
      {A B : Type 0} (P : S.Envelope → Type 0) (m : Requesting X C S A) (f : A → Requesting X C S B)
      → sends m.0 ≡ []
      → ((a : A) → m.1 ≡ ok a → SendsOne P (f a).0)
      → SendsOne P ((◌>>=◌ X C S m f).0)
  step P (rs, ok a) f h k =
      SendsOne-eq P (rs ++ (f a).0) (f a).0 (sends-append rs (f a).0 h) (k a refl)
  step P (rs, err e) f h k = inl h

  pub quiet :
      {A B : Type 0} (m : Requesting X C S A) (f : A → Requesting X C S B)
      → sends m.0 ≡ []
      → ((a : A) → sends (f a).0 ≡ [])
      → sends ((◌>>=◌ X C S m f).0) ≡ []
  quiet (rs, ok a) f h k = sends-append rs (f a).0 h ∙ k a
  quiet (rs, err e) f h k = h

  -- The step that sends an envelope, after which nothing is sent.
  last_step :
      {A B : Type 0} (P : S.Envelope → Type 0) (answer : Result S.Error A)
      (f : A → Requesting X C S B) (e : S.Envelope)
      → P e
      → ((a : A) → sends (f a).0 ≡ [])
      → SendsOne P ((◌>>=◌ X C S (ask X C S (send_transaction e) answer) f).0)
  last_step P (ok a) f e p k = inr (e, ap (λ (es : List S.Envelope). e ∷ es) (k a), p)
  last_step P (err r) f e p k = inr (e, refl, p)

  write_unless-quiet :
      {A : Type 0} (no_cache : Bool) (write : A → S.Network → Result S.Error (Unit {0})) (a : A)
      (network : S.Network)
      → sends (write_unless X C S no_cache write a network).0 ≡ []
  write_unless-quiet true write a network = refl
  write_unless-quiet false write a network = refl

  -- The envelope is the signed transaction, with its authorizations signed.
  pub record SignedOf (t : Transaction X) (signers : List S.SigningKey) (e : S.Envelope)
      : Type 0 where
    pub authorized : Option (Transaction X)
    pub authorizations : S.sign_soroban_authorizations t signers ≡ ok authorized
    pub signed : S.sign_with_local_key (signed_or X C S t authorized) ≡ ok e

  sign_and_send-SignedOf :
      (cmd : Cmd) (network : S.Network) (function : String) (spec : S.Spec)
      (signers : List S.SigningKey) (assembled : Assembled X)
      → SendsOne
          (SignedOf assembled.txn signers)
          (sign_and_send X C S cmd network function spec signers assembled).0
  unfolding sign_and_send
  sign_and_send-SignedOf cmd network function spec signers assembled =
      let P = SignedOf assembled.txn signers in
      step P (write_unless X C S cmd.no_cache S.write_simulation assembled.sim_res network) _
        (write_unless-quiet cmd.no_cache S.write_simulation assembled.sim_res network)
        (λ cached _.
          step P (local X C S (S.sign_soroban_authorizations assembled.txn signers)) _ refl
            (λ authorized p.
              step P
                (local X C S (S.sign_with_local_key (signed_or X C S assembled.txn authorized))) _
                refl
                (λ envelope q.
                  last_step P (S.send_transaction_polling envelope) _ envelope
                    (record { authorized = authorized; authorizations = p; signed = q })
                    (λ response.
                      quiet (write_unless X C S cmd.no_cache S.write_response response network) _
                        (write_unless-quiet cmd.no_cache S.write_response response network)
                        (λ written. quiet (local X C S (S.return_value response)) _ refl (λ val.
                          quiet (local X C S (S.output_to_string spec val function)) _ refl
                            (λ output. refl)))))))

  pub SendsOne-mono :
      (P Q : S.Envelope → Type 0) (rs : List (Request X C S))
      → ((e : S.Envelope) → P e → Q e)
      → SendsOne P rs
      → SendsOne Q rs
  SendsOne-mono P Q rs f (inl n) = inl n
  SendsOne-mono P Q rs f (inr (e, o, p)) = inr (e, o, f e p)

  -- The transaction was simulated and assembled, the fee arguments applied, and it was to be sent.
  pub record AssembledOf (cmd : Cmd) (signers : List S.SigningKey) (t : Transaction X)
      (e : S.Envelope) : Type 0 where
    pub not_sim_only : cmd.fee.sim_only ≡ false
    pub simulated : Assembled X
    pub assembled : assembled_with X C S t (S.second_simulation t) ≡ ok simulated
    pub signed_of : SignedOf (apply_to_assembled_txn X cmd.fee simulated).txn signers e

  pub unless_only-SendsOne :
      (P : S.Envelope → Type 0) (only : Bool) (t : Transaction X)
      (rest : Requesting X C S (TxnResult X C S))
      → (only ≡ false → SendsOne P rest.0)
      → SendsOne P (unless_only X C S only t rest).0
  unless_only-SendsOne P true t rest k = inl refl
  unless_only-SendsOne P false t rest k = k refl

  pub assemble_and_send-AssembledOf :
      (cmd : Cmd) (network : S.Network) (function : String) (spec : S.Spec)
      (signers : List S.SigningKey) (t : Transaction X)
      → SendsOne
          (AssembledOf cmd signers t)
          (assemble_and_send X C S cmd network function spec signers t).0
  unfolding assemble_and_send
  assemble_and_send-AssembledOf cmd network function spec signers t =
      let P = AssembledOf cmd signers t in
      step P (ask X C S (simulate t) (assembled_with X C S t (S.second_simulation t))) _ refl
        (λ simulated a.
          let assembled = apply_to_assembled_txn X cmd.fee simulated in
          unless_only-SendsOne P cmd.fee.sim_only assembled.txn
            (sign_and_send X C S cmd network function spec signers assembled)
            (λ n.
              SendsOne-mono (SignedOf assembled.txn signers) P
                (sign_and_send X C S cmd network function spec signers assembled).0
                (λ e s. record {
                  not_sim_only = n;
                  simulated = simulated;
                  assembled = a;
                  signed_of = s;
                })
                (sign_and_send-SignedOf cmd network function spec signers assembled)))
