-- ===== src/Envelopes/Examples.antt =====
-- An envelope signed by a secret key, and by an entry of the secure store.
use soroban_tools.Prelude.{ℕ, String, false, none, some, [], ◌∷◌, ◌++◌, ◌≡◌, refl, replicate}
use soroban_tools.Prelude.Result.{ok}
use soroban_tools.Xdr.{Bytes}
use soroban_tools.Signer.Examples.{unit_xdr, call}
use soroban_tools.Config.Machine.{key_crates, crates, host, args, empty, sample_network}
use soroban_tools.Config.Secrets.{Secret}
use soroban_tools.Config.Locator.{get_secret_key}
use soroban_tools.Envelopes.{
  TransactionEnvelope, tx, SigningCrates, SignerKind, secret_signer, SignWithArgs, sign_with,
}
use soroban_tools.Envelopes.Signed.{SignedEnvelope, sign_with-SignedEnvelope}

abbrev key_text : ℕ → Bytes
key_text k = replicate 28 0 ++ (k ∷ (k ∷ (k ∷ (k ∷ []))))

abbrev signing : SigningCrates unit_xdr key_crates
signing = record {
  key_bytes = key_text;
  sign = λ k b. k ∷ b;
  digest = λ b. b;
  text_bytes = λ s. 1 ∷ [];
  payload = λ network t. ok (3 ∷ network);
}

abbrev with_key : SignWithArgs
with_key = record { sign_with_key = some "SKEY"; hd_path = none; sign_with_lab = false }

abbrev signed_call : TransactionEnvelope unit_xdr
signed_call =
    tx call (record { hint = 9 ∷ (9 ∷ (9 ∷ (9 ∷ []))); signature = 7 ∷ (3 ∷ (1 ∷ [])) } ∷ [])

signs_call :
    sign_with unit_xdr crates signing args host empty with_key (tx call []) sample_network
    ≡ ok signed_call
unfolding sign_with
signs_call = refl

sign_with-SignedEnvelope_example :
    (name : String) × ((with_key.sign_with_key ≡ some name)
      × ((s : Secret) × ((get_secret_key crates args host name empty ≡ ok s)
            × ((kind : SignerKind key_crates) × ((secret_signer unit_xdr key_crates signing s
                      with_key.hd_path
                    ≡ ok kind)
                  × SignedEnvelope unit_xdr key_crates signing kind
                      sample_network.network_passphrase
                      (tx call [])
                      signed_call)))))
sign_with-SignedEnvelope_example =
    sign_with-SignedEnvelope unit_xdr crates signing args host empty with_key (tx call [])
      signed_call sample_network signs_call
