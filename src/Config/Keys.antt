-- ===== src/Config/Keys.antt =====
-- cmd/soroban-cli/src/config/key.rs: what an identity file holds, and the account it stands for.
use soroban_tools.Prelude.{ℕ, String, Option, none, some}
use soroban_tools.Prelude.Result.{Result, ok, err, map_err, ◌>>=◌}
use soroban_tools.Config.Errors.{
  SecretError, KeyError, secret_public_key, secret_error, parse_error,
}
use soroban_tools.Config.Secrets
use soroban_tools.Config.Secrets.{KeyCrates, Secret}

module _ (C : KeyCrates) where
  pub data Key : Type 0 where
    public_key : C.Key32 → Key
    muxed_account : C.Key32 → ℕ → Key
    secret : Secret → Key

  -- `xdr::MuxedAccount`
  pub data MuxedAccount : Type 0 where
    ed25519 : C.Key32 → MuxedAccount
    muxed_ed25519 : C.Key32 → ℕ → MuxedAccount

  unfoldable pub muxed_account_of : Key → Option ℕ → Result KeyError MuxedAccount
  unfolding Secrets.public_key
  muxed_account_of (secret s) hd_path = do
    bytes ← map_err secret_error (Secrets.public_key C s hd_path)
    ok (ed25519 bytes)
  muxed_account_of (public_key k) hd_path = ok (ed25519 k)
  muxed_account_of (muxed_account k id) hd_path = ok (muxed_ed25519 k id)

  unfoldable pub private_key : Key → Option ℕ → Result KeyError C.Key32
  unfolding Secrets.private_key
  private_key (secret s) hd_path = map_err secret_error (Secrets.private_key C s hd_path)
  private_key (public_key k) hd_path = err secret_public_key
  private_key (muxed_account k id) hd_path = err secret_public_key

  abbrev pub muxed_from_str : String → Result KeyError Key
  muxed_from_str s = elim (C.muxed_account_from_string s) [
    | some (k, id) ↦ ok (muxed_account k id)
    | none ↦ err parse_error
  ]

  abbrev pub public_from_str : String → Result KeyError Key
  public_from_str s = elim (C.public_key_from_string s) [
    | some k ↦ ok (public_key k)
    | none ↦ muxed_from_str s
  ]

  abbrev pub secret_or : Result SecretError Secret → Result KeyError Key → Result KeyError Key
  secret_or (ok s) other = ok (secret s)
  secret_or (err e) other = other

  unfoldable pub from_str : String → Result KeyError Key
  unfolding Secrets.from_str
  from_str s = secret_or (Secrets.from_str C s) (public_from_str s)

  -- `TryFrom<Key> for Secret`
  abbrev pub secret_of_key : Key → Result KeyError Secret
  secret_of_key (secret s) = ok s
  secret_of_key (public_key k) = err secret_public_key
  secret_of_key (muxed_account k id) = err secret_public_key
