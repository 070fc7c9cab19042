-- ===== src/Config/Secrets.antt =====
-- cmd/soroban-cli/src/config/secret.rs and signer/keyring.rs: secrets, by what they are written
-- as, and the keys derived from them.
use Prim.Native.Char.{code}
use soroban_tools.Prelude.{
  ℕ, String, Bool, true, false, ◌&&◌, Option, none, some, ◌==◌, if◌then◌else◌,
}
use soroban_tools.Prelude.Result.{Result, ok, err, is_ok, ok_or, ◌>>=◌}
use soroban_tools.Config.Errors.{
  SecretError, strkey, seed_phrase_error, invalid_secret_or_seed_phrase, keyring_error,
  secure_store_does_not_reveal_secret_key,
}

pub data Secret : Type 0 where
  secret_key : String → Secret
  seed_phrase : String → Secret
  secure_store : String → Secret

-- The crates stellar_strkey, sep5, ed25519_dalek and keyring. A key of 32 bytes is a `Key32`.
pub record KeyCrates : Type 1 where
  pub Key32 : Type 0
  pub Phrase : Type 0
  pub SigningKey : Type 0
  pub Entry : Type 0
  pub private_key_from_string : String → Option Key32
  pub private_key_from_payload : Key32 → Option Key32
  pub public_key_from_string : String → Option Key32
  pub public_key_from_payload : Key32 → Option Key32
  pub muxed_account_from_string : String → Option (Key32 × ℕ)
  pub seed_phrase_from_str : String → Option Phrase
  pub private_from_path_index : Phrase → ℕ → Option Key32
  pub signing_key_from_bytes : Key32 → SigningKey
  pub verifying_key : SigningKey → Key32
  pub keyring_entry : String → Option Entry
  pub get_password : Entry → Option String

abbrev pub or_zero : Option ℕ → ℕ
or_zero none = 0
or_zero (some n) = n

-- `str::starts_with`
abbrev pub starts_with : String → String → Bool
starts_with s String.[] = true
starts_with String.[] (String.◌∷◌ c p) = false
starts_with (String.◌∷◌ d s) (String.◌∷◌ c p) = (code d == code c) && starts_with s p

abbrev pub secure_store_entry_prefix : String
secure_store_entry_prefix = "secure_store:"

module _ (C : KeyCrates) where
  -- The key of an entry's seed phrase, with the keyring as its entries answer.
  unfoldable pub entry_key : C.Entry → Option ℕ → Result SecretError C.SigningKey
  entry_key entry hd_path = do
    password ← ok_or (C.get_password entry) keyring_error
    phrase ← ok_or (C.seed_phrase_from_str password) keyring_error
    key_bytes ← ok_or (C.private_from_path_index phrase (or_zero hd_path)) keyring_error
    ok (C.signing_key_from_bytes key_bytes)

  -- `StellarEntry::use_key`, where what is done with the key does not fail.
  unfoldable pub use_key :
      {T : Type 0} → C.Entry → (C.SigningKey → T) → Option ℕ → Result SecretError T
  unfolding entry_key
  use_key entry f hd_path = do keypair ← entry_key entry hd_path; ok (f keypair)

  unfoldable pub get_public_key : C.Entry → Option ℕ → Result SecretError C.Key32
  unfolding use_key
  get_public_key entry hd_path = use_key entry (λ (k : C.SigningKey). C.verifying_key k) hd_path

  unfoldable pub from_str : String → Result SecretError Secret
  from_str s =
      if is_ok (ok_or (C.private_key_from_string s) strkey)
      then ok (secret_key s)
      else (if is_ok (ok_or (C.seed_phrase_from_str s) seed_phrase_error)
          then ok (seed_phrase s)
          else (if starts_with s secure_store_entry_prefix
              then ok (secure_store s)
              else err invalid_secret_or_seed_phrase))

  unfoldable pub private_key : Secret → Option ℕ → Result SecretError C.Key32
  private_key (secret_key s) index = ok_or (C.private_key_from_string s) strkey
  private_key (seed_phrase s) index = do
    phrase ← ok_or (C.seed_phrase_from_str s) seed_phrase_error
    bytes ← ok_or (C.private_from_path_index phrase (or_zero index)) seed_phrase_error
    ok_or (C.private_key_from_payload bytes) strkey
  private_key (secure_store name) index = err secure_store_does_not_reveal_secret_key

  unfoldable pub key_pair : Secret → Option ℕ → Result SecretError C.SigningKey
  unfolding private_key
  key_pair s index = do k ← private_key s index; ok (C.signing_key_from_bytes k)

  abbrev pub public_key_of_pair : Result SecretError C.SigningKey → Result SecretError C.Key32
  public_key_of_pair pair = do
    k ← pair
    ok_or (C.public_key_from_payload (C.verifying_key k)) strkey

  unfoldable pub public_key : Secret → Option ℕ → Result SecretError C.Key32
  unfolding key_pair get_public_key
  public_key (secure_store name) index = do
    entry ← ok_or (C.keyring_entry name) keyring_error
    get_public_key entry index
  public_key (secret_key s) index = public_key_of_pair (key_pair (secret_key s) index)
  public_key (seed_phrase s) index = public_key_of_pair (key_pair (seed_phrase s) index)
