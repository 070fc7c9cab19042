-- ===== src/Config/Errors.antt =====
-- `locator::Error`, without the messages of the crates, and the operations that change the disk:
-- their result and the disk they leave, also when they fail.
use soroban_tools.Prelude.{String, Bool, true, false, Option}
use soroban_tools.Prelude.Result.{Result, ok, err}
use soroban_tools.Config.Paths.{FilePath}
use soroban_tools.Config.Disk.{Disk, Done}

-- The errors of `secret.rs` and of `key.rs`, which holds those.
pub data SecretError : Type 0 where
  strkey : SecretError
  seed_phrase_error : SecretError
  invalid_secret_or_seed_phrase : SecretError
  keyring_error : SecretError
  secure_store_does_not_reveal_secret_key : SecretError

pub data KeyError : Type 0 where
  secret_public_key : KeyError
  secret_error : SecretError → KeyError
  parse_error : KeyError

pub data Error : Type 0 where
  home_dir_not_found : Error
  current_dir_not_found : Error
  dir_creation_failed : FilePath → Error
  network_file_read : FilePath → Error
  file_read : FilePath → Error
  toml : Error
  toml_serialize : Error
  id_creation_failed : FilePath → Error
  config_serialization : Error
  io : Error
  json : Error
  config_removal : String → String → Error
  config_missing : String → String → Error
  cannot_access_config_dir : Error
  cannot_access_alias_config_file : Error
  cannot_parse_contract_id : String → Error
  contract_not_found : String → Error
  upgrade_check_read_failed : FilePath → Error
  upgrade_check_write_failed : FilePath → Error
  contract_alias_cannot_overlap_with_key : String → Error
  key_cannot_overlap_with_contract_alias : String → Error
  keyring : Error
  secret_key_only : String → Error
  key : KeyError → Error

abbrev pub Io : Type 0 → Type 0
Io A = Disk → Result Error A × Disk

abbrev pub next : {A B : Type 0} → Result Error A → (A → Io B) → Io B
next (ok a) f d = f a d
next (err e) f d = (err e, d)

infixl 5 ◌>>=◌
abbrev pub ◌>>=◌ : {A B : Type 0} → Io A → (A → Io B) → Io B
(m >>= f) d = next ((m d).0) f ((m d).1)

abbrev pub pure : {A : Type 0} → A → Io A
pure a d = (ok a, d)

abbrev pub fail : {A : Type 0} → Error → Io A
fail e d = (err e, d)

-- An operation that only reads the disk.
abbrev pub reads : {A : Type 0} → (Disk → Result Error A) → Io A
reads f d = (f d, d)

abbrev pub done_or : Bool → Error → Result Error (Unit {0})
done_or true e = ok tt
done_or false e = err e

-- A call of `fs` whose failure becomes the error.
abbrev pub try : (Disk → Done) → Error → Io (Unit {0})
try call e d = (done_or ((call d).0) e, (call d).1)

-- A crate that prints a type and parses it: `toml`, or `serde_json`.
pub record Format (T : Type 0) : Type 0 where
  pub print : T → Option String
  pub parse : String → Option T
