-- ===== src/Generate.antt =====
-- cmd/soroban-cli/src/commands/keys/generate.rs, with signer/secure_store.rs: a new identity, and where its
-- secret is kept.
pub mod Stored
mod Examples
use soroban_tools.Prelude.{
  ℕ, String, ◌<>◌, Bool, true, false, not, ◌&&◌, Option, none, some, List, ◌∷◌,
}
use soroban_tools.Prelude.Result.{Result, ok, err, ok_or, map_err, is_ok, ◌>>=◌}
use soroban_tools.Config.Paths.{FilePath}
use soroban_tools.Config.Disk.{Host, Disk}
use soroban_tools.Config.Errors.{Error, SecretError}
use soroban_tools.Config.Secrets
use soroban_tools.Config.Secrets.{
  Secret, secret_key, seed_phrase, secure_store, secure_store_entry_prefix, get_public_key,
}
use soroban_tools.Config.Directories.{Args}
use soroban_tools.Config.Locator.{Crates, read_identity}
use soroban_tools.Config.Networks.{Network}
use soroban_tools.Config.Writes.{write_identity}
use soroban_tools.Config.Resolve.{NetworkArgs, NetworkError, get_network}

-- What sep5, stellar_strkey and keyring do for a new key.
pub record SeedCrates (C : Crates) : Type 0 where
  pub from_entropy : String → Option (C.keys.Phrase)
  pub random : Option (C.keys.Phrase)
  pub into_phrase : C.keys.Phrase → String
  pub private_to_string : C.keys.Key32 → String
  pub can_set_password : C.keys.Entry → Bool

pub data GenerateError : Type 0 where
  config : Error → GenerateError
  secret : SecretError → GenerateError
  network : NetworkError → GenerateError
  identity_already_exists : String → GenerateError
  secure_store_keyring : GenerateError

pub record Cmd : Type 0 where
  pub name : String
  pub no_fund : Bool
  pub seed : Option String
  pub as_secret : Bool
  pub secure_store : Bool
  pub hd_path : Option ℕ
  pub default_seed : Bool
  pub network : NetworkArgs
  pub overwrite : Bool

module _ (C : Crates) (S : SeedCrates C) (args : Args) (host : Host) where
  -- The disk, and the phrases that were written to the secure store.
  abbrev pub World : Type 0
  World = Disk × List (String × C.keys.Phrase)

  unfoldable pub seed_phrase_of : Cmd → Result GenerateError (C.keys.Phrase)
  seed_phrase_of cmd = elim cmd.default_seed [
    | true ↦
        ok_or (C.keys.seed_phrase_from_str "0000000000000000")
          (secret SecretError.seed_phrase_error)
    | false ↦ elim cmd.seed [
      | some seed ↦ ok_or (S.from_entropy seed) (secret SecretError.seed_phrase_error)
      | none ↦ ok_or S.random (secret SecretError.seed_phrase_error)
    ]
  ]

  abbrev pub secure_store_entry_service : String
  secure_store_entry_service = "org.stellar.cli"

  abbrev pub entry_name_of : String → String
  entry_name_of name = secure_store_entry_prefix <> (secure_store_entry_service <> ("-" <> name))

  -- A key that is in the secure store already is kept.
  abbrev pub write_entry :
      String
      → C.keys.Phrase
      → List (String × C.keys.Phrase)
      → C.keys.Entry
      → Bool
      → Bool
      → Result GenerateError (List (String × C.keys.Phrase))
  write_entry entry_name phrase ring entry true can_set = ok ring
  write_entry entry_name phrase ring entry false true = ok ((entry_name, phrase) ∷ ring)
  write_entry entry_name phrase ring entry false false = err secure_store_keyring

  unfoldable pub write_to_secure_store :
      String
      → C.keys.Phrase
      → List (String × C.keys.Phrase)
      → Result GenerateError (List (String × C.keys.Phrase))
  unfolding get_public_key
  write_to_secure_store entry_name phrase ring = do
    entry ← ok_or (C.keys.keyring_entry entry_name) secure_store_keyring
    write_entry entry_name phrase ring entry (is_ok (get_public_key C.keys entry none))
        (S.can_set_password entry)

  abbrev pub saved_secret :
      C.keys.Phrase
      → List (String × C.keys.Phrase)
      → Secret
      → Result GenerateError (Secret × List (String × C.keys.Phrase))
  saved_secret phrase ring (secure_store entry_name) = do
    ring' ← write_to_secure_store entry_name phrase ring
    ok (secure_store entry_name, ring')
  saved_secret phrase ring (secret_key s) = ok (secret_key s, ring)
  saved_secret phrase ring (seed_phrase s) = ok (seed_phrase s, ring)

  unfoldable pub save_secret :
      String
      → C.keys.Phrase
      → List (String × C.keys.Phrase)
      → Result GenerateError (Secret × List (String × C.keys.Phrase))
  unfolding write_to_secure_store Secrets.from_str
  save_secret name phrase ring = do
    s ← map_err secret (Secrets.from_str C.keys (entry_name_of name))
    saved_secret phrase ring s

  -- The end of `Cmd::secret`.
  abbrev pub secret_as :
      Cmd
      → C.keys.Phrase
      → List (String × C.keys.Phrase)
      → Bool
      → Bool
      → Result GenerateError (Secret × List (String × C.keys.Phrase))
  secret_as cmd phrase ring true as_secret = save_secret cmd.name phrase ring
  secret_as cmd phrase ring false true = do
    k ← map_err secret (Secrets.private_key C.keys (seed_phrase (S.into_phrase phrase)) cmd.hd_path)
    ok (secret_key (S.private_to_string k), ring)
  secret_as cmd phrase ring false false = ok (seed_phrase (S.into_phrase phrase), ring)

  unfoldable pub secret_of :
      Cmd
      → List (String × C.keys.Phrase)
      → Result GenerateError (Secret × List (String × C.keys.Phrase))
  unfolding seed_phrase_of save_secret Secrets.private_key
  secret_of cmd ring = do
    phrase ← seed_phrase_of cmd
    secret_as cmd phrase ring cmd.secure_store cmd.as_secret

  -- Funding; what the server answers is only logged.
  abbrev pub fund : Cmd → Secret → Disk → Bool → Result GenerateError (Unit {0})
  fund cmd s d true = ok tt
  fund cmd s d false = do
    addr ← map_err secret (Secrets.public_key C.keys s cmd.hd_path)
    n ← map_err network (get_network C args host cmd.network d)
    ok tt

  abbrev pub after_write :
      Cmd
      → Secret
      → List (String × C.keys.Phrase)
      → Result Error FilePath × Disk
      → Result GenerateError (Unit {0}) × World
  after_write cmd s ring (err e, d) = (err (config e), (d, ring))
  after_write cmd s ring (ok p, d) = (fund cmd s d cmd.no_fund, (d, ring))

  abbrev pub with_secret :
      Cmd
      → World
      → Result GenerateError (Secret × List (String × C.keys.Phrase))
      → Result GenerateError (Unit {0}) × World
  with_secret cmd world (err e) = (err e, world)
  with_secret cmd (d, ring) (ok (s, ring')) =
      after_write cmd s ring' (write_identity C args host cmd.name s d)

  abbrev pub unless_taken :
      Bool
      → String
      → World
      → Result GenerateError (Unit {0}) × World
      → Result GenerateError (Unit {0}) × World
  unless_taken true name world rest = (err (identity_already_exists name), world)
  unless_taken false name world rest = rest

  -- `Cmd::run`
  unfoldable pub generate : Cmd → World → Result GenerateError (Unit {0}) × World
  unfolding read_identity secret_of write_identity
  generate cmd (d, ring) =
      unless_taken (is_ok (read_identity C args host cmd.name d) && not cmd.overwrite) cmd.name
        (d, ring) (with_secret cmd (d, ring) (secret_of cmd ring))
