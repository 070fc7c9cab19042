-- ===== src/Generate/Examples.antt =====
-- A seed phrase that is generated on an empty disk.
use soroban_tools.Prelude.{true, false, none, some, [], ◌∷◌, ◌≡◌, ◌⊎◌, refl, arith, eq_iff}
use soroban_tools.Prelude.Result.{ok, is_ok}
use soroban_tools.Config.Paths.{path_eq}
use soroban_tools.Config.Paths.Names.{IsFileName}
use soroban_tools.Config.Disk.{Disk, node, put, is_dir}
use soroban_tools.Config.Writes.{write_key}
use soroban_tools.Config.Secrets.{Secret}
use soroban_tools.Config.Keys.{secret}
use soroban_tools.Config.Locator.{read_identity}
use soroban_tools.Config.Machine.{crates, host, args, empty, empty-IsTree, key_toml-ReadsBack}
use soroban_tools.Generate.{SeedCrates, Cmd, secret_of, generate}
use soroban_tools.Generate.Stored.{read_identity-generate}

abbrev seeds : SeedCrates crates
seeds = record {
  from_entropy = λ s. some s;
  random = some "twelve words";
  into_phrase = λ p. p;
  private_to_string = λ k. "SKEY";
  can_set_password = λ e. true;
}

abbrev cmd : Cmd
cmd = record {
  name = "me";
  no_fund = true;
  seed = none;
  as_secret = false;
  secure_store = false;
  hd_path = none;
  default_seed = false;
  network = record { rpc_url = none; rpc_headers = []; network_passphrase = none; network = none };
  overwrite = false;
}

abbrev made : Disk
unfolding generate
made = ((generate crates seeds args host cmd (empty, [])).1).0

generates : generate crates seeds args host cmd (empty, []) ≡ (ok tt, (made, []))
unfolding generate made node write_key put path_eq is_dir
generates = refl

me-IsFileName : IsFileName "me"
me-IsFileName = record {
  component = (refl, refl);
  not_parent = λ h. ground (arith, eq_iff "me" "..", h);
}

read_identity-generate_example :
    (s : Secret) × (secret_of crates seeds args host cmd [] ≡ ok (s, []))
    × (read_identity crates args host "me" made ≡ ok (secret s))
    × ((false ≡ true) ⊎ (is_ok (read_identity crates args host "me" empty) ≡ false))
read_identity-generate_example =
    read_identity-generate crates seeds args host refl (".config" ∷ ("me" ∷ ("home" ∷ []))) refl
      (λ p. refl) key_toml-ReadsBack cmd me-IsFileName (empty, []) (made, []) empty-IsTree generates
