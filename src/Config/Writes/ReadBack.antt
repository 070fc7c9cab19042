-- ===== src/Config/Writes/ReadBack.antt =====
-- An identity or a network that was written is read back.
use soroban_tools.Prelude.{String, false, some, ◌∷◌, ◌≡◌, refl, ◌∙◌, ap, arith, ◌<>◌, inl, inr}
use soroban_tools.Prelude.Result.{ok, Result-cases}
use soroban_tools.Config.Paths.{FilePath, file_stem}
use soroban_tools.Config.Paths.Names.{
  IsFileName, IsPlain, toml-IsPlain, identity-IsPlain, network-IsPlain, set_extension-join_path,
}
use soroban_tools.Config.Disk.{Host, Disk, node, file, read_to_string}
use soroban_tools.Config.Disk.Growth.{IsTree}
use soroban_tools.Config.Directories.{
  Args, local_config, config_dir, config_home, global_config_path,
}
use soroban_tools.Config.Directories.Stable.{local_config_stable}
use soroban_tools.Config.Errors.{Format}
use soroban_tools.Config.KeyTypes.{
  KeyType, identity, network, key_type_name, root, path, read, read_from_path, read_with_global,
}
use soroban_tools.Config.Locator.{Crates, read_network, read_identity, load_contract_from_alias}
use soroban_tools.Config.Networks.{Network}
use soroban_tools.Config.Secrets.{Secret}
use soroban_tools.Config.Keys.{secret}
use soroban_tools.Config.Writes.{
  write_network, write_key_type, write_identity, write_key, has_alias,
}
use soroban_tools.Config.Writes.Files.{write_key_type-Stored}

-- What a crate prints, it parses back.
abbrev pub ReadsBack : {T : Type 0} → Format T → Type 0
ReadsBack {T} format =
    (value : T) (text : String) → format.print value ≡ some text → format.parse text ≡ some value

name-IsPlain : (kt : KeyType) → IsPlain (key_type_name kt)
name-IsPlain identity = identity-IsPlain
name-IsPlain network = network-IsPlain

pub path-IsFileName :
    (kt : KeyType) (pwd : FilePath) (key : String)
    → IsFileName key
    → path kt pwd key ≡ ((file_stem key <> ".toml") ∷ (key_type_name kt ∷ pwd))
unfolding path
path-IsFileName kt pwd key h = set_extension-join_path (root kt pwd) key h

-- The local directory comes first, and all files are readable.
module _ {T : Type 0} (args : Args) (host : Host) (home : FilePath)
    (has_home : config_home host ≡ ok home) (readable : (p : FilePath) → host.unreadable p ≡ false)
    (format : Format T) (law : ReadsBack format) (kt : KeyType) (key : String)
    (name : IsFileName key) (value : T) (pwd : FilePath) (d : Disk) (tree : IsTree d)
    (here : local_config args host d ≡ ok pwd) where
  read_stored :
      (e : Disk) (text : String)
      → format.print value ≡ some text
      → node (path kt pwd key) e ≡ some (file text)
      → read host format kt key pwd e ≡ ok value
  unfolding read read_from_path read_to_string
  read_stored e text q n = ground (arith, n, readable (path kt pwd key), law value text q)

  first_read :
      (e : Disk)
      → read host format kt key pwd e ≡ ok value
      → read_with_global host format kt key pwd e ≡ ok value
  unfolding read_with_global global_config_path
  first_read e q = rw (q, has_home) refl

  pub read-write_key_type :
      (e : Disk) (p : FilePath)
      → write_key_type host format kt key value pwd d ≡ (ok p, e)
      → (local_config args host e ≡ ok pwd) × (read_with_global host format kt key pwd e ≡ ok value)
  read-write_key_type e p h =
      let at = path-IsFileName kt pwd key name in
      let w =
        write_key_type-Stored host format value (file_stem key <> ".toml") (key_type_name kt) pwd d
          tree kt key e p at h in
      let s = w.1.1 in
      (
        local_config_stable (file_stem key <> ".toml") (key_type_name kt)
            (toml-IsPlain (file_stem key)) (name-IsPlain kt) pwd d e s.grown s.there args host here,
        first_read e (read_stored e (w.0) (w.1.0) (ap (λ (q : FilePath). node q e) at ∙ s.node_is)),
      )

module _ (C : Crates) (args : Args) (is_local : args.global ≡ false) (host : Host) (home : FilePath)
    (has_home : config_home host ≡ ok home)
    (readable : (p : FilePath) → host.unreadable p ≡ false) where
  -- A network that is written with success to the local configuration is the one read under its
  -- name, also where that is the name of a default network, on a disk where every path stands in a
  -- directory, with readable files, a home directory that is found, a name that is one file name,
  -- and networks whose text is read back.
  pub read_network-write_network :
      (law : ReadsBack C.network_toml) (name : String)
      → IsFileName name
      → (n : Network) (d : Disk) → IsTree d
      → (e : Disk) (p : FilePath) → write_network C args host name n d ≡ (ok p, e)
      → read_network C args host name e ≡ ok n
  unfolding write_network read_network config_dir
  read_network-write_network law name plain n d tree e p h =
      elim (Result-cases (local_config args host d)) [
        | inr (x, q) ↦ absurd (ground (arith, q, is_local, h))
        | inl (pwd, q) ↦
            let r =
              read-write_key_type args host home has_home readable C.network_toml law network name
                plain n pwd d tree q e p (ground (arith, q, is_local, h)) in
            ground (arith, r)
      ]

  -- A secret that is written with success to the local configuration is the identity read under
  -- its name, and no contract alias of that name was read before.
  pub read_identity-write_identity :
      (law : ReadsBack C.key_toml) (name : String)
      → IsFileName name
      → (s : Secret) (d : Disk) → IsTree d
      → (e : Disk) (p : FilePath) → write_identity C args host name s d ≡ (ok p, e)
      → (read_identity C args host name e ≡ ok (secret s))
        × (has_alias C args host (load_contract_from_alias C args host name d) ≡ false)
  unfolding write_identity write_key read_identity config_dir
  read_identity-write_identity law name plain s d tree e p h =
      elim (Result-cases (local_config args host d)) [
        | inr (x, q) ↦ absurd (ground (arith, q, is_local, h))
        | inl (pwd, q) ↦
            let r =
              read-write_key_type args host home has_home readable C.key_toml law identity name
                plain (secret s) pwd d tree q e p (ground (arith, q, is_local, h)) in
            ground (arith, r, h)
      ]
