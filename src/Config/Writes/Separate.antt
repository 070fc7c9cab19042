-- ===== src/Config/Writes/Separate.antt =====
-- Contract ids are kept apart from identities and networks.
use soroban_tools.Prelude.{
  String, false, [], ◌∷◌, ◌≡◌, refl, arith, ◌<>◌, Bool-cases, Option-cases, inl, inr,
}
use soroban_tools.Prelude.Result.{Result-cases}
use soroban_tools.Config.Paths.{FilePath, path_eq, file_stem}
use soroban_tools.Config.Disk.{Host, Disk, node, read_to_string, create_dir_all, open_truncated}
use soroban_tools.Config.Disk.Frame.{create_dir_all-reads, open_truncated-frame, write_all-frame}
use soroban_tools.Config.Errors.{Format}
use soroban_tools.Config.Locator.{Crates, AliasData}
use soroban_tools.Config.Directories.{Args, config_dir}
use soroban_tools.Config.KeyTypes.{
  KeyType, identity, network, key_type_name, path, read, read_from_path,
}
use soroban_tools.Config.Writes.{
  rewrite_alias, save_at, save_contract_id, remove_contract_id, with_id, without_id,
}
use soroban_tools.Config.Writes.Aliases.{content_at}
use soroban_tools.Config.Writes.ReadBack.{path-IsFileName}
use soroban_tools.Config.Writes.Refinement.{IsAlias, file_of, alias_path-IsAlias, alias_path-err}
use soroban_tools.Config.Paths.Names.{IsFileName}

module _ (C : Crates) (args : Args) (host : Host) where
  rewrite_alias-reads :
      (q p : FilePath) (change : AliasData → AliasData) (d : Disk)
      → path_eq p q ≡ false
      → read_to_string host q ((rewrite_alias C args host p change d).1) ≡ read_to_string host q d
  unfolding read_to_string rewrite_alias node
  rewrite_alias-reads [] p change d h = refl
  rewrite_alias-reads (t ∷ q) p change d h =
      let d1 = (open_truncated host p d).1 in
      elim (Option-cases (C.alias_json.print (change (content_at C args host p d)))) [
        | inl n ↦ ground (arith, n, h, open_truncated-frame host t q p d)
        | inr (text, n) ↦
            ground
              (arith, n, h, open_truncated-frame host t q p d, write_all-frame host t q p text d1)
      ]

  save_at-reads :
      (q p : FilePath) (net : String) (id : C.Contract) (d : Disk)
      → path_eq p q ≡ false
      → read_to_string host q ((save_at C args host p net id d).1) ≡ read_to_string host q d
  save_at-reads q [] net id d h = refl
  save_at-reads q (s ∷ p) net id d h =
      let d1 = (create_dir_all host p d).1 in
      let change = with_id C args host net (C.contract_to_string id) in
      elim (Bool-cases ((create_dir_all host p d).0)) [
        | inl m ↦ ground (
          arith,
          m,
          h,
          create_dir_all-reads host q p d,
          rewrite_alias-reads q (s ∷ p) change d1 h,
        )
        | inr m ↦ ground (arith, m, create_dir_all-reads host q p d)
      ]

  kinds_apart :
      (kt : KeyType) (f g : String) (above pwd : FilePath)
      → path_eq (f ∷ ("contract-ids" ∷ above)) (g ∷ (key_type_name kt ∷ pwd)) ≡ false
  unfolding path_eq
  kinds_apart identity f g above pwd = ground arith
  kinds_apart network f g above pwd = ground arith

  module _ {T : Type 0} (format : Format T) (kt : KeyType) (name : String) (named : IsFileName name)
      (pwd : FilePath) (alias : String) (plain : IsAlias alias) where
    not_this_file : (above : FilePath) → path_eq (file_of alias above) (path kt pwd name) ≡ false
    not_this_file above =
        rw (path-IsFileName kt pwd name named)
          (kinds_apart kt (alias <> ".json") (file_stem name <> ".toml") above pwd)

    read_same :
        (d e : Disk)
        → read_to_string host (path kt pwd name) e ≡ read_to_string host (path kt pwd name) d
        → read host format kt name pwd e ≡ read host format kt name pwd d
    unfolding read read_from_path
    read_same d e q = rw q refl

    -- Saving and removing contract ids, whether they succeed or fail, leaves what is read of every
    -- identity and network, in every directory, where the file name of the alias is one component
    -- of a path and the name of the identity or network is one file name.
    pub contract_ids-read :
        (network_passphrase : String) (id : C.Contract) (d : Disk)
        → (read host format kt name pwd
              ((save_contract_id C args host network_passphrase id alias d).1)
            ≡ read host format kt name pwd d)
          × (read host format kt name pwd
                ((remove_contract_id C args host network_passphrase alias d).1)
              ≡ read host format kt name pwd d)
    unfolding save_contract_id remove_contract_id
    contract_ids-read network_passphrase id d = elim (Result-cases (config_dir args host d)) [
      | inr (x, q) ↦
          let p = alias_path-err C args host alias d q in
          (read_same d _ (ground (arith, p)), read_same d _ (ground (arith, p)))
      | inl (above, q) ↦
          let p = alias_path-IsAlias C args host alias d above plain q in
          let apart = not_this_file above in
          (
            read_same d _ (
                ground (
                  arith,
                  p,
                  save_at-reads (path kt pwd name) (file_of alias above) network_passphrase id d
                      apart,
                )),
            read_same d _ (
                ground (
                  arith,
                  p,
                  rewrite_alias-reads (path kt pwd name) (file_of alias above)
                      (without_id C args host network_passphrase) d apart,
                )),
          )
    ]
