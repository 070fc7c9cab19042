-- ===== src/Config/Writes/Success.antt =====
-- What is asked to be written is written, where the system refuses nothing.
use soroban_tools.Prelude.{
  String, true, false, none, some, [], ◌∷◌, ◌≡◌, ◌≢◌, refl, sym, ◌∙◌, ap, arith, ◌<>◌, Option-cases,
  inl, inr,
}
use soroban_tools.Prelude.Result.{ok, is_ok}
use soroban_tools.Config.Paths.{FilePath, file_stem}
use soroban_tools.Config.Paths.Names.{IsFileName}
use soroban_tools.Config.Disk.{
  Host, Disk, node, dir, file, is_dir, create_dir_all, open_truncated, write_all, write,
}
use soroban_tools.Config.Disk.Frame.{is_above, create_dir_all-makes, create_dir_all-frame}
use soroban_tools.Config.Disk.Growth.{is_above_refl, not_above-longer}
use soroban_tools.Config.Directories.{Args, config_dir}
use soroban_tools.Config.Errors.{Format}
use soroban_tools.Config.Networks.{Network}
use soroban_tools.Config.KeyTypes.{network, path}
use soroban_tools.Config.Locator.{Crates, AliasData, read_identity}
use soroban_tools.Config.Writes.{
  write_at, write_key_type, write_network, ensure_directory, rewrite_alias, save_at,
  save_contract_id, with_id,
}
use soroban_tools.Config.Writes.Aliases.{content_at}
use soroban_tools.Config.Writes.ReadBack.{path-IsFileName}
use soroban_tools.Config.Writes.Refinement.{IsAlias, file_of, alias_path-IsAlias}

-- The system refuses no write and cuts none short.
pub record Accepts (host : Host) : Type 0 where
  pub writable : (p : FilePath) → host.unwritable p ≡ false
  pub whole : (p : FilePath) (text : String) → host.cut_short p text ≡ none

-- The directories down to the path are there or can be made.
abbrev pub NoFileAbove : FilePath → Disk → Type 0
NoFileAbove p d = (q : FilePath) (text : String) → is_above q p ≡ true → node q d ≢ some (file text)

module _ (host : Host) (accepts : Accepts host) where
  create_dir_all_succeeds :
      (p : FilePath) (d : Disk) → NoFileAbove p d → (create_dir_all host p d).0 ≡ true
  unfolding create_dir_all is_above
  create_dir_all_succeeds [] d free = refl
  create_dir_all_succeeds (s ∷ p) d free =
      let above = create_dir_all_succeeds p d (λ q text h. free q text (ground (arith, h))) in
      elim (Option-cases (node (s ∷ p) d)) [
        | inl n ↦ ground (arith, n, above, accepts.writable (s ∷ p))
        | inr (dir, n) ↦ ground (arith, n)
        | inr (file text, n) ↦ absurd (free (s ∷ p) text (is_above_refl (s ∷ p)) n)
      ]

  open_truncated_succeeds :
      (s : String) (p : FilePath) (d : Disk)
      → node p d ≡ some dir
      → node (s ∷ p) d ≢ some dir
      → (open_truncated host (s ∷ p) d).0 ≡ true
  unfolding open_truncated is_dir
  open_truncated_succeeds s p d above free = ground (arith, above, free, accepts.writable (s ∷ p))

  write_all_succeeds :
      (p : FilePath) (text : String) (d : Disk) → (write_all host p text d).0 ≡ true
  unfolding write_all
  write_all_succeeds p text d = ground (arith, accepts.whole p text)

  write_succeeds :
      (s : String) (p : FilePath) (text : String) (d : Disk)
      → node p d ≡ some dir
      → node (s ∷ p) d ≢ some dir
      → (write host (s ∷ p) text d).0 ≡ true
  unfolding write
  write_succeeds s p text d above free = ground (
    arith,
    open_truncated_succeeds s p d above free,
    write_all_succeeds (s ∷ p) text ((open_truncated host (s ∷ p) d).1),
  )

  -- The file's name under the directories that are made.
  after_dirs :
      (s : String) (p : FilePath) (d : Disk)
      → NoFileAbove p d
      → node (s ∷ p) d ≢ some dir
      → (node p ((create_dir_all host p d).1) ≡ some dir)
        × (node (s ∷ p) ((create_dir_all host p d).1) ≢ some dir)
  after_dirs s p d free file_free =
      let same = create_dir_all-frame host s p p d (not_above-longer s p p (omega arith)) in
      (
        create_dir_all-makes host p d (create_dir_all_succeeds p d free),
        λ h. file_free (sym same ∙ h),
      )

  write_at_succeeds :
      {T : Type 0} (format : Format T) (s : String) (p : FilePath) (value : T) (text : String)
      (d : Disk)
      → format.print value ≡ some text
      → NoFileAbove p d
      → node (s ∷ p) d ≢ some dir
      → (write_at host format (s ∷ p) value d).0 ≡ ok (s ∷ p)
  unfolding ensure_directory
  write_at_succeeds format s p value text d printed free file_free =
      let a = after_dirs s p d free file_free in
      ground (
        arith,
        create_dir_all_succeeds p d free,
        printed,
        write_succeeds s p text ((create_dir_all host p d).1) (a.0) (a.1),
      )

module _ (C : Crates) (args : Args) (host : Host) (accepts : Accepts host) where
  save_at_succeeds :
      (s : String) (p : FilePath) (net : String) (id : C.Contract) (d : Disk)
      → ((m : AliasData) → C.alias_json.print m ≢ none)
      → NoFileAbove p d
      → node (s ∷ p) d ≢ some dir
      → (save_at C args host (s ∷ p) net id d).0 ≡ ok tt
  unfolding rewrite_alias
  save_at_succeeds s p net id d prints free file_free =
      let a = after_dirs host accepts s p d free file_free in
      let d1 = (create_dir_all host p d).1 in
      let m =
        with_id C args host net (C.contract_to_string id) (content_at C args host (s ∷ p) d1) in
      elim (Option-cases (C.alias_json.print m)) [
        | inl n ↦ absurd (prints m n)
        | inr (text, n) ↦ ground (
          arith,
          create_dir_all_succeeds host accepts p d free,
          n,
          open_truncated_succeeds host accepts s p d1 (a.0) (a.1),
          write_all_succeeds host accepts (s ∷ p) text ((open_truncated host (s ∷ p) d1).1),
        )
      ]

  -- Saving a contract id succeeds where the system refuses no write, the configuration directory
  -- is found, the file name of the alias is one component of a path, no identity of the name is
  -- read, no file stands above the file of the alias and no directory at it, and every map can be
  -- printed.
  pub save_contract_id_succeeds :
      (network_passphrase : String) (id : C.Contract) (alias : String) (d : Disk) (above : FilePath)
      → IsAlias alias
      → config_dir args host d ≡ ok above
      → is_ok (read_identity C args host alias d) ≡ false
      → ((m : AliasData) → C.alias_json.print m ≢ none)
      → NoFileAbove ("contract-ids" ∷ above) d
      → node (file_of alias above) d ≢ some dir
      → (save_contract_id C args host network_passphrase id alias d).0 ≡ ok tt
  unfolding save_contract_id
  save_contract_id_succeeds network_passphrase id alias d above plain q no_key prints free
        file_free =
      ground (
        arith,
        no_key,
        alias_path-IsAlias C args host alias d above plain q,
        save_at_succeeds (alias <> ".json") ("contract-ids" ∷ above) network_passphrase id d prints
            free file_free,
      )

  -- Writing a network under a name that is one file name succeeds, with the path of its file,
  -- where the system refuses no write, the configuration directory is found, the network can be
  -- printed, and no file stands above its file and no directory at it.
  pub write_network_succeeds :
      (name : String) (n : Network) (text : String) (d : Disk) (above : FilePath)
      → IsFileName name
      → config_dir args host d ≡ ok above
      → C.network_toml.print n ≡ some text
      → NoFileAbove ("network" ∷ above) d
      → node (path network above name) d ≢ some dir
      → (write_network C args host name n d).0 ≡ ok (path network above name)
  unfolding write_network write_key_type
  write_network_succeeds name n text d above plain q printed free file_free =
      let at = path-IsFileName network above name plain in
      let w =
        write_at_succeeds host accepts C.network_toml (file_stem name <> ".toml")
          ("network" ∷ above) n text d printed free
          (λ h. file_free (ap (λ (p : FilePath). node p d) at ∙ h)) in
      rw q (ap (λ (p : FilePath). (write_at host C.network_toml p n d).0) at ∙ (w ∙ ap ok (sym at)))
