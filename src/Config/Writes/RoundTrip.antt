-- ===== src/Config/Writes/RoundTrip.antt =====
-- A contract id that was saved is found under its alias.
use soroban_tools.Prelude.{
  String, false, none, some, ◌≡◌, ◌≢◌, refl, arith, ◌<>◌, Option-cases, inl, inr, if◌then◌else◌,
  eq_refl,
}
use soroban_tools.Prelude.Result.{ok, Result-cases, ◌>>=◌}
use soroban_tools.Config.Paths.{FilePath}
use soroban_tools.Config.Paths.Names.{json-IsPlain, contract_ids-IsPlain}
use soroban_tools.Config.Disk.{Host, Disk, node, dir, file, exists, read_to_string}
use soroban_tools.Config.Disk.Growth.{IsTree, Grown-then}
use soroban_tools.Config.Directories.{Args, config_dir}
use soroban_tools.Config.Directories.Stable.{config_dir_stable}
use soroban_tools.Config.Networks.{get}
use soroban_tools.Config.Locator.{
  Crates, get_contract_id, load_contract_from_alias, parse_id, id_in, data_in, resolve_contract_id,
}
use soroban_tools.Config.Writes.{save_contract_id, save_at, with_id}
use soroban_tools.Config.Writes.Aliases.{
  PrintsMaps, content_at, save_at-cases, rewrite_alias-stores,
}
use soroban_tools.Config.Writes.Refinement.{
  stored_id, IsAlias, file_of, alias_path-IsAlias, alias_path-err, stored_id_at,
  save_contract_id-refines,
}

module _ (C : Crates) (args : Args) (host : Host)
    (readable : (p : FilePath) → host.unreadable p ≡ false)
    (no_json : C.alias_json.parse "" ≡ none) where
  content_found :
      (alias net : String) (p : FilePath) (d : Disk)
      → node p d ≢ some dir
      → ((if exists p d then data_in C args host (read_to_string host p d) else ok none)
          >>= λ found. id_in C args host alias net found)
        ≡ parse_id C args host alias (get net ((content_at C args host p d).ids))
  unfolding exists read_to_string get
  content_found alias net p d no_dir = elim (Option-cases (node p d)) [
    | inl q ↦ rw q (rw no_json refl)
    | inr (dir, q) ↦ absurd (no_dir q)
    | inr (file text, q) ↦ rw q (rw (readable p) refl)
  ]

  -- What get_contract_id finds is the id of the abstract map, parsed, where the configuration
  -- directory is found, the file of the alias is no directory, files are readable and the empty
  -- text is no JSON.
  pub get_contract_id-stored :
      (alias network_passphrase : String)
      → IsAlias alias
      → (d : Disk) (above : FilePath) → config_dir args host d ≡ ok above
      → node (file_of alias above) d ≢ some dir
      → get_contract_id C args host alias network_passphrase d
        ≡ parse_id C args host alias (stored_id C args host alias network_passphrase d)
  unfolding get_contract_id load_contract_from_alias
  get_contract_id-stored alias network_passphrase plain d above q no_dir =
      rw
        (
          stored_id_at C args host alias network_passphrase d above plain q,
          alias_path-IsAlias C args host alias d above plain q,
        )
        (content_found alias network_passphrase (file_of alias above) d no_dir)

  save_at-file :
      (network_passphrase alias : String) (id : C.Contract) (above : FilePath) (d e : Disk)
      → IsTree d
      → save_at C args host (file_of alias above) network_passphrase id d ≡ (ok tt, e)
      → config_dir args host d ≡ ok above
      → (config_dir args host e ≡ ok above) × (node (file_of alias above) e ≢ some dir)
  save_at-file network_passphrase alias id above d e tree h q =
      let change = with_id C args host network_passphrase (C.contract_to_string id) in
      let f = alias <> ".json" in
      let c = save_at-cases C args host f "contract-ids" above network_passphrase id d e tree h in
      let w = rewrite_alias-stores C args host f "contract-ids" above change (c.0) e (c.1.0) in
      let g = w.1.1.1 in
      (
        config_dir_stable f "contract-ids" (json-IsPlain alias) contract_ids-IsPlain above d e
            (Grown-then (file_of alias above) d (c.0) e (c.1.1.0) g) (g.keeps above (c.1.1.1.0))
            args host q,
        λ k. ground (arith, w.1.1.0, k),
      )

  -- A contract id that was saved with success under an alias is the one that get_contract_id finds
  -- and resolve_contract_id gives there on the same network, on a disk where every path stands in
  -- a directory, with readable files, crates that parse back the maps and the id they print, and
  -- an alias whose file name is one component of a path.
  pub get_contract_id-save_contract_id :
      PrintsMaps C args host
      → (network_passphrase : String) (id : C.Contract) (alias : String)
      → C.contract_from_str (C.contract_to_string id) ≡ some id
      → IsAlias alias
      → (d : Disk) → IsTree d
      → (e : Disk) → save_contract_id C args host network_passphrase id alias d ≡ (ok tt, e)
      → (get_contract_id C args host alias network_passphrase e ≡ ok (some id))
        × (resolve_contract_id C args host alias network_passphrase e ≡ ok id)
  unfolding save_contract_id resolve_contract_id
  get_contract_id-save_contract_id laws network_passphrase id alias law plain d tree e h =
      elim (Result-cases (config_dir args host d)) [
        | inr (x, q) ↦ absurd (ground (arith, h, alias_path-err C args host alias d q))
        | inl (above, q) ↦
            let k =
              save_at-file network_passphrase alias id above d e tree
                (ground (arith, h, alias_path-IsAlias C args host alias d above plain q)) q in
            let r =
              save_contract_id-refines C args host laws readable d tree network_passphrase id alias
                plain e h alias network_passphrase plain in
            let g = get_contract_id-stored alias network_passphrase plain e above (k.0) (k.1) in
            let found : (get_contract_id C args host alias network_passphrase e ≡ ok (some id)) =
              ground (arith, g, r, law, eq_refl alias, eq_refl network_passphrase) in
            (found, rw found refl)
      ]
