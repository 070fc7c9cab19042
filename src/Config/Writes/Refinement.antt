-- ===== src/Config/Writes/Refinement.antt =====
-- The operations on contract ids refine those of a map from aliases and networks to ids.
use text.Mathlib.TextLemmas.{append_cancel_right}
use soroban_tools.Prelude.{
  String, true, false, Option, none, some, ◌∷◌, ◌≡◌, ◌≢◌, refl, sym, ◌∙◌, ap, arith, ◌<>◌,
  Bool-cases, inl, inr, if◌then◌else◌, str_eq, eq_iff, ◌&&◌,
}
use soroban_tools.Prelude.Result.{Result, ok, err, Result-cases}
use soroban_tools.Config.Paths.{FilePath, IsComponent, join_path-component}
use soroban_tools.Config.Paths.Names.{json-IsPlain, contract_ids-IsPlain}
use soroban_tools.Config.Disk.{Host, Disk, exists, is_file}
use soroban_tools.Config.Disk.Growth.{Grown, IsTree, Grown-then}
use soroban_tools.Config.Directories.{Args, config_dir, alias_path}
use soroban_tools.Config.Directories.Stable.{config_dir_stable}
use soroban_tools.Config.Errors.{Error}
use soroban_tools.Config.Networks.{get, get-insert, get-remove}
use soroban_tools.Config.Locator.{Crates, AliasData}
use soroban_tools.Config.Writes.{
  rewrite_alias, save_contract_id, remove_contract_id, remove_at, with_id, without_id, save_at,
}
use soroban_tools.Config.Writes.Aliases.{
  content_at, PrintsMaps, rewrite_alias-stores, rewrite_alias-content, other_file, same_content,
  save_at-cases,
}

abbrev pub file_of : String → FilePath → FilePath
file_of alias above = (alias <> ".json") ∷ ("contract-ids" ∷ above)

-- The name of an alias's file is one component of a path.
abbrev pub IsAlias : String → Type 0
IsAlias alias = IsComponent (alias <> ".json")

module _ (C : Crates) (args : Args) (host : Host) where
  abbrev id_at : Result Error FilePath → String → Disk → Option String
  id_at (ok p) net d = get net ((content_at C args host p d).ids)
  id_at (err x) net d = none

  -- The abstract map: the id that the alias has on the network.
  unfoldable pub stored_id : String → String → Disk → Option String
  unfolding alias_path get
  stored_id alias net d = id_at (alias_path args host alias d) net d

  pub alias_path-IsAlias :
      (alias : String) (d : Disk) (above : FilePath)
      → IsAlias alias
      → config_dir args host d ≡ ok above
      → alias_path args host alias d ≡ ok (file_of alias above)
  unfolding alias_path
  alias_path-IsAlias alias d above plain q =
      rw q (ap ok (join_path-component ("contract-ids" ∷ above) (alias <> ".json") plain))

  pub alias_path-err :
      (alias : String) (d : Disk) {x : Error}
      → config_dir args host d ≡ err x
      → alias_path args host alias d ≡ err x
  unfolding alias_path
  alias_path-err alias d q = rw q refl

  pub stored_id_at :
      (alias net : String) (d : Disk) (above : FilePath)
      → IsAlias alias
      → config_dir args host d ≡ ok above
      → stored_id alias net d ≡ get net ((content_at C args host (file_of alias above) d).ids)
  unfolding stored_id
  stored_id_at alias net d above plain q =
      ap (λ (r : Result Error FilePath). id_at r net d) (alias_path-IsAlias alias d above plain q)

  stored_same :
      (alias other net : String) (d : Disk) (above : FilePath)
      → IsAlias alias
      → config_dir args host d ≡ ok above
      → str_eq alias other ≡ true
      → stored_id other net d ≡ get net ((content_at C args host (file_of alias above) d).ids)
  stored_same alias other net d above plain q same =
      ap (λ (a : String). stored_id a net d) (sym ((eq_iff alias other).0 same))
      ∙ stored_id_at alias net d above plain q

  -- One alias's file was rewritten.
  module _ (alias : String) (plain : IsAlias alias) (above : FilePath)
      (change : AliasData → AliasData) (d e : Disk) (before : config_dir args host d ≡ ok above)
      (there : exists above e ≡ true) (grown : Grown (file_of alias above) d e)
      (changed : (k : String)
        → get k ((content_at C args host (file_of alias above) e).ids)
          ≡ get k ((change (content_at C args host (file_of alias above) d)).ids)) where
    pub config_dir_kept : config_dir args host e ≡ ok above
    config_dir_kept =
        config_dir_stable (alias <> ".json") "contract-ids" (json-IsPlain alias)
          contract_ids-IsPlain above d e grown there args host before

    apart : (other : String) → str_eq alias other ≡ false → (other <> ".json") ≢ (alias <> ".json")
    apart other q same =
        ground (arith, q, eq_iff alias other, append_cancel_right other alias ".json" same)

    stored_id-changed :
        (other : String)
        → IsAlias other
        → (net : String)
        → stored_id other net e ≡ (
            if str_eq alias other
            then get net ((change (content_at C args host (file_of alias above) d)).ids)
            else stored_id other net d)
    stored_id-changed other plain' net = elim (Bool-cases (str_eq alias other)) [
      | inl q ↦
          let same = (eq_iff alias other).0 q in
          rw q (rw (sym same) (stored_id_at alias net e above plain config_dir_kept ∙ changed net))
      | inr q ↦ rw q (
          stored_id_at other net e above plain' config_dir_kept
          ∙ ap (λ (m : AliasData). get net m.ids)
              (same_content C args host (other <> ".json") "contract-ids" above d e (
                other_file C args host (alias <> ".json") "contract-ids" above (other <> ".json") d
                  e (apart other q) grown))
          ∙ sym (stored_id_at other net d above plain' before))
    ]

  module _ (laws : PrintsMaps C args host) (readable : (p : FilePath) → host.unreadable p ≡ false)
      (d : Disk) (tree : IsTree d) where
    save_at-refines :
        (network_passphrase alias : String) (id : C.Contract) (above : FilePath)
        → IsAlias alias
        → config_dir args host d ≡ ok above
        → (e : Disk)
        → save_at C args host (file_of alias above) network_passphrase id d ≡ (ok tt, e)
        → (other net : String) → IsAlias other
        → stored_id other net e ≡ (
            if str_eq alias other && str_eq network_passphrase net
            then some (C.contract_to_string id)
            else stored_id other net d)
    save_at-refines network_passphrase alias id above plain q e h other net plain' =
        let change = with_id C args host network_passphrase (C.contract_to_string id) in
        let f = alias <> ".json" in
        let c = save_at-cases C args host f "contract-ids" above network_passphrase id d e tree h in
        let w = rewrite_alias-stores C args host f "contract-ids" above change (c.0) e (c.1.0) in
        let g = w.1.1.1 in
        let old = same_content C args host f "contract-ids" above d (c.0) (c.1.1.1.1) in
        stored_id-changed alias plain above change d e q (g.keeps above (c.1.1.1.0))
          (Grown-then (file_of alias above) d (c.0) e (c.1.1.0) g)
          (λ k.
            rewrite_alias-content C args host f "contract-ids" above laws readable change (c.0) e
              (c.1.0) k
            ∙ ap (λ (m : AliasData). get k ((change m).ids)) old)
          other plain' net
        ∙ ground (
          arith,
          get-insert net network_passphrase (C.contract_to_string id)
              ((content_at C args host (file_of alias above) d).ids),
          stored_same alias other net d above plain q,
        )

    -- On a disk where every path stands in a directory, with readable files and a crate that
    -- parses back the maps it prints, a contract id saved with success under an alias is, in the
    -- abstract map from aliases and networks to ids, the id of that alias on that network, and
    -- every other id of the map is as before. The aliases, that one and the others, are those
    -- whose file name is one component of a path, as it is without a slash.
    pub save_contract_id-refines :
        (network_passphrase : String) (id : C.Contract) (alias : String)
        → IsAlias alias
        → (e : Disk) → save_contract_id C args host network_passphrase id alias d ≡ (ok tt, e)
        → (other net : String) → IsAlias other
        → stored_id other net e ≡ (
            if str_eq alias other && str_eq network_passphrase net
            then some (C.contract_to_string id)
            else stored_id other net d)
    unfolding save_contract_id
    save_contract_id-refines network_passphrase id alias plain e h other net plain' =
        elim (Result-cases (config_dir args host d)) [
          | inl (above, q) ↦
              save_at-refines network_passphrase alias id above plain q e
                (ground (arith, h, alias_path-IsAlias alias d above plain q)) other net plain'
          | inr (x, q) ↦ absurd (ground (arith, h, alias_path-err alias d q))
        ]

    pub remove_at-cases :
        (network_passphrase alias : String) (above : FilePath) (e : Disk)
        → remove_at C args host (file_of alias above) network_passphrase d ≡ (ok tt, e)
        → (rewrite_alias C args host
              (file_of alias above)
              (without_id C args host network_passphrase)
              d
            ≡ (ok tt, e))
          × (exists above d ≡ true)
    unfolding is_file exists
    remove_at-cases network_passphrase alias above e h =
        elim (Bool-cases (is_file (file_of alias above) d)) [
          | inl q ↦ ground (
            arith,
            h,
            q,
            tree (alias <> ".json") ("contract-ids" ∷ above),
            tree "contract-ids" above,
          )
          | inr q ↦ absurd (ground (arith, h, q))
        ]

    remove_at-refines :
        (network_passphrase alias : String) (above : FilePath)
        → IsAlias alias
        → config_dir args host d ≡ ok above
        → (e : Disk) → remove_at C args host (file_of alias above) network_passphrase d ≡ (ok tt, e)
        → (other net : String) → IsAlias other
        → stored_id other net e ≡ (
            if str_eq alias other && str_eq network_passphrase net
            then none
            else stored_id other net d)
    remove_at-refines network_passphrase alias above plain q e h other net plain' =
        let change = without_id C args host network_passphrase in
        let f = alias <> ".json" in
        let r = remove_at-cases network_passphrase alias above e h in
        let w = rewrite_alias-stores C args host f "contract-ids" above change d e (r.0) in
        let g = w.1.1.1 in
        stored_id-changed alias plain above change d e q (g.keeps above (r.1)) g
          (rewrite_alias-content C args host f "contract-ids" above laws readable change d e (r.0))
          other plain' net
        ∙ ground (
          arith,
          get-remove net network_passphrase ((content_at C args host (file_of alias above) d).ids),
          stored_same alias other net d above plain q,
        )

    -- On a disk where every path stands in a directory, with readable files and a crate that
    -- parses back the maps it prints, a contract id removed with success leaves the abstract map
    -- without an id of that alias on that network, and every other id of the map as before. The
    -- aliases, that one and the others, are those whose file name is one component of a path, as
    -- it is without a slash.
    pub remove_contract_id-refines :
        (network_passphrase alias : String)
        → IsAlias alias
        → (e : Disk) → remove_contract_id C args host network_passphrase alias d ≡ (ok tt, e)
        → (other net : String) → IsAlias other
        → stored_id other net e ≡ (
            if str_eq alias other && str_eq network_passphrase net
            then none
            else stored_id other net d)
    unfolding remove_contract_id
    remove_contract_id-refines network_passphrase alias plain e h other net plain' =
        elim (Result-cases (config_dir args host d)) [
          | inl (above, q) ↦
              remove_at-refines network_passphrase alias above plain q e
                (ground (arith, h, alias_path-IsAlias alias d above plain q)) other net plain'
          | inr (x, q) ↦ absurd (ground (arith, h, alias_path-err alias d q))
        ]
