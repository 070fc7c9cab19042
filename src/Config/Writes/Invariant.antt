-- ===== src/Config/Writes/Invariant.antt =====
-- No operation of the configuration leaves a path that stands in no directory.
use mathlib.Core.Path.{subst}
use soroban_tools.Prelude.{
  String, Bool, true, false, Option, none, some, [], ◌∷◌, arith, Bool-cases, Option-cases, inl, inr,
  if◌then◌else◌,
}
use soroban_tools.Prelude.Result.{Result, ok, err, is_ok}
use soroban_tools.Config.Paths.{FilePath}
use soroban_tools.Config.Disk.{
  Host, Disk, create_dir_all, open_truncated, write, remove_file, node, exists, is_file,
}
use soroban_tools.Config.Disk.Growth.{IsTree}
use soroban_tools.Config.Disk.Trees.{
  create_dir_all-IsTree, open_truncated-IsTree, write_all-IsTree, write-IsTree, remove_file-IsTree,
  open_truncated-file,
}
use soroban_tools.Config.Errors.{
  Error, Io, next, ◌>>=◌, reads, try, fail, Format, key_cannot_overlap_with_contract_alias,
  contract_alias_cannot_overlap_with_key, cannot_access_alias_config_file,
}
use soroban_tools.Config.Locator.{Crates, AliasData, read_identity, load_contract_from_alias}
use soroban_tools.Config.Secrets.{Secret}
use soroban_tools.Config.Keys.{Key, secret}
use soroban_tools.Config.Directories.{Args, config_dir, alias_path}
use soroban_tools.Config.KeyTypes.{KeyType, network, identity, path}
use soroban_tools.Config.Networks.{Network}
use soroban_tools.Config.Writes.Aliases.{content_at}
use soroban_tools.Config.Writes.{
  ensure_directory, ensure_parent, write_at, write_key_type, remove_key_type, write_key,
  write_identity, write_network, remove_network, rewrite_alias, save_at, save_contract_id,
  remove_contract_id, save_under, remove_at, has_alias, without_id,
}

abbrev Keeps : {A : Type 0} → Io A → Type 0
Keeps m = (d : Disk) → IsTree d → IsTree ((m d).1)

next-Keeps :
    {A B : Type 0} (r : Result Error A) (f : A → Io B)
    → ((a : A) → Keeps (f a))
    → (d : Disk) → IsTree d
    → IsTree ((next r f d).1)
next-Keeps (ok a) f k d tree = k a d tree
next-Keeps (err x) f k d tree = tree

bind-Keeps :
    {A B : Type 0} (m : Io A) (f : A → Io B) → Keeps m → ((a : A) → Keeps (f a)) → Keeps (m >>= f)
bind-Keeps m f k l d tree = next-Keeps ((m d).0) f l ((m d).1) (k d tree)

module _ (host : Host) where
  write-Keeps :
      (p : FilePath) (text : String) (d : Disk) → IsTree d → IsTree ((write host p text d).1)
  unfolding write open_truncated
  write-Keeps [] text d tree = tree
  write-Keeps (s ∷ p) text d tree = write-IsTree host s p text d tree

  remove_file-Keeps : (p : FilePath) (d : Disk) → IsTree d → IsTree ((remove_file host p d).1)
  unfolding remove_file node
  remove_file-Keeps [] d tree = tree
  remove_file-Keeps (s ∷ p) d tree = remove_file-IsTree host s p d tree

  ensure_parent-Keeps :
      (p : FilePath) (above : Option FilePath) → Keeps (ensure_parent host p above)
  ensure_parent-Keeps p none = λ d tree. tree
  ensure_parent-Keeps p (some above) =
      bind-Keeps (try (create_dir_all host above) _) _ (create_dir_all-IsTree host above)
        (λ u d tree. tree)

  write_at-Keeps :
      {T : Type 0} (format : Format T) (p : FilePath) (value : T)
      → Keeps (write_at host format p value)
  unfolding ensure_directory
  write_at-Keeps format p value =
      bind-Keeps (ensure_directory host p) _ (ensure_parent-Keeps p _) (λ q.
        bind-Keeps (reads _) _ (λ d tree. tree)
          (λ text.
            bind-Keeps (try (write host q text) _) _ (write-Keeps q text) (λ u d tree. tree)))

  remove_key_type-Keeps :
      (kt : KeyType) (key : String) (pwd : FilePath) → Keeps (remove_key_type host kt key pwd)
  unfolding remove_key_type
  remove_key_type-Keeps kt key pwd d tree = elim (Bool-cases (exists (path kt pwd key) d)) [
    | inl q ↦
        subst (λ (x : Disk). IsTree x) (ground (arith, q))
          (remove_file-Keeps (path kt pwd key) d tree)
    | inr q ↦ subst (λ (x : Disk). IsTree x) (ground (arith, q)) tree
  ]

cond-Keeps :
    {A : Type 0} (b : Bool) (m n : Io A)
    → Keeps m
    → Keeps n
    → (d : Disk) → IsTree d
    → IsTree ((if b then m d else n d).1)
cond-Keeps true m n k l = k
cond-Keeps false m n k l = l

module _ (C : Crates) (args : Args) (host : Host) where
  rewrite_alias-Keeps :
      (p : FilePath) (change : AliasData → AliasData) → Keeps (rewrite_alias C args host p change)
  unfolding rewrite_alias open_truncated
  rewrite_alias-Keeps [] change d tree = tree
  rewrite_alias-Keeps (s ∷ p) change d tree =
      let opened = open_truncated-IsTree host (s ∷ p) d tree in
      let d1 = (open_truncated host (s ∷ p) d).1 in
      let print = C.alias_json.print (change (content_at C args host (s ∷ p) d)) in
      elim (Bool-cases ((open_truncated host (s ∷ p) d).0)) [
        | inr q ↦ subst (λ (x : Disk). IsTree x) (ground (arith, q)) opened
        | inl q ↦ elim (Option-cases print) [
          | inl n ↦ subst (λ (x : Disk). IsTree x) (ground (arith, q, n)) opened
          | inr (text, n) ↦
              subst (λ (x : Disk). IsTree x) (ground (arith, q, n))
                (write_all-IsTree host s p text "" d1 opened (open_truncated-file host s p d q))
        ]
      ]

  save_at-Keeps :
      (p : FilePath) (net : String) (id : C.Contract) → Keeps (save_at C args host p net id)
  save_at-Keeps p net id =
      bind-Keeps (reads _) _ (λ d tree. tree)
        (λ above.
          bind-Keeps (try (create_dir_all host above) _) _ (create_dir_all-IsTree host above)
            (λ u. rewrite_alias-Keeps p _))

  write_key-Keeps : (name : String) (k : Key C.keys) → Keeps (write_key C args host name k)
  unfolding write_key write_key_type
  write_key-Keeps name k =
      bind-Keeps (reads (config_dir args host))
        (λ pwd. write_key_type host C.key_toml identity name k pwd) (λ d tree. tree)
        (λ pwd. write_at-Keeps host C.key_toml (path identity pwd name) k)

  write_identity-Keeps : (name : String) (s : Secret) → Keeps (write_identity C args host name s)
  unfolding write_identity
  write_identity-Keeps name s d =
      cond-Keeps (has_alias C args host (load_contract_from_alias C args host name d))
        (fail (key_cannot_overlap_with_contract_alias name)) (write_key C args host name (secret s))
        (λ d tree. tree) (write_key-Keeps name (secret s)) d

  write_network-Keeps : (name : String) (n : Network) → Keeps (write_network C args host name n)
  unfolding write_network write_key_type
  write_network-Keeps name n =
      bind-Keeps (reads (config_dir args host))
        (λ pwd. write_key_type host C.network_toml network name n pwd) (λ d tree. tree)
        (λ pwd. write_at-Keeps host C.network_toml (path network pwd name) n)

  remove_network-Keeps : (name : String) → Keeps (remove_network C args host name)
  unfolding remove_network
  remove_network-Keeps name =
      bind-Keeps (reads (config_dir args host)) (λ pwd. remove_key_type host network name pwd)
        (λ d tree. tree) (λ pwd. remove_key_type-Keeps host network name pwd)

  save_contract_id-Keeps :
      (net : String) (id : C.Contract) (alias : String)
      → Keeps (save_contract_id C args host net id alias)
  unfolding save_contract_id
  save_contract_id-Keeps net id alias d =
      cond-Keeps (is_ok (read_identity C args host alias d))
        (fail (contract_alias_cannot_overlap_with_key alias)) (save_under C args host net alias id)
        (λ d tree. tree)
        (bind-Keeps (reads (alias_path args host alias)) (λ p. save_at C args host p net id)
          (λ d tree. tree) (λ p. save_at-Keeps p net id))
        d

  remove_at-Keeps : (p : FilePath) (net : String) → Keeps (remove_at C args host p net)
  remove_at-Keeps p net d =
      cond-Keeps (is_file p d) (rewrite_alias C args host p (without_id C args host net))
        (fail cannot_access_alias_config_file) (rewrite_alias-Keeps p (without_id C args host net))
        (λ d tree. tree) d

  remove_contract_id-Keeps : (net alias : String) → Keeps (remove_contract_id C args host net alias)
  unfolding remove_contract_id
  remove_contract_id-Keeps net alias =
      bind-Keeps (reads (alias_path args host alias)) (λ p. remove_at C args host p net)
        (λ d tree. tree) (λ p. remove_at-Keeps p net)

  -- Every operation of the configuration that changes the disk keeps every path in a directory, also
  -- when it fails halfway.
  pub operations-Keeps :
      (name net : String) (d : Disk)
      → IsTree d
      → (k : Key C.keys) (s : Secret) (n : Network) (id : C.Contract)
      → IsTree ((write_key C args host name k d).1)
        × (IsTree ((write_identity C args host name s d).1)
            × (IsTree ((write_network C args host name n d).1)
                × (IsTree ((remove_network C args host name d).1)
                    × (IsTree ((save_contract_id C args host net id name d).1)
                        × IsTree ((remove_contract_id C args host net name d).1)))))
  operations-Keeps name net d tree k s n id = (
    write_key-Keeps name k d tree,
    (
      write_identity-Keeps name s d tree,
      (
        write_network-Keeps name n d tree,
        (
          remove_network-Keeps name d tree,
          (save_contract_id-Keeps net id name d tree, remove_contract_id-Keeps net name d tree),
        ),
      ),
    ),
  )
