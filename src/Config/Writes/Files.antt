-- ===== src/Config/Writes/Files.antt =====
-- What writing a file of an identity or a network leaves behind.
use mathlib.Core.Path.{subst}
use soroban_tools.Prelude.{
  String, true, some, ◌∷◌, ◌≡◌, sym, ◌∙◌, ap, arith, Bool-cases, Option-cases, inl, inr,
}
use soroban_tools.Prelude.Result.{ok}
use soroban_tools.Config.Paths.{FilePath}
use soroban_tools.Config.Disk.{Host, Disk, file, node, exists, create_dir_all, write}
use soroban_tools.Config.Disk.Frame.{write-stores}
use soroban_tools.Config.Disk.Growth.{
  Grown, IsTree, Grown-then, create_dir_all-Grown, write-Grown, create_dir_all-exists,
}
use soroban_tools.Config.Errors.{Format}
use soroban_tools.Config.KeyTypes.{KeyType, path}
use soroban_tools.Config.Writes.{write_key_type, write_at, ensure_directory}

-- The file holds the text, the directory two levels above is there, and the rest is as it was.
pub record Stored (f sub : String) (above : FilePath) (text : String) (d e : Disk) : Type 0 where
  pub grown : Grown (f ∷ (sub ∷ above)) d e
  pub node_is : node (f ∷ (sub ∷ above)) e ≡ some (file text)
  pub there : exists above e ≡ true

module _ (host : Host) (f sub : String) (above : FilePath) (text : String) (d : Disk)
    (tree : IsTree d) where
  pub write_under-Stored :
      (create_dir_all host (sub ∷ above) d).0 ≡ true
      → (write host (f ∷ (sub ∷ above)) text ((create_dir_all host (sub ∷ above) d).1)).0 ≡ true
      → Stored f sub above text d
          ((write host (f ∷ (sub ∷ above)) text ((create_dir_all host (sub ∷ above) d).1)).1)
  write_under-Stored made written =
      let t = f ∷ (sub ∷ above) in
      let d1 = (create_dir_all host (sub ∷ above) d).1 in
      let g = write-Grown host t text d1 in
      record {
        grown =
            Grown-then t d d1 ((write host t text d1).1)
              (create_dir_all-Grown host f (sub ∷ above) d) g;
        node_is = write-stores host f (sub ∷ above) text d1 written;
        there = g.keeps above (create_dir_all-exists host sub above d tree made);
      }

module _ {T : Type 0} (host : Host) (format : Format T) (value : T) (f sub : String)
    (pwd : FilePath) (d : Disk) (tree : IsTree d) where
  pub write_at-Stored :
      (e : Disk) (p : FilePath)
      → write_at host format (f ∷ (sub ∷ pwd)) value d ≡ (ok p, e)
      → (text : String) × ((format.print value ≡ some text) × Stored f sub pwd text d e)
  unfolding ensure_directory
  write_at-Stored e p h =
      let t = f ∷ (sub ∷ pwd) in
      let d1 = (create_dir_all host (sub ∷ pwd) d).1 in
      elim (Bool-cases ((create_dir_all host (sub ∷ pwd) d).0)) [
        | inr q ↦ absurd (ground (arith, q, h))
        | inl q ↦ elim (Option-cases (format.print value)) [
          | inl n ↦ absurd (ground (arith, q, n, h))
          | inr (text, n) ↦ elim (Bool-cases ((write host t text d1).0)) [
            | inr w ↦ absurd (ground (arith, q, n, w, h))
            | inl w ↦ (
              text,
              (
                n,
                subst (λ (x : Disk). Stored f sub pwd text d x) (ground (arith, q, n, w, h))
                    (write_under-Stored host f sub pwd text d tree q w),
              ),
            )
          ]
        ]
      ]

  pub write_key_type-Stored :
      (kt : KeyType) (key : String) (e : Disk) (p : FilePath)
      → path kt pwd key ≡ (f ∷ (sub ∷ pwd))
      → write_key_type host format kt key value pwd d ≡ (ok p, e)
      → (text : String) × ((format.print value ≡ some text) × Stored f sub pwd text d e)
  unfolding write_key_type
  write_key_type-Stored kt key e p at h =
      write_at-Stored e p (ap (λ (q : FilePath). write_at host format q value d) (sym at) ∙ h)
