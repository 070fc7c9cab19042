-- ===== src/Config/Disk/Trees.antt =====
-- Every path stands in a directory, whatever the calls of `fs` do.
use mathlib.Core.Path.{subst}
use soroban_tools.Prelude.{
  String, true, false, some, [], ◌∷◌, ◌≡◌, ◌≢◌, refl, arith, Bool-cases, Option-cases, inl, inr,
}
use soroban_tools.Config.Paths.{FilePath, path_eq, path_eq_iff, path_eq_refl}
use soroban_tools.Config.Disk.{
  Host, Disk, Node, dir, file, node, put, erase, node-put, node-erase, exists, create_dir_all,
  open_truncated, write_all, write, remove_file, is_dir,
}
use soroban_tools.Config.Disk.Frame.{create_dir_all-makes}
use soroban_tools.Config.Disk.Growth.{IsTree, length-path_eq}

path_eq-own : (s : String) (p : FilePath) → path_eq (s ∷ p) p ≡ false
path_eq-own s p = elim (Bool-cases (path_eq (s ∷ p) p)) [
  | inl e ↦ absurd (omega (arith, length-path_eq (s ∷ p) p e))
  | inr e ↦ e
]

put-IsTree :
    (s : String) (p : FilePath) (n : Node) (d : Disk)
    → IsTree d
    → node p d ≡ some dir
    → (node (s ∷ p) d ≡ some dir → n ≡ dir)
    → IsTree (put (s ∷ p) n d)
unfolding exists node
put-IsTree s p n d tree h k t [] there = refl
put-IsTree s p n d tree h k t (u ∷ r) there = ground (
  arith,
  tree t (u ∷ r),
  node-put t (u ∷ r) (s ∷ p) n d,
  node-put u r (s ∷ p) n d,
  path_eq_iff (s ∷ p) (t ∷ (u ∷ r)),
  path_eq_iff (s ∷ p) (u ∷ r),
  path_eq-own t (u ∷ r),
)

erase-IsTree :
    (s : String) (p : FilePath) (d : Disk)
    → IsTree d
    → node (s ∷ p) d ≢ some dir
    → IsTree (erase (s ∷ p) d)
unfolding exists node
erase-IsTree s p d tree h t [] there = refl
erase-IsTree s p d tree h t (u ∷ r) there = ground (
  arith,
  tree t (u ∷ r),
  node-erase t (u ∷ r) (s ∷ p) d,
  node-erase u r (s ∷ p) d,
  path_eq_iff (s ∷ p) (u ∷ r),
)

module _ (host : Host) where
  pub create_dir_all-IsTree :
      (p : FilePath) (d : Disk) → IsTree d → IsTree ((create_dir_all host p d).1)
  unfolding create_dir_all
  create_dir_all-IsTree [] d tree = tree
  create_dir_all-IsTree (s ∷ p) d tree =
      let d1 = (create_dir_all host p d).1 in
      let below = create_dir_all-IsTree p d tree in
      elim (Option-cases (node (s ∷ p) d)) [
        | inr (n, q) ↦ subst (λ (x : Disk). IsTree x) (ground (arith, q)) tree
        | inl q ↦ elim (Bool-cases ((create_dir_all host p d).0)) [
          | inl m ↦ elim (Bool-cases (host.unwritable (s ∷ p))) [
            | inl u ↦ subst (λ (x : Disk). IsTree x) (ground (arith, q, m, u)) below
            | inr u ↦
                subst (λ (x : Disk). IsTree x) (ground (arith, q, m, u))
                  (put-IsTree s p dir d1 below (create_dir_all-makes host p d m) (λ h. refl))
          ]
          | inr m ↦ subst (λ (x : Disk). IsTree x) (ground (arith, q, m)) below
        ]
      ]

  put_file-IsTree :
      (s : String) (p : FilePath) (text : String) (d : Disk)
      → IsTree d
      → node p d ≡ some dir
      → node (s ∷ p) d ≢ some dir
      → IsTree (put (s ∷ p) (file text) d)
  put_file-IsTree s p text d tree above no_dir =
      put-IsTree s p (file text) d tree above (λ h. absurd (no_dir h))

  pub open_truncated-IsTree :
      (p : FilePath) (d : Disk) → IsTree d → IsTree ((open_truncated host p d).1)
  unfolding open_truncated exists is_dir
  open_truncated-IsTree [] d tree = tree
  open_truncated-IsTree (s ∷ p) d tree =
      let made = put_file-IsTree s p "" d tree in
      elim (Bool-cases ((open_truncated host (s ∷ p) d).0)) [
        | inl q ↦
            subst (λ (x : Disk). IsTree x) (ground (arith, q))
              (made (ground (arith, q, tree s p)) (ground (arith, q)))
        | inr q ↦ subst (λ (x : Disk). IsTree x) (ground (arith, q)) tree
      ]

  -- At a file that was opened.
  pub write_all-IsTree :
      (s : String) (p : FilePath) (text old : String) (d : Disk)
      → IsTree d
      → node (s ∷ p) d ≡ some (file old)
      → IsTree ((write_all host (s ∷ p) text d).1)
  unfolding write_all exists
  write_all-IsTree s p text old d tree h =
      let above : (node p d ≡ some dir) = tree s p (ground (arith, h)) in
      let no_dir : (node (s ∷ p) d ≢ some dir) = (λ k. ground (arith, h, k)) in
      elim (Option-cases (host.cut_short (s ∷ p) text)) [
        | inl q ↦
            subst (λ (x : Disk). IsTree x) (ground (arith, q))
              (put_file-IsTree s p text d tree above no_dir)
        | inr (part, q) ↦
            subst (λ (x : Disk). IsTree x) (ground (arith, q))
              (put_file-IsTree s p part d tree above no_dir)
      ]

  pub open_truncated-file :
      (s : String) (p : FilePath) (d : Disk)
      → (open_truncated host (s ∷ p) d).0 ≡ true
      → node (s ∷ p) ((open_truncated host (s ∷ p) d).1) ≡ some (file "")
  unfolding open_truncated
  open_truncated-file s p d h =
      ground (arith, node-put s p (s ∷ p) (file "") d, path_eq_refl (s ∷ p))

  pub write-IsTree :
      (s : String) (p : FilePath) (text : String) (d : Disk)
      → IsTree d
      → IsTree ((write host (s ∷ p) text d).1)
  unfolding write
  write-IsTree s p text d tree =
      let opened = open_truncated-IsTree (s ∷ p) d tree in
      let d1 = (open_truncated host (s ∷ p) d).1 in
      elim (Bool-cases ((open_truncated host (s ∷ p) d).0)) [
        | inl q ↦
            subst (λ (x : Disk). IsTree x) (ground (arith, q))
              (write_all-IsTree s p text "" d1 opened (open_truncated-file s p d q))
        | inr q ↦ subst (λ (x : Disk). IsTree x) (ground (arith, q)) opened
      ]

  pub remove_file-IsTree :
      (s : String) (p : FilePath) (d : Disk) → IsTree d → IsTree ((remove_file host (s ∷ p) d).1)
  unfolding remove_file
  remove_file-IsTree s p d tree = elim (Bool-cases ((remove_file host (s ∷ p) d).0)) [
    | inl q ↦
        subst (λ (x : Disk). IsTree x) (ground (arith, q))
          (erase-IsTree s p d tree (ground (arith, q)))
    | inr q ↦ subst (λ (x : Disk). IsTree x) (ground (arith, q)) tree
  ]
