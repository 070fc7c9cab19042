-- ===== src/Config/Disk/Frame.antt =====
-- What the calls of `fs` leave as it was, and what they leave behind when they succeed.
use soroban_tools.Prelude.{
  String, Bool, true, false, ◌||◌, some, [], ◌∷◌, ◌≡◌, refl, arith, Option-cases, inl, inr,
}
use soroban_tools.Config.Paths.{FilePath, path_eq, path_eq_iff, path_eq_refl}
use soroban_tools.Config.Disk.{
  Host, Disk, Node, dir, file, node, node-put, node-erase, create_dir_all, open_truncated,
  write_all, write, read_to_string, remove_file,
}

-- Whether a path is the second one or a directory above it.
unfoldable pub is_above : FilePath → FilePath → Bool
is_above q [] = path_eq [] q
is_above q (s ∷ p) = path_eq (s ∷ p) q || is_above q p

module _ (host : Host) where
  -- Directories are made only above the path and at it.
  pub create_dir_all-frame :
      (t : String) (q p : FilePath) (d : Disk)
      → is_above (t ∷ q) p ≡ false
      → node (t ∷ q) ((create_dir_all host p d).1) ≡ node (t ∷ q) d
  unfolding create_dir_all is_above
  create_dir_all-frame t q [] d h = refl
  create_dir_all-frame t q (s ∷ p) d h =
      ground (
        arith,
        create_dir_all-frame t q p d,
        node-put t q (s ∷ p) dir ((create_dir_all host p d).1),
      )

  -- What was there stays as it was.
  pub create_dir_all-keeps :
      (q p : FilePath) (d : Disk) {n : Node}
      → node q d ≡ some n
      → node q ((create_dir_all host p d).1) ≡ some n
  unfolding create_dir_all node
  create_dir_all-keeps [] p d h = h
  create_dir_all-keeps (t ∷ q) [] d h = h
  create_dir_all-keeps (t ∷ q) (s ∷ p) d h = ground (
    arith,
    create_dir_all-keeps (t ∷ q) p d h,
    node-put t q (s ∷ p) dir ((create_dir_all host p d).1),
    path_eq_iff (s ∷ p) (t ∷ q),
  )

  pub create_dir_all-makes :
      (p : FilePath) (d : Disk)
      → (create_dir_all host p d).0 ≡ true
      → node p ((create_dir_all host p d).1) ≡ some dir
  unfolding create_dir_all node
  create_dir_all-makes [] d h = refl
  create_dir_all-makes (s ∷ p) d h =
      ground (arith, node-put s p (s ∷ p) dir ((create_dir_all host p d).1), path_eq_refl (s ∷ p))

  pub open_truncated-frame :
      (t : String) (q p : FilePath) (d : Disk)
      → path_eq p (t ∷ q) ≡ false
      → node (t ∷ q) ((open_truncated host p d).1) ≡ node (t ∷ q) d
  unfolding open_truncated
  open_truncated-frame t q [] d h = refl
  open_truncated-frame t q (s ∷ p) d h = ground (arith, node-put t q (s ∷ p) (file "") d)

  pub write_all-frame :
      (t : String) (q p : FilePath) (text : String) (d : Disk)
      → path_eq p (t ∷ q) ≡ false
      → node (t ∷ q) ((write_all host p text d).1) ≡ node (t ∷ q) d
  unfolding write_all
  write_all-frame t q p text d h = elim (Option-cases (host.cut_short p text)) [
    | inl e ↦ rw (e, write_all) (ground (arith, node-put t q p (file text) d))
    | inr (part, e) ↦ rw (e, write_all) (ground (arith, node-put t q p (file part) d))
  ]

  pub write_all-stores :
      (s : String) (p : FilePath) (text : String) (d : Disk)
      → (write_all host (s ∷ p) text d).0 ≡ true
      → node (s ∷ p) ((write_all host (s ∷ p) text d).1) ≡ some (file text)
  unfolding write_all
  write_all-stores s p text d h =
      ground (arith, node-put s p (s ∷ p) (file text) d, path_eq_refl (s ∷ p))

  pub write-frame :
      (t : String) (q p : FilePath) (text : String) (d : Disk)
      → path_eq p (t ∷ q) ≡ false
      → node (t ∷ q) ((write host p text d).1) ≡ node (t ∷ q) d
  unfolding write
  write-frame t q p text d h = ground (
    arith,
    open_truncated-frame t q p d h,
    write_all-frame t q p text ((open_truncated host p d).1) h,
  )

  pub write-stores :
      (s : String) (p : FilePath) (text : String) (d : Disk)
      → (write host (s ∷ p) text d).0 ≡ true
      → node (s ∷ p) ((write host (s ∷ p) text d).1) ≡ some (file text)
  unfolding write
  write-stores s p text d h =
      ground (arith, write_all-stores s p text ((open_truncated host (s ∷ p) d).1))

  pub remove_file-frame :
      (t : String) (q p : FilePath) (d : Disk)
      → path_eq p (t ∷ q) ≡ false
      → node (t ∷ q) ((remove_file host p d).1) ≡ node (t ∷ q) d
  unfolding remove_file
  remove_file-frame t q p d h = ground (arith, node-erase t q p d)

  -- A path that was missing may have become a directory; any other is as it was.
  pub create_dir_all-reads :
      (q p : FilePath) (d : Disk)
      → read_to_string host q ((create_dir_all host p d).1) ≡ read_to_string host q d
  unfolding read_to_string create_dir_all node
  create_dir_all-reads [] p d = refl
  create_dir_all-reads (t ∷ q) [] d = refl
  create_dir_all-reads (t ∷ q) (s ∷ p) d = ground (
    arith,
    create_dir_all-reads (t ∷ q) p d,
    node-put t q (s ∷ p) dir ((create_dir_all host p d).1),
    path_eq_iff (s ∷ p) (t ∷ q),
    create_dir_all-keeps (t ∷ q) p d,
  )
