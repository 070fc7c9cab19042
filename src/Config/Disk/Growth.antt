-- ===== src/Config/Disk/Growth.antt =====
-- Writing a file adds to the disk along its path only, and whatever was there is still there.
use soroban_tools.Prelude.{
  String, true, false, some, [], ◌∷◌, ◌≡◌, refl, ◌∙◌, ap, arith, length, ◌≤◌, Bool-cases,
  Option-cases, inl, inr,
}
use soroban_tools.Config.Paths.{FilePath, path_eq, path_eq_iff, path_eq_refl}
use soroban_tools.Config.Disk.{
  Host, Disk, dir, file, node, exists, create_dir_all, open_truncated, write_all, write, node-put,
  Done, and_write_all,
}
use soroban_tools.Config.Disk.Frame.{
  is_above, create_dir_all-frame, create_dir_all-keeps, create_dir_all-makes, open_truncated-frame,
  write_all-frame,
}

pub record Grown (p : FilePath) (d e : Disk) : Type 0 where
  pub keeps : (q : FilePath) → exists q d ≡ true → exists q e ≡ true
  pub frame :
      (t : String) (q : FilePath) → is_above (t ∷ q) p ≡ false → node (t ∷ q) e ≡ node (t ∷ q) d

-- Every path that exists stands in a directory.
abbrev pub IsTree : Disk → Type 0
IsTree d = (s : String) (p : FilePath) → exists (s ∷ p) d ≡ true → node p d ≡ some dir

pub length-path_eq : (p q : FilePath) → path_eq p q ≡ true → length p ≡ length q
length-path_eq p q h = ap length ((path_eq_iff p q).0 h)

pub is_above-length : (q p : FilePath) → is_above q p ≡ true → length q ≤ length p
unfolding is_above
is_above-length q [] h = omega (arith, length-path_eq [] q h)
is_above-length q (s ∷ p) h = elim (Bool-cases (path_eq (s ∷ p) q)) [
  | inl e ↦ omega (arith, length-path_eq (s ∷ p) q e)
  | inr e ↦ ground (arith, is_above-length q p)
]

pub is_above_refl : (p : FilePath) → is_above p p ≡ true
unfolding is_above
is_above_refl [] = path_eq_refl []
is_above_refl (s ∷ p) = ground (arith, path_eq_refl (s ∷ p))

pub not_above-longer :
    (t : String) (q p : FilePath) → length p ≤ length q → is_above (t ∷ q) p ≡ false
not_above-longer t q p h = elim (Bool-cases (is_above (t ∷ q) p)) [
  | inl e ↦ absurd (omega (arith, is_above-length (t ∷ q) p e))
  | inr e ↦ e
]

pub Grown-self : (p : FilePath) (d : Disk) → Grown p d d
Grown-self p d = record { keeps = λ q h. h; frame = λ t q h. refl }

pub Grown-then : (p : FilePath) (d e f : Disk) → Grown p d e → Grown p e f → Grown p d f
Grown-then p d e f g k = record {
  keeps = λ q h. k.keeps q (g.keeps q h);
  frame = λ t q h. k.frame t q h ∙ g.frame t q h;
}

module _ (host : Host) where
  pub create_dir_all-Grown :
      (s : String) (p : FilePath) (d : Disk) → Grown (s ∷ p) d ((create_dir_all host p d).1)
  unfolding exists is_above
  create_dir_all-Grown s p d = record {
    keeps = λ q h. elim (Option-cases (node q d)) [
      | inl e ↦ ground (arith, e, h)
      | inr (n, e) ↦ ground (arith, create_dir_all-keeps host q p d e)
    ];
    frame = λ t q h. create_dir_all-frame host t q p d (ground (arith, h));
  }

  pub open_truncated-keeps :
      (q p : FilePath) (d : Disk)
      → exists q d ≡ true
      → exists q ((open_truncated host p d).1) ≡ true
  unfolding exists open_truncated node
  open_truncated-keeps [] p d h = refl
  open_truncated-keeps (t ∷ q) [] d h = h
  open_truncated-keeps (t ∷ q) (s ∷ p) d h = ground (arith, node-put t q (s ∷ p) (file "") d)

  pub write_all-keeps :
      (q p : FilePath) (text : String) (d : Disk)
      → exists q d ≡ true
      → exists q ((write_all host p text d).1) ≡ true
  unfolding exists write_all node
  write_all-keeps [] p text d h = refl
  write_all-keeps (t ∷ q) p text d h = elim (Option-cases (host.cut_short p text)) [
    | inl e ↦ rw (e, write_all) (ground (arith, node-put t q p (file text) d))
    | inr (part, e) ↦ rw (e, write_all) (ground (arith, node-put t q p (file part) d))
  ]

  pub not_above-path_eq :
      (t : String) (q p : FilePath) → is_above (t ∷ q) p ≡ false → path_eq p (t ∷ q) ≡ false
  unfolding is_above
  not_above-path_eq t q [] h = h
  not_above-path_eq t q (s ∷ p) h = ground arith

  pub open_truncated-Grown : (p : FilePath) (d : Disk) → Grown p d ((open_truncated host p d).1)
  open_truncated-Grown p d = record {
    keeps = λ q h. open_truncated-keeps q p d h;
    frame = λ t q h. open_truncated-frame host t q p d (not_above-path_eq t q p h);
  }

  pub write_all-Grown :
      (p : FilePath) (text : String) (d : Disk) → Grown p d ((write_all host p text d).1)
  write_all-Grown p text d = record {
    keeps = λ q h. write_all-keeps q p text d h;
    frame = λ t q h. write_all-frame host t q p text d (not_above-path_eq t q p h);
  }

  pub and_write_all-Grown :
      (p : FilePath) (text : String) (d : Disk) (opened : Done)
      → Grown p d (opened.1)
      → Grown p d ((and_write_all host p text opened).1)
  and_write_all-Grown p text d (true, e) g =
      Grown-then p d e ((write_all host p text e).1) g (write_all-Grown p text e)
  and_write_all-Grown p text d (false, e) g = g

  pub write-Grown : (p : FilePath) (text : String) (d : Disk) → Grown p d ((write host p text d).1)
  unfolding write
  write-Grown p text d =
      and_write_all-Grown p text d (open_truncated host p d) (open_truncated-Grown p d)

  -- Making a directory makes the one above it, if it is missing.
  pub create_dir_all-exists :
      (s : String) (p : FilePath) (d : Disk)
      → IsTree d
      → (create_dir_all host (s ∷ p) d).0 ≡ true
      → exists p ((create_dir_all host (s ∷ p) d).1) ≡ true
  unfolding create_dir_all exists node
  create_dir_all-exists s [] d tree h = refl
  create_dir_all-exists s (t ∷ p) d tree h = ground (
    arith,
    tree s (t ∷ p),
    create_dir_all-makes host (t ∷ p) d,
    node-put t p (s ∷ (t ∷ p)) dir ((create_dir_all host (t ∷ p) d).1),
  )
