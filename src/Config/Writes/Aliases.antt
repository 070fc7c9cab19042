-- ===== src/Config/Writes/Aliases.antt =====
-- The alias files as a finite map: what the operations on contract ids do to it.
use mathlib.Core.Path.{subst}
use soroban_tools.Prelude.{
  String, true, false, Option, some, ◌∷◌, ◌≡◌, ◌≢◌, ap, arith, Bool-cases, Option-cases, inl, inr,
  eq_iff,
}
use soroban_tools.Prelude.Result.{ok}
use soroban_tools.Config.Paths.{FilePath, path_eq}
use soroban_tools.Config.Disk.{
  Host, Disk, Node, node, file, text_of, read_to_string, create_dir_all, open_truncated, write_all,
  exists,
}
use soroban_tools.Config.Disk.Frame.{is_above, create_dir_all-frame, write_all-stores}
use soroban_tools.Config.Disk.Growth.{
  Grown, IsTree, Grown-then, create_dir_all-Grown, open_truncated-Grown, write_all-Grown,
  create_dir_all-exists, not_above-longer,
}
use soroban_tools.Config.Directories.{Args}
use soroban_tools.Config.Networks.{get}
use soroban_tools.Config.Locator.{Crates, AliasData, or_default, text_or_default}
use soroban_tools.Config.Writes.{rewrite_alias, with_id, save_at}

module _ (C : Crates) (args : Args) (host : Host) where
  -- What the code makes of the text at a path.
  abbrev pub content_at : FilePath → Disk → AliasData
  content_at p d = or_default (C.alias_json.parse (text_or_default (read_to_string host p d)))

  -- `serde_json` parses a map it printed, up to the order of its entries.
  abbrev pub PrintsMaps : Type 0
  PrintsMaps =
      (m : AliasData) (text : String)
      → C.alias_json.print m ≡ some text
      → (n : AliasData) × ((C.alias_json.parse text ≡ some n)
          × ((k : String) → get k n.ids ≡ get k m.ids))

  module _ (f sub : String) (above : FilePath) where
    pub rewrite_alias-stores :
        (change : AliasData → AliasData) (d e : Disk)
        → rewrite_alias C args host (f ∷ (sub ∷ above)) change d ≡ (ok tt, e)
        → (text : String) × ((C.alias_json.print (change (content_at (f ∷ (sub ∷ above)) d))
              ≡ some text)
            × ((node (f ∷ (sub ∷ above)) e ≡ some (file text)) × Grown (f ∷ (sub ∷ above)) d e))
    unfolding rewrite_alias
    rewrite_alias-stores change d e h =
        let p = f ∷ (sub ∷ above) in
        let d1 = (open_truncated host p d).1 in
        elim (Bool-cases ((open_truncated host p d).0)) [
          | inr q ↦ absurd (ground (arith, q, h))
          | inl q ↦ elim (Option-cases (C.alias_json.print (change (content_at p d)))) [
            | inl n ↦ absurd (ground (arith, q, n, h))
            | inr (text, n) ↦ elim (Bool-cases ((write_all host p text d1).0)) [
              | inr w ↦ absurd (ground (arith, q, n, w, h))
              | inl w ↦
                  subst
                    (λ (x : Disk).
                      (t : String) × ((C.alias_json.print (change (content_at p d)) ≡ some t)
                        × ((node p x ≡ some (file t)) × Grown p d x)))
                    (ground (arith, q, n, w, h))
                    (
                      text,
                      (
                        n,
                        (
                          write_all-stores host f (sub ∷ above) text d1 w,
                          Grown-then p d d1 ((write_all host p text d1).1)
                              (open_truncated-Grown host p d) (write_all-Grown host p text d1),
                        ),
                      ),
                    )
            ]
          ]
        ]

    -- The other files of the directory are as they were.
    pub other_file :
        (t : String) (d e : Disk)
        → t ≢ f
        → Grown (f ∷ (sub ∷ above)) d e
        → node (t ∷ (sub ∷ above)) e ≡ node (t ∷ (sub ∷ above)) d
    unfolding is_above path_eq
    other_file t d e apart grown =
        grown.frame t (sub ∷ above)
          (ground (arith, apart, eq_iff f t, not_above-longer t (sub ∷ above) (sub ∷ above)))

    module _ (laws : PrintsMaps) (readable : (p : FilePath) → host.unreadable p ≡ false) where
      pub rewrite_alias-content :
          (change : AliasData → AliasData) (d e : Disk)
          → rewrite_alias C args host (f ∷ (sub ∷ above)) change d ≡ (ok tt, e)
          → (k : String)
          → get k ((content_at (f ∷ (sub ∷ above)) e).ids)
            ≡ get k ((change (content_at (f ∷ (sub ∷ above)) d)).ids)
      unfolding read_to_string
      rewrite_alias-content change d e h k =
          let p = f ∷ (sub ∷ above) in
          let w = rewrite_alias-stores change d e h in
          let l = laws (change (content_at p d)) (w.0) (w.1.0) in
          rw (w.1.1.0) (rw (readable p) (rw (l.1.0) (l.1.1 k)))

    pub same_content :
        (d e : Disk)
        → node (f ∷ (sub ∷ above)) e ≡ node (f ∷ (sub ∷ above)) d
        → content_at (f ∷ (sub ∷ above)) e ≡ content_at (f ∷ (sub ∷ above)) d
    unfolding read_to_string
    same_content d e q =
        ap
          (λ (o : Option Node).
            or_default (C.alias_json.parse (text_or_default (text_of host (f ∷ (sub ∷ above)) o))))
          q

    -- After the directories are made, the contents are still what they were.
    pub save_at-cases :
        (net : String) (id : C.Contract) (d e : Disk) (tree : IsTree d)
        → save_at C args host (f ∷ (sub ∷ above)) net id d ≡ (ok tt, e)
        → (d1 : Disk) × ((rewrite_alias C args host
                (f ∷ (sub ∷ above))
                (with_id C args host net (C.contract_to_string id))
                d1
              ≡ (ok tt, e))
            × (Grown (f ∷ (sub ∷ above)) d d1
                × ((exists above d1 ≡ true)
                    × (node (f ∷ (sub ∷ above)) d1 ≡ node (f ∷ (sub ∷ above)) d))))
    save_at-cases net id d e tree h =
        let d1 = (create_dir_all host (sub ∷ above) d).1 in
        elim (Bool-cases ((create_dir_all host (sub ∷ above) d).0)) [
          | inr q ↦ absurd (ground (arith, q, h))
          | inl q ↦ (
            d1,
            (
              ground (arith, q, h),
              (
                create_dir_all-Grown host f (sub ∷ above) d,
                (
                  create_dir_all-exists host sub above d tree q,
                  create_dir_all-frame host f (sub ∷ above) (sub ∷ above) d
                      (not_above-longer f (sub ∷ above) (sub ∷ above) (omega arith)),
                ),
              ),
            ),
          )
        ]
