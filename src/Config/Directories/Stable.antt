-- ===== src/Config/Directories/Stable.antt =====
-- Writing a file in the configuration leaves the configuration where it is.
use soroban_tools.Prelude.{
  String, true, false, none, some, [], ◌∷◌, ◌≡◌, ◌≢◌, ap, arith, length, ◌≤◌, ◌<◌, Bool-cases,
  Option-cases, inl, inr, eq_iff, suc,
}
use soroban_tools.Prelude.Result.{ok, Result-cases}
use soroban_tools.Config.Paths.{FilePath, path_eq}
use soroban_tools.Config.Paths.Names.{IsPlain}
use soroban_tools.Config.Disk.{Host, Disk, exists}
use soroban_tools.Config.Disk.Frame.{is_above}
use soroban_tools.Config.Disk.Growth.{Grown, not_above-longer, length-path_eq}
use soroban_tools.Config.Directories.{
  Args, config_dir_in, find_config_dir, local_config, config_dir, global_config_path, current_dir,
  config_home, global_config_in,
}

pub length-find_config_dir :
    (pwd : FilePath) (d : Disk) (dir : FilePath)
    → find_config_dir pwd d ≡ some dir
    → length dir ≤ suc (length pwd)
unfolding find_config_dir config_dir_in
length-find_config_dir [] d dir h = ground arith
length-find_config_dir (s ∷ pwd) d dir h = ground (arith, length-find_config_dir pwd d dir)

path_eq-shorter : (p q : FilePath) → length q < length p → path_eq p q ≡ false
path_eq-shorter p q h = elim (Bool-cases (path_eq p q)) [
  | inl e ↦ absurd (omega (arith, length-path_eq p q e))
  | inr e ↦ e
]

above_soroban :
    (pwd dir : FilePath) → dir ≡ (".soroban" ∷ pwd) → is_above (".stellar" ∷ pwd) dir ≡ false
unfolding is_above path_eq
above_soroban pwd dir e = rw e (ground (arith, not_above-longer ".stellar" pwd pwd))

-- The disk grew along the path of a file two levels below the directory.
module _ (file sub : String) (is_file : IsPlain file) (is_sub : IsPlain sub) (dir : FilePath)
    (d e : Disk) (grown : Grown (file ∷ (sub ∷ dir)) d e) where
  still_missing :
      (t : String) (q : FilePath)
      → file ≢ t
      → sub ≢ t
      → is_above (t ∷ q) dir ≡ false
      → exists (t ∷ q) d ≡ false
      → exists (t ∷ q) e ≡ false
  unfolding exists is_above path_eq
  still_missing t q f s above missing = ground (arith, grown.frame t q, eq_iff file t, eq_iff sub t)

  config_dir_in-none :
      (pwd : FilePath)
      → length dir ≤ length pwd
      → config_dir_in pwd d ≡ none
      → config_dir_in pwd e ≡ none
  unfolding config_dir_in
  config_dir_in-none pwd short h = ground (
    arith,
    still_missing ".stellar" pwd is_file.not_stellar is_sub.not_stellar
        (not_above-longer ".stellar" pwd dir short),
    still_missing ".soroban" pwd is_file.not_soroban is_sub.not_soroban
        (not_above-longer ".soroban" pwd dir short),
  )

  config_dir_in-some :
      (pwd : FilePath) → config_dir_in pwd d ≡ some dir → config_dir_in pwd e ≡ some dir
  unfolding config_dir_in
  config_dir_in-some pwd h = ground (
    arith,
    grown.keeps (".stellar" ∷ pwd),
    grown.keeps (".soroban" ∷ pwd),
    still_missing ".stellar" pwd is_file.not_stellar is_sub.not_stellar,
    above_soroban pwd dir,
  )

  find_config_dir_stable :
      (pwd : FilePath) → find_config_dir pwd d ≡ some dir → find_config_dir pwd e ≡ some dir
  unfolding find_config_dir
  find_config_dir_stable [] h = config_dir_in-some [] h
  find_config_dir_stable (s ∷ pwd) h = elim (Option-cases (config_dir_in (s ∷ pwd) d)) [
    | inl n ↦ ground (
      arith,
      n,
      length-find_config_dir pwd d dir,
      config_dir_in-none (s ∷ pwd),
      find_config_dir_stable pwd,
    )
    | inr (p, n) ↦ ground (arith, n, config_dir_in-some (s ∷ pwd))
  ]

  module _ (there : exists dir e ≡ true) where
    -- Where no directory is found, the one made is the one that is found from then on.
    found_after :
        (pwd : FilePath)
        → find_config_dir pwd d ≡ none
        → dir ≡ (".stellar" ∷ pwd)
        → find_config_dir pwd e ≡ some dir
    unfolding find_config_dir config_dir_in
    found_after [] h q = ground (arith, ap (λ (p : FilePath). exists p e) q)
    found_after (s ∷ pwd) h q = ground (arith, ap (λ (p : FilePath). exists p e) q)

    pub local_config_stable :
        (args : Args) (host : Host)
        → local_config args host d ≡ ok dir
        → local_config args host e ≡ ok dir
    unfolding local_config
    local_config_stable args host h = elim (Result-cases (current_dir args host)) [
      | inr (x, q) ↦ rw (q, local_config) (rw (q, local_config) at h)
      | inl (pwd, q) ↦ elim (Option-cases (find_config_dir pwd d)) [
        | inl n ↦ ground (arith, q, n, found_after pwd)
        | inr (p, n) ↦ ground (arith, q, n, find_config_dir_stable pwd)
      ]
    ]

    soroban_under :
        (config : FilePath)
        → dir ≡ ("soroban" ∷ config)
        → is_above ("stellar" ∷ config) (file ∷ (sub ∷ dir)) ≡ false
    unfolding is_above path_eq
    soroban_under config q = rw q (
        ground (
          arith,
          not_above-longer "stellar" config config,
          path_eq-shorter (sub ∷ ("soroban" ∷ config)) config,
          path_eq-shorter ("soroban" ∷ config) config,
        ))

    global_config_in_stable :
        (config : FilePath) → global_config_in config d ≡ dir → global_config_in config e ≡ dir
    unfolding exists
    global_config_in_stable config h = ground (
      arith,
      soroban_under config,
      grown.frame "stellar" config,
      grown.keeps ("stellar" ∷ config),
      grown.keeps ("soroban" ∷ config),
      ap (λ (p : FilePath). exists p e) h,
      there,
    )

    pub global_config_path_stable :
        (host : Host) → global_config_path host d ≡ ok dir → global_config_path host e ≡ ok dir
    unfolding global_config_path
    global_config_path_stable host h = elim (Result-cases (config_home host)) [
      | inr (x, q) ↦ rw (q, global_config_path) (rw (q, global_config_path) at h)
      | inl (config, q) ↦ ground (arith, q, global_config_in_stable config)
    ]

    pub config_dir_stable :
        (args : Args) (host : Host)
        → config_dir args host d ≡ ok dir
        → config_dir args host e ≡ ok dir
    unfolding config_dir
    config_dir_stable args host h =
        ground (arith, local_config_stable args host, global_config_path_stable host)
