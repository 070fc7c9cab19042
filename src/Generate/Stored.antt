-- ===== src/Generate/Stored.antt =====
-- What the configuration holds after an identity was generated.
use soroban_tools.Prelude.{
  String, Bool, true, false, not, ◌&&◌, List, ◌≡◌, ◌⊎◌, inl, inr, arith, refl, Bool-cases,
}
use soroban_tools.Prelude.Result.{Result, ok, err, is_ok, Result-cases}
use soroban_tools.Config.Paths.{FilePath}
use soroban_tools.Config.Paths.Names.{IsFileName}
use soroban_tools.Config.Disk.{Host, Disk}
use soroban_tools.Config.Disk.Growth.{IsTree}
use soroban_tools.Config.Errors
use soroban_tools.Config.Secrets.{Secret}
use soroban_tools.Config.Keys.{secret}
use soroban_tools.Config.Directories.{Args, config_home}
use soroban_tools.Config.Locator.{Crates, read_identity}
use soroban_tools.Config.Writes.{write_identity}
use soroban_tools.Config.Writes.ReadBack.{ReadsBack, read_identity-write_identity}
use soroban_tools.Generate.{SeedCrates, Cmd, World, secret_of, after_write, generate}

may_write :
    (overwrite found : Bool)
    → (found && not overwrite) ≡ false
    → (overwrite ≡ true) ⊎ (found ≡ false)
may_write true found h = inl refl
may_write false found h = inr (ground (arith, h))

module _ (C : Crates) (S : SeedCrates C) (args : Args) (host : Host) where
  -- The new secret is what is written, in place of no identity or of one that may be overwritten.
  pub record Written (cmd : Cmd) (before after : World C S args host) (s : Secret) : Type 0 where
    pub is_secret : secret_of C S args host cmd before.1 ≡ ok (s, after.1)
    pub path : FilePath
    pub written : write_identity C args host cmd.name s before.0 ≡ (ok path, after.0)
    pub allowed :
        (cmd.overwrite ≡ true) ⊎ (is_ok (read_identity C args host cmd.name before.0) ≡ false)

  after_write-written :
      (cmd : Cmd) (s : Secret) (ring : List (String × C.keys.Phrase))
      (w : Result Errors.Error FilePath × Disk) (after : World C S args host)
      → after_write C S args host cmd s ring w ≡ (ok tt, after)
      → (p : FilePath) × (w ≡ (ok p, after.0)) × (ring ≡ after.1)
  after_write-written cmd s ring (err e, d) (d', ring') h = absurd (ground (arith, h))
  after_write-written cmd s ring (ok p, d) (d', ring') h = (p, ground (arith, h), ground (arith, h))

  generate-Written :
      (cmd : Cmd) (before after : World C S args host)
      → generate C S args host cmd before ≡ (ok tt, after)
      → (s : Secret) × Written cmd before after s
  unfolding generate
  generate-Written cmd (d, ring) (e, ring') h =
      elim (Bool-cases (is_ok (read_identity C args host cmd.name d) && not cmd.overwrite)) [
        | inl t ↦ absurd (ground (arith, t, h))
        | inr free ↦ elim (Result-cases (secret_of C S args host cmd ring)) [
          | inr (x, q) ↦ absurd (ground (arith, free, q, h))
          | inl ((s, r), q) ↦
              let (p, w, same) =
                after_write-written cmd s r (write_identity C args host cmd.name s d) (e, ring')
                  (ground (arith, free, q, h)) in
              (
                s,
                record {
                  is_secret = ground (arith, q, same);
                  path = p;
                  written = w;
                  allowed =
                      may_write cmd.overwrite (is_ok (read_identity C args host cmd.name d)) free;
                },
              )
        ]
      ]

  module _ (is_local : args.global ≡ false) (home : FilePath)
      (has_home : config_home host ≡ ok home)
      (readable : (p : FilePath) → host.unreadable p ≡ false) (law : ReadsBack C.key_toml) where
    -- After an identity is generated with success in the local configuration, the secret that the
    -- arguments ask for is the identity read under the name, and no identity was read under it
    -- before, or overwriting was asked for; on a disk where every path stands in a directory, with
    -- readable files, a name that is one file name and keys whose text is read back.
    pub read_identity-generate :
        (cmd : Cmd)
        → IsFileName cmd.name
        → (before after : World C S args host) → IsTree before.0
        → generate C S args host cmd before ≡ (ok tt, after)
        → (s : Secret) × (secret_of C S args host cmd before.1 ≡ ok (s, after.1))
          × (read_identity C args host cmd.name after.0 ≡ ok (secret s))
          × ((cmd.overwrite ≡ true) ⊎ (is_ok (read_identity C args host cmd.name before.0) ≡ false))
    read_identity-generate cmd plain before after tree h =
        let (s, w) = generate-Written cmd before after h in
        (
          s,
          w.is_secret,
          (read_identity-write_identity C args is_local host home has_home readable law cmd.name
              plain s before.0 tree after.0 w.path w.written).0,
          w.allowed,
        )
