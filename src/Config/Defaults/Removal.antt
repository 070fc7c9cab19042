-- ===== src/Config/Defaults/Removal.antt =====
-- What removing an identity and writing the defaults leave behind.
use soroban_tools.Prelude.{
  String, true, false, Option, none, some, [], ◌∷◌, ◌≡◌, ◌≢◌, arith, refl, sym, ap, ◌∙◌, Bool-cases,
  inl, inr,
}
use soroban_tools.Prelude.Result.{Result, ok, err}
use soroban_tools.Config.Paths.{FilePath, path_eq_refl}
use soroban_tools.Config.Disk.{
  Host, Disk, node, exists, is_dir, open_truncated, remove_file, node-erase,
}
use soroban_tools.Config.Disk.Growth.{IsTree}
use soroban_tools.Config.Errors.{Error, io, Format}
use soroban_tools.Config.Secrets.{secure_store, secret_key, seed_phrase}
use soroban_tools.Config.Keys.{Key, secret, public_key, muxed_account}
use soroban_tools.Config.Directories.{Args, config_dir, config_file, global_config_path}
use soroban_tools.Config.KeyTypes.{KeyType, identity, path}
use soroban_tools.Config.Locator.{Crates, read_identity}
use soroban_tools.Config.Writes.{remove_key_type}
use soroban_tools.Config.Defaults.{
  Config, new_config, save_config, write_default_network, Deleted, deleted, no_entry, failed,
  remove_identity, remove_read, after_deletion, remove_entry, remove_identity_file,
}

-- Where there is no global configuration directory, write_default_network fails and leaves the
-- disk as it was.
pub write_default_network_no_directory :
    (host : Host) (format : Format Config) (name : String) (d : Disk)
    → IsTree d
    → (above : FilePath) → global_config_path host d ≡ ok above
    → exists above d ≡ false
    → (text : String) → format.print (record { network = some name; identity = none }) ≡ some text
    → write_default_network host format name d ≡ (err io, d)
unfolding write_default_network new_config save_config config_file open_truncated exists is_dir
write_default_network_no_directory host format name d tree above q missing text printed =
    ground (arith, q, missing, printed, tree "config.toml" above)

module _ (host : Host) where
  removed_file :
      (p : FilePath) (d : Disk)
      → (remove_file host p d).0 ≡ true
      → exists p ((remove_file host p d).1) ≡ false
  unfolding remove_file exists node
  removed_file [] d h = absurd (cc)
  removed_file (s ∷ p) d h = ground (arith, node-erase s p (s ∷ p) d, path_eq_refl (s ∷ p))

  remove_key_type-gone :
      (kt : KeyType) (key : String) (pwd : FilePath) (d e : Disk)
      → remove_key_type host kt key pwd d ≡ (ok tt, e)
      → exists (path kt pwd key) e ≡ false
  unfolding remove_key_type
  remove_key_type-gone kt key pwd d e h =
      let p = path kt pwd key in
      elim (Bool-cases (exists p d)) [
        | inr q ↦ ground (arith, q, h)
        | inl q ↦ elim (Bool-cases ((remove_file host p d).0)) [
          | inr r ↦ absurd (ground (arith, q, r, h))
          | inl r ↦ ground (arith, q, r, h, removed_file p d r)
        ]
      ]

  remove_key_type-missing :
      (kt : KeyType) (key : String) (pwd : FilePath) (d e : Disk)
      → exists (path kt pwd key) d ≡ false
      → remove_key_type host kt key pwd d ≡ (ok tt, e)
      → d ≡ e
  unfolding remove_key_type
  remove_key_type-missing kt key pwd d e missing h = ground (arith, missing, h)

module _ (C : Crates) (args : Args) (host : Host) {Ring : Type 0}
    (delete_credential : C.keys.Entry → Ring → Deleted × Ring) where
  -- What becomes of the secure store: the entry of a key that is there was deleted, or was
  -- missing, and for any other key nothing was done.
  abbrev pub Forgotten : Key C.keys → Ring → Ring → Type 0
  Forgotten (secret (secure_store entry_name)) ring after =
      (entry : C.keys.Entry) × (o : Deleted) × (C.keys.keyring_entry entry_name ≡ some entry)
      × (delete_credential entry ring ≡ (o, after))
      × (o ≢ failed)
  Forgotten (secret (secret_key s)) ring after = after ≡ ring
  Forgotten (secret (seed_phrase s)) ring after = after ≡ ring
  Forgotten (public_key k) ring after = after ≡ ring
  Forgotten (muxed_account k id) ring after = after ≡ ring

  module _ (name : String) (d e : Disk) (after : Ring) (above : FilePath)
      (q : config_dir args host d ≡ ok above) where
    -- The file is gone, and where it was missing the disk is as it was.
    abbrev FileGone : Type 0
    FileGone =
        (exists (path identity above name) e ≡ false)
        × (exists (path identity above name) d ≡ false → d ≡ e)

    file_gone :
        (r : Ring)
        → remove_identity_file C args host delete_credential name (d, r) ≡ (ok tt, (e, after))
        → (after ≡ r) × FileGone
    file_gone r h =
        let h1 = rw q at h in
        let removed : (remove_key_type host identity name above d ≡ (ok tt, e)) =
          ground (arith, h1) in
        (
          ground (arith, h1),
          (
            remove_key_type-gone host identity name above d e removed,
            λ missing. remove_key_type-missing host identity name above d e missing removed,
          ),
        )

    deletion_gone :
        (r : Deleted × Ring)
        → after_deletion C args host delete_credential name d r ≡ (ok tt, (e, after))
        → (r.1 ≡ after) × (r.0 ≢ failed) × FileGone
    deletion_gone (deleted, r) h =
        let (same, gone) = file_gone r h in (sym same, (λ x. absurd (ground (arith, x))), gone)
    deletion_gone (no_entry, r) h =
        let (same, gone) = file_gone r h in (sym same, (λ x. absurd (ground (arith, x))), gone)
    deletion_gone (failed, r) h = absurd (ground (arith, h))

    entry_gone :
        (entry_name : String) (ring : Ring) (o : Option C.keys.Entry)
        → C.keys.keyring_entry entry_name ≡ o
        → remove_entry C args host delete_credential name (d, ring) o ≡ (ok tt, (e, after))
        → Forgotten (secret (secure_store entry_name)) ring after × FileGone
    entry_gone entry_name ring none found h = absurd (ground (arith, h))
    entry_gone entry_name ring (some entry) found h =
        let r = delete_credential entry ring in
        let (same, works, gone) = deletion_gone r h in
        ((entry, r.0, found, ap (λ (x : Ring). (r.0, x)) same, works), gone)

    read_gone :
        (ring : Ring) (r : Result Error (Key C.keys))
        → remove_read C args host delete_credential name (d, ring) r ≡ (ok tt, (e, after))
        → (k : Key C.keys) × (r ≡ ok k) × Forgotten k ring after × FileGone
    read_gone ring (err x) h = absurd (ground (arith, h))
    read_gone ring (ok (secret (secure_store n))) h =
        let (forgotten, gone) = entry_gone n ring (C.keys.keyring_entry n) refl h in
        (secret (secure_store n), refl, forgotten, gone)
    read_gone ring (ok (secret (secret_key s))) h =
        let (same, gone) = file_gone ring h in (secret (secret_key s), refl, same, gone)
    read_gone ring (ok (secret (seed_phrase s))) h =
        let (same, gone) = file_gone ring h in (secret (seed_phrase s), refl, same, gone)
    read_gone ring (ok (public_key k)) h =
        let (same, gone) = file_gone ring h in (public_key k, refl, same, gone)
    read_gone ring (ok (muxed_account k id)) h =
        let (same, gone) = file_gone ring h in (muxed_account k id, refl, same, gone)

  -- When remove_identity succeeds, the identity was read before; the entry of the secure store
  -- that it names was deleted or was missing there, and for any other key the store is as it was;
  -- no file of the name is left in the configuration directory of the arguments; and where there
  -- was none before, the identity is still read after.
  pub remove_identity-Forgotten :
      (name : String) (d e : Disk) (ring after : Ring) (above : FilePath)
      → config_dir args host d ≡ ok above
      → remove_identity C args host delete_credential name (d, ring) ≡ (ok tt, (e, after))
      → (k : Key C.keys) × (read_identity C args host name d ≡ ok k)
        × Forgotten k ring after
        × (exists (path identity above name) e ≡ false)
        × (exists (path identity above name) d ≡ false → read_identity C args host name e ≡ ok k)
  unfolding remove_identity
  remove_identity-Forgotten name d e ring after above q h =
      let (k, read, forgotten, (gone, missing)) =
        read_gone name d e after above q ring (read_identity C args host name d) h in
      (k, read, forgotten, gone, λ m. sym (ap (read_identity C args host name) (missing m)) ∙ read)
