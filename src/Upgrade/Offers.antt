-- ===== src/Upgrade/Offers.antt =====
-- How often is looked, and what is offered.
use soroban_tools.Prelude.{
  ◌+◌, ◌<◌, ◌≡◌, refl, true, false, Option, none, some, arith, inl, inr, Option-cases,
}
use soroban_tools.Upgrade.{
  minimum_check_interval, SemVer, UpgradeCheck, Crate, Surroundings, get_latest_version, updated,
  offer, run_check, upgrade_check, loaded_or_default,
}

module _ (V : SemVer) where
  -- After a run that fetched, whether the fetch failed or not, a run that loads what that one saved
  -- does not fetch before a day is over.
  pub upgrade_check_daily :
      (env later : Surroundings V) (stats : UpgradeCheck V)
      → (upgrade_check V env).saved ≡ some stats
      → later.loaded ≡ some stats
      → later.now < env.now + minimum_check_interval
      → (upgrade_check V later).fetched ≡ false
  unfolding upgrade_check run_check updated
  upgrade_check_daily env later stats h k l = ground arith

  -- What is offered is newer than the version that runs.
  pub offered_newer :
      (env : Surroundings V) (v : V.Version)
      → (upgrade_check V env).offered ≡ some v
      → V.newer v env.current_version ≡ true
  unfolding upgrade_check run_check offer
  offered_newer env v h = ground arith

  offered_stable :
      (env : Surroundings V) (v : V.Version) (stats : UpgradeCheck V)
      → V.is_release env.current_version ≡ true
      → V.is_release stats.max_stable_version ≡ true
      → ((c : Crate V) → env.crate_info ≡ some c → V.is_release c.max_stable_version ≡ true)
      → (run_check V env stats).offered ≡ some v
      → V.is_release v ≡ true
  unfolding run_check offer get_latest_version updated
  offered_stable env v stats r s c h = elim (Option-cases env.crate_info) [
    | inl n ↦ ground arith
    | inr i ↦ let k = c i.0 i.1 in ground arith
  ]

  loaded_stable :
      (o : Option (UpgradeCheck V))
      → ((stats : UpgradeCheck V) → o ≡ some stats → V.is_release stats.max_stable_version ≡ true)
      → V.is_release V.zero_version ≡ true
      → V.is_release (loaded_or_default V o).max_stable_version ≡ true
  loaded_stable none h z = z
  loaded_stable (some stats) h z = h stats refl

  -- A release is never offered a prerelease: the newest stable version of what is loaded and of
  -- what is fetched is taken to be a release, as is 0.0.0.
  pub offered_release :
      (env : Surroundings V) (v : V.Version)
      → V.is_release env.current_version ≡ true
      → ((stats : UpgradeCheck V)
          → env.loaded ≡ some stats
          → V.is_release stats.max_stable_version ≡ true)
      → ((c : Crate V) → env.crate_info ≡ some c → V.is_release c.max_stable_version ≡ true)
      → V.is_release V.zero_version ≡ true
      → (upgrade_check V env).offered ≡ some v
      → V.is_release v ≡ true
  unfolding upgrade_check
  offered_release env v r s c z h =
      let k =
        offered_stable env v (loaded_or_default V env.loaded) r (loaded_stable env.loaded s z) c in
      ground (arith, k)
