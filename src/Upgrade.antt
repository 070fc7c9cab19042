-- ===== src/Upgrade.antt =====
-- cmd/soroban-cli/src/upgrade_check.rs and the state of config/upgrade_check.rs: when a newer release
-- is looked for and offered. Reading, writing and fetching are what the surroundings answer.
mod Offers
mod Examples
use soroban_tools.Prelude.{
  ℕ, ◌+◌, ◌*◌, Bool, true, false, not, Option, none, some, leb, if◌then◌else◌,
}

-- `MINIMUM_CHECK_INTERVAL`, in seconds.
abbrev pub minimum_check_interval : ℕ
minimum_check_interval = 60 * 60 * 24

-- `semver::Version`: whether there is no prerelease part, `>`, and the version 0.0.0.
pub record SemVer : Type 1 where
  pub Version : Type 0
  pub is_release : Version → Bool
  pub newer : Version → Version → Bool
  pub zero_version : Version

module _ (V : SemVer) where
  -- Times are seconds from the epoch.
  pub record UpgradeCheck : Type 0 where
    pub latest_check_time : ℕ
    pub max_stable_version : V.Version
    pub max_version : V.Version

  -- `UpgradeCheck::default`
  abbrev pub default_check : UpgradeCheck
  default_check = record {
    latest_check_time = 0;
    max_stable_version = V.zero_version;
    max_version = V.zero_version;
  }

  pub record Crate : Type 0 where
    pub max_stable_version : V.Version
    pub max_version : V.Version

  -- What a run finds: `none` is a failed `load` or a failed fetch.
  pub record Surroundings : Type 0 where
    pub is_terminal : Bool
    pub no_update_check : Bool
    pub loaded : Option UpgradeCheck
    pub now : ℕ
    pub crate_info : Option Crate
    pub current_version : V.Version

  -- What a run does: whether it fetches, what it saves and what it offers. Whether the saving
  -- succeeds is only logged, and `quiet` mutes the printing of the offer.
  pub record Outcome : Type 0 where
    pub fetched : Bool
    pub saved : Option UpgradeCheck
    pub offered : Option V.Version

  pub get_latest_version : V.Version → UpgradeCheck → V.Version
  get_latest_version current_version stats =
      if V.is_release current_version
      then stats.max_stable_version
      else if V.newer stats.max_stable_version current_version
      then stats.max_stable_version
      else stats.max_version

  -- `UpgradeCheck::load().unwrap_or_else(…)`
  abbrev pub loaded_or_default : Option UpgradeCheck → UpgradeCheck
  loaded_or_default none = default_check
  loaded_or_default (some stats) = stats

  pub updated : ℕ → Option Crate → UpgradeCheck → UpgradeCheck
  updated now none stats = record stats { latest_check_time = now }
  updated now (some c) stats = record {
    latest_check_time = now;
    max_stable_version = c.max_stable_version;
    max_version = c.max_version;
  }

  -- `now - MINIMUM_CHECK_INTERVAL >= stats.latest_check_time`
  abbrev pub is_due : ℕ → UpgradeCheck → Bool
  is_due now stats = leb (stats.latest_check_time + minimum_check_interval) now

  offer : V.Version → UpgradeCheck → Option V.Version
  offer current_version stats =
      let latest_version = get_latest_version current_version stats in
      if V.newer latest_version current_version then some latest_version else none

  run_check : Surroundings → UpgradeCheck → Outcome
  run_check env stats =
      if is_due env.now stats
      then (let stats' = updated env.now env.crate_info stats in
          record {
            fetched = true;
            saved = some stats';
            offered = offer env.current_version stats';
          })
      else (record { fetched = false; saved = none; offered = offer env.current_version stats })

  pub upgrade_check : Surroundings → Outcome
  unfolding run_check offer get_latest_version updated
  upgrade_check env =
      if not env.is_terminal
      then (record { fetched = false; saved = none; offered = none })
      else if env.no_update_check
      then (record { fetched = false; saved = none; offered = none })
      else run_check env (loaded_or_default env.loaded)
