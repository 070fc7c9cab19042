-- ===== src/Upgrade/Examples.antt =====
-- Versions as numbers, with the odd ones prereleases, and the laws at a week of runs.
use soroban_tools.Prelude.{ℕ, ◌%◌, ◌≡◌, refl, true, false, Option, none, some, ltb, ◌==◌, arith}
use soroban_tools.Upgrade.{SemVer, UpgradeCheck, Crate, Surroundings, upgrade_check}
use soroban_tools.Upgrade.Offers.{upgrade_check_daily}

abbrev numbers : SemVer
numbers = record {
  Version = ℕ;
  is_release = λ v. v % 2 == 0;
  newer = λ a b. ltb b a;
  zero_version = 0;
}

abbrev published : Crate numbers
published = record { max_stable_version = 8; max_version = 9 }

abbrev found : UpgradeCheck numbers
found = record { latest_check_time = 100000; max_stable_version = 8; max_version = 9 }

abbrev first_run : Surroundings numbers
first_run = record {
  is_terminal = true;
  no_update_check = false;
  loaded = none;
  now = 100000;
  crate_info = some published;
  current_version = 4;
}

abbrev second_run : Surroundings numbers
second_run = record first_run { loaded = some found; now = 150000 }

first_run_saves : (upgrade_check numbers first_run).saved ≡ some found
unfolding upgrade_check
first_run_saves = refl

first_run_offers : (upgrade_check numbers first_run).offered ≡ some 8
unfolding upgrade_check
first_run_offers = refl

upgrade_check_daily_example : (upgrade_check numbers second_run).fetched ≡ false
upgrade_check_daily_example =
    upgrade_check_daily numbers first_run second_run found first_run_saves refl (omega arith)

found_release : (c : Crate numbers) → some published ≡ some c → c.max_stable_version % 2 == 0 ≡ true
found_release c h = ground (arith, h)

nothing_loaded :
    (stats : UpgradeCheck numbers)
    → ◌≡◌ {A = Option (UpgradeCheck numbers)} none (some stats)
    → (stats.max_stable_version % 2 == 0) ≡ true
nothing_loaded stats h = cc
