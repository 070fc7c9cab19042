-- ===== src/TxNew/Examples.antt =====
-- Arguments with flags, and the laws at them.
use soroban_tools.Prelude.{ℕ, ◌≡◌, refl, ◌+◌, ◌*◌, true, false, none, some}
use soroban_tools.Prelude.Result.{Result, ok}
use soroban_tools.TxNew.{
  TrustlineArgs, SetTrustLineFlagsOp, set_trustline_flags, OptionsArgs, SetOptionsOp, set_options,
}
use soroban_tools.TxNew.Flags.{set_trustline_flags_sums, bit}

abbrev resolve : ℕ → Result {0, 0} Unit ℕ
resolve n = ok n

abbrev trustline_args : TrustlineArgs ℕ ℕ
trustline_args = record {
  trustor = 1;
  asset = 2;
  set_authorize = true;
  set_authorize_to_maintain_liabilities = false;
  set_trustline_clawback_enabled = true;
  clear_authorize = false;
  clear_authorize_to_maintain_liabilities = true;
  clear_trustline_clawback_enabled = false;
}

abbrev trustline_op : SetTrustLineFlagsOp ℕ ℕ
trustline_op = record { trustor = 1; asset = 2; clear_flags = 2; set_flags = 5 }

trustline_builds : set_trustline_flags resolve resolve trustline_args ≡ ok trustline_op
unfolding set_trustline_flags
trustline_builds = refl

set_trustline_flags_sums_example :
    (trustline_op.set_flags ≡ bit true + 2 * bit false + 4 * bit true)
    × (trustline_op.clear_flags ≡ bit false + 2 * bit true + 4 * bit false)
set_trustline_flags_sums_example =
    set_trustline_flags_sums resolve resolve trustline_args trustline_builds

abbrev options_args : OptionsArgs ℕ ℕ ℕ
options_args = record {
  inflation_dest = some 3;
  master_weight = none;
  low_threshold = none;
  med_threshold = some 2;
  high_threshold = none;
  home_domain = none;
  signer = some 8;
  signer_weight = some 1;
  set_required = true;
  set_revocable = true;
  set_clawback_enabled = true;
  set_immutable = false;
  clear_required = false;
  clear_revocable = false;
  clear_immutable = false;
  clear_clawback_enabled = false;
}

abbrev options_op : SetOptionsOp ℕ ℕ ℕ
options_op = record {
  inflation_dest = some 3;
  clear_flags = none;
  set_flags = some 11;
  master_weight = none;
  low_threshold = none;
  med_threshold = some 2;
  high_threshold = none;
  home_domain = none;
  signer = some (8, 1);
}

options_build : set_options resolve options_args ≡ ok options_op
unfolding set_options
options_build = refl
