-- ===== src/TxNew/Flags.antt =====
-- The flags of an operation as sums: each argument contributes its own bit.
use Prim.Native.Nat.{bit_and}
use soroban_tools.Prelude.{
  ℕ, ◌+◌, ◌*◌, ◌≡◌, sym, ap, ◌∙◌, inl, inr, Bool, true, false, ◌&&◌, ◌||◌, Option, none, some,
  if◌then◌else◌, arith,
}
use soroban_tools.Prelude.Result.{ok_eq, not_ok, Result, Result-cases, ok}
use soroban_tools.TxNew.{
  TrustlineArgs, SetTrustLineFlagsOp, OptionsArgs, SetOptionsOp, set_trustline_flags, set_options,
  or_flag, account_flags, resolve_dest,
}

abbrev pub bit : Bool → ℕ
bit true = 1
bit false = 0

trustline_sum :
    (a b c : Bool) → or_flag c 4 (or_flag b 2 (or_flag a 1 0)) ≡ bit a + 2 * bit b + 4 * bit c
trustline_sum a b c = ground arith

-- The sum of the flags that are given, if there are any.
abbrev pub account_sum : Bool → Bool → Bool → Bool → Option ℕ
account_sum a b c d =
    if a || (b || (c || d)) then some (bit a + 2 * bit b + 4 * bit c + 8 * bit d) else none

account_flags_sum : (a b c d : Bool) → account_flags a b c d ≡ account_sum a b c d
account_flags_sum a b c d = ground arith

disjoint_sums :
    (a b c d e f : Bool)
    → (a && d) ≡ false
    → (b && e) ≡ false
    → (c && f) ≡ false
    → bit_and (bit a + 2 * bit b + 4 * bit c) (bit d + 2 * bit e + 4 * bit f) ≡ 0
disjoint_sums a b c d e f h k l = ground arith

module _ {Account Asset AccountId XdrAsset Error : Type 0}
    (resolve_account_id : Account → Result Error AccountId)
    (resolve_asset : Asset → Result Error XdrAsset) where
  -- The trustline operation that is built sets the sum of the flags that are to be set, and clears
  -- the sum of those that are to be cleared.
  pub set_trustline_flags_sums :
      (args : TrustlineArgs Account Asset) {op : SetTrustLineFlagsOp AccountId XdrAsset}
      → set_trustline_flags resolve_account_id resolve_asset args ≡ ok op
      → (op.set_flags
          ≡ bit args.set_authorize
            + 2 * bit args.set_authorize_to_maintain_liabilities
            + 4 * bit args.set_trustline_clawback_enabled)
        × (op.clear_flags
            ≡ bit args.clear_authorize
              + 2 * bit args.clear_authorize_to_maintain_liabilities
              + 4 * bit args.clear_trustline_clawback_enabled)
  unfolding set_trustline_flags
  set_trustline_flags_sums args h = elim (Result-cases (resolve_account_id args.trustor)) [
    | inr n ↦ absurd (not_ok (rw (n.1) at h))
    | inl t ↦ elim (Result-cases (resolve_asset args.asset)) [
      | inr n ↦ absurd (not_ok (rw (t.1, n.1) at h))
      | inl a ↦
          let e = ok_eq (rw (t.1, a.1) at h) in
          (
            ap (λ (op : SetTrustLineFlagsOp AccountId XdrAsset). op.set_flags) (sym e)
                ∙ trustline_sum args.set_authorize args.set_authorize_to_maintain_liabilities
                    args.set_trustline_clawback_enabled,
            ap (λ (op : SetTrustLineFlagsOp AccountId XdrAsset). op.clear_flags) (sym e)
                ∙ trustline_sum args.clear_authorize args.clear_authorize_to_maintain_liabilities
                    args.clear_trustline_clawback_enabled,
          )
    ]
  ]

  -- Where no flag is asked to be set and to be cleared, which the conflicts of the arguments rule
  -- out, the operation that is built has no flag in both.
  pub set_trustline_flags_disjoint :
      (args : TrustlineArgs Account Asset) {op : SetTrustLineFlagsOp AccountId XdrAsset}
      → (args.set_authorize && args.clear_authorize) ≡ false
      → (args.set_authorize_to_maintain_liabilities && args.clear_authorize_to_maintain_liabilities)
        ≡ false
      → (args.set_trustline_clawback_enabled && args.clear_trustline_clawback_enabled) ≡ false
      → set_trustline_flags resolve_account_id resolve_asset args ≡ ok op
      → bit_and op.set_flags op.clear_flags ≡ 0
  set_trustline_flags_disjoint args h k l e =
      let s = set_trustline_flags_sums args e in
      rw (s.0, s.1)
        (disjoint_sums args.set_authorize args.set_authorize_to_maintain_liabilities
          args.set_trustline_clawback_enabled args.clear_authorize
          args.clear_authorize_to_maintain_liabilities args.clear_trustline_clawback_enabled h k l)

module _ {Account Domain Key AccountId Error : Type 0}
    (resolve_account_id : Account → Result Error AccountId) where
  dest : OptionsArgs Account Domain Key → Result Error (Option AccountId)
  dest args = resolve_dest resolve_account_id args.inflation_dest

  -- The options operation that is built sets and clears the sums of the flags that are asked for,
  -- and leaves the field away where none is.
  pub set_options_sums :
      (args : OptionsArgs Account Domain Key) {op : SetOptionsOp AccountId Domain Key}
      → set_options resolve_account_id args ≡ ok op
      → (op.set_flags
          ≡ account_sum args.set_required args.set_revocable args.set_immutable
              args.set_clawback_enabled)
        × (op.clear_flags
            ≡ account_sum args.clear_required args.clear_revocable args.clear_immutable
                args.clear_clawback_enabled)
  unfolding set_options dest
  set_options_sums args h = elim (Result-cases (dest args)) [
    | inr n ↦ absurd (not_ok (rw (n.1) at h))
    | inl d ↦
        let e = ok_eq (rw (d.1) at h) in
        (
          ap (λ (op : SetOptionsOp AccountId Domain Key). op.set_flags) (sym e)
              ∙ account_flags_sum args.set_required args.set_revocable args.set_immutable
                  args.set_clawback_enabled,
          ap (λ (op : SetOptionsOp AccountId Domain Key). op.clear_flags) (sym e)
              ∙ account_flags_sum args.clear_required args.clear_revocable args.clear_immutable
                  args.clear_clawback_enabled,
        )
  ]
