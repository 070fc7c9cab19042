-- ===== src/Commands/Restore.antt =====
-- cmd/soroban-cli/src/commands/contract/restore.rs: what the response to a restoration says of the ledger
-- that the entry lives until, beside what extend.rs reads from such a response.
use soroban_tools.Prelude.{
  ℕ, Option, none, some, List, [], ◌∷◌, ◌++◌, ◌≡◌, ◌↔◌, arith, refl, ap, All,
}
use mathlib.Core.Path.{subst}
use soroban_tools.Prelude.Result.{Result, ok, err}
use soroban_tools.Commands.Extend.{
  LedgerEntryChange, state, updated_ttl, created_ttl, other_change, TransactionMeta, v3, other_meta,
}

pub data RestoreError : Type 0 where
  ledger_entry_not_found : RestoreError
  missing_operation_result : RestoreError

-- The arms of the match in `parse_operations`.
abbrev pub live_until : LedgerEntryChange → Option ℕ
live_until (updated_ttl n) = some n
live_until (created_ttl n) = some n
live_until state = none
live_until other_change = none

abbrev or_later : Option ℕ → Option ℕ → Option ℕ
or_later (some n) later = some n
or_later none later = later

-- `find_map`
unfoldable pub first_live_until : List LedgerEntryChange → Option ℕ
first_live_until [] = none
first_live_until (c ∷ changes) = or_later (live_until c) (first_live_until changes)

unfoldable pub parse_operations : List (List LedgerEntryChange) → Option ℕ
unfolding first_live_until
parse_operations [] = none
parse_operations (changes ∷ rest) = first_live_until changes

abbrev ok_or : RestoreError → Option ℕ → Result RestoreError ℕ
ok_or e none = err e
ok_or e (some a) = ok a

abbrev restored_operations : List (List LedgerEntryChange) → Result RestoreError ℕ
restored_operations [] = err ledger_entry_not_found
restored_operations (changes ∷ rest) =
    ok_or missing_operation_result (parse_operations (changes ∷ rest))

-- The end of `run_against_rpc_server`.
unfoldable pub restored_until : Option TransactionMeta → Result RestoreError ℕ
unfolding parse_operations
restored_until none = err missing_operation_result
restored_until (some other_meta) = err ledger_entry_not_found
restored_until (some (v3 operations)) = restored_operations operations

-- The changes that have a ledger.
pub data HasLiveUntil (n : ℕ) : LedgerEntryChange → Type 0 where
  updated : HasLiveUntil n (updated_ttl n)
  created : HasLiveUntil n (created_ttl n)

abbrev pub HasNone : LedgerEntryChange → Type 0
HasNone c = (n : ℕ) → ¬ HasLiveUntil n c

-- A response whose first operation has a ledger, with none in a change before it.
pub record FirstLiveUntil (n : ℕ) (m : Option TransactionMeta) : Type 0 where
  pub before : List LedgerEntryChange
  pub change : LedgerEntryChange
  pub after : List LedgerEntryChange
  pub rest : List (List LedgerEntryChange)
  pub response : m ≡ some (v3 ((before ++ change ∷ after) ∷ rest))
  pub is_first : All HasNone before
  pub live_until_is : HasLiveUntil n change

ok_or-some : (o : Option ℕ) (n : ℕ) → ok_or missing_operation_result o ≡ ok n → o ≡ some n
ok_or-some none n h = absurd (ground (arith, h))
ok_or-some (some m) n h = ground (arith, h)

state-HasNone : HasNone state
state-HasNone n h = elim h [ ]

other_change-HasNone : HasNone other_change
other_change-HasNone n h = elim h [ ]

-- A change without a ledger stands before the others.
after_change :
    (n : ℕ) (c : LedgerEntryChange) (changes : List LedgerEntryChange)
    (rest : List (List LedgerEntryChange))
    → HasNone c
    → FirstLiveUntil n (some (v3 (changes ∷ rest)))
    → FirstLiveUntil n (some (v3 ((c ∷ changes) ∷ rest)))
after_change n c changes rest none_here f = record {
  before = c ∷ f.before;
  change = f.change;
  after = f.after;
  rest = f.rest;
  response = ground (arith, f.response);
  is_first = (none_here, f.is_first);
  live_until_is = f.live_until_is;
}

at_once :
    (n : ℕ) (c : LedgerEntryChange) (changes : List LedgerEntryChange)
    (rest : List (List LedgerEntryChange))
    → HasLiveUntil n c
    → FirstLiveUntil n (some (v3 ((c ∷ changes) ∷ rest)))
at_once n c changes rest h = record {
  before = [];
  change = c;
  after = changes;
  rest = rest;
  response = refl;
  is_first = tt;
  live_until_is = h;
}

changes-FirstLiveUntil :
    (n : ℕ) (changes : List LedgerEntryChange) (rest : List (List LedgerEntryChange))
    → first_live_until changes ≡ some n
    → FirstLiveUntil n (some (v3 (changes ∷ rest)))
unfolding first_live_until
changes-FirstLiveUntil n [] rest h = absurd (ground (arith, h))
changes-FirstLiveUntil n (updated_ttl k ∷ changes) rest h =
    at_once n (updated_ttl k) changes rest
      (subst (λ (i : ℕ). HasLiveUntil n (updated_ttl i)) (ground (arith, h)) updated)
changes-FirstLiveUntil n (created_ttl k ∷ changes) rest h =
    at_once n (created_ttl k) changes rest
      (subst (λ (i : ℕ). HasLiveUntil n (created_ttl i)) (ground (arith, h)) created)
changes-FirstLiveUntil n (state ∷ changes) rest h =
    after_change n state changes rest state-HasNone (changes-FirstLiveUntil n changes rest h)
changes-FirstLiveUntil n (other_change ∷ changes) rest h =
    after_change n other_change changes rest other_change-HasNone
      (changes-FirstLiveUntil n changes rest h)

live_until-HasLiveUntil : {n : ℕ} {c : LedgerEntryChange} → HasLiveUntil n c → live_until c ≡ some n
live_until-HasLiveUntil updated = refl
live_until-HasLiveUntil created = refl

first_live_until-append :
    (n : ℕ) (before : List LedgerEntryChange) (c : LedgerEntryChange)
    (after : List LedgerEntryChange)
    → All HasNone before
    → HasLiveUntil n c
    → first_live_until (before ++ c ∷ after) ≡ some n
unfolding first_live_until
first_live_until-append n [] c after a h =
    ap (λ (o : Option ℕ). or_later o (first_live_until after)) (live_until-HasLiveUntil h)
first_live_until-append n (updated_ttl k ∷ before) c after a h = absurd (a.0 k updated)
first_live_until-append n (created_ttl k ∷ before) c after a h = absurd (a.0 k created)
first_live_until-append n (state ∷ before) c after a h =
    first_live_until-append n before c after a.1 h
first_live_until-append n (other_change ∷ before) c after a h =
    first_live_until-append n before c after a.1 h

reads-FirstLiveUntil :
    (m : Option TransactionMeta) (n : ℕ) → restored_until m ≡ ok n → FirstLiveUntil n m
unfolding restored_until
reads-FirstLiveUntil none n h = absurd (ground (arith, h))
reads-FirstLiveUntil (some other_meta) n h = absurd (ground (arith, h))
reads-FirstLiveUntil (some (v3 [])) n h = absurd (ground (arith, h))
reads-FirstLiveUntil (some (v3 (changes ∷ rest))) n h =
    changes-FirstLiveUntil n changes rest (ok_or-some (first_live_until changes) n h)

FirstLiveUntil-reads :
    (m : Option TransactionMeta) (n : ℕ) → FirstLiveUntil n m → restored_until m ≡ ok n
unfolding restored_until
FirstLiveUntil-reads m n f = rw f.response (
    ap (ok_or missing_operation_result)
      (first_live_until-append n f.before f.change f.after f.is_first f.live_until_is))

-- The reading of the response to a restoration gives a ledger exactly when the response has a
-- first operation in which a change creates or updates a time to live with that ledger, and no
-- change before it creates or updates one.
pub restored_until_iff :
    (m : Option TransactionMeta) (n : ℕ) → (restored_until m ≡ ok n) ↔ FirstLiveUntil n m
restored_until_iff m n = (reads-FirstLiveUntil m n, FirstLiveUntil-reads m n)
