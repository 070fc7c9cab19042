-- ===== src/Commands/Extend.antt =====
-- cmd/soroban-cli/src/commands/contract/extend.rs: the ledgers asked for, and what the response says of
-- the ledger that the entry lives until.
use soroban_tools.Prelude.{
  ℕ, String, ◌+◌, ◌≤◌, Option, none, some, List, [], ◌∷◌, ltb, min, if◌then◌else◌, ◌≡◌, ◌≢◌, ◌↔◌,
  arith, refl, sym, inl, inr,
}
use mathlib.Core.Path.{subst}
use soroban_tools.Prelude.Result.{Result, ok, err, ◌>>=◌, map_err, Result-cases}

-- An index out of range is `panic`; what the server answers with an error is one text.
pub data ExtendError : Type 0 where
  rpc : String → ExtendError
  missing_operation_result : ExtendError
  ledger_entry_not_found : ExtendError
  panic : ExtendError

abbrev pub max_ledgers_to_extend : ℕ
max_ledgers_to_extend = 535679

-- `ledgers_to_extend`
unfoldable pub ledgers_to_extend : ℕ → ℕ
ledgers_to_extend asked = min asked max_ledgers_to_extend

-- `LedgerEntryChange`, by what is taken apart.
pub data LedgerEntryChange : Type 0 where
  state : LedgerEntryChange
  updated_ttl : ℕ → LedgerEntryChange
  created_ttl : ℕ → LedgerEntryChange
  other_change : LedgerEntryChange

-- `result_meta`, by the changes of each operation of version 3.
pub data TransactionMeta : Type 0 where
  v3 : List (List LedgerEntryChange) → TransactionMeta
  other_meta : TransactionMeta

-- The match on the first two changes.
abbrev pub ttl_of : List LedgerEntryChange → Result ExtendError ℕ
ttl_of [] = err panic
ttl_of (c ∷ []) = err panic
ttl_of (state ∷ (updated_ttl live_until ∷ rest)) = ok live_until
ttl_of (c ∷ (e ∷ rest)) = err ledger_entry_not_found

-- What is read of the answer to `get_full_ledger_entries`: the ledgers that its entries live until.
pub record FullLedgerEntries : Type 0 where
  pub entries : List ℕ
  pub latest_ledger : ℕ

module _ (extend_to : ℕ) where
  -- The comparison of `entries[0]`, and the changes that are read where it does not hold.
  abbrev pub ttl_of_entries : ℕ → List ℕ → List LedgerEntryChange → Result ExtendError ℕ
  ttl_of_entries latest_ledger [] changes = err panic
  ttl_of_entries latest_ledger (extension ∷ entries) changes =
      if ltb (latest_ledger + extend_to) extension then ok extension else ttl_of changes

  -- The answer of the server, which is asked where there are no changes.
  module _ (get_full_ledger_entries : Result String FullLedgerEntries) where
    abbrev pub ttl_of_changes : List LedgerEntryChange → Result ExtendError ℕ
    ttl_of_changes [] = do
      entry ← map_err rpc get_full_ledger_entries
      ttl_of_entries entry.latest_ledger entry.entries []
    ttl_of_changes (c ∷ changes) = ttl_of (c ∷ changes)

    abbrev pub ttl_of_operations : List (List LedgerEntryChange) → Result ExtendError ℕ
    ttl_of_operations [] = err ledger_entry_not_found
    ttl_of_operations (changes ∷ rest) = ttl_of_changes changes

    -- The end of `run_against_rpc_server`.
    unfoldable pub ttl_of_response : Option TransactionMeta → Result ExtendError ℕ
    ttl_of_response none = err missing_operation_result
    ttl_of_response (some other_meta) = err ledger_entry_not_found
    ttl_of_response (some (v3 operations)) = ttl_of_operations operations

  -- The answers of the server after which the changes, or the entries, are indexed out of range.
  pub data NoLonger : FullLedgerEntries → Type 0 where
    no_entry :
        (latest_ledger : ℕ) → NoLonger (record { entries = []; latest_ledger = latest_ledger })
    not_beyond :
        (latest_ledger extension : ℕ) (entries : List ℕ)
        → extension ≤ latest_ledger + extend_to
        → NoLonger (record { entries = extension ∷ entries; latest_ledger = latest_ledger })

  -- The responses, with the answers, that are indexed out of range.
  pub data Short : Result String FullLedgerEntries → Option TransactionMeta → Type 0 where
    unchanged :
        (entry : FullLedgerEntries) (rest : List (List LedgerEntryChange))
        → NoLonger entry
        → Short (ok entry) (some (v3 ([] ∷ rest)))
    one_change :
        (answer : Result String FullLedgerEntries) (c : LedgerEntryChange)
        (rest : List (List LedgerEntryChange))
        → Short answer (some (v3 ((c ∷ []) ∷ rest)))

  entries-NoLonger :
      (latest_ledger : ℕ) (entries : List ℕ)
      → ttl_of_entries latest_ledger entries [] ≡ err panic
      → NoLonger (record { entries = entries; latest_ledger = latest_ledger })
  entries-NoLonger l [] h = no_entry l
  entries-NoLonger l (x ∷ entries) h = not_beyond l x entries (ground (arith, h))

  NoLonger-entries :
      (entry : FullLedgerEntries)
      → NoLonger entry
      → ttl_of_entries entry.latest_ledger entry.entries [] ≡ err panic
  NoLonger-entries entry (no_entry l) = refl
  NoLonger-entries entry (not_beyond l x entries h) = ground (arith, h)

  changes-panics :
      (c e : LedgerEntryChange) (changes : List LedgerEntryChange)
      → ttl_of (c ∷ (e ∷ changes)) ≢ err panic
  changes-panics state (updated_ttl n) cs h = absurd (ground (arith, h))
  changes-panics state state cs h = absurd (ground (arith, h))
  changes-panics state (created_ttl n) cs h = absurd (ground (arith, h))
  changes-panics state other_change cs h = absurd (ground (arith, h))
  changes-panics (updated_ttl n) e cs h = absurd (ground (arith, h))
  changes-panics (created_ttl n) e cs h = absurd (ground (arith, h))
  changes-panics other_change e cs h = absurd (ground (arith, h))

  module _ (answer : Result String FullLedgerEntries) where
    panics-Short :
        (m : Option TransactionMeta) → ttl_of_response answer m ≡ err panic → Short answer m
    unfolding ttl_of_response
    panics-Short none h = absurd (ground (arith, h))
    panics-Short (some other_meta) h = absurd (ground (arith, h))
    panics-Short (some (v3 [])) h = absurd (ground (arith, h))
    panics-Short (some (v3 ([] ∷ rest))) h = elim (Result-cases answer) [
      | inl (entry, q) ↦
          subst (λ (r : Result String FullLedgerEntries). Short r (some (v3 ([] ∷ rest)))) (sym q)
            (unchanged entry rest
              (entries-NoLonger entry.latest_ledger entry.entries (ground (arith, q, h))))
      | inr (x, q) ↦ absurd (ground (arith, q, h))
    ]
    panics-Short (some (v3 ((c ∷ []) ∷ rest))) h = one_change answer c rest
    panics-Short (some (v3 ((c ∷ (e ∷ cs)) ∷ rest))) h = absurd (changes-panics c e cs h)

  Short-panics :
      (answer : Result String FullLedgerEntries) (m : Option TransactionMeta)
      → Short answer m
      → ttl_of_response answer m ≡ err panic
  unfolding ttl_of_response
  Short-panics answer m (unchanged entry rest h) = NoLonger-entries entry h
  Short-panics answer m (one_change a state rest) = refl
  Short-panics answer m (one_change a (updated_ttl n) rest) = refl
  Short-panics answer m (one_change a (created_ttl n) rest) = refl
  Short-panics answer m (one_change a other_change rest) = refl

  -- The reading of the response to an extension indexes out of range exactly when the first
  -- operation has one change, or has none and the server then answers with no entry, or with a
  -- first entry that does not live beyond the latest ledger and the number of ledgers asked for.
  pub ttl_of_response_panics :
      (answer : Result String FullLedgerEntries) (m : Option TransactionMeta)
      → (ttl_of_response answer m ≡ err panic) ↔ Short answer m
  ttl_of_response_panics answer m = (panics-Short answer m, Short-panics answer m)
