-- ===== src/Commands/Examples.antt =====
-- Topic filters of four and of five segments, and a response without changes.
use soroban_tools.Prelude.{
  String, Bool, true, Option, none, some, [], ◌∷◌, length, ◌≡◌, ◌↔◌, ◌≤◌, refl, All, str_eq,
}
use soroban_tools.Prelude.Result.{ok, err}
use soroban_tools.Config.Machine.{crates, host, args, empty, sample_network}
use soroban_tools.Config.Resolve.{NetworkArgs, resolved}
use soroban_tools.Commands.Events.{
  check_topic, split_comma, is_segment, check_topic_iff, EventsArgs, events_request, ledger, rpc,
}
use soroban_tools.Commands.Extend.{
  panic, FullLedgerEntries, v3, TransactionMeta, state, updated_ttl, created_ttl, ledgers_to_extend,
  ttl_of_response, Short, ttl_of_response_panics,
}
use soroban_tools.Commands.Restore.{restored_until, FirstLiveUntil, restored_until_iff}

abbrev is_sc_val : String → Bool
is_sc_val s = str_eq s "AAAA"

-- One more than the four that the error speaks of.
five_segments : check_topic is_sc_val "AAAA,*,*,*,*" ≡ ok tt
unfolding check_topic
five_segments = refl

check_topic_iff_example : (check_topic is_sc_val "AAAA,*" ≡ ok tt) ↔ (
    (length (split_comma "AAAA,*") ≤ 5)
    × All (λ (s : String). is_segment is_sc_val s ≡ true) (split_comma "AAAA,*"))
check_topic_iff_example = check_topic_iff is_sc_val "AAAA,*"

-- The server has no entry, or one that does not live beyond the ledger.
abbrev no_entries : FullLedgerEntries
no_entries = record { entries = []; latest_ledger = 100 }

abbrev one_entry : FullLedgerEntries
one_entry = record { entries = 150 ∷ []; latest_ledger = 100 }

no_entry_panics : ttl_of_response 60 (ok no_entries) (some (v3 ([] ∷ []))) ≡ err panic
unfolding ttl_of_response
no_entry_panics = refl

beyond_is_read : ttl_of_response 40 (ok one_entry) (some (v3 ([] ∷ []))) ≡ ok 150
unfolding ttl_of_response
beyond_is_read = refl

ttl_of_response_panics_example :
    (ttl_of_response 60 (ok one_entry) (some (v3 ([] ∷ []))) ≡ err panic)
    ↔ Short 60 (ok one_entry) (some (v3 ([] ∷ [])))
ttl_of_response_panics_example = ttl_of_response_panics 60 (ok one_entry) (some (v3 ([] ∷ [])))

abbrev two_operations : Option TransactionMeta
two_operations = some (v3 ((state ∷ (updated_ttl 200 ∷ [])) ∷ ((created_ttl 300 ∷ []) ∷ [])))

read_by_both : ttl_of_response 60 (ok one_entry) two_operations ≡ ok 200
unfolding ttl_of_response
read_by_both = refl

-- A change that extend.rs does not take.
abbrev created_later : Option TransactionMeta
created_later = some (v3 ((state ∷ (created_ttl 300 ∷ [])) ∷ []))

restored_until_iff_example :
    (restored_until created_later ≡ ok 300) ↔ FirstLiveUntil 300 created_later
restored_until_iff_example = restored_until_iff created_later 300

created_is_read : restored_until created_later ≡ ok 300
unfolding restored_until
created_is_read = refl

abbrev network_args : NetworkArgs
network_args = record {
  rpc_url = some "http://here";
  rpc_headers = [];
  network_passphrase = some "net";
  network = none;
}

abbrev events_args : EventsArgs crates
events_args = record {
  start_ledger = some 7;
  cursor = none;
  count = 10;
  contract_ids = resolved "CID" ∷ [];
  topic_filters = "AAAA,*" ∷ [];
}

asks_for_events :
    events_request crates args host empty is_sc_val (λ n. ok tt) network_args events_args
    ≡ ok (
      sample_network,
      record {
        start = ledger 7;
        contract_ids = "CID" ∷ [];
        topic_filters = "AAAA,*" ∷ [];
        count = 10;
      },
    )
unfolding events_request
asks_for_events = refl

no_answer_before_contract_ids :
    events_request crates args host empty is_sc_val (λ n. err (rpc "down")) network_args events_args
    ≡ err (rpc "down")
unfolding events_request
no_answer_before_contract_ids = refl

at_most_a_month : ledgers_to_extend 1000000 ≡ 535679
unfolding ledgers_to_extend
at_most_a_month = refl
