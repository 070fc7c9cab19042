-- ===== src/Commands/Events.antt =====
-- cmd/soroban-cli/src/commands/events.rs: the checks of the arguments and what is asked of the server.
use Prim.Native.Char.{Char, code}
use soroban_tools.Prelude.{
  ℕ, suc, ◌+◌, ◌≤◌, String, Bool, true, ◌||◌, Option, none, some, List, [], ◌∷◌, length, ◌==◌,
  str_eq, ltb, ltb→lt, if◌then◌else◌, ◌≡◌, ◌↔◌, All, arith, Bool-cases, inl, inr, refl,
}
use soroban_tools.Prelude.Result.{Result, ok, err, map_err, collect, ◌>>=◌, ◌>>◌}
use soroban_tools.Config.Disk.{Host, Disk}
use soroban_tools.Config.Errors
use soroban_tools.Config.Directories.{Args}
use soroban_tools.Config.Networks.{Network}
use soroban_tools.Config.Locator.{Crates}
use soroban_tools.Config.Resolve.{
  NetworkArgs, NetworkError, UnresolvedContract, get_network, resolve_contract,
}

-- The errors of the code that is modelled, and what the server refuses.
pub data EventsError : Type 0 where
  invalid_topic_filter : String → EventsError
  invalid_segment : String → String → EventsError
  missing_start_ledger_and_cursor : EventsError
  network : NetworkError → EventsError
  locator : Errors.Error → EventsError
  rpc : String → EventsError

abbrev pub put_char : Char → List String → List String
put_char c [] = String.◌∷◌ c "" ∷ []
put_char c (s ∷ rest) = String.◌∷◌ c s ∷ rest

-- `split(',')`
unfoldable pub split_comma : String → List String
split_comma String.[] = "" ∷ []
split_comma (String.◌∷◌ c s) =
    let rest = split_comma s in if code c == 44 then "" ∷ rest else put_char c rest

-- Whether a segment is `*`, or a contract value in base64.
module _ (is_sc_val : String → Bool) where
  abbrev pub is_segment : String → Bool
  is_segment segment = str_eq segment "*" || is_sc_val segment

  -- The inner loop of `run`, from the segment of the index.
  unfoldable pub check_segments : String → ℕ → List String → Result EventsError (Unit {0})
  check_segments topic i [] = ok tt
  check_segments topic i (segment ∷ rest) =
      let later = check_segments topic (suc i) rest in
      if ltb 4 i
      then err (invalid_topic_filter topic)
      else (if is_segment segment then later else err (invalid_segment topic segment))

  unfoldable pub check_topic : String → Result EventsError (Unit {0})
  unfolding check_segments split_comma
  check_topic topic = check_segments topic 0 (split_comma topic)

  -- The outer loop of `run`.
  unfoldable pub check_topics : List String → Result EventsError (Unit {0})
  unfolding check_topic
  check_topics [] = ok tt
  check_topics (topic ∷ rest) = check_topic topic >> check_topics rest

  check_segments_iff :
      (topic : String) (i : ℕ) (segments : List String)
      → i ≤ 5
      → (check_segments topic i segments ≡ ok tt)
        ↔ ((length segments + i ≤ 5) × All (λ (s : String). is_segment s ≡ true) segments)
  unfolding check_segments
  check_segments_iff topic i [] h = ((λ e. (omega (arith, h), tt)), (λ e. refl))
  check_segments_iff topic i (segment ∷ rest) h = elim (Bool-cases (ltb 4 i)) [
    | inl q ↦
        ((λ e. absurd (ground (arith, q, e))), (λ p. absurd (omega (arith, p.0, ltb→lt 4 i q))))
    | inr q ↦
        let ih = check_segments_iff topic (suc i) rest (ground (arith, q, h)) in
        elim (Bool-cases (is_segment segment)) [
          | inr v ↦
              ((λ e. absurd (ground (arith, q, v, e))), (λ p. absurd (ground (arith, v, p.1.0))))
          | inl v ↦ (
            (λ e. let r = ih.0 (ground (arith, q, v, e)) in (omega (arith, r.0), (v, r.1))),
            (λ p. let r = ih.1 (omega (arith, p.0), p.1.1) in ground (arith, q, v, r)),
          )
        ]
  ]

  -- A topic filter is accepted exactly when it has at most five segments and each is a star or a
  -- contract value.
  pub check_topic_iff :
      (topic : String)
      → (check_topic topic ≡ ok tt) ↔ (
          (length (split_comma topic) ≤ 5)
          × All (λ (s : String). is_segment s ≡ true) (split_comma topic))
  unfolding check_topic
  check_topic_iff topic =
      let c = check_segments_iff topic 0 (split_comma topic) (omega arith) in
      ((λ e. let r = c.0 e in (omega (arith, r.0), r.1)), (λ p. c.1 (omega (arith, p.0), p.1)))

-- `rpc::EventStart`
pub data EventStart : Type 0 where
  ledger : ℕ → EventStart
  cursor : String → EventStart

-- `start`
abbrev pub start_of : Option ℕ → Option String → Result EventsError EventStart
start_of (some start) c = ok (ledger start)
start_of none (some c) = ok (cursor c)
start_of none none = err missing_start_ledger_and_cursor

-- The arguments but the kind of events and the output format, which are passed on.
pub record EventsArgs (C : Crates) : Type 0 where
  pub start_ledger : Option ℕ
  pub cursor : Option String
  pub count : ℕ
  pub contract_ids : List (UnresolvedContract C)
  pub topic_filters : List String

-- What `get_events` is called with.
pub record EventsRequest : Type 0 where
  pub start : EventStart
  pub contract_ids : List String
  pub topic_filters : List String
  pub count : ℕ

-- What opening a client for a network and verifying its passphrase there answers is a parameter.
module _ (C : Crates) (args : Args) (host : Host) (d : Disk) (is_sc_val : String → Bool)
    (verify_network_passphrase : Network → Result EventsError (Unit {0})) where
  abbrev pub contract_text : String → UnresolvedContract C → Result EventsError String
  contract_text network_passphrase id = do
    contract ← map_err locator (resolve_contract C args host id network_passphrase d)
    ok (C.contract_to_string contract)

  -- `run` and `run_against_rpc_server` up to the request, with the network that is asked.
  unfoldable pub events_request :
      NetworkArgs → EventsArgs C → Result EventsError (Network × EventsRequest)
  unfolding check_topics get_network resolve_contract
  events_request network_args cmd = do
    checked ← check_topics is_sc_val cmd.topic_filters
    start ← start_of cmd.start_ledger cmd.cursor
    n ← map_err network (get_network C args host network_args d)
    verified ← verify_network_passphrase n
    contract_ids ← collect (contract_text n.network_passphrase) cmd.contract_ids
    ok (
      n,
      record {
        start = start;
        contract_ids = contract_ids;
        topic_filters = cmd.topic_filters;
        count = cmd.count;
      },
    )
