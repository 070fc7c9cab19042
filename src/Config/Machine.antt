-- ===== src/Config/Machine.antt =====
-- A small machine with an empty disk, and crates that print and parse as the laws want.
use soroban_tools.Prelude.{
  ℕ, String, false, not, Option, none, some, List, [], ◌∷◌, ◌≡◌, refl, ◌∙◌, ap, arith, inl, inr,
  str_eq, if◌then◌else◌, ◌||◌, eq_iff, ◌&&◌, Bool-cases,
}
use soroban_tools.Config.Disk.{Host, Disk, node, lookup, exists}
use soroban_tools.Config.Disk.Growth.{IsTree}
use soroban_tools.Config.Secrets.{KeyCrates, seed_phrase, secret_key, secure_store}
use soroban_tools.Config.Keys.{Key, secret, public_key, muxed_account}
use soroban_tools.Config.Networks.{Network, get}
use soroban_tools.Config.Directories.{Args}
use soroban_tools.Config.Locator.{Crates, AliasData}
use soroban_tools.Config.Writes.Aliases.{PrintsMaps}
use soroban_tools.Config.Writes.ReadBack.{ReadsBack}

abbrev pub key_crates : KeyCrates
key_crates = record {
  Key32 = ℕ;
  Phrase = String;
  SigningKey = ℕ;
  Entry = String;
  private_key_from_string = λ s. if str_eq s "SKEY" then some 7 else none;
  private_key_from_payload = λ k. some k;
  public_key_from_string = λ s. if str_eq s "GKEY" then some 9 else none;
  public_key_from_payload = λ k. some k;
  muxed_account_from_string = λ s. none;
  seed_phrase_from_str = λ s. if str_eq s "twelve words" then some s else none;
  private_from_path_index = λ s n. some 7;
  signing_key_from_bytes = λ k. k;
  verifying_key = λ k. 9;
  keyring_entry = λ s. some s;
  get_password = λ s. some "twelve words";
}

abbrev pub print_key : Key key_crates → Option String
print_key (secret (seed_phrase s)) = some s
print_key (secret (secret_key s)) = none
print_key (secret (secure_store s)) = none
print_key (public_key k) = none
print_key (muxed_account k id) = none

abbrev pub print_url : List (String × String) → String → Option String
print_url [] url = some url
print_url (h ∷ hs) url = none

abbrev pub print_network : Network → Option String
print_network n =
    if str_eq n.network_passphrase "net" then print_url n.rpc_headers n.rpc_url else none

abbrev pub print_ids : List (String × String) → Option String
print_ids [] = some "none"
print_ids ((k, v) ∷ []) =
    if str_eq k "net" && not (str_eq v "" || str_eq v "none") then some v else none
print_ids ((k, v) ∷ (i ∷ is)) = none

abbrev pub parse_ids : String → Option AliasData
parse_ids s =
    if str_eq s ""
    then none
    else (if str_eq s "none"
        then some (record { ids = [] })
        else some (record { ids = ("net", s) ∷ [] }))

abbrev pub crates : Crates
crates = record {
  keys = key_crates;
  Contract = String;
  contract_to_string = λ s. s;
  contract_from_str = λ s. some s;
  key_toml = record { print = print_key; parse = λ s. some (secret (seed_phrase s)) };
  network_toml = record {
    print = print_network;
    parse = λ s. some (record { rpc_url = s; rpc_headers = []; network_passphrase = "net" });
  };
  alias_json = record { print = λ (m : AliasData). print_ids m.ids; parse = parse_ids };
}

abbrev pub host : Host
host = record {
  xdg_config_home = none;
  home_dir = some ("me" ∷ ("home" ∷ []));
  current_dir = some ("work" ∷ []);
  unreadable = λ p. false;
  unwritable = λ p. false;
  cut_short = λ p s. none;
}

abbrev pub args : Args
args = record { global = false; config_dir = none }

abbrev pub sample_network : Network
sample_network = record { rpc_url = "http://here"; rpc_headers = []; network_passphrase = "net" }

abbrev pub empty : Disk
empty = []

pub empty-IsTree : IsTree empty
unfolding exists node lookup
empty-IsTree s p h = absurd (ground (arith, h))

pub key_toml-ReadsBack : ReadsBack crates.key_toml
key_toml-ReadsBack (secret (seed_phrase s)) text h = ground (arith, h)
key_toml-ReadsBack (secret (secret_key s)) text h = absurd (ground (arith, h))
key_toml-ReadsBack (secret (secure_store s)) text h = absurd (ground (arith, h))
key_toml-ReadsBack (public_key k) text h = absurd (ground (arith, h))
key_toml-ReadsBack (muxed_account k id) text h = absurd (ground (arith, h))

one_id :
    (k v text : String)
    → print_ids ((k, v) ∷ []) ≡ some text
    → ((k ≡ "net") × (v ≡ text)) × (parse_ids text ≡ some (record { ids = ("net", text) ∷ [] }))
one_id k v text h = elim (Bool-cases (str_eq k "net" && not (str_eq v "" || str_eq v "none"))) [
  | inl q ↦ ground (
    arith,
    q,
    h,
    eq_iff k "net",
    eq_iff v "",
    eq_iff v "none",
    eq_iff text "",
    eq_iff text "none",
  )
  | inr q ↦ absurd (ground (arith, q, h))
]

none_parses : parse_ids "none" ≡ some (record { ids = [] })
none_parses = refl

text_none : (text : String) → print_ids [] ≡ some text → text ≡ "none"
text_none text h = ground (arith, h)

printed_ids :
    (is : List (String × String)) (text : String)
    → print_ids is ≡ some text
    → (n : AliasData) × ((parse_ids text ≡ some n) × ((k : String) → get k n.ids ≡ get k is))
printed_ids [] text h =
    (record { ids = [] }, (ap parse_ids (text_none text h) ∙ none_parses, λ k. refl))
printed_ids ((k, v) ∷ []) text h =
    let o = one_id k v text h in
    (record { ids = ("net", text) ∷ [] }, (o.1, λ j. rw (o.0.0, o.0.1) refl))
printed_ids ((k, v) ∷ (i ∷ is)) text h = absurd (ground (arith, h))

pub crates-PrintsMaps : PrintsMaps crates args host
crates-PrintsMaps m text h = printed_ids m.ids text h

network_read :
    (url : String) (headers : List (String × String)) (passphrase text : String)
    → crates.network_toml.print
        (record { rpc_url = url; rpc_headers = headers; network_passphrase = passphrase })
      ≡ some text
    → crates.network_toml.parse text
      ≡ some (record { rpc_url = url; rpc_headers = headers; network_passphrase = passphrase })
network_read url [] passphrase text h = ground (arith, h, eq_iff passphrase "net")
network_read url (x ∷ xs) passphrase text h = absurd (ground (arith, h))

pub network_toml-ReadsBack : ReadsBack crates.network_toml
network_toml-ReadsBack n text h = network_read n.rpc_url n.rpc_headers n.network_passphrase text h
