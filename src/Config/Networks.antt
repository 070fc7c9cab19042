-- ===== src/Config/Networks.antt =====
-- cmd/soroban-cli/src/config/network.rs and network/passphrase.rs: the networks known by name, and
-- the headers of requests. Calls over the network are not modelled.
use Prim.Native.Char.{code}
use soroban_tools.Prelude.{
  String, Bool, true, false, Option, none, some, List, [], ◌∷◌, ◌==◌, if◌then◌else◌, str_eq, ◌≡◌,
  arith, eq_iff,
}
use soroban_tools.Prelude.Result.{Result, ok, err, ok_or, ◌>>=◌}
use soroban_tools.Config.KeyTypes.{trim}

pub record Network : Type 0 where
  pub rpc_url : String
  pub rpc_headers : List (String × String)
  pub network_passphrase : String

-- A `HashMap` and a `phf::Map` with keys of text, whose order the code does not rely on.
abbrev pub Map : Type 0 → Type 0
Map V = List (String × V)

module _ {V : Type 0} where
  unfoldable pub get : String → Map V → Option V
  get k [] = none
  get k ((j, v) ∷ m) = elim (str_eq j k) [ true ↦ some v | false ↦ get k m ]

  unfoldable pub remove : String → Map V → Map V
  remove k [] = []
  remove k ((j, v) ∷ m) = elim (str_eq j k) [ true ↦ remove k m | false ↦ (j, v) ∷ remove k m ]

  unfoldable pub insert : String → V → Map V → Map V
  unfolding remove
  insert k v m = (k, v) ∷ remove k m

  pub get-remove :
      (j k : String) (m : Map V) → get j (remove k m) ≡ (if str_eq k j then none else get j m)
  unfolding get remove
  get-remove j k [] = ground arith
  get-remove j k ((i, v) ∷ m) = ground (arith, get-remove j k m, eq_iff k j, eq_iff i k, eq_iff i j)

  pub get-insert :
      (j k : String) (v : V) (m : Map V)
      → get j (insert k v m) ≡ (if str_eq k j then some v else get j m)
  unfolding get insert
  get-insert j k v m = ground (arith, get-remove j k m)

abbrev pub local_passphrase : String
local_passphrase = "Standalone Network ; February 2017"

abbrev pub futurenet_passphrase : String
futurenet_passphrase = "Test SDF Future Network ; October 2022"

abbrev pub testnet_passphrase : String
testnet_passphrase = "Test SDF Network ; September 2015"

abbrev pub mainnet_passphrase : String
mainnet_passphrase = "Public Global Stellar Network ; September 2015"

-- `DEFAULTS`
abbrev pub defaults : Map (String × String)
defaults =
    ("local", ("http://localhost:8000/rpc", local_passphrase))
    ∷ (("futurenet", ("https://rpc-futurenet.stellar.org:443", futurenet_passphrase))
        ∷ (("testnet", ("https://soroban-testnet.stellar.org", testnet_passphrase))
            ∷ ((
              "mainnet",
              (
                "Bring Your Own: https://developers.stellar.org/docs/data/rpc/rpc-providers",
                mainnet_passphrase,
              ),
            )
                ∷ [])))

-- `From<&(&str, &str)>`
abbrev pub from_pair : String × String → Network
from_pair (url, passphrase) = record {
  rpc_url = url;
  rpc_headers = [];
  network_passphrase = passphrase;
}

pub data HeaderError : Type 0 where
  invalid_header : HeaderError
  invalid_header_name : HeaderError
  invalid_header_value : HeaderError

-- `splitn(2, ':')`: what stands before and after the first colon.
unfoldable pub split_colon : String → Option (String × String)
split_colon String.[] = none
split_colon (String.◌∷◌ c s) =
    let rest = split_colon s in
    if code c == 58
    then some ("", s)
    else elim rest [ some (before, after) ↦ some (String.◌∷◌ c before, after) | none ↦ none ]

-- The names and values that the `http` crate takes.
module _ (is_header_name is_header_value : String → Bool) where
  abbrev pub checked_header : String × String → Result HeaderError (String × String)
  checked_header (key, value) =
      if is_header_name (trim key)
      then (if is_header_value (trim value)
          then ok (trim key, trim value)
          else err invalid_header_value)
      else err invalid_header_name

  unfoldable pub parse_http_header : String → Result HeaderError (String × String)
  unfolding split_colon
  parse_http_header header = do
    components ← ok_or (split_colon header) invalid_header
    checked_header components
