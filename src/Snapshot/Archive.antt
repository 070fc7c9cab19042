-- ===== src/Snapshot/Archive.antt =====
-- cmd/soroban-cli/src/commands/snapshot/create.rs: where the archive lies, the addresses of its files,
-- and the ledgers that are proposed in place of one that it does not have. The requests are not
-- modelled.
use Prim.Native.Char.{code}
use soroban_tools.Prelude.{
  ℕ, zero, suc, ◌+◌, ◌-◌, ◌/◌, ◌%◌, ◌^◌, ◌≤◌, ◌<◌, String, ◌<>◌, Bool, false, Option, none, some,
  List, [], ◌∷◌, ◌==◌, str_eq, if◌then◌else◌, ◌≡◌, arith, digit,
}
use soroban_tools.Prelude.Result.{Result, ok_or, to_option}
use soroban_tools.Config.Disk.{Host, Disk}
use soroban_tools.Config.Directories.{Args}
use soroban_tools.Config.Locator.{Crates}
use soroban_tools.Config.Networks.{
  Network, mainnet_passphrase, testnet_passphrase, futurenet_passphrase, local_passphrase,
}
use soroban_tools.Config.Resolve.{NetworkArgs, get_network}

-- `History` and `HistoryBucket`
pub record HistoryBucket : Type 0 where
  pub curr : String
  pub snap : String

pub record History : Type 0 where
  pub current_ledger : ℕ
  pub current_buckets : List HistoryBucket
  pub network_passphrase : String

abbrev pub no_bucket : String
no_bucket = "0000000000000000000000000000000000000000000000000000000000000000"

abbrev if_bucket : String → List String → List String
if_bucket b bs = if str_eq b no_bucket then bs else b ∷ bs

-- The buckets to read, from the higher level to the lower.
unfoldable pub bucket_list : List HistoryBucket → List String
bucket_list [] = []
bucket_list (h ∷ hs) = if_bucket h.curr (if_bucket h.snap (bucket_list hs))

-- A text from an index, and its beginning.
abbrev pub text_drop : ℕ → String → String
text_drop zero s = s
text_drop (suc n) String.[] = ""
text_drop (suc n) (String.◌∷◌ c s) = text_drop n s

abbrev pub text_take : ℕ → String → String
text_take zero s = ""
text_take (suc n) String.[] = ""
text_take (suc n) (String.◌∷◌ c s) = String.◌∷◌ c (text_take n s)

-- `&text[from..=from + 1]`
abbrev pub two_from : ℕ → String → String
two_from n s = text_take 2 (text_drop n s)

abbrev hex_digit : ℕ → String
hex_digit n =
    if n == 10
    then "a"
    else (if n == 11
        then "b"
        else (if n == 12
            then "c"
            else (if n == 13
                then "d"
                else (if n == 14 then "e" else (if n == 15 then "f" else digit n)))))

-- `{n:08x}` has a digit for each of the eight.
unfoldable pub hex_digits : ℕ → ℕ → String
hex_digits zero n = ""
hex_digits (suc k) n = hex_digit ((n / 16 ^ k) % 16) <> hex_digits k n

abbrev is_slash : String → Bool
is_slash String.[] = false
is_slash (String.◌∷◌ c String.[]) = code c == 47
is_slash (String.◌∷◌ c (String.◌∷◌ d s)) = false

-- `strip_suffix('/').unwrap_or(..)`
unfoldable pub without_slash : String → String
without_slash String.[] = ""
without_slash (String.◌∷◌ c s) =
    if is_slash (String.◌∷◌ c s) then "" else String.◌∷◌ c (without_slash s)

abbrev history_at : String → String → String
history_at archive_url ledger_hex =
    archive_url
    <> ("/history/"
        <> (two_from 0 ledger_hex
            <> ("/"
                <> (two_from 2 ledger_hex
                    <> ("/"
                        <> (two_from 4 ledger_hex <> ("/history-" <> (ledger_hex <> ".json"))))))))

-- The URL of `get_history`.
unfoldable pub history_url : String → Option ℕ → String
unfolding without_slash hex_digits digit
history_url archive_url (some ledger) = history_at (without_slash archive_url) (hex_digits 8 ledger)
history_url archive_url none = without_slash archive_url <> "/.well-known/stellar-history.json"

-- The URL of `cache_bucket`; the archive's is not stripped there.
unfoldable pub bucket_url : String → String → String
bucket_url archive_url bucket =
    archive_url
    <> ("/bucket/"
        <> (two_from 0 bucket
            <> ("/"
                <> (two_from 2 bucket
                    <> ("/" <> (two_from 4 bucket <> ("/bucket-" <> (bucket <> ".xdr.gz"))))))))

abbrev pub checkpoint_frequency : ℕ
checkpoint_frequency = 64

-- The ledgers proposed where there is none; the arithmetic is that of `u32` in a release build.
unfoldable pub proposed_ledgers : ℕ → Option (ℕ × ℕ)
proposed_ledgers ledger =
    let ledger_offset = ((ledger + 1) % 2 ^ 32) % checkpoint_frequency in
    if ledger_offset == 0
    then none
    else some (
      (ledger + 2 ^ 32 - ledger_offset) % 2 ^ 32,
      (ledger + (checkpoint_frequency - ledger_offset)) % 2 ^ 32,
    )

-- A ledger that an archive has ends a block of ledgers.
abbrev pub IsCheckpoint : ℕ → Type 0
IsCheckpoint ledger = (ledger + 1) % checkpoint_frequency ≡ 0

-- For a ledger from 63 on that is more than 64 below 2^32, the two ledgers proposed in its place
-- are checkpoints, one before it and one after it, 64 apart.
pub proposed_ledgers_bounds :
    (ledger before after : ℕ)
    → 63 ≤ ledger
    → ledger + 64 < 2 ^ 32
    → proposed_ledgers ledger ≡ some (before, after)
    → IsCheckpoint before
      × IsCheckpoint after
      × (before < ledger)
      × (ledger < after)
      × (after ≡ before + 64)
unfolding proposed_ledgers
proposed_ledgers_bounds ledger before after low high h = ground (arith, h)

-- Below ledger 63 the subtraction wraps around, and the ledger proposed before it is the largest
-- number of 32 bits.
pub proposed_ledgers_wraps :
    (ledger : ℕ) → ledger < 63 → proposed_ledgers ledger ≡ some (2 ^ 32 - 1, 63)
unfolding proposed_ledgers
proposed_ledgers_wraps ledger h = ground arith

pub data ArchiveError : Type 0 where
  archive_url_not_configured : ArchiveError

-- The archives known by passphrase.
abbrev known_archive : String → Option String
known_archive passphrase =
    if str_eq passphrase mainnet_passphrase
    then some "https://history.stellar.org/prd/core-live/core_live_001"
    else (if str_eq passphrase testnet_passphrase
        then some "https://history.stellar.org/prd/core-testnet/core_testnet_001"
        else (if str_eq passphrase futurenet_passphrase
            then some "https://history-futurenet.stellar.org"
            else (if str_eq passphrase local_passphrase
                then some "http://localhost:8000/archive"
                else none)))

abbrev archive_of : Option Network → Option String
archive_of none = none
archive_of (some network) = known_archive network.network_passphrase

abbrev or_else_archive : Option String → Option String → Option String
or_else_archive (some url) other = some url
or_else_archive none other = other

module _ (C : Crates) (args : Args) (host : Host) (d : Disk) where
  unfoldable pub archive_url : Option String → NetworkArgs → Result ArchiveError String
  unfolding get_network
  archive_url given network =
      ok_or (or_else_archive given (archive_of (to_option (get_network C args host network d))))
        archive_url_not_configured
