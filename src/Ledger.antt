-- ===== src/Ledger.antt =====
-- cmd/crates/stellar-ledger/src/lib.rs and hd_path.rs: the commands that a hardware wallet is sent.
-- A transport is a state that every exchange changes; BIP32 paths, XDR and strkeys are parameters.
mod Chunks
mod Signing
mod Examples
use soroban_tools.Prelude.{
  ℕ, zero, suc, ◌+◌, ◌-◌, ◌*◌, ◌/◌, ◌%◌, ◌^◌, String, ◌<>◌, Bool, Option, none, some, List, [], ◌∷◌,
  ◌++◌, length, take, drop, ltb, ◌==◌, if◌then◌else◌, decimal,
}
use soroban_tools.Prelude.Result.{Result, ok, err, ◌>>=◌, map_err, ok_or, collect}
use soroban_tools.Xdr.{Bytes}

abbrev pub apdu_max_size : ℕ
apdu_max_size = 150

abbrev pub hd_path_elements_count : ℕ
hd_path_elements_count = 3

abbrev pub buffer_size : ℕ
buffer_size = 1 + hd_path_elements_count * 4

abbrev pub chunk_size : ℕ
chunk_size = apdu_max_size - buffer_size

abbrev pub cla : ℕ
cla = 0xE0

abbrev pub get_public_key_ins : ℕ
get_public_key_ins = 2

abbrev pub sign_tx : ℕ
sign_tx = 4

abbrev pub p1_sign_tx_first : ℕ
p1_sign_tx_first = 0

abbrev pub p1_sign_tx_not_first : ℕ
p1_sign_tx_not_first = 128

abbrev pub p2_sign_tx_last : ℕ
p2_sign_tx_last = 0

abbrev pub p2_sign_tx_more : ℕ
p2_sign_tx_more = 128

abbrev pub get_app_configuration_ins : ℕ
get_app_configuration_ins = 6

abbrev pub sign_tx_hash : ℕ
sign_tx_hash = 8

abbrev pub return_code_ok : ℕ
return_code_ok = 36864

pub record ApduCommand : Type 0 where
  pub cla : ℕ
  pub ins : ℕ
  pub p1 : ℕ
  pub p2 : ℕ
  pub data_ : Bytes

pub record ApduAnswer : Type 0 where
  pub retcode : ℕ
  pub data_ : Bytes

-- `none` is an error of the transport.
pub record Transport : Type 1 where
  pub State : Type 0
  pub exchange : ApduCommand → State → Option ApduAnswer × State

-- `slip10::BIP32Path`, the encoding of a payload to be signed, and the decoding of a public key.
pub record WalletCrates : Type 1 where
  pub Bip32Path : Type 0
  pub Payload : Type 0
  pub Key : Type 0
  pub XdrError : Type 0
  pub DecodeError : Type 0
  pub parse_path : String → Option Bip32Path
  pub depth : Bip32Path → ℕ
  pub index : Bip32Path → ℕ → Option ℕ
  pub path_text : Bip32Path → String
  pub to_xdr : Payload → Result XdrError Bytes
  pub key_from_payload : Bytes → Result DecodeError Key

pub data Error (W : WalletCrates) : Type 0 where
  apdu_exchange_error : String → Error W
  ledger_connection_error : String → Error W
  bip32_path_error : String → Error W
  xdr_error : WalletCrates.XdrError W → Error W
  decode_error : WalletCrates.DecodeError W → Error W
  -- `parse().unwrap()` of a path.
  panic : Error W

-- `{:X}` of a `u16`: the digits, without leading zeros.
upper_digit : ℕ → String
upper_digit d =
    if ltb d 10
    then decimal d
    else if d == 10
    then "A"
    else if d == 11
    then "B"
    else if d == 12
    then "C"
    else if d == 13
    then "D"
    else if d == 14
    then "E"
    else "F"

upper_digits : ℕ → ℕ → String
upper_digits zero n = ""
upper_digits (suc fuel) n =
    let higher = upper_digits fuel (n / 16) in
    if ltb n 16 then upper_digit n else higher <> upper_digit (n % 16)

unfoldable pub upper_hex : ℕ → String
unfolding upper_digits upper_digit decimal
upper_hex n = upper_digits 4 n

-- `slice::chunks`: at most one chunk for each byte.
unfoldable pub chunks_within : ℕ → ℕ → Bytes → List Bytes
chunks_within zero n xs = []
chunks_within (suc fuel) n [] = []
chunks_within (suc fuel) n (x ∷ xs) = take n (x ∷ xs) ∷ chunks_within fuel n (drop n (x ∷ xs))

abbrev pub chunks : ℕ → Bytes → List Bytes
chunks n xs = chunks_within (length xs) n xs

-- `u32::to_be_bytes`
abbrev pub to_be_bytes : ℕ → Bytes
to_be_bytes n = n / 2 ^ 24 % 256 ∷ n / 2 ^ 16 % 256 ∷ n / 2 ^ 8 % 256 ∷ n % 256 ∷ []

abbrev pub range : ℕ → ℕ → List ℕ
range from zero = []
range from (suc n) = from ∷ range (from + 1) n

abbrev pub flatten : List Bytes → Bytes
flatten [] = []
flatten (b ∷ bs) = b ++ flatten bs

module _ (W : WalletCrates) where
  -- The path `m/44'/148'/{index}'` of an `HdPath`.
  unfoldable pub bip32_path : ℕ → Result (Error W) W.Bip32Path
  unfolding decimal
  bip32_path hd_path = ok_or (W.parse_path ("m/44'/148'/" <> decimal hd_path <> "'")) panic

  unfoldable pub hd_path_to_bytes : W.Bip32Path → Result (Error W) Bytes
  hd_path_to_bytes path = do
    result ←
        collect
          (λ index. do
            i ← ok_or (W.index path index) (bip32_path_error (W.path_text path))
            ok (to_be_bytes i))
          (range 0 (W.depth path))
    ok (flatten result)

  -- `HdPath::to_vec`
  unfoldable pub to_vec : ℕ → Result (Error W) Bytes
  unfolding bip32_path hd_path_to_bytes
  to_vec hd_path = do path ← bip32_path hd_path; hd_path_to_bytes path

module _ (W : WalletCrates) (T : Transport) where
  -- Every call returns its result with the transport that it leaves.
  abbrev pub Reply : Type 0 → Type 0
  Reply A = Result (Error W) A × T.State

  check_answer : Option ApduAnswer → Result (Error W) Bytes
  check_answer none = err (ledger_connection_error "Error connecting to ledger device")
  check_answer (some response) =
      if response.retcode == return_code_ok
      then ok response.data_
      else err (apdu_exchange_error ("Ledger APDU retcode: 0x" <> upper_hex response.retcode))

  pub send_command_to_ledger : ApduCommand → T.State → Reply Bytes
  unfolding check_answer
  send_command_to_ledger command s =
      let answer = T.exchange command s in (check_answer answer.0, answer.1)

  pub get_app_configuration : T.State → Reply Bytes
  get_app_configuration s =
      send_command_to_ledger
        (record { cla = cla; ins = get_app_configuration_ins; p1 = 0; p2 = 0; data_ = [] }) s

  -- A command whose bytes may fail, sent only if they do not.
  send_with : Result (Error W) Bytes → (Bytes → ApduCommand) → T.State → Reply Bytes
  send_with (err e) f s = (err e, s)
  send_with (ok b) f s = send_command_to_ledger (f b) s

  pub sign_blob : ℕ → Bytes → T.State → Reply Bytes
  unfolding send_with
  sign_blob index blob s =
      send_with (to_vec W index)
        (λ path. record {
          cla = cla;
          ins = sign_tx_hash;
          p1 = 0;
          p2 = 0;
          data_ = hd_path_elements_count ∷ path ++ blob;
        })
        s

  pub sign_transaction_hash : ℕ → Bytes → T.State → Reply Bytes
  unfolding sign_blob
  sign_transaction_hash hd_path transaction_hash s = sign_blob hd_path transaction_hash s

  -- The command for the chunk `i` of `count`.
  pub chunk_command : ℕ → ℕ → Bytes → ApduCommand
  chunk_command i count chunk = record {
    cla = cla;
    ins = sign_tx;
    p1 = if i == 0 then p1_sign_tx_first else p1_sign_tx_not_first;
    p2 = if count == i + 1 then p2_sign_tx_last else p2_sign_tx_more;
    data_ = chunk;
  }

  append_reply : Bytes → Reply Bytes → Reply Bytes
  append_reply r (ok rest, s) = (ok (r ++ rest), s)
  append_reply r (err e, s) = (err e, s)

  -- `?` on a reply, and the reply of the rest of the loop after it.
  and_append : Reply Bytes → (T.State → Reply Bytes) → Reply Bytes
  and_append (ok r, s) rest = append_reply r (rest s)
  and_append (err e, s) rest = (err e, s)

  -- The loop over the chunks from the number `i` on, which the first error ends.
  pub send_chunks : ℕ → ℕ → List Bytes → T.State → Reply Bytes
  send_chunks i count [] s = (ok [], s)
  send_chunks i count (chunk ∷ chunks) s =
      and_append (send_command_to_ledger (chunk_command i count chunk) s)
        (send_chunks (i + 1) count chunks)

  send_all : Result (Error W) Bytes → T.State → Reply Bytes
  send_all (err e) s = (err e, s)
  send_all (ok data_) s =
      let parts = chunks chunk_size data_ in send_chunks 0 (length parts) parts s

  -- What `sign_transaction` puts into chunks.
  signing_data : ℕ → W.Payload → Result (Error W) Bytes
  signing_data hd_path payload = do
    bytes ← map_err xdr_error (W.to_xdr payload)
    path ← to_vec W hd_path
    ok (hd_path_elements_count ∷ path ++ bytes)

  pub sign_transaction : ℕ → W.Payload → T.State → Reply Bytes
  unfolding signing_data send_all send_chunks and_append append_reply chunk_command
      send_command_to_ledger check_answer
  sign_transaction hd_path payload s = send_all (signing_data hd_path payload) s

  decode_key : Reply Bytes → Reply W.Key
  decode_key (r, s) = (r >>= λ b. map_err decode_error (W.key_from_payload b), s)

  pub get_public_key_with_display_flag : ℕ → Bool → T.State → Reply W.Key
  unfolding decode_key send_with
  get_public_key_with_display_flag hd_path display_and_confirm s =
      let depth = bip32_path W hd_path >>= λ path. ok (W.depth path) in
      decode_key (
        send_with (depth >>= λ n. (to_vec W hd_path >>= λ path. ok (n ∷ path)))
          (λ data_. record {
            cla = cla;
            ins = get_public_key_ins;
            p1 = 0;
            p2 = if display_and_confirm then 1 else 0;
            data_ = data_;
          })
          s)

  pub get_public_key : ℕ → T.State → Reply W.Key
  unfolding get_public_key_with_display_flag
  get_public_key index s = get_public_key_with_display_flag index Bool.false s
