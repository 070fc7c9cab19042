-- ===== src/Ledger/Examples.antt =====
-- A wallet that signs by repeating the data, one that refuses, and the laws at them.
use soroban_tools.Prelude.{
  ℕ, suc, ◌≡◌, refl, Option, none, some, [], ◌∷◌, ◌++◌, ◌==◌, if◌then◌else◌,
}
use soroban_tools.Prelude.Result.{ok, err}
use soroban_tools.Xdr.{Bytes}
use soroban_tools.Ledger.{
  ApduAnswer, Transport, WalletCrates, ledger_connection_error, p2_sign_tx_last, return_code_ok,
  hd_path_elements_count, upper_hex, to_vec, bip32_path, hd_path_to_bytes, sign_transaction,
  sign_transaction_hash, get_app_configuration, get_public_key, send_command_to_ledger,
}
use soroban_tools.Ledger.Signing.{IsSigner, gathered, sign_transaction_signs}

-- Paths are numbers, whose three elements are 44, 148 and the number.
abbrev crates : WalletCrates
crates = record {
  Bip32Path = Unit;
  Payload = Bytes;
  Key = Bytes;
  XdrError = Unit;
  DecodeError = Unit;
  parse_path = λ s. some tt;
  depth = λ p. 3;
  index = λ p i. some (if i == 0 then 2147483692 else if i == 1 then 2147483796 else 2147483648);
  path_text = λ p. "";
  to_xdr = λ b. ok b;
  key_from_payload = λ b. ok b;
}

abbrev answer_ok : Bytes → Option ApduAnswer
answer_ok b = some (record { retcode = return_code_ok; data_ = b })

-- The state is the buffer; the signature of data is the data.
abbrev wallet : Transport
wallet = record {
  State = Bytes;
  exchange = λ c s. (
    answer_ok (if c.p2 == p2_sign_tx_last then gathered c.p1 s c.data_ else []),
    gathered c.p1 s c.data_,
  );
}

wallet-IsSigner : IsSigner wallet
wallet-IsSigner = record {
  buffer = λ s. s;
  signature = λ b. b;
  goes_on = λ p1 b s. (refl, refl);
  signs = λ p1 b s. refl;
}

abbrev path_bytes : Bytes
path_bytes = 128 ∷ 0 ∷ 0 ∷ 44 ∷ 128 ∷ 0 ∷ 0 ∷ 148 ∷ 128 ∷ 0 ∷ 0 ∷ 0 ∷ []

path_runs : to_vec crates 0 ≡ ok path_bytes
unfolding to_vec bip32_path hd_path_to_bytes
path_runs = refl

sign_transaction_signs_example :
    (sign_transaction crates wallet 0 (7 ∷ 8 ∷ []) (1 ∷ 2 ∷ [])).0
    ≡ ok (hd_path_elements_count ∷ path_bytes ++ (7 ∷ 8 ∷ []))
unfolding wallet-IsSigner
sign_transaction_signs_example =
    sign_transaction_signs crates wallet wallet-IsSigner 0 (7 ∷ 8 ∷ []) path_bytes (7 ∷ 8 ∷ [])
      (1 ∷ 2 ∷ []) refl path_runs

abbrev refusal : ApduAnswer
refusal = record { retcode = 27013; data_ = [] }

-- It counts the commands and refuses all of them.
abbrev refusing : Transport
refusing = record { State = ℕ; exchange = λ c s. (some refusal, suc s) }

upper_hex_runs : upper_hex 27013 ≡ "6985"
unfolding upper_hex
upper_hex_runs = refl

abbrev unplugged : Transport
unplugged = record { State = Unit; exchange = λ c s. (none, tt) }

get_app_configuration_runs :
    get_app_configuration crates unplugged tt
    ≡ (err (ledger_connection_error "Error connecting to ledger device"), tt)
unfolding get_app_configuration send_command_to_ledger
get_app_configuration_runs = refl

sign_transaction_hash_runs :
    (sign_transaction_hash crates wallet 0 (9 ∷ []) []).0
    ≡ ok (hd_path_elements_count ∷ path_bytes ++ (9 ∷ []))
unfolding sign_transaction_hash to_vec send_command_to_ledger
sign_transaction_hash_runs = refl

get_public_key_runs :
    (get_public_key crates wallet 0 []).0 ≡ ok (hd_path_elements_count ∷ path_bytes)
unfolding get_public_key bip32_path to_vec send_command_to_ledger
get_public_key_runs = refl
