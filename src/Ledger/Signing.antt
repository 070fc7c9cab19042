-- ===== src/Ledger/Signing.antt =====
-- A wallet that gathers the chunks of a transaction and signs them, and a wallet that refuses.
use soroban_tools.Prelude.{
  ℕ, false, true, suc, ◌+◌, ◌≤◌, ◌≡◌, ◌≢◌, refl, ap, ◌∙◌, some, List, [], ◌∷◌, ◌++◌, length, ◌==◌,
  if◌then◌else◌, arith, ◌<>◌,
}
use soroban_tools.Prelude.Result.{Result, ok, err}
use soroban_tools.Xdr.{Bytes}
use soroban_tools.Ledger.{
  ApduCommand, ApduAnswer, Transport, WalletCrates, Error, apdu_exchange_error, chunks,
  chunks_within, chunk_size, flatten, to_vec, sign_tx, p1_sign_tx_first, p1_sign_tx_not_first,
  p2_sign_tx_last, p2_sign_tx_more, return_code_ok, cla, hd_path_elements_count, upper_hex,
  check_answer, send_command_to_ledger, chunk_command, and_append, append_reply, send_chunks,
  send_all, signing_data, sign_transaction,
}
use soroban_tools.Ledger.Chunks.{flatten-chunks}

abbrev pub signing_command : ℕ → ℕ → Bytes → ApduCommand
signing_command p1 p2 b = record { cla = cla; ins = sign_tx; p1 = p1; p2 = p2; data_ = b }

-- What a command leaves in the buffer of a wallet.
abbrev pub gathered : ℕ → Bytes → Bytes → Bytes
gathered p1 before b = if p1 == p1_sign_tx_first then b else before ++ b

-- A wallet with a buffer: the first chunk replaces what is there, and the others are added. It
-- accepts a chunk with no data while more are to come, and answers the last with the signature.
pub record IsSigner (T : Transport) : Type 0 where
  pub buffer : T.State → Bytes
  pub signature : Bytes → Bytes
  pub goes_on :
      (p1 : ℕ) (b : Bytes) (s : T.State)
      → ((T.exchange (signing_command p1 p2_sign_tx_more b) s).0
          ≡ some (record { retcode = return_code_ok; data_ = [] }))
        × (buffer (T.exchange (signing_command p1 p2_sign_tx_more b) s).1
            ≡ gathered p1 (buffer s) b)
  pub signs :
      (p1 : ℕ) (b : Bytes) (s : T.State)
      → (T.exchange (signing_command p1 p2_sign_tx_last b) s).0
        ≡ some (record { retcode = return_code_ok; data_ = signature (gathered p1 (buffer s) b) })

not_equal : (a b : ℕ) → a ≢ b → (a == b) ≡ false
not_equal a b h = ground arith

append_nil : (xs : Bytes) → xs ++ [] ≡ xs
append_nil [] = refl
append_nil (x ∷ xs) = ap (λ ys. x ∷ ys) (append_nil xs)

append_assoc : (xs ys zs : Bytes) → (xs ++ ys) ++ zs ≡ xs ++ (ys ++ zs)
append_assoc [] ys zs = refl
append_assoc (x ∷ xs) ys zs = ap (λ ws. x ∷ ws) (append_assoc xs ys zs)

abbrev p1_of : ℕ → ℕ
p1_of i = if i == 0 then p1_sign_tx_first else p1_sign_tx_not_first

module _ (W : WalletCrates) (T : Transport) (L : IsSigner T) where
  is_last : (i : ℕ) → ((i + 1) == (i + 1)) ≡ true
  is_last i = ground arith

  is_not_last : (i n : ℕ) → ((i + suc (suc n)) == (i + 1)) ≡ false
  is_not_last i n = ground arith

  sent :
      (c : ApduCommand) (s : T.State) (b : Bytes)
      → (T.exchange c s).0 ≡ some (record { retcode = return_code_ok; data_ = b })
      → send_command_to_ledger W T c s ≡ (ok b, (T.exchange c s).1)
  unfolding send_command_to_ledger check_answer
  sent c s b h = rw h refl

  last_sent :
      (i : ℕ) (b : Bytes) (s : T.State)
      → send_command_to_ledger W T (chunk_command W T i (i + 1) b) s ≡ (
        ok (L.signature (gathered (p1_of i) (L.buffer s) b)),
        (T.exchange (signing_command (p1_of i) p2_sign_tx_last b) s).1,
      )
  unfolding chunk_command
  last_sent i b s = rw (is_last i) (sent _ s _ (L.signs (p1_of i) b s))

  more_sent :
      (i n : ℕ) (b : Bytes) (s : T.State)
      → send_command_to_ledger W T (chunk_command W T i (i + suc (suc n)) b) s
        ≡ (ok [], (T.exchange (signing_command (p1_of i) p2_sign_tx_more b) s).1)
  unfolding chunk_command
  more_sent i n b s = rw (is_not_last i n) (sent _ s _ (L.goes_on (p1_of i) b s).0)

  same_result : (r : Result (Error W) Bytes × T.State) → (append_reply W T [] r).0 ≡ r.0
  unfolding append_reply
  same_result (ok b, s) = refl
  same_result (err e, s) = refl

  last_reply :
      (i : ℕ) (b : Bytes) (s : T.State)
      → (send_chunks W T i (i + 1) (b ∷ []) s).0
        ≡ ok (L.signature (gathered (p1_of i) (L.buffer s) b))
  unfolding send_chunks and_append append_reply
  last_reply i b s = rw (last_sent i b s) (ap ok (append_nil _))

  more_reply :
      (i n : ℕ) (b : Bytes) (rest : List Bytes) (s : T.State)
      → (send_chunks W T i (i + suc (suc n)) (b ∷ rest) s).0
        ≡ (send_chunks W T
            (i + 1)
            (i + suc (suc n))
            rest
            (T.exchange (signing_command (p1_of i) p2_sign_tx_more b) s).1).0
  unfolding send_chunks and_append
  more_reply i n b rest s = rw (more_sent i n b s) (same_result _)

  after_more : ℕ → Bytes → T.State → T.State
  after_more i b s = (T.exchange (signing_command (p1_of i) p2_sign_tx_more b) s).1

  next_count : (i n : ℕ) → i + suc (suc n) ≡ (i + 1) + suc n
  next_count i n = omega arith

  not_first : (i : ℕ) → ((i + 1) == 0) ≡ false
  not_first i = ground arith

  later_gathered : (i : ℕ) (x b : Bytes) → gathered (p1_of (i + 1)) x b ≡ x ++ b
  later_gathered i x b = rw (not_first i) refl

  all_gathered :
      (i : ℕ) (b c rest : Bytes) (s : T.State)
      → gathered (p1_of (i + 1)) (L.buffer (after_more i b s)) c ++ rest
        ≡ gathered (p1_of i) (L.buffer s) b ++ (c ++ rest)
  unfolding after_more
  all_gathered i b c rest s =
      rw (later_gathered i (L.buffer (after_more i b s)) c, (L.goes_on (p1_of i) b s).1)
        (append_assoc _ c rest)

  -- The wallet's answer to the chunks from a number on: they are added to what it holds.
  chunks_reply :
      (i : ℕ) (b : Bytes) (bs : List Bytes) (s : T.State)
      → (send_chunks W T i (i + suc (length bs)) (b ∷ bs) s).0
        ≡ ok (L.signature (gathered (p1_of i) (L.buffer s) b ++ flatten bs))
  unfolding after_more
  chunks_reply i b [] s = rw (append_nil (gathered (p1_of i) (L.buffer s) b)) (last_reply i b s)
  chunks_reply i b (c ∷ bs) s =
      more_reply i (length bs) b (c ∷ bs) s
      ∙ rw (next_count i (length bs)) (chunks_reply (i + 1) c bs (after_more i b s))
      ∙ ap (λ data_. ok (L.signature data_)) (all_gathered i b c (flatten bs) s)

  from_zero : (n : ℕ) → n ≡ 0 + n
  from_zero n = omega arith

  signed_parts :
      (parts : List Bytes) (s : T.State)
      → 1 ≤ length parts
      → (send_chunks W T 0 (length parts) parts s).0 ≡ ok (L.signature (flatten parts))
  signed_parts [] s h = absurd (omega arith)
  signed_parts (b ∷ bs) s h =
      ap (λ n. (send_chunks W T 0 n (b ∷ bs) s).0) (from_zero (suc (length bs)))
      ∙ chunks_reply 0 b bs s

  some_chunk : (x : ℕ) (xs : Bytes) → 1 ≤ length (chunks chunk_size (x ∷ xs))
  unfolding chunks_within
  some_chunk x xs = omega arith

  signed_data :
      (x : ℕ) (xs : Bytes) (s : T.State)
      → (send_all W T (ok (x ∷ xs)) s).0 ≡ ok (L.signature (x ∷ xs))
  unfolding send_all
  signed_data x xs s =
      signed_parts (chunks chunk_size (x ∷ xs)) s (some_chunk x xs)
      ∙ ap (λ data_. ok (L.signature data_)) (flatten-chunks chunk_size (omega arith) (x ∷ xs)).0

  -- On a wallet that gathers the chunks, whatever is in its buffer, a transaction is signed as a
  -- whole: the reply is the signature of the number of path elements, the path and the payload.
  pub sign_transaction_signs :
      (hd_path : ℕ) (payload : W.Payload) (path bytes : Bytes) (s : T.State)
      → W.to_xdr payload ≡ ok bytes
      → to_vec W hd_path ≡ ok path
      → (sign_transaction W T hd_path payload s).0
        ≡ ok (L.signature (hd_path_elements_count ∷ path ++ bytes))
  unfolding sign_transaction signing_data
  sign_transaction_signs hd_path payload path bytes s e p =
      rw (e, p) (signed_data hd_path_elements_count (path ++ bytes) s)

module _ (W : WalletCrates) (T : Transport) where
  refused :
      (c : ApduCommand) (s : T.State) (answer : ApduAnswer)
      → (T.exchange c s).0 ≡ some answer
      → answer.retcode ≢ return_code_ok
      → send_command_to_ledger W T c s ≡ (
        err (apdu_exchange_error ("Ledger APDU retcode: 0x" <> upper_hex answer.retcode)),
        (T.exchange c s).1,
      )
  unfolding send_command_to_ledger check_answer
  refused c s answer h k = rw (h, not_equal answer.retcode return_code_ok k) refl

  -- At whatever chunk the wallet answers with another code than success, the loop ends with that
  -- code in the error, and no further chunk is sent.
  pub send_chunks_stops :
      (i count : ℕ) (chunk : Bytes) (rest : List Bytes) (s : T.State) (answer : ApduAnswer)
      → (T.exchange (chunk_command W T i count chunk) s).0 ≡ some answer
      → answer.retcode ≢ return_code_ok
      → send_chunks W T i count (chunk ∷ rest) s ≡ (
        err (apdu_exchange_error ("Ledger APDU retcode: 0x" <> upper_hex answer.retcode)),
        (T.exchange (chunk_command W T i count chunk) s).1,
      )
  unfolding send_chunks and_append
  send_chunks_stops i count chunk rest s answer h k =
      rw (refused (chunk_command W T i count chunk) s answer h k) refl
