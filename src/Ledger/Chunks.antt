-- ===== src/Ledger/Chunks.antt =====
-- The chunks of the bytes that a wallet signs.
use soroban_tools.Prelude.{
  ℕ, zero, suc, ◌≤◌, ◌<◌, ◌≡◌, refl, [], ◌∷◌, length, drop, All, take-append-drop, length-take,
  length-drop, arith,
}
use soroban_tools.Xdr.{Bytes}
use soroban_tools.Ledger.{chunks_within, chunks, flatten}

-- A chunk is not empty and at most of that size.
abbrev pub IsChunk : ℕ → Bytes → Type 0
IsChunk n c = (1 ≤ length c) × (length c ≤ n)

module _ (n : ℕ) (pos : 0 < n) where
  shorter :
      (fuel : ℕ) (x : ℕ) (xs : Bytes) → length (x ∷ xs) ≤ suc fuel → length (drop n (x ∷ xs)) ≤ fuel
  shorter fuel x xs h = omega (arith, length-drop n (x ∷ xs))

  pub flatten-chunks_within :
      (fuel : ℕ) (xs : Bytes) → length xs ≤ fuel → flatten (chunks_within fuel n xs) ≡ xs
  unfolding chunks_within
  flatten-chunks_within zero [] h = refl
  flatten-chunks_within zero (x ∷ xs) h = absurd (omega arith)
  flatten-chunks_within (suc fuel) [] h = refl
  flatten-chunks_within (suc fuel) (x ∷ xs) h =
      rw (flatten-chunks_within fuel (drop n (x ∷ xs)) (shorter fuel x xs h))
        (take-append-drop n (x ∷ xs))

  pub chunks_within-IsChunk : (fuel : ℕ) (xs : Bytes) → All (IsChunk n) (chunks_within fuel n xs)
  unfolding chunks_within
  chunks_within-IsChunk zero xs = tt
  chunks_within-IsChunk (suc fuel) [] = tt
  chunks_within-IsChunk (suc fuel) (x ∷ xs) = (
    (omega (arith, length-take n (x ∷ xs)), omega (arith, length-take n (x ∷ xs))),
    chunks_within-IsChunk fuel (drop n (x ∷ xs)),
  )

  -- Chunks of a size above 0 put together again are the bytes, and each of them has at least one
  -- byte and at most that size.
  pub flatten-chunks : (xs : Bytes) → (flatten (chunks n xs) ≡ xs) × All (IsChunk n) (chunks n xs)
  flatten-chunks xs =
      (flatten-chunks_within (length xs) xs (omega arith), chunks_within-IsChunk (length xs) xs)
