-- ===== src/Utils/Merkle.antt =====
-- utils/merkle.go: the Merkle root of a list of hashes.
pub mod Laws
pub mod Rounds
use plairo.Common.{ℕ, zero, suc, ◌+◌, ◌%◌, ◌==◌, Bool, if◌then◌else◌}
use plairo.Common.{List, [], ◌∷◌, ◌++◌, length, Option, none, some}
use plairo.Core.Output.{double_hash}

-- The list with its last hash once more.
unfoldable pub repeat_last : List (List ℕ) → List (List ℕ)
repeat_last [] = []
repeat_last (a ∷ []) = a ∷ a ∷ []
repeat_last (a ∷ b ∷ hashes) = a ∷ repeat_last (b ∷ hashes)

abbrev pub made_even : List (List ℕ) → List (List ℕ)
made_even hashes = if length hashes % 2 == 1 then repeat_last hashes else hashes

module _ (sha256 : List ℕ → List ℕ) where
  -- The loop over pairs; the number of hashes is even.
  unfoldable pub hash_pairs : List (List ℕ) → List (List ℕ)
  hash_pairs [] = []
  hash_pairs (a ∷ []) = []
  hash_pairs (a ∷ b ∷ hashes) = double_hash sha256 (a ++ b) ∷ hash_pairs hashes

  -- `none` stands for calls deeper than the fuel.
  unfoldable pub compute_merkle_root : ℕ → List (List ℕ) → Option (List ℕ)
  compute_merkle_root zero hashes = none
  compute_merkle_root (suc fuel) (hash ∷ []) = some hash
  compute_merkle_root (suc fuel) [] = compute_merkle_root fuel (hash_pairs (made_even []))
  compute_merkle_root (suc fuel) (a ∷ b ∷ hashes) =
      compute_merkle_root fuel (hash_pairs (made_even (a ∷ b ∷ hashes)))
