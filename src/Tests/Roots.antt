-- ===== src/Tests/Roots.antt =====
-- Merkle roots of three hashes.
use plairo.Common.{ℕ, refl, ◌≡◌, ◌↔◌, some, arith, List, [], ◌∷◌}
use plairo.Utils.Merkle.{repeat_last, hash_pairs, compute_merkle_root}
use plairo.Utils.Merkle.Laws.{compute_merkle_root-returns, compute_merkle_root-repeat_last}
use plairo.Utils.Merkle.Rounds.{IsMerkleRoot, compute_merkle_root-IsMerkleRoot}
use plairo.Tests.Encodings.{toy_hash}

abbrev three : List (List ℕ)
three = (1 ∷ []) ∷ (2 ∷ []) ∷ (3 ∷ []) ∷ []

compute_merkle_root-returns_example :
    (root : List ℕ) × (compute_merkle_root toy_hash 3 three ≡ some root)
compute_merkle_root-returns_example =
    compute_merkle_root-returns toy_hash 3 three (omega arith) (omega arith)

compute_merkle_root-repeat_last_example :
    compute_merkle_root toy_hash 4 (repeat_last three) ≡ compute_merkle_root toy_hash 4 three
compute_merkle_root-repeat_last_example =
    compute_merkle_root-repeat_last toy_hash 4 three (omega arith) (omega arith)

compute_merkle_root-IsMerkleRoot_example :
    (compute_merkle_root toy_hash 3 three ≡ some (2 ∷ 21 ∷ []))
    ↔ IsMerkleRoot toy_hash three (2 ∷ 21 ∷ [])
compute_merkle_root-IsMerkleRoot_example =
    compute_merkle_root-IsMerkleRoot toy_hash three (2 ∷ 21 ∷ [])

root_of_three : compute_merkle_root toy_hash 3 three ≡ some (2 ∷ 21 ∷ [])
unfolding compute_merkle_root hash_pairs repeat_last
root_of_three = refl
