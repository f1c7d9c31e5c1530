-- ===== src/Utils/Merkle/Rounds.antt =====
-- The Merkle root in rounds, without `ComputeMerkleRoot` of utils/merkle.go and beside it.
use plairo.Common.{
  ℕ, zero, suc, ◌+◌, ◌*◌, ◌%◌, ◌≤◌, ◌≡◌, refl, sym, ap, ◌∙◌, arith, ◌==◌, true, false, Bool,
  Bool-cases, inl, inr, ◌↔◌,
}
use plairo.Common.{List, [], ◌∷◌, ◌++◌, length, some, unsome}
use plairo.Core.Output.{double_hash}
use plairo.Utils.Merkle.{repeat_last, made_even, hash_pairs, compute_merkle_root}

module _ (sha256 : List ℕ → List ℕ) where
  -- One round: neighbours are hashed together, and a last one that is left over with itself.
  abbrev pub parents : List (List ℕ) → List (List ℕ)
  parents [] = []
  parents (a ∷ []) = double_hash sha256 (a ++ a) ∷ []
  parents (a ∷ b ∷ hashes) = double_hash sha256 (a ++ b) ∷ parents hashes

  -- The root is the one hash that is left after some rounds.
  abbrev pub IsRootAfter : ℕ → List (List ℕ) → List ℕ → Type 0
  IsRootAfter zero hashes root = hashes ≡ root ∷ []
  IsRootAfter (suc rounds) hashes root =
      (2 ≤ length hashes) × IsRootAfter rounds (parents hashes) root

  abbrev pub IsMerkleRoot : List (List ℕ) → List ℕ → Type 0
  IsMerkleRoot hashes root = (rounds : ℕ) × IsRootAfter rounds hashes root

  made_even-two :
      (a b : List ℕ) (hashes : List (List ℕ))
      → made_even (a ∷ b ∷ hashes) ≡ a ∷ b ∷ made_even hashes
  unfolding repeat_last
  made_even-two a b [] = refl
  made_even-two a b (c ∷ hashes) = elim (Bool-cases (length (c ∷ hashes) % 2 == 1)) [
    | inl odd ↦ rw (longer true odd, odd) refl
    | inr even ↦ rw (longer false even, even) refl
  ]
    where
      longer :
          (v : Bool)
          → (length (c ∷ hashes) % 2 == 1) ≡ v
          → (length (a ∷ b ∷ c ∷ hashes) % 2 == 1) ≡ v
      longer true p = ground arith
      longer false p = ground arith

  hash_pairs-parents :
      (hashes : List (List ℕ)) → hash_pairs sha256 (made_even hashes) ≡ parents hashes
  unfolding hash_pairs repeat_last
  hash_pairs-parents [] = refl
  hash_pairs-parents (a ∷ []) = refl
  hash_pairs-parents (a ∷ b ∷ hashes) =
      ap (hash_pairs sha256) (made_even-two a b hashes)
      ∙ ap (λ level. double_hash sha256 (a ++ b) ∷ level) (hash_pairs-parents hashes)

  length-parents : (hashes : List (List ℕ)) → length (parents hashes) * 2 ≤ length hashes + 1
  length-parents [] = omega arith
  length-parents (a ∷ []) = omega arith
  length-parents (a ∷ b ∷ hashes) = omega (arith, length-parents hashes)

  no_root : (fuel : ℕ) (root : List ℕ) → compute_merkle_root sha256 fuel [] ≡ some root → ⊥
  unfolding compute_merkle_root hash_pairs
  no_root zero root p = cc
  no_root (suc fuel) root p = no_root fuel root p

  compute_merkle_root_sound :
      (fuel : ℕ) (hashes : List (List ℕ)) (root : List ℕ)
      → compute_merkle_root sha256 fuel hashes ≡ some root
      → IsMerkleRoot hashes root
  unfolding compute_merkle_root
  compute_merkle_root_sound zero hashes root p = absurd (cc)
  compute_merkle_root_sound (suc fuel) [] root p = absurd (no_root (suc fuel) root p)
  compute_merkle_root_sound (suc fuel) (a ∷ []) root p = (0, ap (λ r. r ∷ []) (unsome p))
  compute_merkle_root_sound (suc fuel) (a ∷ b ∷ hashes) root p =
      let (rounds, r) =
        compute_merkle_root_sound fuel (parents (a ∷ b ∷ hashes)) root
          (ap (compute_merkle_root sha256 fuel) (sym (hash_pairs-parents (a ∷ b ∷ hashes))) ∙ p) in
      (suc rounds, (omega arith, r))

  compute_merkle_root_complete :
      (rounds fuel : ℕ) (hashes : List (List ℕ)) (root : List ℕ)
      → length hashes ≤ fuel
      → IsRootAfter rounds hashes root
      → compute_merkle_root sha256 fuel hashes ≡ some root
  unfolding compute_merkle_root
  compute_merkle_root_complete zero zero hashes root enough r =
      absurd (omega (arith, enough, ap length r))
  compute_merkle_root_complete zero (suc fuel) hashes root enough r =
      ap (compute_merkle_root sha256 (suc fuel)) r
  compute_merkle_root_complete (suc rounds) zero hashes root enough r =
      absurd (omega (arith, enough, r.0))
  compute_merkle_root_complete (suc rounds) (suc fuel) [] root enough r =
      absurd (omega (arith, r.0))
  compute_merkle_root_complete (suc rounds) (suc fuel) (a ∷ []) root enough r =
      absurd (omega (arith, r.0))
  compute_merkle_root_complete (suc rounds) (suc fuel) (a ∷ b ∷ hashes) root enough r =
      ap (compute_merkle_root sha256 fuel) (hash_pairs-parents (a ∷ b ∷ hashes))
      ∙ compute_merkle_root_complete rounds fuel (parents (a ∷ b ∷ hashes)) root
          (omega (arith, length-parents (a ∷ b ∷ hashes), enough)) r.1

  -- `ComputeMerkleRoot` with as much fuel as there are hashes gives the root of the rounds, and no
  -- other.
  pub compute_merkle_root-IsMerkleRoot :
      (hashes : List (List ℕ)) (root : List ℕ)
      → (compute_merkle_root sha256 (length hashes) hashes ≡ some root) ↔ IsMerkleRoot hashes root
  compute_merkle_root-IsMerkleRoot hashes root = (
    compute_merkle_root_sound (length hashes) hashes root,
    λ (rounds, r). compute_merkle_root_complete rounds (length hashes) hashes root (omega arith) r,
  )
