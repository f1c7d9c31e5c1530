-- ===== src/Utils/Merkle/Laws.antt =====
-- When the Merkle root is reached, and two lists with the same root.
use plairo.Common.{
  ℕ, zero, suc, ◌+◌, ◌*◌, ◌%◌, ◌<◌, ◌≤◌, ◌≡◌, refl, sym, ap, ◌∙◌, arith, ◌==◌, true, false,
  Bool-cases, inl, inr,
}
use plairo.Common.{List, [], ◌∷◌, length, some}
use plairo.Utils.Merkle.{repeat_last, made_even, hash_pairs, compute_merkle_root}

length-repeat_last :
    (a : List ℕ) (hashes : List (List ℕ)) → length (repeat_last (a ∷ hashes)) ≡ 2 + length hashes
unfolding repeat_last
length-repeat_last a [] = omega arith
length-repeat_last a (b ∷ hashes) = omega (arith, length-repeat_last b hashes)

length-repeat_odd :
    (hashes : List (List ℕ)) → 1 < length hashes → length (repeat_last hashes) ≡ 1 + length hashes
length-repeat_odd [] many = absurd (omega arith)
length-repeat_odd (a ∷ hashes) many = omega (arith, length-repeat_last a hashes)

-- A level has at most one hash more than an even number.
length-made_even : (hashes : List (List ℕ)) → length (made_even hashes) ≤ 1 + length hashes
unfolding repeat_last
length-made_even [] = ground arith
length-made_even (a ∷ hashes) = elim (Bool-cases (length (a ∷ hashes) % 2 == 1)) [
  | inl odd ↦ rw odd (omega (arith, length-repeat_last a hashes))
  | inr even ↦ rw even (omega arith)
]

module _ (sha256 : List ℕ → List ℕ) where
  length-hash_pairs :
      (hashes : List (List ℕ)) → length (hash_pairs sha256 hashes) * 2 ≤ length hashes
  unfolding hash_pairs
  length-hash_pairs [] = omega arith
  length-hash_pairs (a ∷ []) = omega arith
  length-hash_pairs (a ∷ b ∷ hashes) = omega (arith, length-hash_pairs hashes)

  made_even-cons : (a b : List ℕ) (hashes : List (List ℕ)) → 2 ≤ length (made_even (a ∷ b ∷ hashes))
  made_even-cons a b hashes = elim (Bool-cases (length (a ∷ b ∷ hashes) % 2 == 1)) [
    | inl odd ↦ rw odd (omega (arith, length-repeat_last a (b ∷ hashes)))
    | inr even ↦ rw even (omega arith)
  ]

  hash_pairs-nonempty :
      (hashes : List (List ℕ)) → 2 ≤ length hashes → 0 < length (hash_pairs sha256 hashes)
  unfolding hash_pairs
  hash_pairs-nonempty [] h = absurd (omega arith)
  hash_pairs-nonempty (a ∷ []) h = absurd (omega arith)
  hash_pairs-nonempty (a ∷ b ∷ hashes) h = omega arith

  -- For one hash or more, as many calls as there are hashes reach a root.
  pub compute_merkle_root-returns :
      (fuel : ℕ) (hashes : List (List ℕ))
      → 0 < length hashes
      → length hashes ≤ fuel
      → (root : List ℕ) × (compute_merkle_root sha256 fuel hashes ≡ some root)
  unfolding compute_merkle_root
  compute_merkle_root-returns zero hashes some_hash enough = absurd (omega arith)
  compute_merkle_root-returns (suc fuel) [] some_hash enough = absurd (omega arith)
  compute_merkle_root-returns (suc fuel) (a ∷ []) some_hash enough = (a, refl)
  compute_merkle_root-returns (suc fuel) (a ∷ b ∷ hashes) some_hash enough =
      let level = made_even (a ∷ b ∷ hashes) in
      compute_merkle_root-returns fuel (hash_pairs sha256 level)
        (hash_pairs-nonempty level (made_even-cons a b hashes))
        (omega (arith, length-hash_pairs level, length-made_even (a ∷ b ∷ hashes)))

  next_level :
      (fuel : ℕ) (hashes : List (List ℕ))
      → 1 < length hashes
      → compute_merkle_root sha256 (suc fuel) hashes
        ≡ compute_merkle_root sha256 fuel (hash_pairs sha256 (made_even hashes))
  unfolding compute_merkle_root
  next_level fuel [] many = absurd (omega arith)
  next_level fuel (a ∷ []) many = absurd (omega arith)
  next_level fuel (a ∷ b ∷ hashes) many = refl

  -- For an odd number of hashes, at least three, the list with its last hash repeated has the same
  -- root: a root does not determine the list of hashes, not even its length.
  pub compute_merkle_root-repeat_last :
      (fuel : ℕ) (hashes : List (List ℕ))
      → 1 < length hashes
      → length hashes % 2 ≡ 1
      → compute_merkle_root sha256 fuel (repeat_last hashes)
        ≡ compute_merkle_root sha256 fuel hashes
  unfolding compute_merkle_root
  compute_merkle_root-repeat_last zero hashes many odd = refl
  compute_merkle_root-repeat_last (suc fuel) hashes many odd =
      next_level fuel (repeat_last hashes) (omega (arith, length-repeat_odd hashes many))
      ∙ ap (λ level. compute_merkle_root sha256 fuel (hash_pairs sha256 level)) same_level
      ∙ sym (next_level fuel hashes many)
    where
      is_odd : (length hashes % 2 == 1) ≡ true
      is_odd = ground arith

      is_even : (length (repeat_last hashes) % 2 == 1) ≡ false
      is_even = rw (length-repeat_odd hashes many) (ground arith)

      same_level : made_even (repeat_last hashes) ≡ made_even hashes
      same_level = rw (is_even, is_odd) refl
