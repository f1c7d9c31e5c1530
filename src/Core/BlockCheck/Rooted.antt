-- ===== src/Core/BlockCheck/Rooted.antt =====
-- `GenerateBlockMerkleRoot` of core/block.go beside the rounds of hashing.
use plairo.Common.{
  ℕ, ◌≡◌, refl, sym, ap, ◌∙◌, arith, Option-cases, inl, inr, ◌↔◌, returns, runs_on, Outcome, ◌<◌,
}
use plairo.Common.{List, ◌∷◌, Option, none, some, unsome, map, length, length-map}
use plairo.Core.Transaction.{Transaction}
use plairo.Utils.Merkle.{compute_merkle_root}
use plairo.Utils.Merkle.Laws.{compute_merkle_root-returns}
use plairo.Utils.Merkle.Rounds.{IsMerkleRoot, compute_merkle_root-IsMerkleRoot}
use plairo.Core.Block.{Block, generate_block_merkle_root}

abbrev root_or_endless : Option (List ℕ) → Outcome (List ℕ)
root_or_endless none = runs_on
root_or_endless (some root) = returns root

root_or_endless-returns :
    (found : Option (List ℕ)) (root : List ℕ)
    → (root_or_endless found ≡ returns root) ↔ (found ≡ some root)
root_or_endless-returns none root = (λ p. absurd (running p), λ p. absurd (missing p))
  where
    running : runs_on ≡ returns root → ⊥
    running p = cc

    missing : none ≡ some root → ⊥
    missing p = cc
root_or_endless-returns (some found) root = (λ p. cc, λ p. ap returns (unsome p))

module _ (sha256 : List ℕ → List ℕ) where
  abbrev pub txids : Block → List (List ℕ)
  txids b = map (λ tx. tx.txid) b.all_block_tx

  root_found :
      (b : Block)
      → generate_block_merkle_root sha256 b
        ≡ root_or_endless (compute_merkle_root sha256 (length b.all_block_tx) (txids b))
  unfolding generate_block_merkle_root
  root_found b =
      elim (Option-cases (compute_merkle_root sha256 (length b.all_block_tx) (txids b))) [
        | inl q ↦ rw (generate_block_merkle_root, q) refl
        | inr (root, q) ↦ rw (generate_block_merkle_root, q) refl
      ]

  -- The root of a block is that of the identifiers of its transactions.
  pub generate_block_merkle_root-IsMerkleRoot :
      (b : Block) (root : List ℕ)
      → (generate_block_merkle_root sha256 b ≡ returns root) ↔ IsMerkleRoot sha256 (txids b) root
  generate_block_merkle_root-IsMerkleRoot b root =
      let (forth, back) =
        root_or_endless-returns (compute_merkle_root sha256 (length b.all_block_tx) (txids b))
          root in
      let (sound, complete) = compute_merkle_root-IsMerkleRoot sha256 (txids b) root in
      let fuel = length-map b.all_block_tx (λ tx. tx.txid) in
      (
        λ p. sound (
            ap (λ n. compute_merkle_root sha256 n (txids b)) fuel ∙ forth (sym (root_found b) ∙ p)),
        λ r.
            root_found b
            ∙ back (ap (λ n. compute_merkle_root sha256 n (txids b)) (sym fuel) ∙ complete r),
      )

  -- A block with a first transaction has a root.
  pub has_root :
      (b : Block) (tx : Transaction) (txs : List Transaction)
      → b.all_block_tx ≡ tx ∷ txs
      → (root : List ℕ) × (generate_block_merkle_root sha256 b ≡ returns root)
  has_root b tx txs split =
      let filled : 0 < length b.all_block_tx = omega (arith, ap length split) in
      let (root, q) =
        compute_merkle_root-returns sha256 (length b.all_block_tx) (txids b)
          (omega (arith, filled, length-map b.all_block_tx (λ tx. tx.txid)))
          (omega (arith, length-map b.all_block_tx (λ tx. tx.txid))) in
      (root, root_found b ∙ ap root_or_endless q)
