-- ===== src/Core/Mining/Sealed.antt =====
-- What `MineBlock` leaves.
use plairo.Common.{
  ◌<◌, ℕ, ◌⊎◌, ◌+◌, ◌%◌, ◌^◌, ◌≡◌, refl, sym, ap, ◌∙◌, arith, ltb, true, false, Bool-cases,
  Option-cases, Outcome-cases, inl, inr, returns, panics, runs_on,
}
use plairo.Common.{List, [], ◌∷◌, length, Option, none, some}
use plairo.Core.Transaction.{Transaction}
use plairo.Core.Validate.{Ecdsa}
use plairo.Core.Signing.{
  Signer, CoinbaseResult, coinbase, invalid_coinbase_value, bad_miner_key, new_coinbase_transaction,
}
use plairo.Core.Header.{BlockHeader}
use plairo.Core.Signing.Coinbase.{coinbase_total}
use plairo.Core.CState.{CState}
use plairo.Core.Block.{Block, generate_block_merkle_root}
use plairo.Core.BlockCheck.{World, BlockError, validate_coinbase}
use plairo.Core.Mining.Left.{MeetsTarget, mine_loop-left}
use plairo.Core.Fees.{add64, sum_outputs}
use plairo.Core.Block.{get_block_fees, sum_fees}
use plairo.Core.BlockCheck.{subsidy_at, validate_block_tx}
use plairo.Core.Mining.{
  Mining, compute_block_merkle_root, seal, mine_valid, coinbase_msg, max_number_of_txs_in_block,
  mine_loop, mine_block,
}

module _ (sha256 : List ℕ → List ℕ) (ecdsa : Ecdsa) (signer : Signer ecdsa) (cs : CState) where
  -- The block has a new coinbase before the transactions it had, on the same previous hash and target
  -- bits, the coinbase takes what `ValidateCoinbase` allows, the header has the Merkle root, and its
  -- hash is below the target that its target bits stand for.
  pub record IsMined (header : BlockHeader) (before after : Block) (current_block_height : ℕ)
      : Type 0 where
    pub left : BlockHeader
    pub tx : Transaction
    pub has_header : after.header ≡ some left
    pub prepended : after.all_block_tx ≡ tx ∷ before.all_block_tx
    pub same_previous : left.previous_block_hash ≡ header.previous_block_hash
    pub same_bits : left.target_bits ≡ header.target_bits
    pub root : generate_block_merkle_root sha256 after ≡ returns left.merkle_root
    pub coinbase_passes : validate_coinbase after ((current_block_height + 1) % 2 ^ 32) ≡ some true
    pub reaches_target : MeetsTarget sha256 left

  -- The coinbase takes the subsidy and the fees of the transactions behind it.
  validate_coinbase-seal :
      (header : Option BlockHeader) (b : Block) (tx : Transaction) (height : ℕ)
      → sum_outputs 0 tx.outputs ≡ add64 0 (add64 (subsidy_at height) (get_block_fees false b))
      → validate_coinbase (record { header = header; all_block_tx = tx ∷ b.all_block_tx }) height
        ≡ some true
  unfolding validate_coinbase get_block_fees sum_fees
  validate_coinbase-seal header b tx height p =
      rw
        (
          p,
          fees header b.header tx b.all_block_tx,
          order (add64 (subsidy_at height) (get_block_fees false b)) (omega arith),
        )
        refl
    where
      fees :
          (h h' : Option BlockHeader) (t : Transaction) (txs : List Transaction)
          → get_block_fees true (record { header = h; all_block_tx = t ∷ txs })
            ≡ get_block_fees false (record { header = h'; all_block_tx = txs })
      fees h h' t [] = refl
      fees h h' t (u ∷ txs) = refl

      order : (total : ℕ) → total < 2 ^ 64 → ltb total (add64 0 total) ≡ false
      order total l = ground arith

  pub record Sealing (header : BlockHeader) (txs : List Transaction) (after : Block) : Type 0 where
    pub left : BlockHeader
    pub built : after ≡ record { header = some left; all_block_tx = txs }
    pub same_previous : left.previous_block_hash ≡ header.previous_block_hash
    pub same_bits : left.target_bits ≡ header.target_bits
    pub root : generate_block_merkle_root sha256 after ≡ returns left.merkle_root
    pub reaches_target : MeetsTarget sha256 left

  abbrev done : World cs → Block → Mining sha256 ecdsa signer cs
  done w b = returns (w, b, none)

  no_panic : {w : World cs} {b : Block} → panics ≡ done w b → ⊥
  no_panic q = cc

  no_end : {w : World cs} {b : Block} → runs_on ≡ done w b → ⊥
  no_end q = cc

  no_error :
      {v w : World cs} {b c : Block} {e : BlockError cs}
      → ◌≡◌ {A = Mining sha256 ecdsa signer cs} (returns (v, c, some e)) (done w b)
      → ⊥
  no_error q = cc

  same_block : {v w : World cs} {b c : Block} → done v c ≡ done w b → b ≡ c
  same_block q = cc

  seal-Sealing :
      (fuel : ℕ) (w w' : World cs) (header : BlockHeader) (txs : List Transaction) (b' : Block)
      → seal sha256 ecdsa signer cs fuel w header txs ≡ returns (w', b', none)
      → Sealing header txs b'
  unfolding seal compute_block_merkle_root generate_block_merkle_root
  seal-Sealing fuel w w' header txs b' p =
      elim (Outcome-cases
        (generate_block_merkle_root sha256 (record { header = some header; all_block_tx = txs }))) [
          | inr (inl r) ↦ absurd (no_panic (rw (seal, compute_block_merkle_root, r) at p))
          | inr (inr r) ↦ absurd (no_end (rw (seal, compute_block_merkle_root, r) at p))
          | inl (root, r) ↦
              elim (Outcome-cases
                (mine_loop sha256 fuel (record header { merkle_root = root }) 0)) [
                  | inr (inl m) ↦
                      absurd (no_panic (rw (seal, compute_block_merkle_root, r, m) at p))
                  | inr (inr m) ↦ absurd (no_end (rw (seal, compute_block_merkle_root, r, m) at p))
                  | inl ((left, true), m) ↦
                      absurd (no_error (rw (seal, compute_block_merkle_root, r, m) at p))
                  | inl ((left, false), m) ↦
                      let (same, accepts) =
                        mine_loop-left sha256 fuel (record header { merkle_root = root }) left 0
                          m in
                      let built = same_block (rw (seal, compute_block_merkle_root, r, m) at p) in
                      record {
                        left = left;
                        built = built;
                        same_previous = same.same_previous;
                        same_bits = same.same_bits;
                        root =
                            ap (generate_block_merkle_root sha256) built
                            ∙ r
                            ∙ ap returns (sym same.same_root);
                        reaches_target = accepts;
                      }
                ]
        ]

  CoinbaseResult-cases :
      (r : CoinbaseResult)
      → ((tx : Transaction) × (r ≡ coinbase tx))
        ⊎ ((r ≡ invalid_coinbase_value) ⊎ (r ≡ bad_miner_key))
  CoinbaseResult-cases (coinbase tx) = inl (tx, refl)
  CoinbaseResult-cases invalid_coinbase_value = inr (inl refl)
  CoinbaseResult-cases bad_miner_key = inr (inr refl)

  Sealing-IsMined :
      (header : BlockHeader) (b b' : Block) (tx : Transaction) (current_block_height : ℕ)
      → sum_outputs 0 tx.outputs
        ≡ add64 0
            (add64 (subsidy_at ((current_block_height + 1) % 2 ^ 32)) (get_block_fees false b))
      → Sealing header (tx ∷ b.all_block_tx) b'
      → IsMined header b b' current_block_height
  Sealing-IsMined header b b' tx height total s = record {
    left = s.left;
    tx = tx;
    has_header = ap (λ c. c.header) s.built;
    prepended = ap (λ c. c.all_block_tx) s.built;
    same_previous = s.same_previous;
    same_bits = s.same_bits;
    root = s.root;
    coinbase_passes =
        ap (λ c. validate_coinbase c ((height + 1) % 2 ^ 32)) s.built
        ∙ validate_coinbase-seal (some s.left) b tx ((height + 1) % 2 ^ 32) total;
    reaches_target = s.reaches_target;
  }

  mine_valid-IsMined :
      (fuel : ℕ) (w w' : World cs) (header : BlockHeader) (b b' : Block) (current_block_height : ℕ)
      (key : Ecdsa.Key ecdsa)
      → mine_valid sha256 ecdsa signer cs fuel w header b current_block_height key ≡ done w' b'
      → IsMined header b b' current_block_height
  unfolding mine_valid
  mine_valid-IsMined fuel w w' header b b' height key p =
      elim (Bool-cases (ltb max_number_of_txs_in_block (length b.all_block_tx))) [
        | inl many ↦ absurd (no_error (rw (mine_valid, many) at p))
        | inr few ↦
            let value = add64 (subsidy_at ((height + 1) % 2 ^ 32)) (get_block_fees false b) in
            elim (CoinbaseResult-cases
              (new_coinbase_transaction sha256 ecdsa signer coinbase_msg value key height)) [
                | inr (inl bad) ↦ absurd (no_error (rw (mine_valid, few, bad) at p))
                | inr (inr bad) ↦ absurd (no_error (rw (mine_valid, few, bad) at p))
                | inl (tx, made) ↦
                    Sealing-IsMined header b b' tx height
                      (coinbase_total sha256 ecdsa signer coinbase_msg value key height tx made)
                      (seal-Sealing fuel w w' header (tx ∷ b.all_block_tx) b'
                        (rw (mine_valid, few, made) at p))
              ]
      ]

  -- When `MineBlock` returns a nil error, the block had a header and has now a coinbase in front of
  -- the transactions it had, and a header with the same previous hash and target bits. The coinbase
  -- passes `ValidateCoinbase` at the next height, the header has the Merkle root of all transactions,
  -- and its double hash is below its target.
  pub mine_block-IsMined :
      (fuel : ℕ) (w w' : World cs) (b b' : Block) (current_block_height : ℕ) (key : Ecdsa.Key ecdsa)
      → mine_block sha256 ecdsa signer cs fuel w b current_block_height key ≡ returns (w', b', none)
      → (header : BlockHeader) × (b.header ≡ some header) × IsMined header b b' current_block_height
  unfolding mine_block
  mine_block-IsMined fuel w w' b b' h key p = elim (Option-cases b.header) [
    | inl hd ↦ absurd (no_panic (rw (mine_block, hd) at p))
    | inr (header, hd) ↦
        elim (Outcome-cases (validate_block_tx sha256 ecdsa cs w (zeroed header))) [
          | inr (inl v) ↦ absurd (no_panic (rw (mine_block, hd, v) at p))
          | inr (inr v) ↦ absurd (no_end (rw (mine_block, hd, v) at p))
          | inl ((w'', some e), v) ↦ absurd (no_error (rw (mine_block, hd, v) at p))
          | inl ((w'', none), v) ↦ (
            header,
            hd,
            IsMined_zeroed header (
                mine_valid-IsMined fuel w'' w' (record header { timestamp = 0 }) (zeroed header) b'
                  h key (rw (mine_block, hd, v) at p)),
          )
        ]
  ]
    where
      zeroed : BlockHeader → Block
      zeroed header = record b { header = some (record header { timestamp = 0 }) }

      IsMined_zeroed :
          (header : BlockHeader)
          → IsMined (record header { timestamp = 0 }) (zeroed header) b' h
          → IsMined header b b' h
      IsMined_zeroed header m = record {
        left = m.left;
        tx = m.tx;
        has_header = m.has_header;
        prepended = m.prepended;
        same_previous = m.same_previous;
        same_bits = m.same_bits;
        root = m.root;
        coinbase_passes = m.coinbase_passes;
        reaches_target = m.reaches_target;
      }
