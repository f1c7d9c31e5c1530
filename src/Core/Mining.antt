-- ===== src/Core/Mining.antt =====
-- `MineBlock` and `ComputeMerkleRoot` of core/block.go. Its loop is on fuel.
pub mod Search
pub mod Left
pub mod Sealed
use plairo.Common.{
  ℕ, zero, suc, ◌+◌, ◌%◌, ◌^◌, ◌==◌, ltb, Bool, true, false, if◌then◌else◌, Outcome, returns,
  panics, runs_on,
}
use plairo.Common.{List, [], ◌∷◌, length, Option, none, some}
use plairo.Utils.Serializer.{serialize_uint32}
use plairo.Utils.Target.{expand_bits, bytes_less}
use plairo.Core.Transaction.{Transaction}
use plairo.Core.Fees.{add64}
use plairo.Core.Validate.{Ecdsa}
use plairo.Core.Signing.{
  Signer, coinbase, invalid_coinbase_value, bad_miner_key, new_coinbase_transaction,
}
use plairo.Core.Header.{BlockHeader, get_hash}
use plairo.Core.CState.{CState}
use plairo.Core.Block.{Block, get_block_fees, generate_block_merkle_root}
use plairo.Core.BlockCheck.{
  World, BlockError, exceeded_max_tx, stale_block, invalid_coinbase, bad_miner, subsidy_at,
  validate_block_tx,
}

abbrev pub max_number_of_txs_in_block : ℕ
max_number_of_txs_in_block = 1000

-- "coinbase"
abbrev pub coinbase_msg : List ℕ
coinbase_msg = 99 ∷ 111 ∷ 105 ∷ 110 ∷ 98 ∷ 97 ∷ 115 ∷ 101 ∷ []

-- What one turn of the loop comes to.
pub data Turn : Type 0 where
  mined turn_panics : Turn
  stale : BlockHeader → Turn
  again : BlockHeader → ℕ → Turn

-- The next nonce, and the next second when all nonces were tried.
unfoldable pub next_try : BlockHeader → ℕ → Turn
next_try header time_bumps =
    let tried = record header { nonce = (header.nonce + 1) % 2 ^ 32 } in
    if tried.nonce == 0
    then if ltb time_bumps 30
      then again (record tried { timestamp = (header.timestamp + 1) % 2 ^ 64 }) (time_bumps + 1)
      else stale tried
    else again tried time_bumps

module _ (sha256 : List ℕ → List ℕ) where
  unfoldable pub turn : BlockHeader → ℕ → Turn
  turn header time_bumps = elim (expand_bits (serialize_uint32 header.target_bits false)) [
    | none ↦ turn_panics
    | some target ↦
        if bytes_less (get_hash sha256 header) target then mined else next_try header time_bumps
  ]

  -- The header that the loop leaves, and whether the block is stale.
  unfoldable pub mine_loop : ℕ → BlockHeader → ℕ → Outcome (BlockHeader × Bool)
  mine_loop zero header time_bumps = runs_on
  mine_loop (suc fuel) header time_bumps = elim (turn header time_bumps) [
    | mined ↦ returns (header, false)
    | turn_panics ↦ panics
    | stale header' ↦ returns (header', true)
    | again header' time_bumps' ↦ mine_loop fuel header' time_bumps'
  ]

  unfoldable pub compute_block_merkle_root : BlockHeader → Block → Outcome BlockHeader
  compute_block_merkle_root header b = elim (generate_block_merkle_root sha256 b) [
    | panics ↦ panics
    | runs_on ↦ runs_on
    | returns root ↦ returns (record header { merkle_root = root })
  ]

module _ (sha256 : List ℕ → List ℕ) (ecdsa : Ecdsa) (signer : Signer ecdsa) (cs : CState) where
  -- The globals, the block and the error.
  abbrev pub Mining : Type 0
  Mining = Outcome (World cs × Block × Option (BlockError cs))

  -- What follows the coinbase: the block with it, the Merkle root and the loop.
  unfoldable pub seal : ℕ → World cs → BlockHeader → List Transaction → Mining
  seal fuel w header txs =
      let b : Block = record { header = some header; all_block_tx = txs } in
      elim (compute_block_merkle_root sha256 header b) [
        | panics ↦ panics
        | runs_on ↦ runs_on
        | returns rooted ↦ elim (mine_loop sha256 fuel rooted 0) [
          | panics ↦ panics
          | runs_on ↦ runs_on
          | returns (left, is_stale) ↦
              returns
                (w, record b { header = some left }, if is_stale then some stale_block else none)
        ]
      ]

  unfoldable pub mine_valid : ℕ → World cs → BlockHeader → Block → ℕ → Ecdsa.Key ecdsa → Mining
  mine_valid fuel w header b current_block_height miner_pub_key =
      if ltb max_number_of_txs_in_block (length b.all_block_tx)
      then returns (w, b, some exceeded_max_tx)
      else elim (new_coinbase_transaction sha256 ecdsa signer coinbase_msg
          (add64 (subsidy_at ((current_block_height + 1) % 2 ^ 32)) (get_block_fees false b))
          miner_pub_key current_block_height) [
            | invalid_coinbase_value ↦ returns (w, b, some invalid_coinbase)
            | bad_miner_key ↦ returns (w, b, some bad_miner)
            | coinbase tx ↦ seal fuel w header (tx ∷ b.all_block_tx)
          ]

  -- The timestamp is set to the time and then to 0. A nil header panics.
  unfoldable pub mine_block : ℕ → World cs → Block → ℕ → Ecdsa.Key ecdsa → Mining
  mine_block fuel w b current_block_height miner_pub_key = elim b.header [
    | none ↦ panics
    | some header ↦
        let header : BlockHeader = record header { timestamp = 0 } in
        let b : Block = record b { header = some header } in
        elim (validate_block_tx sha256 ecdsa cs w b) [
          | panics ↦ panics
          | runs_on ↦ runs_on
          | returns (w', some e) ↦ returns (w', b, some e)
          | returns (w', none) ↦ mine_valid fuel w' header b current_block_height miner_pub_key
        ]
  ]
