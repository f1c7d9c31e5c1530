-- ===== src/Tests/Blocks.antt =====
-- Blocks of one payment, with the toy scheme of `Tests.Validation`.
use plairo.Common.{
  ℕ, ◌+◌, ◌≡◌, refl, arith, true, false, Outcome, returns, panics, bytes_eq, if◌then◌else◌,
  replicate,
}
use plairo.Common.{[], ◌∷◌, ◌++◌, Option, none, some}
use plairo.Utils.Serializer.{serialize_uint32, serialize_uint64}
use plairo.Utils.Target.{copy, expand_bits, bytes_less}
use plairo.Core.Output.{generate_output_id, new_transaction_output, output_id_of}
use plairo.Core.Fees.{value_is_valid, get_fees, sum_inputs, sum_outputs}
use plairo.Utils.Merkle.{compute_merkle_root, hash_pairs, repeat_last}
use plairo.Core.Transaction.{
  Transaction, update_outputs, update_from, generate_txid, serialize, serialize_inputs,
  serialize_outputs,
}
use plairo.Core.MemTree.{leaf}
use plairo.Core.Signing.{CoinbaseResult, coinbase, new_coinbase_transaction}
use plairo.Core.Header.{BlockHeader, get_hash, serialize_header}
use plairo.Core.CState.{CState}
use plairo.Core.Block.{Block, get_block_fees, sum_fees, generate_block_merkle_root}
use plairo.Core.BlockCheck.{World, BlockError, validate_block_tx, validate_txs, subsidy_at}
use plairo.Core.Mining.{
  coinbase_msg, mine_loop, turn, compute_block_merkle_root, seal, mine_valid, mine_block,
}
use plairo.Core.Mining.Search.{Search, tries, mine_loop-Search}
use plairo.Core.Mining.Sealed.{IsMined, mine_block-IsMined}
use plairo.Tests.Validation.{toy_hash, toy_ecdsa, toy_utxos, payment}
use plairo.Tests.Signing.{toy_signer}

-- A chainstate with the one output of `Tests.Validation`.
abbrev pub toy_state : CState
toy_state = record {
  State = ℕ;
  Error = ℕ;
  get_utxo =
      λ state txid vout. elim (toy_utxos txid vout) [ none ↦ panics | some utxo ↦ returns utxo ];
  get_tx = λ state txid. returns none;
  remove_utxo = λ state txid vout.
      if bytes_eq txid (3 ∷ []) then returns (state + 1, true) else returns (state, false);
  insert_batch_tx = λ state tx. returns (state, none);
  write_batch_tx = λ state. (state, none);
}

abbrev pub toy_world : World toy_state
toy_world = record {
  mempool = record { internal_tree = leaf; txmap = []; outs_referenced = [] };
  cstate = 0;
}

abbrev pub transaction_of : CoinbaseResult → Transaction
transaction_of (coinbase tx) = tx
transaction_of _ = payment

abbrev pub reward : Transaction
reward =
    transaction_of
      (new_coinbase_transaction toy_hash toy_ecdsa toy_signer coinbase_msg 50000 (8 ∷ 9 ∷ []) 0)

pub reward_is_made :
    new_coinbase_transaction toy_hash toy_ecdsa toy_signer coinbase_msg 50000 (8 ∷ 9 ∷ []) 0
    ≡ coinbase reward
unfolding new_coinbase_transaction value_is_valid
reward_is_made = refl

abbrev pub toy_header : BlockHeader
toy_header = record {
  previous_block_hash = replicate 32 7;
  merkle_root = [];
  timestamp = 0;
  nonce = 0xfffffffe;
  target_bits = 0x20ffffff;
}

abbrev rewarded : Block
rewarded = record { header = some toy_header; all_block_tx = reward ∷ payment ∷ [] }

expands :
    expand_bits (serialize_uint32 toy_header.target_bits false)
    ≡ some ((255 ∷ 255 ∷ 255 ∷ []) ++ replicate 29 0)
unfolding expand_bits serialize_uint32 copy
expands = refl

mine_loop-Search_example :
    Search toy_hash
      ((255 ∷ 255 ∷ 255 ∷ []) ++ replicate 29 0)
      toy_header
      (mine_loop toy_hash (tries toy_header) toy_header 0)
mine_loop-Search_example =
    mine_loop-Search toy_hash ((255 ∷ 255 ∷ 255 ∷ []) ++ replicate 29 0) (tries toy_header)
      toy_header (omega arith) (omega arith) expands (omega arith)

abbrev unmined : Block
unmined = record { header = some toy_header; all_block_tx = payment ∷ [] }

abbrev block_of : Outcome (World toy_state × Block × Option (BlockError toy_state)) → Block
block_of (returns (w, b, e)) = b
block_of _ = unmined

abbrev mined_block : Block
mined_block =
    block_of (mine_block toy_hash toy_ecdsa toy_signer toy_state 5 toy_world unmined 0 (8 ∷ 9 ∷ []))

mines :
    mine_block toy_hash toy_ecdsa toy_signer toy_state 5 toy_world unmined 0 (8 ∷ 9 ∷ [])
    ≡ returns (toy_world, mined_block, none)
unfolding mine_block validate_block_tx validate_txs mine_valid new_coinbase_transaction
    value_is_valid subsidy_at get_block_fees sum_fees get_fees sum_inputs sum_outputs seal
    compute_block_merkle_root generate_block_merkle_root compute_merkle_root hash_pairs repeat_last
    mine_loop turn get_hash serialize_header bytes_less copy expand_bits serialize_uint32
    serialize_uint64 update_outputs update_from generate_txid serialize serialize_inputs
    serialize_outputs generate_output_id new_transaction_output output_id_of
mines = refl

mine_block-IsMined_example :
    (header : BlockHeader) × (unmined.header ≡ some header)
    × IsMined toy_hash toy_ecdsa toy_signer toy_state header unmined mined_block 0
mine_block-IsMined_example =
    mine_block-IsMined toy_hash toy_ecdsa toy_signer toy_state 5 toy_world toy_world unmined
      mined_block 0 (8 ∷ 9 ∷ []) mines
