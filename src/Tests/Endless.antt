-- ===== src/Tests/Endless.antt =====
-- A block that fails nothing but the header check, with the toy scheme of `Tests.Validation` and
-- hashes of 32 bytes.
use plairo.Common.{
  ℕ, bytes_eq, slice, ◌+◌, ◌≡◌, refl, arith, ◌↔◌, Outcome, returns, runs_on, replicate, List, [],
  ◌∷◌, ◌++◌, map, some, true,
}
use plairo.Utils.Merkle.{compute_merkle_root, hash_pairs, repeat_last}
use plairo.Utils.Merkle.Rounds.{IsMerkleRoot}
use plairo.Utils.Serializer.{
  serialize_uint32, serialize_uint64, deserialize_uint32, deserialize_uint64,
}
use plairo.Core.Output.{equal, generate_output_id, new_transaction_output, output_id_of}
use plairo.Core.Fees.{
  value_is_valid, get_fees, sum_inputs, sum_outputs, get_minimum_fees, get_total_fee_in_ticks,
}
use plairo.Core.Signing.{new_coinbase_transaction}
use plairo.Core.Transaction.{
  Transaction, update_outputs, update_from, generate_txid, serialize, serialize_inputs,
  serialize_outputs,
}
use plairo.Core.Validate.{
  validate_transaction, check_inputs, check_input, check_amounts, check_outputs, has_duplicate,
  is_seen, split_last, blank_signatures, gather_signature_data, verify_signature,
}
use plairo.Core.Validate.Exact.{AllDistinct}
use plairo.Core.Header.{
  BlockHeader, serialize_header, validate_block_header, read_timestamp, read_nonce,
}
use plairo.Core.Header.Laws.{IsHeader}
use plairo.Core.Block.{
  Block, behind_coinbase, get_block_fees, sum_fees, generate_block_merkle_root, get_block_header,
}
use plairo.Core.BlockCheck.{
  validate_block, validate_block_tx, validate_txs, mark_spent, check_rest, validate_coinbase,
  subsidy_at,
}
use plairo.Core.BlockCheck.Exact.{AllValid, inputs_of}
use plairo.Core.BlockCheck.Paid.{IsPaid, validate_coinbase-IsPaid}
use plairo.Core.BlockCheck.Endless.{validate_block-endless}
use plairo.Tests.Validation.{toy_hash, toy_ecdsa, payment, funds}
use plairo.Tests.Blocks.{toy_state, toy_world, toy_header, reward}

abbrev wide_hash : List ℕ → List ℕ
wide_hash msg = toy_hash msg ++ replicate 30 0

abbrev wide_payment : Transaction
wide_payment = record payment {
  inputs =
      record {
        output_referred = funds;
        script_sig = (8 ∷ 9 ∷ wide_hash (gather_signature_data wide_hash payment 0 1)) ++ (1 ∷ []);
      }
      ∷ [];
}

abbrev txs : List Transaction
txs = reward ∷ wide_payment ∷ []

abbrev root_of : Outcome (List ℕ) → List ℕ
root_of (returns root) = root
root_of _ = []

abbrev rooted_header : BlockHeader
rooted_header = record toy_header {
  merkle_root = root_of (
      generate_block_merkle_root wide_hash
        (record { header = some toy_header; all_block_tx = txs }));
}

abbrev rooted : Block
rooted = record { header = some rooted_header; all_block_tx = txs }

rooted_header-IsHeader : IsHeader rooted_header
unfolding generate_block_merkle_root compute_merkle_root hash_pairs repeat_last
rooted_header-IsHeader = record {
  previous_length = refl;
  merkle_length = refl;
  timestamp_range = omega arith;
  nonce_range = omega arith;
  target_range = omega arith;
}

runs_without_end :
    validate_block wide_hash toy_ecdsa toy_state
      (validate_block_header wide_hash (λ i. 1700000000 + i) 9 0)
      toy_world
      rooted
      1
    ≡ runs_on
unfolding validate_block validate_block_tx validate_txs mark_spent check_rest validate_coinbase
    subsidy_at get_block_fees sum_fees get_fees sum_inputs sum_outputs generate_block_merkle_root
    compute_merkle_root hash_pairs repeat_last get_block_header validate_transaction check_inputs
    check_input check_amounts check_outputs has_duplicate is_seen split_last blank_signatures
    gather_signature_data verify_signature get_minimum_fees get_total_fee_in_ticks value_is_valid
    equal serialize output_id_of serialize_uint32 serialize_inputs serialize_uint64
    serialize_outputs validate_block_header serialize_header read_timestamp read_nonce bytes_eq
    new_coinbase_transaction update_outputs update_from generate_txid generate_output_id
    new_transaction_output slice deserialize_uint64 deserialize_uint32
runs_without_end = refl

validate_block-endless_example :
    (validate_block wide_hash toy_ecdsa toy_state
        (validate_block_header wide_hash (λ i. 1700000000 + i) 9 0)
        toy_world
        rooted
        1
      ≡ runs_on)
    ↔ (AllValid wide_hash toy_ecdsa toy_state toy_world (behind_coinbase txs)
        × AllDistinct [] (inputs_of (behind_coinbase txs))
        × IsPaid rooted 1
        × IsMerkleRoot wide_hash (map (λ tx. tx.txid) txs) rooted_header.merkle_root)
validate_block-endless_example =
    validate_block-endless wide_hash toy_ecdsa toy_state (λ i. 1700000000 + i) 9 toy_world rooted 1
      rooted_header refl rooted_header-IsHeader (λ i. omega arith)

validate_coinbase-IsPaid_example : (validate_coinbase rooted 1 ≡ some true) ↔ IsPaid rooted 1
validate_coinbase-IsPaid_example = validate_coinbase-IsPaid rooted 1
