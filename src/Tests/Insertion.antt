-- ===== src/Tests/Insertion.antt =====
-- `InsertBlock` over the chainstate of `Tests.Confirmation`.
use plairo.Common.{◌≡◌, refl, Outcome, returns, bytes_eq, slice}
use plairo.Common.{[], ◌∷◌, Option, none, some}
use plairo.Core.Metadata.{read_bit_vector, read_no_of_outputs, read_bits}
use plairo.Core.Metadata.RoundTrip.{metadata_of}
use plairo.Core.Mempool.{remove_block, remove_all}
use plairo.Core.Block.{
  Block, get_block_fees, sum_fees, generate_block_merkle_root, get_block_header,
}
use plairo.Core.BlockCheck.{
  validate_block, validate_block_tx, validate_txs, check_rest, validate_coinbase, subsidy_at,
  clean_up_inputs, confirm_as_valid, confirm_txs,
}
use plairo.Core.Blockchain.{create_genesis_node, create_blockchain, ChainError, Ledger}
use plairo.Core.Blockchain.Insert.{insert_block, insert_at_end, store_block}
use plairo.Core.Header.{get_hash, serialize_header}
use plairo.Core.Fees.{sum_outputs}
use plairo.Core.Transaction.{is_spent, all_spent, serialize_tx_metadata, serialize_unspent}
use plairo.Core.Output.{output_id_of}
use plairo.Utils.Serializer.{serialize_uint32, serialize_uint64, deserialize_uint32}
use plairo.Utils.OneHot.{serialize_to_one_hot, pack_loop, store, store_last}
use plairo.Utils.OneHot.Packed.{packed}
use plairo.Utils.Merkle.{compute_merkle_root}
use plairo.Db.Wrapper.{get_value, build_key, put_in_batch, write_batch, remove_value}
use plairo.Db.Chainstate.{get_tx, remove_utxo, remove_tx, insert_batch_tx}
use plairo.Db.Chainstate.UtxoSet.{add_txs}
use plairo.Db.Chainstate.UtxoSet.Kept.{IsUtxoStore, insert_block-IsUtxoStore}
use plairo.Tests.Encodings.{two_outputs}
use plairo.Tests.Store.{pairs, pairs-IsStore}
use plairo.Tests.Validation.{toy_hash, toy_ecdsa}
use plairo.Tests.Blocks.{toy_header}
use plairo.Tests.Ledgers.{genesis, cs, toy_storage, accepting}
use plairo.Tests.Confirmation.{
  pairs-IsBatchStore, nothing_unspent, saved-Shows, spending, spending-CanStore, before,
}

abbrev ledger : Ledger cs toy_storage
ledger = record { blockchain = create_blockchain genesis; world = before; storage = [] }

abbrev block : Block
block = record {
  header = some (record toy_header {
    previous_block_hash = get_hash toy_hash (create_genesis_node genesis).header;
    merkle_root = spending.txid;
  });
  all_block_tx = spending ∷ [];
}

abbrev Call : Type 0
Call = Outcome (Ledger cs toy_storage × Option (ChainError cs toy_storage))

abbrev call : Call
call = insert_block toy_hash toy_ecdsa cs toy_storage accepting ledger block 1

abbrev ledger_of : Call → Ledger cs toy_storage
ledger_of (returns (l, e)) = l
ledger_of _ = ledger

inserts : call ≡ returns (ledger_of call, none)
unfolding insert_block create_blockchain insert_at_end bytes_eq get_hash serialize_header
    create_genesis_node serialize_uint64 serialize_uint32 validate_block validate_block_tx
    validate_txs check_rest validate_coinbase subsidy_at get_block_fees sum_fees sum_outputs
    generate_block_merkle_root get_block_header clean_up_inputs confirm_as_valid confirm_txs
    store_block compute_merkle_root output_id_of remove_utxo get_tx get_value build_key
    insert_batch_tx put_in_batch write_batch is_spent all_spent serialize_tx_metadata
    serialize_unspent serialize_to_one_hot pack_loop store_last store read_bit_vector
    read_no_of_outputs slice metadata_of packed deserialize_uint32 read_bits remove_tx remove_value
    remove_block remove_all
inserts = refl

insert_block-IsUtxoStore_example : IsUtxoStore toy_hash pairs (ledger_of call).world.cstate
insert_block-IsUtxoStore_example =
    insert_block-IsUtxoStore toy_hash toy_ecdsa pairs pairs-IsStore pairs-IsBatchStore toy_storage
      accepting ledger (ledger_of call) block 1 none
      (add_txs nothing_unspent (two_outputs ∷ []), [], saved-Shows, tt) (spending-CanStore, tt)
      inserts
