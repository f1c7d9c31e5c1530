-- ===== src/Tests/Ledgers.antt =====
-- A ledger over the chainstate of `Db.Chainstate`, with one block before `InsertBlock`.
use plairo.Common.{ℕ, suc, ◌≡◌, ◌≢◌, refl, false, Outcome, returns, replicate, bytes_eq}
use plairo.Common.{List, [], ◌∷◌, Option, none, some, slice}
use plairo.Core.MemTree.{leaf}
use plairo.Core.Header.{Verdict, get_hash, serialize_header, validate_block_header}
use plairo.Utils.Serializer.{serialize_uint32, serialize_uint64, deserialize_uint64}
use plairo.Utils.Merkle.{compute_merkle_root}
use plairo.Core.Output.{generate_output_id, new_transaction_output, output_id_of}
use plairo.Core.Transaction.{
  update_outputs, update_from, generate_txid, serialize, serialize_inputs, serialize_outputs,
}
use plairo.Core.Fees.{value_is_valid, sum_outputs}
use plairo.Core.Signing.{new_coinbase_transaction}
use plairo.Core.Block.{get_block_fees, sum_fees, generate_block_merkle_root, get_block_header}
use plairo.Core.BlockCheck.{
  validate_block, validate_block_tx, validate_txs, check_rest, validate_coinbase, subsidy_at,
  clean_up_inputs, confirm_as_valid, confirm_txs,
}
use plairo.Core.CState.{CState}
use plairo.Core.Block.{Block}
use plairo.Core.Blockchain.{
  Genesis, create_genesis_node, create_blockchain, get_header_at, IStorage, ChainError, Ledger,
}
use plairo.Core.Blockchain.Insert.{insert_block, insert_at_end, store_block}
use plairo.Core.Blockchain.Single.{
  Reachable, created, after_block, IsSingle, Reachable-IsSingle, get_header_at-Reachable,
}
use plairo.Core.Blockchain.Refused.{insert_block-coinbase}
use plairo.Core.Blockchain.OwnHeader.{insert_block-own_header}
use plairo.Core.Mining.{coinbase_msg}
use plairo.Db.Chainstate.{get_tx, remove_utxo}
use plairo.Db.Chainstate.Interface.{chainstate}
use plairo.Db.Wrapper.{get_value, build_key}
use plairo.Tests.Store.{pairs}
use plairo.Tests.Unspent.{inserted}
use plairo.Tests.Validation.{toy_hash, toy_ecdsa}
use plairo.Tests.Signing.{toy_signer}
use plairo.Tests.Blocks.{reward, reward_is_made, toy_header}

abbrev pub genesis : Genesis
genesis = record { merkle_root = replicate 32 0; target_bits = 0x1fffffff; nonce = 7 }

-- A storage of the blocks written.
abbrev pub toy_storage : IStorage
toy_storage = record {
  Storage = List Block;
  Error = ℕ;
  write_block = λ blocks block undo height. returns (block ∷ blocks, none);
}

abbrev pub accepting : List ℕ → Verdict
accepting bytes = Verdict.accepted

abbrev pub cs : CState
cs = chainstate toy_hash pairs

abbrev start : Ledger cs toy_storage
start = record {
  blockchain = create_blockchain genesis;
  world = record {
    mempool = record { internal_tree = leaf; txmap = []; outs_referenced = [] };
    cstate = inserted;
  };
  storage = [];
}

abbrev first_block : Block
first_block = record {
  header = some (record toy_header {
    previous_block_hash = get_hash toy_hash (create_genesis_node genesis).header;
    merkle_root = reward.txid;
  });
  all_block_tx = reward ∷ [];
}

abbrev Call : Type 0
Call = Outcome (Ledger cs toy_storage × Option (ChainError cs toy_storage))

abbrev call : Call
call = insert_block toy_hash toy_ecdsa cs toy_storage accepting start first_block 1

abbrev ledger_of : Call → Ledger cs toy_storage
ledger_of (returns (l, e)) = l
ledger_of _ = start

abbrev error_of : Call → Option (ChainError cs toy_storage)
error_of (returns (l, e)) = e
error_of _ = none

abbrev pub left : Ledger cs toy_storage
left = ledger_of call

returned : call ≡ returns (left, error_of call)
unfolding insert_block create_blockchain insert_at_end bytes_eq get_hash serialize_header
    create_genesis_node serialize_uint64 serialize_uint32 validate_block validate_block_tx
    validate_txs check_rest validate_coinbase subsidy_at get_block_fees sum_fees sum_outputs
    generate_block_merkle_root get_block_header clean_up_inputs confirm_as_valid confirm_txs
    store_block compute_merkle_root new_coinbase_transaction value_is_valid update_outputs
    update_from generate_txid serialize serialize_inputs serialize_outputs generate_output_id
    new_transaction_output output_id_of remove_utxo get_tx get_value build_key
returned = refl

pub left-Reachable : Reachable toy_hash toy_ecdsa cs toy_storage accepting genesis left
left-Reachable =
    after_block first_block 1 (error_of call) (created start.world start.storage) returned

Reachable-IsSingle_example : IsSingle genesis left.blockchain
Reachable-IsSingle_example =
    Reachable-IsSingle toy_hash toy_ecdsa cs toy_storage accepting genesis left left-Reachable

get_header_at-Reachable_example : get_header_at left.blockchain 1 ≡ some none
unfolding create_genesis_node
get_header_at-Reachable_example =
    get_header_at-Reachable toy_hash toy_ecdsa cs toy_storage accepting genesis left 1
      left-Reachable

missing : remove_utxo toy_hash pairs inserted (replicate 32 0) 0 ≡ returns (inserted, false)
unfolding remove_utxo get_tx get_value build_key bytes_eq
missing = refl

insert_block-coinbase_example :
    insert_block toy_hash toy_ecdsa cs toy_storage accepting start first_block 1
    ≢ returns (left, none)
insert_block-coinbase_example =
    insert_block-coinbase toy_hash toy_ecdsa toy_signer cs toy_storage accepting genesis start left
      first_block 1 coinbase_msg 50000 (8 ∷ 9 ∷ []) 0 reward [] (created start.world start.storage)
      reward_is_made refl missing

-- A clock that stands before the header's timestamp.
abbrev early_clock : ℕ → ℕ
early_clock i = suc i

abbrev late_block : Block
late_block = record first_block {
  header = some (record toy_header {
    previous_block_hash = get_hash toy_hash (create_genesis_node genesis).header;
    merkle_root = reward.txid;
    timestamp = 9;
  });
}

abbrev late_call : Call
late_call =
    insert_block toy_hash toy_ecdsa cs toy_storage (validate_block_header toy_hash early_clock 2 0)
      start late_block 1

late_returned : late_call ≡ returns (ledger_of late_call, error_of late_call)
unfolding insert_block create_blockchain insert_at_end bytes_eq get_hash serialize_header
    create_genesis_node serialize_uint64 serialize_uint32 validate_block validate_block_tx
    validate_txs check_rest validate_coinbase subsidy_at get_block_fees sum_fees sum_outputs
    generate_block_merkle_root get_block_header compute_merkle_root new_coinbase_transaction
    value_is_valid update_outputs update_from generate_txid serialize serialize_inputs
    serialize_outputs generate_output_id new_transaction_output output_id_of validate_block_header
    slice deserialize_uint64
late_returned = refl

insert_block-own_header_example :
    (start.blockchain ≡ (ledger_of late_call).blockchain) × (error_of late_call ≢ none)
insert_block-own_header_example =
    insert_block-own_header toy_hash toy_ecdsa cs toy_storage early_clock 2 start
      (ledger_of late_call) late_block 1 (error_of late_call) late_returned
