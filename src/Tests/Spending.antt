-- ===== src/Tests/Spending.antt =====
-- Two transactions in the mempool.
use plairo.Common.{
  ℕ, ◌+◌, ◌-◌, ◌*◌, ◌≡◌, refl, false, if◌then◌else◌, List, [], ◌∷◌, ◌++◌, Option, none, some, All,
  bytes_eq,
}
use plairo.Utils.Serializer.{serialize_uint32, serialize_uint64}
use plairo.Core.Output.{TransactionOutput, output_id_of, equal}
use plairo.Core.Transaction.{Transaction, serialize, serialize_inputs, serialize_outputs}
use plairo.Core.Fees.{
  get_fees, sum_inputs, sum_outputs, get_minimum_fees, get_total_fee_in_ticks, value_is_valid,
}
use plairo.Core.MemTree.{leaf, insert, insert_at_node, rebalance_insert, create_mem_tree_node}
use plairo.Core.Validate.{
  valid, check_outputs, split_last, blank_signatures, is_seen, has_duplicate, verify_signature,
  gather_signature_data, check_input, check_amounts, check_inputs, validate_transaction,
}
use plairo.Core.Mempool.{
  MemPool, PoolCall, accepted, is_referenced, mark_referenced, delete_tx, add_tx,
}
use plairo.Core.Mempool.Spending.{ArePairwiseApart, add_tx-ArePairwiseApart}
use plairo.Tests.Validation.{toy_hash, toy_ecdsa, output_of}

abbrev fund : ℕ → TransactionOutput
fund vout = output_of (3 ∷ []) vout (5000 - vout * 100) (8 ∷ 9 ∷ [])

abbrev toy_utxos : List ℕ → ℕ → Option (Option TransactionOutput)
toy_utxos txid vout = if bytes_eq txid (3 ∷ []) then some (some (fund vout)) else some none

abbrev unsigned : ℕ → Transaction
unsigned vout = record {
  txid = (4 + vout) ∷ [];
  tx_signature = [];
  block_height = 0;
  is_coinbase = false;
  inputs = record { output_referred = fund vout; script_sig = [] } ∷ [];
  outputs = output_of ((4 + vout) ∷ []) 0 3000 (6 ∷ []) ∷ [];
}

abbrev pay : ℕ → Transaction
pay vout = record (unsigned vout) {
  inputs =
      record {
        output_referred = fund vout;
        script_sig =
            (8 ∷ 9 ∷ toy_hash (gather_signature_data toy_hash (unsigned vout) 0 1)) ++ (1 ∷ []);
      }
      ∷ [];
}

abbrev empty : MemPool
empty = record { internal_tree = leaf; txmap = []; outs_referenced = [] }

-- The pool after a call that accepts.
abbrev pool_of : PoolCall → MemPool
pool_of (accepted mp) = mp
pool_of _ = empty

abbrev add : MemPool → ℕ → PoolCall
add mp vout = add_tx toy_hash toy_ecdsa toy_utxos mp (pay vout)

first : add empty 0 ≡ accepted (pool_of (add empty 0))
unfolding add_tx is_referenced mark_referenced delete_tx insert insert_at_node create_mem_tree_node
    get_fees sum_inputs sum_outputs validate_transaction check_inputs check_input check_amounts
    check_outputs has_duplicate is_seen split_last blank_signatures gather_signature_data
    verify_signature get_minimum_fees get_total_fee_in_ticks value_is_valid equal bytes_eq serialize
    output_id_of serialize_uint32 serialize_inputs serialize_uint64 serialize_outputs
first = refl

second : add (pool_of (add empty 0)) 1 ≡ accepted (pool_of (add (pool_of (add empty 0)) 1))
unfolding add_tx is_referenced mark_referenced delete_tx insert insert_at_node create_mem_tree_node
    get_fees sum_inputs sum_outputs validate_transaction check_inputs check_input check_amounts
    check_outputs has_duplicate is_seen split_last blank_signatures gather_signature_data
    verify_signature get_minimum_fees get_total_fee_in_ticks value_is_valid equal bytes_eq serialize
    output_id_of serialize_uint32 serialize_inputs serialize_uint64 serialize_outputs
    rebalance_insert
second = refl

add_tx-ArePairwiseApart_example :
    All (λ t. validate_transaction toy_hash toy_ecdsa toy_utxos t ≡ valid) (pay 0 ∷ pay 1 ∷ [])
    × ArePairwiseApart (pay 0 ∷ pay 1 ∷ [])
add_tx-ArePairwiseApart_example =
    add_tx-ArePairwiseApart toy_hash toy_ecdsa toy_utxos empty _ (pay 0 ∷ pay 1 ∷ [])
      (pool_of (add empty 0), first, (pool_of (add (pool_of (add empty 0)) 1), second, refl))
