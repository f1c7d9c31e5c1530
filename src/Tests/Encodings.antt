-- ===== src/Tests/Encodings.antt =====
-- Serializations and metadata at concrete inputs.
use plairo.Common.{ℕ, ◌+◌, ◌%◌, ◌≡◌, refl, arith, List, [], ◌∷◌, length, some, true, false}
use plairo.Utils.Serializer.{serialize_uint64}
use plairo.Utils.OneHot.{serialize_to_one_hot, pack_loop, store, store_last}
use plairo.Core.Output.{TransactionOutput, TransactionInput, output_id_of, double_hash}
use plairo.Core.Transaction.{Transaction, new_transaction, serialize, serialize_unspent}
use plairo.Core.Transaction.Identity.{IsUpdated, new_transaction-IsUpdated}
use plairo.Core.Metadata.RoundTrip.{IsStorable, ReadsBack, read-serialize_tx_metadata}

-- A stand-in for SHA-256.
abbrev pub sum : List ℕ → ℕ
sum [] = 0
sum (x ∷ xs) = x + sum xs

abbrev pub toy_hash : List ℕ → List ℕ
toy_hash msg = (length msg % 256) ∷ (sum msg % 256) ∷ []

one_hot_nine :
    serialize_to_one_hot (true ∷ true ∷ false ∷ true ∷ false ∷ false ∷ false ∷ false ∷ true ∷ [])
    ≡ some (1 ∷ 11 ∷ [])
unfolding serialize_to_one_hot pack_loop store_last store
one_hot_nine = refl

abbrev pub output_at : ℕ → ℕ → List ℕ → TransactionOutput
output_at vout value script = record {
  parent_txid = 5 ∷ 6 ∷ [];
  vout = vout;
  value = value;
  script_pub_key = script;
  output_id = output_id_of toy_hash (5 ∷ 6 ∷ []) vout;
  is_not_spent = true;
}

abbrev pub two_outputs : Transaction
two_outputs = record {
  txid = 5 ∷ 6 ∷ [];
  tx_signature = [];
  block_height = 77;
  is_coinbase = true;
  inputs = [];
  outputs =
      output_at 0 1000 (1 ∷ 2 ∷ 3 ∷ [])
      ∷ record (output_at 1 40 (9 ∷ [])) { is_not_spent = false }
      ∷ [];
}

pub two_outputs-IsStorable : IsStorable toy_hash two_outputs
two_outputs-IsStorable = record {
  height_range = omega arith;
  count_range = omega arith;
  outputs_ranges = omega arith;
  size_range = unfold serialize_unspent serialize_uint64 in omega arith;
  updated = (refl, refl, refl, (refl, refl, refl, tt));
}

read-serialize_tx_metadata_example : ReadsBack toy_hash two_outputs
read-serialize_tx_metadata_example =
    read-serialize_tx_metadata toy_hash two_outputs two_outputs-IsStorable

abbrev inputs : List TransactionInput
inputs = record { output_referred = output_at 3 1100 []; script_sig = 1 ∷ [] } ∷ []

new_transaction-IsUpdated_example :
    let t = new_transaction toy_hash inputs two_outputs.outputs in
    (t.inputs ≡ inputs)
    × (length t.outputs ≡ 2)
    × (t.txid ≡ double_hash toy_hash (serialize t))
    × IsUpdated toy_hash t.txid 0 t.outputs
new_transaction-IsUpdated_example =
    new_transaction-IsUpdated toy_hash inputs two_outputs.outputs (omega arith)
