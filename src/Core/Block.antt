-- ===== src/Core/Block.antt =====
-- `Block` of core/block.go: its data, its serialization, its undo record, its fees and Merkle root.
-- The header is nil (`none`) until one is set; every use of a nil header panics.
use plairo.Common.{
  ℕ, ◌+◌, ◌*◌, ◌-◌, ◌%◌, ◌^◌, Bool, false, if◌then◌else◌, Outcome, returns, panics, runs_on,
}
use plairo.Common.{List, [], ◌∷◌, ◌++◌, length, map, Option, none, some, ◌>>=◌}
use plairo.Utils.Serializer.{serialize_uint32, serialize_uint64}
use plairo.Utils.Merkle.{compute_merkle_root}
use plairo.Core.Output.{TransactionInput, double_hash}
use plairo.Core.Transaction.{Transaction, serialize, length32, length64}
use plairo.Core.Fees.{add64, get_fees}
use plairo.Core.Metadata.{TxMetadataReader, read_block_height, read_is_coinbase}
use plairo.Core.Header.{BlockHeader, serialize_header, get_hash}
use plairo.Core.CState.{CState}

pub record Block : Type 0 where
  pub header : Option BlockHeader
  pub all_block_tx : List Transaction

unfoldable pub new_block : List Transaction → Block
new_block txs = record { header = none; all_block_tx = txs }

unfoldable pub get_no_of_tx : Block → ℕ
get_no_of_tx b = length b.all_block_tx

unfoldable pub get_block_header : Block → Option (List ℕ)
get_block_header b = b.header >>= λ header. some (serialize_header header)

-- The size of a transaction and its bytes.
unfoldable pub serialize_txs : List Transaction → List ℕ
serialize_txs [] = []
serialize_txs (tx ∷ txs) = (length32 (serialize tx) ++ serialize tx) ++ serialize_txs txs

unfoldable pub serialize_block : Block → Option (List ℕ)
serialize_block b = get_block_header b >>= λ header.
    some (header ++ (length32 b.all_block_tx ++ serialize_txs b.all_block_tx))

-- The loop of `GetBlockFees` behind the coinbase.
unfoldable pub sum_fees : ℕ → List Transaction → ℕ
sum_fees total [] = total
sum_fees total (tx ∷ txs) = sum_fees (add64 total (get_fees tx)) txs

unfoldable pub get_block_fees : Bool → Block → ℕ
get_block_fees contains_cb b = elim b.all_block_tx [
  | [] ↦ 0
  | tx ∷ txs ↦ if contains_cb then sum_fees 0 txs else sum_fees 0 (tx ∷ txs)
]

-- The loops skip index 0.
abbrev pub behind_coinbase : List Transaction → List Transaction
behind_coinbase [] = []
behind_coinbase (tx ∷ txs) = txs

module _ (sha256 : List ℕ → List ℕ) where
  unfoldable pub get_block_hash : Block → Option (List ℕ)
  get_block_hash b = b.header >>= λ header. some (get_hash sha256 header)

  -- With no transaction the recursion has no end.
  unfoldable pub generate_block_merkle_root : Block → Outcome (List ℕ)
  generate_block_merkle_root b =
      elim (compute_merkle_root sha256 (length b.all_block_tx)
        (map (λ tx. tx.txid) b.all_block_tx)) [ none ↦ runs_on | some root ↦ returns root ]

  module _ (cs : CState) (state : CState.State cs) where
    -- The undo record of one input: an error of `GetTX` panics.
    unfoldable pub undo_input : TransactionInput → Outcome (List ℕ)
    undo_input inp = elim (cs.get_tx state inp.output_referred.parent_txid) [
      | panics ↦ panics
      | runs_on ↦ runs_on
      | returns none ↦ panics
      | returns (some mt) ↦
          let tr : TxMetadataReader = record {
            txid = inp.output_referred.parent_txid;
            metadata = mt;
          } in
          let record_of : Option (List ℕ) = read_block_height tr >>= λ height.
          read_is_coinbase tr >>= λ is_coinbase.
          let h = if is_coinbase then add64 (2 * height % 2 ^ 64) 1 else 2 * height % 2 ^ 64 in
          some (
            serialize_uint64 h false
            ++ (length64 inp.output_referred.script_pub_key
                ++ (inp.output_referred.script_pub_key
                    ++ serialize_uint64 inp.output_referred.value false))) in
          elim record_of [ none ↦ panics | some bytes ↦ returns bytes ]
    ]

    abbrev pub append_undo : Outcome (List ℕ) → Outcome (List ℕ) → Outcome (List ℕ)
    append_undo (returns bytes) (returns rest) = returns (bytes ++ rest)
    append_undo (returns bytes) panics = panics
    append_undo (returns bytes) runs_on = runs_on
    append_undo panics rest = panics
    append_undo runs_on rest = runs_on

    unfoldable pub undo_inputs : List TransactionInput → Outcome (List ℕ)
    undo_inputs [] = returns []
    undo_inputs (inp ∷ inputs) = append_undo (undo_input inp) (undo_inputs inputs)

    unfoldable pub undo_txs : List Transaction → Outcome (List ℕ)
    undo_txs [] = returns []
    undo_txs (tx ∷ txs) = append_undo (undo_inputs tx.inputs) (undo_txs txs)

    -- The record and its checksum. `uint32(len - 1)` wraps around for no transaction.
    unfoldable pub get_undo_data : Block → Outcome (List ℕ × List ℕ)
    get_undo_data b = elim (undo_txs (behind_coinbase b.all_block_tx)) [
      | panics ↦ panics
      | runs_on ↦ runs_on
      | returns records ↦
          let res =
            serialize_uint32 ((length b.all_block_tx + 2 ^ 32 - 1) % 2 ^ 32) false ++ records in
          returns (res, double_hash sha256 res)
    ]
