-- ===== src/Core/Mempool.antt =====
-- core/mempool.go: the mempool around the tree. A map is the list of its keys, with their values in
-- `txmap`; `double_spent_output` and `tx_not_in_mempool` are the file's errors.
pub mod Spending
use plairo.Common.{ℕ, Bool, true, false, ◌||◌, if◌then◌else◌, bytes_eq}
use plairo.Common.{List, [], ◌∷◌, Option, none, some}
use plairo.Core.Output.{TransactionOutput, TransactionInput}
use plairo.Core.Transaction.{Transaction}
use plairo.Core.Fees.{get_fees}
use plairo.Core.MemTree.{MemTree, insert, remove_record, get_max_elements, done, panic, stuck}
use plairo.Core.Validate.{Ecdsa, TxError, valid, invalid, panicked, is_seen, validate_transaction}

pub record MemPool : Type 0 where
  pub internal_tree : MemTree
  pub txmap : List (List ℕ × ℕ)
  pub outs_referenced : List (List ℕ)

pub data PoolError : Type 0 where
  invalid_transaction : TxError → PoolError
  double_spent_output tx_not_in_mempool : PoolError

-- A call with a nil error, with an error (nothing is changed then), with a panic; `runs_on` is no Go
-- value: the fuel of the tree ran out.
pub data PoolCall : Type 0 where
  accepted : MemPool → PoolCall
  refused : PoolError → PoolCall
  panics runs_on : PoolCall

-- The first loop of `AddTX`.
unfoldable pub is_referenced : List (List ℕ) → List TransactionInput → Bool
is_referenced outs [] = false
is_referenced outs (inp ∷ inputs) =
    is_seen inp.output_referred.output_id outs || is_referenced outs inputs

-- The second loop: the keys that it sets.
unfoldable pub mark_referenced : List (List ℕ) → List TransactionInput → List (List ℕ)
mark_referenced outs [] = outs
mark_referenced outs (inp ∷ inputs) =
    let id = inp.output_referred.output_id in
    mark_referenced (if is_seen id outs then outs else id ∷ outs) inputs

unfoldable pub delete_key : List ℕ → List (List ℕ) → List (List ℕ)
delete_key key [] = []
delete_key key (x ∷ keys) = if bytes_eq key x then delete_key key keys else x ∷ delete_key key keys

unfoldable pub unmark_referenced : List (List ℕ) → List TransactionInput → List (List ℕ)
unmark_referenced outs [] = outs
unmark_referenced outs (inp ∷ inputs) =
    unmark_referenced (delete_key inp.output_referred.output_id outs) inputs

unfoldable pub has_tx : List (List ℕ × ℕ) → List ℕ → Bool
has_tx [] txid = false
has_tx ((x, fee) ∷ txmap) txid = bytes_eq txid x || has_tx txmap txid

unfoldable pub delete_tx : List (List ℕ × ℕ) → List ℕ → List (List ℕ × ℕ)
delete_tx [] txid = []
delete_tx ((x, fee) ∷ txmap) txid =
    if bytes_eq txid x then delete_tx txmap txid else (x, fee) ∷ delete_tx txmap txid

unfoldable pub remove_pool_tx : MemPool → Transaction → PoolCall
remove_pool_tx mp tx =
    if has_tx mp.txmap tx.txid
    then elim (remove_record mp.internal_tree (record { fee = get_fees tx; txid = tx.txid })) [
      | panic ↦ panics
      | stuck ↦ runs_on
      | done tree ↦ accepted (record {
        internal_tree = tree;
        txmap = delete_tx mp.txmap tx.txid;
        outs_referenced = unmark_referenced mp.outs_referenced tx.inputs;
      })
    ]
    else refused tx_not_in_mempool

-- The loop of `RemoveBlock` behind the coinbase; the errors are dropped.
unfoldable pub remove_all : MemPool → List Transaction → PoolCall
remove_all mp [] = accepted mp
remove_all mp (tx ∷ txs) = elim (remove_pool_tx mp tx) [
  | accepted mp' ↦ remove_all mp' txs
  | refused e ↦ remove_all mp txs
  | panics ↦ panics
  | runs_on ↦ runs_on
]

unfoldable pub remove_block : MemPool → List Transaction → PoolCall
remove_block mp [] = accepted mp
remove_block mp (coinbase ∷ txs) = remove_all mp txs

-- The transactions sent to the channel.
unfoldable pub get_max_txs : MemPool → ℕ → List Transaction
get_max_txs mp no_of_tx_to_get = (get_max_elements mp.internal_tree no_of_tx_to_get).0

module _ (sha256 : List ℕ → List ℕ) (ecdsa : Ecdsa)
    (get_utxo : List ℕ → ℕ → Option (Option TransactionOutput)) where
  unfoldable pub add_tx : MemPool → Transaction → PoolCall
  add_tx mp tx = elim (validate_transaction sha256 ecdsa get_utxo tx) [
    | invalid e ↦ refused (invalid_transaction e)
    | panicked ↦ panics
    | valid ↦
        if is_referenced mp.outs_referenced tx.inputs
        then refused double_spent_output
        else elim (insert mp.internal_tree tx) [
          | none ↦ panics
          | some tree ↦ accepted (record {
            internal_tree = tree;
            txmap = (tx.txid, get_fees tx) ∷ delete_tx mp.txmap tx.txid;
            outs_referenced = mark_referenced mp.outs_referenced tx.inputs;
          })
        ]
  ]
