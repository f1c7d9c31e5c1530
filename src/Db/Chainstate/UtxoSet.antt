-- ===== src/Db/Chainstate/UtxoSet.antt =====
-- The set of unspent outputs that a chainstate stands for, and what a block does to it.
pub mod Removal
pub mod Batching
pub mod Writing
pub mod Inputs
pub mod Confirm
pub mod Kept
use plairo.Common.{
  ◌++◌, ℕ, ◌==◌, ◌&&◌, ◌≡◌, ◌≢◌, ◌⊎◌, Bool, true, false, if◌then◌else◌, bytes_eq, Outcome, returns,
}
use plairo.Common.{List, [], ◌∷◌, ◌++◌, map, Option, none, some}
use plairo.Core.Output.{TransactionOutput, TransactionInput}
use plairo.Core.Transaction.{Transaction, is_spent}
use plairo.Core.Metadata.RoundTrip.{IsStorable, metadata_of}
use plairo.Core.Metadata.Bytes.{AreByteScripts}
use plairo.Db.Wrapper.{LevelDb, Reply, found, no_value, not_found, DbWrapper, build_key}
use plairo.Db.Chainstate.{tx_key, get_tx, get_utxo}
use plairo.Db.Chainstate.Lookup.{unspent_at}

-- The unspent output of a transaction at an index, if there is one.
abbrev pub UtxoSet : Type 0
UtxoSet = List ℕ → ℕ → Option TransactionOutput

abbrev pub spend_one : UtxoSet → List ℕ → ℕ → UtxoSet
spend_one u txid vout x v = if bytes_eq x txid && v == vout then none else u x v

abbrev pub add_one : UtxoSet → Transaction → UtxoSet
add_one u tx x v = if bytes_eq x tx.txid then unspent_at tx.outputs v else u x v

-- The outputs that the inputs refer to are taken out one after the other, or one is not there.
unfoldable pub spend_inputs : UtxoSet → List TransactionInput → Option UtxoSet
spend_inputs u [] = some u
spend_inputs u (inp ∷ inputs) = elim (u inp.output_referred.parent_txid inp.output_referred.vout) [
  | none ↦ none
  | some _ ↦
      spend_inputs (spend_one u inp.output_referred.parent_txid inp.output_referred.vout) inputs
]

-- The inputs of all transactions, each of which has an unspent output.
unfoldable pub spend_txs : UtxoSet → List Transaction → Option UtxoSet
spend_txs u [] = some u
spend_txs u (tx ∷ txs) = elim (spend_inputs u tx.inputs) [
  | none ↦ none
  | some u' ↦ elim (is_spent tx) [ true ↦ none | false ↦ spend_txs u' txs ]
]

unfoldable pub add_txs : UtxoSet → List Transaction → UtxoSet
add_txs u [] = u
add_txs u (tx ∷ txs) = add_txs (add_one u tx) txs

-- The transactions before the first one that has no unspent output, or an input without one.
pub record StopsBehind (u : UtxoSet) (txs done : List Transaction) : Type 0 where
  pub next : Transaction
  pub rest : List Transaction
  pub left : UtxoSet
  pub split : txs ≡ done ++ (next ∷ rest)
  pub spends_done : spend_txs u done ≡ some left
  pub stops : (spend_inputs left next.inputs ≡ none) ⊎ (is_spent next ≡ true)

-- What is asked of a database beyond `IsStore`: a batch writes its values in order.
abbrev pub last_write : List (List ℕ × List ℕ) → List ℕ → Reply → Reply
last_write [] key reply = reply
last_write ((j, value) ∷ batch) key reply =
    last_write batch key (if bytes_eq j key then found value else reply)

pub record IsBatchStore (l : LevelDb) : Type 0 where
  pub get-write :
      (d d' : LevelDb.Db l) (batch : List (List ℕ × List ℕ)) (key : List ℕ)
      → l.write d batch ≡ some d'
      → l.get d' key ≡ last_write batch key (l.get d key)

-- A call that changes the database returns an error.
abbrev pub Fails : (l : LevelDb) → LevelDb.Db l → Type 0
Fails l db =
    ((key : List ℕ) × (l.delete db key ≡ none))
    ⊎ (((key : List ℕ) × (value : List ℕ) × (l.put db key value ≡ none))
        ⊎ ((batch : List (List ℕ × List ℕ)) × (l.write db batch ≡ none)))

-- What a transaction must be to be stored.
abbrev pub CanStore : (List ℕ → List ℕ) → Transaction → Type 0
CanStore sha256 tx = IsStorable sha256 tx × AreByteScripts tx.outputs

-- The writes that `InsertBatchTX` leaves for these transactions.
abbrev pub batch_of : List Transaction → List (List ℕ × List ℕ)
batch_of txs = map (λ tx. (build_key tx_key tx.txid, metadata_of tx)) txs

abbrev pub pending : List Transaction → Option (List (List ℕ × List ℕ))
pending [] = none
pending (tx ∷ txs) = some (batch_of (tx ∷ txs))

module _ (sha256 : List ℕ → List ℕ) (l : LevelDb) where
  -- The record of a storable transaction.
  pub record HoldsRecord (c : DbWrapper l) (txid : List ℕ) : Type 0 where
    pub tx : Transaction
    pub can_store : CanStore sha256 tx
    pub same_txid : tx.txid ≡ txid
    pub reads : get_tx sha256 l c txid ≡ returns (found (metadata_of tx))

  -- A chainstate without obfuscation, with nothing but records of storable transactions, that shows
  -- the set and keeps the writes for some transactions.
  pub record Shows (c : DbWrapper l) (u : UtxoSet) (txs : List Transaction) : Type 0 where
    pub is_plain : c.is_obfuscated ≡ false
    pub batch : c.current_batch ≡ pending txs
    pub records :
        (txid : List ℕ)
        → (get_tx sha256 l c txid ≡ returns (no_value not_found)) ⊎ HoldsRecord c txid
    pub shows : (txid : List ℕ) (vout : ℕ) → get_utxo sha256 l c txid vout ≡ returns (u txid vout)
