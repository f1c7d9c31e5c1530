-- ===== src/Db/Chainstate.antt =====
-- db/chainstate.go: the unspent outputs of each transaction, over the database wrapper. The errors of
-- goleveldb besides `ErrNotFound` come with a nil value, which the code goes on to read.
pub mod Lookup
pub mod Spend
pub mod Only
pub mod Removed
pub mod Remove
pub mod Interface
pub mod UtxoSet
use plairo.Common.{Outcome, returns, panics, runs_on}
use plairo.Common.{
  ℕ, zero, suc, ◌+◌, ◌%◌, ◌^◌, ◌==◌, ltb, leb, not, ◌||◌, Bool, true, false, if◌then◌else◌,
}
use plairo.Common.{List, [], ◌∷◌, length, map, replicate, get_elem?, Option, none, some, ◌>>=◌}
use plairo.Core.Output.{TransactionOutput, new_transaction_output}
use plairo.Core.Transaction.{Transaction, is_spent, serialize_tx_metadata, new_transaction}
use plairo.Core.Metadata.{
  TxMetadataReader, read_no_of_outputs, read_bit_vector, read_outputs, vouts_slice,
}
use plairo.Db.Wrapper.{
  DbError, not_found, failed, Reply, found, no_value, LevelDb, DbWrapper, build_key, insert_value,
  put_in_batch, get_value, remove_value,
}

-- 'c'
abbrev pub tx_key : ℕ
tx_key = 0x63

pub data ChainstateError : Type 0 where
  spent_tx : ChainstateError
  db_error : DbError → ChainstateError

-- The record of a transaction that `GetTX` returned, `missing` for `ErrNotFound`.
abbrev pub with_record {ℓ} : {A : Type ℓ} → Outcome Reply → A → (List ℕ → Outcome A) → Outcome A
with_record (returns (found txmeta)) missing next = next txmeta
with_record (returns (no_value not_found)) missing next = returns missing
with_record (returns (no_value failed)) missing next = next []
with_record panics missing next = panics
with_record runs_on missing next = runs_on

abbrev pub or_panics {ℓ κ} : {A : Type ℓ} {B : Type κ} → Option A → (A → Outcome B) → Outcome B
or_panics none next = panics
or_panics (some a) next = next a

-- The first index of `vout` among the indices of the unspent outputs.
unfoldable pub find_vout : ℕ → List ℕ → Option ℕ
find_vout vout [] = none
find_vout vout (v ∷ vouts) =
    if v == vout then some 0 else (find_vout vout vouts >>= λ i. some (suc i))

-- `fakeouts[i] = outp`
unfoldable pub set_fakeout :
    List (Option TransactionOutput)
    → ℕ
    → TransactionOutput
    → Option (List (Option TransactionOutput))
set_fakeout [] i outp = none
set_fakeout (x ∷ fakeouts) zero outp = some (some outp ∷ fakeouts)
set_fakeout (x ∷ fakeouts) (suc i) outp = set_fakeout fakeouts i outp >>= λ rest. some (x ∷ rest)

-- The loop that places the outputs that remain.
unfoldable pub place_outputs :
    ℕ
    → List TransactionOutput
    → List (Option TransactionOutput)
    → Option (List (Option TransactionOutput))
place_outputs vout [] fakeouts = some fakeouts
place_outputs vout (outp ∷ outs) fakeouts =
    if outp.vout == vout
    then place_outputs vout outs fakeouts
    else (set_fakeout fakeouts outp.vout outp >>= λ placed. place_outputs vout outs placed)

abbrev pub is_only : List ℕ → ℕ → Bool
is_only (v ∷ []) vout = v == vout
is_only _ vout = false

module _ (sha256 : List ℕ → List ℕ) where
  -- `NewTransactionOutput([]byte{}, 0, 0, []byte{})`, marked as spent.
  abbrev pub fill_fakeout : Option TransactionOutput → TransactionOutput
  fill_fakeout none = record (new_transaction_output sha256 [] 0 0 []) { is_not_spent = false }
  fill_fakeout (some outp) = outp

module _ (sha256 : List ℕ → List ℕ) (l : LevelDb) where
  unfoldable pub insert_tx :
      DbWrapper l → Transaction → Outcome (DbWrapper l × Option ChainstateError)
  insert_tx c tx =
      if is_spent tx
      then returns (c, some spent_tx)
      else or_panics (serialize_tx_metadata tx) λ metadata.
        elim (insert_value l c (build_key tx_key tx.txid) metadata) [
          | returns (c', none) ↦ returns (c', none)
          | returns (c', some e) ↦ returns (c', some (db_error e))
          | panics ↦ panics
          | runs_on ↦ runs_on
        ]

  unfoldable pub insert_batch_tx :
      DbWrapper l → Transaction → Outcome (DbWrapper l × Option ChainstateError)
  insert_batch_tx c tx =
      if is_spent tx
      then returns (c, some spent_tx)
      else or_panics (serialize_tx_metadata tx)
          λ metadata. returns (put_in_batch l c (build_key tx_key tx.txid) metadata, none)

  unfoldable pub remove_tx : DbWrapper l → List ℕ → DbWrapper l × Option DbError
  remove_tx c txid = remove_value l c (build_key tx_key txid)

  unfoldable pub get_tx : DbWrapper l → List ℕ → Outcome Reply
  get_tx c txid = get_value l c (build_key tx_key txid)

  unfoldable pub utxo_exists : DbWrapper l → List ℕ → ℕ → Outcome Bool
  utxo_exists c txid vout = with_record (get_tx c txid) false λ txmeta.
      or_panics (read_bit_vector (record { txid = txid; metadata = txmeta })) λ (bitvec, vouts).
        if ltb (length bitvec % 2 ^ 32) vout
        then returns false
        else or_panics (get_elem? bitvec vout) returns

  unfoldable pub get_utxo : DbWrapper l → List ℕ → ℕ → Outcome (Option TransactionOutput)
  get_utxo c txid vout = with_record (get_tx c txid) none λ txmeta.
      let tr : TxMetadataReader = record { txid = txid; metadata = txmeta } in
      or_panics (read_bit_vector tr) λ (bv, vouts). elim (find_vout vout vouts) [
        | none ↦ returns none
        | some i ↦
            or_panics
              (read_outputs sha256 tr (some bv) (vouts_slice vouts) >>= λ outs. get_elem? outs i)
              λ outp. returns (some outp)
      ]

  -- A Boolean for the error of the last call.
  abbrev pub succeeded : Outcome (DbWrapper l × Option DbError) → Outcome (DbWrapper l × Bool)
  succeeded (returns (c, none)) = returns (c, true)
  succeeded (returns (c, some e)) = returns (c, false)
  succeeded panics = panics
  succeeded runs_on = runs_on

  unfoldable pub remove_utxo : DbWrapper l → List ℕ → ℕ → Outcome (DbWrapper l × Bool)
  remove_utxo c txid vout =
      with_record (get_tx c txid) (c, false)
        λ txmeta.
          let tr : TxMetadataReader = record { txid = txid; metadata = txmeta } in
          or_panics (read_bit_vector tr) λ (bv, vouts).
            if is_only vouts vout
            then succeeded (returns (remove_tx c txid))
            else if leb (length bv % 2 ^ 32) vout
            then returns (c, false)
            else or_panics (get_elem? bv vout) λ is_unspent.
              if not is_unspent
              then returns (c, false)
              else or_panics (read_outputs sha256 tr (some bv) (vouts_slice vouts)) λ outs.
                or_panics (read_no_of_outputs tr) λ n.
                  or_panics (place_outputs vout outs (replicate n none)) λ fakeouts.
                    or_panics
                      (serialize_tx_metadata
                        (new_transaction sha256 [] (map (fill_fakeout sha256) fakeouts)))
                      λ newmeta. succeeded (insert_value l c (build_key tx_key txid) newmeta)

  unfoldable pub get_no_of_utxos : DbWrapper l → List ℕ → Outcome (ℕ × Bool)
  get_no_of_utxos c txid =
      with_record (get_tx c txid) (0, false)
        λ txmeta.
          or_panics (read_bit_vector (record { txid = txid; metadata = txmeta }))
            λ (bv, vouts). returns (length vouts, true)
