-- ===== src/Core/BlockCheck/Confirm.antt =====
-- A block that begins with a transaction from `NewCoinbaseTransaction`, before `ConfirmAsValid`.
use plairo.Common.{ℕ, ◌≡◌, refl, returns, false}
use plairo.Common.{List, ◌∷◌, replicate, some}
use plairo.Core.Transaction.{Transaction}
use plairo.Core.Validate.{Ecdsa, TxError}
use plairo.Core.Signing.{Signer, coinbase, new_coinbase_transaction}
use plairo.Core.Signing.Coinbase.{coinbase-refers_to_null}
use plairo.Core.CState.{CState}
use plairo.Core.Block.{Block}
use plairo.Core.BlockCheck.{World, tx_error, clean_up_inputs, confirm_txs, confirm_as_valid}

module _ (sha256 : List ℕ → List ℕ) (ecdsa : Ecdsa) (signer : Signer ecdsa) (cs : CState) where
  -- A block whose first transaction is made by `NewCoinbaseTransaction` is not confirmed where
  -- `RemoveUtxo` finds no transaction of 32 zero bytes: `ConfirmAsValid` returns
  -- `ErrNonExistentUTXO`, and the globals are as before.
  pub confirm_as_valid-coinbase :
      (msg : List ℕ) (value : ℕ) (key : Ecdsa.Key ecdsa) (height : ℕ) (w : World cs) (b : Block)
      (tx : Transaction) (txs : List Transaction)
      → new_coinbase_transaction sha256 ecdsa signer msg value key height ≡ coinbase tx
      → b.all_block_tx ≡ tx ∷ txs
      → cs.remove_utxo w.cstate (replicate 32 0) 0 ≡ returns (w.cstate, false)
      → confirm_as_valid sha256 ecdsa cs w b
        ≡ returns (w, some (tx_error TxError.non_existent_utxo))
  unfolding confirm_as_valid confirm_txs clean_up_inputs
  confirm_as_valid-coinbase msg value key height w b tx txs p q r =
      let (inp, inputs, parent, vout) =
        coinbase-refers_to_null sha256 ecdsa signer msg value key height tx p in
      rw (confirm_as_valid, q, confirm_txs, inputs, clean_up_inputs, parent, vout, r) refl
