-- ===== src/Core/CState.antt =====
-- The interface `CState` of core/transaction.go, through which core reaches the chainstate.
use plairo.Common.{ℕ, Bool, Outcome, returns, List, Option, none, some}
use plairo.Core.Output.{TransactionOutput}
use plairo.Core.Transaction.{Transaction}

-- A method that changes the chainstate returns it. `get_tx` returns `none` for an error.
pub record CState : Type 1 where
  pub State : Type 0
  pub Error : Type 0
  pub get_utxo : State → List ℕ → ℕ → Outcome (Option TransactionOutput)
  pub get_tx : State → List ℕ → Outcome (Option (List ℕ))
  pub remove_utxo : State → List ℕ → ℕ → Outcome (State × Bool)
  pub insert_batch_tx : State → Transaction → Outcome (State × Option Error)
  pub write_batch_tx : State → State × Option Error

-- `GetUtxo` of a state, `none` for a call that does not return.
abbrev pub utxos_of :
    (cs : CState) → CState.State cs → List ℕ → ℕ → Option (Option TransactionOutput)
utxos_of cs state txid vout = elim (cs.get_utxo state txid vout) [
  | returns utxo ↦ some utxo
  | _ ↦ none
]
