-- ===== src/Db/Chainstate/Interface.antt =====
-- The chainstate as the `CState` that core works on.
use plairo.Common.{ℕ, List, Option, none, some, Outcome, returns, panics, runs_on}
use plairo.Core.CState.{CState}
use plairo.Db.Wrapper.{LevelDb, DbWrapper, DbError, Reply, found, no_value, write_batch}
use plairo.Db.Chainstate.{ChainstateError, db_error, get_tx, get_utxo, remove_utxo, insert_batch_tx}

module _ (l : LevelDb) where
  -- `WriteBatchTX`
  abbrev pub written : DbWrapper l × Option DbError → DbWrapper l × Option ChainstateError
  written (c, none) = (c, none)
  written (c, some e) = (c, some (db_error e))

abbrev value_of : Outcome Reply → Outcome (Option (List ℕ))
value_of (returns (found value)) = returns (some value)
value_of (returns (no_value e)) = returns none
value_of panics = panics
value_of runs_on = runs_on

abbrev pub chainstate : (List ℕ → List ℕ) → LevelDb → CState
chainstate sha256 l = record {
  State = DbWrapper l;
  Error = ChainstateError;
  get_utxo = get_utxo sha256 l;
  get_tx = λ c txid. value_of (get_tx sha256 l c txid);
  remove_utxo = remove_utxo sha256 l;
  insert_batch_tx = insert_batch_tx sha256 l;
  write_batch_tx = λ c. written l (write_batch l c);
}
