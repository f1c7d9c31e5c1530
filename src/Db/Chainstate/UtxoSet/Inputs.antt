-- ===== src/Db/Chainstate/UtxoSet/Inputs.antt =====
-- `cleanUpInputs` of core/transaction.go over the chainstate.
use plairo.Common.{ℕ, ◌≡◌, refl, ◌⊎◌, inl, inr, returns}
use plairo.Common.{List, [], ◌∷◌, none, some}
use plairo.Core.Output.{TransactionInput, TransactionOutput}
use plairo.Core.Transaction.{Transaction}
use plairo.Core.Validate.{Ecdsa, non_existent_utxo}
use plairo.Core.BlockCheck.{BlockError, tx_error, clean_up_inputs}
use plairo.Db.Wrapper.{LevelDb, IsStore, DbWrapper}
use plairo.Db.Chainstate.Interface.{chainstate}
use plairo.Db.Chainstate.UtxoSet.{UtxoSet, spend_one, spend_inputs, Fails, Shows}
use plairo.Db.Chainstate.UtxoSet.Removal.{remove_utxo-Removes}

module _ (sha256 : List ℕ → List ℕ) (ecdsa : Ecdsa) (l : LevelDb) (store : IsStore l) where
  abbrev pub E : Type 0
  E = BlockError (chainstate sha256 l)

  -- The inputs are spent in the set and in the chainstate, or one is in neither or the database fails.
  abbrev pub CleansUp : DbWrapper l → UtxoSet → List Transaction → List TransactionInput → Type 0
  CleansUp c u txs inputs =
      ((c' : DbWrapper l) × (e : E) × (u'' : UtxoSet) × ((spend_inputs u inputs ≡ none)
          ⊎ Fails l c'.db)
        × (clean_up_inputs sha256 ecdsa (chainstate sha256 l) c inputs ≡ returns (c', some e))
        × Shows sha256 l c' u'' txs)
      ⊎ ((u' : UtxoSet) × (after : DbWrapper l) × (spend_inputs u inputs ≡ some u')
          × (clean_up_inputs sha256 ecdsa (chainstate sha256 l) c inputs ≡ returns (after, none))
          × Shows sha256 l after u' txs)

  pub clean_up_inputs-CleansUp :
      (inputs : List TransactionInput) (c : DbWrapper l) (u : UtxoSet) (txs : List Transaction)
      → Shows sha256 l c u txs
      → CleansUp c u txs inputs
  unfolding clean_up_inputs spend_inputs
  clean_up_inputs-CleansUp [] c u txs s = inr (u, c, refl, refl, s)
  clean_up_inputs-CleansUp (inp ∷ inputs) c u txs s =
      elim (remove_utxo-Removes sha256 l store c u txs s inp.output_referred.parent_txid
        inp.output_referred.vout) [
          | inl (why, same) ↦
              inl (c, tx_error non_existent_utxo, u, first why, rw (clean_up_inputs, same) refl, s)
          | inr (outp, after, there, removes, s') ↦
              elim (clean_up_inputs-CleansUp inputs after _ txs s') [
                | inl (c', e, u'', why, r, t) ↦
                    inl (c', e, u'', later there why, rw (clean_up_inputs, removes) r, t)
                | inr (u', c', n, r, t) ↦
                    inr (u', c', rw (spend_inputs, there) n, rw (clean_up_inputs, removes) r, t)
              ]
        ]
    where
      first :
          (u inp.output_referred.parent_txid inp.output_referred.vout ≡ none) ⊎ Fails l c.db
          → (spend_inputs u (inp ∷ inputs) ≡ none) ⊎ Fails l c.db
      first (inl gone) = inl (rw (spend_inputs, gone) refl)
      first (inr fails) = inr fails

      later :
          {outp : TransactionOutput} {db : LevelDb.Db l}
          → u inp.output_referred.parent_txid inp.output_referred.vout ≡ some outp
          → (spend_inputs
                (spend_one u inp.output_referred.parent_txid inp.output_referred.vout)
                inputs
              ≡ none)
            ⊎ Fails l db
          → (spend_inputs u (inp ∷ inputs) ≡ none) ⊎ Fails l db
      later there (inl n) = inl (rw (spend_inputs, there) n)
      later there (inr fails) = inr fails
