-- ===== src/Core/Signing/Coinbase.antt =====
-- The transactions that `NewCoinbaseTransaction` makes.
use plairo.Common.{
  ℕ, ◌+◌, ◌^◌, ◌%◌, ◌==◌, ◌≡◌, refl, sym, ap, ◌∙◌, true, false, Bool-cases, inl, inr, Option-cases,
}
use plairo.Common.{List, [], ◌∷◌, ◌++◌, length, replicate}
use plairo.Utils.Serializer.{serialize_uint32}
use plairo.Core.Output.{TransactionInput, new_transaction_output, generate_output_id}
use plairo.Core.Transaction.{Transaction, update_outputs, update_from, generate_txid}
use plairo.Core.Fees.{add64, sum_outputs, value_is_valid}
use plairo.Core.Validate.{Ecdsa}
use plairo.Core.Signing.{
  Signer, coinbase, invalid_coinbase_value, bad_miner_key, new_coinbase_transaction,
}

module _ (sha256 : List ℕ → List ℕ) (ecdsa : Ecdsa) (signer : Signer ecdsa) where
  -- The transaction before its outputs are updated.
  abbrev draft : List ℕ → ℕ → List ℕ → ℕ → Transaction
  draft msg value script height = record {
    txid = [];
    tx_signature = [];
    block_height = height;
    is_coinbase = true;
    inputs =
        record {
          output_referred = new_transaction_output sha256 (replicate 32 0) 0 0xffffffff [];
          script_sig = serialize_uint32 height false ++ msg;
        }
        ∷ [];
    outputs = new_transaction_output sha256 [] 0 value script ∷ [];
  }

  coinbase_of_draft :
      (msg : List ℕ) (value : ℕ) (key : Ecdsa.Key ecdsa) (height : ℕ) (tx : Transaction)
      → new_coinbase_transaction sha256 ecdsa signer msg value key height ≡ coinbase tx
      → (script : List ℕ) × (update_outputs sha256 (draft msg value script ((height + 1) % 2 ^ 32))
          ≡ tx)
  unfolding new_coinbase_transaction
  coinbase_of_draft msg value key height tx p = elim (Bool-cases (value_is_valid value)) [
    | inr bad ↦ absurd (bad_value (rw (new_coinbase_transaction, bad) at p))
    | inl ok ↦ elim (Option-cases (signer.marshal_key key)) [
      | inl bad ↦ absurd (bad_key (rw (new_coinbase_transaction, ok, bad) at p))
      | inr (script, m) ↦ (script, same_transaction (rw (new_coinbase_transaction, ok, m) at p))
    ]
  ]
    where
      bad_value : invalid_coinbase_value ≡ coinbase tx → ⊥
      bad_value q = cc

      bad_key : bad_miner_key ≡ coinbase tx → ⊥
      bad_key q = cc

      same_transaction : {t u : Transaction} → coinbase t ≡ coinbase u → t ≡ u
      same_transaction q = cc

  update_outputs-inputs : (t : Transaction) → (update_outputs sha256 t).inputs ≡ t.inputs
  unfolding update_outputs generate_txid
  update_outputs-inputs t = elim (Bool-cases (length t.txid == 0)) [
    | inl p ↦ rw p refl
    | inr p ↦ rw p refl
  ]

  -- The one input refers to output 0 of the transaction of 32 zero bytes.
  pub coinbase-refers_to_null :
      (msg : List ℕ) (value : ℕ) (key : Ecdsa.Key ecdsa) (height : ℕ) (tx : Transaction)
      → new_coinbase_transaction sha256 ecdsa signer msg value key height ≡ coinbase tx
      → (inp : TransactionInput) × (tx.inputs ≡ inp ∷ [])
        × (inp.output_referred.parent_txid ≡ replicate 32 0)
        × (inp.output_referred.vout ≡ 0)
  unfolding new_transaction_output generate_output_id
  coinbase-refers_to_null msg value key height tx p =
      let (script, built) = coinbase_of_draft msg value key height tx p in
      (_, ap (λ t. t.inputs) (sym built) ∙ update_outputs-inputs _, refl, refl)

  -- The one output carries the value.
  pub coinbase_total :
      (msg : List ℕ) (value : ℕ) (key : Ecdsa.Key ecdsa) (height : ℕ) (tx : Transaction)
      → new_coinbase_transaction sha256 ecdsa signer msg value key height ≡ coinbase tx
      → sum_outputs 0 tx.outputs ≡ add64 0 value
  unfolding new_transaction_output generate_output_id update_outputs update_from sum_outputs
      generate_txid
  coinbase_total msg value key height tx p =
      let (script, built) = coinbase_of_draft msg value key height tx p in
      ap (λ t. sum_outputs 0 t.outputs) (sym built)
