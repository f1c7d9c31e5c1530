-- ===== src/Core/Transaction/Identity.antt =====
-- `NewTransaction` of core/transaction.go: the identifiers that it gives.
use plairo.Common.{ℕ, suc, ◌+◌, ◌%◌, ◌^◌, ◌≤◌, ◌≡◌, refl, sym, ap, arith}
use plairo.Common.{List, [], ◌∷◌, ◌++◌, length}
use plairo.Core.Output.{
  TransactionInput, TransactionOutput, double_hash, output_id_of, generate_output_id,
}
use plairo.Core.Transaction.{
  Transaction, serialize_output, serialize_outputs, serialize, generate_txid, update_from,
  new_transaction,
}

-- What `updateOutputs` establishes of the outputs `i`, `i + 1`, … of the transaction `txid`.
abbrev pub IsUpdated : (List ℕ → List ℕ) → List ℕ → ℕ → List TransactionOutput → Type 0
IsUpdated sha256 txid i [] = Unit {0}
IsUpdated sha256 txid i (outp ∷ outputs) =
    (outp.parent_txid ≡ txid)
    × (outp.vout ≡ i)
    × (outp.output_id ≡ output_id_of sha256 txid i)
    × IsUpdated sha256 txid (suc i) outputs

module _ (sha256 : List ℕ → List ℕ) where
  -- The loop keeps what a serialization shows: the values and scripts, and how many there are.
  serialize_outputs-update_from :
      (txid : List ℕ) (i : ℕ) (outputs : List TransactionOutput)
      → serialize_outputs (update_from sha256 txid i outputs) ≡ serialize_outputs outputs
  unfolding serialize_outputs update_from generate_output_id
  serialize_outputs-update_from txid i [] = refl
  serialize_outputs-update_from txid i (outp ∷ outputs) =
      ap (λ rest. serialize_output outp ++ rest)
        (serialize_outputs-update_from txid (suc i) outputs)

  length-update_from :
      (txid : List ℕ) (i : ℕ) (outputs : List TransactionOutput)
      → length (update_from sha256 txid i outputs) ≡ length outputs
  unfolding update_from
  length-update_from txid i [] = refl
  length-update_from txid i (outp ∷ outputs) = ap suc (length-update_from txid (suc i) outputs)

  update_from-IsUpdated :
      (txid : List ℕ) (i : ℕ) (outputs : List TransactionOutput)
      → i + length outputs ≤ 2 ^ 32
      → IsUpdated sha256 txid i (update_from sha256 txid i outputs)
  unfolding update_from generate_output_id
  update_from-IsUpdated txid i [] h = tt
  update_from-IsUpdated txid i (outp ∷ outputs) h = (
    refl,
    small,
    ap (output_id_of sha256 txid) small,
    update_from-IsUpdated txid (suc i) outputs (omega arith),
  )
    where
      small : i % 2 ^ 32 ≡ i
      small = omega arith

  serialize-update :
      (t : Transaction) (txid : List ℕ)
      → serialize (record t { txid = txid; outputs = update_from sha256 txid 0 t.outputs })
        ≡ serialize t
  unfolding serialize
  serialize-update t txid =
      rw (serialize_outputs-update_from txid 0 t.outputs, length-update_from txid 0 t.outputs) refl

  -- `NewTransaction` keeps the inputs, gives the transaction the double hash of its own serialization
  -- as identifier, and numbers the outputs: each carries that identifier, its index and its own
  -- identifier.
  pub new_transaction-IsUpdated :
      (inputs : List TransactionInput) (outputs : List TransactionOutput)
      → length outputs ≤ 2 ^ 32
      → let t = new_transaction sha256 inputs outputs in
        (t.inputs ≡ inputs)
        × (length t.outputs ≡ length outputs)
        × (t.txid ≡ double_hash sha256 (serialize t))
        × IsUpdated sha256 t.txid 0 t.outputs
  unfolding new_transaction generate_txid
  new_transaction-IsUpdated inputs outputs h = (
    refl,
    length-update_from _ 0 outputs,
    ap (double_hash sha256) (sym (serialize-update _ _)),
    update_from-IsUpdated _ 0 outputs (omega arith),
  )
