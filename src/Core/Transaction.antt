-- ===== src/Core/Transaction.antt =====
-- core/transaction.go: the data, the constructors and the serializations of a transaction.
pub mod Identity
use plairo.Common.{ℕ, zero, suc, ◌+◌, ◌-◌, ◌%◌, ◌^◌, ◌==◌, Bool, true, false, if◌then◌else◌}
use plairo.Common.{List, [], ◌∷◌, ◌++◌, map, length, Option, none, some, ◌>>=◌}
use plairo.Utils.Serializer.{serialize_uint32, serialize_uint64}
use plairo.Utils.OneHot.{serialize_to_one_hot}
use plairo.Core.Output.{TransactionOutput, TransactionInput, double_hash, generate_output_id}

pub record Transaction : Type 0 where
  pub txid : List ℕ
  pub tx_signature : List ℕ
  pub block_height : ℕ
  pub is_coinbase : Bool
  pub inputs : List TransactionInput
  pub outputs : List TransactionOutput

-- `uint32(len(s))` and `uint64(len(s))`, big endian.
abbrev pub length32 {ℓ} : {A : Type ℓ} → List A → List ℕ
length32 s = serialize_uint32 (length s % 2 ^ 32) false

abbrev pub length64 {ℓ} : {A : Type ℓ} → List A → List ℕ
length64 s = serialize_uint64 (length s % 2 ^ 64) false

unfoldable pub serialize_inputs : List TransactionInput → List ℕ
serialize_inputs [] = []
serialize_inputs (inp ∷ inputs) =
    (inp.output_referred.parent_txid
      ++ serialize_uint32 inp.output_referred.vout false
      ++ length64 inp.script_sig
      ++ inp.script_sig)
    ++ serialize_inputs inputs

-- The value, the length of the script and the script of an output.
abbrev pub serialize_output : TransactionOutput → List ℕ
serialize_output outp =
    serialize_uint64 outp.value false ++ (length64 outp.script_pub_key ++ outp.script_pub_key)

unfoldable pub serialize_outputs : List TransactionOutput → List ℕ
serialize_outputs [] = []
serialize_outputs (outp ∷ outputs) = serialize_output outp ++ serialize_outputs outputs

unfoldable pub serialize : Transaction → List ℕ
serialize t =
    length32 t.inputs
    ++ (serialize_inputs t.inputs ++ (length32 t.outputs ++ serialize_outputs t.outputs))

-- The loop that skips the spent outputs.
unfoldable pub serialize_unspent : List TransactionOutput → List ℕ
serialize_unspent [] = []
serialize_unspent (outp ∷ outputs) =
    if outp.is_not_spent
    then serialize_output outp ++ serialize_unspent outputs
    else serialize_unspent outputs

-- `unspent[i] = outp.IsNotSpent`
abbrev pub unspent_flags : List TransactionOutput → List Bool
unspent_flags outputs = map (λ outp. outp.is_not_spent) outputs

-- The capacity that the code computes first has no effect on the bytes.
unfoldable pub serialize_tx_metadata : Transaction → Option (List ℕ)
serialize_tx_metadata t = serialize_to_one_hot (unspent_flags t.outputs) >>= λ bit_vector. some (
    ((if t.is_coinbase then 0x01 else 0x00) ∷ [])
    ++ (serialize_uint32 t.block_height false
        ++ (length32 t.outputs ++ (bit_vector ++ serialize_unspent t.outputs))))

unfoldable pub all_spent : List TransactionOutput → Bool
all_spent [] = true
all_spent (outp ∷ outputs) = if outp.is_not_spent then false else all_spent outputs

unfoldable pub is_spent : Transaction → Bool
unfolding all_spent
is_spent t = all_spent t.outputs

module _ (sha256 : List ℕ → List ℕ) where
  unfoldable pub generate_txid : Transaction → Transaction
  generate_txid t = record t { txid = double_hash sha256 (serialize t) }

  -- The loop of `updateOutputs` from index `i` on.
  unfoldable pub update_from : List ℕ → ℕ → List TransactionOutput → List TransactionOutput
  update_from txid i [] = []
  update_from txid i (outp ∷ outputs) =
      generate_output_id sha256 (record outp { parent_txid = txid; vout = i % 2 ^ 32 })
      ∷ update_from txid (suc i) outputs

  unfoldable pub update_outputs : Transaction → Transaction
  update_outputs t =
      let t' = if length t.txid == 0 then generate_txid t else t in
      record t' { outputs = update_from t'.txid 0 t'.outputs }

  unfoldable pub new_transaction : List TransactionInput → List TransactionOutput → Transaction
  unfolding update_outputs
  new_transaction inputs outputs = update_outputs (record {
    txid = [];
    tx_signature = [];
    block_height = 0;
    is_coinbase = false;
    inputs = inputs;
    outputs = outputs;
  })
