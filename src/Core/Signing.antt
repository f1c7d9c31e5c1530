-- ===== src/Core/Signing.antt =====
-- `NewCoinbaseTransaction` and `signInput` of core/transaction.go, `GenerateKeyPair` and
-- `GenerateSignature` of utils/keys.go. The standard library's signatures and key encoding are parameters.
pub mod Check
pub mod Coinbase
pub mod Pairs
use plairo.Common.{ℕ, zero, suc, ◌+◌, ◌%◌, ◌^◌, not, true, false, if◌then◌else◌}
use plairo.Common.{List, [], ◌∷◌, ◌++◌, replicate, Option, none, some, ◌>>=◌}
use plairo.Utils.Serializer.{serialize_uint32}
use plairo.Core.Output.{TransactionInput, new_transaction_output}
use plairo.Core.Transaction.{Transaction, update_outputs}
use plairo.Core.Fees.{value_is_valid}
use plairo.Core.Validate.{Ecdsa, gather_signature_data}

-- `ecdsa.GenerateKey` on P256 and `ecdsa.SignASN1` with what they read of the random source (`none` is
-- an error), the public key of a private one, and `x509.MarshalPKIXPublicKey`.
pub record Signer (ecdsa : Ecdsa) : Type 1 where
  pub PrivateKey : Type 0
  pub Seed : Type 0
  pub public_key : PrivateKey → Ecdsa.Key ecdsa
  pub generate_key : Seed → Option PrivateKey
  pub sign_asn1 : Seed → PrivateKey → List ℕ → Option (List ℕ)
  pub marshal_key : Ecdsa.Key ecdsa → Option (List ℕ)

pub data CoinbaseResult : Type 0 where
  coinbase : Transaction → CoinbaseResult
  invalid_coinbase_value bad_miner_key : CoinbaseResult

-- An error leaves the transaction as it was.
pub data SignResult : Type 0 where
  signed : Transaction → SignResult
  not_signed sign_panics : SignResult

-- `t.inputs[i].ScriptSig = scriptSig`
unfoldable pub set_script_sig : List TransactionInput → ℕ → List ℕ → Option (List TransactionInput)
set_script_sig [] i script_sig = none
set_script_sig (inp ∷ inputs) zero script_sig =
    some (record inp { script_sig = script_sig } ∷ inputs)
set_script_sig (inp ∷ inputs) (suc i) script_sig =
    set_script_sig inputs i script_sig >>= λ rest. some (inp ∷ rest)

module _ (sha256 : List ℕ → List ℕ) (ecdsa : Ecdsa) (signer : Signer ecdsa) where
  unfoldable pub generate_key_pair :
      Signer.Seed signer → Option (Signer.PrivateKey signer × Ecdsa.Key ecdsa)
  generate_key_pair seed =
      signer.generate_key seed >>= λ privkey. some (privkey, signer.public_key privkey)

  unfoldable pub generate_signature :
      Signer.Seed signer → List ℕ → Signer.PrivateKey signer → Option (List ℕ)
  generate_signature seed msg privkey = signer.sign_asn1 seed privkey (sha256 msg)

  unfoldable pub sign_input :
      Signer.Seed signer → Transaction → ℕ → Signer.PrivateKey signer → ℕ → SignResult
  sign_input seed t input_index private_key sighash_flag =
      elim (generate_signature seed (gather_signature_data sha256 t input_index sighash_flag)
        private_key) [
          | none ↦ not_signed
          | some signature ↦
              elim (set_script_sig t.inputs input_index (signature ++ (sighash_flag % 256 ∷ []))) [
                | none ↦ sign_panics
                | some inputs ↦ signed (record t { inputs = inputs })
              ]
        ]

  unfoldable pub new_coinbase_transaction : List ℕ → ℕ → Ecdsa.Key ecdsa → ℕ → CoinbaseResult
  new_coinbase_transaction coinbase_msg coinbase_value miner_key block_height =
      let height = (block_height + 1) % 2 ^ 32 in
      let c_input : TransactionInput = record {
        output_referred = new_transaction_output sha256 (replicate 32 0) 0 0xffffffff [];
        script_sig = serialize_uint32 height false ++ coinbase_msg;
      } in
      if not (value_is_valid coinbase_value)
      then invalid_coinbase_value
      else elim (signer.marshal_key miner_key) [
        | none ↦ bad_miner_key
        | some script_pub_key ↦ coinbase (
            update_outputs sha256 (record {
              txid = [];
              tx_signature = [];
              block_height = height;
              is_coinbase = true;
              inputs = c_input ∷ [];
              outputs = new_transaction_output sha256 [] 0 coinbase_value script_pub_key ∷ [];
            }))
      ]
