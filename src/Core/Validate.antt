-- ===== src/Core/Validate.antt =====
-- `ValidateTransaction` and `gatherSignatureDataForInput` of core/transaction.go, `VerifySignature`
-- of utils/keys.go. The chainstate's `GetUtxo`
-- (`none` is a panic) and the standard library's ECDSA are parameters.
pub mod Exact
pub mod Amounts
use plairo.Common.{
  ℕ, zero, suc, ◌+◌, ◌-◌, ◌==◌, ltb, not, ◌||◌, Bool, true, false, if◌then◌else◌, bytes_eq,
}
use plairo.Common.{List, [], ◌∷◌, ◌++◌, Option, none, some, ◌>>=◌}
use plairo.Core.Output.{TransactionOutput, TransactionInput, double_hash, equal}
use plairo.Core.Transaction.{Transaction, serialize}
use plairo.Core.Fees.{add64, value_is_valid, get_minimum_fees}

pub data TxError : Type 0 where
  duplicate_input non_existent_utxo input_output_mismatch bad_public_key : TxError
  invalid_signature_provided invalid_value insufficient_funds : TxError

pub data Validation : Type 0 where
  valid : Validation
  invalid : TxError → Validation
  panicked : Validation

abbrev pub sighash_all : ℕ
sighash_all = 1

-- `x509.ParsePKIXPublicKey` with the cast to an ECDSA key (`none` is an error), and
-- `ecdsa.VerifyASN1` on a key, a hash and a signature.
pub record Ecdsa : Type 1 where
  pub Key : Type 0
  pub parse_key : List ℕ → Option Key
  pub verify_asn1 : Key → List ℕ → List ℕ → Bool

-- The last byte of a script signature is the SIGHASH flag; an empty one panics.
unfoldable pub split_last : List ℕ → Option (List ℕ × ℕ)
split_last [] = none
split_last (x ∷ []) = some ([], x)
split_last (x ∷ y ∷ ys) = split_last (y ∷ ys) >>= λ (front, last). some (x ∷ front, last)

-- The inputs from index `i` on as they are signed for the input `input_index`.
unfoldable pub blank_signatures : ℕ → ℕ → List TransactionInput → List TransactionInput
blank_signatures input_index i [] = []
blank_signatures input_index i (inp ∷ inputs) =
    record inp { script_sig = if i == input_index then inp.output_referred.script_pub_key else [] }
    ∷ blank_signatures input_index (suc i) inputs

-- The keys of the map `dedup` are the hexadecimal output identifiers seen so far.
unfoldable pub is_seen : List ℕ → List (List ℕ) → Bool
is_seen id [] = false
is_seen id (x ∷ seen) = bytes_eq x id || is_seen id seen

unfoldable pub has_duplicate : List (List ℕ) → List TransactionInput → Bool
has_duplicate seen [] = false
has_duplicate seen (inp ∷ inputs) =
    is_seen inp.output_referred.output_id seen
    || has_duplicate (inp.output_referred.output_id ∷ seen) inputs

-- The loop over the outputs: the check is on the running sum.
unfoldable pub check_outputs : ℕ → List TransactionOutput → Option ℕ
check_outputs output_value [] = some output_value
check_outputs output_value (outp ∷ outputs) =
    let total = add64 output_value outp.value in
    let rest = check_outputs total outputs in if not (value_is_valid total) then none else rest

-- The checks of one input stop the validation, or let it go on.
pub data Step : Type 0 where
  passes panics_here : Step
  fails : TxError → Step

abbrev pub and_then : Step → Validation → Validation
and_then passes next = next
and_then (fails e) next = invalid e
and_then panics_here next = panicked

module _ (sha256 : List ℕ → List ℕ) where
  -- A flag other than SIGHASH_ALL gives a nil message.
  unfoldable pub gather_signature_data : Transaction → ℕ → ℕ → List ℕ
  gather_signature_data t input_index sighash_flag =
      if sighash_flag == sighash_all
      then double_hash sha256 (
          serialize (record t { inputs = blank_signatures input_index 0 t.inputs })
          ++ (sighash_flag ∷ []))
      else []

module _ (sha256 : List ℕ → List ℕ) (ecdsa : Ecdsa) where
  unfoldable pub verify_signature : List ℕ → List ℕ → Ecdsa.Key ecdsa → Bool
  verify_signature msg signature pubkey = ecdsa.verify_asn1 pubkey (sha256 msg) signature

module _ (sha256 : List ℕ → List ℕ) (ecdsa : Ecdsa)
    (get_utxo : List ℕ → ℕ → Option (Option TransactionOutput)) where
  unfoldable pub check_input : Transaction → ℕ → TransactionInput → Step
  check_input t i inp = elim (get_utxo inp.output_referred.parent_txid inp.output_referred.vout) [
    | none ↦ panics_here
    | some none ↦ fails non_existent_utxo
    | some (some utxo) ↦
        if not (equal utxo inp.output_referred)
        then fails input_output_mismatch
        else elim (split_last inp.script_sig) [
          | none ↦ panics_here
          | some (raw_sig, flag) ↦ elim (ecdsa.parse_key utxo.script_pub_key) [
            | none ↦ fails bad_public_key
            | some pubkey ↦
                if not (
                  verify_signature sha256 ecdsa (gather_signature_data sha256 t i flag) raw_sig
                    pubkey)
                then fails invalid_signature_provided
                else passes
          ]
        ]
  ]

  -- What follows the loop over the inputs, for the sum of their values.
  unfoldable pub check_amounts : Transaction → ℕ → Validation
  check_amounts t input_value = elim (check_outputs 0 t.outputs) [
    | none ↦ invalid invalid_value
    | some output_value ↦
        if ltb input_value (add64 output_value (get_minimum_fees t))
        then invalid insufficient_funds
        else valid
  ]

  unfoldable pub check_inputs : Transaction → ℕ → ℕ → List TransactionInput → Validation
  check_inputs t i input_value [] = check_amounts t input_value
  check_inputs t i input_value (inp ∷ inputs) =
      and_then (check_input t i inp)
        (check_inputs t (suc i) (add64 input_value inp.output_referred.value) inputs)

  unfoldable pub validate_transaction : Transaction → Validation
  validate_transaction t =
      if has_duplicate [] t.inputs then invalid duplicate_input else check_inputs t 0 0 t.inputs
