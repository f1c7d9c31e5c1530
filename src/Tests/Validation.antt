-- ===== src/Tests/Validation.antt =====
-- `ValidateTransaction` at concrete transactions, with a toy signature scheme: a signature is the
-- message hash behind the key.
use plairo.Common.{
  ℕ, ◌+◌, ◌%◌, ◌^◌, ◌<◌, ◌≤◌, ◌≡◌, ◌==◌, refl, arith, true, false, if◌then◌else◌, ◌↔◌,
}
use plairo.Common.{List, [], ◌∷◌, ◌++◌, Option, none, some, length, bytes_eq}
use plairo.Utils.Serializer.{serialize_uint32, serialize_uint64}
use plairo.Core.Output.{TransactionOutput, output_id_of, equal}
use plairo.Core.Transaction.{Transaction, serialize, serialize_inputs, serialize_outputs}
use plairo.Core.Fees.{
  get_minimum_fees, get_total_fee_in_ticks, sum_inputs, value_is_valid, max_valid_amount,
}
use plairo.Core.Validate.{
  Ecdsa, valid, check_outputs, split_last, blank_signatures, is_seen, has_duplicate,
  verify_signature, gather_signature_data, check_input, check_amounts, check_inputs,
  validate_transaction,
}
use plairo.Core.Validate.Exact.{AllDistinct, AllUnlock, Covers, validate_transaction-Covers}
use plairo.Core.Validate.Amounts.{check_outputs_wraps, validate_transaction-output_total}

abbrev pub total : List ℕ → ℕ
total [] = 0
total (x ∷ xs) = x + total xs

abbrev pub toy_hash : List ℕ → List ℕ
toy_hash msg = (length msg % 256) ∷ (total msg % 256) ∷ []

abbrev pub toy_ecdsa : Ecdsa
toy_ecdsa = record {
  Key = List ℕ;
  parse_key = λ bytes. if bytes_eq bytes [] then none else some bytes;
  verify_asn1 = λ key hash signature. bytes_eq signature (key ++ hash);
}

abbrev pub output_of : List ℕ → ℕ → ℕ → List ℕ → TransactionOutput
output_of txid vout value script = record {
  parent_txid = txid;
  vout = vout;
  value = value;
  script_pub_key = script;
  output_id = output_id_of toy_hash txid vout;
  is_not_spent = true;
}

abbrev pub funds : TransactionOutput
funds = output_of (3 ∷ []) 1 5000 (8 ∷ 9 ∷ [])

abbrev pub toy_utxos : List ℕ → ℕ → Option (Option TransactionOutput)
toy_utxos txid vout =
    if bytes_eq txid (3 ∷ []) then if vout == 1 then some (some funds) else some none else some none

abbrev pub unsigned : Transaction
unsigned = record {
  txid = 4 ∷ [];
  tx_signature = [];
  block_height = 0;
  is_coinbase = false;
  inputs = record { output_referred = funds; script_sig = [] } ∷ [];
  outputs = output_of (4 ∷ []) 0 3000 (6 ∷ []) ∷ output_of (4 ∷ []) 1 400 (7 ∷ []) ∷ [];
}

-- Signed with SIGHASH_ALL.
abbrev pub payment : Transaction
payment = record unsigned {
  inputs =
      record {
        output_referred = funds;
        script_sig = (8 ∷ 9 ∷ toy_hash (gather_signature_data toy_hash unsigned 0 1)) ++ (1 ∷ []);
      }
      ∷ [];
}

payment_is_valid : validate_transaction toy_hash toy_ecdsa toy_utxos payment ≡ valid
unfolding validate_transaction check_inputs check_input check_amounts check_outputs has_duplicate
    is_seen split_last blank_signatures gather_signature_data verify_signature get_minimum_fees
    get_total_fee_in_ticks value_is_valid equal bytes_eq serialize output_id_of serialize_uint32
    serialize_inputs serialize_uint64 serialize_outputs
payment_is_valid = refl

validate_transaction-Covers_example :
    (validate_transaction toy_hash toy_ecdsa toy_utxos payment ≡ valid) ↔ (
      AllDistinct [] payment.inputs
      × AllUnlock toy_hash toy_ecdsa toy_utxos payment 0 payment.inputs
      × Covers toy_hash toy_ecdsa toy_utxos payment (sum_inputs 0 payment.inputs))
validate_transaction-Covers_example =
    validate_transaction-Covers toy_hash toy_ecdsa toy_utxos payment

payment-fees : get_minimum_fees payment ≤ 2 ^ 63
unfolding get_minimum_fees get_total_fee_in_ticks serialize serialize_uint32 serialize_inputs
    serialize_uint64 serialize_outputs
payment-fees = omega arith

validate_transaction-output_total_example :
    (3400 + get_minimum_fees payment ≤ 5000) × (3400 ≤ max_valid_amount)
validate_transaction-output_total_example =
    validate_transaction-output_total toy_hash toy_ecdsa toy_utxos payment
      (omega arith, (omega arith, tt)) payment-fees payment_is_valid

check_outputs_wraps_example :
    (check_outputs 0 (
        output_of (4 ∷ []) 0 10000000000000000 []
        ∷ output_of (4 ∷ []) 1 18446744073709551615 []
        ∷ [])
      ≡ some 9999999999999999)
    × (max_valid_amount < 18446744073709551615)
check_outputs_wraps_example =
    check_outputs_wraps (output_of (4 ∷ []) 0 10000000000000000 [])
      (output_of (4 ∷ []) 1 18446744073709551615 []) (omega arith) (omega arith) (omega arith)
