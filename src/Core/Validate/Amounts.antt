-- ===== src/Core/Validate/Amounts.antt =====
-- The amounts of a transaction that `ValidateTransaction` accepts, as numbers without wrap-around.
use plairo.Common.{ℕ, ◌+◌, ◌-◌, ◌^◌, ◌<◌, ◌≤◌, ◌≡◌, refl, arith, true}
use plairo.Common.{List, [], ◌∷◌, Option, some, All, unsome}
use plairo.Core.Output.{TransactionOutput, TransactionInput}
use plairo.Core.Transaction.{Transaction}
use plairo.Core.Fees.{add64, sum_inputs, get_minimum_fees, max_valid_amount, value_is_valid}
use plairo.Core.Validate.{Ecdsa, valid, check_outputs, validate_transaction}
use plairo.Core.Validate.Exact.{validate_transaction-Covers}

abbrev pub output_total : List TransactionOutput → ℕ
output_total [] = 0
output_total (outp ∷ outputs) = outp.value + output_total outputs

abbrev pub input_total : List TransactionInput → ℕ
input_total [] = 0
input_total (inp ∷ inputs) = inp.output_referred.value + input_total inputs

abbrev pub IsAmount : TransactionOutput → Type 0
IsAmount outp = outp.value ≤ max_valid_amount

add64_le : (a b : ℕ) → add64 a b ≤ a + b
add64_le a b = omega arith

add64_small : (a b : ℕ) → a + b < 2 ^ 64 → add64 a b ≡ a + b
add64_small a b l = omega arith

-- Wrapping around only makes the inputs' sum smaller.
sum_inputs_le :
    (v : ℕ) (inputs : List TransactionInput) → sum_inputs v inputs ≤ v + input_total inputs
unfolding sum_inputs
sum_inputs_le v [] = omega arith
sum_inputs_le v (inp ∷ inputs) =
    let rest = sum_inputs_le (add64 v inp.output_referred.value) inputs in
    let here = add64_le v inp.output_referred.value in omega arith

value_is_valid_le : (v : ℕ) → value_is_valid v ≡ true → v ≤ max_valid_amount
unfolding value_is_valid
value_is_valid_le v p = ground arith

value_is_valid_of : (v : ℕ) → v ≤ max_valid_amount → value_is_valid v ≡ true
unfolding value_is_valid
value_is_valid_of v l = ground arith

check_outputs_step :
    (v : ℕ) (outp : TransactionOutput) (outputs : List TransactionOutput) (total : ℕ)
    → check_outputs v (outp ∷ outputs) ≡ some total
    → (value_is_valid (add64 v outp.value) ≡ true)
      × (check_outputs (add64 v outp.value) outputs ≡ some total)
unfolding check_outputs
check_outputs_step v outp outputs total p = ground arith

-- Amounts that are each in range add up without a wrap.
check_outputs-output_total :
    (v : ℕ) (outputs : List TransactionOutput) (total : ℕ)
    → v ≤ max_valid_amount
    → All IsAmount outputs
    → check_outputs v outputs ≡ some total
    → (total ≡ v + output_total outputs) × (total ≤ max_valid_amount)
unfolding check_outputs
check_outputs-output_total v [] total l u p = let q = unsome p in (omega arith, omega arith)
check_outputs-output_total v (outp ∷ outputs) total l u p =
    let step = check_outputs_step v outp outputs total p in
    let exact = add64_small v outp.value (omega arith) in
    let rest =
      check_outputs-output_total (add64 v outp.value) outputs total (value_is_valid_le _ step.0) u.1
        step.1 in
    (omega arith, rest.1)

-- When each output's value is a valid amount (and the fee is no more than 2^63), a transaction that
-- `ValidateTransaction` accepts spends at least what its outputs hold and its minimum fees, counted
-- without wrap-around, and its outputs together hold a valid amount.
pub validate_transaction-output_total :
    (sha256 : List ℕ → List ℕ) (ecdsa : Ecdsa)
    (get_utxo : List ℕ → ℕ → Option (Option TransactionOutput)) (t : Transaction)
    → All IsAmount t.outputs
    → get_minimum_fees t ≤ 2 ^ 63
    → validate_transaction sha256 ecdsa get_utxo t ≡ valid
    → (output_total t.outputs + get_minimum_fees t ≤ input_total t.inputs)
      × (output_total t.outputs ≤ max_valid_amount)
validate_transaction-output_total sha256 ecdsa get_utxo t u f p =
    let (distinct, unlocked, (total, q, covers)) =
      (validate_transaction-Covers sha256 ecdsa get_utxo t).0 p in
    let exact = check_outputs-output_total 0 t.outputs total (omega arith) u q in
    let inputs = sum_inputs_le 0 t.inputs in
    let fees = add64_small total (get_minimum_fees t) (omega arith) in (omega arith, omega arith)

-- The loop over the outputs accepts a second output whose value is above the maximum, when the
-- first is in range and the sum of the two wraps around to a number in range: the total that it
-- goes on with is 2^64 too small.
pub check_outputs_wraps :
    (a b : TransactionOutput)
    → a.value ≤ max_valid_amount
    → b.value < 2 ^ 64
    → 2 ^ 64 ≤ a.value + b.value
    → (check_outputs 0 (a ∷ b ∷ []) ≡ some (a.value + b.value - 2 ^ 64))
      × (max_valid_amount < b.value)
unfolding check_outputs
check_outputs_wraps a b l m w =
    let first : add64 0 a.value ≡ a.value = omega arith in
    let second : add64 a.value b.value ≡ a.value + b.value - 2 ^ 64 = omega arith in
    let above : max_valid_amount < b.value = omega arith in
    (
      rw
          (
            first,
            second,
            value_is_valid_of _ l,
            value_is_valid_of (a.value + b.value - 2 ^ 64) (omega arith),
            check_outputs,
          )
          refl,
      above,
    )
