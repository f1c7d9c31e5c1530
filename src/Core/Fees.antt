-- ===== src/Core/Fees.antt =====
-- The fees of a transaction: `GetFees` and `GetMinimumFees` of core/transaction.go, coin/fee.go, and
-- the constants of params/config.go that they use.
use plairo.Common.{ℕ, ◌+◌, ◌-◌, ◌*◌, ◌%◌, ◌^◌, leb, Bool, List, [], ◌∷◌, length}
use plairo.Core.Output.{TransactionInput, TransactionOutput}
use plairo.Core.Transaction.{Transaction, serialize}

abbrev pub ro_to_tick_ration : ℕ
ro_to_tick_ration = 100000000

abbrev pub max_valid_amount : ℕ
max_valid_amount = 100000000 * ro_to_tick_ration

abbrev pub fee_per_byte : ℕ
fee_per_byte = 1

unfoldable pub value_is_valid : ℕ → Bool
value_is_valid val = leb val max_valid_amount

-- uint64 arithmetic
abbrev pub add64 : ℕ → ℕ → ℕ
add64 a b = (a + b) % 2 ^ 64

abbrev pub sub64 : ℕ → ℕ → ℕ
sub64 a b = (a + 2 ^ 64 - b) % 2 ^ 64

unfoldable pub get_total_fee_in_ticks : List ℕ → ℕ
get_total_fee_in_ticks bytes = fee_per_byte * length bytes % 2 ^ 64

unfoldable pub get_minimum_fees : Transaction → ℕ
get_minimum_fees t = get_total_fee_in_ticks (serialize t)

-- The two loops of `GetFees`, from a sum so far.
unfoldable pub sum_inputs : ℕ → List TransactionInput → ℕ
sum_inputs input_value [] = input_value
sum_inputs input_value (inp ∷ inputs) =
    sum_inputs (add64 input_value inp.output_referred.value) inputs

unfoldable pub sum_outputs : ℕ → List TransactionOutput → ℕ
sum_outputs output_value [] = output_value
sum_outputs output_value (outp ∷ outputs) = sum_outputs (add64 output_value outp.value) outputs

unfoldable pub get_fees : Transaction → ℕ
get_fees t = sub64 (sum_inputs 0 t.inputs) (sum_outputs 0 t.outputs)
