-- ===== src/Core/BlockCheck/Paid.antt =====
-- What a coinbase may take, beside `ValidateCoinbase` of core/block.go.
use plairo.Common.{
  ℕ, ◌+◌, ◌/◌, ◌%◌, ◌<◌, ◌≤◌, ◌^◌, ◌≡◌, refl, sym, ap, ◌∙◌, ◌↔◌, arith, not, ltb, true,
}
use plairo.Common.{List, [], ◌∷◌, none, some, unsome}
use plairo.Core.Output.{TransactionInput, TransactionOutput}
use plairo.Core.Transaction.{Transaction}
use plairo.Core.Fees.{add64, sum_inputs, sum_outputs, get_fees}
use plairo.Core.Block.{Block, get_block_fees, sum_fees}
use plairo.Core.BlockCheck.{validate_coinbase, subsidy_at}

-- Exact totals.
abbrev pub spent_by : List TransactionInput → ℕ
spent_by [] = 0
spent_by (inp ∷ inputs) = inp.output_referred.value + spent_by inputs

abbrev pub paid_to : List TransactionOutput → ℕ
paid_to [] = 0
paid_to (outp ∷ outputs) = outp.value + paid_to outputs

abbrev pub total_in : List Transaction → ℕ
total_in [] = 0
total_in (tx ∷ txs) = spent_by tx.inputs + total_in txs

abbrev pub total_out : List Transaction → ℕ
total_out [] = 0
total_out (tx ∷ txs) = paid_to tx.outputs + total_out txs

-- The first transaction pays out no more than 500 coins of 100000000, halved at every 1000th block,
-- and the fees, which are what the other transactions spend less what they pay. All sums are those
-- of 64 bits.
pub record IsPaid (b : Block) (height : ℕ) : Type 0 where
  pub coinbase_tx : Transaction
  pub others : List Transaction
  pub fees : ℕ
  pub split : b.all_block_tx ≡ coinbase_tx ∷ others
  pub fees_range : fees < 2 ^ 64
  pub balance : (fees + total_out others) % 2 ^ 64 ≡ total_in others % 2 ^ 64
  pub within :
      paid_to coinbase_tx.outputs % 2 ^ 64 ≤ (50000000000 / 2 ^ (height / 1000) + fees) % 2 ^ 64

sum_inputs-total :
    (acc : ℕ) (inputs : List TransactionInput)
    → (sum_inputs acc inputs % 2 ^ 64 ≡ (acc + spent_by inputs) % 2 ^ 64)
unfolding sum_inputs
sum_inputs-total acc [] = omega arith
sum_inputs-total acc (inp ∷ inputs) =
    omega (arith, sum_inputs-total (add64 acc inp.output_referred.value) inputs)

sum_outputs-total :
    (acc : ℕ) (outputs : List TransactionOutput)
    → (sum_outputs acc outputs % 2 ^ 64 ≡ (acc + paid_to outputs) % 2 ^ 64)
unfolding sum_outputs
sum_outputs-total acc [] = omega arith
sum_outputs-total acc (outp ∷ outputs) =
    omega (arith, sum_outputs-total (add64 acc outp.value) outputs)

sum_outputs-range :
    (acc : ℕ) (outputs : List TransactionOutput) → acc < 2 ^ 64 → sum_outputs acc outputs < 2 ^ 64
unfolding sum_outputs
sum_outputs-range acc [] h = h
sum_outputs-range acc (outp ∷ outputs) h =
    sum_outputs-range (add64 acc outp.value) outputs (omega arith)

get_fees-balance :
    (tx : Transaction) → (get_fees tx + paid_to tx.outputs) % 2 ^ 64 ≡ spent_by tx.inputs % 2 ^ 64
unfolding get_fees
get_fees-balance tx = omega (
  arith,
  sum_inputs-total 0 tx.inputs,
  sum_outputs-total 0 tx.outputs,
  sum_outputs-range 0 tx.outputs (omega arith),
)

sum_fees-balance :
    (acc : ℕ) (txs : List Transaction)
    → (sum_fees acc txs + total_out txs) % 2 ^ 64 ≡ (acc + total_in txs) % 2 ^ 64
unfolding sum_fees
sum_fees-balance acc [] = refl
sum_fees-balance acc (tx ∷ txs) =
    omega (arith, sum_fees-balance (add64 acc (get_fees tx)) txs, get_fees-balance tx)

sum_fees-range : (acc : ℕ) (txs : List Transaction) → acc < 2 ^ 64 → sum_fees acc txs < 2 ^ 64
unfolding sum_fees
sum_fees-range acc [] h = h
sum_fees-range acc (tx ∷ txs) h = sum_fees-range (add64 acc (get_fees tx)) txs (omega arith)

-- The check of a block whose first transaction is known.
validate_coinbase-test :
    (b : Block) (height : ℕ) (tx : Transaction) (txs : List Transaction)
    → b.all_block_tx ≡ tx ∷ txs
    → validate_coinbase b height
      ≡ some (not (ltb (add64 (subsidy_at height) (sum_fees 0 txs)) (sum_outputs 0 tx.outputs)))
unfolding validate_coinbase get_block_fees
validate_coinbase-test b height tx txs e =
    ap (λ l. validate_coinbase (record { header = b.header; all_block_tx = l }) height) e

passes : (a c : ℕ) → some (not (ltb a c)) ≡ some true → c ≤ a
passes a c p = ground (arith, unsome p)

passed : (a c : ℕ) → c ≤ a → some (not (ltb a c)) ≡ some true
passed a c le = ap some (ground arith)

-- `ValidateCoinbase` passes the blocks whose coinbase is paid so.
pub validate_coinbase-IsPaid :
    (b : Block) (height : ℕ) → (validate_coinbase b height ≡ some true) ↔ IsPaid b height
unfolding validate_coinbase subsidy_at
validate_coinbase-IsPaid b height = (forth b.all_block_tx refl, back)
  where
    forth :
        (txs : List Transaction)
        → b.all_block_tx ≡ txs
        → validate_coinbase b height ≡ some true
        → IsPaid b height
    forth [] e p = absurd (no_coinbase (rw (validate_coinbase, e) at p))
      where
        no_coinbase : {A : Type 0} {a : A} → none ≡ some a → ⊥
        no_coinbase q = cc
    forth (tx ∷ txs) e p = record {
      coinbase_tx = tx;
      others = txs;
      fees = sum_fees 0 txs;
      split = e;
      fees_range = sum_fees-range 0 txs (omega arith);
      balance = omega (arith, sum_fees-balance 0 txs);
      within = omega (
        arith,
        passes _ _ (sym (validate_coinbase-test b height tx txs e) ∙ p),
        sum_outputs-total 0 tx.outputs,
        sum_outputs-range 0 tx.outputs (omega arith),
      );
    }

    back : IsPaid b height → validate_coinbase b height ≡ some true
    back s =
        validate_coinbase-test b height s.coinbase_tx s.others s.split
        ∙ passed _ _ (
            omega (
              arith,
              s.within,
              s.balance,
              s.fees_range,
              sum_fees-balance 0 s.others,
              sum_fees-range 0 s.others (omega arith),
              sum_outputs-total 0 s.coinbase_tx.outputs,
              sum_outputs-range 0 s.coinbase_tx.outputs (omega arith),
            ))
