-- ===== src/Db/Chainstate/Spend/Storable.antt =====
-- Spending an output keeps a transaction storable.
use plairo.Common.{ℕ, suc, ◌≤◌, ◌≡◌, refl, sym, arith, ◌==◌, Bool, true, false, if◌then◌else◌}
use plairo.Common.{List, [], ◌∷◌, ◌++◌, length, length-append, All, IsByte}
use plairo.Core.Output.{TransactionOutput}
use plairo.Core.Transaction.{Transaction, serialize_unspent, serialize_output}
use plairo.Core.Transaction.Identity.{IsUpdated}
use plairo.Core.Metadata.Records.{IsEncodable}
use plairo.Core.Metadata.RoundTrip.{IsStorable}
use plairo.Core.Metadata.Bytes.{AreByteScripts}
use plairo.Db.Chainstate.Spend.{spend, spent_tx_of, length-spend}

-- Spending an output keeps a transaction storable.
spend-IsEncodable :
    (vout i : ℕ) (outputs : List TransactionOutput)
    → All IsEncodable outputs
    → All IsEncodable (spend vout i outputs)
spend-IsEncodable vout i [] a = tt
spend-IsEncodable vout i (outp ∷ outputs) a =
    (first (i == vout), spend-IsEncodable vout (suc i) outputs a.1)
  where
    first : (b : Bool) → IsEncodable (if b then record outp { is_not_spent = false } else outp)
    first true = record { value_range = a.0.value_range; script_range = a.0.script_range }
    first false = a.0

pub spend-AreByteScripts :
    (vout i : ℕ) (outputs : List TransactionOutput)
    → AreByteScripts outputs
    → AreByteScripts (spend vout i outputs)
spend-AreByteScripts vout i [] a = tt
spend-AreByteScripts vout i (outp ∷ outputs) a =
    (first (i == vout), spend-AreByteScripts vout (suc i) outputs a.1)
  where
    first :
        (b : Bool)
        → All IsByte (if b then record outp { is_not_spent = false } else outp).script_pub_key
    first true = a.0
    first false = a.0

spend-IsUpdated :
    (sha256 : List ℕ → List ℕ) (txid : List ℕ) (vout i : ℕ) (outputs : List TransactionOutput)
    → IsUpdated sha256 txid i outputs
    → IsUpdated sha256 txid i (spend vout i outputs)
spend-IsUpdated sha256 txid vout i [] u = tt
spend-IsUpdated sha256 txid vout i (outp ∷ outputs) u =
    first (i == vout) (spend-IsUpdated sha256 txid vout (suc i) outputs u.3)
  where
    first :
        (b : Bool)
        → IsUpdated sha256 txid (suc i) (spend vout (suc i) outputs)
        → IsUpdated sha256 txid i (
            (if b then record outp { is_not_spent = false } else outp) ∷ spend vout (suc i) outputs)
    first true rest = (u.0, u.1, u.2, rest)
    first false rest = (u.0, u.1, u.2, rest)

length-serialize_unspent :
    (vout i : ℕ) (outputs : List TransactionOutput)
    → length (serialize_unspent (spend vout i outputs)) ≤ length (serialize_unspent outputs)
unfolding serialize_unspent
length-serialize_unspent vout i [] = omega arith
length-serialize_unspent vout i (outp ∷ outputs) =
    first (i == vout) outp.is_not_spent refl (length-serialize_unspent vout (suc i) outputs)
  where
    rest : List ℕ
    rest = serialize_unspent (spend vout (suc i) outputs)

    first :
        (b c : Bool)
        → c ≡ outp.is_not_spent
        → length rest ≤ length (serialize_unspent outputs)
        → length (
            serialize_unspent (
              (if b then record outp { is_not_spent = false } else outp)
              ∷ spend vout (suc i) outputs))
          ≤ length (
              if c
              then serialize_output outp ++ serialize_unspent outputs
              else serialize_unspent outputs)
    first true true e h =
        omega (arith, h, length-append (serialize_output outp) (serialize_unspent outputs))
    first true false e h = h
    first false true e h = rw (sym e) (
        omega (
          arith,
          h,
          length-append (serialize_output outp) (serialize_unspent outputs),
          length-append (serialize_output outp) rest,
        ))
    first false false e h = rw (sym e) h

module _ (sha256 : List ℕ → List ℕ) where
  pub spent_tx_of-IsStorable :
      (t : Transaction) (vout : ℕ) → IsStorable sha256 t → IsStorable sha256 (spent_tx_of t vout)
  spent_tx_of-IsStorable t vout ok = record {
    height_range = omega arith;
    count_range = rw (length-spend vout 0 t.outputs) ok.count_range;
    outputs_ranges = spend-IsEncodable vout 0 t.outputs ok.outputs_ranges;
    size_range =
        rw (length-spend vout 0 t.outputs)
          (omega (arith, ok.size_range, length-serialize_unspent vout 0 t.outputs));
    updated = spend-IsUpdated sha256 t.txid vout 0 t.outputs ok.updated;
  }
