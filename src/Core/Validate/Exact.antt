-- ===== src/Core/Validate/Exact.antt =====
-- The transactions that `ValidateTransaction` accepts.
use plairo.Common.{ℕ, suc, ◌≤◌, ◌≡◌, ◌≢◌, refl, arith, ltb, ◌||◌, Bool, true, false}
use plairo.Common.{List, [], ◌∷◌, Option, some, Bool-cases, inl, inr, none, Option-cases, All}
use plairo.Common.{bytes_ne, bytes_ne_of, ◌↔◌}
use plairo.Core.Output.{TransactionOutput, TransactionInput, equal}
use plairo.Core.Transaction.{Transaction}
use plairo.Core.Fees.{add64, sum_inputs, get_minimum_fees}
use plairo.Core.Validate.{
  Ecdsa, TxError, Validation, valid, invalid, Step, passes, fails, panics_here, and_then,
  split_last, is_seen, has_duplicate, check_outputs, verify_signature, gather_signature_data,
  check_input, check_amounts, check_inputs, validate_transaction,
}

-- No two inputs refer to the same output, and none to one of `seen`.
abbrev pub Unlike : List ℕ → List (List ℕ) → Type 0
Unlike id seen = All (λ x. x ≢ id) seen

abbrev pub AllDistinct : List (List ℕ) → List TransactionInput → Type 0
AllDistinct seen [] = Unit {0}
AllDistinct seen (inp ∷ inputs) =
    Unlike inp.output_referred.output_id seen
    × AllDistinct (inp.output_referred.output_id ∷ seen) inputs

pub is_seen-Unlike :
    (id : List ℕ) (seen : List (List ℕ)) → (is_seen id seen ≡ false) ↔ Unlike id seen
unfolding is_seen
is_seen-Unlike id [] = (λ p. tt, λ u. refl)
is_seen-Unlike id (x ∷ seen) = (
  λ p. (bytes_ne_of x id (or_false p).0, (is_seen-Unlike id seen).0 (or_false p).1),
  λ u. rw (bytes_ne x id u.0, (is_seen-Unlike id seen).1 u.1) refl,
)
  where
    or_false : {a b : Bool} → (a || b) ≡ false → (a ≡ false) × (b ≡ false)
    or_false p = ground arith

has_duplicate-AllDistinct :
    (seen : List (List ℕ)) (inputs : List TransactionInput)
    → (has_duplicate seen inputs ≡ false) ↔ AllDistinct seen inputs
unfolding has_duplicate
has_duplicate-AllDistinct seen [] = (λ p. tt, λ u. refl)
has_duplicate-AllDistinct seen (inp ∷ inputs) =
    let id = inp.output_referred.output_id in
    let here = is_seen-Unlike id seen in
    let there = has_duplicate-AllDistinct (id ∷ seen) inputs in
    (λ p. (here.0 (or_false p).0, there.0 (or_false p).1), λ u. rw (here.1 u.0, there.1 u.1) refl)
  where
    or_false : {a b : Bool} → (a || b) ≡ false → (a ≡ false) × (b ≡ false)
    or_false p = ground arith

and_then-valid : (s : Step) (v : Validation) → and_then s v ≡ valid → (s ≡ passes) × (v ≡ valid)
and_then-valid passes v p = (refl, p)
and_then-valid (fails e) v p = cc
and_then-valid panics_here v p = cc

fails_ne : {e : TxError} → fails e ≡ passes → ⊥
fails_ne p = cc

invalid_ne : {e : TxError} → invalid e ≡ valid → ⊥
invalid_ne p = cc

panics_ne : panics_here ≡ passes → ⊥
panics_ne p = cc

ltb-false : {a b : ℕ} → ltb a b ≡ false → b ≤ a
ltb-false p = ground arith

ltb-false_of : {a b : ℕ} → b ≤ a → ltb a b ≡ false
ltb-false_of l = ground arith

module _ (sha256 : List ℕ → List ℕ) (ecdsa : Ecdsa)
    (get_utxo : List ℕ → ℕ → Option (Option TransactionOutput)) where
  -- The output that an input refers to is unspent in the chainstate, is the one that the input
  -- carries, and its key accepts the signature.
  pub record Unlocks (t : Transaction) (i : ℕ) (inp : TransactionInput) : Type 0 where
    pub utxo : TransactionOutput
    pub raw_sig : List ℕ
    pub flag : ℕ
    pub pubkey : Ecdsa.Key ecdsa
    pub unspent :
        get_utxo inp.output_referred.parent_txid inp.output_referred.vout ≡ some (some utxo)
    pub same_output : equal utxo inp.output_referred ≡ true
    pub split : split_last inp.script_sig ≡ some (raw_sig, flag)
    pub key_parses : ecdsa.parse_key utxo.script_pub_key ≡ some pubkey
    pub verified :
        verify_signature sha256 ecdsa (gather_signature_data sha256 t i flag) raw_sig pubkey ≡ true

  pub check_input-Unlocks :
      (t : Transaction) (i : ℕ) (inp : TransactionInput)
      → check_input sha256 ecdsa get_utxo t i inp ≡ passes
      → Unlocks t i inp
  unfolding check_input
  check_input-Unlocks t i inp p =
      elim (Option-cases (get_utxo inp.output_referred.parent_txid inp.output_referred.vout)) [
        | inl n ↦ absurd (panics_ne (rw (n, check_input) at p))
        | inr (none, n) ↦ absurd (fails_ne (rw (n, check_input) at p))
        | inr (some utxo, unspent) ↦ elim (Bool-cases (equal utxo inp.output_referred)) [
          | inr e ↦ absurd (fails_ne (rw (unspent, e, check_input) at p))
          | inl same ↦ elim (Option-cases (split_last inp.script_sig)) [
            | inl n ↦ absurd (panics_ne (rw (unspent, same, n, check_input) at p))
            | inr ((raw_sig, flag), split) ↦
                elim (Option-cases (ecdsa.parse_key utxo.script_pub_key)) [
                  | inl n ↦ absurd (fails_ne (rw (unspent, same, split, n, check_input) at p))
                  | inr (pubkey, key_parses) ↦
                      elim (Bool-cases (
                        verify_signature sha256 ecdsa (gather_signature_data sha256 t i flag)
                          raw_sig pubkey)) [
                            | inr e ↦ absurd (
                                fails_ne
                                  (rw (unspent, same, split, key_parses, e, check_input) at p))
                            | inl verified ↦ record {
                              utxo = utxo;
                              raw_sig = raw_sig;
                              flag = flag;
                              pubkey = pubkey;
                              unspent = unspent;
                              same_output = same;
                              split = split;
                              key_parses = key_parses;
                              verified = verified;
                            }
                          ]
                ]
          ]
        ]
      ]

  pub Unlocks-check_input :
      (t : Transaction) (i : ℕ) (inp : TransactionInput)
      → Unlocks t i inp
      → check_input sha256 ecdsa get_utxo t i inp ≡ passes
  unfolding check_input
  Unlocks-check_input t i inp u =
      rw (u.unspent, u.same_output, u.split, u.key_parses, u.verified, check_input) refl

  abbrev pub AllUnlock : Transaction → ℕ → List TransactionInput → Type 0
  AllUnlock t i [] = Unit {0}
  AllUnlock t i (inp ∷ inputs) = Unlocks t i inp × AllUnlock t (suc i) inputs

  -- The outputs' running totals are all amounts that may be spent, and the inputs' total covers the
  -- last of them with the minimum fees.
  abbrev pub Covers : Transaction → ℕ → Type 0
  Covers t input_value =
      (total : ℕ) × (check_outputs 0 t.outputs ≡ some total)
      × (add64 total (get_minimum_fees t) ≤ input_value)

  check_amounts-valid :
      (t : Transaction) (v : ℕ) → (check_amounts sha256 ecdsa get_utxo t v ≡ valid) ↔ Covers t v
  unfolding check_amounts
  check_amounts-valid t v = (forward, backward)
    where
      forward : check_amounts sha256 ecdsa get_utxo t v ≡ valid → Covers t v
      forward p = elim (Option-cases (check_outputs 0 t.outputs)) [
        | inl n ↦ absurd (invalid_ne (rw (n, check_amounts) at p))
        | inr (total, q) ↦ elim (Bool-cases (ltb v (add64 total (get_minimum_fees t)))) [
          | inl l ↦ absurd (invalid_ne (rw (q, l, check_amounts) at p))
          | inr l ↦ (total, q, ltb-false l)
        ]
      ]

      backward : Covers t v → check_amounts sha256 ecdsa get_utxo t v ≡ valid
      backward (total, q, l) = rw (q, ltb-false_of l, check_amounts) refl

  check_inputs-valid :
      (t : Transaction) (i v : ℕ) (inputs : List TransactionInput)
      → (check_inputs sha256 ecdsa get_utxo t i v inputs ≡ valid)
        ↔ (AllUnlock t i inputs × Covers t (sum_inputs v inputs))
  unfolding check_inputs sum_inputs
  check_inputs-valid t i v [] =
      (λ p. (tt, (check_amounts-valid t v).0 p), λ u. (check_amounts-valid t v).1 u.1)
  check_inputs-valid t i v (inp ∷ inputs) =
      let rest = check_inputs-valid t (suc i) (add64 v inp.output_referred.value) inputs in
      (
        λ p.
            let both = and_then-valid _ _ p in
            let after = rest.0 both.1 in ((check_input-Unlocks t i inp both.0, after.0), after.1),
        λ u. rw (Unlocks-check_input t i inp u.0.0, rest.1 (u.0.1, u.1)) refl,
      )

  -- `ValidateTransaction` returns nil exactly when no two inputs refer to the same output, every input
  -- refers to an output that the chainstate has unspent, that is equal to the one the input carries
  -- and whose key accepts the input's signature, every running total of the outputs' values is a
  -- valid amount, and the inputs' values, added as uint64, are no less than the last total with the
  -- minimum fees.
  pub validate_transaction-Covers :
      (t : Transaction)
      → (validate_transaction sha256 ecdsa get_utxo t ≡ valid)
        ↔ (AllDistinct [] t.inputs × AllUnlock t 0 t.inputs × Covers t (sum_inputs 0 t.inputs))
  unfolding validate_transaction
  validate_transaction-Covers t =
      let distinct = has_duplicate-AllDistinct [] t.inputs in
      let inputs = check_inputs-valid t 0 0 t.inputs in
      (
        λ p. elim (Bool-cases (has_duplicate [] t.inputs)) [
          | inl d ↦ absurd (invalid_ne (rw (d, validate_transaction) at p))
          | inr d ↦
              let rest = inputs.0 (rw (d, validate_transaction) at p) in
              (distinct.0 d, rest.0, rest.1)
        ],
        λ u. rw (distinct.1 u.0, inputs.1 (u.1, u.2), validate_transaction) refl,
      )
