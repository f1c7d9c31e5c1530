-- ===== src/Db/Chainstate/Spend.antt =====
-- The record that `RemoveUtxo` writes is that of the transaction with one output more spent.
pub mod Storable
use plairo.Common.{
  ℕ, zero, suc, ◌+◌, ◌%◌, ◌<◌, ◌≤◌, ◌≡◌, ◌≢◌, refl, sym, ap, ◌∙◌, arith, ◌==◌, Bool, true, false,
  if◌then◌else◌, Bool-cases, inl, inr,
}
use plairo.Common.{
  List, [], ◌∷◌, ◌++◌, length, length-map, length-append, append_assoc, map, replicate, Option,
  none, some, ◌>>=◌,
}
use plairo.Core.Output.{TransactionOutput, generate_output_id, output_id_of}
use plairo.Core.Transaction.{
  Transaction, serialize_unspent, serialize_output, unspent_flags, serialize_tx_metadata,
  update_from, generate_txid, new_transaction,
}
use plairo.Core.Transaction.Identity.{IsUpdated}
use plairo.Core.Metadata.RoundTrip.{unspent_outputs, metadata_of, serialize_tx_metadata-metadata_of}
use plairo.Db.Chainstate.{set_fakeout, place_outputs, fill_fakeout}
use plairo.Db.Chainstate.Lookup.{unspent_at}

-- The outputs from index `i` on, with the output `vout` spent.
abbrev pub spend : ℕ → ℕ → List TransactionOutput → List TransactionOutput
spend vout i [] = []
spend vout i (outp ∷ outputs) =
    (if i == vout then record outp { is_not_spent = false } else outp) ∷ spend vout (suc i) outputs

-- What `RemoveUtxo` places for an output.
abbrev pub keep : TransactionOutput → Option TransactionOutput
keep outp = if outp.is_not_spent then some outp else none

set_fakeout-mid :
    (pre : List (Option TransactionOutput)) (n : ℕ) (outp : TransactionOutput)
    (ys : List (Option TransactionOutput))
    → n ≡ length pre
    → set_fakeout (pre ++ (none ∷ ys)) n outp ≡ some (pre ++ (some outp ∷ ys))
unfolding set_fakeout
set_fakeout-mid [] zero outp ys at = refl
set_fakeout-mid [] (suc n) outp ys at = absurd (omega arith)
set_fakeout-mid (x ∷ pre) zero outp ys at = absurd (omega arith)
set_fakeout-mid (x ∷ pre) (suc n) outp ys at = rw (set_fakeout-mid pre n outp ys (omega arith)) refl

keep-spent :
    (c : Bool) (outp : TransactionOutput)
    → keep (if c then record outp { is_not_spent = false } else outp)
      ≡ (if outp.is_not_spent then (if c then none else some outp) else none)
keep-spent true outp = either outp.is_not_spent
  where
    either : (b : Bool) → ◌≡◌ {A = Option TransactionOutput} none (if b then none else none)
    either true = refl
    either false = refl
keep-spent false outp = refl

-- What is placed and filled in for an output has its flag, and is the output if it is unspent.
filled-flag :
    (sha256 : List ℕ → List ℕ) (outp : TransactionOutput)
    → (fill_fakeout sha256 (keep outp)).is_not_spent ≡ outp.is_not_spent
filled-flag sha256 outp = go outp.is_not_spent refl
  where
    go :
        (b : Bool)
        → b ≡ outp.is_not_spent
        → (fill_fakeout sha256 (if b then some outp else none)).is_not_spent ≡ b
    go true e = sym e
    go false e = refl

filled_unspent :
    (sha256 : List ℕ → List ℕ) (outp : TransactionOutput)
    → outp.is_not_spent ≡ true
    → fill_fakeout sha256 (keep outp) ≡ outp
filled_unspent sha256 outp u = go outp.is_not_spent u
  where
    go : (b : Bool) → b ≡ true → fill_fakeout sha256 (if b then some outp else none) ≡ outp
    go true e = refl
    go false e = absurd (cc)

module _ (sha256 : List ℕ → List ℕ) (txid : List ℕ) where
  -- The outputs of the transaction that `RemoveUtxo` serializes.
  abbrev pub refilled : ℕ → List TransactionOutput → List TransactionOutput
  refilled i outputs = update_from sha256 txid i (map (fill_fakeout sha256) (map keep outputs))

  pub refilled-flags :
      (i : ℕ) (outputs : List TransactionOutput)
      → unspent_flags (refilled i outputs) ≡ unspent_flags outputs
  unfolding update_from generate_output_id output_id_of
  refilled-flags i [] = refl
  refilled-flags i (outp ∷ outputs) =
      ap (λ b. b ∷ unspent_flags (refilled (suc i) outputs)) (filled-flag sha256 outp)
      ∙ ap (λ bs. outp.is_not_spent ∷ bs) (refilled-flags (suc i) outputs)

  pub refilled-unspent :
      (i : ℕ) (outputs : List TransactionOutput)
      → serialize_unspent (refilled i outputs) ≡ serialize_unspent outputs
  unfolding update_from serialize_unspent generate_output_id output_id_of
  refilled-unspent i [] = refl
  refilled-unspent i (outp ∷ outputs) =
      first (fill_fakeout sha256 (keep outp)) outp.is_not_spent (filled-flag sha256 outp)
        (filled_unspent sha256 outp) (refilled-unspent (suc i) outputs)
    where
      first :
          (x : TransactionOutput) (b : Bool) {r1 r2 : List ℕ}
          → x.is_not_spent ≡ b
          → (b ≡ true → x ≡ outp)
          → r1 ≡ r2
          → (if x.is_not_spent then serialize_output x ++ r1 else r1)
            ≡ (if b then serialize_output outp ++ r2 else r2)
      first x true p same e = rw (same refl, e, sym (same refl)) (rw p refl)
      first x false p same e = rw (p, e) refl

module _ (sha256 : List ℕ → List ℕ) (txid : List ℕ) (vout : ℕ) where
  pub place_outputs-spend :
      (i : ℕ) (rest : List TransactionOutput) (pre : List (Option TransactionOutput))
      → i ≡ length pre
      → IsUpdated sha256 txid i rest
      → place_outputs vout (unspent_outputs rest) (pre ++ replicate (length rest) none)
        ≡ some (pre ++ map keep (spend vout i rest))
  unfolding place_outputs
  place_outputs-spend i [] pre at u = refl
  place_outputs-spend i (outp ∷ rest) pre at u =
      let later = place_outputs-spend (suc i) rest in
      let ih =
        λ (pre' : List (Option TransactionOutput)) (e : suc i ≡ length pre'). later pre' e u.3 in
      rw (keep-spent (i == vout) outp)
        (step outp.is_not_spent (i == vout) (rw u.1 refl) (next none ih) (next (some outp) ih))
    where
      step :
          (b c : Bool)
          → (outp.vout == vout) ≡ c
          → (place_outputs vout
                (unspent_outputs rest)
                (pre ++ (none ∷ replicate (length rest) none))
              ≡ some (pre ++ (none ∷ map keep (spend vout (suc i) rest))))
          → (place_outputs vout
                (unspent_outputs rest)
                (pre ++ (some outp ∷ replicate (length rest) none))
              ≡ some (pre ++ (some outp ∷ map keep (spend vout (suc i) rest))))
          → place_outputs vout
              (if b then outp ∷ unspent_outputs rest else unspent_outputs rest)
              (pre ++ (none ∷ replicate (length rest) none))
            ≡ some (
                pre
                ++ ((if b then (if c then none else some outp) else none)
                    ∷ map keep (spend vout (suc i) rest)))
      step false c e without with_it = without
      step true true e without with_it = rw e without
      step true false e without with_it =
          rw (e, set_fakeout-mid pre outp.vout outp (replicate (length rest) none) (u.1 ∙ at))
            with_it

      next :
          (x : Option TransactionOutput)
          → ((pre' : List (Option TransactionOutput))
              → suc i ≡ length pre'
              → place_outputs vout (unspent_outputs rest) (pre' ++ replicate (length rest) none)
                ≡ some (pre' ++ map keep (spend vout (suc i) rest)))
          → place_outputs vout (unspent_outputs rest) (pre ++ (x ∷ replicate (length rest) none))
            ≡ some (pre ++ (x ∷ map keep (spend vout (suc i) rest)))
      next x ih =
          rw
            (
              ← append_assoc pre (x ∷ []) (replicate (length rest) none),
              ← append_assoc pre (x ∷ []) (map keep (spend vout (suc i) rest)),
            )
            (ih (pre ++ (x ∷ [])) (omega (arith, length-append pre (x ∷ []))))

-- The output at `vout` is gone, and the others are as they were.
pub unspent_at-spend_from :
    (vout i v : ℕ) (outputs : List TransactionOutput)
    → unspent_at (spend vout i outputs) v ≡ (if i + v == vout then none else unspent_at outputs v)
unspent_at-spend_from vout i v [] = same_none (i + v == vout)
  where
    same_none : (b : Bool) → ◌≡◌ {A = Option TransactionOutput} none (if b then none else none)
    same_none true = refl
    same_none false = refl
unspent_at-spend_from vout i zero (outp ∷ outputs) = rw (zero_at i) (either (i == vout))
  where
    zero_at : (i : ℕ) → i + 0 ≡ i
    zero_at i = omega arith

    either :
        (b : Bool)
        → unspent_at ((if b then record outp { is_not_spent = false } else outp) ∷ []) 0
          ≡ (if b then none else if outp.is_not_spent then some outp else none)
    either true = refl
    either false = refl
unspent_at-spend_from vout i (suc v) (outp ∷ outputs) =
    unspent_at-spend_from vout (suc i) v outputs
    ∙ ap (λ k. if k == vout then none else unspent_at outputs v) (omega arith)

pub length-spend :
    (vout i : ℕ) (outputs : List TransactionOutput) → length (spend vout i outputs) ≡ length outputs
length-spend vout i [] = refl
length-spend vout i (outp ∷ outputs) = ap suc (length-spend vout (suc i) outputs)

-- The transaction with the output `vout` spent, as the record keeps it: the height and the coinbase
-- flag are lost.
abbrev pub spent_tx_of : Transaction → ℕ → Transaction
spent_tx_of t vout = record t {
  block_height = 0;
  is_coinbase = false;
  outputs = spend vout 0 t.outputs;
}

pub serialize_tx_metadata-refilled :
    (sha256 : List ℕ → List ℕ) (t : Transaction) (vout : ℕ)
    → serialize_tx_metadata
        (new_transaction sha256 [] (map (fill_fakeout sha256) (map keep (spend vout 0 t.outputs))))
      ≡ serialize_tx_metadata (spent_tx_of t vout)
unfolding metadata_of new_transaction generate_txid
serialize_tx_metadata-refilled sha256 t vout =
    let spent = spend vout 0 t.outputs in
    serialize_tx_metadata-metadata_of _
    ∙ ap some (
        rw
          (
            refilled-flags sha256 _ 0 spent,
            refilled-unspent sha256 _ 0 spent,
            ← length-map (refilled sha256 _ 0 spent) (λ outp. outp.is_not_spent),
            refilled-flags sha256 _ 0 spent,
            length-map spent (λ outp. outp.is_not_spent),
          )
          refl)
    ∙ sym (serialize_tx_metadata-metadata_of (spent_tx_of t vout))
