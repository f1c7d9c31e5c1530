-- ===== src/Core/Signing/Check.antt =====
-- What `signInput` signs passes the check of `ValidateTransaction`.
use mathlib.Core.Path.{subst}
use plairo.Common.{ℕ, zero, suc, ◌≡◌, ◌≢◌, refl, sym, ap, ==_refl, Bool, true, false}
use plairo.Common.{
  List, [], ◌∷◌, ◌++◌, get_elem?, Option, some, Option-cases, inl, inr, bytes_eq_refl, unsome,
  >>=-eq-some,
}
use plairo.Core.Output.{TransactionOutput, TransactionInput, equal, bool_eq}
use plairo.Core.Transaction.{Transaction}
use plairo.Core.Validate.{
  Ecdsa, sighash_all, split_last, blank_signatures, passes, gather_signature_data, verify_signature,
  check_input,
}
use plairo.Core.Validate.Exact.{check_input-Unlocks, Unlocks-check_input}
use plairo.Core.Signing.{
  Signer, signed, not_signed, sign_panics, set_script_sig, generate_signature, sign_input,
}

-- A signature of a private key is accepted under its public key.
pub record IsSound (ecdsa : Ecdsa) (signer : Signer ecdsa) : Type 0 where
  pub verify-sign :
      (seed : Signer.Seed signer) (k : Signer.PrivateKey signer) (hash sig : List ℕ)
      → signer.sign_asn1 seed k hash ≡ some sig
      → ecdsa.verify_asn1 (signer.public_key k) hash sig ≡ true

equal_refl : (o : TransactionOutput) → equal o o ≡ true
unfolding equal
equal_refl o =
    rw
      (
        bytes_eq_refl o.output_id,
        ==_refl o.value,
        same_flag o.is_not_spent,
        bytes_eq_refl o.script_pub_key,
      )
      refl
  where
    same_flag : (b : Bool) → bool_eq b b ≡ true
    same_flag true = refl
    same_flag false = refl

split_last-append : (xs : List ℕ) (x : ℕ) → split_last (xs ++ (x ∷ [])) ≡ some (xs, x)
unfolding split_last
split_last-append [] x = refl
split_last-append (y ∷ []) x = refl
split_last-append (y ∷ z ∷ xs) x = rw (split_last-append (z ∷ xs) x) refl

-- The message to sign does not depend on the signatures that are there.
blank_signatures-set :
    (k n i : ℕ) (inputs inputs' : List TransactionInput) (s : List ℕ)
    → set_script_sig inputs i s ≡ some inputs'
    → blank_signatures k n inputs' ≡ blank_signatures k n inputs
unfolding set_script_sig blank_signatures
blank_signatures-set k n i [] inputs' s p = cc
blank_signatures-set k n zero (inp ∷ inputs) inputs' s p = rw (sym (unsome p)) refl
blank_signatures-set k n (suc i) (inp ∷ inputs) inputs' s p =
    let (rest, q, e) = >>=-eq-some (set_script_sig inputs i s) _ p in
    rw (sym (unsome e)) (
      ap (λ xs. blank_signatures k n (inp ∷ []) ++ xs)
        (blank_signatures-set k (suc n) i inputs rest s q))

set_script_sig_self :
    (i : ℕ) (inputs inputs' : List TransactionInput) (s : List ℕ) (inp : TransactionInput)
    → set_script_sig inputs i s ≡ some inputs'
    → get_elem? inputs i ≡ some inp
    → get_elem? inputs' i ≡ some (record inp { script_sig = s })
unfolding set_script_sig
set_script_sig_self i [] inputs' s inp p at = cc
set_script_sig_self zero (x ∷ inputs) inputs' s inp p at = rw (sym (unsome p), unsome at) refl
set_script_sig_self (suc i) (x ∷ inputs) inputs' s inp p at =
    let (rest, q, e) = >>=-eq-some (set_script_sig inputs i s) _ p in
    rw (sym (unsome e)) (set_script_sig_self i inputs rest s inp q at)

set_script_sig_ne :
    (i : ℕ) (inputs inputs' : List TransactionInput) (s : List ℕ) (j : ℕ)
    → set_script_sig inputs i s ≡ some inputs'
    → j ≢ i
    → get_elem? inputs' j ≡ get_elem? inputs j
unfolding set_script_sig
set_script_sig_ne i [] inputs' s j p ne = cc
set_script_sig_ne zero (x ∷ inputs) inputs' s zero p ne = absurd (ne refl)
set_script_sig_ne zero (x ∷ inputs) inputs' s (suc j) p ne = rw (sym (unsome p)) refl
set_script_sig_ne (suc i) (x ∷ inputs) inputs' s zero p ne =
    let (rest, q, e) = >>=-eq-some (set_script_sig inputs i s) _ p in rw (sym (unsome e)) refl
set_script_sig_ne (suc i) (x ∷ inputs) inputs' s (suc j) p ne =
    let (rest, q, e) = >>=-eq-some (set_script_sig inputs i s) _ p in
    rw (sym (unsome e)) (set_script_sig_ne i inputs rest s j q (λ same. ne (ap suc same)))

module _ (sha256 : List ℕ → List ℕ) (ecdsa : Ecdsa) (signer : Signer ecdsa)
    (get_utxo : List ℕ → ℕ → Option (Option TransactionOutput)) where
  gather-set :
      (t : Transaction) (i : ℕ) (inputs' : List TransactionInput) (s : List ℕ) (j flag : ℕ)
      → set_script_sig t.inputs i s ≡ some inputs'
      → gather_signature_data sha256 (record t { inputs = inputs' }) j flag
        ≡ gather_signature_data sha256 t j flag
  unfolding gather_signature_data
  gather-set t i inputs' s j flag p = rw (blank_signatures-set j 0 i t.inputs inputs' s p) refl

  -- An input that passes its check passes it whatever signatures the others have.
  check_input-set :
      (t : Transaction) (i : ℕ) (inputs' : List TransactionInput) (s : List ℕ) (j : ℕ)
      (inp : TransactionInput)
      → set_script_sig t.inputs i s ≡ some inputs'
      → check_input sha256 ecdsa get_utxo t j inp ≡ passes
      → check_input sha256 ecdsa get_utxo (record t { inputs = inputs' }) j inp ≡ passes
  check_input-set t i inputs' s j inp p ok =
      let u = check_input-Unlocks sha256 ecdsa get_utxo t j inp ok in
      Unlocks-check_input sha256 ecdsa get_utxo (record t { inputs = inputs' }) j inp
        (record {
          utxo = u.utxo;
          raw_sig = u.raw_sig;
          flag = u.flag;
          pubkey = u.pubkey;
          unspent = u.unspent;
          same_output = u.same_output;
          split = u.split;
          key_parses = u.key_parses;
          verified = rw (gather-set t i inputs' s j u.flag p) u.verified;
        })

  -- What `sign_input-KeepsChecks` states of the signed transaction.
  abbrev pub KeepsChecks : Transaction → ℕ → TransactionInput → Transaction → Type 0
  KeepsChecks t i inp t' =
      ((inp' : TransactionInput) × (get_elem? t'.inputs i ≡ some inp')
        × (inp'.output_referred ≡ inp.output_referred)
        × (check_input sha256 ecdsa get_utxo t' i inp' ≡ passes))
      × ((j : ℕ) → j ≢ i → get_elem? t'.inputs j ≡ get_elem? t.inputs j)
      × ((j : ℕ) (other : TransactionInput)
          → check_input sha256 ecdsa get_utxo t j other ≡ passes
          → check_input sha256 ecdsa get_utxo t' j other ≡ passes)

  signature-KeepsChecks :
      (t : Transaction) (i : ℕ) (inp : TransactionInput) (inputs' : List TransactionInput)
      (sig : List ℕ) (key : Ecdsa.Key ecdsa)
      → get_elem? t.inputs i ≡ some inp
      → get_utxo inp.output_referred.parent_txid inp.output_referred.vout
        ≡ some (some inp.output_referred)
      → ecdsa.parse_key inp.output_referred.script_pub_key ≡ some key
      → ecdsa.verify_asn1 key (sha256 (gather_signature_data sha256 t i sighash_all)) sig ≡ true
      → set_script_sig t.inputs i (sig ++ (sighash_all ∷ [])) ≡ some inputs'
      → KeepsChecks t i inp (record t { inputs = inputs' })
  signature-KeepsChecks t i inp inputs' sig key at unspent parses verifies w =
      let s = sig ++ (sighash_all ∷ []) in
      let inp' : TransactionInput = record inp { script_sig = s } in
      (
        (
          inp',
          set_script_sig_self i t.inputs inputs' s inp w at,
          refl,
          Unlocks-check_input sha256 ecdsa get_utxo (record t { inputs = inputs' }) i inp'
              (record {
                utxo = inp.output_referred;
                raw_sig = sig;
                flag = sighash_all;
                pubkey = key;
                unspent = unspent;
                same_output = equal_refl inp.output_referred;
                split = split_last-append sig sighash_all;
                key_parses = parses;
                verified =
                    unfold verify_signature in
                    rw (gather-set t i inputs' s i sighash_all w) verifies;
              }),
        ),
        λ j ne. set_script_sig_ne i t.inputs inputs' s j w ne,
        λ j other ok. check_input-set t i inputs' s j other w ok,
      )

  -- If `signInput` signs the input at an index with SIGHASH_ALL, the output that the input refers to
  -- is unspent in the chainstate and its script is the encoding of the public key of the private key
  -- used, and signatures of the key verify, then the input passes its check in the signed
  -- transaction. The other inputs are left as they were, and those that passed their check pass it
  -- still.
  pub sign_input-KeepsChecks :
      (sound : IsSound ecdsa signer) (seed : Signer.Seed signer) (t t' : Transaction) (i : ℕ)
      (k : Signer.PrivateKey signer) (inp : TransactionInput)
      → get_elem? t.inputs i ≡ some inp
      → get_utxo inp.output_referred.parent_txid inp.output_referred.vout
        ≡ some (some inp.output_referred)
      → ecdsa.parse_key inp.output_referred.script_pub_key ≡ some (signer.public_key k)
      → sign_input sha256 ecdsa signer seed t i k sighash_all ≡ signed t'
      → KeepsChecks t i inp t'
  unfolding sign_input generate_signature
  sign_input-KeepsChecks sound seed t t' i k inp at unspent parses p =
      elim (Option-cases
        (signer.sign_asn1 seed k (sha256 (gather_signature_data sha256 t i sighash_all)))) [
          | inl n ↦ absurd (not_signed_ne (rw (n, sign_input, generate_signature) at p))
          | inr (sig, q) ↦
              elim (Option-cases (set_script_sig t.inputs i (sig ++ (sighash_all ∷ [])))) [
                | inl n ↦ absurd (panics_ne (rw (q, n, sign_input, generate_signature) at p))
                | inr (inputs', w) ↦
                    subst (KeepsChecks t i inp)
                      (same_signed (rw (q, w, sign_input, generate_signature) at p))
                      (signature-KeepsChecks t i inp inputs' sig (signer.public_key k) at unspent
                        parses (sound.verify-sign seed k _ sig q) w)
              ]
        ]
    where
      not_signed_ne : not_signed ≡ signed t' → ⊥
      not_signed_ne e = cc

      panics_ne : sign_panics ≡ signed t' → ⊥
      panics_ne e = cc

      same_signed : {u : Transaction} → signed u ≡ signed t' → u ≡ t'
      same_signed e = cc
