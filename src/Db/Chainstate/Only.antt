-- ===== src/Db/Chainstate/Only.antt =====
-- What the flags of a record say of its unspent outputs.
use plairo.Common.{returns}
use plairo.Common.{
  ℕ, zero, suc, ◌<◌, ◌≤◌, ◌≡◌, ◌≢◌, refl, ap, arith, ◌==◌, Bool, true, false, if◌then◌else◌, ==_iff,
  ==_refl,
}
use plairo.Common.{List, [], ◌∷◌, length, get_elem?, Option, none, some, unsome}
use plairo.Core.Output.{TransactionOutput}
use plairo.Core.Transaction.{unspent_flags}
use plairo.Core.Metadata.Bits.{set_indices}
use plairo.Core.Metadata.RoundTrip.{unspent_outputs}
use plairo.Db.Chainstate.{is_only, find_vout, or_panics}
use plairo.Db.Chainstate.Lookup.{unspent_at, shown, looked_up-unspent_at}

-- A flag that is set belongs to an unspent output.
pub unspent_at-flag :
    (v : ℕ) (outputs : List TransactionOutput)
    → get_elem? (unspent_flags outputs) v ≡ some true
    → unspent_at outputs v ≢ none
unspent_at-flag v [] p q = cc
unspent_at-flag zero (outp ∷ outputs) p q = some_ne outp.is_not_spent (unsome p) q
  where
    some_ne : (b : Bool) → b ≡ true → (if b then some outp else none) ≡ none → ⊥
    some_ne true e r = cc
    some_ne false e r = cc
unspent_at-flag (suc v) (outp ∷ outputs) p q = unspent_at-flag v outputs p q

-- One that is not set, or is not there, to none.
pub unspent_at-no_flag :
    (v : ℕ) (outputs : List TransactionOutput)
    → get_elem? (unspent_flags outputs) v ≢ some true
    → unspent_at outputs v ≡ none
unspent_at-no_flag v [] n = refl
unspent_at-no_flag zero (outp ∷ outputs) n = go outp.is_not_spent n
  where
    go : (b : Bool) → some b ≢ some true → (if b then some outp else none) ≡ none
    go true n = absurd (n refl)
    go false n = refl
unspent_at-no_flag (suc v) (outp ∷ outputs) n = unspent_at-no_flag v outputs n

pub is_only→eq : (vouts : List ℕ) (vout : ℕ) → is_only vouts vout ≡ true → vouts ≡ vout ∷ []
is_only→eq [] vout p = cc
is_only→eq (v ∷ []) vout p = ap (λ x. x ∷ []) ((==_iff v vout).0 p)
is_only→eq (v ∷ w ∷ vouts) vout p = cc

-- What follows of the flags if `vout` is the only unspent output.
module _ (outputs : List TransactionOutput) (vout : ℕ)
    (only : set_indices 0 (unspent_flags outputs) ≡ vout ∷ []) where
  shown_only :
      (v : ℕ)
      → shown (find_vout v (vout ∷ [])) (unspent_outputs outputs) ≡ returns (unspent_at outputs v)
  shown_only v =
      let found_at = looked_up-unspent_at v v 0 outputs (omega arith) in rw only at found_at

  pub only_others : (v : ℕ) → (v == vout) ≡ false → unspent_at outputs v ≡ none
  unfolding find_vout
  only_others v ne = same (rw other at (shown_only v))
    where
      other : (vout == v) ≡ false
      other = ground arith

      same : returns none ≡ returns (unspent_at outputs v) → unspent_at outputs v ≡ none
      same e = cc

  pub only_unspent : unspent_at outputs vout ≢ none
  unfolding find_vout
  only_unspent none_left =
      no_output (get_elem? (unspent_outputs outputs) 0)
        (rw (==_refl vout, none_left) at (shown_only vout))
    where
      no_output :
          (o : Option TransactionOutput)
          → or_panics o (λ outp. returns (some outp)) ≡ returns none
          → ⊥
      no_output none e = cc
      no_output (some outp) e = cc

pub get_elem?-none : (xs : List Bool) (i : ℕ) → get_elem? xs i ≡ none → length xs ≤ i
get_elem?-none [] i p = omega arith
get_elem?-none (x ∷ xs) zero p = cc
get_elem?-none (x ∷ xs) (suc i) p = omega (arith, get_elem?-none xs i p)

pub get_elem?_below : (xs : List Bool) (i : ℕ) (b : Bool) → get_elem? xs i ≡ some b → i < length xs
get_elem?_below [] i b p = cc
get_elem?_below (x ∷ xs) zero b p = omega arith
get_elem?_below (x ∷ xs) (suc i) b p = omega (arith, get_elem?_below xs i b p)
