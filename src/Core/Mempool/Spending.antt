-- ===== src/Core/Mempool/Spending.antt =====
-- The transactions that `AddTX` accepts one after the other spend different outputs.
use plairo.Common.{
  ℕ, ◌≡◌, ◌≢◌, refl, sym, ap, ◌∙◌, ◌⊎◌, arith, Bool, true, false, ◌||◌, if◌then◌else◌, Bool-cases,
  Option-cases, inl, inr,
}
use plairo.Common.{List, [], ◌∷◌, Option, All, bytes_ne_of}
use plairo.Core.Output.{TransactionOutput, TransactionInput}
use plairo.Core.Transaction.{Transaction}
use plairo.Core.MemTree.{insert}
use plairo.Core.Validate.{
  Ecdsa, TxError, Validation, invalid, panicked, valid, is_seen, validate_transaction,
}
use plairo.Core.Mempool.{
  MemPool, PoolError, PoolCall, accepted, refused, panics, is_referenced, mark_referenced, add_tx,
}

-- No input refers to one of the outputs.
abbrev pub IsFresh : List (List ℕ) → List TransactionInput → Type 0
IsFresh outs inputs = All (λ inp. is_seen inp.output_referred.output_id outs ≡ false) inputs

-- No two inputs of the lists refer to the same output.
abbrev pub IsApart : List TransactionInput → List TransactionInput → Type 0
IsApart inputs others =
    All
      (λ other. All (λ inp. inp.output_referred.output_id ≢ other.output_referred.output_id) inputs)
      others

abbrev pub ArePairwiseApart : List Transaction → Type 0
ArePairwiseApart [] = Unit {0}
ArePairwiseApart (t ∷ txs) = All (λ u. IsApart t.inputs u.inputs) txs × ArePairwiseApart txs

or_false : {a b : Bool} → (a || b) ≡ false → (a ≡ false) × (b ≡ false)
or_false p = ground arith

is_referenced-IsFresh :
    (outs : List (List ℕ)) (inputs : List TransactionInput)
    → is_referenced outs inputs ≡ false
    → IsFresh outs inputs
unfolding is_referenced
is_referenced-IsFresh outs [] p = tt
is_referenced-IsFresh outs (inp ∷ inputs) p =
    ((or_false p).0, is_referenced-IsFresh outs inputs (or_false p).1)

pub Validation-cases :
    (v : Validation) → (v ≡ valid) ⊎ (((e : TxError) × (v ≡ invalid e)) ⊎ (v ≡ panicked))
Validation-cases valid = inl refl
Validation-cases (invalid e) = inr (inl (e, refl))
Validation-cases panicked = inr (inr refl)

refused_ne : {e : PoolError} {mp : MemPool} → refused e ≡ accepted mp → ⊥
refused_ne p = cc

panics_ne : {mp : MemPool} → panics ≡ accepted mp → ⊥
panics_ne p = cc

one_mark :
    (id iid : List ℕ) (outs : List (List ℕ))
    → is_seen id (if is_seen iid outs then outs else iid ∷ outs) ≡ false
    → (is_seen id outs ≡ false) × (iid ≢ id)
unfolding is_seen
one_mark id iid outs p = elim (Bool-cases (is_seen iid outs)) [
  | inl seen ↦
      let before : is_seen id outs ≡ false = rw seen at p in
      (before, λ same. true_ne (sym seen ∙ ap (λ x. is_seen x outs) same ∙ before))
  | inr new ↦ let both = or_false (rw new at p) in (both.1, bytes_ne_of iid id both.0)
]
  where
    true_ne : true ≡ false → ⊥
    true_ne q = cc

-- What is not marked after the loop was not before, and is none of the outputs marked.
mark_referenced-unmarked :
    (id : List ℕ) (outs : List (List ℕ)) (inputs : List TransactionInput)
    → is_seen id (mark_referenced outs inputs) ≡ false
    → (is_seen id outs ≡ false) × All (λ inp. inp.output_referred.output_id ≢ id) inputs
unfolding mark_referenced
mark_referenced-unmarked id outs [] p = (p, tt)
mark_referenced-unmarked id outs (inp ∷ inputs) p =
    let iid = inp.output_referred.output_id in
    let rest =
      mark_referenced-unmarked id (if is_seen iid outs then outs else iid ∷ outs) inputs p in
    let (before, other) = one_mark id iid outs rest.0 in (before, (other, rest.1))

unmarked_before :
    (outs : List (List ℕ)) (inputs others : List TransactionInput)
    → IsFresh (mark_referenced outs inputs) others
    → IsFresh outs others × IsApart inputs others
unmarked_before outs inputs [] f = (tt, tt)
unmarked_before outs inputs (other ∷ others) f =
    let here = mark_referenced-unmarked other.output_referred.output_id outs inputs f.0 in
    let there = unmarked_before outs inputs others f.1 in ((here.0, there.0), (here.1, there.1))

before_marking :
    (outs : List (List ℕ)) (inputs : List TransactionInput) (txs : List Transaction)
    → All (λ u. IsFresh (mark_referenced outs inputs) u.inputs) txs
    → All (λ u. IsFresh outs u.inputs) txs
before_marking outs inputs [] f = tt
before_marking outs inputs (t ∷ txs) f =
    ((unmarked_before outs inputs t.inputs f.0).0, before_marking outs inputs txs f.1)

marked-IsApart :
    (outs : List (List ℕ)) (inputs : List TransactionInput) (txs : List Transaction)
    → All (λ u. IsFresh (mark_referenced outs inputs) u.inputs) txs
    → All (λ u. IsApart inputs u.inputs) txs
marked-IsApart outs inputs [] f = tt
marked-IsApart outs inputs (t ∷ txs) f =
    ((unmarked_before outs inputs t.inputs f.0).1, marked-IsApart outs inputs txs f.1)

module _ (sha256 : List ℕ → List ℕ) (ecdsa : Ecdsa)
    (get_utxo : List ℕ → ℕ → Option (Option TransactionOutput)) where
  -- The pool `mp'` is `mp` after the transactions were accepted in this order. A call that refuses a
  -- transaction leaves the pool as it was.
  abbrev pub Added : MemPool → List Transaction → MemPool → Type 0
  Added mp [] mp' = mp ≡ mp'
  Added mp (t ∷ txs) mp' =
      (next : MemPool) × (add_tx sha256 ecdsa get_utxo mp t ≡ accepted next) × Added next txs mp'

  -- An accepted transaction is valid, refers to no output marked before, and marks its own.
  add_tx-accepted :
      (mp mp' : MemPool) (t : Transaction)
      → add_tx sha256 ecdsa get_utxo mp t ≡ accepted mp'
      → (validate_transaction sha256 ecdsa get_utxo t ≡ valid)
        × IsFresh mp.outs_referenced t.inputs
        × (mp'.outs_referenced ≡ mark_referenced mp.outs_referenced t.inputs)
  unfolding add_tx
  add_tx-accepted mp mp' t p =
      elim (Validation-cases (validate_transaction sha256 ecdsa get_utxo t)) [
        | inl ok ↦ elim (Bool-cases (is_referenced mp.outs_referenced t.inputs)) [
          | inl taken ↦ absurd (refused_ne (rw (ok, taken, add_tx) at p))
          | inr free ↦ elim (Option-cases (insert mp.internal_tree t)) [
            | inl n ↦ absurd (panics_ne (rw (ok, free, n, add_tx) at p))
            | inr (tree, q) ↦ (
              ok,
              is_referenced-IsFresh mp.outs_referenced t.inputs free,
              sym (ap marked (rw (ok, free, q, add_tx) at p)),
            )
          ]
        ]
        | inr (inl (e, bad)) ↦ absurd (refused_ne (rw (bad, add_tx) at p))
        | inr (inr bad) ↦ absurd (panics_ne (rw (bad, add_tx) at p))
      ]
    where
      marked : PoolCall → List (List ℕ)
      marked (accepted u) = u.outs_referenced
      marked _ = []

  -- What the later transactions refer to was not marked in the pool before them.
  later-IsFresh :
      (mp mp' : MemPool) (txs : List Transaction)
      → Added mp txs mp'
      → All (λ u. IsFresh mp.outs_referenced u.inputs) txs
  later-IsFresh mp mp' [] a = tt
  later-IsFresh mp mp' (t ∷ txs) (next, p, a) =
      let (_, fresh, marks) = add_tx-accepted mp next t p in
      (
        fresh,
        before_marking mp.outs_referenced t.inputs txs (rw marks at (later-IsFresh next mp' txs a)),
      )

  -- The transactions that `AddTX` accepts one after the other, from any pool on, are all valid, and no
  -- two of them have inputs that refer to the same output identifier.
  pub add_tx-ArePairwiseApart :
      (mp mp' : MemPool) (txs : List Transaction)
      → Added mp txs mp'
      → All (λ t. validate_transaction sha256 ecdsa get_utxo t ≡ valid) txs × ArePairwiseApart txs
  add_tx-ArePairwiseApart mp mp' [] a = (tt, tt)
  add_tx-ArePairwiseApart mp mp' (t ∷ txs) (next, p, a) =
      let (ok, fresh, marks) = add_tx-accepted mp next t p in
      let rest = add_tx-ArePairwiseApart next mp' txs a in
      (
        (ok, rest.0),
        (
          marked-IsApart mp.outs_referenced t.inputs txs
              (rw marks at (later-IsFresh next mp' txs a)),
          rest.1,
        ),
      )
