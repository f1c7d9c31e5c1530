-- ===== src/Core/BlockCheck/Exact.antt =====
-- The blocks that `ValidateBlockTx` passes.
use plairo.Common.{
  ℕ, ◌≡◌, ◌≢◌, refl, sym, ap, ◌∙◌, Option-cases, ◌⊎◌, inl, inr, ◌↔◌, returns, panics, runs_on,
}
use plairo.Common.{List, [], ◌∷◌, ◌++◌, none, some, All, unsome, if-cases}
use mathlib.Core.Path.{subst}
use plairo.Core.Mempool.Spending.{Validation-cases}
use plairo.Core.Output.{TransactionInput}
use plairo.Core.Transaction.{Transaction}
use plairo.Core.Validate.{Ecdsa, valid, is_seen, validate_transaction}
use plairo.Core.Validate.Exact.{AllDistinct, is_seen-Unlike}
use plairo.Core.Mempool.{MemPool, PoolError, PoolCall, accepted, refused, remove_pool_tx}
use plairo.Core.CState.{CState, utxos_of}
use plairo.Core.Block.{Block, behind_coinbase}
use plairo.Core.BlockCheck.{
  World, Checked, BlockError, mark_spent, drop_from_pool, validate_txs, validate_block_tx,
}

-- All inputs of the transactions, in order.
abbrev pub inputs_of : List Transaction → List TransactionInput
inputs_of [] = []
inputs_of (tx ∷ txs) = tx.inputs ++ inputs_of txs

-- The loop over one transaction's inputs, before others.
mark_spent-AllDistinct :
    (dedup : List (List ℕ)) (inputs others : List TransactionInput)
    → AllDistinct dedup (inputs ++ others)
    → (dedup' : List (List ℕ)) × (mark_spent dedup inputs ≡ some dedup') × AllDistinct dedup' others
unfolding mark_spent
mark_spent-AllDistinct dedup [] others a = (dedup, refl, a)
mark_spent-AllDistinct dedup (inp ∷ inputs) others a =
    let (dedup', q, rest) =
      mark_spent-AllDistinct (inp.output_referred.output_id ∷ dedup) inputs others a.1 in
    (dedup', rw ((is_seen-Unlike inp.output_referred.output_id dedup).1 a.0) q, rest)

unmarked : {x : List (List ℕ)} → none ≡ some x → ⊥
unmarked q = cc

AllDistinct-mark_spent :
    (dedup dedup' : List (List ℕ)) (inputs others : List TransactionInput)
    → mark_spent dedup inputs ≡ some dedup'
    → AllDistinct dedup' others
    → AllDistinct dedup (inputs ++ others)
unfolding mark_spent
AllDistinct-mark_spent dedup dedup' [] others p a =
    subst (λ d. AllDistinct d others) (sym (unsome p)) a
AllDistinct-mark_spent dedup dedup' (inp ∷ inputs) others p a =
    elim (if-cases (is_seen inp.output_referred.output_id dedup) _ _ p) [
      | inl (_, q) ↦ absurd (unmarked q)
      | inr (new, q) ↦ (
        (is_seen-Unlike inp.output_referred.output_id dedup).0 new,
        AllDistinct-mark_spent (inp.output_referred.output_id ∷ dedup) dedup' inputs others q a,
      )
    ]

pub PoolCall-cases :
    (c : PoolCall)
    → ((mp : MemPool) × (c ≡ accepted mp))
      ⊎ (((e : PoolError) × (c ≡ refused e)) ⊎ ((c ≡ PoolCall.panics) ⊎ (c ≡ PoolCall.runs_on)))
PoolCall-cases (accepted mp) = inl (mp, refl)
PoolCall-cases (refused e) = inr (inl (e, refl))
PoolCall-cases PoolCall.panics = inr (inr (inl refl))
PoolCall-cases PoolCall.runs_on = inr (inr (inr refl))

module _ (sha256 : List ℕ → List ℕ) (ecdsa : Ecdsa) (cs : CState) where
  abbrev pub AllValid : World cs → List Transaction → Type 0
  AllValid w txs =
      All (λ tx. validate_transaction sha256 ecdsa (utxos_of cs w.cstate) tx ≡ valid) txs

  abbrev passed : World cs → Checked sha256 ecdsa cs
  passed w = returns (w, none)

  reached : {w w' : World cs} → passed w ≡ passed w' → w ≡ w'
  reached p = cc

  -- A rejected transaction leaves an error.
  drop_from_pool-error :
      (w w' : World cs) (tx : Transaction) (e : BlockError cs)
      → drop_from_pool sha256 ecdsa cs w tx e ≢ returns (w', none)
  unfolding drop_from_pool
  drop_from_pool-error w w' tx e p = elim (PoolCall-cases (remove_pool_tx w.mempool tx)) [
    | inl (mp, q) ↦ some_error (rw (drop_from_pool, q) at p)
    | inr (inl (e', q)) ↦ some_error (rw (drop_from_pool, q) at p)
    | inr (inr (inl q)) ↦ panicking (rw (drop_from_pool, q) at p)
    | inr (inr (inr q)) ↦ running (rw (drop_from_pool, q) at p)
  ]
    where
      some_error :
          {v : World cs} → ◌≡◌ {A = Checked sha256 ecdsa cs} (returns (v, some e)) (passed w') → ⊥
      some_error q = cc

      panicking : panics ≡ passed w' → ⊥
      panicking q = cc

      running : runs_on ≡ passed w' → ⊥
      running q = cc

  validate_txs-returned :
      (w w' : World cs) (dedup : List (List ℕ)) (txs : List Transaction)
      → validate_txs sha256 ecdsa cs w dedup txs ≡ returns (w', none)
      → (w' ≡ w) × AllValid w txs × AllDistinct dedup (inputs_of txs)
  unfolding validate_txs
  validate_txs-returned w w' dedup [] p = (sym (reached p), tt, tt)
  validate_txs-returned w w' dedup (tx ∷ txs) p =
      elim (Validation-cases (validate_transaction sha256 ecdsa (utxos_of cs w.cstate) tx)) [
        | inl v ↦ elim (Option-cases (mark_spent dedup tx.inputs)) [
          | inl q ↦ absurd (drop_from_pool-error w w' tx _ (rw (validate_txs, v, q) at p))
          | inr (dedup', q) ↦
              let (same, valids, distinct) =
                validate_txs-returned w w' dedup' txs (rw (validate_txs, v, q) at p) in
              (
                same,
                (v, valids),
                AllDistinct-mark_spent dedup dedup' tx.inputs (inputs_of txs) q distinct,
              )
        ]
        | inr (inl (e, v)) ↦ absurd (drop_from_pool-error w w' tx _ (rw (validate_txs, v) at p))
        | inr (inr v) ↦ absurd (panicking (rw (validate_txs, v) at p))
      ]
    where
      panicking : panics ≡ passed w' → ⊥
      panicking q = cc

  validate_txs-returns :
      (w : World cs) (dedup : List (List ℕ)) (txs : List Transaction)
      → AllValid w txs
      → AllDistinct dedup (inputs_of txs)
      → validate_txs sha256 ecdsa cs w dedup txs ≡ returns (w, none)
  unfolding validate_txs
  validate_txs-returns w dedup [] v d = refl
  validate_txs-returns w dedup (tx ∷ txs) v d =
      let (dedup', q, rest) = mark_spent-AllDistinct dedup tx.inputs (inputs_of txs) d in
      rw (validate_txs, v.0, q) (validate_txs-returns w dedup' txs v.1 rest)

  pub validate_block_tx-exact :
      (w w' : World cs) (b : Block)
      → (validate_block_tx sha256 ecdsa cs w b ≡ returns (w', none)) ↔ (
          (w' ≡ w)
          × AllValid w (behind_coinbase b.all_block_tx)
          × AllDistinct [] (inputs_of (behind_coinbase b.all_block_tx)))
  unfolding validate_block_tx
  validate_block_tx-exact w w' b = (
    λ p. validate_txs-returned w w' [] (behind_coinbase b.all_block_tx) p,
    λ (same, v, d).
        validate_txs-returns w [] (behind_coinbase b.all_block_tx) v d
        ∙ ap (λ x. returns (x, none)) (sym same),
  )
