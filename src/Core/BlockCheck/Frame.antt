-- ===== src/Core/BlockCheck/Frame.antt =====
-- `ValidateBlock` of core/block.go and the chainstate behind it.
use plairo.Common.{
  ℕ, ◌≡◌, refl, sym, ap, ◌∙◌, inl, inr, true, false, Bool-cases, Option-cases, Outcome-cases,
  bytes_eq, returns, panics, runs_on,
}
use plairo.Common.{List, [], ◌∷◌, Option, none, some}
use plairo.Core.Transaction.{Transaction}
use plairo.Core.Validate.{Ecdsa, validate_transaction}
use plairo.Core.Mempool.{PoolCall, accepted, refused, remove_pool_tx}
use plairo.Core.Mempool.Spending.{Validation-cases}
use plairo.Core.Header.{Verdict, rejected, deeper}
use plairo.Core.CState.{CState, utxos_of}
use plairo.Core.Block.{Block, get_block_header, generate_block_merkle_root}
use plairo.Core.BlockCheck.{
  World, BlockError, Checked, mark_spent, drop_from_pool, validate_txs, validate_block_tx,
  validate_coinbase, judge_header, check_rest, validate_block,
}

module _ (sha256 : List ℕ → List ℕ) (ecdsa : Ecdsa) (cs : CState) where
  -- A call that returns has the same chainstate.
  abbrev SameState : World cs → Checked sha256 ecdsa cs → Type 0
  SameState w call =
      (w' : World cs) (e : Option (BlockError cs)) → call ≡ returns (w', e) → w'.cstate ≡ w.cstate

  stays :
      (w v : World cs) (e : Option (BlockError cs))
      → v.cstate ≡ w.cstate
      → SameState w (returns (v, e))
  stays w v e same w' e' p = sym (ap cstate_of p) ∙ same
    where
      cstate_of : Checked sha256 ecdsa cs → CState.State cs
      cstate_of (returns (x, _)) = x.cstate
      cstate_of panics = w.cstate
      cstate_of runs_on = w.cstate

  panics-SameState : (w : World cs) → SameState w panics
  panics-SameState w w' e p = absurd (cc)

  runs_on-SameState : (w : World cs) → SameState w runs_on
  runs_on-SameState w w' e p = absurd (cc)

  drop_from_pool-SameState :
      (w : World cs) (tx : Transaction) (e : BlockError cs)
      → SameState w (drop_from_pool sha256 ecdsa cs w tx e)
  unfolding drop_from_pool
  drop_from_pool-SameState w tx e = dropped (remove_pool_tx w.mempool tx)
    where
      dropped :
          (call : PoolCall)
          → SameState w (elim call [
            | accepted mempool' ↦ returns (record w { mempool = mempool' }, some e)
            | refused _ ↦ returns (w, some e)
            | PoolCall.panics ↦ panics
            | PoolCall.runs_on ↦ runs_on
          ])
      dropped (accepted mp) = stays w (record w { mempool = mp }) (some e) refl
      dropped (refused e') = stays w w (some e) refl
      dropped PoolCall.panics = panics-SameState w
      dropped PoolCall.runs_on = runs_on-SameState w

  validate_txs-SameState :
      (w : World cs) (dedup : List (List ℕ)) (txs : List Transaction)
      → SameState w (validate_txs sha256 ecdsa cs w dedup txs)
  unfolding validate_txs
  validate_txs-SameState w dedup [] = stays w w none refl
  validate_txs-SameState w dedup (tx ∷ txs) =
      elim (Validation-cases (validate_transaction sha256 ecdsa (utxos_of cs w.cstate) tx)) [
        | inr (inr v) ↦ rw (validate_txs, v) (panics-SameState w)
        | inr (inl (e, v)) ↦ rw (validate_txs, v) (drop_from_pool-SameState w tx _)
        | inl v ↦ elim (Option-cases (mark_spent dedup tx.inputs)) [
          | inl n ↦ rw (validate_txs, v, n) (drop_from_pool-SameState w tx _)
          | inr (dedup', n) ↦ rw (validate_txs, v, n) (validate_txs-SameState w dedup' txs)
        ]
      ]

  module _ (check_header : List ℕ → Verdict) where
    judge_header-SameState :
        (w : World cs) (v : Verdict) → SameState w (judge_header sha256 ecdsa cs check_header w v)
    judge_header-SameState w Verdict.accepted = stays w w none refl
    judge_header-SameState w (rejected e) = stays w w _ refl
    judge_header-SameState w Verdict.panicked = panics-SameState w
    judge_header-SameState w deeper = runs_on-SameState w

    check_rest-SameState :
        (w : World cs) (b : Block) (h : ℕ)
        → SameState w (check_rest sha256 ecdsa cs check_header w b h)
    unfolding check_rest
    check_rest-SameState w b h = elim (Option-cases (validate_coinbase b h)) [
      | inl c ↦ rw (check_rest, c) (panics-SameState w)
      | inr (false, c) ↦ rw (check_rest, c) (stays w w _ refl)
      | inr (true, c) ↦ elim (Option-cases b.header) [
        | inl hd ↦ rw (check_rest, c, hd) (panics-SameState w)
        | inr (header, hd) ↦ elim (Outcome-cases (generate_block_merkle_root sha256 b)) [
          | inr (inl r) ↦ rw (check_rest, c, hd, r) (panics-SameState w)
          | inr (inr r) ↦ rw (check_rest, c, hd, r) (runs_on-SameState w)
          | inl (root, r) ↦ elim (Bool-cases (bytes_eq header.merkle_root root)) [
            | inr other ↦ rw (check_rest, c, hd, r, other) (stays w w _ refl)
            | inl same ↦ elim (Option-cases (get_block_header b)) [
              | inl n ↦ rw (check_rest, c, hd, r, same, n) (panics-SameState w)
              | inr (bytes, n) ↦
                  rw (check_rest, c, hd, r, same, n) (judge_header-SameState w (check_header bytes))
            ]
          ]
        ]
      ]
    ]

    -- `ValidateBlock` returns with the chainstate that it had, errors included.
    pub validate_block-SameState :
        (w : World cs) (b : Block) (h : ℕ)
        → SameState w (validate_block sha256 ecdsa cs check_header w b h)
    unfolding validate_block validate_block_tx
    validate_block-SameState w b h = elim (Outcome-cases (validate_block_tx sha256 ecdsa cs w b)) [
      | inr (inl v) ↦ rw (validate_block, v) (panics-SameState w)
      | inr (inr v) ↦ rw (validate_block, v) (runs_on-SameState w)
      | inl ((w', some e), v) ↦ rw (validate_block, v) (stays w w' _ (same w' _ v))
      | inl ((w', none), v) ↦
          rw (validate_block, v) (λ x e p. check_rest-SameState w' b h x e p ∙ same w' _ v)
    ]
      where
        same : SameState w (validate_block_tx sha256 ecdsa cs w b)
        same = validate_txs-SameState w [] _
