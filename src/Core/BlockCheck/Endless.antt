-- ===== src/Core/BlockCheck/Endless.antt =====
-- The blocks on which `ValidateBlock` of core/block.go goes on without end, with the
-- `ValidateBlockHeader` of the same file.
use plairo.Common.{
  ℕ, ◌≡◌, ◌≢◌, ◌≤◌, refl, sym, ap, ◌∙◌, bytes_eq, bytes_eq→eq, bytes_eq_refl, true, false,
  Bool-cases, Option-cases, inl, inr, ◌⊎◌, ◌↔◌, returns, panics, runs_on, Outcome-cases,
}
use plairo.Common.{List, [], ◌∷◌, Option, none, some, map}
use plairo.Core.Transaction.{Transaction}
use plairo.Core.Validate.{Ecdsa, validate_transaction}
use plairo.Core.Validate.Exact.{AllDistinct}
use plairo.Core.Mempool.Spending.{Validation-cases}
use plairo.Core.MemTree.{MemTree, Result, done, panic, stuck, remove_record}
use plairo.Core.MemTree.Faults.{remove_record-ne-stuck}
use plairo.Core.Mempool.{MemPool, PoolCall, accepted, refused, PoolError, remove_pool_tx, has_tx}
use plairo.Core.Fees.{get_fees}
use plairo.Core.Header.Laws.{IsHeader}
use plairo.Core.Header.{BlockHeader, serialize_header, Verdict, deeper, validate_block_header}
use plairo.Core.Header.Laws.{validate_block_header-deeper}
use plairo.Core.CState.{CState, utxos_of}
use plairo.Utils.Merkle.Rounds.{IsMerkleRoot}
use plairo.Core.Block.{Block, behind_coinbase, get_block_header}
use plairo.Core.BlockCheck.{
  World, Checked, BlockError, mark_spent, drop_from_pool, validate_txs, validate_block_tx,
  validate_coinbase, check_rest, validate_block,
}
use plairo.Core.BlockCheck.Exact.{AllValid, inputs_of, validate_block_tx-exact, PoolCall-cases}
use plairo.Core.BlockCheck.Rooted.{txids, generate_block_merkle_root-IsMerkleRoot, has_root}
use plairo.Core.BlockCheck.Paid.{IsPaid, validate_coinbase-IsPaid}

Result-cases : (r : Result) → (r ≡ panic) ⊎ ((r ≡ stuck) ⊎ ((t : MemTree) × (r ≡ done t)))
Result-cases panic = inl refl
Result-cases stuck = inr (inl refl)
Result-cases (done t) = inr (inr (t, refl))

removed_ends : (mp : MemPool) (tx : Transaction) → remove_pool_tx mp tx ≢ PoolCall.runs_on
unfolding remove_pool_tx
removed_ends mp tx p = elim (Bool-cases (has_tx mp.txmap tx.txid)) [
  | inr absent ↦ refusal (rw (remove_pool_tx, absent) at p)
  | inl present ↦
      elim (Result-cases
        (remove_record mp.internal_tree (record { fee = get_fees tx; txid = tx.txid }))) [
          | inl q ↦ panicking (rw (remove_pool_tx, present, q) at p)
          | inr (inl q) ↦
              remove_record-ne-stuck mp.internal_tree (record { fee = get_fees tx; txid = tx.txid })
                q
          | inr (inr (tree, q)) ↦ acceptance (rw (remove_pool_tx, present, q) at p)
        ]
]
  where
    refusal : {e : PoolError} → refused e ≡ PoolCall.runs_on → ⊥
    refusal q = cc

    panicking : PoolCall.panics ≡ PoolCall.runs_on → ⊥
    panicking q = cc

    acceptance : {mp' : MemPool} → accepted mp' ≡ PoolCall.runs_on → ⊥
    acceptance q = cc

module _ (sha256 : List ℕ → List ℕ) (ecdsa : Ecdsa) (cs : CState) where
  abbrev endless : Checked sha256 ecdsa cs
  endless = runs_on

  returning : {x : World cs × Option (BlockError cs)} → returns x ≡ endless → ⊥
  returning p = cc

  panicking : panics ≡ endless → ⊥
  panicking p = cc

  drop_from_pool-ends :
      (w : World cs) (tx : Transaction) (e : BlockError cs)
      → drop_from_pool sha256 ecdsa cs w tx e ≢ runs_on
  unfolding drop_from_pool
  drop_from_pool-ends w tx e p = elim (PoolCall-cases (remove_pool_tx w.mempool tx)) [
    | inl (mp, q) ↦ returning (rw (drop_from_pool, q) at p)
    | inr (inl (e', q)) ↦ returning (rw (drop_from_pool, q) at p)
    | inr (inr (inl q)) ↦ panicking (rw (drop_from_pool, q) at p)
    | inr (inr (inr q)) ↦ removed_ends w.mempool tx q
  ]

  validate_txs-ends :
      (w : World cs) (dedup : List (List ℕ)) (txs : List Transaction)
      → validate_txs sha256 ecdsa cs w dedup txs ≢ runs_on
  unfolding validate_txs
  validate_txs-ends w dedup [] p = returning p
  validate_txs-ends w dedup (tx ∷ txs) p =
      elim (Validation-cases (validate_transaction sha256 ecdsa (utxos_of cs w.cstate) tx)) [
        | inl v ↦ elim (Option-cases (mark_spent dedup tx.inputs)) [
          | inl q ↦ drop_from_pool-ends w tx _ (rw (validate_txs, v, q) at p)
          | inr (dedup', q) ↦ validate_txs-ends w dedup' txs (rw (validate_txs, v, q) at p)
        ]
        | inr (inl (e, v)) ↦ drop_from_pool-ends w tx _ (rw (validate_txs, v) at p)
        | inr (inr v) ↦ panicking (rw (validate_txs, v) at p)
      ]

  module _ (clock : ℕ → ℕ) (fuel : ℕ) where
    -- The header check of the source.
    abbrev check : List ℕ → Verdict
    check = validate_block_header sha256 clock fuel 0

    check_rest-endless :
        (w : World cs) (b : Block) (height : ℕ) (header : BlockHeader)
        → b.header ≡ some header
        → check (serialize_header header) ≡ deeper
        → (check_rest sha256 ecdsa cs check w b height ≡ runs_on)
          ↔ (IsPaid b height × IsMerkleRoot sha256 (txids sha256 b) header.merkle_root)
    unfolding check_rest get_block_header
    check_rest-endless w b height header hd endless_check = (
      λ p. elim (Option-cases (validate_coinbase b height)) [
        | inl c ↦ absurd (panicking (rw (check_rest, c) at p))
        | inr (false, c) ↦ absurd (returning (rw (check_rest, c) at p))
        | inr (true, c) ↦
            let paid = (validate_coinbase-IsPaid b height).0 c in
            let (root, r) = has_root sha256 b paid.coinbase_tx paid.others paid.split in
            elim (Bool-cases (bytes_eq header.merkle_root root)) [
              | inr other ↦ absurd (returning (rw (check_rest, c, hd, r, other) at p))
              | inl same ↦ (
                paid,
                (generate_block_merkle_root-IsMerkleRoot sha256 b header.merkle_root).0
                    (r ∙ ap returns (sym (bytes_eq→eq header.merkle_root root same))),
              )
            ]
      ],
      λ (paid, is_root).
          rw
            (
              check_rest,
              (validate_coinbase-IsPaid b height).1 paid,
              hd,
              (generate_block_merkle_root-IsMerkleRoot sha256 b header.merkle_root).1 is_root,
              bytes_eq_refl header.merkle_root,
              get_block_header,
              hd,
              endless_check,
            )
            refl,
    )

    -- With the header check of the source, on a block with a well-formed header that is not dated
    -- after the clock at any depth: `ValidateBlock` goes on past every fuel exactly when the block
    -- passes all other checks. That is, the transactions behind the first pass `ValidateTransaction`
    -- and spend different outputs, the first is paid no more than the subsidy of the height and the
    -- fees of the others (in 64 bits), and the header has the Merkle root of all transactions.
    pub validate_block-endless :
        (w : World cs) (b : Block) (mined_block_height : ℕ) (header : BlockHeader)
        → b.header ≡ some header
        → IsHeader header
        → ((i : ℕ) → header.timestamp ≤ clock i)
        → (validate_block sha256 ecdsa cs
              (validate_block_header sha256 clock fuel 0)
              w
              b
              mined_block_height
            ≡ runs_on)
          ↔ (AllValid sha256 ecdsa cs w (behind_coinbase b.all_block_tx)
              × AllDistinct [] (inputs_of (behind_coinbase b.all_block_tx))
              × IsPaid b mined_block_height
              × IsMerkleRoot sha256 (map (λ tx. tx.txid) b.all_block_tx) header.merkle_root)
    unfolding validate_block validate_block_tx
    validate_block-endless w b height header hd ok past =
        let deeper_check = validate_block_header-deeper sha256 clock fuel 0 header ok past in
        (
          λ p. elim (Outcome-cases (validate_block_tx sha256 ecdsa cs w b)) [
            | inr (inl q) ↦ absurd (panicking (rw (validate_block, q) at p))
            | inr (inr q) ↦ absurd (validate_txs-ends w [] (behind_coinbase b.all_block_tx) q)
            | inl ((v, some e), q) ↦ absurd (returning (rw (validate_block, q) at p))
            | inl ((v, none), q) ↦
                let (same, valids, distinct) =
                  (validate_block_tx-exact sha256 ecdsa cs w v b).0 q in
                let (paid, is_root) =
                  (check_rest-endless v b height header hd deeper_check).0
                    (rw (validate_block, q) at p) in
                (valids, distinct, paid, is_root)
          ],
          λ (valids, distinct, paid, is_root).
              let q = (validate_block_tx-exact sha256 ecdsa cs w w b).1 (refl, valids, distinct) in
              rw (validate_block, q)
                ((check_rest-endless w b height header hd deeper_check).1 (paid, is_root)),
        )
