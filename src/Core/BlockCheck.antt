-- ===== src/Core/BlockCheck.antt =====
-- `ValidateBlockTx`, `ConfirmAsValid`, `ValidateCoinbase` and `ValidateBlock` of core/block.go,
-- `cleanUpInputs` of core/transaction.go. The globals `mempool` and `cstate` are the record `World`.
pub mod Exact
pub mod Accepted
pub mod Confirm
pub mod Frame
pub mod Paid
pub mod Rooted
pub mod Endless
use plairo.Common.{
  ℕ, ◌*◌, ◌/◌, ◌%◌, ◌^◌, ltb, not, Bool, true, false, if◌then◌else◌, bytes_eq, Outcome, returns,
  panics, runs_on,
}
use plairo.Common.{List, [], ◌∷◌, length, Option, none, some}
use plairo.Core.Output.{TransactionInput}
use plairo.Core.Transaction.{Transaction}
use plairo.Core.Fees.{add64, sum_outputs, ro_to_tick_ration}
use plairo.Core.Validate.{Ecdsa, TxError, valid, invalid, panicked, is_seen, validate_transaction}
use plairo.Core.Mempool.{MemPool, PoolCall, accepted, refused, remove_pool_tx}
use plairo.Core.Header.{HeaderError, Verdict, rejected, deeper}
use plairo.Core.CState.{CState, utxos_of}
use plairo.Core.Block.{
  Block, behind_coinbase, get_block_fees, get_block_header, generate_block_merkle_root,
}

pub record World (cs : CState) : Type 0 where
  pub mempool : MemPool
  pub cstate : CState.State cs

pub data BlockError (cs : CState) : Type 0 where
  tx_error : TxError → BlockError cs
  invalid_tx_in_block exceeded_max_tx stale_block invalid_merkle_root : BlockError cs
  invalid_coinbase bad_miner : BlockError cs
  header_error : HeaderError → BlockError cs
  cstate_error : CState.Error cs → BlockError cs

abbrev pub initial_block_subsidy : ℕ
initial_block_subsidy = 500 * ro_to_tick_ration

abbrev pub subsidy_halving_interval : ℕ
subsidy_halving_interval = 1000

-- The subsidy at a height: halved at every interval.
unfoldable pub subsidy_at : ℕ → ℕ
subsidy_at height = initial_block_subsidy / 2 ^ (height / subsidy_halving_interval)

-- The loop over the inputs of one transaction: `none` for an output that was referenced before.
unfoldable pub mark_spent : List (List ℕ) → List TransactionInput → Option (List (List ℕ))
mark_spent dedup [] = some dedup
mark_spent dedup (inp ∷ inputs) =
    let rest = mark_spent (inp.output_referred.output_id ∷ dedup) inputs in
    if is_seen inp.output_referred.output_id dedup then none else rest

-- `none` is a panic, `some true` a coinbase that takes no more than it may.
unfoldable pub validate_coinbase : Block → ℕ → Option Bool
validate_coinbase b mined_block_height = elim b.all_block_tx [
  | [] ↦ none
  | coinbase_tx ∷ _ ↦ some (
      not (
        ltb (add64 (subsidy_at mined_block_height) (get_block_fees true b))
          (sum_outputs 0 coinbase_tx.outputs)))
]

module _ (sha256 : List ℕ → List ℕ) (ecdsa : Ecdsa) (cs : CState) where
  -- What a method that may change the globals comes to, with its error.
  abbrev pub Checked : Type 0
  Checked = Outcome (World cs × Option (BlockError cs))

  -- `mempool.RemoveTX(tx)`, whose error is dropped, and the return of an error.
  unfoldable pub drop_from_pool : World cs → Transaction → BlockError cs → Checked
  drop_from_pool w tx e = elim (remove_pool_tx w.mempool tx) [
    | accepted mempool' ↦ returns (record w { mempool = mempool' }, some e)
    | refused _ ↦ returns (w, some e)
    | PoolCall.panics ↦ panics
    | PoolCall.runs_on ↦ runs_on
  ]

  unfoldable pub validate_txs : World cs → List (List ℕ) → List Transaction → Checked
  validate_txs w dedup [] = returns (w, none)
  validate_txs w dedup (tx ∷ txs) =
      elim (validate_transaction sha256 ecdsa (utxos_of cs w.cstate) tx) [
        | panicked ↦ panics
        | invalid e ↦ drop_from_pool w tx (tx_error e)
        | valid ↦ elim (mark_spent dedup tx.inputs) [
          | none ↦ drop_from_pool w tx invalid_tx_in_block
          | some dedup' ↦ validate_txs w dedup' txs
        ]
      ]

  unfoldable pub validate_block_tx : World cs → Block → Checked
  validate_block_tx w b = validate_txs w [] (behind_coinbase b.all_block_tx)

  -- The outputs removed before a failure stay removed.
  unfoldable pub clean_up_inputs :
      CState.State cs → List TransactionInput → Outcome (CState.State cs × Option (BlockError cs))
  clean_up_inputs state [] = returns (state, none)
  clean_up_inputs state (inp ∷ inputs) =
      elim (cs.remove_utxo state inp.output_referred.parent_txid inp.output_referred.vout) [
        | panics ↦ panics
        | runs_on ↦ runs_on
        | returns (state', false) ↦ returns (state', some (tx_error TxError.non_existent_utxo))
        | returns (state', true) ↦ clean_up_inputs state' inputs
      ]

  unfoldable pub confirm_txs :
      CState.State cs → List Transaction → Outcome (CState.State cs × Option (BlockError cs))
  confirm_txs state [] =
      let (state', e) = cs.write_batch_tx state in
      elim e [ none ↦ returns (state', none) | some e ↦ returns (state', some (cstate_error e)) ]
  confirm_txs state (tx ∷ txs) = elim (clean_up_inputs state tx.inputs) [
    | panics ↦ panics
    | runs_on ↦ runs_on
    | returns (state', some e) ↦ returns (state', some e)
    | returns (state', none) ↦ elim (cs.insert_batch_tx state' tx) [
      | panics ↦ panics
      | runs_on ↦ runs_on
      | returns (state'', some e) ↦ returns (state'', some (cstate_error e))
      | returns (state'', none) ↦ confirm_txs state'' txs
    ]
  ]

  unfoldable pub confirm_as_valid : World cs → Block → Checked
  confirm_as_valid w b = elim (confirm_txs w.cstate b.all_block_tx) [
    | panics ↦ panics
    | runs_on ↦ runs_on
    | returns (state, e) ↦ returns (record w { cstate = state }, e)
  ]

  -- `check_header` is `ValidateBlockHeader`.
  module _ (check_header : List ℕ → Verdict) where
    abbrev pub judge_header : World cs → Verdict → Checked
    judge_header w Verdict.accepted = returns (w, none)
    judge_header w (rejected e) = returns (w, some (header_error e))
    judge_header w Verdict.panicked = panics
    judge_header w deeper = runs_on

    -- The checks behind that of the transactions. A nil header panics.
    unfoldable pub check_rest : World cs → Block → ℕ → Checked
    check_rest w b mined_block_height = elim (validate_coinbase b mined_block_height) [
      | none ↦ panics
      | some false ↦ returns (w, some invalid_tx_in_block)
      | some true ↦ elim b.header [
        | none ↦ panics
        | some header ↦ elim (generate_block_merkle_root sha256 b) [
          | panics ↦ panics
          | runs_on ↦ runs_on
          | returns root ↦
              if not (bytes_eq header.merkle_root root)
              then returns (w, some invalid_merkle_root)
              else elim (get_block_header b) [
                | none ↦ panics
                | some bytes ↦ judge_header w (check_header bytes)
              ]
        ]
      ]
    ]

    unfoldable pub validate_block : World cs → Block → ℕ → Checked
    validate_block w b mined_block_height = elim (validate_block_tx w b) [
      | panics ↦ panics
      | runs_on ↦ runs_on
      | returns (w', some e) ↦ returns (w', some e)
      | returns (w', none) ↦ check_rest w' b mined_block_height
    ]
