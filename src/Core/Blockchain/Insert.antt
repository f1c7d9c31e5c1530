-- ===== src/Core/Blockchain/Insert.antt =====
-- `InsertBlock` of core/blockchain.go.
use plairo.Common.{
  ℕ, ◌-◌, ◌%◌, ◌^◌, ◌==◌, ltb, not, ◌||◌, if◌then◌else◌, bytes_eq, Outcome, returns, panics,
  runs_on,
}
use plairo.Common.{List, length, get_elem?, Option, none, some}
use plairo.Core.Validate.{Ecdsa}
use plairo.Core.Mempool.{PoolCall, accepted, refused, remove_block}
use plairo.Core.Header.{Verdict, rejected, deeper, get_hash}
use plairo.Core.CState.{CState}
use plairo.Core.Block.{Block, get_block_header, get_undo_data}
use plairo.Core.BlockCheck.{header_error, validate_block, confirm_as_valid}
use plairo.Core.Blockchain.{
  Blockchain, node_at, open_fork, extend_fork, link_node, IStorage, ChainError, invalid_link,
  invalid_height, block_error, storage_error, Ledger, find_fork,
}

module _ (sha256 : List ℕ → List ℕ) (ecdsa : Ecdsa) (cs : CState) (st : IStorage)
    (check_header : List ℕ → Verdict) where
  -- What `InsertBlock` comes to: the state it leaves and its error.
  abbrev pub Inserted : Type 0
  Inserted = Outcome (Ledger cs st × Option (ChainError cs st))

  -- `if err := ValidateBlockHeader(block.GetBlockHeader()); err != nil { return err }`
  abbrev pub when_accepted : Verdict → Ledger cs st → Ledger cs st → Inserted
  when_accepted Verdict.accepted l next = returns (next, none)
  when_accepted (rejected e) l next = returns (l, some (block_error (header_error e)))
  when_accepted Verdict.panicked l next = panics
  when_accepted deeper l next = runs_on

  -- The header of the block is checked, and the blockchain changed if it passes.
  abbrev pub check_then : Ledger cs st → Block → Blockchain → Inserted
  check_then l block next = elim (get_block_header block) [
    | none ↦ panics
    | some bytes ↦ when_accepted (check_header bytes) l (record l { blockchain = next })
  ]

  -- A block below the end of the chain. `none` of the header or of a node is a panic.
  unfoldable pub insert_in_fork : Ledger cs st → Block → ℕ → Inserted
  insert_in_fork l block height = elim (node_at l.blockchain height) [
    | none ↦ panics
    | some conflict_node ↦ elim block.header [
      | none ↦ panics
      | some header ↦
          if bytes_eq header.previous_block_hash conflict_node.header.previous_block_hash
          then check_then l block (open_fork l.blockchain conflict_node header height)
          else elim (find_fork sha256 l.blockchain l.blockchain.forks 0 height
              (get_hash sha256 header)) [
                | none ↦ panics
                | some none ↦ returns (l, some invalid_link)
                | some (some (i, f)) ↦
                    check_then l block (extend_fork l.blockchain i f header height)
              ]
    ]
  ]

  -- The mempool after the block; the errors of `RemoveTX` are dropped.
  abbrev pub forget_block : Ledger cs st → PoolCall → Inserted
  forget_block l (accepted mempool) =
      returns (record l { world = record l.world { mempool = mempool } }, none)
  forget_block l (refused e) = returns (l, none)
  forget_block l PoolCall.panics = panics
  forget_block l PoolCall.runs_on = runs_on

  -- The block is written, confirmed and taken out of the mempool.
  unfoldable pub store_block : Ledger cs st → Block → ℕ → Inserted
  store_block l block height =
      elim (st.write_block l.storage block (get_undo_data sha256 cs l.world.cstate block) height) [
        | panics ↦ panics
        | runs_on ↦ runs_on
        | returns (storage, some e) ↦
            returns (record l { storage = storage }, some (storage_error e))
        | returns (storage, none) ↦ elim (confirm_as_valid sha256 ecdsa cs l.world block) [
          | panics ↦ panics
          | runs_on ↦ runs_on
          | returns (world, some e) ↦
              returns (record l { storage = storage; world = world }, some (block_error e))
          | returns (world, none) ↦
              forget_block (record l { storage = storage; world = world })
                (remove_block world.mempool block.all_block_tx)
        ]
      ]

  -- A block at the end of the chain.
  unfoldable pub insert_at_end : Ledger cs st → Block → ℕ → Inserted
  insert_at_end l block height =
      let bc = l.blockchain in
      elim (get_elem? bc.chain (length bc.chain - 1)) [
        | none ↦ panics
        | some last ↦ elim (get_elem? bc.nodes last) [
          | none ↦ panics
          | some lastnode ↦ elim block.header [
            | none ↦ panics
            | some header ↦
                if not (bytes_eq header.previous_block_hash (get_hash sha256 lastnode.header))
                then returns (l, some invalid_link)
                else elim (validate_block sha256 ecdsa cs check_header l.world block height) [
                  | panics ↦ panics
                  | runs_on ↦ runs_on
                  | returns (world, some e) ↦
                      returns (record l { world = world }, some (block_error e))
                  | returns (world, none) ↦
                      store_block
                        (record l { world = world; blockchain = link_node bc last header height })
                        block height
                ]
          ]
        ]
      ]

  unfoldable pub insert_block : Ledger cs st → Block → ℕ → Inserted
  insert_block l block height =
      let bc = l.blockchain in
      let end = length bc.chain % 2 ^ 32 in
      if ltb end height || (height == 0)
      then returns (l, some invalid_height)
      else if ltb height end
      then insert_in_fork l block height
      else insert_at_end l block height
