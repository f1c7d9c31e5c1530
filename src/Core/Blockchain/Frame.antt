-- ===== src/Core/Blockchain/Frame.antt =====
-- What `InsertBlock` does to the nodes at the end of the chain.
use plairo.Common.{
  refl, ◌∙◌, sym, ◌≢◌, ℕ, ◌≡◌, ap, ◌⊎◌, inl, inr, Bool-cases, Option-cases, Outcome-cases, bytes_eq,
  returns, panics, runs_on, ◌-◌,
}
use plairo.Common.{List, length, get_elem?, Option, none, some}
use plairo.Core.Validate.{Ecdsa}
use plairo.Core.Mempool.{PoolCall, accepted, refused, remove_block}
use plairo.Core.Header.{BlockHeader, Verdict, get_hash}
use plairo.Core.CState.{CState}
use plairo.Core.Block.{Block, get_undo_data}
use plairo.Core.BlockCheck.{World, validate_block, confirm_as_valid}
use plairo.Core.BlockCheck.Frame.{validate_block-SameState}
use plairo.Core.Blockchain.{IStorage, ChainError, Ledger, link_node}
use plairo.Core.Blockchain.Insert.{Inserted, forget_block, store_block, insert_at_end}

module _ (sha256 : List ℕ → List ℕ) (ecdsa : Ecdsa) (cs : CState) (st : IStorage)
    (check_header : List ℕ → Verdict) where
  abbrev pub Inserting : Type 0
  Inserting = Inserted sha256 ecdsa cs st check_header

  abbrev pub ends : Ledger cs st → Option (ChainError cs st) → Inserting
  ends l e = returns (l, e)

  pub no_panic : {l : Ledger cs st} {e : Option (ChainError cs st)} → panics ≡ ends l e → ⊥
  no_panic p = cc

  pub no_end : {l : Ledger cs st} {e : Option (ChainError cs st)} → runs_on ≡ ends l e → ⊥
  no_end p = cc

  pub same_ledger :
      {l l' : Ledger cs st} {e e' : Option (ChainError cs st)}
      → ends l e ≡ ends l' e'
      → (l ≡ l') × (e ≡ e')
  same_ledger p = (cc, cc)

  forget_block-blockchain :
      (l l' : Ledger cs st) (call : PoolCall) (e : Option (ChainError cs st))
      → forget_block sha256 ecdsa cs st check_header l call ≡ ends l' e
      → l.blockchain ≡ l'.blockchain
  forget_block-blockchain l l' (accepted mempool) e p = ap (λ x. x.blockchain) (same_ledger p).0
  forget_block-blockchain l l' (refused e') e p = ap (λ x. x.blockchain) (same_ledger p).0
  forget_block-blockchain l l' PoolCall.panics e p = absurd (no_panic p)
  forget_block-blockchain l l' PoolCall.runs_on e p = absurd (no_end p)

  store_block-blockchain :
      (l l' : Ledger cs st) (block : Block) (height : ℕ) (e : Option (ChainError cs st))
      → store_block sha256 ecdsa cs st check_header l block height ≡ ends l' e
      → l.blockchain ≡ l'.blockchain
  unfolding store_block
  store_block-blockchain l l' block height e p =
      elim (Outcome-cases
        (st.write_block l.storage block (get_undo_data sha256 cs l.world.cstate block) height)) [
          | inr (inl w) ↦ absurd (no_panic (rw (store_block, w) at p))
          | inr (inr w) ↦ absurd (no_end (rw (store_block, w) at p))
          | inl ((storage, some e'), w) ↦
              ap (λ x. x.blockchain) (same_ledger (rw (store_block, w) at p)).0
          | inl ((storage, none), w) ↦
              elim (Outcome-cases (confirm_as_valid sha256 ecdsa cs l.world block)) [
                | inr (inl c) ↦ absurd (no_panic (rw (store_block, w, c) at p))
                | inr (inr c) ↦ absurd (no_end (rw (store_block, w, c) at p))
                | inl ((world, some e'), c) ↦
                    ap (λ x. x.blockchain) (same_ledger (rw (store_block, w, c) at p)).0
                | inl ((world, none), c) ↦
                    forget_block-blockchain (record l { storage = storage; world = world }) l'
                      (remove_block world.mempool block.all_block_tx) e
                      (rw (store_block, w, c) at p)
              ]
        ]

  -- The blockchain is as before and there is an error, or the block passed and is stored.
  pub insert_at_end-cases :
      (l l' : Ledger cs st) (block : Block) (height : ℕ) (e : Option (ChainError cs st))
      → insert_at_end sha256 ecdsa cs st check_header l block height ≡ ends l' e
      → ((l.blockchain ≡ l'.blockchain) × (e ≢ none) × (l'.world.cstate ≡ l.world.cstate))
        ⊎ ((last : ℕ) × (header : BlockHeader) × (world : World cs) × (get_elem? l.blockchain.chain
                (length l.blockchain.chain - 1)
              ≡ some last)
            × (block.header ≡ some header)
            × (validate_block sha256 ecdsa cs check_header l.world block height
                ≡ returns (world, none))
            × (store_block sha256 ecdsa cs st check_header
                  (record l {
                    world = world;
                    blockchain = link_node l.blockchain last header height;
                  })
                  block
                  height
                ≡ ends l' e))
  unfolding insert_at_end
  insert_at_end-cases l l' block height e p =
      elim (Option-cases (get_elem? l.blockchain.chain (length l.blockchain.chain - 1))) [
        | inl a ↦ absurd (no_panic (rw (insert_at_end, a) at p))
        | inr (last, a) ↦ elim (Option-cases (get_elem? l.blockchain.nodes last)) [
          | inl n ↦ absurd (no_panic (rw (insert_at_end, a, n) at p))
          | inr (lastnode, n) ↦ elim (Option-cases block.header) [
            | inl hd ↦ absurd (no_panic (rw (insert_at_end, a, n, hd) at p))
            | inr (header, hd) ↦
                elim (Bool-cases
                  (bytes_eq header.previous_block_hash (get_hash sha256 lastnode.header))) [
                    | inr other ↦ inl (early refl (rw (insert_at_end, a, n, hd, other) at p))
                    | inl same ↦
                        elim (Outcome-cases
                          (validate_block sha256 ecdsa cs check_header l.world block height)) [
                            | inr (inl v) ↦
                                absurd (no_panic (rw (insert_at_end, a, n, hd, same, v) at p))
                            | inr (inr v) ↦
                                absurd (no_end (rw (insert_at_end, a, n, hd, same, v) at p))
                            | inl ((world, some e'), v) ↦ inl (
                                early
                                  (validate_block-SameState sha256 ecdsa cs check_header l.world
                                    block height world (some e') v)
                                  (rw (insert_at_end, a, n, hd, same, v) at p))
                            | inl ((world, none), v) ↦ inr (
                              last,
                              header,
                              world,
                              a,
                              hd,
                              v,
                              rw (insert_at_end, a, n, hd, same, v) at p,
                            )
                          ]
                  ]
          ]
        ]
      ]
    where
      early :
          {v : World cs} {e' : ChainError cs st}
          → v.cstate ≡ l.world.cstate
          → ends (record l { world = v }) (some e') ≡ ends l' e
          → (l.blockchain ≡ l'.blockchain) × (e ≢ none) × (l'.world.cstate ≡ l.world.cstate)
      early same q = (
        ap (λ x. x.blockchain) (same_ledger q).0,
        cc,
        sym (ap (λ x. x.world.cstate) (same_ledger q).0) ∙ same,
      )

  -- The blockchain is as before, or has a node more behind the last one.
  pub insert_at_end-links :
      (l l' : Ledger cs st) (block : Block) (height : ℕ) (e : Option (ChainError cs st))
      → insert_at_end sha256 ecdsa cs st check_header l block height ≡ ends l' e
      → (l.blockchain ≡ l'.blockchain)
        ⊎ ((last : ℕ) × (header : BlockHeader) × (get_elem? l.blockchain.chain
                (length l.blockchain.chain - 1)
              ≡ some last)
            × (link_node l.blockchain last header height ≡ l'.blockchain))
  insert_at_end-links l l' block height e p = elim (insert_at_end-cases l l' block height e p) [
    | inl (same, _, _) ↦ inl same
    | inr (last, header, world, a, hd, v, stored) ↦
        inr (last, header, a, store_block-blockchain _ l' block height e stored)
  ]
