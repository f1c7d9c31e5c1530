-- ===== src/Core/Blockchain/Stored.antt =====
-- What `InsertBlock` leaves of a block that it goes on to store.
use plairo.Common.{refl, ◌∙◌, sym, ◌≢◌, ℕ, ◌≡◌, ap, ◌⊎◌, inl, inr, Outcome-cases, returns}
use plairo.Common.{List, Option, none, some}
use mathlib.Core.Path.{subst}
use plairo.Core.Validate.{Ecdsa}
use plairo.Core.Mempool.{PoolCall, accepted, refused, remove_block}
use plairo.Core.Header.{Verdict}
use plairo.Core.CState.{CState}
use plairo.Core.Block.{Block, get_undo_data}
use plairo.Core.BlockCheck.{World, BlockError, confirm_as_valid}
use plairo.Core.Blockchain.{IStorage, ChainError, Ledger}
use plairo.Core.Blockchain.Insert.{forget_block, store_block}
use plairo.Core.Blockchain.Frame.{ends, no_panic, no_end, same_ledger}

module _ (sha256 : List ℕ → List ℕ) (ecdsa : Ecdsa) (cs : CState) (st : IStorage)
    (check_header : List ℕ → Verdict) where
  forget_block-cstate :
      (l l' : Ledger cs st) (call : PoolCall) (e : Option (ChainError cs st))
      → forget_block sha256 ecdsa cs st check_header l call
        ≡ ends sha256 ecdsa cs st check_header l' e
      → (l'.world.cstate ≡ l.world.cstate) × (e ≡ none)
  forget_block-cstate l l' (accepted mempool) e p = (
    sym (ap (λ x. x.world.cstate) (same_ledger sha256 ecdsa cs st check_header p).0),
    sym (same_ledger sha256 ecdsa cs st check_header p).1,
  )
  forget_block-cstate l l' (refused e') e p = (
    sym (ap (λ x. x.world.cstate) (same_ledger sha256 ecdsa cs st check_header p).0),
    sym (same_ledger sha256 ecdsa cs st check_header p).1,
  )
  forget_block-cstate l l' PoolCall.panics e p = absurd (no_panic sha256 ecdsa cs st check_header p)
  forget_block-cstate l l' PoolCall.runs_on e p = absurd (no_end sha256 ecdsa cs st check_header p)

  -- The chainstate of a block that the storage did not write is as it was, and that of any other
  -- block is what its confirmation leaves.
  pub store_block-cases :
      (l l' : Ledger cs st) (block : Block) (height : ℕ) (e : Option (ChainError cs st))
      → store_block sha256 ecdsa cs st check_header l block height
        ≡ ends sha256 ecdsa cs st check_header l' e
      → ((l'.world.cstate ≡ l.world.cstate) × (e ≢ none))
        ⊎ ((world : World cs) × (stop : Option (BlockError cs)) × (confirm_as_valid sha256 ecdsa cs
                l.world block
              ≡ returns (world, stop))
            × (l'.world.cstate ≡ world.cstate)
            × (e ≡ none → stop ≡ none))
  unfolding store_block
  store_block-cases l l' block height e p =
      elim (Outcome-cases
        (st.write_block l.storage block (get_undo_data sha256 cs l.world.cstate block) height)) [
          | inr (inl w) ↦
              absurd (no_panic sha256 ecdsa cs st check_header (rw (store_block, w) at p))
          | inr (inr w) ↦ absurd (no_end sha256 ecdsa cs st check_header (rw (store_block, w) at p))
          | inl ((storage, some e'), w) ↦
              let (same, stops) =
                same_ledger sha256 ecdsa cs st check_header (rw (store_block, w) at p) in
              inl (sym (ap (λ x. x.world.cstate) same), λ nil. no_error (stops ∙ nil))
          | inl ((storage, none), w) ↦
              elim (Outcome-cases (confirm_as_valid sha256 ecdsa cs l.world block)) [
                | inr (inl c) ↦
                    absurd (no_panic sha256 ecdsa cs st check_header (rw (store_block, w, c) at p))
                | inr (inr c) ↦
                    absurd (no_end sha256 ecdsa cs st check_header (rw (store_block, w, c) at p))
                | inl ((world, some e'), c) ↦
                    let (same, stops) =
                      same_ledger sha256 ecdsa cs st check_header (rw (store_block, w, c) at p) in
                    inr (
                      world,
                      some e',
                      c,
                      sym (ap (λ x. x.world.cstate) same),
                      λ nil. absurd (no_error (stops ∙ nil)),
                    )
                | inl ((world, none), c) ↦ inr (
                  world,
                  none,
                  c,
                  (forget_block-cstate (record l { storage = storage; world = world }) l'
                      (remove_block world.mempool block.all_block_tx) e
                      (rw (store_block, w, c) at p)).0,
                  λ _. refl,
                )
              ]
        ]
    where
      no_error : {x : ChainError cs st} → some x ≡ none → ⊥
      no_error q = cc

  -- A block that is inserted is confirmed, and the chainstate is what the confirmation leaves.
  pub store_block-confirmed :
      (l l' : Ledger cs st) (block : Block) (height : ℕ)
      → store_block sha256 ecdsa cs st check_header l block height
        ≡ ends sha256 ecdsa cs st check_header l' none
      → (world : World cs) × (confirm_as_valid sha256 ecdsa cs l.world block
          ≡ returns (world, none))
        × (l'.world.cstate ≡ world.cstate)
  store_block-confirmed l l' block height p = elim (store_block-cases l l' block height none p) [
    | inl (_, stops) ↦ absurd (stops refl)
    | inr (world, stop, c, same, nil) ↦ (
      world,
      subst (λ s. confirm_as_valid sha256 ecdsa cs l.world block ≡ returns (world, s)) (nil refl) c,
      same,
    )
  ]
