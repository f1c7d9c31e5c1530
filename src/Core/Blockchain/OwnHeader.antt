-- ===== src/Core/Blockchain/OwnHeader.antt =====
-- `InsertBlock` with the `ValidateBlockHeader` of core/block.go.
use plairo.Common.{
  ℕ, ◌≡◌, ◌≢◌, inl, inr, if-cases, ltb, if◌then◌else◌, ◌||◌, ◌==◌, ◌%◌, ◌^◌, returns,
}
use plairo.Common.{List, length, Option, none, some}
use plairo.Core.Validate.{Ecdsa}
use plairo.Core.Header.{Verdict, validate_block_header}
use plairo.Core.Header.Laws.{validate_block_header-ne-accepted}
use plairo.Core.CState.{CState}
use plairo.Core.Block.{Block}
use plairo.Core.BlockCheck.Accepted.{validate_block-exact}
use plairo.Core.Blockchain.{IStorage, ChainError, invalid_height, Ledger}
use plairo.Core.Blockchain.Insert.{insert_block, insert_in_fork, insert_at_end}
use plairo.Core.Blockchain.Forks.{Keeps, refused, insert_in_fork-Keeps}
use plairo.Core.Blockchain.Frame.{insert_at_end-cases}

module _ (sha256 : List ℕ → List ℕ) (ecdsa : Ecdsa) (cs : CState) (st : IStorage) where
  module _ (check_header : List ℕ → Verdict)
      (refuses : (m : List ℕ) → check_header m ≢ Verdict.accepted) where
    abbrev Kept : Ledger cs st → Ledger cs st → Option (ChainError cs st) → Type 0
    Kept l l' e = (l.blockchain ≡ l'.blockchain) × (e ≢ none)

    kept :
        (l l' : Ledger cs st) (e : Option (ChainError cs st))
        → Keeps sha256 ecdsa cs st check_header l l' e
        → Kept l l' e
    kept l l' e (_, inl (m, h)) = absurd (refuses m h)
    kept l l' e (_, inr k) = k

    insert_block-Kept :
        (l l' : Ledger cs st) (block : Block) (height : ℕ) (e : Option (ChainError cs st))
        → insert_block sha256 ecdsa cs st check_header l block height ≡ returns (l', e)
        → Kept l l' e
    unfolding insert_block
    insert_block-Kept l l' block height e p =
        let end = length l.blockchain.chain % 2 ^ 32 in
        let fork = insert_in_fork sha256 ecdsa cs st check_header l block height in
        let last = insert_at_end sha256 ecdsa cs st check_header l block height in
        elim (if-cases (ltb end height || (height == 0)) (returns (l, some invalid_height))
          (if ltb height end then fork else last) p) [
            | inl (_, q) ↦ kept l l' e (refused sha256 ecdsa cs st check_header q)
            | inr (_, q) ↦ elim (if-cases (ltb height end) fork last q) [
              | inl (_, f) ↦
                  kept l l' e
                    (insert_in_fork-Keeps sha256 ecdsa cs st check_header l l' block height e f)
              | inr (_, f) ↦
                  elim (insert_at_end-cases sha256 ecdsa cs st check_header l l' block height e f) [
                    | inl (same, stops, _) ↦ (same, stops)
                    | inr (last, header, world, _, _, valid_block, _) ↦
                        let (_, _, _, is_sealed) =
                          (validate_block-exact sha256 ecdsa cs check_header l.world world block
                              height).0
                            valid_block in
                        absurd (refuses _ is_sealed.accepted)
                  ]
            ]
          ]

  -- `InsertBlock` with the `ValidateBlockHeader` of core/block.go, on any ledger, block and height:
  -- a call that returns has an error and leaves the blockchain as it was, whatever the clock and
  -- however deep the calls of `ValidateBlockHeader` are followed.
  pub insert_block-own_header :
      (clock : ℕ → ℕ) (fuel : ℕ) (l l' : Ledger cs st) (block : Block) (height : ℕ)
      (e : Option (ChainError cs st))
      → insert_block sha256 ecdsa cs st (validate_block_header sha256 clock fuel 0) l block height
        ≡ returns (l', e)
      → (l.blockchain ≡ l'.blockchain) × (e ≢ none)
  insert_block-own_header clock fuel =
      insert_block-Kept (validate_block_header sha256 clock fuel 0)
        (validate_block_header-ne-accepted sha256 clock fuel 0)
