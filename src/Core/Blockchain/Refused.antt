-- ===== src/Core/Blockchain/Refused.antt =====
-- Blocks with a coinbase before `InsertBlock`.
use plairo.Common.{ℕ, ◌≡◌, ◌≢◌, refl, sym, ◌∙◌, inl, inr, returns, false}
use plairo.Common.{List, ◌∷◌, replicate, none, some}
use mathlib.Core.Path.{subst}
use plairo.Core.Transaction.{Transaction}
use plairo.Core.Validate.{Ecdsa}
use plairo.Core.Signing.{Signer, coinbase, new_coinbase_transaction}
use plairo.Core.Header.{Verdict}
use plairo.Core.CState.{CState}
use plairo.Core.Block.{Block}
use plairo.Core.BlockCheck.{World, BlockError, tx_error, confirm_as_valid}
use plairo.Core.BlockCheck.Accepted.{validate_block-exact}
use plairo.Core.BlockCheck.Confirm.{confirm_as_valid-coinbase}
use plairo.Core.Blockchain.{Genesis, IStorage, ChainError, Ledger}
use plairo.Core.Blockchain.Insert.{insert_block}
use plairo.Core.Blockchain.Frame.{same_ledger, insert_at_end-cases}
use plairo.Core.Blockchain.Stored.{store_block-confirmed}
use plairo.Core.Blockchain.Single.{Reachable, Reachable-IsSingle, only_height_one}

module _ (sha256 : List ℕ → List ℕ) (ecdsa : Ecdsa) (signer : Signer ecdsa) (cs : CState)
    (st : IStorage) (check_header : List ℕ → Verdict) (g : Genesis) where
  -- In a ledger reached from `CreateBlockchain` whose chainstate answers `RemoveUtxo` of output 0 of
  -- 32 zero bytes by false and unchanged, `InsertBlock` never returns a nil error for a block that
  -- begins with a transaction made by `NewCoinbaseTransaction`.
  pub insert_block-coinbase :
      (l l' : Ledger cs st) (block : Block) (height : ℕ) (msg : List ℕ) (value : ℕ)
      (key : Ecdsa.Key ecdsa) (at : ℕ) (tx : Transaction) (txs : List Transaction)
      → Reachable sha256 ecdsa cs st check_header g l
      → new_coinbase_transaction sha256 ecdsa signer msg value key at ≡ coinbase tx
      → block.all_block_tx ≡ tx ∷ txs
      → cs.remove_utxo l.world.cstate (replicate 32 0) 0 ≡ returns (l.world.cstate, false)
      → insert_block sha256 ecdsa cs st check_header l block height ≢ returns (l', none)
  insert_block-coinbase l l' block height msg value key at tx txs r made starts missing p =
      let s = Reachable-IsSingle sha256 ecdsa cs st check_header g l r in
      elim (only_height_one sha256 ecdsa cs st check_header g l block height s.chain_of_one) [
        | inl (_, q) ↦ no_error (same_ledger sha256 ecdsa cs st check_header (sym q ∙ p)).1
        | inr (_, q) ↦
            elim (insert_at_end-cases sha256 ecdsa cs st check_header l l' block height none
              (sym q ∙ p)) [
                | inl (_, stops, _) ↦ stops refl
                | inr (last, header, world, _, _, valid_block, stored) ↦
                    let same =
                      ((validate_block-exact sha256 ecdsa cs check_header l.world world block
                          height).0
                        valid_block).0 in
                    let confirmed =
                      store_block-confirmed sha256 ecdsa cs st check_header _ l' block height
                        stored in
                    not_confirmed world same confirmed.0 confirmed.1
              ]
      ]
    where
      no_error : {e : ChainError cs st} → some e ≡ none → ⊥
      no_error q = cc

      stopped :
          {v v' : World cs} {e : BlockError cs}
          → ◌≡◌ {A = plairo.Core.BlockCheck.Checked sha256 ecdsa cs}
              (returns (v, some e))
              (returns (v', none))
          → ⊥
      stopped q = cc

      not_confirmed :
          (world : World cs)
          → world ≡ l.world
          → (world' : World cs)
          → confirm_as_valid sha256 ecdsa cs world block ≡ returns (world', none)
          → ⊥
      not_confirmed world same world' c = stopped (
          sym (
            confirm_as_valid-coinbase sha256 ecdsa signer cs msg value key at world block tx txs
              made starts
              (subst (λ w. cs.remove_utxo w.cstate (replicate 32 0) 0 ≡ returns (w.cstate, false))
                (sym same) missing))
          ∙ c)
