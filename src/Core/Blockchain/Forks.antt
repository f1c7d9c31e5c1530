-- ===== src/Core/Blockchain/Forks.antt =====
-- What `InsertBlock` does below the end of the chain.
use plairo.Common.{
  ◌⊎◌, ℕ, ◌≡◌, ◌≢◌, refl, ap, ◌∙◌, inl, inr, false, Bool-cases, bytes_eq, returns, panics,
}
use plairo.Common.{List, Option, none, some, Option-cases}
use plairo.Core.Validate.{Ecdsa}
use plairo.Core.Header.{BlockHeader, Verdict, rejected, deeper, get_hash}
use plairo.Core.CState.{CState}
use plairo.Core.Block.{Block, get_block_header}
use plairo.Core.Blockchain.{
  BNode, Fork, Blockchain, node_at, open_fork, extend_fork, IStorage, ChainError, Ledger, find_fork,
}
use plairo.Core.Blockchain.Insert.{insert_in_fork, check_then, when_accepted}
use plairo.Core.Blockchain.Frame.{ends, no_panic, same_ledger}

module _ (sha256 : List ℕ → List ℕ) (ecdsa : Ecdsa) (cs : CState) (st : IStorage)
    (check_header : List ℕ → Verdict) where
  abbrev pub Keeps : Ledger cs st → Ledger cs st → Option (ChainError cs st) → Type 0
  Keeps l l' e =
      (l.world ≡ l'.world)
      × (((m : List ℕ) × (check_header m ≡ Verdict.accepted))
          ⊎ ((l.blockchain ≡ l'.blockchain) × (e ≢ none)))

  when_accepted-Keeps :
      (m : List ℕ) (v : Verdict) (l l' : Ledger cs st) (next : Blockchain)
      (e : Option (ChainError cs st))
      → check_header m ≡ v
      → when_accepted sha256 ecdsa cs st check_header v l (record l { blockchain = next })
        ≡ returns (l', e)
      → Keeps l l' e
  when_accepted-Keeps m Verdict.accepted l l' next e h p =
      (ap (λ x. x.world) (same_ledger sha256 ecdsa cs st check_header p).0, inl (m, h))
  when_accepted-Keeps m (rejected x) l l' next e h p = (cc, inr (cc, cc))
  when_accepted-Keeps m Verdict.panicked l l' next e h p = absurd (cc)
  when_accepted-Keeps m deeper l l' next e h p = absurd (cc)

  check_then-Keeps :
      (l l' : Ledger cs st) (block : Block) (next : Blockchain) (e : Option (ChainError cs st))
      → check_then sha256 ecdsa cs st check_header l block next ≡ returns (l', e)
      → Keeps l l' e
  check_then-Keeps l l' block next e p = judged (get_block_header block) p
    where
      judged :
          (o : Option (List ℕ))
          → elim o [
            | none ↦ panics
            | some bytes ↦
                when_accepted sha256 ecdsa cs st check_header
                  (check_header bytes)
                  l
                  (record l { blockchain = next })
          ]
            ≡ returns (l', e)
          → Keeps l l' e
      judged none q = absurd (no_panic sha256 ecdsa cs st check_header q)
      judged (some m) q = when_accepted-Keeps m (check_header m) l l' next e refl q

  pub refused :
      {l l' : Ledger cs st} {x : ChainError cs st} {e : Option (ChainError cs st)}
      → ends sha256 ecdsa cs st check_header l (some x) ≡ ends sha256 ecdsa cs st check_header l' e
      → Keeps l l' e
  refused q =
      let (same, stops) = same_ledger sha256 ecdsa cs st check_header q in
      (ap (λ x. x.world) same, inr (ap (λ x. x.blockchain) same, λ nil. not_nil (stops ∙ nil)))
    where
      not_nil : {x : ChainError cs st} → some x ≡ none → ⊥
      not_nil q = cc

  -- A call that returns leaves the world as it was, and the blockchain too unless a header passed.
  pub insert_in_fork-Keeps :
      (l l' : Ledger cs st) (block : Block) (height : ℕ) (e : Option (ChainError cs st))
      → insert_in_fork sha256 ecdsa cs st check_header l block height ≡ returns (l', e)
      → Keeps l l' e
  unfolding insert_in_fork
  insert_in_fork-Keeps l l' block height e p = elim (Option-cases (node_at l.blockchain height)) [
    | inl n ↦ absurd (crashes (rw (insert_in_fork, n) at p))
    | inr (conflict, n) ↦ elim (Option-cases block.header) [
      | inl hd ↦ absurd (crashes (rw (insert_in_fork, n, hd) at p))
      | inr (header, hd) ↦
          elim (Bool-cases
            (bytes_eq header.previous_block_hash conflict.header.previous_block_hash)) [
              | inl same ↦
                  check_then-Keeps l l' block (open_fork l.blockchain conflict header height) e
                    (rw (insert_in_fork, n, hd, same) at p)
              | inr other ↦
                  searched header conflict n hd other
                    (find_fork sha256 l.blockchain l.blockchain.forks 0 height
                      (get_hash sha256 header))
                    refl
            ]
    ]
  ]
    where
      crashes :
          {x : Ledger cs st} {e' : Option (ChainError cs st)}
          → panics ≡ ends sha256 ecdsa cs st check_header x e'
          → ⊥
      crashes = no_panic sha256 ecdsa cs st check_header

      searched :
          (header : BlockHeader) (conflict : BNode)
          → node_at l.blockchain height ≡ some conflict
          → block.header ≡ some header
          → bytes_eq header.previous_block_hash conflict.header.previous_block_hash ≡ false
          → (found : Option (Option (ℕ × Fork)))
          → find_fork sha256 l.blockchain l.blockchain.forks 0 height (get_hash sha256 header)
            ≡ found
          → Keeps l l' e
      searched header conflict n hd other none f =
          absurd (crashes (rw (insert_in_fork, n, hd, other, f) at p))
      searched header conflict n hd other (some none) f =
          refused (rw (insert_in_fork, n, hd, other, f) at p)
      searched header conflict n hd other (some (some (i, fork))) f =
          check_then-Keeps l l' block (extend_fork l.blockchain i fork header height) e
            (rw (insert_in_fork, n, hd, other, f) at p)
