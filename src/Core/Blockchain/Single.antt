-- ===== src/Core/Blockchain/Single.antt =====
-- The ledgers that a program reaches from `CreateBlockchain`.
use plairo.Common.{
  ℕ, suc, ◌==◌, ltb, ◌||◌, ◌≡◌, ◌≢◌, refl, sym, ap, ◌∙◌, ◌⊎◌, inl, inr, arith, true, false,
  Bool-cases, if◌then◌else◌, returns,
}
use plairo.Common.{List, [], ◌∷◌, ◌++◌, length, Option, none, some, All, All-append, unsome}
use mathlib.Core.Path.{subst}
use plairo.Core.Validate.{Ecdsa}
use plairo.Core.Header.{BlockHeader, Verdict}
use plairo.Core.CState.{CState}
use plairo.Core.Block.{Block}
use plairo.Core.BlockCheck.{World}
use plairo.Core.Blockchain.{
  BNode, new_node, Blockchain, Genesis, create_genesis_node, create_blockchain, get_header_at,
  IStorage, ChainError, invalid_height, Ledger, link_node, modify,
}
use plairo.Core.Blockchain.Insert.{insert_block, insert_at_end}
use plairo.Core.Blockchain.Frame.{same_ledger, insert_at_end-links}

-- A node behind the genesis node that no other node is linked to.
pub record IsChild (bn : BNode) : Type 0 where
  pub behind_genesis : bn.previous_b_node ≡ some 0
  pub unlinked : bn.next_b_node ≡ none
  pub at_one : bn.height ≡ 1
  pub no_fork : bn.is_fork ≡ false

-- The pointer of the genesis node: to the node that was made last.
abbrev pub newest : List BNode → Option ℕ
newest [] = none
newest (bn ∷ bns) = some (length (bn ∷ bns))

abbrev linked_to : Option ℕ → BNode → BNode
linked_to next bn = record bn { next_b_node = next }

-- The chain is the genesis node alone, without forks. All other nodes of the heap stand behind it.
pub record IsSingle (g : Genesis) (bc : Blockchain) : Type 0 where
  pub first : BNode
  pub rest : List BNode
  pub chain_of_one : bc.chain ≡ 0 ∷ []
  pub no_forks : bc.forks ≡ []
  pub heap : bc.nodes ≡ first ∷ rest
  pub is_genesis : first ≡ record (create_genesis_node g) { next_b_node = newest rest }
  pub children : All IsChild rest

create_blockchain-IsSingle : (g : Genesis) → IsSingle g (create_blockchain g)
unfolding create_blockchain create_genesis_node
create_blockchain-IsSingle g = record {
  first = create_genesis_node g;
  rest = [];
  chain_of_one = refl;
  no_forks = refl;
  heap = refl;
  is_genesis = refl;
  children = tt;
}

newest-grown : (bns : List BNode) (bn : BNode) → newest (bns ++ (bn ∷ [])) ≡ some (suc (length bns))
newest-grown [] bn = refl
newest-grown (b ∷ bns) bn = ap some (grown bns)
  where
    grown : (bs : List BNode) → length ((b ∷ bs) ++ (bn ∷ [])) ≡ suc (suc (length bs))
    grown [] = refl
    grown (c ∷ bs) = ap suc (grown bs)

link_node-IsSingle :
    (g : Genesis) (bc : Blockchain) (header : BlockHeader)
    → IsSingle g bc
    → IsSingle g (link_node bc 0 header 1)
link_node-IsSingle g bc header s =
    let child : BNode = new_node (some 0) header 1 false in
    record {
      first = record s.first { next_b_node = some (length bc.nodes) };
      rest = s.rest ++ (child ∷ []);
      chain_of_one = s.chain_of_one;
      no_forks = s.no_forks;
      heap =
          ap
            (λ ns.
              modify (λ bn. record bn { next_b_node = some (length bc.nodes) }) ns 0
              ++ (child ∷ []))
            s.heap;
      is_genesis =
          ap (linked_to (some (length bc.nodes))) s.is_genesis
          ∙ ap (λ n. linked_to n (create_genesis_node g))
              (ap (λ ns. some (length ns)) s.heap ∙ sym (newest-grown s.rest child));
      children =
          All-append IsChild s.rest (child ∷ []) s.children
            (record { behind_genesis = refl; unlinked = refl; at_one = refl; no_fork = refl }, tt);
    }

module _ (sha256 : List ℕ → List ℕ) (ecdsa : Ecdsa) (cs : CState) (st : IStorage)
    (check_header : List ℕ → Verdict) (g : Genesis) where
  -- What happens between two calls of `InsertBlock` may change the mempool, the chainstate and the
  -- storage in any way.
  pub data Reachable : Ledger cs st → Type 0 where
    created :
        (world : World cs)
        → (storage : IStorage.Storage st)
        → Reachable (record { blockchain = create_blockchain g; world = world; storage = storage })
    outside :
        {l : Ledger cs st}
        → (world : World cs) → (storage : IStorage.Storage st) → Reachable l
        → Reachable (record l { world = world; storage = storage })
    after_block :
        {l l' : Ledger cs st}
        → (block : Block) → (height : ℕ) → (e : Option (ChainError cs st)) → Reachable l
        → insert_block sha256 ecdsa cs st check_header l block height ≡ returns (l', e)
        → Reachable l'

  -- At every other height than 1 the block is refused.
  pub only_height_one :
      (l : Ledger cs st) (block : Block) (height : ℕ)
      → l.blockchain.chain ≡ 0 ∷ []
      → ((height ≢ 1)
          × (insert_block sha256 ecdsa cs st check_header l block height
              ≡ returns (l, some invalid_height)))
        ⊎ ((height ≡ 1)
            × (insert_block sha256 ecdsa cs st check_header l block height
                ≡ insert_at_end sha256 ecdsa cs st check_header l block height))
  unfolding insert_block
  only_height_one l block height one = elim (one_or_other) [
    | inl other ↦ inl (other, rw (insert_block, one, refused_at other) refl)
    | inr at_one ↦ inr (at_one, rw (insert_block, one, at_one) refl)
  ]
    where
      one_or_other : (height ≢ 1) ⊎ (height ≡ 1)
      one_or_other = ground arith

      refused_at : height ≢ 1 → (ltb 1 height || height == 0) ≡ true
      refused_at other = ground arith

  insert_block-IsSingle :
      (l l' : Ledger cs st) (block : Block) (height : ℕ) (e : Option (ChainError cs st))
      → IsSingle g l.blockchain
      → insert_block sha256 ecdsa cs st check_header l block height ≡ returns (l', e)
      → IsSingle g l'.blockchain
  insert_block-IsSingle l l' block height e s p =
      elim (only_height_one l block height s.chain_of_one) [
        | inl (other, q) ↦
            subst (IsSingle g)
              (ap (λ x. x.blockchain) (same_ledger sha256 ecdsa cs st check_header (sym q ∙ p)).0) s
        | inr (one, q) ↦
            elim (insert_at_end-links sha256 ecdsa cs st check_header l l' block height e
              (sym q ∙ p)) [
                | inl same ↦ subst (IsSingle g) same s
                | inr (last, header, at_end, linked) ↦ subst (IsSingle g) linked (
                    subst (λ k. IsSingle g (link_node l.blockchain k header height))
                      (unsome (rw s.chain_of_one at at_end))
                      (subst (λ h. IsSingle g (link_node l.blockchain 0 header h)) (sym one)
                        (link_node-IsSingle g l.blockchain header s)))
              ]
      ]

  -- In every ledger reached from `CreateBlockchain` by calls of `InsertBlock`, whatever the other
  -- parts of the program do to the mempool, the chainstate and the storage in between, the chain is
  -- the genesis node alone and has no fork: a block that was inserted is only a node behind it.
  pub Reachable-IsSingle : (l : Ledger cs st) → Reachable l → IsSingle g l.blockchain
  Reachable-IsSingle _ (created world storage) = create_blockchain-IsSingle g
  Reachable-IsSingle _ (outside world storage r) = Reachable-IsSingle _ r
  Reachable-IsSingle l' (after_block block height e r p) =
      insert_block-IsSingle _ l' block height e (Reachable-IsSingle _ r) p

  -- `GetHeaderAt` of such a ledger returns the genesis header at index 0 and no header elsewhere.
  pub get_header_at-Reachable :
      (l : Ledger cs st) (index : ℕ)
      → Reachable l
      → get_header_at l.blockchain index
        ≡ some (if index == 0 then some (create_genesis_node g).header else none)
  unfolding get_header_at create_genesis_node
  get_header_at-Reachable l index r =
      let s = Reachable-IsSingle l r in
      elim (Bool-cases (index == 0)) [
        | inl first ↦
            rw (get_header_at, s.chain_of_one, s.heap, index_zero first)
              (ap (λ bn. some (some bn.header)) s.is_genesis)
        | inr behind ↦ rw (get_header_at, s.chain_of_one, behind, out_of_chain behind) refl
      ]
    where
      index_zero : (index == 0) ≡ true → index ≡ 0
      index_zero p = ground arith

      out_of_chain : (index == 0) ≡ false → ltb index 1 ≡ false
      out_of_chain p = ground arith
