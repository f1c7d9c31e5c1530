-- ===== src/Core/MemTree/Faults.antt =====
-- What the tree's operations do besides: when they end, and when they panic.
use plairo.Common.{ℕ, zero, suc, ◌<◌, ◌≤◌, ◌≡◌, ◌≢◌, refl, ◌∙◌, arith, ltb}
use plairo.Common.{List, [], ◌∷◌, Option, none, some, ◌>>=◌, All, Bool-cases, inl, inr, false}
use plairo.Common.{Option-cases}
use plairo.Core.Transaction.{Transaction}
use plairo.Core.Fees.{get_fees}
use plairo.Core.MemTree.{
  MemTree, leaf, node, Entry, TxRecord, record_equal, Result, done, panic, stuck, ◌>>>◌,
  clear_smallest, remove_from_chain, replace_by_child, remove_node, remove_head, remove_here,
  remove_at_node, remove_record, nodes, insert, insert_at_node, create_mem_tree_node,
  rebalance_insert, root_key, right_rotate, left_rotate, get_smallest_node,
}
use plairo.Core.MemTree.Order.{All-zip, IsSearchTree}
use plairo.Core.MemTree.Records.{IsRecorded, record_ne}

nodes-clear_smallest : (t : MemTree) → nodes (clear_smallest t) ≡ nodes t
unfolding clear_smallest
nodes-clear_smallest leaf = refl
nodes-clear_smallest (node e leaf r s h) = refl
nodes-clear_smallest (node e (node le ll lr ls lh) r s h) =
    omega (arith, nodes-clear_smallest (node le ll lr ls lh))

>>>-ne-stuck : (m : Result) (f : MemTree → Option MemTree) → m ≢ stuck → (m >>> f) ≢ stuck
>>>-ne-stuck (done u) f h q = go (f u) q
  where
    go : (o : Option MemTree) → (elim o [ none ↦ panic | some t' ↦ done t' ]) ≢ stuck
    go none p = cc
    go (some t') p = cc
>>>-ne-stuck panic f h p = cc
>>>-ne-stuck stuck f h p = h refl

-- A step of the recursion: calls on smaller trees do not run out of fuel.
module _ (remove_right : MemTree → TxRecord → Result) (e : Entry) (l r : MemTree) (s : List Entry)
    (h : ℕ) (ih : (u : MemTree) (x : TxRecord) → nodes u ≤ nodes r → remove_right u x ≢ stuck) where
  remove_node-ne-stuck : remove_node remove_right e l r ≢ stuck
  remove_node-ne-stuck = go l r ih
    where
      go :
          (l r : MemTree)
          → ((u : MemTree) (x : TxRecord) → nodes u ≤ nodes r → remove_right u x ≢ stuck)
          → remove_node remove_right e l r ≢ stuck
      go leaf r ih = unfold remove_node in >>>-ne-stuck (done r) replace_by_child (λ p. cc)
      go (node le ll lr ls lh) leaf ih =
          unfold remove_node in >>>-ne-stuck (done (node le ll lr ls lh)) replace_by_child (λ p. cc)
      go (node le ll lr ls lh) (node re rl rr rs rh) ih =
          unfold remove_node in
          >>>-ne-stuck
            (remove_right (clear_smallest (node re rl rr rs rh))
              (get_smallest_node re rl rs).0.tx_rec)
            _ (ih _ _ (omega (arith, nodes-clear_smallest (node re rl rr rs rh))))

  remove_head-ne-stuck : (s : List Entry) → remove_head remove_right e l r s ≢ stuck
  unfolding remove_head
  remove_head-ne-stuck [] p = remove_node-ne-stuck p
  remove_head-ne-stuck (x ∷ s) p = cc

  remove_here-ne-stuck : (txrec : TxRecord) → remove_here remove_right e l r s h txrec ≢ stuck
  unfolding remove_here
  remove_here-ne-stuck txrec = elim (Bool-cases (record_equal txrec e.tx_rec)) [
    | inl eq ↦ λ p. remove_head-ne-stuck s (rw (eq, remove_here) at p)
    | inr ne ↦ elim (Option-cases (remove_from_chain s txrec)) [
      | inl q ↦ λ p. panic-ne-stuck (rw (ne, q, remove_here) at p)
      | inr (s', q) ↦ λ p. done-ne-stuck (rw (ne, q, remove_here) at p)
    ]
  ]
    where
      panic-ne-stuck : panic ≢ stuck
      panic-ne-stuck p = cc

      done-ne-stuck : {t : MemTree} → done t ≢ stuck
      done-ne-stuck p = cc

remove_at_node-ne-stuck :
    (fuel : ℕ) (t : MemTree) (txrec : TxRecord)
    → nodes t < fuel
    → remove_at_node fuel t txrec ≢ stuck
unfolding remove_at_node
remove_at_node-ne-stuck zero t txrec h p = elim h [ ]
remove_at_node-ne-stuck (suc fuel) leaf txrec h p = cc
remove_at_node-ne-stuck (suc fuel) (node e l r s k) txrec h p =
    elim (Bool-cases (ltb txrec.fee e.key)) [
      | inl lt ↦
          >>>-ne-stuck (remove_at_node fuel l txrec) _
            (remove_at_node-ne-stuck fuel l txrec (omega arith)) (rw (lt, remove_at_node) at p)
      | inr ge ↦
          remove_here-ne-stuck (remove_at_node fuel) e l r s k
            (λ u x q. remove_at_node-ne-stuck fuel u x (omega arith)) txrec
            (rw (ge, remove_at_node, ge) at p)
    ]

-- `removeRecord` ends on every tree: the fuel, one more than the number of nodes, never runs out.
pub remove_record-ne-stuck : (t : MemTree) (txrec : TxRecord) → remove_record t txrec ≢ stuck
unfolding remove_record
remove_record-ne-stuck t txrec = remove_at_node-ne-stuck (suc (nodes t)) t txrec (omega arith)

chain_misses :
    (s : List Entry) (txrec : TxRecord)
    → All (λ x. x.tx_rec.fee < txrec.fee) s
    → remove_from_chain s txrec ≡ none
unfolding remove_from_chain
chain_misses [] txrec a = refl
chain_misses (x ∷ s) txrec a =
    rw (record_ne x.tx_rec txrec (λ p. omega (arith, a.0)), chain_misses s txrec a.1) refl

-- A record that is not below the node is dealt with at the node.
not_below_here :
    (fuel : ℕ) (e : Entry) (l r : MemTree) (s : List Entry) (h : ℕ) (txrec : TxRecord)
    → ltb txrec.fee e.key ≡ false
    → remove_at_node (suc fuel) (node e l r s h) txrec
      ≡ remove_here (remove_at_node fuel) e l r s h txrec
unfolding remove_at_node
not_below_here fuel e l r s h txrec p = rw (p, remove_at_node, p) refl

remove_here_missing :
    (remove_right : MemTree → TxRecord → Result) (e : Entry) (l r : MemTree) (s : List Entry)
    (h : ℕ) (txrec : TxRecord)
    → record_equal txrec e.tx_rec ≡ false
    → remove_from_chain s txrec ≡ none
    → remove_here remove_right e l r s h txrec ≡ panic
unfolding remove_here
remove_here_missing remove_right e l r s h txrec p q = rw (p, q) refl

-- In a search tree whose records carry their nodes' fees, removing a record with a fee above that of
-- the root panics, whether or not the right subtree holds the record.
pub remove_record_above_root :
    (e : Entry) (l r : MemTree) (s : List Entry) (h : ℕ) (txrec : TxRecord)
    → IsSearchTree (node e l r s h)
    → IsRecorded (node e l r s h)
    → e.key < txrec.fee
    → remove_record (node e l r s h) txrec ≡ panic
unfolding remove_record
remove_record_above_root e l r s h txrec o rec p =
    not_below_here _ e l r s h txrec (ground arith)
    ∙ remove_here_missing _ e l r s h txrec (record_ne txrec e.tx_rec (λ q. omega (arith, rec.0)))
        (chain_misses s txrec (All-zip (λ x a b. omega arith) s o.2 rec.1))

-- Inserting three transactions with rising fees into the empty tree panics at the third.
pub insert_rising_panics :
    (a b c : Transaction)
    → get_fees a < get_fees b
    → get_fees b < get_fees c
    → (insert leaf a >>= λ t. insert t b >>= λ t'. insert t' c) ≡ none
unfolding insert insert_at_node create_mem_tree_node rebalance_insert root_key right_rotate
    left_rotate
insert_rising_panics a b c p q = ground arith
