-- ===== src/Core/MemTree/Removal.antt =====
-- `removeRecord`: the whole call.
use mathlib.Core.Path.{subst}
use plairo.Common.{ℕ, zero, suc, ◌≡◌, refl, sym, ltb, ltb→lt}
use plairo.Common.{List, [], ◌∷◌, Bool-cases, inl, inr}
use plairo.Common.{Option-cases}
use plairo.Core.MemTree.{
  MemTree, leaf, node, Entry, TxRecord, record_equal, Result, done, panic, remove_from_chain,
  remove_head, remove_here, remove_at_node, remove_record, nodes,
}
use plairo.Core.MemTree.Order.{IsSearchTree, rebalance_remove-Rearranges}
use plairo.Core.MemTree.Records.{records, erase, IsRecorded, record_equal→eq}
use plairo.Core.MemTree.Remove.{
  Removes, Removes-Rearranges, >>>-eq-done, left-Removes, chain-Removes, next-Removes,
  remove_from_chain-TakesFirst,
}
use plairo.Core.MemTree.Successor.{remove_node-Removes, done-injective}

-- The node that has the record's fee.
remove_head-Removes :
    (remove_right : MemTree → TxRecord → Result) (e : Entry) (l r : MemTree) (s : List Entry)
    (h : ℕ) (t' : MemTree)
    → ((u u' : MemTree) (x : TxRecord)
        → IsSearchTree u
        → IsRecorded u
        → remove_right u x ≡ done u'
        → Removes x u u')
    → IsSearchTree (node e l r s h)
    → IsRecorded (node e l r s h)
    → remove_head remove_right e l r s ≡ done t'
    → Removes e.tx_rec (node e l r s h) t'
unfolding remove_head
remove_head-Removes remove_right e l r [] h t' ih o rec p =
    remove_node-Removes remove_right e l r h t' ih o rec p
remove_head-Removes remove_right e l r (x ∷ s) h t' ih o rec p =
    subst (Removes e.tx_rec (node e l r (x ∷ s) h)) (done-injective p)
      (next-Removes e l r (x ∷ s) h o rec e.tx_rec x s 1 refl refl)

remove_here-Removes :
    (remove_right : MemTree → TxRecord → Result) (e : Entry) (l r : MemTree) (s : List Entry)
    (h : ℕ) (txrec : TxRecord) (t' : MemTree)
    → ((u u' : MemTree) (x : TxRecord)
        → IsSearchTree u
        → IsRecorded u
        → remove_right u x ≡ done u'
        → Removes x u u')
    → IsSearchTree (node e l r s h)
    → IsRecorded (node e l r s h)
    → remove_here remove_right e l r s h txrec ≡ done t'
    → Removes txrec (node e l r s h) t'
unfolding remove_here
remove_here-Removes remove_right e l r s h txrec t' ih o rec p =
    elim (Bool-cases (record_equal txrec e.tx_rec)) [
      | inl eq ↦
          subst (λ x. Removes x (node e l r s h) t') (sym (record_equal→eq _ _ eq))
            (remove_head-Removes remove_right e l r s h t' ih o rec (rw (eq, remove_here) at p))
      | inr ne ↦ elim (Option-cases (remove_from_chain s txrec)) [
        | inl q ↦ absurd (panic-ne-done (rw (ne, q, remove_here) at p))
        | inr (s', q) ↦
            subst (Removes txrec (node e l r s h)) (done-injective (rw (ne, q, remove_here) at p)) (
              chain-Removes e l r s h o rec txrec s' ne (remove_from_chain-TakesFirst txrec s s' q))
      ]
    ]
  where
    panic-ne-done : panic ≡ done t' → ⊥
    panic-ne-done q = cc

remove_at_node-Removes :
    (fuel : ℕ) (t t' : MemTree) (txrec : TxRecord)
    → IsSearchTree t
    → IsRecorded t
    → remove_at_node fuel t txrec ≡ done t'
    → Removes txrec t t'
unfolding remove_at_node
remove_at_node-Removes zero t t' txrec o rec p = absurd (cc)
remove_at_node-Removes (suc fuel) leaf t' txrec o rec p =
    subst (Removes txrec leaf) (done-injective p)
      (record { takes = refl; keeps_all = λ P a. a; keeps_order = tt })
remove_at_node-Removes (suc fuel) (node e l r s h) t' txrec o rec p =
    elim (Bool-cases (ltb txrec.fee e.key)) [
      | inl lt ↦
          let (l', q, v) =
            >>>-eq-done (remove_at_node fuel l txrec) _ (rw (lt, remove_at_node) at p) in
          Removes-Rearranges
            (left-Removes e l r s h o rec txrec l' (ltb→lt _ _ lt)
              (remove_at_node-Removes fuel l l' txrec o.3 rec.2 q))
            (rebalance_remove-Rearranges e l' r s h v)
      | inr ge ↦
          remove_here-Removes (remove_at_node fuel) e l r s h txrec t'
            (λ u u' x. remove_at_node-Removes fuel u u' x) o rec (rw (ge, remove_at_node, ge) at p)
    ]

-- If removing a record from a search tree does not panic, then the tree that results is a search
-- tree whose records carry their nodes' fees, and its records, in the order in which transactions
-- are sent, are those before without the first one equal to the given record.
pub remove_record-erase :
    (t t' : MemTree) (txrec : TxRecord)
    → IsSearchTree t
    → IsRecorded t
    → remove_record t txrec ≡ done t'
    → IsSearchTree t' × IsRecorded t' × (records t' ≡ erase txrec (records t))
unfolding remove_record
remove_record-erase t t' txrec o rec p =
    let i = remove_at_node-Removes (suc (nodes t)) t t' txrec o rec p in
    (i.keeps_order, i.keeps_all (λ k x. x.fee ≡ k) rec, i.takes)
