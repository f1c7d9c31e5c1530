-- ===== src/Core/MemTree/Successor.antt =====
-- `removeAtNode` at a node without a chain: one child moves up, or the successor takes over.
use mathlib.Core.Path.{subst, subst₂}
use mathlib.Core.List.{map-append}
use native.Mathlib.Nat.{lt_trans}
use plairo.Common.{ℕ, ◌<◌, ◌≡◌, refl, sym, ap, ◌∙◌, arith}
use plairo.Common.{List, [], ◌∷◌, ◌++◌, append_assoc, append-nil, some, All}
use plairo.Common.{unsome}
use plairo.Core.MemTree.{
  MemTree, leaf, node, Entry, TxRecord, Result, done, clear_smallest, replace_by_child, take_over,
  remove_node,
}
use plairo.Core.MemTree.Order.{
  AllT, All-zip, AllT-imp, AllT-zip, IsSearchTree, Rearranges, rebalance_remove-Rearranges,
}
use plairo.Core.MemTree.Insert.{entries-All}
use plairo.Core.MemTree.Records.{
  records, records_of, erase, IsRecorded, erase-skip, erase_here, All-records_of, AllT-records,
  records-node, All-split,
}
use plairo.Core.MemTree.Smallest.{
  above, smallest, smallest_chain, entries-smallest, entries-clear_smallest, smallest-All,
  smallest-order,
}
use plairo.Core.MemTree.Remove.{Removes, Holds, Removes-Rearranges, >>>-eq-done, erase_node}

pub done-injective : {t u : MemTree} → done t ≡ done u → t ≡ u
done-injective p = cc

replace_by_child-Rearranges : (t t' : MemTree) → replace_by_child t ≡ some t' → Rearranges t t'
unfolding replace_by_child
replace_by_child-Rearranges leaf t' p =
    subst (Rearranges leaf) (unsome p)
      (record { same_entries = refl; keeps_all = λ P a. a; keeps_order = λ o. o })
replace_by_child-Rearranges (node e l r s h) t' p = rebalance_remove-Rearranges e l r s h p

-- A node with one child at most gives way to the child.
right_child-Removes :
    (e : Entry) (r : MemTree) (h : ℕ) (txrec : TxRecord)
    → IsSearchTree (node e leaf r [] h)
    → IsRecorded (node e leaf r [] h)
    → txrec ≡ e.tx_rec
    → Removes txrec (node e leaf r [] h) r
right_child-Removes e r h txrec o rec p = record {
  takes = sym (erase_node e leaf r [] h o rec txrec p ∙ append-nil (records r));
  keeps_all = λ P a. a.3;
  keeps_order = o.4;
}

left_child-Removes :
    (e : Entry) (l : MemTree) (h : ℕ) (txrec : TxRecord)
    → IsSearchTree (node e l leaf [] h)
    → IsRecorded (node e l leaf [] h)
    → txrec ≡ e.tx_rec
    → Removes txrec (node e l leaf [] h) l
left_child-Removes e l h txrec o rec p = record {
  takes = sym (erase_node e l leaf [] h o rec txrec p);
  keeps_all = λ P a. a.2;
  keeps_order = o.3;
}

-- Two children: the smallest node on the right, `next`, leaves its place with its chain.
module _ (e : Entry) (l : MemTree) (h : ℕ) (re : Entry) (rl rr : MemTree) (rs : List Entry) (rh : ℕ)
    (o : IsSearchTree (node e l (node re rl rr rs rh) [] h))
    (rec : IsRecorded (node e l (node re rl rr rs rh) [] h)) where
  abbrev right : MemTree
  right = node re rl rr rs rh

  abbrev next : Entry
  next = smallest re rl rs

  abbrev chain : List Entry
  chain = smallest_chain re rl rs

  above_fees : All (λ x. x.tx_rec.fee ≡ x.key) (above re rl rr rs)
  above_fees =
      (All-split (λ x. x.tx_rec.fee ≡ x.key) (above re rl rr rs) (next ∷ chain)
        (subst (All (λ x. x.tx_rec.fee ≡ x.key)) (entries-smallest re rl rr rs)
          (entries-All (λ x. x.tx_rec.fee ≡ x.key) right rec.3))).0

  -- Taking the record of `next` from the tree whose smallest chain is cut leaves what stood above.
  cleared_records :
      erase next.tx_rec (records (clear_smallest right)) ≡ records_of (above re rl rr rs)
  cleared_records =
      let order = smallest-order re rl rr rs rh o.4 in
      let fees = smallest-All (λ x. x.tx_rec.fee ≡ x.key) re rl rr rs rh rec.3 in
      ap (λ xs. erase next.tx_rec (records_of xs)) (entries-clear_smallest re rl rr rs rh)
      ∙ ap (erase next.tx_rec) (map-append (λ x. x.tx_rec) (above re rl rr rs) (next ∷ []))
      ∙ erase-skip next.tx_rec (records_of (above re rl rr rs)) (next.tx_rec ∷ []) (
          All-records_of (λ x. next.tx_rec.fee < x.fee) (above re rl rr rs)
            (All-zip (λ x a b. omega (arith, fees.0)) (above re rl rr rs) order.0 above_fees))
      ∙ rw (erase_here next.tx_rec []) (append-nil _)

  -- The removal from the cleared right subtree, and `next` with its chain in the place of the node.
  take_over-Removes :
      (r' : MemTree) (k : ℕ)
      → Removes next.tx_rec (clear_smallest right) r'
      → Removes e.tx_rec (node e l right [] h) (node (take_over e next) l r' chain k)
  take_over-Removes r' k i = record {
    takes =
        records-node (take_over e next) l r' chain
        ∙ rw (i.takes ∙ cleared_records) regroup
        ∙ sym (erase_node e l right [] h o rec e.tx_rec refl);
    keeps_all = λ P a.
        let (n, c, t) = smallest-All (Holds P) re rl rr rs rh a.3 in (n, c, a.2, i.keeps_all P t);
    keeps_order = (
      AllT-imp (λ x p. lt_trans p above_root.0) l o.0,
      AllT-zip (λ x a b. subst₂ (λ u v. u < v) next_fee b a) r'
          (AllT-records (λ x. next.tx_rec.fee < x.fee) r'
            (subst (All (λ x. next.tx_rec.fee < x.fee)) (sym (i.takes ∙ cleared_records)) (
              All-records_of (λ x. next.tx_rec.fee < x.fee) (above re rl rr rs)
                (All-zip (λ x a b. omega (arith, next_fee)) (above re rl rr rs) order.0
                  above_fees))))
          (i.keeps_all (λ k x. x.fee ≡ k) (cleared_fees)),
      order.1,
      o.3,
      i.keeps_order,
    );
  }
    where
      order :
          All (λ x. next.key < x.key) (above re rl rr rs)
          × All (λ x. x.key ≡ next.key) chain
          × IsSearchTree (clear_smallest right)
      order = smallest-order re rl rr rs rh o.4

      above_root :
          (e.key < next.key)
          × All (λ x. e.key < x.key) chain
          × AllT (λ x. e.key < x.key) (clear_smallest right)
      above_root = smallest-All (λ x. e.key < x.key) re rl rr rs rh o.1

      next_fee : next.tx_rec.fee ≡ next.key
      next_fee = (smallest-All (λ x. x.tx_rec.fee ≡ x.key) re rl rr rs rh rec.3).0

      cleared_fees : AllT (λ x. x.tx_rec.fee ≡ x.key) (clear_smallest right)
      cleared_fees = (smallest-All (λ x. x.tx_rec.fee ≡ x.key) re rl rr rs rh rec.3).2

      regroup :
          records_of (above re rl rr rs) ++ ((next.tx_rec ∷ records_of chain) ++ records l)
          ≡ records right ++ records l
      regroup = sym (
          ap (λ ys. ys ++ records l)
            (ap records_of (entries-smallest re rl rr rs)
              ∙ map-append (λ x. x.tx_rec) (above re rl rr rs) (next ∷ chain))
          ∙ append_assoc (records_of (above re rl rr rs)) (next.tx_rec ∷ records_of chain)
              (records l))

-- All cases of a node that leaves without a chain of its own.
pub remove_node-Removes :
    (remove_right : MemTree → TxRecord → Result) (e : Entry) (l r : MemTree) (h : ℕ) (t' : MemTree)
    → ((u u' : MemTree) (x : TxRecord)
        → IsSearchTree u
        → IsRecorded u
        → remove_right u x ≡ done u'
        → Removes x u u')
    → IsSearchTree (node e l r [] h)
    → IsRecorded (node e l r [] h)
    → remove_node remove_right e l r ≡ done t'
    → Removes e.tx_rec (node e l r [] h) t'
unfolding remove_node
remove_node-Removes remove_right e leaf r h t' ih o rec p =
    let (u, q, v) = >>>-eq-done (done r) replace_by_child p in
    Removes-Rearranges (right_child-Removes e r h e.tx_rec o rec refl)
      (replace_by_child-Rearranges r t' (rw (done-injective q) v))
remove_node-Removes remove_right e (node le ll lr ls lh) leaf h t' ih o rec p =
    let l = node le ll lr ls lh in
    let (u, q, v) = >>>-eq-done (done l) replace_by_child p in
    Removes-Rearranges (left_child-Removes e l h e.tx_rec o rec refl)
      (replace_by_child-Rearranges l t' (rw (done-injective q) v))
remove_node-Removes remove_right e (node le ll lr ls lh) (node re rl rr rs rh) h t' ih o rec p =
    let l = node le ll lr ls lh in
    let r = node re rl rr rs rh in
    let next = smallest re rl rs in
    let (r', q, v) = >>>-eq-done (remove_right (clear_smallest r) next.tx_rec) _ p in
    Removes-Rearranges
      (take_over-Removes e l h re rl rr rs rh o rec r' h (
        ih (clear_smallest r) r' next.tx_rec (smallest-order re rl rr rs rh o.4).2
          (smallest-All (λ x. x.tx_rec.fee ≡ x.key) re rl rr rs rh rec.3).2 q))
      (rebalance_remove-Rearranges (take_over e next) l r' (smallest_chain re rl rs) h v)
