-- ===== src/Core/MemTree.antt =====
-- core/mempool.go: the tree of pending transactions, ordered by fee. A node's `same` chain is a list:
-- a chained node has no children and height 1 from its creation until it leaves the chain. `none` and
-- `panic` are Go panics (`panic(…)` and nil dereferences).
pub mod Order
pub mod Records
pub mod Smallest
pub mod Insert
pub mod Remove
pub mod Successor
pub mod Removal
pub mod Faults
pub mod Max
use plairo.Common.{ℕ, zero, suc, ◌+◌, ◌==◌, leb, ltb, ◌&&◌, not, Bool, true, false, bytes_eq}
use plairo.Common.{List, [], ◌∷◌, ◌++◌, Option, none, some, ◌>>=◌, if◌then◌else◌, ◌-◌}
use mathlib.Core.Option
use plairo.Core.Transaction.{Transaction}
use plairo.Core.Fees.{get_fees}

pub record TxRecord : Type 0 where
  pub fee : ℕ
  pub txid : List ℕ

unfoldable pub record_equal : TxRecord → TxRecord → Bool
record_equal a b = (a.fee == b.fee) && bytes_eq a.txid b.txid

-- What a node carries.
pub record Entry : Type 0 where
  pub key : ℕ
  pub tx_rec : TxRecord
  pub tx : Transaction

pub data MemTree : Type 0 where
  leaf : MemTree
  node : Entry → MemTree → MemTree → List Entry → ℕ → MemTree

unfoldable pub create_mem_tree_node : Transaction → Entry
create_mem_tree_node tx = record {
  key = get_fees tx;
  tx_rec = record { fee = get_fees tx; txid = tx.txid };
  tx = tx;
}

-- `utils.Max` of two numbers.
abbrev pub max : ℕ → ℕ → ℕ
max a b = if ltb a b then b else a

abbrev pub height : MemTree → ℕ
height leaf = 0
height (node e l r s h) = h

-- A node with its height computed from its children.
abbrev pub node_up : Entry → MemTree → MemTree → List Entry → MemTree
node_up e l r s = node e l r s (1 + max (height l) (height r))

-- The balance factor is above 1, or below -1.
abbrev pub left_heavy : MemTree → MemTree → Bool
left_heavy l r = leb (height r + 2) (height l)

abbrev pub right_heavy : MemTree → MemTree → Bool
right_heavy l r = leb (height l + 2) (height r)

unfoldable pub right_rotate : MemTree → Option MemTree
right_rotate (node e (node xe xl xr xs xh) r s h) = some (node_up xe xl (node_up e xr r s) xs)
right_rotate _ = none

unfoldable pub left_rotate : MemTree → Option MemTree
left_rotate (node e l (node ye yl yr ys yh) s h) = some (node_up ye (node_up e l yl s) yr ys)
left_rotate _ = none

-- The tests on `node.left.key` and `node.right.key`, which panic on nil.
unfoldable pub root_key : MemTree → Option ℕ
root_key leaf = none
root_key (node e l r s h) = some e.key

-- What `insertAtNode` does behind the recursive call.
unfoldable pub rebalance_insert : ℕ → Entry → MemTree → MemTree → List Entry → Option MemTree
rebalance_insert new_key e l r s =
    if left_heavy l r
    then (root_key l >>= λ k.
        if ltb new_key k
        then right_rotate (node_up e l r s)
        else (left_rotate l >>= λ l'. right_rotate (node e l' r s (1 + max (height l) (height r)))))
    else if right_heavy l r
    then (root_key r >>= λ k.
        if ltb k new_key
        then (right_rotate r >>= λ r'. left_rotate (node e l r' s (1 + max (height l) (height r))))
        else left_rotate (node_up e l r s))
    else some (node_up e l r s)

unfoldable pub insert_at_node : MemTree → Entry → Option MemTree
insert_at_node leaf new = some (node new leaf leaf [] 1)
insert_at_node (node e l r s h) new = elim (new.key == e.key) [
  | true ↦ some (node e l r (s ++ (new ∷ [])) h)
  | false ↦ elim (ltb new.key e.key) [
    | true ↦ insert_at_node l new >>= λ l'. rebalance_insert new.key e l' r s
    | false ↦ insert_at_node r new >>= λ r'. rebalance_insert new.key e l r' s
  ]
]

unfoldable pub insert : MemTree → Transaction → Option MemTree
insert root tx = insert_at_node root (create_mem_tree_node tx)

-- The result of a removal; `stuck` is no Go value: the fuel ran out.
pub data Result : Type 0 where
  done : MemTree → Result
  panic : Result
  stuck : Result

infixl 5 ◌>>>◌
abbrev pub ◌>>>◌ : Result → (MemTree → Option MemTree) → Result
done t >>> f = elim (f t) [ none ↦ panic | some t' ↦ done t' ]
panic >>> f = panic
stuck >>> f = stuck

-- `getSmallestNode` of a tree with at least one node: its entry and its chain.
unfoldable pub get_smallest_node : Entry → MemTree → List Entry → Entry × List Entry
get_smallest_node e leaf s = (e, s)
get_smallest_node e (node le ll lr ls lh) s = get_smallest_node le ll ls

-- `tmp.same = nil` on the smallest node.
unfoldable pub clear_smallest : MemTree → MemTree
clear_smallest leaf = leaf
clear_smallest (node e leaf r s h) = node e leaf r [] h
clear_smallest (node e (node le ll lr ls lh) r s h) =
    node e (clear_smallest (node le ll lr ls lh)) r s h

-- The walk along the chain; a record that is not there is a panic.
unfoldable pub remove_from_chain : List Entry → TxRecord → Option (List Entry)
remove_from_chain [] txrec = none
remove_from_chain (x ∷ s) txrec =
    if record_equal x.tx_rec txrec
    then some s
    else Option.map (λ s'. x ∷ s') (remove_from_chain s txrec)

-- `getNodeBalanceFactor(node) >= 0`, and `<= 0`.
abbrev pub leans_left : MemTree → Bool
leans_left leaf = true
leans_left (node e l r s h) = leb (height r) (height l)

abbrev pub leans_right : MemTree → Bool
leans_right leaf = true
leans_right (node e l r s h) = leb (height l) (height r)

-- What `removeAtNode` does behind the removal: heights and rotations.
unfoldable pub rebalance_remove : Entry → MemTree → MemTree → List Entry → Option MemTree
rebalance_remove e l r s =
    if left_heavy l r
    then (if leans_left l
        then right_rotate (node_up e l r s)
        else (left_rotate l >>= λ l'. right_rotate (node e l' r s (1 + max (height l) (height r)))))
    else if right_heavy l r
    then (if leans_right r
        then left_rotate (node_up e l r s)
        else (right_rotate r >>= λ r'. left_rotate (node e l r' s (1 + max (height l) (height r)))))
    else some (node_up e l r s)

-- `*node = *child`, then the heights and rotations.
unfoldable pub replace_by_child : MemTree → Option MemTree
replace_by_child leaf = some leaf
replace_by_child (node e l r s h) = rebalance_remove e l r s

-- The key and record of the successor with the transaction of the removed node: the code assigns
-- `key`, `txRec` and `same`, and not `tx`.
abbrev pub take_over : Entry → Entry → Entry
take_over e next = record { key = next.key; tx_rec = next.tx_rec; tx = e.tx }

-- The record of the node is the one to remove, and the node has no chain. `remove_right` is the call
-- that removes a record from the right subtree once the chain of its smallest node is cut.
unfoldable pub remove_node : (MemTree → TxRecord → Result) → Entry → MemTree → MemTree → Result
remove_node remove_right e leaf r = done r >>> replace_by_child
remove_node remove_right e (node le ll lr ls lh) leaf =
    done (node le ll lr ls lh) >>> replace_by_child
remove_node remove_right e (node le ll lr ls lh) (node re rl rr rs rh) =
    let (next, chain) = get_smallest_node re rl rs in
    remove_right (clear_smallest (node re rl rr rs rh)) next.tx_rec >>> λ r'.
    rebalance_remove (take_over e next) (node le ll lr ls lh) r' chain

unfoldable pub remove_head :
    (MemTree → TxRecord → Result) → Entry → MemTree → MemTree → List Entry → Result
remove_head remove_right e l r [] = remove_node remove_right e l r
remove_head remove_right e l r (x ∷ s) = done (node x l r s 1)

-- The branch for a node with the fee of the record. A chained node that moves up has height 1 still.
unfoldable pub remove_here :
    (MemTree → TxRecord → Result) → Entry → MemTree → MemTree → List Entry → ℕ → TxRecord → Result
remove_here remove_right e l r s h txrec =
    if record_equal txrec e.tx_rec
    then remove_head remove_right e l r s
    else elim (remove_from_chain s txrec) [ none ↦ panic | some s' ↦ done (node e l r s' h) ]

-- `txrec.fee < node.key` goes left; the code's test for going right, `node.key > txrec.fee`, is the
-- same test again. The fuel bounds the depth of the calls.
unfoldable pub remove_at_node : ℕ → MemTree → TxRecord → Result
remove_at_node zero t txrec = stuck
remove_at_node (suc fuel) leaf txrec = done leaf
remove_at_node (suc fuel) (node e l r s h) txrec = elim (ltb txrec.fee e.key) [
  | true ↦ remove_at_node fuel l txrec >>> λ l'. rebalance_remove e l' r s
  | false ↦ elim (ltb txrec.fee e.key) [
    | true ↦ remove_at_node fuel r txrec >>> λ r'. rebalance_remove e l r' s
    | false ↦ remove_here (remove_at_node fuel) e l r s h txrec
  ]
]

-- The number of tree nodes: more than the depth of any run of calls.
abbrev pub nodes : MemTree → ℕ
nodes leaf = 0
nodes (node e l r s h) = suc (nodes l + nodes r)

unfoldable pub remove_record : MemTree → TxRecord → Result
remove_record root txrec = remove_at_node (suc (nodes root)) root txrec

-- The loop that sends the chain of a node.
unfoldable pub send_chain : List Entry → ℕ → List Transaction × ℕ
send_chain [] remaining = ([], remaining)
send_chain (x ∷ s) zero = ([], zero)
send_chain (x ∷ s) (suc remaining) =
    let (sent, left) = send_chain s remaining in (x.tx ∷ sent, left)

-- The transactions sent, in order, and what is left of `*remaining` (not negative).
unfoldable pub get_max_elements : MemTree → ℕ → List Transaction × ℕ
get_max_elements leaf remaining = ([], remaining)
get_max_elements (node e l r s h) remaining =
    let (from_right, left1) = get_max_elements r remaining in
    elim left1 [
      | zero ↦ (from_right, zero)
      | suc left2 ↦
          let (from_chain, left3) = send_chain s left2 in
          let (from_left, left4) = get_max_elements l left3 in
          (from_right ++ ((e.tx ∷ from_chain) ++ from_left), left4)
    ]
