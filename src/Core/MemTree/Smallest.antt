-- ===== src/Core/MemTree/Smallest.antt =====
-- `getSmallestNode`, and the tree whose smallest node has lost its chain.
use native.Mathlib.Nat.{lt_trans}
use plairo.Common.{ℕ, ◌<◌, ◌≡◌, refl, ap, ◌∙◌}
use plairo.Common.{List, [], ◌∷◌, ◌++◌, append_assoc, append-nil, All, All-append}
use plairo.Core.MemTree.{MemTree, leaf, node, Entry, get_smallest_node, clear_smallest}
use plairo.Core.MemTree.Order.{entries, AllT, All-imp, IsSearchTree}
use plairo.Core.MemTree.Insert.{entries-All}

-- The entries above the smallest node, for the fields of a node.
abbrev pub above : Entry → MemTree → MemTree → List Entry → List Entry
above e leaf r s = entries r
above e (node le ll lr ls lh) r s = entries r ++ ((e ∷ s) ++ above le ll lr ls)

abbrev pub smallest : Entry → MemTree → List Entry → Entry
smallest e l s = (get_smallest_node e l s).0

abbrev pub smallest_chain : Entry → MemTree → List Entry → List Entry
smallest_chain e l s = (get_smallest_node e l s).1

pub entries-smallest :
    (e : Entry) (l r : MemTree) (s : List Entry)
    → entries r ++ ((e ∷ s) ++ entries l) ≡ above e l r s ++ (smallest e l s ∷ smallest_chain e l s)
unfolding get_smallest_node
entries-smallest e leaf r s = simp append-nil
entries-smallest e (node le ll lr ls lh) r s =
    ap (λ rest. entries r ++ ((e ∷ s) ++ rest)) (entries-smallest le ll lr ls) ∙ simp append_assoc

pub entries-clear_smallest :
    (e : Entry) (l r : MemTree) (s : List Entry) (h : ℕ)
    → entries (clear_smallest (node e l r s h)) ≡ above e l r s ++ (smallest e l s ∷ [])
unfolding get_smallest_node clear_smallest
entries-clear_smallest e leaf r s h = refl
entries-clear_smallest e (node le ll lr ls lh) r s h =
    ap (λ rest. entries r ++ ((e ∷ s) ++ rest)) (entries-clear_smallest le ll lr ls lh)
    ∙ simp append_assoc

-- A property of all entries holds of the parts, and of the cleared tree.
pub smallest-All :
    (P : Entry → Type 0) (e : Entry) (l r : MemTree) (s : List Entry) (h : ℕ)
    → AllT P (node e l r s h)
    → P (smallest e l s) × All P (smallest_chain e l s) × AllT P (clear_smallest (node e l r s h))
unfolding get_smallest_node clear_smallest
smallest-All P e leaf r s h a = (a.0, a.1, (a.0, tt, tt, a.3))
smallest-All P e (node le ll lr ls lh) r s h a =
    let (p, c, t) = smallest-All P le ll lr ls lh a.2 in (p, c, (a.0, a.1, t, a.3))

-- In a search tree the smallest node is below all that stand above it, and its chain has its key.
pub smallest-order :
    (e : Entry) (l r : MemTree) (s : List Entry) (h : ℕ)
    → IsSearchTree (node e l r s h)
    → All (λ x. (smallest e l s).key < x.key) (above e l r s)
      × All (λ x. x.key ≡ (smallest e l s).key) (smallest_chain e l s)
      × IsSearchTree (clear_smallest (node e l r s h))
unfolding get_smallest_node clear_smallest
smallest-order e leaf r s h o =
    (entries-All (λ x. e.key < x.key) r o.1, o.2, (tt, o.1, tt, tt, o.4))
smallest-order e (node le ll lr ls lh) r s h o =
    let (below, chain, order) = smallest-order le ll lr ls lh o.3 in
    let low = smallest-All (λ x. x.key < e.key) le ll lr ls lh o.0 in
    (
      All-append _ (entries r) ((e ∷ s) ++ above le ll lr ls)
          (All-imp (λ x p. lt_trans low.0 p) (entries r) (entries-All (λ x. e.key < x.key) r o.1))
          (low.0, All-append _ s (above le ll lr ls) (All-imp (λ x p. rw p low.0) s o.2) below),
      chain,
      (low.2, o.1, o.2, order, o.4),
    )
