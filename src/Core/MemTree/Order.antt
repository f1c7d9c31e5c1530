-- ===== src/Core/MemTree/Order.antt =====
-- The contents of the tree from the highest fee down, the search order, and that rotations keep both.
use plairo.Common.{ℕ, ◌<◌, ◌≡◌, refl, sym, ◌∙◌, ltb, inl, inr}
use mathlib.Core.Path.{subst}
use plairo.Common.{unsome, >>=-eq-some, if-cases}
use native.Mathlib.Nat.{lt_trans}
use plairo.Common.{List, [], ◌∷◌, ◌++◌, append_assoc, some, ◌>>=◌, All}
use plairo.Core.MemTree.{
  MemTree, leaf, node, Entry, node_up, right_rotate, left_rotate, root_key, rebalance_insert,
  rebalance_remove, left_heavy, right_heavy, leans_left, leans_right,
}

-- The entries in the order in which `GetMaxTXs` sends them: right, node, chain, left.
abbrev pub entries : MemTree → List Entry
entries leaf = []
entries (node e l r s h) = entries r ++ ((e ∷ s) ++ entries l)

abbrev pub AllT {κ} : (Entry → Type κ) → MemTree → Type κ
AllT P leaf = Unit {κ}
AllT P (node e l r s h) = P e × All P s × AllT P l × AllT P r

-- Keys grow from left to right, and a chain has the key of its node.
abbrev pub IsSearchTree : MemTree → Type 0
IsSearchTree leaf = Unit {0}
IsSearchTree (node e l r s h) =
    AllT (λ x. x.key < e.key) l
    × AllT (λ x. e.key < x.key) r
    × All (λ x. x.key ≡ e.key) s
    × IsSearchTree l
    × IsSearchTree r

pub All-imp {κ μ} :
    {P : Entry → Type κ} {Q : Entry → Type μ}
    → ((x : Entry) → P x → Q x)
    → (s : List Entry) → All P s
    → All Q s
All-imp f [] a = tt
All-imp f (x ∷ s) a = (f x a.0, All-imp f s a.1)

pub AllT-imp {κ μ} :
    {P : Entry → Type κ} {Q : Entry → Type μ}
    → ((x : Entry) → P x → Q x)
    → (t : MemTree) → AllT P t
    → AllT Q t
AllT-imp f leaf a = tt
AllT-imp f (node e l r s h) a = (f e a.0, All-imp f s a.1, AllT-imp f l a.2, AllT-imp f r a.3)

pub All-zip :
    {P Q R : Entry → Type 0}
    → ((x : Entry) → P x → Q x → R x)
    → (s : List Entry) → All P s
    → All Q s
    → All R s
All-zip f [] a b = tt
All-zip f (x ∷ s) a b = (f x a.0 b.0, All-zip f s a.1 b.1)

pub AllT-zip :
    {P Q R : Entry → Type 0}
    → ((x : Entry) → P x → Q x → R x)
    → (t : MemTree) → AllT P t
    → AllT Q t
    → AllT R t
AllT-zip f leaf a b = tt
AllT-zip f (node e l r s h) a b =
    (f e a.0 b.0, All-zip f s a.1 b.1, AllT-zip f l a.2 b.2, AllT-zip f r a.3 b.3)

-- `t'` is `t` with its nodes moved: the same contents in the same order.
pub record Rearranges (t t' : MemTree) : Type 1 where
  pub same_entries : entries t' ≡ entries t
  pub keeps_all : (P : Entry → Type 0) → AllT P t → AllT P t'
  pub keeps_order : IsSearchTree t → IsSearchTree t'

pub Rearranges-trans : {t u v : MemTree} → Rearranges t u → Rearranges u v → Rearranges t v
Rearranges-trans p q = record {
  same_entries = q.same_entries ∙ p.same_entries;
  keeps_all = λ P a. q.keeps_all P (p.keeps_all P a);
  keeps_order = λ o. q.keeps_order (p.keeps_order o);
}

right_rotate_order :
    (e xe : Entry) (xl xr r : MemTree) (xs s : List Entry) (h xh : ℕ)
    → IsSearchTree (node e (node xe xl xr xs xh) r s h)
    → IsSearchTree (node_up xe xl (node_up e xr r s) xs)
right_rotate_order e xe xl xr r xs s h xh
      (lower, upper, chain, (xlower, xupper, xchain, xo, xo'), o') =
    (
      xlower,
      (
        lower.0,
        All-imp (λ x p. subst (λ k. xe.key < k) (sym p) lower.0) s chain,
        xupper,
        AllT-imp (λ x p. lt_trans lower.0 p) r upper,
      ),
      xchain,
      xo,
      (lower.3, upper, chain, xo', o'),
    )

left_rotate_order :
    (e ye : Entry) (l yl yr : MemTree) (ys s : List Entry) (h yh : ℕ)
    → IsSearchTree (node e l (node ye yl yr ys yh) s h)
    → IsSearchTree (node_up ye (node_up e l yl s) yr ys)
left_rotate_order e ye l yl yr ys s h yh
      (lower, upper, chain, o, (ylower, yupper, ychain, yo, yo')) =
    (
      (
        upper.0,
        All-imp (λ x p. subst (λ k. k < ye.key) (sym p) upper.0) s chain,
        AllT-imp (λ x p. lt_trans p upper.0) l lower,
        ylower,
      ),
      yupper,
      ychain,
      (lower, upper.2, chain, o, yo),
      yo',
    )

pub right_rotate-Rearranges : (t t' : MemTree) → right_rotate t ≡ some t' → Rearranges t t'
unfolding right_rotate
right_rotate-Rearranges leaf t' p = cc
right_rotate-Rearranges (node e leaf r s h) t' p = cc
right_rotate-Rearranges (node e (node xe xl xr xs xh) r s h) t' p =
    subst (Rearranges (node e (node xe xl xr xs xh) r s h)) (unsome p) (record {
      same_entries = simp append_assoc;
      keeps_all = λ P a. (a.2.0, a.2.1, a.2.2, (a.0, a.1, a.2.3, a.3));
      keeps_order = right_rotate_order e xe xl xr r xs s h xh;
    })

pub left_rotate-Rearranges : (t t' : MemTree) → left_rotate t ≡ some t' → Rearranges t t'
unfolding left_rotate
left_rotate-Rearranges leaf t' p = cc
left_rotate-Rearranges (node e l leaf s h) t' p = cc
left_rotate-Rearranges (node e l (node ye yl yr ys yh) s h) t' p =
    subst (Rearranges (node e l (node ye yl yr ys yh) s h)) (unsome p) (record {
      same_entries = simp append_assoc;
      keeps_all = λ P a. (a.3.0, a.3.1, (a.0, a.1, a.2, a.3.2), a.3.3);
      keeps_order = left_rotate_order e ye l yl yr ys s h yh;
    })

reheight :
    (e : Entry) (l r : MemTree) (s : List Entry) (h h' : ℕ)
    → Rearranges (node e l r s h) (node e l r s h')
reheight e l r s h h' = record { same_entries = refl; keeps_all = λ P a. a; keeps_order = λ o. o }

-- Replacing a child by a rearranged one, whatever the heights.
pub Rearranges-left :
    {l l' : MemTree} (e : Entry) (r : MemTree) (s : List Entry) (h h' : ℕ)
    → Rearranges l l'
    → Rearranges (node e l r s h) (node e l' r s h')
Rearranges-left e r s h h' q = record {
  same_entries = rw q.same_entries refl;
  keeps_all = λ P a. (a.0, a.1, q.keeps_all P a.2, a.3);
  keeps_order = λ (lower, upper, chain, o, o').
      (q.keeps_all (λ x. x.key < e.key) lower, upper, chain, q.keeps_order o, o');
}

pub Rearranges-right :
    {r r' : MemTree} (e : Entry) (l : MemTree) (s : List Entry) (h h' : ℕ)
    → Rearranges r r'
    → Rearranges (node e l r s h) (node e l r' s h')
Rearranges-right e l s h h' q = record {
  same_entries = rw q.same_entries refl;
  keeps_all = λ P a. (a.0, a.1, a.2, q.keeps_all P a.3);
  keeps_order = λ (lower, upper, chain, o, o').
      (lower, q.keeps_all (λ x. e.key < x.key) upper, chain, o, q.keeps_order o');
}

module _ (e : Entry) (l r : MemTree) (s : List Entry) (h : ℕ) {t' : MemTree} where
  rotate_right_up : right_rotate (node_up e l r s) ≡ some t' → Rearranges (node e l r s h) t'
  rotate_right_up p =
      Rearranges-trans (reheight e l r s h _) (right_rotate-Rearranges (node_up e l r s) t' p)

  rotate_left_up : left_rotate (node_up e l r s) ≡ some t' → Rearranges (node e l r s h) t'
  rotate_left_up p =
      Rearranges-trans (reheight e l r s h _) (left_rotate-Rearranges (node_up e l r s) t' p)

  rotate_left_right :
      (k : ℕ)
      → (left_rotate l >>= λ l'. right_rotate (node e l' r s k)) ≡ some t'
      → Rearranges (node e l r s h) t'
  rotate_left_right k p =
      let (l', pl, pr) = >>=-eq-some (left_rotate l) (λ l'. right_rotate (node e l' r s k)) p in
      Rearranges-trans (Rearranges-left e r s h k (left_rotate-Rearranges l l' pl))
        (right_rotate-Rearranges (node e l' r s k) t' pr)

  rotate_right_left :
      (k : ℕ)
      → (right_rotate r >>= λ r'. left_rotate (node e l r' s k)) ≡ some t'
      → Rearranges (node e l r s h) t'
  rotate_right_left k p =
      let (r', pr, pl) = >>=-eq-some (right_rotate r) (λ r'. left_rotate (node e l r' s k)) p in
      Rearranges-trans (Rearranges-right e l s h k (right_rotate-Rearranges r r' pr))
        (left_rotate-Rearranges (node e l r' s k) t' pl)

  height_only : some (node_up e l r s) ≡ some t' → Rearranges (node e l r s h) t'
  height_only p = subst (Rearranges (node e l r s h)) (unsome p) (reheight e l r s h _)

  -- Rebalancing, behind an insertion and behind a removal.
  pub rebalance_remove-Rearranges :
      rebalance_remove e l r s ≡ some t' → Rearranges (node e l r s h) t'
  unfolding rebalance_remove
  rebalance_remove-Rearranges p = elim (if-cases (left_heavy l r) _ _ p) [
    | inl (_, q) ↦ elim (if-cases (leans_left l) _ _ q) [
      | inl (_, q') ↦ rotate_right_up q'
      | inr (_, q') ↦ rotate_left_right _ q'
    ]
    | inr (_, q) ↦ elim (if-cases (right_heavy l r) _ _ q) [
      | inl (_, q') ↦ elim (if-cases (leans_right r) _ _ q') [
        | inl (_, q'') ↦ rotate_left_up q''
        | inr (_, q'') ↦ rotate_right_left _ q''
      ]
      | inr (_, q') ↦ height_only q'
    ]
  ]

  pub rebalance_insert-Rearranges :
      (new_key : ℕ) → rebalance_insert new_key e l r s ≡ some t' → Rearranges (node e l r s h) t'
  unfolding rebalance_insert
  rebalance_insert-Rearranges new_key p = elim (if-cases (left_heavy l r) _ _ p) [
    | inl (_, q) ↦
        let (k, _, q') = >>=-eq-some (root_key l) _ q in
        elim (if-cases (ltb new_key k) _ _ q') [
          | inl (_, q'') ↦ rotate_right_up q''
          | inr (_, q'') ↦ rotate_left_right _ q''
        ]
    | inr (_, q) ↦ elim (if-cases (right_heavy l r) _ _ q) [
      | inl (_, q') ↦
          let (k, _, q'') = >>=-eq-some (root_key r) _ q' in
          elim (if-cases (ltb k new_key) _ _ q'') [
            | inl (_, q3) ↦ rotate_right_left _ q3
            | inr (_, q3) ↦ rotate_left_up q3
          ]
      | inr (_, q') ↦ height_only q'
    ]
  ]
