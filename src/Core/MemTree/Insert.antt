-- ===== src/Core/MemTree/Insert.antt =====
-- `insert` against the insertion into a list that falls by key, newcomers behind their equals.
use mathlib.Core.Path.{subst}
use native.Mathlib.Nat.{le_trans}
use plairo.Common.{ℕ, ◌<◌, ◌≤◌, ◌≡◌, refl, sym, ap, ◌∙◌, arith, ltb, ltb→lt, ◌==◌, ==_iff}
use plairo.Common.{List, [], ◌∷◌, ◌++◌, append_assoc, some, All, All-append}
use plairo.Common.{unsome, >>=-eq-some, if◌then◌else◌, Bool-cases, inl, inr, true}
use plairo.Core.Transaction.{Transaction}
use plairo.Core.MemTree.{MemTree, leaf, node, Entry, insert_at_node, insert, create_mem_tree_node}
use plairo.Core.MemTree.Order.{
  entries, AllT, All-imp, IsSearchTree, Rearranges, rebalance_insert-Rearranges,
}

-- The specification of `insert`.
abbrev pub insert_desc : Entry → List Entry → List Entry
insert_desc new [] = new ∷ []
insert_desc new (x ∷ xs) = if ltb x.key new.key then new ∷ x ∷ xs else x ∷ insert_desc new xs

-- The specification's order: no key is above one before it.
abbrev pub IsFalling : List Entry → Type 0
IsFalling [] = Unit {0}
IsFalling (x ∷ xs) = All (λ y. y.key ≤ x.key) xs × IsFalling xs

insert_desc-keep :
    (new : Entry) (xs ys : List Entry)
    → All (λ x. new.key ≤ x.key) xs
    → insert_desc new (xs ++ ys) ≡ xs ++ insert_desc new ys
insert_desc-keep new [] ys h = refl
insert_desc-keep new (x ∷ xs) ys h = ground (arith, insert_desc-keep new xs ys h.1)

insert_desc-before :
    (new : Entry) (xs ys : List Entry)
    → All (λ x. x.key < new.key) ys
    → insert_desc new (xs ++ ys) ≡ insert_desc new xs ++ ys
insert_desc-before new [] [] h = refl
insert_desc-before new [] (y ∷ ys) h = ground arith
insert_desc-before new (x ∷ xs) ys h = ground (arith, insert_desc-before new xs ys h)

pub entries-All {κ} : (P : Entry → Type κ) (t : MemTree) → AllT P t → All P (entries t)
entries-All P leaf a = tt
entries-All P (node e l r s h) a =
    All-append P (entries r) ((e ∷ s) ++ entries l) (entries-All P r a.3)
      (All-append P (e ∷ s) (entries l) (a.0, a.1) (entries-All P l a.2))

-- What an insertion into `t` guarantees of its result.
pub record Inserts (new : Entry) (t t' : MemTree) : Type 1 where
  pub adds : entries t' ≡ insert_desc new (entries t)
  pub adds_all : (P : Entry → Type 0) → P new → AllT P t → AllT P t'
  pub keeps_order : IsSearchTree t'

module _ (new e : Entry) (l r : MemTree) (s : List Entry) (h : ℕ)
    (o : IsSearchTree (node e l r s h)) where
  here-Inserts : new.key ≡ e.key → Inserts new (node e l r s h) (node e l r (s ++ (new ∷ [])) h)
  here-Inserts k = record {
    adds = sym (
        insert_desc-keep new (entries r) ((e ∷ s) ++ entries l)
          (All-imp (λ x p. omega arith) (entries r) (entries-All (λ x. e.key < x.key) r o.1))
        ∙ ap (λ rest. entries r ++ rest)
            (insert_desc-keep new (e ∷ s) (entries l)
                (omega arith, All-imp (λ x p. omega arith) s o.2)
              ∙ ap (λ rest. (e ∷ s) ++ rest)
                  (insert_desc-before new [] (entries l) (
                    All-imp (λ x p. omega arith) (entries l)
                      (entries-All (λ x. x.key < e.key) l o.0)))
              ∙ sym (append_assoc (e ∷ s) (new ∷ []) (entries l))));
    adds_all = λ P n a. (a.0, All-append P s (new ∷ []) a.1 (n, tt), a.2, a.3);
    keeps_order = (o.0, o.1, All-append (λ x. x.key ≡ e.key) s (new ∷ []) o.2 (k, tt), o.3, o.4);
  }

  left-Inserts :
      (l' : MemTree)
      → new.key < e.key
      → Inserts new l l'
      → Inserts new (node e l r s h) (node e l' r s h)
  left-Inserts l' k i = record {
    adds = rw i.adds (
        sym (
          insert_desc-keep new (entries r) ((e ∷ s) ++ entries l)
            (All-imp (λ x p. omega arith) (entries r) (entries-All (λ x. e.key < x.key) r o.1))
          ∙ ap (λ rest. entries r ++ rest)
              (insert_desc-keep new (e ∷ s) (entries l)
                (omega arith, All-imp (λ x p. omega arith) s o.2))));
    adds_all = λ P n a. (a.0, a.1, i.adds_all P n a.2, a.3);
    keeps_order = (i.adds_all (λ x. x.key < e.key) k o.0, o.1, o.2, i.keeps_order, o.4);
  }

  right-Inserts :
      (r' : MemTree)
      → e.key < new.key
      → Inserts new r r'
      → Inserts new (node e l r s h) (node e l r' s h)
  right-Inserts r' k i = record {
    adds = rw i.adds (
        sym (
          insert_desc-before new (entries r) ((e ∷ s) ++ entries l) (
            All-append (λ x. x.key < new.key) (e ∷ s) (entries l)
              (k, All-imp (λ x p. omega arith) s o.2)
              (All-imp (λ x p. omega arith) (entries l)
                (entries-All (λ x. x.key < e.key) l o.0)))));
    adds_all = λ P n a. (a.0, a.1, a.2, i.adds_all P n a.3);
    keeps_order = (o.0, i.adds_all (λ x. e.key < x.key) k o.1, o.2, o.3, i.keeps_order);
  }

Inserts-Rearranges :
    {new : Entry} {t u v : MemTree} → Inserts new t u → Rearranges u v → Inserts new t v
Inserts-Rearranges i q = record {
  adds = q.same_entries ∙ i.adds;
  adds_all = λ P n a. q.keeps_all P (i.adds_all P n a);
  keeps_order = q.keeps_order i.keeps_order;
}

insert_at_node-Inserts :
    (t : MemTree) (new : Entry) (t' : MemTree)
    → IsSearchTree t
    → insert_at_node t new ≡ some t'
    → Inserts new t t'
unfolding insert_at_node
insert_at_node-Inserts leaf new t' o p = subst (Inserts new leaf) (unsome p) (record {
  adds = refl;
  adds_all = λ P n a. (n, tt, tt, tt);
  keeps_order = (tt, tt, tt, tt, tt);
})
insert_at_node-Inserts (node e l r s h) new t' o p = elim (Bool-cases (new.key == e.key)) [
  | inl eq ↦
      subst (Inserts new (node e l r s h)) (unsome (rw (eq, insert_at_node) at p))
        (here-Inserts new e l r s h o ((==_iff _ _).0 eq))
  | inr ne ↦ elim (Bool-cases (ltb new.key e.key)) [
    | inl lt ↦
        let (l', pl, pr) =
          >>=-eq-some (insert_at_node l new) _ (rw (ne, lt, insert_at_node) at p) in
        Inserts-Rearranges
          (left-Inserts new e l r s h o l' (ltb→lt _ _ lt) (insert_at_node-Inserts l new l' o.3 pl))
          (rebalance_insert-Rearranges e l' r s h new.key pr)
    | inr ge ↦
        let (r', pl, pr) =
          >>=-eq-some (insert_at_node r new) _ (rw (ne, ge, insert_at_node) at p) in
        Inserts-Rearranges
          (right-Inserts new e l r s h o r' (ground arith) (insert_at_node-Inserts r new r' o.4 pl))
          (rebalance_insert-Rearranges e l r' s h new.key pr)
  ]
]

-- The specification keeps a falling list falling.
insert_desc-All :
    (P : Entry → Type 0) (new : Entry) (xs : List Entry)
    → P new
    → All P xs
    → All P (insert_desc new xs)
insert_desc-All P new [] n a = (n, tt)
insert_desc-All P new (x ∷ xs) n a = ground (arith, insert_desc-All P new xs n a.1)

insert_desc-IsFalling :
    (new : Entry) (xs : List Entry) → IsFalling xs → IsFalling (insert_desc new xs)
insert_desc-IsFalling new [] f = (tt, tt)
insert_desc-IsFalling new (x ∷ xs) f = elim (Bool-cases (ltb x.key new.key)) [
  | inl lt ↦ rw lt ((lt_le lt, All-imp (λ y p. le_trans p (lt_le lt)) xs f.0), f)
  | inr ge ↦ rw ge (
    insert_desc-All (λ y. y.key ≤ x.key) new xs (ground arith) f.0,
    insert_desc-IsFalling new xs f.1,
  )
]
  where
    lt_le : ltb x.key new.key ≡ true → x.key ≤ new.key
    lt_le p = omega (arith, ltb→lt x.key new.key p)

-- If inserting a transaction into a search tree does not panic, then the tree that results is a
-- search tree, and in the order in which transactions are sent its entries are those before with
-- the new one behind all entries of the same or a higher fee.
pub insert-insert_desc :
    (t t' : MemTree) (tx : Transaction)
    → IsSearchTree t
    → insert t tx ≡ some t'
    → IsSearchTree t'
      × (entries t' ≡ insert_desc (create_mem_tree_node tx) (entries t))
      × (IsFalling (entries t) → IsFalling (entries t'))
unfolding insert
insert-insert_desc t t' tx o p =
    let i = insert_at_node-Inserts t (create_mem_tree_node tx) t' o p in
    (i.keeps_order, i.adds, λ f. rw i.adds (insert_desc-IsFalling _ (entries t) f))
