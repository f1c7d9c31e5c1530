-- ===== src/Core/MemTree/Max.antt =====
-- `GetMaxTXs`: the transactions sent are the first entries, from the highest fee down.
use mathlib.Core.List.{map-append}
use native.Mathlib.Nat.{sub-zero, zero-sub, suc-sub-suc}
use plairo.Common.{ℕ, zero, suc, ◌-◌, ◌≤◌, ◌≡◌, refl, sym, ap, ◌∙◌, arith}
use plairo.Common.{
  List, [], ◌∷◌, ◌++◌, map, length, take, length-append, append-nil, All, All-append, ◌<◌,
}
use plairo.Core.Transaction.{Transaction}
use plairo.Core.MemTree.{MemTree, leaf, node, Entry, send_chain, get_max_elements}
use plairo.Core.MemTree.Order.{entries, All-imp, IsSearchTree}
use plairo.Core.MemTree.Insert.{IsFalling, entries-All}

abbrev pub txs_of : List Entry → List Transaction
txs_of xs = map (λ x. x.tx) xs

-- Sending the first `n` of a list, with what is left of `n`.
abbrev sends : List Transaction → ℕ → List Transaction × ℕ
sends xs n = (take n xs, n - length xs)

IsFalling-append :
    (xs ys : List Entry)
    → IsFalling xs
    → IsFalling ys
    → All (λ x. All (λ y. y.key ≤ x.key) ys) xs
    → IsFalling (xs ++ ys)
IsFalling-append [] ys f g h = g
IsFalling-append (x ∷ xs) ys f g h =
    (All-append (λ y. y.key ≤ x.key) xs ys f.0 h.0, IsFalling-append xs ys f.1 g h.1)

take-append :
    (xs ys : List Transaction) (n : ℕ) → take n (xs ++ ys) ≡ take n xs ++ take (n - length xs) ys
take-append [] ys zero = refl
take-append [] ys (suc n) = rw sub-zero refl
take-append (x ∷ xs) ys zero = rw zero-sub refl
take-append (x ∷ xs) ys (suc n) = rw suc-sub-suc (ap (λ zs. x ∷ zs) (take-append xs ys n))

pair_eq :
    {a b : List Transaction} {n m : ℕ}
    → a ≡ b
    → n ≡ m
    → ◌≡◌ {A = List Transaction × ℕ} (a, n) (b, m)
pair_eq p q = cc

send_chain-sends : (s : List Entry) (n : ℕ) → send_chain s n ≡ sends (txs_of s) n
unfolding send_chain
send_chain-sends [] zero = refl
send_chain-sends [] (suc n) = pair_eq refl (omega arith)
send_chain-sends (x ∷ s) zero = pair_eq refl (omega arith)
send_chain-sends (x ∷ s) (suc n) = rw (send_chain-sends s n) (pair_eq refl (omega arith))

module _ (e : Entry) (l r : MemTree) (s : List Entry) (h : ℕ)
    (ih_l : (n : ℕ) → get_max_elements l n ≡ sends (txs_of (entries l)) n)
    (ih_r : (n : ℕ) → get_max_elements r n ≡ sends (txs_of (entries r)) n) where
  -- What follows the right subtree, with `m` transactions still to send.
  abbrev rest_after : List Transaction
  rest_after = (e.tx ∷ txs_of s) ++ txs_of (entries l)

  get_max_node :
      (n m : ℕ)
      → n - length (txs_of (entries r)) ≡ m
      → get_max_elements (node e l r s h) n
        ≡ (take n (txs_of (entries r)) ++ take m rest_after, m - length rest_after)
  unfolding get_max_elements
  get_max_node n zero p =
      rw (ih_r n, p, ih_r n)
        (pair_eq (sym (append-nil (take n (txs_of (entries r))))) (omega arith))
  get_max_node n (suc m) p =
      rw (ih_r n, p, send_chain-sends s m, ih_l (m - length (txs_of s)), ih_r n)
        (pair_eq
          (ap (λ zs. take n (txs_of (entries r)) ++ (e.tx ∷ zs))
            (sym (take-append (txs_of s) (txs_of (entries l)) m)))
          (omega (arith, length-append (txs_of s) (txs_of (entries l)))))

get_max_elements-sends : (t : MemTree) (n : ℕ) → get_max_elements t n ≡ sends (txs_of (entries t)) n
unfolding get_max_elements
get_max_elements-sends leaf zero = refl
get_max_elements-sends leaf (suc n) = pair_eq refl (omega arith)
get_max_elements-sends (node e l r s h) n =
    let right = txs_of (entries r) in
    let rest = (e.tx ∷ txs_of s) ++ txs_of (entries l) in
    get_max_node e l r s h (get_max_elements-sends l) (get_max_elements-sends r) n _ refl
    ∙ pair_eq (sym (take-append right rest n) ∙ ap (take n) (sym (in_order e l r s)))
        (omega (arith, length-append right rest, ap length (in_order e l r s)))
  where
    in_order :
        (e : Entry) (l r : MemTree) (s : List Entry)
        → txs_of (entries r ++ ((e ∷ s) ++ entries l))
          ≡ txs_of (entries r) ++ ((e.tx ∷ txs_of s) ++ txs_of (entries l))
    in_order e l r s = simp map-append

-- In a search tree no entry has a higher key than one that is sent before it.
pub entries-IsFalling : (t : MemTree) → IsSearchTree t → IsFalling (entries t)
entries-IsFalling leaf o = tt
entries-IsFalling (node e l r s h) o =
    IsFalling-append (entries r) ((e ∷ s) ++ entries l) (entries-IsFalling r o.4)
      (IsFalling-append (e ∷ s) (entries l) chain_falls (entries-IsFalling l o.3)
        (below e.key (omega arith), All-imp (λ x p. below x.key (omega arith)) s o.2))
      (All-imp
        (λ x p. (
          omega arith,
          All-append (λ y. y.key ≤ x.key) s (entries l) (All-imp (λ y q. omega arith) s o.2)
              (below x.key (omega arith)),
        ))
        (entries r) (entries-All (λ x. e.key < x.key) r o.1))
  where
    below : (k : ℕ) → e.key ≤ k → All (λ y. y.key ≤ k) (entries l)
    below k p = All-imp (λ y q. omega arith) (entries l) (entries-All (λ x. x.key < e.key) l o.0)

    level : (k : ℕ) (xs : List Entry) → All (λ x. x.key ≡ k) xs → IsFalling xs
    level k [] a = tt
    level k (x ∷ xs) a = (All-imp (λ y q. omega (arith, a.0)) xs a.1, level k xs a.1)

    chain_falls : IsFalling (e ∷ s)
    chain_falls = (All-imp (λ y q. omega arith) s o.2, level e.key s o.2)

-- `GetMaxTXs` on a search tree sends the transactions of the entries in an order in which keys never
-- rise: the first `n` of them, or all if there are fewer, and the count left over is `n` less these.
-- A key need not be the fee of the transaction sent: a removal can leave another one under it.
pub get_max_elements-IsFalling :
    (t : MemTree) (n : ℕ)
    → IsSearchTree t
    → (get_max_elements t n ≡ (take n (txs_of (entries t)), n - length (txs_of (entries t))))
      × IsFalling (entries t)
get_max_elements-IsFalling t n o = (get_max_elements-sends t n, entries-IsFalling t o)
