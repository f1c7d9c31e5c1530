-- ===== src/Core/MemTree/Remove.antt =====
-- `removeRecord` against the removal of the record from the list of records.
use mathlib.Core.Path.{subst}
use native.Mathlib.Nat.{le_of_eq}
use plairo.Common.{ℕ, ◌<◌, ◌≤◌, ◌≡◌, refl, sym, ap, ◌∙◌, arith}
use plairo.Common.{List, [], ◌∷◌, ◌++◌, Option, none, some, All}
use plairo.Common.{unsome, map-eq-some, Bool-cases, inl, inr, true, false}
use plairo.Core.MemTree.{
  MemTree, node, Entry, TxRecord, record_equal, Result, done, panic, stuck, ◌>>>◌,
  remove_from_chain,
}
use plairo.Core.MemTree.Order.{entries, AllT, All-imp, All-zip, AllT-zip, IsSearchTree, Rearranges}
use plairo.Core.MemTree.Insert.{entries-All}
use plairo.Core.MemTree.Records.{
  records, records_of, erase, IsRecorded, record_equal→eq, record_equal_comm, erase-skip,
  record_equal_refl, All-records_of, records-node,
}

-- A property of keys and records, which a removal moves together.
abbrev pub Holds : (ℕ → TxRecord → Type 0) → Entry → Type 0
Holds P x = P x.key x.tx_rec

-- What the removal of `txrec` from `t` guarantees of its result.
pub record Removes (txrec : TxRecord) (t t' : MemTree) : Type 1 where
  pub takes : records t' ≡ erase txrec (records t)
  pub keeps_all : (P : ℕ → TxRecord → Type 0) → AllT (Holds P) t → AllT (Holds P) t'
  pub keeps_order : IsSearchTree t'

pub Removes-Rearranges :
    {txrec : TxRecord} {t u v : MemTree} → Removes txrec t u → Rearranges u v → Removes txrec t v
Removes-Rearranges i q = record {
  takes = ap records_of q.same_entries ∙ i.takes;
  keeps_all = λ P a. q.keeps_all (Holds P) (i.keeps_all P a);
  keeps_order = q.keeps_order i.keeps_order;
}

-- Inversion of a removal that ended.
pub >>>-eq-done :
    (m : Result) (f : MemTree → Option MemTree) {t : MemTree}
    → (m >>> f) ≡ done t
    → (u : MemTree) × (m ≡ done u) × (f u ≡ some t)
>>>-eq-done (done u) f {t} p = go (f u) refl p
  where
    go :
        (o : Option MemTree)
        → f u ≡ o
        → (elim o [ none ↦ panic | some t' ↦ done t' ]) ≡ done t
        → (v : MemTree) × (done u ≡ done v) × (f v ≡ some t)
    go none e q = absurd (cc)
    go (some t') e q = (u, refl, e ∙ ap some (cc))
>>>-eq-done panic f p = absurd (cc)
>>>-eq-done stuck f p = absurd (cc)

-- What the walk along a chain guarantees of the chain that is left.
pub record TakesFirst (txrec : TxRecord) (s s' : List Entry) : Type 1 where
  pub erased : records_of s' ≡ erase txrec (records_of s)
  pub before :
      (ys : List TxRecord) → erase txrec (records_of s ++ ys) ≡ erase txrec (records_of s) ++ ys
  pub keeps : (P : Entry → Type 0) → All P s → All P s'
  pub found : (Q : TxRecord → Type 0) → All (λ x. Q x.tx_rec) s → Q txrec

TakesFirst-head :
    (txrec : TxRecord) (x : Entry) (s : List Entry)
    → record_equal x.tx_rec txrec ≡ true
    → TakesFirst txrec (x ∷ s) s
TakesFirst-head txrec x s eq = record {
  erased = rw eq refl;
  before = λ ys. rw eq refl;
  keeps = λ P a. a.1;
  found = λ Q a. subst Q (record_equal→eq x.tx_rec txrec eq) a.0;
}

TakesFirst-tail :
    (txrec : TxRecord) (x : Entry) (s t : List Entry)
    → record_equal x.tx_rec txrec ≡ false
    → TakesFirst txrec s t
    → TakesFirst txrec (x ∷ s) (x ∷ t)
TakesFirst-tail txrec x s t ne i = record {
  erased = rw ne (ap (λ ys. x.tx_rec ∷ ys) i.erased);
  before = λ ys. rw ne (ap (λ zs. x.tx_rec ∷ zs) (i.before ys));
  keeps = λ P a. (a.0, i.keeps P a.1);
  found = λ Q a. i.found Q a.1;
}

pub remove_from_chain-TakesFirst :
    (txrec : TxRecord) (s s' : List Entry)
    → remove_from_chain s txrec ≡ some s'
    → TakesFirst txrec s s'
unfolding remove_from_chain
remove_from_chain-TakesFirst txrec [] s' p = absurd (cc)
remove_from_chain-TakesFirst txrec (x ∷ s) s' p = elim (Bool-cases (record_equal x.tx_rec txrec)) [
  | inl eq ↦ subst (TakesFirst txrec (x ∷ s)) (unsome (rw eq at p)) (TakesFirst-head txrec x s eq)
  | inr ne ↦
      let (t, e, q) = map-eq-some (λ t. x ∷ t) (remove_from_chain s txrec) (rw ne at p) in
      subst (TakesFirst txrec (x ∷ s)) q
        (TakesFirst-tail txrec x s t ne (remove_from_chain-TakesFirst txrec s t e))
]

-- The result of a removal as a list of records: what stands right of the node stays.
module _ (e : Entry) (l r : MemTree) (s : List Entry) (h : ℕ) (o : IsSearchTree (node e l r s h))
    (rec : IsRecorded (node e l r s h)) (txrec : TxRecord) where
  -- The records right of a node with at least the record's fee are skipped.
  pub skip_right :
      txrec.fee ≤ e.key
      → (ys : List TxRecord) → erase txrec (records r ++ ys) ≡ records r ++ erase txrec ys
  skip_right p ys = erase-skip txrec (records r) ys (
      All-records_of (λ x. txrec.fee < x.fee) (entries r)
        (entries-All (λ x. txrec.fee < x.tx_rec.fee) r
          (AllT-zip (λ x a b. omega arith) r o.1 rec.3)))

  -- The record lies in the left subtree, by its fee.
  pub left-Removes :
      (l' : MemTree)
      → txrec.fee < e.key
      → Removes txrec l l'
      → Removes txrec (node e l r s h) (node e l' r s h)
  left-Removes l' p i = record {
    takes =
        records-node e l' r s
        ∙ ap (λ ys. records r ++ ((e.tx_rec ∷ records_of s) ++ ys)) i.takes
        ∙ sym (
            ap (erase txrec) (records-node e l r s)
            ∙ skip_right (omega arith) _
            ∙ ap (λ ys. records r ++ ys)
                (erase-skip txrec (e.tx_rec ∷ records_of s) (records l) (
                  omega (arith, rec.0),
                  All-records_of (λ x. txrec.fee < x.fee) s
                      (All-zip (λ x a b. omega arith) s o.2 rec.1),
                )));
    keeps_all = λ P a. (a.0, a.1, i.keeps_all P a.2, a.3);
    keeps_order = (i.keeps_all (λ k _. k < e.key) o.0, o.1, o.2, i.keeps_order, o.4);
  }

  -- The record is that of the node: what is left is the right side, the chain and the left side.
  pub erase_node :
      txrec ≡ e.tx_rec
      → erase txrec (records (node e l r s h)) ≡ records r ++ (records_of s ++ records l)
  erase_node p =
      ap (erase txrec) (records-node e l r s)
      ∙ skip_right (omega (arith, rec.0, ap (λ (x : TxRecord). x.fee) p)) _
      ∙ ap (λ ys. records r ++ ys) (rw (p, record_equal_refl e.tx_rec) refl)

  -- The record is further down the chain.

  -- The record is further down the chain.
  pub chain-Removes :
      (s' : List Entry)
      → record_equal txrec e.tx_rec ≡ false
      → TakesFirst txrec s s'
      → Removes txrec (node e l r s h) (node e l r s' h)
  chain-Removes s' ne i = record {
    takes =
        records-node e l r s'
        ∙ ap (λ ys. records r ++ (e.tx_rec ∷ ys))
            (ap (λ zs. zs ++ records l) i.erased ∙ sym (i.before (records l)))
        ∙ sym (
            ap (erase txrec) (records-node e l r s)
            ∙ skip_right (le_of_eq fee_of_found) _
            ∙ ap (λ ys. records r ++ ys) (rw (record_equal_comm e.tx_rec txrec, ne) refl));
    keeps_all = λ P a. (a.0, i.keeps (Holds P) a.1, a.2, a.3);
    keeps_order = (o.0, o.1, i.keeps (λ x. x.key ≡ e.key) o.2, o.3, o.4);
  }
    where
      fee_of_found : txrec.fee ≡ e.key
      fee_of_found = i.found (λ x. x.fee ≡ e.key) (All-zip (λ x a b. a ∙ b) s rec.1 o.2)

  -- A chained entry moves up.
  pub next-Removes :
      (x : Entry) (s' : List Entry) (k : ℕ)
      → s ≡ x ∷ s'
      → txrec ≡ e.tx_rec
      → Removes txrec (node e l r s h) (node x l r s' k)
  next-Removes x s' k q p = record {
    takes = records-node x l r s' ∙ sym (erase_node p ∙ rw q refl);
    keeps_all = λ P a. let c = subst (All (Holds P)) q a.1 in (c.0, c.1, a.2, a.3);
    keeps_order =
        let c = subst (All (λ y. y.key ≡ e.key)) q o.2 in
        (rw c.0 o.0, rw c.0 o.1, All-imp (λ y a. a ∙ sym c.0) s' c.1, o.3, o.4);
  }
