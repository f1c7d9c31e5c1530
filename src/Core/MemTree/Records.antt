-- ===== src/Core/MemTree/Records.antt =====
-- The records of the tree, and the removal of one from a list.
use mathlib.Core.List.{map-append}
use plairo.Common.{◌<◌, ◌≡◌, ◌≢◌, refl, sym, ◌∙◌, arith, ==_refl, bytes_eq→eq, bytes_eq_refl}
use plairo.Common.{List, [], ◌∷◌, ◌++◌, map, All, if◌then◌else◌, Bool-cases, inl, inr, true, false}
use plairo.Core.MemTree.{MemTree, leaf, node, Entry, TxRecord, record_equal}
use plairo.Core.MemTree.Order.{entries, AllT}

abbrev pub records_of : List Entry → List TxRecord
records_of xs = map (λ x. x.tx_rec) xs

abbrev pub records : MemTree → List TxRecord
records t = records_of (entries t)

-- The specification of `removeRecord`: the first equal record goes.
abbrev pub erase : TxRecord → List TxRecord → List TxRecord
erase txrec [] = []
erase txrec (x ∷ xs) = if record_equal x txrec then xs else x ∷ erase txrec xs

-- Each record has the fee that its node has for a key.
abbrev pub IsRecorded : MemTree → Type 0
IsRecorded t = AllT (λ x. x.tx_rec.fee ≡ x.key) t

pub record_equal→eq : (a b : TxRecord) → record_equal a b ≡ true → a ≡ b
unfolding record_equal
record_equal→eq a b h = ground (arith, bytes_eq→eq a.txid b.txid)

pub record_equal_refl : (a : TxRecord) → record_equal a a ≡ true
unfolding record_equal
record_equal_refl a = rw (==_refl a.fee, bytes_eq_refl a.txid)

pub record_equal_comm : (a b : TxRecord) → record_equal a b ≡ record_equal b a
record_equal_comm a b = elim (Bool-cases (record_equal a b)) [
  | inl e ↦ elim (Bool-cases (record_equal b a)) [
    | inl e' ↦ e ∙ sym e'
    | inr e' ↦ absurd (clash (rw (record_equal→eq a b e, record_equal_refl b) at e'))
  ]
  | inr e ↦ elim (Bool-cases (record_equal b a)) [
    | inl e' ↦ absurd (clash (rw (record_equal→eq b a e', record_equal_refl a) at e))
    | inr e' ↦ e ∙ sym e'
  ]
]
  where
    clash : true ≡ false → ⊥
    clash p = cc

pub record_ne : (a b : TxRecord) → a.fee ≢ b.fee → record_equal a b ≡ false
unfolding record_equal
record_ne a b h = ground arith

pub erase-skip :
    (txrec : TxRecord) (xs ys : List TxRecord)
    → All (λ x. txrec.fee < x.fee) xs
    → erase txrec (xs ++ ys) ≡ xs ++ erase txrec ys
erase-skip txrec [] ys h = refl
erase-skip txrec (x ∷ xs) ys h =
    rw (record_ne x txrec (λ p. omega arith), erase-skip txrec xs ys h.1) refl

pub erase_here : (txrec : TxRecord) (xs : List TxRecord) → erase txrec (txrec ∷ xs) ≡ xs
erase_here txrec xs = rw (record_equal_refl txrec) refl

-- From the entries of the tree to their records, and back.
pub All-records_of :
    (Q : TxRecord → Type 0) (xs : List Entry) → All (λ x. Q x.tx_rec) xs → All Q (records_of xs)
All-records_of Q [] a = tt
All-records_of Q (x ∷ xs) a = (a.0, All-records_of Q xs a.1)

All-of_records :
    (Q : TxRecord → Type 0) (xs : List Entry) → All Q (records_of xs) → All (λ x. Q x.tx_rec) xs
All-of_records Q [] a = tt
All-of_records Q (x ∷ xs) a = (a.0, All-of_records Q xs a.1)

pub All-split : (P : Entry → Type 0) (xs ys : List Entry) → All P (xs ++ ys) → All P xs × All P ys
All-split P [] ys a = (tt, a)
All-split P (x ∷ xs) ys a = let (b, c) = All-split P xs ys a.1 in ((a.0, b), c)

pub AllT-entries : (P : Entry → Type 0) (t : MemTree) → All P (entries t) → AllT P t
AllT-entries P leaf a = tt
AllT-entries P (node e l r s h) a =
    let (right, rest) = All-split P (entries r) ((e ∷ s) ++ entries l) a in
    let (mid, left) = All-split P (e ∷ s) (entries l) rest in
    (mid.0, mid.1, AllT-entries P l left, AllT-entries P r right)

pub AllT-records :
    (Q : TxRecord → Type 0) (t : MemTree) → All Q (records t) → AllT (λ x. Q x.tx_rec) t
AllT-records Q t a = AllT-entries _ t (All-of_records Q (entries t) a)

pub records-node :
    (e : Entry) (l r : MemTree) (s : List Entry)
    → records_of (entries r ++ ((e ∷ s) ++ entries l))
      ≡ records r ++ ((e.tx_rec ∷ records_of s) ++ records l)
records-node e l r s = simp map-append
