-- ===== src/Utils/Target.antt =====
-- `ExpandBits` of utils/target.go, and `bytes.Compare` as the mining test uses it.
use plairo.Common.{ℕ, ◌-◌, leb, ltb, ◌==◌, Bool, true, false, if◌then◌else◌}
use plairo.Common.{List, [], ◌∷◌, ◌++◌, replicate, Option, none, some}

-- `copy(dst, src)`: the shorter of the two lengths is copied.
unfoldable pub copy : List ℕ → List ℕ → List ℕ
copy [] src = []
copy (d ∷ dst) [] = d ∷ dst
copy (d ∷ dst) (s ∷ src) = s ∷ copy dst src

-- `res[32-exp:]` panics for an exponent above 32, `bits[0]` on no bytes.
unfoldable pub expand_bits : List ℕ → Option (List ℕ)
expand_bits [] = none
expand_bits (exp ∷ coefficient) =
    if leb exp 32 then some (replicate (32 - exp) 0 ++ copy (replicate exp 0) coefficient) else none

-- `bytes.Compare(a, b) < 0`
unfoldable pub bytes_less : List ℕ → List ℕ → Bool
bytes_less a [] = false
bytes_less [] (y ∷ ys) = true
bytes_less (x ∷ xs) (y ∷ ys) = if ltb x y then true else if x == y then bytes_less xs ys else false
