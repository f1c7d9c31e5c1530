-- ===== src/Core/Metadata/Bits.antt =====
-- `ReadBitVector` undoes `SerializeToOneHot`.
use Prim.Native.Nat.{bit_and}
use mathlib.Core.Path.{subst}
use plairo.Common.{
  passes_under, passes_at, ℕ, zero, suc, ◌+◌, ◌-◌, ◌*◌, ◌/◌, ◌%◌, ◌^◌, ◌<◌, ◌≡◌, refl, sym, ◌∙◌,
  arith, ◌==◌,
}
use plairo.Common.{
  if◌then◌else◌, List, [], ◌∷◌, ◌++◌, length, get_elem?, some, Bool, true, false, if◌then◌else◌,
}
use native.Mathlib.Nat.{
  zero-div, div-div-eq-div-mul, pow-succ', pow-le-pow_right, mod-eq_of_lt, le_trans,
}
use plairo.Common.{IsByte, not, ◌≤◌, ==_iff, get_elem?-append_left, get_elem?-append_mid}
use plairo.Utils.OneHot.{ceil_div8}
use plairo.Utils.OneHot.Packed.{packed, group, bit, length-packed}
use plairo.Core.Metadata.{bit_test, read_bits}

-- The value at an index of a list of flags.
abbrev flag : List Bool → ℕ → Bool
flag [] i = false
flag (b ∷ bs) zero = b
flag (b ∷ bs) (suc i) = flag bs i

mask_table :
    passes_under (λ k. passes_under (λ b. bit_and b (2 ^ k % 256) == b / 2 ^ k % 2 * 2 ^ k) 256) 8
    ≡ true
unfolding passes_under
mask_table = refl

mask_digit : (k b : ℕ) → k < 8 → IsByte b → bit_and b (2 ^ k % 256) ≡ b / 2 ^ k % 2 * 2 ^ k
mask_digit k b hk hb = (==_iff _ _).0 (passes_at _ 256 b hb (passes_at _ 8 k hk mask_table))

bit_le : (b : Bool) → bit b ≤ 1
bit_le true = omega arith
bit_le false = omega arith

halve : (b : Bool) (n : ℕ) → (bit b + 2 * n) / 2 ≡ n
halve b n = omega (arith, bit_le b)

group-digit : (bs : List Bool) (k : ℕ) → group bs / 2 ^ k % 2 ≡ bit (flag bs k)
group-digit [] k = rw zero-div refl
group-digit (b ∷ bs) zero = omega (arith, bit_le b)
group-digit (b ∷ bs) (suc k) =
    rw (pow-succ' 2 k, ← div-div-eq-div-mul (group (b ∷ bs)) 2 (2 ^ k), halve b (group bs))
      (group-digit bs k)

group-lt : (bs : List Bool) → group bs < 2 ^ length bs
group-lt [] = omega arith
group-lt (b ∷ bs) = omega (arith, group-lt bs, bit_le b, pow-succ' 2 (length bs))

group-IsByte : (bs : List Bool) → length bs ≤ 8 → IsByte (group bs)
group-IsByte bs h = le_trans (group-lt bs) (pow-le-pow_right {n = 2} (omega arith) h)

-- The comparison with the mask, for a digit that is set and for one that is not.
digit_test : (k : ℕ) (f : Bool) → k < 8 → (bit f * 2 ^ k == 2 ^ k % 256) ≡ f
unfolding passes_under
digit_test k true h = passes_at (λ j. 1 * 2 ^ j == 2 ^ j % 256) 8 k h refl
digit_test k false h = ground (arith, passes_at (λ j. not (0 * 2 ^ j == 2 ^ j % 256)) 8 k h refl)

-- The reader's test of a packed group gives the value back.
bit_test-group :
    (bs : List Bool) (k : ℕ) → length bs ≤ 8 → k < 8 → bit_test (group bs) k ≡ flag bs k
bit_test-group bs k hl hk =
    rw (mod-eq_of_lt hk, mask_digit k (group bs) hk (group-IsByte bs hl), group-digit bs k)
      (digit_test k (flag bs k) hk)

abbrev Reads : List Bool → ℕ → Type 0
Reads bits i =
    (b : ℕ) × (get_elem? (packed bits) (ceil_div8 (length bits) - 1 - i / 8) ≡ some b)
    × (bit_test b i ≡ flag bits i)

-- A list of at most eight flags is one byte.
Reads-short :
    (bs : List Bool) (i : ℕ)
    → packed bs ≡ group bs ∷ []
    → length bs ≤ 8
    → i < length bs
    → Reads bs i
Reads-short bs i p h hi = (group bs, rw (p, one_byte) refl, bit_test-group bs i h (omega arith))
  where
    one_byte : ceil_div8 (length bs) - 1 - i / 8 ≡ 0
    one_byte = omega arith

flag-append_left : (xs ys : List Bool) (i : ℕ) → i < length xs → flag (xs ++ ys) i ≡ flag xs i
flag-append_left [] ys i h = elim h [ ]
flag-append_left (x ∷ xs) ys zero h = refl
flag-append_left (x ∷ xs) ys (suc i) h = flag-append_left xs ys i (omega arith)

module _ (a b c d e f g h : Bool) (rest : List Bool) where
  abbrev eight : List Bool
  eight = a ∷ b ∷ c ∷ d ∷ e ∷ f ∷ g ∷ h ∷ []

  -- The first eight flags stand in the last byte.
  Reads-first : (i : ℕ) → i < 8 → Reads (eight ++ rest) i
  unfolding packed
  Reads-first i hi = (
    group eight,
    subst (λ k. get_elem? (packed rest ++ (group eight ∷ [])) k ≡ some (group eight))
        (last_index (length rest) (length-packed rest))
        (get_elem?-append_mid (packed rest) [] (group eight)),
    bit_test-group eight i (omega arith) hi ∙ sym (flag-append_left eight rest i (omega arith)),
  )
    where
      last_index :
          (n : ℕ)
          → length (packed rest) ≡ ceil_div8 n
          → length (packed rest)
            ≡ ceil_div8 (suc (suc (suc (suc (suc (suc (suc (suc n)))))))) - 1 - i / 8
      last_index n p = omega arith

  -- The others stand in the bytes before it.
  Reads-later :
      (j : ℕ)
      → j < length rest
      → Reads rest j
      → Reads (eight ++ rest) (suc (suc (suc (suc (suc (suc (suc (suc j))))))))
  unfolding packed
  Reads-later j hj (x, at, test) = (
    x,
    subst (λ k. get_elem? (packed rest ++ (group eight ∷ [])) k ≡ some x)
        (earlier_index (length rest) hj)
        (get_elem?-append_left (packed rest) _ _ (omega (arith, length-packed rest)) ∙ at),
    rw (period j) test,
  )
    where
      earlier_index :
          (n : ℕ)
          → j < n
          → ceil_div8 n - 1 - j / 8
            ≡ ceil_div8 (suc (suc (suc (suc (suc (suc (suc (suc n))))))))
              - 1
              - suc (suc (suc (suc (suc (suc (suc (suc j))))))) / 8
      earlier_index n p = omega arith

      period : (k : ℕ) → suc (suc (suc (suc (suc (suc (suc (suc k))))))) % 8 ≡ k % 8
      period k = omega arith

-- Every flag is found at its byte and digit.
reads : (bits : List Bool) (i : ℕ) → i < length bits → Reads bits i
unfolding packed
reads [] i p = elim p [ ]
reads (a ∷ b ∷ c ∷ d ∷ e ∷ f ∷ g ∷ h ∷ rest) (suc (suc (suc (suc (suc (suc (suc (suc j)))))))) p =
    Reads-later a b c d e f g h rest j (omega arith) (reads rest j (omega arith))
reads (a ∷ b ∷ c ∷ d ∷ e ∷ f ∷ g ∷ h ∷ rest) i p = Reads-first a b c d e f g h rest i (omega arith)
reads bits i p = Reads-short bits i refl (omega arith) p

-- The indices of the flags that are set.
abbrev pub set_indices : ℕ → List Bool → List ℕ
set_indices i [] = []
set_indices i (b ∷ bs) = if b then i ∷ set_indices (suc i) bs else set_indices (suc i) bs

abbrev FlagsFrom : (ℕ → Bool) → ℕ → List Bool → Type 0
FlagsFrom f i [] = Unit {0}
FlagsFrom f i (b ∷ bs) = (f i ≡ b) × FlagsFrom f (suc i) bs

flags_shift :
    (f : ℕ → Bool) (i : ℕ) (bs : List Bool)
    → FlagsFrom (λ k. f (suc k)) i bs
    → FlagsFrom f (suc i) bs
flags_shift f i [] h = tt
flags_shift f i (b ∷ bs) h = (h.0, flags_shift f (suc i) bs h.1)

flags_self : (bs : List Bool) → FlagsFrom (flag bs) 0 bs
flags_self [] = tt
flags_self (b ∷ bs) = (refl, flags_shift (flag (b ∷ bs)) 0 bs (flags_self bs))

read_bits-reads :
    (bits rest : List Bool) (i : ℕ)
    → FlagsFrom (flag bits) i rest
    → i + length rest ≡ length bits
    → read_bits (length rest) i (ceil_div8 (length bits)) (packed bits)
      ≡ some (rest, set_indices i rest)
unfolding read_bits
read_bits-reads bits [] i hf hl = refl
read_bits-reads bits (b ∷ rest) i hf hl =
    let (x, at, test) = reads bits i (omega arith) in
    rw (at, read_bits-reads bits rest (suc i) hf.1 (omega arith), test ∙ hf.0) refl

pub read_bits-packed :
    (bits : List Bool)
    → read_bits (length bits) 0 (ceil_div8 (length bits)) (packed bits)
      ≡ some (bits, set_indices 0 bits)
read_bits-packed bits = read_bits-reads bits bits 0 (flags_self bits) (omega arith)
