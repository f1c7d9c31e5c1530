-- ===== src/Utils/Retarget.antt =====
-- `ApplyCoeffToTarget` of utils/target.go. float64 is the parameter `Float64`.
pub mod Digits
pub mod Bounds
use Prim.Native.Nat.{bit_or}
use plairo.Common.{
  ℕ, ◌<◌, ◌≤◌, ◌+◌, ◌-◌, ◌*◌, ◌/◌, ◌%◌, ◌^◌, ◌==◌, ltb, not, Bool, true, false, if◌then◌else◌, ◌≡◌,
}

-- The type float64, the conversions, the operations and the constants that the code uses. An int64
-- is its bit pattern.
pub record Float64 : Type 1 where
  pub Number : Type 0
  pub of_int64 : ℕ → Number
  pub of_uint64 : ℕ → Number
  pub to_uint64 : Number → ℕ
  pub div : Number → Number → Number
  pub mul : Number → Number → Number
  pub less : Number → Number → Bool
  pub four : Number
  pub quarter : Number

abbrev pub max_difficulty : ℕ
max_difficulty = 0x18ffffff

-- The exponent and the coefficient after the scaling of the coefficient, which has a byte more.
unfoldable pub renormalise : ℕ → ℕ → ℕ × ℕ
renormalise bits_exp new_target =
    if not (new_target / 2 ^ 32 % 2 ^ 8 == 0)
    then (bits_exp + 1, new_target / 2 ^ 16)
    else if not (new_target % 2 ^ 8 == 0)
    then (if not (new_target / 2 ^ 24 % 2 ^ 8 == 0)
        then (bits_exp, new_target / 2 ^ 8)
        else if not (bits_exp == 0)
        then (bits_exp - 1, new_target)
        else (bits_exp, new_target / 2 ^ 8))
    else (bits_exp, new_target / 2 ^ 8)

-- `uint32(uint64(bitsExp << 24) | newTarget)`: the low 24 bits are those of `newTarget` alone.
unfoldable pub put_exponent : ℕ × ℕ → ℕ
put_exponent (bits_exp, new_target) =
    (bit_or (bits_exp % 2 ^ 8) (new_target / 2 ^ 24) * 2 ^ 24 + new_target % 2 ^ 24) % 2 ^ 32

unfoldable pub limit_difficulty : ℕ → ℕ
limit_difficulty new_target = if ltb max_difficulty new_target then max_difficulty else new_target

module _ (f : Float64) where
  unfoldable pub limit_coeff : Float64.Number f → Float64.Number f
  limit_coeff coeff =
      if f.less f.four coeff then f.four else if f.less coeff f.quarter then f.quarter else coeff

  -- `uint64(float64(rawBits) * coeff)`, where the coefficient of the target is shifted by a byte.
  unfoldable pub scale_bits : Float64.Number f → ℕ → ℕ
  scale_bits coeff prev_target =
      f.to_uint64 (f.mul (f.of_uint64 (prev_target % 2 ^ 24 * 2 ^ 8)) (limit_coeff coeff))

  unfoldable pub apply_coeff_to_target : Float64.Number f → ℕ → ℕ
  apply_coeff_to_target coeff prev_target =
      limit_difficulty
        (put_exponent (renormalise (prev_target / 2 ^ 24) (scale_bits coeff prev_target)))

  -- What the code relies on of IEEE 754: only NaN is not ordered, the comparison is strict, and a
  -- product with a factor between 0.25 and 4 is rounded in order, and is exact for these two.
  pub record IsFloat64 : Type 1 where
    pub IsOrdered : Float64.Number f → Type 0
    pub four-IsOrdered : IsOrdered f.four
    pub quarter-IsOrdered : IsOrdered f.quarter
    pub less_irrefl : (x : Float64.Number f) → f.less x x ≡ false
    pub quarter_below_four : f.less f.four f.quarter ≡ false
    pub mul_mono :
        (n : ℕ) (x y : Float64.Number f)
        → n < 2 ^ 32
        → IsOrdered x
        → IsOrdered y
        → f.less x f.quarter ≡ false
        → f.less y x ≡ false
        → f.less f.four y ≡ false
        → f.to_uint64 (f.mul (f.of_uint64 n) x) ≤ f.to_uint64 (f.mul (f.of_uint64 n) y)
    pub mul_four : (n : ℕ) → n < 2 ^ 32 → f.to_uint64 (f.mul (f.of_uint64 n) f.four) ≡ n * 4
    pub mul_quarter : (n : ℕ) → n < 2 ^ 32 → f.to_uint64 (f.mul (f.of_uint64 n) f.quarter) ≡ n / 4
    -- A quotient by a number that is not 0 is ordered.
    pub div-IsOrdered :
        (a b : ℕ) → b < 2 ^ 64 → 0 < b → IsOrdered (f.div (f.of_int64 a) (f.of_uint64 b))
