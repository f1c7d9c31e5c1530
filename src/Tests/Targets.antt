-- ===== src/Tests/Targets.antt =====
-- Targets, with numbers of quarters for float64.
use native.Mathlib.Nat.{mul-le-mul_left}
use plairo.Common.{ℕ, ◌≤◌, ◌*◌, ◌/◌, ◌^◌, ltb, false, if◌then◌else◌, ◌≡◌, refl, arith, none}
use plairo.Utils.Retarget.{
  Float64, IsFloat64, apply_coeff_to_target, renormalise, put_exponent, limit_difficulty,
  limit_coeff, scale_bits,
}
use plairo.Utils.Retarget.Bounds.{Within, apply_coeff_to_target-Within}
use plairo.Core.Retarget.{get_target_for_block}
use plairo.Core.Retarget.Reached.{get_target_for_block-Reachable}
use plairo.Tests.Validation.{toy_hash, toy_ecdsa}
use plairo.Tests.Blocks.{toy_header}
use plairo.Tests.Ledgers.{genesis, cs, toy_storage, accepting, left, left-Reachable}

-- A negative number is 0.
abbrev quarters : Float64
quarters = record {
  Number = ℕ;
  of_int64 = λ n. if ltb n (2 ^ 63) then n * 4 else 0;
  of_uint64 = λ n. n * 4;
  to_uint64 = λ x. x / 4;
  div = λ x y. x * 4 / y;
  mul = λ x y. x * y / 4;
  less = ltb;
  four = 16;
  quarter = 1;
}

ordered : (x y : ℕ) → ltb y x ≡ false → x ≤ y
ordered x y p = ground arith

quarters-IsFloat64 : IsFloat64 quarters
quarters-IsFloat64 = record {
  IsOrdered = λ x. Unit;
  four-IsOrdered = tt;
  quarter-IsOrdered = tt;
  less_irrefl = λ x. ground arith;
  quarter_below_four = refl;
  mul_mono = λ n x y _ _ _ _ le _. omega (arith, mul-le-mul_left (n * 4) (ordered x y le));
  mul_four = λ n _. omega arith;
  mul_quarter = λ n _. omega arith;
  div-IsOrdered = λ a b _ _. tt;
}

halves : apply_coeff_to_target quarters 2 0x04010000 ≡ 0x04008000
unfolding apply_coeff_to_target renormalise put_exponent limit_difficulty limit_coeff scale_bits
halves = refl

lowers : apply_coeff_to_target quarters 2 0x04000001 ≡ 0x03000080
unfolding apply_coeff_to_target renormalise put_exponent limit_difficulty limit_coeff scale_bits
lowers = refl

raises : apply_coeff_to_target quarters 40 0x03800000 ≡ 0x04020000
unfolding apply_coeff_to_target renormalise put_exponent limit_difficulty limit_coeff scale_bits
raises = refl

-- 7 days for an interval of 2.8.
abbrev slow : ℕ
slow = quarters.div (quarters.of_int64 604800) (quarters.of_uint64 241920)

apply_coeff_to_target-Within_example :
    Within 0x03800000 (apply_coeff_to_target quarters slow 0x03800000)
apply_coeff_to_target-Within_example =
    apply_coeff_to_target-Within quarters quarters-IsFloat64 slow 0x03800000
      (quarters-IsFloat64.div-IsOrdered 604800 241920 (omega arith) (omega arith)) (omega arith)

get_target_for_block-Reachable_example :
    get_target_for_block quarters left.blockchain toy_header 4031 ≡ none
get_target_for_block-Reachable_example =
    get_target_for_block-Reachable quarters toy_hash toy_ecdsa cs toy_storage accepting genesis left
      toy_header 4031 left-Reachable (omega arith)
