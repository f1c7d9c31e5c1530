-- ===== src/Utils/Retarget/Bounds.antt =====
-- `ApplyCoeffToTarget` of utils/target.go: the number that the new target stands for.
use Prim.Native.Nat.{bit_or}
use native.Mathlib.Nat.{mul-le-mul_right, le_trans}
use mathlib.Core.Path.{subst}
use plairo.Common.{
  ℕ, ◌<◌, ◌≤◌, ◌+◌, ◌*◌, ◌/◌, ◌%◌, ◌^◌, ◌==◌, ==_iff, ltb, true, false, Bool-cases, ◌≡◌, refl, ◌⊎◌,
  inl, inr, arith, passes_under, passes_at,
}
use plairo.Utils.Retarget.{
  Float64, IsFloat64, max_difficulty, renormalise, put_exponent, limit_difficulty, limit_coeff,
  scale_bits, apply_coeff_to_target,
}
use plairo.Utils.Retarget.Digits.{Keeps, renormalise-Keeps}

-- The number that a target in compressed form stands for, times 256 ^ 3.
abbrev pub size : ℕ → ℕ
size target = target % 2 ^ 24 * 256 ^ (target / 2 ^ 24)

or_table : passes_under (λ e. bit_or e 0 == e) 256 ≡ true
unfolding passes_under
or_table = refl

-- The target that has a coefficient and an exponent.
put_exponent-sum : (r : ℕ × ℕ) → r.0 < 256 → r.1 < 2 ^ 24 → put_exponent r ≡ r.0 * 2 ^ 24 + r.1
unfolding put_exponent
put_exponent-sum (e, k) small fits =
    let high : k / 2 ^ 24 ≡ 0 = omega (arith, fits) in
    let byte : e % 2 ^ 8 ≡ e = omega (arith, small) in
    let same : bit_or e 0 ≡ e =
      (==_iff _ _).0 (passes_at (λ e. bit_or e 0 == e) 256 e small or_table) in
    rw (put_exponent, high, byte, same) (omega (arith, small, fits))

size-sum : (e k : ℕ) → k < 2 ^ 24 → size (e * 2 ^ 24 + k) ≡ k * 256 ^ e
size-sum e k fits =
    let low : (e * 2 ^ 24 + k) % 2 ^ 24 ≡ k = omega (arith, fits) in
    let high : (e * 2 ^ 24 + k) / 2 ^ 24 ≡ e = omega (arith, fits) in rw (low, high) refl

-- How a new target stands to the target before: it is not above the largest, its number is at most
-- four times as large, and unless it is the largest target or the exponent was 0, it is at least a
-- fourth of it, less a part of 1 / 65536.
pub record Within (prev_target new_target : ℕ) : Type 0 where
  pub limited : new_target ≤ max_difficulty
  pub not_above : size new_target ≤ 4 * size prev_target
  pub not_below :
      (new_target ≡ max_difficulty)
      ⊎ ((prev_target < 2 ^ 24) ⊎ (65535 * size prev_target ≤ 4 * 65536 * size new_target))

above_of : (m k p q : ℕ) → k ≤ 1024 * m → q * 256 ≡ k * p → q ≤ 4 * (m * p)
above_of m k p q le e = omega (arith, mul-le-mul_right p le, e)

below_of :
    (m k p q : ℕ) → 65535 * 64 * m ≤ 65536 * k → q * 256 ≡ k * p → 65535 * (m * p) ≤ 4 * 65536 * q
below_of m k p q le e = omega (arith, mul-le-mul_right p le, e)

-- The same of the sum before it is limited.
unlimited :
    (t n : ℕ) (r : ℕ × ℕ)
    → 64 * (t % 2 ^ 24) ≤ n
    → n ≤ 1024 * (t % 2 ^ 24)
    → Keeps (t / 2 ^ 24) n r
    → (r.1 * 256 ^ r.0 ≤ 4 * size t)
      × ((t < 2 ^ 24) ⊎ (65535 * size t ≤ 4 * 65536 * (r.1 * 256 ^ r.0)))
unlimited t n r low high keeps =
    let m = t % 2 ^ 24 in
    let p = 256 ^ (t / 2 ^ 24) in
    (
      above_of m keeps.kept p (r.1 * 256 ^ r.0) (le_trans keeps.below high) keeps.same,
      elim keeps.close [
        | inl none_left ↦ inl (omega (arith, none_left))
        | inr near ↦
            inr (below_of m keeps.kept p (r.1 * 256 ^ r.0) (omega (arith, near, low)) keeps.same)
      ],
    )

within :
    (t n : ℕ)
    → t ≤ max_difficulty
    → 64 * (t % 2 ^ 24) ≤ n
    → n ≤ 1024 * (t % 2 ^ 24)
    → Within t (limit_difficulty (put_exponent (renormalise (t / 2 ^ 24) n)))
unfolding limit_difficulty
within t n most low high =
    limit (renormalise (t / 2 ^ 24) n) (renormalise-Keeps (t / 2 ^ 24) n (omega (arith, high)))
  where
    at_25 :
        (r : ℕ × ℕ)
        → r.0 ≡ t / 2 ^ 24 + 1
        → r.1 < 2 ^ 24
        → max_difficulty < r.0 * 2 ^ 24 + r.1
        → 25 ≡ r.0
    at_25 r one fits over = omega (arith, one, fits, over, most)

    largest :
        (r : ℕ × ℕ)
        → Keeps (t / 2 ^ 24) n r
        → max_difficulty < r.0 * 2 ^ 24 + r.1
        → size max_difficulty ≤ r.1 * 256 ^ r.0
    largest r keeps over = elim keeps.exponent [
      | inl le ↦ absurd (omega (arith, le, over, keeps.fits, most))
      | inr (one, big) ↦
          subst (λ e. size max_difficulty ≤ r.1 * 256 ^ e) (at_25 r one (keeps.fits) over)
            (omega (arith, big))
    ]

    is_byte : (r : ℕ × ℕ) → Keeps (t / 2 ^ 24) n r → r.0 < 256
    is_byte r keeps = elim keeps.exponent [
      | inl le ↦ omega (arith, le, most)
      | inr (one, _) ↦ omega (arith, one, most)
    ]

    limit : (r : ℕ × ℕ) → Keeps (t / 2 ^ 24) n r → Within t (limit_difficulty (put_exponent r))
    limit r keeps =
        let small : r.0 < 256 = is_byte r keeps in
        let sum = put_exponent-sum r small keeps.fits in
        let (above, below) = unlimited t n r low high keeps in
        rw sum (elim (Bool-cases (ltb max_difficulty (r.0 * 2 ^ 24 + r.1))) [
          | inl over ↦
              rw (limit_difficulty, over)
                (record {
                  limited = omega arith;
                  not_above = le_trans (largest r keeps (ground (arith, over))) above;
                  not_below = inl refl;
                })
          | inr fits ↦
              rw (limit_difficulty, fits)
                (record {
                  limited = ground (arith, fits);
                  not_above = rw (size-sum r.0 r.1 keeps.fits) above;
                  not_below = inr (rw (size-sum r.0 r.1 keeps.fits) below);
                })
        ])

module _ (f : Float64) (laws : IsFloat64 f) where
  -- A limited coefficient is between 0.25 and 4.
  record IsLimited (x : Float64.Number f) : Type 0 where
    ordered : laws.IsOrdered x
    not_small : f.less x f.quarter ≡ false
    not_large : f.less f.four x ≡ false

  limit_coeff-IsLimited :
      (coeff : Float64.Number f) → laws.IsOrdered coeff → IsLimited (limit_coeff f coeff)
  unfolding limit_coeff
  limit_coeff-IsLimited coeff ordered = elim (Bool-cases (f.less f.four coeff)) [
    | inl over ↦
        rw (limit_coeff, over)
          (record {
            ordered = laws.four-IsOrdered;
            not_small = laws.quarter_below_four;
            not_large = laws.less_irrefl f.four;
          })
    | inr fits ↦ elim (Bool-cases (f.less coeff f.quarter)) [
      | inl under ↦
          rw (limit_coeff, fits, under)
            (record {
              ordered = laws.quarter-IsOrdered;
              not_small = laws.less_irrefl f.quarter;
              not_large = laws.quarter_below_four;
            })
      | inr enough ↦
          rw (limit_coeff, fits, enough)
            (record { ordered = ordered; not_small = enough; not_large = fits })
    ]
  ]

  -- `ApplyCoeffToTarget` on a target that is not above the largest and a coefficient that is not
  -- NaN: the new target is not above the largest either, its number is at most four times that of
  -- the target before, and at least a fourth of it less one part of 65536, unless the new target is
  -- the largest or the exponent of the target before was 0.
  pub apply_coeff_to_target-Within :
      (coeff : Float64.Number f) (prev_target : ℕ)
      → laws.IsOrdered coeff
      → prev_target ≤ max_difficulty
      → Within prev_target (apply_coeff_to_target f coeff prev_target)
  unfolding apply_coeff_to_target
  apply_coeff_to_target-Within coeff t ordered most =
      let m = t % 2 ^ 24 in
      let raw : m * 2 ^ 8 < 2 ^ 32 = omega arith in
      let x = limit_coeff-IsLimited coeff ordered in
      let least : m * 2 ^ 8 / 4 ≤ scale_bits f coeff t =
        unfold scale_bits in
        subst (λ k. k ≤ scale_bits f coeff t) (laws.mul_quarter _ raw)
          (laws.mul_mono (m * 2 ^ 8) f.quarter (limit_coeff f coeff) raw laws.quarter-IsOrdered
            x.ordered (laws.less_irrefl f.quarter) x.not_small x.not_large) in
      let largest : scale_bits f coeff t ≤ m * 2 ^ 8 * 4 =
        unfold scale_bits in
        subst (λ k. scale_bits f coeff t ≤ k) (laws.mul_four _ raw)
          (laws.mul_mono (m * 2 ^ 8) (limit_coeff f coeff) f.four raw x.ordered laws.four-IsOrdered
            x.not_small x.not_large (laws.less_irrefl f.four)) in
      within t (scale_bits f coeff t) most (omega (arith, least)) (omega (arith, largest))
