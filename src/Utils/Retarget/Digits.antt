-- ===== src/Utils/Retarget/Digits.antt =====
-- `ApplyCoeffToTarget` of utils/target.go: the bytes that the scaled coefficient keeps.
use native.Mathlib.Nat.{pow-succ'}
use mathlib.Core.Path.{subst}
use plairo.Common.{
  ℕ, zero, suc, ◌<◌, ◌≤◌, ◌+◌, ◌-◌, ◌*◌, ◌/◌, ◌%◌, ◌^◌, ◌==◌, not, true, false, Bool-cases,
  if◌then◌else◌, ◌≡◌, refl, ◌⊎◌, inl, inr, arith,
}
use plairo.Utils.Retarget.{renormalise}

-- A coefficient and an exponent that keep the leading bytes `kept` of `n`.
pub record Keeps (e n : ℕ) (r : ℕ × ℕ) : Type 0 where
  pub kept : ℕ
  pub below : kept ≤ n
  pub close : (e ≡ 0) ⊎ (65535 * n ≤ 65536 * kept)
  pub fits : r.1 < 2 ^ 24
  pub same : r.1 * 256 ^ r.0 * 256 ≡ kept * 256 ^ e
  pub exponent : (r.0 ≤ e) ⊎ ((r.0 ≡ e + 1) × (2 ^ 16 ≤ r.1))

grown : (k p : ℕ) → k * (256 * p) * 256 ≡ k * 2 ^ 16 * p
grown k p = omega arith

shifted : (k p : ℕ) → k * p * 256 ≡ k * 256 * p
shifted k p = omega arith

shrunk : (k p : ℕ) → k * p * 256 ≡ k * (256 * p)
shrunk k p = omega arith

nonzero : (n : ℕ) → not (n == 0) ≡ true → 0 < n
nonzero n p = ground arith

isnt : (n : ℕ) → not (n == 0) ≡ false → n ≡ 0
isnt n p = ground arith

dropped_byte :
    (e n : ℕ)
    → n < 2 ^ 32
    → (e ≡ 0) ⊎ (65535 * n ≤ 65536 * (n / 2 ^ 8 * 256))
    → Keeps e n (e, n / 2 ^ 8)
dropped_byte e n small near = record {
  kept = n / 2 ^ 8 * 256;
  below = omega arith;
  close = near;
  fits = omega (arith, small);
  same = shifted (n / 2 ^ 8) (256 ^ e);
  exponent = inl (omega arith);
}

lowered : (e n : ℕ) → n < 2 ^ 24 → Keeps (suc e) n (e, n)
lowered e n small = record {
  kept = n;
  below = omega arith;
  close = inr (omega arith);
  fits = small;
  same = rw (pow-succ' 256 e) (shrunk n (256 ^ e));
  exponent = inl (omega arith);
}

one_more : (e : ℕ) → suc e ≡ e + 1
one_more e = omega arith

raised : (e n : ℕ) → 2 ^ 32 ≤ n → n < 2 ^ 34 → Keeps e n (e + 1, n / 2 ^ 16)
raised e n big small = record {
  kept = n / 2 ^ 16 * 2 ^ 16;
  below = omega arith;
  close = inr (omega (arith, big));
  fits = omega (arith, small);
  same =
      subst (λ x. n / 2 ^ 16 * 256 ^ x * 256 ≡ n / 2 ^ 16 * 2 ^ 16 * 256 ^ e) (one_more e)
        (rw (pow-succ' 256 e) (grown (n / 2 ^ 16) (256 ^ e)));
  exponent = inr (refl, omega (arith, big));
}

positive : (e : ℕ) → not (suc e == 0) ≡ true
positive e = ground arith

one_less : (e : ℕ) → e ≡ suc e - 1
one_less e = omega arith

-- The last byte is kept by a lower exponent, if there is one.
kept_byte : (e n : ℕ) → n < 2 ^ 24 → Keeps e n (if not (e == 0) then (e - 1, n) else (e, n / 2 ^ 8))
kept_byte zero n small = dropped_byte zero n (omega (arith, small)) (inl refl)
kept_byte (suc e) n small =
    rw (positive e) (subst (λ x. Keeps (suc e) n (x, n)) (one_less e) (lowered e n small))

pub renormalise-Keeps : (e n : ℕ) → n < 2 ^ 34 → Keeps e n (renormalise e n)
unfolding renormalise
renormalise-Keeps e n small = elim (Bool-cases (not (n / 2 ^ 32 % 2 ^ 8 == 0))) [
  | inl over ↦ rw (renormalise, over) (raised e n (omega (arith, nonzero _ over)) small)
  | inr no_over ↦
      let under : n < 2 ^ 32 = omega (arith, isnt _ no_over, small) in
      elim (Bool-cases (not (n % 2 ^ 8 == 0))) [
        | inr exact ↦
            rw (renormalise, no_over, exact)
              (dropped_byte e n under (inr (omega (arith, isnt _ exact))))
        | inl last ↦ elim (Bool-cases (not (n / 2 ^ 24 % 2 ^ 8 == 0))) [
          | inl top ↦
              rw (renormalise, no_over, last, top)
                (dropped_byte e n under (inr (omega (arith, nonzero _ top))))
          | inr no_top ↦
              rw (renormalise, no_over, last, no_top)
                (kept_byte e n (omega (arith, isnt _ no_top, under)))
        ]
      ]
]
