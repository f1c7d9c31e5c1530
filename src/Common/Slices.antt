-- ===== src/Common/Slices.antt =====
-- Go's `s[lo:hi]`, and the ranges of its unsigned integers.
use Prim.Native.Nat.{ℕ, ◌+◌, ◌-◌, ◌<◌, ◌^◌}
use mathlib.Core.Path.{◌≡◌, ap}
use mathlib.Core.Bool.{◌&&◌}
use mathlib.Core.List.{List, ◌++◌}
use mathlib.Core.Option.{Option, none, some}
use native.Mathlib.Omega.{arith}
use plairo.Common.Tests.{if◌then◌else◌, leb, le→leb}
use plairo.Common.Lists.{length, take, drop, length-append, take-append_left, drop-append_left}

abbrev pub IsByte : ℕ → Type 0
IsByte b = b < 256

abbrev pub IsU32 : ℕ → Type 0
IsU32 v = v < 2 ^ 32

abbrev pub IsU64 : ℕ → Type 0
IsU64 v = v < 2 ^ 64

-- A panic outside `lo <= hi <= len(s)`. (Go holds `hi` against the capacity.)
unfoldable pub slice {ℓ} : {A : Type ℓ} → List A → ℕ → ℕ → Option (List A)
slice s lo hi = if leb lo hi && leb hi (length s) then some (take (hi - lo) (drop lo s)) else none

module _ {ℓ} {A : Type ℓ} where
  pub slice-append_mid :
      (xs ys zs : List A) (lo hi : ℕ)
      → length xs ≡ lo
      → lo + length ys ≡ hi
      → slice (xs ++ (ys ++ zs)) lo hi ≡ some ys
  unfolding slice
  slice-append_mid xs ys zs lo hi p q =
      rw
        (
          le→leb lo hi (omega arith),
          le→leb hi (length (xs ++ (ys ++ zs)))
              (omega (arith, length-append xs (ys ++ zs), length-append ys zs)),
        )
        (ap some (taken (hi - lo) (omega arith)))
    where
      taken : (n : ℕ) → n ≡ length ys → take n (drop lo (xs ++ (ys ++ zs))) ≡ ys
      taken n e = rw (e, ← p, drop-append_left xs (ys ++ zs)) (take-append_left ys zs)

  -- The same for a slice that is known by an equation.
  pub slice_at :
      (m xs ys zs : List A) (lo hi : ℕ)
      → m ≡ xs ++ (ys ++ zs)
      → length xs ≡ lo
      → lo + length ys ≡ hi
      → slice m lo hi ≡ some ys
  slice_at m xs ys zs lo hi e p q = rw e (slice-append_mid xs ys zs lo hi p q)
