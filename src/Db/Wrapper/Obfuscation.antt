-- ===== src/Db/Wrapper/Obfuscation.antt =====
-- The obfuscation of values undoes itself.
use Prim.Native.Nat.{bit_xor}
use plairo.Common.{
  ℕ, suc, ◌%◌, ◌<◌, ◌≡◌, refl, ap, arith, ◌==◌, ==_iff, passes_under, passes_at, if◌then◌else◌,
}
use plairo.Common.{List, [], ◌∷◌, length, get_elem?, none, some, All, IsByte, true, false}
use native.Mathlib.Nat.{mod-lt}
use plairo.Common.{All-get_elem?}
use plairo.Db.Wrapper.{obfuscate_from, obfuscate_value}

xor_table : passes_under (λ k. passes_under (λ a. bit_xor (bit_xor a k) k == a) 256) 256 ≡ true
unfolding passes_under
xor_table = refl

pub xor_twice : (a k : ℕ) → IsByte a → IsByte k → bit_xor (bit_xor a k) k ≡ a
xor_twice a k ha hk = (==_iff _ _).0 (passes_at _ 256 a ha (passes_at _ 256 k hk xor_table))

-- A key that can hide values: bytes, and at least one.
pub record IsKey (key : List ℕ) : Type 0 where
  pub nonempty : 0 < length key
  pub key_bytes : All IsByte key

-- The byte of the key that hides the value's byte at index `i`.
key_at :
    (key : List ℕ) (i : ℕ)
    → IsKey key
    → (k : ℕ) × ((if length key == 0 then none else get_elem? key (i % length key)) ≡ some k)
      × IsByte k
key_at key i ok =
    let (k, at, byte) =
      All-get_elem? IsByte key (i % length key) ok.key_bytes (mod-lt i ok.nonempty) in
    (k, rw (not_zero, at) refl, byte)
  where
    not_zero : (length key == 0) ≡ false
    not_zero = ground (arith, ok.nonempty)

obfuscate_from_twice :
    (key : List ℕ) (i : ℕ) (value : List ℕ)
    → IsKey key
    → All IsByte value
    → (hidden : List ℕ) × (obfuscate_from key i value ≡ some hidden)
      × (length hidden ≡ length value)
      × (obfuscate_from key i hidden ≡ some value)
unfolding obfuscate_from
obfuscate_from_twice key i [] ok bytes = ([], refl, refl, refl)
obfuscate_from_twice key i (val ∷ value) ok bytes =
    let (k, at, byte) = key_at key i ok in
    let (rest, hides, same, shows) = obfuscate_from_twice key (suc i) value ok bytes.1 in
    (
      bit_xor val k ∷ rest,
      rw (at, hides) refl,
      ap suc same,
      rw (at, shows, xor_twice val k bytes.0 byte) refl,
    )

-- With a key of one byte or more, obfuscating a value of bytes does not panic, keeps its length, and
-- obfuscating the result gives the value back.
pub obfuscate_value_twice :
    (key value : List ℕ)
    → IsKey key
    → All IsByte value
    → (hidden : List ℕ) × (obfuscate_value key value ≡ some hidden)
      × (length hidden ≡ length value)
      × (obfuscate_value key hidden ≡ some value)
unfolding obfuscate_value
obfuscate_value_twice key value ok bytes = obfuscate_from_twice key 0 value ok bytes
