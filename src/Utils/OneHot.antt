-- ===== src/Utils/OneHot.antt =====
-- `SerializeToOneHot` of utils/serializer.go: one bit a value, the first value in the lowest bit of
-- the last byte.
pub mod Packed
use plairo.Common.{ℕ, zero, suc, ◌+◌, ◌-◌, ◌/◌, ◌%◌, ◌^◌, ◌==◌, if◌then◌else◌, Bool, true, false}
use mathlib.Core.Option
use plairo.Common.{List, [], ◌∷◌, Option, none, some, ◌>>=◌, length, replicate}

-- `res[pos] = b`, which panics out of range.
unfoldable pub store : List ℕ → ℕ → ℕ → Option (List ℕ)
store [] pos b = none
store (x ∷ xs) zero b = some (b ∷ xs)
store (x ∷ xs) (suc pos) b = Option.map (λ ys. x ∷ ys) (store xs pos b)

-- `left` is `pos + 1`: it is 0 where `pos` is -1, and a write panics there.
unfoldable pub store_last : List ℕ → ℕ → ℕ → Option (List ℕ)
store_last res zero b = none
store_last res (suc pos) b = store res pos b

-- `if val { tempb += byte(0x01) << (7 - packCounter) }`
abbrev pub add_bit : ℕ → ℕ → Bool → ℕ
add_bit tempb pack_counter val = if val then (tempb + 2 ^ (7 - pack_counter) % 256) % 256 else tempb

-- The loop over `data` and the write of the last byte behind it.
unfoldable pub pack_loop : List Bool → ℕ → ℕ → ℕ → List ℕ → Option (List ℕ)
unfolding store_last
pack_loop [] tempb pack_counter left res =
    if tempb == 0 then some res else store_last res left tempb
pack_loop (val ∷ rest) tempb pack_counter left res = elim (pack_counter == 0) [
  | true ↦ store_last res left (add_bit tempb pack_counter val) >>= λ res'.
      pack_loop rest 0 7 (left - 1) res'
  | false ↦ pack_loop rest (add_bit tempb pack_counter val) (pack_counter - 1) left res
]

-- `math.Ceil(float64(n) / 8)`, exact for every slice length below 2 ^ 53.
abbrev pub ceil_div8 : ℕ → ℕ
ceil_div8 n = (n + 7) / 8

unfoldable pub serialize_to_one_hot : List Bool → Option (List ℕ)
unfolding pack_loop
serialize_to_one_hot bits =
    let no_of_bytes = ceil_div8 (length bits) in
    pack_loop bits 0 7 no_of_bytes (replicate no_of_bytes 0)
