-- ===== src/Utils/OneHot/Packed.antt =====
-- What `SerializeToOneHot` writes: the bytes of the groups of eight, the last group first.
use plairo.Common.{ℕ, zero, suc, ◌+◌, ◌-◌, ◌*◌, ◌/◌, ◌^◌, ◌≤◌, ◌<◌, ◌≡◌, refl, ap, sym, ◌∙◌, arith}
use mathlib.Core.Path.{subst}
use plairo.Common.{List, [], ◌∷◌, ◌++◌, some, Bool, true, false, if◌then◌else◌, ◌==◌}
use plairo.Common.{length, replicate, length-append, append_assoc, append-nil}
use plairo.Utils.OneHot.{store, store_last, pack_loop, add_bit, ceil_div8, serialize_to_one_hot}

abbrev pub bit : Bool → ℕ
bit b = if b then 1 else 0

-- A group of eight values or fewer, the first in the lowest bit.
abbrev pub group : List Bool → ℕ
group [] = 0
group (b ∷ bs) = bit b + 2 * group bs

unfoldable pub packed : List Bool → List ℕ
packed (a ∷ b ∷ c ∷ d ∷ e ∷ f ∷ g ∷ h ∷ rest) =
    packed rest ++ (group (a ∷ b ∷ c ∷ d ∷ e ∷ f ∷ g ∷ h ∷ []) ∷ [])
packed [] = []
packed bits = group bits ∷ []

store-replicate :
    (n b : ℕ) (tail : List ℕ)
    → store (replicate (suc n) 0 ++ tail) n b ≡ some (replicate n 0 ++ (b ∷ tail))
unfolding store
store-replicate zero b tail = refl
store-replicate (suc n) b tail = rw (store-replicate n b tail)

-- One round of the loop adds the bit at its place.
add_step :
    (t pack_counter m : ℕ) (b : Bool)
    → 2 ^ (7 - pack_counter) ≡ m
    → t < m
    → m ≤ 128
    → (add_bit t pack_counter b ≡ t + bit b * m) × (add_bit t pack_counter b < m + m)
add_step t pack_counter m true e h k = rw e (omega arith, omega arith)
add_step t pack_counter m false e h k = (omega arith, omega arith)

-- `tempb` after one to eight rounds.
tempb_group :
    (a b c d e f g h : Bool)
    → (add_bit 0 7 a ≡ group (a ∷ []))
      × (add_bit (add_bit 0 7 a) 6 b ≡ group (a ∷ b ∷ []))
      × (add_bit (add_bit (add_bit 0 7 a) 6 b) 5 c ≡ group (a ∷ b ∷ c ∷ []))
      × (add_bit (add_bit (add_bit (add_bit 0 7 a) 6 b) 5 c) 4 d ≡ group (a ∷ b ∷ c ∷ d ∷ []))
      × (add_bit (add_bit (add_bit (add_bit (add_bit 0 7 a) 6 b) 5 c) 4 d) 3 e
          ≡ group (a ∷ b ∷ c ∷ d ∷ e ∷ []))
      × (add_bit (add_bit (add_bit (add_bit (add_bit (add_bit 0 7 a) 6 b) 5 c) 4 d) 3 e) 2 f
          ≡ group (a ∷ b ∷ c ∷ d ∷ e ∷ f ∷ []))
      × (add_bit
            (add_bit (add_bit (add_bit (add_bit (add_bit (add_bit 0 7 a) 6 b) 5 c) 4 d) 3 e) 2 f)
            1
            g
          ≡ group (a ∷ b ∷ c ∷ d ∷ e ∷ f ∷ g ∷ []))
      × (add_bit
            (add_bit
              (add_bit (add_bit (add_bit (add_bit (add_bit (add_bit 0 7 a) 6 b) 5 c) 4 d) 3 e) 2 f)
              1
              g)
            0
            h
          ≡ group (a ∷ b ∷ c ∷ d ∷ e ∷ f ∷ g ∷ h ∷ []))
tempb_group a b c d e f g h =
    let s1 = add_step 0 7 1 a refl (omega arith) (omega arith) in
    let s2 = add_step (add_bit 0 7 a) 6 2 b refl s1.1 (omega arith) in
    let s3 = add_step (add_bit (add_bit 0 7 a) 6 b) 5 4 c refl s2.1 (omega arith) in
    let s4 = add_step (add_bit (add_bit (add_bit 0 7 a) 6 b) 5 c) 4 8 d refl s3.1 (omega arith) in
    let s5 =
      add_step (add_bit (add_bit (add_bit (add_bit 0 7 a) 6 b) 5 c) 4 d) 3 16 e refl s4.1
        (omega arith) in
    let s6 =
      add_step (add_bit (add_bit (add_bit (add_bit (add_bit 0 7 a) 6 b) 5 c) 4 d) 3 e) 2 32 f refl
        s5.1 (omega arith) in
    let s7 =
      add_step (add_bit (add_bit (add_bit (add_bit (add_bit (add_bit 0 7 a) 6 b) 5 c) 4 d) 3 e) 2 f)
        1 64 g refl s6.1 (omega arith) in
    let s8 =
      add_step
        (add_bit
          (add_bit (add_bit (add_bit (add_bit (add_bit (add_bit 0 7 a) 6 b) 5 c) 4 d) 3 e) 2 f) 1 g)
        0 128 h refl s7.1 (omega arith) in
    (
      omega (arith, s1.0),
      omega (arith, s1.0, s2.0),
      omega (arith, s1.0, s2.0, s3.0),
      omega (arith, s1.0, s2.0, s3.0, s4.0),
      omega (arith, s1.0, s2.0, s3.0, s4.0, s5.0),
      omega (arith, s1.0, s2.0, s3.0, s4.0, s5.0, s6.0),
      omega (arith, s1.0, s2.0, s3.0, s4.0, s5.0, s6.0, s7.0),
      omega (arith, s1.0, s2.0, s3.0, s4.0, s5.0, s6.0, s7.0, s8.0),
    )

-- A whole group costs one write.
pack_loop-group :
    (a b c d e f g h : Bool) (rest : List Bool) (n : ℕ) (tail : List ℕ)
    → pack_loop (a ∷ b ∷ c ∷ d ∷ e ∷ f ∷ g ∷ h ∷ rest) 0 7 (suc n) (replicate (suc n) 0 ++ tail)
      ≡ pack_loop rest 0 7 n (replicate n 0 ++ (group (a ∷ b ∷ c ∷ d ∷ e ∷ f ∷ g ∷ h ∷ []) ∷ tail))
unfolding pack_loop
pack_loop-group a b c d e f g h rest n tail =
    rw
      (
        (tempb_group a b c d e f g h).7,
        store-replicate n (group (a ∷ b ∷ c ∷ d ∷ e ∷ f ∷ g ∷ h ∷ [])) tail,
      )
      (ap
        (λ k.
          pack_loop rest 0 7 k
            (replicate n 0 ++ (group (a ∷ b ∷ c ∷ d ∷ e ∷ f ∷ g ∷ h ∷ []) ∷ tail)))
        (omega arith))

-- The write behind the loop: without it the byte is the 0 that the slice was made with.
last_write :
    (t u : ℕ) (tail : List ℕ)
    → t ≡ u
    → (if t == 0 then some (0 ∷ tail) else store_last (0 ∷ tail) 1 t) ≡ some (u ∷ tail)
unfolding store_last store
last_write t u tail e = ground arith

ceil_suc : (n m : ℕ) → n ≡ (8 + m + 7) / 8 → n ≡ suc (n - 1)
ceil_suc n m e = omega arith

pack_loop-packed :
    (bits : List Bool) (n : ℕ) (tail : List ℕ)
    → n ≡ ceil_div8 (length bits)
    → pack_loop bits 0 7 n (replicate n 0 ++ tail) ≡ some (packed bits ++ tail)
unfolding pack_loop packed
pack_loop-packed [] n tail p =
    subst (λ k. pack_loop [] 0 7 k (replicate k 0 ++ tail) ≡ some tail) (sym p) refl
pack_loop-packed (a ∷ []) n tail p =
    rw p (last_write _ _ tail (tempb_group a false false false false false false false).0)
pack_loop-packed (a ∷ b ∷ []) n tail p =
    rw p (last_write _ _ tail (tempb_group a b false false false false false false).1)
pack_loop-packed (a ∷ b ∷ c ∷ []) n tail p =
    rw p (last_write _ _ tail (tempb_group a b c false false false false false).2)
pack_loop-packed (a ∷ b ∷ c ∷ d ∷ []) n tail p =
    rw p (last_write _ _ tail (tempb_group a b c d false false false false).3)
pack_loop-packed (a ∷ b ∷ c ∷ d ∷ e ∷ []) n tail p =
    rw p (last_write _ _ tail (tempb_group a b c d e false false false).4)
pack_loop-packed (a ∷ b ∷ c ∷ d ∷ e ∷ f ∷ []) n tail p =
    rw p (last_write _ _ tail (tempb_group a b c d e f false false).5)
pack_loop-packed (a ∷ b ∷ c ∷ d ∷ e ∷ f ∷ g ∷ []) n tail p =
    rw p (last_write _ _ tail (tempb_group a b c d e f g false).6)
pack_loop-packed (a ∷ b ∷ c ∷ d ∷ e ∷ f ∷ g ∷ h ∷ rest) n tail p =
    rw (ceil_suc n (length rest) (omega arith)) (
      pack_loop-group a b c d e f g h rest (n - 1) tail
      ∙ pack_loop-packed rest (n - 1) (group (a ∷ b ∷ c ∷ d ∷ e ∷ f ∷ g ∷ h ∷ []) ∷ tail)
          (omega arith)
      ∙ ap some
          (sym (append_assoc (packed rest) (group (a ∷ b ∷ c ∷ d ∷ e ∷ f ∷ g ∷ h ∷ []) ∷ []) tail)))

-- The bytes written are the packed groups: no write is out of range.
pub serialize_to_one_hot-packed :
    (bits : List Bool) → serialize_to_one_hot bits ≡ some (packed bits)
unfolding serialize_to_one_hot
serialize_to_one_hot-packed bits =
    subst (λ t. pack_loop bits 0 7 (ceil_div8 (length bits)) t ≡ some (packed bits)) (append-nil _)
      (pack_loop-packed bits _ [] refl ∙ ap some (append-nil _))

pub length-packed : (bits : List Bool) → length (packed bits) ≡ ceil_div8 (length bits)
unfolding packed
length-packed (a ∷ b ∷ c ∷ d ∷ e ∷ f ∷ g ∷ h ∷ rest) = omega (
  arith,
  length-packed rest,
  length-append (packed rest) (group (a ∷ b ∷ c ∷ d ∷ e ∷ f ∷ g ∷ h ∷ []) ∷ []),
)
length-packed [] = omega arith
length-packed _ = omega arith
