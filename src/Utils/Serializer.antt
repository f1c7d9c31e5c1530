-- ===== src/Utils/Serializer.antt =====
-- utils/serializer.go: unsigned integers as bytes. (Its bit packing is in OneHot.)
pub mod Laws
use plairo.Common.{ℕ, ◌+◌, ◌*◌, ◌/◌, ◌%◌, ◌^◌, Bool, if◌then◌else◌}
use plairo.Common.{List, [], ◌∷◌, Option, none, some}

-- `binary.BigEndian.PutUint16` and the like store `byte(v >> k)`.
abbrev pub byte : ℕ → ℕ → ℕ
byte v k = v / 2 ^ k % 256

unfoldable pub serialize_uint16 : ℕ → Bool → List ℕ
serialize_uint16 num little_endian =
    if little_endian then byte num 0 ∷ byte num 8 ∷ [] else byte num 8 ∷ byte num 0 ∷ []

unfoldable pub serialize_uint32 : ℕ → Bool → List ℕ
serialize_uint32 num little_endian =
    if little_endian
    then byte num 0 ∷ byte num 8 ∷ byte num 16 ∷ byte num 24 ∷ []
    else byte num 24 ∷ byte num 16 ∷ byte num 8 ∷ byte num 0 ∷ []

unfoldable pub serialize_uint64 : ℕ → Bool → List ℕ
serialize_uint64 num little_endian =
    if little_endian
    then byte num 0
      ∷ byte num 8
      ∷ byte num 16
      ∷ byte num 24
      ∷ byte num 32
      ∷ byte num 40
      ∷ byte num 48
      ∷ byte num 56
      ∷ []
    else byte num 56
      ∷ byte num 48
      ∷ byte num 40
      ∷ byte num 32
      ∷ byte num 24
      ∷ byte num 16
      ∷ byte num 8
      ∷ byte num 0
      ∷ []

-- The bytes from the lowest up. The readers of encoding/binary look at the first bytes of the slice
-- and panic on a shorter one.
unfoldable pub deserialize_uint16 : List ℕ → Bool → Option ℕ
deserialize_uint16 (a ∷ b ∷ _) little_endian =
    some (if little_endian then a + b * 2 ^ 8 else b + a * 2 ^ 8)
deserialize_uint16 _ little_endian = none

unfoldable pub deserialize_uint32 : List ℕ → Bool → Option ℕ
deserialize_uint32 (a ∷ b ∷ c ∷ d ∷ _) little_endian = some (
    if little_endian
    then a + b * 2 ^ 8 + c * 2 ^ 16 + d * 2 ^ 24
    else d + c * 2 ^ 8 + b * 2 ^ 16 + a * 2 ^ 24)
deserialize_uint32 _ little_endian = none

unfoldable pub deserialize_uint64 : List ℕ → Bool → Option ℕ
deserialize_uint64 (a ∷ b ∷ c ∷ d ∷ e ∷ f ∷ g ∷ h ∷ _) little_endian = some (
    if little_endian
    then a + b * 2 ^ 8 + c * 2 ^ 16 + d * 2 ^ 24 + e * 2 ^ 32 + f * 2 ^ 40 + g * 2 ^ 48 + h * 2 ^ 56
    else h
      + g * 2 ^ 8
      + f * 2 ^ 16
      + e * 2 ^ 24
      + d * 2 ^ 32
      + c * 2 ^ 40
      + b * 2 ^ 48
      + a * 2 ^ 56)
deserialize_uint64 _ little_endian = none
