-- ===== src/Utils/Serializer/Laws.antt =====
-- utils/serializer.go: the readers undo the writers.
use plairo.Common.{
  ℕ, ◌≡◌, refl, ap, arith, Bool, true, false, List, [], ◌++◌, append-nil, some, length, All,
}
use plairo.Common.{IsByte, IsU32, IsU64, ◌^◌, ◌<◌}
use plairo.Utils.Serializer.{
  serialize_uint16, serialize_uint32, serialize_uint64, deserialize_uint16, deserialize_uint32,
  deserialize_uint64,
}

-- The number of bytes, and that they are bytes.
pub length-serialize_uint32 : (v : ℕ) (le : Bool) → length (serialize_uint32 v le) ≡ 4
unfolding serialize_uint32
length-serialize_uint32 v true = refl
length-serialize_uint32 v false = refl

pub length-serialize_uint64 : (v : ℕ) (le : Bool) → length (serialize_uint64 v le) ≡ 8
unfolding serialize_uint64
length-serialize_uint64 v true = refl
length-serialize_uint64 v false = refl

pub serialize_uint32-IsByte : (v : ℕ) (le : Bool) → All IsByte (serialize_uint32 v le)
unfolding serialize_uint32
serialize_uint32-IsByte v true = omega arith
serialize_uint32-IsByte v false = omega arith

pub serialize_uint64-IsByte : (v : ℕ) (le : Bool) → All IsByte (serialize_uint64 v le)
unfolding serialize_uint64
serialize_uint64-IsByte v true = omega arith
serialize_uint64-IsByte v false = omega arith

pub deserialize-serialize_uint16 :
    (v : ℕ) (le : Bool) (rest : List ℕ)
    → v < 2 ^ 16
    → deserialize_uint16 (serialize_uint16 v le ++ rest) le ≡ some v
unfolding serialize_uint16 deserialize_uint16
deserialize-serialize_uint16 v true rest h = ap some (omega arith)
deserialize-serialize_uint16 v false rest h = ap some (omega arith)

pub deserialize-serialize_uint32 :
    (v : ℕ) (le : Bool) (rest : List ℕ)
    → IsU32 v
    → deserialize_uint32 (serialize_uint32 v le ++ rest) le ≡ some v
unfolding serialize_uint32 deserialize_uint32
deserialize-serialize_uint32 v true rest h = ap some (omega arith)
deserialize-serialize_uint32 v false rest h = ap some (omega arith)

-- Reading a uint64 from its eight bytes gives it back, in either byte order and whatever bytes follow.
deserialize-serialize_uint64 :
    (v : ℕ) (le : Bool) (rest : List ℕ)
    → IsU64 v
    → deserialize_uint64 (serialize_uint64 v le ++ rest) le ≡ some v
unfolding serialize_uint64 deserialize_uint64
deserialize-serialize_uint64 v true rest h = ap some (omega arith)
deserialize-serialize_uint64 v false rest h = ap some (omega arith)

-- The whole slice read back.
pub uint32_back :
    (v : ℕ) (le : Bool) → IsU32 v → deserialize_uint32 (serialize_uint32 v le) le ≡ some v
uint32_back v le h = rw append-nil at (deserialize-serialize_uint32 v le [] h)

pub uint64_back :
    (v : ℕ) (le : Bool) → IsU64 v → deserialize_uint64 (serialize_uint64 v le) le ≡ some v
uint64_back v le h = rw append-nil at (deserialize-serialize_uint64 v le [] h)
