-- ===== src/Core/Metadata.antt =====
-- core/txmetadata_reader.go: the reader of the records that the chainstate stores.
pub mod Bits
pub mod Records
pub mod RoundTrip
pub mod Bytes
use Prim.Native.Nat.{bit_and}
use plairo.Common.{ℕ, zero, suc, ◌+◌, ◌-◌, ◌/◌, ◌%◌, ◌^◌, ◌==◌, leb, ◌||◌, not, Bool, true, false}
use plairo.Common.{
  List, [], ◌∷◌, length, get_elem?, Option, none, some, ◌>>=◌, if◌then◌else◌, slice,
}
use plairo.Utils.Serializer.{deserialize_uint32, deserialize_uint64}
use plairo.Utils.OneHot.{ceil_div8}
use plairo.Core.Output.{TransactionOutput, new_transaction_output}

pub record TxMetadataReader : Type 0 where
  pub txid : List ℕ
  pub metadata : List ℕ

unfoldable pub read_is_coinbase : TxMetadataReader → Option Bool
read_is_coinbase tr = get_elem? tr.metadata 0 >>= λ b. some (b == 0x01)

unfoldable pub read_block_height : TxMetadataReader → Option ℕ
read_block_height tr = slice tr.metadata 1 5 >>= λ s. deserialize_uint32 s false

unfoldable pub read_no_of_outputs : TxMetadataReader → Option ℕ
read_no_of_outputs tr = slice tr.metadata 5 9 >>= λ s. deserialize_uint32 s false

-- The test of one bit, `b & (0x01 << (i % 8)) == byte(math.Pow(2, float64(i % 8)))`.
abbrev pub bit_test : ℕ → ℕ → Bool
bit_test b i = bit_and b (2 ^ (i % 8) % 256) == 2 ^ (i % 8) % 256

-- The loop of `ReadBitVector` over the `rounds` indices from `i` on: the flags, and the indices of
-- those that are set.
unfoldable pub read_bits : ℕ → ℕ → ℕ → List ℕ → Option (List Bool × List ℕ)
read_bits zero i size_in_bytes bvec = some ([], [])
read_bits (suc rounds) i size_in_bytes bvec = get_elem? bvec ((size_in_bytes - 1) - i / 8) >>= λ b.
    read_bits rounds (suc i) size_in_bytes bvec >>= λ (res, vouts).
    some (bit_test b i ∷ res, if bit_test b i then i ∷ vouts else vouts)

unfoldable pub read_bit_vector : TxMetadataReader → Option (List Bool × List ℕ)
read_bit_vector tr = read_no_of_outputs tr >>= λ n.
    slice tr.metadata 9 (9 + ceil_div8 n) >>= λ bvec. read_bits n 0 (ceil_div8 n) bvec

module _ (sha256 : List ℕ → List ℕ) where
  -- The loop of `ReadOutputs`; `caret` is a uint64.
  unfoldable pub read_records : TxMetadataReader → ℕ → List ℕ → Option (List TransactionOutput)
  read_records tr caret [] = some []
  read_records tr caret (vout ∷ vouts) = slice tr.metadata caret (caret + 8) >>= λ v.
      deserialize_uint64 v false >>= λ val. slice tr.metadata (caret + 8) (caret + 16) >>= λ l.
      deserialize_uint64 l false >>= λ slen.
      slice tr.metadata (caret + 16) ((caret + 16 + slen) % 2 ^ 64) >>= λ scpub.
      read_records tr ((caret + 16 + slen) % 2 ^ 64) vouts >>= λ res.
      some (new_transaction_output sha256 tr.txid vout val scpub ∷ res)

  -- `none` stands for a nil slice.
  unfoldable pub read_outputs :
      TxMetadataReader → Option (List Bool) → Option (List ℕ) → Option (List TransactionOutput)
  read_outputs tr (some not_spent_vec) (some vouts) = read_no_of_outputs tr >>= λ n.
      if length not_spent_vec % 2 ^ 32 == n
      then read_records tr (9 + ceil_div8 n) vouts
      else (read_bit_vector tr >>= λ bv. read_records tr (9 + ceil_div8 n) bv.1)
  read_outputs tr _ _ = read_no_of_outputs tr >>= λ n.
      read_bit_vector tr >>= λ bv. read_records tr (9 + ceil_div8 n) bv.1

-- `var vouts []uint32` is nil until something is appended.
abbrev pub vouts_slice : List ℕ → Option (List ℕ)
vouts_slice [] = none
vouts_slice (v ∷ vouts) = some (v ∷ vouts)
