-- ===== src/Core/Header.antt =====
-- `BlockHeader` and `ValidateBlockHeader` of core/block.go, core/block_header_reader.go. A timestamp
-- is the int64's bit pattern, which both casts between int64 and uint64 keep.
pub mod Laws
use plairo.Common.{ℕ, zero, suc, ◌+◌, ◌==◌, ltb, not, Bool, true, false, if◌then◌else◌}
use plairo.Common.{List, ◌++◌, length, Option, none, some, ◌>>=◌, slice}
use plairo.Utils.Serializer.{
  serialize_uint32, serialize_uint64, deserialize_uint32, deserialize_uint64,
}
use plairo.Utils.Target.{expand_bits, bytes_less}
use plairo.Core.Output.{double_hash}

pub record BlockHeader : Type 0 where
  pub previous_block_hash : List ℕ
  pub merkle_root : List ℕ
  pub timestamp : ℕ
  pub nonce : ℕ
  pub target_bits : ℕ

unfoldable pub serialize_header : BlockHeader → List ℕ
serialize_header bh =
    bh.previous_block_hash
    ++ (bh.merkle_root
        ++ (serialize_uint64 bh.timestamp false
            ++ (serialize_uint32 bh.target_bits false ++ serialize_uint32 bh.nonce false)))

unfoldable pub read_previous_hash : List ℕ → Option (List ℕ)
read_previous_hash block_header = slice block_header 0 32

unfoldable pub read_merkle_root : List ℕ → Option (List ℕ)
read_merkle_root block_header = slice block_header 32 64

unfoldable pub read_timestamp : List ℕ → Option ℕ
read_timestamp block_header = slice block_header 64 72 >>= λ s. deserialize_uint64 s false

unfoldable pub read_target_bits : List ℕ → Option ℕ
read_target_bits block_header = slice block_header 72 76 >>= λ s. deserialize_uint32 s false

unfoldable pub read_nonce : List ℕ → Option ℕ
read_nonce block_header = slice block_header 76 80 >>= λ s. deserialize_uint32 s false

pub data HeaderError : Type 0 where
  invalid_header_length invalid_timestamp target_not_reached : HeaderError

-- What a call comes to: a nil error, an error, a panic; `deeper` if the calls go deeper than the fuel.
pub data Verdict : Type 0 where
  accepted : Verdict
  rejected : HeaderError → Verdict
  panicked : Verdict
  deeper : Verdict

abbrev pub or_panic {ℓ} : {A : Type ℓ} → Option A → (A → Verdict) → Verdict
or_panic none f = panicked
or_panic (some a) f = f a

-- `if err := ValidateBlockHeader(blockHeader); err != nil { return err }`
abbrev pub if_accepted : Verdict → Verdict → Verdict
if_accepted accepted next = next
if_accepted (rejected e) next = rejected e
if_accepted panicked next = panicked
if_accepted deeper next = deeper

module _ (sha256 : List ℕ → List ℕ) where
  unfoldable pub get_hash : BlockHeader → List ℕ
  get_hash bh = double_hash sha256 (serialize_header bh)

  -- The mining test behind the recursive call.
  unfoldable pub check_target : List ℕ → ℕ → Verdict
  check_target block_header target_bits =
      or_panic (expand_bits (serialize_uint32 target_bits false)) λ target.
        if bytes_less (double_hash sha256 block_header) target
        then accepted
        else rejected target_not_reached

  -- The function calls itself on the same header. `clock` is the time at each depth of the calls,
  -- the fuel the depth that is followed.
  unfoldable pub validate_block_header : (ℕ → ℕ) → ℕ → ℕ → List ℕ → Verdict
  validate_block_header clock zero depth block_header = deeper
  validate_block_header clock (suc fuel) depth block_header =
      let inner = validate_block_header clock fuel (suc depth) block_header in
      if not (length block_header == 80)
      then rejected invalid_header_length
      else or_panic (slice block_header 64 72 >>= λ s. deserialize_uint64 s false) λ timestamp.
        if ltb (clock depth) timestamp
        then rejected invalid_timestamp
        else or_panic (slice block_header 76 80 >>= λ s. deserialize_uint32 s false)
            λ target_bits. if_accepted inner (check_target block_header target_bits)
