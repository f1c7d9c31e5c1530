-- ===== src/Tests/Headers.antt =====
-- Block headers at a concrete input.
use plairo.Common.{ℕ, ◌+◌, ◌%◌, ◌≡◌, refl, arith, List, [], ◌∷◌, ◌++◌, length, replicate, some}
use plairo.Core.Header.{
  BlockHeader, serialize_header, read_previous_hash, read_merkle_root, read_timestamp,
  read_target_bits, read_nonce, deeper, validate_block_header,
}
use plairo.Core.Header.Laws.{IsHeader, read-serialize_header, validate_block_header-deeper}

abbrev toy_hash : List ℕ → List ℕ
toy_hash msg = replicate 31 0 ++ (length msg % 256 ∷ [])

abbrev genesis : BlockHeader
genesis = record {
  previous_block_hash = replicate 32 0;
  merkle_root = replicate 32 7;
  timestamp = 1650000000;
  nonce = 0x05ffffff;
  target_bits = 0x1dffffff;
}

genesis-IsHeader : IsHeader genesis
genesis-IsHeader = record {
  previous_length = refl;
  merkle_length = refl;
  timestamp_range = omega arith;
  nonce_range = omega arith;
  target_range = omega arith;
}

read-serialize_header_example :
    let m = serialize_header genesis in
    (length m ≡ 80)
    × (read_previous_hash m ≡ some genesis.previous_block_hash)
    × (read_merkle_root m ≡ some genesis.merkle_root)
    × (read_timestamp m ≡ some 1650000000)
    × (read_target_bits m ≡ some 0x1dffffff)
    × (read_nonce m ≡ some 0x05ffffff)
read-serialize_header_example = read-serialize_header genesis genesis-IsHeader

validate_block_header-deeper_example :
    validate_block_header toy_hash (λ i. 1700000000 + i) 9 0 (serialize_header genesis) ≡ deeper
validate_block_header-deeper_example =
    validate_block_header-deeper toy_hash (λ i. 1700000000 + i) 9 0 genesis genesis-IsHeader
      (λ i. omega arith)
