-- ===== src/Core/Header/Laws.antt =====
-- The header's serialization reads back; what `ValidateBlockHeader` comes to.
use plairo.Common.{ℕ, zero, suc, ◌≤◌, ◌≡◌, ◌≢◌, refl, arith, ltb, not, ◌==◌, true, false, Bool}
use plairo.Common.{
  List, [], ◌++◌, length, Option, none, some, ◌>>=◌, slice, slice_at, IsU32, IsU64, append_assoc,
}
use plairo.Common.{length-append, append-nil, if◌then◌else◌}
use plairo.Utils.Serializer.{
  serialize_uint32, serialize_uint64, deserialize_uint32, deserialize_uint64,
}
use plairo.Utils.Serializer.Laws.{
  length-serialize_uint32, length-serialize_uint64, uint32_back, uint64_back,
}
use plairo.Core.Header.{
  BlockHeader, serialize_header, read_previous_hash, read_merkle_root, read_timestamp,
  read_target_bits, read_nonce, Verdict, accepted, rejected, panicked, deeper, HeaderError,
  invalid_header_length, invalid_timestamp, or_panic, if_accepted, check_target,
  validate_block_header,
}

-- A header with hashes of 32 bytes and numbers in range.
pub record IsHeader (bh : BlockHeader) : Type 0 where
  pub previous_length : length bh.previous_block_hash ≡ 32
  pub merkle_length : length bh.merkle_root ≡ 32
  pub timestamp_range : IsU64 bh.timestamp
  pub nonce_range : IsU32 bh.nonce
  pub target_range : IsU32 bh.target_bits

-- A well-formed header takes 80 bytes, and the reader returns each of its five fields.
pub read-serialize_header :
    (bh : BlockHeader)
    → IsHeader bh
    → let m = serialize_header bh in
      (length m ≡ 80)
      × (read_previous_hash m ≡ some bh.previous_block_hash)
      × (read_merkle_root m ≡ some bh.merkle_root)
      × (read_timestamp m ≡ some bh.timestamp)
      × (read_target_bits m ≡ some bh.target_bits)
      × (read_nonce m ≡ some bh.nonce)
unfolding serialize_header read_previous_hash read_merkle_root read_timestamp read_target_bits
    read_nonce
read-serialize_header bh ok =
    let prev = bh.previous_block_hash in
    let merkle = bh.merkle_root in
    let time = serialize_uint64 bh.timestamp false in
    let target = serialize_uint32 bh.target_bits false in
    let nonce = serialize_uint32 bh.nonce false in
    let whole = prev ++ (merkle ++ (time ++ (target ++ nonce))) in
    let l_time = length-serialize_uint64 bh.timestamp false in
    let l_target = length-serialize_uint32 bh.target_bits false in
    let l_nonce = length-serialize_uint32 bh.nonce false in
    let l_front = length-append prev merkle in
    let l_dated = length-append (prev ++ merkle) time in
    let l_aimed = length-append ((prev ++ merkle) ++ time) target in
    (
      omega (
        arith,
        ok,
        l_time,
        l_target,
        l_nonce,
        length-append prev (merkle ++ (time ++ (target ++ nonce))),
        length-append merkle (time ++ (target ++ nonce)),
        length-append time (target ++ nonce),
        length-append target nonce,
      ),
      slice_at whole [] prev (merkle ++ (time ++ (target ++ nonce))) 0 32 refl refl
          (omega (arith, ok)),
      slice_at whole prev merkle (time ++ (target ++ nonce)) 32 64 refl (omega (arith, ok))
          (omega (arith, ok)),
      rw
          (slice_at whole (prev ++ merkle) time (target ++ nonce) 64 72 (simp append_assoc)
            (omega (arith, ok)) (omega arith))
          (uint64_back bh.timestamp false ok.timestamp_range),
      rw
          (slice_at whole ((prev ++ merkle) ++ time) target nonce 72 76 (simp append_assoc)
            (omega (arith, ok)) (omega arith))
          (uint32_back bh.target_bits false ok.target_range),
      rw
          (slice_at whole (((prev ++ merkle) ++ time) ++ target) nonce [] 76 80
            (simp (append_assoc, append-nil)) (omega (arith, ok)) (omega arith))
          (uint32_back bh.nonce false ok.nonce_range),
    )

if_accepted-ne-accepted : (v w : Verdict) → v ≢ accepted → if_accepted v w ≢ accepted
if_accepted-ne-accepted accepted w h p = absurd (h refl)
if_accepted-ne-accepted (rejected e) w h p = cc
if_accepted-ne-accepted panicked w h p = cc
if_accepted-ne-accepted deeper w h p = cc

or_panic-ne-accepted {ℓ} :
    {A : Type ℓ} (o : Option A) (f : A → Verdict)
    → ((a : A) → f a ≢ accepted)
    → or_panic o f ≢ accepted
or_panic-ne-accepted none f h p = cc
or_panic-ne-accepted (some a) f h p = h a p

if-ne-accepted :
    (b : Bool) (e : HeaderError) (v : Verdict)
    → v ≢ accepted
    → (if b then rejected e else v) ≢ accepted
if-ne-accepted true e v h p = cc
if-ne-accepted false e v h p = h p

-- `ValidateBlockHeader` accepts no header at all: whatever the header, the clock and the hash
-- function, no call returns a nil error, however deep the calls are followed.
pub validate_block_header-ne-accepted :
    (sha256 : List ℕ → List ℕ) (clock : ℕ → ℕ) (fuel depth : ℕ) (block_header : List ℕ)
    → validate_block_header sha256 clock fuel depth block_header ≢ accepted
unfolding validate_block_header
validate_block_header-ne-accepted sha256 clock zero depth block_header p = cc
validate_block_header-ne-accepted sha256 clock (suc fuel) depth block_header p =
    if-ne-accepted (not (length block_header == 80)) invalid_header_length _
      (or_panic-ne-accepted (slice block_header 64 72 >>= λ s. deserialize_uint64 s false) _
        λ timestamp. if-ne-accepted (ltb (clock depth) timestamp) invalid_timestamp _ (
          or_panic-ne-accepted (slice block_header 76 80 >>= λ s. deserialize_uint32 s false) _
            λ target_bits.
              if_accepted-ne-accepted _ (check_target sha256 block_header target_bits)
                (validate_block_header-ne-accepted sha256 clock fuel (suc depth) block_header)))
      p

-- On the serialization of a well-formed header that is not dated after the clock at any depth, the
-- function calls itself without end: it goes deeper than every bound.
pub validate_block_header-deeper :
    (sha256 : List ℕ → List ℕ) (clock : ℕ → ℕ) (fuel depth : ℕ) (bh : BlockHeader)
    → IsHeader bh
    → ((i : ℕ) → bh.timestamp ≤ clock i)
    → validate_block_header sha256 clock fuel depth (serialize_header bh) ≡ deeper
unfolding validate_block_header
validate_block_header-deeper sha256 clock zero depth bh ok past = refl
validate_block_header-deeper sha256 clock (suc fuel) depth bh ok past =
    let reads = read-serialize_header bh ok in
    let m = serialize_header bh in
    let dated : (slice m 64 72 >>= λ s. deserialize_uint64 s false) ≡ some bh.timestamp =
      unfold read_timestamp in reads.3 in
    let aimed : (slice m 76 80 >>= λ s. deserialize_uint32 s false) ≡ some bh.nonce =
      unfold read_nonce in reads.5 in
    rw
      (
        validate_block_header-deeper sha256 clock fuel (suc depth) bh ok past,
        reads.0,
        dated,
        not_future,
        aimed,
      )
      refl
  where
    not_future : ltb (clock depth) bh.timestamp ≡ false
    not_future = ground (arith, past depth)
