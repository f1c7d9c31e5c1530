-- ===== src/Core/Mining/Search.antt =====
-- The headers that the loop of `MineBlock` tries.
use plairo.Common.{
  ℕ, zero, suc, ◌+◌, ◌-◌, ◌*◌, ◌/◌, ◌%◌, ◌^◌, ◌≤◌, ◌<◌, ◌≡◌, ◌⊎◌, refl, sym, arith, ltb, ◌==◌, Bool,
  true, false, Bool-cases, inl, inr, Outcome, returns,
}
use mathlib.Core.Path.{subst}
use plairo.Common.{List, some}
use plairo.Utils.Serializer.{serialize_uint32}
use plairo.Utils.Target.{expand_bits, bytes_less}
use plairo.Core.Header.{BlockHeader, get_hash}
use plairo.Core.Mining.{stale, again, next_try, turn, mine_loop}

-- The header of the try `i`: the nonces in order, a second later after the last of them.
abbrev pub try : BlockHeader → ℕ → BlockHeader
try header i = record header {
  nonce = (header.nonce + i) % 2 ^ 32;
  timestamp = (header.timestamp + (header.nonce + i) / 2 ^ 32) % 2 ^ 64;
}

-- The tries from a nonce to the end of the 30th bump.
abbrev pub tries : BlockHeader → ℕ
tries header = 31 * 2 ^ 32 - header.nonce

again_at :
    (header : BlockHeader) {nonce nonce' timestamp timestamp' time_bumps time_bumps' : ℕ}
    → nonce ≡ nonce'
    → timestamp ≡ timestamp'
    → time_bumps ≡ time_bumps'
    → again (record header { nonce = nonce; timestamp = timestamp }) time_bumps
      ≡ again (record header { nonce = nonce'; timestamp = timestamp' }) time_bumps'
again_at header p q r = cc

next_try-again :
    (header : BlockHeader) (i : ℕ)
    → suc i < tries header
    → next_try (try header i) ((header.nonce + i) / 2 ^ 32)
      ≡ again (try header (suc i)) ((header.nonce + suc i) / 2 ^ 32)
unfolding next_try
next_try-again header i l = elim (Bool-cases (((header.nonce + i) % 2 ^ 32 + 1) % 2 ^ 32 == 0)) [
  | inl wraps ↦
      rw (next_try, wraps, early wraps) (again_at header (omega arith) (bumped wraps) (next wraps))
  | inr goes_on ↦
      rw (next_try, goes_on) (again_at header (omega arith) (kept goes_on) (same goes_on))
]
  where
    next :
        (((header.nonce + i) % 2 ^ 32 + 1) % 2 ^ 32 == 0) ≡ true
        → (header.nonce + i) / 2 ^ 32 + 1 ≡ (header.nonce + suc i) / 2 ^ 32
    next w = ground arith

    early :
        (((header.nonce + i) % 2 ^ 32 + 1) % 2 ^ 32 == 0) ≡ true
        → ltb ((header.nonce + i) / 2 ^ 32) 30 ≡ true
    early w = ground arith

    bumped :
        (((header.nonce + i) % 2 ^ 32 + 1) % 2 ^ 32 == 0) ≡ true
        → ((header.timestamp + (header.nonce + i) / 2 ^ 32) % 2 ^ 64 + 1) % 2 ^ 64
          ≡ (header.timestamp + (header.nonce + suc i) / 2 ^ 32) % 2 ^ 64
    bumped w = let e = next w in omega arith

    same :
        (((header.nonce + i) % 2 ^ 32 + 1) % 2 ^ 32 == 0) ≡ false
        → (header.nonce + i) / 2 ^ 32 ≡ (header.nonce + suc i) / 2 ^ 32
    same w = ground arith

    kept :
        (((header.nonce + i) % 2 ^ 32 + 1) % 2 ^ 32 == 0) ≡ false
        → (header.timestamp + (header.nonce + i) / 2 ^ 32) % 2 ^ 64
          ≡ (header.timestamp + (header.nonce + suc i) / 2 ^ 32) % 2 ^ 64
    kept w = let e = same w in omega arith

next_try-stale :
    (header : BlockHeader) (i : ℕ)
    → header.nonce + suc i ≡ 31 * 2 ^ 32
    → (left : BlockHeader) × (next_try (try header i) ((header.nonce + i) / 2 ^ 32) ≡ stale left)
unfolding next_try
next_try-stale header i l =
    let wraps : (((header.nonce + i) % 2 ^ 32 + 1) % 2 ^ 32 == 0) ≡ true = ground arith in
    let late : ltb ((header.nonce + i) / 2 ^ 32) 30 ≡ false = ground arith in
    let left = record header {
      nonce = ((header.nonce + i) % 2 ^ 32 + 1) % 2 ^ 32;
      timestamp = (header.timestamp + (header.nonce + i) / 2 ^ 32) % 2 ^ 64;
    } in
    (left, rw (next_try, wraps, late) refl)

try_same :
    (header : BlockHeader) {nonce timestamp : ℕ}
    → nonce ≡ header.nonce
    → timestamp ≡ header.timestamp
    → record header { nonce = nonce; timestamp = timestamp } ≡ header
try_same header p q = cc

module _ (sha256 : List ℕ → List ℕ) (target : List ℕ) where
  abbrev pub Hits : BlockHeader → Type 0
  Hits header = bytes_less (get_hash sha256 header) target ≡ true

  abbrev pub Misses : BlockHeader → Type 0
  Misses header = bytes_less (get_hash sha256 header) target ≡ false

  -- The first try that hits.
  pub record FirstHit (header left : BlockHeader) : Type 0 where
    pub i : ℕ
    pub in_time : i < tries header
    pub is_try : left ≡ try header i
    pub hits : Hits left
    pub first : (j : ℕ) → j < i → Misses (try header j)

  -- The loop from the try `i` on, with no hit before.
  pub data Search (header : BlockHeader) : Outcome (BlockHeader × Bool) → Type 0 where
    hit : {left : BlockHeader} → FirstHit header left → Search header (returns (left, false))
    missed :
        {left : BlockHeader}
        → ((j : ℕ) → j < tries header → Misses (try header j))
        → Search header (returns (left, true))

  misses_below :
      (header : BlockHeader) (i : ℕ)
      → ((j : ℕ) → j < i → Misses (try header j))
      → Misses (try header i)
      → (j : ℕ) → j < suc i
      → Misses (try header j)
  misses_below header i before here j l = elim (last_or_before) [
    | inl same ↦ subst (λ k. Misses (try header k)) (sym same) here
    | inr below ↦ before j below
  ]
    where
      last_or_before : (j ≡ i) ⊎ (j < i)
      last_or_before = ground arith

  mine_loop-Search_from :
      (fuel i : ℕ) (header : BlockHeader)
      → expand_bits (serialize_uint32 header.target_bits false) ≡ some target
      → i < tries header
      → tries header ≤ i + fuel
      → ((j : ℕ) → j < i → Misses (try header j))
      → Search header (mine_loop sha256 fuel (try header i) ((header.nonce + i) / 2 ^ 32))
  unfolding mine_loop turn
  mine_loop-Search_from zero i header e l enough before = absurd (omega arith)
  mine_loop-Search_from (suc fuel) i header e l enough before =
      elim (Bool-cases (bytes_less (get_hash sha256 (try header i)) target)) [
        | inl hits ↦
            rw (mine_loop, turn, e, hits)
              (hit (record { i = i; in_time = l; is_try = refl; hits = hits; first = before }))
        | inr misses ↦ elim (next_or_last) [
          | inl next ↦
              rw (mine_loop, turn, e, misses, next_try-again header i next)
                (mine_loop-Search_from fuel (suc i) header e next (omega arith)
                  (misses_below header i before misses))
          | inr last ↦
              let (left, is_stale) = next_try-stale header i (omega arith) in
              rw (mine_loop, turn, e, misses, is_stale)
                (missed (
                  subst (λ n. (j : ℕ) → j < n → Misses (try header j)) last
                    (misses_below header i before misses)))
        ]
      ]
    where
      next_or_last : (suc i < tries header) ⊎ (suc i ≡ tries header)
      next_or_last = ground arith

  -- With the fuel of all tries, the loop of `MineBlock` from a header whose target expands ends: it
  -- returns the first try whose hash is below the target, or, when no try at any nonce up to the
  -- 30th bump of the timestamp is below, it reports a stale block.
  pub mine_loop-Search :
      (fuel : ℕ) (header : BlockHeader)
      → header.nonce < 2 ^ 32
      → header.timestamp < 2 ^ 64
      → expand_bits (serialize_uint32 header.target_bits false) ≡ some target
      → tries header ≤ fuel
      → Search header (mine_loop sha256 fuel header 0)
  mine_loop-Search fuel header is_u32 is_u64 e enough =
      let start : try header 0 ≡ header = try_same header (omega arith) (omega arith) in
      let no_bumps : (header.nonce + 0) / 2 ^ 32 ≡ 0 = omega arith in
      subst (λ h. Search header (mine_loop sha256 fuel h 0)) start
        (subst (λ b. Search header (mine_loop sha256 fuel (try header 0) b)) no_bumps
          (mine_loop-Search_from fuel 0 header e (omega arith) (omega arith)
            λ j l. absurd (omega arith)))
