-- ===== src/Core/Mining/Left.antt =====
-- The header that the loop of `MineBlock` leaves.
use plairo.Common.{
  ℕ, zero, suc, ◌⊎◌, ◌==◌, ◌+◌, ◌%◌, ◌^◌, ◌≡◌, refl, ◌∙◌, ltb, Bool, true, false, Bool-cases,
  Option-cases, inl, inr, Outcome, returns, panics,
}
use mathlib.Core.Path.{subst}
use plairo.Common.{List, some}
use plairo.Utils.Serializer.{serialize_uint32}
use plairo.Utils.Target.{expand_bits, bytes_less}
use plairo.Core.Header.{BlockHeader, get_hash}
use plairo.Core.Mining.{next_try, mined, turn_panics, stale, again, turn, mine_loop}

-- What the loop never changes.
pub record SameWork (header left : BlockHeader) : Type 0 where
  pub same_previous : left.previous_block_hash ≡ header.previous_block_hash
  pub same_root : left.merkle_root ≡ header.merkle_root
  pub same_bits : left.target_bits ≡ header.target_bits

SameWork-trans : {a b c : BlockHeader} → SameWork a b → SameWork b c → SameWork a c
SameWork-trans s t = record {
  same_previous = t.same_previous ∙ s.same_previous;
  same_root = t.same_root ∙ s.same_root;
  same_bits = t.same_bits ∙ s.same_bits;
}

next_try-SameWork :
    (header : BlockHeader) (time_bumps : ℕ)
    → ((header' : BlockHeader) × (time_bumps' : ℕ) × (next_try header time_bumps
          ≡ again header' time_bumps')
        × SameWork header header')
      ⊎ ((header' : BlockHeader) × (next_try header time_bumps ≡ stale header'))
unfolding next_try
next_try-SameWork header time_bumps = elim (Bool-cases ((header.nonce + 1) % 2 ^ 32 == 0)) [
  | inr goes_on ↦ inl (
    record header { nonce = (header.nonce + 1) % 2 ^ 32 },
    time_bumps,
    rw (next_try, goes_on) refl,
    same,
  )
  | inl wraps ↦ elim (Bool-cases (ltb time_bumps 30)) [
    | inl early ↦ inl (
      record header {
        nonce = (header.nonce + 1) % 2 ^ 32;
        timestamp = (header.timestamp + 1) % 2 ^ 64;
      },
      time_bumps + 1,
      rw (next_try, wraps, early) refl,
      same,
    )
    | inr late ↦
        inr (record header { nonce = (header.nonce + 1) % 2 ^ 32 }, rw (next_try, wraps, late) refl)
  ]
]
  where
    same :
        {nonce timestamp : ℕ}
        → SameWork header (record header { nonce = nonce; timestamp = timestamp })
    same = record { same_previous = refl; same_root = refl; same_bits = refl }

module _ (sha256 : List ℕ → List ℕ) where
  -- The hash is below the target that the target bits of the header stand for.
  abbrev pub MeetsTarget : BlockHeader → Type 0
  MeetsTarget header =
      (target : List ℕ) × (expand_bits (serialize_uint32 header.target_bits false) ≡ some target)
      × (bytes_less (get_hash sha256 header) target ≡ true)

  -- A turn that finds a hash below the target, goes on, or stops.
  abbrev TurnOf : BlockHeader → ℕ → Type 0
  TurnOf header time_bumps =
      ((turn sha256 header time_bumps ≡ mined) × MeetsTarget header)
      ⊎ (((header' : BlockHeader) × (time_bumps' : ℕ) × (turn sha256 header time_bumps
              ≡ again header' time_bumps')
            × SameWork header header')
          ⊎ (((header' : BlockHeader) × (turn sha256 header time_bumps ≡ stale header'))
              ⊎ (turn sha256 header time_bumps ≡ turn_panics)))

  turn-cases : (header : BlockHeader) (time_bumps : ℕ) → TurnOf header time_bumps
  unfolding turn get_hash
  turn-cases header time_bumps =
      elim (Option-cases (expand_bits (serialize_uint32 header.target_bits false))) [
        | inl e ↦ inr (inr (inr (rw (turn, e) refl)))
        | inr (target, e) ↦ elim (Bool-cases (bytes_less (get_hash sha256 header) target)) [
          | inl hits ↦ inl (rw (turn, e, hits) refl, (target, e, hits))
          | inr misses ↦ elim (next_try-SameWork header time_bumps) [
            | inl (header', time_bumps', next, same) ↦
                inr (inl (header', time_bumps', rw (turn, e, misses) next, same))
            | inr (header', next) ↦ inr (inr (inl (header', rw (turn, e, misses) next)))
          ]
        ]
      ]

  pub mine_loop-left :
      (fuel : ℕ) (header left : BlockHeader) (time_bumps : ℕ)
      → mine_loop sha256 fuel header time_bumps ≡ returns (left, false)
      → SameWork header left × (MeetsTarget left)
  unfolding mine_loop
  mine_loop-left zero header left time_bumps p = cc
  mine_loop-left (suc fuel) header left time_bumps p = elim (turn-cases header time_bumps) [
    | inl (t, accepts) ↦ found (rw (mine_loop, t) at p) accepts
    | inr (inl (header', time_bumps', t, same)) ↦
        let (rest, accepts) =
          mine_loop-left fuel header' left time_bumps' (rw (mine_loop, t) at p) in
        (SameWork-trans same rest, accepts)
    | inr (inr (inl (header', t))) ↦ absurd (not_stale (rw (mine_loop, t) at p))
    | inr (inr (inr t)) ↦ absurd (no_panic (rw (mine_loop, t) at p))
  ]
    where
      same_header :
          ◌≡◌ {A = Outcome (BlockHeader × Bool)} (returns (header, false)) (returns (left, false))
          → header ≡ left
      same_header q = cc

      found :
          ◌≡◌ {A = Outcome (BlockHeader × Bool)} (returns (header, false)) (returns (left, false))
          → MeetsTarget header
          → SameWork header left × (MeetsTarget left)
      found q accepts =
          subst (λ h. SameWork header h × (MeetsTarget h)) (same_header q)
            (record { same_previous = refl; same_root = refl; same_bits = refl }, accepts)

      not_stale :
          {h : BlockHeader}
          → ◌≡◌ {A = Outcome (BlockHeader × Bool)} (returns (h, true)) (returns (left, false))
          → ⊥
      not_stale q = cc

      no_panic : ◌≡◌ {A = Outcome (BlockHeader × Bool)} panics (returns (left, false)) → ⊥
      no_panic q = cc
