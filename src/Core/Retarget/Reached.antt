-- ===== src/Core/Retarget/Reached.antt =====
-- `GetTargetForBlock` on the ledgers that `InsertBlock` leads to.
use plairo.Common.{
  ℕ, ◌<◌, ◌≢◌, ◌+◌, ◌-◌, ◌%◌, ◌^◌, ◌==◌, ltb, not, true, false, Bool-cases, if◌then◌else◌, none,
  some, List, ◌≡◌, refl, ◌∙◌, ap, inl, inr, arith,
}
use plairo.Core.Validate.{Ecdsa}
use plairo.Utils.Retarget.{Float64}
use plairo.Core.Header.{BlockHeader, Verdict}
use plairo.Core.CState.{CState}
use plairo.Core.Blockchain.{Genesis, create_genesis_node, IStorage, Ledger}
use plairo.Core.Blockchain.Single.{Reachable, get_header_at-Reachable}
use plairo.Core.Retarget.{
  retarget_interval, expected_time_per_block_in_sec, interval_start, calculate_target_for_block,
  target_since, get_target_for_block,
}

module _ (f : Float64) (sha256 : List ℕ → List ℕ) (ecdsa : Ecdsa) (cs : CState) (st : IStorage)
    (check_header : List ℕ → Verdict) (g : Genesis) where
  since_genesis :
      (l : Ledger cs st) (last : BlockHeader)
      → Reachable sha256 ecdsa cs st check_header g l
      → target_since f l.blockchain last (0, expected_time_per_block_in_sec)
        ≡ some (
            calculate_target_for_block f last (
              ((create_genesis_node g).header.timestamp + expected_time_per_block_in_sec) % 2 ^ 64))
  unfolding target_since
  since_genesis l last r =
      rw (target_since, get_header_at-Reachable sha256 ecdsa cs st check_header g l 0 r) refl

  since_no_block :
      (l : Ledger cs st) (last : BlockHeader) (start timecomp : ℕ)
      → Reachable sha256 ecdsa cs st check_header g l
      → (start == 0) ≡ false
      → target_since f l.blockchain last (start, timecomp) ≡ none
  unfolding target_since
  since_no_block l last start timecomp r behind =
      rw (target_since, get_header_at-Reachable sha256 ecdsa cs st check_header g l start r, behind)
        refl

  -- In a ledger reached from `CreateBlockchain`, `GetTargetForBlock` of any height of 32 bits keeps
  -- the target where no interval ends, computes a target from the genesis timestamp for the height
  -- 2015 and panics at the end of every later interval.
  pub get_target_for_block-Reachable :
      (l : Ledger cs st) (last_block_header : BlockHeader) (last_block_height : ℕ)
      → Reachable sha256 ecdsa cs st check_header g l
      → last_block_height < 2 ^ 32
      → get_target_for_block f l.blockchain last_block_header last_block_height ≡ (
          if not ((last_block_height + 1) % 2 ^ 32 % retarget_interval == 0)
          then some last_block_header.target_bits
          else if last_block_height == 2015
          then some (
              calculate_target_for_block f last_block_header (
                ((create_genesis_node g).header.timestamp + expected_time_per_block_in_sec)
                % 2 ^ 64))
          else none)
  unfolding get_target_for_block interval_start
  get_target_for_block-Reachable l last h r range =
      elim (Bool-cases (not ((h + 1) % 2 ^ 32 % retarget_interval == 0))) [
        | inl inside ↦ rw (get_target_for_block, inside) refl
        | inr ending ↦ elim (Bool-cases (h == 2015)) [
          | inl first ↦
              rw (ending, first)
                (ap (target_since f l.blockchain last) (early first) ∙ since_genesis l last r)
          | inr later ↦
              rw (ending, later)
                (ap (target_since f l.blockchain last) (late ending later)
                  ∙ since_no_block l last _ 0 r (behind ending later))
        ]
      ]
    where
      below : (h == 2015) ≡ true → ltb h retarget_interval ≡ true
      below p = ground arith

      early : (h == 2015) ≡ true → interval_start h ≡ (0, expected_time_per_block_in_sec)
      early p = rw (interval_start, below p) refl

      -- A later interval ends behind the second block of its start.
      later_end :
          not ((h + 1) % 2 ^ 32 % retarget_interval == 0) ≡ false
          → (h == 2015) ≡ false
          → retarget_interval < h
      later_end p q =
          let at_end : (h + 1) % 2 ^ 32 % retarget_interval ≡ 0 = ground arith in
          let other : h ≢ 2015 = ground arith in omega (arith, at_end, other, range)

      above :
          not ((h + 1) % 2 ^ 32 % retarget_interval == 0) ≡ false
          → (h == 2015) ≡ false
          → ltb h retarget_interval ≡ false
      above p q = ground (arith, later_end p q)

      late :
          not ((h + 1) % 2 ^ 32 % retarget_interval == 0) ≡ false
          → (h == 2015) ≡ false
          → interval_start h ≡ ((h + 2 ^ 32 - retarget_interval) % 2 ^ 32, 0)
      late p q = rw (interval_start, above p q) refl

      behind :
          not ((h + 1) % 2 ^ 32 % retarget_interval == 0) ≡ false
          → (h == 2015) ≡ false
          → ((h + 2 ^ 32 - retarget_interval) % 2 ^ 32 == 0) ≡ false
      behind p q =
          let wraps : (h + 2 ^ 32 - retarget_interval) % 2 ^ 32 ≢ 0 =
            omega (arith, later_end p q, range) in
          ground arith
