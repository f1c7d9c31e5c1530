-- ===== src/Core/Retarget.antt =====
-- `GetTargetForBlock` and `calculateTargetForBlock` of core/block.go.
pub mod Reached
use plairo.Common.{
  ℕ, ◌+◌, ◌-◌, ◌*◌, ◌%◌, ◌^◌, ◌==◌, ltb, not, Bool, true, false, if◌then◌else◌, Option, none, some,
}
use plairo.Utils.Retarget.{Float64, apply_coeff_to_target}
use plairo.Core.Header.{BlockHeader}
use plairo.Core.Blockchain.{Blockchain, get_header_at}

abbrev pub retarget_interval : ℕ
retarget_interval = 2016

abbrev pub expected_time_per_block_in_sec : ℕ
expected_time_per_block_in_sec = 120

-- The index that the interval starts from, and the seconds added to its timestamp.
unfoldable pub interval_start : ℕ → ℕ × ℕ
interval_start last_block_height =
    if ltb last_block_height retarget_interval
    then (0, expected_time_per_block_in_sec)
    else ((last_block_height + 2 ^ 32 - retarget_interval) % 2 ^ 32, 0)

module _ (f : Float64) where
  unfoldable pub calculate_target_for_block : BlockHeader → ℕ → ℕ
  calculate_target_for_block last_block_header first_stamp =
      apply_coeff_to_target f
        (f.div (f.of_int64 ((last_block_header.timestamp + 2 ^ 64 - first_stamp) % 2 ^ 64))
          (f.of_uint64 (expected_time_per_block_in_sec * retarget_interval)))
        last_block_header.target_bits

  -- The target after an interval. `none` is a panic.
  unfoldable pub target_since : Blockchain → BlockHeader → ℕ × ℕ → Option ℕ
  target_since bchain last_block_header (interval_start_height, timecomp) =
      elim (get_header_at bchain interval_start_height) [
        | none ↦ none
        | some none ↦ none
        | some (some first_block_header) ↦ some (
            calculate_target_for_block last_block_header
              ((first_block_header.timestamp + timecomp) % 2 ^ 64))
      ]

  unfoldable pub get_target_for_block : Blockchain → BlockHeader → ℕ → Option ℕ
  get_target_for_block bchain last_block_header last_block_height =
      if not ((last_block_height + 1) % 2 ^ 32 % retarget_interval == 0)
      then some last_block_header.target_bits
      else target_since bchain last_block_header (interval_start last_block_height)
