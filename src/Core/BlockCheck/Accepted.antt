-- ===== src/Core/BlockCheck/Accepted.antt =====
-- The blocks that `ValidateBlock` passes.
use plairo.Common.{
  ℕ, ◌≡◌, refl, sym, ap, ◌∙◌, bytes_eq, bytes_eq→eq, bytes_eq_refl, true, false, Bool-cases,
  Option-cases, ◌⊎◌, inl, inr, ◌↔◌, returns, panics, runs_on, Outcome-cases,
}
use plairo.Common.{List, [], none, some}
use plairo.Core.Validate.{Ecdsa}
use plairo.Core.Header.{BlockHeader, serialize_header, HeaderError, Verdict, rejected, deeper}
use plairo.Core.CState.{CState}
use plairo.Core.Block.{Block, behind_coinbase, get_block_header, generate_block_merkle_root}
use plairo.Core.BlockCheck.{
  World, Checked, BlockError, validate_block_tx, validate_coinbase, judge_header, check_rest,
  validate_block,
}
use plairo.Core.BlockCheck.Exact.{AllValid, inputs_of, validate_block_tx-exact}
use plairo.Core.Validate.Exact.{AllDistinct}

module _ (sha256 : List ℕ → List ℕ) (ecdsa : Ecdsa) (cs : CState)
    (check_header : List ℕ → Verdict) where
  -- The coinbase takes no more than it may, the header has the Merkle root of the transactions, and
  -- it passes the checks of headers.
  pub record IsSealed (b : Block) (mined_block_height : ℕ) : Type 0 where
    pub header : BlockHeader
    pub has_header : b.header ≡ some header
    pub coinbase : validate_coinbase b mined_block_height ≡ some true
    pub root : generate_block_merkle_root sha256 b ≡ returns header.merkle_root
    pub accepted : check_header (serialize_header header) ≡ Verdict.accepted

  Verdict-cases :
      (v : Verdict)
      → (v ≡ Verdict.accepted)
        ⊎ (((e : HeaderError) × (v ≡ rejected e)) ⊎ ((v ≡ Verdict.panicked) ⊎ (v ≡ deeper)))
  Verdict-cases Verdict.accepted = inl refl
  Verdict-cases (rejected e) = inr (inl (e, refl))
  Verdict-cases Verdict.panicked = inr (inr (inl refl))
  Verdict-cases deeper = inr (inr (inr refl))

  abbrev passed : World cs → Checked sha256 ecdsa cs
  passed w = returns (w, none)

  judge_header-accepted :
      (w w' : World cs) (v : Verdict)
      → judge_header sha256 ecdsa cs check_header w v ≡ passed w'
      → (w ≡ w') × (v ≡ Verdict.accepted)
  judge_header-accepted w w' Verdict.accepted p = (cc, refl)
  judge_header-accepted w w' (rejected e) p = cc
  judge_header-accepted w w' Verdict.panicked p = cc
  judge_header-accepted w w' deeper p = cc

  stopped :
      {w w' : World cs} {e : BlockError cs}
      → ◌≡◌ {A = Checked sha256 ecdsa cs} (returns (w, some e)) (passed w')
      → ⊥
  stopped p = cc

  panicking : {w : World cs} → panics ≡ passed w → ⊥
  panicking p = cc

  running : {w : World cs} → runs_on ≡ passed w → ⊥
  running p = cc

  check_rest-IsSealed :
      (w w' : World cs) (b : Block) (mined_block_height : ℕ)
      → check_rest sha256 ecdsa cs check_header w b mined_block_height ≡ passed w'
      → (w ≡ w') × IsSealed b mined_block_height
  unfolding check_rest get_block_header
  check_rest-IsSealed w w' b h p = elim (Option-cases (validate_coinbase b h)) [
    | inl c ↦ absurd (panicking (rw (check_rest, c) at p))
    | inr (false, c) ↦ absurd (stopped (rw (check_rest, c) at p))
    | inr (true, c) ↦ elim (Option-cases b.header) [
      | inl hd ↦ absurd (panicking (rw (check_rest, c, hd) at p))
      | inr (header, hd) ↦ elim (Outcome-cases (generate_block_merkle_root sha256 b)) [
        | inr (inl r) ↦ absurd (panicking (rw (check_rest, c, hd, r) at p))
        | inr (inr r) ↦ absurd (running (rw (check_rest, c, hd, r) at p))
        | inl (root, r) ↦ elim (Bool-cases (bytes_eq header.merkle_root root)) [
          | inr other ↦ absurd (stopped (rw (check_rest, c, hd, r, other) at p))
          | inl same ↦
              let (eq, ok) =
                judge_header-accepted w w' (check_header (serialize_header header))
                  (rw (check_rest, c, hd, r, same, get_block_header, hd) at p) in
              (
                eq,
                record {
                  header = header;
                  has_header = hd;
                  coinbase = c;
                  root = r ∙ ap returns (sym (bytes_eq→eq header.merkle_root root same));
                  accepted = ok;
                },
              )
        ]
      ]
    ]
  ]

  IsSealed-check_rest :
      (w : World cs) (b : Block) (mined_block_height : ℕ)
      → IsSealed b mined_block_height
      → check_rest sha256 ecdsa cs check_header w b mined_block_height ≡ passed w
  unfolding check_rest get_block_header
  IsSealed-check_rest w b h s =
      rw
        (
          check_rest,
          s.coinbase,
          s.has_header,
          s.root,
          bytes_eq_refl s.header.merkle_root,
          get_block_header,
          s.has_header,
          s.accepted,
        )
        refl

  validate_block-returned :
      (w w' : World cs) (b : Block) (mined_block_height : ℕ)
      → validate_block sha256 ecdsa cs check_header w b mined_block_height ≡ passed w'
      → (w' ≡ w)
        × AllValid sha256 ecdsa cs w (behind_coinbase b.all_block_tx)
        × AllDistinct [] (inputs_of (behind_coinbase b.all_block_tx))
        × IsSealed b mined_block_height
  unfolding validate_block
  validate_block-returned w w' b h p =
      elim (Outcome-cases (validate_block_tx sha256 ecdsa cs w b)) [
        | inr (inl q) ↦ absurd (panicking (rw (validate_block, q) at p))
        | inr (inr q) ↦ absurd (running (rw (validate_block, q) at p))
        | inl ((v, some e), q) ↦ absurd (stopped (rw (validate_block, q) at p))
        | inl ((v, none), q) ↦
            let (same, valids, distinct) = (validate_block_tx-exact sha256 ecdsa cs w v b).0 q in
            let (eq, is_sealed) = check_rest-IsSealed v w' b h (rw (validate_block, q) at p) in
            (sym eq ∙ same, valids, distinct, is_sealed)
      ]

  -- `ValidateBlock` returns without an error exactly when its transactions behind the first pass
  -- `ValidateTransaction` and spend different outputs, the first one takes at most the subsidy and
  -- the fees of the others, the header has the Merkle root of all transactions and its serialization
  -- passes `ValidateBlockHeader` (given as `check_header`). Nothing is changed then.
  pub validate_block-exact :
      (w w' : World cs) (b : Block) (mined_block_height : ℕ)
      → (validate_block sha256 ecdsa cs check_header w b mined_block_height ≡ returns (w', none))
        ↔ ((w' ≡ w)
            × AllValid sha256 ecdsa cs w (behind_coinbase b.all_block_tx)
            × AllDistinct [] (inputs_of (behind_coinbase b.all_block_tx))
            × IsSealed b mined_block_height)
  unfolding validate_block
  validate_block-exact w w' b h = (
    λ p. validate_block-returned w w' b h p,
    λ (same, valids, distinct, is_sealed).
        let tx = (validate_block_tx-exact sha256 ecdsa cs w w b).1 (refl, valids, distinct) in
        rw (validate_block, tx) (IsSealed-check_rest w b h is_sealed ∙ ap passed (sym same)),
  )
