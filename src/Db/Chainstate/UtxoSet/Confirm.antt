-- ===== src/Db/Chainstate/UtxoSet/Confirm.antt =====
-- `ConfirmAsValid` of core/block.go over the chainstate.
use plairo.Common.{true, ℕ, ◌≡◌, refl, sym, ap, ◌⊎◌, inl, inr, false, Bool-cases, Outcome, returns}
use plairo.Common.{
  List, [], ◌∷◌, ◌++◌, Option, none, some, All, All-append, append-nil, append_assoc,
}
use mathlib.Core.Path.{subst}
use plairo.Core.Transaction.{Transaction, is_spent}
use plairo.Core.Validate.{Ecdsa}
use plairo.Core.Block.{Block}
use plairo.Core.BlockCheck.{
  World, BlockError, cstate_error, clean_up_inputs, confirm_txs, confirm_as_valid,
}
use plairo.Db.Wrapper.{failed, LevelDb, IsStore, DbWrapper, write_batch}
use plairo.Db.Chainstate.{db_error, spent_tx, insert_batch_tx}
use plairo.Db.Chainstate.Interface.{chainstate, written}
use plairo.Db.Chainstate.UtxoSet.{
  UtxoSet, StopsBehind, spend_inputs, spend_txs, add_txs, IsBatchStore, Fails, CanStore, Shows,
}
use plairo.Db.Chainstate.UtxoSet.Inputs.{clean_up_inputs-CleansUp}
use plairo.Db.Chainstate.UtxoSet.Batching.{insert_batch_tx-Shows}
use plairo.Db.Chainstate.UtxoSet.Writing.{write_batch-Shows}

module _ (sha256 : List ℕ → List ℕ) (ecdsa : Ecdsa) (l : LevelDb) (store : IsStore l) where
  abbrev E : Type 0
  E = BlockError (chainstate sha256 l)

  -- Why a call stops behind some transactions: the next one cannot be confirmed in the set, or a
  -- call of the database fails.
  abbrev pub Stops : UtxoSet → List Transaction → List Transaction → LevelDb.Db l → Type 0
  Stops u txs done db =
      ((spend_txs u txs ≡ none) × StopsBehind u txs done)
      ⊎ (Fails l db × (rest : List Transaction) × (txs ≡ done ++ rest))

  -- The set after all transactions is what the chainstate shows, or the call stops.
  abbrev Confirms : DbWrapper l → UtxoSet → List Transaction → List Transaction → Type 0
  Confirms c u before txs =
      ((done : List Transaction) × (c' : DbWrapper l) × (e : E) × (u'' : UtxoSet) × Stops u txs done
          c'.db
        × (confirm_txs sha256 ecdsa (chainstate sha256 l) c txs ≡ returns (c', some e))
        × Shows sha256 l c' u'' (before ++ done))
      ⊎ ((u' : UtxoSet) × (after : DbWrapper l) × (spend_txs u txs ≡ some u')
          × (confirm_txs sha256 ecdsa (chainstate sha256 l) c txs ≡ returns (after, none))
          × Shows sha256 l after (add_txs u' (before ++ txs)) [])

  ends :
      (c after : DbWrapper l)
      → write_batch l c ≡ (after, none)
      → confirm_txs sha256 ecdsa (chainstate sha256 l) c [] ≡ returns (after, none)
  unfolding confirm_txs
  ends c after w =
      ap
        (λ p. elim (written l p).1 as (λ _. Outcome (DbWrapper l × Option E)) [
          | none ↦ returns ((written l p).0, none)
          | some e ↦ returns ((written l p).0, some (cstate_error e))
        ])
        w

  fails :
      (c : DbWrapper l)
      → write_batch l c ≡ (c, some failed)
      → confirm_txs sha256 ecdsa (chainstate sha256 l) c []
        ≡ returns (c, some (cstate_error (db_error failed)))
  unfolding confirm_txs
  fails c w =
      ap
        (λ p. elim (written l p).1 as (λ _. Outcome (DbWrapper l × Option E)) [
          | none ↦ returns ((written l p).0, none)
          | some e ↦ returns ((written l p).0, some (cstate_error e))
        ])
        w

  stops_first :
      (tx : Transaction) (txs : List Transaction) (u : UtxoSet)
      → (spend_inputs u tx.inputs ≡ none) ⊎ (is_spent tx ≡ true)
      → StopsBehind u (tx ∷ txs) []
  unfolding spend_txs
  stops_first tx txs u stops = record {
    next = tx;
    rest = txs;
    left = u;
    split = refl;
    spends_done = refl;
    stops = stops;
  }

  not_spent :
      (tx : Transaction) (txs : List Transaction) (u : UtxoSet) (db : LevelDb.Db l)
      → (spend_inputs u tx.inputs ≡ none) ⊎ Fails l db
      → Stops u (tx ∷ txs) [] db
  unfolding spend_txs
  not_spent tx txs u db (inl n) = inl (rw (spend_txs, n) refl, stops_first tx txs u (inl n))
  not_spent tx txs u db (inr fault) = inr (fault, tx ∷ txs, refl)

  Stops-later :
      (tx : Transaction) (txs done : List Transaction) (u u' : UtxoSet) (db : LevelDb.Db l)
      → spend_inputs u tx.inputs ≡ some u'
      → is_spent tx ≡ false
      → Stops u' txs done db
      → Stops u (tx ∷ txs) (tx ∷ done) db
  unfolding spend_txs
  Stops-later tx txs done u u' db n unspent (inl (m, stop)) = inl (
    rw (spend_txs, n, unspent) m,
    record {
      next = stop.next;
      rest = stop.rest;
      left = stop.left;
      split = ap (λ ts. tx ∷ ts) stop.split;
      spends_done = rw (spend_txs, n, unspent) stop.spends_done;
      stops = stop.stops;
    },
  )
  Stops-later tx txs done u u' db n unspent (inr (fault, rest, split)) =
      inr (fault, rest, ap (λ ts. tx ∷ ts) split)

  -- `ConfirmAsValid` returns an error. The chainstate keeps in its batch what the batch had, and all
  -- transactions before the one that it stops at.
  abbrev pub Refused : World (chainstate sha256 l) → Block → UtxoSet → List Transaction → Type 0
  Refused w b u before =
      (done : List Transaction) × (w' : World (chainstate sha256 l)) × (e : E) × (u'' : UtxoSet)
      × Stops u b.all_block_tx done w'.cstate.db
      × (confirm_as_valid sha256 ecdsa (chainstate sha256 l) w b ≡ returns (w', some e))
      × Shows sha256 l w'.cstate u'' (before ++ done)

  -- It returns nil, and the chainstate shows what the block and the batch before it come to.
  abbrev pub Confirmed : World (chainstate sha256 l) → Block → UtxoSet → List Transaction → Type 0
  Confirmed w b u before =
      (u' : UtxoSet) × (after : DbWrapper l) × (spend_txs u b.all_block_tx ≡ some u')
      × (confirm_as_valid sha256 ecdsa (chainstate sha256 l) w b
          ≡ returns (record w { cstate = after }, none))
      × Shows sha256 l after (add_txs u' (before ++ b.all_block_tx)) []

  module _ (ordered : IsBatchStore l) where
    -- The inputs of the first transaction are spent, and it joins the batch.
    joined :
        (tx : Transaction) (txs : List Transaction) (c c' c'' : DbWrapper l) (u u' : UtxoSet)
        (before : List Transaction)
        → spend_inputs u tx.inputs ≡ some u'
        → clean_up_inputs sha256 ecdsa (chainstate sha256 l) c tx.inputs ≡ returns (c', none)
        → is_spent tx ≡ false
        → insert_batch_tx sha256 l c' tx ≡ returns (c'', none)
        → Confirms c'' u' (before ++ (tx ∷ [])) txs
        → Confirms c u before (tx ∷ txs)
    unfolding confirm_txs spend_txs
    joined tx txs c c' c'' u u' before n r unspent i (inl (done, last, e, u'', stop, q, t)) = inl (
      tx ∷ done,
      last,
      e,
      u'',
      Stops-later tx txs done u u' last.db n unspent stop,
      rw (confirm_txs, r, i) q,
      subst (λ b. Shows sha256 l last u'' b) (append_assoc before (tx ∷ []) done) t,
    )
    joined tx txs c c' c'' u u' before n r unspent i (inr (final, last, m, q, t)) = inr (
      final,
      last,
      rw (spend_txs, n, unspent) m,
      rw (confirm_txs, r, i) q,
      subst (λ b. Shows sha256 l last (add_txs final b) []) (append_assoc before (tx ∷ []) txs) t,
    )

    confirm_txs-Confirms :
        (txs : List Transaction) (c : DbWrapper l) (u : UtxoSet) (before : List Transaction)
        → Shows sha256 l c u before
        → All (CanStore sha256) before
        → All (CanStore sha256) txs
        → Confirms c u before txs
    unfolding confirm_txs spend_txs insert_batch_tx
    confirm_txs-Confirms [] c u before s ok _ =
        elim (write_batch-Shows sha256 l store ordered c u before s ok) [
          | inl (fault, w) ↦ inl (
            [],
            c,
            cstate_error (db_error failed),
            u,
            inr (fault, [], refl),
            fails c w,
            subst (λ b. Shows sha256 l c u b) (sym (append-nil before)) s,
          )
          | inr (after, writes, t) ↦ inr (
            u,
            after,
            refl,
            ends c after writes,
            subst (λ b. Shows sha256 l after (add_txs u b) []) (sym (append-nil before)) t,
          )
        ]
    confirm_txs-Confirms (tx ∷ txs) c u before s ok (here, later) =
        elim (clean_up_inputs-CleansUp sha256 ecdsa l store tx.inputs c u before s) [
          | inl (c', e, u'', why, r, t) ↦ inl (
            [],
            c',
            e,
            u'',
            not_spent tx txs u c'.db why,
            rw (confirm_txs, r) refl,
            subst (λ b. Shows sha256 l c' u'' b) (sym (append-nil before)) t,
          )
          | inr (u', c', n, r, t) ↦ elim (Bool-cases (is_spent tx)) [
            | inl spent ↦ inl (
              [],
              c',
              cstate_error spent_tx,
              u',
              inl (rw (spend_txs, n, spent) refl, stops_first tx txs u (inr spent)),
              rw (confirm_txs, r, insert_batch_tx, spent) refl,
              subst (λ b. Shows sha256 l c' u' b) (sym (append-nil before)) t,
            )
            | inr unspent ↦
                let (c'', i, t') = insert_batch_tx-Shows sha256 l store c' u' before tx t unspent in
                joined tx txs c c' c'' u u' before n r unspent i (
                  confirm_txs-Confirms txs c'' u' (before ++ (tx ∷ [])) t'
                    (All-append (CanStore sha256) before (tx ∷ []) ok (here, tt)) later)
          ]
        ]

    -- `ConfirmAsValid` over a chainstate that is not obfuscated, in which every record is that of a
    -- storable transaction, and for storable transactions in the batch and in the block. Either it
    -- returns nil, and the chainstate shows the set without what the block spends and with what the
    -- batch and the block add. Or it returns an error and leaves the transactions that it went through
    -- in the batch too: all before the first one that has no unspent output or spends what is not in
    -- the set, or those before a call of the database that fails.
    pub confirm_as_valid-spend_txs :
        (w : World (chainstate sha256 l)) (b : Block) (u : UtxoSet) (before : List Transaction)
        → Shows sha256 l w.cstate u before
        → All (CanStore sha256) before
        → All (CanStore sha256) b.all_block_tx
        → Refused w b u before ⊎ Confirmed w b u before
    unfolding confirm_as_valid
    confirm_as_valid-spend_txs w b u before s storable ok =
        elim (confirm_txs-Confirms b.all_block_tx w.cstate u before s storable ok) [
          | inl (done, c', e, u'', stop, r, t) ↦
              inl (done, record w { cstate = c' }, e, u'', stop, rw (confirm_as_valid, r) refl, t)
          | inr (u', after, n, r, t) ↦ inr (u', after, n, rw (confirm_as_valid, r) refl, t)
        ]
