-- ===== src/Db/Chainstate/UtxoSet/Batching.antt =====
-- `InsertBatchTX` of db/chainstate.go and the set of unspent outputs.
use plairo.Common.{ℕ, ◌≡◌, refl, sym, ap, ◌∙◌, ◌⊎◌, inl, inr, false, returns}
use plairo.Common.{List, [], ◌∷◌, ◌++◌, none, some}
use mathlib.Core.Path.{subst}
use plairo.Core.Transaction.{Transaction, is_spent}
use plairo.Core.Metadata.RoundTrip.{metadata_of, serialize_tx_metadata-metadata_of}
use plairo.Db.Wrapper.{
  LevelDb, IsStore, no_value, not_found, DbWrapper, build_key, get_value, put_in_batch,
}
use plairo.Db.Chainstate.{tx_key, get_tx, insert_batch_tx}
use plairo.Db.Chainstate.Removed.{get_utxo-same_record}
use plairo.Db.Chainstate.UtxoSet.{UtxoSet, batch_of, pending, HoldsRecord, Shows}

module _ (sha256 : List ℕ → List ℕ) (l : LevelDb) (store : IsStore l) where
  pending-append :
      (txs : List Transaction) (tx : Transaction)
      → some (elim (pending txs) [
        | none ↦ (build_key tx_key tx.txid, metadata_of tx) ∷ []
        | some batch ↦ batch ++ ((build_key tx_key tx.txid, metadata_of tx) ∷ [])
      ])
        ≡ pending (txs ++ (tx ∷ []))
  pending-append [] tx = refl
  pending-append (t ∷ txs) tx =
      ap (λ b. some ((build_key tx_key t.txid, metadata_of t) ∷ b)) (batch_of_append txs)
    where
      batch_of_append :
          (ts : List Transaction)
          → batch_of ts ++ ((build_key tx_key tx.txid, metadata_of tx) ∷ [])
            ≡ batch_of (ts ++ (tx ∷ []))
      batch_of_append [] = refl
      batch_of_append (u ∷ ts) =
          ap (λ b. (build_key tx_key u.txid, metadata_of u) ∷ b) (batch_of_append ts)

  -- The same records elsewhere.
  moved :
      (c after : DbWrapper l) (x : List ℕ)
      → get_tx sha256 l after x ≡ get_tx sha256 l c x
      → (get_tx sha256 l c x ≡ returns (no_value not_found)) ⊎ HoldsRecord sha256 l c x
      → (get_tx sha256 l after x ≡ returns (no_value not_found)) ⊎ HoldsRecord sha256 l after x
  moved c after x e (inl a) = inl (e ∙ a)
  moved c after x e (inr h) =
      inr (record {
        tx = h.tx;
        can_store = h.can_store;
        same_txid = h.same_txid;
        reads = e ∙ h.reads;
      })

  -- A transaction with an unspent output joins the batch.
  pub insert_batch_tx-Shows :
      (c : DbWrapper l) (u : UtxoSet) (txs : List Transaction) (tx : Transaction)
      → Shows sha256 l c u txs
      → is_spent tx ≡ false
      → (after : DbWrapper l) × (insert_batch_tx sha256 l c tx ≡ returns (after, none))
        × Shows sha256 l after u (txs ++ (tx ∷ []))
  unfolding insert_batch_tx put_in_batch
  insert_batch_tx-Shows c u txs tx s unspent =
      let after : DbWrapper l = put_in_batch l c (build_key tx_key tx.txid) (metadata_of tx) in
      let same : (x : List ℕ) → get_tx sha256 l after x ≡ get_tx sha256 l c x =
        λ x. unfold get_tx in unfold get_value in refl in
      (
        after,
        rw (insert_batch_tx, unspent, serialize_tx_metadata-metadata_of tx) refl,
        record {
          is_plain = s.is_plain;
          batch =
              subst
                (λ b.
                  some (elim b [
                    | none ↦ (build_key tx_key tx.txid, metadata_of tx) ∷ []
                    | some batch ↦ batch ++ ((build_key tx_key tx.txid, metadata_of tx) ∷ [])
                  ])
                  ≡ pending (txs ++ (tx ∷ [])))
                (sym s.batch) (pending-append txs tx);
          records = λ x. moved c after x (same x) (s.records x);
          shows = λ x v. get_utxo-same_record sha256 l store c after x v (same x) ∙ s.shows x v;
        },
      )
