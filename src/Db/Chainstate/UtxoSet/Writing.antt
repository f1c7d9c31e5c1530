-- ===== src/Db/Chainstate/UtxoSet/Writing.antt =====
-- `WriteBatchTX` of db/chainstate.go and the set of unspent outputs.
use plairo.Common.{
  ℕ, ◌≡◌, refl, sym, ap, ◌∙◌, ◌⊎◌, inl, inr, false, Bool-cases, if◌then◌else◌, bytes_eq,
  bytes_eq→eq, bytes_eq_refl, bytes_ne, bytes_ne_of, returns,
}
use plairo.Common.{List, [], ◌∷◌, Option, none, some, Option-cases, All}
use mathlib.Core.Path.{subst}
use plairo.Core.Output.{TransactionOutput}
use plairo.Core.Transaction.{Transaction}
use plairo.Core.Metadata.RoundTrip.{metadata_of, serialize_tx_metadata-metadata_of}
use plairo.Db.Wrapper.{
  failed, LevelDb, IsStore, DbError, Reply, found, no_value, not_found, DbWrapper, build_key,
  get_value, write_batch,
}
use plairo.Db.Chainstate.{tx_key, get_tx, get_utxo}
use plairo.Db.Chainstate.Lookup.{unspent_at, get_utxo-record}
use plairo.Db.Chainstate.UtxoSet.{
  UtxoSet, add_one, add_txs, last_write, IsBatchStore, Fails, CanStore, batch_of, pending,
  HoldsRecord, Shows,
}

module _ (sha256 : List ℕ → List ℕ) (l : LevelDb) (store : IsStore l) where
  -- Without obfuscation a record is what the database has.
  get_tx_plain :
      (c : DbWrapper l) (txid : List ℕ)
      → c.is_obfuscated ≡ false
      → get_tx sha256 l c txid ≡ returns (l.get c.db (build_key tx_key txid))
  unfolding get_tx get_value
  get_tx_plain c txid p = elim (Reply-cases (l.get c.db (build_key tx_key txid))) [
    | inl (e, r) ↦ rw (get_tx, get_value, r) refl
    | inr (value, r) ↦ rw (get_tx, get_value, r, p) refl
  ]
    where
      Reply-cases :
          (r : Reply) → ((e : DbError) × (r ≡ no_value e)) ⊎ ((value : List ℕ) × (r ≡ found value))
      Reply-cases (no_value e) = inl (e, refl)
      Reply-cases (found value) = inr (value, refl)

  -- A reply that says what the set has of a transaction.
  abbrev Answers : List ℕ → (ℕ → Option TransactionOutput) → Reply → Type 0
  Answers txid w r =
      ((r ≡ no_value not_found) × ((v : ℕ) → w v ≡ none))
      ⊎ ((tx : Transaction) × CanStore sha256 tx
          × (tx.txid ≡ txid)
          × (r ≡ found (metadata_of tx))
          × ((v : ℕ) → w v ≡ unspent_at tx.outputs v))

  same_answer : {a b : Option TransactionOutput} → returns a ≡ returns b → a ≡ b
  same_answer p = cc

  same_reply : {a b : Reply} → returns a ≡ returns b → a ≡ b
  same_reply p = cc

  -- The outputs of a record.
  of_record :
      (c : DbWrapper l) (y : List ℕ) (h : HoldsRecord sha256 l c y) (v : ℕ)
      → get_utxo sha256 l c y v ≡ returns (unspent_at h.tx.outputs v)
  of_record c y h v =
      subst (λ z. get_utxo sha256 l c z v ≡ returns (unspent_at h.tx.outputs v)) h.same_txid
        (get_utxo-record sha256 l store c h.tx (metadata_of h.tx) v h.can_store.0
          (serialize_tx_metadata-metadata_of h.tx)
          (subst (λ z. get_tx sha256 l c z ≡ returns (found (metadata_of h.tx))) (sym h.same_txid)
            h.reads))

  -- What a chainstate answers before the batch.
  Shows-Answers :
      (c : DbWrapper l) (u : UtxoSet) (txs : List Transaction)
      → Shows sha256 l c u txs
      → (x : List ℕ) → Answers x (u x) (l.get c.db (build_key tx_key x))
  unfolding get_utxo
  Shows-Answers c u txs s x = elim (s.records x) [
    | inl a ↦ inl (
      same_reply (sym (get_tx_plain c x s.is_plain) ∙ a),
      λ v. same_answer (sym (s.shows x v) ∙ rw (get_utxo, a) refl),
    )
    | inr h ↦ inr (
      h.tx,
      h.can_store,
      h.same_txid,
      same_reply (sym (get_tx_plain c x s.is_plain) ∙ h.reads),
      λ v. same_answer (sym (s.shows x v) ∙ of_record c x h v),
    )
  ]

  -- One write of the batch.
  one_write :
      (x : List ℕ) (u : UtxoSet) (tx : Transaction) (r : Reply)
      → CanStore sha256 tx
      → Answers x (u x) r
      → Answers x (add_one u tx x) (
          if bytes_eq (build_key tx_key tx.txid) (build_key tx_key x)
          then found (metadata_of tx)
          else r)
  unfolding build_key bytes_eq
  one_write x u tx r ok a = elim (Bool-cases (bytes_eq tx.txid x)) [
    | inl same ↦
        let e : tx.txid ≡ x = bytes_eq→eq tx.txid x same in
        rw same (inr (tx, ok, e, refl, λ v. rw (sym e, bytes_eq_refl tx.txid) refl))
    | inr other ↦ rw (other, bytes_ne x tx.txid (λ e. bytes_ne_of tx.txid x other (sym e))) a
  ]

  batch-Answers :
      (txs : List Transaction) (x : List ℕ) (u : UtxoSet) (r : Reply)
      → All (CanStore sha256) txs
      → Answers x (u x) r
      → Answers x (add_txs u txs x) (last_write (batch_of txs) (build_key tx_key x) r)
  unfolding add_txs
  batch-Answers [] x u r ok a = a
  batch-Answers (tx ∷ txs) x u r ok a =
      batch-Answers txs x (add_one u tx) _ ok.1 (one_write x u tx r ok.0 a)

  -- What a chainstate with such replies shows.
  Answers-records :
      (c : DbWrapper l) (x : List ℕ) (w : ℕ → Option TransactionOutput) (r : Reply)
      → get_tx sha256 l c x ≡ returns r
      → Answers x w r
      → ((get_tx sha256 l c x ≡ returns (no_value not_found)) ⊎ HoldsRecord sha256 l c x)
        × ((v : ℕ) → get_utxo sha256 l c x v ≡ returns (w v))
  unfolding get_utxo
  Answers-records c x w r e (inl (n, nothing)) =
      let reads : get_tx sha256 l c x ≡ returns (no_value not_found) = e ∙ ap returns n in
      (inl reads, λ v. rw (get_utxo, reads, nothing v) refl)
  Answers-records c x w r e (inr (tx, ok, same, f, there)) =
      let reads : get_tx sha256 l c x ≡ returns (found (metadata_of tx)) = e ∙ ap returns f in
      let h : HoldsRecord sha256 l c x = record {
        tx = tx;
        can_store = ok;
        same_txid = same;
        reads = reads;
      } in
      (inr h, λ v. of_record c x h v ∙ ap returns (sym (there v)))

  -- The batch of some transactions is written, or the database fails.
  pub write_batch-Shows :
      IsBatchStore l
      → (c : DbWrapper l) (u : UtxoSet) (txs : List Transaction) → Shows sha256 l c u txs
      → All (CanStore sha256) txs
      → (Fails l c.db × (write_batch l c ≡ (c, some failed)))
        ⊎ ((after : DbWrapper l) × (write_batch l c ≡ (after, none))
            × Shows sha256 l after (add_txs u txs) [])
  unfolding write_batch
  write_batch-Shows ordered c u txs s ok =
      elim (Option-cases (l.write c.db (elim c.current_batch [ none ↦ [] | some batch ↦ batch ]))) [
        | inl n ↦ inl (inr (inr (_, n)), rw (write_batch, n) refl)
        | inr (db', w) ↦
            let after : DbWrapper l = record c { db = db'; current_batch = none } in
            let answers : (x : List ℕ)
                → Answers x (add_txs u txs x) (l.get db' (build_key tx_key x)) =
              λ x.
                subst (Answers x (add_txs u txs x))
                  (sym (
                    ordered.get-write c.db db' _ (build_key tx_key x) w
                    ∙ ap (λ b. last_write b (build_key tx_key x) (l.get c.db (build_key tx_key x)))
                        (batch_writes c.current_batch s.batch)))
                  (batch-Answers txs x u _ ok (Shows-Answers c u txs s x)) in
            let shown : (x : List ℕ)
                → ((get_tx sha256 l after x ≡ returns (no_value not_found))
                    ⊎ HoldsRecord sha256 l after x)
                  × ((v : ℕ) → get_utxo sha256 l after x v ≡ returns (add_txs u txs x v)) =
              λ x.
                Answers-records after x (add_txs u txs x) _ (get_tx_plain after x s.is_plain)
                  (answers x) in
            inr (
              after,
              rw (write_batch, w) refl,
              record {
                is_plain = s.is_plain;
                batch = refl;
                records = λ x. (shown x).0;
                shows = λ x v. (shown x).1 v;
              },
            )
      ]
    where
      writes_of :
          (ts : List Transaction)
          → (elim (pending ts) [ none ↦ [] | some batch ↦ batch ]) ≡ batch_of ts
      writes_of [] = refl
      writes_of (t ∷ ts) = refl

      batch_writes :
          (b : Option (List (List ℕ × List ℕ)))
          → b ≡ pending txs
          → (elim b [ none ↦ [] | some batch ↦ batch ]) ≡ batch_of txs
      batch_writes b e = rw e (writes_of txs)
