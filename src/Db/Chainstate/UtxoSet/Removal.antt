-- ===== src/Db/Chainstate/UtxoSet/Removal.antt =====
-- `RemoveUtxo` of db/chainstate.go and the set of unspent outputs.
use plairo.Common.{
  ℕ, ◌==◌, ◌≡◌, ◌≢◌, refl, sym, ◌∙◌, ◌⊎◌, inl, inr, true, false, Bool-cases, if◌then◌else◌,
  bytes_eq, bytes_eq→eq, bytes_ne_of, returns,
}
use plairo.Common.{List, Option, none, some, Option-cases}
use mathlib.Core.Path.{subst}
use plairo.Core.Output.{TransactionOutput}
use plairo.Core.Transaction.{Transaction}
use plairo.Core.Metadata.RoundTrip.{metadata_of, serialize_tx_metadata-metadata_of}
use plairo.Db.Wrapper.{LevelDb, IsStore, found, no_value, not_found, DbWrapper}
use plairo.Db.Wrapper.Obfuscation.{IsKey}
use plairo.Db.Chainstate.{get_tx, get_utxo, remove_utxo}
use plairo.Db.Chainstate.Lookup.{unspent_at, get_utxo-record}
use plairo.Db.Chainstate.Spend.{spent_tx_of}
use plairo.Db.Chainstate.Spend.Storable.{spend-AreByteScripts, spent_tx_of-IsStorable}
use plairo.Db.Chainstate.Removed.{record_key, Follows}
use plairo.Db.Chainstate.Remove.{remove_utxo-Removed}
use plairo.Db.Chainstate.UtxoSet.{UtxoSet, spend_one, Fails, CanStore, HoldsRecord, Shows}

module _ (sha256 : List ℕ → List ℕ) (l : LevelDb) (store : IsStore l) where
  -- The output is there and taken out, or it is not there or the database fails, and nothing changes.
  abbrev pub Removes : DbWrapper l → UtxoSet → List Transaction → List ℕ → ℕ → Type 0
  Removes c u txs txid vout =
      (((u txid vout ≡ none) ⊎ Fails l c.db)
        × (remove_utxo sha256 l c txid vout ≡ returns (c, false)))
      ⊎ ((outp : TransactionOutput) × (after : DbWrapper l) × (u txid vout ≡ some outp)
          × (remove_utxo sha256 l c txid vout ≡ returns (after, true))
          × Shows sha256 l after (spend_one u txid vout) txs)

  module _ (c : DbWrapper l) (u : UtxoSet) (txs : List Transaction)
      (s : Shows sha256 l c u txs) where
    same_answer : {a b : Option TransactionOutput} → returns a ≡ returns b → a ≡ b
    same_answer p = cc

    absent :
        (txid : List ℕ) (vout : ℕ)
        → get_tx sha256 l c txid ≡ returns (no_value not_found)
        → Removes c u txs txid vout
    unfolding remove_utxo get_utxo
    absent txid vout a = inl (
      inl (same_answer (sym (s.shows txid vout) ∙ rw (get_utxo, a) refl)),
      rw (remove_utxo, a) refl,
    )

    opens : c.is_obfuscated ≡ true → IsKey c.obfuscation_key
    opens on = absurd (never (sym on ∙ s.is_plain))
      where
        never : true ≡ false → ⊥
        never p = cc

    module _ (t : Transaction) (ok : CanStore sha256 t)
        (reads : get_tx sha256 l c t.txid ≡ returns (found (metadata_of t))) where
      own : (v : ℕ) → u t.txid v ≡ unspent_at t.outputs v
      own v = same_answer (
          sym (s.shows t.txid v)
          ∙ get_utxo-record sha256 l store c t (metadata_of t) v ok.0
              (serialize_tx_metadata-metadata_of t) reads)

      -- The records that are left are those of storable transactions.
      records_after :
          (vout : ℕ) (after : DbWrapper l)
          → Follows sha256 l store c after t vout
          → (x : List ℕ)
          → (get_tx sha256 l after x ≡ returns (no_value not_found)) ⊎ HoldsRecord sha256 l after x
      records_after vout after f x = elim (Bool-cases (bytes_eq x t.txid)) [
        | inl same ↦
            subst
              (λ y.
                (get_tx sha256 l after y ≡ returns (no_value not_found))
                ⊎ HoldsRecord sha256 l after y)
              (sym (bytes_eq→eq x t.txid same))
              (elim f.own [
                | inl a ↦ inl a
                | inr r ↦ inr (record {
                  tx = spent_tx_of t vout;
                  can_store = (
                    spent_tx_of-IsStorable sha256 t vout ok.0,
                    spend-AreByteScripts vout 0 t.outputs ok.1,
                  );
                  same_txid = refl;
                  reads = r;
                })
              ])
        | inr other ↦ kept (bytes_ne_of x t.txid other) (s.records x)
      ]
        where
          kept :
              x ≢ t.txid
              → (get_tx sha256 l c x ≡ returns (no_value not_found)) ⊎ HoldsRecord sha256 l c x
              → (get_tx sha256 l after x ≡ returns (no_value not_found))
                ⊎ HoldsRecord sha256 l after x
          kept ne (inl a) = inl (f.others x ne ∙ a)
          kept ne (inr h) = inr (record {
            tx = h.tx;
            can_store = h.can_store;
            same_txid = h.same_txid;
            reads = f.others x ne ∙ h.reads;
          })

      set_after :
          (vout : ℕ) (x : List ℕ) (v : ℕ)
          → (if bytes_eq x t.txid
              then returns (if v == vout then none else unspent_at t.outputs v)
              else get_utxo sha256 l c x v)
            ≡ returns (spend_one u t.txid vout x v)
      set_after vout x v = elim (Bool-cases (bytes_eq x t.txid)) [
        | inr other ↦ rw other (s.shows x v)
        | inl same ↦ rw (same, bytes_eq→eq x t.txid same, own v) refl
      ]

      of_record : (vout : ℕ) → Removes c u txs t.txid vout
      of_record vout =
          elim (remove_utxo-Removed sha256 l store c t (metadata_of t) vout opens ok.0 ok.1
            (serialize_tx_metadata-metadata_of t) reads) [
              | inr (same, why) ↦ inl (reason why, same)
              | inl (after, removes, there, looked_up, f) ↦ elim (Option-cases (u t.txid vout)) [
                | inl n ↦ absurd (there (sym (own vout) ∙ n))
                | inr (outp, o) ↦ inr (
                  outp,
                  after,
                  o,
                  removes,
                  record {
                    is_plain = f.same_flag ∙ s.is_plain;
                    batch = f.same_batch ∙ s.batch;
                    records = records_after vout after f;
                    shows = λ x v. looked_up x v ∙ set_after vout x v;
                  },
                )
              ]
            ]
        where
          reason :
              (unspent_at t.outputs vout ≡ none)
                ⊎ ((l.delete c.db (record_key sha256 l store t) ≡ none)
                    ⊎ ((stored : List ℕ) × (l.put c.db (record_key sha256 l store t) stored
                          ≡ none)))
              → (u t.txid vout ≡ none) ⊎ Fails l c.db
          reason (inl n) = inl (own vout ∙ n)
          reason (inr (inl d)) = inr (inl (_, d))
          reason (inr (inr (stored, d))) = inr (inr (inl (_, stored, d)))

    present : (txid : List ℕ) (vout : ℕ) → HoldsRecord sha256 l c txid → Removes c u txs txid vout
    present txid vout h =
        subst (λ x. Removes c u txs x vout) h.same_txid
          (of_record h.tx h.can_store
            (subst (λ x. get_tx sha256 l c x ≡ returns (found (metadata_of h.tx))) (sym h.same_txid)
              h.reads)
            vout)

    -- `RemoveUtxo` of any output.
    pub remove_utxo-Removes : (txid : List ℕ) (vout : ℕ) → Removes c u txs txid vout
    remove_utxo-Removes txid vout = elim (s.records txid) [
      | inl a ↦ absent txid vout a
      | inr h ↦ present txid vout h
    ]
