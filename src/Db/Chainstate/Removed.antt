-- ===== src/Db/Chainstate/Removed.antt =====
-- What `RemoveUtxo` comes to, and the write that it ends with.
use plairo.Common.{Outcome, returns, panics}
use plairo.Common.{
  bytes_eq, ℕ, ◌≡◌, ◌≢◌, refl, sym, ◌==◌, Bool, true, false, if◌then◌else◌, ◌⊎◌, inl, inr,
}
use plairo.Common.{List, Option, none, some, Option-cases, All, IsByte}
use plairo.Core.Transaction.{Transaction}
use plairo.Core.Metadata.RoundTrip.{metadata_of}
use plairo.Db.Wrapper.{
  LevelDb, IsStore, DbError, failed, not_found, found, no_value, DbWrapper, build_key,
  obfuscate_value, insert_value, put_raw,
}
use plairo.Db.Wrapper.Obfuscation.{IsKey, obfuscate_value_twice}
use plairo.Db.Chainstate.{tx_key, get_tx, get_utxo, remove_utxo}
use plairo.Db.Chainstate.Spend.{spent_tx_of}
use plairo.Db.Chainstate.Lookup.{unspent_at}

module _ (l : LevelDb) where
  -- An insertion with a usable key stores the value, or fails and changes nothing.
  abbrev pub StoresOrFails : DbWrapper l → List ℕ → Outcome (DbWrapper l × Option DbError) → Type 0
  StoresOrFails d key call =
      ((call ≡ returns (d, some failed)) × ((stored : List ℕ) × (l.put d.db key stored ≡ none)))
      ⊎ ((d' : DbWrapper l) × (call ≡ returns (d', none)))

  put_raw-StoresOrFails :
      (d : DbWrapper l) (key value : List ℕ) → StoresOrFails d key (put_raw l d key value)
  put_raw-StoresOrFails d key value = elim (Option-cases (l.put d.db key value)) [
    | inl n ↦ inl (rw (n, put_raw) refl, (value, n))
    | inr (db', q) ↦ inr (record d { db = db' }, rw (q, put_raw) refl)
  ]

  pub insert_value-StoresOrFails :
      (d : DbWrapper l) (key value : List ℕ)
      → (d.is_obfuscated ≡ true → IsKey d.obfuscation_key)
      → All IsByte value
      → StoresOrFails d key (insert_value l d key value)
  unfolding insert_value
  insert_value-StoresOrFails d key value opens bytes = either d.is_obfuscated refl
    where
      either :
          (b : Bool)
          → b ≡ d.is_obfuscated
          → StoresOrFails d key (
              if b
              then elim (obfuscate_value d.obfuscation_key value) [
                | none ↦ panics
                | some hidden ↦ put_raw l d key hidden
              ]
              else put_raw l d key value)
      either true e =
          let (hidden, hides, _, _) =
            obfuscate_value_twice d.obfuscation_key value (opens (sym e)) bytes in
          rw hides (put_raw-StoresOrFails d key hidden)
      either false e = put_raw-StoresOrFails d key value

module _ (sha256 : List ℕ → List ℕ) (l : LevelDb) (store : IsStore l) where
  abbrev pub record_key : Transaction → List ℕ
  record_key t = build_key tx_key t.txid

  -- The records that a removal leaves: none of `t` or one without the output, and the others.
  pub record Follows (c after : DbWrapper l) (t : Transaction) (vout : ℕ) : Type 0 where
    pub same_flag : after.is_obfuscated ≡ c.is_obfuscated
    pub same_key : after.obfuscation_key ≡ c.obfuscation_key
    pub same_batch : after.current_batch ≡ c.current_batch
    pub own :
        (get_tx sha256 l after t.txid ≡ returns (no_value not_found))
        ⊎ (get_tx sha256 l after t.txid ≡ returns (found (metadata_of (spent_tx_of t vout))))
    pub others :
        (txid : List ℕ) → txid ≢ t.txid → get_tx sha256 l after txid ≡ get_tx sha256 l c txid

  -- A call that says true: the output `vout` of `t` was unspent, and the chainstate that results has
  -- all unspent outputs but this one, in records that follow.
  abbrev pub Removed : DbWrapper l → Transaction → ℕ → Type 0
  Removed c t vout =
      (after : DbWrapper l) × (remove_utxo sha256 l c t.txid vout ≡ returns (after, true))
      × (unspent_at t.outputs vout ≢ none)
      × ((txid : List ℕ) (v : ℕ)
          → get_utxo sha256 l after txid v ≡ (
              if bytes_eq txid t.txid
              then returns (if v == vout then none else unspent_at t.outputs v)
              else get_utxo sha256 l c txid v))
      × Follows c after t vout

  -- A call that says false: nothing changed, and the output is not unspent or the database failed.
  abbrev pub NotRemoved : DbWrapper l → Transaction → ℕ → Type 0
  NotRemoved c t vout =
      (remove_utxo sha256 l c t.txid vout ≡ returns (c, false))
      × ((unspent_at t.outputs vout ≡ none)
          ⊎ ((l.delete c.db (record_key t) ≡ none)
              ⊎ ((stored : List ℕ) × (l.put c.db (record_key t) stored ≡ none))))

  -- Another record leads to the same output.
  pub get_utxo-same_record :
      (c c' : DbWrapper l) (txid : List ℕ) (v : ℕ)
      → get_tx sha256 l c' txid ≡ get_tx sha256 l c txid
      → get_utxo sha256 l c' txid v ≡ get_utxo sha256 l c txid v
  unfolding get_utxo
  get_utxo-same_record c c' txid v e = rw e refl
