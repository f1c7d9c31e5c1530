-- ===== src/Db/Chainstate/Lookup.antt =====
-- `GetUtxo` and `UtxoExists` after `InsertTX`.
use plairo.Common.{Outcome, returns, panics, runs_on}
use plairo.Common.{
  ℕ, zero, suc, ◌+◌, ◌<◌, ◌≡◌, refl, sym, ◌∙◌, arith, ◌==◌, ltb, Bool, true, false, if◌then◌else◌,
}
use plairo.Common.{
  List, [], ◌∷◌, length, length-map, get_elem?, Option, none, some, ◌>>=◌, All, IsByte, Bool-cases,
  inl, inr, unsome,
}
use native.Mathlib.Nat.{mod-eq_of_lt}
use plairo.Core.Output.{TransactionOutput}
use plairo.Core.Transaction.{Transaction, unspent_flags, is_spent, serialize_tx_metadata}
use plairo.Core.Metadata.Bits.{set_indices}
use plairo.Core.Metadata.RoundTrip.{IsStorable, unspent_outputs, read-serialize_tx_metadata}
use plairo.Db.Wrapper.{LevelDb, IsStore, DbError, found, DbWrapper, build_key, insert_value}
use plairo.Db.Wrapper.Obfuscation.{IsKey}
use plairo.Db.Wrapper.Paging.{insert_value-Stored}
use plairo.Db.Chainstate.{
  tx_key, ChainstateError, spent_tx, db_error, or_panics, find_vout, insert_tx, get_tx, utxo_exists,
  get_utxo,
}

-- The output `vout`, if there is one and it is not spent.
abbrev pub unspent_at : List TransactionOutput → ℕ → Option TransactionOutput
unspent_at [] vout = none
unspent_at (outp ∷ outputs) zero = if outp.is_not_spent then some outp else none
unspent_at (outp ∷ outputs) (suc vout) = unspent_at outputs vout

-- Indices from `i` on hold none below `i`.
find_vout_below :
    (vout i : ℕ) (flags : List Bool) → vout < i → find_vout vout (set_indices i flags) ≡ none
unfolding find_vout
find_vout_below vout i [] h = refl
find_vout_below vout i (true ∷ flags) h =
    rw (other, find_vout_below vout (suc i) flags (omega arith)) refl
  where
    other : (i == vout) ≡ false
    other = ground arith
find_vout_below vout i (false ∷ flags) h = find_vout_below vout (suc i) flags (omega arith)

-- What `GetUtxo` does with the index found among the unspent outputs.
abbrev pub shown : Option ℕ → List TransactionOutput → Outcome (Option TransactionOutput)
shown none outs = returns none
shown (some k) outs = or_panics (get_elem? outs k) λ outp. returns (some outp)

abbrev pub looked_up : ℕ → ℕ → List TransactionOutput → Outcome (Option TransactionOutput)
looked_up vout i outputs =
    shown (find_vout vout (set_indices i (unspent_flags outputs))) (unspent_outputs outputs)

-- One output in front, unspent or not.
here :
    (b : Bool) (vout i : ℕ) (is : List ℕ) (outp : TransactionOutput) (outs : List TransactionOutput)
    → i ≡ vout
    → find_vout vout is ≡ none
    → shown (find_vout vout (if b then i ∷ is else is)) (if b then outp ∷ outs else outs)
      ≡ returns (if b then some outp else none)
unfolding find_vout
here true vout i is outp outs e n = rw same refl
  where
    same : (i == vout) ≡ true
    same = ground arith
here false vout i is outp outs e n = rw n refl

further :
    (b : Bool) (vout i : ℕ) (is : List ℕ) (outp : TransactionOutput) (outs : List TransactionOutput)
    → i < vout
    → shown (find_vout vout (if b then i ∷ is else is)) (if b then outp ∷ outs else outs)
      ≡ shown (find_vout vout is) outs
unfolding find_vout
further true vout i is outp outs h = rw other (shifted (find_vout vout is))
  where
    other : (i == vout) ≡ false
    other = ground arith

    shifted : (o : Option ℕ) → shown (o >>= λ k. some (suc k)) (outp ∷ outs) ≡ shown o outs
    shifted none = refl
    shifted (some k) = refl
further false vout i is outp outs h = refl

pub looked_up-unspent_at :
    (vout k i : ℕ) (outputs : List TransactionOutput)
    → vout ≡ i + k
    → looked_up vout i outputs ≡ returns (unspent_at outputs k)
unfolding find_vout
looked_up-unspent_at vout k i [] e = refl
looked_up-unspent_at vout zero i (outp ∷ outputs) e =
    here outp.is_not_spent vout i _ outp _ (omega arith)
      (find_vout_below vout (suc i) (unspent_flags outputs) (omega arith))
looked_up-unspent_at vout (suc k) i (outp ∷ outputs) e =
    further outp.is_not_spent vout i _ outp _ (omega arith)
    ∙ looked_up-unspent_at vout k (suc i) outputs (omega arith)

module _ (sha256 : List ℕ → List ℕ) (l : LevelDb) (store : IsStore l) where
  -- A wrapper whose values can be hidden and shown.
  abbrev CanShow : DbWrapper l → Type 0
  CanShow c = c.is_obfuscated ≡ true → IsKey c.obfuscation_key

  -- The record that an insertion leaves.
  insert_tx-reads :
      (c c' : DbWrapper l) (t : Transaction) (m : List ℕ)
      → (c.is_obfuscated ≡ true → IsKey c.obfuscation_key)
      → serialize_tx_metadata t ≡ some m
      → All IsByte m
      → insert_tx sha256 l c t ≡ returns (c', none)
      → get_tx sha256 l c' t.txid ≡ returns (found m)
  unfolding insert_tx get_tx
  insert_tx-reads c c' t m opens writes bytes p =
      (insert_value-Stored l store c c' (build_key tx_key t.txid) m opens bytes written).reads
    where
      only_stored :
          (o : Outcome (DbWrapper l × Option DbError))
          → ◌≡◌ {A = Outcome (DbWrapper l × Option ChainstateError)}
              (elim o [
                | returns (c', none) ↦ returns (c', none)
                | returns (c', some e) ↦ returns (c', some (db_error e))
                | panics ↦ panics
                | runs_on ↦ runs_on
              ])
              (returns (c', none))
          → o ≡ returns (c', none)
      only_stored (returns (u, none)) q = cc
      only_stored (returns (u, some e)) q = absurd (cc)
      only_stored panics q = absurd (cc)
      only_stored runs_on q = absurd (cc)

      spent_ne :
          ◌≡◌ {A = Outcome (DbWrapper l × Option ChainstateError)}
            (returns (c, some spent_tx))
            (returns (c', none))
          → ⊥
      spent_ne q = cc

      written : insert_value l c (build_key tx_key t.txid) m ≡ returns (c', none)
      written = elim (Bool-cases (is_spent t)) [
        | inl spent ↦ absurd (spent_ne (rw (spent, insert_tx) at p))
        | inr unspent ↦ only_stored _ (rw (unspent, writes, insert_tx) at p)
      ]

  -- What `GetUtxo` finds in the record.
  pub get_utxo-record :
      (c : DbWrapper l) (t : Transaction) (m : List ℕ) (vout : ℕ)
      → IsStorable sha256 t
      → serialize_tx_metadata t ≡ some m
      → get_tx sha256 l c t.txid ≡ returns (found m)
      → get_utxo sha256 l c t.txid vout ≡ returns (unspent_at t.outputs vout)
  unfolding get_utxo
  get_utxo-record c t m vout ok writes reads =
      let (m', writes', (_, _, vector, outputs, _)) = read-serialize_tx_metadata sha256 t ok in
      let same : m' ≡ m = unsome (sym writes' ∙ writes) in
      (rw (reads, rw same at vector)
          (opened (find_vout vout (set_indices 0 (unspent_flags t.outputs))) _ _
            (rw same at outputs))
        ∙ looked_up-unspent_at vout vout 0 t.outputs (omega arith))
    where
      opened :
          (o : Option ℕ) (reading : Option (List TransactionOutput)) (outs : List TransactionOutput)
          → reading ≡ some outs
          → ◌≡◌ {A = Outcome (Option TransactionOutput)}
              (elim o [
                | none ↦ returns none
                | some i ↦
                    or_panics (reading >>= λ outs. get_elem? outs i) λ outp. returns (some outp)
              ])
              (shown o outs)
      opened none reading outs e = refl
      opened (some i) reading outs e = rw e refl

  -- After `InsertTX` of a storable transaction returned nil, `GetUtxo` of its identifier and any index
  -- below 2^32 returns the output at that index if it is unspent, and no output otherwise.
  pub get_utxo-insert_tx :
      (c c' : DbWrapper l) (t : Transaction) (m : List ℕ) (vout : ℕ)
      → (c.is_obfuscated ≡ true → IsKey c.obfuscation_key)
      → IsStorable sha256 t
      → serialize_tx_metadata t ≡ some m
      → All IsByte m
      → insert_tx sha256 l c t ≡ returns (c', none)
      → get_utxo sha256 l c' t.txid vout ≡ returns (unspent_at t.outputs vout)
  unfolding get_utxo
  get_utxo-insert_tx c c' t m vout opens ok writes bytes p =
      get_utxo-record c' t m vout ok writes (insert_tx-reads c c' t m opens writes bytes p)

  -- After `InsertTX` of a storable transaction returned nil, `UtxoExists` panics at the index that is
  -- the number of the transaction's outputs.
  pub utxo_exists-panics :
      (c c' : DbWrapper l) (t : Transaction) (m : List ℕ)
      → (c.is_obfuscated ≡ true → IsKey c.obfuscation_key)
      → IsStorable sha256 t
      → serialize_tx_metadata t ≡ some m
      → All IsByte m
      → insert_tx sha256 l c t ≡ returns (c', none)
      → utxo_exists sha256 l c' t.txid (length t.outputs) ≡ panics
  unfolding utxo_exists
  utxo_exists-panics c c' t m opens ok writes bytes p =
      let (m', writes', (_, _, vector, _, _)) = read-serialize_tx_metadata sha256 t ok in
      let same : m' ≡ m = unsome (sym writes' ∙ writes) in
      rw
        (
          insert_tx-reads c c' t m opens writes bytes p,
          ← same,
          vector,
          length-map t.outputs (λ outp. outp.is_not_spent),
          mod-eq_of_lt ok.count_range,
          not_less,
          past_end (unspent_flags t.outputs) _
              (sym (length-map t.outputs (λ outp. outp.is_not_spent))),
        )
        refl
    where
      not_less : ltb (length t.outputs) (length t.outputs) ≡ false
      not_less = ground arith

      past_end : (xs : List Bool) (n : ℕ) → n ≡ length xs → get_elem? xs n ≡ none
      past_end [] n e = refl
      past_end (x ∷ xs) zero e = absurd (omega arith)
      past_end (x ∷ xs) (suc n) e = past_end xs n (omega arith)
