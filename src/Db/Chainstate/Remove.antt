-- ===== src/Db/Chainstate/Remove.antt =====
-- `RemoveUtxo` against the transaction whose record the chainstate holds.
use plairo.Common.{returns}
use plairo.Common.{
  bytes_eq, bytes_eq→eq, bytes_ne_of, ℕ, ◌%◌, ◌^◌, ◌≡◌, ◌≢◌, refl, sym, ap, ◌∙◌, arith, ◌==◌, leb,
  Bool, true, false, if◌then◌else◌, Bool-cases, ◌⊎◌, inl, inr,
}
use plairo.Common.{
  List, [], length, length-map, map, replicate, get_elem?, none, some, Option-cases, All, IsByte,
  unsome,
}
use plairo.Core.Transaction.{Transaction, unspent_flags, serialize_tx_metadata, new_transaction}
use plairo.Core.Metadata.{
  TxMetadataReader, read_bit_vector, read_no_of_outputs, read_outputs, vouts_slice,
}
use plairo.Core.Metadata.Bits.{set_indices}
use plairo.Core.Metadata.RoundTrip.{
  IsStorable, unspent_outputs, metadata_of, serialize_tx_metadata-metadata_of, count_back,
  read-serialize_tx_metadata,
}
use plairo.Core.Metadata.Bytes.{AreByteScripts, serialize_tx_metadata-IsByte}
use plairo.Db.Wrapper.{
  LevelDb, IsStore, found, no_value, not_found, DbWrapper, build_key, insert_value, get_value,
  remove_value,
}
use plairo.Db.Wrapper.Obfuscation.{IsKey}
use plairo.Db.Wrapper.Paging.{Stored, insert_value-Stored}
use plairo.Db.Chainstate.{
  tx_key, is_only, get_tx, get_utxo, remove_tx, remove_utxo, fill_fakeout, place_outputs,
}
use plairo.Db.Chainstate.Lookup.{unspent_at, get_utxo-record}
use plairo.Db.Chainstate.Spend.{
  spend, keep, place_outputs-spend, spent_tx_of, serialize_tx_metadata-refilled,
  unspent_at-spend_from,
}
use plairo.Db.Chainstate.Only.{
  unspent_at-flag, unspent_at-no_flag, get_elem?_below, is_only→eq, only_others, only_unspent,
  get_elem?-none,
}
use plairo.Db.Chainstate.Spend.Storable.{spend-AreByteScripts, spent_tx_of-IsStorable}
use plairo.Db.Chainstate.Removed.{
  insert_value-StoresOrFails, record_key, Removed, NotRemoved, get_utxo-same_record,
}

module _ (sha256 : List ℕ → List ℕ) (l : LevelDb) (store : IsStore l) where
  module _ (c : DbWrapper l) (t : Transaction) (m : List ℕ) (vout : ℕ)
      (opens : c.is_obfuscated ≡ true → IsKey c.obfuscation_key) (ok : IsStorable sha256 t)
      (scripts : AreByteScripts t.outputs) (writes : serialize_tx_metadata t ≡ some m)
      (reads : get_tx sha256 l c t.txid ≡ returns (found m)) where
    abbrev tr : TxMetadataReader
    tr = record { txid = t.txid; metadata = m }

    abbrev flags : List Bool
    flags = unspent_flags t.outputs

    vector : read_bit_vector tr ≡ some (flags, set_indices 0 flags)
    vector =
        let (m', writes', (_, _, back, _, _)) = read-serialize_tx_metadata sha256 t ok in
        let same : m' ≡ m = unsome (sym writes' ∙ writes) in rw same at back

    outputs_read :
        read_outputs sha256 tr (some flags) (vouts_slice (set_indices 0 flags))
        ≡ some (unspent_outputs t.outputs)
    outputs_read =
        let (m', writes', (_, _, _, back, _)) = read-serialize_tx_metadata sha256 t ok in
        let same : m' ≡ m = unsome (sym writes' ∙ writes) in rw same at back

    count_read : read_no_of_outputs tr ≡ some (length t.outputs)
    count_read =
        let same : metadata_of t ≡ m =
          unsome (sym (serialize_tx_metadata-metadata_of t) ∙ writes) in
        let back = count_back t t.txid ok.count_range in rw same at back

    -- All outputs from what is found for this transaction and for the others.
    looked_up_after :
        (after : DbWrapper l)
        → ((v : ℕ)
            → get_utxo sha256 l after t.txid v
              ≡ returns (if v == vout then none else unspent_at t.outputs v))
        → ((txid : List ℕ) (v : ℕ)
            → txid ≢ t.txid
            → get_utxo sha256 l after txid v ≡ get_utxo sha256 l c txid v)
        → (txid : List ℕ) (v : ℕ)
        → get_utxo sha256 l after txid v ≡ (
            if bytes_eq txid t.txid
            then returns (if v == vout then none else unspent_at t.outputs v)
            else get_utxo sha256 l c txid v)
    looked_up_after after own others txid v = elim (Bool-cases (bytes_eq txid t.txid)) [
      | inl same ↦ rw (same, bytes_eq→eq txid t.txid same) (own v)
      | inr ne ↦ rw ne (others txid v (bytes_ne_of txid t.txid ne))
    ]

    key_ne : (txid : List ℕ) → txid ≢ t.txid → build_key tx_key txid ≢ build_key tx_key t.txid
    unfolding build_key
    key_ne txid ne e = ne (cc)

    -- The last unspent output: the record is deleted.
    deleted :
        (db' : LevelDb.Db l)
        → is_only (set_indices 0 flags) vout ≡ true
        → l.delete c.db (build_key tx_key t.txid) ≡ some db'
        → Removed sha256 l store c t vout
    unfolding remove_utxo remove_tx remove_value get_tx get_value get_utxo
    deleted db' only q = (
      record c { db = db' },
      rw (reads, vector, only, q, remove_utxo, remove_tx, remove_value) refl,
      only_unspent t.outputs vout (is_only→eq _ vout only),
      looked_up_after (record c { db = db' }) (λ v. rw (absent, get_utxo) (ap returns (gone v)))
          (λ txid v ne.
            get_utxo-same_record sha256 l store c (record c { db = db' }) txid v (kept txid ne)),
      record {
        same_flag = refl;
        same_key = refl;
        same_batch = refl;
        own = inl absent;
        others = kept;
      },
    )
      where
        absent : get_tx sha256 l (record c { db = db' }) t.txid ≡ returns (no_value not_found)
        absent =
            rw (store.get-delete_self c.db db' (record_key sha256 l store t) q, get_tx, get_value)
              refl

        kept :
            (txid : List ℕ)
            → txid ≢ t.txid
            → get_tx sha256 l (record c { db = db' }) txid ≡ get_tx sha256 l c txid
        kept txid ne =
            rw
              (
                store.get-delete_ne c.db db' (record_key sha256 l store t) (build_key tx_key txid) q
                    (key_ne txid ne),
                get_tx,
                get_value,
              )
              refl

        gone : (v : ℕ) → none ≡ (if v == vout then none else unspent_at t.outputs v)
        gone v = elim (Bool-cases (v == vout)) [
          | inl same ↦ rw same refl
          | inr ne ↦ rw (ne, only_others t.outputs vout (is_only→eq _ vout only) v ne) refl
        ]

    -- The record is written again without the output.
    rewritten :
        is_only (set_indices 0 flags) vout ≡ false
        → leb (length flags % 2 ^ 32) vout ≡ false
        → get_elem? flags vout ≡ some true
        → Removed sha256 l store c t vout ⊎ NotRemoved sha256 l store c t vout
    unfolding remove_utxo get_tx
    rewritten more inside unspent =
        elim (insert_value-StoresOrFails l c (build_key tx_key t.txid) (metadata_of t2) opens
          bytes2) [
            | inl (fails, why) ↦ inr (
              rw
                  (
                    reads, vector, more, inside, unspent, outputs_read, count_read, placed, writes2,
                    fails, remove_utxo,
                  )
                  refl,
              inr (inr why),
            )
            | inr (c', stores) ↦ inl (
                stored c' stores (
                  insert_value-Stored l store c c' (build_key tx_key t.txid) (metadata_of t2) opens
                    bytes2 stores))
          ]
      where
        t2 : Transaction
        t2 = spent_tx_of t vout

        placed :
            place_outputs vout (unspent_outputs t.outputs) (replicate (length t.outputs) none)
            ≡ some (map keep (spend vout 0 t.outputs))
        placed = place_outputs-spend sha256 t.txid vout 0 t.outputs [] refl ok.updated

        writes2 :
            serialize_tx_metadata (
              new_transaction sha256 []
                (map (fill_fakeout sha256) (map keep (spend vout 0 t.outputs))))
            ≡ some (metadata_of t2)
        writes2 =
            serialize_tx_metadata-refilled sha256 t vout ∙ serialize_tx_metadata-metadata_of t2

        bytes2 : All IsByte (metadata_of t2)
        bytes2 =
            serialize_tx_metadata-IsByte t2 (metadata_of t2)
              (spend-AreByteScripts vout 0 t.outputs scripts) (serialize_tx_metadata-metadata_of t2)

        stored :
            (c' : DbWrapper l)
            → insert_value l c (build_key tx_key t.txid) (metadata_of t2) ≡ returns (c', none)
            → Stored l store c c' (build_key tx_key t.txid) (metadata_of t2)
            → Removed sha256 l store c t vout
        stored c' stores st = (
          c',
          rw
              (
                reads, vector, more, inside, unspent, outputs_read, count_read, placed, writes2,
                stores, remove_utxo,
              )
              refl,
          unspent_at-flag vout t.outputs unspent,
          looked_up_after c'
              (λ v.
                get_utxo-record sha256 l store c' t2 (metadata_of t2) v
                  (spent_tx_of-IsStorable sha256 t vout ok) (serialize_tx_metadata-metadata_of t2)
                  st.reads
                ∙ ap returns (
                    unspent_at-spend_from vout 0 v t.outputs
                    ∙ ap (λ k. if k == vout then none else unspent_at t.outputs v) (omega arith)))
              (λ txid v ne.
                get_utxo-same_record sha256 l store c c' txid v
                  (st.others (build_key tx_key txid) (key_ne txid ne))),
          record {
            same_flag = st.same_flag;
            same_key = st.same_key;
            same_batch = st.same_batch;
            own = inr st.reads;
            others = λ txid ne. st.others (build_key tx_key txid) (key_ne txid ne);
          },
        )

    -- On a chainstate that holds the record of a storable transaction, `RemoveUtxo` returns. If it says
    -- true, the output was unspent, and afterwards `GetUtxo` finds every output as before, those of
    -- other transactions included, but not this one; the record of the transaction is gone or is the
    -- one of its outputs without this one, and all other records are kept. If it says false, nothing
    -- changed, and the output is spent or not there, or the database failed.
    pub remove_utxo-Removed : Removed sha256 l store c t vout ⊎ NotRemoved sha256 l store c t vout
    unfolding remove_utxo remove_tx remove_value
    remove_utxo-Removed = elim (Bool-cases (is_only (set_indices 0 flags) vout)) [
      | inl only ↦ elim (Option-cases (l.delete c.db (record_key sha256 l store t))) [
        | inl n ↦
            inr
              (rw (reads, vector, only, n, remove_utxo, remove_tx, remove_value) refl, inr (inl n))
        | inr (db', q) ↦ inl (deleted db' only q)
      ]
      | inr more ↦ elim (Bool-cases (leb (length flags % 2 ^ 32) vout)) [
        | inl past ↦ inr (
          rw (reads, vector, more, past, remove_utxo) refl,
          inl (unspent_at-no_flag vout t.outputs (beyond past)),
        )
        | inr inside ↦ elim (Option-cases (get_elem? flags vout)) [
          | inl n ↦ absurd (past_end n inside)
          | inr (false, spent) ↦ inr (
            rw (reads, vector, more, inside, spent, remove_utxo) refl,
            inl (unspent_at-no_flag vout t.outputs (not_set spent)),
          )
          | inr (true, unspent) ↦ rewritten more inside unspent
        ]
      ]
    ]
      where
        in_range : length flags ≡ length t.outputs
        in_range = length-map t.outputs (λ outp. outp.is_not_spent)

        past_end : get_elem? flags vout ≡ none → leb (length flags % 2 ^ 32) vout ≡ false → ⊥
        past_end n inside = ground (arith, get_elem?-none flags vout n, in_range, ok.count_range)

        beyond : leb (length flags % 2 ^ 32) vout ≡ true → get_elem? flags vout ≢ some true
        beyond past set =
            ground (arith, get_elem?_below flags vout true set, in_range, ok.count_range)

        not_set : get_elem? flags vout ≡ some false → get_elem? flags vout ≢ some true
        not_set p q = cc
