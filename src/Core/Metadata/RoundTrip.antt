-- ===== src/Core/Metadata/RoundTrip.antt =====
-- `SerializeTXMetadata` against the reader: every field of the record reads back.
use mathlib.Core.Path.{subst}
use plairo.Common.{◌⊎◌, ==_refl, ℕ, suc, ◌+◌, ◌%◌, ◌^◌, ◌<◌, ◌≡◌, refl, sym, ap, ◌∙◌, arith}
use plairo.Common.{List, [], ◌∷◌, ◌++◌, length, some, false, if◌then◌else◌, All}
use plairo.Common.{IsU32, IsU64, slice_at, Bool-cases, inl, inr, length-map}
use plairo.Common.{length-append, append_assoc, none}
use native.Mathlib.Nat.{mod-eq_of_lt}
use plairo.Utils.Serializer.{serialize_uint32}
use plairo.Utils.Serializer.Laws.{length-serialize_uint32, uint32_back}
use plairo.Utils.OneHot.{ceil_div8}
use plairo.Utils.OneHot.Packed.{packed, length-packed, serialize_to_one_hot-packed}
use plairo.Core.Transaction.Identity.{IsUpdated}
use plairo.Core.Metadata.Records.{IsEncodable, restored, read_records-unspent}
use plairo.Core.Output.{TransactionOutput, new_transaction_output}
use plairo.Core.Transaction.{
  Transaction, length32, serialize_unspent, unspent_flags, serialize_tx_metadata,
}
use plairo.Core.Metadata.{
  TxMetadataReader, read_is_coinbase, read_block_height, read_no_of_outputs, read_bit_vector,
  read_records, read_outputs, vouts_slice,
}
use plairo.Core.Metadata.Bits.{set_indices, read_bits-packed}

-- The fixed part of a record, and the whole.
abbrev fixed_part : Transaction → List ℕ
fixed_part t =
    ((if t.is_coinbase then 0x01 else 0x00) ∷ [])
    ++ (serialize_uint32 t.block_height false ++ length32 t.outputs)

unfoldable pub metadata_of : Transaction → List ℕ
metadata_of t = fixed_part t ++ (packed (unspent_flags t.outputs) ++ serialize_unspent t.outputs)

-- Serializing never panics, and writes the fields in this order.
pub serialize_tx_metadata-metadata_of :
    (t : Transaction) → serialize_tx_metadata t ≡ some (metadata_of t)
unfolding serialize_tx_metadata metadata_of
serialize_tx_metadata-metadata_of t =
    rw (serialize_to_one_hot-packed (unspent_flags t.outputs)) (ap some (simp append_assoc))

module _ (t : Transaction) (txid : List ℕ) where
  abbrev pub reader : TxMetadataReader
  reader = record { txid = txid; metadata = metadata_of t }

  coinbase_back : read_is_coinbase reader ≡ some t.is_coinbase
  unfolding read_is_coinbase metadata_of
  coinbase_back = elim (Bool-cases t.is_coinbase) [ inl e ↦ rw e | inr e ↦ rw e ]

  abbrev tag_byte : List ℕ
  tag_byte = (if t.is_coinbase then 0x01 else 0x00) ∷ []

  abbrev height_bytes : List ℕ
  height_bytes = serialize_uint32 t.block_height false

  abbrev body : List ℕ
  body = packed (unspent_flags t.outputs) ++ serialize_unspent t.outputs

  height_back : IsU32 t.block_height → read_block_height reader ≡ some t.block_height
  unfolding read_block_height
  height_back h =
      rw
        (slice_at (metadata_of t) tag_byte height_bytes (length32 t.outputs ++ body) 1 5
          (unfold metadata_of in simp append_assoc) refl
          (omega (arith, length-serialize_uint32 t.block_height false)))
        (uint32_back t.block_height false h)

  pub count_back : IsU32 (length t.outputs) → read_no_of_outputs reader ≡ some (length t.outputs)
  unfolding read_no_of_outputs
  count_back h =
      rw
        (
          slice_at (metadata_of t) (tag_byte ++ height_bytes) (length32 t.outputs) body 5 9
              (unfold metadata_of in simp append_assoc)
              (omega (arith, length-serialize_uint32 t.block_height false))
              (omega (arith, length-serialize_uint32 (length t.outputs % 2 ^ 32) false)),
          mod-eq_of_lt h,
        )
        (uint32_back (length t.outputs) false h)

  length-fixed_part : length (fixed_part t) ≡ 9
  length-fixed_part = omega (
    arith,
    length-append height_bytes (length32 t.outputs),
    length-serialize_uint32 t.block_height false,
    length-serialize_uint32 (length t.outputs % 2 ^ 32) false,
  )

  -- The flags of the outputs read back, with the indices of those that are unspent.
  bit_vector_back :
      IsU32 (length t.outputs)
      → read_bit_vector reader
        ≡ some (unspent_flags t.outputs, set_indices 0 (unspent_flags t.outputs))
  unfolding read_bit_vector
  bit_vector_back h =
      let flags = unspent_flags t.outputs in
      let counted : length flags ≡ length t.outputs =
        length-map t.outputs (λ outp. outp.is_not_spent) in
      rw
        (
          count_back h,
          slice_at (metadata_of t) (fixed_part t) (packed flags) (serialize_unspent t.outputs) 9
              (9 + ceil_div8 (length t.outputs)) (unfold metadata_of in refl) length-fixed_part
              (omega (arith, length-packed flags)),
          ← counted,
        )
        (read_bits-packed flags)

abbrev pub unspent_outputs : List TransactionOutput → List TransactionOutput
unspent_outputs [] = []
unspent_outputs (outp ∷ outputs) =
    if outp.is_not_spent then outp ∷ unspent_outputs outputs else unspent_outputs outputs

-- A transaction whose fields fit their encodings and whose outputs are up to date.
pub record IsStorable (sha256 : List ℕ → List ℕ) (t : Transaction) : Type 0 where
  pub height_range : IsU32 t.block_height
  pub count_range : IsU32 (length t.outputs)
  pub outputs_ranges : All IsEncodable t.outputs
  pub size_range : 9 + ceil_div8 (length t.outputs) + length (serialize_unspent t.outputs) < 2 ^ 64
  pub updated : IsUpdated sha256 t.txid 0 t.outputs

vouts_slice-cases : (vs : List ℕ) → (vouts_slice vs ≡ none) ⊎ (vouts_slice vs ≡ some vs)
vouts_slice-cases [] = inl refl
vouts_slice-cases (v ∷ vs) = inr refl

module _ (sha256 : List ℕ → List ℕ) where
  restored-unspent :
      (txid : List ℕ) (i : ℕ) (outputs : List TransactionOutput)
      → IsUpdated sha256 txid i outputs
      → restored sha256 txid i outputs ≡ unspent_outputs outputs
  unfolding new_transaction_output
  restored-unspent txid i [] u = refl
  restored-unspent txid i (outp ∷ outputs) u = ground (arith, restored-unspent txid (suc i) outputs)

  module _ (t : Transaction) (ok : IsStorable sha256 t) where
    records_back :
        read_records sha256
          (reader t t.txid)
          (9 + ceil_div8 (length t.outputs))
          (set_indices 0 (unspent_flags t.outputs))
        ≡ some (unspent_outputs t.outputs)
    records_back =
        let flags = unspent_flags t.outputs in
        let counted : length flags ≡ length t.outputs =
          length-map t.outputs (λ outp. outp.is_not_spent) in
        let pre = fixed_part t ++ packed flags in
        subst
          (λ k.
            read_records sha256 (reader t t.txid) k (set_indices 0 flags)
            ≡ some (unspent_outputs t.outputs))
          (omega (
            arith,
            length-append (fixed_part t) (packed flags),
            length-fixed_part t t.txid,
            length-packed flags,
          ))
          (read_records-unspent sha256 (reader t t.txid) size pre 0 t.outputs ok.outputs_ranges (
              unfold metadata_of in
              sym (append_assoc (fixed_part t) (packed flags) (serialize_unspent t.outputs)))
            ∙ ap some (restored-unspent t.txid 0 t.outputs ok.updated))
      where
        size : IsU64 (length (metadata_of t))
        size =
            unfold metadata_of in
            omega (
              arith,
              ok.size_range,
              length-append (fixed_part t)
                  (packed (unspent_flags t.outputs) ++ serialize_unspent t.outputs),
              length-append (packed (unspent_flags t.outputs)) (serialize_unspent t.outputs),
              length-fixed_part t t.txid,
              length-packed (unspent_flags t.outputs),
              length-map t.outputs (λ outp. outp.is_not_spent),
            )

    outputs_back_nil :
        read_outputs sha256 (reader t t.txid) none none ≡ some (unspent_outputs t.outputs)
    unfolding read_outputs
    outputs_back_nil =
        rw (count_back t t.txid ok.count_range, bit_vector_back t t.txid ok.count_range)
          records_back

    outputs_back :
        read_outputs sha256
          (reader t t.txid)
          (some (unspent_flags t.outputs))
          (vouts_slice (set_indices 0 (unspent_flags t.outputs)))
        ≡ some (unspent_outputs t.outputs)
    unfolding read_outputs
    outputs_back = elim (vouts_slice-cases (set_indices 0 (unspent_flags t.outputs))) [
      | inl e ↦ rw e outputs_back_nil
      | inr e ↦
          rw
            (
              e,
              count_back t t.txid ok.count_range,
              length-map t.outputs (λ outp. outp.is_not_spent),
              mod-eq_of_lt ok.count_range,
              ==_refl (length t.outputs),
            )
            records_back
    ]

-- What the reader returns of the metadata of a transaction.
abbrev pub ReadsBack : (List ℕ → List ℕ) → Transaction → Type 0
ReadsBack sha256 t =
    (m : List ℕ) × (serialize_tx_metadata t ≡ some m)
    × (let tr : TxMetadataReader = record { txid = t.txid; metadata = m } in
        let flags = unspent_flags t.outputs in
        (read_is_coinbase tr ≡ some t.is_coinbase)
        × (read_block_height tr ≡ some t.block_height)
        × (read_bit_vector tr ≡ some (flags, set_indices 0 flags))
        × (read_outputs sha256 tr (some flags) (vouts_slice (set_indices 0 flags))
            ≡ some (unspent_outputs t.outputs))
        × (read_outputs sha256 tr none none ≡ some (unspent_outputs t.outputs)))

-- A storable transaction is serialized without a panic, and the reader returns its coinbase flag, its
-- height, the spent flag of every output, and exactly the unspent outputs, whether it is handed the
-- bit vector that was read or nil slices.
pub read-serialize_tx_metadata :
    (sha256 : List ℕ → List ℕ) (t : Transaction) → IsStorable sha256 t → ReadsBack sha256 t
read-serialize_tx_metadata sha256 t ok = (
  metadata_of t,
  serialize_tx_metadata-metadata_of t,
  (
    coinbase_back t t.txid,
    height_back t t.txid ok.height_range,
    bit_vector_back t t.txid ok.count_range,
    outputs_back sha256 t ok,
    outputs_back_nil sha256 t ok,
  ),
)
