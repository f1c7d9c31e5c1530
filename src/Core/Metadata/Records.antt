-- ===== src/Core/Metadata/Records.antt =====
-- The loop of `ReadOutputs` over the records that `SerializeTXMetadata` writes.
use plairo.Common.{ℕ, suc, ◌+◌, ◌%◌, ◌^◌, ◌<◌, ◌≡◌, refl, sym, ap, ◌∙◌, arith}
use plairo.Common.{List, [], ◌∷◌, ◌++◌, length, some, false, if◌then◌else◌, All}
use plairo.Common.{IsU64, ◌>>=◌, slice_at, Bool-cases, inl, inr}
use plairo.Common.{length-append, append_assoc}
use native.Mathlib.Nat.{mod-eq_of_lt}
use plairo.Utils.Serializer.{serialize_uint64}
use plairo.Utils.Serializer.Laws.{length-serialize_uint64, uint64_back}
use plairo.Core.Output.{TransactionOutput, new_transaction_output}
use plairo.Core.Transaction.{length64, serialize_output, serialize_unspent, unspent_flags}
use plairo.Core.Metadata.{TxMetadataReader, read_records}
use plairo.Core.Metadata.Bits.{set_indices}

-- The ranges of the machine integers of an output.
pub record IsEncodable (outp : TransactionOutput) : Type 0 where
  pub value_range : IsU64 outp.value
  pub script_range : IsU64 (length outp.script_pub_key)

pub length-serialize_output :
    (outp : TransactionOutput) → length (serialize_output outp) ≡ 16 + length outp.script_pub_key
length-serialize_output outp = omega (
  arith,
  length-append (serialize_uint64 outp.value false)
      (length64 outp.script_pub_key ++ outp.script_pub_key),
  length-append (length64 outp.script_pub_key) outp.script_pub_key,
  length-serialize_uint64 outp.value false,
  length-serialize_uint64 (length outp.script_pub_key % 2 ^ 64) false,
)

module _ (sha256 : List ℕ → List ℕ) where
  -- The unspent ones among the outputs `i`, `i + 1`, … of a transaction, as new values.
  abbrev pub restored : List ℕ → ℕ → List TransactionOutput → List TransactionOutput
  restored txid i [] = []
  restored txid i (outp ∷ outputs) =
      if outp.is_not_spent
      then new_transaction_output sha256 txid i outp.value outp.script_pub_key
        ∷ restored txid (suc i) outputs
      else restored txid (suc i) outputs

  module _ (tr : TxMetadataReader) (small : IsU64 (length tr.metadata)) where
    -- One round reads one record and moves the caret behind it.
    read_records_step :
        (pre tail : List ℕ) (outp : TransactionOutput) (vout : ℕ) (vouts : List ℕ) (next : ℕ)
        → next ≡ length pre + 16 + length outp.script_pub_key
        → IsEncodable outp
        → tr.metadata ≡ pre ++ (serialize_output outp ++ tail)
        → read_records sha256 tr (length pre) (vout ∷ vouts) ≡ (
            read_records sha256 tr next vouts >>= λ res.
            some (new_transaction_output sha256 tr.txid vout outp.value outp.script_pub_key ∷ res))
    unfolding read_records
    read_records_step pre tail outp vout vouts next next_eq ok e =
        let value = serialize_uint64 outp.value false in
        let size = length64 outp.script_pub_key in
        let script = outp.script_pub_key in
        let caret = length pre in
        rw
          (
            slice_at tr.metadata pre value (size ++ (script ++ tail)) caret (caret + 8)
                (e ∙ simp append_assoc) refl
                (omega (arith, length-serialize_uint64 outp.value false)),
            uint64_back outp.value false ok.value_range,
            slice_at tr.metadata (pre ++ value) size (script ++ tail) (caret + 8) (caret + 16)
                (e ∙ simp append_assoc) at_value at_size,
            mod-eq_of_lt ok.script_range,
            uint64_back (length script) false ok.script_range,
            mod-eq_of_lt fits,
            slice_at tr.metadata (pre ++ (value ++ size)) script tail (caret + 16)
                (caret + 16 + length script) (e ∙ simp append_assoc) at_script refl,
            next_eq,
          )
          refl
      where
        at_value : length (pre ++ serialize_uint64 outp.value false) ≡ length pre + 8
        at_value = omega (
          arith,
          length-append pre (serialize_uint64 outp.value false),
          length-serialize_uint64 outp.value false,
        )

        at_size : length pre + 8 + length (length64 outp.script_pub_key) ≡ length pre + 16
        at_size = omega (arith, length-serialize_uint64 (length outp.script_pub_key % 2 ^ 64) false)

        at_script :
            length (pre ++ (serialize_uint64 outp.value false ++ length64 outp.script_pub_key))
            ≡ length pre + 16
        at_script = omega (
          arith,
          length-append pre (serialize_uint64 outp.value false ++ length64 outp.script_pub_key),
          length-append (serialize_uint64 outp.value false) (length64 outp.script_pub_key),
          length-serialize_uint64 outp.value false,
          length-serialize_uint64 (length outp.script_pub_key % 2 ^ 64) false,
        )

        fits : length pre + 16 + length outp.script_pub_key < 2 ^ 64
        fits = omega (
          arith,
          ap length e,
          length-append pre (serialize_output outp ++ tail),
          length-append (serialize_output outp) tail,
          length-serialize_output outp,
        )

    -- The whole loop restores the unspent outputs.
    pub read_records-unspent :
        (pre : List ℕ) (i : ℕ) (outputs : List TransactionOutput)
        → All IsEncodable outputs
        → tr.metadata ≡ pre ++ serialize_unspent outputs
        → read_records sha256 tr (length pre) (set_indices i (unspent_flags outputs))
          ≡ some (restored tr.txid i outputs)
    unfolding serialize_unspent
    read_records-unspent pre i [] ok e = unfold read_records in refl
    read_records-unspent pre i (outp ∷ outputs) ok e = elim (Bool-cases outp.is_not_spent) [
      | inl unspent ↦ rw unspent (
          read_records_step pre (serialize_unspent outputs) outp i _
            (length (pre ++ serialize_output outp))
            (omega (arith, length-append pre (serialize_output outp), length-serialize_output outp))
            ok.0 (rw unspent at e)
          ∙ rw
              (read_records-unspent (pre ++ serialize_output outp) (suc i) outputs ok.1 (
                rw unspent at e
                ∙ sym (append_assoc pre (serialize_output outp) (serialize_unspent outputs))))
              refl)
      | inr spent ↦ rw spent (read_records-unspent pre (suc i) outputs ok.1 (rw spent at e))
    ]
