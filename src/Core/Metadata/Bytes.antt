-- ===== src/Core/Metadata/Bytes.antt =====
-- What `SerializeTXMetadata` writes is bytes.
use plairo.Common.{
  ℕ, zero, suc, ◌%◌, ◌^◌, ◌<◌, ◌≤◌, ◌≡◌, sym, ◌∙◌, arith, Bool, true, false, if◌then◌else◌,
}
use plairo.Common.{List, [], ◌∷◌, ◌++◌, length, some, All, All-append, IsByte, unsome}
use mathlib.Core.Path.{subst}
use native.Mathlib.Nat.{pow-succ'}
use plairo.Utils.Serializer.{serialize_uint32, serialize_uint64}
use plairo.Utils.OneHot.Packed.{group, packed}
use plairo.Core.Output.{TransactionOutput}
use plairo.Core.Transaction.{
  Transaction, length32, length64, unspent_flags, serialize_output, serialize_unspent,
  serialize_tx_metadata,
}
use plairo.Core.Metadata.RoundTrip.{metadata_of, serialize_tx_metadata-metadata_of}

group_lt : (n : ℕ) (bs : List Bool) → length bs ≤ n → group bs < 2 ^ n
group_lt zero [] h = omega arith
group_lt (suc n) [] h = omega (arith, group_lt n [] (omega arith), pow-succ' 2 n)
group_lt zero (b ∷ bs) h = absurd (omega arith)
group_lt (suc n) (true ∷ bs) h = omega (arith, group_lt n bs (omega arith), pow-succ' 2 n)
group_lt (suc n) (false ∷ bs) h = omega (arith, group_lt n bs (omega arith), pow-succ' 2 n)

packed-IsByte : (bits : List Bool) → All IsByte (packed bits)
unfolding packed
packed-IsByte (a ∷ b ∷ c ∷ d ∷ e ∷ f ∷ g ∷ h ∷ rest) =
    All-append IsByte (packed rest) _ (packed-IsByte rest)
      (group_lt 8 (a ∷ b ∷ c ∷ d ∷ e ∷ f ∷ g ∷ h ∷ []) (omega arith), tt)
packed-IsByte [] = tt
packed-IsByte (a ∷ []) = (group_lt 8 (a ∷ []) (omega arith), tt)
packed-IsByte (a ∷ b ∷ []) = (group_lt 8 (a ∷ b ∷ []) (omega arith), tt)
packed-IsByte (a ∷ b ∷ c ∷ []) = (group_lt 8 (a ∷ b ∷ c ∷ []) (omega arith), tt)
packed-IsByte (a ∷ b ∷ c ∷ d ∷ []) = (group_lt 8 (a ∷ b ∷ c ∷ d ∷ []) (omega arith), tt)
packed-IsByte (a ∷ b ∷ c ∷ d ∷ e ∷ []) = (group_lt 8 (a ∷ b ∷ c ∷ d ∷ e ∷ []) (omega arith), tt)
packed-IsByte (a ∷ b ∷ c ∷ d ∷ e ∷ f ∷ []) =
    (group_lt 8 (a ∷ b ∷ c ∷ d ∷ e ∷ f ∷ []) (omega arith), tt)
packed-IsByte (a ∷ b ∷ c ∷ d ∷ e ∷ f ∷ g ∷ []) =
    (group_lt 8 (a ∷ b ∷ c ∷ d ∷ e ∷ f ∷ g ∷ []) (omega arith), tt)

uint32-IsByte : (v : ℕ) → All IsByte (serialize_uint32 v false)
unfolding serialize_uint32
uint32-IsByte v = omega arith

uint64-IsByte : (v : ℕ) → All IsByte (serialize_uint64 v false)
unfolding serialize_uint64
uint64-IsByte v = omega arith

-- The scripts of the outputs are bytes.
abbrev pub AreByteScripts : List TransactionOutput → Type 0
AreByteScripts outputs = All (λ outp. All IsByte outp.script_pub_key) outputs

if-All :
    (b : Bool) (xs ys : List ℕ) → All IsByte xs → All IsByte ys → All IsByte (if b then xs else ys)
if-All true xs ys a b = a
if-All false xs ys a b = b

serialize_unspent-IsByte :
    (outputs : List TransactionOutput)
    → AreByteScripts outputs
    → All IsByte (serialize_unspent outputs)
unfolding serialize_unspent
serialize_unspent-IsByte [] b = tt
serialize_unspent-IsByte (outp ∷ outputs) b =
    if-All outp.is_not_spent _ _
      (All-append IsByte (serialize_output outp) _
        (All-append IsByte (serialize_uint64 outp.value false) _ (uint64-IsByte outp.value) (
          All-append IsByte (length64 outp.script_pub_key) _
            (uint64-IsByte (length outp.script_pub_key % 2 ^ 64)) b.0))
        (serialize_unspent-IsByte outputs b.1))
      (serialize_unspent-IsByte outputs b.1)

pub serialize_tx_metadata-IsByte :
    (t : Transaction) (m : List ℕ)
    → AreByteScripts t.outputs
    → serialize_tx_metadata t ≡ some m
    → All IsByte m
unfolding metadata_of
serialize_tx_metadata-IsByte t m b p =
    subst (All IsByte) (unsome (sym (serialize_tx_metadata-metadata_of t) ∙ p)) (
      tag t.is_coinbase,
      All-append IsByte (serialize_uint32 t.block_height false ++ length32 t.outputs) _
          (All-append IsByte (serialize_uint32 t.block_height false) _
            (uint32-IsByte t.block_height) (uint32-IsByte (length t.outputs % 2 ^ 32)))
          (All-append IsByte (packed (unspent_flags t.outputs)) _
            (packed-IsByte (unspent_flags t.outputs)) (serialize_unspent-IsByte t.outputs b)),
    )
  where
    tag : (c : Bool) → IsByte (if c then 1 else 0)
    tag true = omega arith
    tag false = omega arith
