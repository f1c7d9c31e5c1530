-- ===== src/Tests/Unspent.antt =====
-- The chainstate over a list of keys and values.
use plairo.Common.{returns, panics}
use plairo.Common.{bytes_eq, ℕ, ◌≡◌, refl, arith, ltb, Bool, true, false, ◌&&◌, All, IsByte}
use plairo.Common.{List, [], ◌∷◌, ◌++◌, none, some, replicate}
use plairo.Utils.Serializer.{serialize_uint32, serialize_uint64}
use plairo.Utils.OneHot.{serialize_to_one_hot, pack_loop, store, store_last}
use plairo.Core.Transaction.{is_spent, all_spent, serialize_tx_metadata, serialize_unspent}
use plairo.Db.Wrapper.{found, get_value, DbWrapper, build_key, insert_value}
use plairo.Db.Wrapper.Obfuscation.{IsKey}
use plairo.Db.Chainstate.{insert_tx, get_tx, get_utxo, utxo_exists}
use plairo.Db.Chainstate.Lookup.{get_utxo-insert_tx, utxo_exists-panics}
use plairo.Tests.Encodings.{toy_hash, output_at, two_outputs, two_outputs-IsStorable}
use plairo.Tests.Store.{pairs, pairs-IsStore}

abbrev pub all_bytes : List ℕ → Bool
all_bytes [] = true
all_bytes (x ∷ xs) = ltb x 256 && all_bytes xs

pub all_bytes-All : (xs : List ℕ) → all_bytes xs ≡ true → All IsByte xs
all_bytes-All [] p = tt
all_bytes-All (x ∷ xs) p = (ground arith, all_bytes-All xs (ground arith))

abbrev pub plain : DbWrapper pairs
plain = record { is_obfuscated = false; db = []; obfuscation_key = []; current_batch = none }

abbrev pub metadata : List ℕ
metadata =
    (1 ∷ 0 ∷ 0 ∷ 0 ∷ 77 ∷ 0 ∷ 0 ∷ 0 ∷ 2 ∷ 1 ∷ [])
    ++ replicate 6 0
    ++ (3 ∷ 232 ∷ [])
    ++ replicate 7 0
    ++ (3 ∷ 1 ∷ 2 ∷ 3 ∷ [])

abbrev pub inserted : DbWrapper pairs
inserted = record plain { db = (0x63 ∷ 5 ∷ 6 ∷ [], metadata) ∷ [] }

pub writes : serialize_tx_metadata two_outputs ≡ some metadata
unfolding serialize_tx_metadata serialize_unspent serialize_to_one_hot pack_loop store_last store
    serialize_uint32 serialize_uint64
writes = refl

pub plain-opens : plain.is_obfuscated ≡ true → IsKey plain.obfuscation_key
plain-opens p = absurd (cc)

pub holds : get_tx toy_hash pairs inserted (5 ∷ 6 ∷ []) ≡ returns (found metadata)
unfolding get_tx get_value build_key bytes_eq
holds = refl

inserts : insert_tx toy_hash pairs plain two_outputs ≡ returns (inserted, none)
unfolding insert_tx is_spent all_spent insert_value build_key serialize_tx_metadata
    serialize_unspent serialize_to_one_hot pack_loop store_last store serialize_uint32
    serialize_uint64
inserts = refl

get_utxo-insert_tx_example :
    get_utxo toy_hash pairs inserted (5 ∷ 6 ∷ []) 0
    ≡ returns (some (output_at 0 1000 (1 ∷ 2 ∷ 3 ∷ [])))
get_utxo-insert_tx_example =
    get_utxo-insert_tx toy_hash pairs pairs-IsStore plain inserted two_outputs metadata 0
      plain-opens two_outputs-IsStorable writes (all_bytes-All metadata refl) inserts

utxo_exists-panics_example : utxo_exists toy_hash pairs inserted (5 ∷ 6 ∷ []) 2 ≡ panics
utxo_exists-panics_example =
    utxo_exists-panics toy_hash pairs pairs-IsStore plain inserted two_outputs metadata plain-opens
      two_outputs-IsStorable writes (all_bytes-All metadata refl) inserts
