-- ===== src/Tests/Confirmation.antt =====
-- `ConfirmAsValid` over the list of keys and values of `Tests.Store`.
use plairo.Common.{inl, inr, ℕ, ◌≡◌, refl, sym, ap, ◌⊎◌, arith, inl, false, unsome}
use plairo.Common.{List, [], ◌∷◌, none, some}
use mathlib.Core.Path.{subst}
use plairo.Core.Output.{output_id_of}
use plairo.Core.Transaction.{Transaction, serialize_unspent}
use plairo.Core.Metadata.RoundTrip.{metadata_of}
use plairo.Core.Block.{Block}
use plairo.Core.BlockCheck.{World}
use plairo.Utils.Serializer.{serialize_uint64}
use plairo.Core.MemTree.{leaf}
use plairo.Db.Wrapper.{DbError, DbWrapper, get_value, build_key, write_batch}
use plairo.Db.Chainstate.{get_tx, get_utxo, tx_key}
use plairo.Db.Chainstate.Interface.{chainstate}
use plairo.Db.Chainstate.UtxoSet.{UtxoSet, add_txs, last_write, IsBatchStore, CanStore, Shows}
use plairo.Db.Chainstate.UtxoSet.Writing.{write_batch-Shows}
use plairo.Db.Chainstate.UtxoSet.Confirm.{Refused, Confirmed, confirm_as_valid-spend_txs}
use plairo.Tests.Encodings.{toy_hash, two_outputs, two_outputs-IsStorable, output_at}
use plairo.Tests.Store.{Pairs, pairs, pairs-IsStore, look, put_all}
use plairo.Tests.Unspent.{plain}
use plairo.Tests.Validation.{toy_ecdsa}

look-put_all :
    (writes d : Pairs) (k : List ℕ) → look (put_all writes d) k ≡ last_write writes k (look d k)
look-put_all [] d k = refl
look-put_all ((j, v) ∷ writes) d k = look-put_all writes ((j, v) ∷ d) k

pub pairs-IsBatchStore : IsBatchStore pairs
pairs-IsBatchStore = record {
  get-write = λ d d' batch key p.
      subst (λ e. look e key ≡ last_write batch key (look d key)) (unsome p)
        (look-put_all batch d key);
}

-- The batch that holds `two_outputs`.
abbrev waiting : DbWrapper pairs
waiting = record plain {
  current_batch = some ((build_key tx_key two_outputs.txid, metadata_of two_outputs) ∷ []);
}

abbrev pub nothing_unspent : UtxoSet
nothing_unspent txid vout = none

waiting-Shows : Shows toy_hash pairs waiting nothing_unspent (two_outputs ∷ [])
unfolding get_utxo get_tx get_value
waiting-Shows = record {
  is_plain = refl;
  batch = refl;
  records = λ x. inl refl;
  shows = λ x v. refl;
}

two_outputs-CanStore : CanStore toy_hash two_outputs
two_outputs-CanStore = (
  two_outputs-IsStorable,
  ((omega arith, (omega arith, (omega arith, tt))), ((omega arith, tt), tt)),
)

abbrev saved : DbWrapper pairs
saved = record plain { db = (build_key tx_key two_outputs.txid, metadata_of two_outputs) ∷ [] }

pub saved-Shows : Shows toy_hash pairs saved (add_txs nothing_unspent (two_outputs ∷ [])) []
unfolding write_batch
saved-Shows =
    elim (write_batch-Shows toy_hash pairs pairs-IsStore pairs-IsBatchStore waiting nothing_unspent
      (two_outputs ∷ []) waiting-Shows (two_outputs-CanStore, tt)) [
        | inl (fault, w) ↦ absurd (returned (ap (λ p. p.1) w))
        | inr (after, w, s) ↦
            subst (λ c. Shows toy_hash pairs c (add_txs nothing_unspent (two_outputs ∷ [])) [])
              (sym (ap (λ p. p.0) w)) s
      ]
  where
    returned : {e : DbError} → none ≡ some e → ⊥
    returned q = cc

-- It spends the first of the two outputs.
abbrev pub spending : Transaction
spending = record {
  txid = 7 ∷ [];
  tx_signature = [];
  block_height = 78;
  is_coinbase = false;
  inputs = record { output_referred = output_at 0 1000 []; script_sig = [] } ∷ [];
  outputs =
      record (output_at 0 990 (4 ∷ [])) {
        parent_txid = 7 ∷ [];
        output_id = output_id_of toy_hash (7 ∷ []) 0;
      }
      ∷ [];
}

pub spending-CanStore : CanStore toy_hash spending
spending-CanStore = (
  record {
    height_range = omega arith;
    count_range = omega arith;
    outputs_ranges = omega arith;
    size_range = unfold serialize_unspent serialize_uint64 in omega arith;
    updated = (refl, refl, refl, tt);
  },
  ((omega arith, tt), tt),
)

abbrev pub before : World (chainstate toy_hash pairs)
before = record {
  mempool = record { internal_tree = leaf; txmap = []; outs_referenced = [] };
  cstate = saved;
}

-- The batch has a transaction that a refused block left there.
abbrev fresh : Transaction
fresh = record spending { inputs = [] }

fresh-CanStore : CanStore toy_hash fresh
fresh-CanStore = (
  record {
    height_range = omega arith;
    count_range = omega arith;
    outputs_ranges = omega arith;
    size_range = unfold serialize_unspent serialize_uint64 in omega arith;
    updated = (refl, refl, refl, tt);
  },
  ((omega arith, tt), tt),
)

abbrev creating : Block
creating = record { header = none; all_block_tx = fresh ∷ [] }

abbrev left_over : World (chainstate toy_hash pairs)
left_over = record before { cstate = waiting }

confirm_as_valid-spend_txs_example :
    Refused toy_hash toy_ecdsa pairs pairs-IsStore left_over creating nothing_unspent
      (two_outputs ∷ [])
    ⊎ Confirmed toy_hash toy_ecdsa pairs pairs-IsStore left_over creating nothing_unspent
        (two_outputs ∷ [])
confirm_as_valid-spend_txs_example =
    confirm_as_valid-spend_txs toy_hash toy_ecdsa pairs pairs-IsStore pairs-IsBatchStore left_over
      creating nothing_unspent (two_outputs ∷ []) waiting-Shows (two_outputs-CanStore, tt)
      (fresh-CanStore, tt)
