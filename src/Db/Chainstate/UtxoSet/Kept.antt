-- ===== src/Db/Chainstate/UtxoSet/Kept.antt =====
-- `InsertBlock` of core/blockchain.go and the well-formed chainstates.
use plairo.Common.{
  refl, false, ℕ, ◌≡◌, sym, ap, ◌∙◌, inl, inr, returns, if◌then◌else◌, if-cases, ltb, ◌||◌, ◌==◌,
  ◌%◌, ◌^◌,
}
use plairo.Common.{List, [], ◌∷◌, ◌++◌, length, Option, none, some, All, All-append}
use mathlib.Core.Path.{subst}
use plairo.Core.Transaction.{Transaction}
use plairo.Core.Validate.{Ecdsa}
use plairo.Core.Header.{Verdict}
use plairo.Core.Block.{Block}
use plairo.Core.BlockCheck.{World, BlockError, Checked, confirm_as_valid}
use plairo.Core.BlockCheck.Frame.{validate_block-SameState}
use plairo.Core.Blockchain.{IStorage, ChainError, invalid_height, Ledger}
use plairo.Core.Blockchain.Insert.{insert_block, insert_in_fork, insert_at_end}
use plairo.Core.Blockchain.Frame.{insert_at_end-cases}
use plairo.Core.Blockchain.Stored.{store_block-cases}
use plairo.Core.Blockchain.Forks.{refused, insert_in_fork-Keeps}
use plairo.Db.Wrapper.{LevelDb, IsStore, DbWrapper, no_value, not_found, get_value, build_key}
use plairo.Db.Opening.{new_db_wrapper}
use plairo.Db.Chainstate.{tx_key, get_tx, get_utxo}
use plairo.Db.Chainstate.Interface.{chainstate}
use plairo.Db.Chainstate.UtxoSet.{UtxoSet, IsBatchStore, CanStore, Shows}
use plairo.Db.Chainstate.UtxoSet.Confirm.{Stops, confirm_as_valid-spend_txs}

-- The chainstate shows some set, and its batch has storable transactions alone.
abbrev pub IsUtxoStore : (List ℕ → List ℕ) → (l : LevelDb) → DbWrapper l → Type 0
IsUtxoStore sha256 l c =
    (u : UtxoSet) × (txs : List Transaction) × Shows sha256 l c u txs × All (CanStore sha256) txs

-- A chainstate that is opened without obfuscation over a database without values.
new_db_wrapper-IsUtxoStore :
    (sha256 : List ℕ → List ℕ) (l : LevelDb) (db : LevelDb.Db l) (rnd : ℕ)
    → ((key : List ℕ) → l.get db key ≡ no_value not_found)
    → (c : DbWrapper l) × (new_db_wrapper l (some db) rnd false ≡ some c) × IsUtxoStore sha256 l c
unfolding new_db_wrapper get_tx get_value get_utxo
new_db_wrapper-IsUtxoStore sha256 l db rnd empty = (
  record { is_obfuscated = false; db = db; obfuscation_key = []; current_batch = none },
  refl,
  (
    λ txid vout. none,
    [],
    record {
      is_plain = refl;
      batch = refl;
      records = λ x. inl (rw (get_tx, get_value, empty (build_key tx_key x)) refl);
      shows = λ x v. rw (get_utxo, get_tx, get_value, empty (build_key tx_key x)) refl;
    },
    tt,
  ),
)

All-prefix : {A : Type 0} (P : A → Type 0) (xs ys : List A) → All P (xs ++ ys) → All P xs
All-prefix P [] ys a = tt
All-prefix P (x ∷ xs) ys a = (a.0, All-prefix P xs ys a.1)

module _ (sha256 : List ℕ → List ℕ) (ecdsa : Ecdsa) (l : LevelDb) (store : IsStore l)
    (ordered : IsBatchStore l) where
  confirm_as_valid-IsUtxoStore :
      (w w' : World (chainstate sha256 l)) (b : Block)
      (e : Option (BlockError (chainstate sha256 l)))
      → IsUtxoStore sha256 l w.cstate
      → All (CanStore sha256) b.all_block_tx
      → confirm_as_valid sha256 ecdsa (chainstate sha256 l) w b ≡ returns (w', e)
      → IsUtxoStore sha256 l w'.cstate
  confirm_as_valid-IsUtxoStore w w' b e (u, before, s, storable) ok c =
      elim (confirm_as_valid-spend_txs sha256 ecdsa l store ordered w b u before s storable ok) [
        | inl (done, v, x, u'', stop, r, t) ↦
            subst (IsUtxoStore sha256 l) (same_state (sym r ∙ c)) (
              u'',
              before ++ done,
              t,
              All-append (CanStore sha256) before done storable
                  (went_through done v.cstate.db stop),
            )
        | inr (u', after, _, r, t) ↦
            subst (IsUtxoStore sha256 l) (same_state (sym r ∙ c)) (_, [], t, tt)
      ]
    where
      went_through :
          (done : List Transaction) (db : LevelDb.Db l)
          → Stops sha256 ecdsa l store u b.all_block_tx done db
          → All (CanStore sha256) done
      went_through done db (inl (_, stop)) =
          All-prefix (CanStore sha256) done (stop.next ∷ stop.rest)
            (subst (All (CanStore sha256)) stop.split ok)
      went_through done db (inr (_, rest, split)) =
          All-prefix (CanStore sha256) done rest (subst (All (CanStore sha256)) split ok)

      same_state :
          {v v' : World (chainstate sha256 l)} {x x' : Option (BlockError (chainstate sha256 l))}
          → ◌≡◌ {A = Checked sha256 ecdsa (chainstate sha256 l)} (returns (v, x)) (returns (v', x'))
          → v.cstate ≡ v'.cstate
      same_state q = cc

  module _ (st : IStorage) (check_header : List ℕ → Verdict) where
    -- `InsertBlock` of a block of storable transactions, at any height, with any header check and
    -- whatever it returns, errors of the database included: a chainstate that is not obfuscated, in
    -- which every record is that of a storable transaction and whose batch has storable transactions
    -- alone, is one afterwards too.
    pub insert_block-IsUtxoStore :
        (ledger ledger' : Ledger (chainstate sha256 l) st) (block : Block) (height : ℕ)
        (e : Option (ChainError (chainstate sha256 l) st))
        → IsUtxoStore sha256 l ledger.world.cstate
        → All (CanStore sha256) block.all_block_tx
        → insert_block sha256 ecdsa (chainstate sha256 l) st check_header ledger block height
          ≡ returns (ledger', e)
        → IsUtxoStore sha256 l ledger'.world.cstate
    unfolding insert_block
    insert_block-IsUtxoStore ledger ledger' block height e s ok p =
        let cs = chainstate sha256 l in
        let end = length ledger.blockchain.chain % 2 ^ 32 in
        let fork = insert_in_fork sha256 ecdsa cs st check_header ledger block height in
        let last = insert_at_end sha256 ecdsa cs st check_header ledger block height in
        elim (if-cases (ltb end height || (height == 0)) (returns (ledger, some invalid_height))
          (if ltb height end then fork else last) p) [
            | inl (_, q) ↦ moved (ap (λ w. w.cstate) (refused sha256 ecdsa cs st check_header q).0)
            | inr (_, q) ↦ elim (if-cases (ltb height end) fork last q) [
              | inl (_, f) ↦ moved (
                  ap (λ w. w.cstate)
                    (insert_in_fork-Keeps sha256 ecdsa cs st check_header ledger ledger' block
                      height e f).0)
              | inr (_, f) ↦
                  elim (insert_at_end-cases sha256 ecdsa cs st check_header ledger ledger' block
                    height e f) [
                      | inl (_, _, same) ↦ moved (sym same)
                      | inr (_, header, world, _, _, v, stored) ↦
                          let same =
                            validate_block-SameState sha256 ecdsa cs check_header ledger.world block
                              height world none v in
                          elim (store_block-cases sha256 ecdsa cs st check_header _ ledger' block
                            height e stored) [
                              | inl (kept, _) ↦ moved (sym (kept ∙ same))
                              | inr (world', stop, c, left, _) ↦
                                  subst (IsUtxoStore sha256 l) (sym left) (
                                    confirm_as_valid-IsUtxoStore world world' block stop
                                      (subst (IsUtxoStore sha256 l) (sym same) s) ok c)
                            ]
                    ]
            ]
          ]
      where
        moved :
            ledger.world.cstate ≡ ledger'.world.cstate → IsUtxoStore sha256 l ledger'.world.cstate
        moved same = subst (IsUtxoStore sha256 l) same s
