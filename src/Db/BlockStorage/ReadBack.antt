-- ===== src/Db/BlockStorage/ReadBack.antt =====
-- `GetBlockData` after `WriteBlock`.
use plairo.Common.{
  ℕ, ◌*◌, ◌≤◌, ◌≡◌, refl, ap, ◌∙◌, arith, inl, inr, Option-cases, Outcome-cases, Outcome, returns,
  panics, runs_on, true,
}
use plairo.Common.{List, ◌++◌, length, Option, none, some, All, IsByte}
use mathlib.Core.Path.{subst}
use plairo.Core.Block.{Block, get_block_hash, serialize_block}
use plairo.Db.Wrapper.{LevelDb, IsStore, DbError, page_insert, page_get}
use plairo.Db.Wrapper.Paging.{damaged, IsOpen}
use plairo.Db.Wrapper.RoundTrip.{page_get-page_insert}
use plairo.Db.Opening.{new_db_wrapper}
use plairo.Db.BlockStorage.{
  block_magic_bytes, storage_page_size, BlockStorage, insert_block_index_record, write_undo,
  write_index, write_records, write_block, get_block_data,
}

module _ (sha256 : List ℕ → List ℕ) (l : LevelDb) (store : IsStore l) where
  abbrev Written : Type 0
  Written = Outcome (BlockStorage sha256 l × Option DbError)

  abbrev ends : BlockStorage sha256 l → Option DbError → Written
  ends bs e = returns (bs, e)

  no_panic : {bs : BlockStorage sha256 l} {e : Option DbError} → panics ≡ ends bs e → ⊥
  no_panic p = cc

  no_end : {bs : BlockStorage sha256 l} {e : Option DbError} → runs_on ≡ ends bs e → ⊥
  no_end p = cc

  same_storage :
      {bs bs' : BlockStorage sha256 l} {e e' : Option DbError}
      → ends bs e ≡ ends bs' e'
      → (bs ≡ bs') × (e ≡ e')
  same_storage p = (cc, cc)

  write_index-wrapper :
      (bs bs' : BlockStorage sha256 l) (block : Block) (height rnd : ℕ) (e : Option DbError)
      → write_index sha256 l bs block height rnd ≡ ends bs' e
      → bs.wrapper ≡ bs'.wrapper
  unfolding write_index
  write_index-wrapper bs bs' block height rnd e p =
      elim (Option-cases (new_db_wrapper l bs.index_db rnd true)) [
        | inl o ↦ absurd (no_panic (rw (write_index, o) at p))
        | inr (bi, o) ↦ elim (Outcome-cases (insert_block_index_record sha256 l bi block height)) [
          | inr (inl i) ↦ absurd (no_panic (rw (write_index, o, i) at p))
          | inr (inr i) ↦ absurd (no_end (rw (write_index, o, i) at p))
          | inl ((bi', e'), i) ↦ ap (λ b. b.wrapper) (same_storage (rw (write_index, o, i) at p)).0
        ]
      ]

  -- What follows the block's own pages leaves them alone.
  write_records-wrapper :
      (bs bs' : BlockStorage sha256 l) (block : Block) (undo : Outcome (List ℕ × List ℕ))
      (height : ℕ) (rnds : ℕ × ℕ) (error e : Option DbError)
      → write_records sha256 l bs block undo height rnds error ≡ ends bs' e
      → bs.wrapper ≡ bs'.wrapper
  unfolding write_records
  write_records-wrapper bs bs' block undo height rnds (some error) e p =
      ap (λ b. b.wrapper) (same_storage p).0
  write_records-wrapper bs bs' block undo height rnds none e p =
      elim (Option-cases (new_db_wrapper l bs.undo_db rnds.0 true)) [
        | inl o ↦ absurd (no_panic (rw (write_records, o) at p))
        | inr (uw, o) ↦ elim (Outcome-cases (write_undo sha256 l uw block undo)) [
          | inr (inl i) ↦ absurd (no_panic (rw (write_records, o, i) at p))
          | inr (inr i) ↦ absurd (no_end (rw (write_records, o, i) at p))
          | inl ((uw', some e'), i) ↦
              ap (λ b. b.wrapper) (same_storage (rw (write_records, o, i) at p)).0
          | inl ((uw', none), i) ↦
              write_index-wrapper (record bs { undo_db = some uw'.db }) bs' block height rnds.1 e
                (rw (write_records, o, i) at p)
        ]
      ]

  no_error :
      (bs bs' : BlockStorage sha256 l) (block : Block) (undo : Outcome (List ℕ × List ℕ))
      (height : ℕ) (rnds : ℕ × ℕ) (error : Option DbError)
      → write_records sha256 l bs block undo height rnds error ≡ ends bs' none
      → error ≡ none
  unfolding write_records
  no_error bs bs' block undo height rnds (some error) p = (same_storage p).1
  no_error bs bs' block undo height rnds none p = refl

  -- If `WriteBlock` stores a block whose serialization is of bytes and, with the magic bytes, takes at
  -- most 256 pages, and returns a nil error, then `GetBlockData` under the hash of the block returns
  -- the magic bytes and the serialization, save that the byte at every positive multiple of the page
  -- size is replaced by 0.
  pub get_block_data-write_block :
      (rnds : ℕ × ℕ) (bs bs' : BlockStorage sha256 l) (block : Block)
      (undo : Outcome (List ℕ × List ℕ)) (height : ℕ) (key bytes : List ℕ)
      → IsOpen l store bs.wrapper
      → get_block_hash sha256 block ≡ some key
      → serialize_block block ≡ some bytes
      → All IsByte (block_magic_bytes ++ bytes)
      → length (block_magic_bytes ++ bytes) ≤ 256 * storage_page_size
      → write_block sha256 l rnds bs block undo height ≡ returns (bs', none)
      → get_block_data sha256 l bs' key
        ≡ returns (some (damaged storage_page_size storage_page_size (block_magic_bytes ++ bytes)))
  unfolding write_block get_block_data
  get_block_data-write_block rnds bs bs' block undo height key bytes open_ hash serialized are_bytes
        fits p =
      elim (Outcome-cases
        (page_insert l bs.wrapper key (block_magic_bytes ++ bytes) storage_page_size)) [
          | inr (inl i) ↦ absurd (no_panic (rw (write_block, hash, serialized, i) at p))
          | inr (inr i) ↦ absurd (no_end (rw (write_block, hash, serialized, i) at p))
          | inl ((d, error), i) ↦
              let after = rw (write_block, hash, serialized, i) at p in
              let kept =
                write_records-wrapper (record bs { wrapper = d }) bs' block undo height rnds error
                  none after in
              let stored =
                i
                ∙ ap (λ e. returns (d, e))
                    (no_error (record bs { wrapper = d }) bs' block undo height rnds error after) in
              subst
                (λ w.
                  page_get l w key storage_page_size
                  ≡ returns (
                      some
                        (damaged storage_page_size storage_page_size (block_magic_bytes ++ bytes))))
                kept
                (page_get-page_insert l store key storage_page_size (omega arith) bs.wrapper d
                  (block_magic_bytes ++ bytes) open_ are_bytes fits stored)
        ]
