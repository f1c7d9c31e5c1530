-- ===== src/Db/BlockStorage.antt =====
-- db/block_storage.go and db/block_index.go. The undo storage and the index are opened for each call,
-- so that a storage carries their databases; `none` is one that does not open.
pub mod ReadBack
pub mod Interface
use plairo.Common.{◌%◌, ◌^◌, false, ℕ, Bool, true, if◌then◌else◌, Outcome, returns, panics, runs_on}
use plairo.Common.{List, [], ◌∷◌, ◌++◌, Option, none, some}
use plairo.Utils.Serializer.{serialize_uint32}
use plairo.Core.Block.{Block, get_block_header, get_block_hash, get_no_of_tx, serialize_block}
use plairo.Db.Wrapper.{
  LevelDb, DbError, DbWrapper, Called, build_key, insert_value, put_in_batch, write_batch,
  page_insert, page_get,
}
use plairo.Db.Opening.{new_db_wrapper}

-- 'b' and 't'
abbrev pub block_index_key : ℕ
block_index_key = 0x62

abbrev pub tx_index_key : ℕ
tx_index_key = 0x74

abbrev pub block_magic_bytes : List ℕ
block_magic_bytes = 0xf9 ∷ 0xbe ∷ 0xb4 ∷ 0xd9 ∷ []

abbrev pub storage_page_size : ℕ
storage_page_size = 102400

module _ (sha256 : List ℕ → List ℕ) (l : LevelDb) where
  -- The storage of the blocks, and what `leveldb.OpenFile` finds for the undo records and the index.
  pub record BlockStorage : Type 0 where
    pub wrapper : DbWrapper l
    pub undo_db : Option (LevelDb.Db l)
    pub index_db : Option (LevelDb.Db l)

  -- A step that a nil header or a database that does not open stops.
  abbrev pub or_stop {ℓ κ} : {A : Type ℓ} {B : Type κ} → Option A → (A → Outcome B) → Outcome B
  or_stop none next = panics
  or_stop (some a) next = next a

  -- A call that ends: the wrapper that it leaves and its error.
  abbrev pub then_with {κ} :
      {B : Type κ} → Called l → (DbWrapper l → Option DbError → Outcome B) → Outcome B
  then_with panics next = panics
  then_with runs_on next = runs_on
  then_with (returns (d, e)) next = next d e

  unfoldable pub insert_block_index_record : DbWrapper l → Block → ℕ → Called l
  insert_block_index_record bi block block_height = or_stop (get_block_header block) λ header.
      or_stop (get_block_hash sha256 block) λ hash.
        insert_value l bi (build_key block_index_key hash) (
          header
          ++ (serialize_uint32 block_height false
              ++ serialize_uint32 (get_no_of_tx block % 2 ^ 32) false))

  unfoldable pub insert_tx_index_record : DbWrapper l → List ℕ → ℕ → Bool → Called l
  insert_tx_index_record bi txid tx_offset_in_block batch_mode =
      let res = serialize_uint32 tx_offset_in_block false in
      if batch_mode
      then returns (put_in_batch l bi (build_key tx_index_key txid) res, none)
      else insert_value l bi (build_key tx_index_key txid) res

  unfoldable pub write_batch_bi : DbWrapper l → DbWrapper l × Option DbError
  write_batch_bi bi = write_batch l bi

  -- `undo` is what `GetUndoData` gives for the block.
  unfoldable pub write_undo : DbWrapper l → Block → Outcome (List ℕ × List ℕ) → Called l
  write_undo us block panics = panics
  write_undo us block runs_on = runs_on
  write_undo us block (returns (block_undo, checksum)) =
      or_stop (get_block_hash sha256 block) λ key.
        page_insert l us key (block_magic_bytes ++ (block_undo ++ checksum)) storage_page_size

  -- The record of the index, once the block and its undo record are stored.
  unfoldable pub write_index :
      BlockStorage → Block → ℕ → ℕ → Outcome (BlockStorage × Option DbError)
  write_index bs block height rnd = or_stop (new_db_wrapper l bs.index_db rnd true) λ bi.
      then_with (insert_block_index_record bi block height)
        λ bi' e. returns (record bs { index_db = some bi'.db }, e)

  abbrev stop_or_index :
      BlockStorage → Block → ℕ → ℕ → Option DbError → Outcome (BlockStorage × Option DbError)
  stop_or_index bs block height rnd (some e) = returns (bs, some e)
  stop_or_index bs block height rnd none = write_index bs block height rnd

  -- The undo record, then the index.
  unfoldable pub write_records :
      BlockStorage
      → Block
      → Outcome (List ℕ × List ℕ)
      → ℕ
      → ℕ × ℕ
      → Option DbError
      → Outcome (BlockStorage × Option DbError)
  write_records bs block undo height rnds (some e) = returns (bs, some e)
  write_records bs block undo height rnds none =
      or_stop (new_db_wrapper l bs.undo_db rnds.0 true) λ uw.
        then_with (write_undo uw block undo)
          λ uw' e. stop_or_index (record bs { undo_db = some uw'.db }) block height rnds.1 e

  -- `rnds` are the numbers from which obfuscation keys are drawn.
  unfoldable pub write_block :
      ℕ × ℕ
      → BlockStorage
      → Block
      → Outcome (List ℕ × List ℕ)
      → ℕ
      → Outcome (BlockStorage × Option DbError)
  write_block rnds bs block undo height = or_stop (get_block_hash sha256 block) λ key.
      or_stop (serialize_block block) λ serialized.
        then_with (page_insert l bs.wrapper key (block_magic_bytes ++ serialized) storage_page_size)
          λ d e. write_records (record bs { wrapper = d }) block undo height rnds e

  unfoldable pub get_block_data : BlockStorage → List ℕ → Outcome (Option (List ℕ))
  get_block_data bs bkey = page_get l bs.wrapper bkey storage_page_size

  -- Opening the undo storage may write its key.
  unfoldable pub get_undo_record :
      ℕ → BlockStorage → List ℕ → Outcome (BlockStorage × Option (List ℕ))
  get_undo_record rnd bs bkey = or_stop (new_db_wrapper l bs.undo_db rnd true) λ uw.
      elim (page_get l uw bkey storage_page_size) [
        | panics ↦ panics
        | runs_on ↦ runs_on
        | returns bytes ↦ returns (record bs { undo_db = some uw.db }, bytes)
      ]
