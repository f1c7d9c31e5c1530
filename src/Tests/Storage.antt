-- ===== src/Tests/Storage.antt =====
-- The block storage over lists of keys and values.
use plairo.Common.{ℕ, ◌*◌, ◌≤◌, ◌≡◌, refl, arith, true, Outcome, returns, All, IsByte, bytes_eq}
use plairo.Common.{List, [], ◌∷◌, ◌++◌, length, Option, none, some}
use plairo.Utils.Serializer.{serialize_uint32, serialize_uint64}
use plairo.Core.Header.{get_hash, serialize_header}
use plairo.Core.Block.{
  Block, get_block_hash, get_block_header, get_no_of_tx, serialize_block, serialize_txs,
}
use plairo.Db.Wrapper.{
  DbError, DbWrapper, build_key, obfuscate_value, obfuscate_from, insert_value, page_insert,
  page_insert_loop,
}
use plairo.Db.Wrapper.Paging.{damaged}
use plairo.Db.Opening.{new_db_wrapper, generate_obfuscation_key, obf_key_key}
use plairo.Db.Opening.Again.{new_db_wrapper-again}
use plairo.Db.BlockStorage.{
  BlockStorage, block_magic_bytes, storage_page_size, write_block, write_records, write_undo,
  write_index, insert_block_index_record, get_block_data,
}
use plairo.Db.BlockStorage.ReadBack.{get_block_data-write_block}
use plairo.Tests.Store.{pairs, pairs-IsStore}
use plairo.Tests.Unspent.{plain, plain-opens, all_bytes-All}
use plairo.Tests.Validation.{toy_hash}
use plairo.Tests.Blocks.{toy_header}

abbrev small_block : Block
small_block = record { header = some toy_header; all_block_tx = [] }

abbrev empty_storage : BlockStorage toy_hash pairs
empty_storage = record { wrapper = plain; undo_db = some []; index_db = some [] }

abbrev Call : Type 0
Call = Outcome (BlockStorage toy_hash pairs × Option DbError)

abbrev storage_of : Call → BlockStorage toy_hash pairs
storage_of (returns (bs, e)) = bs
storage_of _ = empty_storage

abbrev undo : Outcome (List ℕ × List ℕ)
undo = returns (0 ∷ 0 ∷ 0 ∷ 0 ∷ [], 5 ∷ 6 ∷ [])

abbrev stored : BlockStorage toy_hash pairs
stored = storage_of (write_block toy_hash pairs (77, 78) empty_storage small_block undo 1)

stores :
    write_block toy_hash pairs (77, 78) empty_storage small_block undo 1 ≡ returns (stored, none)
unfolding write_block write_records write_undo write_index insert_block_index_record new_db_wrapper
    generate_obfuscation_key get_block_hash get_block_header get_no_of_tx serialize_block
    serialize_txs get_hash serialize_header serialize_uint32 serialize_uint64 page_insert
    page_insert_loop insert_value obfuscate_value obfuscate_from build_key bytes_eq
stores = refl

abbrev block_bytes : List ℕ
block_bytes = serialize_header toy_header ++ (0 ∷ 0 ∷ 0 ∷ 0 ∷ [])

serialized : serialize_block small_block ≡ some block_bytes
unfolding serialize_block get_block_header serialize_txs serialize_uint32
serialized = refl

are_bytes : All IsByte (block_magic_bytes ++ block_bytes)
unfolding serialize_header serialize_uint32 serialize_uint64
are_bytes = all_bytes-All (block_magic_bytes ++ block_bytes) refl

fits : length (block_magic_bytes ++ block_bytes) ≤ 256 * storage_page_size
unfolding serialize_header serialize_uint32 serialize_uint64
fits = omega arith

hash : get_block_hash toy_hash small_block ≡ some (get_hash toy_hash toy_header)
unfolding get_block_hash
hash = refl

get_block_data-write_block_example :
    get_block_data toy_hash pairs stored (get_hash toy_hash toy_header)
    ≡ returns
        (some (damaged storage_page_size storage_page_size (block_magic_bytes ++ block_bytes)))
get_block_data-write_block_example =
    get_block_data-write_block toy_hash pairs pairs-IsStore (77, 78) empty_storage stored
      small_block undo 1 (get_hash toy_hash toy_header) block_bytes plain-opens hash serialized
      are_bytes fits stores

abbrev opened : DbWrapper pairs
opened = record {
  is_obfuscated = true;
  db = (obf_key_key, generate_obfuscation_key 77) ∷ [];
  obfuscation_key = generate_obfuscation_key 77;
  current_batch = none;
}

opens : new_db_wrapper pairs (some []) 77 true ≡ some opened
unfolding new_db_wrapper
opens = refl

new_db_wrapper-again_example : new_db_wrapper pairs (some opened.db) 78 true ≡ some opened
new_db_wrapper-again_example =
    new_db_wrapper-again pairs pairs-IsStore (some []) 77 78 true opened opens
