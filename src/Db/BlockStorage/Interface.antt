-- ===== src/Db/BlockStorage/Interface.antt =====
-- The block storage as the `IStorage` that core works on.
use plairo.Common.{ℕ, List}
use plairo.Core.Blockchain.{IStorage}
use plairo.Db.Wrapper.{LevelDb, DbError}
use plairo.Db.BlockStorage.{BlockStorage, write_block}

abbrev pub block_storage : (List ℕ → List ℕ) → LevelDb → ℕ × ℕ → IStorage
block_storage sha256 l rnds = record {
  Storage = BlockStorage sha256 l;
  Error = DbError;
  write_block = write_block sha256 l rnds;
}
